-- ===== src/Avl/Walk.antt =====
-- The recursive walks of lib/collection/avl.c: `avl_walk`, `avl_remove_all` and `avl_destroy`.
use mathlib.Core.List.{Perm, perm_middle}
use mathlib.Core.List.Perm
use webcom_sdk_c.Avl.Order.{to_list}
use webcom_sdk_c.Avl.{Tree, nil, node, Avl, new}
use webcom_sdk_c.Prelude.{◌≡◌, refl, List, [], ◌∷◌, ◌++◌, append-nil}

-- `enum avl_order`
pub data Order : Type 0 where
  preorder inorder postorder : Order

module _ {ℓ} {A : Type ℓ} where
  -- `if (order == AVL_PREORDER) walker(...)` and the two like it
  before : Order → A → List A
  before preorder x = x ∷ []
  before _ x = []

  between : Order → A → List A
  between inorder x = x ∷ []
  between _ x = []

  after : Order → A → List A
  after postorder x = x ∷ []
  after _ x = []

  -- The elements that the walker is called with, in the order of the calls.
  unfoldable pub walk_rec : Order → Tree A → List A
  unfolding before between after
  walk_rec o nil = []
  walk_rec o (node l h x r) =
      before o x ++ (walk_rec o l ++ (between o x ++ (walk_rec o r ++ after o x)))

  unfoldable pub walk : Avl A → Order → List A
  unfolding walk_rec
  walk t o = walk_rec o t.root

  -- The emptied tree, and the elements that the destroyer cleans up and frees, in its order.
  unfoldable pub remove_all : Avl A → List A × Avl A
  unfolding walk
  remove_all t = (walk t postorder, new)

  -- `avl_destroy` cleans up and frees these elements, and then the tree.
  unfoldable pub destroy : Avl A → List A
  unfolding remove_all
  destroy t = (remove_all t).0

  -- An inorder walk meets the elements in the order of the comparison.
  pub walk-inorder : (t : Tree A) → walk_rec inorder t ≡ to_list t
  unfolding walk_rec to_list
  walk-inorder nil = refl
  walk-inorder (node l h x r) = simp (walk-inorder l, walk-inorder r, append-nil)

  -- In every order a walk meets each element of the tree exactly once.
  pub walk_rec-perm : (o : Order) (t : Tree A) → Perm (walk_rec o t) (to_list t)
  unfolding walk_rec to_list
  walk_rec-perm o nil = Perm.refl []
  walk_rec-perm preorder (node l h x r) = simp append-nil (
      Perm.trans (Perm.cons x (Perm.append (walk_rec-perm preorder l) (walk_rec-perm preorder r)))
        (Perm.symm (perm_middle (to_list l) (to_list r))))
  walk_rec-perm inorder (node l h x r) =
      simp append-nil
        (Perm.append (walk_rec-perm inorder l) (Perm.cons x (walk_rec-perm inorder r)))
  walk_rec-perm postorder (node l h x r) =
      let last : Perm (to_list r ++ x ∷ []) (x ∷ to_list r) =
        simp append-nil at (perm_middle {a = x} (to_list r) []) in
      Perm.append (walk_rec-perm postorder l)
        (Perm.trans (Perm.append (walk_rec-perm postorder r) (Perm.refl (x ∷ []))) last)
