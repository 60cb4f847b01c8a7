-- ===== src/Avl/Order.antt =====
-- lib/collection/avl.c against the sorted list: rotations keep the order of the elements, and
-- the operations are those of the list.
use Prim.Native.Nat.Ordering.{lt, eq, gt}
use webcom_sdk_c.Avl.Sorted.{
  list_insert, list_get, list_remove, IsSorted, Below, Above, Above-trans, Below_trans, Below_congr,
  IsSorted-append_left, IsSorted-append_right, IsSorted-Below, list_insert-append_left,
  list_insert-append_right, list_get-append_left, list_get-append_right, list_remove-append_left,
  list_remove-append_right,
}
use webcom_sdk_c.Avl.{
  Tree, nil, node, update_height, balance, movr, insert_rec, get_rec, remove_rec, rotl, rotr,
  on_right, on_left,
}
use webcom_sdk_c.Compare.{Cmp, IsLawful}
use webcom_sdk_c.Prelude.{
  ◌≡◌, refl, sym, ◌∙◌, none, true, List, [], ◌∷◌, ◌++◌, append_assoc, arith, ◌≢◌, ◌↔◌, inl, inr,
  Ordering-cases,
}

module _ {ℓ} {A : Type ℓ} where
  unfoldable pub to_list : Tree A → List A
  to_list nil = []
  to_list (node l h x r) = to_list l ++ x ∷ to_list r

  to_list-update_height : (t : Tree A) → to_list (update_height t) ≡ to_list t
  unfolding to_list update_height
  to_list-update_height nil = refl
  to_list-update_height (node l h x r) = refl

  to_list-rotl : (t : Tree A) → to_list (rotl t) ≡ to_list t
  unfolding to_list rotl update_height
  to_list-rotl nil = refl
  to_list-rotl (node l h x nil) = refl
  to_list-rotl (node l h x (node rl rh y rr)) = simp append_assoc

  to_list-rotr : (t : Tree A) → to_list (rotr t) ≡ to_list t
  unfolding to_list rotr update_height
  to_list-rotr nil = refl
  to_list-rotr (node nil h x r) = refl
  to_list-rotr (node (node ll lh y lr) h x r) = simp append_assoc

  to_list-on_right :
      (f : Tree A → Tree A)
      → ((t : Tree A) → to_list (f t) ≡ to_list t)
      → (t : Tree A) → to_list (on_right f t) ≡ to_list t
  unfolding to_list on_right
  to_list-on_right f e nil = refl
  to_list-on_right f e (node l h x r) = rw (e r)

  to_list-on_left :
      (f : Tree A → Tree A)
      → ((t : Tree A) → to_list (f t) ≡ to_list t)
      → (t : Tree A) → to_list (on_left f t) ≡ to_list t
  unfolding to_list on_left
  to_list-on_left f e nil = refl
  to_list-on_left f e (node l h x r) = rw (e l)

  -- Rebalancing moves no element.
  pub to_list-balance : (t : Tree A) → to_list (balance t) ≡ to_list t
  unfolding balance
  to_list-balance t = ground (
    arith,
    to_list-rotl t,
    to_list-rotl (on_right rotr t),
    to_list-on_right rotr to_list-rotr t,
    to_list-rotr t,
    to_list-rotr (on_left rotl t),
    to_list-on_left rotl to_list-rotl t,
    to_list-update_height t,
  )

  pub to_list-movr : (l r : Tree A) → to_list (movr l r) ≡ to_list l ++ to_list r
  unfolding movr to_list
  to_list-movr nil r = refl
  to_list-movr (node nl h x nr) r =
      to_list-balance (node nl h x (movr nr r))
      ∙ rw (to_list-movr nr r) (sym (append_assoc (to_list nl) (x ∷ to_list nr) (to_list r)))

module _ {ℓ} {A : Type ℓ} (c : Cmp A) where
  open c use {cmp}

  -- The search-tree invariant: the elements stand in the order of the comparison.
  abbrev pub IsOrdered : Tree A → Type 0
  IsOrdered t = IsSorted c (to_list t)

  -- The parts of an ordered node.
  pub record Parts (l : Tree A) (x : A) (r : Tree A) : Type 0 where
    pub left : IsOrdered l
    pub right : IsOrdered r
    pub below : Below c x (to_list l)
    pub above : Above c x (to_list r)

  pub parts_of :
      (l : Tree A) (x : A) (r : Tree A) → IsSorted c (to_list l ++ x ∷ to_list r) → Parts l x r
  parts_of l x r s =
      let t = IsSorted-append_right c (to_list l) (x ∷ to_list r) s in
      record {
        left = IsSorted-append_left c (to_list l) (x ∷ to_list r) s;
        right = t.1;
        below = IsSorted-Below c (to_list l) x (to_list r) s;
        above = t.0;
      }

  -- Where a key that compares so with the root of an ordered node stands against the rest.
  pub Above-of :
      ⦃law : IsLawful c⦄
      → (k x : A) (r : Tree A) → cmp k x ≡ lt
      → Above c x (to_list r)
      → Above c k (x ∷ to_list r)
  Above-of ⦃law⦄ k x r h a = (h, Above-trans c k x (to_list r) h a)

  pub lt_of_gt : ⦃law : IsLawful c⦄ → (k x : A) → cmp k x ≡ gt → cmp x k ≡ lt
  lt_of_gt ⦃law⦄ k x h = ground (arith, law.cmp_flip k x)

  pub below_of :
      ⦃law : IsLawful c⦄
      → (k x : A) (l : Tree A) → cmp k x ≡ gt
      → Below c x (to_list l)
      → Below c k (to_list l)
  below_of ⦃law⦄ k x l h = Below_trans c x k (to_list l) (lt_of_gt k x h)

  -- The search of the tree finds what a search of the whole list finds.
  pub get_rec-list_get :
      ⦃law : IsLawful c⦄
      → (t : Tree A) (k : A) → IsOrdered t
      → get_rec c t k ≡ list_get c k (to_list t)
  unfolding get_rec to_list list_get
  get_rec-list_get ⦃law⦄ nil k s = refl
  get_rec-list_get ⦃law⦄ (node l h x r) k s =
      let p = parts_of l x r s in
      elim (Ordering-cases (cmp k x)) [
        | inl e ↦
            rw (e, get_rec)
              (get_rec-list_get l k p.left
                ∙ sym (
                    list_get-append_left c k (to_list l) (x ∷ to_list r)
                      (Above-of k x r e p.above)))
        | inr (inl e) ↦
            rw (e, get_rec)
              (sym (
                list_get-append_right c k (to_list l) (x ∷ to_list r)
                  (Below_congr c k x (to_list l) e p.below)
                ∙ rw (e, list_get)))
        | inr (inr e) ↦
            rw (e, get_rec)
              (get_rec-list_get r k p.right
                ∙ sym (
                    list_get-append_right c k (to_list l) (x ∷ to_list r) (below_of k x l e p.below)
                    ∙ rw (e, list_get)))
      ]

  -- In a node, an element that is not below the root goes to the right part of the list.
  insert_right :
      ⦃law : IsLawful c⦄
      → (e x : A) (l r : Tree A) → cmp e x ≢ lt
      → Below c x (to_list l)
      → list_insert c e (to_list l ++ x ∷ to_list r) ≡ to_list l ++ x ∷ list_insert c e (to_list r)
  unfolding list_insert
  insert_right ⦃law⦄ e x l r h b = elim (Ordering-cases (cmp e x)) [
    | inl g ↦ absurd (h g)
    | inr (inl g) ↦
        list_insert-append_right c e (to_list l) (x ∷ to_list r) (Below_congr c e x (to_list l) g b)
        ∙ rw (g, list_insert)
    | inr (inr g) ↦
        list_insert-append_right c e (to_list l) (x ∷ to_list r) (below_of e x l g b)
        ∙ rw (g, list_insert)
  ]

  -- Insertion into the tree is insertion into the sorted list.
  pub to_list-insert_rec :
      ⦃law : IsLawful c⦄
      → (t : Tree A) (e : A) → IsOrdered t
      → to_list (insert_rec c t e) ≡ list_insert c e (to_list t)
  unfolding insert_rec to_list list_insert
  to_list-insert_rec ⦃law⦄ nil e s = refl
  to_list-insert_rec ⦃law⦄ (node l h x r) e s =
      let p = parts_of l x r s in
      ground (
        arith,
        to_list-balance (node (insert_rec c l e) h x r),
        to_list-balance (node l h x (insert_rec c r e)),
        to_list-insert_rec l e p.left,
        to_list-insert_rec r e p.right,
        list_insert-append_left c e (to_list l) x (to_list r),
        insert_right e x l r,
        p.below,
      )

  remove_right :
      ⦃law : IsLawful c⦄
      → (k x : A) (l r : Tree A) → cmp k x ≡ gt
      → Below c x (to_list l)
      → list_remove c k (to_list l ++ x ∷ to_list r) ≡ to_list l ++ x ∷ list_remove c k (to_list r)
  unfolding list_remove
  remove_right ⦃law⦄ k x l r h b =
      list_remove-append_right c k (to_list l) (x ∷ to_list r) (below_of k x l h b)
      ∙ rw (h, list_remove)

  remove_root :
      ⦃law : IsLawful c⦄
      → (k x : A) (l r : Tree A) → cmp k x ≡ eq
      → Below c x (to_list l)
      → list_remove c k (to_list l ++ x ∷ to_list r) ≡ to_list l ++ to_list r
  unfolding list_remove
  remove_root ⦃law⦄ k x l r h b =
      list_remove-append_right c k (to_list l) (x ∷ to_list r) (Below_congr c k x (to_list l) h b)
      ∙ rw (h, list_remove)

  remove_left :
      ⦃law : IsLawful c⦄
      → (k x : A) (l r : Tree A) → cmp k x ≡ lt
      → Above c x (to_list r)
      → list_remove c k (to_list l ++ x ∷ to_list r) ≡ list_remove c k (to_list l) ++ x ∷ to_list r
  remove_left ⦃law⦄ k x l r h a =
      list_remove-append_left c k (to_list l) (x ∷ to_list r) (Above-of k x r h a)

  -- Removal from the tree is removal from the sorted list.
  pub to_list-remove_rec :
      ⦃law : IsLawful c⦄
      → (t : Tree A) (k : A) → IsOrdered t
      → to_list (remove_rec c t k).0 ≡ list_remove c k (to_list t)
  unfolding remove_rec to_list list_remove
  to_list-remove_rec ⦃law⦄ nil k s = refl
  to_list-remove_rec ⦃law⦄ (node l h x r) k s =
      let p = parts_of l x r s in
      ground (
        arith,
        to_list-movr l r,
        to_list-balance (node (remove_rec c l k).0 h x r),
        to_list-balance (node l h x (remove_rec c r k).0),
        to_list-remove_rec l k p.left,
        to_list-remove_rec r k p.right,
        remove_left k x l r,
        remove_root k x l r,
        remove_right k x l r,
        p.below,
        p.above,
      )

  -- The flag of `remove_rec` is set exactly if the search finds the key.
  pub remove_rec-get_rec :
      (t : Tree A) (k : A) → ((remove_rec c t k).1 ≡ true) ↔ (get_rec c t k ≢ none)
  unfolding remove_rec get_rec
  remove_rec-get_rec nil k = ground arith
  remove_rec-get_rec (node l h x r) k =
      ground (arith, remove_rec-get_rec l k, remove_rec-get_rec r k)
