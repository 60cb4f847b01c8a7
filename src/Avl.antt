-- ===== src/Avl.antt =====
-- lib/collection/avl.c: the balanced tree behind the listen registry, the `on` registry and the
-- children of a cache node. A node pointer is a tree, NULL is `nil`; a function that writes
-- through a node pointer returns the changed tree. Only the sign of a comparison is ever read,
-- so `key_cmp` returns an `Ordering`.
pub mod Sorted
pub mod Order
pub mod Height
pub mod Measured
pub mod Operations
pub mod Walk
pub mod Iterator
use webcom_sdk_c.Compare.{Cmp}
use webcom_sdk_c.Prelude.{
  ℕ, suc, ◌+◌, ◌-◌, ◌%◌, Bool, true, false, Option, none, some, Ordering, ltb, if◌then◌else◌,
  u32_mod,
}
use Prim.Native.Nat.Ordering.{lt, eq, gt}

-- `struct avl_node`
pub data Tree {ℓ} (A : Type ℓ) : Type ℓ where
  nil : Tree A
  node : Tree A → ℕ → A → Tree A → Tree A

module _ {ℓ} {A : Type ℓ} where
  -- `n ? n->height : 0`
  unfoldable pub height : Tree A → ℕ
  height nil = 0
  height (node l h x r) = h

  -- `if (t && t->height > h) h = t->height`
  raise : ℕ → Tree A → ℕ
  raise h nil = h
  raise h (node _ k _ _) = if ltb h k then k else h

  unfoldable pub update_height : Tree A → Tree A
  unfolding raise
  update_height nil = nil
  update_height (node l h x r) = node l (suc (raise (raise 0 l) r)) x r

  -- The tests `avl_delta(t) < -1`, `> 1`, `< 0` and `> 0`, where the delta is the left height less
  -- the right one.
  right_heavy : Tree A → Bool
  right_heavy nil = false
  right_heavy (node l _ _ r) = ltb (height l + 1) (height r)

  left_heavy : Tree A → Bool
  left_heavy nil = false
  left_heavy (node l _ _ r) = ltb (height r + 1) (height l)

  right_high : Tree A → Bool
  right_high nil = false
  right_high (node l _ _ r) = ltb (height l) (height r)

  left_high : Tree A → Bool
  left_high nil = false
  left_high (node l _ _ r) = ltb (height r) (height l)

  -- The rotations read a child that `balance` has found to be there; without it the tree stays.
  rotl : Tree A → Tree A
  rotl (node l h x (node rl rh y rr)) = update_height (node (update_height (node l h x rl)) rh y rr)
  rotl t = t

  rotr : Tree A → Tree A
  rotr (node (node ll lh y lr) h x r) = update_height (node ll lh y (update_height (node lr h x r)))
  rotr t = t

  -- `n->r = f(n->r)`, `n->l = f(n->l)`
  on_right : (Tree A → Tree A) → Tree A → Tree A
  on_right f nil = nil
  on_right f (node l h x r) = node l h x (f r)

  on_left : (Tree A → Tree A) → Tree A → Tree A
  on_left f nil = nil
  on_left f (node l h x r) = node (f l) h x r

  right_of : Tree A → Tree A
  right_of nil = nil
  right_of (node l h x r) = r

  left_of : Tree A → Tree A
  left_of nil = nil
  left_of (node l h x r) = l

  unfoldable pub balance : Tree A → Tree A
  unfolding right_heavy left_heavy right_high left_high rotl rotr on_right on_left right_of left_of
  balance n =
      if right_heavy n
      then rotl (if left_high (right_of n) then on_right rotr n else n)
      else if left_heavy n
      then rotr (if right_high (left_of n) then on_left rotl n else n)
      else update_height n

  -- `r` becomes the right child of the rightmost node of `n`
  unfoldable pub movr : Tree A → Tree A → Tree A
  movr nil r = r
  movr (node nl h x nr) r = balance (node nl h x (movr nr r))

module _ {ℓ} {A : Type ℓ} (c : Cmp A) where
  open c use {cmp}

  -- `*ins` is 1 whenever the recursion returns, so each node on the way up is balanced.
  unfoldable pub insert_rec : Tree A → A → Tree A
  insert_rec nil e = node nil 1 e nil
  insert_rec (node l h x r) e = elim (cmp e x) [
    | lt ↦ balance (node (insert_rec l e) h x r)
    | _ ↦ balance (node l h x (insert_rec r e))
  ]

  -- the loop of `avl_get`
  unfoldable pub get_rec : Tree A → A → Option A
  get_rec nil k = none
  get_rec (node l h x r) k = elim (cmp k x) [ lt ↦ get_rec l k | gt ↦ get_rec r k | eq ↦ some x ]

  -- The second result is false where the C function returns NULL: the key is absent, and then no
  -- node is balanced or changed.
  unfoldable pub remove_rec : Tree A → A → Tree A × Bool
  remove_rec nil k = (nil, false)
  remove_rec (node l h x r) k = elim (cmp k x) [
    | eq ↦ (movr l r, true)
    | lt ↦
        let (l', parent) = remove_rec l k in
        if parent then (balance (node l' h x r), true) else (node l' h x r, false)
    | gt ↦
        let (r', parent) = remove_rec r k in
        if parent then (balance (node l h x r'), true) else (node l h x r', false)
  ]

-- `struct avl`, less the functions, which are the parameter `Cmp`
pub record Avl {ℓ} (A : Type ℓ) : Type ℓ where
  pub root : Tree A
  pub count : ℕ

unfoldable pub new {ℓ} : {A : Type ℓ} → Avl A
new = record { root = nil; count = 0 }

module _ {ℓ} {A : Type ℓ} (c : Cmp A) where
  unfoldable pub get : Avl A → A → Option A
  get t k = get_rec c t.root k

  -- the result is the element in the tree, or `none` for NULL
  unfoldable pub insert : Avl A → A → Avl A × Option A
  insert t d = elim (get t d) [
    | some _ ↦ (t, none)
    | none ↦
        let e = c.copy d in
        (record { root = insert_rec c t.root e; count = (t.count + 1) % u32_mod }, some e)
  ]

  unfoldable pub remove : Avl A → A → Avl A
  remove t k =
      let (n, found) = remove_rec c t.root k in
      record { root = n; count = if found then (t.count + (u32_mod - 1)) % u32_mod else t.count }
