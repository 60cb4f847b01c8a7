-- ===== src/Avl/Measured.antt =====
-- Every operation of lib/collection/avl.c leaves the height fields right, removal included, though
-- removal does not keep the tree balanced.
use webcom_sdk_c.Avl.Height.{IsMeasured, IsBalanced, IsAvl, measure, update_height-measure}
use webcom_sdk_c.Avl.{
  Tree, nil, node, height, update_height, balance, movr, insert_rec, remove_rec, rotl, rotr,
  left_high, right_high,
}
use webcom_sdk_c.Compare.{Cmp}
use webcom_sdk_c.Prelude.{
  ℕ, ◌+◌, ◌≤◌, ◌<◌, ◌≡◌, refl, if◌then◌else◌, ltb, true, false, inl, inr, Bool-cases,
  Ordering-cases, arith,
}

module _ {ℓ} {A : Type ℓ} where
  update_height-IsMeasured :
      (l : Tree A) (h : ℕ) (x : A) (r : Tree A)
      → IsMeasured l
      → IsMeasured r
      → IsMeasured (update_height (node l h x r))
  unfolding measure height
  update_height-IsMeasured l h x r a b = rw (update_height-measure l h x r) (refl, a, b)

  module _ (h : ℕ) (x : A) where
    rotl-IsMeasured :
        (l u : Tree A) (k : ℕ) (y : A) (s : Tree A)
        → IsMeasured l
        → IsMeasured u
        → IsMeasured s
        → IsMeasured (rotl (node l h x (node u k y s)))
    unfolding rotl height measure
    rotl-IsMeasured l u k y s a b d =
        rw (update_height-measure l h x u, update_height-measure _ k y s) (refl, (refl, a, b), d)

    rotr-IsMeasured :
        (u : Tree A) (k : ℕ) (y : A) (s r : Tree A)
        → IsMeasured u
        → IsMeasured s
        → IsMeasured r
        → IsMeasured (rotr (node (node u k y s) h x r))
    unfolding rotr height measure
    rotr-IsMeasured u k y s r a b d =
        rw (update_height-measure s h x r, update_height-measure u k y _) (refl, a, (refl, b, d))

    rotl_case :
        (l r : Tree A)
        → IsMeasured l
        → IsMeasured r
        → 0 < height r
        → IsMeasured (rotl (if left_high r then node l h x (rotr r) else node l h x r))
    unfolding height left_high measure
    rotl_case l nil a b p = absurd (omega arith)
    rotl_case l (node nil k y s) a b p = ground (arith, rotl-IsMeasured l nil k y s a tt b.2)
    rotl_case l (node (node u j z v) k y s) a b p = elim (Bool-cases (ltb (height s) j)) [
      | inr g ↦ rw g (rotl-IsMeasured l (node u j z v) k y s a b.1 b.2)
      | inl g ↦ rw g (
          unfold rotr in
          rw (update_height-measure v k y s, update_height-measure u j z _)
            (rotl-IsMeasured l u _ z (measure v k y s) a b.1.1 (refl, b.1.2, b.2)))
    ]

    rotr_case :
        (l r : Tree A)
        → IsMeasured l
        → IsMeasured r
        → 0 < height l
        → IsMeasured (rotr (if right_high l then node (rotl l) h x r else node l h x r))
    unfolding height right_high measure
    rotr_case nil r a b p = absurd (omega arith)
    rotr_case (node u k y nil) r a b p = ground (arith, rotr-IsMeasured u k y nil r a.1 tt b)
    rotr_case (node u k y (node v j z s)) r a b p = elim (Bool-cases (ltb (height u) j)) [
      | inr g ↦ rw g (rotr-IsMeasured u k y (node v j z s) r a.1 a.2 b)
      | inl g ↦ rw g (
          unfold rotl in
          rw (update_height-measure u k y v, update_height-measure _ j z s)
            (rotr-IsMeasured (measure u k y v) _ z s r (refl, a.1, a.2.1) a.2.2 b))
    ]

    -- However far apart the subtrees are, the fields are right after rebalancing.
    pub balance-IsMeasured :
        (l r : Tree A) → IsMeasured l → IsMeasured r → IsMeasured (balance (node l h x r))
    unfolding balance
    balance-IsMeasured l r a b = elim (Bool-cases (ltb (height l + 1) (height r))) [
      | inl e ↦ rw e (rotl_case l r a b (ground arith))
      | inr e ↦ rw e (elim (Bool-cases (ltb (height r + 1) (height l))) [
        | inl f ↦ rw f (rotr_case l r a b (ground arith))
        | inr f ↦ rw f (update_height-IsMeasured l h x r a b)
      ])
    ]

  movr-IsMeasured : (l r : Tree A) → IsMeasured l → IsMeasured r → IsMeasured (movr l r)
  unfolding movr
  movr-IsMeasured nil r a b = b
  movr-IsMeasured (node l h x s) r a b =
      balance-IsMeasured h x l (movr s r) a.1 (movr-IsMeasured s r a.2 b)

module _ {ℓ} {A : Type ℓ} (c : Cmp A) where
  pub insert_rec-IsMeasured : (t : Tree A) (e : A) → IsMeasured t → IsMeasured (insert_rec c t e)
  unfolding insert_rec height
  insert_rec-IsMeasured nil e m = ground arith
  insert_rec-IsMeasured (node l h x r) e m =
      let i = insert_rec-IsMeasured l e m.1 in
      let j = insert_rec-IsMeasured r e m.2 in
      elim (Ordering-cases (c.cmp e x)) [
        | inl g ↦ rw (g, insert_rec) (balance-IsMeasured h x _ r i m.2)
        | inr (inl g) ↦ rw (g, insert_rec) (balance-IsMeasured h x l _ m.1 j)
        | inr (inr g) ↦ rw (g, insert_rec) (balance-IsMeasured h x l _ m.1 j)
      ]

  -- A key that is not found leaves the tree as it was.
  pub remove_rec-absent :
      (t : Tree A) (k : A) → (remove_rec c t k).1 ≡ false → (remove_rec c t k).0 ≡ t
  unfolding remove_rec
  remove_rec-absent nil k e = refl
  remove_rec-absent (node l h x r) k e =
      ground (arith, remove_rec-absent l k, remove_rec-absent r k)

  pub remove_rec-IsMeasured : (t : Tree A) (k : A) → IsMeasured t → IsMeasured (remove_rec c t k).0
  unfolding remove_rec
  remove_rec-IsMeasured nil k m = tt
  remove_rec-IsMeasured (node l h x r) k m =
      let i = remove_rec-IsMeasured l k m.1 in
      let j = remove_rec-IsMeasured r k m.2 in
      ground (
        arith,
        movr-IsMeasured l r m.1 m.2,
        balance-IsMeasured h x (remove_rec c l k).0 r i m.2,
        balance-IsMeasured h x l (remove_rec c r k).0 m.1 j,
        remove_rec-absent l k,
        remove_rec-absent r k,
      )

module _ {ℓ} {A : Type ℓ} (x : A) where
  rotl-unbalances :
      (rl : Tree A) (k : ℕ) (y : A) (rr : Tree A)
      → 2 ≤ height rl
      → ¬ IsBalanced (rotl (node nil 1 x (node rl k y rr)))
  unfolding rotl height measure
  rotl-unbalances rl k y rr p q =
      let q' : IsBalanced (measure (measure nil 1 x rl) k y rr) =
        rw (update_height-measure nil 1 x rl, update_height-measure (measure nil 1 x rl) k y rr) at
          q in
      absurd (omega arith)

  rotrl-unbalances :
      (u : Tree A) (j : ℕ) (z : A) (v : Tree A) (k : ℕ) (y : A) (s : Tree A)
      → 2 ≤ height u
      → ¬ IsBalanced (rotl (node nil 1 x (rotr (node (node u j z v) k y s))))
  unfolding rotr
  rotrl-unbalances u j z v k y s p q =
      let q' : IsBalanced (rotl (node nil 1 x (measure u j z (measure v k y s)))) =
        rw (update_height-measure v k y s, update_height-measure u j z _) at q in
      unfold measure in rotl-unbalances u _ z (measure v k y s) p q'

  -- `avl_movr` of a balanced tree of height 5 or more below a leaf, as the removal of a node with such
  -- children does, gives a tree that is not balanced.
  pub movr-unbalances :
      (r : Tree A) → IsAvl r → 5 ≤ height r → ¬ IsBalanced (movr (node nil 1 x nil) r)
  unfolding movr balance height
  movr-unbalances nil v p q = absurd (omega arith)
  movr-unbalances (node nil k y s) v p q = absurd (omega arith)
  movr-unbalances (node (node u j z w) k y s) v p q =
      let e : ltb (0 + 1) k ≡ true = ground arith in
      elim (Bool-cases (ltb (height s) j)) [
        | inl g ↦ rotrl-unbalances u j z w k y s (ground arith) (rw (e, g) at q)
        | inr g ↦
            rotl-unbalances (node u j z w) k y s (unfold height in omega arith) (rw (e, g) at q)
      ]
