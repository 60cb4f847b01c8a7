-- ===== src/Avl/Height.antt =====
-- The balance of lib/collection/avl.c: insertion keeps every height field right and the heights of
-- two siblings within one of each other.
use webcom_sdk_c.Avl.{
  Tree, nil, node, height, update_height, balance, insert_rec, rotl, rotr, right_high, left_high,
  raise,
}
use webcom_sdk_c.Compare.{Cmp}
use webcom_sdk_c.Prelude.{
  ℕ, suc, ◌+◌, ◌≤◌, ◌<◌, max, ◌≡◌, ap, inl, inr, Bool-cases, Ordering-cases, ltb, if◌then◌else◌,
  arith,
}

module _ {ℓ} {A : Type ℓ} where
  -- Each node's field is the height of the tree below it.
  abbrev pub IsMeasured : Tree A → Type 0
  IsMeasured nil = Unit
  IsMeasured (node l h x r) = (h ≡ suc (max (height l) (height r))) × IsMeasured l × IsMeasured r

  -- The heights of the two subtrees of a node differ by one at most.
  abbrev pub IsBalanced : Tree A → Type 0
  IsBalanced nil = Unit
  IsBalanced (node l h x r) =
      (height l ≤ height r + 1) × (height r ≤ height l + 1) × IsBalanced l × IsBalanced r

  abbrev pub IsAvl : Tree A → Type 0
  IsAvl t = IsMeasured t × IsBalanced t

  unfoldable pub measure : (l : Tree A) (h : ℕ) (x : A) (r : Tree A) → Tree A
  measure l h x r = node l (suc (max (height l) (height r))) x r

  raise-max : (l r : Tree A) → raise (raise 0 l) r ≡ max (height l) (height r)
  unfolding raise height
  raise-max nil nil = omega arith
  raise-max nil (node rl rh y rr) = ground arith
  raise-max (node ll lh z lr) nil = ground arith
  raise-max (node ll lh z lr) (node rl rh y rr) = ground arith

  pub update_height-measure :
      (l : Tree A) (h : ℕ) (x : A) (r : Tree A) → update_height (node l h x r) ≡ measure l h x r
  unfolding update_height measure
  update_height-measure l h x r = ap (λ n. node l (suc n) x r) (raise-max l r)

  -- What rebalancing a node over `l` and `r` gives: a balanced tree as high as the higher of the
  -- two or one higher, and one higher where the two were within one.
  pub record Rebalanced (l r t : Tree A) : Type 0 where
    measured : IsMeasured t
    balanced : IsBalanced t
    lower : max (height l) (height r) ≤ height t
    upper : height t ≤ suc (max (height l) (height r))
    level :
        height l ≤ height r + 1
        → height r ≤ height l + 1
        → height t ≡ suc (max (height l) (height r))

  module _ (h : ℕ) (x : A) where
    update_height-Rebalanced :
        (l r : Tree A)
        → IsAvl l
        → IsAvl r
        → height l ≤ height r + 1
        → height r ≤ height l + 1
        → Rebalanced l r (update_height (node l h x r))
    unfolding height measure
    update_height-Rebalanced l r a b p q = rw (update_height-measure l h x r) (ground arith)

    rotl-Rebalanced :
        (l rl : Tree A) (rh : ℕ) (y : A) (rr : Tree A)
        → IsAvl l
        → IsAvl (node rl rh y rr)
        → rh ≡ height l + 2
        → height rl ≤ height rr
        → Rebalanced l (node rl rh y rr) (rotl (node l h x (node rl rh y rr)))
    unfolding rotl height measure
    rotl-Rebalanced l rl rh y rr a b e q =
        rw (update_height-measure l h x rl, update_height-measure _ rh y rr) (ground arith)

    rotr-Rebalanced :
        (ll : Tree A) (lh : ℕ) (y : A) (lr r : Tree A)
        → IsAvl (node ll lh y lr)
        → IsAvl r
        → lh ≡ height r + 2
        → height lr ≤ height ll
        → Rebalanced (node ll lh y lr) r (rotr (node (node ll lh y lr) h x r))
    unfolding rotr height measure
    rotr-Rebalanced ll lh y lr r a b e q =
        rw (update_height-measure lr h x r, update_height-measure ll lh y _) (ground arith)

    rotrl-Rebalanced :
        (l rll : Tree A) (k : ℕ) (z : A) (rlr : Tree A) (rh : ℕ) (y : A) (rr : Tree A)
        → let r = node (node rll k z rlr) rh y rr in
          IsAvl l
          → IsAvl r
          → rh ≡ height l + 2
          → height rr < k
          → Rebalanced l r (rotl (node l h x (rotr r)))
    unfolding rotl rotr height measure
    rotrl-Rebalanced l rll k z rlr rh y rr a b e q =
        rw
          (
            update_height-measure rlr rh y rr,
            update_height-measure rll k z _,
            update_height-measure l h x rll,
            update_height-measure (measure l h x rll) _ z (measure rlr rh y rr),
          )
          (ground arith)

    rotlr-Rebalanced :
        (ll : Tree A) (lh : ℕ) (y : A) (lrl : Tree A) (k : ℕ) (z : A) (lrr r : Tree A)
        → let l = node ll lh y (node lrl k z lrr) in
          IsAvl l
          → IsAvl r
          → lh ≡ height r + 2
          → height ll < k
          → Rebalanced l r (rotr (node (rotl l) h x r))
    unfolding rotl rotr height measure
    rotlr-Rebalanced ll lh y lrl k z lrr r a b e q =
        rw
          (
            update_height-measure ll lh y lrl,
            update_height-measure _ k z lrr,
            update_height-measure lrr h x r,
            update_height-measure (measure ll lh y lrl) _ z (measure lrr h x r),
          )
          (ground arith)

    rotl_case :
        (l r : Tree A)
        → IsAvl l
        → IsAvl r
        → height r ≡ height l + 2
        → Rebalanced l r (rotl (if left_high r then node l h x (rotr r) else node l h x r))
    unfolding height left_high
    rotl_case l nil a b e = absurd (omega arith)
    rotl_case l (node nil rh y rr) a b e = ground (arith, rotl-Rebalanced l nil rh y rr a b e)
    rotl_case l (node (node rll k z rlr) rh y rr) a b e = elim (Bool-cases (ltb (height rr) k)) [
      | inl g ↦ rw g (rotrl-Rebalanced l rll k z rlr rh y rr a b e (ground arith))
      | inr g ↦ rw g (rotl-Rebalanced l (node rll k z rlr) rh y rr a b e (ground arith))
    ]

    rotr_case :
        (l r : Tree A)
        → IsAvl l
        → IsAvl r
        → height l ≡ height r + 2
        → Rebalanced l r (rotr (if right_high l then node (rotl l) h x r else node l h x r))
    unfolding height right_high
    rotr_case nil r a b e = absurd (omega arith)
    rotr_case (node ll lh y nil) r a b e = ground (arith, rotr-Rebalanced ll lh y nil r a b e)
    rotr_case (node ll lh y (node lrl k z lrr)) r a b e = elim (Bool-cases (ltb (height ll) k)) [
      | inl g ↦ rw g (rotlr-Rebalanced ll lh y lrl k z lrr r a b e (ground arith))
      | inr g ↦ rw g (rotr-Rebalanced ll lh y (node lrl k z lrr) r a b e (ground arith))
    ]

    -- Subtrees two apart at most are brought within one.
    pub balance-Rebalanced :
        (l r : Tree A)
        → IsAvl l
        → IsAvl r
        → height l ≤ height r + 2
        → height r ≤ height l + 2
        → Rebalanced l r (balance (node l h x r))
    unfolding balance
    balance-Rebalanced l r a b p q = elim (Bool-cases (ltb (height l + 1) (height r))) [
      | inl e ↦ rw e (rotl_case l r a b (ground arith))
      | inr e ↦ rw e (elim (Bool-cases (ltb (height r + 1) (height l))) [
        | inl f ↦ rw f (rotr_case l r a b (ground arith))
        | inr f ↦ rw f (update_height-Rebalanced l r a b (ground arith) (ground arith))
      ])
    ]

  -- What an insertion below makes of `t`.
  abbrev pub Grown : Tree A → Tree A → Type 0
  Grown t t' = IsAvl t' × (height t ≤ height t') × (height t' ≤ height t + 1)

  module _ (l : Tree A) (h : ℕ) (x : A) (r : Tree A) (v : IsAvl (node l h x r)) where
    left-Grown : (l' : Tree A) → Grown l l' → Grown (node l h x r) (balance (node l' h x r))
    unfolding height
    left-Grown l' g =
        let b = balance-Rebalanced h x l' r g.0 (v.0.2, v.1.3) (omega arith) (omega arith) in
        ((b.measured, b.balanced), grind arith, grind arith)

    right-Grown : (r' : Tree A) → Grown r r' → Grown (node l h x r) (balance (node l h x r'))
    unfolding height
    right-Grown r' g =
        let b = balance-Rebalanced h x l r' (v.0.1, v.1.2) g.0 (omega arith) (omega arith) in
        ((b.measured, b.balanced), grind arith, grind arith)

module _ {ℓ} {A : Type ℓ} (c : Cmp A) where
  -- Insertion keeps a balanced tree balanced, and makes it higher by one at most.
  pub insert_rec-Grown : (t : Tree A) (e : A) → IsAvl t → Grown t (insert_rec c t e)
  unfolding insert_rec height
  insert_rec-Grown nil e v = ground arith
  insert_rec-Grown (node l h x r) e v =
      let i = insert_rec-Grown l e (v.0.1, v.1.2) in
      let j = insert_rec-Grown r e (v.0.2, v.1.3) in
      elim (Ordering-cases (c.cmp e x)) [
        | inl g ↦ rw (g, insert_rec) (left-Grown l h x r v _ i)
        | inr (inl g) ↦ rw (g, insert_rec) (right-Grown l h x r v _ j)
        | inr (inr g) ↦ rw (g, insert_rec) (right-Grown l h x r v _ j)
      ]
