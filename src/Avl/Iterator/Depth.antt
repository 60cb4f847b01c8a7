-- ===== src/Avl/Iterator/Depth.antt =====
-- The stack of the iterator of lib/collection/avl.c, an array of 32 entries: it holds as many
-- entries as the tree is deep at most, and a balanced tree of fewer than 9,227,464 elements is no
-- deeper than the array.
use webcom_sdk_c.Avl.Height.{IsMeasured, IsAvl}
use webcom_sdk_c.Avl.Iterator.{Node, It, push_left, it_start, next_on, it_next, after}
use webcom_sdk_c.Avl.Order.{to_list}
use webcom_sdk_c.Avl.{Tree, nil, node, Avl, height}
use webcom_sdk_c.Prelude.{
  ℕ, zero, suc, ◌+◌, ◌≤◌, ◌<◌, max, ◌≡◌, refl, sym, ap, some, List, [], ◌∷◌, length, length-append,
  inl, inr, compare, leb, leb→le, Bool-cases, Ordering-cases, arith,
}

module _ {ℓ} {A : Type ℓ} where
  -- The number of nodes on the longest way down.
  unfoldable pub levels : Tree A → ℕ
  levels nil = 0
  levels (node l h x r) = suc (max (levels l) (levels r))

  -- The stack fits in `d` entries, now and after what its nodes will push.
  abbrev Fits : ℕ → List (Node A) → Type 0
  Fits d [] = Unit
  Fits d (n ∷ s) = (levels n.right + suc (length s) ≤ d) × Fits d s

  Fits-push_left :
      (d : ℕ) (t : Tree A) (s : List (Node A))
      → levels t + length s ≤ d
      → Fits d s
      → Fits d (push_left t s)
  unfolding push_left levels
  Fits-push_left d nil s h f = f
  Fits-push_left d (node l k x r) s h f =
      Fits-push_left d l (record { left = l; elem = x; right = r } ∷ s) (omega arith)
        (omega arith, f)

  Fits-it_next : (d : ℕ) (it : It A) → Fits d it.stack → Fits d (it_next it).1.stack
  unfolding it_next
  Fits-it_next d it f = go it.stack f
    where
      go : (s : List (Node A)) → Fits d s → Fits d (next_on s it).1.stack
      go [] g = f
      go (n ∷ s) g = Fits-push_left d n.right s (omega arith) g.1

  Fits-after : (d n : ℕ) (it : It A) → Fits d it.stack → Fits d (after n it).stack
  unfolding after
  Fits-after d zero it f = f
  Fits-after d (suc n) it f = Fits-after d n (it_next it).1 (Fits-it_next d it f)

  Fits-length : (d : ℕ) (s : List (Node A)) → Fits d s → length s ≤ d
  Fits-length d [] f = omega arith
  Fits-length d (n ∷ s) f = omega arith

  -- However far the iteration has come, the stack holds as many entries as the tree has levels at
  -- most.
  pub length-stack-le-levels :
      (t : Avl A) (n : ℕ) → length (after n (it_start (some t))).stack ≤ levels t.root
  unfolding it_start
  length-stack-le-levels t n =
      let d = levels t.root in
      Fits-length d _ (Fits-after d n _ (Fits-push_left d t.root [] (omega arith) tt))

  -- A height field that is right is the number of levels.
  pub height-levels : (t : Tree A) → IsMeasured t → height t ≡ levels t
  unfolding height levels
  height-levels nil m = refl
  height-levels (node l h x r) m = omega (arith, height-levels l m.1, height-levels r m.2)

-- The fewest elements in a balanced tree of a height.
unfoldable pub min_size : ℕ → ℕ
min_size zero = 0
min_size (suc zero) = 1
min_size (suc (suc h)) = suc (min_size h + min_size (suc h))

min_size-suc : (h : ℕ) → min_size h ≤ min_size (suc h)
unfolding min_size
min_size-suc zero = omega arith
min_size-suc (suc h) = omega arith

min_size_zero : min_size 0 ≤ 0
unfolding min_size
min_size_zero = omega arith

min_size-suc-suc : (h : ℕ) → min_size (suc (suc h)) ≤ suc (min_size h + min_size (suc h))
unfolding min_size
min_size-suc-suc h = omega arith

min_size_mono : (h k : ℕ) → h ≤ k → min_size h ≤ min_size k
min_size_mono h zero p = let e : h ≡ 0 = omega arith in rw e (omega arith)
min_size_mono h (suc k) p = elim (Bool-cases (leb h k)) [
  | inl e ↦ omega (arith, min_size_mono h k (ground arith), min_size-suc k)
  | inr e ↦ let q : h ≡ suc k = ground arith in rw q (omega arith)
]

min_size_double : (h : ℕ) → min_size (suc h) ≤ suc (min_size h + min_size h)
unfolding min_size
min_size_double zero = omega arith
min_size_double (suc h) = omega (arith, min_size-suc h)

-- Joining two balanced trees whose heights are within one.
min_size_join :
    (a b : ℕ) → a ≤ b + 1 → b ≤ a + 1 → min_size (suc (max a b)) ≤ suc (min_size a + min_size b)
min_size_join a b p q = elim (Ordering-cases (compare a b)) [
  | inl e ↦
      let f : b ≡ suc a = ground arith in
      let g : max a b ≡ suc a = ground arith in rw (g, f) (min_size-suc-suc a)
  | inr (inl e) ↦
      let f : b ≡ a = ground arith in
      let g : max a b ≡ a = ground arith in rw (g, f) (min_size_double a)
  | inr (inr e) ↦
      let f : a ≡ suc b = ground arith in
      let g : max a b ≡ suc b = ground arith in rw (g, f) (omega (arith, min_size-suc-suc b))
]

-- The same numbers, computed without repetition.
min_sizes : ℕ → ℕ × ℕ
min_sizes zero = (0, 1)
min_sizes (suc h) = let (a, b) = min_sizes h in (b, suc (a + b))

min_sizes-min_size : (h : ℕ) → min_sizes h ≡ (min_size h, min_size (suc h))
unfolding min_sizes min_size
min_sizes-min_size zero = refl
min_sizes-min_size (suc h) = rw (min_sizes-min_size h)

min_size_33 : min_size 33 ≡ 9227464
unfolding min_sizes
min_size_33 = sym (ap (λ p. p.0) (min_sizes-min_size 33))

module _ {ℓ} {A : Type ℓ} where
  -- A balanced tree has as many elements as its height asks for.
  pub min_size-le-length : (t : Tree A) → IsAvl t → min_size (height t) ≤ length (to_list t)
  unfolding height to_list
  min_size-le-length nil v = min_size_zero
  min_size-le-length (node l h x r) v = rw v.0.0 (
      omega (
        arith,
        min_size_join (height l) (height r) v.1.0 v.1.1,
        min_size-le-length l (v.0.1, v.1.2),
        min_size-le-length r (v.0.2, v.1.3),
        length-append (to_list l) (x ∷ to_list r),
      ))

  -- In a balanced tree of fewer than 9,227,464 elements the iterator never holds more than the 32
  -- entries of its array.
  pub length-stack-le-32 :
      (t : Avl A) (n : ℕ)
      → IsAvl t.root
      → length (to_list t.root) < 9227464
      → length (after n (it_start (some t))).stack ≤ 32
  length-stack-le-32 t n v h = elim (Bool-cases (leb (height t.root) 32)) [
    | inl e ↦ omega (arith, length-stack-le-levels t n, height-levels t.root v.0, leb→le _ _ e)
    | inr e ↦ absurd (
        omega (
          arith,
          min_size_33,
          min_size_mono 33 (height t.root) (ground arith),
          min_size-le-length t.root v,
        ))
  ]
