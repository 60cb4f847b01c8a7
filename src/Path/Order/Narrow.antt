-- ===== src/Path/Order/Narrow.antt =====
-- The laws of the orders of lib/datasync/path.c where the numbers among the keys are near one another, and what
-- becomes of keys whose numbers are not.
use Prim.Native.Nat.Ordering.{lt, eq, gt}
use native.Mathlib.Nat.{zero-add}
use webcom_sdk_c.Compare.{flip}
use webcom_sdk_c.Compare.Lex.{IsOrder, or_then, lex, lex-IsOrder}
use webcom_sdk_c.Path.{DsPath, parts}
use webcom_sdk_c.Path.Order.{strcmp, int_sign, number_cmp, status_cmp, key_cmp, cmp_parts, path_cmp}
use webcom_sdk_c.Prelude.{
  ℕ, suc, ◌+◌, ◌*◌, ◌^◌, ◌≤◌, ◌<◌, compare, Ordering, ◌≡◌, refl, sym, ap, ap₂, ◌∙◌, Option, none,
  some, List, [], ◌∷◌, length, u64_mod, arith, All, leb, ltb, ◌&&◌, if◌then◌else◌,
}

compare-IsOrder : IsOrder compare
compare-IsOrder = record {
  cmp-flip = λ a b. ground arith;
  cmp_congr = λ a b d h. ground arith;
  lt_trans = λ a b d h k. ground arith;
}

-- A key: a number with the length of its text, or a text.
data Key : Type 0 where
  number : ℕ → ℕ → Key
  text : List ℕ → Key

key_order : Key → Key → Ordering
unfolding strcmp
key_order (number a m) (number b n) = or_then (compare a b) (compare m n)
key_order (number a m) (text s) = lt
key_order (text s) (number b n) = gt
key_order (text s) (text u) = strcmp s u

strcmp-IsOrder : IsOrder strcmp
unfolding strcmp
strcmp-IsOrder = lex-IsOrder compare compare-IsOrder

key_order-flip : (a b : Key) → key_order b a ≡ flip (key_order a b)
unfolding key_order
key_order-flip (number a m) (number b n) = ground arith
key_order-flip (number a m) (text u) = refl
key_order-flip (text u) (number b n) = refl
key_order-flip (text u) (text v) = strcmp-IsOrder.cmp-flip u v

key_order_congr : (a b d : Key) → key_order a b ≡ eq → key_order a d ≡ key_order b d
unfolding key_order
key_order_congr (number a m) (number b n) (number d k) h = ground arith
key_order_congr (number a m) (number b n) (text w) h = refl
key_order_congr (number a m) (text v) d h = absurd cc
key_order_congr (text u) (number b n) d h = absurd cc
key_order_congr (text u) (text v) (number d k) h = refl
key_order_congr (text u) (text v) (text w) h = strcmp-IsOrder.cmp_congr u v w h

key_order_trans : (a b d : Key) → key_order a b ≡ lt → key_order b d ≡ lt → key_order a d ≡ lt
unfolding key_order
key_order_trans (number a m) (number b n) (number d k) h j = ground arith
key_order_trans (number a m) (number b n) (text w) h j = refl
key_order_trans (number a m) (text v) (number d k) h j = absurd cc
key_order_trans (number a m) (text v) (text w) h j = refl
key_order_trans (text u) (number b n) d h j = absurd cc
key_order_trans (text u) (text v) (number d k) h j = absurd cc
key_order_trans (text u) (text v) (text w) h j = strcmp-IsOrder.lt_trans u v w h j

key_order-IsOrder : IsOrder key_order
key_order-IsOrder = record {
  cmp-flip = key_order-flip;
  cmp_congr = key_order_congr;
  lt_trans = key_order_trans;
}

-- Below 2^31 apart, the difference has the sign of the comparison.
number_cmp-compare :
    (a m b n lo : ℕ)
    → lo ≤ a
    → a < lo + 2 ^ 31
    → lo ≤ b
    → b < lo + 2 ^ 31
    → lo + 2 ^ 31 ≤ u64_mod
    → number_cmp a m b n ≡ or_then (compare a b) (compare m n)
unfolding number_cmp int_sign
number_cmp-compare a m b n lo h1 h2 h3 h4 h5 = ground arith

key_with : Option ℕ → List ℕ → Key
key_with none s = text s
key_with (some i) s = number i (length s)

status_cmp-key_order :
    (oa ob : Option ℕ) (a b : List ℕ) (lo : ℕ)
    → ((i : ℕ) → oa ≡ some i → (lo ≤ i) × (i < lo + 2 ^ 31))
    → ((i : ℕ) → ob ≡ some i → (lo ≤ i) × (i < lo + 2 ^ 31))
    → lo + 2 ^ 31 ≤ u64_mod
    → status_cmp oa ob a b ≡ key_order (key_with oa a) (key_with ob b)
unfolding status_cmp key_order key_with
status_cmp-key_order none none a b lo f g h = refl
status_cmp-key_order (some i) none a b lo f g h = refl
status_cmp-key_order none (some j) a b lo f g h = refl
status_cmp-key_order (some i) (some j) a b lo f g h =
    let p = f i refl in
    let q = g j refl in number_cmp-compare i (length a) j (length b) lo p.0 p.1 q.0 q.1 h

module _ (scan : List ℕ → Option ℕ) where
  key_of : List ℕ → Key
  key_of s = key_with (scan s) s

  -- The loop compares the lists of parts element by element; where one list ends, the counts decide.
  cmp_parts-lex :
      (k na nb : ℕ) (xs ys : List (List ℕ))
      → na ≡ k + length xs
      → nb ≡ k + length ys
      → cmp_parts scan na nb xs ys ≡ lex (key_cmp scan) xs ys
  unfolding cmp_parts lex
  cmp_parts-lex k na nb [] [] e f = ground arith
  cmp_parts-lex k na nb [] (y ∷ ys) e f = ground arith
  cmp_parts-lex k na nb (x ∷ xs) [] e f = ground arith
  cmp_parts-lex k na nb (x ∷ xs) (y ∷ ys) e f =
      ap (or_then (key_cmp scan x y))
        (cmp_parts-lex (suc k) na nb xs ys (omega arith) (omega arith))

  -- The numbers that keys are read as stand less than 2^31 apart.
  record IsNarrow (lo : ℕ) : Type 0 where
    pub near : (s : List ℕ) (i : ℕ) → scan s ≡ some i → (lo ≤ i) × (i < lo + 2 ^ 31)
    pub top : lo + 2 ^ 31 ≤ u64_mod

  module _ (lo : ℕ) (r : IsNarrow lo) where
    key_cmp-key_order : (a b : List ℕ) → key_cmp scan a b ≡ key_order (key_of a) (key_of b)
    unfolding key_cmp key_of
    key_cmp-key_order a b =
        status_cmp-key_order (scan a) (scan b) a b lo (r.near a) (r.near b) r.top

    key_cmp-IsOrder : IsOrder (key_cmp scan)
    key_cmp-IsOrder = record {
      cmp-flip = λ a b.
          rw (key_cmp-key_order a b, key_cmp-key_order b a) (key_order-flip (key_of a) (key_of b));
      cmp_congr = λ a b d h.
          rw (key_cmp-key_order a d, key_cmp-key_order b d)
            (key_order_congr (key_of a) (key_of b) (key_of d) (sym (key_cmp-key_order a b) ∙ h));
      lt_trans = λ a b d h k. rw (key_cmp-key_order a d) (
          key_order_trans (key_of a) (key_of b) (key_of d) (sym (key_cmp-key_order a b) ∙ h)
            (sym (key_cmp-key_order b d) ∙ k));
    }

    parts_lex-IsOrder : IsOrder (lex (key_cmp scan))
    parts_lex-IsOrder = lex-IsOrder (key_cmp scan) key_cmp-IsOrder

  -- Keys that are read as numbers a positive multiple of 2^32 apart compare equal.
  pub key_cmp_wraps :
      (a b : List ℕ) (i k : ℕ)
      → scan a ≡ some i
      → scan b ≡ some (i + suc k * 2 ^ 32)
      → i + suc k * 2 ^ 32 < u64_mod
      → key_cmp scan a b ≡ eq
  unfolding key_cmp status_cmp number_cmp int_sign
  key_cmp_wraps a b i k e f h = rw (e, f) (ground arith)

-- The number that a key is read as, where it is read as one, is in the window from `lo` on.
abbrev pub IsNear : (List ℕ → Option ℕ) → ℕ → List ℕ → Type 0
IsNear scan lo s = (i : ℕ) → scan s ≡ some i → (lo ≤ i) × (i < lo + 2 ^ 31)

-- The same reading, less the numbers outside of the window.
in_window : ℕ → Option ℕ → Option ℕ
in_window lo none = none
in_window lo (some i) = if leb lo i && ltb i (lo + 2 ^ 31) then some i else none

in_window-near : (lo i : ℕ) (o : Option ℕ) → in_window lo o ≡ some i → (lo ≤ i) × (i < lo + 2 ^ 31)
unfolding in_window
in_window-near lo i none h = absurd cc
in_window-near lo i (some j) h = ground arith

in_window_same :
    (lo : ℕ) (o : Option ℕ)
    → ((i : ℕ) → o ≡ some i → (lo ≤ i) × (i < lo + 2 ^ 31))
    → in_window lo o ≡ o
unfolding in_window
in_window_same lo none f = refl
in_window_same lo (some i) f = let p = f i refl in ground (arith, p.0, p.1)

-- Comparisons that agree on some elements agree on lists of these.
lex_agree {ℓ} :
    {A : Type ℓ} (c d : A → A → Ordering) (P : A → Type 0) (xs ys : List A)
    → ((a b : A) → P a → P b → c a b ≡ d a b)
    → All P xs
    → All P ys
    → lex c xs ys ≡ lex d xs ys
unfolding lex
lex_agree c d P [] [] f p q = refl
lex_agree c d P [] (y ∷ ys) f p q = refl
lex_agree c d P (x ∷ xs) [] f p q = refl
lex_agree c d P (x ∷ xs) (y ∷ ys) f p q =
    ap₂ or_then (f x y p.0 q.0) (lex_agree c d P xs ys f p.1 q.1)

module _ (scan : List ℕ → Option ℕ) (lo : ℕ) (top : lo + 2 ^ 31 ≤ u64_mod) where
  pub windowed : List ℕ → Option ℕ
  windowed s = in_window lo (scan s)

  windowed-IsNarrow : IsNarrow windowed lo
  unfolding windowed
  windowed-IsNarrow = record { near = λ s i h. in_window-near lo i (scan s) h; top = top }

  pub windowed-IsOrder : IsOrder (key_cmp windowed)
  windowed-IsOrder = key_cmp-IsOrder windowed lo windowed-IsNarrow

  pub key_cmp-windowed :
      (a b : List ℕ) → IsNear scan lo a → IsNear scan lo b → key_cmp scan a b ≡ key_cmp windowed a b
  unfolding key_cmp windowed
  key_cmp-windowed a b p q = rw (in_window_same lo (scan a) p, in_window_same lo (scan b) q) refl

  pub parts-IsOrder : IsOrder (lex (key_cmp windowed))
  parts-IsOrder = parts_lex-IsOrder windowed lo windowed-IsNarrow

  pub cmp_parts-windowed :
      (xs ys : List (List ℕ))
      → All (IsNear scan lo) xs
      → All (IsNear scan lo) ys
      → cmp_parts scan (length xs) (length ys) xs ys ≡ lex (key_cmp windowed) xs ys
  cmp_parts-windowed xs ys p q =
      cmp_parts-lex scan 0 (length xs) (length ys) xs ys (sym (zero-add (length xs)))
        (sym (zero-add (length ys)))
      ∙ lex_agree (key_cmp scan) (key_cmp windowed) (IsNear scan lo) xs ys key_cmp-windowed p q

  path_cmp-windowed :
      (a b : DsPath)
      → All (IsNear scan lo) (parts a)
      → All (IsNear scan lo) (parts b)
      → path_cmp scan a b ≡ lex (key_cmp windowed) (parts a) (parts b)
  unfolding path_cmp
  path_cmp-windowed a b p q = cmp_parts-windowed (parts a) (parts b) p q

  -- Where the numbers that the parts of two paths are read as stand in one window of 2^31, the
  -- comparison of the paths the other way round has the opposite sign.
  pub path_cmp-flip :
      (a b : DsPath)
      → All (IsNear scan lo) (parts a)
      → All (IsNear scan lo) (parts b)
      → path_cmp scan b a ≡ flip (path_cmp scan a b)
  path_cmp-flip a b p q =
      rw (path_cmp-windowed a b p q, path_cmp-windowed b a q p)
        (parts-IsOrder.cmp-flip (parts a) (parts b))

  -- Where the numbers that the parts of three paths are read as stand in one window of 2^31, a path
  -- before a second one that is before a third one is before the third.
  pub path_cmp_trans :
      (a b d : DsPath)
      → All (IsNear scan lo) (parts a)
      → All (IsNear scan lo) (parts b)
      → All (IsNear scan lo) (parts d)
      → path_cmp scan a b ≡ lt
      → path_cmp scan b d ≡ lt
      → path_cmp scan a d ≡ lt
  path_cmp_trans a b d p q r h k =
      path_cmp-windowed a d p r
      ∙ parts-IsOrder.lt_trans (parts a) (parts b) (parts d) (sym (path_cmp-windowed a b p q) ∙ h)
          (sym (path_cmp-windowed b d q r) ∙ k)
