-- ===== src/Path/Order.antt =====
-- The order of keys and of paths in lib/datasync/path.c: keys that are numbers come first. A comparison gives the
-- sign of the `int` that the code returns.
pub mod Narrow
use Prim.Native.Nat.Ordering.{lt, eq, gt}
use native.Mathlib.Nat.{zero-add}
use webcom_sdk_c.Compare.{flip}
use webcom_sdk_c.Compare.Lex.{IsOrder, or_then, lex, lex-IsOrder}
use webcom_sdk_c.Path.{DsPath, parts}
use webcom_sdk_c.Prelude.{
  ℕ, zero, suc, ◌+◌, ◌-◌, ◌%◌, ◌^◌, ◌≤◌, ◌<◌, compare, Ordering, ◌≡◌, refl, sym, ap, ap₂, ◌∙◌, Bool,
  true, false, Option, none, some, List, [], ◌∷◌, map, ◌==◌, if◌then◌else◌, ltb, length, u64_mod,
  u32_mod, arith, inl, inr, Ordering-cases, Option-cases,
}

-- The sign of strcmp.
unfoldable pub strcmp : List ℕ → List ℕ → Ordering
unfolding lex
strcmp = lex compare

-- The sign of a difference of two `int64_t` as an `int`, its low 32 bits.
unfoldable pub int_sign : ℕ → Ordering
int_sign d = if d % u32_mod == 0 then eq else if ltb (d % u32_mod) (2 ^ 31) then gt else lt

-- `case 3` of the `switch`: two numbers, with the lengths of their texts. An `int64_t` stands as itself plus
-- 2^63; the difference wraps around.
unfoldable pub number_cmp : ℕ → ℕ → ℕ → ℕ → Ordering
unfolding int_sign
number_cmp ia alen ib blen = if ia == ib then compare alen blen else int_sign (ia + (u64_mod - ib))

-- The `switch`: what the keys are read as, and the keys.
unfoldable pub status_cmp : Option ℕ → Option ℕ → List ℕ → List ℕ → Ordering
unfolding number_cmp strcmp
status_cmp none none sa sb = strcmp sa sb
status_cmp (some ia) none sa sb = lt
status_cmp none (some ib) sa sb = gt
status_cmp (some ia) (some ib) sa sb = number_cmp ia (length sa) ib (length sb)

-- `sscanf(s, "%li%n", …)` where it reads all of the key; what it makes of a key is the parameter `scan`.
module _ (scan : List ℕ → Option ℕ) where
  unfoldable pub key_cmp : List ℕ → List ℕ → Ordering
  unfolding status_cmp
  key_cmp sa sb = status_cmp (scan sa) (scan sb) sa sb

  -- The loop of `wc_datasync_path_cmp`, with the counts of parts.
  unfoldable pub cmp_parts : ℕ → ℕ → List (List ℕ) → List (List ℕ) → Ordering
  unfolding key_cmp
  cmp_parts na nb [] ys = compare na nb
  cmp_parts na nb (x ∷ xs) [] = compare na nb
  cmp_parts na nb (x ∷ xs) (y ∷ ys) = or_then (key_cmp x y) (cmp_parts na nb xs ys)

  unfoldable pub path_cmp : DsPath → DsPath → Ordering
  unfolding cmp_parts parts
  path_cmp a b = cmp_parts (length (parts a)) (length (parts b)) (parts a) (parts b)
