-- ===== src/Compare.antt =====
-- The functions that `avl_new` is given, with what the code of the tree relies on.
pub mod Agree
pub mod Lex
use Prim.Native.Nat.Ordering.{lt, eq, gt}
use webcom_sdk_c.Prelude.{◌≡◌, Ordering}

abbrev pub flip : Ordering → Ordering
flip lt = gt
flip eq = eq
flip gt = lt

-- `key_cmp`, by its sign, and `data_copy`.
pub record Cmp {ℓ} (A : Type ℓ) : Type ℓ where
  pub cmp : A → A → Ordering
  pub copy : A → A

-- What the code of the tree relies on: `key_cmp` is a total preorder, and `data_copy` does not change
-- how an element compares.
pub record IsLawful {ℓ} {A : Type ℓ} (c : Cmp A) : Type ℓ where
  pub cmp_refl : (a : A) → c.cmp a a ≡ eq
  pub cmp_flip : (a b : A) → c.cmp b a ≡ flip (c.cmp a b)
  pub cmp_congr : (a b d : A) → c.cmp a b ≡ eq → c.cmp a d ≡ c.cmp b d
  pub lt_trans : (a b d : A) → c.cmp a b ≡ lt → c.cmp b d ≡ lt → c.cmp a d ≡ lt
  pub cmp-copy : (a b : A) → c.cmp (c.copy a) b ≡ c.cmp a b
