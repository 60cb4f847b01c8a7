-- ===== src/Compare/Agree.antt =====
-- Comparisons that agree on some elements: what the sorted lists of Avl/Sorted make of those.
use Prim.Native.Nat.Ordering.{lt, eq, gt}
use webcom_sdk_c.Avl.Sorted.{list_get, list_remove, IsSorted}
use webcom_sdk_c.Compare.Lex.{IsOrder}
use webcom_sdk_c.Compare.{Cmp, IsLawful, flip}
use webcom_sdk_c.Prelude.{◌≡◌, refl, sym, ◌∙◌, Ordering, List, [], ◌∷◌, All, arith}

self_flip : (o : Ordering) → o ≡ flip o → o ≡ eq
self_flip lt h = absurd cc
self_flip eq h = refl
self_flip gt h = absurd cc

-- An order, with elements that are copied as they are.
pub order-IsLawful {ℓ} :
    {A : Type ℓ} (c : A → A → Ordering) → IsOrder c → IsLawful (record { cmp = c; copy = λ a. a })
order-IsLawful c o = record {
  cmp_refl = λ a. self_flip (c a a) (o.cmp-flip a a);
  cmp_flip = o.cmp-flip;
  cmp_congr = o.cmp_congr;
  lt_trans = o.lt_trans;
  cmp-copy = λ a b. refl;
}

module _ {ℓ} {A : Type ℓ} (c d : Cmp A) (P : A → Type 0)
    (agree : (a b : A) → P a → P b → c.cmp a b ≡ d.cmp a b) where
  pub list_get_agree : (k : A) (xs : List A) → P k → All P xs → list_get c k xs ≡ list_get d k xs
  unfolding list_get
  list_get_agree k [] p a = refl
  list_get_agree k (x ∷ xs) p a = ground (arith, agree k x p a.0, list_get_agree k xs p a.1)

  pub list_remove_agree :
      (k : A) (xs : List A) → P k → All P xs → list_remove c k xs ≡ list_remove d k xs
  unfolding list_remove
  list_remove_agree k [] p a = refl
  list_remove_agree k (x ∷ xs) p a = ground (arith, agree k x p a.0, list_remove_agree k xs p a.1)

  less_agree :
      (x : A) (xs : List A)
      → P x
      → All P xs
      → All (λ y. c.cmp x y ≡ lt) xs
      → All (λ y. d.cmp x y ≡ lt) xs
  less_agree x [] p a h = tt
  less_agree x (y ∷ xs) p a h = (sym (agree x y p a.0) ∙ h.0, less_agree x xs p a.1 h.1)

  pub agree-IsSorted : (xs : List A) → All P xs → IsSorted c xs → IsSorted d xs
  agree-IsSorted [] a s = tt
  agree-IsSorted (x ∷ xs) a s = (less_agree x xs a.0 a.1 s.0, agree-IsSorted xs a.1 s.1)
