-- ===== src/Compare/Lex.antt =====
-- Lists compared element by element, as strcmp compares bytes and lib/datasync/path.c parts: the laws of the
-- elements' comparison hold of the lists.
use Prim.Native.Nat.Ordering.{lt, eq, gt}
use webcom_sdk_c.Compare.{flip}
use webcom_sdk_c.Prelude.{◌≡◌, refl, Ordering, List, [], ◌∷◌, arith}

-- A comparison that is a total preorder.
pub record IsOrder {ℓ} {A : Type ℓ} (c : A → A → Ordering) : Type ℓ where
  pub cmp-flip : (a b : A) → c b a ≡ flip (c a b)
  pub cmp_congr : (a b d : A) → c a b ≡ eq → c a d ≡ c b d
  pub lt_trans : (a b d : A) → c a b ≡ lt → c b d ≡ lt → c a d ≡ lt

-- The first comparison, unless it is equal.
abbrev pub or_then : Ordering → Ordering → Ordering
or_then lt p = lt
or_then eq p = p
or_then gt p = gt

module _ {ℓ} {A : Type ℓ} (c : A → A → Ordering) where
  unfoldable pub lex : List A → List A → Ordering
  lex [] [] = eq
  lex [] (y ∷ ys) = lt
  lex (x ∷ xs) [] = gt
  lex (x ∷ xs) (y ∷ ys) = or_then (c x y) (lex xs ys)

  module _ (o : IsOrder c) where
    lex-flip : (xs ys : List A) → lex ys xs ≡ flip (lex xs ys)
    unfolding lex
    lex-flip [] [] = refl
    lex-flip [] (y ∷ ys) = refl
    lex-flip (x ∷ xs) [] = refl
    lex-flip (x ∷ xs) (y ∷ ys) = ground (arith, o.cmp-flip x y, lex-flip xs ys)

    lex_congr : (xs ys zs : List A) → lex xs ys ≡ eq → lex xs zs ≡ lex ys zs
    unfolding lex
    lex_congr [] [] zs h = refl
    lex_congr [] (y ∷ ys) zs h = absurd cc
    lex_congr (x ∷ xs) [] zs h = absurd cc
    lex_congr (x ∷ xs) (y ∷ ys) [] h = refl
    lex_congr (x ∷ xs) (y ∷ ys) (z ∷ zs) h = ground (arith, o.cmp_congr x y z, lex_congr xs ys zs)

    lex_trans : (xs ys zs : List A) → lex xs ys ≡ lt → lex ys zs ≡ lt → lex xs zs ≡ lt
    unfolding lex
    lex_trans [] [] zs h k = k
    lex_trans [] (y ∷ ys) [] h k = absurd cc
    lex_trans [] (y ∷ ys) (z ∷ zs) h k = refl
    lex_trans (x ∷ xs) [] zs h k = absurd cc
    lex_trans (x ∷ xs) (y ∷ ys) [] h k = absurd cc
    lex_trans (x ∷ xs) (y ∷ ys) (z ∷ zs) h k = ground (
      arith,
      o.cmp_congr x y z,
      o.lt_trans x y z,
      o.cmp_congr y z x,
      o.cmp-flip x y,
      o.cmp-flip x z,
      o.cmp-flip y z,
      lex_trans xs ys zs,
    )

    pub lex-IsOrder : IsOrder lex
    lex-IsOrder = record { cmp-flip = lex-flip; cmp_congr = lex_congr; lt_trans = lex_trans }
