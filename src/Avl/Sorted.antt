-- ===== src/Avl/Sorted.antt =====
-- The abstract view of lib/collection/avl.c: a list in the order of the comparison, with insertion,
-- removal and search on it.
use Prim.Native.Nat.Ordering.{lt, eq}
use webcom_sdk_c.Compare.{Cmp, IsLawful}
use webcom_sdk_c.Prelude.{
  ◌≡◌, refl, Option, none, some, List, [], ◌∷◌, ◌++◌, All, All-append_left, All-append_right,
  All-imp, arith,
}

module _ {ℓ} {A : Type ℓ} (c : Cmp A) where
  open c use {cmp}

  unfoldable pub list_insert : A → List A → List A
  list_insert e [] = e ∷ []
  list_insert e (x ∷ xs) = elim (cmp e x) [ lt ↦ e ∷ x ∷ xs | _ ↦ x ∷ list_insert e xs ]

  unfoldable pub list_get : A → List A → Option A
  list_get k [] = none
  list_get k (x ∷ xs) = elim (cmp k x) [ eq ↦ some x | _ ↦ list_get k xs ]

  unfoldable pub list_remove : A → List A → List A
  list_remove k [] = []
  list_remove k (x ∷ xs) = elim (cmp k x) [ eq ↦ xs | _ ↦ x ∷ list_remove k xs ]

  -- Every element compares less than all that follow it.
  abbrev pub IsSorted : List A → Type 0
  IsSorted [] = Unit
  IsSorted (x ∷ xs) = All (λ y. cmp x y ≡ lt) xs × IsSorted xs

  abbrev pub Below : A → List A → Type 0
  Below k xs = All (λ y. cmp y k ≡ lt) xs

  abbrev pub Above : A → List A → Type 0
  Above k xs = All (λ y. cmp k y ≡ lt) xs

  pub Above-trans :
      ⦃law : IsLawful c⦄ → (a b : A) (xs : List A) → cmp a b ≡ lt → Above b xs → Above a xs
  Above-trans ⦃law⦄ a b xs h = All-imp (λ y g. law.lt_trans a b y h g) xs

  pub Below_trans :
      ⦃law : IsLawful c⦄ → (a b : A) (xs : List A) → cmp a b ≡ lt → Below a xs → Below b xs
  Below_trans ⦃law⦄ a b xs h = All-imp (λ y g. law.lt_trans y a b g h) xs

  pub Below_congr :
      ⦃law : IsLawful c⦄ → (a b : A) (xs : List A) → cmp a b ≡ eq → Below b xs → Below a xs
  Below_congr ⦃law⦄ a b [] h p = tt
  Below_congr ⦃law⦄ a b (x ∷ xs) h p = (
    ground
        (arith, law.cmp_congr a b x h, law.cmp_flip x b, law.cmp_flip a x, law.cmp_flip x a, p.0),
    Below_congr a b xs h p.1,
  )

  pub IsSorted-append_left : (xs ys : List A) → IsSorted (xs ++ ys) → IsSorted xs
  IsSorted-append_left [] ys s = tt
  IsSorted-append_left (x ∷ xs) ys s = (All-append_left _ xs ys s.0, IsSorted-append_left xs ys s.1)

  pub IsSorted-append_right : (xs ys : List A) → IsSorted (xs ++ ys) → IsSorted ys
  IsSorted-append_right [] ys s = s
  IsSorted-append_right (x ∷ xs) ys s = IsSorted-append_right xs ys s.1

  -- What stands before an element of a sorted list is below it.
  pub IsSorted-Below : (xs : List A) (x : A) (ys : List A) → IsSorted (xs ++ x ∷ ys) → Below x xs
  IsSorted-Below [] x ys s = tt
  IsSorted-Below (y ∷ xs) x ys s =
      ((All-append_right _ xs (x ∷ ys) s.0).0, IsSorted-Below xs x ys s.1)

  pub list_insert-append_left :
      (e : A) (xs : List A) (x : A) (ys : List A)
      → cmp e x ≡ lt
      → list_insert e (xs ++ x ∷ ys) ≡ list_insert e xs ++ x ∷ ys
  unfolding list_insert
  list_insert-append_left e [] x ys h = rw h
  list_insert-append_left e (z ∷ xs) x ys h = ground (arith, list_insert-append_left e xs x ys h)

  pub list_insert-append_right :
      ⦃law : IsLawful c⦄
      → (e : A) (xs ys : List A) → Below e xs
      → list_insert e (xs ++ ys) ≡ xs ++ list_insert e ys
  unfolding list_insert
  list_insert-append_right ⦃law⦄ e [] ys b = refl
  list_insert-append_right ⦃law⦄ e (z ∷ xs) ys b =
      rw (law.cmp_flip z e, b.0) (ground (arith, list_insert-append_right e xs ys b.1))

  pub list_get-append_left :
      (k : A) (xs ys : List A) → Above k ys → list_get k (xs ++ ys) ≡ list_get k xs
  unfolding list_get
  list_get-append_left k [] [] a = refl
  list_get-append_left k [] (y ∷ ys) a = rw a.0 (list_get-append_left k [] ys a.1)
  list_get-append_left k (x ∷ xs) ys a = ground (arith, list_get-append_left k xs ys a)

  pub list_get-append_right :
      ⦃law : IsLawful c⦄
      → (k : A) (xs ys : List A) → Below k xs
      → list_get k (xs ++ ys) ≡ list_get k ys
  unfolding list_get
  list_get-append_right ⦃law⦄ k [] ys b = refl
  list_get-append_right ⦃law⦄ k (x ∷ xs) ys b =
      rw (law.cmp_flip x k, b.0) (list_get-append_right k xs ys b.1)

  pub list_remove-append_left :
      (k : A) (xs ys : List A) → Above k ys → list_remove k (xs ++ ys) ≡ list_remove k xs ++ ys
  unfolding list_remove
  list_remove-append_left k [] [] a = refl
  list_remove-append_left k [] (y ∷ ys) a =
      rw a.0 (ground (arith, list_remove-append_left k [] ys a.1))
  list_remove-append_left k (x ∷ xs) ys a = ground (arith, list_remove-append_left k xs ys a)

  pub list_remove-append_right :
      ⦃law : IsLawful c⦄
      → (k : A) (xs ys : List A) → Below k xs
      → list_remove k (xs ++ ys) ≡ xs ++ list_remove k ys
  unfolding list_remove
  list_remove-append_right ⦃law⦄ k [] ys b = refl
  list_remove-append_right ⦃law⦄ k (x ∷ xs) ys b =
      rw (law.cmp_flip x k, b.0) (ground (arith, list_remove-append_right k xs ys b.1))

  All-list_insert {μ} :
      (P : A → Type μ) (e : A) (xs : List A) → P e → All P xs → All P (list_insert e xs)
  unfolding list_insert
  All-list_insert P e [] p a = (p, tt)
  All-list_insert P e (x ∷ xs) p a = ground (arith, All-list_insert P e xs p a.1)

  All-list_remove {μ} : (P : A → Type μ) (k : A) (xs : List A) → All P xs → All P (list_remove k xs)
  unfolding list_remove
  All-list_remove P k [] a = tt
  All-list_remove P k (x ∷ xs) a = ground (arith, All-list_remove P k xs a.1)

  -- An element that compares equal to none keeps the list sorted.
  pub list_insert-IsSorted :
      ⦃law : IsLawful c⦄
      → (e : A) (xs : List A) → list_get e xs ≡ none
      → IsSorted xs
      → IsSorted (list_insert e xs)
  unfolding list_insert list_get
  list_insert-IsSorted ⦃law⦄ e [] n s = (tt, tt)
  list_insert-IsSorted ⦃law⦄ e (x ∷ xs) n s = ground (
    arith,
    list_insert-IsSorted e xs,
    Above-trans e x xs,
    All-list_insert (λ y. cmp x y ≡ lt) e xs,
    law.cmp_flip e x,
  )

  pub list_remove-IsSorted : (k : A) (xs : List A) → IsSorted xs → IsSorted (list_remove k xs)
  unfolding list_remove
  list_remove-IsSorted k [] s = tt
  list_remove-IsSorted k (x ∷ xs) s =
      ground (arith, list_remove-IsSorted k xs s.1, All-list_remove (λ y. cmp x y ≡ lt) k xs s.0)
