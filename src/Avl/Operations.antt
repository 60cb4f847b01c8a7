-- ===== src/Avl/Operations.antt =====
-- The functions of lib/collection/avl.h against the sorted list: `avl_get`, `avl_insert`,
-- `avl_remove`, `avl_remove_all` and `avl_count`.
use Prim.Native.Nat.Ordering.{lt, eq, gt}
use mathlib.Core.Bool.{false≢true}
use webcom_sdk_c.Avl.Height.{IsMeasured}
use webcom_sdk_c.Avl.Measured.{insert_rec-IsMeasured, remove_rec-IsMeasured}
use webcom_sdk_c.Avl.Order.{
  to_list, IsOrdered, get_rec-list_get, to_list-insert_rec, to_list-remove_rec, remove_rec-get_rec,
}
use webcom_sdk_c.Avl.Sorted.{
  list_insert, list_get, list_remove, IsSorted, Above, list_insert-IsSorted, list_remove-IsSorted,
}
use webcom_sdk_c.Avl.{Avl, new, get, insert, remove, remove_rec}
use webcom_sdk_c.Compare.{Cmp, IsLawful}
use webcom_sdk_c.Prelude.{
  ℕ, ◌+◌, ◌-◌, ◌%◌, ◌≡◌, refl, sym, ◌∙◌, Option, none, some, List, [], ◌∷◌, length, Bool, true,
  false, Ordering, ◌↔◌, ◌≢◌, u32_mod, if◌then◌else◌, inl, inr, Option-cases, arith,
}

-- `a` where a comparison gave equality, `b` elsewhere.
unfoldable pub on_eq {ℓ} : {B : Type ℓ} → Ordering → B → B → B
on_eq eq a b = a
on_eq lt a b = b
on_eq gt a b = b

count_step {ℓ} :
    {A : Type ℓ} (b : Bool) (o : Option A) (n m : ℕ)
    → (b ≡ true) ↔ (o ≢ none)
    → n + (elim o [ none ↦ 0 | some _ ↦ 1 ]) ≡ m
    → (if b then (m % u32_mod + (u32_mod - 1)) % u32_mod else m % u32_mod) ≡ n % u32_mod
count_step true none n m f e = absurd (f.0 refl refl)
count_step true (some a) n m f e = omega arith
count_step false none n m f e = omega arith
count_step false (some a) n m f e = absurd (false≢true (f.1 (λ h. cc)))

module _ {ℓ} {A : Type ℓ} (c : Cmp A) where
  open c use {cmp, copy}

  length-list_insert : (e : A) (xs : List A) → length (list_insert c e xs) ≡ length xs + 1
  unfolding list_insert
  length-list_insert e [] = omega arith
  length-list_insert e (x ∷ xs) = ground (arith, length-list_insert e xs)

  -- A removal takes one element away if the key is found, and none otherwise.
  length-list_remove :
      (k : A) (xs : List A)
      → length (list_remove c k xs) + (elim (list_get c k xs) [ none ↦ 0 | some _ ↦ 1 ]) ≡ length xs
  unfolding list_remove list_get
  length-list_remove k [] = omega arith
  length-list_remove k (x ∷ xs) = ground (arith, length-list_remove k xs)

  -- What every reachable tree satisfies: the elements in order, right height fields, and the count
  -- in an `unsigned`.
  pub record IsValid (t : Avl A) : Type 0 where
    pub ordered : IsOrdered c t.root
    pub measured : IsMeasured t.root
    pub counted : t.count ≡ length (to_list t.root) % u32_mod

  pub new-IsValid : IsValid new
  unfolding new to_list
  new-IsValid = record { ordered = tt; measured = tt; counted = refl }

  pub get-list_get :
      ⦃law : IsLawful c⦄
      → (t : Avl A) (k : A) → IsValid t
      → get c t k ≡ list_get c k (to_list t.root)
  unfolding get
  get-list_get ⦃law⦄ t k v = get_rec-list_get c t.root k v.ordered

  list_get-copy :
      ⦃law : IsLawful c⦄ → (d : A) (xs : List A) → list_get c (copy d) xs ≡ list_get c d xs
  unfolding list_get
  list_get-copy ⦃law⦄ d [] = refl
  list_get-copy ⦃law⦄ d (x ∷ xs) =
      rw (law.cmp-copy d x, list_get) (ground (arith, list_get-copy d xs))

  -- What `avl_insert` of `d` makes of `t`, by what a search for `d` finds before it.
  abbrev pub Inserted : Option A → A → Avl A → Avl A × Option A → Type ℓ
  Inserted (some _) d t p = (p.0 ≡ t) × (p.1 ≡ none)
  Inserted none d t p =
      (to_list p.0.root ≡ list_insert c (copy d) (to_list t.root)) × (p.1 ≡ some (copy d))

  -- On a valid tree, `avl_insert` of an element that is there changes nothing and returns NULL; of a
  -- new one it adds a copy at its place in the order, and returns the copy.
  pub insert_lem :
      ⦃law : IsLawful c⦄
      → (t : Avl A) (d : A) → IsValid t
      → Inserted (list_get c d (to_list t.root)) d t (insert c t d)
  unfolding insert
  insert_lem ⦃law⦄ t d v = elim (Option-cases (get c t d)) [
    | inl e ↦
        rw (sym (get-list_get t d v) ∙ e, e, insert)
          (to_list-insert_rec c t.root (copy d) v.ordered, refl)
    | inr (a, e) ↦ rw (sym (get-list_get t d v) ∙ e, e, insert) (refl, refl)
  ]

  -- `avl_insert` keeps a tree valid: ordered, with right height fields and a right count.
  pub insert-IsValid :
      ⦃law : IsLawful c⦄ → (t : Avl A) (d : A) → IsValid t → IsValid (insert c t d).0
  unfolding insert
  insert-IsValid ⦃law⦄ t d v = elim (Option-cases (get c t d)) [
    | inr (a, e) ↦ rw (e, insert) v
    | inl e ↦
        let q = to_list-insert_rec c t.root (copy d) v.ordered in
        let absent = list_get-copy d (to_list t.root) ∙ (sym (get-list_get t d v) ∙ e) in
        rw (e, insert)
          (record {
            ordered = rw q (list_insert-IsSorted c (copy d) (to_list t.root) absent v.ordered);
            measured = insert_rec-IsMeasured c t.root (copy d) v.measured;
            counted = rw (q, length-list_insert (copy d) (to_list t.root), v.counted) (omega arith);
          })
  ]

  -- On a valid tree, `avl_remove` takes from the ordered list of the elements the one that compares
  -- equal to the key, and no other.
  pub to_list-remove :
      ⦃law : IsLawful c⦄
      → (t : Avl A) (k : A) → IsValid t
      → to_list (remove c t k).root ≡ list_remove c k (to_list t.root)
  unfolding remove
  to_list-remove ⦃law⦄ t k v = to_list-remove_rec c t.root k v.ordered

  counted-remove :
      ⦃law : IsLawful c⦄
      → (t : Avl A) (k : A) → IsValid t
      → (remove c t k).count ≡ length (to_list (remove c t k).root) % u32_mod
  unfolding remove
  counted-remove ⦃law⦄ t k v =
      rw (to_list-remove_rec c t.root k v.ordered, v.counted)
        (count_step (remove_rec c t.root k).1 (list_get c k (to_list t.root)) _ _
          (rw (get_rec-list_get c t.root k v.ordered) at (remove_rec-get_rec c t.root k))
          (length-list_remove k (to_list t.root)))

  -- `avl_remove` keeps a tree valid: ordered, with right height fields and a right count.
  pub remove-IsValid : ⦃law : IsLawful c⦄ → (t : Avl A) (k : A) → IsValid t → IsValid (remove c t k)
  remove-IsValid ⦃law⦄ t k v = record {
    ordered = rw (to_list-remove t k v) (list_remove-IsSorted c k (to_list t.root) v.ordered);
    measured = unfold remove in remove_rec-IsMeasured c t.root k v.measured;
    counted = counted-remove t k v;
  }

  list_get-list_insert :
      ⦃law : IsLawful c⦄
      → (q e : A) (xs : List A) → list_get c e xs ≡ none
      → list_get c q (list_insert c e xs) ≡ on_eq (cmp q e) (some e) (list_get c q xs)
  unfolding list_get list_insert on_eq
  list_get-list_insert ⦃law⦄ q e [] n = ground arith
  list_get-list_insert ⦃law⦄ q e (x ∷ xs) n =
      ground (arith, list_get-list_insert q e xs, law.cmp_congr q e x)

  list_get-Above : (q : A) (xs : List A) → Above c q xs → list_get c q xs ≡ none
  unfolding list_get
  list_get-Above q [] a = refl
  list_get-Above q (x ∷ xs) a = rw (a.0, list_get) (list_get-Above q xs a.1)

  Above-congr :
      ⦃law : IsLawful c⦄ → (a b : A) (xs : List A) → cmp a b ≡ eq → Above c b xs → Above c a xs
  Above-congr ⦃law⦄ a b [] h p = tt
  Above-congr ⦃law⦄ a b (x ∷ xs) h p = (law.cmp_congr a b x h ∙ p.0, Above-congr a b xs h p.1)

  pub list_get-list_remove :
      ⦃law : IsLawful c⦄
      → (q k : A) (xs : List A) → IsSorted c xs
      → list_get c q (list_remove c k xs) ≡ on_eq (cmp q k) none (list_get c q xs)
  unfolding list_get list_remove on_eq
  list_get-list_remove ⦃law⦄ q k [] s = ground arith
  list_get-list_remove ⦃law⦄ q k (x ∷ xs) s = ground (
    arith,
    list_get-list_remove q k xs s.1,
    law.cmp_congr q k x,
    law.cmp_congr q x k,
    law.cmp_flip k x,
    Above-congr q x xs,
    list_get-Above q xs,
    s.0,
  )

  -- After the insertion of a new element in a valid tree, a search that compares equal to it
  -- finds the copy, and any other finds what it found before.
  pub get-insert :
      ⦃law : IsLawful c⦄
      → (t : Avl A) (d q : A) → IsValid t
      → get c t d ≡ none
      → get c (insert c t d).0 q ≡ on_eq (cmp q (copy d)) (some (copy d)) (get c t q)
  get-insert ⦃law⦄ t d q v e =
      let absent = sym (get-list_get t d v) ∙ e in
      let i : Inserted none d t (insert c t d) = rw absent at (insert_lem t d v) in
      rw (get-list_get _ q (insert-IsValid t d v), get-list_get t q v, i.0)
        (list_get-list_insert q (copy d) (to_list t.root)
          (list_get-copy d (to_list t.root) ∙ absent))

  -- After a removal from a valid tree a search that compares equal to the key finds nothing, and any
  -- other finds what it found before.
  pub get-remove :
      ⦃law : IsLawful c⦄
      → (t : Avl A) (k q : A) → IsValid t
      → get c (remove c t k) q ≡ on_eq (cmp q k) none (get c t q)
  get-remove ⦃law⦄ t k q v =
      rw
        (
          get-list_get (remove c t k) q (remove-IsValid t k v),
          get-list_get t q v,
          to_list-remove t k v,
        )
        (list_get-list_remove q k (to_list t.root) v.ordered)
