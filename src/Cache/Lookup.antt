-- ===== src/Cache/Lookup.antt =====
-- Search in the children of a cache node after an insertion, a removal and a write in place.
use Prim.Native.Nat.Ordering.{lt, eq}
use webcom_sdk_c.Avl.Operations.{on_eq}
use webcom_sdk_c.Cache.{Key, Node, Children, end, child, get, insert, remove, replace}
use webcom_sdk_c.Compare.{Cmp, IsLawful}
use webcom_sdk_c.Prelude.{◌≡◌, refl, none, some, Ordering-cases, inl, inr, arith}

module _ (c : Cmp Key) where
  open c use {cmp}

  pub get-insert :
      ⦃law : IsLawful c⦄
      → (q k : Key) (m : Node) (cs : Children) → get c k cs ≡ none
      → get c q (insert c k m cs) ≡ on_eq (cmp q k) (some m) (get c q cs)
  unfolding get insert on_eq
  get-insert ⦃law⦄ q k m end e = ground arith
  get-insert ⦃law⦄ q k m (child x n cs) e = ground (arith, get-insert q k m cs, law.cmp_congr q k x)

  pub get-replace :
      ⦃law : IsLawful c⦄
      → (q k : Key) (m : Node) (cs : Children) {n : Node} → get c k cs ≡ some n
      → get c q (replace c k m cs) ≡ on_eq (cmp q k) (some m) (get c q cs)
  unfolding get replace on_eq
  get-replace ⦃law⦄ q k m end e = ground arith
  get-replace ⦃law⦄ q k m (child x y cs) {n} e = ground (
    arith,
    get-replace q k m cs {n = n},
    law.cmp_congr q k x,
    law.cmp_congr q x k,
    law.cmp_flip k x,
  )

  -- Search depends on a key only by how it compares.
  pub get_congr :
      ⦃law : IsLawful c⦄ → (a b : Key) (cs : Children) → cmp a b ≡ eq → get c a cs ≡ get c b cs
  unfolding get
  get_congr ⦃law⦄ a b end h = refl
  get_congr ⦃law⦄ a b (child x n cs) h = ground (arith, get_congr a b cs, law.cmp_congr a b x)

  -- No key stands twice among the children.
  abbrev pub IsDistinct : Children → Type 0
  IsDistinct end = Unit
  IsDistinct (child x n cs) = (get c x cs ≡ none) × IsDistinct cs

  pub get-remove :
      ⦃law : IsLawful c⦄
      → (q k : Key) (cs : Children) → IsDistinct cs
      → get c q (remove c k cs) ≡ on_eq (cmp q k) none (get c q cs)
  unfolding get remove on_eq
  get-remove ⦃law⦄ q k end d = ground arith
  get-remove ⦃law⦄ q k (child x n cs) d = ground (
    arith,
    get-remove q k cs,
    law.cmp_congr q k x,
    law.cmp_congr q x k,
    law.cmp_flip k x,
    get_congr q x cs,
    d.0,
  )

  -- A key compares less than all children.
  abbrev pub Above : Key → Children → Type 0
  Above k end = Unit
  Above k (child x n cs) = (cmp k x ≡ lt) × Above k cs

  -- The children are in the order of the comparison, as in a tree of avl.c.
  abbrev pub IsSorted : Children → Type 0
  IsSorted end = Unit
  IsSorted (child x n cs) = Above x cs × IsSorted cs

  pub Above-trans :
      ⦃law : IsLawful c⦄ → (a b : Key) (cs : Children) → cmp a b ≡ lt → Above b cs → Above a cs
  Above-trans ⦃law⦄ a b end h p = tt
  Above-trans ⦃law⦄ a b (child x n cs) h p = (law.lt_trans a b x h p.0, Above-trans a b cs h p.1)

  pub get-Above : (k : Key) (cs : Children) → Above k cs → get c k cs ≡ none
  unfolding get
  get-Above k end p = refl
  get-Above k (child x n cs) p = rw (p.0, get) (get-Above k cs p.1)

  pub IsSorted-IsDistinct : (cs : Children) → IsSorted cs → IsDistinct cs
  IsSorted-IsDistinct end s = tt
  IsSorted-IsDistinct (child x n cs) s = (get-Above x cs s.0, IsSorted-IsDistinct cs s.1)

  insert-Above :
      (a k : Key) (m : Node) (cs : Children) → cmp a k ≡ lt → Above a cs → Above a (insert c k m cs)
  unfolding insert
  insert-Above a k m end h p = (h, tt)
  insert-Above a k m (child x n cs) h p = elim (Ordering-cases (cmp k x)) [
    | inl g ↦ rw (g, insert) (h, p)
    | inr (inl g) ↦ rw (g, insert) p
    | inr (inr g) ↦ rw (g, insert) (p.0, insert-Above a k m cs h p.1)
  ]

  pub insert-IsSorted :
      ⦃law : IsLawful c⦄
      → (k : Key) (m : Node) (cs : Children) → IsSorted cs
      → IsSorted (insert c k m cs)
  unfolding insert
  insert-IsSorted ⦃law⦄ k m end s = (tt, tt)
  insert-IsSorted ⦃law⦄ k m (child x n cs) s = elim (Ordering-cases (cmp k x)) [
    | inl g ↦ rw (g, insert) ((g, Above-trans k x cs g s.0), s)
    | inr (inl g) ↦ rw (g, insert) s
    | inr (inr g) ↦
        let less : cmp x k ≡ lt = ground (arith, law.cmp_flip k x) in
        rw (g, insert) (insert-Above x k m cs less s.0, insert-IsSorted k m cs s.1)
  ]

  remove-Above : (a k : Key) (cs : Children) → Above a cs → Above a (remove c k cs)
  unfolding remove
  remove-Above a k end p = tt
  remove-Above a k (child x n cs) p = ground (arith, remove-Above a k cs p.1)

  pub remove-IsSorted : (k : Key) (cs : Children) → IsSorted cs → IsSorted (remove c k cs)
  unfolding remove
  remove-IsSorted k end s = tt
  remove-IsSorted k (child x n cs) s = elim (Ordering-cases (cmp k x)) [
    | inl g ↦ rw (g, remove) (remove-Above x k cs s.0, remove-IsSorted k cs s.1)
    | inr (inl g) ↦ rw (g, remove) s.1
    | inr (inr g) ↦ rw (g, remove) (remove-Above x k cs s.0, remove-IsSorted k cs s.1)
  ]

  replace-Above : (a k : Key) (m : Node) (cs : Children) → Above a cs → Above a (replace c k m cs)
  unfolding replace
  replace-Above a k m end p = tt
  replace-Above a k m (child x n cs) p = ground (arith, replace-Above a k m cs p.1)

  pub replace-IsSorted :
      (k : Key) (m : Node) (cs : Children) → IsSorted cs → IsSorted (replace c k m cs)
  unfolding replace
  replace-IsSorted k m end s = tt
  replace-IsSorted k m (child x n cs) s = elim (Ordering-cases (cmp k x)) [
    | inl g ↦ rw (g, replace) (replace-Above x k m cs s.0, replace-IsSorted k m cs s.1)
    | inr (inl g) ↦ rw (g, replace) s
    | inr (inr g) ↦ rw (g, replace) (replace-Above x k m cs s.0, replace-IsSorted k m cs s.1)
  ]

  -- The last of two writes in place is what stays.
  pub replace-insert :
      ⦃law : IsLawful c⦄
      → (k : Key) (m n : Node) (cs : Children) → get c k cs ≡ none
      → replace c k m (insert c k n cs) ≡ insert c k m cs
  unfolding get insert replace
  replace-insert ⦃law⦄ k m n end e = rw (law.cmp_refl k, replace) refl
  replace-insert ⦃law⦄ k m n (child x y cs) e =
      ground (arith, replace-insert k m n cs, law.cmp_refl k)

  pub replace-replace :
      (k : Key) (m n : Node) (cs : Children) → replace c k m (replace c k n cs) ≡ replace c k m cs
  unfolding replace
  replace-replace k m n end = refl
  replace-replace k m n (child x y cs) = ground (arith, replace-replace k m n cs)
