-- ===== src/Cache/Store/Edit.antt =====
-- The writes of lib/datasync/cache/treenode_cache.c make the path, look it up and write there. That is
-- one pass down the path, which makes a node where there is none or a leaf.
use Prim.Native.Nat.Ordering.{lt, eq, gt}
use webcom_sdk_c.Avl.Operations.{on_eq}
use webcom_sdk_c.Cache.Deep.{Deep, DeepAll, get-Deep, Ordered}
use webcom_sdk_c.Cache.Lookup.{
  get-insert, get-remove, get-replace, IsDistinct, IsSorted-IsDistinct, replace-insert,
  replace-replace,
}
use webcom_sdk_c.Cache.Store.{children_of, kept_hash, mkpath_w, write_at, write_below}
use webcom_sdk_c.Cache.{
  Key, Node, leaf_null, leaf_bool, leaf_number, leaf_string, internal, Children, new_internal,
  is_internal, get, insert, remove, replace,
}
use webcom_sdk_c.Compare.{Cmp, IsLawful}
use webcom_sdk_c.Datasync.{Parts}
use webcom_sdk_c.Prelude.{
  ◌≡◌, refl, ap, ◌∙◌, true, false, Option, none, some, [], ◌∷◌, if◌then◌else◌, Option-cases,
  Bool-cases, inl, inr, Ordering,
}

on_eq_twice : (o : Ordering) (x y z : Option Node) → on_eq o x (on_eq o y z) ≡ on_eq o x z
unfolding on_eq
on_eq_twice lt x y z = refl
on_eq_twice eq x y z = refl
on_eq_twice gt x y z = refl

kept_hash-true : (n : Node) → kept_hash true n ≡ none
unfolding kept_hash
kept_hash-true leaf_null = refl
kept_hash-true (leaf_bool b) = refl
kept_hash-true (leaf_number h d) = refl
kept_hash-true (leaf_string h s) = refl
kept_hash-true (internal h cs) = refl

module _ (c : Cmp Key) where
  -- The node that the walk goes to from `n`.
  unfoldable pub below : Key → Node → Node
  below k n = elim (get c k (children_of n)) [
    | none ↦ new_internal
    | some m ↦ if is_internal m then m else new_internal
  ]

  -- The children with `v` at the key.
  unfoldable pub put : Key → Node → Children → Children
  put k v cs = elim (get c k cs) [
    | none ↦ insert c k v cs
    | some m ↦ if is_internal m then replace c k v cs else insert c k v (remove c k cs)
  ]

  unfoldable pub edit : (Children → Option Children) → Parts → Node → Option Node
  unfolding below put
  edit f [] n = elim (f (children_of n)) [ none ↦ none | some cs ↦ some (internal none cs) ]
  edit f (k ∷ ks) n = elim (edit f ks (below k n)) [
    | none ↦ none
    | some v ↦ some (internal none (put k v (children_of n)))
  ]

  pub get-remove_self :
      ⦃law : IsLawful c⦄
      → (k : Key) (cs : Children) → IsDistinct c cs
      → get c k (remove c k cs) ≡ none
  get-remove_self ⦃law⦄ k cs d = get-remove c k k cs d ∙ rw (law.cmp_refl k) (unfold on_eq in refl)

  pub get-put :
      ⦃law : IsLawful c⦄
      → (q k : Key) (v : Node) (cs : Children) → IsDistinct c cs
      → get c q (put k v cs) ≡ on_eq (c.cmp q k) (some v) (get c q cs)
  unfolding put
  get-put ⦃law⦄ q k v cs d = elim (Option-cases (get c k cs)) [
    | inl e ↦ rw (e, put) (get-insert c q k v cs e)
    | inr (m, e) ↦ elim (Bool-cases (is_internal m)) [
      | inl i ↦ rw (e, put) (rw i (get-replace c q k v cs {n = m} e))
      | inr i ↦
          rw (e, put)
            (rw i (
              get-insert c q k v (remove c k cs) (get-remove_self k cs d)
              ∙ (ap (on_eq (c.cmp q k) (some v)) (get-remove c q k cs d)
                  ∙ on_eq_twice (c.cmp q k) _ _ _)))
    ]
  ]

  pub get-put_self :
      ⦃law : IsLawful c⦄
      → (k : Key) (v : Node) (cs : Children) → IsDistinct c cs
      → get c k (put k v cs) ≡ some v
  get-put_self ⦃law⦄ k v cs d = get-put k k v cs d ∙ rw (law.cmp_refl k) (unfold on_eq in refl)

  replace-put :
      ⦃law : IsLawful c⦄
      → (k : Key) (v w : Node) (cs : Children) → IsDistinct c cs
      → replace c k w (put k v cs) ≡ put k w cs
  unfolding put
  replace-put ⦃law⦄ k v w cs d = elim (Option-cases (get c k cs)) [
    | inl e ↦ rw (e, put) (replace-insert c k w v cs e)
    | inr (m, e) ↦ elim (Bool-cases (is_internal m)) [
      | inl i ↦ rw (e, put) (rw i (replace-replace c k w v cs))
      | inr i ↦ rw (e, put) (rw i (replace-insert c k w v (remove c k cs) (get-remove_self k cs d)))
    ]
  ]

  mkpath_w-cons :
      (k : Key) (ks : Parts) (n : Node)
      → mkpath_w c true false (k ∷ ks) n
        ≡ internal none (put k (mkpath_w c true false ks (below k n)) (children_of n))
  unfolding mkpath_w put
  mkpath_w-cons k ks n = elim (Option-cases (get c k (children_of n))) [
    | inl e ↦
        let b : below k n ≡ new_internal = unfold below in rw (e, below) refl in
        rw (kept_hash-true n, e, put) (rw b refl)
    | inr (m, e) ↦ elim (Bool-cases (is_internal m)) [
      | inl i ↦
          let b : below k n ≡ m = unfold below in rw (e, below) (rw i refl) in
          rw (kept_hash-true n, e, put) (rw (i, b) refl)
      | inr i ↦
          let b : below k n ≡ new_internal = unfold below in rw (e, below) (rw i refl) in
          rw (kept_hash-true n, e, put) (rw (i, b) refl)
    ]
  ]

  write_at-cons :
      ⦃law : IsLawful c⦄
      → (f : Children → Option Children) (k : Key) (ks : Parts) (cs : Children) (m v : Node)
      → IsDistinct c cs
      → write_at c f (k ∷ ks) (internal none (put k m cs))
        ≡ elim (write_at c f ks m) [ none ↦ none | some w ↦ some (internal none (put k w cs)) ]
  unfolding write_at
  write_at-cons ⦃law⦄ f k ks cs m v d =
      let e = get-put_self k m cs d in
      rw (e, write_at)
        (elim (Option-cases (write_at c f ks m)) [
          | inl h ↦ rw h refl
          | inr (w, h) ↦ rw (h, replace-put k m w cs d) refl
        ])

  pub children-DeepAll : (P : Node → Type 0) (n : Node) → Deep P n → DeepAll P (children_of n)
  unfolding children_of Deep
  children-DeepAll P leaf_null d = tt
  children-DeepAll P (leaf_bool b) d = tt
  children-DeepAll P (leaf_number h x) d = tt
  children-DeepAll P (leaf_string h s) d = tt
  children-DeepAll P (internal h cs) d = d.1

  pub below-Deep :
      (P : Node → Type 0) (k : Key) (n : Node) → P new_internal → Deep P n → Deep P (below k n)
  unfolding below
  below-Deep P k n new d = elim (Option-cases (get c k (children_of n))) [
    | inl e ↦ rw (e, below) (unfold Deep in (new, tt))
    | inr (m, e) ↦ elim (Bool-cases (is_internal m)) [
      | inl i ↦
          rw (e, below) (rw i (get-Deep c P k (children_of n) {m = m} (children-DeepAll P n d) e))
      | inr i ↦ rw (e, below) (rw i (unfold Deep in (new, tt)))
    ]
  ]

  pub children-IsDistinct : (n : Node) → Deep (Ordered c) n → IsDistinct c (children_of n)
  unfolding children_of Deep
  children-IsDistinct leaf_null d = tt
  children-IsDistinct (leaf_bool b) d = tt
  children-IsDistinct (leaf_number h x) d = tt
  children-IsDistinct (leaf_string h s) d = tt
  children-IsDistinct (internal h cs) d = IsSorted-IsDistinct c cs d.0

  -- Making the path, looking it up and writing there is one pass, where all children are in order.
  pub write_below-edit :
      ⦃law : IsLawful c⦄
      → (f : Children → Option Children) (dir : Parts) (n : Node) → Deep (Ordered c) n
      → write_below c f dir n ≡ edit f dir n
  unfolding write_below edit
  write_below-edit ⦃law⦄ f [] n d =
      ap (λ h. write_at c f [] (internal h (children_of n))) (kept_hash-true n)
  write_below-edit ⦃law⦄ f (k ∷ ks) n d =
      ap (write_at c f (k ∷ ks)) (mkpath_w-cons k ks n)
      ∙ (write_at-cons f k ks (children_of n) _ n (children-IsDistinct n d)
          ∙ rw (write_below-edit f ks (below k n) (below-Deep (Ordered c) k n tt d)) refl)
