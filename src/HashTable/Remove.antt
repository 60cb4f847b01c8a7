-- ===== src/HashTable/Remove.antt =====
-- Removal in lib/collection/ht.c: of the first entry of a bucket, and of a later one.
use webcom_sdk_c.HashTable.{
  Item, Table, returned, freed_linked, chain_at, bucket_of, ht_capacity, ht_is_underloaded, bucket,
  find, ht_get, count_down, unlink_first, remove_later, remove_first, ht_remove,
}
use webcom_sdk_c.HashTable.Buckets.{chain_at-set}
use webcom_sdk_c.HashTable.Rehash.{Placed, hits, IsTable, bucket-lt}
use webcom_sdk_c.HashTable.Insert.{reduced-IsTable, ht_get-reduced}
use mathlib.Core.Path.{subst}
use webcom_sdk_c.Prelude.{
  ℕ, ◌+◌, ◌≤◌, ◌≡◌, refl, sym, ap, ◌∙◌, inl, inr, Bool, true, false, none, some, List, [], ◌∷◌,
  ◌++◌, if◌then◌else◌, ◌==◌, ==→≡, ==_refl, length, set, length-set, All, arith, Bool-cases,
}

either_chain {ℓ} :
    {A : Type 0} (P : A → Type ℓ) (b : Bool) (x y : A)
    → (b ≡ true → P x)
    → P y
    → P (if b then x else y)
either_chain P true x y f p = f refl
either_chain P false x y f p = p

module _ {K V : Type 0} (key_hash : K → ℕ) (key_eq : K → K → Bool)
    (eq_hash : (a b : K) → key_eq a b ≡ true → key_hash a ≡ key_hash b) where
  find-none :
      (q : K) (es : List (Item K V))
      → length (hits key_hash key_eq q es) ≤ 0
      → find key_hash key_eq q es ≡ none
  unfolding find hits
  find-none q [] h = refl
  find-none q (e ∷ es) h = ground (arith, find-none q es)

  -- What is found in a chain less its first entry.
  find-behind :
      (q : K) (e : Item K V) (es : List (Item K V))
      → length (hits key_hash key_eq q (e ∷ es)) ≤ 1
      → find key_hash key_eq q es
        ≡ (if key_eq q e.key then none else find key_hash key_eq q (e ∷ es))
  unfolding find hits
  find-behind q e es h = ground (arith, find-none q es)

  length-hits_behind :
      (q : K) (e : Item K V) (es : List (Item K V))
      → length (hits key_hash key_eq q (e ∷ es)) ≤ 1
      → length (hits key_hash key_eq q es) ≤ 1
  unfolding hits
  length-hits_behind q e es h = ground arith

  module _ (t : Table K V) (key : K) (e : Item K V) (es : List (Item K V))
      (w : IsTable key_hash key_eq t)
      (c : chain_at t.table (bucket key_hash key_eq t key) ≡ e ∷ es) where
    chain_here : (i : ℕ) → (bucket key_hash key_eq t key == i) ≡ true → chain_at t.table i ≡ e ∷ es
    chain_here i h = ap (chain_at t.table) (sym (==→≡ _ i h)) ∙ c

    placed_here :
        (i : ℕ)
        → (bucket key_hash key_eq t key == i) ≡ true
        → All (Placed key_hash key_eq t.mask i) (e ∷ es)
    placed_here i h = subst (All (Placed key_hash key_eq t.mask i)) (chain_here i h) (w.placed i)

    -- The chains after the first entry of a bucket is unlinked.
    chain_at-unlinked :
        (i : ℕ)
        → chain_at (set t.table (bucket key_hash key_eq t key) es) i
          ≡ (if bucket key_hash key_eq t key == i then es else chain_at t.table i)
    chain_at-unlinked i =
        chain_at-set t.table _ i es (rw w.size (bucket-lt key_hash key_eq t key w))

    unlinked-IsTable :
        IsTable key_hash key_eq
          (record (count_down t) { table = set t.table (bucket key_hash key_eq t key) es })
    unfolding count_down bucket ht_capacity
    unlinked-IsTable = record {
      size = length-set t.table _ es ∙ w.size;
      masked = w.masked;
      placed = λ i. rw (chain_at-unlinked i) (
          either_chain (All (Placed key_hash key_eq t.mask i)) (bucket key_hash key_eq t key == i)
            es (chain_at t.table i) (λ h. (placed_here i h).1) (w.placed i));
      once = λ q. rw (chain_at-unlinked (bucket_of (key_hash q) t.mask)) (
          either_chain (λ c. length (hits key_hash key_eq q c) ≤ 1)
            (bucket key_hash key_eq t key == _) es
            (chain_at t.table (bucket_of (key_hash q) t.mask))
            (λ h. length-hits_behind q e es (rw (← (chain_here _ h)) (w.once q))) (w.once q));
    }

    -- Only a key of this bucket finds the first entry.
    bucket-first :
        (q : K)
        → key_eq q e.key ≡ true
        → (bucket key_hash key_eq t key == bucket_of (key_hash q) t.mask) ≡ true
    unfolding bucket Placed
    bucket-first q h =
        let p = (placed_here _ (==_refl (bucket key_hash key_eq t key))).0 in
        rw (eq_hash q e.key h, ← p.0, p.1) (==_refl _)

    find-unlinked :
        (q : K)
        → find key_hash key_eq q (
            chain_at
              (set t.table (bucket key_hash key_eq t key) es)
              (bucket_of (key_hash q) t.mask))
          ≡ (if key_eq q e.key then none else ht_get key_hash key_eq t q)
    unfolding ht_get bucket
    find-unlinked q =
        rw (chain_at-unlinked (bucket_of (key_hash q) t.mask))
          (elim (Bool-cases (bucket key_hash key_eq t key == bucket_of (key_hash q) t.mask)) [
            | inl h ↦
                rw (h, chain_here _ h) (find-behind q e es (rw (← (chain_here _ h)) (w.once q)))
            | inr h ↦ elim (Bool-cases (key_eq q e.key)) [
              | inl k ↦ absurd (ground (arith, bucket-first q k))
              | inr k ↦ rw (h, k) refl
            ]
          ])

  -- Where a bucket of a correct table begins with an entry that a key finds, and keys that
  -- compare equal hash alike, removing the key returns 1 and frees that entry; the table stays
  -- correct; the keys of the entry find nothing there, and every other key finds what it found
  -- before, whether or not the table was reduced.
  pub ht_remove-unlink_first :
      (t : Table K V) (key q : K) (e : Item K V) (es : List (Item K V))
      → IsTable key_hash key_eq t
      → chain_at t.table (bucket key_hash key_eq t key) ≡ e ∷ es
      → key_eq key e.key ≡ true
      → (ht_remove key_hash key_eq t key
          ≡ returned 1 (some e) (unlink_first key_hash key_eq t key es))
        × IsTable key_hash key_eq (unlink_first key_hash key_eq t key es)
        × (ht_get key_hash key_eq (unlink_first key_hash key_eq t key es) q
            ≡ (if key_eq q e.key then none else ht_get key_hash key_eq t q))
  unfolding ht_remove remove_first unlink_first
  ht_remove-unlink_first t key q e es w c k =
      let u = unlinked-IsTable t key e es w c in
      (
        rw (c, k) refl,
        reduced-IsTable key_hash key_eq eq_hash _ u,
        ht_get-reduced key_hash key_eq eq_hash _ q u
            ∙ (unfold ht_get bucket count_down in find-unlinked t key e es w c q),
      )

  length-hits_append :
      (key : K) (xs ys : List (Item K V))
      → length (hits key_hash key_eq key (xs ++ ys))
        ≡ length (hits key_hash key_eq key xs) + length (hits key_hash key_eq key ys)
  unfolding hits
  length-hits_append key [] ys = omega arith
  length-hits_append key (x ∷ xs) ys = ground (arith, length-hits_append key xs ys)

  remove_later-freed :
      (t : Table K V) (key : K) (before after : List (Item K V)) (x n : Item K V)
      → length (hits key_hash key_eq key before) ≡ 0
      → key_eq key x.key ≡ true
      → remove_later key_hash key_eq t key (before ++ x ∷ n ∷ after)
        ≡ freed_linked n (count_down t) (ht_is_underloaded (count_down t))
  unfolding remove_later hits
  remove_later-freed t key [] after x n h k = ground arith
  remove_later-freed t key (b ∷ []) after x n h k = ground arith
  remove_later-freed t key (b ∷ c ∷ before) after x n h k =
      ground (arith, remove_later-freed t key (c ∷ before) after x n)

  before-misses :
      (key : K) (b x : Item K V) (before ys : List (Item K V))
      → length (hits key_hash key_eq key (b ∷ before ++ x ∷ ys)) ≤ 1
      → key_eq key x.key ≡ true
      → (key_eq key b.key ≡ false) × (length (hits key_hash key_eq key before) ≡ 0)
  unfolding hits
  before-misses key b x before ys h k = ground (arith, length-hits_append key before (x ∷ ys))

  -- Where an entry that a key finds stands in a bucket of a correct table between other entries,
  -- removing the key frees the entry behind it, with the count decremented and every chain as it was; where
  -- the table is then underloaded, its reduction reads the freed entry.
  pub ht_remove-freed_linked :
      (t : Table K V) (key : K) (b x n : Item K V) (before after : List (Item K V))
      → IsTable key_hash key_eq t
      → chain_at t.table (bucket key_hash key_eq t key) ≡ b ∷ before ++ x ∷ n ∷ after
      → key_eq key x.key ≡ true
      → ht_remove key_hash key_eq t key
        ≡ freed_linked n (count_down t) (ht_is_underloaded (count_down t))
  unfolding ht_remove remove_first
  ht_remove-freed_linked t key b x n before after w c k =
      let m = before-misses key b x before (n ∷ after) (rw (← c) (w.once key)) k in
      rw (c, m.0) (remove_later-freed t key before after x n m.1 k)
