-- ===== src/HashTable/Rehash.antt =====
-- Rehashing in lib/collection/ht.c: what a correct table is, and what its keys find.
use webcom_sdk_c.HashTable.{
  Item, Table, chain_at, empty_chains, bucket_of, pow2, mask_of, ht_capacity, push_front,
  rehash_chain, rehash_loop, ht_rehash, bucket, find, ht_get,
}
use webcom_sdk_c.HashTable.Buckets.{
  ltb_irrefl, ltb-suc, ltb-suc_ne, suc-mask_of, ==-≢, onto, onto_nil, length-empty_chains,
  chain_at-empty_chains, length-push_front, chain_at-push_front, length-rehash_loop,
  All-rehash_loop,
}
use webcom_sdk_c.Prelude.{
  ℕ, zero, suc, ◌≤◌, ◌<◌, ◌≡◌, ◌≢◌, refl, sym, ap, ◌∙◌, inl, inr, Bool, true, false, Option, none,
  some, List, [], ◌∷◌, if◌then◌else◌, ◌==◌, ltb, ==→≡, ==_refl, lt→ltb, All-imp, length, All, arith,
  Bool-cases,
}
use native.Mathlib.Omega.{mod_fact}

module _ {K V : Type 0} (key_hash : K → ℕ) (key_eq : K → K → Bool) where
  -- The entry has its key's hash and stands in the bucket of that hash under a mask.
  unfoldable pub Placed : ℕ → ℕ → Item K V → Type 0
  Placed m i e = (e.hash ≡ key_hash e.key) × (bucket_of e.hash m ≡ i)

  -- The entries of a chain that a key finds.
  unfoldable pub hits : K → List (Item K V) → List (Item K V)
  hits key [] = []
  hits key (e ∷ es) = if key_eq key e.key then e ∷ hits key es else hits key es

  -- The value of the first of some entries.
  pub first : List (Item K V) → Option V
  first [] = none
  first (e ∷ es) = some e.value

  pub find-hits :
      (key : K) (es : List (Item K V)) → find key_hash key_eq key es ≡ first (hits key es)
  unfolding find hits first
  find-hits key [] = refl
  find-hits key (e ∷ es) = ground (arith, find-hits key es)

  module _ (eq_hash : (a b : K) → key_eq a b ≡ true → key_hash a ≡ key_hash b) (key : K) where
    hits-far :
        (m i : ℕ) (es : List (Item K V))
        → All (Placed m i) es
        → bucket_of (key_hash key) m ≢ i
        → hits key es ≡ []
    unfolding hits Placed
    hits-far m i [] a h = refl
    hits-far m i (e ∷ es) a h = elim (Bool-cases (key_eq key e.key)) [
      | inl q ↦ absurd (h (ap (λ n. bucket_of n m) (eq_hash key e.key q ∙ sym a.0.0) ∙ a.0.1))
      | inr q ↦ rw (q, hits-far m i es a.1 h) refl
    ]

    hits-miss :
        (e : Item K V) (es : List (Item K V)) (b : Bool)
        → key_eq key e.key ≡ false
        → hits key (if b then e ∷ es else es) ≡ hits key es
    unfolding hits
    hits-miss e es true q = rw q refl
    hits-miss e es false q = refl

    hits-rehash_chain :
        (m : ℕ) (es : List (Item K V)) (ts : List (List (Item K V)))
        → suc m ≡ length ts
        → All (λ e. e.hash ≡ key_hash e.key) es
        → hits key (chain_at (rehash_chain m es ts) (bucket_of (key_hash key) m))
          ≡ onto (hits key es) (hits key (chain_at ts (bucket_of (key_hash key) m)))
    unfolding rehash_chain hits onto
    hits-rehash_chain m [] ts s a = refl
    hits-rehash_chain m (e ∷ es) ts s a =
        hits-rehash_chain m es (push_front (bucket_of e.hash m) e ts)
          (s ∙ sym (length-push_front _ e ts)) a.1
        ∙ rw (chain_at-push_front m e.hash e ts (bucket_of (key_hash key) m) s)
            (elim (Bool-cases (key_eq key e.key)) [
              | inl q ↦
                  let same = ap (λ n. bucket_of n m) (a.0 ∙ sym (eq_hash key e.key q)) in
                  rw (same, ==_refl (bucket_of (key_hash key) m), q) refl
              | inr q ↦ rw (hits-miss e (chain_at ts _) (bucket_of e.hash m == _) q, q) refl
            ])

    -- The loop over the old table, whose bucket `home` alone has entries that the key finds.
    hits-rehash_loop :
        (old ts : List (List (Item K V))) (m home n : ℕ)
        → suc m ≡ length ts
        → ((i : ℕ) → All (λ e. e.hash ≡ key_hash e.key) (chain_at old i))
        → ((i : ℕ) → home ≢ i → hits key (chain_at old i) ≡ [])
        → hits key (chain_at ts (bucket_of (key_hash key) m)) ≡ []
        → hits key (chain_at (rehash_loop old m ts n) (bucket_of (key_hash key) m))
          ≡ (if ltb home n then onto (hits key (chain_at old home)) [] else [])
    unfolding rehash_loop
    hits-rehash_loop old ts m home zero s a far z = z ∙ ground arith
    hits-rehash_loop old ts m home (suc n) s a far z =
        hits-rehash_chain m (chain_at old n) (rehash_loop old m ts n)
          (s ∙ sym (length-rehash_loop m old ts n)) (a n)
        ∙ rw (hits-rehash_loop old ts m home n s a far z) (elim (Bool-cases (home == n)) [
          | inl q ↦ rw (sym (==→≡ home n q), ltb_irrefl home, ltb-suc home) (unfold onto in refl)
          | inr q ↦ rw (far n (==-≢ home n q), ltb-suc_ne home n q) (unfold onto in refl)
        ])

  -- The table of a correct hash table: its size and mask are those of its factor, every entry has the hash of
  -- its key and stands in its bucket, and a key finds one entry at most.
  pub record IsTable (t : Table K V) : Type 0 where
    pub size : length t.table ≡ ht_capacity t
    pub masked : t.mask ≡ mask_of t.hash_two_factor
    pub placed : (i : ℕ) → All (Placed t.mask i) (chain_at t.table i)
    pub once : (key : K) → length (hits key (chain_at t.table (bucket key_hash key_eq t key))) ≤ 1

  pub mask-length : (t : Table K V) → IsTable t → suc t.mask ≡ length t.table
  unfolding ht_capacity
  mask-length t w = ap suc w.masked ∙ suc-mask_of t.hash_two_factor ∙ sym w.size

  pub bucket-lt :
      (t : Table K V) (key : K) → IsTable t → bucket key_hash key_eq t key < ht_capacity t
  unfolding bucket bucket_of ht_capacity
  bucket-lt t key w =
      omega (arith, mod_fact (key_hash key) t.mask, ap suc w.masked, suc-mask_of t.hash_two_factor)

  module _ (eq_hash : (a b : K) → key_eq a b ≡ true → key_hash a ≡ key_hash b) (t : Table K V)
      (w : IsTable t) (f : ℕ) where
    -- The entries that a key finds are the same after rehashing.
    hits-ht_rehash :
        (key : K)
        → hits key (chain_at (ht_rehash t f).table (bucket key_hash key_eq (ht_rehash t f) key))
          ≡ hits key (chain_at t.table (bucket key_hash key_eq t key))
    unfolding ht_rehash bucket hits Placed
    hits-ht_rehash key =
        hits-rehash_loop eq_hash key t.table _ (mask_of f) (bucket_of (key_hash key) t.mask)
          (ht_capacity t) (suc-mask_of f ∙ sym (length-empty_chains _ (pow2 f)))
          (λ i. All-imp (λ e q. q.0) (chain_at t.table i) (w.placed i))
          (λ i. hits-far eq_hash key t.mask i (chain_at t.table i) (w.placed i))
          (rw (chain_at-empty_chains (Item K V) (pow2 f) (bucket_of (key_hash key) (mask_of f)))
            refl)
        ∙ rw (lt→ltb _ _ (bucket-lt t key w)) (onto_nil _ (w.once key))

    -- Rehashing to any size keeps a table correct.
    pub ht_rehash-IsTable : IsTable (ht_rehash t f)
    unfolding ht_rehash ht_capacity Placed
    ht_rehash-IsTable = record {
      size =
          length-rehash_loop (mask_of f) t.table _ (pow2 t.hash_two_factor)
          ∙ length-empty_chains _ (pow2 f);
      masked = refl;
      placed =
          All-rehash_loop (mask_of f) (Placed (mask_of f)) t.table (empty_chains (pow2 f))
            (pow2 t.hash_two_factor) (suc-mask_of f ∙ sym (length-empty_chains _ (pow2 f)))
            (λ i. All-imp (λ e q. (q.0, refl)) (chain_at t.table i) (w.placed i))
            (λ i. rw (chain_at-empty_chains (Item K V) (pow2 f) i) tt);
      once = λ key. rw (hits-ht_rehash key) (w.once key);
    }

    -- Rehashing to any size keeps what every key finds.
    pub ht_get-ht_rehash :
        (key : K) → ht_get key_hash key_eq (ht_rehash t f) key ≡ ht_get key_hash key_eq t key
    unfolding ht_get
    ht_get-ht_rehash key = find-hits key _ ∙ ap first (hits-ht_rehash key) ∙ sym (find-hits key _)
