-- ===== src/HashTable.antt =====
-- lib/collection/ht.c: the hash table, an array of chains, its operations and its iterator. Keys are compared
-- and hashed by the caller's functions.
pub mod Buckets
pub mod Insert
pub mod Iterator
pub mod Rehash
pub mod Remove
use webcom_sdk_c.Prelude.{
  ℕ, zero, suc, ◌+◌, ◌-◌, ◌*◌, ◌/◌, ◌%◌, ◌^◌, Bool, true, false, ◌&&◌, ◌||◌, Option, none, some,
  List, [], ◌∷◌, ◌++◌, if◌then◌else◌, ◌>>=◌, ltb, set,
}

-- `struct ht_item`; `next` is the rest of its chain.
pub record Item (K : Type 0) (V : Type 0) : Type 0 where
  pub hash : ℕ
  pub key : K
  pub value : V

-- `struct ht_table`, less `key_eq` and `key_hash`, which are parameters; of `key_free` and `val_free`, whether
-- they are not NULL.
pub record Table (K : Type 0) (V : Type 0) : Type 0 where
  pub hash_two_factor : ℕ
  pub count : ℕ
  pub table : List (List (Item K V))
  pub mask : ℕ
  pub key_free : Bool
  pub val_free : Bool

-- What a removal comes to: it returns, with the entry that was freed; it has freed an entry that stays in its
-- chain, with the table, whose chains are as before, and whether its reduction then reads that entry; or it
-- reads through a NULL entry.
pub data Removal (K : Type 0) (V : Type 0) : Type 0 where
  returned : ℕ → Option (Item K V) → Table K V → Removal K V
  freed_linked : Item K V → Table K V → Bool → Removal K V
  null_entry : Removal K V

abbrev pub two_factor_min : ℕ
two_factor_min = 3

-- `HT_MAX_TWO_FACTOR`, with an `unsigned` of 4 bytes
abbrev pub two_factor_max : ℕ
two_factor_max = 31

unfoldable pub pow2 : ℕ → ℕ
pow2 u = 2 ^ u

unfoldable pub mask_of : ℕ → ℕ
unfolding pow2
mask_of factor = pow2 factor - 1

module _ {A : Type 0} where
  -- `table[i]` of an array of chains
  unfoldable pub chain_at : List (List A) → ℕ → List A
  chain_at [] i = []
  chain_at (c ∷ cs) zero = c
  chain_at (c ∷ cs) (suc i) = chain_at cs i

  -- `calloc` of an array of chains
  unfoldable pub empty_chains : ℕ → List (List A)
  empty_chains zero = []
  empty_chains (suc n) = [] ∷ empty_chains n

-- `hash & mask` for a mask that is one less than a power of two
unfoldable pub bucket_of : ℕ → ℕ → ℕ
bucket_of hash mask = hash % suc mask

module _ {K V : Type 0} where
  unfoldable pub ht_capacity : Table K V → ℕ
  unfolding pow2
  ht_capacity t = pow2 t.hash_two_factor

  unfoldable pub ht_is_overloaded : Table K V → Bool
  unfolding ht_capacity
  ht_is_overloaded t =
      ltb t.hash_two_factor two_factor_max && ltb (ht_capacity t) ((t.count / 2 + t.count) % 2 ^ 32)

  unfoldable pub ht_is_underloaded : Table K V → Bool
  unfolding ht_capacity
  ht_is_underloaded t =
      ltb two_factor_min t.hash_two_factor && ltb (t.count * 2 % 2 ^ 32) (ht_capacity t)

  -- `e->next = *old; *old = e`
  unfoldable pub push_front : ℕ → Item K V → List (List (Item K V)) → List (List (Item K V))
  unfolding chain_at
  push_front i e ts = set ts i (e ∷ chain_at ts i)

  -- The inner loop of `ht_rehash`, over a chain.
  unfoldable pub rehash_chain :
      ℕ → List (Item K V) → List (List (Item K V)) → List (List (Item K V))
  unfolding push_front bucket_of
  rehash_chain m [] ts = ts
  rehash_chain m (e ∷ es) ts = rehash_chain m es (push_front (bucket_of e.hash m) e ts)

  -- The new table after the rounds of the outer loop for `i` below a number.
  unfoldable pub rehash_loop :
      List (List (Item K V)) → ℕ → List (List (Item K V)) → ℕ → List (List (Item K V))
  unfolding rehash_chain chain_at
  rehash_loop old m ts zero = ts
  rehash_loop old m ts (suc i) = rehash_chain m (chain_at old i) (rehash_loop old m ts i)

  unfoldable pub ht_rehash : Table K V → ℕ → Table K V
  unfolding rehash_loop ht_capacity mask_of pow2 empty_chains
  ht_rehash t new_factor = record t {
    hash_two_factor = new_factor;
    table =
        rehash_loop t.table (mask_of new_factor) (empty_chains (pow2 new_factor)) (ht_capacity t);
    mask = mask_of new_factor;
  }

  unfoldable pub ht_enlarge : Table K V → Table K V
  unfolding ht_rehash
  ht_enlarge t = ht_rehash t (t.hash_two_factor + 1)

  unfoldable pub ht_reduce : Table K V → Table K V
  unfolding ht_rehash
  ht_reduce t = ht_rehash t (t.hash_two_factor - 1)

  unfoldable pub ht_new : Bool → Bool → Table K V
  unfolding empty_chains pow2 mask_of
  ht_new kf vf = record {
    hash_two_factor = two_factor_min;
    count = 0;
    table = empty_chains (pow2 two_factor_min);
    mask = mask_of two_factor_min;
    key_free = kf;
    val_free = vf;
  }

  -- The entries that `ht_destroy` frees with their keys and values, in the order of the calls, by the rounds
  -- of the loop for `i` below a number.
  unfoldable pub destroy_loop : List (List (Item K V)) → ℕ → List (Item K V)
  unfolding chain_at
  destroy_loop ts zero = []
  destroy_loop ts (suc i) = destroy_loop ts i ++ chain_at ts i

  unfoldable pub ht_destroy : Table K V → List (Item K V)
  unfolding destroy_loop ht_capacity
  ht_destroy t = destroy_loop t.table (ht_capacity t)

  unfoldable pub ht_count : Table K V → ℕ
  ht_count t = t.count

  unfoldable pub enlarged : Table K V → Table K V
  unfolding ht_is_overloaded ht_enlarge
  enlarged t = if ht_is_overloaded t then ht_enlarge t else t

  unfoldable pub reduced : Table K V → Table K V
  unfolding ht_is_underloaded ht_reduce
  reduced t = if ht_is_underloaded t then ht_reduce t else t

  unfoldable pub count_down : Table K V → Table K V
  count_down t = record t { count = (t.count + (2 ^ 32 - 1)) % 2 ^ 32 }

module _ {K V : Type 0} (key_hash : K → ℕ) (key_eq : K → K → Bool) where
  unfoldable pub bucket : Table K V → K → ℕ
  unfolding bucket_of
  bucket t key = bucket_of (key_hash key) t.mask

  -- The loop of `ht_get_ex`; an absent key is `none`, a present one gives its value.
  unfoldable pub find : K → List (Item K V) → Option V
  find key [] = none
  find key (e ∷ es) = if key_eq key e.key then some e.value else find key es

  -- `ht_get_ex` with a `ret` that is not NULL, and `ht_get`, which gives NULL for `none`
  unfoldable pub ht_get : Table K V → K → Option V
  unfolding find chain_at bucket
  ht_get t key = find key (chain_at t.table (bucket t key))

  -- `ht_get_ex` with a NULL `ret`: 1 for a key that is there; for an absent key it writes through NULL, which is
  -- `none`.
  unfoldable pub ht_contains : Table K V → K → Option ℕ
  unfolding ht_get
  ht_contains t key = do value ← ht_get t key; some 1

  -- The part of `ht_insert` for an absent key.
  unfoldable pub link : Table K V → K → V → Table K V
  unfolding push_front bucket
  link t key val = record t {
    table =
        push_front (bucket t key) (record { hash = key_hash key; key = key; value = val }) t.table;
    count = (t.count + 1) % 2 ^ 32;
  }

  -- What is returned, and the table; `none` where the call writes through NULL.
  unfoldable pub ht_insert : Table K V → K → V → Option (ℕ × Table K V)
  unfolding ht_contains link enlarged
  ht_insert t key val = do
    c ← ht_contains (enlarged t) key
    some (elim c as (λ n. ℕ × Table K V) [
      | zero ↦ (1, link (enlarged t) key val)
      | suc n ↦ (0, enlarged t)
    ])

  -- The loop of `ht_remove` from the second entry on. `prev` is then the address of `e` itself, so that
  -- `*prev = e->next` makes `e` the next entry, which is freed where it stands.
  unfoldable pub remove_later : Table K V → K → List (Item K V) → Removal K V
  unfolding count_down reduced
  remove_later t key [] = returned 0 none (reduced t)
  remove_later t key (e ∷ []) =
      if key_eq key e.key
      then (if t.key_free || t.val_free
          then null_entry
          else returned 1 none (reduced (count_down t)))
      else returned 0 none (reduced t)
  remove_later t key (e ∷ n ∷ es) =
      let rest = remove_later t key (n ∷ es) in
      if key_eq key e.key
      then freed_linked n (count_down t) (ht_is_underloaded (count_down t))
      else rest

  -- `*prev = e->next` for the first entry, and what follows the loop.
  unfoldable pub unlink_first : Table K V → K → List (Item K V) → Table K V
  unfolding count_down reduced bucket
  unlink_first t key es = reduced (record (count_down t) { table = set t.table (bucket t key) es })

  -- The loop from the first entry, which `prev`, the address of the bucket, unlinks.
  unfoldable pub remove_first : Table K V → K → List (Item K V) → Removal K V
  unfolding remove_later unlink_first reduced
  remove_first t key [] = returned 0 none (reduced t)
  remove_first t key (e ∷ es) =
      if key_eq key e.key
      then returned 1 (some e) (unlink_first t key es)
      else remove_later t key es

  unfoldable pub ht_remove : Table K V → K → Removal K V
  unfolding remove_first chain_at bucket
  ht_remove t key = remove_first t key (chain_at t.table (bucket t key))
