-- ===== src/HashTable/Insert.antt =====
-- Insertion in lib/collection/ht.c, with the growing and shrinking of the table.
use webcom_sdk_c.HashTable.{
  Item, Table, chain_at, bucket_of, ht_enlarge, ht_reduce, ht_is_overloaded, ht_is_underloaded,
  bucket, find, ht_get, ht_contains, link, enlarged, ht_insert, reduced,
}
use webcom_sdk_c.HashTable.Buckets.{chain_at-push_front}
use webcom_sdk_c.HashTable.Rehash.{IsTable, mask-length, ht_rehash-IsTable, ht_get-ht_rehash}
use webcom_sdk_c.Prelude.{
  ℕ, ◌+◌, ◌-◌, ◌≡◌, refl, inl, inr, Bool, true, false, some, List, ◌∷◌, if◌then◌else◌, ◌==◌,
  ==_refl, ◌>>◌, arith, Bool-cases, Option-cases,
}

module _ {K : Type 0} (key_hash : K → ℕ) (key_eq : K → K → Bool)
    (eq_hash : (a b : K) → key_eq a b ≡ true → key_hash a ≡ key_hash b) where
  same_bucket :
      (m : ℕ) (a b : K)
      → key_eq a b ≡ true
      → (bucket_of (key_hash b) m == bucket_of (key_hash a) m) ≡ true
  same_bucket m a b h = rw (eq_hash a b h) (==_refl (bucket_of (key_hash b) m))

module _ {K V : Type 0} (key_hash : K → ℕ) (key_eq : K → K → Bool)
    (eq_hash : (a b : K) → key_eq a b ≡ true → key_hash a ≡ key_hash b) where
  enlarged-IsTable :
      (t : Table K V) → IsTable key_hash key_eq t → IsTable key_hash key_eq (enlarged t)
  unfolding enlarged ht_enlarge
  enlarged-IsTable t w = elim (Bool-cases (ht_is_overloaded t)) [
    | inl b ↦ rw b (ht_rehash-IsTable key_hash key_eq eq_hash t w (t.hash_two_factor + 1))
    | inr b ↦ rw b w
  ]

  ht_get-enlarged :
      (t : Table K V) (key : K)
      → IsTable key_hash key_eq t
      → ht_get key_hash key_eq (enlarged t) key ≡ ht_get key_hash key_eq t key
  unfolding enlarged ht_enlarge
  ht_get-enlarged t key w = elim (Bool-cases (ht_is_overloaded t)) [
    | inl b ↦ rw b (ht_get-ht_rehash key_hash key_eq eq_hash t w (t.hash_two_factor + 1) key)
    | inr b ↦ rw b refl
  ]

  pub reduced-IsTable :
      (t : Table K V) → IsTable key_hash key_eq t → IsTable key_hash key_eq (reduced t)
  unfolding reduced ht_reduce
  reduced-IsTable t w = elim (Bool-cases (ht_is_underloaded t)) [
    | inl b ↦ rw b (ht_rehash-IsTable key_hash key_eq eq_hash t w (t.hash_two_factor - 1))
    | inr b ↦ rw b w
  ]

  pub ht_get-reduced :
      (t : Table K V) (key : K)
      → IsTable key_hash key_eq t
      → ht_get key_hash key_eq (reduced t) key ≡ ht_get key_hash key_eq t key
  unfolding reduced ht_reduce
  ht_get-reduced t key w = elim (Bool-cases (ht_is_underloaded t)) [
    | inl b ↦ rw b (ht_get-ht_rehash key_hash key_eq eq_hash t w (t.hash_two_factor - 1) key)
    | inr b ↦ rw b refl
  ]

  -- In a correct table whose keys hash alike where they compare equal, an insertion returns 0 for
  -- a key that is there and writes through a NULL pointer for one that is not, and what the keys
  -- find stays the same whether or not the table was enlarged.
  pub ht_insert-ht_get :
      (t : Table K V) (key q : K) (val : V)
      → IsTable key_hash key_eq t
      → (ht_insert key_hash key_eq t key val
          ≡ (ht_get key_hash key_eq t key >> some (0, enlarged t)))
        × (ht_get key_hash key_eq (enlarged t) q ≡ ht_get key_hash key_eq t q)
  unfolding ht_insert ht_contains
  ht_insert-ht_get t key q val w = (
    rw (ht_get-enlarged t key w) (elim (Option-cases (ht_get key_hash key_eq t key)) [
      | inl e ↦ rw e refl
      | inr (v, e) ↦ rw e refl
    ]),
    ht_get-enlarged t q w,
  )

  -- What is found where a chain may have an entry in front, which it has if the key finds it.
  find-front :
      (q : K) (e : Item K V) (es : List (Item K V)) (b : Bool)
      → (key_eq q e.key ≡ true → b ≡ true)
      → find key_hash key_eq q (if b then e ∷ es else es)
        ≡ (if key_eq q e.key then some e.value else find key_hash key_eq q es)
  unfolding find
  find-front q e es true h = refl
  find-front q e es false h = ground (arith, h)

  -- Where the part of an insertion for an absent key runs in a correct table, the new key then finds the new
  -- value, and every other key what it found before.
  pub ht_get-link :
      (t : Table K V) (key q : K) (val : V)
      → IsTable key_hash key_eq t
      → ht_get key_hash key_eq (link key_hash key_eq t key val) q
        ≡ (if key_eq q key then some val else ht_get key_hash key_eq t q)
  unfolding ht_get link bucket
  ht_get-link t key q val w =
      rw
        (chain_at-push_front t.mask (key_hash key) _ t.table (bucket_of (key_hash q) t.mask)
          (mask-length key_hash key_eq t w))
        (find-front q _ (chain_at t.table (bucket_of (key_hash q) t.mask)) _
          (same_bucket key_hash key_eq eq_hash t.mask q key))
