-- ===== src/Tests/Tables.antt =====
-- Concrete inputs for the theorems on hash tables and on the order of paths: a table of numbers with three entries
-- in one bucket, and keys of decimal digits.
use Prim.Native.Nat.Ordering.{lt, eq}
use webcom_sdk_c.Base64.{codes}
use webcom_sdk_c.HashTable.{
  Item, Table, chain_at, empty_chains, bucket_of, mask_of, ht_capacity, bucket, ht_get, ht_insert,
  enlarged, ht_destroy,
}
use webcom_sdk_c.HashTable.Buckets.{chain_at-empty_chains}
use webcom_sdk_c.HashTable.Insert.{ht_insert-ht_get}
use webcom_sdk_c.HashTable.Iterator.{ht_it_init, fetch_all, fetch_all-ht_it_init}
use webcom_sdk_c.HashTable.Rehash.{Placed, hits, IsTable}
use webcom_sdk_c.Path.{parse, parts}
use webcom_sdk_c.Path.Order.{path_cmp, key_cmp}
use webcom_sdk_c.Path.Order.Narrow.{IsNear, path_cmp_trans, key_cmp_wraps}
use webcom_sdk_c.Tests.{scan_digits, scan_decimal}
use webcom_sdk_c.Prelude.{
  ℕ, zero, suc, ◌+◌, ◌^◌, ◌≤◌, ◌≡◌, refl, true, some, [], ◌∷◌, ◌==◌, ◌>>◌, ==→≡, length, All, arith,
}

abbrev id_hash : ℕ → ℕ
id_hash k = k

abbrev entry_of : ℕ → ℕ → Item ℕ ℕ
entry_of k v = record { hash = k; key = k; value = v }

-- The keys 9, 1 and 17 in the bucket of 1.
abbrev three_entries : Table ℕ ℕ
three_entries = record {
  hash_two_factor = 3;
  count = 3;
  table = [] ∷ (entry_of 9 90 ∷ entry_of 1 10 ∷ entry_of 17 170 ∷ []) ∷ empty_chains 6;
  mask = 7;
  key_free = true;
  val_free = true;
}

same_key : (a b : ℕ) → (a == b) ≡ true → id_hash a ≡ id_hash b
same_key a b h = ==→≡ a b h

entries_placed : (i : ℕ) → All (Placed id_hash ◌==◌ 7 i) (chain_at three_entries.table i)
unfolding chain_at Placed bucket_of
entries_placed zero = tt
entries_placed (suc zero) = ((refl, refl), ((refl, refl), ((refl, refl), tt)))
entries_placed (suc (suc i)) = rw (chain_at-empty_chains (Item ℕ ℕ) 6 i) tt

entries_once : (key i : ℕ) → length (hits id_hash ◌==◌ key (chain_at three_entries.table i)) ≤ 1
unfolding chain_at hits
entries_once key zero = omega arith
entries_once key (suc zero) = ground arith
entries_once key (suc (suc i)) = rw (chain_at-empty_chains (Item ℕ ℕ) 6 i) (omega arith)

three_entries-IsTable : IsTable id_hash ◌==◌ three_entries
unfolding ht_capacity empty_chains mask_of
three_entries-IsTable = record {
  size = refl;
  masked = refl;
  placed = entries_placed;
  once = λ key. entries_once key (bucket id_hash ◌==◌ three_entries key);
}

ht_insert-ht_get_example :
    (ht_insert id_hash ◌==◌ three_entries 9 5
      ≡ (ht_get id_hash ◌==◌ three_entries 9 >> some (0, enlarged three_entries)))
    × (ht_get id_hash ◌==◌ (enlarged three_entries) 1 ≡ ht_get id_hash ◌==◌ three_entries 1)
ht_insert-ht_get_example =
    ht_insert-ht_get id_hash ◌==◌ same_key three_entries 9 1 5 three_entries-IsTable

fetch_all-ht_it_init_example : fetch_all 4 (ht_it_init three_entries) ≡ ht_destroy three_entries
unfolding ht_destroy empty_chains
fetch_all-ht_it_init_example = fetch_all-ht_it_init three_entries 4 (omega arith)

one-IsNear : IsNear scan_decimal (2 ^ 63) (codes "1")
unfolding scan_decimal scan_digits
one-IsNear = λ i h. ground arith

many-IsNear : IsNear scan_decimal (2 ^ 63) (codes "2147483647")
unfolding scan_decimal scan_digits
many-IsNear = λ i h. ground arith

a-IsNear : IsNear scan_decimal (2 ^ 63) (codes "a")
unfolding scan_decimal scan_digits
a-IsNear = λ i h. absurd cc

path_cmp_trans_example : path_cmp scan_decimal (parse (codes "/1/a")) (parse (codes "/a")) ≡ lt
unfolding path_cmp parse parts scan_decimal
path_cmp_trans_example =
    path_cmp_trans scan_decimal (2 ^ 63) (omega arith) (parse (codes "/1/a"))
      (parse (codes "/2147483647")) (parse (codes "/a")) (one-IsNear, (a-IsNear, tt))
      (many-IsNear, tt) (a-IsNear, tt) refl refl

key_cmp_wraps_example : key_cmp scan_decimal (codes "1") (codes "4294967297") ≡ eq
unfolding scan_decimal
key_cmp_wraps_example =
    key_cmp_wraps scan_decimal (codes "1") (codes "4294967297") (2 ^ 63 + 1) 0 refl refl
      (omega arith)
