-- ===== src/HashTable/Iterator.antt =====
-- The iterator of lib/collection/ht.c, with the entries that fetching gives.
use webcom_sdk_c.HashTable.{Item, Table, chain_at, ht_capacity, destroy_loop, ht_destroy}
use native.Mathlib.Nat.{add-zero, add-suc, suc-add, sub-zero, zero-add}
use native.Mathlib.Numerals.{add-one}
use mathlib.Core.Path.{subst}
use webcom_sdk_c.Prelude.{
  ℕ, zero, suc, ◌+◌, ◌-◌, ◌≤◌, ◌<◌, ◌≡◌, refl, sym, ap, ◌∙◌, ◌⊎◌, inl, inr, Bool, true, false,
  Option, none, some, List, [], ◌∷◌, ◌++◌, ◌>>=◌, length, append_assoc, append-nil, arith,
}

pub data IterState : Type 0 where
  iter_init iter_iterating iter_invalid : IterState

-- `ht_iter_t`; `c` is the entry that `_c` points to with those after it in its chain, empty for NULL.
pub record Iter (K : Type 0) (V : Type 0) : Type 0 where
  pub b : ℕ
  pub s : IterState
  pub t : Table K V
  pub c : List (Item K V)

module _ {K V : Type 0} where
  -- Before it is started the iterator's `_b` is not set; its value here is not read.
  unfoldable pub ht_it_init : Table K V → Iter K V
  ht_it_init t = record { b = 0; s = iter_init; t = t; c = [] }

  -- A round of the `for` loop at a bucket that is empty, or that has an entry.
  unfoldable pub scan_chain : List (Item K V) → ℕ → Iter K V → Bool × Iter K V → Bool × Iter K V
  scan_chain [] b it rest = rest
  scan_chain (x ∷ es) b it rest = (true, record it { b = b; c = x ∷ es })

  -- The loop from `_b`, with the rounds that are left: whether it finds an entry.
  unfoldable pub scan : ℕ → ℕ → Iter K V → Bool × Iter K V
  unfolding chain_at scan_chain
  scan zero b it = (false, record it { b = b; s = iter_invalid })
  scan (suc n) b it = scan_chain (chain_at it.t.table b) b it (scan n (suc b) it)

  -- The last part of `ht_it_fetch_next`, with `_b` before the loop.
  unfoldable pub scan_from : ℕ → Iter K V → Bool × Iter K V
  unfolding scan ht_capacity
  scan_from b it = scan (ht_capacity it.t - b) b (record it { s = iter_iterating })

  unfoldable pub fetch_bucket : IterState → Iter K V → Bool × Iter K V
  unfolding scan_from
  fetch_bucket iter_init it = scan_from 0 it
  fetch_bucket iter_iterating it = scan_from (it.b + 1) it
  fetch_bucket iter_invalid it = (false, it)

  -- `_c != NULL && _c->next != NULL`
  unfoldable pub fetch_chain : List (Item K V) → Iter K V → Bool × Iter K V
  unfolding fetch_bucket
  fetch_chain [] it = fetch_bucket it.s it
  fetch_chain (x ∷ []) it = fetch_bucket it.s it
  fetch_chain (x ∷ y ∷ es) it = (true, record it { c = y ∷ es })

  unfoldable pub ht_it_fetch_next : Iter K V → Bool × Iter K V
  unfolding fetch_chain
  ht_it_fetch_next it = elim it.s as (λ s. Bool × Iter K V) [
    | iter_invalid ↦ (false, it)
    | iter_init ↦ fetch_chain it.c it
    | iter_iterating ↦ fetch_chain it.c it
  ]

  unfoldable pub front : List (Item K V) → Option (Item K V)
  front [] = none
  front (e ∷ es) = some e

  -- The entry that `ht_it_key` and `ht_it_val` read: `none` where they return NULL, and where no entry was fetched
  -- yet and they read through NULL.
  unfoldable pub entry : Iter K V → Option (Item K V)
  unfolding front
  entry it = elim it.s as (λ s. Option (Item K V)) [
    | iter_invalid ↦ none
    | iter_init ↦ front it.c
    | iter_iterating ↦ front it.c
  ]

  unfoldable pub ht_it_key : Iter K V → Option K
  unfolding entry
  ht_it_key it = do e ← entry it; some e.key

  unfoldable pub ht_it_val : Iter K V → Option V
  unfolding entry
  ht_it_val it = do e ← entry it; some e.value

  -- The entry that a call which answered 1 has reached, before some others.
  unfoldable pub reached : Bool × Iter K V → List (Item K V) → List (Item K V)
  unfolding entry
  reached (false, it) es = []
  reached (true, it) es = elim (entry it) as (λ o. List (Item K V)) [ none ↦ es | some e ↦ e ∷ es ]

  -- The entries that fetching gives until it answers 0, for a number of calls at most.
  unfoldable pub fetch_all : ℕ → Iter K V → List (Item K V)
  unfolding ht_it_fetch_next reached
  fetch_all zero it = []
  fetch_all (suc n) it = reached (ht_it_fetch_next it) (fetch_all n (ht_it_fetch_next it).1)

  chain-cases :
      (c : List (Item K V)) → (c ≡ []) ⊎ ((x : Item K V) × (es : List (Item K V)) × (c ≡ x ∷ es))
  chain-cases [] = inl refl
  chain-cases (x ∷ es) = inr (x, es, refl)

  -- The entries of a number of buckets from one on.
  from_bucket : List (List (Item K V)) → ℕ → ℕ → List (Item K V)
  unfolding chain_at
  from_bucket ts zero b = []
  from_bucket ts (suc n) b = chain_at ts b ++ from_bucket ts n (suc b)

  from_bucket_last :
      (ts : List (List (Item K V))) (n b : ℕ)
      → from_bucket ts n b ++ chain_at ts (b + n) ≡ from_bucket ts (suc n) b
  unfolding from_bucket
  from_bucket_last ts zero b = rw (add-zero b, append-nil (chain_at ts b)) refl
  from_bucket_last ts (suc n) b =
      rw
        (
          add-suc b n,
          ← suc-add b n,
          append_assoc (chain_at ts b) (from_bucket ts n (suc b)) (chain_at ts (suc b + n)),
        )
        (ap (λ es. chain_at ts b ++ es) (from_bucket_last ts n (suc b)))

  destroy_loop-from_bucket :
      (ts : List (List (Item K V))) (n : ℕ) → destroy_loop ts n ≡ from_bucket ts n 0
  unfolding destroy_loop from_bucket
  destroy_loop-from_bucket ts zero = refl
  destroy_loop-from_bucket ts (suc n) =
      rw (destroy_loop-from_bucket ts n)
        (ap (λ i. from_bucket ts n 0 ++ chain_at ts i) (sym (zero-add n)) ∙ from_bucket_last ts n 0)

  module _ (t : Table K V) where
    at_entry : ℕ → Item K V → List (Item K V) → Iter K V
    at_entry b x es = record { b = b; s = iter_iterating; t = t; c = x ∷ es }

    left_buckets : (b k : ℕ) → suc b + k ≡ ht_capacity t → ht_capacity t - suc b ≡ k
    left_buckets b k e = omega arith

    -- Fetching on from an entry gives those after it in its chain and those of the buckets after it.
    FetchesOn : ℕ → Type 0
    FetchesOn n =
        (b k : ℕ) (x : Item K V) (es : List (Item K V))
        → suc b + k ≡ ht_capacity t
        → length (es ++ from_bucket t.table k (suc b)) < n
        → fetch_all n (at_entry b x es) ≡ es ++ from_bucket t.table k (suc b)

    reached-scan :
        (n k b b0 : ℕ) (c : List (Item K V))
        → FetchesOn n
        → b + k ≡ ht_capacity t
        → length (from_bucket t.table k b) ≤ n
        → let r = scan k b (record { b = b0; s = iter_iterating; t = t; c = c }) in
          reached r (fetch_all n r.1) ≡ from_bucket t.table k b
    unfolding scan from_bucket reached at_entry FetchesOn
    reached-scan n zero b b0 c f e h = refl
    reached-scan n (suc k) b b0 c f e h =
        elim (chain-cases (chain_at t.table b))
          as (λ _.
            let r = scan (suc k) b (record { b = b0; s = iter_iterating; t = t; c = c }) in
            reached r (fetch_all n r.1) ≡ from_bucket t.table (suc k) b) [
              | inl q ↦ rw q (
                  reached-scan n k (suc b) b0 c f (omega arith)
                    (subst (λ c. length (c ++ from_bucket t.table k (suc b)) ≤ n) q h))
              | inr (x, es, q) ↦ rw q (
                  ap (λ es. x ∷ es)
                    (f b k x es (omega arith)
                      (subst (λ c. length (c ++ from_bucket t.table k (suc b)) ≤ n) q h)))
            ]

    fetches_on : (n : ℕ) → FetchesOn n
    unfolding fetch_all at_entry reached scan_from FetchesOn
    fetches_on zero b k x es e h = absurd (omega arith)
    fetches_on (suc n) b k x [] e h =
        rw (add-one b, left_buckets b k e)
          (reached-scan n k (suc b) b (x ∷ []) (fetches_on n) e (omega arith))
    fetches_on (suc n) b k x (y ∷ es) e h =
        ap (λ es. y ∷ es) (fetches_on n b k y es e (omega arith))

  -- For more calls than there are entries, fetching gives the entries that destroying the table frees, each once
  -- and in the same order, and then answers 0.
  pub fetch_all-ht_it_init :
      (t : Table K V) (n : ℕ)
      → length (ht_destroy t) < n
      → fetch_all n (ht_it_init t) ≡ ht_destroy t
  unfolding fetch_all ht_it_init ht_destroy reached scan_from
  fetch_all-ht_it_init t zero h = absurd (omega arith)
  fetch_all-ht_it_init t (suc n) h = rw (destroy_loop-from_bucket t.table (ht_capacity t)) (
      rw (sub-zero (ht_capacity t)) (
        reached-scan t n (ht_capacity t) 0 0 [] (fetches_on t n) (omega arith)
          (omega (arith, h, ap length (destroy_loop-from_bucket t.table (ht_capacity t))))))
