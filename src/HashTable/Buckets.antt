-- ===== src/HashTable/Buckets.antt =====
-- The buckets of lib/collection/ht.c as lists: what a bucket holds after a change, and what the loops of rehashing
-- keep of lengths and of predicates.
use webcom_sdk_c.HashTable.{
  Item, chain_at, empty_chains, bucket_of, pow2, mask_of, push_front, rehash_chain, rehash_loop,
}
use webcom_sdk_c.Prelude.{
  ℕ, zero, suc, ◌%◌, ◌^◌, ◌≤◌, ◌<◌, ◌≡◌, ◌≢◌, refl, sym, ap, ◌∙◌, inl, inr, true, false, List, [],
  ◌∷◌, if◌then◌else◌, ◌==◌, ltb, ==→≡, length, set, length-set, All, arith, Bool-cases,
}
use mathlib.Core.Path.{subst}
use native.Mathlib.Omega.{mod_fact}

pub ltb_irrefl : (n : ℕ) → ltb n n ≡ false
ltb_irrefl n = ground arith

pub ltb-suc : (n : ℕ) → ltb n (suc n) ≡ true
ltb-suc n = ground arith

pub ltb-suc_ne : (h n : ℕ) → (h == n) ≡ false → ltb h (suc n) ≡ ltb h n
ltb-suc_ne h n q = ground arith

pow_pos : (f : ℕ) → 0 < 2 ^ f
pow_pos zero = omega arith
pow_pos (suc f) = omega (arith, pow_pos f)

pub suc-mask_of : (f : ℕ) → suc (mask_of f) ≡ pow2 f
unfolding mask_of pow2
suc-mask_of f = omega (arith, pow_pos f)

pub ==-≢ : (h n : ℕ) → (h == n) ≡ false → h ≢ n
==-≢ h n q e = ground arith

module _ {A : Type 0} where
  pub chain_at-set :
      (ts : List (List A)) (i j : ℕ) (c : List A)
      → i < length ts
      → chain_at (set ts i c) j ≡ (if i == j then c else chain_at ts j)
  unfolding chain_at
  chain_at-set [] i j c h = absurd (omega arith)
  chain_at-set (x ∷ ts) zero zero c h = refl
  chain_at-set (x ∷ ts) zero (suc j) c h = ground arith
  chain_at-set (x ∷ ts) (suc i) zero c h = ground arith
  chain_at-set (x ∷ ts) (suc i) (suc j) c h = ground (arith, chain_at-set ts i j c)

  -- The elements of the first list pushed one by one on the second.
  unfoldable pub onto : List A → List A → List A
  onto [] ys = ys
  onto (x ∷ xs) ys = onto xs (x ∷ ys)

  pub onto_nil : (xs : List A) → length xs ≤ 1 → onto xs [] ≡ xs
  unfolding onto
  onto_nil [] h = refl
  onto_nil (x ∷ []) h = refl
  onto_nil (x ∷ y ∷ xs) h = absurd (omega arith)

module _ (A : Type 0) where
  pub length-empty_chains : (n : ℕ) → length (empty_chains {A = A} n) ≡ n
  unfolding empty_chains
  length-empty_chains zero = refl
  length-empty_chains (suc n) = ap suc (length-empty_chains n)

  pub chain_at-empty_chains : (n i : ℕ) → chain_at (empty_chains {A = A} n) i ≡ []
  unfolding empty_chains chain_at
  chain_at-empty_chains zero i = refl
  chain_at-empty_chains (suc n) zero = refl
  chain_at-empty_chains (suc n) (suc i) = chain_at-empty_chains n i

module _ {K V : Type 0} where
  pub length-push_front :
      (i : ℕ) (e : Item K V) (ts : List (List (Item K V))) → length (push_front i e ts) ≡ length ts
  unfolding push_front
  length-push_front i e ts = length-set ts i _

  module _ (m : ℕ) where
    pub chain_at-push_front :
        (h : ℕ) (e : Item K V) (ts : List (List (Item K V))) (i : ℕ)
        → suc m ≡ length ts
        → chain_at (push_front (bucket_of h m) e ts) i
          ≡ (if bucket_of h m == i then e ∷ chain_at ts i else chain_at ts i)
    unfolding push_front bucket_of
    chain_at-push_front h e ts i s =
        chain_at-set ts (h % suc m) i (e ∷ chain_at ts (h % suc m)) (omega (arith, mod_fact h m))
        ∙ ground arith

    pub length-rehash_chain :
        (es : List (Item K V)) (ts : List (List (Item K V)))
        → length (rehash_chain m es ts) ≡ length ts
    unfolding rehash_chain push_front
    length-rehash_chain [] ts = refl
    length-rehash_chain (e ∷ es) ts = length-rehash_chain es _ ∙ length-set ts _ _

    pub length-rehash_loop :
        (old ts : List (List (Item K V))) (n : ℕ) → length (rehash_loop old m ts n) ≡ length ts
    unfolding rehash_loop
    length-rehash_loop old ts zero = refl
    length-rehash_loop old ts (suc n) =
        length-rehash_chain (chain_at old n) _ ∙ length-rehash_loop old ts n

    -- A predicate that an entry meets in its new bucket holds of every bucket.
    pub All-rehash_chain :
        (P : ℕ → Item K V → Type 0) (es : List (Item K V)) (ts : List (List (Item K V)))
        → suc m ≡ length ts
        → All (λ e. P (bucket_of e.hash m) e) es
        → ((i : ℕ) → All (P i) (chain_at ts i))
        → (i : ℕ) → All (P i) (chain_at (rehash_chain m es ts) i)
    unfolding rehash_chain
    All-rehash_chain P [] ts s a b i = b i
    All-rehash_chain P (e ∷ es) ts s a b i =
        All-rehash_chain P es (push_front (bucket_of e.hash m) e ts) (s ∙ sym (length-set ts _ _))
          a.1
          (λ k.
            rw (chain_at-push_front e.hash e ts k s) (elim (Bool-cases (bucket_of e.hash m == k)) [
              | inl h ↦ rw h (subst (λ n. P n e) (==→≡ _ _ h) a.0, b k)
              | inr h ↦ rw h (b k)
            ]))
          i

    -- So it is with the loop over the old table, for the entries that each bucket has there.
    pub All-rehash_loop :
        (P : ℕ → Item K V → Type 0) (old ts : List (List (Item K V))) (n : ℕ)
        → suc m ≡ length ts
        → ((i : ℕ) → All (λ e. P (bucket_of e.hash m) e) (chain_at old i))
        → ((i : ℕ) → All (P i) (chain_at ts i))
        → (i : ℕ) → All (P i) (chain_at (rehash_loop old m ts n) i)
    unfolding rehash_loop
    All-rehash_loop P old ts zero s a b i = b i
    All-rehash_loop P old ts (suc n) s a b i =
        All-rehash_chain P (chain_at old n) (rehash_loop old m ts n)
          (s ∙ sym (length-rehash_loop old ts n)) (a n) (All-rehash_loop P old ts n s a b) i
