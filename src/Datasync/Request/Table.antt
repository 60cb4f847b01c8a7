-- ===== src/Datasync/Request/Table.antt =====
-- The table of pending requests of lib/datasync/request.c as a map from numbers to requests: what
-- is stored is found once, and by its own number only.
use webcom_sdk_c.Datasync.Request.{
  slots, pending_req_hash, chain_at, store_pending, unlink, get_pending,
}
use webcom_sdk_c.Datasync.{Trans}
use webcom_sdk_c.Prelude.{
  ℕ, zero, suc, ◌%◌, ◌≤◌, ◌<◌, ◌≡◌, ◌≢◌, refl, ap, ◌∙◌, Option, none, some, List, [], ◌∷◌, ◌==◌,
  if◌then◌else◌, length, set, length-set, arith,
}

chain_at-set :
    (t : List (List Trans)) (i j : ℕ) (v : List Trans)
    → i < length t
    → chain_at (set t i v) j ≡ (if i == j then v else chain_at t j)
unfolding chain_at
chain_at-set [] i j v h = absurd (omega arith)
chain_at-set (x ∷ t) zero zero v h = refl
chain_at-set (x ∷ t) zero (suc j) v h = ground arith
chain_at-set (x ∷ t) (suc i) zero v h = ground arith
chain_at-set (x ∷ t) (suc i) (suc j) v h = ground (arith, chain_at-set t i j v)

-- The request of a number in a chain, and how often the number stands there.
find : ℕ → List Trans → Option Trans
find id [] = none
find id (x ∷ chain) = if x.id == id then some x else find id chain

pub count : ℕ → List Trans → ℕ
count id [] = 0
count id (x ∷ chain) = if x.id == id then suc (count id chain) else count id chain

-- The request that waits under a number.
unfoldable pub waiting : List (List Trans) → ℕ → Option Trans
unfolding find
waiting t id = find id (chain_at t (pending_req_hash id))

-- No number waits twice.
pub record IsTable (t : List (List Trans)) : Type 0 where
  pub size : length t ≡ slots
  pub once : (id : ℕ) → count id (chain_at t (pending_req_hash id)) ≤ 1

find-count : (id : ℕ) (c : List Trans) → count id c ≡ 0 → find id c ≡ none
unfolding find count
find-count id [] h = refl
find-count id (x ∷ c) h = ground (arith, find-count id c)

count-find : (id : ℕ) (c : List Trans) → find id c ≡ none → count id c ≡ 0
unfolding find count
count-find id [] h = refl
count-find id (x ∷ c) h = ground (arith, count-find id c)

unlink-find : (id : ℕ) (c : List Trans) → (unlink id c).1 ≡ find id c
unfolding unlink find
unlink-find id [] = refl
unlink-find id (x ∷ c) = ground (arith, unlink-find id c)

find-unlink_ne : (id j : ℕ) (c : List Trans) → id ≢ j → find j (unlink id c).0 ≡ find j c
unfolding unlink find
find-unlink_ne id j [] h = refl
find-unlink_ne id j (x ∷ c) h = ground (arith, find-unlink_ne id j c)

find-unlink_self : (id : ℕ) (c : List Trans) → count id c ≤ 1 → find id (unlink id c).0 ≡ none
unfolding unlink find count
find-unlink_self id [] h = refl
find-unlink_self id (x ∷ c) h = ground (arith, find-unlink_self id c, find-count id c)

count-unlink : (id j : ℕ) (c : List Trans) → count j (unlink id c).0 ≤ count j c
unfolding unlink count
count-unlink id j [] = omega arith
count-unlink id j (x ∷ c) = ground (arith, count-unlink id j c)

hash-lt : (t : List (List Trans)) (id : ℕ) → IsTable t → pending_req_hash id < length t
unfolding pending_req_hash
hash-lt t id v = rw v.size (omega arith)

-- In a table in which no number waits twice, a stored request waits under its number; what waits
-- under other numbers stays.
pub waiting-store_pending :
    (t : List (List Trans)) (x : Trans) (j : ℕ)
    → IsTable t
    → waiting (store_pending t x) j ≡ (if x.id == j then some x else waiting t j)
unfolding waiting store_pending
waiting-store_pending t x j v =
    rw (chain_at-set t (pending_req_hash x.id) (pending_req_hash j) _ (hash-lt t x.id v))
      (unfold find pending_req_hash in ground arith)

-- Storing a request under a number that does not wait keeps every number waiting once at most.
pub store_pending-IsTable :
    (t : List (List Trans)) (x : Trans)
    → IsTable t
    → waiting t x.id ≡ none
    → IsTable (store_pending t x)
unfolding store_pending waiting
store_pending-IsTable t x v w = record {
  size = length-set t _ _ ∙ v.size;
  once = λ j.
      rw (chain_at-set t (pending_req_hash x.id) (pending_req_hash j) _ (hash-lt t x.id v)) (
        unfold count pending_req_hash in
        ground (arith, v.once j, count-find x.id (chain_at t (x.id % slots))));
}

-- In a table in which no number waits twice, a request is taken out by its number: it is what waited
-- there, nothing waits there afterwards, and what waits under other numbers stays.
pub waiting-get_pending :
    (t : List (List Trans)) (id j : ℕ)
    → IsTable t
    → ((get_pending t id).1 ≡ waiting t id)
      × (waiting (get_pending t id).0 j ≡ (if id == j then none else waiting t j))
unfolding waiting get_pending
waiting-get_pending t id j v = (
  unlink-find id (chain_at t (pending_req_hash id)),
  rw (chain_at-set t (pending_req_hash id) (pending_req_hash j) _ (hash-lt t id v)) (
      unfold pending_req_hash in
      ground (
        arith,
        find-unlink_self id (chain_at t (id % slots)) (v.once id),
        find-unlink_ne id j (chain_at t (id % slots)),
      )),
)

-- Taking a request out keeps every number waiting once at most.
pub get_pending-IsTable :
    (t : List (List Trans)) (id : ℕ) → IsTable t → IsTable (get_pending t id).0
unfolding get_pending
get_pending-IsTable t id v = record {
  size = length-set t _ _ ∙ v.size;
  once = λ j. rw (chain_at-set t (pending_req_hash id) (pending_req_hash j) _ (hash-lt t id v)) (
      unfold pending_req_hash in
      ground (arith, v.once j, count-unlink id j (chain_at t (id % slots))));
}

-- A table of `n` empty chains; that of a new context has `slots` of them.
abbrev pub empties : ℕ → List (List Trans)
empties zero = []
empties (suc n) = [] ∷ empties n

chain_at-empties : (n i : ℕ) → chain_at (empties n) i ≡ []
unfolding chain_at
chain_at-empties zero i = refl
chain_at-empties (suc n) zero = refl
chain_at-empties (suc n) (suc i) = chain_at-empties n i

length-empties : (n : ℕ) → length (empties n) ≡ n
length-empties zero = refl
length-empties (suc n) = ap suc (length-empties n)

pub empties-IsTable : IsTable (empties slots)
empties-IsTable = record {
  size = length-empties slots;
  once = λ id. rw (chain_at-empties slots (pending_req_hash id)) (unfold count in omega arith);
}

pub waiting-empties : (id : ℕ) → waiting (empties slots) id ≡ none
unfolding waiting find
waiting-empties id = rw (chain_at-empties slots (pending_req_hash id)) refl
