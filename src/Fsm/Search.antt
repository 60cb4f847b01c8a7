-- ===== src/Fsm/Search.antt =====
-- The binary search of tools/fsm.c finds a character exactly if it is in the sorted array.
use mathlib.Core.Bool.{false≢true}
use webcom_sdk_c.Fsm.{signed, char_at, search_loop, binsearch}
use webcom_sdk_c.Prelude.{
  ℕ, zero, suc, ◌+◌, ◌-◌, ◌/◌, ◌<◌, ◌≤◌, ◌≡◌, ◌↔◌, true, List, ◌==◌, ltb, ==→≡, ltb→lt, lt→ltb,
  Bool-cases, inl, inr, length, arith,
}

-- The characters of an array do not go down.
abbrev pub IsSortedArray : List ℕ → Type 0
IsSortedArray xs = (i j : ℕ) → i ≤ j → j < length xs → signed (char_at xs i) ≤ signed (char_at xs j)

-- A place among those from `low` on and below `high` that has the character.
abbrev pub Among : ℕ → List ℕ → ℕ → ℕ → Type 0
Among needle xs low high =
    (i : ℕ) × (low ≤ i) × (i < high) × (signed (char_at xs i) ≡ signed needle)

search_loop_sound :
    (fuel needle : ℕ) (xs : List ℕ) (low high : ℕ)
    → search_loop fuel needle xs low high ≡ true
    → Among needle xs low high
unfolding search_loop
search_loop_sound zero needle xs low high e = absurd (ground arith)
search_loop_sound (suc fuel) needle xs low high e =
    let mid = low + (high - 1 - low) / 2 in
    let c = signed (char_at xs mid) in
    let n = signed needle in
    elim (Bool-cases (ltb low high)) [
      | inr h ↦ absurd (ground arith)
      | inl h ↦ elim (Bool-cases (ltb c n)) [
        | inl r ↦
            let later : search_loop fuel needle xs (mid + 1) high ≡ true = ground arith in
            let (i, a, b, q) = search_loop_sound fuel needle xs (mid + 1) high later in
            (i, omega arith, b, q)
        | inr r ↦ elim (Bool-cases (ltb n c)) [
          | inl l ↦
              let later : search_loop fuel needle xs low mid ≡ true = ground arith in
              let (i, a, b, q) = search_loop_sound fuel needle xs low mid later in
              (i, a, omega (arith, ltb→lt low high h), q)
          | inr l ↦ (mid, omega arith, omega (arith, ltb→lt low high h), ground arith)
        ]
      ]
    ]

-- Where the middle is too small, the place is right of it; where it is too great, left of it.
right_of :
    (xs : List ℕ) (mid i n : ℕ)
    → IsSortedArray xs
    → mid < length xs
    → signed (char_at xs mid) < n
    → signed (char_at xs i) ≡ n
    → mid < i
right_of xs mid i n s l h q = elim (Bool-cases (ltb mid i)) [
  | inl e ↦ ltb→lt mid i e
  | inr e ↦ absurd (omega (arith, s i mid (ground arith) l))
]

left_of :
    (xs : List ℕ) (mid i n : ℕ)
    → IsSortedArray xs
    → i < length xs
    → n < signed (char_at xs mid)
    → signed (char_at xs i) ≡ n
    → i < mid
left_of xs mid i n s l h q = elim (Bool-cases (ltb i mid)) [
  | inl e ↦ ltb→lt i mid e
  | inr e ↦ absurd (omega (arith, s mid i (ground arith) l))
]

search_loop_complete :
    (fuel needle : ℕ) (xs : List ℕ) (low high : ℕ)
    → IsSortedArray xs
    → high ≤ length xs
    → high ≤ low + fuel
    → Among needle xs low high
    → search_loop fuel needle xs low high ≡ true
unfolding search_loop
search_loop_complete zero needle xs low high s l f (i, a, b, q) = absurd (omega arith)
search_loop_complete (suc fuel) needle xs low high s l f (i, a, b, q) =
    let mid = low + (high - 1 - low) / 2 in
    let c = signed (char_at xs mid) in
    let n = signed needle in
    let h : ltb low high ≡ true = lt→ltb low high (omega arith) in
    elim (Bool-cases (ltb c n)) [
      | inl r ↦
          let p = right_of xs mid i n s (omega arith) (ltb→lt c n r) q in
          rw (h, r)
            (search_loop_complete fuel needle xs (mid + 1) high s l (omega arith)
              (i, omega arith, b, q))
      | inr r ↦ elim (Bool-cases (ltb n c)) [
        | inl t ↦
            let p = left_of xs mid i n s (omega arith) (ltb→lt n c t) q in
            rw (h, r, t)
              (search_loop_complete fuel needle xs low mid s (omega arith) (omega arith)
                (i, a, p, q))
        | inr t ↦ rw (h, r, t)
      ]
    ]

-- On a sorted array `binsearch` answers true exactly if the character is in it.
pub binsearch-Among :
    (needle : ℕ) (xs : List ℕ)
    → IsSortedArray xs
    → (binsearch needle xs ≡ true) ↔ Among needle xs 0 (length xs)
unfolding binsearch
binsearch-Among needle xs s =
    let n = length xs in
    elim (Bool-cases (n == 0)) [
      | inl e ↦ rw e (
        (λ h. absurd (false≢true h)),
        (λ w. let z = ==→≡ n 0 e in let b = w.2 in absurd (omega arith)),
      )
      | inr e ↦ rw e (
        search_loop_sound n needle xs 0 n,
        search_loop_complete n needle xs 0 n s (omega arith) (omega arith),
      )
    ]
