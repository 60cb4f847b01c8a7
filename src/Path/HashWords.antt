-- ===== src/Path/HashWords.antt =====
-- The hash that lib/hash.c computes over the text of a path is the hash that lib/datasync/path.c
-- computes over its parts.
use webcom_sdk_c.Hash.{
  djb2_step, djb2_hash_update, str_path_hash_update, skip_slashes, hash_part, str_path_hash_loop,
  str_path_hash,
}
use webcom_sdk_c.Path.Parse.{IsText, parts-parse}
use webcom_sdk_c.Path.Words.{cons_word, segments, words, segments-slash, segments-other}
use webcom_sdk_c.Path.{hash_parts, path_hash, parse, max_depth}
use webcom_sdk_c.Prelude.{
  ℕ, zero, suc, ◌^◌, ◌≤◌, ◌<◌, ◌≡◌, refl, ap, ◌∙◌, List, [], ◌∷◌, ◌==◌, true, false, length, take,
  Bool-cases, inl, inr, arith,
}

words-slash : (c : ℕ) (s : List ℕ) → (c == b'/') ≡ true → words (c ∷ s) ≡ words s
words-slash c s g = unfold words in rw (segments-slash c s g) (unfold cons_word words in refl)

words-other :
    (c : ℕ) (s : List ℕ)
    → (c == b'/') ≡ false
    → words (c ∷ s) ≡ (c ∷ (segments s).0) ∷ (segments s).1
words-other c s g = unfold words in rw (segments-other c s g) (unfold cons_word in refl)

take-all {ℓ} : {A : Type ℓ} (n : ℕ) (xs : List A) → length xs ≤ n → take n xs ≡ xs
take-all zero [] h = refl
take-all zero (x ∷ xs) h = absurd (omega arith)
take-all (suc n) [] h = refl
take-all (suc n) (x ∷ xs) h = ap (λ r. x ∷ r) (take-all n xs (omega arith))

-- What one call of the update leaves of the string: the words after the first segment.
update-segments :
    (s : List ℕ) (h : ℕ)
    → let r = str_path_hash_update s h in
      (r.1 ≡ djb2_step (djb2_hash_update (segments s).0 h) b'/')
      × (words r.0 ≡ (segments s).1)
      × (length r.0 ≤ length s)
unfolding str_path_hash_update djb2_hash_update
update-segments [] h =
    (unfold segments in refl, unfold segments words cons_word in refl, omega arith)
update-segments (c ∷ s) h =
    let ih = update-segments s (djb2_step h c) in
    elim (Bool-cases (c == b'/')) [
      | inl g ↦
          rw (g, segments-slash c s g, str_path_hash_update) (refl, words-slash c s g, omega arith)
      | inr g ↦ rw (g, segments-other c s g, str_path_hash_update) (ih.0, ih.1, omega arith)
    ]

-- The string after the slashes: empty, or a word's first byte and the rest.
data Skipped (s : List ℕ) : List ℕ → Type 0 where
  ended : words s ≡ [] → Skipped s []
  at_word :
      (d : ℕ) (q : List ℕ)
      → (d == b'/') ≡ false
      → words s ≡ words (d ∷ q)
      → length q < length s
      → Skipped s (d ∷ q)

later : (c : ℕ) (s : List ℕ) → (c == b'/') ≡ true → (t : List ℕ) → Skipped s t → Skipped (c ∷ s) t
later c s g t (ended e) = ended (words-slash c s g ∙ e)
later c s g t (at_word d q n e l) = at_word d q n (words-slash c s g ∙ e) (omega arith)

skip_slashes-Skipped : (s : List ℕ) → Skipped s (skip_slashes s)
unfolding skip_slashes
skip_slashes-Skipped [] = ended (unfold words segments cons_word in refl)
skip_slashes-Skipped (c ∷ s) = elim (Bool-cases (c == b'/')) [
  | inl g ↦ rw (g, skip_slashes) (later c s g _ (skip_slashes-Skipped s))
  | inr g ↦ rw (g, skip_slashes) (at_word c s g refl (omega arith))
]

loop-empty : (fuel h : ℕ) → str_path_hash_loop fuel [] h ≡ h
unfolding str_path_hash_loop
loop-empty zero h = refl
loop-empty (suc fuel) h = refl

-- One round of the outer loop, given what the rounds after it do.
rounds :
    (s t : List ℕ)
    → Skipped s t
    → (h fuel : ℕ) → length s < suc fuel
    → ((r : List ℕ) (k : ℕ)
        → length r < fuel
        → str_path_hash_loop fuel r k ≡ hash_parts (words r) k)
    → str_path_hash_loop fuel (hash_part t h).0 (hash_part t h).1 ≡ hash_parts (words s) h
unfolding hash_part
rounds s t (ended e) h fuel l ih = rw e (unfold hash_part hash_parts in loop-empty fuel h)
rounds s t (at_word d q n e k) h fuel l ih =
    let u = update-segments q (djb2_step h d) in
    rw (e ∙ words-other d q n, hash_part)
      (unfold str_path_hash_update in
        rw (n, str_path_hash_update)
          (ih _ _ (omega arith) ∙ rw (u.1, u.0) (unfold hash_parts djb2_hash_update in refl)))

loop-words :
    (fuel : ℕ) (s : List ℕ) (h : ℕ)
    → length s < fuel
    → str_path_hash_loop fuel s h ≡ hash_parts (words s) h
unfolding str_path_hash_loop
loop-words zero s h l = absurd (omega arith)
loop-words (suc fuel) [] h l = unfold words segments cons_word hash_parts in refl
loop-words (suc fuel) (c ∷ s) h l =
    rounds (c ∷ s) (skip_slashes (c ∷ s)) (skip_slashes-Skipped (c ∷ s)) h fuel (omega arith)
      (loop-words fuel)

-- The hash of a path's text is the hash of the parsed path, for a path of fewer than 65536 bytes and
-- of 32 words at most.
pub str_path_hash-path_hash :
    (s : List ℕ)
    → IsText s
    → length s < 2 ^ 16
    → length (words s) ≤ max_depth
    → str_path_hash s ≡ path_hash (parse s)
unfolding str_path_hash path_hash
str_path_hash-path_hash s z l n =
    loop-words (suc (length s)) s 177620 (omega arith)
    ∙ rw (parts-parse s z l, take-all max_depth (words s) n) (unfold djb2_step in refl)
