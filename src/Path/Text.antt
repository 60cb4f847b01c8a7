-- ===== src/Path/Text.antt =====
-- The normalised text of a parsed path in lib/datasync/path.c, and that it parses to the same path.
use webcom_sdk_c.Path.Parse.{IsText, parts-parse}
use webcom_sdk_c.Path.Words.{
  cons_word, segments, words, cons_word_nonempty, segments-slash, segments-other,
}
use webcom_sdk_c.Path.{parse, parts, path_of, max_depth, normalise, to_str, scan, init}
use webcom_sdk_c.Prelude.{
  ℕ, zero, suc, ◌+◌, ◌^◌, ◌≤◌, ◌<◌, ◌≡◌, refl, sym, ap, ◌∙◌, List, [], ◌∷◌, ◌++◌, ◌==◌, false,
  length, length-append, take, All, All-append, All-imp, append-nil, Bool-cases, inl, inr, arith,
}

-- One slash before each word, and a slash alone where there is none.
unfoldable pub text_of : List (List ℕ) → List ℕ
text_of [] = b'/' ∷ []
text_of (w ∷ ws) = normalise (w ∷ ws)

norm-parts : (o t : List ℕ) → (path_of o t).norm ≡ text_of (parts (path_of o t))
unfolding path_of parts text_of
norm-parts [] t = refl
norm-parts (x ∷ o) t = refl

-- The normalised text of a path of fewer than 65536 bytes is its first 32 words, each after a slash,
-- or one slash where there is no word.
pub to_str-parse :
    (s : List ℕ)
    → IsText s
    → length s < 2 ^ 16
    → to_str (parse s) ≡ text_of (take max_depth (words s))
unfolding to_str parse
to_str-parse s z l =
    norm-parts (scan s 0 init 0).0 (scan s 0 init 0).1 ∙ ap text_of (parts-parse s z l)

-- A word as the parser finds it: not empty, and no byte of it a NUL or a slash.
abbrev pub IsWord : List ℕ → Type 0
IsWord w = (0 < length w) × All (λ c. (0 < c) × ((c == b'/') ≡ false)) w

cons_word-All :
    (w : List ℕ) (ws : List (List ℕ))
    → All (λ c. (0 < c) × ((c == b'/') ≡ false)) w
    → All IsWord ws
    → All IsWord (cons_word w ws)
unfolding cons_word
cons_word-All [] ws p q = q
cons_word-All (c ∷ w) ws p q = ((omega arith, p), q)

segments-All :
    (s : List ℕ)
    → IsText s
    → All (λ c. (0 < c) × ((c == b'/') ≡ false)) (segments s).0 × All IsWord (segments s).1
unfolding segments words
segments-All [] z = (tt, tt)
segments-All (c ∷ s) z =
    let (p, q) = segments-All s z.1 in
    elim (Bool-cases (c == b'/')) [
      | inl g ↦ rw (segments-slash c s g) (tt, cons_word-All _ _ p q)
      | inr g ↦ rw (segments-other c s g) (((z.0, g), p), q)
    ]

words-All : (s : List ℕ) → IsText s → All IsWord (words s)
unfolding words
words-All s z = let (p, q) = segments-All s z in cons_word-All _ _ p q

take-All {ℓ κ} : {A : Type ℓ} (P : A → Type κ) (n : ℕ) (xs : List A) → All P xs → All P (take n xs)
take-All P zero xs a = tt
take-All P (suc n) [] a = tt
take-All P (suc n) (x ∷ xs) a = (a.0, take-All P n xs a.1)

segments-append :
    (w s : List ℕ)
    → All (λ c. (0 < c) × ((c == b'/') ≡ false)) w
    → segments (w ++ s) ≡ (w ++ (segments s).0, (segments s).1)
segments-append [] s p = refl
segments-append (c ∷ w) s p =
    segments-other c (w ++ s) p.0.1 ∙ ap (λ r. (c ∷ r.0, r.1)) (segments-append w s p.1)

words-append :
    (w : List ℕ) (ws : List (List ℕ))
    → IsWord w
    → segments (normalise ws) ≡ ([], ws)
    → words (w ++ normalise ws) ≡ w ∷ ws
unfolding words
words-append w ws a e =
    rw (segments-append w (normalise ws) a.1, e, append-nil w) (cons_word_nonempty w ws a.0)

-- The words of a normalised text are the words that it was made from.
segments-normalise : (ws : List (List ℕ)) → All IsWord ws → segments (normalise ws) ≡ ([], ws)
unfolding normalise segments
segments-normalise [] a = refl
segments-normalise (w ∷ ws) a =
    let ih = segments-normalise ws a.1 in
    segments-slash b'/' (w ++ normalise ws) refl ∙ ap (λ r. ([], r)) (words-append w ws a.0 ih)

words-text_of : (ws : List (List ℕ)) → All IsWord ws → words (text_of ws) ≡ ws
unfolding words text_of
words-text_of [] a = unfold segments cons_word in refl
words-text_of (w ∷ ws) a = rw (segments-normalise (w ∷ ws) a) (unfold cons_word in refl)

-- Normalising adds one slash at most.
length-cons_word :
    (w : List ℕ) (ws : List (List ℕ))
    → length (normalise (cons_word w ws)) ≤ suc (length w + length (normalise ws))
unfolding cons_word normalise
length-cons_word [] ws = omega arith
length-cons_word (c ∷ w) ws = omega (arith, length-append w (normalise ws))

length-segments :
    (s : List ℕ) → length (segments s).0 + length (normalise (segments s).1) ≤ length s
unfolding words
length-segments [] = unfold segments normalise in omega arith
length-segments (c ∷ s) =
    let ih = length-segments s in
    elim (Bool-cases (c == b'/')) [
      | inl g ↦
          rw (segments-slash c s g) (omega (arith, length-cons_word (segments s).0 (segments s).1))
      | inr g ↦ rw (segments-other c s g) (omega arith)
    ]

length-words : (s : List ℕ) → length (normalise (words s)) ≤ suc (length s)
unfolding words
length-words s = omega (arith, length-cons_word (segments s).0 (segments s).1, length-segments s)

length-take : (n : ℕ) (ws : List (List ℕ)) → length (normalise (take n ws)) ≤ length (normalise ws)
unfolding normalise
length-take zero ws = omega arith
length-take (suc n) [] = omega arith
length-take (suc n) (w ∷ ws) = omega (
  arith,
  length-take n ws,
  length-append w (normalise ws),
  length-append w (normalise (take n ws)),
)

text_of-length : (ws : List (List ℕ)) → length (text_of ws) ≤ suc (length (normalise ws))
unfolding text_of normalise
text_of-length [] = omega arith
text_of-length (w ∷ ws) = omega arith

IsText-of-word : (w : List ℕ) → All (λ c. (0 < c) × ((c == b'/') ≡ false)) w → IsText w
IsText-of-word w a = All-imp (λ c p. p.0) w a

IsText-normalise : (ws : List (List ℕ)) → All IsWord ws → IsText (normalise ws)
unfolding normalise
IsText-normalise [] a = tt
IsText-normalise (w ∷ ws) a = (
  omega arith,
  All-append (λ c. 0 < c) w (normalise ws) (IsText-of-word w a.0.1) (IsText-normalise ws a.1),
)

IsText-text_of : (ws : List (List ℕ)) → All IsWord ws → IsText (text_of ws)
unfolding text_of
IsText-text_of [] a = (omega arith, tt)
IsText-text_of (w ∷ ws) a = IsText-normalise (w ∷ ws) a

take-take {ℓ} : {A : Type ℓ} (n : ℕ) (xs : List A) → take n (take n xs) ≡ take n xs
take-take zero xs = refl
take-take (suc n) [] = refl
take-take (suc n) (x ∷ xs) = ap (λ r. x ∷ r) (take-take n xs)

-- Parsing the normalised text of a parsed path of fewer than 65534 bytes gives its parts again.
pub parts-parse-to_str-parse :
    (s : List ℕ)
    → IsText s
    → length s + 2 < 2 ^ 16
    → parts (parse (to_str (parse s))) ≡ parts (parse s)
parts-parse-to_str-parse s z l =
    let ws = take max_depth (words s) in
    let a = take-All IsWord max_depth (words s) (words-All s z) in
    let shorter : length (text_of ws) < 2 ^ 16 =
      omega (arith, text_of-length ws, length-take max_depth (words s), length-words s) in
    rw (to_str-parse s z (omega arith)) (
      parts-parse (text_of ws) (IsText-text_of ws a) shorter
      ∙ (ap (take max_depth) (words-text_of ws a)
          ∙ (take-take max_depth (words s) ∙ sym (parts-parse s z (omega arith)))))
