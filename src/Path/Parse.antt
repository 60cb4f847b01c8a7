-- ===== src/Path/Parse.antt =====
-- The parser of lib/datasync/path.c finds the words of a path, the first 32 of them.
use webcom_sdk_c.Path.Words.{
  cons_word, segments, words, cons_word_nonempty, segments-slash, segments-other,
}
use webcom_sdk_c.Path.{
  State, init, inside_part, step, finish, scan, c_str, part_at, parse, parts, path_of, max_depth,
}
use webcom_sdk_c.Prelude.{
  ℕ, zero, suc, ◌+◌, ◌%◌, ◌^◌, ◌≤◌, ◌<◌, ◌≡◌, refl, ap₂, ◌∙◌, List, [], ◌∷◌, ◌++◌, map, ◌==◌, ltb,
  true, false, length, length-append, take, drop, drop-append, All, All-append, append_assoc,
  append-nil, Bool-cases, lt→ltb, map-append, inl, inr, arith,
}

-- No byte of a C string is NUL.
abbrev pub IsText : List ℕ → Type 0
IsText s = All (λ c. 0 < c) s

drop-append_left : (b : ℕ) (xs ys : List ℕ) → b ≤ length xs → drop b (xs ++ ys) ≡ drop b xs ++ ys
drop-append_left zero xs ys h = refl
drop-append_left (suc b) [] ys h = absurd (omega arith)
drop-append_left (suc b) (x ∷ xs) ys h = drop-append_left b xs ys (omega arith)

length-drop : (b : ℕ) (xs : List ℕ) → b < length xs → 0 < length (drop b xs)
length-drop zero xs h = h
length-drop (suc b) [] h = absurd (omega arith)
length-drop (suc b) (x ∷ xs) h = length-drop b xs (omega arith)

pub take-nil {ℓ} : {A : Type ℓ} (n : ℕ) → take {A = A} n [] ≡ []
take-nil zero = refl
take-nil (suc n) = refl

c_str-append_nul : (w t : List ℕ) → IsText w → c_str (w ++ 0 ∷ t) ≡ w
unfolding c_str
c_str-append_nul [] t p = refl
c_str-append_nul (c ∷ w) t p = ground (arith, c_str-append_nul w t p.1)

c_str-text : (w : List ℕ) → IsText w → c_str (w ++ []) ≡ w
unfolding c_str
c_str-text [] p = refl
c_str-text (c ∷ w) p = ground (arith, c_str-text w p.1)

-- The bytes read since the part began, in the copy so far.
abbrev InPart : State → List ℕ → Type 0
InPart init pre = Unit
InPart (inside_part b) pre = (b < length pre) × IsText (drop b pre)

-- The parts that are still to be found.
expected : State → List ℕ → List ℕ → List (List ℕ)
expected init pre rest = words rest
expected (inside_part b) pre rest = cons_word (drop b pre ++ (segments rest).0) (segments rest).1

-- The parts that the loop finds from index `i` on, read in the copy as the loop leaves it.
found : List ℕ → List ℕ → ℕ → State → ℕ → List (List ℕ)
found pre rest i s n = let (offsets, t) = scan rest i s n in map (part_at (pre ++ t)) offsets

found-step :
    (pre : List ℕ) (c : ℕ) (rest : List ℕ) (i : ℕ) (s : State) (n : ℕ) (r : State × List ℕ × ℕ)
    → n < max_depth
    → step c i s ≡ r
    → found pre (c ∷ rest) i s n
      ≡ map (part_at (pre ++ r.2 ∷ (scan rest (i + 1) r.0 (n + length r.1)).1)) r.1
        ++ found (pre ++ r.2 ∷ []) rest (i + 1) r.0 (n + length r.1)
unfolding found scan
found-step pre c rest i s n r h e =
    rw (lt→ltb n max_depth h, e, scan)
      (rw (append_assoc pre (r.2 ∷ [])) (map-append (part_at _) r.1 _))

found_full :
    (pre rest : List ℕ) (i : ℕ) (s : State) (n : ℕ) → max_depth ≤ n → found pre rest i s n ≡ []
unfolding found scan
found_full pre [] i s n h = let e : ltb n max_depth ≡ false = ground arith in rw (e, scan)
found_full pre (c ∷ rest) i s n h = let e : ltb n max_depth ≡ false = ground arith in rw (e, scan)

found_end :
    (pre : List ℕ) (i : ℕ) (s : State) (n : ℕ)
    → n < max_depth
    → found pre [] i s n ≡ map (part_at (pre ++ [])) (finish i s)
unfolding found scan
found_end pre i s n h = rw (lt→ltb n max_depth h, scan)

-- The part that a slash or the end closes.
part_at-nul :
    (pre t : List ℕ) (b : ℕ)
    → b < length pre
    → length pre < 2 ^ 16
    → IsText (drop b pre)
    → part_at (pre ++ 0 ∷ t) (b % 2 ^ 16) ≡ drop b pre
unfolding part_at
part_at-nul pre t b h l z =
    let e : b % 2 ^ 16 ≡ b = omega arith in
    rw (e, drop-append_left b pre (0 ∷ t) (omega arith)) (c_str-append_nul (drop b pre) t z)

part_at-end :
    (pre : List ℕ) (b : ℕ)
    → b < length pre
    → length pre < 2 ^ 16
    → IsText (drop b pre)
    → part_at (pre ++ []) (b % 2 ^ 16) ≡ drop b pre
unfolding part_at
part_at-end pre b h l z =
    let e : b % 2 ^ 16 ≡ b = omega arith in
    rw (e, drop-append_left b pre [] (omega arith)) (c_str-text (drop b pre) z)

found-expected :
    (rest pre : List ℕ) (s : State) (n m : ℕ)
    → m + n ≡ max_depth
    → length pre + length rest < 2 ^ 16
    → IsText rest
    → InPart s pre
    → (i : ℕ) → i ≡ length pre
    → found pre rest i s n ≡ take m (expected s pre rest)
found-expected rest pre s n zero e l z p i j = found_full pre rest i s n (omega arith)
found-expected [] pre init n (suc m) e l z p i j =
    found_end pre i init n (omega arith) ∙ (unfold expected words segments finish cons_word in refl)
found-expected [] pre (inside_part b) n (suc m) e l z p i j =
    let late : ltb b i ≡ true = ground arith in
    found_end pre i (inside_part b) n (omega arith)
    ∙ (unfold expected segments finish in
        rw (
          late,
          part_at-end pre b p.0 (omega arith) p.1,
          append-nil (drop b pre),
          cons_word_nonempty (drop b pre) [] (length-drop b pre p.0),
          take-nil {A = List ℕ} m,
        ))
found-expected (c ∷ rest) pre init n (suc m) e l z p i j =
    let longer = length-append pre (c ∷ []) in
    elim (Bool-cases (c == b'/')) [
      | inl g ↦
          found-step pre c rest i init n (init, [], c) (omega arith) (unfold step in rw (g, step))
          ∙ (found-expected rest (pre ++ c ∷ []) init (n + 0) (suc m) (omega arith) (omega arith)
                z.1 tt (i + 1) (omega arith)
              ∙ (unfold expected words in
                  rw (segments-slash c rest g) (unfold cons_word words in refl)))
      | inr g ↦
          let now : drop i (pre ++ c ∷ []) ≡ c ∷ [] = rw j (drop-append pre (c ∷ [])) in
          found-step pre c rest i init n (inside_part i, [], c) (omega arith)
            (unfold step in rw (g, step))
          ∙ (found-expected rest (pre ++ c ∷ []) (inside_part i) (n + 0) (suc m) (omega arith)
                (omega arith) z.1 (omega arith, rw now (z.0, tt)) (i + 1) (omega arith)
              ∙ (unfold expected words in rw (segments-other c rest g, now) refl))
    ]
found-expected (c ∷ rest) pre (inside_part b) n (suc m) e l z p i j =
    let longer = length-append pre (c ∷ []) in
    let closed = length-append pre (0 ∷ []) in
    elim (Bool-cases (c == b'/')) [
      | inl g ↦
          let late : ltb b i ≡ true = ground arith in
          found-step pre c rest i (inside_part b) n (init, b % 2 ^ 16 ∷ [], 0) (omega arith)
            (unfold step in rw (g, late, step))
          ∙ (ap₂ (λ w ws. w ∷ ws) (part_at-nul pre _ b p.0 (omega arith) p.1)
                (found-expected rest (pre ++ 0 ∷ []) init (n + 1) m (omega arith) (omega arith) z.1
                  tt (i + 1) (omega arith))
              ∙ (unfold expected in
                  rw (
                    segments-slash c rest g,
                    append-nil (drop b pre),
                    cons_word_nonempty (drop b pre) (words rest) (length-drop b pre p.0),
                  )))
      | inr g ↦
          let now : drop b (pre ++ c ∷ []) ≡ drop b pre ++ c ∷ [] =
            drop-append_left b pre (c ∷ []) (omega arith) in
          found-step pre c rest i (inside_part b) n (inside_part b, [], c) (omega arith)
            (unfold step in rw (g, step))
          ∙ (found-expected rest (pre ++ c ∷ []) (inside_part b) (n + 0) (suc m) (omega arith)
                (omega arith) z.1
                (omega arith, rw now (All-append (λ c. 0 < c) (drop b pre) (c ∷ []) p.1 (z.0, tt)))
                (i + 1) (omega arith)
              ∙ (unfold expected in
                  rw
                    (
                      segments-other c rest g,
                      now,
                      append_assoc (drop b pre) (c ∷ []) (segments rest).0,
                    )
                    refl))
    ]

-- A path of fewer than 65536 bytes is parsed into its words, the first 32 of them, whatever the
-- slashes around them.
pub parts-parse :
    (s : List ℕ) → IsText s → length s < 2 ^ 16 → parts (parse s) ≡ take max_depth (words s)
unfolding parse parts
parts-parse s z l =
    go (scan s 0 init 0).0 (scan s 0 init 0).1
    ∙ (unfold found expected in found-expected s [] init 0 max_depth refl (omega arith) z tt 0 refl)
  where
    go : (o t : List ℕ) → parts (path_of o t) ≡ map (part_at t) o
    go [] t = unfold path_of parts in refl
    go (x ∷ o) t = unfold path_of parts in refl
