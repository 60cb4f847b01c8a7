-- ===== src/Datasync/PushId/Value.antt =====
-- The numbers that the push ids of lib/datasync/datasync_utils.c write down: within a millisecond
-- each is one more than the last.
use mathlib.Core.List.{reverse, reverse-append, reverse-reverse}
use webcom_sdk_c.Datasync.PushId.Bytes.{
  le_onto, AreBytes, IsRand, be_value-increment, le_onto-le_value, le_value-le_bytes_6,
  AreBytes-reverse, length-reverse, le_bytes-AreBytes, length-le_bytes, shift_9, increment-IsRand,
  shift_zero,
}
use webcom_sdk_c.Datasync.PushId.{
  base, digit, encode_back, b64ish_encode, le_bytes, be_bytes, be_value, PushidState, increment,
  rand_bytes, push_id,
}
use webcom_sdk_c.Prelude.{
  ℕ, append-nil, ap₂, zero, suc, ◌+◌, ◌*◌, ◌/◌, ◌%◌, ◌^◌, ◌<◌, ◌≡◌, refl, sym, ap, ◌∙◌, Bool, true,
  false, List, [], ◌∷◌, ◌++◌, ◌==◌, ==→≡, if◌then◌else◌, inl, inr, Bool-cases, length, drop, arith,
}

-- The place of a character in the alphabet of the ids.
place_in : List ℕ → ℕ → ℕ
place_in [] c = 0
place_in (x ∷ xs) c = let i = place_in xs c in if x == c then 0 else suc i

place : ℕ → ℕ
unfolding place_in
place c = place_in base c

-- Whether the places of all digits below a bound are right.
placed : ℕ → Bool
placed zero = true
placed (suc i) = if place (digit i) == i then placed i else false

placed-place : (i bound : ℕ) → i < bound → placed bound ≡ true → place (digit i) ≡ i
unfolding placed
placed-place i zero l e = absurd (omega arith)
placed-place i (suc bound) l e = ground (arith, placed-place i bound)

placed_table : placed 64 ≡ true
unfolding placed place digit
placed_table = refl

place-digit : (i : ℕ) → place (digit (i % 64)) ≡ i % 64
place-digit i = placed-place (i % 64) 64 (omega arith) placed_table

-- The number that a text of an id stands for, from its last character.
text_value : List ℕ → ℕ
text_value [] = 0
text_value (c ∷ s) = place c + 64 * text_value s

-- The number of an id.
pub id_value : List ℕ → ℕ
unfolding text_value
id_value s = text_value (reverse s)

triple :
    (x y z : ℕ)
    → x < 256
    → y < 256
    → z < 256
    → (v : ℕ)
    → (x + y * 2 ^ 8 + z * 2 ^ 16) % 64
        + 64
          * ((x + y * 2 ^ 8 + z * 2 ^ 16) / 2 ^ 6 % 64
              + 64
                * ((x + y * 2 ^ 8 + z * 2 ^ 16) / 2 ^ 12 % 64
                    + 64 * ((x + y * 2 ^ 8 + z * 2 ^ 16) / 2 ^ 18 % 64 + 64 * v)))
      ≡ x + 256 * (y + 256 * (z + 256 * v))
triple x y z a b c v = omega arith

text_value-encode_back :
    (k : ℕ) (xs s : List ℕ)
    → length xs ≡ 3 * k
    → AreBytes xs
    → text_value (encode_back xs ++ s) ≡ le_onto xs (text_value s)
unfolding encode_back text_value le_onto
text_value-encode_back k [] s l b = refl
text_value-encode_back k (x ∷ []) s l b = absurd (omega arith)
text_value-encode_back k (x ∷ y ∷ []) s l b = absurd (omega arith)
text_value-encode_back zero (x ∷ y ∷ z ∷ rest) s l b = absurd (omega arith)
text_value-encode_back (suc k) (x ∷ y ∷ z ∷ rest) s l b =
    let tmp = x + y * 2 ^ 8 + z * 2 ^ 16 in
    rw
      (
        place-digit tmp,
        place-digit (tmp / 2 ^ 6),
        place-digit (tmp / 2 ^ 12),
        place-digit (tmp / 2 ^ 18),
        text_value-encode_back k rest s (omega arith) b.1.1.1,
      )
      (triple x y z b.0 b.1.0 b.1.1.0 (le_onto rest (text_value s)))

reverse-drop-be_bytes : (time : ℕ) → reverse (drop 2 (be_bytes time)) ≡ le_bytes 6 time
unfolding be_bytes le_bytes
reverse-drop-be_bytes time = refl

time_value : (time : ℕ) → text_value (encode_back (le_bytes 6 time)) ≡ time % 2 ^ 48
unfolding text_value
time_value time =
    let xs = le_bytes 6 time in
    ap text_value (sym (append-nil (encode_back xs)))
    ∙ (text_value-encode_back 2 xs [] (length-le_bytes 6 time) (le_bytes-AreBytes 6 time)
        ∙ (le_onto-le_value xs 0
            ∙ rw (shift_zero (length xs), le_value-le_bytes_6 time) (omega arith)))

id_value-b64ish_encode :
    (xs ys : List ℕ)
    → id_value (b64ish_encode xs ++ b64ish_encode ys)
      ≡ text_value (encode_back (reverse ys) ++ encode_back (reverse xs))
unfolding id_value b64ish_encode
id_value-b64ish_encode xs ys =
    let a = encode_back (reverse xs) in
    let b = encode_back (reverse ys) in
    ap text_value (
      reverse-append (reverse a) (reverse b)
      ∙ ap₂ (λ p q. p ++ q) (reverse-reverse b) (reverse-reverse a))

id_value-encoded :
    (time : ℕ) (bytes : List ℕ)
    → IsRand bytes
    → id_value (b64ish_encode (drop 2 (be_bytes time)) ++ b64ish_encode bytes)
      ≡ be_value bytes + 2 ^ 72 * (time % 2 ^ 48)
id_value-encoded time bytes v =
    let xs = reverse bytes in
    let l : length xs ≡ 9 = length-reverse bytes ∙ v.size in
    let t = encode_back (le_bytes 6 time) in
    id_value-b64ish_encode (drop 2 (be_bytes time)) bytes
    ∙ (ap (λ p. text_value (encode_back xs ++ encode_back p)) (reverse-drop-be_bytes time)
        ∙ (text_value-encode_back 3 xs t l (AreBytes-reverse bytes v.are_bytes)
            ∙ (le_onto-le_value xs (text_value t)
                ∙ (rw (l, time_value time, shift_9 (time % 2 ^ 48)) (unfold be_value in refl)))))

module _ {S : Type 0} (lrand48 : S → ℕ × S) where
  rand_bytes-IsRand : (r : S) → IsRand (rand_bytes lrand48 9 r).0
  unfolding rand_bytes
  rand_bytes-IsRand r = record { size = refl; are_bytes = ground arith }

  push_id-parts :
      (s : PushidState S) (time : ℕ)
      → id_value (push_id lrand48 s time).1
        ≡ id_value (
            b64ish_encode (drop 2 (be_bytes time))
            ++ b64ish_encode (push_id lrand48 s time).0.lastrand)
  unfolding push_id
  push_id-parts s time = refl

  -- Making an id keeps `lastrand` nine bytes.
  pub push_id-IsRand :
      (s : PushidState S) (time : ℕ)
      → IsRand s.lastrand
      → IsRand (push_id lrand48 s time).0.lastrand
  unfolding push_id
  push_id-IsRand s time v = elim (Bool-cases (s.last_time == time)) [
    | inl e ↦ rw e (increment-IsRand s.lastrand v)
    | inr e ↦ rw e (rand_bytes-IsRand s.rand_buffer)
  ]

  -- Where `lastrand` is nine bytes, the number of an id is that of the low 48 bits of its time,
  -- followed by that of `lastrand`.
  pub id_value-push_id :
      (s : PushidState S) (time : ℕ)
      → IsRand s.lastrand
      → id_value (push_id lrand48 s time).1
        ≡ be_value (push_id lrand48 s time).0.lastrand + 2 ^ 72 * (time % 2 ^ 48)
  id_value-push_id s time v =
      let r = (push_id lrand48 s time).0.lastrand in
      push_id-parts s time ∙ id_value-encoded time r (push_id-IsRand s time v)

  last_time-push_id : (s : PushidState S) (time : ℕ) → (push_id lrand48 s time).0.last_time ≡ time
  unfolding push_id
  last_time-push_id s time = elim (Bool-cases (s.last_time == time)) [
    | inl e ↦ rw e (==→≡ s.last_time time e)
    | inr e ↦ rw e refl
  ]

  lastrand-push_id :
      (s : PushidState S) (time : ℕ)
      → s.last_time ≡ time
      → (push_id lrand48 s time).0.lastrand ≡ increment s.lastrand
  unfolding push_id
  lastrand-push_id s time e = let h : (s.last_time == time) ≡ true = ground arith in rw h refl

  -- Where `lastrand` is nine bytes, a second id of the same millisecond has a number greater by one
  -- than the first, unless the 72 random bits of the first are all set.
  pub push_id-next :
      (s : PushidState S) (time : ℕ)
      → IsRand s.lastrand
      → be_value (push_id lrand48 s time).0.lastrand + 1 < 2 ^ 72
      → id_value (push_id lrand48 (push_id lrand48 s time).0 time).1
        ≡ id_value (push_id lrand48 s time).1 + 1
  push_id-next s time v h =
      let one = (push_id lrand48 s time).0 in
      let w = push_id-IsRand s time v in
      let next = lastrand-push_id one time (last_time-push_id s time) in
      rw
        (
          id_value-push_id one time w,
          next,
          be_value-increment one.lastrand w,
          id_value-push_id s time v,
        )
        (omega (arith, h))
