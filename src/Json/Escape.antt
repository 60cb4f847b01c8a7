-- ===== src/Json/Escape.antt =====
-- What lib/datasync/json.c writes, against a reader of JSON strings and against the room the code
-- computes for it.
use webcom_sdk_c.Json.{
  is_control, is_short, escaped_str_len_rec, json_escaped_str_len, hex_digit, unicode, escape,
  escape_rec, json_escape_str, fput, fput_rec, fjson_escape_str,
}
use webcom_sdk_c.Path.{c_str}
use webcom_sdk_c.Prelude.{
  ℕ, zero, suc, ◌+◌, ◌-◌, ◌*◌, ◌/◌, ◌%◌, ◌<◌, ◌≤◌, ◌≡◌, refl, sym, ap, inl, inr, Bool, true, false,
  ◌||◌, List, [], ◌∷◌, ◌++◌, append_assoc, append-nil, Option, none, some, ltb, ◌==◌, ==→≡, lt→ltb,
  Bool-cases, if◌then◌else◌, length, length-append, All, arith,
}

-- The value of a hexadecimal digit.
unfoldable hex_value : ℕ → Option ℕ
hex_value d =
    if ltb d b'0'
    then none
    else if ltb d b':'
    then some (d - b'0')
    else if ltb d b'A'
    then none
    else if ltb d b'G'
    then some (d - b'A' + 10)
    else if ltb d b'a'
    then none
    else if ltb d b'g'
    then some (d - b'a' + 10)
    else none

-- RFC 8259: the character that an escape of two characters stands for, and no other escapes.
unfoldable short_value : ℕ → Option ℕ
short_value e =
    if e == b'"' || e == b'\\' || e == b'/'
    then some e
    else if e == b'b'
    then some 8
    else if e == b'f'
    then some 12
    else if e == b'n'
    then some 10
    else if e == b'r'
    then some 13
    else if e == b't'
    then some 9
    else none

put_back : ℕ → Option (List ℕ) → Option (List ℕ)
put_back c none = none
put_back c (some s) = some (c ∷ s)

at_end : List ℕ → Option (List ℕ)
at_end [] = some []
at_end (c ∷ s) = none

-- Where a reader of a JSON string is: between characters, after a backslash, or among the digits
-- of an escape, with those still to come after the next and the value read.
data Reader : Type 0 where
  plain : Reader
  escaped : Reader
  digits : ℕ → ℕ → Reader

put_value : Option ℕ → Option (List ℕ) → Option (List ℕ)
unfolding put_back
put_value none s = none
put_value (some c) s = put_back c s

-- The text up to the closing quote, which must be the last character. A raw control character is
-- refused, and so is an escape that RFC 8259 does not have, or that of a character outside ASCII.
read : Reader → List ℕ → Option (List ℕ)
unfolding hex_value short_value put_back put_value at_end
read r [] = none
read plain (c ∷ s) =
    let e = read escaped s in
    let p = put_back c (read plain s) in
    if c == b'"' then at_end s else if c == b'\\' then e else if ltb c 32 then none else p
read escaped (e ∷ s) =
    let d = read (digits 3 0) s in
    let p = put_value (short_value e) (read plain s) in if e == b'u' then d else p
read (digits (suc n) v) (d ∷ s) = elim (hex_value d) [
  | none ↦ none
  | some h ↦ read (digits n (v * 16 + h)) s
]
read (digits zero v) (d ∷ s) = elim (hex_value d) [
  | none ↦ none
  | some h ↦ if ltb (v * 16 + h) 128 then put_back (v * 16 + h) (read plain s) else none
]

-- RFC 8259: the text of a JSON string.
pub unescape : List ℕ → Option (List ℕ)
unfolding read
unescape [] = none
unescape (q ∷ s) = if q == b'"' then read plain s else none

hex_value-digit : (d : ℕ) → d < 16 → hex_value (hex_digit d) ≡ some d
unfolding hex_value hex_digit
hex_value-digit d h = elim (Bool-cases (ltb d 10)) [ inl e ↦ ground arith | inr e ↦ ground arith ]

read-unicode :
    (c : ℕ) (t : List ℕ) → c < 128 → read plain (unicode c ++ t) ≡ put_back c (read plain t)
unfolding read unicode
read-unicode c t h =
    let e : (0 + c / 16) * 16 + c % 16 ≡ c = omega arith in
    rw
      (
        hex_value-digit (c / 16) (omega arith),
        hex_value-digit (c % 16) (omega arith),
        e,
        lt→ltb c 128 h,
      )
      refl

if_cases :
    (P : List ℕ → Type 0) (b : Bool) (x y : List ℕ)
    → (b ≡ true → P x)
    → (b ≡ false → P y)
    → P (if b then x else y)
if_cases P true x y f g = f refl
if_cases P false x y f g = g refl

control_lt : (c : ℕ) → is_control c ≡ true → c < 128
unfolding is_control
control_lt c h = ground arith

raw_lt : (c : ℕ) → is_control c ≡ false → ltb c 32 ≡ false
unfolding is_control
raw_lt c h = h

read-escape :
    (c : ℕ) (t : List ℕ) → c < 256 → read plain (escape c ++ t) ≡ put_back c (read plain t)
unfolding escape read
read-escape c t h =
    let r = read plain t in
    let P = λ (w : List ℕ). read plain (w ++ t) ≡ put_back c r in
    let short = λ (k : ℕ) (e : (c == k) ≡ true). ap (λ n. put_back n r) (sym (==→≡ c k e)) in
    if_cases P (c == b'"') _ _ (short b'"') λ n1. if_cases P (c == b'\\') _ _ (short b'\\') λ n2.
      if_cases P (c == 8) _ _ (short 8) λ _. if_cases P (c == 12) _ _ (short 12) λ _.
        if_cases P (c == 10) _ _ (short 10) λ _. if_cases P (c == 13) _ _ (short 13) λ _.
          if_cases P (c == 9) _ _ (short 9) λ _.
            if_cases P (is_control c) _ _ (λ k. read-unicode c t (control_lt c k))
              λ n3. rw (n1, n2, raw_lt c n3) refl

append-if :
    (s : List ℕ) (b : Bool) (x y : List ℕ)
    → s ++ (if b then x else y) ≡ (if b then s ++ x else s ++ y)
append-if s true x y = refl
append-if s false x y = refl

fput-escape : (c : ℕ) (stream : List ℕ) → fput c stream ≡ stream ++ escape c
unfolding fput escape
fput-escape c stream = sym (simp append-if)

fput_rec-escape_rec : (raw stream : List ℕ) → fput_rec raw stream ≡ stream ++ escape_rec raw
unfolding fput_rec escape_rec
fput_rec-escape_rec [] stream = sym (append-nil stream)
fput_rec-escape_rec (c ∷ raw) stream = elim (Bool-cases (c == 0)) [
  | inl e ↦ rw (e, append-nil stream) refl
  | inr e ↦
      rw (e, fput_rec-escape_rec raw (fput c stream), fput-escape c stream)
        (append_assoc stream (escape c) (escape_rec raw))
]

-- `fjson_escape_str` appends to the stream the text that `json_escape_str` writes.
pub fjson_escape_str-json_escape_str :
    (raw stream : List ℕ) → fjson_escape_str raw stream ≡ stream ++ json_escape_str raw
unfolding fjson_escape_str json_escape_str
fjson_escape_str-json_escape_str raw stream =
    rw
      (
        fput_rec-escape_rec raw (stream ++ b'"' ∷ []),
        append_assoc stream (b'"' ∷ []) (escape_rec raw),
      )
      (append_assoc stream (b'"' ∷ escape_rec raw) (b'"' ∷ []))

read-escape_rec :
    (raw : List ℕ)
    → All (λ c. c < 256) raw
    → read plain (escape_rec raw ++ b'"' ∷ []) ≡ some (c_str raw)
unfolding escape_rec c_str read
read-escape_rec [] h = refl
read-escape_rec (c ∷ raw) h = elim (Bool-cases (c == 0)) [
  | inl e ↦ rw e refl
  | inr e ↦
      rw
        (
          e,
          append_assoc (escape c) (escape_rec raw) (b'"' ∷ []),
          read-escape c (escape_rec raw ++ b'"' ∷ []) h.0,
          read-escape_rec raw h.1,
        )
        refl
]

-- A JSON reader of the text that `json_escape_str` writes for some bytes gives back those before the
-- first 0.
pub unescape-json_escape_str :
    (raw : List ℕ) → All (λ c. c < 256) raw → unescape (json_escape_str raw) ≡ some (c_str raw)
unfolding unescape json_escape_str
unescape-json_escape_str raw h = read-escape_rec raw h

length-escape :
    (c : ℕ)
    → length (escape c)
      ≤ (if c == b'"' || c == b'\\' || is_short c then 2 else if is_control c then 7 else 1)
unfolding escape is_short
length-escape c = ground arith

add_if :
    (n : ℕ) (b d : Bool) (x y z : ℕ)
    → (if b then x else if d then y else z) + n ≡ (if b then x + n else if d then y + n else z + n)
add_if n b d x y z = ground arith

length-escape_rec : (raw : List ℕ) → length (escape_rec raw) ≤ escaped_str_len_rec raw
unfolding escape_rec escaped_str_len_rec
length-escape_rec [] = omega arith
length-escape_rec (c ∷ raw) = elim (Bool-cases (c == 0)) [
  | inl e ↦ rw e (omega arith)
  | inr e ↦
      let room =
        add_if (escaped_str_len_rec raw) (c == b'"' || c == b'\\' || is_short c) (is_control c) 2 7
          1 in
      rw (e, sym room, length-append (escape c) (escape_rec raw))
        (omega (arith, length-escape c, length-escape_rec raw))
]

-- `json_escaped_str_len` counts at least as many bytes as `json_escape_str` writes.
pub length-json_escape_str :
    (raw : List ℕ) → length (json_escape_str raw) ≤ json_escaped_str_len raw
unfolding json_escape_str json_escaped_str_len
length-json_escape_str raw =
    rw (length-append (escape_rec raw) (b'"' ∷ [])) (omega (arith, length-escape_rec raw))
