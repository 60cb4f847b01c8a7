-- ===== src/Json.antt =====
-- lib/datasync/json.c: writing a text as a JSON string. A text ends before its first byte 0; a byte
-- of 128 or more is a negative `char`, and so no case of the switches but the last one.

pub mod Escape
use webcom_sdk_c.Prelude.{
  ℕ, Bool, ◌-◌, ◌+◌, ◌/◌, ◌%◌, List, [], ◌∷◌, ◌++◌, ◌==◌, ltb, if◌then◌else◌, ◌||◌,
}
use webcom_sdk_c.Base64.{codes}

-- `'\x00' <= c && c <= '\x1f'`
unfoldable pub is_control : ℕ → Bool
is_control c = ltb c 32

-- `\b`, `\f`, `\n`, `\r` and `\t`.
unfoldable pub is_short : ℕ → Bool
is_short c = c == 8 || c == 12 || c == 10 || c == 13 || c == 9

unfoldable pub escaped_str_len_rec : List ℕ → ℕ
unfolding is_control is_short
escaped_str_len_rec [] = 0
escaped_str_len_rec (c ∷ str) =
    let rest = escaped_str_len_rec str in
    if c == 0
    then 0
    else if c == b'"' || c == b'\\' || is_short c
    then 2 + rest
    else if is_control c
    then 7 + rest
    else 1 + rest

unfoldable pub json_escaped_str_len : List ℕ → ℕ
unfolding escaped_str_len_rec
json_escaped_str_len str = escaped_str_len_rec str + 2

-- A digit of `%x`.
unfoldable pub hex_digit : ℕ → ℕ
hex_digit d = if ltb d 10 then b'0' + d else b'a' + (d - 10)

-- What `sprintf` writes for `\\u%04x`, for a number below 256.
unfoldable pub unicode : ℕ → List ℕ
unfolding hex_digit
unicode c = b'\\' ∷ b'u' ∷ b'0' ∷ b'0' ∷ hex_digit (c / 16) ∷ hex_digit (c % 16) ∷ []

-- The bytes that one turn of the loop of `json_escape_str` writes.
unfoldable pub escape : ℕ → List ℕ
unfolding unicode is_control
escape c =
    if c == b'"'
    then b'\\' ∷ b'"' ∷ []
    else if c == b'\\'
    then b'\\' ∷ b'\\' ∷ []
    else if c == 8
    then b'\\' ∷ b'b' ∷ []
    else if c == 12
    then b'\\' ∷ b'f' ∷ []
    else if c == 10
    then b'\\' ∷ b'n' ∷ []
    else if c == 13
    then b'\\' ∷ b'r' ∷ []
    else if c == 9
    then b'\\' ∷ b't' ∷ []
    else if is_control c
    then unicode c
    else c ∷ []

unfoldable pub escape_rec : List ℕ → List ℕ
unfolding escape
escape_rec [] = []
escape_rec (c ∷ raw) = let rest = escape_rec raw in if c == 0 then [] else escape c ++ rest

-- The bytes written from `escaped` on; the result of the code is their number.
unfoldable pub json_escape_str : List ℕ → List ℕ
unfolding escape_rec
json_escape_str raw = b'"' ∷ escape_rec raw ++ b'"' ∷ []

-- The turn of `fjson_escape_str`: `fputs` and `fputc` append to what the stream holds.
unfoldable pub fput : ℕ → List ℕ → List ℕ
unfolding unicode is_control
fput c stream =
    if c == b'"'
    then stream ++ codes "\\\""
    else if c == b'\\'
    then stream ++ codes "\\\\"
    else if c == 8
    then stream ++ codes "\\b"
    else if c == 12
    then stream ++ codes "\\f"
    else if c == 10
    then stream ++ codes "\\n"
    else if c == 13
    then stream ++ codes "\\r"
    else if c == 9
    then stream ++ codes "\\t"
    else if is_control c
    then stream ++ unicode c
    else stream ++ c ∷ []

unfoldable pub fput_rec : List ℕ → List ℕ → List ℕ
unfolding fput
fput_rec [] stream = stream
fput_rec (c ∷ raw) stream =
    let rest = fput_rec raw (fput c stream) in if c == 0 then stream else rest

unfoldable pub fjson_escape_str : List ℕ → List ℕ → List ℕ
unfolding fput_rec
fjson_escape_str raw stream = fput_rec raw (stream ++ b'"' ∷ []) ++ b'"' ∷ []
