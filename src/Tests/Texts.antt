-- ===== src/Tests/Texts.antt =====
-- Texts for the theorems on lib/base64.c, lib/datasync/json.c and lib/datasync/path.c.
use webcom_sdk_c.Base64.Decode.{decode, AreBytes, decode-enc}
use webcom_sdk_c.Base64.{codes, base, first, second, third, fourth, enc}
use webcom_sdk_c.Hash.{str_path_hash}
use webcom_sdk_c.Json.Escape.{length-json_escape_str, unescape, unescape-json_escape_str}
use webcom_sdk_c.Json.{json_escaped_str_len, json_escape_str}
use webcom_sdk_c.Path.HashWords.{str_path_hash-path_hash}
use webcom_sdk_c.Path.Parse.{IsText, parts-parse}
use webcom_sdk_c.Path.Text.{parts-parse-to_str-parse}
use webcom_sdk_c.Path.Words.{words}
use webcom_sdk_c.Path.{max_depth, c_str, parts, parse, to_str, path_hash}
use webcom_sdk_c.Prelude.{ℕ, ◌≤◌, ◌≡◌, refl, List, [], ◌∷◌, some, length, take, arith}

abbrev hello : List ℕ
hello = codes "Hello"

hello-AreBytes : AreBytes hello
hello-AreBytes = ground arith

decode-enc_example : decode (enc hello) ≡ hello
decode-enc_example = decode-enc hello hello-AreBytes

hello-enc : enc hello ≡ codes "SGVsbG8="
unfolding enc base first second third fourth
hello-enc = refl

abbrev digest : List ℕ
digest = codes "a digest of 20 bytes"

digest-AreBytes : AreBytes digest
digest-AreBytes = ground arith

-- A quote, a line feed, a control character and a letter.
abbrev raw : List ℕ
raw = 34 ∷ 10 ∷ 31 ∷ 65 ∷ []

length-json_escape_str_example : length (json_escape_str raw) ≤ json_escaped_str_len raw
length-json_escape_str_example = length-json_escape_str raw

unescape-json_escape_str_example : unescape (json_escape_str raw) ≡ some (c_str raw)
unescape-json_escape_str_example = unescape-json_escape_str raw (ground arith)

raw-json_escape_str : json_escape_str raw ≡ codes "\"\\\"\\n\\u001fA\""
unfolding json_escape_str
raw-json_escape_str = refl

abbrev messy : List ℕ
messy = codes "//a//bc/"

messy-IsText : IsText messy
messy-IsText = ground arith

messy-words : words messy ≡ codes "a" ∷ codes "bc" ∷ []
unfolding words
messy-words = refl

messy-parts : parts (parse messy) ≡ codes "a" ∷ codes "bc" ∷ []
unfolding parse parts
messy-parts = refl

parts-parse-to_str-parse_example : parts (parse (to_str (parse messy))) ≡ parts (parse messy)
parts-parse-to_str-parse_example = parts-parse-to_str-parse messy messy-IsText (omega arith)

parts-parse_example : parts (parse messy) ≡ take max_depth (words messy)
parts-parse_example = parts-parse messy messy-IsText (omega arith)

messy-length : length (words messy) ≤ max_depth
messy-length = rw messy-words (omega arith)

str_path_hash-path_hash_example : str_path_hash messy ≡ path_hash (parse messy)
str_path_hash-path_hash_example =
    str_path_hash-path_hash messy messy-IsText (omega arith) messy-length
