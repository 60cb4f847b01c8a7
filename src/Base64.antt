-- ===== src/Base64.antt =====
-- lib/base64.c: encoding bytes as text. The masks and shifts of the code take bits of a byte, so
-- they are quotients and remainders by powers of two, and `|` of disjoint bits is a sum.
pub mod Decode
use webcom_sdk_c.Prelude.{
  ℕ, zero, suc, ◌+◌, ◌*◌, ◌/◌, ◌%◌, List, [], ◌∷◌, ◌++◌, Option, none, some, get_elem?,
}
use Prim.Native.String.{String}
use Prim.Native.Char.{code}

-- The code points of a text, which are the bytes of an ASCII literal.
abbrev pub codes : String → List ℕ
codes String.[] = []
codes (String.◌∷◌ c s) = code c ∷ codes s

abbrev pub alphabet : List ℕ
alphabet = codes "ABCDEFGHIJKLMNOPQRSTUVWXYZabcdefghijklmnopqrstuvwxyz0123456789+/"

-- `base[i]`, for an index below 64
unfoldable pub base : ℕ → ℕ
base i = elim (get_elem? alphabet i) [ none ↦ 0 | some c ↦ c ]

-- The four indices of three bytes.
unfoldable pub first : ℕ → ℕ
first a = a / 4

unfoldable pub second : ℕ → ℕ → ℕ
second a b = a % 4 * 16 + b / 16

unfoldable pub third : ℕ → ℕ → ℕ
third b c = b % 16 * 4 + c / 64

unfoldable pub fourth : ℕ → ℕ
fourth c = c % 64

unfoldable pub enc : List ℕ → List ℕ
enc [] = []
enc (a ∷ []) = base (first a) ∷ base (second a 0) ∷ b'=' ∷ b'=' ∷ []
enc (a ∷ b ∷ []) = base (first a) ∷ base (second a b) ∷ base (third b 0) ∷ b'=' ∷ []
enc (a ∷ b ∷ c ∷ rest) =
    base (first a) ∷ base (second a b) ∷ base (third b c) ∷ base (fourth c) ∷ enc rest

-- `base64_enc_20`: as many rounds of three bytes, and then two bytes. An input that is too short
-- would be read beyond its end.
unfoldable pub enc_rounds : ℕ → List ℕ → List ℕ
enc_rounds (suc n) (a ∷ b ∷ c ∷ rest) =
    base (first a) ∷ base (second a b) ∷ base (third b c) ∷ base (fourth c) ∷ enc_rounds n rest
enc_rounds zero (a ∷ b ∷ rest) = base (first a) ∷ base (second a b) ∷ base (third b 0) ∷ b'=' ∷ []
enc_rounds _ _ = []

unfoldable pub enc_20 : List ℕ → List ℕ
unfolding enc_rounds
enc_20 bytes = enc_rounds 6 bytes
