-- ===== src/Base64/Decode.antt =====
-- The texts that lib/base64.c writes, against a decoder: they determine the bytes.
use webcom_sdk_c.Base64.{alphabet, base, first, second, third, fourth, enc, enc_rounds, enc_20}
use webcom_sdk_c.Prelude.{
  ℕ, zero, suc, ◌+◌, ◌*◌, ◌/◌, ◌%◌, ◌<◌, ◌≡◌, refl, ap, ◌∙◌, Bool, true, false, List, [], ◌∷◌, ◌==◌,
  ==→≡, if◌then◌else◌, length, All, not, arith,
}

-- The place of a character in a list, and the list's length where it is not there.
index_of : ℕ → List ℕ → ℕ
index_of c [] = 0
index_of c (x ∷ xs) = let i = index_of c xs in if x == c then 0 else suc i

unfoldable pub index : ℕ → ℕ
unfolding index_of
index c = index_of c alphabet

-- RFC 4648: groups of four characters, the last of which may be padded.
unfoldable pub decode : List ℕ → List ℕ
decode (w ∷ x ∷ y ∷ z ∷ rest) =
    let a = index w * 4 + index x / 16 in
    let b = index x % 16 * 16 + index y / 4 in
    let c = index y % 4 * 64 + index z in
    let more = a ∷ b ∷ c ∷ decode rest in
    if y == b'=' then a ∷ [] else if z == b'=' then a ∷ b ∷ [] else more
decode _ = []

-- A test of every index below a bound.
passes : (ℕ → Bool) → ℕ → Bool
passes test zero = true
passes test (suc bound) = if test bound then passes test bound else false

passes-at : (test : ℕ → Bool) (i bound : ℕ) → i < bound → passes test bound ≡ true → test i ≡ true
unfolding passes
passes-at test i zero l e = absurd (omega arith)
passes-at test i (suc bound) l e = ground (arith, passes-at test i bound)

inverse : ℕ → Bool
inverse i = index (base i) == i

inverse_table : passes inverse 64 ≡ true
unfolding passes inverse index base
inverse_table = refl

index-base : (i : ℕ) → i < 64 → index (base i) ≡ i
unfolding inverse
index-base i l = ==→≡ _ _ (passes-at inverse i 64 l inverse_table)

unpadded : ℕ → Bool
unpadded i = not (base i == b'=')

unpadded_table : passes unpadded 64 ≡ true
unfolding passes unpadded base
unpadded_table = refl

base-padding : (i : ℕ) → i < 64 → (base i == b'=') ≡ false
unfolding unpadded
base-padding i l = let e = passes-at unpadded i 64 l unpadded_table in ground arith

-- The bytes of a C buffer.
abbrev pub AreBytes : List ℕ → Type 0
AreBytes bytes = All (λ b. b < 256) bytes

first-lt : (a : ℕ) → a < 256 → first a < 64
unfolding first
first-lt a h = omega arith

second-lt : (a b : ℕ) → b < 256 → second a b < 64
unfolding second
second-lt a b h = omega arith

third-lt : (b c : ℕ) → c < 256 → third b c < 64
unfolding third
third-lt b c h = omega arith

fourth-lt : (c : ℕ) → fourth c < 64
unfolding fourth
fourth-lt c = omega arith

byte_a :
    (a b : ℕ) → a < 256 → b < 256 → index (base (first a)) * 4 + index (base (second a b)) / 16 ≡ a
unfolding first second
byte_a a b h k =
    let e1 = index-base (first a) (first-lt a h) in
    let e2 = index-base (second a b) (second-lt a b k) in rw (e1, e2) (omega arith)

byte_b :
    (a b c : ℕ)
    → b < 256
    → c < 256
    → index (base (second a b)) % 16 * 16 + index (base (third b c)) / 4 ≡ b
unfolding second third
byte_b a b c h k =
    let e1 = index-base (second a b) (second-lt a b h) in
    let e2 = index-base (third b c) (third-lt b c k) in rw (e1, e2) (omega arith)

byte_c : (b c : ℕ) → c < 256 → index (base (third b c)) % 4 * 64 + index (base (fourth c)) ≡ c
unfolding third fourth
byte_c b c h =
    let e1 = index-base (third b c) (third-lt b c h) in
    let e2 = index-base (fourth c) (fourth-lt c) in rw (e1, e2) (omega arith)

-- Decoding what `base64_enc` wrote for some bytes gives the bytes back.
pub decode-enc : (bytes : List ℕ) → AreBytes bytes → decode (enc bytes) ≡ bytes
unfolding decode enc
decode-enc [] h = refl
decode-enc (a ∷ []) h = ap (λ t. t ∷ []) (byte_a a 0 h.0 (omega arith))
decode-enc (a ∷ b ∷ []) h =
    rw
      (
        base-padding (third b 0) (third-lt b 0 (omega arith)),
        byte_a a b h.0 h.1.0,
        byte_b a b 0 h.1.0 (omega arith),
      )
      refl
decode-enc (a ∷ b ∷ c ∷ rest) h =
    rw
      (
        base-padding (third b c) (third-lt b c h.1.1.0),
        base-padding (fourth c) (fourth-lt c),
        byte_a a b h.0 h.1.0,
        byte_b a b c h.1.0 h.1.1.0,
        byte_c b c h.1.1.0,
        decode-enc rest h.1.1.1,
      )
      refl

-- The unrolled loop of `base64_enc_20`, of n rounds, writes the text that `base64_enc` writes for
-- 3 n + 2 bytes.
pub enc_rounds-enc :
    (n : ℕ) (bytes : List ℕ) → length bytes ≡ 3 * n + 2 → enc_rounds n bytes ≡ enc bytes
unfolding enc_rounds enc
enc_rounds-enc n [] h = absurd (omega arith)
enc_rounds-enc n (a ∷ []) h = absurd (omega arith)
enc_rounds-enc zero (a ∷ b ∷ []) h = refl
enc_rounds-enc (suc n) (a ∷ b ∷ []) h = absurd (omega arith)
enc_rounds-enc zero (a ∷ b ∷ c ∷ rest) h = absurd (omega arith)
enc_rounds-enc (suc n) (a ∷ b ∷ c ∷ rest) h =
    ap (λ t. base (first a) ∷ base (second a b) ∷ base (third b c) ∷ base (fourth c) ∷ t)
      (enc_rounds-enc n rest (omega arith))

-- For a digest of 20 bytes `base64_enc_20` writes what `base64_enc` writes, and decoding it gives
-- the digest back.
pub enc_20-decode :
    (bytes : List ℕ)
    → AreBytes bytes
    → length bytes ≡ 20
    → (enc_20 bytes ≡ enc bytes) × (decode (enc_20 bytes) ≡ bytes)
unfolding enc_20
enc_20-decode bytes h l = let e = enc_rounds-enc 6 bytes l in (e, ap decode e ∙ decode-enc bytes h)
