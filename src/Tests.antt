-- ===== src/Tests.antt =====
-- Concrete inputs for the theorems of the library: comparisons, trees, paths, contexts, messages,
-- tables and the shell.
mod Trees
mod Texts
mod Contexts
mod Ids
mod Machine
mod Messages
mod Tables
mod Shell
mod Store
mod Subscriptions
use webcom_sdk_c.Compare.{Cmp, IsLawful, flip}
use webcom_sdk_c.Prelude.{
  ℕ, List, [], ◌∷◌, ◌+◌, ◌*◌, ◌^◌, compare, ◌≡◌, refl, arith, ◌-◌, ◌&&◌, leb, if◌then◌else◌, Option,
  none, some,
}
use Prim.Native.Nat.Ordering.{lt, eq, gt}

pub compare_refl : (a : ℕ) → compare a a ≡ eq
compare_refl a = ground arith

pub compare-flip : (a b : ℕ) → compare b a ≡ flip (compare a b)
compare-flip a b = ground arith

pub compare_congr : (a b c : ℕ) → compare a b ≡ eq → compare a c ≡ compare b c
compare_congr a b c h = ground arith

pub compare_trans : (a b c : ℕ) → compare a b ≡ lt → compare b c ≡ lt → compare a c ≡ lt
compare_trans a b c h k = ground arith

-- Elements compared by a number, and copied as they are.
abbrev pub by_number {ℓ} : {A : Type ℓ} → (A → ℕ) → Cmp A
by_number f = record { cmp = λ a b. compare (f a) (f b); copy = λ a. a }

pub by_number-IsLawful {ℓ} : {A : Type ℓ} (f : A → ℕ) → IsLawful (by_number f)
by_number-IsLawful f = record {
  cmp_refl = λ a. compare_refl (f a);
  cmp_flip = λ a b. compare-flip (f a) (f b);
  cmp_congr = λ a b c. compare_congr (f a) (f b) (f c);
  lt_trans = λ a b c. compare_trans (f a) (f b) (f c);
  cmp-copy = λ a b. refl;
}

-- A text in a number, byte by byte.
pub text_number : List ℕ → ℕ
text_number [] = 0
text_number (c ∷ s) = c + 256 * text_number s

-- A path in a number, part by part.
pub path_number : List (List ℕ) → ℕ
unfolding text_number
path_number [] = 0
path_number (part ∷ path) = 1 + text_number part + 2 ^ 64 * path_number path

-- What sscanf reads of a key that is all digits; other keys are no numbers here.
unfoldable pub scan_digits : ℕ → List ℕ → Option ℕ
scan_digits v [] = some (2 ^ 63 + v)
scan_digits v (c ∷ s) =
    let rest = scan_digits (v * 10 + (c - b'0')) s in
    if leb b'0' c && leb c b'9' then rest else none

unfoldable pub scan_decimal : List ℕ → Option ℕ
unfolding scan_digits
scan_decimal [] = none
scan_decimal (c ∷ s) = scan_digits 0 (c ∷ s)
