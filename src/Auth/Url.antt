-- ===== src/Auth/Url.antt =====
-- The URL of the requests of lib/auth/auth.c, and the size of its buffer.
use webcom_sdk_c.Auth.Curl.{url_text, url_size, snprintf_text}
use webcom_sdk_c.Cache.Value.{decimal_digits, decimal}
use native.Mathlib.Nat.{pow-succ'}
use webcom_sdk_c.Prelude.{
  ℕ, zero, suc, ◌+◌, ◌-◌, ◌/◌, ◌%◌, ◌^◌, ◌≤◌, ◌<◌, ◌≡◌, refl, ap, List, [], ◌∷◌, ltb, length,
  length-append, take, arith, inl, inr, Bool-cases,
}

-- A number below 10 ^ k has k digits at most.
length-decimal_digits : (fuel k n : ℕ) → n < 10 ^ suc k → length (decimal_digits fuel n) ≤ suc k
unfolding decimal_digits
length-decimal_digits zero k n h = omega arith
length-decimal_digits (suc fuel) zero n h = ground arith
length-decimal_digits (suc fuel) (suc k) n h =
    let shorter : n / 10 < 10 ^ suc k = omega (arith, pow-succ' 10 (suc k)) in
    elim (Bool-cases (ltb n 10)) [
      | inl b ↦ rw b (omega arith)
      | inr b ↦
          rw (b, length-append (decimal_digits fuel (n / 10)) ((b'0' + n % 10) ∷ []))
            (omega (arith, length-decimal_digits fuel k (n / 10) shorter))
    ]

take-le : {A : Type 0} (n : ℕ) (xs : List A) → length xs ≤ n → take n xs ≡ xs
take-le zero [] h = refl
take-le zero (x ∷ xs) h = absurd (omega arith)
take-le (suc n) [] h = refl
take-le (suc n) (x ∷ xs) h = ap (λ ys. x ∷ ys) (take-le n xs (omega arith))

length-url_text :
    (host app_name : List ℕ) (port : ℕ)
    → port < 2 ^ 16
    → length (url_text host port app_name) ≤ url_size host app_name - 1
unfolding url_text url_size decimal
length-url_text host app_name port h =
    let digits : length (decimal_digits (suc port) port) ≤ 5 =
      length-decimal_digits (suc port) 4 port (omega arith) in
    simp (length-append) (omega (arith, digits))

-- For a port of 16 bits the URL is never cut off by the size of its buffer.
pub snprintf_text-url_text :
    (host app_name : List ℕ) (port : ℕ)
    → port < 2 ^ 16
    → snprintf_text (url_size host app_name) (url_text host port app_name)
      ≡ url_text host port app_name
unfolding snprintf_text
snprintf_text-url_text host app_name port h =
    take-le _ (url_text host port app_name) (length-url_text host app_name port h)
