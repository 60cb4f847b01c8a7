-- ===== src/Datasync/PushId/Bytes.antt =====
-- The bytes of lib/datasync/datasync_utils.c as numbers: what the increment of `lastrand` does to the
-- number that its nine bytes write.
use mathlib.Core.List.{reverse, reverse-reverse, reverse-cons}
use webcom_sdk_c.Datasync.PushId.{le_bytes, le_value, be_bytes, be_value, increment}
use webcom_sdk_c.Prelude.{
  ℕ, zero, suc, ◌+◌, ◌*◌, ◌/◌, ◌%◌, ◌^◌, ◌<◌, ◌≡◌, refl, ap, ◌∙◌, List, [], ◌∷◌, ◌++◌, ◌==◌,
  if◌then◌else◌, u64_mod, length, length-append, All, All-append, arith,
}

-- The number in some bytes, the lowest first, with `v` above them.
unfoldable pub le_onto : List ℕ → ℕ → ℕ
le_onto [] v = v
le_onto (x ∷ xs) v = x + 256 * le_onto xs v

unfoldable pub shift : ℕ → ℕ → ℕ
shift zero v = v
shift (suc n) v = 256 * shift n v

pub le_onto-le_value : (xs : List ℕ) (v : ℕ) → le_onto xs v ≡ le_value xs + shift (length xs) v
unfolding le_onto le_value shift
le_onto-le_value [] v = omega arith
le_onto-le_value (x ∷ xs) v = omega (arith, le_onto-le_value xs v)

le_value-append : (xs ys : List ℕ) → le_value (xs ++ ys) ≡ le_onto xs (le_value ys)
unfolding le_onto le_value
le_value-append [] ys = refl
le_value-append (x ∷ xs) ys = ap (λ n. x + 256 * n) (le_value-append xs ys)

abbrev pub AreBytes : List ℕ → Type 0
AreBytes bytes = All (λ b. b < 256) bytes

le_value-le_bytes_8 : (x : ℕ) → x < u64_mod → le_value (le_bytes 8 x) ≡ x
unfolding le_value le_bytes
le_value-le_bytes_8 x l = omega arith

pub le_value-le_bytes_6 : (x : ℕ) → le_value (le_bytes 6 x) ≡ x % 2 ^ 48
unfolding le_value le_bytes
le_value-le_bytes_6 x = omega arith

le_value-lt : (xs : List ℕ) → AreBytes xs → le_value xs < shift (length xs) 1
unfolding le_value shift
le_value-lt [] b = omega arith
le_value-lt (x ∷ xs) b = omega (arith, le_value-lt xs b.1, b.0)

-- What `lastrand` is: nine bytes.
pub record IsRand (bytes : List ℕ) : Type 0 where
  pub size : length bytes ≡ 9
  pub are_bytes : AreBytes bytes

pub AreBytes-reverse : (xs : List ℕ) → AreBytes xs → AreBytes (reverse xs)
AreBytes-reverse [] b = tt
AreBytes-reverse (x ∷ xs) b =
    rw (reverse-cons x xs)
      (All-append (λ n. n < 256) (reverse xs) (x ∷ []) (AreBytes-reverse xs b.1) (b.0, tt))

pub length-reverse : (xs : List ℕ) → length (reverse xs) ≡ length xs
length-reverse [] = refl
length-reverse (x ∷ xs) =
    rw (reverse-cons x xs, length-append (reverse xs) (x ∷ [])) (omega (arith, length-reverse xs))

be_value-cons : (x : ℕ) (xs : List ℕ) → be_value (x ∷ xs) ≡ be_value xs + shift (length xs) x
unfolding be_value le_value
be_value-cons x xs =
    rw
      (
        reverse-cons x xs,
        le_value-append (reverse xs) (x ∷ []),
        le_onto-le_value (reverse xs) (x + 256 * 0),
        length-reverse xs,
      )
      (ap (λ n. le_value (reverse xs) + shift (length xs) n) (omega arith))

pub le_bytes-AreBytes : (n x : ℕ) → AreBytes (le_bytes n x)
unfolding le_bytes
le_bytes-AreBytes zero x = tt
le_bytes-AreBytes (suc n) x = (omega arith, le_bytes-AreBytes n (x / 256))

pub length-le_bytes : (n x : ℕ) → length (le_bytes n x) ≡ n
unfolding le_bytes
length-le_bytes zero x = refl
length-le_bytes (suc n) x = ap suc (length-le_bytes n (x / 256))

be_value-be_bytes : (x : ℕ) → x < u64_mod → be_value (be_bytes x) ≡ x
unfolding be_value be_bytes
be_value-be_bytes x l = ap le_value (reverse-reverse (le_bytes 8 x)) ∙ le_value-le_bytes_8 x l

length-be_bytes : (x : ℕ) → length (be_bytes x) ≡ 8
unfolding be_bytes
length-be_bytes x = length-reverse (le_bytes 8 x) ∙ length-le_bytes 8 x

carry :
    (high v : ℕ)
    → high < 256
    → v < u64_mod
    → (v + 1) % u64_mod + 2 ^ 64 * (if (v + 1) % u64_mod == 0 then (high + 1) % 256 else high)
      ≡ (v + 2 ^ 64 * high + 1) % 2 ^ 72
carry high v l k = ground arith

shift_8 : (v : ℕ) → shift 8 v ≡ 2 ^ 64 * v
unfolding shift
shift_8 v = omega arith

pub shift_9 : (v : ℕ) → shift 9 v ≡ 2 ^ 72 * v
unfolding shift
shift_9 v = omega arith

be_value-lt : (xs : List ℕ) → length xs ≡ 8 → AreBytes xs → be_value xs < u64_mod
unfolding be_value
be_value-lt xs l b =
    let e : length (reverse xs) ≡ 8 = length-reverse xs ∙ l in
    let h : le_value (reverse xs) < shift 8 1 =
      rw e at (le_value-lt (reverse xs) (AreBytes-reverse xs b)) in
    omega (arith, shift_8 1)

-- The increment of nine bytes adds one to the number that they write, modulo 2 ^ 72.
pub be_value-increment :
    (bytes : List ℕ) → IsRand bytes → be_value (increment bytes) ≡ (be_value bytes + 1) % 2 ^ 72
unfolding increment
be_value-increment [] v = absurd (omega (arith, v.size))
be_value-increment (high ∷ rest) v =
    let l : length rest ≡ 8 = omega (arith, v.size) in
    let low = (be_value rest + 1) % u64_mod in
    rw
      (
        be_value-cons high rest,
        l,
        shift_8 high,
        be_value-cons (if low == 0 then (high + 1) % 256 else high) (be_bytes low),
        length-be_bytes low,
        shift_8 (if low == 0 then (high + 1) % 256 else high),
        be_value-be_bytes low (omega arith),
      )
      (carry high (be_value rest) v.are_bytes.0 (be_value-lt rest l v.are_bytes.1))

pub increment-IsRand : (bytes : List ℕ) → IsRand bytes → IsRand (increment bytes)
unfolding increment be_bytes
increment-IsRand [] v = absurd (omega (arith, v.size))
increment-IsRand (high ∷ rest) v =
    let low = (be_value rest + 1) % u64_mod in
    record {
      size = ap suc (length-be_bytes low);
      are_bytes = (
        ground (arith, v.are_bytes.0),
        AreBytes-reverse (le_bytes 8 low) (le_bytes-AreBytes 8 low),
      );
    }

pub shift_zero : (n : ℕ) → shift n 0 ≡ 0
unfolding shift
shift_zero zero = refl
shift_zero (suc n) = omega (arith, shift_zero n)
