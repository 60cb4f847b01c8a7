-- ===== src/Datasync/PushId.antt =====
-- lib/datasync/datasync_utils.c and the push of request.c: push ids. A buffer that the code walks from its end is a list that
-- starts with the last byte; an `int64_t` is its 64 bits, and the memory of a `uint64_t` is the list
-- of its bytes, the low one first where the machine is little-endian.
pub mod Bytes
pub mod Value
use mathlib.Core.List.{reverse}
use webcom_sdk_c.Base64.{codes}
use webcom_sdk_c.Datasync.Request.{request}
use webcom_sdk_c.Datasync.{Callback, Net, put}
use webcom_sdk_c.Prelude.{
  ℕ, Bool, zero, suc, ◌+◌, ◌*◌, ◌/◌, ◌%◌, ◌^◌, List, [], ◌∷◌, ◌++◌, Option, none, some, get_elem?,
  drop, ◌==◌, ltb, if◌then◌else◌, u64_mod,
}

abbrev pub base : List ℕ
base = codes "-0123456789ABCDEFGHIJKLMNOPQRSTUVWXYZ_abcdefghijklmnopqrstuvwxyz"

-- `base[i]`, for an index below 64
unfoldable pub digit : ℕ → ℕ
digit i = elim (get_elem? base i) [ none ↦ 0 | some c ↦ c ]

-- `wc_b64ish_encode`: input and output from their ends.
unfoldable pub encode_back : List ℕ → List ℕ
encode_back [] = []
encode_back (x ∷ []) = digit (x % 64) ∷ digit (x / 2 ^ 6 % 64) ∷ []
encode_back (x ∷ y ∷ []) =
    let tmp = x + y * 2 ^ 8 in
    digit (tmp % 64) ∷ digit (tmp / 2 ^ 6 % 64) ∷ digit (tmp / 2 ^ 18 % 64) ∷ []
encode_back (x ∷ y ∷ z ∷ rest) =
    let tmp = x + y * 2 ^ 8 + z * 2 ^ 16 in
    digit (tmp % 64)
    ∷ digit (tmp / 2 ^ 6 % 64)
    ∷ digit (tmp / 2 ^ 12 % 64)
    ∷ digit (tmp / 2 ^ 18 % 64)
    ∷ encode_back rest

unfoldable pub b64ish_encode : List ℕ → List ℕ
unfolding encode_back
b64ish_encode bytes = reverse (encode_back (reverse bytes))

-- The low `n` bytes of a number, the lowest first: `(unsigned char) rnd` and `rnd >>= 8`, and the
-- memory of a little-endian number.
unfoldable pub le_bytes : ℕ → ℕ → List ℕ
le_bytes zero x = []
le_bytes (suc n) x = x % 256 ∷ le_bytes n (x / 256)

-- The number in a list of bytes, the lowest first.
unfoldable pub le_value : List ℕ → ℕ
le_value [] = 0
le_value (x ∷ xs) = x + 256 * le_value xs

-- The memory of `htobe64(x)`, and what `be64toh` reads.
unfoldable pub be_bytes : ℕ → List ℕ
unfolding le_bytes
be_bytes x = reverse (le_bytes 8 x)

unfoldable pub be_value : List ℕ → ℕ
unfolding le_value
be_value bytes = le_value (reverse bytes)

-- `struct pushid_state`, with the state of the generator.
pub record PushidState (S : Type 0) : Type 0 where
  pub last_time : ℕ
  pub lastrand : List ℕ
  pub rand_buffer : S

-- The `else` branch: the first byte is the high part, the others the low one.
unfoldable pub increment : List ℕ → List ℕ
unfolding be_value be_bytes
increment [] = []
increment (high ∷ rest) =
    let low = (be_value rest + 1) % u64_mod in
    (if low == 0 then (high + 1) % 256 else high) ∷ be_bytes low

module _ {S : Type 0} (lrand48 : S → ℕ × S) where
  unfoldable pub rand_rounds : ℕ → S → List ℕ × S
  unfolding le_bytes
  rand_rounds zero s = ([], s)
  rand_rounds (suc n) s =
      let (rnd, s') = lrand48 s in
      let (bytes, last) = rand_rounds n s' in (le_bytes 3 rnd ++ bytes, last)

  unfoldable pub rand_bytes : ℕ → S → List ℕ × S
  unfolding rand_rounds
  rand_bytes num s =
      let (bytes, s') = rand_rounds (num / 3) s in
      let (rnd, last) = lrand48 s' in
      if ltb 0 (num % 3) then (bytes ++ le_bytes (num % 3) rnd, last) else (bytes, s')

  -- The state, and the 20 characters written.
  unfoldable pub push_id : PushidState S → ℕ → PushidState S × List ℕ
  unfolding rand_bytes increment b64ish_encode
  push_id s time =
      let fresh : PushidState S =
        let (bytes, r) = rand_bytes 9 s.rand_buffer in
        record { last_time = time; lastrand = bytes; rand_buffer = r } in
      let next : PushidState S = record s { lastrand = increment s.lastrand } in
      let s' = if s.last_time == time then next else fresh in
      (s', b64ish_encode (drop 2 (be_bytes time)) ++ b64ish_encode s'.lastrand)

  -- `wc_datasync_push`: a put to a new child of the path.
  unfoldable pub push :
      (ℕ → Bool)
      → PushidState S
      → ℕ
      → Net
      → List ℕ
      → List ℕ
      → Option Callback
      → PushidState S × (Net × Option ℕ)
  unfolding push_id request
  push written s time net path json callback =
      let (s', id) = push_id s time in
      (s', request written net (put (path ++ b'/' ∷ id) json) callback)
