-- ===== src/Hash.antt =====
-- lib/hash.c: the djb2 hashes of a string and of a path, and the Arash Partow hash. A C string is the list of its bytes
-- without the final NUL; `wc_hash_t` is an `unsigned long` of 64 bits.
use Prim.Native.Nat.{bit_xor}
use webcom_sdk_c.Prelude.{
  ℕ, zero, suc, ◌+◌, ◌-◌, ◌*◌, ◌/◌, ◌%◌, ◌^◌, List, [], ◌∷◌, ◌==◌, if◌then◌else◌, length, u64_mod,
}

-- `((hash << 5) + hash) + c`
unfoldable pub djb2_step : ℕ → ℕ → ℕ
djb2_step hash c = (hash * 32 % u64_mod + hash + c) % u64_mod

unfoldable pub djb2_hash_update : List ℕ → ℕ → ℕ
unfolding djb2_step
djb2_hash_update [] hash = hash
djb2_hash_update (c ∷ str) hash = djb2_hash_update str (djb2_step hash c)

unfoldable pub djb2_hash : List ℕ → ℕ
unfolding djb2_hash_update
djb2_hash str = djb2_hash_update str 5381

-- The string from its first slash on, and the hash: `*str` and the result.
unfoldable pub str_path_hash_update : List ℕ → ℕ → List ℕ × ℕ
unfolding djb2_step
str_path_hash_update [] hash = ([], djb2_step hash b'/')
str_path_hash_update (c ∷ str) hash =
    let rest = str_path_hash_update str (djb2_step hash c) in
    if c == b'/' then (c ∷ str, djb2_step hash b'/') else rest

-- `while (*path == '/') path++`
unfoldable pub skip_slashes : List ℕ → List ℕ
skip_slashes [] = []
skip_slashes (c ∷ path) = if c == b'/' then skip_slashes path else c ∷ path

-- The body of the outer loop after the slashes are skipped.
unfoldable pub hash_part : List ℕ → ℕ → List ℕ × ℕ
hash_part [] hash = ([], hash)
hash_part (c ∷ path) hash = str_path_hash_update (c ∷ path) hash

-- The outer loop, with fuel: each round but the last consumes a byte.
unfoldable pub str_path_hash_loop : ℕ → List ℕ → ℕ → ℕ
unfolding str_path_hash_update skip_slashes hash_part
str_path_hash_loop zero path hash = hash
str_path_hash_loop (suc fuel) [] hash = hash
str_path_hash_loop (suc fuel) (c ∷ path) hash =
    let (path', hash') = hash_part (skip_slashes (c ∷ path)) hash in
    str_path_hash_loop fuel path' hash'

unfoldable pub str_path_hash : List ℕ → ℕ
unfolding str_path_hash_loop
str_path_hash path = str_path_hash_loop (suc (length path)) path 177620

-- `*hash ^= (*hash << 7) ^ c * (*hash >> 3)`
unfoldable pub ap_first : ℕ → ℕ → ℕ
ap_first hash c = bit_xor hash (bit_xor (hash * 2 ^ 7 % u64_mod) (c * (hash / 2 ^ 3) % u64_mod))

-- `*hash ^= ~((*hash << 11) + (c ^ (*hash >> 5)))`
unfoldable pub ap_second : ℕ → ℕ → ℕ
ap_second hash c =
    bit_xor hash (u64_mod - 1 - (hash * 2 ^ 11 % u64_mod + bit_xor c (hash / 2 ^ 5)) % u64_mod)

-- Two bytes in a turn, but that the string may end after the first.
unfoldable pub ap_hash_update : List ℕ → ℕ → ℕ
unfolding ap_first ap_second
ap_hash_update [] hash = hash
ap_hash_update (c ∷ []) hash = ap_first hash c
ap_hash_update (c ∷ d ∷ str) hash = ap_hash_update str (ap_second (ap_first hash c) d)

-- From 0xaaaaaaaaaaaaaaaa on.
unfoldable pub ap_hash : List ℕ → ℕ
unfolding ap_hash_update
ap_hash str = ap_hash_update str 12297829382473034410
