-- ===== src/Path.antt =====
-- lib/datasync/path.c: parsed paths. The copy of the path is a list of bytes, in which the parser
-- writes a NUL over the slash that ends a part; a part is the C string at its offset.
pub mod Words
pub mod Parse
pub mod Text
pub mod HashWords
pub mod Order
use webcom_sdk_c.Hash.{djb2_step, djb2_hash_update}
use webcom_sdk_c.Prelude.{
  ℕ, zero, suc, ◌+◌, ◌%◌, ◌^◌, Bool, true, false, ◌&&◌, List, [], ◌∷◌, ◌++◌, map, ◌==◌, ltb, leb,
  if◌then◌else◌, length, take, drop, get_elem?, Option, none, some,
}

abbrev pub max_depth : ℕ
max_depth = 32

-- `struct wc_ds_path`; `nparts` is the number of offsets
pub record DsPath : Type 0 where
  pub buf : List ℕ
  pub norm : List ℕ
  pub offsets : List ℕ

abbrev pub path_root : DsPath
path_root = record { buf = []; norm = []; offsets = [] }

-- The states of the parser, `inside_part` with `part_begin`.
pub data State : Type 0 where
  init : State
  inside_part : ℕ → State

-- The `switch` at a byte other than NUL, at index `i`: the next state, the offset that is stored
-- (an `uint16_t`), and the byte left in the copy.
unfoldable pub step : ℕ → ℕ → State → State × List ℕ × ℕ
step c i init = if c == b'/' then (init, [], c) else (inside_part i, [], c)
step c i (inside_part begin) =
    if c == b'/'
    then (if ltb begin i then (init, begin % 2 ^ 16 ∷ [], 0) else (init, [], c))
    else (inside_part begin, [], c)

-- The `switch` at the NUL.
unfoldable pub finish : ℕ → State → List ℕ
finish i init = []
finish i (inside_part begin) = if ltb begin i then begin % 2 ^ 16 ∷ [] else []

-- The loop, from index `i` on with `nparts` parts found: the offsets that it stores, and the rest of
-- the copy as it leaves it.
unfoldable pub scan : List ℕ → ℕ → State → ℕ → List ℕ × List ℕ
unfolding step finish
scan [] i s nparts = (if ltb nparts max_depth then finish i s else [], [])
scan (c ∷ path) i s nparts =
    let more : List ℕ × List ℕ =
      let (s', found, c') = step c i s in
      let (offsets, rest) = scan path (i + 1) s' (nparts + length found) in
      (found ++ offsets, c' ∷ rest) in
    if ltb nparts max_depth then more else ([], c ∷ path)

-- The C string that a buffer starts with.
unfoldable pub c_str : List ℕ → List ℕ
c_str [] = []
c_str (c ∷ s) = if c == 0 then [] else c ∷ c_str s

unfoldable pub part_at : List ℕ → ℕ → List ℕ
unfolding c_str
part_at buf offset = c_str (drop offset buf)

unfoldable pub get_part_count : DsPath → ℕ
get_part_count path = length path.offsets

-- `none` is a read beyond the offsets
unfoldable pub get_part : DsPath → ℕ → Option (List ℕ)
unfolding part_at
get_part path part = elim (get_elem? path.offsets part) [
  | none ↦ none
  | some o ↦ some (part_at path.buf o)
]

-- All parts, in order.
unfoldable pub parts : DsPath → List (List ℕ)
unfolding part_at
parts path = map (part_at path.buf) path.offsets

-- The two loops that build `_norm`.
unfoldable pub normalise : List (List ℕ) → List ℕ
normalise [] = []
normalise (part ∷ rest) = b'/' ∷ (part ++ normalise rest)

unfoldable pub path_of : List ℕ → List ℕ → DsPath
unfolding normalise part_at
path_of [] buf = record { buf = []; norm = b'/' ∷ []; offsets = [] }
path_of (o ∷ offsets) buf = record {
  buf = buf;
  norm = normalise (map (part_at buf) (o ∷ offsets));
  offsets = o ∷ offsets;
}

unfoldable pub parse : List ℕ → DsPath
unfolding scan path_of
parse path = let (offsets, buf) = scan path 0 init 0 in path_of offsets buf

unfoldable pub hash_parts : List (List ℕ) → ℕ → ℕ
unfolding djb2_hash_update djb2_step
hash_parts [] hash = hash
hash_parts (part ∷ rest) hash = hash_parts rest (djb2_step (djb2_hash_update part hash) b'/')

unfoldable pub path_hash : DsPath → ℕ
unfolding parts hash_parts djb2_step
path_hash path = hash_parts (parts path) (djb2_step 5381 b'/')

-- `strcmp(a, b) == 0`
unfoldable pub str_eq : List ℕ → List ℕ → Bool
str_eq [] [] = true
str_eq [] (b ∷ bs) = false
str_eq (a ∷ as') [] = false
str_eq (a ∷ as') (b ∷ bs) = a == b && str_eq as' bs

-- The loop of `wc_datasync_path_starts_with`, over the parts of the prefix.
unfoldable pub same_parts : List (List ℕ) → List (List ℕ) → Bool
unfolding str_eq
same_parts path [] = true
same_parts [] (p ∷ prefix) = false
same_parts (q ∷ path) (p ∷ prefix) = str_eq q p && same_parts path prefix

unfoldable pub starts_with : DsPath → DsPath → Bool
unfolding same_parts parts get_part_count
starts_with path prefix =
    leb (get_part_count prefix) (get_part_count path) && same_parts (parts path) (parts prefix)

last_offset : ℕ → List ℕ → ℕ
last_offset o [] = o
last_offset o (p ∷ offsets) = last_offset p offsets

-- The copy of the buffer ends with the last part and its NUL.
unfoldable pub copy : DsPath → DsPath
unfolding last_offset part_at
copy from = elim from.offsets [
  | [] ↦ record { buf = []; norm = b'/' ∷ []; offsets = [] }
  | o ∷ offsets ↦
      let last = last_offset o offsets in
      record from { buf = take (last + length (part_at from.buf last)) from.buf }
]

unfoldable pub to_str : DsPath → List ℕ
to_str path = path.norm
