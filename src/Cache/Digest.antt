-- ===== src/Cache/Digest.antt =====
-- lib/datasync/cache/treenode.c: the hash of a node, kept in the node once it is computed. `sha1` is
-- the digest of the bytes that lib/sha1.c is given in turn.
pub mod Coherent
use webcom_sdk_c.Base64.{codes, enc_20}
use webcom_sdk_c.Cache.{
  Key, Hash, Node, leaf_null, leaf_bool, leaf_number, leaf_string, internal, Children, end, child,
  is_null,
}
use webcom_sdk_c.Json.{hex_digit}
use webcom_sdk_c.Path.{c_str, str_eq}
use webcom_sdk_c.Prelude.{
  ℕ, zero, suc, ◌/◌, ◌%◌, Bool, true, false, ◌&&◌, ◌||◌, Option, none, some, List, [], ◌∷◌, ◌++◌,
  if◌then◌else◌,
}

unfoldable pub bool_hash : Bool → Hash
bool_hash false = codes "aSSNoqcS4oQwJ2xxH20rvpp3zP0="
bool_hash true = codes "E5z61QM0lN/U2WsOnusszCTkR8M="

-- `null_hash`
unfoldable pub zeros : ℕ → Hash
zeros zero = []
zeros (suc n) = 0 ∷ zeros n

-- The low `n` digits of `%x`: sixteen for `%016PRIx64`.
unfoldable pub hex_digits : ℕ → ℕ → List ℕ
unfolding hex_digit
hex_digits zero d = []
hex_digits (suc n) d = hex_digits n (d / 16) ++ hex_digit (d % 16) ∷ []

unfoldable pub number_input : ℕ → List ℕ
unfolding hex_digits
number_input d = codes "number:" ++ hex_digits 16 d

unfoldable pub string_input : List ℕ → List ℕ
unfolding c_str
string_input s = codes "string:" ++ c_str s

-- What a child that is not null adds: its hash is read through a pointer that is not NULL.
unfoldable pub child_input : Key → Option Hash → List ℕ
unfolding c_str
child_input k none = []
child_input k (some h) = b':' ∷ (c_str k ++ b':' ∷ h)

module _ (sha1 : List ℕ → List ℕ) where
  unfoldable pub digest : List ℕ → Hash
  unfolding enc_20
  digest input = enc_20 (sha1 input)

  -- `treenode_hash_get` and `treenode_hash`: the node with the hashes that it keeps, and the hash.
  unfoldable mutual
    unfolding is_null bool_hash number_input string_input child_input

    pub hash_get : Node → Node × Option Hash
    hash_get leaf_null = (leaf_null, none)
    hash_get (leaf_bool b) = (leaf_bool b, some (bool_hash b))
    hash_get (leaf_number (some h) d) = (leaf_number (some h) d, some h)
    hash_get (leaf_number none d) =
        let h = digest (number_input d) in (leaf_number (some h) d, some h)
    hash_get (leaf_string (some h) s) = (leaf_string (some h) s, some h)
    hash_get (leaf_string none s) =
        let h = digest (string_input s) in (leaf_string (some h) s, some h)
    hash_get (internal (some h) cs) = (internal (some h) cs, some h)
    hash_get (internal none cs) =
        let (cs', input) = hash_children cs in
        let h = digest input in (internal (some h) cs', some h)

    -- The loop over the children: those with their hashes, and what the digest is given.
    pub hash_children : Children → Children × List ℕ
    hash_children end = (end, [])
    hash_children (child k n cs) =
        let (n', h) = hash_get n in
        let (cs', input) = hash_children cs in
        if is_null n then (child k n cs', input) else (child k n' cs', child_input k h ++ input)

unfoldable pub hash_is_null : Option Hash → Bool
unfolding zeros str_eq
hash_is_null none = true
hash_is_null (some h) = str_eq h (zeros 28)

unfoldable pub hash_eq : Option Hash → Option Hash → Bool
unfolding hash_is_null str_eq
hash_eq none b = hash_is_null b
hash_eq (some h) none = hash_is_null (some h)
hash_eq (some h) (some k) = (hash_is_null (some h) && hash_is_null (some k)) || str_eq h k

unfoldable pub hash_copy : Option Hash → Hash
unfolding zeros
hash_copy none = zeros 28
hash_copy (some h) = h
