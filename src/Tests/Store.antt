-- ===== src/Tests/Store.antt =====
-- Caches, JSON values and hashes for the theorems on lib/datasync/cache.
use webcom_sdk_c.Base64.{codes}
use webcom_sdk_c.Cache.Deep.{Deep, Ordered, Full, Coherent}
use webcom_sdk_c.Cache.Digest.{hash_get}
use webcom_sdk_c.Cache.Digest.Coherent.{forget, hash_of, IsCoherent, hash_get-hash_of}
use webcom_sdk_c.Cache.Store.Invariant.{Holds}
use webcom_sdk_c.Cache.Store.Sound.{IsSound, data_cache_set_ex-IsSound}
use webcom_sdk_c.Cache.Store.{data_cache_set_ex}
use webcom_sdk_c.Cache.Text.{treenode_to_json_len, treenode_to_json}
use webcom_sdk_c.Cache.Text.Laws.{length-treenode_to_json}
use webcom_sdk_c.Cache.Value.{Json, json_null, json_int, json_object, Members, no_members, member}
use webcom_sdk_c.Cache.{
  Key, Node, leaf_bool, leaf_number, leaf_string, internal, Children, end, child, is_null,
}
use webcom_sdk_c.Cache.Store.Keys.{JsonKeys}
use webcom_sdk_c.Cache.Store.Near.{get_r-data_cache_set_ex-keys}
use webcom_sdk_c.Cache.Store.Stored.{present}
use webcom_sdk_c.Cache.Store.{get_r}
use webcom_sdk_c.Cache.Value.{set_root}
use webcom_sdk_c.Datasync.On.Diff.Keys.{keys}
use webcom_sdk_c.Path.Order.Narrow.{IsNear}
use webcom_sdk_c.Path.Order.{key_cmp}
use webcom_sdk_c.Compare.{Cmp, IsLawful}
use webcom_sdk_c.Prelude.{
  ℕ, ◌+◌, ◌%◌, ◌^◌, ◌++◌, arith, ◌≡◌, ◌≤◌, refl, true, none, some, List, [], ◌∷◌, length,
}
use webcom_sdk_c.Tests.{scan_digits, scan_decimal, by_number, by_number-IsLawful, text_number}

abbrev by_text : Cmp Key
by_text = by_number text_number

instance abbrev by_text-IsLawful : IsLawful by_text
by_text-IsLawful = by_number-IsLawful text_number

-- A checksum in the place of the digest, and one digit in the place of a decimal text.
abbrev checksum : List ℕ → List ℕ
checksum s = (text_number s % 256) ∷ []

abbrev print_digit : ℕ → List ℕ
print_digit d = (48 + d % 10) ∷ []

abbrev same_number : ℕ → ℕ
same_number i = i

abbrev below_b : Children
below_b =
    child (codes "c") (leaf_number none 3) (child (codes "d") (leaf_string none (codes "x\"y")) end)

abbrev tree : Node
tree =
    internal none
      (child (codes "a") (leaf_bool true) (child (codes "b") (internal none below_b) end))

tree-Ordered : Deep (Ordered by_text) tree
unfolding Deep text_number
tree-Ordered = (((refl, tt), (tt, tt)), (tt, ((((refl, tt), (tt, tt)), (tt, (tt, tt))), tt)))

tree-Full : Deep Full tree
unfolding Deep is_null
tree-Full = ((refl, (refl, tt)), (tt, (((refl, (refl, tt)), (tt, (tt, tt))), tt)))

tree-Coherent : Deep (Coherent checksum) tree
unfolding Deep
tree-Coherent = (tt, (tt, ((tt, (tt, (tt, tt))), tt)))

tree-IsSound : IsSound by_text checksum tree
tree-IsSound = (tree-Ordered, tree-Full, tree-Coherent)

-- The value {"y":1,"z":null}
abbrev fields : Members
fields = member (codes "y") (json_int 1) (member (codes "z") json_null no_members)

abbrev value : Node
value = internal none (child (codes "y") (leaf_number none 1) end)

-- The path a/k, where a is a leaf.
abbrev at_leaf : List (List ℕ)
at_leaf = codes "a" ∷ codes "k" ∷ []

-- `tree` with {"y":1} at a/k.
abbrev written : Node
written = internal none (
    child (codes "a") (internal none (child (codes "k") value end))
      (child (codes "b") (internal none below_b) end))

data_cache_set_ex-IsSound_example :
    Holds
      (IsSound by_text checksum)
      (data_cache_set_ex by_text same_number at_leaf (json_object fields) tree)
data_cache_set_ex-IsSound_example =
    data_cache_set_ex-IsSound by_text checksum same_number at_leaf (json_object fields) tree
      tree-IsSound

-- A parser that reads every text as {"y":1,"z":null}.
abbrev as_fields : List ℕ → Json
as_fields doc = json_object fields

hash_get-hash_of_example :
    ((hash_get checksum tree).1 ≡ hash_of checksum tree)
    × IsCoherent checksum (hash_get checksum tree).0
    × (forget (hash_get checksum tree).0 ≡ forget tree)
unfolding IsCoherent
hash_get-hash_of_example = hash_get-hash_of checksum tree (tt, (tt, ((tt, (tt, (tt, tt))), tt)))

length-treenode_to_json_example :
    length (treenode_to_json print_digit (some tree)) ≤ treenode_to_json_len print_digit (some tree)
length-treenode_to_json_example = length-treenode_to_json print_digit (some tree)

text-IsNear : (s : List ℕ) (e : scan_decimal s ≡ none) → IsNear scan_decimal (2 ^ 63) s
text-IsNear s e = λ i h. absurd cc

get_r-data_cache_set_ex-keys_example :
    (root : Node) × (data_cache_set_ex
        (keys scan_decimal)
        same_number
        ((codes "a" ∷ []) ++ codes "k" ∷ [])
        (json_object fields)
        tree
      ≡ some root)
    × (get_r (keys scan_decimal) root ((codes "a" ∷ []) ++ codes "k" ∷ []) ≡ present value)
unfolding set_root scan_decimal scan_digits key_cmp Deep JsonKeys
get_r-data_cache_set_ex-keys_example =
    get_r-data_cache_set_ex-keys scan_decimal (2 ^ 63) same_number (codes "a" ∷ []) (codes "k")
      (json_object fields) tree value (omega arith) (text-IsNear (codes "a") refl, tt)
      (text-IsNear (codes "k") refl)
      (text-IsNear (codes "y") refl, tt, (text-IsNear (codes "z") refl, tt, tt))
      (
        (text-IsNear (codes "a") refl, (text-IsNear (codes "b") refl, tt)),
        (
          tt,
          (
            ((text-IsNear (codes "c") refl, (text-IsNear (codes "d") refl, tt)), (tt, (tt, tt))),
            tt,
          ),
        ),
      )
      (((refl, tt), (tt, tt)), (tt, ((((refl, tt), (tt, tt)), (tt, (tt, tt))), tt))) refl
