-- ===== src/Cache/Text.antt =====
-- lib/datasync/cache/treenode.c: a node as JSON text, in a buffer whose length is computed first, and
-- on a stream. `print_number` is what `printf` writes for `%.16g`.
pub mod Laws
use webcom_sdk_c.Base64.{codes}
use webcom_sdk_c.Cache.{
  Node, leaf_null, leaf_bool, leaf_number, leaf_string, internal, Children, end, child, is_null,
}
use webcom_sdk_c.Json.{json_escaped_str_len, json_escape_str, fjson_escape_str}
use webcom_sdk_c.Prelude.{
  ℕ, ◌+◌, ◌-◌, Bool, true, false, Option, none, some, List, [], ◌∷◌, ◌++◌, if◌then◌else◌, length,
}

-- `non_null`, which counts the null children too
unfoldable pub count : Children → ℕ
count end = 0
count (child k n cs) = 1 + count cs

-- `avl_it_has_next`
unfoldable pub comma : Children → List ℕ
comma end = []
comma (child k n cs) = b',' ∷ []

unfoldable pub bool_text : Bool → List ℕ
bool_text true = codes "true"
bool_text false = codes "false"

module _ (print_number : ℕ → List ℕ) where
  unfoldable mutual
    unfolding is_null json_escaped_str_len count bool_text

    pub to_json_len : Node → ℕ
    to_json_len leaf_null = length (codes "null")
    to_json_len (leaf_bool b) = length (bool_text b)
    to_json_len (leaf_number h d) = length (print_number d)
    to_json_len (leaf_string h s) = json_escaped_str_len s
    to_json_len (internal h cs) = children_len cs + (count cs - 1) + 2

    pub children_len : Children → ℕ
    children_len end = 0
    children_len (child k n cs) =
        (if is_null n then 0 else json_escaped_str_len k + 1 + to_json_len n) + children_len cs

  unfoldable mutual
    unfolding is_null json_escape_str comma bool_text

    pub to_json : Node → List ℕ
    to_json leaf_null = codes "null"
    to_json (leaf_bool b) = bool_text b
    to_json (leaf_number h d) = print_number d
    to_json (leaf_string h s) = json_escape_str s
    to_json (internal h cs) = b'{' ∷ (children_json cs ++ b'}' ∷ [])

    pub children_json : Children → List ℕ
    children_json end = []
    children_json (child k n cs) =
        (if is_null n then [] else json_escape_str k ++ b':' ∷ (to_json n ++ comma cs))
        ++ children_json cs

  unfoldable mutual
    unfolding is_null fjson_escape_str comma bool_text

    pub fto_json : Node → List ℕ → List ℕ
    fto_json leaf_null stream = stream ++ codes "null"
    fto_json (leaf_bool b) stream = stream ++ bool_text b
    fto_json (leaf_number h d) stream = stream ++ print_number d
    fto_json (leaf_string h s) stream = fjson_escape_str s stream
    fto_json (internal h cs) stream = fchildren_json cs (stream ++ b'{' ∷ []) ++ b'}' ∷ []

    pub fchildren_json : Children → List ℕ → List ℕ
    fchildren_json end stream = stream
    fchildren_json (child k n cs) stream = fchildren_json cs (
        if is_null n
        then stream
        else fto_json n (fjson_escape_str k stream ++ b':' ∷ []) ++ comma cs)

  -- The functions of the code, where `none` is NULL.
  unfoldable pub treenode_to_json_len : Option Node → ℕ
  unfolding to_json_len
  treenode_to_json_len none = length (codes "null")
  treenode_to_json_len (some n) = to_json_len n

  unfoldable pub treenode_to_json : Option Node → List ℕ
  unfolding to_json
  treenode_to_json none = codes "null"
  treenode_to_json (some n) = to_json n

  unfoldable pub ftreenode_to_json : Option Node → List ℕ → List ℕ
  unfolding fto_json
  ftreenode_to_json none stream = stream ++ codes "null"
  ftreenode_to_json (some n) stream = fto_json n stream
