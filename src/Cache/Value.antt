-- ===== src/Cache/Value.antt =====
-- The values of json-c that lib/datasync/cache reads, by the kinds that `json_object_get_type` tells
-- apart, and what is made of them. An integer is the number that its 64 bits write; the conversions of
-- integers to `double` are parameters.
use webcom_sdk_c.Cache.{
  Key, Node, leaf_null, leaf_bool, leaf_number, leaf_string, internal, Children, end, get,
  internal_add_new_number, internal_add_new_bool, internal_add_new_string, insert, remove, copy,
}
use webcom_sdk_c.Compare.{Cmp}
use webcom_sdk_c.Prelude.{
  ℕ, zero, suc, ◌+◌, ◌/◌, ◌%◌, Bool, Option, none, some, List, [], ◌∷◌, ◌++◌, if◌then◌else◌, ltb,
}

mutual
  pub data Json : Type 0 where
    json_null : Json
    json_bool : Bool → Json
    json_double : ℕ → Json
    json_int : ℕ → Json
    json_string : List ℕ → Json
    json_array : Items → Json
    json_object : Members → Json

  pub data Items : Type 0 where
    no_items : Items
    item : Json → Items → Items

  pub data Members : Type 0 where
    no_members : Members
    member : Key → Json → Members → Members

-- What `snprintf` writes for `%d`, with fuel: a number has not more digits than its value and one.
unfoldable pub decimal_digits : ℕ → ℕ → List ℕ
decimal_digits zero n = []
decimal_digits (suc fuel) n =
    let more = decimal_digits fuel (n / 10) ++ (b'0' + n % 10) ∷ [] in
    if ltb n 10 then (b'0' + n) ∷ [] else more

unfoldable pub decimal : ℕ → List ℕ
unfolding decimal_digits
decimal i = decimal_digits (suc i) i

module _ (c : Cmp Key) (double_of_int : ℕ → ℕ) where
  -- `none` where the code fails an assertion: a value that is not of one node.
  abbrev pub treenode_from_json_val : Json → Option Node
  treenode_from_json_val json_null = some leaf_null
  treenode_from_json_val (json_bool b) = some (leaf_bool b)
  treenode_from_json_val (json_double d) = some (leaf_number none d)
  treenode_from_json_val (json_int i) = some (leaf_number none (double_of_int i))
  treenode_from_json_val (json_string s) = some (leaf_string none s)
  treenode_from_json_val (json_array xs) = none
  treenode_from_json_val (json_object ms) = none

  abbrev pub internal_add_from_json_val : Key → Json → Children → Option Children
  internal_add_from_json_val k json_null cs = some (remove c k cs)
  internal_add_from_json_val k (json_bool b) cs = some (internal_add_new_bool c k b cs)
  internal_add_from_json_val k (json_double d) cs = some (internal_add_new_number c k d cs)
  internal_add_from_json_val k (json_int i) cs =
      some (internal_add_new_number c k (double_of_int i) cs)
  internal_add_from_json_val k (json_string s) cs = some (internal_add_new_string c k s cs)
  internal_add_from_json_val k (json_array xs) cs = none
  internal_add_from_json_val k (json_object ms) cs = none

  -- `data_cache_set_r` below a node, whose children it changes. Where a child with the key is there
  -- already, `internal_add_new_internal` makes a pointer out of NULL, and the result is `none`.
  unfoldable mutual
    unfolding get insert remove decimal

    pub set_r : Json → Key → Children → Option Children
    set_r json_null k cs = internal_add_from_json_val k json_null cs
    set_r (json_bool b) k cs = internal_add_from_json_val k (json_bool b) cs
    set_r (json_double d) k cs = internal_add_from_json_val k (json_double d) cs
    set_r (json_int i) k cs = internal_add_from_json_val k (json_int i) cs
    set_r (json_string s) k cs = internal_add_from_json_val k (json_string s) cs
    set_r (json_array xs) k cs = elim (get c k cs) [
      | some _ ↦ none
      | none ↦ elim (set_items xs 0 end) [
        | none ↦ none
        | some sub ↦ some (insert c k (internal none sub) cs)
      ]
    ]
    set_r (json_object ms) k cs = elim (get c k cs) [
      | some _ ↦ none
      | none ↦ elim (set_members ms end) [
        | none ↦ none
        | some sub ↦ some (insert c k (internal none sub) cs)
      ]
    ]

    pub set_items : Items → ℕ → Children → Option Children
    set_items no_items i cs = some cs
    set_items (item x xs) i cs = elim (set_r x (decimal i) cs) [
      | none ↦ none
      | some cs' ↦ set_items xs (i + 1) cs'
    ]

    pub set_members : Members → Children → Option Children
    set_members no_members cs = some cs
    set_members (member k x ms) cs = elim (set_r x k cs) [
      | none ↦ none
      | some cs' ↦ set_members ms cs'
    ]

  -- `data_cache_set_r` where the root is NULL: the node that becomes the root.
  unfoldable pub set_root : Json → Option Node
  unfolding set_r
  set_root json_null = treenode_from_json_val json_null
  set_root (json_bool b) = treenode_from_json_val (json_bool b)
  set_root (json_double d) = treenode_from_json_val (json_double d)
  set_root (json_int i) = treenode_from_json_val (json_int i)
  set_root (json_string s) = treenode_from_json_val (json_string s)
  set_root (json_array xs) = elim (set_items xs 0 end) [
    | none ↦ none
    | some sub ↦ some (internal none sub)
  ]
  set_root (json_object ms) = elim (set_members ms end) [
    | none ↦ none
    | some sub ↦ some (internal none sub)
  ]

-- `treenode_from_json_r` of treenode.c, which makes a null of a boolean, and reads an integer by
-- `json_object_get_int`, of 32 bits: `double_of_int32` is what this and the conversion to `double` make
-- of it. `internal_add` stores a copy.
module _ (c : Cmp Key) (double_of_int32 : ℕ → ℕ) where
  unfoldable mutual
    unfolding insert copy decimal

    pub from_json : Json → Node
    from_json json_null = leaf_null
    from_json (json_bool b) = leaf_null
    from_json (json_double d) = leaf_number none d
    from_json (json_int i) = leaf_number none (double_of_int32 i)
    from_json (json_string s) = leaf_string none s
    from_json (json_array xs) = internal none (add_items xs 0 end)
    from_json (json_object ms) = internal none (add_members ms end)

    pub add_items : Items → ℕ → Children → Children
    add_items no_items i cs = cs
    add_items (item x xs) i cs =
        add_items xs (i + 1) (insert c (decimal i) (copy c (from_json x)) cs)

    pub add_members : Members → Children → Children
    add_members no_members cs = cs
    add_members (member k x ms) cs = add_members ms (insert c k (copy c (from_json x)) cs)
