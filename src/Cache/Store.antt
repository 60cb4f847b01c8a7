-- ===== src/Cache/Store.antt =====
-- lib/datasync/cache/treenode_cache.c: reading and writing the cache at a path. The state is the root;
-- the parser of JSON texts, `json_tokener_parse`, is a parameter.
pub mod Edit
pub mod Invariant
pub mod Keys
pub mod Near
pub mod Reads
pub mod Sound
pub mod Stored
use webcom_sdk_c.Cache.Value.{
  Json, json_null, json_bool, json_double, json_int, json_string, json_array, json_object, Members,
  no_members, member, set_r, set_root,
}
use webcom_sdk_c.Cache.{
  Key, Hash, Node, leaf_null, leaf_bool, leaf_number, leaf_string, internal, Children, end, child,
  new_internal, is_internal, get, insert, remove, replace,
}
use webcom_sdk_c.Compare.{Cmp}
use webcom_sdk_c.Datasync.{Parts}
use webcom_sdk_c.Path.{parse, parts}
use webcom_sdk_c.Prelude.{
  ℕ, ◌+◌, Bool, true, false, Option, none, some, List, [], ◌∷◌, ◌++◌, if◌then◌else◌, length, take,
}

-- The root of `data_cache_new`.
abbrev pub new_cache : Node
new_cache = leaf_null

-- The children of an internal node, and those of the one that takes the place of a leaf.
unfoldable pub children_of : Node → Children
children_of (internal h cs) = cs
children_of _ = end

-- `hash_cached = reset_hash ? 0 : hash_cached`; a node that is made anew keeps no hash.
unfoldable pub kept_hash : Bool → Node → Option Hash
kept_hash reset (internal h cs) = if reset then none else h
kept_hash reset _ = none

-- The path but its last part, and that part: `nparts--` and part `nparts - 1`.
unfoldable pub split_last : Parts → Option (Parts × Key)
split_last [] = none
split_last (k ∷ ks) = elim (split_last ks) [
  | none ↦ some ([], k)
  | some (dir, last) ↦ some (k ∷ dir, last)
]

module _ (c : Cmp Key) where
  -- `data_cache_get_r`
  unfoldable pub get_r : Node → Parts → Option Node
  unfolding get
  get_r n [] = some n
  get_r (internal h cs) (k ∷ ks) = elim (get c k cs) [ none ↦ none | some m ↦ get_r m ks ]
  get_r _ (k ∷ ks) = none

  -- `data_cache_mkpath_w` from a node on, which is the root or the node that the walk has come to: a
  -- leaf is replaced by a new internal node.
  unfoldable pub mkpath_w : Bool → Bool → Parts → Node → Node
  unfolding children_of kept_hash get insert remove replace is_internal
  mkpath_w reset empty [] n = internal (kept_hash reset n) (if empty then end else children_of n)
  mkpath_w reset empty (k ∷ ks) n =
      let cs = children_of n in
      internal (kept_hash reset n) (elim (get c k cs) [
        | none ↦ insert c k (mkpath_w reset empty ks new_internal) cs
        | some m ↦
            let kept = replace c k (mkpath_w reset empty ks m) cs in
            let anew = insert c k (mkpath_w reset empty ks new_internal) (remove c k cs) in
            if is_internal m then kept else anew
      ])

  -- A change of the children of the node that `data_cache_get_r` finds, through its pointer; `none`
  -- is a NULL pointer, a leaf, and a change that fails.
  unfoldable pub write_at : (Children → Option Children) → Parts → Node → Option Node
  unfolding get replace
  write_at f [] (internal h cs) = elim (f cs) [ none ↦ none | some cs' ↦ some (internal h cs') ]
  write_at f (k ∷ ks) (internal h cs) = elim (get c k cs) [
    | none ↦ none
    | some m ↦ elim (write_at f ks m) [
      | none ↦ none
      | some m' ↦ some (internal h (replace c k m' cs))
    ]
  ]
  write_at f _ _ = none

  -- The common part of the writes: `data_cache_mkpath_w`, `data_cache_get_r` and a change.
  unfoldable pub write_below : (Children → Option Children) → Parts → Node → Option Node
  unfolding mkpath_w write_at
  write_below f dir root = write_at f dir (mkpath_w true false dir root)

  unfoldable pub data_cache_mkpath : List ℕ → Node → Node
  unfolding parse parts mkpath_w
  data_cache_mkpath path root = mkpath_w true false (parts (parse path)) root

  -- `data_cache_set_leaf`, with the leaf for its type and value.
  unfoldable pub data_cache_set_leaf : List ℕ → Node → Node → Option Node
  unfolding parse parts split_last write_below insert remove
  data_cache_set_leaf path leaf root = elim (split_last (parts (parse path))) [
    | none ↦ some leaf
    | some (dir, key) ↦ write_below (λ cs. some (insert c key leaf (remove c key cs))) dir root
  ]

  unfoldable pub data_cache_get_parsed : Node → Parts → Option Node
  unfolding get_r
  data_cache_get_parsed root path = get_r root path

  unfoldable pub data_cache_get : Node → List ℕ → Option Node
  unfolding parse parts get_r
  data_cache_get root path = get_r root (parts (parse path))

  module _ (double_of_int : ℕ → ℕ) where
    unfoldable pub data_cache_set_ex : Parts → Json → Node → Option Node
    unfolding split_last write_below set_r set_root remove
    data_cache_set_ex path json root = elim (split_last path) [
      | none ↦ set_root c double_of_int json
      | some (dir, key) ↦
          write_below (λ cs. set_r c double_of_int json key (remove c key cs)) dir root
    ]

    -- The loop of `data_cache_merge_ex`.
    unfoldable pub merge_members : Members → Children → Option Children
    unfolding set_r remove
    merge_members no_members cs = some cs
    merge_members (member k x ms) cs = elim (set_r c double_of_int x k (remove c k cs)) [
      | none ↦ none
      | some cs' ↦ merge_members ms cs'
    ]

    -- `data_cache_merge_ex` for an object with these members.
    unfoldable pub data_cache_merge_ex : Parts → Members → Node → Option Node
    unfolding set_root merge_members write_below
    data_cache_merge_ex [] ms root = set_root c double_of_int (json_object ms)
    data_cache_merge_ex (k ∷ path) ms root = write_below (merge_members ms) (k ∷ path) root

    module _ (json_tokener_parse : List ℕ → Json) where
      unfoldable pub data_cache_set : List ℕ → List ℕ → Node → Option Node
      unfolding parse parts data_cache_set_ex
      data_cache_set path json_doc root =
          data_cache_set_ex (parts (parse path)) (json_tokener_parse json_doc) root

      -- The loop of `data_cache_merge`: the path of a member is cut at its longest length.
      unfoldable pub merge_paths : List ℕ → Members → Node → Option Node
      unfolding parse parts data_cache_set_ex
      merge_paths path no_members root = some root
      merge_paths path (member k x ms) root =
          let merge_path = take (length path + 1 + 256) (path ++ b'/' ∷ k) in
          elim (data_cache_set_ex (parts (parse merge_path)) x root) [
            | none ↦ none
            | some root' ↦ merge_paths path ms root'
          ]

      unfoldable pub data_cache_merge : List ℕ → List ℕ → Node → Option Node
      unfolding merge_paths
      data_cache_merge path json_doc root = elim (json_tokener_parse json_doc) [
        | json_object ms ↦ merge_paths path ms root
        | _ ↦ some root
      ]
