-- ===== src/Cache.antt =====
-- lib/datasync/cache: the local copy of the remote tree. This file has the nodes of treenode.c. The
-- tree of a node's children is the list of them in the order of their keys, as for the listen
-- registry; a write through a pointer into that tree replaces the child in place. The
-- comparison of keys is the parameter `c`, of which no law is asked.
pub mod Lookup
pub mod Text
pub mod Digest
pub mod Value
pub mod Deep
pub mod Store
use Prim.Native.Nat.Ordering.{lt, eq, gt}
use webcom_sdk_c.Compare.{Cmp}
use webcom_sdk_c.Prelude.{ℕ, Bool, true, false, Option, none, some, List}

-- A key is a C string, and a hash has 28 bytes.
abbrev pub Key : Type 0
Key = List ℕ

abbrev pub Hash : Type 0
Hash = List ℕ

-- `struct treenode` with its `enum treenode_type` and `union treenode_value`. `hash_cached` and
-- `hash` are one option; a `double` is the number that its 64 bits write.
mutual
  pub data Node : Type 0 where
    leaf_null : Node
    leaf_bool : Bool → Node
    leaf_number : Option Hash → ℕ → Node
    leaf_string : Option Hash → List ℕ → Node
    internal : Option Hash → Children → Node

  -- `struct internal_node_element`, in the order of the tree
  pub data Children : Type 0 where
    end : Children
    child : Key → Node → Children → Children

unfoldable pub is_internal : Node → Bool
is_internal (internal h cs) = true
is_internal _ = false

unfoldable pub is_null : Node → Bool
is_null leaf_null = true
is_null _ = false

-- `treenode_new_internal`
abbrev pub new_internal : Node
new_internal = internal none end

module _ (c : Cmp Key) where
  open c use {cmp}

  -- `avl_get` with a key
  unfoldable pub get : Key → Children → Option Node
  get k end = none
  get k (child x n cs) = elim (cmp k x) [ eq ↦ some n | _ ↦ get k cs ]

  -- `avl_insert`, which leaves a tree that has the key as it is
  unfoldable pub insert : Key → Node → Children → Children
  insert k m end = child k m end
  insert k m (child x n cs) = elim (cmp k x) [
    | lt ↦ child k m (child x n cs)
    | eq ↦ child x n cs
    | gt ↦ child x n (insert k m cs)
  ]

  -- `avl_remove` with a key
  unfoldable pub remove : Key → Children → Children
  remove k end = end
  remove k (child x n cs) = elim (cmp k x) [ eq ↦ cs | _ ↦ child x n (remove k cs) ]

  -- A write through the pointer that `avl_get` returned.
  unfoldable pub replace : Key → Node → Children → Children
  replace k m end = end
  replace k m (child x n cs) = elim (cmp k x) [ eq ↦ child x m cs | _ ↦ child x n (replace k m cs) ]

  -- `internal_element_copy`: a copy has no hash, and its tree is made by insertions.
  unfoldable mutual
    pub copy : Node → Node
    copy leaf_null = leaf_null
    copy (leaf_bool b) = leaf_bool b
    copy (leaf_number h d) = leaf_number none d
    copy (leaf_string h s) = leaf_string none s
    copy (internal h cs) = internal none (copy_children cs end)

    pub copy_children : Children → Children → Children
    copy_children end to = to
    copy_children (child x n cs) to = copy_children cs (insert x (copy n) to)

  -- `internal_add_new_number` and the others, where the key is not there yet.
  abbrev pub internal_add_new_number : Key → ℕ → Children → Children
  internal_add_new_number k d cs = insert k (leaf_number none d) cs

  abbrev pub internal_add_new_bool : Key → Bool → Children → Children
  internal_add_new_bool k b cs = insert k (leaf_bool b) cs

  abbrev pub internal_add_new_string : Key → List ℕ → Children → Children
  internal_add_new_string k s cs = insert k (leaf_string none s) cs

  -- `none` is NULL, and a node without children, for which the assertion fails.
  unfoldable pub internal_get : Node → Key → Option Node
  unfolding get
  internal_get (internal h cs) k = get k cs
  internal_get _ k = none

  -- `internal_add`, `none` for the failed assertion. The hash of the parent stays.
  unfoldable pub internal_add : Node → Key → Node → Option Node
  unfolding insert copy
  internal_add (internal h cs) k n = some (internal h (insert k (copy n) cs))
  internal_add _ k n = none

  unfoldable pub internal_remove : Node → Key → Option Node
  unfolding remove
  internal_remove (internal h cs) k = some (internal h (remove k cs))
  internal_remove _ k = none
