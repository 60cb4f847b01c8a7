-- ===== src/Datasync/On.antt =====
-- lib/datasync/on/on_registry.c: the subscriptions to paths of the cache, and the calls of their
-- callbacks when the cache has changed. A callback is known by the address of its `struct on_cb_list`;
-- `keeps` is its answer, given all calls so far. What a callback does to the context is not modelled.
-- The tree of `children_hashes` is the list of its entries in the order of their keys.
pub mod Again
pub mod Api
pub mod Diff
pub mod Order
pub mod Quiet
pub mod Registry
use Prim.Native.Nat.Ordering.{lt, eq, gt}
use webcom_sdk_c.Base64.{codes}
use webcom_sdk_c.Cache.Digest.{hash_get, hash_eq, hash_copy}
use webcom_sdk_c.Cache.Store.{get_r}
use webcom_sdk_c.Cache.Text.{treenode_to_json}
use webcom_sdk_c.Cache.{
  Key, Hash, Node, leaf_null, leaf_bool, leaf_number, leaf_string, internal, Children, end, child,
  get, replace,
}
use webcom_sdk_c.Compare.{Cmp}
use webcom_sdk_c.Datasync.{Parts}
use webcom_sdk_c.Prelude.{
  ℕ, Bool, true, false, ◌&&◌, Option, none, some, List, [], ◌∷◌, ◌++◌, if◌then◌else◌,
}

-- `struct internal_hash`
pub record InternalHash : Type 0 where
  pub key : Key
  pub hash : Hash

-- What has become of a child: its key, its value if it has one, and the key before it in the cache.
pub data Change : Type 0 where
  added : Key → Node → Option Key → Change
  changed : Key → Node → Option Key → Change
  gone : Key → Option Key → Change

-- `struct on_sub`, with a list of callbacks for each of `enum on_event_type`.
pub record OnSub : Type 0 where
  pub path : Parts
  pub added_cbs : List ℕ
  pub removed_cbs : List ℕ
  pub changed_cbs : List ℕ
  pub value_cbs : List ℕ
  pub children_hashes : List InternalHash
  pub hash : Hash

-- The arguments of a call.
pub record Call : Type 0 where
  pub handle : ℕ
  pub data_text : List ℕ
  pub current_key : Option Key
  pub previous_key : Option Key

-- The calls made, and `deleted_cb_list`.
pub record Calls : Type 0 where
  pub made : List Call
  pub deleted : List ℕ

-- The subscription, the root of the cache and the calls.
pub record Trig : Type 0 where
  pub sub : OnSub
  pub root : Node
  pub calls : Calls

unfoldable pub is_empty {ℓ} : {A : Type ℓ} → List A → Bool
is_empty [] = true
is_empty (x ∷ xs) = false

-- The loop over a list of callbacks.
unfoldable pub call_all :
    (List Call → Bool) → List ℕ → List ℕ → Option Key → Option Key → Calls → Calls
call_all keeps [] data_text cur prev r = r
call_all keeps (p ∷ ps) data_text cur prev r =
    let call : Call = record {
      handle = p;
      data_text = data_text;
      current_key = cur;
      previous_key = prev;
    } in
    let made = r.made ++ call ∷ [] in
    let deleted = if keeps made then r.deleted else p ∷ r.deleted in
    call_all keeps ps data_text cur prev (record { made = made; deleted = deleted })

module _ (c : Cmp Key) where
  open c use {cmp}

  -- `avl_insert` into the tree of hashes
  unfoldable pub store_hash : InternalHash → List InternalHash → List InternalHash
  store_hash s [] = s ∷ []
  store_hash s (t ∷ hs) = elim (cmp s.key t.key) [
    | lt ↦ s ∷ t ∷ hs
    | eq ↦ t ∷ hs
    | gt ↦ t ∷ store_hash s hs
  ]

  -- What the pointer that `data_cache_get_parsed` returned points to is changed.
  unfoldable pub write_node : Parts → Node → Node → Node
  unfolding get replace
  write_node [] m n = m
  write_node (k ∷ ks) m (internal h cs) = elim (get c k cs) [
    | none ↦ internal h cs
    | some x ↦ internal h (replace c k (write_node ks m x) cs)
  ]
  write_node (k ∷ ks) m n = n

module _ (c : Cmp Key) (sha1 : List ℕ → List ℕ) where
  open c use {cmp}

  -- The loop of `on_child_trig`: the children, with the hashes that they keep, and what is triggered.
  unfoldable pub child_changes : Children → List InternalHash → Option Key → Children × List Change
  unfolding hash_get hash_eq
  child_changes end [] prev = (end, [])
  child_changes end (s ∷ hs) prev =
      let (cs', es) = child_changes end hs prev in (cs', gone s.key prev ∷ es)
  child_changes (child k n cs) [] prev =
      let (cs', es) = child_changes cs [] (some k) in (child k n cs', added k n prev ∷ es)
  child_changes (child k n cs) (s ∷ hs) prev = elim (cmp k s.key) [
    | lt ↦
        let (cs', es) = child_changes cs (s ∷ hs) (some k) in (child k n cs', added k n prev ∷ es)
    | eq ↦
        let (n', h) = hash_get sha1 n in
        let (cs', es) = child_changes cs hs (some k) in
        (child k n' cs', if hash_eq h (some s.hash) then es else changed k n' prev ∷ es)
    | gt ↦ let (cs', es) = child_changes (child k n cs) hs prev in (cs', gone s.key prev ∷ es)
  ]

  -- `refresh_on_child_sub_hashes`: the children, with the hashes that they keep, and the entries.
  unfoldable pub refresh_hashes : Children → List InternalHash → Children × List InternalHash
  unfolding hash_get hash_copy store_hash
  refresh_hashes end hs = (end, hs)
  refresh_hashes (child k n cs) hs =
      let (n', h) = hash_get sha1 n in
      let (cs', hs') =
        refresh_hashes cs (store_hash c (record { key = k; hash = hash_copy h }) hs) in
      (child k n' cs', hs')

  -- `treenode_hash_get` of what `data_cache_get_parsed` returned: the root after it, and the hash.
  unfoldable pub hash_at : Parts → Option Node → Node → Node × Option Hash
  unfolding hash_get write_node
  hash_at path none root = (root, none)
  hash_at path (some n) root = let (n', h) = hash_get sha1 n in (write_node c path n' root, h)

  module _ (print_number : ℕ → List ℕ) (keeps : List Call → Bool) where
    -- `trigger_on_child_cb_list`
    unfoldable pub trigger_on_child_cb_list : OnSub → Change → Calls → Calls
    unfolding call_all treenode_to_json
    trigger_on_child_cb_list sub (added k n prev) r =
        call_all keeps sub.added_cbs (treenode_to_json print_number (some n)) (some k) prev r
    trigger_on_child_cb_list sub (changed k n prev) r =
        call_all keeps sub.changed_cbs (treenode_to_json print_number (some n)) (some k) prev r
    trigger_on_child_cb_list sub (gone k prev) r =
        call_all keeps sub.removed_cbs (codes "null") (some k) prev r

    unfoldable pub trigger_all : OnSub → List Change → Calls → Calls
    unfolding trigger_on_child_cb_list
    trigger_all sub [] r = r
    trigger_all sub (e ∷ es) r = trigger_all sub es (trigger_on_child_cb_list sub e r)

    -- `on_child_trig` where the value has children.
    unfoldable pub children_trig : Option Hash → Children → Trig → Trig
    unfolding child_changes trigger_all refresh_hashes write_node is_empty
    children_trig h cs t =
        let (cs', es) = child_changes cs t.sub.children_hashes none in
        let (cs'', hs) = refresh_hashes cs' [] in
        let calls = trigger_all t.sub es t.calls in
        if is_empty es
        then record t { root = write_node c t.sub.path (internal h cs') t.root }
        else record {
          sub = record t.sub { children_hashes = hs };
          root = write_node c t.sub.path (internal h cs'') t.root;
          calls = calls;
        }

    -- `on_child_trig` where the path has no value or a leaf.
    unfoldable pub childless_trig : Trig → Trig
    unfolding child_changes trigger_all
    childless_trig t =
        let es = (child_changes end t.sub.children_hashes none).1 in
        record t {
          sub = record t.sub { children_hashes = [] };
          calls = trigger_all t.sub es t.calls;
        }

    unfoldable pub on_child_trig : Trig → Trig
    unfolding get_r children_trig childless_trig
    on_child_trig t = elim (get_r c t.root t.sub.path) [
      | some (internal h cs) ↦ children_trig h cs t
      | _ ↦ childless_trig t
    ]

    -- `on_val_trig`
    unfoldable pub on_val_trig : Trig → Trig
    unfolding get_r hash_at hash_eq hash_copy treenode_to_json call_all is_empty
    on_val_trig t =
        let value = get_r c t.root t.sub.path in
        let (root, h) = hash_at t.sub.path value t.root in
        let text = treenode_to_json print_number value in
        if is_empty t.sub.value_cbs
        then t
        else if hash_eq h (some t.sub.hash)
        then record t { root = root }
        else record {
          sub = record t.sub { hash = hash_copy h };
          root = root;
          calls = call_all keeps t.sub.value_cbs text none none t.calls;
        }

    unfoldable pub trig : Trig → Trig
    unfolding on_child_trig on_val_trig is_empty
    trig t =
        let s = t.sub in
        let child_lists =
          is_empty s.added_cbs && is_empty s.changed_cbs && is_empty s.removed_cbs in
        let u = if child_lists then t else on_child_trig t in
        if is_empty u.sub.value_cbs then u else on_val_trig u
