-- ===== src/Datasync/On/Registry.antt =====
-- lib/datasync/on/on_registry.c: the registry of subscriptions, with registration and removal. The tree of subscriptions is the sorted list that it stands for, as for the listen registry.
pub mod Event
pub mod Freed
pub mod Paths
pub mod Removal
use Prim.Native.Nat.Ordering.{lt, eq, gt}
use webcom_sdk_c.Avl.Sorted.{list_get, list_insert, list_remove}
use webcom_sdk_c.Cache.Digest.{hash_copy, zeros}
use webcom_sdk_c.Cache.Store.{get_r}
use webcom_sdk_c.Cache.Text.{treenode_to_json}
use webcom_sdk_c.Cache.{
  Key, Node, leaf_null, leaf_bool, leaf_number, leaf_string, internal, Children, end, child,
}
use webcom_sdk_c.Compare.{Cmp}
use webcom_sdk_c.Datasync.Listen.{starts_with, Item}
use webcom_sdk_c.Datasync.Listen.Effects.{Listening, unwatch_ex}
use webcom_sdk_c.Datasync.On.{
  InternalHash, OnSub, Call, Calls, Trig, is_empty, call_all, refresh_hashes, write_node, hash_at,
  trig,
}
use webcom_sdk_c.Datasync.{Parts}
use webcom_sdk_c.Path.{parse, parts}
use webcom_sdk_c.Prelude.{
  ℕ, ◌+◌, ◌/◌, ◌%◌, ◌^◌, ◌-◌, ◌||◌, Bool, true, false, ◌&&◌, Option, none, some, List, [], ◌∷◌,
  ◌++◌, ◌==◌, if◌then◌else◌,
}

-- `enum on_event_type`
pub data EventType : Type 0 where
  on_child_added on_child_removed on_child_changed on_value : EventType

-- A new subscription; as a search key only its path is read.
unfoldable pub sub_of : Parts → OnSub
unfolding zeros
sub_of path = record {
  path = path;
  added_cbs = [];
  removed_cbs = [];
  changed_cbs = [];
  value_cbs = [];
  children_hashes = [];
  hash = zeros 28;
}

unfoldable pub push_cb : EventType → ℕ → OnSub → OnSub
push_cb on_child_added p s = record s { added_cbs = p ∷ s.added_cbs }
push_cb on_child_removed p s = record s { removed_cbs = p ∷ s.removed_cbs }
push_cb on_child_changed p s = record s { changed_cbs = p ∷ s.changed_cbs }
push_cb on_value p s = record s { value_cbs = p ∷ s.value_cbs }

-- `(1 << i) & type_mask`; a mask is a number of 32 bits.
unfoldable pub in_mask : ℕ → ℕ → Bool
in_mask i type_mask = type_mask / 2 ^ i % 2 == 1

-- `h == NULL || p_cb == h`
unfoldable pub is_handle : Option ℕ → ℕ → Bool
is_handle none p = true
is_handle (some h) p = p == h

-- The loop over a list of callbacks: what stays, and how many are freed.
unfoldable pub unlink_cbs : Option ℕ → List ℕ → List ℕ × ℕ
unfolding is_handle
unlink_cbs h [] = ([], 0)
unlink_cbs h (p ∷ ps) =
    let (qs, n) = unlink_cbs h ps in if is_handle h p then (qs, n + 1) else (p ∷ qs, n)

unfoldable pub unlink_masked : Bool → Option ℕ → List ℕ → List ℕ × ℕ
unfolding unlink_cbs
unlink_masked true h ps = unlink_cbs h ps
unlink_masked false h ps = (ps, 0)

-- The loop over the event types.
unfoldable pub unlink_all : ℕ → Option ℕ → OnSub → OnSub × ℕ
unfolding unlink_masked in_mask
unlink_all type_mask h s =
    let (a, i) = unlink_masked (in_mask 0 type_mask) h s.added_cbs in
    let (r, j) = unlink_masked (in_mask 1 type_mask) h s.removed_cbs in
    let (g, k) = unlink_masked (in_mask 2 type_mask) h s.changed_cbs in
    let (v, l) = unlink_masked (in_mask 3 type_mask) h s.value_cbs in
    (record s { added_cbs = a; removed_cbs = r; changed_cbs = g; value_cbs = v }, i + j + k + l)

unfoldable pub has_no_cb : OnSub → Bool
unfolding is_empty
has_no_cb s =
    is_empty s.value_cbs && is_empty s.added_cbs && is_empty s.removed_cbs && is_empty s.changed_cbs

-- The subscription that a callback is registered with, unless it is freed.
unfoldable pub has_cb : ℕ → List ℕ → Bool
has_cb p [] = false
has_cb p (q ∷ qs) = p == q || has_cb p qs

unfoldable pub owner : ℕ → List OnSub → Option OnSub
unfolding has_cb
owner p [] = none
owner p (s ∷ subs) =
    if has_cb p s.added_cbs
      || has_cb p s.removed_cbs
      || has_cb p s.changed_cbs
      || has_cb p s.value_cbs
    then some s
    else owner p subs

-- The subscriptions, the root of the cache and the calls.
pub record Dispatch : Type 0 where
  pub subs : List OnSub
  pub root : Node
  pub calls : Calls

module _ (by_path : Cmp OnSub) where
  -- A write through the pointer that `avl_get` returned for an element that compares like `s`.
  unfoldable pub set_sub : OnSub → List OnSub → List OnSub
  set_sub s [] = []
  set_sub s (x ∷ xs) = elim (by_path.cmp s x) [ eq ↦ s ∷ xs | _ ↦ x ∷ set_sub s xs ]

  unfoldable pub on_registry_remove : Parts → ℕ → Option ℕ → List OnSub → List OnSub × ℕ
  unfolding sub_of list_get list_remove unlink_all has_no_cb set_sub
  on_registry_remove path type_mask h subs = elim (list_get by_path (sub_of path) subs) [
    | none ↦ (subs, 0)
    | some s ↦
        let (s', removed) = unlink_all type_mask h s in
        (if has_no_cb s' then list_remove by_path s' subs else set_sub s' subs, removed)
  ]

  module _ (c : Cmp Key) (sha1 : List ℕ → List ℕ) (print_number : ℕ → List ℕ)
      (keeps : List Call → Bool) where
    -- The loop of `on_registry_add` over the children; the answers of these calls are not read.
    unfoldable pub call_children : ℕ → Children → Option Key → List Call → List Call
    unfolding treenode_to_json
    call_children p end prev made = made
    call_children p (child k n cs) prev made =
        let text = treenode_to_json print_number (some n) in
        let call : Call = record {
          handle = p;
          data_text = text;
          current_key = some k;
          previous_key = prev;
        } in
        call_children p cs (some k) (made ++ call ∷ [])

    -- The initial calls of a callback that is registered with `t.sub`.
    unfoldable pub initial_calls : EventType → ℕ → Trig → Trig
    unfolding get_r treenode_to_json hash_at hash_copy call_children refresh_hashes write_node
    initial_calls on_value p t =
        let snapshot = get_r c t.root t.sub.path in
        let text = treenode_to_json print_number snapshot in
        let call : Call = record {
          handle = p;
          data_text = text;
          current_key = none;
          previous_key = none;
        } in
        let (root, h) = hash_at c sha1 t.sub.path snapshot t.root in
        record {
          sub = record t.sub { hash = hash_copy h };
          root = root;
          calls = record t.calls { made = t.calls.made ++ call ∷ [] };
        }
    initial_calls on_child_added p t = elim (get_r c t.root t.sub.path) [
      | some (internal h cs) ↦
          let (cs', hs) = refresh_hashes c sha1 cs [] in
          record {
            sub = record t.sub { children_hashes = hs };
            root = write_node c t.sub.path (internal h cs') t.root;
            calls = record t.calls { made = call_children p cs none t.calls.made };
          }
      | _ ↦ t
    ]
    initial_calls type p t = t

    -- `on_registry_add`; `p` is the address that the callback is given, and `known` whether the path
    -- is listened to or the context is disconnected.
    unfoldable pub on_registry_add : EventType → List ℕ → ℕ → Bool → Dispatch → Dispatch
    unfolding parse parts sub_of push_cb list_get list_insert set_sub get_r initial_calls
    on_registry_add type path p known d =
        let key = sub_of (parts (parse path)) in
        let (s, subs) = elim (list_get by_path key d.subs) as (λ o. OnSub × List OnSub) [
          | none ↦ let s = push_cb type p key in (s, list_insert by_path s d.subs)
          | some s ↦ let s' = push_cb type p s in (s', set_sub s' d.subs)
        ] in
        let t = initial_calls type p (record { sub = s; root = d.root; calls = d.calls }) in
        let silent : Dispatch = record d { subs = subs } in
        let called : Dispatch = record {
          subs = set_sub t.sub subs;
          root = t.root;
          calls = t.calls;
        } in
        elim (get_r c d.root s.path) [ none ↦ if known then called else silent | some n ↦ called ]
