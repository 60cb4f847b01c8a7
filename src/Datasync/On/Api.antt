-- ===== src/Datasync/On/Api.antt =====
-- lib/datasync/on/on_api.c: the registration and the cancelling of callbacks by the application. Each
-- callback holds one reference of its path in the listen registry.
pub mod Off
use webcom_sdk_c.Cache.{Key}
use webcom_sdk_c.Compare.{Cmp}
use webcom_sdk_c.Datasync.Listen.{Item, is_masked}
use webcom_sdk_c.Datasync.Listen.Effects.{Listening, watch, unwatch_ex}
use webcom_sdk_c.Datasync.On.Registry.{
  EventType, on_child_added, on_child_removed, on_child_changed, on_value, Dispatch, owner,
  on_registry_add, on_registry_remove,
}
use webcom_sdk_c.Datasync.On.{OnSub, Call}
use webcom_sdk_c.Datasync.{disconnected, Parts, CnxState}
use webcom_sdk_c.Path.{parse, parts}
use webcom_sdk_c.Prelude.{
  ℕ, ◌-◌, ◌^◌, Bool, true, false, ◌||◌, Option, none, some, List, if◌then◌else◌,
}

-- The part of a context that registration reads and writes.
pub record App : Type 0 where
  pub dispatch : Dispatch
  pub listening : Listening

unfoldable pub is_disconnected : CnxState → Bool
is_disconnected disconnected = true
is_disconnected _ = false

-- The number of an event type.
unfoldable pub type_index : EventType → ℕ
type_index on_child_added = 0
type_index on_child_removed = 1
type_index on_child_changed = 2
type_index on_value = 3

module _ (lws_write : ℕ → Bool) (by_item : Cmp Item) (by_path : Cmp OnSub) where
  -- `wc_datasync_off_w` with the parsed path
  unfoldable pub off_w : Parts → ℕ → Option ℕ → App → Option App
  unfolding on_registry_remove unwatch_ex
  off_w path event_mask h a =
      let (subs, removed) = on_registry_remove by_path path event_mask h a.dispatch.subs in
      elim (unwatch_ex lws_write by_item a.listening path removed) [
        | none ↦ none
        | some l ↦ some (record { dispatch = record a.dispatch { subs = subs }; listening = l })
      ]

  -- `wc_datasync_off`; `none` where the callback is freed already.
  unfoldable pub off : ℕ → App → Option App
  unfolding owner off_w
  off h a = elim (owner h a.dispatch.subs) [
    | none ↦ none
    | some s ↦ off_w s.path (2 ^ 32 - 1) (some h) a
  ]

  unfoldable pub off_path : List ℕ → App → Option App
  unfolding parse parts off_w
  off_path path a = off_w (parts (parse path)) (2 ^ 32 - 1) none a

  unfoldable pub off_path_type : List ℕ → EventType → App → Option App
  unfolding parse parts off_w type_index
  off_path_type path type a = off_w (parts (parse path)) (2 ^ type_index type) none a

  module _ (c : Cmp Key) (sha1 : List ℕ → List ℕ) (print_number : ℕ → List ℕ)
      (keeps : List Call → Bool) where
    -- `wc_datasync_on_value` and the others, for the callback at the address `p`.
    unfoldable pub register : EventType → List ℕ → ℕ → App → App
    unfolding parse parts is_masked is_disconnected on_registry_add watch
    register type path p a =
        let l = a.listening in
        let key = parts (parse path) in
        let known = is_masked by_item l.lr.items key || is_disconnected l.net.state in
        record {
          dispatch = on_registry_add by_path c sha1 print_number keeps type path p known a.dispatch;
          listening = watch lws_write by_item l key;
        }
