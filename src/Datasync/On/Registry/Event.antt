-- ===== src/Datasync/On/Registry/Event.antt =====
-- lib/datasync/on/on_registry.c: the dispatch of a change of the cache to the subscriptions, and the
-- removal of the callbacks that have cancelled themselves.
use Prim.Native.Nat.Ordering.{gt}
use webcom_sdk_c.Avl.Sorted.{list_get}
use webcom_sdk_c.Cache.{Key, Node}
use webcom_sdk_c.Compare.{Cmp}
use webcom_sdk_c.Datasync.Listen.{starts_with, Item}
use webcom_sdk_c.Datasync.Listen.Effects.{Listening, unwatch_ex}
use webcom_sdk_c.Datasync.On.{OnSub, Call, Calls, trig}
use webcom_sdk_c.Datasync.{Parts}
use webcom_sdk_c.Path.{parse, parts}
use webcom_sdk_c.Prelude.{ℕ, ◌^◌, ◌-◌, Bool, Option, none, some, List, [], ◌∷◌, ◌++◌, if◌then◌else◌}
use webcom_sdk_c.Datasync.On.Registry.{owner, sub_of, set_sub, on_registry_remove, Dispatch}

module _ (by_path : Cmp OnSub) where
  module _ (lws_write : ℕ → Bool) (by_item : Cmp Item) where
    -- `deleted_cb_gc`; `none` where a callback of the list is freed already, and for the failed
    -- assertion of `wc_datasync_unwatch_ex`.
    unfoldable pub deleted_cb_gc : List ℕ → List OnSub → Listening → Option (List OnSub × Listening)
    unfolding owner on_registry_remove unwatch_ex
    deleted_cb_gc [] subs l = some (subs, l)
    deleted_cb_gc (p ∷ ps) subs l = elim (owner p subs) [
      | none ↦ none
      | some s ↦ elim (unwatch_ex lws_write by_item l s.path 1) [
        | none ↦ none
        | some l' ↦
            deleted_cb_gc ps (on_registry_remove by_path s.path (2 ^ 32 - 1) (some p) subs).0 l'
      ]
    ]

    module _ (c : Cmp Key) (sha1 : List ℕ → List ℕ) (print_number : ℕ → List ℕ)
        (keeps : List Call → Bool) where
      -- The two loops of `on_registry_dispatch_on_event_ex`: over the proper prefixes of the path, and
      -- over the subscriptions from the path on while they start with it.
      unfoldable pub trig_prefixes : Parts → Parts → Dispatch → Dispatch
      unfolding sub_of list_get set_sub trig
      trig_prefixes before [] d = d
      trig_prefixes before (k ∷ rest) d =
          let next = elim (list_get by_path (sub_of before) d.subs) as (λ o. Dispatch) [
            | none ↦ d
            | some s ↦
                let t =
                  trig c sha1 print_number keeps
                    (record { sub = s; root = d.root; calls = d.calls }) in
                record { subs = set_sub by_path t.sub d.subs; root = t.root; calls = t.calls }
          ] in
          trig_prefixes (before ++ k ∷ []) rest next

      unfoldable pub trig_run : Parts → List OnSub → Node → Calls → Dispatch
      unfolding starts_with trig
      trig_run path [] root calls = record { subs = []; root = root; calls = calls }
      trig_run path (s ∷ subs) root calls =
          let t = trig c sha1 print_number keeps (record { sub = s; root = root; calls = calls }) in
          let rest = trig_run path subs t.root t.calls in
          if starts_with s.path path
          then record rest { subs = t.sub ∷ rest.subs }
          else record { subs = s ∷ subs; root = root; calls = calls }

      -- `avl_it_start_at`
      unfoldable pub trig_from : Parts → List OnSub → Node → Calls → Dispatch
      unfolding sub_of trig_run
      trig_from path [] root calls = record { subs = []; root = root; calls = calls }
      trig_from path (s ∷ subs) root calls =
          let rest = trig_from path subs root calls in
          elim (by_path.cmp (sub_of path) s) [
            | gt ↦ record rest { subs = s ∷ rest.subs }
            | _ ↦ trig_run path (s ∷ subs) root calls
          ]

      unfoldable pub on_registry_dispatch_on_event_ex :
          Parts → Dispatch → Listening → Option (Dispatch × Listening)
      unfolding trig_prefixes trig_from deleted_cb_gc
      on_registry_dispatch_on_event_ex path d l =
          let u = trig_prefixes [] path d in
          let v = trig_from path u.subs u.root u.calls in
          elim (deleted_cb_gc v.calls.deleted v.subs l) [
            | none ↦ none
            | some (subs, l') ↦
                some (
                  record { subs = subs; root = v.root; calls = record v.calls { deleted = [] } },
                  l',
                )
          ]

      unfoldable pub on_registry_dispatch_on_event :
          List ℕ → Dispatch → Listening → Option (Dispatch × Listening)
      unfolding parse parts on_registry_dispatch_on_event_ex
      on_registry_dispatch_on_event path d l =
          on_registry_dispatch_on_event_ex (parts (parse path)) d l
