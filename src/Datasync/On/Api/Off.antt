-- ===== src/Datasync/On/Api/Off.antt =====
-- `wc_datasync_off_path` of lib/datasync/on/on_api.c: all callbacks of the path are cancelled, and as many
-- references are dropped.
use Prim.Native.Nat.Ordering.{eq}
use mathlib.Core.Path.{subst}
use webcom_sdk_c.Avl.Operations.{on_eq}
use webcom_sdk_c.Avl.Sorted.{IsSorted, list_get}
use webcom_sdk_c.Compare.{Cmp, IsLawful}
use webcom_sdk_c.Datasync.Listen.{Item, Registry, get, unref_ex}
use webcom_sdk_c.Datasync.Listen.Effects.{Listening, unwatch_ex}
use webcom_sdk_c.Datasync.On.Api.{App, off_w, off_path}
use webcom_sdk_c.Datasync.On.Registry.Removal.{cbs, cbs_at, on_registry_remove-cbs_at, cbs_at_congr}
use webcom_sdk_c.Datasync.On.Registry.{
  sub_of, unlink_cbs, unlink_masked, unlink_all, on_registry_remove,
}
use webcom_sdk_c.Datasync.On.{OnSub}
use webcom_sdk_c.Datasync.{Parts}
use webcom_sdk_c.Path.{parse, parts}
use webcom_sdk_c.Prelude.{
  ℕ, ◌-◌, ◌^◌, ◌≤◌, ◌≡◌, refl, sym, Bool, false, none, some, List, [], ◌∷◌, length, ltb,
  Option-cases, Bool-cases, Ordering-cases, inl, inr, arith,
}

unlink_cbs-none : (ps : List ℕ) → (unlink_cbs none ps).1 ≡ length ps
unfolding unlink_cbs
unlink_cbs-none [] = refl
unlink_cbs-none (p ∷ ps) = let i = unlink_cbs-none ps in omega arith

unlink_all-none : (s : OnSub) → (unlink_all (2 ^ 32 - 1) none s).1 ≡ cbs s
unfolding unlink_all unlink_masked cbs
unlink_all-none s =
    rw
      (
        unlink_cbs-none s.added_cbs,
        unlink_cbs-none s.removed_cbs,
        unlink_cbs-none s.changed_cbs,
        unlink_cbs-none s.value_cbs,
      )
      refl

-- The references that a path has.
unfoldable pub refs_at : Cmp Item → Parts → Listening → ℕ
unfolding get
refs_at by_item path l = elim (get by_item l.lr.items path) [ none ↦ 0 | some li ↦ li.ref ]

unref_ex-some :
    (by_item : Cmp Item) (l : Listening) (path : Parts) (n : ℕ)
    → n ≤ refs_at by_item path l
    → (r : Registry × Bool) × (unref_ex by_item l.lr path n ≡ some r)
unfolding unref_ex refs_at
unref_ex-some by_item l path n h = elim (Option-cases (unref_ex by_item l.lr path n)) [
  | inr (r, e) ↦ (r, e)
  | inl z ↦ elim (Option-cases (get by_item l.lr.items path)) [
    | inl e ↦ absurd (cc (rw (e, unref_ex) at z))
    | inr (li, e) ↦
        let enough : n ≤ li.ref = rw (e, refs_at) at h in
        let f : ltb li.ref n ≡ false = ground arith in
        let y = rw f at (rw (e, unref_ex) at z) in
        elim (Bool-cases (ltb 0 (li.ref - n))) [
          | inl g ↦ absurd (cc (rw g at y))
          | inr g ↦ absurd (cc (rw g at y))
        ]
  ]
]

unwatch_ex-some :
    (lws_write : ℕ → Bool) (by_item : Cmp Item) (l : Listening) (path : Parts) (n : ℕ)
    → n ≤ refs_at by_item path l
    → (l' : Listening) × (unwatch_ex lws_write by_item l path n ≡ some l')
unfolding unwatch_ex
unwatch_ex-some lws_write by_item l path n h =
    elim (Option-cases (unwatch_ex lws_write by_item l path n)) [
      | inr (l', e) ↦ (l', e)
      | inl z ↦
          let (r, e) = unref_ex-some by_item l path n h in absurd (cc (rw (e, unwatch_ex) at z))
    ]

module _ (by_path : Cmp OnSub) where
  on_registry_remove-none :
      (path : Parts) (subs : List OnSub)
      → (on_registry_remove by_path path (2 ^ 32 - 1) none subs).1 ≡ cbs_at by_path path subs
  unfolding on_registry_remove cbs_at
  on_registry_remove-none path subs = elim (Option-cases (list_get by_path (sub_of path) subs)) [
    | inl e ↦ rw (e, on_registry_remove, cbs_at) refl
    | inr (s, e) ↦ rw (e, on_registry_remove, cbs_at) (unlink_all-none s)
  ]

  cbs_at-off :
      ⦃law : IsLawful by_path⦄
      → (path q : Parts) (subs : List OnSub) → IsSorted by_path subs
      → ((s t : OnSub) → s.path ≡ t.path → by_path.cmp s t ≡ eq)
      → cbs_at by_path q (on_registry_remove by_path path (2 ^ 32 - 1) none subs).0
        ≡ on_eq (by_path.cmp (sub_of q) (sub_of path)) 0 (cbs_at by_path q subs)
  unfolding on_eq
  cbs_at-off ⦃law⦄ path q subs a same =
      let w = on_registry_remove-cbs_at by_path path (2 ^ 32 - 1) none subs q a same in
      let r = on_registry_remove-none path subs in
      elim (Ordering-cases (by_path.cmp (sub_of q) (sub_of path))) [
        | inl g ↦ rw (g, on_eq) (let v = rw (g, on_eq) at w in omega arith)
        | inr (inl g) ↦
            rw (g, on_eq)
              (let v = rw (g, on_eq) at w in
                let u = cbs_at_congr by_path q path subs g in omega arith)
        | inr (inr g) ↦ rw (g, on_eq) (let v = rw (g, on_eq) at w in omega arith)
      ]

  -- Where a path has at least as many references as callbacks, and the subscriptions are in order and
  -- compare by their paths, `wc_datasync_off_path` succeeds: the path then has no callback, and the
  -- other paths keep theirs.
  pub off_path-cbs_at :
      ⦃law : IsLawful by_path⦄
      → (lws_write : ℕ → Bool) (by_item : Cmp Item) (path : List ℕ) (q : Parts) (a : App)
      → IsSorted by_path a.dispatch.subs
      → ((s t : OnSub) → s.path ≡ t.path → by_path.cmp s t ≡ eq)
      → cbs_at by_path (parts (parse path)) a.dispatch.subs
        ≤ refs_at by_item (parts (parse path)) a.listening
      → (a' : App) × (off_path lws_write by_item by_path path a ≡ some a')
        × (cbs_at by_path q a'.dispatch.subs
            ≡ on_eq
                (by_path.cmp (sub_of q) (sub_of (parts (parse path))))
                0
                (cbs_at by_path q a.dispatch.subs))
  unfolding off_path off_w
  off_path-cbs_at ⦃law⦄ lws_write by_item path q a sorted same enough =
      let key = parts (parse path) in
      let r = on_registry_remove by_path key (2 ^ 32 - 1) none a.dispatch.subs in
      let n : r.1 ≤ refs_at by_item key a.listening =
        subst (λ x. x ≤ refs_at by_item key a.listening)
          (sym (on_registry_remove-none key a.dispatch.subs)) enough in
      let (l, e) = unwatch_ex-some lws_write by_item a.listening key r.1 n in
      (
        record { dispatch = record a.dispatch { subs = r.0 }; listening = l },
        rw (e, off_path, off_w) refl,
        cbs_at-off key q a.dispatch.subs sorted same,
      )
