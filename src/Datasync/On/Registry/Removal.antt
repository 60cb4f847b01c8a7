-- ===== src/Datasync/On/Registry/Removal.antt =====
-- `on_registry_remove` of lib/datasync/on/on_registry.c: how many callbacks a path has afterwards.
use Prim.Native.Nat.Ordering.{lt, eq, gt}
use webcom_sdk_c.Avl.Operations.{on_eq, list_get-list_remove}
use webcom_sdk_c.Avl.Sorted.{IsSorted, list_get, list_remove}
use webcom_sdk_c.Compare.{Cmp, IsLawful, flip}
use webcom_sdk_c.Datasync.On.Registry.{
  sub_of, is_handle, in_mask, unlink_cbs, unlink_masked, unlink_all, has_no_cb, set_sub,
  on_registry_remove,
}
use webcom_sdk_c.Datasync.On.{OnSub, is_empty}
use webcom_sdk_c.Datasync.{Parts}
use webcom_sdk_c.Prelude.{
  ℕ, ◌+◌, ◌≡◌, ◌≢◌, refl, sym, ap, ◌∙◌, Ordering, Bool, true, false, ◌&&◌, Option, none, some, List,
  [], ◌∷◌, length, if◌then◌else◌, Option-cases, Bool-cases, Ordering-cases, inl, inr, arith,
}

unlink_cbs-length :
    (h : Option ℕ) (ps : List ℕ) → length (unlink_cbs h ps).0 + (unlink_cbs h ps).1 ≡ length ps
unfolding unlink_cbs
unlink_cbs-length h [] = refl
unlink_cbs-length h (p ∷ ps) = elim (Bool-cases (is_handle h p)) [
  | inl e ↦ rw e (let i = unlink_cbs-length h ps in omega arith)
  | inr e ↦ rw e (let i = unlink_cbs-length h ps in omega arith)
]

unlink_masked-length :
    (b : Bool) (h : Option ℕ) (ps : List ℕ)
    → length (unlink_masked b h ps).0 + (unlink_masked b h ps).1 ≡ length ps
unfolding unlink_masked
unlink_masked-length true h ps = unlink_cbs-length h ps
unlink_masked-length false h ps = omega arith

-- How many callbacks a subscription has.
unfoldable pub cbs : OnSub → ℕ
cbs s = length s.added_cbs + length s.removed_cbs + length s.changed_cbs + length s.value_cbs

unlink_all-cbs :
    (type_mask : ℕ) (h : Option ℕ) (s : OnSub)
    → cbs (unlink_all type_mask h s).0 + (unlink_all type_mask h s).1 ≡ cbs s
unfolding unlink_all cbs
unlink_all-cbs type_mask h s =
    let a = unlink_masked-length (in_mask 0 type_mask) h s.added_cbs in
    let r = unlink_masked-length (in_mask 1 type_mask) h s.removed_cbs in
    let g = unlink_masked-length (in_mask 2 type_mask) h s.changed_cbs in
    let v = unlink_masked-length (in_mask 3 type_mask) h s.value_cbs in omega arith

all_empty :
    (v a r g : List ℕ)
    → (is_empty v && is_empty a && is_empty r && is_empty g) ≡ true
    → length a + length r + length g + length v ≡ 0
unfolding is_empty
all_empty [] [] [] [] e = refl
all_empty [] [] [] (x ∷ g) e = absurd (cc)
all_empty [] [] (x ∷ r) g e = absurd (cc)
all_empty [] (x ∷ a) r g e = absurd (cc)
all_empty (x ∷ v) a r g e = absurd (cc)

pub unlink_all-path :
    (type_mask : ℕ) (h : Option ℕ) (s : OnSub) → (unlink_all type_mask h s).0.path ≡ s.path
unfolding unlink_all
unlink_all-path type_mask h s = refl

has_no_cb-cbs : (s : OnSub) → has_no_cb s ≡ true → cbs s ≡ 0
unfolding has_no_cb cbs
has_no_cb-cbs s e = all_empty s.value_cbs s.added_cbs s.removed_cbs s.changed_cbs e

module _ (by_path : Cmp OnSub) where
  -- How many callbacks are registered at a path.
  unfoldable pub cbs_at : Parts → List OnSub → ℕ
  unfolding sub_of list_get cbs
  cbs_at path subs = elim (list_get by_path (sub_of path) subs) [ none ↦ 0 | some s ↦ cbs s ]

  list_get-set_sub :
      ⦃law : IsLawful by_path⦄
      → (q s : OnSub) (subs : List OnSub) {x : OnSub} → list_get by_path s subs ≡ some x
      → list_get by_path q (set_sub by_path s subs)
        ≡ on_eq (by_path.cmp q s) (some s) (list_get by_path q subs)
  unfolding list_get set_sub on_eq
  list_get-set_sub ⦃law⦄ q s [] e = ground arith
  list_get-set_sub ⦃law⦄ q s (y ∷ subs) {x} e = ground (
    arith,
    list_get-set_sub q s subs {x = x},
    law.cmp_congr q s y,
    law.cmp_congr q y s,
    law.cmp_flip s y,
  )

  list_get-eq :
      (k : OnSub) (subs : List OnSub) {x : OnSub}
      → list_get by_path k subs ≡ some x
      → by_path.cmp k x ≡ eq
  unfolding list_get
  list_get-eq k [] e = absurd (cc)
  list_get-eq k (y ∷ subs) {x} e = ground (arith, list_get-eq k subs {x = x})

  list_get_congr :
      ⦃law : IsLawful by_path⦄
      → (a b : OnSub) (subs : List OnSub) → by_path.cmp a b ≡ eq
      → list_get by_path a subs ≡ list_get by_path b subs
  unfolding list_get
  list_get_congr ⦃law⦄ a b [] h = refl
  list_get_congr ⦃law⦄ a b (y ∷ subs) h =
      ground (arith, list_get_congr a b subs, law.cmp_congr a b y)

  -- The registry after the subscription `s` is taken out, or written.
  written : Bool → OnSub → List OnSub → List OnSub
  written b s subs = if b then list_remove by_path s subs else set_sub by_path s subs

  list_get-written :
      ⦃law : IsLawful by_path⦄
      → (b : Bool) (q s : OnSub) (subs : List OnSub) {x : OnSub} → IsSorted by_path subs
      → list_get by_path s subs ≡ some x
      → list_get by_path q (written b s subs)
        ≡ on_eq (by_path.cmp q s) (if b then none else some s) (list_get by_path q subs)
  unfolding written
  list_get-written ⦃law⦄ true q s subs a e = list_get-list_remove by_path q s subs a
  list_get-written ⦃law⦄ false q s subs {x} a e = list_get-set_sub q s subs {x = x} e

  pub count : Option OnSub → ℕ
  count none = 0
  count (some s) = cbs s

  pub cbs_at-count :
      (q : Parts) (subs : List OnSub) → cbs_at q subs ≡ count (list_get by_path (sub_of q) subs)
  unfolding cbs_at count
  cbs_at-count q subs = elim (Option-cases (list_get by_path (sub_of q) subs)) [
    | inl e ↦ rw (e, cbs_at) refl
    | inr (s, e) ↦ rw (e, cbs_at) refl
  ]

  count-kept : (s : OnSub) → count (if has_no_cb s then none else some s) ≡ cbs s
  unfolding count
  count-kept s = elim (Bool-cases (has_no_cb s)) [
    | inl e ↦ rw e (sym (has_no_cb-cbs s e))
    | inr e ↦ rw e refl
  ]

  pick-eq : (o : Ordering) (x y : Option OnSub) → o ≡ eq → on_eq o x y ≡ x
  unfolding on_eq
  pick-eq lt x y h = absurd (cc)
  pick-eq eq x y h = refl
  pick-eq gt x y h = absurd (cc)

  pick-ne : (o : Ordering) (x y : Option OnSub) → o ≢ eq → on_eq o x y ≡ y
  unfolding on_eq
  pick-ne lt x y h = refl
  pick-ne eq x y h = absurd (h refl)
  pick-ne gt x y h = refl

  same_key :
      ⦃law : IsLawful by_path⦄
      → (k s t : OnSub) → by_path.cmp k s ≡ eq
      → by_path.cmp s t ≡ eq
      → by_path.cmp k t ≡ eq
  same_key ⦃law⦄ k s t e f = law.cmp_congr k s t e ∙ f

  same_key_back :
      ⦃law : IsLawful by_path⦄
      → (q k t : OnSub) → by_path.cmp q t ≡ eq
      → by_path.cmp k t ≡ eq
      → by_path.cmp q k ≡ eq
  same_key_back ⦃law⦄ q k t e f = law.cmp_congr q t k e ∙ (law.cmp_flip k t ∙ ap flip f)

  on_registry_remove_parts :
      ⦃law : IsLawful by_path⦄
      → (path : Parts) (type_mask : ℕ) (h : Option ℕ) (subs : List OnSub) → IsSorted by_path subs
      → ((s t : OnSub) → s.path ≡ t.path → by_path.cmp s t ≡ eq)
      → let r = on_registry_remove by_path path type_mask h subs in
        (cbs_at path r.0 + r.1 ≡ cbs_at path subs)
        × ((q : Parts) → by_path.cmp (sub_of q) (sub_of path) ≢ eq → cbs_at q r.0 ≡ cbs_at q subs)
  unfolding on_registry_remove written count
  on_registry_remove_parts ⦃law⦄ path type_mask h subs a same =
      elim (Option-cases (list_get by_path (sub_of path) subs)) [
        | inl e ↦ rw (e, on_registry_remove) (omega arith, λ q n. refl)
        | inr (s, e) ↦
            let u = unlink_all type_mask h s in
            let k =
              same_key (sub_of path) s u.0 (list_get-eq (sub_of path) subs {x = s} e)
                (same s u.0 (sym (unlink_all-path type_mask h s))) in
            let f : list_get by_path u.0 subs ≡ some s =
              sym (list_get_congr (sub_of path) u.0 subs k) ∙ e in
            let at =
              λ (q : Parts). list_get-written (has_no_cb u.0) (sub_of q) u.0 subs {x = s} a f in
            rw (e, on_registry_remove)
              (
                ap (λ x. x + u.1)
                      (cbs_at-count path _
                        ∙ (ap count (at path ∙ pick-eq _ _ _ k) ∙ count-kept u.0))
                    ∙ (unlink_all-cbs type_mask h s ∙ sym (cbs_at-count path subs ∙ ap count e)),
                λ q n.
                    cbs_at-count q _
                    ∙ (ap count (
                          at q
                          ∙ pick-ne _ _ _ (λ z. n (same_key_back (sub_of q) (sub_of path) u.0 z k)))
                        ∙ sym (cbs_at-count q subs)),
              )
      ]

  pub cbs_at_congr :
      ⦃law : IsLawful by_path⦄
      → (q path : Parts) (subs : List OnSub) → by_path.cmp (sub_of q) (sub_of path) ≡ eq
      → cbs_at q subs ≡ cbs_at path subs
  cbs_at_congr ⦃law⦄ q path subs g =
      cbs_at-count q subs
      ∙ (ap count (list_get_congr (sub_of q) (sub_of path) subs g) ∙ sym (cbs_at-count path subs))

  -- `on_registry_remove` returns by how many callbacks its path has fewer afterwards, and other paths
  -- keep theirs, where the subscriptions are in order and compare by their paths.
  pub on_registry_remove-cbs_at :
      ⦃law : IsLawful by_path⦄
      → (path : Parts) (type_mask : ℕ) (h : Option ℕ) (subs : List OnSub) (q : Parts)
      → IsSorted by_path subs
      → ((s t : OnSub) → s.path ≡ t.path → by_path.cmp s t ≡ eq)
      → let r = on_registry_remove by_path path type_mask h subs in
        cbs_at q r.0 + on_eq (by_path.cmp (sub_of q) (sub_of path)) r.1 0 ≡ cbs_at q subs
  unfolding on_eq
  on_registry_remove-cbs_at ⦃law⦄ path type_mask h subs q a same =
      let r = on_registry_remove by_path path type_mask h subs in
      let w = on_registry_remove_parts path type_mask h subs a same in
      elim (Ordering-cases (by_path.cmp (sub_of q) (sub_of path))) [
        | inl g ↦ rw (g, on_eq) (let v = w.1 q (λ z. absurd (cc)) in omega arith)
        | inr (inl g) ↦
            rw (g, on_eq)
              (ap (λ x. x + r.1) (cbs_at_congr q path r.0 g)
                ∙ (w.0 ∙ sym (cbs_at_congr q path subs g)))
        | inr (inr g) ↦ rw (g, on_eq) (let v = w.1 q (λ z. absurd (cc)) in omega arith)
      ]
