-- ===== src/Datasync/On/Registry/Paths.antt =====
-- The removal of callbacks in lib/datasync/on/on_registry.c under the order of paths of lib/datasync/path.c.
use Prim.Native.Nat.Ordering.{eq}
use webcom_sdk_c.Avl.Operations.{on_eq}
use webcom_sdk_c.Avl.Sorted.{list_get, list_remove, IsSorted}
use webcom_sdk_c.Compare.Agree.{order-IsLawful, list_get_agree, list_remove_agree, agree-IsSorted}
use webcom_sdk_c.Compare.Lex.{lex}
use webcom_sdk_c.Compare.{Cmp, IsLawful}
use webcom_sdk_c.Datasync.On.Registry.Removal.{cbs, cbs_at, on_registry_remove-cbs_at}
use webcom_sdk_c.Datasync.On.Registry.{sub_of, unlink_all, has_no_cb, set_sub, on_registry_remove}
use webcom_sdk_c.Datasync.On.{OnSub}
use webcom_sdk_c.Datasync.{Parts}
use webcom_sdk_c.Path.Order.Narrow.{IsNear, windowed, parts-IsOrder, cmp_parts-windowed}
use webcom_sdk_c.Path.Order.{key_cmp, cmp_parts}
use webcom_sdk_c.Prelude.{
  ℕ, ◌+◌, ◌^◌, ◌≤◌, ◌≡◌, refl, sym, ap, ap₂, ◌∙◌, Bool, true, false, Option, none, some, List, [],
  ◌∷◌, All, u64_mod, arith, if◌then◌else◌, Ordering-cases, Option-cases, inl, inr, length,
}

-- The order of subscriptions of the program: `wc_datasync_path_cmp` on their paths.
abbrev pub by_path_cmp : (List ℕ → Option ℕ) → Cmp OnSub
by_path_cmp scan = record {
  cmp = λ s t. cmp_parts scan (length s.path) (length t.path) s.path t.path;
  copy = λ s. s;
}

-- The numbers that the parts of a subscription's path are read as are near one another.
abbrev pub HasNearPath : (List ℕ → Option ℕ) → ℕ → OnSub → Type 0
HasNearPath scan lo s = All (IsNear scan lo) s.path

unlink_all-path : (m : ℕ) (h : Option ℕ) (s : OnSub) → (unlink_all m h s).0.path ≡ s.path
unfolding unlink_all
unlink_all-path m h s = refl

module _ (c d : Cmp OnSub) (P : List (List ℕ) → Type 0)
    (agree : (a b : OnSub) → P a.path → P b.path → c.cmp a b ≡ d.cmp a b) where
  set_sub_agree :
      (s : OnSub) (xs : List OnSub)
      → P s.path
      → All (λ x. P x.path) xs
      → set_sub c s xs ≡ set_sub d s xs
  unfolding set_sub
  set_sub_agree s [] p a = refl
  set_sub_agree s (x ∷ xs) p a = ground (arith, agree s x p a.0, set_sub_agree s xs p a.1)

  set_sub-All :
      (s : OnSub) (xs : List OnSub)
      → P s.path
      → All (λ x. P x.path) xs
      → All (λ x. P x.path) (set_sub c s xs)
  unfolding set_sub
  set_sub-All s [] p a = tt
  set_sub-All s (x ∷ xs) p a = elim (Ordering-cases (c.cmp s x)) [
    | inl g ↦ rw (g, set_sub) (a.0, set_sub-All s xs p a.1)
    | inr (inl g) ↦ rw (g, set_sub) (p, a.1)
    | inr (inr g) ↦ rw (g, set_sub) (a.0, set_sub-All s xs p a.1)
  ]

  list_remove-All :
      (s : OnSub) (xs : List OnSub)
      → All (λ x. P x.path) xs
      → All (λ x. P x.path) (list_remove c s xs)
  unfolding list_remove
  list_remove-All s [] a = tt
  list_remove-All s (x ∷ xs) a = elim (Ordering-cases (c.cmp s x)) [
    | inl g ↦ rw (g, list_remove) (a.0, list_remove-All s xs a.1)
    | inr (inl g) ↦ rw (g, list_remove) a.1
    | inr (inr g) ↦ rw (g, list_remove) (a.0, list_remove-All s xs a.1)
  ]

  list_get-All :
      (k s : OnSub) (xs : List OnSub) → All (λ x. P x.path) xs → list_get c k xs ≡ some s → P s.path
  unfolding list_get
  list_get-All k s [] a e = absurd cc
  list_get-All k s (x ∷ xs) a e = elim (Ordering-cases (c.cmp k x)) [
    | inl g ↦ list_get-All k s xs a.1 (rw (g, list_get) at e)
    | inr (inl g) ↦
        let f : some x ≡ some s = rw (g, list_get) at e in let m : x ≡ s = cc in rw (← m) a.0
    | inr (inr g) ↦ list_get-All k s xs a.1 (rw (g, list_get) at e)
  ]

  -- The removal is the same, and the paths that stay are paths of before.
  SameRemoval : Parts → ℕ → Option ℕ → List OnSub → Type 0
  SameRemoval path m h subs =
      (on_registry_remove c path m h subs ≡ on_registry_remove d path m h subs)
      × All (λ x. P x.path) (on_registry_remove c path m h subs).0

  written-SameRemoval :
      (s : OnSub) (b : Bool) (subs : List OnSub)
      → P s.path
      → All (λ x. P x.path) subs
      → ((if b then list_remove c s subs else set_sub c s subs)
          ≡ (if b then list_remove d s subs else set_sub d s subs))
        × All (λ x. P x.path) (if b then list_remove c s subs else set_sub c s subs)
  written-SameRemoval s true subs p a =
      (list_remove_agree c d (λ x. P x.path) agree s subs p a, list_remove-All s subs a)
  written-SameRemoval s false subs p a = (set_sub_agree s subs p a, set_sub-All s subs p a)

  found-SameRemoval :
      (path : Parts) (m : ℕ) (h : Option ℕ) (subs : List OnSub)
      → P path
      → All (λ x. P x.path) subs
      → SameRemoval path m h subs
  unfolding SameRemoval on_registry_remove sub_of
  found-SameRemoval path m h subs p a =
      let g = list_get_agree c d (λ x. P x.path) agree (sub_of path) subs p a in
      elim (Option-cases (list_get c (sub_of path) subs)) [
        | inl e ↦ rw (e, on_registry_remove, sym g ∙ e) (refl, a)
        | inr (s, e) ↦
            let s' = (unlink_all m h s).0 in
            let (f, k) =
              written-SameRemoval s' (has_no_cb s') subs
                (rw (unlink_all-path m h s) (list_get-All (sub_of path) s subs a e)) a in
            rw (e, on_registry_remove, sym g ∙ e) (ap (λ ss. (ss, (unlink_all m h s).1)) f, k)
      ]

  cbs_at_agree :
      (q : Parts) (subs : List OnSub)
      → P q
      → All (λ x. P x.path) subs
      → cbs_at c q subs ≡ cbs_at d q subs
  unfolding cbs_at sub_of
  cbs_at_agree q subs p a =
      ap (λ o. elim o [ none ↦ 0 | some s ↦ cbs s ])
        (list_get_agree c d (λ x. P x.path) agree (sub_of q) subs p a)

module _ (scan : List ℕ → Option ℕ) (lo : ℕ) (top : lo + 2 ^ 31 ≤ u64_mod) where
  abbrev by_window : Cmp OnSub
  by_window = record {
    cmp = λ s t. lex (key_cmp (windowed scan lo top)) s.path t.path;
    copy = λ s. s;
  }

  by_window-IsLawful : IsLawful by_window
  by_window-IsLawful =
      let o = parts-IsOrder scan lo top in
      order-IsLawful (λ s t. lex (key_cmp (windowed scan lo top)) s.path t.path)
        (record {
          cmp-flip = λ s t. o.cmp-flip s.path t.path;
          cmp_congr = λ s t u h. o.cmp_congr s.path t.path u.path h;
          lt_trans = λ s t u h k. o.lt_trans s.path t.path u.path h k;
        })

  by_window_same : (s t : OnSub) → s.path ≡ t.path → by_window.cmp s t ≡ eq
  by_window_same s t e =
      ap (λ p. lex (key_cmp (windowed scan lo top)) s.path p) (sym e)
      ∙ by_window-IsLawful.cmp_refl s

  -- Where the numbers that the parts of the paths are read as stand in one window of 2^31, and the
  -- subscriptions are in the order of paths of the program, on_registry_remove returns by how many
  -- callbacks its path has fewer afterwards; the other paths keep theirs.
  pub on_registry_remove-by_path_cmp :
      (path : Parts) (type_mask : ℕ) (h : Option ℕ) (subs : List OnSub) (q : Parts)
      → All (IsNear scan lo) path
      → All (IsNear scan lo) q
      → All (HasNearPath scan lo) subs
      → IsSorted (by_path_cmp scan) subs
      → let r = on_registry_remove (by_path_cmp scan) path type_mask h subs in
        cbs_at (by_path_cmp scan) q r.0
          + on_eq ((by_path_cmp scan).cmp (sub_of q) (sub_of path)) r.1 0
        ≡ cbs_at (by_path_cmp scan) q subs
  unfolding SameRemoval sub_of
  on_registry_remove-by_path_cmp path type_mask h subs q p n a s =
      let c = by_path_cmp scan in
      let d = by_window in
      let P = All (IsNear scan lo) in
      let agree : (x y : OnSub) → P x.path → P y.path → c.cmp x y ≡ d.cmp x y =
        λ x y u v. cmp_parts-windowed scan lo top x.path y.path u v in
      let (e, k) = found-SameRemoval c d P agree path type_mask h subs p a in
      let w =
        on_registry_remove-cbs_at d ⦃law = by_window-IsLawful⦄ path type_mask h subs q
          (agree-IsSorted c d (HasNearPath scan lo) agree subs a s) by_window_same in
      ap₂ (λ x y. x + y) (cbs_at_agree c d P agree q _ n k ∙ ap (λ r. cbs_at d q r.0) e)
        (ap₂ (λ o r. on_eq o r 0) (agree (sub_of q) (sub_of path) n p) (ap (λ r. r.1) e))
      ∙ (w ∙ sym (cbs_at_agree c d P agree q subs n a))
