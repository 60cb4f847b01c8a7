-- ===== src/Datasync/On/Again.antt =====
-- `on_child_trig` and `on_val_trig` of lib/datasync/on/on_registry.c, run again on a cache that has not
-- changed, call nothing.
use mathlib.Core.Path.{subst}
use webcom_sdk_c.Cache.Deep.{Deep, Ordered}
use webcom_sdk_c.Cache.Digest.{hash_get, hash_eq, hash_copy}
use webcom_sdk_c.Cache.Lookup.{IsSorted}
use webcom_sdk_c.Cache.Store.{get_r}
use webcom_sdk_c.Cache.Text.{treenode_to_json}
use webcom_sdk_c.Cache.{
  Key, Hash, Node, leaf_null, leaf_bool, leaf_number, leaf_string, internal, Children,
}
use webcom_sdk_c.Compare.{Cmp, IsLawful}
use webcom_sdk_c.Datasync.On.{
  Call, Trig, is_empty, child_changes, refresh_hashes, children_trig, childless_trig, on_child_trig,
  on_val_trig, call_all, hash_at,
}
use webcom_sdk_c.Datasync.{Parts}
use webcom_sdk_c.Prelude.{
  ◌≡◌, ◌≢◌, refl, sym, ap, ◌∙◌, ℕ, Bool, true, Option, none, some, List, [], Bool-cases, inl, inr,
}
use webcom_sdk_c.Datasync.On.Quiet.{
  get_r-write_node, child_changes_twice, child_changes-refresh_hashes, child_changes-IsSorted,
  get_r-IsSorted, hash_get_twice, is_empty-true, hash_eq-hash_copy,
}

module _ (c : Cmp Key) (sha1 : List ℕ → List ℕ) where
  module _ (print_number : ℕ → List ℕ) (keeps : List Call → Bool) where
    still :
        (t : Trig) (h : Option Hash) (cs : Children)
        → get_r c t.root t.sub.path ≡ some (internal h cs)
        → (child_changes c sha1 cs t.sub.children_hashes none).1 ≡ []
        → (on_child_trig c sha1 print_number keeps t).calls ≡ t.calls
    unfolding on_child_trig children_trig is_empty
    still t h cs e f = rw (e, on_child_trig) (rw f refl)

    children_trig_then :
        ⦃law : IsLawful c⦄
        → (t : Trig) (h : Option Hash) (cs : Children)
        → get_r c t.root t.sub.path ≡ some (internal h cs)
        → IsSorted c cs
        → let u = children_trig c sha1 print_number keeps h cs t in
          (on_child_trig c sha1 print_number keeps u).calls ≡ u.calls
    unfolding children_trig
    children_trig_then ⦃law⦄ t h cs e a =
        let r = child_changes c sha1 cs t.sub.children_hashes none in
        let p = refresh_hashes c sha1 r.0 [] in
        elim (Bool-cases (is_empty r.1)) [
          | inl f ↦ rw f (
              still _ h r.0
                (get_r-write_node c sha1 t.sub.path (internal h r.0) (internal h cs) t.root e)
                (child_changes_twice c sha1 cs t.sub.children_hashes none (is_empty-true r.1 f)))
          | inr f ↦ rw f (
              still _ h p.0
                (get_r-write_node c sha1 t.sub.path (internal h p.0) (internal h cs) t.root e)
                (child_changes-refresh_hashes c sha1 r.0
                  (child_changes-IsSorted c sha1 cs t.sub.children_hashes none a)))
        ]

    childless_trig_then :
        (t : Trig) (o : Option Node)
        → get_r c t.root t.sub.path ≡ o
        → ((h : Option Hash) (cs : Children) → o ≢ some (internal h cs))
        → let u = childless_trig c sha1 print_number keeps t in
          (on_child_trig c sha1 print_number keeps u).calls ≡ u.calls
    unfolding on_child_trig childless_trig
    childless_trig_then t none e w = rw (e, on_child_trig) refl
    childless_trig_then t (some leaf_null) e w = rw (e, on_child_trig) refl
    childless_trig_then t (some (leaf_bool b)) e w = rw (e, on_child_trig) refl
    childless_trig_then t (some (leaf_number h d)) e w = rw (e, on_child_trig) refl
    childless_trig_then t (some (leaf_string h s)) e w = rw (e, on_child_trig) refl
    childless_trig_then t (some (internal h cs)) e w = absurd (w h cs refl)

    -- A trigger calls nothing.
    abbrev Silent : Trig → Type 0
    Silent u = (on_child_trig c sha1 print_number keeps u).calls ≡ u.calls

    by_value :
        ⦃law : IsLawful c⦄
        → (t : Trig) (o : Option Node) → Deep (Ordered c) t.root
        → get_r c t.root t.sub.path ≡ o
        → (u : Trig) × (on_child_trig c sha1 print_number keeps t ≡ u) × Silent u
    unfolding on_child_trig
    by_value ⦃law⦄ t none d e = (
      childless_trig c sha1 print_number keeps t,
      rw (e, on_child_trig) refl,
      childless_trig_then t _ e (λ h cs w. absurd (cc)),
    )
    by_value ⦃law⦄ t (some leaf_null) d e = (
      childless_trig c sha1 print_number keeps t,
      rw (e, on_child_trig) refl,
      childless_trig_then t _ e (λ h cs w. absurd (cc)),
    )
    by_value ⦃law⦄ t (some (leaf_bool b)) d e = (
      childless_trig c sha1 print_number keeps t,
      rw (e, on_child_trig) refl,
      childless_trig_then t _ e (λ h cs w. absurd (cc)),
    )
    by_value ⦃law⦄ t (some (leaf_number g x)) d e = (
      childless_trig c sha1 print_number keeps t,
      rw (e, on_child_trig) refl,
      childless_trig_then t _ e (λ h cs w. absurd (cc)),
    )
    by_value ⦃law⦄ t (some (leaf_string g s)) d e = (
      childless_trig c sha1 print_number keeps t,
      rw (e, on_child_trig) refl,
      childless_trig_then t _ e (λ h cs w. absurd (cc)),
    )
    by_value ⦃law⦄ t (some (internal g cs)) d e = (
      children_trig c sha1 print_number keeps g cs t,
      rw (e, on_child_trig) refl,
      children_trig_then t g cs e (get_r-IsSorted c sha1 t.root t.sub.path g cs d e),
    )

    -- A second `on_child_trig`, with no change of the cache in between, calls nothing, where all
    -- children in the cache are in order.
    pub on_child_trig_twice :
        ⦃law : IsLawful c⦄
        → (t : Trig) → Deep (Ordered c) t.root
        → let u = on_child_trig c sha1 print_number keeps t in
          (on_child_trig c sha1 print_number keeps u).calls ≡ u.calls
    on_child_trig_twice ⦃law⦄ t d =
        let (u, e, w) = by_value t (get_r c t.root t.sub.path) d refl in subst Silent (sym e) w

    hash_at_twice :
        ⦃law : IsLawful c⦄
        → (path : Parts) (root : Node) (o : Option Node) → get_r c root path ≡ o
        → let r = hash_at c sha1 path o root in (hash_at c sha1 path (get_r c r.0 path) r.0).1 ≡ r.1
    unfolding hash_at
    hash_at_twice ⦃law⦄ path root none e = rw (e, hash_at) refl
    hash_at_twice ⦃law⦄ path root (some n) e =
        rw (get_r-write_node c sha1 path (hash_get sha1 n).0 n root e, hash_at)
          (hash_get_twice sha1 n)

    val_still :
        (t : Trig)
        → hash_eq (hash_at c sha1 t.sub.path (get_r c t.root t.sub.path) t.root).1 (some t.sub.hash)
          ≡ true
        → (on_val_trig c sha1 print_number keeps t).calls ≡ t.calls
    unfolding on_val_trig
    val_still t e =
        rw (e, on_val_trig)
          (elim (Bool-cases (is_empty t.sub.value_cbs)) [ inl f ↦ rw f refl | inr f ↦ rw f refl ])

    abbrev ValSilent : Trig → Type 0
    ValSilent u = (on_val_trig c sha1 print_number keeps u).calls ≡ u.calls

    by_hash :
        ⦃law : IsLawful c⦄
        → (t : Trig) → (u : Trig) × (on_val_trig c sha1 print_number keeps t ≡ u) × ValSilent u
    unfolding on_val_trig
    by_hash ⦃law⦄ t =
        let r = hash_at c sha1 t.sub.path (get_r c t.root t.sub.path) t.root in
        let twice = hash_at_twice t.sub.path t.root (get_r c t.root t.sub.path) refl in
        let text = treenode_to_json print_number (get_r c t.root t.sub.path) in
        elim (Bool-cases (is_empty t.sub.value_cbs)) [
          | inl f ↦ (t, rw f refl, rw f refl)
          | inr f ↦ elim (Bool-cases (hash_eq r.1 (some t.sub.hash))) [
            | inl g ↦
                let u : Trig = record t { root = r.0 } in
                (u, rw (f, g) refl, val_still u (ap (λ h. hash_eq h (some t.sub.hash)) twice ∙ g))
            | inr g ↦
                let u : Trig = record {
                  sub = record t.sub { hash = hash_copy r.1 };
                  root = r.0;
                  calls = call_all keeps t.sub.value_cbs text none none t.calls;
                } in
                (
                  u,
                  rw (f, g) refl,
                  val_still u
                      (ap (λ h. hash_eq h (some (hash_copy r.1))) twice ∙ hash_eq-hash_copy r.1),
                )
          ]
        ]

    -- A second `on_val_trig`, with no change of the cache in between, calls nothing.
    pub on_val_trig_twice :
        ⦃law : IsLawful c⦄
        → (t : Trig)
        → let u = on_val_trig c sha1 print_number keeps t in
          (on_val_trig c sha1 print_number keeps u).calls ≡ u.calls
    on_val_trig_twice ⦃law⦄ t =
        let (u, e, w) = by_hash t in
        subst (λ v. (on_val_trig c sha1 print_number keeps v).calls ≡ v.calls) (sym e) w
