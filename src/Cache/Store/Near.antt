-- ===== src/Cache/Store/Near.antt =====
-- What is read after a write of lib/datasync/cache/treenode_cache.c where the numbers of the keys are near one
-- another.
use mathlib.Core.Path.{subst}
use webcom_sdk_c.Cache.Deep.{
  Deep, DeepAll, Ordered, insert-DeepAll, remove-DeepAll, replace-DeepAll, get-Deep,
}
use webcom_sdk_c.Cache.Store.Keys.{
  KeysIn, JsonKeys, Good, GoodIf, Same, insert_agree, remove_agree, replace_agree, insert-AllKeys,
  remove-AllKeys, replace-AllKeys, set_r-Same, set_items-Same, set_members-Same,
}
use webcom_sdk_c.Cache.Store.Stored.{present, split_last-append, get_r-data_cache_set_ex}
use webcom_sdk_c.Cache.Store.{
  children_of, kept_hash, get_r, mkpath_w, write_at, write_below, data_cache_set_ex,
}
use webcom_sdk_c.Cache.Value.{
  Json, json_null, json_bool, json_double, json_int, json_string, json_array, json_object, set_r,
  set_root,
}
use webcom_sdk_c.Cache.{
  Key, Hash, Node, leaf_null, leaf_bool, leaf_number, leaf_string, internal, Children, end, child,
  new_internal, is_internal, get, insert, remove, replace,
}
use webcom_sdk_c.Compare.{Cmp, IsLawful}
use webcom_sdk_c.Datasync.On.Diff.Keys.{keys, get_agree, agree-IsSorted}
use webcom_sdk_c.Compare.Agree.{order-IsLawful}
use webcom_sdk_c.Path.Order.Narrow.{IsNear, windowed, windowed-IsOrder, key_cmp-windowed}
use webcom_sdk_c.Path.Order.{key_cmp}
use webcom_sdk_c.Datasync.{Parts}
use webcom_sdk_c.Prelude.{
  ℕ, ◌+◌, ◌^◌, ◌≤◌, u64_mod, ◌≡◌, refl, sym, ap, ap₂, ◌∙◌, Bool, true, false, Option, none, some,
  List, [], ◌∷◌, ◌++◌, All, Option-cases, Bool-cases, inl, inr,
}

module _ (c d : Cmp Key) (P : Key → Type 0)
    (agree : (a b : Key) → P a → P b → c.cmp a b ≡ d.cmp a b) where
  -- The same node, whose keys are good at every depth.
  record SameNode (n n' : Node) : Type 0 where
    same : n ≡ n'
    good : Deep (KeysIn P) n

  children-Good : (n : Node) → Deep (KeysIn P) n → Good c d P agree (children_of n)
  unfolding children_of Deep Good
  children-Good leaf_null g = (tt, tt)
  children-Good (leaf_bool b) g = (tt, tt)
  children-Good (leaf_number h x) g = (tt, tt)
  children-Good (leaf_string h s) g = (tt, tt)
  children-Good (internal h cs) g = g

  mkpath_w-SameNode :
      (reset empty : Bool) (ks : Parts) (n : Node)
      → All P ks
      → Deep (KeysIn P) n
      → SameNode (mkpath_w c reset empty ks n) (mkpath_w d reset empty ks n)
  unfolding mkpath_w Deep Good
  mkpath_w-SameNode reset true [] n a g = record { same = refl; good = (tt, tt) }
  mkpath_w-SameNode reset false [] n a g = record { same = refl; good = children-Good n g }
  mkpath_w-SameNode reset empty (k ∷ ks) n a g =
      let cs = children_of n in
      let q = children-Good n g in
      let e = get_agree c d P agree k cs a.0 q.0 in
      let h = kept_hash reset n in
      let fresh = mkpath_w-SameNode reset empty ks new_internal a.1 (tt, tt) in
      elim (Option-cases (get c k cs)) [
        | inl f ↦
            rw (f, mkpath_w, sym e ∙ f)
              (record {
                same = ap (internal h) (
                    insert_agree c d P agree k _ cs a.0 q.0 ∙ ap (λ m. insert d k m cs) fresh.same);
                good = (
                  insert-AllKeys c d P agree k _ cs a.0 q.0,
                  insert-DeepAll c (KeysIn P) k _ cs fresh.good q.1,
                );
              })
        | inr (m, f) ↦
            let old = mkpath_w-SameNode reset empty ks m a.1 (get-Deep c (KeysIn P) k cs q.1 f) in
            elim (Bool-cases (is_internal m)) [
              | inl i ↦
                  rw (f, mkpath_w, sym e ∙ f, i)
                    (record {
                      same = ap (internal h) (
                          replace_agree c d P agree k _ cs a.0 q.0
                          ∙ ap (λ x. replace d k x cs) old.same);
                      good = (
                        replace-AllKeys c d P agree k _ cs q.0,
                        replace-DeepAll c (KeysIn P) k _ cs old.good q.1,
                      );
                    })
              | inr i ↦
                  let r = remove-AllKeys c d P agree k cs q.0 in
                  rw (f, mkpath_w, sym e ∙ f, i)
                    (record {
                      same = ap (internal h) (
                          insert_agree c d P agree k _ (remove c k cs) a.0 r
                          ∙ ap₂ (λ x y. insert d k x y) fresh.same
                              (remove_agree c d P agree k cs a.0 q.0));
                      good = (
                        insert-AllKeys c d P agree k _ (remove c k cs) a.0 r,
                        insert-DeepAll c (KeysIn P) k _ (remove c k cs) fresh.good
                            (remove-DeepAll c (KeysIn P) k cs q.1),
                      );
                    })
            ]
      ]

  -- The same result, whose keys are good.
  GoodNode : Option Node → Type 0
  GoodNode none = Unit
  GoodNode (some n) = Deep (KeysIn P) n

  record SameWrite (o o' : Option Node) : Type 0 where
    same : o ≡ o'
    good : GoodNode o

  made-SameWrite :
      (h : Option Hash) (o o' : Option Children)
      → Same c d P agree o o'
      → SameWrite
          (elim o [ none ↦ none | some cs ↦ some (internal h cs) ])
          (elim o' [ none ↦ none | some cs ↦ some (internal h cs) ])
  unfolding GoodNode GoodIf Good Deep
  made-SameWrite h none o' s = record {
    same = ap (λ x. elim x [ none ↦ none | some cs ↦ some (internal h cs) ]) s.same;
    good = tt;
  }
  made-SameWrite h (some cs) o' s = record {
    same = ap (λ x. elim x [ none ↦ none | some t ↦ some (internal h t) ]) s.same;
    good = s.good;
  }

  replaced-SameWrite :
      (h : Option Hash) (k : Key) (cs : Children) (o o' : Option Node)
      → P k
      → Good c d P agree cs
      → SameWrite o o'
      → SameWrite
          (elim o [ none ↦ none | some m ↦ some (internal h (replace c k m cs)) ])
          (elim o' [ none ↦ none | some m ↦ some (internal h (replace d k m cs)) ])
  unfolding GoodNode Good Deep
  replaced-SameWrite h k cs none o' p g s = record {
    same = ap (λ x. elim x [ none ↦ none | some m ↦ some (internal h (replace d k m cs)) ]) s.same;
    good = tt;
  }
  replaced-SameWrite h k cs (some m) o' p g s = record {
    same =
        ap (λ x. some (internal h x)) (replace_agree c d P agree k m cs p g.0)
        ∙ ap (λ x. elim x [ none ↦ none | some t ↦ some (internal h (replace d k t cs)) ]) s.same;
    good = (replace-AllKeys c d P agree k m cs g.0, replace-DeepAll c (KeysIn P) k m cs s.good g.1);
  }

  write_at-SameWrite :
      (f f' : Children → Option Children) (ks : Parts) (n : Node)
      → ((cs : Children) → Good c d P agree cs → Same c d P agree (f cs) (f' cs))
      → All P ks
      → Deep (KeysIn P) n
      → SameWrite (write_at c f ks n) (write_at d f' ks n)
  unfolding write_at GoodNode Good Deep
  write_at-SameWrite f f' [] leaf_null s a g = record { same = refl; good = tt }
  write_at-SameWrite f f' [] (leaf_bool b) s a g = record { same = refl; good = tt }
  write_at-SameWrite f f' [] (leaf_number h x) s a g = record { same = refl; good = tt }
  write_at-SameWrite f f' [] (leaf_string h x) s a g = record { same = refl; good = tt }
  write_at-SameWrite f f' [] (internal h cs) s a g = made-SameWrite h (f cs) (f' cs) (s cs g)
  write_at-SameWrite f f' (k ∷ ks) leaf_null s a g = record { same = refl; good = tt }
  write_at-SameWrite f f' (k ∷ ks) (leaf_bool b) s a g = record { same = refl; good = tt }
  write_at-SameWrite f f' (k ∷ ks) (leaf_number h x) s a g = record { same = refl; good = tt }
  write_at-SameWrite f f' (k ∷ ks) (leaf_string h x) s a g = record { same = refl; good = tt }
  write_at-SameWrite f f' (k ∷ ks) (internal h cs) s a g =
      let e = get_agree c d P agree k cs a.0 g.0 in
      elim (Option-cases (get c k cs)) [
        | inl i ↦ rw (i, write_at, sym e ∙ i) (record { same = refl; good = tt })
        | inr (m, i) ↦
            rw (i, write_at, sym e ∙ i)
              (replaced-SameWrite h k cs _ _ a.0 g
                (write_at-SameWrite f f' ks m s a.1 (get-Deep c (KeysIn P) k cs g.1 i)))
      ]

  get_r_agree : (n : Node) (ks : Parts) → Deep (KeysIn P) n → All P ks → get_r c n ks ≡ get_r d n ks
  unfolding get_r Deep
  get_r_agree n [] g a = refl
  get_r_agree leaf_null (k ∷ ks) g a = refl
  get_r_agree (leaf_bool b) (k ∷ ks) g a = refl
  get_r_agree (leaf_number h x) (k ∷ ks) g a = refl
  get_r_agree (leaf_string h x) (k ∷ ks) g a = refl
  get_r_agree (internal h cs) (k ∷ ks) g a =
      let e = get_agree c d P agree k cs a.0 g.0 in
      elim (Option-cases (get c k cs)) [
        | inl i ↦ rw (i, get_r, sym e ∙ i) refl
        | inr (m, i) ↦
            rw (i, get_r, sym e ∙ i) (get_r_agree m ks (get-Deep c (KeysIn P) k cs g.1 i) a.1)
      ]

  mutual
    unfolding Deep DeepAll

    agree-Ordered : (n : Node) → Deep (KeysIn P) n → Deep (Ordered c) n → Deep (Ordered d) n
    agree-Ordered leaf_null g o = tt
    agree-Ordered (leaf_bool b) g o = tt
    agree-Ordered (leaf_number h x) g o = tt
    agree-Ordered (leaf_string h x) g o = tt
    agree-Ordered (internal h cs) g o =
        (agree-IsSorted c d P agree cs g.0 o.0, agree-OrderedAll cs g.1 o.1)

    agree-OrderedAll :
        (cs : Children) → DeepAll (KeysIn P) cs → DeepAll (Ordered c) cs → DeepAll (Ordered d) cs
    agree-OrderedAll end g o = tt
    agree-OrderedAll (child k n cs) g o = (agree-Ordered n g.0 o.0, agree-OrderedAll cs g.1 o.1)

  module _ (double_of_int : ℕ → ℕ) where
    set_root_agree :
        (j : Json) → JsonKeys P j → set_root c double_of_int j ≡ set_root d double_of_int j
    unfolding set_root JsonKeys Good DeepAll
    set_root_agree json_null q = refl
    set_root_agree (json_bool b) q = refl
    set_root_agree (json_double x) q = refl
    set_root_agree (json_int i) q = refl
    set_root_agree (json_string s) q = refl
    set_root_agree (json_array xs) q =
        ap (λ x. elim x [ none ↦ none | some t ↦ some (internal none t) ])
          (set_items-Same c d P agree double_of_int xs 0 end q (tt, tt)).same
    set_root_agree (json_object ms) q =
        ap (λ x. elim x [ none ↦ none | some t ↦ some (internal none t) ])
          (set_members-Same c d P agree double_of_int ms end q (tt, tt)).same

    set_ex-SameWrite :
        (dir : Parts) (key : Key) (j : Json) (root : Node)
        → All P dir
        → P key
        → JsonKeys P j
        → Deep (KeysIn P) root
        → SameWrite
            (data_cache_set_ex c double_of_int (dir ++ key ∷ []) j root)
            (data_cache_set_ex d double_of_int (dir ++ key ∷ []) j root)
    unfolding data_cache_set_ex write_below Good GoodIf
    set_ex-SameWrite dir key j root a p q g =
        let mk = mkpath_w-SameNode true false dir root a g in
        let f = λ (cs : Children). set_r c double_of_int j key (remove c key cs) in
        let f' = λ (cs : Children). set_r d double_of_int j key (remove d key cs) in
        let w =
          write_at-SameWrite f f' dir (mkpath_w c true false dir root)
            (λ cs h.
              let r : Good c d P agree (remove c key cs) =
                (remove-AllKeys c d P agree key cs h.0, remove-DeepAll c (KeysIn P) key cs h.1) in
              let s = set_r-Same c d P agree double_of_int j key (remove c key cs) p q r in
              record {
                same =
                    s.same
                    ∙ ap (set_r d double_of_int j key) (remove_agree c d P agree key cs p h.0);
                good = s.good;
              })
            a mk.good in
        rw (split_last-append dir key, data_cache_set_ex)
          (record { same = w.same ∙ ap (write_at d f' dir) mk.same; good = w.good })

snoc-All : (P : Key → Type 0) (ks : Parts) (k : Key) → All P ks → P k → All P (ks ++ k ∷ [])
snoc-All P [] k a p = (p, tt)
snoc-All P (x ∷ ks) k a p = (a.0, snoc-All P ks k a.1 p)

-- Where the numbers that the keys of the cache, of the path and of the value are read as stand in
-- one window of 2^31, and all children are in the order of keys of the program, setting a value
-- that a root can be made of succeeds, and the value is then read at the path; a null is read as
-- nothing.
pub get_r-data_cache_set_ex-keys :
    (scan : List ℕ → Option ℕ) (lo : ℕ) (double_of_int : ℕ → ℕ) (dir : Parts) (key : Key) (j : Json)
    (root v : Node)
    → lo + 2 ^ 31 ≤ u64_mod
    → All (IsNear scan lo) dir
    → IsNear scan lo key
    → JsonKeys (IsNear scan lo) j
    → Deep (KeysIn (IsNear scan lo)) root
    → Deep (Ordered (keys scan)) root
    → set_root (keys scan) double_of_int j ≡ some v
    → (root' : Node) × (data_cache_set_ex (keys scan) double_of_int (dir ++ key ∷ []) j root
        ≡ some root')
      × (get_r (keys scan) root' (dir ++ key ∷ []) ≡ present v)
unfolding GoodNode
get_r-data_cache_set_ex-keys scan lo double_of_int dir key j root v top a p q g o e =
    let c = keys scan in
    let d = keys (windowed scan lo top) in
    let P = IsNear scan lo in
    let agree = key_cmp-windowed scan lo top in
    let law : IsLawful d =
      order-IsLawful (key_cmp (windowed scan lo top)) (windowed-IsOrder scan lo top) in
    let w = set_ex-SameWrite c d P agree double_of_int dir key j root a p q g in
    let (root', h, r) =
      get_r-data_cache_set_ex d ⦃law = law⦄ double_of_int dir key j root v
        (agree-Ordered c d P agree root g o)
        (sym (set_root_agree c d P agree double_of_int j q) ∙ e) in
    let k : Deep (KeysIn P) root' = subst (GoodNode c d P agree) (w.same ∙ h) w.good in
    (
      root',
      w.same ∙ h,
      get_r_agree c d P agree root' (dir ++ key ∷ []) k (snoc-All P dir key a p) ∙ r,
    )
