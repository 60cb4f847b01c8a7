-- ===== src/Cache/Store/Keys.antt =====
-- The writes of lib/datasync/cache/treenode_cache.c under the order of keys of lib/datasync/path.c.
use mathlib.Core.Path.{subst}
use webcom_sdk_c.Cache.Deep.{Deep, DeepAll, insert-DeepAll, remove-DeepAll}
use webcom_sdk_c.Cache.Value.{
  Json, json_null, json_bool, json_double, json_int, json_string, json_array, json_object, Items,
  no_items, item, Members, no_members, member, decimal, set_r, set_items, set_members,
}
use webcom_sdk_c.Cache.{
  Key, Node, leaf_bool, leaf_number, leaf_string, internal, Children, end, child, get, insert,
  remove, replace,
}
use webcom_sdk_c.Compare.{Cmp}
use webcom_sdk_c.Datasync.On.Diff.Keys.{AllKeys, get_agree}
use webcom_sdk_c.Prelude.{
  ℕ, ◌+◌, ◌≡◌, refl, ap, ◌∙◌, Option, none, some, arith, Ordering-cases, inl, inr,
}

-- The keys of the children of one node.
abbrev pub KeysIn : (Key → Type 0) → Node → Type 0
KeysIn P (internal h cs) = AllKeys P cs
KeysIn P _ = Unit

-- The keys that a value makes.
unfoldable mutual
  pub JsonKeys : (Key → Type 0) → Json → Type 0
  JsonKeys P (json_array xs) = ItemsKeys P xs 0
  JsonKeys P (json_object ms) = MembersKeys P ms
  JsonKeys P _ = Unit

  pub ItemsKeys : (Key → Type 0) → Items → ℕ → Type 0
  ItemsKeys P no_items i = Unit
  ItemsKeys P (item x xs) i = P (decimal i) × JsonKeys P x × ItemsKeys P xs (i + 1)

  pub MembersKeys : (Key → Type 0) → Members → Type 0
  MembersKeys P no_members = Unit
  MembersKeys P (member k x ms) = P k × JsonKeys P x × MembersKeys P ms

module _ (c d : Cmp Key) (P : Key → Type 0)
    (agree : (a b : Key) → P a → P b → c.cmp a b ≡ d.cmp a b) where
  unfoldable pub Good : Children → Type 0
  Good cs = AllKeys P cs × DeepAll (KeysIn P) cs

  unfoldable pub GoodIf : Option Children → Type 0
  unfolding Good
  GoodIf none = Unit
  GoodIf (some cs) = Good cs

  pub insert_agree :
      (k : Key) (m : Node) (cs : Children) → P k → AllKeys P cs → insert c k m cs ≡ insert d k m cs
  unfolding insert
  insert_agree k m end p a = refl
  insert_agree k m (child x n cs) p a = ground (arith, agree k x p a.0, insert_agree k m cs p a.1)

  pub remove_agree : (k : Key) (cs : Children) → P k → AllKeys P cs → remove c k cs ≡ remove d k cs
  unfolding remove
  remove_agree k end p a = refl
  remove_agree k (child x n cs) p a = ground (arith, agree k x p a.0, remove_agree k cs p a.1)

  pub replace_agree :
      (k : Key) (m : Node) (cs : Children)
      → P k
      → AllKeys P cs
      → replace c k m cs ≡ replace d k m cs
  unfolding replace
  replace_agree k m end p a = refl
  replace_agree k m (child x n cs) p a = ground (arith, agree k x p a.0, replace_agree k m cs p a.1)

  pub insert-AllKeys :
      (k : Key) (m : Node) (cs : Children) → P k → AllKeys P cs → AllKeys P (insert c k m cs)
  unfolding insert
  insert-AllKeys k m end p a = (p, tt)
  insert-AllKeys k m (child x n cs) p a = elim (Ordering-cases (c.cmp k x)) [
    | inl g ↦ rw (g, insert) (p, a)
    | inr (inl g) ↦ rw (g, insert) a
    | inr (inr g) ↦ rw (g, insert) (a.0, insert-AllKeys k m cs p a.1)
  ]

  pub remove-AllKeys : (k : Key) (cs : Children) → AllKeys P cs → AllKeys P (remove c k cs)
  unfolding remove
  remove-AllKeys k end a = tt
  remove-AllKeys k (child x n cs) a = elim (Ordering-cases (c.cmp k x)) [
    | inl g ↦ rw (g, remove) (a.0, remove-AllKeys k cs a.1)
    | inr (inl g) ↦ rw (g, remove) a.1
    | inr (inr g) ↦ rw (g, remove) (a.0, remove-AllKeys k cs a.1)
  ]

  pub replace-AllKeys :
      (k : Key) (m : Node) (cs : Children) → AllKeys P cs → AllKeys P (replace c k m cs)
  unfolding replace
  replace-AllKeys k m end a = tt
  replace-AllKeys k m (child x n cs) a = elim (Ordering-cases (c.cmp k x)) [
    | inl g ↦ rw (g, replace) (a.0, replace-AllKeys k m cs a.1)
    | inr (inl g) ↦ rw (g, replace) a
    | inr (inr g) ↦ rw (g, replace) (a.0, replace-AllKeys k m cs a.1)
  ]

  -- The same result, whose keys are good.
  pub record Same (o o' : Option Children) : Type 0 where
    pub same : o ≡ o'
    pub good : GoodIf o

  insert-Same :
      (k : Key) (m : Node) (cs : Children)
      → P k
      → Deep (KeysIn P) m
      → Good cs
      → Same (some (insert c k m cs)) (some (insert d k m cs))
  unfolding Good GoodIf
  insert-Same k m cs p g h = record {
    same = ap some (insert_agree k m cs p h.0);
    good = (insert-AllKeys k m cs p h.0, insert-DeepAll c (KeysIn P) k m cs g h.1);
  }

  sub-Same :
      (k : Key) (cs : Children) (o : Option Node) (sub sub' : Option Children)
      → P k
      → Good cs
      → Same sub sub'
      → Same
          (elim o [
            | some _ ↦ none
            | none ↦ elim sub [ none ↦ none | some s ↦ some (insert c k (internal none s) cs) ]
          ])
          (elim o [
            | some _ ↦ none
            | none ↦ elim sub' [ none ↦ none | some s ↦ some (insert d k (internal none s) cs) ]
          ])
  unfolding Good GoodIf Deep
  sub-Same k cs (some m) sub sub' p g h = record { same = refl; good = tt }
  sub-Same k cs none none sub' p g h = record {
    same =
        ap (λ s. elim s [ none ↦ none | some t ↦ some (insert d k (internal none t) cs) ]) h.same;
    good = tt;
  }
  sub-Same k cs none (some s) sub' p g h =
      let r = insert-Same k (internal none s) cs p h.good g in
      record {
        same =
            r.same
            ∙ ap (λ s. elim s [ none ↦ none | some t ↦ some (insert d k (internal none t) cs) ])
                h.same;
        good = r.good;
      }

  then-Same :
      (o o' : Option Children) (f f' : Children → Option Children)
      → Same o o'
      → ((cs : Children) → Good cs → Same (f cs) (f' cs))
      → Same (elim o [ none ↦ none | some cs ↦ f cs ]) (elim o' [ none ↦ none | some cs ↦ f' cs ])
  unfolding Good GoodIf
  then-Same none o' f f' h g = record {
    same = ap (λ s. elim s [ none ↦ none | some cs ↦ f' cs ]) h.same;
    good = tt;
  }
  then-Same (some cs) o' f f' h g =
      let r = g cs h.good in
      record {
        same = r.same ∙ ap (λ s. elim s [ none ↦ none | some cs ↦ f' cs ]) h.same;
        good = r.good;
      }

  module _ (double_of_int : ℕ → ℕ) where
    mutual
      unfolding set_r set_items set_members JsonKeys ItemsKeys MembersKeys Good GoodIf Deep

      pub set_r-Same :
          (j : Json) (k : Key) (cs : Children)
          → P k
          → JsonKeys P j
          → Good cs
          → Same (set_r c double_of_int j k cs) (set_r d double_of_int j k cs)
      set_r-Same json_null k cs p q g = record {
        same = ap some (remove_agree k cs p g.0);
        good = (remove-AllKeys k cs g.0, remove-DeepAll c (KeysIn P) k cs g.1);
      }
      set_r-Same (json_bool b) k cs p q g = insert-Same k (leaf_bool b) cs p tt g
      set_r-Same (json_double x) k cs p q g = insert-Same k (leaf_number none x) cs p tt g
      set_r-Same (json_int i) k cs p q g =
          insert-Same k (leaf_number none (double_of_int i)) cs p tt g
      set_r-Same (json_string s) k cs p q g = insert-Same k (leaf_string none s) cs p tt g
      set_r-Same (json_array xs) k cs p q g =
          subst
            (λ o. Same (set_r c double_of_int (json_array xs) k cs) (elim o [
              | some _ ↦ none
              | none ↦ elim (set_items d double_of_int xs 0 end) [
                | none ↦ none
                | some s ↦ some (insert d k (internal none s) cs)
              ]
            ]))
            (get_agree c d P agree k cs p g.0)
            (sub-Same k cs (get c k cs) _ _ p g (set_items-Same xs 0 end q (tt, tt)))
      set_r-Same (json_object ms) k cs p q g =
          subst
            (λ o. Same (set_r c double_of_int (json_object ms) k cs) (elim o [
              | some _ ↦ none
              | none ↦ elim (set_members d double_of_int ms end) [
                | none ↦ none
                | some s ↦ some (insert d k (internal none s) cs)
              ]
            ]))
            (get_agree c d P agree k cs p g.0)
            (sub-Same k cs (get c k cs) _ _ p g (set_members-Same ms end q (tt, tt)))

      pub set_items-Same :
          (xs : Items) (i : ℕ) (cs : Children)
          → ItemsKeys P xs i
          → Good cs
          → Same (set_items c double_of_int xs i cs) (set_items d double_of_int xs i cs)
      set_items-Same no_items i cs q g = record { same = refl; good = g }
      set_items-Same (item x xs) i cs q g =
          then-Same _ _ _ _ (set_r-Same x (decimal i) cs q.0 q.1 g)
            (λ cs' g'. set_items-Same xs (i + 1) cs' q.2 g')

      pub set_members-Same :
          (ms : Members) (cs : Children)
          → MembersKeys P ms
          → Good cs
          → Same (set_members c double_of_int ms cs) (set_members d double_of_int ms cs)
      set_members-Same no_members cs q g = record { same = refl; good = g }
      set_members-Same (member k x ms) cs q g =
          then-Same _ _ _ _ (set_r-Same x k cs q.0 q.1 g) (λ cs' g'. set_members-Same ms cs' q.2 g')
