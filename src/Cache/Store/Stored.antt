-- ===== src/Cache/Store/Stored.antt =====
-- What is read from the cache of lib/datasync/cache/treenode_cache.c after `data_cache_set_ex`: the value
-- at its path, and elsewhere what was there.
use Prim.Native.Nat.Ordering.{eq}
use webcom_sdk_c.Cache.Deep.{Deep, Ordered}
use webcom_sdk_c.Cache.Lookup.{
  get-insert, get-remove, IsSorted, IsSorted-IsDistinct, remove-IsSorted,
}
use webcom_sdk_c.Cache.Store.Edit.{get-remove_self, write_below-edit}
use webcom_sdk_c.Cache.Store.{split_last, get_r, data_cache_set_ex}
use webcom_sdk_c.Cache.Value.{
  Json, json_null, json_bool, json_double, json_int, json_string, json_array, json_object, set_r,
  set_items, set_members, set_root,
}
use webcom_sdk_c.Cache.{
  Key, Node, leaf_null, leaf_bool, leaf_number, leaf_string, internal, Children, end, is_null, get,
  insert, remove,
}
use webcom_sdk_c.Compare.{Cmp, IsLawful}
use webcom_sdk_c.Datasync.{Parts}
use webcom_sdk_c.Prelude.{
  ℕ, ◌≡◌, ◌≢◌, ◌⊎◌, refl, sym, ap, ◌∙◌, false, Option, none, some, [], ◌∷◌, ◌++◌, if◌then◌else◌,
  inl, inr,
}
use webcom_sdk_c.Cache.Store.Reads.{Apart, edit-keeps, edit-writes, on_eq-eq, on_eq_ne}

-- What a search finds where a node was set: a null is not stored.
unfoldable pub present : Node → Option Node
unfolding is_null
present n = if is_null n then none else some n

pub split_last-append : (dir : Parts) (k : Key) → split_last (dir ++ k ∷ []) ≡ some (dir, k)
unfolding split_last
split_last-append [] k = refl
split_last-append (x ∷ dir) k = rw (split_last-append dir k, split_last) refl

module _ (c : Cmp Key) where
  open c use {cmp}

  stored_as :
      ⦃law : IsLawful c⦄
      → (k : Key) (m v : Node) (cs : Children) → is_null m ≡ false
      → get c k cs ≡ none
      → m ≡ v
      → get c k (insert c k m cs) ≡ present v
  unfolding present
  stored_as ⦃law⦄ k m v cs b g e =
      get-insert c k k m cs g ∙ rw (law.cmp_refl k, on_eq-eq (some m) (get c k cs), ← e, b) refl

  stored_sub :
      ⦃law : IsLawful c⦄
      → (k : Key) (cs : Children) (o : Option Node) (sub : Option Children) (v : Node) → o ≡ none
      → get c k cs ≡ none
      → (elim sub [ none ↦ none | some s ↦ some (internal none s) ]) ≡ some v
      → (cs' : Children) × ((elim o [
        | some _ ↦ none
        | none ↦ elim sub [ none ↦ none | some s ↦ some (insert c k (internal none s) cs) ]
      ])
          ≡ some cs')
        × (get c k cs' ≡ present v)
  stored_sub ⦃law⦄ k cs (some m) sub v h g e = absurd (cc)
  stored_sub ⦃law⦄ k cs none none v h g e = absurd (cc)
  stored_sub ⦃law⦄ k cs none (some s) v h g e = (
    insert c k (internal none s) cs,
    refl,
    stored_as k (internal none s) v cs (unfold is_null in refl) g (cc),
  )

  -- The value at the path, where the value can be stored at all.
  set_r-stored :
      ⦃law : IsLawful c⦄
      → (double_of_int : ℕ → ℕ) (j : Json) (k : Key) (cs : Children) (v : Node) → IsSorted c cs
      → get c k cs ≡ none
      → set_root c double_of_int j ≡ some v
      → (cs' : Children) × (set_r c double_of_int j k cs ≡ some cs') × (get c k cs' ≡ present v)
  unfolding set_r set_root is_null
  set_r-stored ⦃law⦄ double_of_int json_null k cs v s g e =
      let m : leaf_null ≡ v = cc in
      (
        remove c k cs,
        refl,
        get-remove_self c k cs (IsSorted-IsDistinct c cs s) ∙ rw (← m) (unfold present in refl),
      )
  set_r-stored ⦃law⦄ double_of_int (json_bool b) k cs v s g e =
      (insert c k (leaf_bool b) cs, refl, stored_as k (leaf_bool b) v cs refl g (cc))
  set_r-stored ⦃law⦄ double_of_int (json_double x) k cs v s g e =
      (insert c k (leaf_number none x) cs, refl, stored_as k (leaf_number none x) v cs refl g (cc))
  set_r-stored ⦃law⦄ double_of_int (json_int i) k cs v s g e =
      let m = leaf_number none (double_of_int i) in
      (insert c k m cs, refl, stored_as k m v cs refl g (cc))
  set_r-stored ⦃law⦄ double_of_int (json_string t) k cs v s g e =
      (insert c k (leaf_string none t) cs, refl, stored_as k (leaf_string none t) v cs refl g (cc))
  set_r-stored ⦃law⦄ double_of_int (json_array xs) k cs v s g e =
      stored_sub k cs (get c k cs) (set_items c double_of_int xs 0 end) v g g e
  set_r-stored ⦃law⦄ double_of_int (json_object ms) k cs v s g e =
      stored_sub k cs (get c k cs) (set_members c double_of_int ms end) v g g e

  -- Setting a value that a root can be made of succeeds, and the value is then read at the path; a
  -- null is read as nothing.
  pub get_r-data_cache_set_ex :
      ⦃law : IsLawful c⦄
      → (double_of_int : ℕ → ℕ) (dir : Parts) (key : Key) (j : Json) (root v : Node)
      → Deep (Ordered c) root
      → set_root c double_of_int j ≡ some v
      → (root' : Node) × (data_cache_set_ex c double_of_int (dir ++ key ∷ []) j root ≡ some root')
        × (get_r c root' (dir ++ key ∷ []) ≡ present v)
  unfolding data_cache_set_ex
  get_r-data_cache_set_ex ⦃law⦄ double_of_int dir key j root v d e =
      let f = λ (cs : Children). set_r c double_of_int j key (remove c key cs) in
      let (root', h, g) =
        edit-writes c f key (present v) dir root
          (λ cs s.
            set_r-stored double_of_int j key (remove c key cs) v (remove-IsSorted c key cs s)
              (get-remove_self c key cs (IsSorted-IsDistinct c cs s)) e)
          d in
      (
        root',
        rw (split_last-append dir key, data_cache_set_ex) (write_below-edit c f dir root d ∙ h),
        g,
      )

  -- Setting a value where there was none leaves the children without it, or with one more child.
  abbrev Stored : Key → Children → Children → Type 0
  Stored k cs cs' = (cs' ≡ remove c k cs) ⊎ ((m : Node) × (cs' ≡ insert c k m cs))

  Stored-sub :
      (k : Key) (cs cs' : Children) (o : Option Node) (sub : Option Children)
      → (elim o [
        | some _ ↦ none
        | none ↦ elim sub [ none ↦ none | some s ↦ some (insert c k (internal none s) cs) ]
      ])
        ≡ some cs'
      → Stored k cs cs'
  Stored-sub k cs cs' (some m) sub e = absurd (cc)
  Stored-sub k cs cs' none none e = absurd (cc)
  Stored-sub k cs cs' none (some s) e = inr (internal none s, cc)

  set_r-Stored :
      (double_of_int : ℕ → ℕ) (j : Json) (k : Key) (cs cs' : Children)
      → set_r c double_of_int j k cs ≡ some cs'
      → Stored k cs cs'
  unfolding set_r
  set_r-Stored double_of_int json_null k cs cs' e = inl (cc)
  set_r-Stored double_of_int (json_bool b) k cs cs' e = inr (leaf_bool b, cc)
  set_r-Stored double_of_int (json_double x) k cs cs' e = inr (leaf_number none x, cc)
  set_r-Stored double_of_int (json_int i) k cs cs' e = inr (leaf_number none (double_of_int i), cc)
  set_r-Stored double_of_int (json_string t) k cs cs' e = inr (leaf_string none t, cc)
  set_r-Stored double_of_int (json_array xs) k cs cs' e =
      Stored-sub k cs cs' (get c k cs) (set_items c double_of_int xs 0 end) e
  set_r-Stored double_of_int (json_object ms) k cs cs' e =
      Stored-sub k cs cs' (get c k cs) (set_members c double_of_int ms end) e

  get-remove_other :
      ⦃law : IsLawful c⦄
      → (b k : Key) (cs : Children) → IsSorted c cs
      → cmp b k ≢ eq
      → get c b (remove c k cs) ≡ get c b cs
  get-remove_other ⦃law⦄ b k cs s h =
      get-remove c b k cs (IsSorted-IsDistinct c cs s) ∙ on_eq_ne (cmp b k) none (get c b cs) h

  get-Stored_other :
      ⦃law : IsLawful c⦄
      → (b k : Key) (cs cs' : Children) → IsSorted c cs
      → get c k cs ≡ none
      → Stored k cs cs'
      → cmp b k ≢ eq
      → get c b cs' ≡ get c b cs
  get-Stored_other ⦃law⦄ b k cs cs' s g (inl e) h = ap (get c b) e ∙ get-remove_other b k cs s h
  get-Stored_other ⦃law⦄ b k cs cs' s g (inr (m, e)) h =
      ap (get c b) e ∙ (get-insert c b k m cs g ∙ on_eq_ne (cmp b k) (some m) (get c b cs) h)

  -- Setting a value leaves what is read on every path that parts from the path that is set.
  pub get_r-data_cache_set_ex_elsewhere :
      ⦃law : IsLawful c⦄
      → (double_of_int : ℕ → ℕ) (dir q : Parts) (key : Key) (j : Json) (root root' : Node)
      → Deep (Ordered c) root
      → Apart c (dir ++ key ∷ []) q
      → data_cache_set_ex c double_of_int (dir ++ key ∷ []) j root ≡ some root'
      → get_r c root' q ≡ get_r c root q
  unfolding data_cache_set_ex
  get_r-data_cache_set_ex_elsewhere ⦃law⦄ double_of_int dir q key j root root' d a e =
      edit-keeps c (λ cs. set_r c double_of_int j key (remove c key cs)) key dir q root root'
        (λ b cs cs' s h n.
          let s' = remove-IsSorted c key cs s in
          let g = get-remove_self c key cs (IsSorted-IsDistinct c cs s) in
          get-Stored_other b key (remove c key cs) cs' s' g
            (set_r-Stored double_of_int j key (remove c key cs) cs' h) n
          ∙ get-remove_other b key cs s n)
        d a
        (sym (write_below-edit c _ dir root d)
          ∙ (rw (split_last-append dir key, data_cache_set_ex) at e))
