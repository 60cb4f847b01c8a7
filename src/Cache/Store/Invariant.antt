-- ===== src/Cache/Store/Invariant.antt =====
-- What the writes of lib/datasync/cache/treenode_cache.c keep: the order of the children, that no child
-- is null, and that every hash that is kept is right.
use webcom_sdk_c.Cache.Deep.{
  Deep, DeepAll, Closed, insert-DeepAll, remove-DeepAll, replace-DeepAll, Ordered,
}
use webcom_sdk_c.Cache.Store.Edit.{below, put, edit, below-Deep, write_below-edit}
use webcom_sdk_c.Cache.Store.{
  children_of, split_last, write_below, data_cache_set_ex, merge_members, data_cache_merge_ex,
}
use webcom_sdk_c.Cache.Value.{
  Json, json_null, json_bool, json_double, json_int, json_string, json_array, json_object, Items,
  no_items, item, Members, no_members, member, decimal, set_r, set_items, set_members, set_root,
}
use webcom_sdk_c.Cache.{
  Key, Node, leaf_null, leaf_bool, leaf_number, leaf_string, internal, Children, end, is_internal,
  is_null, get, insert, remove,
}
use webcom_sdk_c.Compare.{Cmp, IsLawful}
use webcom_sdk_c.Datasync.{Parts}
use webcom_sdk_c.Prelude.{
  ℕ, ◌+◌, ◌≡◌, refl, false, Option, none, some, [], ◌∷◌, Option-cases, Bool-cases, inl, inr,
}

-- A result, if there is one, has the property.
abbrev pub Holds {ℓ} : {A : Type ℓ} → (A → Type 0) → Option A → Type 0
Holds Q none = Unit
Holds Q (some x) = Q x

module _ (c : Cmp Key) (double_of_int : ℕ → ℕ) (P : Node → Type 0) (ok : Closed c P) where
  -- The children of a node that has the property, and all below.
  abbrev Level : Children → Type 0
  Level cs = P (internal none cs) × DeepAll P cs

  insert-Level :
      (k : Key) (m : Node) (cs : Children)
      → is_null m ≡ false
      → Deep P m
      → Level cs
      → Level (insert c k m cs)
  insert-Level k m cs e d v = (ok.insert_ok k m cs e v.0, insert-DeepAll c P k m cs d v.1)

  remove-Level : (k : Key) (cs : Children) → Level cs → Level (remove c k cs)
  remove-Level k cs v = (ok.remove_ok k cs v.0, remove-DeepAll c P k cs v.1)

  end-Level : Level end
  end-Level = (ok.new_ok, unfold Deep in tt)

  internal-Deep : (cs : Children) → Level cs → Deep P (internal none cs)
  internal-Deep cs v = unfold Deep in v

  insert_sub :
      (k : Key) (cs : Children) (sub : Option Children)
      → Level cs
      → Holds Level sub
      → Holds Level (elim sub [ none ↦ none | some s ↦ some (insert c k (internal none s) cs) ])
  insert_sub k cs none v w = tt
  insert_sub k cs (some s) v w =
      insert-Level k (internal none s) cs (unfold is_null in refl) (internal-Deep s w) v

  absent_then :
      (o : Option Node) (r : Option Children)
      → Holds Level r
      → Holds Level (elim o [ some _ ↦ none | none ↦ r ])
  absent_then none r v = v
  absent_then (some m) r v = tt

  then_Level :
      (o : Option Children) (f : Children → Option Children)
      → Holds Level o
      → ((cs : Children) → Level cs → Holds Level (f cs))
      → Holds Level (elim o [ none ↦ none | some cs ↦ f cs ])
  then_Level none f v keep = tt
  then_Level (some cs) f v keep = keep cs v

  made :
      (sub : Option Children)
      → Holds Level sub
      → Holds (Deep P) (elim sub [ none ↦ none | some s ↦ some (internal none s) ])
  made none v = tt
  made (some s) v = internal-Deep s v

  mutual
    unfolding set_r is_null Deep

    set_r-Level :
        (j : Json) (k : Key) (cs : Children) → Level cs → Holds Level (set_r c double_of_int j k cs)
    set_r-Level json_null k cs v = remove-Level k cs v
    set_r-Level (json_bool b) k cs v = insert-Level k (leaf_bool b) cs refl (ok.bool_ok b) v
    set_r-Level (json_double d) k cs v =
        insert-Level k (leaf_number none d) cs refl (ok.number_ok d) v
    set_r-Level (json_int i) k cs v =
        insert-Level k (leaf_number none (double_of_int i)) cs refl (ok.number_ok (double_of_int i))
          v
    set_r-Level (json_string s) k cs v =
        insert-Level k (leaf_string none s) cs refl (ok.string_ok s) v
    set_r-Level (json_array xs) k cs v =
        absent_then (get c k cs) _ (insert_sub k cs _ v (set_items-Level xs 0 end end-Level))
    set_r-Level (json_object ms) k cs v =
        absent_then (get c k cs) _ (insert_sub k cs _ v (set_members-Level ms end end-Level))

    set_items-Level :
        (xs : Items) (i : ℕ) (cs : Children)
        → Level cs
        → Holds Level (set_items c double_of_int xs i cs)
    set_items-Level no_items i cs v = v
    set_items-Level (item x xs) i cs v =
        then_Level (set_r c double_of_int x (decimal i) cs) (set_items c double_of_int xs (i + 1))
          (set_r-Level x (decimal i) cs v) (λ cs' w. set_items-Level xs (i + 1) cs' w)

    set_members-Level :
        (ms : Members) (cs : Children) → Level cs → Holds Level (set_members c double_of_int ms cs)
    set_members-Level no_members cs v = v
    set_members-Level (member k x ms) cs v =
        then_Level (set_r c double_of_int x k cs) (set_members c double_of_int ms)
          (set_r-Level x k cs v) (λ cs' w. set_members-Level ms cs' w)

  set_root-Deep : (j : Json) → Holds (Deep P) (set_root c double_of_int j)
  unfolding set_root Deep
  set_root-Deep json_null = ok.null_ok
  set_root-Deep (json_bool b) = ok.bool_ok b
  set_root-Deep (json_double d) = ok.number_ok d
  set_root-Deep (json_int i) = ok.number_ok (double_of_int i)
  set_root-Deep (json_string s) = ok.string_ok s
  set_root-Deep (json_array xs) = made _ (set_items-Level xs 0 end end-Level)
  set_root-Deep (json_object ms) = made _ (set_members-Level ms end end-Level)

  children-Level : (n : Node) → Deep P n → Level (children_of n)
  unfolding children_of Deep
  children-Level leaf_null d = end-Level
  children-Level (leaf_bool b) d = end-Level
  children-Level (leaf_number h x) d = end-Level
  children-Level (leaf_string h s) d = end-Level
  children-Level (internal h cs) d = (ok.reset_ok h cs d.0, d.1)

  put-Level :
      (k : Key) (m : Node) (cs : Children)
      → is_null m ≡ false
      → Deep P m
      → Level cs
      → Level (put c k m cs)
  unfolding put
  put-Level k m cs e d v = elim (Option-cases (get c k cs)) [
    | inl g ↦ rw (g, put) (insert-Level k m cs e d v)
    | inr (x, g) ↦ elim (Bool-cases (is_internal x)) [
      | inl i ↦ rw (g, put) (rw i (ok.replace_ok k m cs e v.0, replace-DeepAll c P k m cs d v.1))
      | inr i ↦ rw (g, put) (rw i (insert-Level k m (remove c k cs) e d (remove-Level k cs v)))
    ]
  ]

  -- One pass of `edit` makes internal nodes only.
  abbrev Made : Node → Type 0
  Made n = Deep P n × (is_null n ≡ false)

  written :
      (o : Option Children)
      → Holds Level o
      → Holds Made (elim o [ none ↦ none | some cs ↦ some (internal none cs) ])
  unfolding is_null
  written none v = tt
  written (some cs) v = (internal-Deep cs v, refl)

  put_back :
      (k : Key) (cs : Children) (o : Option Node)
      → Level cs
      → Holds Made o
      → Holds Made (elim o [ none ↦ none | some v ↦ some (internal none (put c k v cs)) ])
  unfolding is_null
  put_back k cs none v w = tt
  put_back k cs (some m) v w = (internal-Deep _ (put-Level k m cs w.1 w.0 v), refl)

  edit-Made :
      (f : Children → Option Children) (dir : Parts) (n : Node)
      → ((cs : Children) → Level cs → Holds Level (f cs))
      → Deep P n
      → Holds Made (edit c f dir n)
  unfolding edit is_null
  edit-Made f [] n keep d = written (f (children_of n)) (keep (children_of n) (children-Level n d))
  edit-Made f (k ∷ ks) n keep d =
      put_back k (children_of n) (edit c f ks (below c k n)) (children-Level n d)
        (edit-Made f ks (below c k n) keep (below-Deep c P k n ok.new_ok d))

  forget_made : (o : Option Node) → Holds Made o → Holds (Deep P) o
  forget_made none v = tt
  forget_made (some n) v = v.0

  write_below-Deep :
      ⦃law : IsLawful c⦄
      → (f : Children → Option Children) (dir : Parts) (n : Node)
      → ((cs : Children) → Level cs → Holds Level (f cs))
      → Deep (Ordered c) n
      → Deep P n
      → Holds (Deep P) (write_below c f dir n)
  write_below-Deep ⦃law⦄ f dir n keep s d =
      rw (write_below-edit c f dir n s) (forget_made _ (edit-Made f dir n keep d))

  merge_members-Level :
      (ms : Members) (cs : Children) → Level cs → Holds Level (merge_members c double_of_int ms cs)
  unfolding merge_members
  merge_members-Level no_members cs v = v
  merge_members-Level (member k x ms) cs v =
      then_Level (set_r c double_of_int x k (remove c k cs)) (merge_members c double_of_int ms)
        (set_r-Level x k (remove c k cs) (remove-Level k cs v))
        (λ cs' w. merge_members-Level ms cs' w)

  pub data_cache_set_ex-Deep :
      ⦃law : IsLawful c⦄
      → (path : Parts) (j : Json) (root : Node) → Deep (Ordered c) root
      → Deep P root
      → Holds (Deep P) (data_cache_set_ex c double_of_int path j root)
  unfolding data_cache_set_ex
  data_cache_set_ex-Deep ⦃law⦄ path j root s d = elim (Option-cases (split_last path)) [
    | inl e ↦ rw (e, data_cache_set_ex) (set_root-Deep j)
    | inr ((dir, key), e) ↦
        rw (e, data_cache_set_ex)
          (write_below-Deep _ dir root
            (λ cs v. set_r-Level j key (remove c key cs) (remove-Level key cs v)) s d)
  ]

  pub data_cache_merge_ex-Deep :
      ⦃law : IsLawful c⦄
      → (path : Parts) (ms : Members) (root : Node) → Deep (Ordered c) root
      → Deep P root
      → Holds (Deep P) (data_cache_merge_ex c double_of_int path ms root)
  unfolding data_cache_merge_ex
  data_cache_merge_ex-Deep ⦃law⦄ [] ms root s d = set_root-Deep (json_object ms)
  data_cache_merge_ex-Deep ⦃law⦄ (k ∷ path) ms root s d =
      write_below-Deep _ (k ∷ path) root (merge_members-Level ms) s d
