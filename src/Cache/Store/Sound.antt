-- ===== src/Cache/Store/Sound.antt =====
-- What every write of lib/datasync/cache/treenode_cache.c keeps of the whole cache, and what hashes and
-- reads then rely on.
use mathlib.Core.Path.{subst}
use webcom_sdk_c.Cache.Deep.{
  get-Deep, Deep, DeepAll, Ordered, Full, Coherent, Ordered-Closed, Full-Closed, Coherent-Closed,
}
use webcom_sdk_c.Cache.Digest.{hash_get}
use webcom_sdk_c.Cache.Digest.Coherent.{hash_of, IsCoherent, AreCoherent, hash_get-hash_of}
use webcom_sdk_c.Cache.Store.Edit.{children-DeepAll}
use webcom_sdk_c.Cache.Store.Invariant.{Holds, data_cache_set_ex-Deep, data_cache_merge_ex-Deep}
use webcom_sdk_c.Cache.Store.{
  children_of, get_r, data_cache_set_ex, data_cache_merge_ex, data_cache_set, merge_paths,
  data_cache_merge,
}
use webcom_sdk_c.Cache.Value.{
  Json, json_null, json_bool, json_double, json_int, json_string, json_array, json_object, Members,
  no_members, member,
}
use webcom_sdk_c.Cache.{
  Key, Node, leaf_null, leaf_bool, leaf_number, leaf_string, internal, Children, end, child, get,
}
use webcom_sdk_c.Compare.{Cmp, IsLawful}
use webcom_sdk_c.Datasync.{Parts}
use webcom_sdk_c.Path.{parse, parts}
use webcom_sdk_c.Prelude.{
  ℕ, ◌+◌, ◌≡◌, Option, none, some, List, [], ◌∷◌, ◌++◌, Option-cases, inl, inr, take, length,
}

module _ (sha1 : List ℕ → List ℕ) where
  mutual
    unfolding Deep IsCoherent

    pub Deep-IsCoherent : (n : Node) → Deep (Coherent sha1) n → IsCoherent sha1 n
    Deep-IsCoherent leaf_null d = tt
    Deep-IsCoherent (leaf_bool b) d = tt
    Deep-IsCoherent (leaf_number h x) d = d
    Deep-IsCoherent (leaf_string h s) d = d
    Deep-IsCoherent (internal h cs) d = (d.0, DeepAll-AreCoherent cs d.1)

    DeepAll-AreCoherent : (cs : Children) → DeepAll (Coherent sha1) cs → AreCoherent sha1 cs
    DeepAll-AreCoherent end d = tt
    DeepAll-AreCoherent (child k n cs) d = (Deep-IsCoherent n d.0, DeepAll-AreCoherent cs d.1)

module _ (c : Cmp Key) (sha1 : List ℕ → List ℕ) where
  -- At every node of the cache: the children in order, none null, and a kept hash right.
  abbrev pub IsSound : Node → Type 0
  IsSound n = Deep (Ordered c) n × Deep Full n × Deep (Coherent sha1) n

  sound :
      (o : Option Node)
      → Holds (Deep (Ordered c)) o
      → Holds (Deep Full) o
      → Holds (Deep (Coherent sha1)) o
      → Holds IsSound o
  sound none a b d = tt
  sound (some n) a b d = (a, b, d)

  then-IsSound :
      (o : Option Node) (f : Node → Option Node)
      → Holds IsSound o
      → ((n : Node) → IsSound n → Holds IsSound (f n))
      → Holds IsSound (elim o [ none ↦ none | some n ↦ f n ])
  then-IsSound none f v w = tt
  then-IsSound (some n) f v w = w n v

  -- What `get_r` finds has below it what the whole has.
  pub get_r-Deep :
      (P : Node → Type 0) (n m : Node) (path : Parts)
      → Deep P n
      → get_r c n path ≡ some m
      → Deep P m
  unfolding get_r children_of
  get_r-Deep P n m [] d e = subst (Deep P) (cc) d
  get_r-Deep P leaf_null m (k ∷ path) d e = absurd (cc)
  get_r-Deep P (leaf_bool b) m (k ∷ path) d e = absurd (cc)
  get_r-Deep P (leaf_number h x) m (k ∷ path) d e = absurd (cc)
  get_r-Deep P (leaf_string h s) m (k ∷ path) d e = absurd (cc)
  get_r-Deep P (internal h cs) m (k ∷ path) d e = elim (Option-cases (get c k cs)) [
    | inl g ↦ absurd (cc (rw (g, get_r) at e))
    | inr (x, g) ↦
        get_r-Deep P x m path (get-Deep c P k cs {m = x} (children-DeepAll c P (internal h cs) d) g)
          (rw (g, get_r) at e)
  ]

  -- In a sound cache `treenode_hash_get` of a node that is read gives the hash of the node's content.
  pub hash_get-get_r :
      (root n : Node) (path : Parts)
      → IsSound root
      → get_r c root path ≡ some n
      → (hash_get sha1 n).1 ≡ hash_of sha1 n
  hash_get-get_r root n path s e =
      (hash_get-hash_of sha1 n
        (Deep-IsCoherent sha1 n (get_r-Deep (Coherent sha1) root n path s.2 e))).0

  module _ (double_of_int : ℕ → ℕ) where
    -- A value set at a path keeps the cache sound.
    pub data_cache_set_ex-IsSound :
        ⦃law : IsLawful c⦄
        → (path : Parts) (j : Json) (root : Node) → IsSound root
        → Holds IsSound (data_cache_set_ex c double_of_int path j root)
    data_cache_set_ex-IsSound ⦃law⦄ path j root s =
        sound _
          (data_cache_set_ex-Deep c double_of_int (Ordered c) (Ordered-Closed c) path j root s.0
            s.0)
          (data_cache_set_ex-Deep c double_of_int Full (Full-Closed c) path j root s.0 s.1)
          (data_cache_set_ex-Deep c double_of_int (Coherent sha1) (Coherent-Closed c sha1) path j
            root s.0 s.2)

    -- An object merged at a path keeps the cache sound.
    pub data_cache_merge_ex-IsSound :
        ⦃law : IsLawful c⦄
        → (path : Parts) (ms : Members) (root : Node) → IsSound root
        → Holds IsSound (data_cache_merge_ex c double_of_int path ms root)
    data_cache_merge_ex-IsSound ⦃law⦄ path ms root s =
        sound _
          (data_cache_merge_ex-Deep c double_of_int (Ordered c) (Ordered-Closed c) path ms root s.0
            s.0)
          (data_cache_merge_ex-Deep c double_of_int Full (Full-Closed c) path ms root s.0 s.1)
          (data_cache_merge_ex-Deep c double_of_int (Coherent sha1) (Coherent-Closed c sha1) path ms
            root s.0 s.2)

    module _ (json_tokener_parse : List ℕ → Json) where
      merge_paths-IsSound :
          ⦃law : IsLawful c⦄
          → (path : List ℕ) (ms : Members) (root : Node) → IsSound root
          → Holds IsSound (merge_paths c double_of_int json_tokener_parse path ms root)
      unfolding merge_paths
      merge_paths-IsSound ⦃law⦄ path no_members root s = s
      merge_paths-IsSound ⦃law⦄ path (member k x ms) root s =
          then-IsSound _ _
            (data_cache_set_ex-IsSound
              (parts (parse (take (length path + 1 + 256) (path ++ b'/' ∷ k)))) x root s)
            (λ root' v. merge_paths-IsSound path ms root' v)

      -- The writes that a text of JSON is given to keep the cache sound, whatever the text is.
      pub data_cache-IsSound :
          ⦃law : IsLawful c⦄
          → (path json_doc : List ℕ) (root : Node) → IsSound root
          → Holds IsSound (data_cache_set c double_of_int json_tokener_parse path json_doc root)
            × Holds IsSound (data_cache_merge c double_of_int json_tokener_parse path json_doc root)
      unfolding data_cache_set data_cache_merge
      data_cache-IsSound ⦃law⦄ path json_doc root s = (
        data_cache_set_ex-IsSound (parts (parse path)) (json_tokener_parse json_doc) root s,
        merged (json_tokener_parse json_doc),
      )
        where
          merged :
              (j : Json)
              → Holds IsSound (elim j [
                | json_object ms ↦ merge_paths c double_of_int json_tokener_parse path ms root
                | _ ↦ some root
              ])
          merged (json_object ms) = merge_paths-IsSound path ms root s
          merged json_null = s
          merged (json_bool b) = s
          merged (json_double x) = s
          merged (json_int i) = s
          merged (json_string t) = s
          merged (json_array xs) = s
