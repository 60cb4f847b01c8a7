-- ===== src/Datasync/On/Quiet.antt =====
-- Hashes of children in lib/datasync/on/on_registry.c: once they are refreshed, or are found unchanged,
-- the loop of `on_child_trig` has nothing left to trigger.
use webcom_sdk_c.Avl.Operations.{on_eq}
use webcom_sdk_c.Cache.Deep.{Deep, Ordered}
use webcom_sdk_c.Cache.Digest.{hash_get, hash_eq, hash_is_null, hash_copy}
use webcom_sdk_c.Cache.Lookup.{Above, IsSorted, get-replace}
use webcom_sdk_c.Cache.Store.Sound.{get_r-Deep}
use webcom_sdk_c.Cache.Store.{get_r}
use webcom_sdk_c.Cache.{
  Key, Hash, Node, leaf_null, leaf_bool, leaf_number, leaf_string, internal, Children, end, child,
  get,
}
use webcom_sdk_c.Compare.{Cmp, IsLawful}
use webcom_sdk_c.Datasync.On.{
  InternalHash, Change, is_empty, child_changes, store_hash, refresh_hashes, write_node,
}
use webcom_sdk_c.Datasync.{Parts}
use webcom_sdk_c.Path.{str_eq}
use webcom_sdk_c.Prelude.{
  ◌≡◌, refl, sym, ap, ◌∙◌, ℕ, Bool, true, false, ◌||◌, Option, none, some, List, [], ◌∷◌, ◌++◌,
  Ordering-cases, Option-cases, Bool-cases, inl, inr, arith, append_assoc, append-nil,
}

str_eq_refl : (s : List ℕ) → str_eq s s ≡ true
unfolding str_eq
str_eq_refl [] = refl
str_eq_refl (x ∷ s) = ground (arith, str_eq_refl s)

or_true : (b : Bool) → (b || true) ≡ true
or_true true = refl
or_true false = refl

pub hash_eq-hash_copy : (h : Option Hash) → hash_eq h (some (hash_copy h)) ≡ true
unfolding hash_eq hash_copy hash_is_null str_eq
hash_eq-hash_copy none = refl
hash_eq-hash_copy (some h) = rw (str_eq_refl h) (or_true _)

pub is_empty-true : (es : List Change) → is_empty es ≡ true → es ≡ []
unfolding is_empty
is_empty-true [] e = refl
is_empty-true (x ∷ es) e = absurd (cc)

module _ (sha1 : List ℕ → List ℕ) where
  -- A hash that is kept is given again.
  pub hash_get_twice : (n : Node) → (hash_get sha1 (hash_get sha1 n).0).1 ≡ (hash_get sha1 n).1
  unfolding hash_get
  hash_get_twice leaf_null = refl
  hash_get_twice (leaf_bool b) = refl
  hash_get_twice (leaf_number none d) = refl
  hash_get_twice (leaf_number (some h) d) = refl
  hash_get_twice (leaf_string none s) = refl
  hash_get_twice (leaf_string (some h) s) = refl
  hash_get_twice (internal none cs) = refl
  hash_get_twice (internal (some h) cs) = refl

  -- The entries for children, and the children with the hashes that were asked for.
  unfoldable pub seen : Children → List InternalHash
  seen end = []
  seen (child k n cs) = record { key = k; hash = hash_copy (hash_get sha1 n).1 } ∷ seen cs

  unfoldable pub hashed : Children → Children
  hashed end = end
  hashed (child k n cs) = child k (hash_get sha1 n).0 (hashed cs)

module _ (c : Cmp Key) (sha1 : List ℕ → List ℕ) where
  open c use {cmp}

  -- All entries are before all children.
  abbrev Before : List InternalHash → Children → Type 0
  Before [] cs = Unit
  Before (s ∷ hs) cs = Above c s.key cs × Before hs cs

  store_hash-last :
      ⦃law : IsLawful c⦄
      → (s : InternalHash) (n : Node) (cs : Children) (hs : List InternalHash)
      → Before hs (child s.key n cs)
      → store_hash c s hs ≡ hs ++ s ∷ []
  unfolding store_hash
  store_hash-last ⦃law⦄ s n cs [] b = refl
  store_hash-last ⦃law⦄ s n cs (t ∷ hs) b =
      rw (law.cmp_flip t.key s.key, b.0.0, store_hash)
        (ap (λ x. t ∷ x) (store_hash-last s n cs hs b.1))

  Before-last :
      (s : InternalHash) (n : Node) (cs : Children) (hs : List InternalHash)
      → Above c s.key cs
      → Before hs (child s.key n cs)
      → Before (hs ++ s ∷ []) cs
  Before-last s n cs [] a b = (a, tt)
  Before-last s n cs (t ∷ hs) a b = (b.0.1, Before-last s n cs hs a b.1)

  -- The entries after a refresh are those of the children, in their order.
  refresh_hashes-seen :
      ⦃law : IsLawful c⦄
      → (cs : Children) (hs : List InternalHash) → IsSorted c cs
      → Before hs cs
      → (refresh_hashes c sha1 cs hs).1 ≡ hs ++ seen sha1 cs
  unfolding refresh_hashes seen
  refresh_hashes-seen ⦃law⦄ end hs a b = sym (append-nil hs)
  refresh_hashes-seen ⦃law⦄ (child k n cs) hs a b =
      let s : InternalHash = record { key = k; hash = hash_copy (hash_get sha1 n).1 } in
      rw (store_hash-last s n cs hs b) (
        refresh_hashes-seen cs (hs ++ s ∷ []) a.1 (Before-last s n cs hs a.0 b)
        ∙ append_assoc hs (s ∷ []) (seen sha1 cs))

  refresh_hashes-hashed :
      (cs : Children) (hs : List InternalHash) → (refresh_hashes c sha1 cs hs).0 ≡ hashed sha1 cs
  unfolding refresh_hashes hashed
  refresh_hashes-hashed end hs = refl
  refresh_hashes-hashed (child k n cs) hs =
      ap (child k (hash_get sha1 n).0) (refresh_hashes-hashed cs _)

  child_changes-seen :
      ⦃law : IsLawful c⦄
      → (cs : Children) (prev : Option Key)
      → (child_changes c sha1 (hashed sha1 cs) (seen sha1 cs) prev).1 ≡ []
  unfolding child_changes seen hashed
  child_changes-seen ⦃law⦄ end prev = refl
  child_changes-seen ⦃law⦄ (child k n cs) prev =
      rw (law.cmp_refl k, child_changes)
        (rw (hash_get_twice sha1 n, hash_eq-hash_copy (hash_get sha1 n).1)
          (child_changes-seen cs (some k)))

  -- Where there is nothing to trigger, there is nothing a second time.
  pub child_changes_twice :
      (cs : Children) (hs : List InternalHash) (prev : Option Key)
      → (child_changes c sha1 cs hs prev).1 ≡ []
      → (child_changes c sha1 (child_changes c sha1 cs hs prev).0 hs prev).1 ≡ []
  unfolding child_changes
  child_changes_twice end [] prev e = refl
  child_changes_twice end (s ∷ hs) prev e = absurd (cc)
  child_changes_twice (child k n cs) [] prev e = absurd (cc)
  child_changes_twice (child k n cs) (s ∷ hs) prev e = elim (Ordering-cases (cmp k s.key)) [
    | inl h ↦ absurd (cc (rw (h, child_changes) at e))
    | inr (inl h) ↦ elim (Bool-cases (hash_eq (hash_get sha1 n).1 (some s.hash))) [
      | inl f ↦
          rw (h, child_changes)
            (rw (h, child_changes)
              (rw (hash_get_twice sha1 n, f)
                (child_changes_twice cs hs (some k) (rw f at (rw (h, child_changes) at e)))))
      | inr f ↦ absurd (cc (rw f at (rw (h, child_changes) at e)))
    ]
    | inr (inr h) ↦ absurd (cc (rw (h, child_changes) at e))
  ]

  pub get_r-write_node :
      ⦃law : IsLawful c⦄
      → (path : Parts) (m n root : Node) → get_r c root path ≡ some n
      → get_r c (write_node c path m root) path ≡ some m
  unfolding get_r write_node on_eq
  get_r-write_node ⦃law⦄ [] m n root e = refl
  get_r-write_node ⦃law⦄ (k ∷ ks) m n leaf_null e = absurd (cc)
  get_r-write_node ⦃law⦄ (k ∷ ks) m n (leaf_bool b) e = absurd (cc)
  get_r-write_node ⦃law⦄ (k ∷ ks) m n (leaf_number h d) e = absurd (cc)
  get_r-write_node ⦃law⦄ (k ∷ ks) m n (leaf_string h s) e = absurd (cc)
  get_r-write_node ⦃law⦄ (k ∷ ks) m n (internal h cs) e = elim (Option-cases (get c k cs)) [
    | inl g ↦ absurd (cc (rw (g, get_r) at e))
    | inr (x, g) ↦
        let ih = get_r-write_node ks m n x (rw (g, get_r) at e) in
        let v = get-replace c k k (write_node c ks m x) cs {n = x} g in
        rw (g, write_node) (rw (v, law.cmp_refl k, get_r) ih)
  ]

  -- The children keep their keys, and so their order.
  child_changes-Above :
      (a : Key) (cs : Children) (hs : List InternalHash) (prev : Option Key)
      → Above c a cs
      → Above c a (child_changes c sha1 cs hs prev).0
  unfolding child_changes
  child_changes-Above a end [] prev u = tt
  child_changes-Above a end (s ∷ hs) prev u = child_changes-Above a end hs prev u
  child_changes-Above a (child k n cs) [] prev u = (u.0, child_changes-Above a cs [] (some k) u.1)
  child_changes-Above a (child k n cs) (s ∷ hs) prev u = elim (Ordering-cases (cmp k s.key)) [
    | inl h ↦ rw (h, child_changes) (u.0, child_changes-Above a cs (s ∷ hs) (some k) u.1)
    | inr (inl h) ↦ rw (h, child_changes) (u.0, child_changes-Above a cs hs (some k) u.1)
    | inr (inr h) ↦ rw (h, child_changes) (child_changes-Above a (child k n cs) hs prev u)
  ]

  pub child_changes-IsSorted :
      (cs : Children) (hs : List InternalHash) (prev : Option Key)
      → IsSorted c cs
      → IsSorted c (child_changes c sha1 cs hs prev).0
  unfolding child_changes
  child_changes-IsSorted end [] prev u = tt
  child_changes-IsSorted end (s ∷ hs) prev u = child_changes-IsSorted end hs prev u
  child_changes-IsSorted (child k n cs) [] prev u =
      (child_changes-Above k cs [] (some k) u.0, child_changes-IsSorted cs [] (some k) u.1)
  child_changes-IsSorted (child k n cs) (s ∷ hs) prev u = elim (Ordering-cases (cmp k s.key)) [
    | inl h ↦
        rw (h, child_changes)
          (
            child_changes-Above k cs (s ∷ hs) (some k) u.0,
            child_changes-IsSorted cs (s ∷ hs) (some k) u.1,
          )
    | inr (inl h) ↦
        rw (h, child_changes)
          (child_changes-Above k cs hs (some k) u.0, child_changes-IsSorted cs hs (some k) u.1)
    | inr (inr h) ↦ rw (h, child_changes) (child_changes-IsSorted (child k n cs) hs prev u)
  ]

  pub child_changes-refresh_hashes :
      ⦃law : IsLawful c⦄
      → (cs : Children) → IsSorted c cs
      → let r = refresh_hashes c sha1 cs [] in (child_changes c sha1 r.0 r.1 none).1 ≡ []
  child_changes-refresh_hashes ⦃law⦄ cs a =
      rw (refresh_hashes-hashed cs [], refresh_hashes-seen cs [] a tt) (child_changes-seen cs none)

  pub get_r-IsSorted :
      (root : Node) (path : Parts) (h : Option Hash) (cs : Children)
      → Deep (Ordered c) root
      → get_r c root path ≡ some (internal h cs)
      → IsSorted c cs
  unfolding Deep
  get_r-IsSorted root path h cs d e =
      (get_r-Deep c sha1 (Ordered c) root (internal h cs) path d e).0
