-- ===== src/Datasync/On/Order.antt =====
-- The changes that `on_child_trig` of lib/datasync/on/on_registry.c finds come in the order of their keys.
use Prim.Native.Nat.Ordering.{lt, eq, gt}
use webcom_sdk_c.Cache.Digest.{hash_get, hash_eq}
use webcom_sdk_c.Cache.Lookup.{Above, Above-trans, IsSorted}
use webcom_sdk_c.Cache.{Key, Children, end, child}
use webcom_sdk_c.Compare.{Cmp, IsLawful}
use webcom_sdk_c.Datasync.On.Diff.{AboveHashes, AboveHashes-trans, AreSorted}
use webcom_sdk_c.Datasync.On.{InternalHash, Change, added, changed, gone, child_changes}
use webcom_sdk_c.Prelude.{
  ◌≡◌, ◌∙◌, ℕ, Bool, true, false, Option, some, List, [], ◌∷◌, if◌then◌else◌, Ordering-cases, inl,
  inr, arith,
}

abbrev pub key_of : Change → Key
key_of (added k n prev) = k
key_of (changed k n prev) = k
key_of (gone k prev) = k

module _ (c : Cmp Key) where
  open c use {cmp}

  abbrev pub AboveChanges : Key → List Change → Type 0
  AboveChanges k [] = Unit
  AboveChanges k (e ∷ es) = (cmp k (key_of e) ≡ lt) × AboveChanges k es

  -- The keys of the changes strictly ascend.
  abbrev pub Ascending : List Change → Type 0
  Ascending [] = Unit
  Ascending (e ∷ es) = AboveChanges (key_of e) es × Ascending es

module _ (c : Cmp Key) (sha1 : List ℕ → List ℕ) where
  open c use {cmp}

  if-Above :
      (a : Key) (b : Bool) (e : Change) (es : List Change)
      → cmp a (key_of e) ≡ lt
      → AboveChanges c a es
      → AboveChanges c a (if b then es else e ∷ es)
  if-Above a true e es h p = p
  if-Above a false e es h p = (h, p)

  if-Ascending :
      (b : Bool) (e : Change) (es : List Change)
      → AboveChanges c (key_of e) es
      → Ascending c es
      → Ascending c (if b then es else e ∷ es)
  if-Ascending true e es h p = p
  if-Ascending false e es h p = (h, p)

  child_changes-AboveChanges :
      (a : Key) (cs : Children) (hs : List InternalHash) (prev : Option Key)
      → Above c a cs
      → AboveHashes c a hs
      → AboveChanges c a (child_changes c sha1 cs hs prev).1
  unfolding child_changes
  child_changes-AboveChanges a end [] prev u v = tt
  child_changes-AboveChanges a end (s ∷ hs) prev u v =
      (v.0, child_changes-AboveChanges a end hs prev u v.1)
  child_changes-AboveChanges a (child k n cs) [] prev u v =
      (u.0, child_changes-AboveChanges a cs [] (some k) u.1 v)
  child_changes-AboveChanges a (child k n cs) (s ∷ hs) prev u v =
      elim (Ordering-cases (cmp k s.key)) [
        | inl h ↦
            rw (h, child_changes) (u.0, child_changes-AboveChanges a cs (s ∷ hs) (some k) u.1 v)
        | inr (inl h) ↦
            rw (h, child_changes)
              (if-Above a (hash_eq (hash_get sha1 n).1 (some s.hash))
                (changed k (hash_get sha1 n).0 prev) _ u.0
                (child_changes-AboveChanges a cs hs (some k) u.1 v.1))
        | inr (inr h) ↦
            rw (h, child_changes) (v.0, child_changes-AboveChanges a (child k n cs) hs prev u v.1)
      ]

  key_less : ⦃law : IsLawful c⦄ → (k s : Key) → cmp k s ≡ gt → cmp s k ≡ lt
  key_less ⦃law⦄ k s h = ground (arith, law.cmp_flip k s)

  AboveHashes-congr :
      ⦃law : IsLawful c⦄
      → (a b : Key) (hs : List InternalHash) → cmp a b ≡ eq
      → AboveHashes c b hs
      → AboveHashes c a hs
  AboveHashes-congr ⦃law⦄ a b [] h p = tt
  AboveHashes-congr ⦃law⦄ a b (s ∷ hs) h p =
      (law.cmp_congr a b s.key h ∙ p.0, AboveHashes-congr a b hs h p.1)

  -- Where both lists are in order, the keys of the changes strictly ascend, so that no key is
  -- triggered twice.
  pub child_changes-Ascending :
      ⦃law : IsLawful c⦄
      → (cs : Children) (hs : List InternalHash) (prev : Option Key) → IsSorted c cs
      → AreSorted c hs
      → Ascending c (child_changes c sha1 cs hs prev).1
  unfolding child_changes
  child_changes-Ascending ⦃law⦄ end [] prev a b = tt
  child_changes-Ascending ⦃law⦄ end (s ∷ hs) prev a b = (
    (child_changes-AboveChanges s.key end hs prev tt b.0),
    child_changes-Ascending end hs prev a b.1,
  )
  child_changes-Ascending ⦃law⦄ (child k n cs) [] prev a b = (
    (child_changes-AboveChanges k cs [] (some k) a.0 tt),
    child_changes-Ascending cs [] (some k) a.1 b,
  )
  child_changes-Ascending ⦃law⦄ (child k n cs) (s ∷ hs) prev a b =
      elim (Ordering-cases (cmp k s.key)) [
        | inl h ↦
            let v : AboveHashes c k (s ∷ hs) = (h, AboveHashes-trans c k s.key hs h b.0) in
            rw (h, child_changes)
              (
                (child_changes-AboveChanges k cs (s ∷ hs) (some k) a.0 v),
                child_changes-Ascending cs (s ∷ hs) (some k) a.1 b,
              )
        | inr (inl h) ↦
            let v = AboveHashes-congr k s.key hs h b.0 in
            rw (h, child_changes)
              (if-Ascending (hash_eq (hash_get sha1 n).1 (some s.hash))
                (changed k (hash_get sha1 n).0 prev) _
                (child_changes-AboveChanges k cs hs (some k) a.0 v)
                (child_changes-Ascending cs hs (some k) a.1 b.1))
        | inr (inr h) ↦
            let g = key_less k s.key h in
            rw (h, child_changes)
              (
                (child_changes-AboveChanges s.key (child k n cs) hs prev
                    (g, Above-trans c s.key k cs g a.0) b.0),
                child_changes-Ascending (child k n cs) hs prev a b.1,
              )
      ]
