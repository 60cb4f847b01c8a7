-- ===== src/Datasync/On/Diff.antt =====
-- The loop of `on_child_trig` of lib/datasync/on/on_registry.c runs through two sorted lists at once. It
-- is a comparison key by key of what the cache has with what the subscription has seen.
pub mod Keys
use Prim.Native.Nat.Ordering.{lt, eq, gt}
use webcom_sdk_c.Avl.Operations.{on_eq}
use webcom_sdk_c.Cache.Digest.{hash_get, hash_eq}
use webcom_sdk_c.Cache.Lookup.{get_congr, get-Above, Above, Above-trans, IsSorted}
use webcom_sdk_c.Cache.{Key, Hash, Node, Children, end, child, get}
use webcom_sdk_c.Compare.{Cmp, IsLawful}
use webcom_sdk_c.Datasync.On.{InternalHash, Change, added, changed, gone, child_changes}
use webcom_sdk_c.Prelude.{
  ◌≡◌, refl, sym, ap, ap₂, ◌∙◌, ℕ, true, false, Option, none, some, List, [], ◌∷◌, if◌then◌else◌,
  Ordering, Ordering-cases, Bool-cases, inl, inr, arith,
}

-- What has happened to a key.
pub data Fate : Type 0 where
  appeared : Node → Fate
  altered : Node → Fate
  vanished : Fate

module _ (c : Cmp Key) where
  open c use {cmp}

  -- A key compares less than all entries, and the entries are in order.
  abbrev pub AboveHashes : Key → List InternalHash → Type 0
  AboveHashes k [] = Unit
  AboveHashes k (s ∷ hs) = (cmp k s.key ≡ lt) × AboveHashes k hs

  abbrev pub AreSorted : List InternalHash → Type 0
  AreSorted [] = Unit
  AreSorted (s ∷ hs) = AboveHashes s.key hs × AreSorted hs

  pub AboveHashes-trans :
      ⦃law : IsLawful c⦄
      → (a b : Key) (hs : List InternalHash) → cmp a b ≡ lt
      → AboveHashes b hs
      → AboveHashes a hs
  AboveHashes-trans ⦃law⦄ a b [] h p = tt
  AboveHashes-trans ⦃law⦄ a b (s ∷ hs) h p =
      (law.lt_trans a b s.key h p.0, AboveHashes-trans a b hs h p.1)

module _ (c : Cmp Key) (sha1 : List ℕ → List ℕ) where
  open c use {cmp}

  -- The hash under a key, and the first change of a key.
  unfoldable pub hash_at_key : Key → List InternalHash → Option Hash
  unfolding on_eq
  hash_at_key q [] = none
  hash_at_key q (s ∷ hs) = on_eq (cmp q s.key) (some s.hash) (hash_at_key q hs)

  unfoldable pub fate_at : Key → List Change → Option Fate
  unfolding on_eq
  fate_at q [] = none
  fate_at q (added k n prev ∷ es) = on_eq (cmp q k) (some (appeared n)) (fate_at q es)
  fate_at q (changed k n prev ∷ es) = on_eq (cmp q k) (some (altered n)) (fate_at q es)
  fate_at q (gone k prev ∷ es) = on_eq (cmp q k) (some vanished) (fate_at q es)

  -- What has happened to a key, by the value in the cache and the hash that was seen.
  unfoldable pub fate_of : Option Node → Option Hash → Option Fate
  unfolding hash_get hash_eq
  fate_of none none = none
  fate_of none (some h) = some vanished
  fate_of (some n) none = some (appeared n)
  fate_of (some n) (some h) =
      if hash_eq (hash_get sha1 n).1 (some h) then none else some (altered (hash_get sha1 n).0)

  hash_at_key-Above :
      (k : Key) (hs : List InternalHash) → AboveHashes c k hs → hash_at_key k hs ≡ none
  unfolding hash_at_key on_eq
  hash_at_key-Above k [] a = refl
  hash_at_key-Above k (s ∷ hs) a = rw (a.0, hash_at_key) (hash_at_key-Above k hs a.1)

  hash_at_key_congr :
      ⦃law : IsLawful c⦄
      → (a b : Key) (hs : List InternalHash) → cmp a b ≡ eq
      → hash_at_key a hs ≡ hash_at_key b hs
  unfolding hash_at_key on_eq
  hash_at_key_congr ⦃law⦄ a b [] h = refl
  hash_at_key_congr ⦃law⦄ a b (s ∷ hs) h =
      ground (arith, hash_at_key_congr a b hs, law.cmp_congr a b s.key)

  get-absent :
      ⦃law : IsLawful c⦄
      → (q k : Key) (cs : Children) → cmp q k ≡ eq
      → Above c k cs
      → get c q cs ≡ none
  get-absent ⦃law⦄ q k cs h a = get_congr c q k cs h ∙ get-Above c k cs a

  hash-absent :
      ⦃law : IsLawful c⦄
      → (q k : Key) (hs : List InternalHash) → cmp q k ≡ eq
      → AboveHashes c k hs
      → hash_at_key q hs ≡ none
  hash-absent ⦃law⦄ q k hs h a = hash_at_key_congr q k hs h ∙ hash_at_key-Above k hs a

  compare_same : ⦃law : IsLawful c⦄ → (q k s : Key) → cmp k s ≡ eq → cmp q s ≡ cmp q k
  compare_same ⦃law⦄ q k s h =
      law.cmp_flip s q
      ∙ (ap (λ o. elim o [ lt ↦ gt | eq ↦ eq | gt ↦ lt ]) (sym (law.cmp_congr k s q h))
          ∙ sym (law.cmp_flip k q))

  get-cons :
      (q k : Key) (n : Node) (cs : Children)
      → get c q (child k n cs) ≡ on_eq (cmp q k) (some n) (get c q cs)
  unfolding get on_eq
  get-cons q k n cs = ground arith

  first_gone :
      (o : Ordering) (v : Option Node) (m : Option Hash) (h : Hash) (x : Option Fate)
      → (o ≡ eq → v ≡ none)
      → x ≡ fate_of v m
      → on_eq o (some vanished) x ≡ fate_of v (on_eq o (some h) m)
  unfolding on_eq fate_of
  first_gone lt v m h x a e = e
  first_gone eq v m h x a e = rw (a refl, fate_of) refl
  first_gone gt v m h x a e = e

  first_added :
      (o : Ordering) (v : Option Node) (m : Option Hash) (n : Node) (x : Option Fate)
      → (o ≡ eq → m ≡ none)
      → x ≡ fate_of v m
      → on_eq o (some (appeared n)) x ≡ fate_of (on_eq o (some n) v) m
  unfolding on_eq fate_of
  first_added lt v m n x a e = e
  first_added eq v m n x a e = rw (a refl, fate_of) refl
  first_added gt v m n x a e = e

  seen_same :
      (o : Ordering) (v : Option Node) (m : Option Hash) (n : Node) (h : Hash) (x : Option Fate)
      → hash_eq (hash_get sha1 n).1 (some h) ≡ true
      → (o ≡ eq → v ≡ none)
      → (o ≡ eq → m ≡ none)
      → x ≡ fate_of v m
      → x ≡ fate_of (on_eq o (some n) v) (on_eq o (some h) m)
  unfolding on_eq fate_of
  seen_same lt v m n h x f a b e = e
  seen_same eq v m n h x f a b e = rw (f, fate_of) (e ∙ ap₂ fate_of (a refl) (b refl))
  seen_same gt v m n h x f a b e = e

  seen_changed :
      (o : Ordering) (v : Option Node) (m : Option Hash) (n : Node) (h : Hash) (x : Option Fate)
      → hash_eq (hash_get sha1 n).1 (some h) ≡ false
      → x ≡ fate_of v m
      → on_eq o (some (altered (hash_get sha1 n).0)) x
        ≡ fate_of (on_eq o (some n) v) (on_eq o (some h) m)
  unfolding on_eq fate_of
  seen_changed lt v m n h x f e = e
  seen_changed eq v m n h x f e = rw (f, fate_of) refl
  seen_changed gt v m n h x f e = e

  first_seen :
      (q k : Key) (prev : Option Key) (v : Option Node) (m : Option Hash) (n : Node) (h : Hash)
      (es : List Change)
      → (cmp q k ≡ eq → v ≡ none)
      → (cmp q k ≡ eq → m ≡ none)
      → fate_at q es ≡ fate_of v m
      → fate_at q (
          if hash_eq (hash_get sha1 n).1 (some h)
          then es
          else changed k (hash_get sha1 n).0 prev ∷ es)
        ≡ fate_of (on_eq (cmp q k) (some n) v) (on_eq (cmp q k) (some h) m)
  unfolding fate_at fate_of
  first_seen q k prev v m n h es a b e = elim (Bool-cases (hash_eq (hash_get sha1 n).1 (some h))) [
    | inl f ↦ rw f (seen_same (cmp q k) v m n h _ f a b e)
    | inr f ↦ rw f (seen_changed (cmp q k) v m n h _ f e)
  ]

  -- For every key, the first change that the loop triggers is what has happened to the key since its
  -- hash was seen, where both lists are in order.
  pub fate_at-child_changes :
      ⦃law : IsLawful c⦄
      → (cs : Children) (hs : List InternalHash) (prev : Option Key) (q : Key) → IsSorted c cs
      → AreSorted c hs
      → fate_at q (child_changes c sha1 cs hs prev).1 ≡ fate_of (get c q cs) (hash_at_key q hs)
  unfolding child_changes fate_at fate_of get hash_at_key
  fate_at-child_changes ⦃law⦄ end [] prev q a b = refl
  fate_at-child_changes ⦃law⦄ end (s ∷ hs) prev q a b =
      first_gone (cmp q s.key) none (hash_at_key q hs) s.hash _ (λ g. refl)
        (fate_at-child_changes end hs prev q a b.1)
  fate_at-child_changes ⦃law⦄ (child k n cs) [] prev q a b = rw (get-cons q k n cs) (
      first_added (cmp q k) (get c q cs) none n _ (λ g. refl)
        (fate_at-child_changes cs [] (some k) q a.1 b))
  fate_at-child_changes ⦃law⦄ (child k n cs) (s ∷ hs) prev q a b =
      elim (Ordering-cases (cmp k s.key)) [
        | inl h ↦
            let ih = fate_at-child_changes cs (s ∷ hs) (some k) q a.1 b in
            let m = λ (g : cmp q k ≡ eq).
              hash-absent q k (s ∷ hs) g (h, AboveHashes-trans c k s.key hs h b.0) in
            rw (h, child_changes)
              (rw (get-cons q k n cs) (first_added (cmp q k) (get c q cs) _ n _ m ih))
        | inr (inl h) ↦
            let ih = fate_at-child_changes cs hs (some k) q a.1 b.1 in
            let same = compare_same q k s.key h in
            rw (h, child_changes)
              (rw (get-cons q k n cs, same)
                (first_seen q k prev (get c q cs) (hash_at_key q hs) n s.hash _
                  (λ g. get-absent q k cs g a.0) (λ g. hash-absent q s.key hs (same ∙ g) b.0) ih))
        | inr (inr h) ↦
            let ih = fate_at-child_changes (child k n cs) hs prev q a b.1 in
            let less : cmp s.key k ≡ lt = ground (arith, law.cmp_flip k s.key) in
            let v = λ (g : cmp q s.key ≡ eq).
              get-absent q s.key (child k n cs) g (less, Above-trans c s.key k cs less a.0) in
            rw (h, child_changes)
              (first_gone (cmp q s.key) (get c q (child k n cs)) (hash_at_key q hs) s.hash _ v ih)
      ]
