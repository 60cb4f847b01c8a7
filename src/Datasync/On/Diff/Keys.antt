-- ===== src/Datasync/On/Diff/Keys.antt =====
-- The loop of on_child_trig in lib/datasync/on/on_registry.c under the order of keys of
-- lib/datasync/path.c.
use webcom_sdk_c.Avl.Operations.{on_eq}
use webcom_sdk_c.Cache.Lookup.{Above, IsSorted}
use webcom_sdk_c.Cache.{Key, Hash, Node, Children, end, child, get}
use webcom_sdk_c.Compare.Agree.{order-IsLawful}
use webcom_sdk_c.Compare.{Cmp, IsLawful}
use webcom_sdk_c.Datasync.On.Diff.{
  appeared, altered, vanished, AboveHashes, AreSorted, hash_at_key, fate_at, fate_of,
  fate_at-child_changes,
}
use webcom_sdk_c.Datasync.On.{InternalHash, Change, added, changed, gone, child_changes}
use webcom_sdk_c.Cache.Digest.{hash_get, hash_eq}
use webcom_sdk_c.Path.Order.Narrow.{IsNear, windowed, windowed-IsOrder, key_cmp-windowed}
use webcom_sdk_c.Path.Order.{key_cmp}
use webcom_sdk_c.Prelude.{
  ℕ, ◌+◌, ◌^◌, ◌≤◌, ◌≡◌, refl, sym, ap, ap₂, ◌∙◌, Bool, true, false, Option, none, some, List, [],
  ◌∷◌, All, u64_mod, arith, if◌then◌else◌, Ordering-cases, inl, inr,
}

-- The order of keys of the program.
abbrev pub keys : (List ℕ → Option ℕ) → Cmp Key
keys scan = record { cmp = key_cmp scan; copy = λ k. k }

-- The keys of children.
abbrev pub AllKeys : (Key → Type 0) → Children → Type 0
AllKeys P end = Unit
AllKeys P (child k n cs) = P k × AllKeys P cs

abbrev KeyOf : (Key → Type 0) → Change → Type 0
KeyOf P (added k n prev) = P k
KeyOf P (changed k n prev) = P k
KeyOf P (gone k prev) = P k

unless-KeyOf :
    (P : Key → Type 0) (b : Bool) (e : Change) (es : List Change)
    → KeyOf P e
    → All (KeyOf P) es
    → All (KeyOf P) (if b then es else e ∷ es)
unless-KeyOf P true e es p a = a
unless-KeyOf P false e es p a = (p, a)

module _ (c d : Cmp Key) (P : Key → Type 0)
    (agree : (a b : Key) → P a → P b → c.cmp a b ≡ d.cmp a b) where
  pub get_agree : (k : Key) (cs : Children) → P k → AllKeys P cs → get c k cs ≡ get d k cs
  unfolding get
  get_agree k end p a = refl
  get_agree k (child x n cs) p a = ground (arith, agree k x p a.0, get_agree k cs p a.1)

  agree-Above : (k : Key) (cs : Children) → P k → AllKeys P cs → Above c k cs → Above d k cs
  agree-Above k end p a h = tt
  agree-Above k (child x n cs) p a h = (sym (agree k x p a.0) ∙ h.0, agree-Above k cs p a.1 h.1)

  pub agree-IsSorted : (cs : Children) → AllKeys P cs → IsSorted c cs → IsSorted d cs
  agree-IsSorted end a s = tt
  agree-IsSorted (child k n cs) a s = (agree-Above k cs a.0 a.1 s.0, agree-IsSorted cs a.1 s.1)

  agree-AboveHashes :
      (k : Key) (hs : List InternalHash)
      → P k
      → All (λ s. P s.key) hs
      → AboveHashes c k hs
      → AboveHashes d k hs
  agree-AboveHashes k [] p a h = tt
  agree-AboveHashes k (s ∷ hs) p a h =
      (sym (agree k s.key p a.0) ∙ h.0, agree-AboveHashes k hs p a.1 h.1)

  agree-AreSorted :
      (hs : List InternalHash) → All (λ s. P s.key) hs → AreSorted c hs → AreSorted d hs
  agree-AreSorted [] a s = tt
  agree-AreSorted (t ∷ hs) a s =
      (agree-AboveHashes t.key hs a.0 a.1 s.0, agree-AreSorted hs a.1 s.1)

  module _ (sha1 : List ℕ → List ℕ) where
    hash_at_key_agree :
        (q : Key) (hs : List InternalHash)
        → P q
        → All (λ s. P s.key) hs
        → hash_at_key c sha1 q hs ≡ hash_at_key d sha1 q hs
    unfolding hash_at_key on_eq
    hash_at_key_agree q [] p a = refl
    hash_at_key_agree q (s ∷ hs) p a =
        ground (arith, agree q s.key p a.0, hash_at_key_agree q hs p a.1)

    fate_at_agree :
        (q : Key) (es : List Change)
        → P q
        → All (KeyOf P) es
        → fate_at c sha1 q es ≡ fate_at d sha1 q es
    unfolding fate_at
    fate_at_agree q [] p a = refl
    fate_at_agree q (added k n prev ∷ es) p a =
        ap₂ (λ o r. on_eq o (some (appeared n)) r) (agree q k p a.0) (fate_at_agree q es p a.1)
    fate_at_agree q (changed k n prev ∷ es) p a =
        ap₂ (λ o r. on_eq o (some (altered n)) r) (agree q k p a.0) (fate_at_agree q es p a.1)
    fate_at_agree q (gone k prev ∷ es) p a =
        ap₂ (λ o r. on_eq o (some vanished) r) (agree q k p a.0) (fate_at_agree q es p a.1)

    fate_of_same : (n : Option Node) (h : Option Hash) → fate_of c sha1 n h ≡ fate_of d sha1 n h
    unfolding fate_of
    fate_of_same none none = refl
    fate_of_same none (some h) = refl
    fate_of_same (some n) none = refl
    fate_of_same (some n) (some h) = refl

    -- The changes are the same, and their keys are those of the children and of the hashes.
    SameChanges : Children → List InternalHash → Option Key → Type 0
    SameChanges cs hs prev =
        (child_changes c sha1 cs hs prev ≡ child_changes d sha1 cs hs prev)
        × All (KeyOf P) (child_changes c sha1 cs hs prev).1

    child_changes_agree :
        (cs : Children) (hs : List InternalHash) (prev : Option Key)
        → AllKeys P cs
        → All (λ s. P s.key) hs
        → SameChanges cs hs prev
    unfolding SameChanges child_changes
    child_changes_agree end [] prev a b = (refl, tt)
    child_changes_agree end (s ∷ hs) prev a b =
        let (e, k) = child_changes_agree end hs prev a b.1 in
        (ap (λ r. (r.0, gone s.key prev ∷ r.1)) e, (b.0, k))
    child_changes_agree (child k n cs) [] prev a b =
        let (e, q) = child_changes_agree cs [] (some k) a.1 b in
        (ap (λ r. (child k n r.0, added k n prev ∷ r.1)) e, (a.0, q))
    child_changes_agree (child k n cs) (s ∷ hs) prev a b =
        let g = sym (agree k s.key a.0 b.0) in
        elim (Ordering-cases (c.cmp k s.key)) [
          | inl h ↦
              let (e, q) = child_changes_agree cs (s ∷ hs) (some k) a.1 b in
              rw (h, child_changes, g ∙ h)
                (ap (λ r. (child k n r.0, added k n prev ∷ r.1)) e, (a.0, q))
          | inr (inl h) ↦
              let (e, q) = child_changes_agree cs hs (some k) a.1 b.1 in
              let (n', x) = hash_get sha1 n in
              rw (h, child_changes, g ∙ h)
                (
                  ap
                      (λ r. (
                        child k n' r.0,
                        if hash_eq x (some s.hash) then r.1 else changed k n' prev ∷ r.1,
                      ))
                      e,
                  unless-KeyOf P (hash_eq x (some s.hash)) (changed k n' prev) _ a.0 q,
                )
          | inr (inr h) ↦
              let (e, q) = child_changes_agree (child k n cs) hs prev a b.1 in
              rw (h, child_changes, g ∙ h) (ap (λ r. (r.0, gone s.key prev ∷ r.1)) e, (b.0, q))
        ]

-- Where the numbers that the keys of the children, of the hashes and the key asked for are read as
-- stand in one window of 2^31, and the children and the hashes are in the order of keys of the
-- program, the first change that the loop of on_child_trig triggers for the key is what has
-- happened to the key since its hash was stored: it has appeared, its hash differs, it has
-- vanished, or there is none.
pub fate_at-keys :
    (scan : List ℕ → Option ℕ) (lo : ℕ) (sha1 : List ℕ → List ℕ) (cs : Children)
    (hs : List InternalHash) (prev : Option Key) (q : Key)
    → lo + 2 ^ 31 ≤ u64_mod
    → AllKeys (IsNear scan lo) cs
    → All (λ s. IsNear scan lo s.key) hs
    → IsNear scan lo q
    → IsSorted (keys scan) cs
    → AreSorted (keys scan) hs
    → fate_at (keys scan) sha1 q (child_changes (keys scan) sha1 cs hs prev).1
      ≡ fate_of (keys scan) sha1 (get (keys scan) q cs) (hash_at_key (keys scan) sha1 q hs)
unfolding SameChanges
fate_at-keys scan lo sha1 cs hs prev q top a b n s t =
    let c = keys scan in
    let d = keys (windowed scan lo top) in
    let P = IsNear scan lo in
    let agree = key_cmp-windowed scan lo top in
    let law : IsLawful d =
      order-IsLawful (key_cmp (windowed scan lo top)) (windowed-IsOrder scan lo top) in
    let (e, k) = child_changes_agree c d P agree sha1 cs hs prev a b in
    fate_at_agree c d P agree sha1 q _ n k
    ∙ ap (λ r. fate_at d sha1 q r.1) e
    ∙ fate_at-child_changes d sha1 ⦃law = law⦄ cs hs prev q (agree-IsSorted c d P agree cs a s)
        (agree-AreSorted c d P agree hs b t)
    ∙ sym (
        ap₂ (fate_of d sha1) (get_agree c d P agree q cs n a)
          (hash_at_key_agree c d P agree sha1 q hs n b))
    ∙ sym (fate_of_same c d P agree sha1 (get c q cs) (hash_at_key c sha1 q hs))
