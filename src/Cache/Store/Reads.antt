-- ===== src/Cache/Store/Reads.antt =====
-- Reading from the cache of lib/datasync/cache/treenode_cache.c after one pass down a path that writes at
-- its end: on that path, and on a path that parts from it.
use Prim.Native.Nat.Ordering.{lt, eq, gt}
use mathlib.Core.Path.{subst}
use webcom_sdk_c.Avl.Operations.{on_eq}
use webcom_sdk_c.Cache.Deep.{Deep, Ordered}
use webcom_sdk_c.Cache.Lookup.{IsSorted, get_congr}
use webcom_sdk_c.Cache.Store.Edit.{
  below, put, edit, get-put, get-put_self, children-IsDistinct, below-Deep,
}
use webcom_sdk_c.Cache.Store.{children_of, get_r}
use webcom_sdk_c.Cache.{
  Key, Node, leaf_null, leaf_bool, leaf_number, leaf_string, internal, Children, new_internal,
  is_internal, get,
}
use webcom_sdk_c.Compare.{Cmp, IsLawful}
use webcom_sdk_c.Datasync.{Parts}
use webcom_sdk_c.Prelude.{
  ◌≡◌, ◌≢◌, ◌⊎◌, refl, sym, ap, ◌∙◌, false, Option, none, some, [], ◌∷◌, ◌++◌, Ordering,
  Option-cases, Bool-cases, inl, inr,
}

found : (o : Option Node) → (elim o [ none ↦ none | some m ↦ some m ]) ≡ o
found none = refl
found (some m) = refl

pub on_eq-eq : (x y : Option Node) → on_eq eq x y ≡ x
unfolding on_eq
on_eq-eq x y = refl

pub on_eq_ne : (o : Ordering) (x y : Option Node) → o ≢ eq → on_eq o x y ≡ y
unfolding on_eq
on_eq_ne lt x y h = refl
on_eq_ne eq x y h = absurd (h refl)
on_eq_ne gt x y h = refl

module _ (c : Cmp Key) where
  open c use {cmp}

  pub children-IsSorted : (n : Node) → Deep (Ordered c) n → IsSorted c (children_of n)
  unfolding children_of Deep
  children-IsSorted leaf_null d = tt
  children-IsSorted (leaf_bool b) d = tt
  children-IsSorted (leaf_number h x) d = tt
  children-IsSorted (leaf_string h s) d = tt
  children-IsSorted (internal h cs) d = d.0

  -- Reading where `edit` has written.
  pub edit-writes :
      ⦃law : IsLawful c⦄
      → (f : Children → Option Children) (k : Key) (v : Option Node) (dir : Parts) (n : Node)
      → ((cs : Children) → IsSorted c cs → (cs' : Children) × (f cs ≡ some cs') × (get c k cs' ≡ v))
      → Deep (Ordered c) n
      → (n' : Node) × (edit c f dir n ≡ some n') × (get_r c n' (dir ++ k ∷ []) ≡ v)
  unfolding edit get_r
  edit-writes ⦃law⦄ f k v [] n w d =
      let (cs', e, g) = w (children_of n) (children-IsSorted n d) in
      (internal none cs', rw (e, edit) refl, found (get c k cs') ∙ g)
  edit-writes ⦃law⦄ f k v (x ∷ dir) n w d =
      let (m, e, g) = edit-writes f k v dir (below c x n) w (below-Deep c (Ordered c) x n tt d) in
      let cs = children_of n in
      let h = get-put_self c x m cs (children-IsDistinct c n d) in
      (internal none (put c x m cs), rw (e, edit) refl, rw (h, get_r) g)

  -- Two paths that part at some step.
  abbrev pub Apart : Parts → Parts → Type 0
  Apart (a ∷ p) (b ∷ q) = (cmp b a ≢ eq) ⊎ ((cmp b a ≡ eq) × Apart p q)
  Apart [] q = ⊥
  Apart (a ∷ p) [] = ⊥

  get_r-cons :
      (n : Node) (b : Key) (q : Parts)
      → get_r c n (b ∷ q) ≡ elim (get c b (children_of n)) [ none ↦ none | some m ↦ get_r c m q ]
  unfolding get_r children_of get
  get_r-cons leaf_null b q = refl
  get_r-cons (leaf_bool x) b q = refl
  get_r-cons (leaf_number h x) b q = refl
  get_r-cons (leaf_string h s) b q = refl
  get_r-cons (internal h cs) b q = refl

  leaf_read :
      (m : Node) (b : Key) (q : Parts)
      → is_internal m ≡ false
      → get_r c new_internal (b ∷ q) ≡ get_r c m (b ∷ q)
  unfolding get_r get is_internal
  leaf_read leaf_null b q i = refl
  leaf_read (leaf_bool x) b q i = refl
  leaf_read (leaf_number h x) b q i = refl
  leaf_read (leaf_string h s) b q i = refl
  leaf_read (internal h cs) b q i = absurd (cc)

  -- The node that the walk goes to has below it what the child had.
  get_r-below :
      (k : Key) (n : Node) (b : Key) (q : Parts)
      → get_r c (below c k n) (b ∷ q)
        ≡ elim (get c k (children_of n)) [ none ↦ none | some m ↦ get_r c m (b ∷ q) ]
  unfolding below
  get_r-below k n b q = elim (Option-cases (get c k (children_of n))) [
    | inl e ↦ rw (e, below) (unfold get_r get in refl)
    | inr (m, e) ↦ elim (Bool-cases (is_internal m)) [
      | inl i ↦ rw (e, below) (rw i refl)
      | inr i ↦ rw (e, below) (rw i (leaf_read m b q i))
    ]
  ]

  abbrev read_on : Parts → Option Node → Option Node
  read_on q o = elim o [ none ↦ none | some m ↦ get_r c m q ]

  Apart-nil : (p : Parts) → ¬ Apart p []
  Apart-nil [] a = elim a [ ]
  Apart-nil (x ∷ p) a = elim a [ ]

  step :
      ⦃law : IsLawful c⦄
      → (x b : Key) (p q : Parts) (n m : Node) → Apart (x ∷ p) (b ∷ q)
      → (Apart p q → get_r c m q ≡ get_r c (below c x n) q)
      → read_on q (on_eq (cmp b x) (some m) (get c b (children_of n))) ≡ get_r c n (b ∷ q)
  step ⦃law⦄ x b p q n m (inl h) ih =
      ap (read_on q) (on_eq_ne (cmp b x) _ _ h) ∙ sym (get_r-cons n b q)
  step ⦃law⦄ x b p [] n m (inr h) ih = absurd (Apart-nil p h.1)
  step ⦃law⦄ x b p (y ∷ q) n m (inr h) ih =
      ap (λ o. read_on (y ∷ q) (on_eq o (some m) (get c b (children_of n)))) h.0
      ∙ (ap (read_on (y ∷ q)) (on_eq-eq (some m) (get c b (children_of n)))
          ∙ (ih h.1
              ∙ (get_r-below x n y q
                  ∙ (ap (read_on (y ∷ q)) (sym (get_congr c b x (children_of n) h.0))
                      ∙ sym (get_r-cons n b (y ∷ q))))))

  -- Reading on a path that parts from where `edit` has written.
  pub edit-keeps :
      ⦃law : IsLawful c⦄
      → (f : Children → Option Children) (k : Key) (dir q : Parts) (n n' : Node)
      → ((b : Key) (cs cs' : Children)
          → IsSorted c cs
          → f cs ≡ some cs'
          → cmp b k ≢ eq
          → get c b cs' ≡ get c b cs)
      → Deep (Ordered c) n
      → Apart (dir ++ k ∷ []) q
      → edit c f dir n ≡ some n'
      → get_r c n' q ≡ get_r c n q
  unfolding edit children_of
  edit-keeps ⦃law⦄ f k [] (b ∷ q) n n' w d (inl a) e = elim (Option-cases (f (children_of n))) [
    | inl g ↦ absurd (cc (rw (g, edit) at e))
    | inr (cs, g) ↦
        let m : internal none cs ≡ n' = cc (rw (g, edit) at e) in
        rw (← m, get_r-cons (internal none cs) b q, get_r-cons n b q)
          (ap (λ o. elim o [ none ↦ none | some x ↦ get_r c x q ])
            (w b (children_of n) cs (children-IsSorted n d) g a))
  ]
  edit-keeps ⦃law⦄ f k [] (b ∷ []) n n' w d (inr a) e = absurd a.1
  edit-keeps ⦃law⦄ f k [] (b ∷ x ∷ q) n n' w d (inr a) e = absurd a.1
  edit-keeps ⦃law⦄ f k [] [] n n' w d a e = elim a [ ]
  edit-keeps ⦃law⦄ f k (x ∷ dir) [] n n' w d a e = elim a [ ]
  edit-keeps ⦃law⦄ f k (x ∷ dir) (b ∷ q) n n' w d a e =
      elim (Option-cases (edit c f dir (below c x n))) [
        | inl g ↦ absurd (cc (rw (g, edit) at e))
        | inr (m, g) ↦
            let r : internal none (put c x m (children_of n)) ≡ n' = cc (rw (g, edit) at e) in
            let ih = λ (p : Apart (dir ++ k ∷ []) q).
              edit-keeps f k dir q (below c x n) m w (below-Deep c (Ordered c) x n tt d) p g in
            subst (λ z. get_r c z (b ∷ q) ≡ get_r c n (b ∷ q)) r
              (get_r-cons (internal none (put c x m (children_of n))) b q
                ∙ (ap (read_on q) (get-put c b x m (children_of n) (children-IsDistinct c n d))
                    ∙ step x b (dir ++ k ∷ []) q n m a ih))
      ]
