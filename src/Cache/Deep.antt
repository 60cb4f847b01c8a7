-- ===== src/Cache/Deep.antt =====
-- Properties that hold of a cache node and of all nodes below it, and what a property of one node must
-- survive for the writes of the cache to keep it everywhere.
use mathlib.Core.Path.{subst}
use webcom_sdk_c.Cache.Digest.{digest, number_input, string_input}
use webcom_sdk_c.Cache.Digest.Coherent.{Kept, input_of}
use webcom_sdk_c.Cache.Lookup.{IsSorted, insert-IsSorted, remove-IsSorted, replace-IsSorted}
use webcom_sdk_c.Cache.{
  Key, Hash, Node, leaf_null, leaf_bool, leaf_number, leaf_string, internal, Children, end, child,
  new_internal, is_null, get, insert, remove, replace,
}
use webcom_sdk_c.Compare.{Cmp, IsLawful}
use webcom_sdk_c.Prelude.{
  ℕ, ◌≡◌, Bool, false, Option, none, some, List, Ordering-cases, inl, inr, arith,
}

unfoldable mutual
  pub Deep : (Node → Type 0) → Node → Type 0
  Deep P leaf_null = P leaf_null
  Deep P (leaf_bool b) = P (leaf_bool b)
  Deep P (leaf_number h d) = P (leaf_number h d)
  Deep P (leaf_string h s) = P (leaf_string h s)
  Deep P (internal h cs) = P (internal h cs) × DeepAll P cs

  pub DeepAll : (Node → Type 0) → Children → Type 0
  DeepAll P end = Unit
  DeepAll P (child k n cs) = Deep P n × DeepAll P cs

-- What the writes do to one node: they make leaves and internal nodes, reset the hash, and insert,
-- remove and replace a child; they insert no null.
pub record Closed (c : Cmp Key) (P : Node → Type 0) : Type 0 where
  pub null_ok : P leaf_null
  pub bool_ok : (b : Bool) → P (leaf_bool b)
  pub number_ok : (d : ℕ) → P (leaf_number none d)
  pub string_ok : (s : List ℕ) → P (leaf_string none s)
  pub new_ok : P new_internal
  pub reset_ok : (h : Option Hash) (cs : Children) → P (internal h cs) → P (internal none cs)
  pub insert_ok :
      (k : Key) (m : Node) (cs : Children)
      → is_null m ≡ false
      → P (internal none cs)
      → P (internal none (insert c k m cs))
  pub remove_ok :
      (k : Key) (cs : Children) → P (internal none cs) → P (internal none (remove c k cs))
  pub replace_ok :
      (k : Key) (m : Node) (cs : Children)
      → is_null m ≡ false
      → P (internal none cs)
      → P (internal none (replace c k m cs))

module _ (c : Cmp Key) (P : Node → Type 0) where
  pub insert-DeepAll :
      (k : Key) (m : Node) (cs : Children) → Deep P m → DeepAll P cs → DeepAll P (insert c k m cs)
  unfolding insert Deep
  insert-DeepAll k m end d a = (d, tt)
  insert-DeepAll k m (child x n cs) d a = elim (Ordering-cases (c.cmp k x)) [
    | inl g ↦ rw (g, insert) (d, a)
    | inr (inl g) ↦ rw (g, insert) a
    | inr (inr g) ↦ rw (g, insert) (a.0, insert-DeepAll k m cs d a.1)
  ]

  pub remove-DeepAll : (k : Key) (cs : Children) → DeepAll P cs → DeepAll P (remove c k cs)
  unfolding remove Deep
  remove-DeepAll k end a = tt
  remove-DeepAll k (child x n cs) a = elim (Ordering-cases (c.cmp k x)) [
    | inl g ↦ rw (g, remove) (a.0, remove-DeepAll k cs a.1)
    | inr (inl g) ↦ rw (g, remove) a.1
    | inr (inr g) ↦ rw (g, remove) (a.0, remove-DeepAll k cs a.1)
  ]

  pub replace-DeepAll :
      (k : Key) (m : Node) (cs : Children) → Deep P m → DeepAll P cs → DeepAll P (replace c k m cs)
  unfolding replace Deep
  replace-DeepAll k m end d a = tt
  replace-DeepAll k m (child x n cs) d a = elim (Ordering-cases (c.cmp k x)) [
    | inl g ↦ rw (g, replace) (a.0, replace-DeepAll k m cs d a.1)
    | inr (inl g) ↦ rw (g, replace) (d, a.1)
    | inr (inr g) ↦ rw (g, replace) (a.0, replace-DeepAll k m cs d a.1)
  ]

  pub get-Deep :
      (k : Key) (cs : Children) {m : Node} → DeepAll P cs → get c k cs ≡ some m → Deep P m
  unfolding get Deep
  get-Deep k end a e = absurd (cc)
  get-Deep k (child x n cs) {m} a e = elim (Ordering-cases (c.cmp k x)) [
    | inl g ↦ get-Deep k cs a.1 (rw (g, get) at e)
    | inr (inl g) ↦ let f : some n ≡ some m = rw (g, get) at e in subst (Deep P) (cc f) a.0
    | inr (inr g) ↦ get-Deep k cs a.1 (rw (g, get) at e)
  ]

-- The children of an internal node are in order.
abbrev pub Ordered : Cmp Key → Node → Type 0
Ordered c (internal h cs) = IsSorted c cs
Ordered c _ = Unit

-- No child is null.
abbrev pub NoNull : Children → Type 0
NoNull end = Unit
NoNull (child k n cs) = (is_null n ≡ false) × NoNull cs

abbrev pub Full : Node → Type 0
Full (internal h cs) = NoNull cs
Full _ = Unit

-- A kept hash is the hash of the content.
abbrev pub Coherent : (List ℕ → List ℕ) → Node → Type 0
Coherent sha1 leaf_null = Unit
Coherent sha1 (leaf_bool b) = Unit
Coherent sha1 (leaf_number h d) = Kept h (digest sha1 (number_input d))
Coherent sha1 (leaf_string h s) = Kept h (digest sha1 (string_input s))
Coherent sha1 (internal h cs) = Kept h (digest sha1 (input_of sha1 cs))

pub Ordered-Closed : (c : Cmp Key) ⦃law : IsLawful c⦄ → Closed c (Ordered c)
Ordered-Closed c ⦃law⦄ = record {
  null_ok = tt;
  bool_ok = λ b. tt;
  number_ok = λ d. tt;
  string_ok = λ s. tt;
  new_ok = tt;
  reset_ok = λ h cs p. p;
  insert_ok = λ k m cs e p. insert-IsSorted c k m cs p;
  remove_ok = λ k cs p. remove-IsSorted c k cs p;
  replace_ok = λ k m cs e p. replace-IsSorted c k m cs p;
}

pub Coherent-Closed : (c : Cmp Key) (sha1 : List ℕ → List ℕ) → Closed c (Coherent sha1)
Coherent-Closed c sha1 = record {
  null_ok = tt;
  bool_ok = λ b. tt;
  number_ok = λ d. tt;
  string_ok = λ s. tt;
  new_ok = tt;
  reset_ok = λ h cs p. tt;
  insert_ok = λ k m cs e p. tt;
  remove_ok = λ k cs p. tt;
  replace_ok = λ k m cs e p. tt;
}

module _ (c : Cmp Key) where
  insert-NoNull :
      (k : Key) (m : Node) (cs : Children)
      → is_null m ≡ false
      → NoNull cs
      → NoNull (insert c k m cs)
  unfolding insert
  insert-NoNull k m end e p = (e, tt)
  insert-NoNull k m (child x n cs) e p = ground (arith, insert-NoNull k m cs)

  remove-NoNull : (k : Key) (cs : Children) → NoNull cs → NoNull (remove c k cs)
  unfolding remove
  remove-NoNull k end p = tt
  remove-NoNull k (child x n cs) p = ground (arith, remove-NoNull k cs)

  replace-NoNull :
      (k : Key) (m : Node) (cs : Children)
      → is_null m ≡ false
      → NoNull cs
      → NoNull (replace c k m cs)
  unfolding replace
  replace-NoNull k m end e p = tt
  replace-NoNull k m (child x n cs) e p = ground (arith, replace-NoNull k m cs)

  pub Full-Closed : Closed c Full
  Full-Closed = record {
    null_ok = tt;
    bool_ok = λ b. tt;
    number_ok = λ d. tt;
    string_ok = λ s. tt;
    new_ok = tt;
    reset_ok = λ h cs p. p;
    insert_ok = insert-NoNull;
    remove_ok = remove-NoNull;
    replace_ok = replace-NoNull;
  }
