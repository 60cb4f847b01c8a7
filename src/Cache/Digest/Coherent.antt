-- ===== src/Cache/Digest/Coherent.antt =====
-- The hashes that cache nodes keep, against the hash that a node has by its content alone.
use webcom_sdk_c.Cache.Digest.{
  bool_hash, number_input, string_input, child_input, digest, hash_get, hash_children,
}
use webcom_sdk_c.Cache.{
  Hash, Node, leaf_null, leaf_bool, leaf_number, leaf_string, internal, Children, end, child,
  is_null,
}
use webcom_sdk_c.Prelude.{
  ℕ, ◌≡◌, refl, sym, ap, ap₂, ◌∙◌, Bool, true, false, Option, none, some, List, [], ◌++◌,
  if◌then◌else◌,
}

-- A node without the hashes that it keeps.
unfoldable mutual
  pub forget : Node → Node
  forget leaf_null = leaf_null
  forget (leaf_bool b) = leaf_bool b
  forget (leaf_number h d) = leaf_number none d
  forget (leaf_string h s) = leaf_string none s
  forget (internal h cs) = internal none (forget_children cs)

  pub forget_children : Children → Children
  forget_children end = end
  forget_children (child k n cs) = child k (forget n) (forget_children cs)

abbrev pub Kept : Option Hash → Hash → Type 0
Kept none v = Unit
Kept (some h) v = h ≡ v

module _ (sha1 : List ℕ → List ℕ) where
  -- The hash of a node by its content, and what the children give to the digest.
  unfoldable mutual
    unfolding is_null bool_hash number_input string_input child_input

    pub hash_of : Node → Option Hash
    hash_of leaf_null = none
    hash_of (leaf_bool b) = some (bool_hash b)
    hash_of (leaf_number h d) = some (digest sha1 (number_input d))
    hash_of (leaf_string h s) = some (digest sha1 (string_input s))
    hash_of (internal h cs) = some (digest sha1 (input_of cs))

    pub input_of : Children → List ℕ
    input_of end = []
    input_of (child k n cs) = child_input k (hash_of n) ++ input_of cs

  -- Every hash that a node and those below it keep is the hash of its content.
  unfoldable mutual
    unfolding hash_of

    pub IsCoherent : Node → Type 0
    IsCoherent leaf_null = Unit
    IsCoherent (leaf_bool b) = Unit
    IsCoherent (leaf_number h d) = Kept h (digest sha1 (number_input d))
    IsCoherent (leaf_string h s) = Kept h (digest sha1 (string_input s))
    IsCoherent (internal h cs) = Kept h (digest sha1 (input_of cs)) × AreCoherent cs

    pub AreCoherent : Children → Type 0
    AreCoherent end = Unit
    AreCoherent (child k n cs) = IsCoherent n × AreCoherent cs

  -- What is asked of `hash_get` and of its loop.
  record Hashed (n n' : Node) (h : Option Hash) : Type 0 where
    right : h ≡ hash_of n
    same : hash_of n' ≡ hash_of n
    kept : IsCoherent n'
    content : forget n' ≡ forget n

  record HashedAll (cs cs' : Children) (input : List ℕ) : Type 0 where
    right : input ≡ input_of cs
    same : input_of cs' ≡ input_of cs
    kept : AreCoherent cs'
    content : forget_children cs' ≡ forget_children cs

  hash_of-is_null : (n : Node) → is_null n ≡ true → hash_of n ≡ none
  unfolding is_null hash_of
  hash_of-is_null leaf_null e = refl
  hash_of-is_null (leaf_bool b) e = absurd (cc)
  hash_of-is_null (leaf_number h d) e = absurd (cc)
  hash_of-is_null (leaf_string h s) e = absurd (cc)
  hash_of-is_null (internal h cs) e = absurd (cc)

  -- The two branches of the loop's body.
  joined :
      (k : List ℕ) (n n' : Node) (h : Option Hash) (cs cs' : Children) (input : List ℕ) (b : Bool)
      → is_null n ≡ b
      → Hashed n n' h
      → HashedAll cs cs' input
      → IsCoherent n
      → let r : Children × List ℕ =
          if b then (child k n cs', input) else (child k n' cs', child_input k h ++ input) in
        HashedAll (child k n cs) r.0 r.1
  unfolding hash_of IsCoherent forget
  joined k n n' h cs cs' input true e a b v =
      let f = hash_of-is_null n e in
      record {
        right = rw f b.right;
        same = rw f b.same;
        kept = (v, b.kept);
        content = ap (child k (forget n)) b.content;
      }
  joined k n n' h cs cs' input false e a b v = record {
    right = ap₂ (λ x y. child_input k x ++ y) a.right b.right;
    same = ap₂ (λ x y. child_input k x ++ y) a.same b.same;
    kept = (a.kept, b.kept);
    content = ap₂ (child k) a.content b.content;
  }

  mutual
    unfolding hash_get hash_of IsCoherent forget

    hash_get-Hashed : (n : Node) → IsCoherent n → Hashed n (hash_get sha1 n).0 (hash_get sha1 n).1
    hash_get-Hashed leaf_null v = record { right = refl; same = refl; kept = tt; content = refl }
    hash_get-Hashed (leaf_bool b) v = record {
      right = refl;
      same = refl;
      kept = tt;
      content = refl;
    }
    hash_get-Hashed (leaf_number none d) v = record {
      right = refl;
      same = refl;
      kept = refl;
      content = refl;
    }
    hash_get-Hashed (leaf_number (some h) d) v = record {
      right = ap some v;
      same = refl;
      kept = v;
      content = refl;
    }
    hash_get-Hashed (leaf_string none s) v = record {
      right = refl;
      same = refl;
      kept = refl;
      content = refl;
    }
    hash_get-Hashed (leaf_string (some h) s) v = record {
      right = ap some v;
      same = refl;
      kept = v;
      content = refl;
    }
    hash_get-Hashed (internal (some h) cs) v = record {
      right = ap some v.0;
      same = refl;
      kept = v;
      content = refl;
    }
    hash_get-Hashed (internal none cs) v =
        let w = hash_children-Hashed cs v.1 in
        record {
          right = ap (λ t. some (digest sha1 t)) w.right;
          same = ap (λ t. some (digest sha1 t)) w.same;
          kept = (ap (digest sha1) (w.right ∙ sym w.same), w.kept);
          content = ap (internal none) w.content;
        }

    hash_children-Hashed :
        (cs : Children)
        → AreCoherent cs
        → HashedAll cs (hash_children sha1 cs).0 (hash_children sha1 cs).1
    hash_children-Hashed end v = record { right = refl; same = refl; kept = tt; content = refl }
    hash_children-Hashed (child k n cs) v =
        joined k n _ _ cs _ _ (is_null n) refl (hash_get-Hashed n v.0) (hash_children-Hashed cs v.1)
          v.0

  -- Where every hash that is kept is right, `treenode_hash_get` gives the hash of the content, keeps
  -- right hashes only, and changes nothing else of the node.
  pub hash_get-hash_of :
      (n : Node)
      → IsCoherent n
      → ((hash_get sha1 n).1 ≡ hash_of n)
        × IsCoherent (hash_get sha1 n).0
        × (forget (hash_get sha1 n).0 ≡ forget n)
  hash_get-hash_of n v = let w = hash_get-Hashed n v in (w.right, w.kept, w.content)
