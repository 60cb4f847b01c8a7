-- ===== src/Cache/Text/Laws.antt =====
-- The JSON text of a cache node: it fits in the buffer that is allocated for it, the stream gets the
-- same text, and without null children it is the members joined by commas.
use webcom_sdk_c.Cache.Deep.{NoNull}
use webcom_sdk_c.Cache.Text.{
  count, comma, to_json_len, children_len, to_json, children_json, fto_json, fchildren_json,
  treenode_to_json_len, treenode_to_json, ftreenode_to_json,
}
use webcom_sdk_c.Cache.{
  Node, leaf_null, leaf_bool, leaf_number, leaf_string, internal, Children, end, child, is_null,
}
use webcom_sdk_c.Json.Escape.{length-json_escape_str, fjson_escape_str-json_escape_str}
use webcom_sdk_c.Json.{json_escaped_str_len, json_escape_str, fjson_escape_str}
use webcom_sdk_c.Prelude.{
  ℕ, ◌+◌, ◌-◌, ◌≤◌, ◌≡◌, refl, sym, ap, ◌∙◌, Option, none, some, List, [], ◌∷◌, ◌++◌, length,
  length-append, append_assoc, append-nil, Bool-cases, inl, inr, arith,
}

length-comma : (cs : Children) → length (comma cs) + (count cs - 1) ≤ count cs
unfolding comma count
length-comma end = omega arith
length-comma (child k n cs) = omega arith

regroup :
    (s k j m r : List ℕ)
    → ((((s ++ k) ++ b':' ∷ []) ++ j) ++ m) ++ r ≡ s ++ ((k ++ b':' ∷ (j ++ m)) ++ r)
regroup s k j m r = simp append_assoc

append_assoc3 : (k j r : List ℕ) → (k ++ b':' ∷ (j ++ b',' ∷ [])) ++ r ≡ (k ++ b':' ∷ j) ++ b',' ∷ r
append_assoc3 k j r = simp append_assoc

pub joined : List (List ℕ) → List ℕ
joined [] = []
joined (s ∷ []) = s
joined (s ∷ t ∷ ts) = s ++ b',' ∷ joined (t ∷ ts)

module _ (print_number : ℕ → List ℕ) where
  length-member :
      (k j : List ℕ) (cs : Children) (m : ℕ)
      → length j ≤ m
      → length (json_escape_str k ++ b':' ∷ (j ++ comma cs))
        ≤ json_escaped_str_len k + 1 + m + length (comma cs)
  length-member k j cs m h =
      rw (length-append (json_escape_str k) (b':' ∷ (j ++ comma cs)), length-append j (comma cs))
        (omega (arith, length-json_escape_str k))

  mutual
    unfolding to_json_len to_json

    length-to_json : (n : Node) → length (to_json print_number n) ≤ to_json_len print_number n
    length-to_json leaf_null = omega arith
    length-to_json (leaf_bool b) = omega arith
    length-to_json (leaf_number h d) = omega arith
    length-to_json (leaf_string h s) = length-json_escape_str s
    length-to_json (internal h cs) =
        rw (length-append (children_json print_number cs) (b'}' ∷ []))
          (omega (arith, length-children_json cs))

    length-children_json :
        (cs : Children)
        → length (children_json print_number cs) ≤ children_len print_number cs + (count cs - 1)
    length-children_json end = omega arith
    length-children_json (child k n cs) = elim (Bool-cases (is_null n)) [
      | inl e ↦ rw e (omega (arith, length-children_json cs))
      | inr e ↦
          let j = to_json print_number n in
          rw
            (
              e,
              length-append (json_escape_str k ++ b':' ∷ (j ++ comma cs))
                  (children_json print_number cs),
            )
            (omega (
              arith,
              length-children_json cs,
              length-comma cs,
              length-member k j cs (to_json_len print_number n) (length-to_json n),
            ))
    ]

  -- The text of a node is not longer than the length that is computed for its buffer.
  pub length-treenode_to_json :
      (o : Option Node)
      → length (treenode_to_json print_number o) ≤ treenode_to_json_len print_number o
  unfolding treenode_to_json treenode_to_json_len
  length-treenode_to_json none = omega arith
  length-treenode_to_json (some n) = length-to_json n

  mutual
    unfolding fto_json to_json

    fto_json-to_json :
        (n : Node) (stream : List ℕ)
        → fto_json print_number n stream ≡ stream ++ to_json print_number n
    fto_json-to_json leaf_null stream = refl
    fto_json-to_json (leaf_bool b) stream = refl
    fto_json-to_json (leaf_number h d) stream = refl
    fto_json-to_json (leaf_string h s) stream = fjson_escape_str-json_escape_str s stream
    fto_json-to_json (internal h cs) stream =
        rw (fchildren_json-children_json cs (stream ++ b'{' ∷ [])) (simp append_assoc)

    fchildren_json-children_json :
        (cs : Children) (stream : List ℕ)
        → fchildren_json print_number cs stream ≡ stream ++ children_json print_number cs
    fchildren_json-children_json end stream = sym (append-nil stream)
    fchildren_json-children_json (child k n cs) stream = elim (Bool-cases (is_null n)) [
      | inl e ↦ rw e (fchildren_json-children_json cs stream)
      | inr e ↦
          let at_value = fjson_escape_str k stream ++ b':' ∷ [] in
          let after_value = fto_json print_number n at_value ++ comma cs in
          rw e (
            fchildren_json-children_json cs after_value
            ∙ (ap (λ t. (t ++ comma cs) ++ children_json print_number cs)
                  (fto_json-to_json n at_value
                    ∙ ap (λ t. (t ++ b':' ∷ []) ++ to_json print_number n)
                        (fjson_escape_str-json_escape_str k stream))
                ∙ regroup stream (json_escape_str k) (to_json print_number n) (comma cs)
                    (children_json print_number cs)))
    ]

  -- `ftreenode_to_json` appends to the stream the text that `treenode_to_json` writes.
  pub ftreenode_to_json-treenode_to_json :
      (o : Option Node) (stream : List ℕ)
      → ftreenode_to_json print_number o stream ≡ stream ++ treenode_to_json print_number o
  unfolding ftreenode_to_json treenode_to_json
  ftreenode_to_json-treenode_to_json none stream = refl
  ftreenode_to_json-treenode_to_json (some n) stream = fto_json-to_json n stream

  -- The members of an object, each a key and a value, and texts joined by commas.
  pub members : Children → List (List ℕ)
  members end = []
  members (child k n cs) = (json_escape_str k ++ b':' ∷ to_json print_number n) ∷ members cs

  -- An object without null members is written as its members with a comma between any two.
  pub children_json-joined :
      (cs : Children) → NoNull cs → children_json print_number cs ≡ joined (members cs)
  unfolding to_json members joined comma
  children_json-joined end h = refl
  children_json-joined (child k n end) h = rw h.0 (simp append-nil)
  children_json-joined (child k n (child l m cs)) h =
      rw (h.0, sym (children_json-joined (child l m cs) h.1))
        (append_assoc3 (json_escape_str k) (to_json print_number n)
          (children_json print_number (child l m cs)))
