-- ===== src/Avl/Iterator/Remaining.antt =====
-- What the iterator of lib/collection/avl.c hands out: the elements of the tree in order, from the
-- first one or from the first that is not below a key.
use Prim.Native.Nat.Ordering.{lt, gt}
use mathlib.Core.List.{head?, tail}
use webcom_sdk_c.Avl.Iterator.{
  Node, It, push_left, it_start, next_on, it_next, start_at, it_start_at, it_init, take_next,
  it_peek_next,
}
use webcom_sdk_c.Avl.Order.{to_list, IsOrdered, parts_of, below_of}
use webcom_sdk_c.Avl.Sorted.{Below, Below_congr}
use webcom_sdk_c.Avl.{Tree, nil, node, Avl}
use webcom_sdk_c.Compare.{Cmp, IsLawful}
use webcom_sdk_c.Prelude.{
  ℕ, zero, suc, ◌≤◌, ◌≡◌, refl, sym, ap, ◌∙◌, some, List, [], ◌∷◌, ◌++◌, append_assoc, append-nil,
  length, inl, inr, Ordering-cases, arith,
}

module _ {ℓ} {A : Type ℓ} where
  -- The elements that the iterator has still to hand out.
  unfoldable pub remaining : List (Node A) → List A
  remaining [] = []
  remaining (n ∷ s) = n.elem ∷ (to_list n.right ++ remaining s)

  remaining-push_left :
      (t : Tree A) (s : List (Node A)) → remaining (push_left t s) ≡ to_list t ++ remaining s
  unfolding push_left remaining to_list
  remaining-push_left nil s = refl
  remaining-push_left (node l h x r) s =
      remaining-push_left l (record { left = l; elem = x; right = r } ∷ s)
      ∙ sym (append_assoc (to_list l) (x ∷ to_list r) (remaining s))

  -- A new iterator has the whole tree before it, in order.
  pub it_start-remaining : (t : Avl A) → remaining (it_start (some t)).stack ≡ to_list t.root
  unfolding it_start remaining
  it_start-remaining t = remaining-push_left t.root [] ∙ append-nil (to_list t.root)

  -- Each step hands out the first of the remaining elements and keeps the others; at the end it
  -- hands out nothing.
  pub it_next-remaining :
      (it : It A)
      → ((it_next it).0 ≡ head? (remaining it.stack))
        × (remaining (it_next it).1.stack ≡ tail (remaining it.stack))
  unfolding it_next remaining
  it_next-remaining it = go it.stack refl
    where
      go :
          (s : List (Node A))
          → it.stack ≡ s
          → ((next_on s it).0 ≡ head? (remaining s))
            × (remaining (next_on s it).1.stack ≡ tail (remaining s))
      go [] e = (refl, ap remaining e)
      go (n ∷ s) e = (refl, remaining-push_left n.right s)

  -- `avl_it_peek_next` shows the element that the next step hands out.
  pub it_peek_next-it_next : (it : It A) → it_peek_next it ≡ (it_next it).0
  unfolding it_peek_next it_next
  it_peek_next-it_next it = ground arith

  take_next_list :
      (n : ℕ) (it : It A) (xs : List A)
      → remaining it.stack ≡ xs
      → length xs ≤ n
      → take_next n it ≡ xs
  unfolding take_next
  take_next_list zero it [] e h = refl
  take_next_list zero it (x ∷ xs) e h = absurd (omega arith)
  take_next_list (suc n) it [] e h = rw ((it_next-remaining it).0, e, take_next)
  take_next_list (suc n) it (x ∷ xs) e h =
      let s = it_next-remaining it in
      rw (s.0, e, take_next)
        (ap (λ r. x ∷ r) (take_next_list n _ xs (s.1 ∙ ap tail e) (omega arith)))

  -- Enough steps hand out all that remains.
  pub take_next-remaining :
      (n : ℕ) (it : It A) → length (remaining it.stack) ≤ n → take_next n it ≡ remaining it.stack
  take_next-remaining n it h = take_next_list n it _ refl h

  -- A loop over a new iterator, of as many calls as the tree has elements or more, visits every
  -- element of the tree, in order.
  pub take_next-it_start :
      (t : Avl A) (n : ℕ)
      → length (to_list t.root) ≤ n
      → take_next n (it_start (some t)) ≡ to_list t.root
  take_next-it_start t n h = take_next_list n (it_start (some t)) _ (it_start-remaining t) h

module _ {ℓ} {A : Type ℓ} (c : Cmp A) where
  -- The part of a list from the first element that the key does not compare greater than.
  unfoldable pub from : A → List A → List A
  from k [] = []
  from k (x ∷ xs) = elim (c.cmp k x) [ gt ↦ from k xs | _ ↦ x ∷ xs ]

  from_left :
      (k : A) (xs : List A) (x : A) (ys : List A)
      → c.cmp k x ≡ lt
      → from k (xs ++ x ∷ ys) ≡ from k xs ++ x ∷ ys
  unfolding from
  from_left k [] x ys h = rw h
  from_left k (z ∷ xs) x ys h = ground (arith, from_left k xs x ys h)

  from_right :
      ⦃law : IsLawful c⦄ → (k : A) (xs ys : List A) → Below c k xs → from k (xs ++ ys) ≡ from k ys
  unfolding from
  from_right ⦃law⦄ k [] ys b = refl
  from_right ⦃law⦄ k (x ∷ xs) ys b = rw (law.cmp_flip x k, b.0) (from_right k xs ys b.1)

  remaining-start_at :
      ⦃law : IsLawful c⦄
      → (k : A) (t : Tree A) (it : It A) → IsOrdered c t
      → remaining (start_at c k t it).stack ≡ from k (to_list t) ++ remaining it.stack
  unfolding start_at remaining from to_list
  remaining-start_at ⦃law⦄ k nil it s = refl
  remaining-start_at ⦃law⦄ k (node l h x r) it s =
      let p = parts_of c l x r s in
      elim (Ordering-cases (c.cmp k x)) [
        | inl e ↦
            rw (e, start_at)
              (remaining-start_at k l _ p.left
                ∙ sym (
                    ap (λ w. w ++ remaining it.stack) (from_left k (to_list l) x (to_list r) e)
                    ∙ append_assoc (from k (to_list l)) (x ∷ to_list r) (remaining it.stack)))
        | inr (inl e) ↦ rw (
          e,
          start_at,
          from_right k (to_list l) (x ∷ to_list r) (Below_congr c k x (to_list l) e p.below),
          e,
          from,
        )
        | inr (inr e) ↦
            rw (e, start_at)
              (remaining-start_at k r _ p.right
                ∙ sym (
                    rw (
                      from_right k (to_list l) (x ∷ to_list r) (below_of c k x l e p.below),
                      e,
                      from,
                    )))
      ]

  -- In an ordered tree, an iterator started at a key has before it the elements from the first one on
  -- that the key does not compare greater than.
  pub it_start_at-remaining :
      ⦃law : IsLawful c⦄
      → (t : Avl A) (k : A) → IsOrdered c t.root
      → remaining (it_start_at c t k).stack ≡ from k (to_list t.root)
  unfolding it_start_at remaining
  it_start_at-remaining ⦃law⦄ t k s =
      remaining-start_at k t.root it_init s ∙ append-nil (from k (to_list t.root))
