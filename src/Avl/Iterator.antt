-- ===== src/Avl/Iterator.antt =====
-- The iterator of lib/collection/avl.c. The array `_s` with the pointer `_sp` is a list, its top
-- first; that it never holds more than the array's 32 entries is a theorem about the depth.
pub mod Remaining
pub mod Depth
use Prim.Native.Nat.Ordering.{lt, eq, gt}
use webcom_sdk_c.Avl.{Tree, nil, node, Avl}
use webcom_sdk_c.Compare.{Cmp}
use webcom_sdk_c.Prelude.{Bool, true, false, Option, none, some, List, [], ◌∷◌, ℕ, zero, suc}

-- A node that is not NULL.
pub record Node {ℓ} (A : Type ℓ) : Type ℓ where
  pub left : Tree A
  pub elem : A
  pub right : Tree A

-- `struct avl_it`: `_s` up to `_sp`, `_rt`, `__rt` and `_c`
pub record It {ℓ} (A : Type ℓ) : Type ℓ where
  pub stack : List (Node A)
  pub rt : Option (Node A)
  pub next_rt : Option (Node A)
  pub cur : Option (Node A)

module _ {ℓ} {A : Type ℓ} where
  -- `while (cur != NULL) { push(cur); cur = cur->l; }`
  unfoldable pub push_left : Tree A → List (Node A) → List (Node A)
  push_left nil s = s
  push_left (node l h x r) s = push_left l (record { left = l; elem = x; right = r } ∷ s)

  unfoldable pub it_init : It A
  it_init = record { stack = []; rt = none; next_rt = none; cur = none }

  -- `none` is a NULL tree
  unfoldable pub it_start : Option (Avl A) → It A
  unfolding it_init push_left
  it_start none = it_init
  it_start (some t) = record it_init { stack = push_left t.root [] }

  -- `if (top->r != NULL) it->__rt = top`
  turn : Node A → Tree A → Option (Node A) → Option (Node A)
  turn top nil rt = rt
  turn top (node _ _ _ _) rt = some top

  -- the part of `avl_it_next` after the test for an empty stack
  pop : Node A → List (Node A) → It A → It A
  pop top s it = record {
    stack = push_left top.right s;
    rt = it.next_rt;
    next_rt = turn top top.right it.next_rt;
    cur = some top;
  }

  next_on : List (Node A) → It A → Option A × It A
  next_on [] it = (none, it)
  next_on (top ∷ s) it = (some top.elem, pop top s it)

  unfoldable pub it_next : It A → Option A × It A
  unfolding next_on pop turn push_left
  it_next it = next_on it.stack it

  unfoldable pub it_peek : It A → Option A
  it_peek it = elim it.cur [ none ↦ none | some n ↦ some n.elem ]

  unfoldable pub it_has_next : It A → Bool
  it_has_next it = elim it.stack [ [] ↦ false | n ∷ s ↦ true ]

  unfoldable pub it_peek_next : It A → Option A
  it_peek_next it = elim it.stack [ [] ↦ none | n ∷ s ↦ some n.elem ]

  -- `while (cur->r != NULL) cur = cur->r`
  unfoldable pub rightmost : A → Tree A → A
  rightmost x nil = x
  rightmost x (node l h y r) = rightmost y r

  -- the branches of `avl_it_peek_prev` at a current node
  prev_of : Tree A → Option (Node A) → Option A
  prev_of (node l h x r) rt = some (rightmost x r)
  prev_of nil (some n) = some n.elem
  prev_of nil none = none

  unfoldable pub it_peek_prev : It A → Option A
  unfolding prev_of rightmost
  it_peek_prev it = elim it.cur [ none ↦ none | some n ↦ prev_of n.left it.rt ]

module _ {ℓ} {A : Type ℓ} (c : Cmp A) where
  -- the loop of `avl_it_start_at`
  start_at : A → Tree A → It A → It A
  start_at k nil it = it
  start_at k (node l h x r) it =
      let n : Node A = record { left = l; elem = x; right = r } in
      let it' : It A = record it { cur = some n; rt = it.next_rt } in
      elim (c.cmp k x) [
        | lt ↦ start_at k l (record it' { stack = n ∷ it'.stack })
        | gt ↦ start_at k r (record it' { next_rt = some n })
        | eq ↦ record it' { stack = n ∷ it'.stack }
      ]

  unfoldable pub it_start_at : Avl A → A → It A
  unfolding start_at it_init
  it_start_at t k = start_at k t.root it_init

module _ {ℓ} {A : Type ℓ} where
  -- The states that `avl_it_next` leads to, and what a loop over it collects in at most `n` calls.
  unfoldable pub after : ℕ → It A → It A
  after zero it = it
  after (suc n) it = after n (it_next it).1

  unfoldable pub take_next : ℕ → It A → List A
  take_next zero it = []
  take_next (suc n) it = elim (it_next it).0 [ none ↦ [] | some x ↦ x ∷ take_next n (it_next it).1 ]
