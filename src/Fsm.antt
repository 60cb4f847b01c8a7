-- ===== src/Fsm.antt =====
-- tools/fsm.c: the table-driven state machine of the shell. A `char` is its byte, compared as a
-- signed number; a table of states is a list, as is the array of transitions up to the invalid one.
pub mod Search
pub mod Feed
use webcom_sdk_c.Prelude.{
  ℕ, zero, suc, ◌+◌, ◌-◌, ◌/◌, ◌%◌, Bool, true, false, Option, none, some, List, [], ◌∷◌, ◌==◌, ltb,
  if◌then◌else◌, length, get_elem?, u32_mod,
}

-- The value of a `char`, raised by 128 so that it is not negative.
unfoldable pub signed : ℕ → ℕ
signed c = (c + 128) % 256

-- `haystack[i]`, for an index within the array
unfoldable pub char_at : List ℕ → ℕ → ℕ
char_at haystack i = elim (get_elem? haystack i) [ none ↦ 0 | some c ↦ c ]

-- The loop of `binsearch`, with `max + 1` in place of `max`, which may be -1.
unfoldable pub search_loop : ℕ → ℕ → List ℕ → ℕ → ℕ → Bool
unfolding signed char_at
search_loop zero needle haystack low high = false
search_loop (suc fuel) needle haystack low high =
    let mid = low + (high - 1 - low) / 2 in
    let c = signed (char_at haystack mid) in
    let right = search_loop fuel needle haystack (mid + 1) high in
    let left = search_loop fuel needle haystack low mid in
    if ltb low high
    then (if ltb c (signed needle) then right else if ltb (signed needle) c then left else true)
    else false

unfoldable pub binsearch : ℕ → List ℕ → Bool
unfolding search_loop
binsearch needle haystack =
    if length haystack == 0
    then false
    else search_loop (length haystack) needle haystack 0 (length haystack)

-- `enum parse_result`
pub data ParseResult : Type 0 where
  parsing parse_ok unexpected_end unexpected_input : ParseResult

-- `struct fsm_transition_infos`; `match` is `none` for NULL, and so is `exec`.
pub record Transition (U : Type 0) : Type 0 where
  pub next : ℕ
  pub matched : Option (List ℕ)
  pub exec : Option (ℕ → U → U)

-- `struct fsm_state_infos`
pub record StateInfos (U : Type 0) : Type 0 where
  pub accept : Bool
  pub transitions : List (Transition U)

-- `struct fsm`, less the table, with the data that `user` points to.
pub record Fsm (U : Type 0) : Type 0 where
  pub ps : ParseResult
  pub state : ℕ
  pub user : U
  pub stream_index : ℕ
  pub line : ℕ
  pub col : ℕ

module _ {U : Type 0} where
  unfoldable pub fsm_new : ℕ → U → Fsm U
  fsm_new init_state user = record {
    ps = parsing;
    state = init_state;
    user = user;
    stream_index = 0;
    line = 1;
    col = 0;
  }

  -- `tr->match == NULL || binsearch(...)`
  unfoldable pub matches : ℕ → Transition U → Bool
  unfolding binsearch
  matches c tr = elim tr.matched [ none ↦ true | some chars ↦ binsearch c chars ]

  -- The first transition that matches.
  unfoldable pub find_transition : ℕ → List (Transition U) → Option (Transition U)
  unfolding matches
  find_transition c [] = none
  find_transition c (tr ∷ trs) =
      let rest = find_transition c trs in if matches c tr then some tr else rest

  unfoldable pub execute : ℕ → Option (ℕ → U → U) → U → U
  execute c none user = user
  execute c (some f) user = f c user

  -- The position is advanced for the character, whether it is accepted or not.
  unfoldable pub advance : ℕ → Fsm U → Fsm U
  advance c m = record m {
    stream_index = (m.stream_index + 1) % u32_mod;
    line = if c == b'\n' then (m.line + 1) % u32_mod else m.line;
    col = ((if c == b'\n' then 0 else m.col) + 1) % u32_mod;
  }

  module _ (table : List (StateInfos U)) where
    -- The transitions of a state; the code reads beyond the table where the state is not in it.
    unfoldable pub transitions_of : ℕ → List (Transition U)
    transitions_of s = elim (get_elem? table s) [ none ↦ [] | some i ↦ i.transitions ]

    -- One turn of the loop: the machine, and whether a transition was found.
    unfoldable pub feed_char : ℕ → Fsm U → Fsm U × Bool
    unfolding find_transition transitions_of execute advance
    feed_char c m =
        let m' = advance c m in
        elim (find_transition c (transitions_of m.state)) [
          | none ↦ (record m' { ps = unexpected_input }, false)
          | some tr ↦ (record m' { state = tr.next; user = execute c tr.exec m.user }, true)
        ]

    -- `fsm_feed`; its result is the field `ps`.
    unfoldable pub fsm_feed : List ℕ → Fsm U → Fsm U
    unfolding feed_char
    fsm_feed [] m = m
    fsm_feed (c ∷ buf) m =
        let (m', found) = feed_char c m in let more = fsm_feed buf m' in if found then more else m'

    unfoldable pub accepts : ℕ → Bool
    accepts s = elim (get_elem? table s) [ none ↦ false | some i ↦ i.accept ]

    unfoldable pub fsm_end : Fsm U → Fsm U
    unfolding accepts
    fsm_end m = record m { ps = if accepts m.state then parse_ok else unexpected_end }
