-- ===== src/Fsm/Feed.antt =====
-- The state machine of tools/fsm.c does not see how its input is cut into buffers.
use webcom_sdk_c.Fsm.{
  Fsm, StateInfos, parsing, unexpected_input, feed_char, fsm_feed, advance, find_transition,
  transitions_of,
}
use webcom_sdk_c.Prelude.{◌≡◌, refl, List, [], ◌∷◌, ◌++◌, ℕ, inl, inr, Option-cases}

module _ {U : Type 0} (table : List (StateInfos U)) where
  -- A machine that has met an unexpected character stops; any other reads the buffer.
  unfoldable pub go_on : Fsm U → List ℕ → Fsm U
  go_on m buf = elim m.ps [ unexpected_input ↦ m | _ ↦ fsm_feed table buf m ]

  -- Feeding two buffers in a row to a machine that is parsing is feeding them joined, but that
  -- nothing more is read after an unexpected character.
  pub fsm_feed-append :
      (a b : List ℕ) (m : Fsm U)
      → m.ps ≡ parsing
      → fsm_feed table (a ++ b) m ≡ go_on (fsm_feed table a m) b
  unfolding go_on fsm_feed feed_char advance
  fsm_feed-append [] b m e = rw e refl
  fsm_feed-append (c ∷ a) b m e =
      elim (Option-cases (find_transition c (transitions_of table m.state))) [
        | inl h ↦ rw (h, feed_char) refl
        | inr (tr, h) ↦ rw (h, feed_char) (fsm_feed-append a b _ e)
      ]
