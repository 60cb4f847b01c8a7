-- ===== src/Datasync/Connection/States.antt =====
-- lib/datasync/datasync.c: the state machine of the connection: the state that every event of the
-- socket ends in, and the changes that connecting and closing make.
use webcom_sdk_c.Datasync.Connection.{
  Msg, handshake, response, Reason, client_receive, closed, client_connection_error, ParserResult,
  parser_ok, parser_continue, parser_error, client_writeable, Env, Ctx, state_of, close_cnx,
  connect, set_state, emit,
}
use webcom_sdk_c.Datasync.{CnxState, disconnected, connecting, connected, disconnecting}
use webcom_sdk_c.Prelude.{
  ℕ, ◌≡◌, ◌≢◌, refl, Bool, true, false, Option, none, some, List, [], ◌∷◌, ◌==◌, if◌then◌else◌,
}

-- The changes of state that connecting and closing make.
pub data Step : CnxState → CnxState → Type 0 where
  stay : (s : CnxState) → Step s s
  dial : Step disconnected connecting
  hang_up : (s : CnxState) → s ≢ disconnected → Step s disconnecting

-- The state after a message: connected by a handshake, else as before.
pub greeted_by : Option Msg → CnxState → CnxState
greeted_by (some (handshake ts)) s = connected
greeted_by _ s = s

-- Whether a message is the response to a request, whose callback may write to a listen item.
pub answers : Option Msg → Bool
answers (some (response r ok)) = true
answers _ = false

-- The message that a result of the parser completes.
completed : {P : Type 0} → ParserResult P → Option Msg
completed (parser_ok msg) = some msg
completed (parser_continue p) = none
completed parser_error = none

module _ {D P : Type 0} where
  -- The state after a step; only where `w` is true may it stop, at a write to an item that is gone.
  abbrev Keeps : CnxState → Bool → Option (Ctx D P) → Type 0
  Keeps s w none = w ≡ true
  Keeps s w (some ctx) = state_of ctx ≡ s

  -- The same of an event, with whether it returns -1.
  abbrev pub EndsIn : CnxState → Bool → Bool → Option (Ctx D P × Bool) → Type 0
  EndsIn s w closes none = w ≡ true
  EndsIn s w closes (some (ctx, r)) = (state_of ctx ≡ s) × (r ≡ closes)

  ended :
      (s : CnxState) (w : Bool) (r : Option (Ctx D P))
      → Keeps s w r
      → Keeps s w (elim r [ none ↦ none | some ctx ↦ some (record ctx { parser = none }) ])
  unfolding state_of
  ended s w none k = k
  ended s w (some ctx) k = k

  module _ (env : Env D P) where
    -- The message that some bytes complete, for the parser that goes on or, before an object, a new
    -- one.
    pub message_in : List ℕ → Option P → Option Msg
    unfolding completed
    message_in buf (some p) = completed (env.parse_msg_ex p buf)
    message_in [] none = none
    message_in (c ∷ buf) none =
        if c == b'{' then completed (env.parse_msg_ex env.parser_new (c ∷ buf)) else none

    -- The message that an event of the socket completes: none while the connection is being closed.
    pub message_of : Reason → CnxState → Option P → Option Msg
    unfolding message_in
    message_of (client_receive buf) disconnecting parser = none
    message_of (client_receive buf) s parser = message_in buf parser
    message_of _ s parser = none

    -- The state after an event of the socket.
    pub state_after : Reason → CnxState → Option P → CnxState
    unfolding message_of greeted_by
    state_after client_connection_error s parser = disconnected
    state_after closed s parser = disconnected
    state_after reason s parser = greeted_by (message_of reason s parser) s

    -- Whether an event of the socket closes it.
    pub closes : Reason → CnxState → Bool
    closes client_writeable disconnecting = true
    closes _ s = false

  connect_case : (s : CnxState) (ctx : Ctx D P) → state_of ctx ≡ s → Step s (state_of (connect ctx))
  unfolding connect state_of set_state emit
  connect_case disconnected ctx e = rw (e, connect) dial
  connect_case connecting ctx e = rw (e, connect) (rw e (stay _))
  connect_case connected ctx e = rw (e, connect) (rw e (stay _))
  connect_case disconnecting ctx e = rw (e, connect) (rw e (stay _))

  close_case : (s : CnxState) (ctx : Ctx D P) → state_of ctx ≡ s → Step s (state_of (close_cnx ctx))
  unfolding close_cnx state_of set_state emit
  close_case disconnected ctx e = rw (e, close_cnx) (rw e (stay _))
  close_case connecting ctx e = rw (e, close_cnx) (hang_up _ (λ q. cc))
  close_case connected ctx e = rw (e, close_cnx) (hang_up _ (λ q. cc))
  close_case disconnecting ctx e = rw (e, close_cnx) (rw e (stay _))

  -- A connection is begun only from the disconnected state, and closed only from the two others in
  -- which it is not closing.
  pub connect-close_cnx-Step :
      (ctx : Ctx D P)
      → Step (state_of ctx) (state_of (connect ctx))
        × Step (state_of ctx) (state_of (close_cnx ctx))
  connect-close_cnx-Step ctx =
      (connect_case (state_of ctx) ctx refl, close_case (state_of ctx) ctx refl)
