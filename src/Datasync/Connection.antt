-- ===== src/Datasync/Connection.antt =====
-- lib/datasync/datasync.c: the connection of a context. The cache with the `on` registry, and the
-- message parser, are parameters here: a step of each is one function.
pub mod Reconnect
pub mod Quiet
pub mod States
use webcom_sdk_c.Compare.{Cmp}
use webcom_sdk_c.Datasync.Listen.Effects.{Listening, resume_all, suspend_all, listen_result}
use webcom_sdk_c.Datasync.Listen.{Item, Registry}
use webcom_sdk_c.Datasync.Request.{get_pending}
use webcom_sdk_c.Datasync.{
  CnxState, disconnected, connecting, connected, disconnecting, Callback, user_callback,
  on_listen_result, Trans, Output, on_server_handshake, on_msg_received, on_cnx_error,
  on_cnx_closed, set_timer_reconnect, set_timer_keepalive, del_timer_keepalive, add_fd, del_fd,
  modify_fd, run_callback, request_writable, connect_via_info, Net,
}
use webcom_sdk_c.Prelude.{
  ℕ, ◌+◌, ◌*◌, ◌%◌, Bool, true, false, Option, none, some, List, [], ◌∷◌, ◌++◌, ◌==◌, ltb,
  if◌then◌else◌, u32_mod, u64_mod, ◌-◌,
}

-- What the code distinguishes in a `wc_msg_t`: a handshake with its time, a pushed write with its
-- path and data, the response to a request, and all else.
pub data Msg : Type 0 where
  handshake : ℕ → Msg
  update_put update_merge : List ℕ → List ℕ → Msg
  response : ℕ → Bool → Msg
  other_msg : Msg

-- The result of `wc_datasync_parse_msg_ex`, with the parser that goes on.
pub data ParserResult (P : Type 0) : Type 0 where
  parser_ok : Msg → ParserResult P
  parser_continue : P → ParserResult P
  parser_error : ParserResult P

-- `enum lws_callback_reasons`, as far as the code tells them apart; `receive` has the bytes.
pub data Reason : Type 0 where
  add_poll_fd del_poll_fd change_mode_poll_fd : Reason
  client_established client_connection_error : Reason
  client_receive : List ℕ → Reason
  closed client_writeable other_reason : Reason

-- What a context does not implement itself: `lws_write`, the clock, the application, the cache and
-- the parser.
pub record Env (D P : Type 0) : Type 0 where
  pub written : ℕ → Bool
  pub now : ℕ
  pub reconnect_on : Output → Bool
  pub put : List ℕ → List ℕ → D → D
  pub merge : List ℕ → List ℕ → D → D
  pub parser_new : P
  pub parse_msg_ex : P → List ℕ → ParserResult P

-- `struct wc_datasync_context`. `cached` stands for the cache and the `on` registry.
pub record Ctx (D P : Type 0) : Type 0 where
  pub listening : Listening
  pub parser : Option P
  pub time_offset : ℕ
  pub next_reconnect_timer : ℕ
  pub stamp : ℕ
  pub cached : D

module _ {D P : Type 0} where
  unfoldable pub state_of : Ctx D P → CnxState
  state_of ctx = ctx.listening.net.state

  -- `ctx->datasync.state = s`
  unfoldable pub set_state : CnxState → Ctx D P → Ctx D P
  set_state s ctx =
      let l = ctx.listening in
      record ctx { listening = record l { net = record (l.net) { state = s } } }

  -- A call of `ctx->callback`, or of the socket.
  unfoldable pub emit : Output → Ctx D P → Ctx D P
  emit o ctx =
      let l = ctx.listening in
      let n = l.net in
      record ctx { listening = record l { net = record n { outputs = n.outputs ++ o ∷ [] } } }

  unfoldable pub set_items : List Item → Ctx D P → Ctx D P
  set_items items ctx =
      let l = ctx.listening in
      record ctx { listening = record l { lr = record (l.lr) { items = items } } }

  unfoldable pub suspend_listening : Ctx D P → Ctx D P
  unfolding suspend_all
  suspend_listening ctx =
      let l = ctx.listening in record ctx { listening = record l { lr = suspend_all l.lr } }

  -- A call through `trans->callback`; `none` is a write to an item that is gone.
  unfoldable pub run : ℕ → Bool → Option Callback → Ctx D P → Option (Ctx D P)
  unfolding emit set_items listen_result
  run id ok none ctx = some ctx
  run id ok (some (user_callback n)) ctx = some (emit (run_callback n ok) ctx)
  run id ok (some (on_listen_result addr)) ctx =
      elim (listen_result addr ok ctx.listening.lr.items) [
        | none ↦ none
        | some items ↦ some (set_items items ctx)
      ]

  unfoldable pub response_dispatch : ℕ → Bool → Ctx D P → Option (Ctx D P)
  unfolding get_pending run
  response_dispatch r ok ctx =
      let l = ctx.listening in
      let (table, found) = get_pending l.net.pending r in
      let ctx' : Ctx D P = record ctx {
        listening = record l { net = record (l.net) { pending = table } };
      } in
      elim found [ none ↦ some ctx' | some trans ↦ run trans.id ok trans.callback ctx' ]

  module _ (env : Env D P) where
    open env use {written, now, reconnect_on, parser_new, parse_msg_ex}

    -- The branch of `_wc_datasync_process_message` for a handshake.
    unfoldable pub on_handshake : ℕ → Ctx D P → Ctx D P
    unfolding set_state emit resume_all
    on_handshake ts ctx =
        let up = set_state connected (record ctx {
          time_offset = (now + u64_mod - ts) % u64_mod;
          stamp = (ctx.stamp + 1) % u32_mod;
        }) in
        let resumed : Ctx D P = record up { listening = resume_all written up.listening } in
        let told = emit on_server_handshake resumed in
        emit set_timer_keepalive (record told { next_reconnect_timer = 1 })

    unfoldable pub process_message : Msg → Ctx D P → Option (Ctx D P)
    unfolding on_handshake response_dispatch emit
    process_message msg ctx =
        let handled : Option (Ctx D P) = elim msg [
          | handshake ts ↦ some (on_handshake ts ctx)
          | update_put path value ↦ some (record ctx { cached = env.put path value ctx.cached })
          | update_merge path value ↦ some (record ctx { cached = env.merge path value ctx.cached })
          | response r ok ↦ response_dispatch r ok ctx
          | other_msg ↦ some ctx
        ] in
        elim handled [ none ↦ none | some ctx' ↦ some (emit on_msg_received ctx') ]

    -- The `switch` of `_wc_datasync_process_data` on the parser's result.
    unfoldable pub parsed : ParserResult P → Ctx D P → Option (Ctx D P)
    unfolding process_message
    parsed (parser_ok msg) ctx = elim (process_message msg ctx) [
      | none ↦ none
      | some ctx' ↦ some (record ctx' { parser = none })
    ]
    parsed (parser_continue p) ctx = some (record ctx { parser = some p })
    parsed parser_error ctx = some (record ctx { parser = none })

    unfoldable pub starts_object : List ℕ → Bool
    starts_object [] = false
    starts_object (c ∷ buf) = c == b'{'

    unfoldable pub process_data : List ℕ → Ctx D P → Option (Ctx D P)
    unfolding parsed starts_object
    process_data buf ctx = elim ctx.parser [
      | some p ↦ parsed (parse_msg_ex p buf) ctx
      | none ↦ if starts_object buf then parsed (parse_msg_ex parser_new buf) ctx else some ctx
    ]

    unfoldable pub schedule_reconnect : Ctx D P → Ctx D P
    unfolding emit
    schedule_reconnect ctx =
        let t = ctx.next_reconnect_timer in
        record (emit (set_timer_reconnect (1000 * t)) ctx) {
          next_reconnect_timer = if ltb t 256 then t * 2 else t;
        }

    -- The common end of the two cases in which the connection is lost: `o` is told to the
    -- application, which decides whether to reconnect.
    unfoldable pub lost : Output → Ctx D P → Ctx D P
    unfolding suspend_listening emit schedule_reconnect
    lost o ctx =
        let told = emit o (suspend_listening ctx) in
        if reconnect_on o then schedule_reconnect told else told

    -- `_wc_lws_callback`: the context, and whether the result is -1; `none` as in `run`.
    unfoldable pub lws_callback : Reason → Ctx D P → Option (Ctx D P × Bool)
    unfolding process_data
    lws_callback add_poll_fd ctx = some (emit add_fd ctx, false)
    lws_callback del_poll_fd ctx = some (emit del_fd ctx, false)
    lws_callback change_mode_poll_fd ctx = some (emit modify_fd ctx, false)
    lws_callback client_connection_error ctx =
        some (lost on_cnx_error (set_state disconnected ctx), false)
    lws_callback (client_receive buf) ctx =
        let received : Option (Ctx D P × Bool) = elim (process_data buf ctx) [
          | none ↦ none
          | some ctx' ↦ some (ctx', false)
        ] in
        elim (state_of ctx) [ disconnecting ↦ some (ctx, false) | _ ↦ received ]
    lws_callback closed ctx =
        some (lost on_cnx_closed (emit del_timer_keepalive (set_state disconnected ctx)), false)
    lws_callback client_writeable ctx = elim (state_of ctx) [
      | disconnecting ↦ some (ctx, true)
      | _ ↦ some (ctx, false)
    ]
    lws_callback _ ctx = some (ctx, false)

  unfoldable pub close_cnx : Ctx D P → Ctx D P
  unfolding state_of set_state emit
  close_cnx ctx = elim (state_of ctx) [
    | connected ↦ emit request_writable (set_state disconnecting ctx)
    | connecting ↦ emit request_writable (set_state disconnecting ctx)
    | _ ↦ ctx
  ]

  -- `_wc_datasync_connect`, which the reconnect timer calls.
  unfoldable pub connect : Ctx D P → Ctx D P
  unfolding state_of set_state emit
  connect ctx = elim (state_of ctx) [
    | disconnected ↦ emit connect_via_info (set_state connecting ctx)
    | _ ↦ ctx
  ]
