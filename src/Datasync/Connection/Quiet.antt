-- ===== src/Datasync/Connection/Quiet.antt =====
-- lib/datasync/datasync.c: what the events of the socket make of the connection's state and of the
-- listen items.
use webcom_sdk_c.Datasync.Connection.{
  client_connection_error, closed, Env, Ctx, state_of, lws_callback, schedule_reconnect, lost,
  set_state, emit, suspend_listening,
}
use webcom_sdk_c.Datasync.Listen.Masking.{IsQuiet, suspend_all-IsQuiet}
use webcom_sdk_c.Datasync.{disconnected, Output, on_cnx_closed, on_cnx_error, del_timer_keepalive}
use webcom_sdk_c.Prelude.{◌≡◌, refl, ◌∙◌, Bool, false, Option, some, All, inl, inr, Bool-cases}

module _ {D P : Type 0} (env : Env D P) where
  lost-Quiet :
      (o : Output) (ctx : Ctx D P)
      → (state_of (lost env o ctx) ≡ state_of ctx) × All IsQuiet (lost env o ctx).listening.lr.items
  unfolding lost state_of emit suspend_listening schedule_reconnect
  lost-Quiet o ctx = elim (Bool-cases (env.reconnect_on o)) [
    | inl e ↦ rw e (refl, suspend_all-IsQuiet ctx.listening.lr)
    | inr e ↦ rw e (refl, suspend_all-IsQuiet ctx.listening.lr)
  ]

  -- The event was handled: the context is disconnected and every listen item is quiet.
  abbrev pub Disconnects : Option (Ctx D P × Bool) → Type 0
  Disconnects result =
      (ctx : Ctx D P) × (result ≡ some (ctx, false))
      × (state_of ctx ≡ disconnected)
      × All IsQuiet ctx.listening.lr.items

  -- When the connection fails or is closed, the context is disconnected and no listen item is active
  -- or waits for an answer, whatever the application decides about reconnecting.
  pub lws_callback-Disconnects :
      (ctx : Ctx D P)
      → Disconnects (lws_callback env closed ctx)
        × Disconnects (lws_callback env client_connection_error ctx)
  unfolding lws_callback
  lws_callback-Disconnects ctx =
      let down = set_state disconnected ctx in
      let p = lost-Quiet on_cnx_closed (emit del_timer_keepalive down) in
      let q = lost-Quiet on_cnx_error down in
      let up : state_of down ≡ disconnected = unfold state_of set_state in refl in
      let told : state_of (emit del_timer_keepalive down) ≡ disconnected =
        unfold state_of set_state emit in refl in
      ((_, refl, p.0 ∙ told, p.1), (_, refl, q.0 ∙ up, q.1))
