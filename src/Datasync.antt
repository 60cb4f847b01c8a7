-- ===== src/Datasync.antt =====
-- lib/datasync: the state of a datasync context, its requests, the listen registry and the
-- connection. This file holds the types that the modules below share.
pub mod JsonC
pub mod Message
pub mod Parser
pub mod Request
pub mod PushId
pub mod Listen
pub mod Connection
pub mod On
use webcom_sdk_c.Prelude.{ℕ, Bool, List, Option}

-- `wc_cnx_state_t`
pub data CnxState : Type 0 where
  disconnected connecting connected disconnecting : CnxState

-- A path as the list of its parts.
abbrev pub Parts : Type 0
Parts = List (List ℕ)

-- `wc_action_t`, less the request number: what a request asks of the server.
pub data Action : Type 0 where
  auth : List ℕ → Action
  unauth : Action
  listen : Parts → Action
  unlisten : Parts → Action
  put : List ℕ → List ℕ → Action
  merge : List ℕ → List ℕ → Action
  on_disc_put : List ℕ → List ℕ → Action
  on_disc_merge : List ℕ → List ℕ → Action
  on_disc_cancel : List ℕ → Action

-- The callback of a request with its `user` argument: one of the application, known by a number,
-- or `on_listen_result` with the address of a listen item.
pub data Callback : Type 0 where
  user_callback : ℕ → Callback
  on_listen_result : ℕ → Callback

-- `wc_action_trans_t`; a NULL callback is `none`. The chain is the list that it stands in.
pub record Trans : Type 0 where
  pub id : ℕ
  pub action : Action
  pub callback : Option Callback

-- What a handler hands to the socket and to the application, in order.
pub data Output : Type 0 where
  send : ℕ → Action → Output
  on_server_handshake on_msg_received on_cnx_error on_cnx_closed : Output
  set_timer_reconnect : ℕ → Output
  set_timer_keepalive del_timer_keepalive : Output
  add_fd del_fd modify_fd : Output
  run_callback : ℕ → Bool → Output
  request_writable connect_via_info : Output

-- The fields of `struct wc_datasync_context` that requests read and write, and what was output.
pub record Net : Type 0 where
  pub state : CnxState
  pub last_req : ℕ
  pub pending : List (List Trans)
  pub outputs : List Output
