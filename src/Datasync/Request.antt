-- ===== src/Datasync/Request.antt =====
-- lib/datasync/request.c: numbered requests and the table of those that wait for a response.
pub mod Table
use webcom_sdk_c.Datasync.{CnxState, connected, Action, Callback, Trans, Output, send, Net}
use webcom_sdk_c.Prelude.{
  ℕ, suc, ◌+◌, ◌%◌, ◌^◌, Bool, true, false, Option, none, some, List, [], ◌∷◌, ◌++◌, ◌==◌,
  if◌then◌else◌, get_elem?, set, u64_mod,
}

-- `1 << PENDING_ACTION_HASH_FACTOR`
abbrev pub slots : ℕ
slots = 2 ^ 8

unfoldable pub pending_req_hash : ℕ → ℕ
pending_req_hash id = id % slots

-- `table[slot]`
unfoldable pub chain_at : List (List Trans) → ℕ → List Trans
chain_at table slot = elim (get_elem? table slot) [ none ↦ [] | some chain ↦ chain ]

unfoldable pub store_pending : List (List Trans) → Trans → List (List Trans)
unfolding pending_req_hash chain_at
store_pending table trans =
    let slot = pending_req_hash trans.id in set table slot (trans ∷ chain_at table slot)

-- The loop of `wc_datasync_req_get_pending`: the chain without the first request of that number,
-- and the request.
unfoldable pub unlink : ℕ → List Trans → List Trans × Option Trans
unlink id [] = ([], none)
unlink id (cur ∷ chain) =
    let (rest, found) = unlink id chain in
    if cur.id == id then (chain, some cur) else (cur ∷ rest, found)

unfoldable pub get_pending : List (List Trans) → ℕ → List (List Trans) × Option Trans
unfolding pending_req_hash chain_at unlink
get_pending table id =
    let slot = pending_req_hash id in
    let (chain, found) = unlink id (chain_at table slot) in (set table slot chain, found)

-- `wc_datasync_send_msg`: whether the number of bytes sent is positive, where `written` says so
-- of the result of `lws_write`.
unfoldable pub send_msg : Bool → Net → ℕ → Action → Net × Bool
send_msg written net id action = elim net.state [
  | connected ↦ (record net { outputs = net.outputs ++ send id action ∷ [] }, written)
  | _ ↦ (net, false)
]

-- The body of every `wc_datasync_` request function, from `DEFINE_REQ_FUNC` to
-- `END_DEFINE_REQ_FUNC`; `none` is the result -1.
unfoldable pub request : (ℕ → Bool) → Net → Action → Option Callback → Net × Option ℕ
unfolding store_pending send_msg
request written net action callback =
    let id = (net.last_req + 1) % u64_mod in
    let trans : Trans = record { id = id; action = action; callback = callback } in
    let stored : Net = record net { last_req = id; pending = store_pending net.pending trans } in
    let (net', sent) = send_msg (written id) stored id action in
    (net', if sent then some id else none)
