-- ===== src/Datasync/Parser.antt =====
-- lib/datasync/parser.c: from the JSON of a message to the message. A parsing function gives what it stores in
-- `res`, or `none` where it returns 0. `qsort_keys` is the call of qsort with `cmp_json_keys`.
pub mod Reread
pub mod Stream
use webcom_sdk_c.Base64.{codes}
use webcom_sdk_c.Datasync.JsonC.{JsonC}
use webcom_sdk_c.Datasync.Message.{
  Action, put, merge, listen, unlisten, authenticate, unauthenticate, on_disconnect_put,
  on_disconnect_merge, on_disconnect_cancel, Push, auth_revoked, listen_revoked, update_put,
  update_merge, Response, DataMsg, action, push, response, CtrlMsg, handshake, connection_shutdown,
  Msg, ctrl, data_msg,
}
use webcom_sdk_c.Path.{str_eq}
use webcom_sdk_c.Prelude.{
  ℕ, Bool, true, false, ◌&&◌, not, Option, none, some, List, [], ◌∷◌, if◌then◌else◌, ◌>>=◌, ◌>>◌,
  guard,
}

unfoldable pub is_some {ℓ} : {A : Type ℓ} → Option A → Bool
is_some none = false
is_some (some x) = true

module _ (j : JsonC) where
  open j use {Value, object_get_ex, is_string, get_string, is_int, get_int64, to_json_string}

  -- `_wc_hlp_get_string`
  unfoldable pub hlp_get_string : Value → List ℕ → Option (List ℕ)
  hlp_get_string o key = do x ← object_get_ex o key; guard (is_string x); some (get_string x)

  -- `_wc_hlp_get_json_str`
  unfoldable pub hlp_get_json_str : Value → List ℕ → Option (List ℕ)
  hlp_get_json_str o key = do x ← object_get_ex o key; some (to_json_string x)

  -- `_wc_hlp_get_long`
  unfoldable pub hlp_get_long : Value → List ℕ → Option ℕ
  hlp_get_long o key = do x ← object_get_ex o key; guard (is_int x); some (get_int64 x)

  -- The string under `key` that names a type, which the parsers compare.
  unfoldable pub hlp_type : Value → List ℕ → Option (List ℕ)
  unfolding hlp_get_string
  hlp_type o key = hlp_get_string o key

  unfoldable pub parse_handshake : Value → Option CtrlMsg
  unfolding hlp_get_long hlp_get_string
  parse_handshake jroot = do
    ts ← hlp_get_long jroot (codes "ts")
    server ← hlp_get_string jroot (codes "h")
    version ← hlp_get_string jroot (codes "v")
    some (handshake ts server version)

  unfoldable pub parse_ctrl_msg : Value → Option CtrlMsg
  unfolding hlp_type parse_handshake hlp_get_string
  parse_ctrl_msg jroot = do
    s ← hlp_type jroot (codes "t")
    if str_eq (codes "h") s
        then (object_get_ex jroot (codes "d") >>= parse_handshake)
        else if str_eq (codes "s") s
        then (hlp_get_string jroot (codes "d") >>= λ reason. some (connection_shutdown reason))
        else none

  unfoldable pub parse_action_put : Value → Option Action
  unfolding hlp_get_string hlp_get_json_str
  parse_action_put jroot = do
    path ← hlp_get_string jroot (codes "p")
    text ← hlp_get_json_str jroot (codes "d")
    some (put path text (hlp_get_string jroot (codes "h")))

  -- `wc_parse_action_merge`, `wc_parse_action_on_disc_put` and `wc_parse_action_on_disc_merge`
  unfoldable pub parse_path_data : (List ℕ → List ℕ → Action) → Value → Option Action
  unfolding hlp_get_string hlp_get_json_str
  parse_path_data make jroot = do
    path ← hlp_get_string jroot (codes "p")
    text ← hlp_get_json_str jroot (codes "d")
    some (make path text)

  -- `wc_parse_action_listen`, `wc_parse_action_unlisten`, `wc_parse_action_on_disc_cancel` and
  -- `wc_parse_action_auth`
  unfoldable pub parse_one : (List ℕ → Action) → List ℕ → Value → Option Action
  unfolding hlp_get_string
  parse_one make key jroot = do s ← hlp_get_string jroot key; some (make s)

  unfoldable pub parse_action_type : List ℕ → Value → Option Action
  unfolding parse_action_put parse_path_data parse_one
  parse_action_type s jroot =
      if str_eq (codes "p") s
      then (object_get_ex jroot (codes "b") >>= parse_action_put)
      else if str_eq (codes "m") s
      then parse_path_data merge jroot
      else if str_eq (codes "l") s
      then parse_one listen (codes "p") jroot
      else if str_eq (codes "u") s
      then parse_one unlisten (codes "p") jroot
      else if str_eq (codes "auth") s
      then parse_one authenticate (codes "cred") jroot
      else if str_eq (codes "unauth") s
      then some unauthenticate
      else if str_eq (codes "o") s
      then parse_path_data on_disconnect_put jroot
      else if str_eq (codes "om") s
      then parse_path_data on_disconnect_merge jroot
      else if str_eq (codes "oc") s
      then parse_one on_disconnect_cancel (codes "p") jroot
      else none

  unfoldable pub parse_action : Value → Option DataMsg
  unfolding hlp_get_long hlp_type parse_action_type
  parse_action jroot = do
    r ← hlp_get_long jroot (codes "r")
    s ← hlp_type jroot (codes "a")
    a ← parse_action_type s jroot
    some (action r a)

  unfoldable pub parse_response : Value → Option DataMsg
  unfolding hlp_get_long hlp_get_string hlp_get_json_str
  parse_response jroot = do
    r ← hlp_get_long jroot (codes "r")
    b ← object_get_ex jroot (codes "b")
    status ← hlp_get_string b (codes "s")
    text ← hlp_get_json_str b (codes "d")
    some (response (record { r = r; status = status; data_text = text }))

  module _ (qsort_keys : List (List ℕ × Value) → List (List ℕ × Value)) where
    -- The loop that fills the new object.
    unfoldable pub add_all : List (List ℕ × Value) → Value → Value
    add_all [] o = o
    add_all ((k, x) ∷ es) o = add_all es (j.object_add o k x)

    unfoldable pub hlp_get_level1_sorted_json_str : Value → List ℕ → Option (List ℕ)
    unfolding add_all
    hlp_get_level1_sorted_json_str o key = do
      x ← object_get_ex o key
      some (
          if j.is_object x
          then to_json_string (add_all (qsort_keys (j.entries x)) j.new_object)
          else to_json_string x)

    unfoldable pub parse_push_auth_revoked : Value → Option Push
    unfolding hlp_get_string
    parse_push_auth_revoked jroot = do
      status ← hlp_get_string jroot (codes "s")
      reason ← hlp_get_string jroot (codes "d")
      some (auth_revoked status reason)

    unfoldable pub parse_push_listen_revoked : Value → Option Push
    unfolding hlp_get_string
    parse_push_listen_revoked jroot = do
      path ← hlp_get_string jroot (codes "p")
      some (listen_revoked path)

    -- `wc_parse_push_update_put` and `wc_parse_push_update_merge`
    unfoldable pub parse_push_update : (List ℕ → List ℕ → Push) → Value → Option Push
    unfolding hlp_get_string hlp_get_level1_sorted_json_str
    parse_push_update make jroot = do
      path ← hlp_get_string jroot (codes "p")
      text ← hlp_get_level1_sorted_json_str jroot (codes "d")
      some (make path text)

    unfoldable pub parse_push_type : List ℕ → Value → Option Push
    unfolding parse_push_auth_revoked parse_push_listen_revoked parse_push_update
    parse_push_type s b =
        if str_eq (codes "ac") s
        then parse_push_auth_revoked b
        else if str_eq (codes "c") s
        then parse_push_listen_revoked b
        else if str_eq (codes "d") s
        then parse_push_update update_put b
        else if str_eq (codes "m") s
        then parse_push_update update_merge b
        else none

    unfoldable pub parse_push : Value → Option DataMsg
    unfolding hlp_type parse_push_type
    parse_push jroot = do
      s ← hlp_type jroot (codes "a")
      b ← object_get_ex jroot (codes "b")
      p ← parse_push_type s b
      some (push p)

    unfoldable pub parse_data_msg : Value → Option DataMsg
    unfolding is_some parse_action parse_response parse_push
    parse_data_msg jroot =
        let a = is_some (object_get_ex jroot (codes "a")) in
        let r = is_some (object_get_ex jroot (codes "r")) in
        let b = is_some (object_get_ex jroot (codes "b")) in
        if a && r && b
        then parse_action jroot
        else if not a && r
        then parse_response jroot
        else if a && not r
        then parse_push jroot
        else none

    unfoldable pub parse_msg_json : Value → Option Msg
    unfolding hlp_type parse_ctrl_msg parse_data_msg
    parse_msg_json jroot = do
      s ← hlp_type jroot (codes "t")
      d ← object_get_ex jroot (codes "d")
      if str_eq (codes "c") s
          then (parse_ctrl_msg d >>= λ m. some (ctrl m))
          else if str_eq (codes "d") s
          then (parse_data_msg d >>= λ m. some (data_msg m))
          else none
