-- ===== src/Datasync/Message.antt =====
-- lib/datasync/message.c with include/webcom-c/webcom-msg.h: the messages between client and server, their
-- JSON, and what is freed with a message.
use webcom_sdk_c.Base64.{codes}
use webcom_sdk_c.Datasync.JsonC.{JsonC}
use webcom_sdk_c.Prelude.{ℕ, Option, none, some, List, [], ◌∷◌}

-- `wc_action_t`, less `r`: `wc_action_type_t` and the member of the union. A NULL `hash` is `none`.
pub data Action : Type 0 where
  put : List ℕ → List ℕ → Option (List ℕ) → Action
  merge : List ℕ → List ℕ → Action
  listen : List ℕ → Action
  unlisten : List ℕ → Action
  authenticate : List ℕ → Action
  unauthenticate : Action
  on_disconnect_put : List ℕ → List ℕ → Action
  on_disconnect_merge : List ℕ → List ℕ → Action
  on_disconnect_cancel : List ℕ → Action

-- `wc_push_t`; its `status` is not used.
pub data Push : Type 0 where
  auth_revoked : List ℕ → List ℕ → Push
  listen_revoked : List ℕ → Push
  update_put : List ℕ → List ℕ → Push
  update_merge : List ℕ → List ℕ → Push

pub record Response : Type 0 where
  pub r : ℕ
  pub status : List ℕ
  pub data_text : List ℕ

pub data DataMsg : Type 0 where
  action : ℕ → Action → DataMsg
  push : Push → DataMsg
  response : Response → DataMsg

pub data CtrlMsg : Type 0 where
  handshake : ℕ → List ℕ → List ℕ → CtrlMsg
  connection_shutdown : List ℕ → CtrlMsg

-- `wc_msg_t`
pub data Msg : Type 0 where
  ctrl : CtrlMsg → Msg
  data_msg : DataMsg → Msg

module _ (j : JsonC) where
  open j use {Value, null_value, new_object, object_add, new_string, new_int64, tokener_parse}

  unfoldable pub put_msg_to_json : List ℕ → List ℕ → Option (List ℕ) → Value
  put_msg_to_json path text hash =
      let jroot =
        object_add (object_add new_object (codes "p") (new_string path)) (codes "d")
          (tokener_parse text) in
      elim hash as (λ o. Value) [
        | none ↦ jroot
        | some h ↦ object_add jroot (codes "h") (new_string h)
      ]

  -- `_wc_listen_msg_to_json`, `_wc_unlisten_msg_to_json` and `_wc_odc_msg_to_json`
  unfoldable pub path_msg_to_json : List ℕ → Value
  path_msg_to_json path = object_add new_object (codes "p") (new_string path)

  -- `_wc_merge_msg_to_json`, `_wc_odp_msg_to_json` and `_wc_odm_msg_to_json`
  unfoldable pub merge_msg_to_json : List ℕ → List ℕ → Value
  merge_msg_to_json path text =
      object_add (object_add new_object (codes "p") (new_string path)) (codes "d")
        (tokener_parse text)

  unfoldable pub auth_msg_to_json : List ℕ → Value
  auth_msg_to_json cred = object_add new_object (codes "cred") (new_string cred)

  -- The inner `switch` of `_wc_data_msg_to_json`, with the object that has `r`.
  unfoldable pub action_to_json : Action → Value → Value
  unfolding put_msg_to_json path_msg_to_json merge_msg_to_json auth_msg_to_json
  action_to_json (put path text hash) o =
      object_add (object_add o (codes "a") (new_string (codes "p"))) (codes "b")
        (put_msg_to_json path text hash)
  action_to_json (merge path text) o =
      object_add (object_add o (codes "a") (new_string (codes "m"))) (codes "b")
        (merge_msg_to_json path text)
  action_to_json (listen path) o =
      object_add (object_add o (codes "a") (new_string (codes "l"))) (codes "b")
        (path_msg_to_json path)
  action_to_json (unlisten path) o =
      object_add (object_add o (codes "a") (new_string (codes "u"))) (codes "b")
        (path_msg_to_json path)
  action_to_json (authenticate cred) o =
      object_add (object_add o (codes "a") (new_string (codes "auth"))) (codes "b")
        (auth_msg_to_json cred)
  action_to_json unauthenticate o =
      object_add (object_add o (codes "a") (new_string (codes "unauth"))) (codes "b") null_value
  action_to_json (on_disconnect_put path text) o =
      object_add (object_add o (codes "a") (new_string (codes "o"))) (codes "b")
        (merge_msg_to_json path text)
  action_to_json (on_disconnect_merge path text) o =
      object_add (object_add o (codes "a") (new_string (codes "om"))) (codes "b")
        (merge_msg_to_json path text)
  action_to_json (on_disconnect_cancel path) o =
      object_add (object_add o (codes "a") (new_string (codes "oc"))) (codes "b")
        (path_msg_to_json path)

  unfoldable pub data_msg_to_json : DataMsg → Value
  unfolding action_to_json
  data_msg_to_json (action r a) = action_to_json a (object_add new_object (codes "r") (new_int64 r))
  data_msg_to_json (push p) = new_object
  data_msg_to_json (response r) = new_object

  unfoldable pub msg_to_json : Msg → Value
  unfolding data_msg_to_json
  msg_to_json (data_msg d) =
      object_add (object_add new_object (codes "t") (new_string (codes "d"))) (codes "d")
        (data_msg_to_json d)
  msg_to_json (ctrl m) = object_add new_object (codes "t") (new_string (codes "c"))

  unfoldable pub msg_to_json_str : Msg → List ℕ
  unfolding msg_to_json
  msg_to_json_str m = j.to_json_string (msg_to_json m)

-- The strings that are freed with a message, in the order of the calls; NULL is not freed.
unfoldable pub free_action : Action → List (List ℕ)
free_action (put path text none) = path ∷ text ∷ []
free_action (put path text (some h)) = path ∷ h ∷ text ∷ []
free_action (merge path text) = path ∷ text ∷ []
free_action (listen path) = path ∷ []
free_action (unlisten path) = path ∷ []
free_action (authenticate cred) = cred ∷ []
free_action unauthenticate = []
free_action (on_disconnect_put path text) = path ∷ text ∷ []
free_action (on_disconnect_merge path text) = path ∷ text ∷ []
free_action (on_disconnect_cancel path) = path ∷ []

unfoldable pub free_push : Push → List (List ℕ)
free_push (auth_revoked status reason) = reason ∷ status ∷ []
free_push (listen_revoked path) = path ∷ []
free_push (update_put path text) = path ∷ text ∷ []
free_push (update_merge path text) = path ∷ text ∷ []

unfoldable pub free_data_msg : DataMsg → List (List ℕ)
unfolding free_action free_push
free_data_msg (action r a) = free_action a
free_data_msg (push p) = free_push p
free_data_msg (response r) = r.status ∷ r.data_text ∷ []

unfoldable pub free_ctrl_msg : CtrlMsg → List (List ℕ)
free_ctrl_msg (handshake ts server version) = server ∷ version ∷ []
free_ctrl_msg (connection_shutdown reason) = reason ∷ []

unfoldable pub msg_free : Msg → List (List ℕ)
unfolding free_data_msg free_ctrl_msg
msg_free (data_msg d) = free_data_msg d
msg_free (ctrl m) = free_ctrl_msg m
