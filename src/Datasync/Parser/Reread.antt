-- ===== src/Datasync/Parser/Reread.antt =====
-- What lib/datasync/parser.c makes of the values that lib/datasync/message.c writes.
use webcom_sdk_c.Datasync.JsonC.{JsonC, IsLawful}
use webcom_sdk_c.Datasync.Message.{
  Action, put, merge, listen, unlisten, authenticate, unauthenticate, on_disconnect_put,
  on_disconnect_merge, on_disconnect_cancel, action, push, response, Msg, ctrl, data_msg,
  msg_to_json,
}
use webcom_sdk_c.Datasync.Parser.{parse_msg_json}
use webcom_sdk_c.Path.{str_eq}
use webcom_sdk_c.Prelude.{ℕ, ◌≡◌, refl, true, Option, none, some, List, if◌then◌else◌, ◌>>=◌}

module _ (j : JsonC) where
  open j use {
    Value, object_get_ex, is_string, get_string, is_int, get_int64, to_json_string, tokener_parse,
  }

  -- The data of an action as the parser gives it: its text is read and written again.
  unfoldable pub reread_action : Action → Option Action
  reread_action (put path text hash) = some (put path (to_json_string (tokener_parse text)) hash)
  reread_action unauthenticate = some unauthenticate
  reread_action (merge path text) = none
  reread_action (listen path) = none
  reread_action (unlisten path) = none
  reread_action (authenticate cred) = none
  reread_action (on_disconnect_put path text) = none
  reread_action (on_disconnect_merge path text) = none
  reread_action (on_disconnect_cancel path) = none

  unfoldable pub reread : Msg → Option Msg
  unfolding reread_action
  reread (data_msg (action r a)) = reread_action a >>= λ b. some (data_msg (action r b))
  reread (data_msg (push p)) = none
  reread (data_msg (response r)) = none
  reread (ctrl m) = none

-- What json-c promises, as equations that `simp` applies to the calls of any lawful `j`.
module _ (j : JsonC) (l : IsLawful j) where
  open j use {Value, object_add, object_get_ex, new_object, new_string, new_int64}

  object_get_ex-new_object : (q : List ℕ) → object_get_ex new_object q ≡ none
  object_get_ex-new_object q = l.get-new q

  is_object-object_add :
      (v x : Value) (k : List ℕ) → j.is_object v ≡ true → j.is_object (object_add v k x) ≡ true
  is_object-object_add v x k h = l.is_object-add v x k h

  object_get_ex-object_add :
      (v x : Value) (k q : List ℕ)
      → j.is_object v ≡ true
      → object_get_ex (object_add v k x) q ≡ (if str_eq q k then some x else object_get_ex v q)
  object_get_ex-object_add v x k q h = l.get-add v x k q h

  is_object-new_object : j.is_object new_object ≡ true
  is_object-new_object = l.is_object-new

  is_string-new_string : (s : List ℕ) → j.is_string (new_string s) ≡ true
  is_string-new_string s = l.is_string-new s

  get_string-new_string : (s : List ℕ) → j.get_string (new_string s) ≡ s
  get_string-new_string s = l.get_string-new s

  is_int-new_int64 : (r : ℕ) → j.is_int (new_int64 r) ≡ true
  is_int-new_int64 r = l.is_int-new r

  get_int64-new_int64 : (r : ℕ) → j.get_int64 (new_int64 r) ≡ r
  get_int64-new_int64 r = l.get_int64-new r

  ruleset json_laws = (
    object_get_ex-new_object, object_get_ex-object_add, is_object-new_object, is_object-object_add,
    is_string-new_string, get_string-new_string, is_int-new_int64, get_int64-new_int64,
  )

  module _ (qsort_keys : List (List ℕ × Value) → List (List ℕ × Value)) where
    -- Where the functions of json-c are lawful, parsing the value of a message gives an action
    -- `put` back with its data read and written once more, and `unauthenticate` as it was; every
    -- other message is refused.
    pub parse_msg_json-msg_to_json :
        (m : Msg) → parse_msg_json j qsort_keys (msg_to_json j m) ≡ reread j m
    unfolding parse_msg_json msg_to_json reread str_eq
    parse_msg_json-msg_to_json (data_msg (action r (put path text none))) = simp json_laws refl
    parse_msg_json-msg_to_json (data_msg (action r (put path text (some h)))) = simp json_laws refl
    parse_msg_json-msg_to_json (data_msg (action r (merge path text))) = simp json_laws refl
    parse_msg_json-msg_to_json (data_msg (action r (listen path))) = simp json_laws refl
    parse_msg_json-msg_to_json (data_msg (action r (unlisten path))) = simp json_laws refl
    parse_msg_json-msg_to_json (data_msg (action r (authenticate cred))) = simp json_laws refl
    parse_msg_json-msg_to_json (data_msg (action r unauthenticate)) = simp json_laws refl
    parse_msg_json-msg_to_json (data_msg (action r (on_disconnect_put path text))) =
        simp json_laws refl
    parse_msg_json-msg_to_json (data_msg (action r (on_disconnect_merge path text))) =
        simp json_laws refl
    parse_msg_json-msg_to_json (data_msg (action r (on_disconnect_cancel path))) =
        simp json_laws refl
    parse_msg_json-msg_to_json (data_msg (push p)) = simp json_laws refl
    parse_msg_json-msg_to_json (data_msg (response r)) = simp json_laws refl
    parse_msg_json-msg_to_json (ctrl m) = simp json_laws refl
