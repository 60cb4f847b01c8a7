-- ===== src/Auth/Replies.antt =====
-- The infos that lib/auth/auth.c makes of the replies of the server.
use webcom_sdk_c.Auth.{auth_parse_json, is_failure, get_str, parse_success, parse_user}
use webcom_sdk_c.Base64.{codes}
use webcom_sdk_c.Datasync.JsonC.{JsonC}
use webcom_sdk_c.Datasync.Parser.{is_some}
use webcom_sdk_c.Prelude.{◌≡◌, not, ◌&&◌, arith}

module _ (j : JsonC) where
  open j use {Value, is_object}

  -- A reply gives an info that has a token where the server sent one and did not report a failure; it has an error
  -- where it has no token, and never both.
  pub auth_parse_json-token :
      (root : Value)
      → (is_some (auth_parse_json j root).token
          ≡ (not (is_failure j root) && is_some (get_str j root (codes "token"))))
        × (is_some (auth_parse_json j root).error ≡ not (is_some (auth_parse_json j root).token))
  unfolding auth_parse_json is_some parse_success parse_user
  auth_parse_json-token root = ground arith
