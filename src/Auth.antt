-- ===== src/Auth.antt =====
-- lib/auth/auth.c: requests of a token with a password, and the replies. curl is not modelled: what it calls are
-- operations, and what is called of it are events or changes of its handles.
pub mod Curl
pub mod Replies
pub mod Once
pub mod Url
use webcom_sdk_c.Base64.{codes}
use webcom_sdk_c.Cache.Value.{decimal}
use webcom_sdk_c.Datasync.JsonC.{JsonC}
use webcom_sdk_c.Datasync.Parser.Stream.{Tokens, success, continue, failed}
use webcom_sdk_c.Prelude.{
  ℕ, zero, suc, ◌+◌, Bool, true, false, ◌&&◌, not, Option, none, some, List, [], ◌∷◌, ◌++◌,
  if◌then◌else◌, ◌>>=◌, ◌>>◌, guard, length, take,
}

-- `struct wc_auth_info`; NULL is `none`.
pub record AuthInfo : Type 0 where
  pub token : Option (List ℕ)
  pub expires : ℕ
  pub provider_uid : Option (List ℕ)
  pub uid : Option (List ℕ)
  pub error : Option (List ℕ)
  pub provider : Option (List ℕ)
  pub provider_profile : Option (List ℕ)

-- After the `memset`.
abbrev pub info_zero : AuthInfo
info_zero = record {
  token = none;
  expires = 0;
  provider_uid = none;
  uid = none;
  error = none;
  provider = none;
  provider_profile = none;
}

-- The value that an option holds, or another.
unfoldable pub or_else {ℓ} : {A : Type ℓ} → Option A → A → A
or_else none d = d
or_else (some a) d = a

module _ (j : JsonC) where
  open j use {
    Value, object_get_ex, is_object, is_string, is_int, is_boolean, get_string, get_int64,
    get_boolean, to_json_string,
  }

  -- The member of an object under a key, if it is of a type.
  unfoldable pub typed : (Value → Bool) → Value → List ℕ → Option Value
  typed is_type o key = do x ← object_get_ex o key; guard (is_type x); some x

  -- `strdup` of the string under a key
  unfoldable pub get_str : Value → List ℕ → Option (List ℕ)
  unfolding typed
  get_str o key = do x ← typed is_string o key; some (get_string x)

  unfoldable pub error_text : Value → List ℕ
  unfolding typed or_else get_str
  error_text root =
      or_else (typed is_object root (codes "error") >>= λ e. get_str e (codes "message"))
        (codes "authentication failure")

  -- The object `user`, into the info.
  unfoldable pub parse_user : Value → AuthInfo → AuthInfo
  unfolding typed or_else get_str
  parse_user user pai = record pai {
    expires = or_else (typed is_int user (codes "expires") >>= λ x. some (get_int64 x)) pai.expires;
    provider_uid = get_str user (codes "providerUid");
    uid = get_str user (codes "uid");
    provider = get_str user (codes "provider");
    provider_profile =
        (typed is_object user (codes "providerProfile") >>= λ x. some (to_json_string x));
  }

  unfoldable pub parse_success : Value → List ℕ → AuthInfo
  unfolding typed parse_user
  parse_success root token =
      let pai : AuthInfo = record info_zero { token = some token } in
      elim (typed is_object root (codes "user")) as (λ o. AuthInfo) [
        | none ↦ pai
        | some user ↦ parse_user user pai
      ]

  -- Whether `success` is a boolean that is FALSE.
  unfoldable pub is_failure : Value → Bool
  unfolding typed
  is_failure root = elim (typed is_boolean root (codes "success")) as (λ o. Bool) [
    | none ↦ false
    | some x ↦ not (get_boolean x)
  ]

  -- `_wc_auth_parse_json` on the info that is zero.
  unfoldable pub auth_parse_json : Value → AuthInfo
  unfolding is_failure error_text get_str parse_success
  auth_parse_json root =
      if is_failure root
      then record info_zero { error = some (error_text root) }
      else elim (get_str root (codes "token")) as (λ o. AuthInfo) [
        | none ↦ record info_zero { error = some (codes "invalid server response") }
        | some token ↦ parse_success root token
      ]

unfoldable pub to_list : Option (List ℕ) → List (List ℕ)
to_list none = []
to_list (some s) = s ∷ []

-- The strings that `_wc_auth_cleanup_info` frees, in order.
unfoldable pub auth_cleanup_info : AuthInfo → List (List ℕ)
unfolding to_list
auth_cleanup_info pai =
    to_list pai.error
    ++ to_list pai.provider_uid
    ++ to_list pai.uid
    ++ to_list pai.token
    ++ to_list pai.provider
    ++ to_list pai.provider_profile

-- A pointer to an object of curl or of json-c: NULL, to a live one, or to one that was freed.
pub data Handle (T : Type 0) : Type 0 where
  null freed : Handle T
  live : T → Handle T

-- `struct wc_auth_context`, with the host, the port and the name of the context. Of curl's handles only whether
-- they are set is kept.
pub record AuthContext (T : Type 0) : Type 0 where
  pub auth_parser : Handle T
  pub curl_handle : Handle (Unit {0})
  pub curl_multi_handle : Bool
  pub auth_url : Option (List ℕ)
  pub form_data : Option (List ℕ)
  pub host : List ℕ
  pub port : ℕ
  pub app_name : List ℕ

-- What `_wc_auth_parse_body` comes to: 1 with the info, 0, or -1 with nothing but the error in the info.
pub data Body : Type 0 where
  replied : AuthInfo → Body
  incomplete : Body
  malformed : List ℕ → Body

module _ (j : JsonC) {T : Type 0} (tokener_new : T)
    (parse_ex : T → List ℕ → T × Tokens j.Value) where
  unfoldable pub parsed_body : AuthContext T → Tokens j.Value → T → AuthContext T × Body
  unfolding auth_parse_json
  parsed_body ctx (success v) t =
      (record ctx { auth_parser = freed }, replied (auth_parse_json j v))
  parsed_body ctx continue t = (record ctx { auth_parser = live t }, incomplete)
  parsed_body ctx (failed d) t = (record ctx { auth_parser = live t }, malformed d)

  -- `none` where a tokener that was freed is used.
  unfoldable pub auth_parse_body : AuthContext T → List ℕ → Option (AuthContext T × Body)
  unfolding parsed_body
  auth_parse_body ctx bytes = elim ctx.auth_parser as (λ h. Option (AuthContext T × Body)) [
    | null ↦ let r = parse_ex tokener_new bytes in some (parsed_body ctx r.1 r.0)
    | freed ↦ none
    | live t ↦ let r = parse_ex t bytes in some (parsed_body ctx r.1 r.0)
  ]

  -- `curl_write_cb`: the context, and the info that the callback was given. `none` also where the strings of an
  -- info are freed that was not filled.
  unfoldable pub curl_write_cb : AuthContext T → List ℕ → Option (AuthContext T × Option AuthInfo)
  unfolding auth_parse_body
  curl_write_cb ctx ptr = do
    (ctx', body) ← auth_parse_body ctx ptr
    elim body as (λ b. Option (AuthContext T × Option AuthInfo)) [
      | replied pai ↦ some (ctx', some pai)
      | incomplete ↦ some (ctx', none)
      | malformed d ↦ none
    ]
