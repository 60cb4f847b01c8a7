-- ===== src/Tests/Messages.antt =====
-- Concrete inputs for the theorems on messages and on authentication: values of JSON with the functions that the
-- SDK calls, and a tokener that knows one message of four bytes.
use webcom_sdk_c.Auth.{AuthContext, null, freed, live}
use webcom_sdk_c.Auth.Curl.{auth_with_password, auth_service, snprintf_text, url_size, url_text}
use webcom_sdk_c.Auth.Once.{request, service, Run, stop, step, Run-le_1}
use webcom_sdk_c.Auth.Url.{snprintf_text-url_text}
use webcom_sdk_c.Base64.{codes}
use webcom_sdk_c.Cache.Value.{decimal}
use webcom_sdk_c.Datasync.JsonC.{JsonC, IsLawful}
use webcom_sdk_c.Datasync.Message.{Msg, data_msg, action, put, unauthenticate, msg_to_json}
use webcom_sdk_c.Datasync.Parser.{parse_msg_json}
use webcom_sdk_c.Datasync.Parser.Reread.{reread, parse_msg_json-msg_to_json}
use webcom_sdk_c.Datasync.Parser.Stream.{Tokens, success, continue, Parser}
use webcom_sdk_c.Path.{str_eq}
use webcom_sdk_c.Prelude.{
  ℕ, ◌≤◌, ◌≡◌, refl, sym, ap, Bool, true, false, Option, none, some, List, [], ◌∷◌, ◌++◌,
  append_assoc, if◌then◌else◌, leb, length, arith,
}

data Json : Type 0 where
  nothing empty : Json
  text : List ℕ → Json
  number : ℕ → Json
  flag : Bool → Json
  with_member : Json → List ℕ → Json → Json

find_member : Json → List ℕ → Option Json
unfolding str_eq
find_member nothing q = none
find_member empty q = none
find_member (text s) q = none
find_member (number r) q = none
find_member (flag b) q = none
find_member (with_member v k x) q = if str_eq q k then some x else find_member v q

members : Json → List (List ℕ × Json)
members nothing = []
members empty = []
members (text s) = []
members (number r) = []
members (flag b) = []
members (with_member v k x) = (k, x) ∷ members v

is_object_value : Json → Bool
is_object_value nothing = false
is_object_value empty = true
is_object_value (text s) = false
is_object_value (number r) = false
is_object_value (flag b) = false
is_object_value (with_member v k x) = true

is_text : Json → Bool
is_text (text s) = true
is_text _ = false

is_number : Json → Bool
is_number (number r) = true
is_number _ = false

is_flag : Json → Bool
is_flag (flag b) = true
is_flag _ = false

text_of : Json → List ℕ
text_of (text s) = s
text_of _ = []

number_of : Json → ℕ
number_of (number r) = r
number_of _ = 0

flag_of : Json → Bool
flag_of (flag b) = b
flag_of _ = false

abbrev json : JsonC
json = record {
  Value = Json;
  null_value = nothing;
  new_object = empty;
  object_add = with_member;
  object_get_ex = find_member;
  entries = members;
  is_object = is_object_value;
  is_string = is_text;
  is_int = is_number;
  is_boolean = is_flag;
  new_string = text;
  get_string = text_of;
  new_int64 = number;
  get_int64 = number_of;
  get_boolean = flag_of;
  tokener_parse = text;
  to_json_string = text_of;
}

json-IsLawful : IsLawful json
unfolding find_member is_object_value is_text is_number text_of number_of
json-IsLawful = record {
  get-new = λ q. refl;
  get-add = λ v x k q h. refl;
  is_object-new = refl;
  is_object-add = λ v x k h. refl;
  is_string-new = λ s. refl;
  get_string-new = λ s. refl;
  is_int-new = λ r. refl;
  get_int64-new = λ r. refl;
}

abbrev put_msg : Msg
put_msg = data_msg (action 7 (put (codes "/users/ann") (codes "{}") (some (codes "a1"))))

parse_msg_json-msg_to_json_example :
    parse_msg_json json (λ es. es) (msg_to_json json put_msg) ≡ reread json put_msg
parse_msg_json-msg_to_json_example =
    parse_msg_json-msg_to_json json json-IsLawful (λ es. es) put_msg

abbrev four_bytes : List ℕ → List ℕ → List ℕ × Tokens Json
four_bytes t bytes = (
  t ++ bytes,
  if leb 4 (length (t ++ bytes))
      then success (msg_to_json json (data_msg (action 1 unauthenticate)))
      else continue,
)

four_bytes_goes_on :
    (t a b : List ℕ)
    → (four_bytes t a).1 ≡ continue
    → four_bytes t (a ++ b) ≡ four_bytes (four_bytes t a).0 b
four_bytes_goes_on t a b h =
    ap
      (λ s. (
        s,
        if leb 4 (length s)
            then success (msg_to_json json (data_msg (action 1 unauthenticate)))
            else continue,
      ))
      (sym (append_assoc t a b))

abbrev new_parser : Parser (List ℕ)
new_parser = record { jtok = []; error = none }

abbrev new_context : AuthContext (List ℕ)
new_context = record {
  auth_parser = null;
  curl_handle = null;
  curl_multi_handle = false;
  auth_url = none;
  form_data = none;
  host = codes "example.org";
  port = 443;
  app_name = codes "chat";
}

snprintf_text-url_text_example :
    snprintf_text
      (url_size (codes "example.org") (codes "chat"))
      (url_text (codes "example.org") 443 (codes "chat"))
    ≡ url_text (codes "example.org") 443 (codes "chat")
snprintf_text-url_text_example =
    snprintf_text-url_text (codes "example.org") (codes "chat") 443 (omega arith)

abbrev requested : AuthContext (List ℕ)
requested = record new_context {
  curl_handle = live tt;
  curl_multi_handle = true;
  auth_url = some (codes "https://example.org:443/auth/v2/chat/password/signin");
  form_data = some (codes "email=ann&password=pw");
}

abbrev serviced : AuthContext (List ℕ)
serviced = record requested { curl_handle = freed }

-- A request, its end, and a second request, which is refused.
two_requests : Run json [] four_bytes (λ s. s) new_context 1 serviced
unfolding auth_with_password auth_service decimal
two_requests =
    step new_context requested serviced 1 0
      (request new_context requested true (codes "ann") (codes "pw") 1 refl)
      (step requested serviced serviced 0 0 (service requested serviced 0 refl) (
        step serviced serviced serviced 0 0
          (request serviced serviced true (codes "ann") (codes "pw") 0 refl) (stop serviced)))

Run-le_1_example : 1 ≤ 1
Run-le_1_example = Run-le_1 json [] four_bytes (λ s. s) new_context serviced 1 two_requests
