-- ===== src/Auth/Curl.antt =====
-- lib/auth/auth.c around curl: what is asked of the event loop, starting a request, and servicing it.
use webcom_sdk_c.Auth.{Handle, null, freed, live, AuthContext}
use webcom_sdk_c.Base64.{codes}
use webcom_sdk_c.Cache.Value.{decimal}
use webcom_sdk_c.Prelude.{
  ℕ, zero, suc, ◌+◌, ◌-◌, Bool, true, false, Option, none, some, List, [], ◌∷◌, ◌++◌, ◌==◌,
  if◌then◌else◌, length, take,
}

-- `what` of a socket callback.
pub data Poll : Type 0 where
  poll_none poll_in poll_out poll_inout poll_remove : Poll

-- What the SDK's callback is told of the socket and of the timer, and curl of the timeout.
pub data AuthEvent : Type 0 where
  add_fd modify_fd : ℕ → Bool → Bool → AuthEvent
  del_fd : ℕ → AuthEvent
  set_timer : ℕ → AuthEvent
  del_timer : AuthEvent
  socket_timeout : AuthEvent

-- `event` for a descriptor and POLLIN, POLLOUT: `known` tells whether the socket has data assigned.
unfoldable pub fd_event : Bool → ℕ → Bool → Bool → List AuthEvent
fd_event known fd readable writable =
    (if known then modify_fd fd readable writable else add_fd fd readable writable) ∷ []

unfoldable pub curl_sock_cb : Bool → ℕ → Poll → List AuthEvent
unfolding fd_event
curl_sock_cb known fd poll_none = []
curl_sock_cb known fd poll_in = fd_event known fd true false
curl_sock_cb known fd poll_out = fd_event known fd false true
curl_sock_cb known fd poll_inout = fd_event known fd true true
curl_sock_cb known fd poll_remove = del_fd fd ∷ []

-- A `long`: a number, or minus one and less.
pub data ℤ : Type 0 where
  pos : ℕ → ℤ
  negsuc : ℕ → ℤ

unfoldable pub curl_timer_cb : ℤ → List AuthEvent
curl_timer_cb (pos zero) = socket_timeout ∷ []
curl_timer_cb (pos (suc ms)) = set_timer (suc ms) ∷ []
curl_timer_cb (negsuc zero) = del_timer ∷ []
curl_timer_cb (negsuc (suc n)) = []

-- The text of the `snprintf` of the URL, and the size of its buffer, where `sizeof` counts a final NUL.
unfoldable pub url_text : List ℕ → ℕ → List ℕ → List ℕ
url_text host port app_name =
    codes "https://"
    ++ host
    ++ codes ":"
    ++ decimal port
    ++ codes "/auth/v2/"
    ++ app_name
    ++ codes "/password/signin"

unfoldable pub url_size : List ℕ → List ℕ → ℕ
url_size host app_name = 8 + length host + 7 + (9 - 1) + length app_name + (17 - 1) + 1

-- What `snprintf` leaves in a buffer of a size.
unfoldable pub snprintf_text {ℓ} : {A : Type ℓ} → ℕ → List A → List A
snprintf_text size s = take (size - 1) s

-- `email=%s&password=%s` of the escaped texts
unfoldable pub form_text : List ℕ → List ℕ → List ℕ
form_text urle_email urle_password =
    codes "email=" ++ urle_email ++ codes "&password=" ++ urle_password

-- `curl_escape` is curl_easy_escape; `has_memory` tells whether the URL's buffer could be allocated.
module _ (curl_escape : List ℕ → List ℕ) (has_memory : Bool) {T : Type 0} where
  unfoldable pub init_multi : AuthContext T → Bool × AuthContext T
  unfolding url_text url_size snprintf_text
  init_multi ctx =
      if ctx.curl_multi_handle
      then (true, ctx)
      else if has_memory
      then (
        true,
        record ctx {
          curl_multi_handle = true;
          auth_url = some (
              snprintf_text (url_size ctx.host ctx.app_name)
                (url_text ctx.host ctx.port ctx.app_name));
        },
      )
      else (false, record ctx { curl_multi_handle = true; auth_url = none })

  unfoldable pub start_request : AuthContext T → List ℕ → List ℕ → ℕ × AuthContext T
  unfolding init_multi form_text
  start_request ctx email password =
      let r = init_multi ctx in
      if r.0
      then (
        1,
        record r.1 {
          curl_handle = live tt;
          form_data = some (form_text (curl_escape email) (curl_escape password));
        },
      )
      else (0, r.1)

  -- The guards of `wc_auth_with_password`, on the handle of curl and the tokener; `none` where a tokener that was
  -- freed is freed.
  unfoldable pub request_with :
      Handle (Unit {0}) → Handle T → AuthContext T → List ℕ → List ℕ → Option (ℕ × AuthContext T)
  unfolding start_request
  request_with freed h ctx email password = some (0, ctx)
  request_with (live u) h ctx email password = some (0, ctx)
  request_with null null ctx email password = some (start_request ctx email password)
  request_with null (live t) ctx email password =
      some (start_request (record ctx { auth_parser = null }) email password)
  request_with null freed ctx email password = none

  -- What is returned, and the context.
  unfoldable pub auth_with_password : AuthContext T → List ℕ → List ℕ → Option (ℕ × AuthContext T)
  unfolding request_with
  auth_with_password ctx email password =
      request_with ctx.curl_handle ctx.auth_parser ctx email password

module _ {T : Type 0} where
  -- The handle is freed, and stays set; freeing NULL does nothing, and `none` is a handle that was freed before.
  unfoldable pub clean_handle : Handle (Unit {0}) → AuthContext T → Option (AuthContext T)
  clean_handle null ctx = some ctx
  clean_handle (live u) ctx = some (record ctx { curl_handle = freed })
  clean_handle freed ctx = none

  -- `wc_auth_service`, after the socket action of curl.
  unfoldable pub auth_service : AuthContext T → ℕ → Option (AuthContext T)
  unfolding clean_handle
  auth_service ctx still_running =
      if still_running == 0 then clean_handle ctx.curl_handle ctx else some ctx
