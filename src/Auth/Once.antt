-- ===== src/Auth/Once.antt =====
-- The life of a context in lib/auth/auth.c: requests, data that curl writes, and servicing, in any order.
use webcom_sdk_c.Auth.{
  Handle, null, freed, live, AuthContext, AuthInfo, parsed_body, auth_parse_body, curl_write_cb,
}
use webcom_sdk_c.Auth.Curl.{
  init_multi, start_request, request_with, auth_with_password, clean_handle, auth_service,
}
use webcom_sdk_c.Datasync.JsonC.{JsonC}
use webcom_sdk_c.Datasync.Parser.Stream.{Tokens}
use mathlib.Core.Path.{subst}
use webcom_sdk_c.Prelude.{
  ℕ, ◌+◌, ◌≤◌, ◌≡◌, refl, Bool, Option, none, some, List, ◌==◌, inl, inr, Bool-cases, arith,
}

module _ (j : JsonC) {T : Type 0} (tokener_new : T) (parse_ex : T → List ℕ → T × Tokens j.Value)
    (curl_escape : List ℕ → List ℕ) where
  -- One call, with what a request returns and 0 for the others. Whether there is memory is open at each.
  pub data Step : AuthContext T → ℕ → AuthContext T → Type 0 where
    request :
        (ctx ctx' : AuthContext T) (has_memory : Bool) (email password : List ℕ) (r : ℕ)
        → auth_with_password curl_escape has_memory ctx email password ≡ some (r, ctx')
        → Step ctx r ctx'
    service :
        (ctx ctx' : AuthContext T) (still_running : ℕ)
        → auth_service ctx still_running ≡ some ctx'
        → Step ctx 0 ctx'
    write :
        (ctx ctx' : AuthContext T) (bytes : List ℕ) (pai : Option AuthInfo)
        → curl_write_cb j tokener_new parse_ex ctx bytes ≡ some (ctx', pai)
        → Step ctx 0 ctx'

  -- Calls one after the other, with the number of requests that were started.
  pub data Run : AuthContext T → ℕ → AuthContext T → Type 0 where
    stop : (ctx : AuthContext T) → Run ctx 0 ctx
    step : (a b c : AuthContext T) (r n : ℕ) → Step a r b → Run b n c → Run a (r + n) c

  used : {A : Type 0} → Handle A → ℕ
  used null = 0
  used freed = 1
  used (live a) = 1

  -- The handle is set if it was, and if a request was started.
  Keeps : ℕ → Option (ℕ × AuthContext T) → Type 0
  unfolding used
  Keeps u none = Unit
  Keeps u (some (r, ctx)) = r + u ≤ used ctx.curl_handle

  start_request-Keeps :
      (ctx : AuthContext T) (m : Bool) (e w : List ℕ)
      → Keeps 0 (some (start_request curl_escape m ctx e w))
  unfolding start_request Keeps
  start_request-Keeps ctx m e w = elim (Bool-cases (init_multi curl_escape m ctx).0) [
    | inl b ↦ rw b (omega arith)
    | inr b ↦ rw b (omega arith)
  ]

  request_with-Keeps :
      (h : Handle (Unit {0})) (p : Handle T) (ctx : AuthContext T) (m : Bool) (e w : List ℕ)
      → ctx.curl_handle ≡ h
      → Keeps (used h) (request_with curl_escape m h p ctx e w)
  unfolding request_with Keeps
  request_with-Keeps freed p ctx m e w q = rw q (omega arith)
  request_with-Keeps (live u) p ctx m e w q = rw q (omega arith)
  request_with-Keeps null null ctx m e w q = start_request-Keeps ctx m e w
  request_with-Keeps null (live t) ctx m e w q =
      start_request-Keeps (record ctx { auth_parser = null }) m e w
  request_with-Keeps null freed ctx m e w q = tt

  -- Servicing and writing return nothing.
  Kept : ℕ → Option (AuthContext T) → Type 0
  unfolding used
  Kept u none = Unit
  Kept u (some ctx) = u ≤ used ctx.curl_handle

  clean_handle-Kept :
      (h : Handle (Unit {0})) (ctx : AuthContext T)
      → ctx.curl_handle ≡ h
      → Kept (used h) (clean_handle h ctx)
  unfolding clean_handle Kept
  clean_handle-Kept null ctx q = omega arith
  clean_handle-Kept (live u) ctx q = omega arith
  clean_handle-Kept freed ctx q = tt

  auth_service-Kept :
      (ctx : AuthContext T) (n : ℕ) → Kept (used ctx.curl_handle) (auth_service ctx n)
  unfolding auth_service
  auth_service-Kept ctx n = elim (Bool-cases (n == 0)) [
    | inl b ↦ rw b (clean_handle-Kept ctx.curl_handle ctx refl)
    | inr b ↦ rw b (unfold Kept in omega arith)
  ]

  curl_write_cb-handle :
      (ctx ctx' : AuthContext T) (bytes : List ℕ) (pai : Option AuthInfo)
      → curl_write_cb j tokener_new parse_ex ctx bytes ≡ some (ctx', pai)
      → ctx'.curl_handle ≡ ctx.curl_handle
  unfolding curl_write_cb auth_parse_body parsed_body
  curl_write_cb-handle ctx ctx' bytes pai e = ground arith

  Step-used :
      (a b : AuthContext T) (r : ℕ) → Step a r b → r + used a.curl_handle ≤ used b.curl_handle
  Step-used _ _ _ (request a b m e w r q) =
      unfold Keeps in
      subst (Keeps (used a.curl_handle)) q
        (unfold auth_with_password in request_with-Keeps a.curl_handle a.auth_parser a m e w refl)
  Step-used _ _ _ (service a b n q) =
      let k : used a.curl_handle ≤ used b.curl_handle =
        unfold Kept in subst (Kept (used a.curl_handle)) q (auth_service-Kept a n) in
      omega arith
  Step-used _ _ _ (write a b bytes pai q) = rw (curl_write_cb-handle a b bytes pai q) (omega arith)

  used_le : {A : Type 0} (h : Handle A) → used h ≤ 1
  unfolding used
  used_le null = omega arith
  used_le freed = omega arith
  used_le (live a) = omega arith

  Run-used : (a b : AuthContext T) (n : ℕ) → Run a n b → n + used a.curl_handle ≤ used b.curl_handle
  Run-used _ _ _ (stop a) = omega arith
  Run-used _ _ _ (step a b c r k s t) = omega (arith, Step-used a b r s, Run-used b c k t)

  -- However requests, data of curl and servicing follow one another, one request at most is started on a context.
  pub Run-le_1 : (a b : AuthContext T) (n : ℕ) → Run a n b → n ≤ 1
  Run-le_1 a b n t = omega (arith, Run-used a b n t, used_le b.curl_handle)

  -- Once a reply was reported, further data for the request is given to a tokener that was freed.
  pub curl_write_cb_twice :
      (ctx ctx' : AuthContext T) (bytes more : List ℕ) (pai : AuthInfo)
      → curl_write_cb j tokener_new parse_ex ctx bytes ≡ some (ctx', some pai)
      → curl_write_cb j tokener_new parse_ex ctx' more ≡ none
  unfolding curl_write_cb auth_parse_body parsed_body
  curl_write_cb_twice ctx ctx' bytes more pai e = ground arith
