-- ===== src/Accounts/Service.antt =====
-- Signing in and out: uis/backoffice/services/auth-service.ts over lib/api-client.ts. `stringify` is
-- `JSON.stringify` of an object of texts, `payload_text` that of a registration, `lower` is
-- `toLowerCase`, and `token_age` is tokenAgeSeconds of
-- services/telemetry-service.ts at the time of the call. Answers wait on `meanwhile` as requests do.
use miguel_n_ai_trackflow_pr.Common.{
  Bool, Json, List, Option, Text, [], codes, end, false, field, if◌then◌else◌, none, num, obj, some,
  str, trim, ℕ, ◌==◌, ◌∷◌,
}
use miguel_n_ai_trackflow_pr.Accounts.Forms.{
  ChangePasswordFormValues, LoginFormValues, RegisterFormValues, RegistrationPayload,
  build_registration_payload,
}
use miguel_n_ai_trackflow_pr.Accounts.Payloads.{extract_access_token}
use miguel_n_ai_trackflow_pr.Api.Friendly.{Failure, api_error, describe_error, general_error_copy}
use miguel_n_ai_trackflow_pr.Api.Requests.{Client, Net, request_api, request_authenticated_api}
use miguel_n_ai_trackflow_pr.Api.Responses.{
  Init, Outcome, Response, parse_response_json, returns, throws,
}
use miguel_n_ai_trackflow_pr.Session.Token.{clear_token, store_token}
use miguel_n_ai_trackflow_pr.Telemetry.Service.{track}

-- What a call of the service may throw: what its request throws, an answer without a token, and the
-- three errors of the service.
pub data AuthFailure (N : Type 0) : Type 0 where
  request_failed : Failure N → AuthFailure N
  no_token : AuthFailure N
  post_registration_login : AuthFailure N → AuthFailure N
  invalid_reset_token : Text → AuthFailure N
  incorrect_current_password : Text → AuthFailure N

pub data AuthOutcome (N A : Type 0) : Type 0 where
  done : A → AuthOutcome N A
  refused : AuthFailure N → AuthOutcome N A

-- What is left of a call after its token was found or not.
abbrev pub tracks_event : {N : Type 0} → Net N → Text → Json N → Client N → Client N
tracks_event net name properties c = record c {
  telemetry = track net.options name properties none c.telemetry;
}

abbrev pub json_post : Text → Init
json_post body = record {
  method = some (codes "POST");
  headers = (codes "Content-Type", codes "application/json") ∷ [];
  body = some body;
}

-- `error instanceof ApiError && error.status === 400`
abbrev pub is_bad_request : {N : Type 0} → Failure N → Bool
is_bad_request (api_error status payload) = status == 400
is_bad_request _ = false

abbrev pub client_app : {N : Type 0} → Json N
client_app = obj (field (codes "client_app") (str (codes "backoffice")) end)

module _ {N : Type 0} (net : Net N) (meanwhile : ℕ → Client N → Client N) (lower : Text → Text)
    (stringify : List (Text × Text) → Text) (payload_text : RegistrationPayload → Text) where
  abbrev pub login_properties : Json N
  login_properties = obj (
      field (codes "login_route") (str (codes "/auth/login"))
        (field (codes "client_app") (str (codes "backoffice")) end))

  unfoldable pub keep_token : Option Text → Client N → AuthOutcome N Text × Client N
  keep_token none c = (refused no_token, c)
  keep_token (some token) c = (
    done token,
    tracks_event net (codes "login_succeeded") login_properties
        (record c { tab = store_token net.browser token c.tab }),
  )

  unfoldable pub keep_decoded : Outcome N (Json N) → Client N → AuthOutcome N Text × Client N
  keep_decoded (throws e) c = (refused (request_failed e), c)
  keep_decoded (returns v) c = keep_token (extract_access_token v) c

  -- `login` after its request; the body of the answer is awaited.
  unfoldable pub keep_answer : Outcome N (Response N) → Client N → AuthOutcome N Text × Client N
  keep_answer (throws e) c = (refused (request_failed e), c)
  keep_answer (returns r) c = keep_decoded (parse_response_json r) (meanwhile 2 c)

  unfoldable pub login : LoginFormValues → Client N → AuthOutcome N Text × Client N
  login values c =
      let body =
        stringify
          ((codes "email", lower (trim values.email)) ∷ (codes "password", values.password) ∷ []) in
      let (o, c1) = request_api net meanwhile (codes "/auth/login") (json_post body) c in
      keep_answer o c1

  abbrev pub after_login : AuthOutcome N Text → AuthOutcome N Text
  after_login (done token) = done token
  after_login (refused e) = refused (post_registration_login e)

  unfoldable pub sign_in_registered :
      RegisterFormValues → Outcome N (Response N) → Client N → AuthOutcome N Text × Client N
  sign_in_registered values (throws e) c = (refused (request_failed e), c)
  sign_in_registered values (returns r) c =
      let (o, c1) =
        login (record { email = values.email; password = values.password })
          (tracks_event net (codes "user_registered") client_app c) in
      (after_login o, c1)

  unfoldable pub register : RegisterFormValues → Client N → AuthOutcome N Text × Client N
  register values c =
      let body = payload_text (build_registration_payload lower values) in
      let (o, c1) = request_api net meanwhile (codes "/users") (json_post body) c in
      sign_in_registered values o c1

  abbrev pub reason : Text → Json N
  reason text = obj (field (codes "reason") (str text) end)

  abbrev pub reset_fallback : Text
  reset_fallback = codes "This password reset link is invalid or has expired."

  abbrev pub track_age : Option N → Client N → Client N
  track_age none c = c
  track_age (some age) c =
      tracks_event net (codes "password_reset_completed")
        (obj (field (codes "link_age_seconds") (num age) end)) c

  -- `resetPassword` after its request
  unfoldable pub finish_reset :
      Option N → Outcome N (Response N) → Client N → AuthOutcome N (Unit {0}) × Client N
  finish_reset age (throws e) c =
      if is_bad_request e
      then (
        refused (invalid_reset_token (describe_error e reset_fallback general_error_copy).message),
        tracks_event net (codes "password_reset_rejected") (reason (codes "unknown")) c,
      )
      else (refused (request_failed e), c)
  finish_reset age (returns r) c =
      let aged = track_age age c in
      (done tt, record aged { tab = clear_token net.browser aged.tab })

  unfoldable pub reset_password :
      (Text → Option N) → Text → Text → Client N → AuthOutcome N (Unit {0}) × Client N
  reset_password token_age token new_password c =
      let body = stringify ((codes "token", token) ∷ (codes "new_password", new_password) ∷ []) in
      let (o, c1) = request_api net meanwhile (codes "/auth/reset-password") (json_post body) c in
      finish_reset (token_age token) o c1

  abbrev pub change_fallback : Text
  change_fallback = codes "Your current password is incorrect."

  -- `changePassword` after its request
  unfoldable pub finish_change :
      Outcome N (Response N) → Client N → AuthOutcome N (Unit {0}) × Client N
  finish_change (throws e) c =
      if is_bad_request e
      then (
        refused (
            incorrect_current_password
              (describe_error e change_fallback general_error_copy).message),
        tracks_event net (codes "password_change_rejected")
            (reason (codes "incorrect_current_password")) c,
      )
      else (refused (request_failed e), c)
  finish_change (returns r) c = (
    done tt,
    tracks_event net (codes "password_changed")
        (obj (
          field (codes "route") (str (codes "/auth/change-password"))
            (field (codes "client_app") (str (codes "backoffice")) end)))
        c,
  )

  unfoldable pub change_password :
      ChangePasswordFormValues → Client N → AuthOutcome N (Unit {0}) × Client N
  change_password values c =
      let body = stringify (
        (codes "current_password", values.current_password)
        ∷ (codes "new_password", values.new_password)
        ∷ []) in
      let (o, c1) =
        request_authenticated_api net meanwhile (codes "/auth/change-password") (json_post body)
          c in
      finish_change o c1

  unfoldable pub logout : Client N → Client N
  logout c = record c { tab = clear_token net.browser c.tab }
