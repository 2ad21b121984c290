-- ===== src/Accounts/SignOut.antt =====
-- Registering, resetting a password and signing out: uis/backoffice/services/auth-service.ts.
use miguel_n_ai_trackflow_pr.Common.{
  Bool-cases, List, Option, Text, [], codes, inl, inr, none, refl, some, true, ℕ, ◌∷◌, ◌≡◌,
}
use miguel_n_ai_trackflow_pr.Accounts.Forms.{
  RegisterFormValues, RegistrationPayload, build_registration_payload,
}
use miguel_n_ai_trackflow_pr.Accounts.Service.{
  AuthOutcome, after_login, client_app, done, finish_reset, json_post, post_registration_login,
  refused, register, request_failed, reset_password, sign_in_registered, tracks_event,
}
use miguel_n_ai_trackflow_pr.Accounts.SignIn.{
  FailsToSignIn, IsSignedIn, SignsIn, login-SignsIn, login_call,
}
use miguel_n_ai_trackflow_pr.Api.Requests.{Client, Net, request_api}
use miguel_n_ai_trackflow_pr.Api.Responses.{Init, Outcome, Response, returns, throws}
use miguel_n_ai_trackflow_pr.Session.Token.{Browser, Tab, clear_token, read_token}

clear_token-read :
    (b : Browser) (s : Tab) → b.can_get ≡ b.can_remove → read_token b (clear_token b s) ≡ none
unfolding read_token clear_token
clear_token-read b s same = elim (Bool-cases b.has_window) [
  | inl w ↦ elim (Bool-cases b.can_remove) [
    | inl fine ↦ rw (w, same, fine) refl
    | inr kept ↦ rw (w, same, kept) refl
  ]
  | inr server ↦ rw server refl
]

module _ {N : Type 0} (net : Net N) (meanwhile : ℕ → Client N → Client N) (lower : Text → Text)
    (stringify : List (Text × Text) → Text) (payload_text : RegistrationPayload → Text) where
  -- The request of a registration.
  abbrev pub register_call : RegisterFormValues → Init
  register_call values = json_post (payload_text (build_registration_payload lower values))

  -- The request of the sign-in that follows, after the registration was counted.
  abbrev pub sign_in_call : RegisterFormValues → Client N → Outcome N (Response N)
  sign_in_call values c =
      (request_api net meanwhile (codes "/auth/login")
        (login_call net meanwhile lower stringify payload_text
          (record { email = values.email; password = values.password }))
        (tracks_event net (codes "user_registered") client_app c)).0

  -- How a registration with an account ends, by how the request of its sign-in ended: with a token
  -- of the answer, which can be read, or with the error that says that the account exists, about
  -- what made the sign-in fail.
  abbrev pub IsTold : Outcome N (Response N) → AuthOutcome N Text × Client N → Type 0
  IsTold o (done token, c) = IsSignedIn o token × (read_token net.browser c.tab ≡ some token)
  IsTold o (refused (post_registration_login e), c) = FailsToSignIn o e
  IsTold o (refused _, c) = ⊥

  -- A registration after its request: the request's failure, or how the sign-in ends.
  abbrev pub IsHonest :
      RegisterFormValues
      → Outcome N (Response N) × Client N
      → AuthOutcome N Text × Client N
      → Type 0
  IsHonest values (throws e, c) result = result ≡ (refused (request_failed e), c)
  IsHonest values (returns r, c) result = IsTold (sign_in_call values c) result

  module _ (window : net.browser.has_window ≡ true)
      (readable : net.browser.can_get ≡ net.browser.can_set) where
    after_login-IsTold :
        (o : Outcome N (Response N)) (r : AuthOutcome N Text × Client N)
        → SignsIn net meanwhile lower stringify payload_text window readable o r
        → IsTold o (after_login net meanwhile lower stringify payload_text r.0, r.1)
    after_login-IsTold o (done token, c) h = h
    after_login-IsTold o (refused e, c) h = h

    sign_in_registered-IsHonest :
        (values : RegisterFormValues) (o : Outcome N (Response N)) (c : Client N)
        → IsHonest values
            (o, c)
            (sign_in_registered net meanwhile lower stringify payload_text values o c)
    unfolding sign_in_registered
    sign_in_registered-IsHonest values (throws e) c = refl
    sign_in_registered-IsHonest values (returns r) c =
        after_login-IsTold _ _
          (login-SignsIn net meanwhile lower stringify payload_text window readable _ _)

    -- A registration whose request failed ends with that failure. One whose account was created ends
    -- with a token only if its sign-in was answered with that token, which can then be read, and else
    -- with the error that says that the account exists and holds what made the sign-in fail; all
    -- this whatever other code did while the calls waited, in a window whose storage can be read
    -- exactly when it can be written.
    pub register-IsHonest :
        (values : RegisterFormValues) (c : Client N)
        → IsHonest values
            (request_api net meanwhile (codes "/users") (register_call values) c)
            (register net meanwhile lower stringify payload_text values c)
    unfolding register
    register-IsHonest values c =
        let (o, c1) = request_api net meanwhile (codes "/users") (register_call values) c in
        sign_in_registered-IsHonest values o c1

  -- The request of a reset.
  abbrev pub reset_call : Text → Text → Init
  reset_call token new_password =
      json_post (stringify ((codes "token", token) ∷ (codes "new_password", new_password) ∷ []))

  module _ (same : net.browser.can_get ≡ net.browser.can_remove) where
    finish_reset-read_token :
        (age : Option N) (o : Outcome N (Response N)) (r : Response N) (c : Client N)
        → o ≡ returns r
        → let after = finish_reset net meanwhile lower stringify payload_text age o c in
          (after.0 ≡ done tt) × (read_token net.browser after.1.tab ≡ none)
    unfolding finish_reset
    finish_reset-read_token age o r c h = rw h (refl, clear_token-read net.browser _ same)

    -- A password that was reset leaves no token to read, if the storage can be read exactly when it can
    -- be removed from.
    pub reset_password-read_token :
        (token_age : Text → Option N) (token new_password : Text) (c : Client N) (r : Response N)
        → (request_api net meanwhile
            (codes "/auth/reset-password")
            (reset_call token new_password)
            c).0
          ≡ returns r
        → let after =
            reset_password net meanwhile lower stringify payload_text token_age token new_password
              c in
          (after.0 ≡ done tt) × (read_token net.browser after.1.tab ≡ none)
    unfolding reset_password
    reset_password-read_token token_age token new_password c r h =
        let (o, c1) =
          request_api net meanwhile (codes "/auth/reset-password") (reset_call token new_password)
            c in
        finish_reset-read_token (token_age token) o r c1 h
