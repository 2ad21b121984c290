-- ===== src/Accounts/SignIn.antt =====
-- What signing in leaves behind: uis/backoffice/services/auth-service.ts with the token of
-- lib/auth-storage.ts.
use miguel_n_ai_trackflow_pr.Common.{
  Bool, Json, List, Option, Text, [], arr, bool, codes, false, if◌then◌else◌, is_empty, is_written,
  none, null, num, obj, prop, refl, some, str, subst, sym, trim, true, ℕ, ◌∷◌, ◌≡◌,
}
use miguel_n_ai_trackflow_pr.Accounts.Forms.{LoginFormValues, RegistrationPayload}
use miguel_n_ai_trackflow_pr.Accounts.Payloads.{extract_access_token, token_in}
use miguel_n_ai_trackflow_pr.Accounts.Service.{
  AuthFailure, AuthOutcome, done, json_post, keep_answer, keep_decoded, keep_token, login, no_token,
  refused, request_failed,
}
use miguel_n_ai_trackflow_pr.Api.Requests.{Client, Net, request_api}
use miguel_n_ai_trackflow_pr.Api.Responses.{
  Init, Outcome, Response, parse_response_json, returns, throws,
}
use miguel_n_ai_trackflow_pr.Session.Token.{read_token, read_token-store_token}

token_if :
    (b : Bool) (t token : Text)
    → (if b then none else some t) ≡ some token
    → (b ≡ false) × (t ≡ token)
token_if true t token h = cc
token_if false t token h = (refl, cc)

written_in :
    {N : Type 0} (o : Option (Json N)) (token : Text)
    → token_in o ≡ some token
    → is_written token ≡ true
written_in none token h = cc
written_in (some null) token h = cc
written_in (some (bool b)) token h = cc
written_in (some (num a)) token h = cc
written_in (some (arr vs)) token h = cc
written_in (some (obj fs)) token h = cc
written_in (some (str t)) token h =
    let (full, same) = token_if (is_empty (trim t)) t token h in
    subst (λ x. is_written x ≡ true) same (rw full refl)

-- A token that was found is written.
extract_access_token-is_written :
    {N : Type 0} (v : Json N) (token : Text)
    → extract_access_token v ≡ some token
    → is_written token ≡ true
unfolding extract_access_token
extract_access_token-is_written v token h = written_in (prop v (codes "access_token")) token h

-- An answer of success with a token.
pub record IsSignedIn {N : Type 0} (o : Outcome N (Response N)) (token : Text) : Type 0 where
  pub response : Response N
  pub value : Json N
  pub returned : o ≡ returns response
  pub decoded : parse_response_json response ≡ returns value
  pub found : extract_access_token value ≡ some token

-- Why a sign-in fails, by how its request ended: the failure of the request or of reading the
-- answer, or an answer without a token.
abbrev pub FailsToRead : {N : Type 0} → Outcome N (Json N) → AuthFailure N → Type 0
FailsToRead (throws f) e = e ≡ request_failed f
FailsToRead (returns v) e = (extract_access_token v ≡ none) × (e ≡ no_token)

abbrev pub FailsToSignIn : {N : Type 0} → Outcome N (Response N) → AuthFailure N → Type 0
FailsToSignIn (throws f) e = e ≡ request_failed f
FailsToSignIn (returns r) e = FailsToRead (parse_response_json r) e

module _ {N : Type 0} (net : Net N) (meanwhile : ℕ → Client N → Client N) (lower : Text → Text)
    (stringify : List (Text × Text) → Text) (payload_text : RegistrationPayload → Text) where
  -- A call that gives a token leaves it to be read.
  abbrev IsSaved : AuthOutcome N Text × Client N → Type 0
  IsSaved (done token, c) = read_token net.browser c.tab ≡ some token
  IsSaved (refused e, c) = Unit

  saved_token :
      (r : AuthOutcome N Text × Client N) (token : Text)
      → IsSaved r
      → r.0 ≡ done token
      → read_token net.browser r.1.tab ≡ some token
  saved_token (done t, c) token k h = cc (k, h)
  saved_token (refused e, c) token k h = cc

  -- The request of a sign-in.
  abbrev pub login_call : LoginFormValues → Init
  login_call values = json_post (
      stringify
        ((codes "email", lower (trim values.email)) ∷ (codes "password", values.password) ∷ []))

  keep_answer-done :
      (o : Outcome N (Response N)) (c : Client N) (token : Text)
      → IsSignedIn o token
      → (keep_answer net meanwhile lower stringify payload_text o c).0 ≡ done token
  unfolding keep_answer keep_decoded keep_token
  keep_answer-done o c token h = rw h.returned (rw h.decoded (rw h.found refl))

  login-done :
      (values : LoginFormValues) (c : Client N) (token : Text)
      → IsSignedIn (request_api net meanwhile (codes "/auth/login") (login_call values) c).0 token
      → (login net meanwhile lower stringify payload_text values c).0 ≡ done token
  unfolding login
  login-done values c token h =
      let (o, c1) = request_api net meanwhile (codes "/auth/login") (login_call values) c in
      keep_answer-done o c1 token h

  module _ (window : net.browser.has_window ≡ true)
      (same : net.browser.can_get ≡ net.browser.can_set) where
    keep_token-IsSaved :
        (token : Option Text) (c : Client N)
        → ((t : Text) → token ≡ some t → is_written t ≡ true)
        → IsSaved (keep_token net meanwhile lower stringify payload_text token c)
    unfolding keep_token
    keep_token-IsSaved none c h = tt
    keep_token-IsSaved (some token) c h =
        read_token-store_token net.browser token c.tab window same (h token refl)

    keep_decoded-IsSaved :
        (o : Outcome N (Json N)) (c : Client N)
        → IsSaved (keep_decoded net meanwhile lower stringify payload_text o c)
    unfolding keep_decoded
    keep_decoded-IsSaved (throws e) c = tt
    keep_decoded-IsSaved (returns v) c =
        keep_token-IsSaved (extract_access_token v) c (λ t h. extract_access_token-is_written v t h)

    keep_answer-IsSaved :
        (o : Outcome N (Response N)) (c : Client N)
        → IsSaved (keep_answer net meanwhile lower stringify payload_text o c)
    unfolding keep_answer
    keep_answer-IsSaved (throws e) c = tt
    keep_answer-IsSaved (returns r) c = keep_decoded-IsSaved (parse_response_json r) (meanwhile 2 c)

    login-IsSaved :
        (values : LoginFormValues) (c : Client N)
        → IsSaved (login net meanwhile lower stringify payload_text values c)
    unfolding login
    login-IsSaved values c = keep_answer-IsSaved _ _

    -- What a sign-in ends with: a token of the answer that can be read, or its failure.
    abbrev pub SignsIn : Outcome N (Response N) → AuthOutcome N Text × Client N → Type 0
    SignsIn o (done token, c) = IsSignedIn o token × (read_token net.browser c.tab ≡ some token)
    SignsIn o (refused e, c) = FailsToSignIn o e

    keep_token-SignsIn :
        (r : Response N) (v : Json N) (found : Option Text) (c : Client N)
        → parse_response_json r ≡ returns v
        → extract_access_token v ≡ found
        → SignsIn (returns r) (keep_token net meanwhile lower stringify payload_text found c)
    unfolding keep_token
    keep_token-SignsIn r v none c d f = subst (λ x. FailsToRead x no_token) (sym d) (f, refl)
    keep_token-SignsIn r v (some token) c d f = (
      record { response = r; value = v; returned = refl; decoded = d; found = f },
      read_token-store_token net.browser token c.tab window same
          (extract_access_token-is_written v token f),
    )

    keep_decoded-SignsIn :
        (r : Response N) (o : Outcome N (Json N)) (c : Client N)
        → parse_response_json r ≡ o
        → SignsIn (returns r) (keep_decoded net meanwhile lower stringify payload_text o c)
    unfolding keep_decoded
    keep_decoded-SignsIn r (throws e) c d =
        subst (λ x. FailsToRead x (request_failed e)) (sym d) refl
    keep_decoded-SignsIn r (returns v) c d =
        keep_token-SignsIn r v (extract_access_token v) c d refl

    keep_answer-SignsIn :
        (o : Outcome N (Response N)) (c : Client N)
        → SignsIn o (keep_answer net meanwhile lower stringify payload_text o c)
    unfolding keep_answer
    keep_answer-SignsIn (throws e) c = refl
    keep_answer-SignsIn (returns r) c =
        keep_decoded-SignsIn r (parse_response_json r) (meanwhile 2 c) refl

    pub login-SignsIn :
        (values : LoginFormValues) (c : Client N)
        → SignsIn
            (request_api net meanwhile (codes "/auth/login") (login_call values) c).0
            (login net meanwhile lower stringify payload_text values c)
    unfolding login
    login-SignsIn values c = keep_answer-SignsIn _ _

    -- If the API answers a sign-in with success and a token that is not blank, then the sign-in gives
    -- that token, and it is the token that is read afterwards, whatever other code did while the
    -- sign-in waited, in a window whose storage can be read exactly when it can be written.
    pub login-read_token :
        (values : LoginFormValues) (c : Client N) (token : Text)
        → IsSignedIn (request_api net meanwhile (codes "/auth/login") (login_call values) c).0 token
        → ((login net meanwhile lower stringify payload_text values c).0 ≡ done token)
          × (read_token net.browser
                (login net meanwhile lower stringify payload_text values c).1.tab
              ≡ some token)
    login-read_token values c token h =
        let gives = login-done values c token h in
        (
          gives,
          saved_token (login net meanwhile lower stringify payload_text values c) token
              (login-IsSaved values c) gives,
        )
