-- ===== src/Api/Sessions.antt =====
-- Protected requests and the session: requestAuthenticatedApi of uis/backoffice/lib/api-client.ts with
-- uis/backoffice/lib/auth-storage.ts.
use miguel_n_ai_trackflow_pr.Common.{
  Bool, Json, Option, Text, ap, false, if_intro, if◌then◌else◌, none, refl, some, true, ℕ, ◌==◌,
  ◌∙◌, ◌≡◌,
}
use miguel_n_ai_trackflow_pr.Api.Friendly.{api_error, network, unauthorized, unexpected, unreadable}
use miguel_n_ai_trackflow_pr.Api.Responses.{
  Init, Outcome, Response, build_api_url, filled, ok, returns, settle, throws,
}
use miguel_n_ai_trackflow_pr.Api.Requests.{
  Client, Net, Pending, arrive, arrived, expire, finish_authenticated, record_api_call,
  record_classified, request_authenticated_api, settle_authenticated, start, start_at, with_token,
}
use miguel_n_ai_trackflow_pr.Session.Token.{
  Tab, handle_unauthorized, handle_unauthorized_lem, read_token,
}

module _ {N : Type 0} (net : Net N) where
  -- The session of a call that ended for want of one is gone.
  abbrev IsOver : Outcome N (Response N) × Client N → Type 0
  IsOver (throws (unauthorized payload), c) = read_token net.browser c.tab ≡ none
  IsOver _ = Unit

  over-gone :
      (r : Outcome N (Response N) × Client N) (payload : Json N)
      → IsOver r
      → r.0 ≡ throws (unauthorized payload)
      → read_token net.browser (r.1).tab ≡ none
  over-gone (throws (unauthorized payload), c) p h e = h
  over-gone (returns r, c) p h e = cc
  over-gone (throws network, c) p h e = cc
  over-gone (throws (unreadable s), c) p h e = cc
  over-gone (throws (api_error s q), c) p h e = cc
  over-gone (throws unexpected, c) p h e = cc

  module _ (same : net.browser.can_get ≡ net.browser.can_remove) where
    settle_authenticated-IsOver :
        (p : Pending N) (answer : Option (Response N)) (c : Client N)
        → IsOver (settle_authenticated net p answer c)
    unfolding settle_authenticated settle expire
    settle_authenticated-IsOver p none c = tt
    settle_authenticated-IsOver p (some r) c =
        if_intro IsOver (r.status == 401) (λ _. (handle_unauthorized_lem net.browser c.tab same).0)
          (λ _. if_intro (λ o. IsOver (o, c)) (ok r) (λ _. tt) (λ _. tt))

    finish-IsOver :
        (meanwhile : ℕ → Client N → Client N) (p : Option (Pending N)) (c : Client N)
        → IsOver (finish_authenticated net meanwhile p c)
    unfolding finish_authenticated
    finish-IsOver meanwhile none c = tt
    finish-IsOver meanwhile (some p) c =
        settle_authenticated-IsOver p p.answer (arrived net meanwhile p c)

    with_token-IsOver :
        (meanwhile : ℕ → Client N → Client N) (token : Option Text) (path : Text) (call : Init)
        (c : Client N)
        → IsOver (with_token net meanwhile token path call c)
    unfolding with_token
    with_token-IsOver meanwhile none path call c =
        (handle_unauthorized_lem net.browser c.tab same).0
    with_token-IsOver meanwhile (some token) path call c =
        let (pending, started) = start net path call (some token) c in
        finish-IsOver meanwhile pending started

    -- A protected call that ends for want of a session leaves no token to read, whatever other code
    -- did while it waited, if the storage can be read exactly when it can be removed from.
    pub request_authenticated_api-unauthorized :
        (meanwhile : ℕ → Client N → Client N) (path : Text) (call : Init) (c : Client N)
        (payload : Json N)
        → (request_authenticated_api net meanwhile path call c).0 ≡ throws (unauthorized payload)
        → read_token net.browser (request_authenticated_api net meanwhile path call c).1.tab ≡ none
    unfolding request_authenticated_api
    request_authenticated_api-unauthorized meanwhile path call c payload e =
        over-gone (with_token net meanwhile (filled (read_token net.browser c.tab)) path call c)
          payload (with_token-IsOver meanwhile (filled (read_token net.browser c.tab)) path call c)
          e

  abbrev pub is_unauthorized : Outcome N (Response N) → Bool
  is_unauthorized (throws (unauthorized payload)) = true
  is_unauthorized _ = false

  abbrev HasTab : Tab → Outcome N (Response N) × Client N → Type 0
  HasTab t (o, c) = c.tab ≡ (if is_unauthorized o then handle_unauthorized net.browser t else t)

  settle-authorized : (answer : Option (Response N)) → is_unauthorized (settle answer) ≡ false
  unfolding settle
  settle-authorized none = refl
  settle-authorized (some r) =
      if_intro (λ o. is_unauthorized o ≡ false) (ok r) (λ _. refl) (λ _. refl)

  settle-HasTab :
      (answer : Option (Response N)) (t : Tab) (c : Client N)
      → c.tab ≡ t
      → HasTab t (settle answer, c)
  settle-HasTab answer t c e = rw (settle-authorized answer) e

  settle_authenticated-HasTab :
      (p : Pending N) (answer : Option (Response N)) (t : Tab) (c : Client N)
      → c.tab ≡ t
      → HasTab t (settle_authenticated net p answer c)
  unfolding settle_authenticated expire
  settle_authenticated-HasTab p none t c e = settle-HasTab none t c e
  settle_authenticated-HasTab p (some r) t c e =
      if_intro (HasTab t) (r.status == 401) (λ _. ap (handle_unauthorized net.browser) e)
        (λ _. settle-HasTab (some r) t c e)

  record_classified-tab :
      (p : Pending N) (status : ℕ) (verb cls : Option Text) (c : Client N)
      → (record_classified net p status verb cls c).tab ≡ c.tab
  unfolding record_classified
  record_classified-tab p status (some verb) (some cls) c = refl
  record_classified-tab p status (some verb) none c = refl
  record_classified-tab p status none cls c = refl

  arrive-tab :
      (p : Pending N) (answer : Option (Response N)) (c : Client N)
      → (arrive net p answer c).tab ≡ c.tab
  unfolding arrive record_api_call
  arrive-tab p none c = refl
  arrive-tab p (some r) c = record_classified-tab p r.status _ _ c

  start_at-tab :
      (path : Text) (call : Init) (token : Option Text) (rid : Text) (url : Option Text)
      (c : Client N)
      → (start_at net path call token rid url c).1.tab ≡ c.tab
  unfolding start_at
  start_at-tab path call token rid none c = refl
  start_at-tab path call token rid (some url) c = refl

  module _ (meanwhile : ℕ → Client N → Client N)
      (keeps : (k : ℕ) (c : Client N) → (meanwhile k c).tab ≡ c.tab) where
    finish-HasTab :
        (p : Option (Pending N)) (t : Tab) (c : Client N)
        → c.tab ≡ t
        → HasTab t (finish_authenticated net meanwhile p c)
    unfolding finish_authenticated
    finish-HasTab none t c e = e
    finish-HasTab (some p) t c e =
        settle_authenticated-HasTab p p.answer t (arrived net meanwhile p c)
          (keeps 1 _ ∙ arrive-tab p p.answer (meanwhile 0 c) ∙ keeps 0 c ∙ e)

    with_token-HasTab :
        (token : Option Text) (path : Text) (call : Init) (c : Client N)
        → HasTab c.tab (with_token net meanwhile token path call c)
    unfolding with_token start
    with_token-HasTab none path call c = refl
    with_token-HasTab (some token) path call c =
        finish-HasTab _ c.tab _
          (start_at-tab path call (some token) _ (build_api_url net.api_url path) _)

    -- If other code leaves the token alone while a protected call waits, the call signs the user out
    -- exactly when it ends for want of a session, and else leaves the token as it was.
    pub request_authenticated_api-tab :
        (path : Text) (call : Init) (c : Client N)
        → (request_authenticated_api net meanwhile path call c).1.tab ≡ (
            if is_unauthorized (request_authenticated_api net meanwhile path call c).0
            then handle_unauthorized net.browser c.tab
            else c.tab)
    unfolding request_authenticated_api
    request_authenticated_api-tab path call c =
        with_token-HasTab (filled (read_token net.browser c.tab)) path call c
