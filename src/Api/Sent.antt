-- ===== src/Api/Sent.antt =====
-- What the requests of uis/backoffice/lib/api-client.ts send and what they give back.
use miguel_n_ai_trackflow_pr.Session.Token.{read_token}
use miguel_n_ai_trackflow_pr.Common.{
  Bool-cases, List, Option, Text, [], arith, assign, before, codes, false, if_intro, inl, inr,
  is_empty, lookup, lookup-assign, none, refl, some, text_eq, ℕ, ◌++◌, ◌==◌, ◌∙◌, ◌∷◌, ◌≡◌,
}
use miguel_n_ai_trackflow_pr.Api.Responses.{
  Init, Outcome, Request, Response, bearer, build_api_url, filled, spread, with_json_headers,
}
use miguel_n_ai_trackflow_pr.Api.Requests.{
  Client, Net, Pending, arrive, arrived, expire, finish_authenticated, record_api_call,
  record_classified, request_authenticated_api, settle_authenticated, start, start_at, with_token,
}

lookup-spread :
    (table more : List (Text × Text)) (k : Text)
    → lookup more k ≡ none
    → lookup (spread table more) k ≡ lookup table k
unfolding spread lookup
lookup-spread table [] k h = refl
lookup-spread table ((j, t) ∷ more) k h =
    lookup-spread (assign j t table) more k (ground arith)
    ∙ lookup-assign j k t table
    ∙ ground arith

with_json_headers-bearer :
    (session rid token : Text) (call : Init)
    → is_empty token ≡ false
    → lookup call.headers (codes "Authorization") ≡ none
    → lookup (with_json_headers session call (some token) rid) (codes "Authorization")
      ≡ some (bearer token)
unfolding with_json_headers lookup text_eq
with_json_headers-bearer session rid token call filled h =
    lookup-spread _ call.headers (codes "Authorization") h ∙ rw filled refl

-- One more call of `fetch`: for the address, with the method and the body of the caller, and with
-- the token.
pub record IsSent (call : Init) (token url : Text) (before after : List Request) : Type 0 where
  pub request : Request
  pub requests : after ≡ before ++ request ∷ []
  pub to_url : request.url ≡ url
  pub method : request.method ≡ call.method
  pub body : request.body ≡ call.body
  pub authorised : lookup request.headers (codes "Authorization") ≡ some (bearer token)

-- One call of `fetch` where there is a token and an address, and none else.
unfoldable pub Sends : Init → Option Text → Option Text → List Request → List Request → Type 0
Sends call (some token) (some url) before after = IsSent call token url before after
Sends call _ _ before after = after ≡ before

Sends-none : (call : Init) (url : Option Text) (rs : List Request) → Sends call none url rs rs
unfolding Sends
Sends-none call none rs = refl
Sends-none call (some url) rs = refl

module _ {N : Type 0} (net : Net N) where
  record_classified-requests :
      (p : Pending N) (status : ℕ) (verb cls : Option Text) (c : Client N)
      → (record_classified net p status verb cls c).requests ≡ c.requests
  unfolding record_classified
  record_classified-requests p status (some verb) (some cls) c = refl
  record_classified-requests p status (some verb) none c = refl
  record_classified-requests p status none cls c = refl

  arrive-requests :
      (p : Pending N) (answer : Option (Response N)) (c : Client N)
      → (arrive net p answer c).requests ≡ c.requests
  unfolding arrive record_api_call
  arrive-requests p none c = refl
  arrive-requests p (some r) c = record_classified-requests p r.status _ _ c

  settle_authenticated-requests :
      (p : Pending N) (answer : Option (Response N)) (c : Client N)
      → (settle_authenticated net p answer c).1.requests ≡ c.requests
  unfolding settle_authenticated expire
  settle_authenticated-requests p none c = refl
  settle_authenticated-requests p (some r) c =
      if_intro (λ (o : Outcome N (Response N) × Client N). o.1.requests ≡ c.requests)
        (r.status == 401) (λ _. refl) (λ _. refl)

  module _ (path : Text) (call : Init) (token : Text) (filled : is_empty token ≡ false)
      (free : lookup call.headers (codes "Authorization") ≡ none) where
    start_at-Sends :
        (rid : Text) (url : Option Text) (c : Client N)
        → Sends call
            (some token)
            url
            c.requests
            (start_at net path call (some token) rid url c).1.requests
    unfolding start_at Sends
    start_at-Sends rid none c = refl
    start_at-Sends rid (some url) c = record {
      request = _;
      requests = refl;
      to_url = refl;
      method = refl;
      body = refl;
      authorised = with_json_headers-bearer _ rid token call filled free;
    }

  module _ (meanwhile : ℕ → Client N → Client N)
      (keeps : (k : ℕ) (c : Client N) → (meanwhile k c).requests ≡ c.requests) where
    finish_authenticated-requests :
        (p : Option (Pending N)) (c : Client N)
        → (finish_authenticated net meanwhile p c).1.requests ≡ c.requests
    unfolding finish_authenticated
    finish_authenticated-requests none c = refl
    finish_authenticated-requests (some p) c =
        settle_authenticated-requests p p.answer (arrived net meanwhile p c)
        ∙ keeps 1 _
        ∙ arrive-requests p p.answer (meanwhile 0 c)
        ∙ keeps 0 c

    with_token-Sends :
        (path : Text) (call : Init) (token : Option Text) (c : Client N)
        → lookup call.headers (codes "Authorization") ≡ none
        → Sends call
            (filled token)
            (build_api_url net.api_url path)
            c.requests
            (with_token net meanwhile (filled token) path call c).1.requests
    unfolding with_token start
    with_token-Sends path call none c free =
        Sends-none call (build_api_url net.api_url path) c.requests
    with_token-Sends path call (some token) c free = elim (Bool-cases (is_empty token)) [
      | inl blank ↦ rw blank (Sends-none call (build_api_url net.api_url path) c.requests)
      | inr full ↦
          let (pending, started) = start net path call (some token) c in
          rw full (
            rw (finish_authenticated-requests pending started) (
              start_at-Sends path call token full free (net.options.uuid c.telemetry.ids.drawn)
                (build_api_url net.api_url path) _))
    ]

    -- If other code makes no request while a protected call waits, and the caller sets no header
    -- `Authorization` itself, then the call makes exactly one request if there is a token and a configured
    -- address, for that address and with the caller's method and body and the token in that header,
    -- and else makes none.
    pub request_authenticated_api-Sends :
        (path : Text) (call : Init) (c : Client N)
        → lookup call.headers (codes "Authorization") ≡ none
        → Sends call
            (filled (read_token net.browser c.tab))
            (build_api_url net.api_url path)
            c.requests
            (request_authenticated_api net meanwhile path call c).1.requests
    unfolding request_authenticated_api
    request_authenticated_api-Sends path call c free =
        with_token-Sends path call (read_token net.browser c.tab) c free
