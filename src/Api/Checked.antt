-- ===== src/Api/Checked.antt =====
-- A request whose answer is checked before use: inventoryRequest of uis/backoffice/lib/inventory.ts and
-- reportingRequest of uis/backoffice/lib/reporting.ts, which differ in the message of their error.
use miguel_n_ai_trackflow_pr.Common.{
  Bool, Bool-cases, Json, Text, if◌then◌else◌, inl, inr, refl, true, ℕ, ◌↔◌, ◌≡◌,
}
use miguel_n_ai_trackflow_pr.Api.Friendly.{Failure}
use miguel_n_ai_trackflow_pr.Api.Responses.{
  Init, Outcome, Response, parse_response_json, returns, throws,
}
use miguel_n_ai_trackflow_pr.Api.Requests.{Client, Net, request_authenticated_api}

-- What such a call may throw: what a request throws, or the error of an answer that it cannot read,
-- `InventoryResponseError` or `ReportingResponseError`, with its message.
pub data ServiceFailure (N : Type 0) : Type 0 where
  request_failure : Failure N → ServiceFailure N
  response_failure : Text → ServiceFailure N

pub data Checked (N : Type 0) : Type 0 where
  gives : Json N → Checked N
  fails : ServiceFailure N → Checked N

-- A value that was answered, decoded and accepted.
pub record IsAccepted {N : Type 0} (check : Json N → Bool) (o : Outcome N (Response N)) (v : Json N)
    : Type 0 where
  pub response : Response N
  pub returned : o ≡ returns response
  pub decoded : parse_response_json response ≡ returns v
  pub accepted : check v ≡ true

module _ {N : Type 0} (message : Text) where
  abbrev pub check_value : (Json N → Bool) → Outcome N (Json N) → Checked N
  check_value check (throws e) = fails (request_failure e)
  check_value check (returns v) = if check v then gives v else fails (response_failure message)

  abbrev pub check_response : (Json N → Bool) → Outcome N (Response N) → Checked N
  check_response check (throws e) = fails (request_failure e)
  check_response check (returns r) = check_value check (parse_response_json r)

  check_value_iff :
      (check : Json N → Bool) (o : Outcome N (Json N)) (v : Json N)
      → (check_value check o ≡ gives v) ↔ ((o ≡ returns v) × (check v ≡ true))
  check_value_iff check (throws e) v = (λ h. cc, λ h. cc)
  check_value_iff check (returns w) v = elim (Bool-cases (check w)) [
    | inl fine ↦ rw fine (λ h. (cc, cc), λ h. cc (h.0))
    | inr bad ↦ rw bad (λ h. cc, λ h. absurd (cc (h.0, h.1, bad)))
  ]

  check_response-IsAccepted :
      (check : Json N → Bool) (o : Outcome N (Response N)) (v : Json N)
      → check_response check o ≡ gives v
      → IsAccepted check o v
  check_response-IsAccepted check (throws e) v h = cc
  check_response-IsAccepted check (returns r) v h =
      let (decoded, accepted) = (check_value_iff check (parse_response_json r) v).0 h in
      record { response = r; returned = refl; decoded = decoded; accepted = accepted }

  check_response-gives :
      (check : Json N → Bool) (o : Outcome N (Response N)) (v : Json N)
      → IsAccepted check o v
      → check_response check o ≡ gives v
  check_response-gives check o v h =
      rw h.returned
        ((check_value_iff check (parse_response_json h.response) v).1 (h.decoded, h.accepted))

module _ {N : Type 0} (net : Net N) (meanwhile : ℕ → Client N → Client N) (message : Text) where
  unfoldable pub checked_request : Text → (Json N → Bool) → Init → Client N → Checked N × Client N
  checked_request path check call c =
      let (outcome, c1) = request_authenticated_api net meanwhile path call c in
      (check_response message check outcome, c1)

  -- Such a call gives a value exactly when the request was answered with success, and the answer was
  -- decoded to that value and passed the check.
  pub checked_request_iff :
      (path : Text) (check : Json N → Bool) (call : Init) (c : Client N) (v : Json N)
      → ((checked_request path check call c).0 ≡ gives v)
        ↔ IsAccepted check (request_authenticated_api net meanwhile path call c).0 v
  unfolding checked_request
  checked_request_iff path check call c v =
      let o = (request_authenticated_api net meanwhile path call c).0 in
      (check_response-IsAccepted message check o v, check_response-gives message check o v)
