-- ===== src/Api/Responses.antt =====
-- Addresses, headers and answers of uis/backoffice/lib/api-client.ts.
use miguel_n_ai_trackflow_pr.Common.{
  Bool, Json, List, Option, Text, [], assign, codes, if◌then◌else◌, is_empty, leb, none, not, null,
  or_else, some, starts_with, trim, ℕ, ◌&&◌, ◌++◌, ◌==◌, ◌||◌, ◌∷◌,
}
use miguel_n_ai_trackflow_pr.Api.Friendly.{Failure, api_error, network, unreadable}
use miguel_n_ai_trackflow_pr.Routes.Templates.{with_slash}
use miguel_n_ai_trackflow_pr.Session.Paths.{without_end_slashes}

-- What a call ends with.
pub data Outcome (N A : Type 0) : Type 0 where
  returns : A → Outcome N A
  throws : Failure N → Outcome N A

-- `RequestInit` as the callers write it: the headers are an object.
pub record Init : Type 0 where
  pub method : Option Text
  pub headers : List (Text × Text)
  pub body : Option Text

pub record Request : Type 0 where
  pub url : Text
  pub method : Option Text
  pub headers : List (Text × Text)
  pub body : Option Text

-- An answer: `body` is what `json()` resolves to, `none` where it rejects.
pub record Response (N : Type 0) : Type 0 where
  pub status : ℕ
  pub content_type : Option Text
  pub body : Option (Json N)

-- `response.ok`
abbrev pub ok : {N : Type 0} → Response N → Bool
ok r = leb 200 r.status && leb r.status 299

abbrev cleaned_url : Option Text → Text
cleaned_url none = []
cleaned_url (some url) = without_end_slashes (trim url)

-- The error where no address is configured is `none`.
unfoldable pub build_api_url : Option Text → Text → Option Text
build_api_url api_url path =
    if is_empty (cleaned_url api_url) then none else some (cleaned_url api_url ++ with_slash path)

-- `{ ...table, ...more }`
unfoldable pub spread : List (Text × Text) → List (Text × Text) → List (Text × Text)
spread table [] = table
spread table ((k, t) ∷ more) = spread (assign k t table) more

abbrev pub bearer : Text → Text
bearer token = codes "Bearer " ++ token

abbrev pub authorization : Option Text → List (Text × Text)
authorization none = []
authorization (some token) =
    if is_empty token then [] else (codes "Authorization", bearer token) ∷ []

unfoldable pub with_json_headers : Text → Init → Option Text → Text → List (Text × Text)
with_json_headers session call token request_id =
    spread
      ((codes "Accept", codes "application/json")
        ∷ (codes "X-Client-App", codes "backoffice")
        ∷ (codes "X-Session-Id", session)
        ∷ (codes "X-Request-Id", request_id)
        ∷ authorization token)
      call.headers

-- What `!token` lets pass.
abbrev pub filled : Option Text → Option Text
filled none = none
filled (some token) = if is_empty token then none else some token

-- Whether the text stands somewhere in another.
unfoldable pub has_part : Text → Text → Bool
has_part part [] = is_empty part
has_part part (c ∷ s) = starts_with (c ∷ s) part || has_part part s

module _ {N : Type 0} where
  -- `readErrorPayload`
  abbrev pub error_payload : Response N → Json N
  error_payload r = or_else r.body null

  -- `requestApi` after `send`
  unfoldable pub settle : Option (Response N) → Outcome N (Response N)
  settle none = throws network
  settle (some r) = if ok r then returns r else throws (api_error r.status (error_payload r))

  abbrev pub read_json : ℕ → Option (Json N) → Outcome N (Json N)
  read_json status none = throws (unreadable status)
  read_json status (some value) = returns value

  unfoldable pub parse_response_json : Response N → Outcome N (Json N)
  parse_response_json r =
      if r.status == 204 || not (has_part (codes "application/json") (or_else r.content_type []))
      then returns null
      else read_json r.status r.body
