-- ===== src/Routes/Classes.antt =====
-- The classes of widths, methods and statuses, uis/backoffice/lib/telemetry-routes.ts. A status and
-- a width are whole numbers.
use miguel_n_ai_trackflow_pr.Common.{
  Bool, List, Option, Text, [], arith, codes, false, if◌then◌else◌, includes, is_some, leb, ltb,
  none, or_else, refl, some, starts_with, text_eq, text_eq_refl, true, ℕ, ◌&&◌, ◌*◌, ◌+◌, ◌/◌, ◌<◌,
  ◌==◌, ◌||◌, ◌↔◌, ◌∙◌, ◌∷◌, ◌≡◌, ◌≤◌,
}

unfoldable pub viewport_class : ℕ → Text
viewport_class width =
    if ltb width 640
    then codes "mobile"
    else if ltb width 1024
    then codes "tablet"
    else codes "desktop"

abbrev pub methods : List Text
methods = codes "GET" ∷ codes "POST" ∷ codes "PUT" ∷ codes "PATCH" ∷ codes "DELETE" ∷ []

-- `upper` is `toUpperCase` of the platform.
unfoldable pub http_method : (Text → Text) → Option Text → Option Text
http_method upper method =
    let name = upper (or_else method (codes "GET")) in
    if includes methods name then some name else none

-- The template of a whole number below 10 and `xx`.
unfoldable pub status_class : ℕ → Option Text
status_class status =
    if ltb status 200 || ltb 599 status then none else some ((48 + status / 100) ∷ codes "xx")

unfoldable pub api_error_class : ℕ → Text → Option Text
api_error_class status path =
    if status == 401 || status == 403
    then some (codes "auth")
    else if status == 404
    then some (codes "not_found")
    else if status == 409
    then some (codes "conflict")
    else if status == 422
    then some (codes "validation")
    else if status == 400
    then some (
        if starts_with path (codes "/api/incidents")
        then codes "validation"
        else codes "domain_rule")
    else if leb 500 status && leb status 599
    then some (codes "unhandled")
    else if leb 400 status
    then some (codes "domain_rule")
    else none

unfoldable pub ui_error_class : ℕ → Option Text
ui_error_class status =
    if leb 500 status && leb status 599
    then some (codes "server_error_5xx")
    else if leb 400 status && leb status 499
    then some (codes "client_error_4xx")
    else none

-- Two different texts are told apart by the tests before them.
module _ (x y : Text) (different : text_eq x y ≡ false) where
  first_iff :
      (b c : Bool) → ((if b then some x else if c then some y else none) ≡ some x) ↔ (b ≡ true)
  first_iff true c = (λ _. refl, λ _. refl)
  first_iff false true = (λ h. cc (h, text_eq_refl x, different), λ h. cc)
  first_iff false false = (λ h. cc, λ h. cc)

  second_iff :
      (b c : Bool)
      → ((if b then some x else if c then some y else none) ≡ some y) ↔ ((b ≡ false) × (c ≡ true))
  second_iff true c = (λ h. absurd (cc (h, text_eq_refl y, different)), λ h. cc (h.0))
  second_iff false true = (λ _. (refl, refl), λ _. refl)
  second_iff false false = (λ h. cc, λ h. cc (h.1))

digit_iff :
    (b : Bool) (d e : ℕ)
    → ((if b then none else some (d ∷ codes "xx")) ≡ some (e ∷ codes "xx"))
      ↔ ((b ≡ false) × (d ≡ e))
digit_iff true d e = (λ h. cc, λ h. cc (h.0))
digit_iff false d e = (λ h. (refl, cc), λ h. cc (h.1))

in_class_iff :
    (s d : ℕ)
    → 2 ≤ d
    → d ≤ 5
    → (((ltb s 200 || ltb 599 s) ≡ false) × (48 + s / 100 ≡ 48 + d))
      ↔ ((100 * d ≤ s) × (s < 100 * d + 100))
in_class_iff s d low high = ground arith

both_iff {ℓ κ μ} : {P : Type ℓ} {Q : Type κ} {R : Type μ} → P ↔ R → Q ↔ R → P ↔ Q
both_iff p q = (λ x. q.1 (p.0 x), λ y. p.1 (q.0 y))

class_iff :
    (s d : ℕ)
    → 2 ≤ d
    → d ≤ 5
    → (status_class s ≡ some ((48 + d) ∷ codes "xx")) ↔ ((100 * d ≤ s) × (s < 100 * d + 100))
unfolding status_class
class_iff s d low high =
    let digit = digit_iff (ltb s 200 || ltb 599 s) (48 + s / 100) (48 + d) in
    let range = in_class_iff s d low high in (λ h. range.0 (digit.0 h), λ h. digit.1 (range.1 h))

server_iff :
    (s : ℕ) → (ui_error_class s ≡ some (codes "server_error_5xx")) ↔ ((500 ≤ s) × (s < 600))
unfolding ui_error_class text_eq
server_iff s =
    let first =
      first_iff (codes "server_error_5xx") (codes "client_error_4xx") refl (leb 500 s && leb s 599)
        (leb 400 s && leb s 499) in
    (λ h. let t = first.0 h in ground arith, λ h. first.1 (ground arith))

client_iff :
    (s : ℕ) → (ui_error_class s ≡ some (codes "client_error_4xx")) ↔ ((400 ≤ s) × (s < 500))
unfolding ui_error_class text_eq
client_iff s =
    let second =
      second_iff (codes "server_error_5xx") (codes "client_error_4xx") refl (leb 500 s && leb s 599)
        (leb 400 s && leb s 499) in
    (λ h. let t = second.0 h in ground arith, λ h. second.1 (ground arith))

some_if {ℓ} :
    {A : Type ℓ} (b c : Bool) (x : A) (o : Option A)
    → is_some o ≡ c
    → is_some (if b then some x else o) ≡ (b || c)
some_if true c x o h = refl
some_if false c x o h = h

some_status :
    (s : ℕ)
    → ((s == 401 || s == 403)
        || (s == 404
            || (s == 409
                || (s == 422 || (s == 400 || (leb 500 s && leb s 599 || (leb 400 s || false)))))))
      ≡ leb 400 s
some_status s = ground arith

pub is_some-api_error_class : (s : ℕ) (path : Text) → is_some (api_error_class s path) ≡ leb 400 s
unfolding api_error_class
is_some-api_error_class s path =
    some_if (s == 401 || s == 403) _ _ _ (
      some_if (s == 404) _ _ _ (
        some_if (s == 409) _ _ _ (
          some_if (s == 422) _ _ _ (
            some_if (s == 400) _ _ _
              (some_if (leb 500 s && leb s 599) _ _ _ (some_if (leb 400 s) false _ none refl))))))
    ∙ some_status s

-- The classes of a status agree: it is of the class 5xx or 4xx exactly when the interface counts it
-- as an error of the server or of the client, and the API's errors are the statuses from 400 on.
pub error_classes_agree :
    (s : ℕ) (path : Text)
    → ((status_class s ≡ some (codes "5xx")) ↔ (ui_error_class s ≡ some (codes "server_error_5xx")))
      × ((status_class s ≡ some (codes "4xx"))
          ↔ (ui_error_class s ≡ some (codes "client_error_4xx")))
      × (is_some (api_error_class s path) ≡ leb 400 s)
error_classes_agree s path = (
  both_iff (class_iff s 5 (omega arith) (omega arith)) (server_iff s),
  both_iff (class_iff s 4 (omega arith) (omega arith)) (client_iff s),
  is_some-api_error_class s path,
)
