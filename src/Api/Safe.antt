-- ===== src/Api/Safe.antt =====
-- The rule of uis/backoffice/lib/friendly-error.ts: which messages reach the screen, and under which
-- fields.
use miguel_n_ai_trackflow_pr.Common.{
  All, All-append, All-weaken, Bool-cases, Json, List, Text, [], any, arith, get_elem?, if_intro,
  includes, includes-get_elem?, inl, inr, is_empty, keep-All, leb, not, or_else, refl, some,
  text_eq, text_eq_refl, true, ℕ, ◌<◌, ◌==◌, ◌||◌, ◌∷◌, ◌≡◌, ◌⊎◌,
}
use miguel_n_ai_trackflow_pr.Api.Bodies.{ApiFieldError}
use miguel_n_ai_trackflow_pr.Api.Friendly.{
  ErrorCopy, Failure, FieldMessages, FriendlyError, add_problem, api_error, collect, describe_error,
  describe_problems, has_key, is_readable, is_readable_status, network, read_problems,
  readable_problems, session_message, unattached, unauthorized, unexpected, unexpected_message,
  unreadable,
}

-- The texts that this side writes.
abbrev pub own_texts : Text → ErrorCopy → List Text
own_texts fallback copy =
    session_message
    ∷ unexpected_message
    ∷ copy.offline
    ∷ copy.server
    ∷ fallback
    ∷ or_else copy.not_found fallback
    ∷ []

-- A message of the body of an answer below 500 whose status the API writes sentences for, short and
-- without traces of the inside.
pub record IsFromBody {N : Type 0} (e : Failure N) (message : Text) : Type 0 where
  pub status : ℕ
  pub payload : Json N
  pub answered : e ≡ api_error status payload
  pub below : status < 500
  pub readable_status : is_readable_status status ≡ true
  pub said : any (λ p. text_eq p.message message) (read_problems payload) ≡ true
  pub readable : is_readable message ≡ true

-- Each message of a list is one of its messages.
said_by_any :
    (xs : List ApiFieldError) → All (λ p. any (λ q. text_eq q.message p.message) xs ≡ true) xs
said_by_any [] = tt
said_by_any (x ∷ xs) = (
  rw (text_eq_refl x.message) refl,
  All-weaken (λ p. any (λ q. text_eq q.message p.message) xs ≡ true)
      (λ p. any (λ q. text_eq q.message p.message) (x ∷ xs) ≡ true) xs (λ p h. ground arith)
      (said_by_any xs),
)

add_problem-All {κ} :
    (P : Text → Type κ) (r : FieldMessages) (p : ApiFieldError)
    → All (λ entry. P entry.1) r
    → P p.message
    → All (λ entry. P entry.1) (add_problem p r)
add_problem-All P r p h q =
    if_intro (All (λ entry. P entry.1)) (is_empty p.at || has_key p.at r) (λ _. h)
      (λ _. All-append (λ entry. P entry.1) r ((p.at, p.message) ∷ []) h (q, tt))

-- What holds of the messages of the problems holds of those that are collected.
collect-All {κ} :
    (P : Text → Type κ) (r : FieldMessages) (ps : List ApiFieldError)
    → All (λ entry. P entry.1) r
    → All (λ p. P p.message) ps
    → All (λ entry. P entry.1) (collect r ps)
unfolding collect
collect-All P r [] h hs = h
collect-All P r (p ∷ ps) h (q, hs) =
    collect-All P (add_problem p r) ps (add_problem-All P r p h q) hs

unattached-All {κ} :
    (P : Text → Type κ) (ps : List ApiFieldError) (fallback : Text)
    → All (λ p. P p.message) ps
    → P fallback
    → P (or_else (unattached ps) fallback)
unfolding unattached
unattached-All P [] fallback h q = q
unattached-All P (p ∷ ps) fallback (hp, h) q = elim (Bool-cases (is_empty p.at)) [
  | inl page ↦ rw page hp
  | inr field_only ↦ rw field_only (unattached-All P ps fallback h q)
]

-- A message of this side or of the body.
abbrev pub IsSafeMessage : {N : Type 0} → Failure N → Text → ErrorCopy → Text → Type 0
IsSafeMessage e fallback copy message =
    (includes (own_texts fallback copy) message ≡ true) ⊎ IsFromBody e message

abbrev pub IsSafe : {N : Type 0} → Failure N → Text → ErrorCopy → FriendlyError → Type 0
IsSafe e fallback copy r =
    IsSafeMessage e fallback copy r.message × All (λ entry. IsFromBody e entry.1) r.field_errors

-- What stands at a place of the own texts may be shown.
own_text :
    {N : Type 0} {e : Failure N} (fallback : Text) (copy : ErrorCopy) (i : ℕ) (t : Text)
    → get_elem? (own_texts fallback copy) i ≡ some t
    → IsSafeMessage e fallback copy t
own_text fallback copy i t h = inl (includes-get_elem? i (own_texts fallback copy) t h)

describe_problems-IsSafe :
    {N : Type 0} (fallback : Text) (copy : ErrorCopy) (e : Failure N) (ps : List ApiFieldError)
    (status : ℕ)
    → All (λ p. IsFromBody e p.message) ps
    → IsSafe e fallback copy (describe_problems ps status fallback copy)
describe_problems-IsSafe fallback copy e [] status h = (
  if_intro (IsSafeMessage e fallback copy) (status == 404)
      (λ _. own_text fallback copy 5 (or_else copy.not_found fallback) refl)
      (λ _. own_text fallback copy 4 fallback refl),
  tt,
)
describe_problems-IsSafe fallback copy e (p ∷ ps) status h = (
  unattached-All (IsSafeMessage e fallback copy) (p ∷ ps) fallback
      (All-weaken (λ p. IsFromBody e p.message) (λ p. IsSafeMessage e fallback copy p.message)
        (p ∷ ps) (λ q. inr) h)
      (own_text fallback copy 4 fallback refl),
  collect-All (IsFromBody e) [] (p ∷ ps) tt h,
)

readable_problems-IsFromBody :
    {N : Type 0} (status : ℕ) (payload : Json N)
    → status < 500
    → is_readable_status status ≡ true
    → All
        (λ p. IsFromBody (api_error status payload) p.message)
        (readable_problems (read_problems payload))
readable_problems-IsFromBody status payload below r =
    All-weaken
      (λ p.
        (is_readable p.message ≡ true)
        × (any (λ q. text_eq q.message p.message) (read_problems payload) ≡ true))
      (λ p. IsFromBody (api_error status payload) p.message)
      (readable_problems (read_problems payload))
      (λ p h. record {
        status = status;
        payload = payload;
        answered = refl;
        below = below;
        readable_status = r;
        said = h.1;
        readable = h.0;
      })
      (keep-All (λ p. any (λ q. text_eq q.message p.message) (read_problems payload) ≡ true)
        (λ p. is_readable p.message) (read_problems payload) (said_by_any (read_problems payload)))

-- Whatever was thrown, the message for the user is one that this side wrote or one of the body, and
-- every message under a field is one of the body; and a message of the body is shown only if the
-- answer is below 500 and of a status that the API writes sentences for, and the message is not
-- empty, of at most 300 code units, and without traces of the inside.
pub describe_error-IsSafe :
    {N : Type 0} (e : Failure N) (fallback : Text) (copy : ErrorCopy)
    → IsSafe e fallback copy (describe_error e fallback copy)
unfolding describe_error
describe_error-IsSafe (unauthorized payload) fallback copy =
    (own_text fallback copy 0 session_message refl, tt)
describe_error-IsSafe network fallback copy = (own_text fallback copy 2 copy.offline refl, tt)
describe_error-IsSafe (unreadable status) fallback copy =
    (own_text fallback copy 3 copy.server refl, tt)
describe_error-IsSafe unexpected fallback copy =
    (own_text fallback copy 1 unexpected_message refl, tt)
describe_error-IsSafe (api_error status payload) fallback copy =
    if_intro (IsSafe (api_error status payload) fallback copy) (leb 500 status)
      (λ _. (own_text fallback copy 3 copy.server refl, tt))
      (λ below.
        if_intro (IsSafe (api_error status payload) fallback copy) (not (is_readable_status status))
          (λ _. (own_text fallback copy 4 fallback refl, tt))
          (λ r.
            describe_problems-IsSafe fallback copy (api_error status payload)
              (readable_problems (read_problems payload)) status
              (readable_problems-IsFromBody status payload (ground arith) (ground arith))))
