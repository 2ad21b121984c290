-- ===== src/Api/Fields.antt =====
-- Which message stands under a field: the loop of `describeError` in uis/backoffice/lib/friendly-error.ts.
use miguel_n_ai_trackflow_pr.Common.{
  Bool, Bool-cases, List, Option, Text, [], ap, arith, false, if_intro, if◌then◌else◌, inl, inr,
  is_empty, is_inherited, is_some, leb, lookup, none, not, or_first, or_first-none, or_first-some,
  refl, some, subst, sym, text_eq, text_eq_sound, true, ℕ, ◌++◌, ◌||◌, ◌∙◌, ◌∷◌, ◌≡◌,
}
use miguel_n_ai_trackflow_pr.Api.Bodies.{ApiFieldError}
use miguel_n_ai_trackflow_pr.Api.Friendly.{
  ErrorCopy, Failure, FieldMessages, FriendlyError, add_problem, api_error, collect, describe_error,
  describe_problems, has_key, is_readable_status, network, read_problems, readable_problems,
  unauthorized, unexpected, unreadable,
}

-- The first message about a field.
unfoldable pub first_about : Text → List ApiFieldError → Option Text
first_about f [] = none
first_about f (p ∷ ps) = if text_eq p.at f then some p.message else first_about f ps

pub lookup-append :
    (r s : FieldMessages) (f : Text) → lookup (r ++ s) f ≡ or_first (lookup r f) (lookup s f)
unfolding lookup
lookup-append [] s f = refl
lookup-append ((k, m) ∷ r) s f = ground (arith, lookup-append r s f)

has_key_lem :
    (f : Text) (r : FieldMessages) → has_key f r ≡ (is_some (lookup r f) || is_inherited f)
unfolding has_key lookup
has_key_lem f [] = refl
has_key_lem f ((k, m) ∷ r) = ground (arith, has_key_lem f r)

pub or_first-choice :
    (b : Bool) (t : Text) (o o1 : Option Text)
    → or_first (or_first o (if b then some t else none)) o1 ≡ or_first o (if b then some t else o1)
or_first-choice true t none o1 = refl
or_first-choice false t none o1 = refl
or_first-choice b t (some u) o1 = refl

-- A named field that the object has as an own key.
taken-some :
    (f : Text) (r : FieldMessages)
    → is_empty f ≡ false
    → is_inherited f ≡ false
    → (is_empty f || has_key f r) ≡ true
    → is_some (lookup r f) ≡ true
taken-some f r h k t = ground (arith, has_key_lem f r)

-- One round of the loop keeps what a field has, and else takes the message that is about it.
add_problem-lookup :
    (f : Text) (p : ApiFieldError) (r : FieldMessages)
    → is_empty f ≡ false
    → is_inherited f ≡ false
    → lookup (add_problem p r) f
      ≡ or_first (lookup r f) (if text_eq p.at f then some p.message else none)
unfolding lookup
add_problem-lookup f p r h k =
    if_intro
      (λ q. lookup q f ≡ or_first (lookup r f) (if text_eq p.at f then some p.message else none))
      (is_empty p.at || has_key p.at r)
      (λ taken. elim (Bool-cases (text_eq p.at f)) [
        | inl same ↦ sym (
            or_first-some (lookup r f) _ (
              taken-some f r h k (
                subst (λ a. (is_empty a || has_key a r) ≡ true) (text_eq_sound p.at f same) taken)))
        | inr other ↦ rw other (sym (or_first-none (lookup r f)))
      ])
      (λ _. lookup-append r ((p.at, p.message) ∷ []) f)

collect-lookup :
    (f : Text) (ps : List ApiFieldError) (r : FieldMessages)
    → is_empty f ≡ false
    → is_inherited f ≡ false
    → lookup (collect r ps) f ≡ or_first (lookup r f) (first_about f ps)
unfolding collect first_about
collect-lookup f [] r h k = sym (or_first-none (lookup r f))
collect-lookup f (p ∷ ps) r h k =
    collect-lookup f ps (add_problem p r) h k
    ∙ ap (λ o. or_first o (first_about f ps)) (add_problem-lookup f p r h k)
    ∙ or_first-choice (text_eq p.at f) p.message (lookup r f) (first_about f ps)

-- The message under a field is the first of the problems about it, if the field has a name and no
-- object inherits a property of that name.
pub collect_lem :
    (f : Text) (ps : List ApiFieldError)
    → is_empty f ≡ false
    → is_inherited f ≡ false
    → lookup (collect [] ps) f ≡ first_about f ps
unfolding lookup
collect_lem f ps h k = collect-lookup f ps [] h k

untaken-absurd :
    {A : Type 0} (f : Text) (r : FieldMessages)
    → is_inherited f ≡ true
    → (is_empty f || has_key f r) ≡ false
    → A
untaken-absurd f r k t = absurd (ground (arith, has_key_lem f r))

add_problem-inherited :
    (f : Text) (p : ApiFieldError) (r : FieldMessages)
    → is_inherited f ≡ true
    → lookup (add_problem p r) f ≡ lookup r f
unfolding lookup
add_problem-inherited f p r k =
    if_intro (λ q. lookup q f ≡ lookup r f) (is_empty p.at || has_key p.at r) (λ _. refl)
      (λ free. elim (Bool-cases (text_eq p.at f)) [
        | inl same ↦
            untaken-absurd f r k
              (subst (λ a. (is_empty a || has_key a r) ≡ false) (text_eq_sound p.at f same) free)
        | inr other ↦
            lookup-append r ((p.at, p.message) ∷ []) f ∙ rw other (or_first-none (lookup r f))
      ])

collect-inherited :
    (f : Text) (ps : List ApiFieldError) (r : FieldMessages)
    → is_inherited f ≡ true
    → lookup (collect r ps) f ≡ lookup r f
unfolding collect
collect-inherited f [] r k = refl
collect-inherited f (p ∷ ps) r k =
    collect-inherited f ps (add_problem p r) k ∙ add_problem-inherited f p r k

describe_problems-inherited :
    (f : Text) (ps : List ApiFieldError) (status : ℕ) (fallback : Text) (copy : ErrorCopy)
    → is_inherited f ≡ true
    → lookup (describe_problems ps status fallback copy).field_errors f ≡ none
unfolding lookup
describe_problems-inherited f [] status fallback copy k = refl
describe_problems-inherited f (p ∷ ps) status fallback copy k = collect-inherited f (p ∷ ps) [] k

-- No message of a failure ever stands under a field whose name every object inherits, as
-- `constructor`, whatever the API says about it.
pub describe_error-inherited :
    {N : Type 0} (f : Text) (e : Failure N) (fallback : Text) (copy : ErrorCopy)
    → is_inherited f ≡ true
    → lookup (describe_error e fallback copy).field_errors f ≡ none
unfolding describe_error lookup
describe_error-inherited f (unauthorized payload) fallback copy k = refl
describe_error-inherited f network fallback copy k = refl
describe_error-inherited f (unreadable status) fallback copy k = refl
describe_error-inherited f unexpected fallback copy k = refl
describe_error-inherited f (api_error status payload) fallback copy k =
    let P : FriendlyError → Type 0 = λ r. lookup r.field_errors f ≡ none in
    if_intro P (leb 500 status) (λ _. refl)
      (λ _.
        if_intro P (not (is_readable_status status)) (λ _. refl)
          (λ _.
            describe_problems-inherited f (readable_problems (read_problems payload)) status
              fallback copy k))
