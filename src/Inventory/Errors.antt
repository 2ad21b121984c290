-- ===== src/Inventory/Errors.antt =====
-- describeInventoryError of uis/backoffice/lib/inventory.ts, and the record of field messages that it
-- makes.
use miguel_n_ai_trackflow_pr.Common.{
  Bool, Bool-cases, Json, List, Option, Text, [], ap, arith, codes, false, if_intro, if◌then◌else◌,
  inl, inr, is_empty, is_some, keep, leb, length, lookup, map, none, not, or_else, or_first,
  or_first-none, or_first-some, proto, refl, some, starts_with, subst, sym, text_eq, text_eq_sound,
  true, ℕ, ◌&&◌, ◌++◌, ◌||◌, ◌∙◌, ◌∷◌, ◌≡◌,
}
use miguel_n_ai_trackflow_pr.Api.Bodies.{
  ApiFieldError, detail_of, extract_api_field_errors, extract_api_problems, first_nonempty,
  trimmed_text,
}
use miguel_n_ai_trackflow_pr.Api.Fields.{first_about, lookup-append, or_first-choice}
use miguel_n_ai_trackflow_pr.Api.Friendly.{
  FieldMessages, FriendlyError, api_error, network, only_message, session_message, unattached,
  unauthorized, unexpected, unreadable, without_field,
}
use miguel_n_ai_trackflow_pr.Api.Leaks.{
  fold_case, has_frame, has_location, has_tag, has_traceback, is_word_char,
}
use miguel_n_ai_trackflow_pr.Api.Checked.{ServiceFailure, request_failure, response_failure}

abbrev pub inventory_fallback : Text
inventory_fallback =
    codes
      "The inventory service is having trouble. Please try again, and contact TrackFlow Tech if it continues."

abbrev pub inventory_offline : Text
inventory_offline =
    codes "Could not reach the inventory service. Check your connection and try again."

-- `^\\w*(Error|Exception):` of a text in lower case
unfoldable pub starts_with_folded_exception : Text → Bool
starts_with_folded_exception [] = false
starts_with_folded_exception (c ∷ s) =
    let later = starts_with_folded_exception s in
    starts_with (c ∷ s) (codes "error:")
    || starts_with (c ∷ s) (codes "exception:")
    || is_word_char c && later

-- The pattern with its flag `i`, on the text in lower case.
unfoldable pub leaks_traces : Text → Bool
leaks_traces s =
    let t = map fold_case s in
    has_traceback t || has_frame t || starts_with_folded_exception t || has_location t || has_tag t

abbrev pub inventory_problems : {N : Type 0} → Json N → List ApiFieldError
inventory_problems payload = first_nonempty (extract_api_problems payload) (
    first_nonempty (extract_api_field_errors payload)
      (without_field (trimmed_text (detail_of payload))))

abbrev pub shown_problems : List ApiFieldError → List ApiFieldError
shown_problems ps = keep (λ p. leb (length p.message) 300 && not (leaks_traces p.message)) ps

-- `fieldErrors[field] = message`: a text assigned to `__proto__` makes no key.
abbrev pub put_own : Text → Text → FieldMessages → FieldMessages
put_own at message r = if text_eq at proto then r else r ++ (at, message) ∷ []

-- The loop over the problems, which looks at own keys only.
unfoldable pub collect_own : FieldMessages → List ApiFieldError → FieldMessages
collect_own r [] = r
collect_own r (p ∷ ps) =
    let rest = collect_own (put_own p.at p.message r) ps in
    let same = collect_own r ps in if is_empty p.at || is_some (lookup r p.at) then same else rest

-- `problems.find(({ field }) => !field)?.message ?? problems[0]?.message ?? fallback`
abbrev pub headline : List ApiFieldError → Text
headline [] = inventory_fallback
headline (p ∷ ps) = or_else (unattached (p ∷ ps)) p.message

abbrev pub describe_shown : List ApiFieldError → FriendlyError
describe_shown ps = record { message = headline ps; field_errors = collect_own [] ps }

unfoldable pub describe_inventory_error : {N : Type 0} → ServiceFailure N → FriendlyError
describe_inventory_error (request_failure (unauthorized payload)) = only_message session_message
describe_inventory_error (request_failure network) = only_message inventory_offline
describe_inventory_error (response_failure message) = only_message message
describe_inventory_error (request_failure (api_error status payload)) =
    describe_shown (shown_problems (inventory_problems payload))
describe_inventory_error (request_failure (unreadable status)) = only_message inventory_fallback
describe_inventory_error (request_failure unexpected) = only_message inventory_fallback

taken_own :
    (f : Text) (o : Option Text)
    → is_empty f ≡ false
    → (is_empty f || is_some o) ≡ true
    → is_some o ≡ true
taken_own f o h t = ground arith

-- A problem whose field is taken adds nothing to what is found for a field.
taken-lookup :
    (f : Text) (p : ApiFieldError) (r : FieldMessages) (o : Option Text)
    → is_empty f ≡ false
    → (is_empty p.at || is_some (lookup r p.at)) ≡ true
    → or_first (lookup r f) o ≡ or_first (lookup r f) (if text_eq p.at f then some p.message else o)
taken-lookup f p r o h t = elim (Bool-cases (text_eq p.at f)) [
  | inl same ↦
      let there : is_some (lookup r f) ≡ true =
        taken_own f (lookup r f) h (
          subst (λ a. (is_empty a || is_some (lookup r a)) ≡ true) (text_eq_sound p.at f same) t) in
      or_first-some (lookup r f) o there
      ∙ sym (or_first-some (lookup r f) (if text_eq p.at f then some p.message else o) there)
  | inr other ↦ rw other refl
]

other_field :
    (f at : Text) → text_eq at proto ≡ true → text_eq f proto ≡ false → text_eq at f ≡ false
other_field f at reserved h = elim (Bool-cases (text_eq at f)) [
  | inl same ↦ absurd (cc (h, reserved, ap (λ t. text_eq t proto) (text_eq_sound at f same)))
  | inr other ↦ other
]

put_own-proto :
    (at message : Text) (r : FieldMessages)
    → lookup r proto ≡ none
    → lookup (put_own at message r) proto ≡ none
unfolding lookup
put_own-proto at message r h = elim (Bool-cases (text_eq at proto)) [
  | inl reserved ↦ rw reserved h
  | inr plain ↦ rw plain (lookup-append r ((at, message) ∷ []) proto ∙ rw (h, plain) refl)
]

-- What a new message makes of the record, for a field that is not `__proto__`.
put_own-lookup :
    (f at message : Text) (r : FieldMessages) (o : Option Text)
    → text_eq f proto ≡ false
    → or_first (lookup (put_own at message r) f) o
      ≡ or_first (lookup r f) (if text_eq at f then some message else o)
unfolding lookup
put_own-lookup f at message r o h = elim (Bool-cases (text_eq at proto)) [
  | inl reserved ↦ rw (reserved, other_field f at reserved h) refl
  | inr plain ↦ rw plain (
      ap (λ x. or_first x o) (lookup-append r ((at, message) ∷ []) f)
      ∙ or_first-choice (text_eq at f) message (lookup r f) o)
]

collect_own-lookup :
    (f : Text) (ps : List ApiFieldError) (r : FieldMessages)
    → is_empty f ≡ false
    → text_eq f proto ≡ false
    → lookup (collect_own r ps) f ≡ or_first (lookup r f) (first_about f ps)
unfolding collect_own first_about lookup
collect_own-lookup f [] r h plain = sym (or_first-none (lookup r f))
collect_own-lookup f (p ∷ ps) r h plain =
    if_intro
      (λ (es : FieldMessages).
        lookup es f
        ≡ or_first (lookup r f) (if text_eq p.at f then some p.message else first_about f ps))
      (is_empty p.at || is_some (lookup r p.at))
      (λ taken. collect_own-lookup f ps r h plain ∙ taken-lookup f p r (first_about f ps) h taken)
      (λ free.
        collect_own-lookup f ps (put_own p.at p.message r) h plain
        ∙ put_own-lookup f p.at p.message r (first_about f ps) plain)

-- No key `__proto__` comes to stand in the record.
collect_own-proto :
    (ps : List ApiFieldError) (r : FieldMessages)
    → lookup r proto ≡ none
    → lookup (collect_own r ps) proto ≡ none
unfolding collect_own
collect_own-proto [] r h = h
collect_own-proto (p ∷ ps) r h =
    if_intro (λ (es : FieldMessages). lookup es proto ≡ none)
      (is_empty p.at || is_some (lookup r p.at)) (λ taken. collect_own-proto ps r h)
      (λ free. collect_own-proto ps (put_own p.at p.message r) (put_own-proto p.at p.message r h))

-- Whatever the status of the refusal, the message under a field of the inventory screens is the first of
-- the body's problems about it that can be shown, for every field with a name but `__proto__`, and
-- under that name there is none.
pub describe_inventory_error_lem :
    {N : Type 0} (status : ℕ) (payload : Json N) (f : Text)
    → is_empty f ≡ false
    → lookup (describe_inventory_error (request_failure (api_error status payload))).field_errors f
      ≡ (if text_eq f proto
          then none
          else first_about f (shown_problems (inventory_problems payload)))
unfolding describe_inventory_error lookup
describe_inventory_error_lem status payload f h =
    let ps = shown_problems (inventory_problems payload) in
    elim (Bool-cases (text_eq f proto)) [
      | inl reserved ↦ rw reserved (
          ap (lookup (collect_own [] ps)) (text_eq_sound f proto reserved)
          ∙ collect_own-proto ps [] refl)
      | inr plain ↦ rw plain (collect_own-lookup f ps [] h plain)
    ]
