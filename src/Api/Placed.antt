-- ===== src/Api/Placed.antt =====
-- From a failure to the messages of a form: toFieldErrors of uis/backoffice/lib/auth.ts.
use miguel_n_ai_trackflow_pr.Common.{
  Bool, Bool-cases, List, Option, Text, [], all, ap, append-nil, append_assoc, arith, assign, codes,
  false, if_intro, if◌then◌else◌, includes, inl, inr, join, lookup, lookup-assign, none, not,
  or_else, or_first, or_first-none, refl, some, sym, text_eq, text_eq_sound, true, ◌&&◌, ◌++◌, ◌∙◌,
  ◌∷◌, ◌≡◌,
}
use miguel_n_ai_trackflow_pr.Api.Friendly.{
  Failure, FieldMessages, FriendlyError, describe_error, general_error_copy,
}

abbrev pub form_fallback : Text
form_fallback = codes "Please check the highlighted fields and try again."

-- `errors`, the messages under the form's fields, and `unplaced`.
pub record Placed : Type 0 where
  pub errors : FieldMessages
  pub unplaced : List Text

-- `aliases?.[field] ?? field`, for a field whose name no object inherits.
abbrev pub form_field : List (Text × Text) → Text → Text
form_field aliases at = or_else (lookup aliases at) at

abbrev no_entries : FieldMessages → Bool
no_entries [] = true
no_entries (e ∷ entries) = false

module _ (known : List Text) (aliases : List (Text × Text)) where
  abbrev pub place_message : Text → Text → Placed → Placed
  place_message at message placed =
      let target = form_field aliases at in
      if includes known target
      then record { errors = assign target message placed.errors; unplaced = placed.unplaced }
      else record { errors = placed.errors; unplaced = placed.unplaced ++ message ∷ [] }

  unfoldable pub place : FieldMessages → Placed → Placed
  place [] placed = placed
  place ((at, message) ∷ entries) placed = place entries (place_message at message placed)

  -- What is left of the function: the messages without a field, or the message where no field has one.
  unfoldable pub add_form : Text → List Text → FieldMessages → FieldMessages
  add_form message (u ∷ us) errors = assign (codes "form") (join (codes " · ") (u ∷ us)) errors
  add_form message [] [] = assign (codes "form") message []
  add_form message [] (e ∷ errors) = e ∷ errors

  unfoldable pub place_described : FriendlyError → FieldMessages
  place_described described =
      let placed = place described.field_errors (record { errors = []; unplaced = [] }) in
      add_form described.message placed.unplaced placed.errors

  unfoldable pub to_field_errors : {N : Type 0} → Failure N → FieldMessages
  to_field_errors e = place_described (describe_error e form_fallback general_error_copy)

  -- The last message for a field of the form, and the messages for none of its fields.
  unfoldable pub last_for : Text → FieldMessages → Option Text
  last_for k [] = none
  last_for k ((at, message) ∷ entries) =
      or_first (last_for k entries)
        (if text_eq (form_field aliases at) k then some message else none)

  unfoldable pub homeless : FieldMessages → List Text
  homeless [] = []
  homeless ((at, message) ∷ entries) =
      if includes known (form_field aliases at)
      then homeless entries
      else message ∷ homeless entries

  if-or_first :
      (b : Bool) (t : Text) (o : Option Text)
      → (if b then some t else o) ≡ or_first (if b then some t else none) o
  if-or_first true t o = refl
  if-or_first false t o = refl

  or_first_assoc : (o p q : Option Text) → or_first o (or_first p q) ≡ or_first (or_first o p) q
  or_first_assoc none p q = refl
  or_first_assoc (some t) p q = refl

  apart : (s t : Text) → (¬ includes known s ≡ includes known t) → text_eq s t ≡ false
  apart s t h = elim (Bool-cases (text_eq s t)) [
    | inl same ↦ absurd (h (ap (includes known) (text_eq_sound s t same)))
    | inr other ↦ other
  ]

  place_message-lookup :
      (at message k : Text) (placed : Placed)
      → includes known k ≡ true
      → lookup (place_message at message placed).errors k
        ≡ or_first
            (if text_eq (form_field aliases at) k then some message else none)
            (lookup placed.errors k)
  place_message-lookup at message k placed h =
      if_intro
        (λ (p : Placed).
          lookup p.errors k
          ≡ or_first (if text_eq (form_field aliases at) k then some message else none)
              (lookup placed.errors k))
        (includes known (form_field aliases at))
        (λ _.
          lookup-assign (form_field aliases at) k message placed.errors
          ∙ if-or_first (text_eq (form_field aliases at) k) message (lookup placed.errors k))
        (λ lacks. rw (apart (form_field aliases at) k (λ e. cc (lacks, h, e))) refl)

  place-lookup :
      (entries : FieldMessages) (k : Text) (placed : Placed)
      → includes known k ≡ true
      → lookup (place entries placed).errors k
        ≡ or_first (last_for k entries) (lookup placed.errors k)
  unfolding place last_for
  place-lookup [] k placed h = refl
  place-lookup ((at, message) ∷ entries) k placed h =
      place-lookup entries k (place_message at message placed) h
      ∙ ap (or_first (last_for k entries)) (place_message-lookup at message k placed h)
      ∙ or_first_assoc (last_for k entries) _ (lookup placed.errors k)

  -- A field that the form does not have gets no message.
  place_message-unknown :
      (at message k : Text) (placed : Placed)
      → includes known k ≡ false
      → lookup (place_message at message placed).errors k ≡ lookup placed.errors k
  place_message-unknown at message k placed h =
      if_intro (λ (p : Placed). lookup p.errors k ≡ lookup placed.errors k)
        (includes known (form_field aliases at))
        (λ has.
          lookup-assign (form_field aliases at) k message placed.errors
          ∙ rw (apart (form_field aliases at) k (λ e. cc (has, h, e))) refl)
        (λ _. refl)

  place-unknown :
      (entries : FieldMessages) (k : Text) (placed : Placed)
      → includes known k ≡ false
      → lookup (place entries placed).errors k ≡ lookup placed.errors k
  unfolding place
  place-unknown [] k placed h = refl
  place-unknown ((at, message) ∷ entries) k placed h =
      place-unknown entries k (place_message at message placed) h
      ∙ place_message-unknown at message k placed h

  place-unplaced :
      (entries : FieldMessages) (placed : Placed)
      → (place entries placed).unplaced ≡ placed.unplaced ++ homeless entries
  unfolding place homeless
  place-unplaced [] placed = sym (append-nil placed.unplaced)
  place-unplaced ((at, message) ∷ entries) placed =
      place-unplaced entries (place_message at message placed)
      ∙ elim (Bool-cases (includes known (form_field aliases at))) [
        | inl has ↦ rw has refl
        | inr lacks ↦ rw lacks (append_assoc placed.unplaced (message ∷ []) (homeless entries))
      ]

  assign-no_entries :
      (k message : Text) (errors : FieldMessages) → no_entries (assign k message errors) ≡ false
  unfolding assign
  assign-no_entries k message [] = refl
  assign-no_entries k message ((j, m) ∷ errors) =
      if_intro (λ (r : FieldMessages). no_entries r ≡ false) (text_eq j k) (λ _. refl) (λ _. refl)

  -- There is a message under a field as soon as one has a field.
  place-no_entries :
      (entries : FieldMessages) (placed : Placed)
      → no_entries (place entries placed).errors ≡ (
          no_entries placed.errors
          && all (λ e. not (includes known (form_field aliases e.0))) entries)
  unfolding place
  place-no_entries [] placed = ground arith
  place-no_entries ((at, message) ∷ entries) placed =
      place-no_entries entries (place_message at message placed)
      ∙ elim (Bool-cases (includes known (form_field aliases at))) [
        | inl has ↦
            rw (has, assign-no_entries (form_field aliases at) message placed.errors) (ground arith)
        | inr lacks ↦ rw lacks refl
      ]

  placed_if : (b : Bool) (m : Text) (ms : List Text) → (if b then ms else m ∷ ms) ≡ [] → b ≡ true
  placed_if true m ms h = refl
  placed_if false m ms h = cc

  homeless-nil :
      (entries : FieldMessages)
      → homeless entries ≡ []
      → all (λ e. not (includes known (form_field aliases e.0))) entries ≡ no_entries entries
  unfolding homeless
  homeless-nil [] h = refl
  homeless-nil ((at, message) ∷ entries) h =
      rw (placed_if (includes known (form_field aliases at)) message (homeless entries) h) refl

  -- The message that belongs to no field: the messages without a field, joined; where there are none,
  -- the message of the whole, if no field has one either.
  unfoldable pub form_message : Text → List Text → FieldMessages → Option Text
  form_message message (u ∷ us) entries = some (join (codes " · ") (u ∷ us))
  form_message message [] [] = some message
  form_message message [] (e ∷ entries) = none

  add_form-lookup :
      (message k : Text) (unplaced : List Text) (errors : FieldMessages)
      → text_eq (codes "form") k ≡ false
      → lookup (add_form message unplaced errors) k ≡ lookup errors k
  unfolding add_form lookup assign
  add_form-lookup message k (u ∷ us) errors h = lookup-assign (codes "form") k _ errors ∙ rw h refl
  add_form-lookup message k [] [] h = rw h refl
  add_form-lookup message k [] (e ∷ errors) h = refl

  add_form-form :
      (message : Text) (unplaced : List Text) (errors entries : FieldMessages)
      → lookup errors (codes "form") ≡ none
      → (unplaced ≡ [] → no_entries errors ≡ no_entries entries)
      → lookup (add_form message unplaced errors) (codes "form")
        ≡ form_message message unplaced entries
  unfolding add_form lookup form_message text_eq assign
  add_form-form message (u ∷ us) errors entries h e =
      lookup-assign (codes "form") (codes "form") _ errors
  add_form-form message [] [] [] h e = refl
  add_form-form message [] [] (x ∷ entries) h e = absurd (cc (e refl))
  add_form-form message [] (x ∷ errors) [] h e = absurd (cc (e refl))
  add_form-form message [] (x ∷ errors) (y ∷ entries) h e = h

  module _ (described : FriendlyError) (no_form : includes known (codes "form") ≡ false) where
    abbrev placed_all : Placed
    placed_all = place described.field_errors (record { errors = []; unplaced = [] })

    place_described_lem :
        (k : Text)
        → includes known k ≡ true
        → (lookup (place_described described) k ≡ last_for k described.field_errors)
          × (lookup (place_described described) (codes "form")
              ≡ form_message described.message
                  (homeless described.field_errors)
                  described.field_errors)
    unfolding place_described lookup
    place_described_lem k h = (
      add_form-lookup described.message k placed_all.unplaced placed_all.errors
            (apart (codes "form") k (λ e. cc (no_form, h, e)))
          ∙ place-lookup described.field_errors k _ h
          ∙ or_first-none (last_for k described.field_errors),
      rw (place-unplaced described.field_errors (record { errors = []; unplaced = [] })) (
          add_form-form described.message (homeless described.field_errors) placed_all.errors
            described.field_errors (place-unknown described.field_errors (codes "form") _ no_form)
            (λ e.
              place-no_entries described.field_errors (record { errors = []; unplaced = [] })
              ∙ homeless-nil described.field_errors e)),
    )

-- For a form with no field `form` of its own, whatever was thrown, a field of the form gets the last
-- of the described messages that are for it; and `form` gets those that are for no field, joined,
-- or, where no field has a message, the message of the whole, and else nothing.
pub to_field_errors_lem :
    {N : Type 0} (known : List Text) (aliases : List (Text × Text)) (e : Failure N) (k : Text)
    → includes known (codes "form") ≡ false
    → includes known k ≡ true
    → let described = describe_error e form_fallback general_error_copy in
      (lookup (to_field_errors known aliases e) k ≡ last_for known aliases k described.field_errors)
      × (lookup (to_field_errors known aliases e) (codes "form")
          ≡ form_message known aliases described.message
              (homeless known aliases described.field_errors)
              described.field_errors)
unfolding to_field_errors
to_field_errors_lem known aliases e k no_form h =
    place_described_lem known aliases (describe_error e form_fallback general_error_copy) no_form k
      h
