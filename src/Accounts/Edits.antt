-- ===== src/Accounts/Edits.antt =====
-- The profile form of uis/backoffice/lib/auth.ts: what is sent, and what is shown of it again.
use miguel_n_ai_trackflow_pr.Common.{
  Bool-cases, Option, Text, [], false, if_intro, inl, inr, is_empty, length, none, or_else, refl,
  some, trim, trim-blank, trim-trim, ℕ, ◌≡◌, ◌≤◌,
}
use miguel_n_ai_trackflow_pr.Accounts.Forms.{
  Profile, ProfileFormValues, ProfilePayload, build_profile_payload, max_address_length,
  max_name_length, max_phone_length, optional_field, profile_form_values_from,
  validate_profile_form,
}
use miguel_n_ai_trackflow_pr.Accounts.Accepts.{IsShort, validate_profile_form_iff}

-- The profile that has a payload's texts.
abbrev pub profile_with : Text → ProfilePayload → Profile
profile_with id p = record { id = id; name = p.name; phone = p.phone; address = p.address }

-- A field that is sent is trimmed, not empty, and within the limit.
abbrev pub IsSendable : ℕ → Option Text → Type 0
IsSendable most none = Unit
IsSendable most (some t) = (is_empty t ≡ false) × (trim t ≡ t) × (length t ≤ most)

optional_field-IsSendable :
    (most : ℕ) (value : Text) → IsShort most value → IsSendable most (optional_field value)
unfolding optional_field
optional_field-IsSendable most value h =
    if_intro (IsSendable most) (is_empty (trim value)) (λ blank. tt)
      (λ filled. (filled, trim-trim value, h))

optional_field-again :
    (value : Text) → optional_field (or_else (optional_field value) []) ≡ optional_field value
unfolding optional_field
optional_field-again value = elim (Bool-cases (is_empty (trim value))) [
  | inl blank ↦ rw blank (rw (trim-blank [] tt) refl)
  | inr filled ↦ rw filled (rw (trim-trim value, filled) refl)
]

same_payload :
    (p q : ProfilePayload) → p.name ≡ q.name → p.phone ≡ q.phone → p.address ≡ q.address → p ≡ q
same_payload p q a b c = cc

-- An accepted profile form sends texts that are trimmed, not empty and within their limits, or
-- null, and the form that shows what was sent sends the same again.
pub build_profile_payload_lem :
    (values : ProfileFormValues) (id : Text)
    → validate_profile_form values ≡ none
    → IsSendable max_name_length (build_profile_payload values).name
      × IsSendable max_phone_length (build_profile_payload values).phone
      × IsSendable max_address_length (build_profile_payload values).address
      × (build_profile_payload
            (profile_form_values_from (some (profile_with id (build_profile_payload values))))
          ≡ build_profile_payload values)
unfolding build_profile_payload profile_form_values_from
build_profile_payload_lem values id h =
    let fine = (validate_profile_form_iff values).0 h in
    (
      optional_field-IsSendable max_name_length values.name fine.name_short,
      optional_field-IsSendable max_phone_length values.phone fine.phone_short,
      optional_field-IsSendable max_address_length values.address fine.address_short,
      same_payload _ _ (optional_field-again values.name) (optional_field-again values.phone)
          (optional_field-again values.address),
    )
