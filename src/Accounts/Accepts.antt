-- ===== src/Accounts/Accepts.antt =====
-- Which forms uis/backoffice/lib/auth.ts accepts.
use miguel_n_ai_trackflow_pr.Common.{
  Option, Text, [], append_iff, arith, false, if◌then◌else◌, is_empty, length, none, refl, some,
  subst, sym, text_eq_iff, trim, true, ℕ, ◌++◌, ◌↔◌, ◌∷◌, ◌≡◌, ◌≤◌,
}
use miguel_n_ai_trackflow_pr.Accounts.Email.{is_email}
use miguel_n_ai_trackflow_pr.Accounts.Forms.{
  ChangePasswordFormValues, FieldErrors, ForgotPasswordFormValues, LoginFormValues,
  ProfileFormValues, RegisterFormValues, ResetPasswordFormValues, confirm_error, contact_errors,
  max_address_length, max_name_length, max_phone_length, min_password_length, new_password_errors,
  password_error, put_error, validate_change_password_form, validate_email,
  validate_forgot_password_form, validate_length, validate_login_form, validate_profile_form,
  validate_register_form, validate_reset_password_form, without_empty_entries,
}

put_error_iff {ℓ} :
    {P : Type ℓ} (name : Text) (e : Option Text) → (e ≡ none) ↔ P → (put_error name e ≡ []) ↔ P
unfolding put_error
put_error_iff name none p = (λ h. p.0 refl, λ x. refl)
put_error_iff name (some m) p = (λ h. cc, λ x. cc (p.1 x))

without_empty_entries_iff {ℓ} :
    {P : Type ℓ} (es : FieldErrors) → (es ≡ []) ↔ P → (without_empty_entries es ≡ none) ↔ P
unfolding without_empty_entries
without_empty_entries_iff [] p = (λ h. p.0 refl, λ x. refl)
without_empty_entries_iff (e ∷ es) p = (λ h. cc, λ x. cc (p.1 x))

is_email-nil : (s : Text) → is_email s ≡ true → is_empty s ≡ false
unfolding is_email
is_email-nil [] h = cc
is_email-nil (c ∷ s) h = refl

validate_email_iff : (email : Text) → (validate_email email ≡ none) ↔ (is_email (trim email) ≡ true)
unfolding validate_email
validate_email_iff email = ground (arith, is_email-nil (trim email))

-- At most `most` code units after trimming.
abbrev pub IsShort : ℕ → Text → Type 0
IsShort most value = length (trim value) ≤ most

validate_length_iff :
    (value : Text) (most : ℕ) (m : Text)
    → (validate_length value most m ≡ none) ↔ IsShort most value
unfolding validate_length
validate_length_iff value most m = ground arith

length-nil : (s : Text) → (is_empty s ≡ true) ↔ (length s ≡ 0)
length-nil [] = (λ _. refl, λ _. refl)
length-nil (c ∷ s) = (λ h. cc, λ h. ground arith)

-- A password of at least 8 code units, typed twice.
pub record IsChosen (password confirm : Text) : Type 0 where
  pub long : min_password_length ≤ length password
  pub confirmed : confirm ≡ password

password_error_iff :
    (password a : Text)
    → (password_error password a ≡ none) ↔ (min_password_length ≤ length password)
unfolding password_error
password_error_iff password a = ground (arith, length-nil password)

confirm_error_iff :
    (confirm password b : Text)
    → (confirm_error confirm password b ≡ none)
      ↔ ((is_empty confirm ≡ false) × (confirm ≡ password))
unfolding confirm_error
confirm_error_iff confirm password b = ground (arith, text_eq_iff confirm password)

long-nonempty : (s : Text) → min_password_length ≤ length s → is_empty s ≡ false
long-nonempty [] h = absurd (omega arith)
long-nonempty (c ∷ s) h = refl

passwords_iff :
    (i j password confirm a b : Text)
    → ((put_error i (password_error password a) ++ put_error j (confirm_error confirm password b))
        ≡ [])
      ↔ IsChosen password confirm
passwords_iff i j password confirm a b =
    let both =
      append_iff (put_error i (password_error password a))
        (put_error j (confirm_error confirm password b))
        (put_error_iff i (password_error password a) (password_error_iff password a))
        (put_error_iff j (confirm_error confirm password b)
          (confirm_error_iff confirm password b)) in
    (
      λ h. record { long = (both.0 h).0; confirmed = (both.0 h).1.1 },
      λ h. both.1 (
        h.long,
        (
          subst (λ t. is_empty t ≡ false) (sym h.confirmed) (long-nonempty password h.long),
          h.confirmed,
        ),
      ),
    )

-- A name, a phone and an address of at most 120, 40 and 255 code units after trimming.
pub record IsContact (name phone address : Text) : Type 0 where
  pub name_short : IsShort max_name_length name
  pub phone_short : IsShort max_phone_length phone
  pub address_short : IsShort max_address_length address

contact_errors_iff :
    (name phone address : Text)
    → (contact_errors name phone address ≡ []) ↔ IsContact name phone address
unfolding contact_errors
contact_errors_iff name phone address =
    let all_three =
      append_iff _ _
        (append_iff _ _ (put_error_iff _ _ (validate_length_iff name max_name_length _))
          (put_error_iff _ _ (validate_length_iff phone max_phone_length _)))
        (put_error_iff _ _ (validate_length_iff address max_address_length _)) in
    (
      λ h.
          let ((n, p), a) = all_three.0 h in
          record { name_short = n; phone_short = p; address_short = a },
      λ h. all_three.1 ((h.name_short, h.phone_short), h.address_short),
    )

-- A registration has no errors.
pub record AcceptsRegistration (values : RegisterFormValues) : Type 0 where
  pub email : is_email (trim values.email) ≡ true
  pub password : IsChosen values.password values.confirm_password
  pub contact : IsContact values.name values.phone values.address

-- The registration form is accepted exactly when its email, trimmed, has the form of an address,
-- its password is at least 8 code units long and typed twice, and its name, phone and address are
-- short enough.
pub validate_register_form_iff :
    (values : RegisterFormValues)
    → (validate_register_form values ≡ none) ↔ AcceptsRegistration values
unfolding validate_register_form
validate_register_form_iff values =
    let parts = without_empty_entries_iff _ (
      append_iff _ _
        (append_iff _ _ (put_error_iff _ _ (validate_email_iff values.email))
          (passwords_iff _ _ values.password values.confirm_password _ _))
        (contact_errors_iff values.name values.phone values.address)) in
    (
      λ h.
          let ((email, password), contact) = parts.0 h in
          record { email = email; password = password; contact = contact },
      λ h. parts.1 ((h.email, h.password), h.contact),
    )

pub validate_profile_form_iff :
    (p : ProfileFormValues) → (validate_profile_form p ≡ none) ↔ IsContact p.name p.phone p.address
unfolding validate_profile_form
validate_profile_form_iff p =
    without_empty_entries_iff _ (contact_errors_iff p.name p.phone p.address)

filled_iff : (s m : Text) → ((if is_empty s then some m else none) ≡ none) ↔ (is_empty s ≡ false)
filled_iff s m = ground arith

-- The other forms are accepted exactly when: to log in, the email has the form of an address and
-- the password is not empty; for a forgotten password, the email has that form; to reset a
-- password, the new one is at least 8 code units long and typed twice; to change it, the current
-- one is not empty as well; and for a profile, its three texts are short enough.
pub validate_forms_iff :
    (l : LoginFormValues) (f : ForgotPasswordFormValues) (r : ResetPasswordFormValues)
    (c : ChangePasswordFormValues) (p : ProfileFormValues)
    → ((validate_login_form l ≡ none)
        ↔ ((is_email (trim l.email) ≡ true) × (is_empty l.password ≡ false)))
      × ((validate_forgot_password_form f ≡ none) ↔ (is_email (trim f.email) ≡ true))
      × ((validate_reset_password_form r ≡ none) ↔ (IsChosen r.new_password r.confirm_password))
      × ((validate_change_password_form c ≡ none)
          ↔ (IsChosen c.new_password c.confirm_password × (is_empty c.current_password ≡ false)))
      × ((validate_profile_form p ≡ none) ↔ IsContact p.name p.phone p.address)
unfolding validate_login_form validate_forgot_password_form validate_reset_password_form
    validate_change_password_form new_password_errors
validate_forms_iff l f r c p = (
  without_empty_entries_iff _ (
      append_iff _ _ (put_error_iff _ _ (validate_email_iff l.email))
        (put_error_iff _ _ (filled_iff l.password _))),
  without_empty_entries_iff _ (put_error_iff _ _ (validate_email_iff f.email)),
  without_empty_entries_iff _ (passwords_iff _ _ r.new_password r.confirm_password _ _),
  without_empty_entries_iff _ (
      append_iff _ _ (passwords_iff _ _ c.new_password c.confirm_password _ _)
        (put_error_iff _ _ (filled_iff c.current_password _))),
  validate_profile_form_iff p,
)
