-- ===== src/Accounts/Forms.antt =====
-- The forms of uis/backoffice/lib/auth.ts: their values, their validation and the bodies of the
-- requests. A missing error is `none`, and `null` for no error at all is `none` as well.
use miguel_n_ai_trackflow_pr.Common.{
  List, Option, Text, [], codes, if◌then◌else◌, is_empty, length, ltb, none, or_else, some, text_eq,
  trim, ℕ, ◌++◌, ◌∷◌,
}
use miguel_n_ai_trackflow_pr.Accounts.Email.{is_email}

pub record Profile : Type 0 where
  pub id : Text
  pub name : Option Text
  pub phone : Option Text
  pub address : Option Text

pub record LoginFormValues : Type 0 where
  pub email : Text
  pub password : Text

pub record RegisterFormValues : Type 0 where
  pub email : Text
  pub password : Text
  pub confirm_password : Text
  pub name : Text
  pub phone : Text
  pub address : Text

pub record ForgotPasswordFormValues : Type 0 where
  pub email : Text

pub record ResetPasswordFormValues : Type 0 where
  pub new_password : Text
  pub confirm_password : Text

pub record ChangePasswordFormValues : Type 0 where
  pub current_password : Text
  pub new_password : Text
  pub confirm_password : Text

pub record ProfileFormValues : Type 0 where
  pub name : Text
  pub phone : Text
  pub address : Text

-- The errors of a form: a list of fields and messages, in the order in which they were set.
abbrev pub FieldErrors : Type 0
FieldErrors = List (Text × Text)

abbrev pub min_password_length : ℕ
min_password_length = 8

abbrev pub max_name_length : ℕ
max_name_length = 120

abbrev pub max_phone_length : ℕ
max_phone_length = 40

abbrev pub max_address_length : ℕ
max_address_length = 255

unfoldable pub profile_form_values_from : Option Profile → ProfileFormValues
profile_form_values_from none = record { name = []; phone = []; address = [] }
profile_form_values_from (some p) = record {
  name = or_else p.name [];
  phone = or_else p.phone [];
  address = or_else p.address [];
}

unfoldable pub validate_email : Text → Option Text
validate_email email =
    if is_empty (trim email)
    then some (codes "Email is required.")
    else if is_email (trim email)
    then none
    else some (codes "Enter a valid email address.")

-- The label and the limit, as the template writes them.
unfoldable pub validate_length : Text → ℕ → Text → Option Text
validate_length value most message = if ltb most (length (trim value)) then some message else none

-- `if (error) errors[field] = error`
unfoldable pub put_error : Text → Option Text → FieldErrors
put_error name none = []
put_error name (some message) = (name, message) ∷ []

unfoldable pub without_empty_entries : FieldErrors → Option FieldErrors
without_empty_entries [] = none
without_empty_entries (e ∷ es) = some (e ∷ es)

unfoldable pub validate_login_form : LoginFormValues → Option FieldErrors
validate_login_form values = without_empty_entries (
    put_error (codes "email") (validate_email values.email)
    ++ put_error (codes "password")
        (if is_empty values.password then some (codes "Password is required.") else none))

-- The two rules of a chosen password, with the messages of the form.
unfoldable pub password_error : Text → Text → Option Text
password_error password if_empty =
    if is_empty password
    then some if_empty
    else if ltb (length password) min_password_length
    then some (codes "Password must be at least 8 characters.")
    else none

unfoldable pub confirm_error : Text → Text → Text → Option Text
confirm_error confirm password if_empty =
    if is_empty confirm
    then some if_empty
    else if text_eq confirm password
    then none
    else some (codes "Passwords do not match.")

-- The three rules that registering and editing a profile share.
unfoldable pub contact_errors : Text → Text → Text → FieldErrors
contact_errors name phone address =
    put_error (codes "name")
      (validate_length name max_name_length (codes "Name must be 120 characters or fewer."))
    ++ put_error (codes "phone")
        (validate_length phone max_phone_length (codes "Phone must be 40 characters or fewer."))
    ++ put_error (codes "address") (
        validate_length address max_address_length
          (codes "Address must be 255 characters or fewer."))

unfoldable pub validate_register_form : RegisterFormValues → Option FieldErrors
validate_register_form values = without_empty_entries (
    put_error (codes "email") (validate_email values.email)
    ++ (put_error (codes "password")
          (password_error values.password (codes "Password is required."))
        ++ put_error (codes "confirmPassword") (
            confirm_error values.confirm_password values.password (codes "Confirm your password.")))
    ++ contact_errors values.name values.phone values.address)

unfoldable pub new_password_errors : Text → Text → FieldErrors
new_password_errors new_password confirm_password =
    put_error (codes "newPassword")
      (password_error new_password (codes "New password is required."))
    ++ put_error (codes "confirmPassword")
        (confirm_error confirm_password new_password (codes "Confirm your new password."))

unfoldable pub validate_forgot_password_form : ForgotPasswordFormValues → Option FieldErrors
validate_forgot_password_form values =
    without_empty_entries (put_error (codes "email") (validate_email values.email))

unfoldable pub validate_reset_password_form : ResetPasswordFormValues → Option FieldErrors
validate_reset_password_form values =
    without_empty_entries (new_password_errors values.new_password values.confirm_password)

unfoldable pub validate_change_password_form : ChangePasswordFormValues → Option FieldErrors
validate_change_password_form values = without_empty_entries (
    new_password_errors values.new_password values.confirm_password
    ++ put_error (codes "currentPassword") (
        if is_empty values.current_password
        then some (codes "Your current password is required.")
        else none))

unfoldable pub validate_profile_form : ProfileFormValues → Option FieldErrors
validate_profile_form values =
    without_empty_entries (contact_errors values.name values.phone values.address)

unfoldable pub optional_field : Text → Option Text
optional_field value = if is_empty (trim value) then none else some (trim value)

pub record RegistrationPayload : Type 0 where
  pub email : Text
  pub password : Text
  pub name : Option Text
  pub phone : Option Text
  pub address : Option Text

-- `none` is JSON's null.
pub record ProfilePayload : Type 0 where
  pub name : Option Text
  pub phone : Option Text
  pub address : Option Text

-- `lower` is `toLowerCase` of the platform.
unfoldable pub build_registration_payload : (Text → Text) → RegisterFormValues → RegistrationPayload
build_registration_payload lower values = record {
  email = lower (trim values.email);
  password = values.password;
  name = optional_field values.name;
  phone = optional_field values.phone;
  address = optional_field values.address;
}

unfoldable pub build_profile_payload : ProfileFormValues → ProfilePayload
build_profile_payload values = record {
  name = optional_field values.name;
  phone = optional_field values.phone;
  address = optional_field values.address;
}
