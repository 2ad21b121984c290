-- ===== src/Accounts/Tests.antt =====
-- Runs of the account forms and payloads, and the theorems at them.
use miguel_n_ai_trackflow_pr.Accounts.Service.{done, login, register}
use miguel_n_ai_trackflow_pr.Accounts.SignIn.{IsSignedIn, login-read_token, login_call}
use miguel_n_ai_trackflow_pr.Accounts.SignOut.{IsHonest, register-IsHonest, register_call}
use miguel_n_ai_trackflow_pr.Api.Requests.{
  Client, Net, finish_request, request_api, start, start_at,
}
use miguel_n_ai_trackflow_pr.Api.Responses.{
  Response, build_api_url, has_part, parse_response_json, settle,
}
use miguel_n_ai_trackflow_pr.Session.Token.{read_token}
use miguel_n_ai_trackflow_pr.Session.Paths.{without_end_slashes}
use miguel_n_ai_trackflow_pr.Telemetry.Defs.{init}
use miguel_n_ai_trackflow_pr.Common.{
  Json, List, Text, [], codes, end, false, field, field_of, if◌then◌else◌, is_white, leb, map, none,
  obj, refl, some, starts_with, str, text_eq, trim, true, ℕ, ◌&&◌, ◌-◌, ◌↔◌, ◌∷◌, ◌≡◌,
}
use miguel_n_ai_trackflow_pr.Accounts.Email.{
  Matches, is_address_end, is_dotted, is_email, is_email_iff,
}
use miguel_n_ai_trackflow_pr.Accounts.Forms.{
  ChangePasswordFormValues, ForgotPasswordFormValues, LoginFormValues, ProfileFormValues,
  RegisterFormValues, RegistrationPayload, ResetPasswordFormValues, build_registration_payload,
  confirm_error, contact_errors, optional_field, password_error, put_error, validate_email,
  validate_length, validate_profile_form, validate_register_form, without_empty_entries,
}
use miguel_n_ai_trackflow_pr.Accounts.Payloads.{extract_access_token}

email_run :
    (is_email (codes "a@b.co") ≡ true)
    × (is_email (codes "a@b@c.co") ≡ false)
    × (is_email (codes "a@b.") ≡ false)
    × (is_email (codes "a b@c.d") ≡ false)
unfolding is_email is_address_end is_dotted is_white
email_run = (refl, refl, refl, refl)

is_email_iff_example : (is_email (codes "a@b.co") ≡ true) ↔ Matches (codes "a@b.co")
is_email_iff_example = is_email_iff (codes "a@b.co")

abbrev new_user : RegisterFormValues
new_user = record {
  email = codes " a@b.co ";
  password = codes "longenough";
  confirm_password = codes "longenough";
  name = [];
  phone = codes "555";
  address = [];
}

new_user_run : validate_register_form new_user ≡ none
unfolding validate_register_form without_empty_entries put_error validate_email trim is_white
    is_email is_address_end is_dotted password_error confirm_error text_eq contact_errors
    validate_length
new_user_run = refl

abbrev upper_case : Text → Text
upper_case t = map (λ c. if leb 97 c && leb c 122 then c - 32 else c) t

payload_run : (build_registration_payload upper_case new_user).phone ≡ some (codes "555")
unfolding build_registration_payload optional_field trim
payload_run = refl

abbrev login_values : LoginFormValues
login_values = record { email = codes "a@b.co"; password = [] }

abbrev forgot_values : ForgotPasswordFormValues
forgot_values = record { email = codes "nobody" }

abbrev reset_values : ResetPasswordFormValues
reset_values = record { new_password = codes "short"; confirm_password = codes "short" }

abbrev change_values : ChangePasswordFormValues
change_values = record {
  current_password = codes "old";
  new_password = codes "longenough";
  confirm_password = codes "longenough";
}

abbrev profile_values : ProfileFormValues
profile_values = record { name = codes " Ada "; phone = []; address = codes "Calle 1" }

profile_valid : validate_profile_form profile_values ≡ none
unfolding validate_profile_form without_empty_entries put_error contact_errors validate_length trim
profile_valid = refl

abbrev me : Json ℕ
me =
    obj
      (field (codes "role") (str (codes "owner")) (field (codes "profile") (str (codes "p1")) end))

abbrev signed_in : Json ℕ
signed_in = obj (field (codes "access_token") (str (codes "t")) end)

token_run : extract_access_token signed_in ≡ some (codes "t")
unfolding extract_access_token field_of text_eq trim
token_run = refl

abbrev token_answer : Response ℕ
token_answer = record {
  status = 200;
  content_type = some (codes "application/json");
  body = some signed_in;
}

-- An API that answers each request with success and a token.
abbrev open_net : Net ℕ
open_net = record {
  browser = record { has_window = true; can_get = true; can_set = true; can_remove = true };
  api_url = some (codes "https://api.test");
  options = record {
    endpoint = codes "/t";
    has_fetch = true;
    has_beacon = true;
    uuid = λ n. n ∷ [];
    now = λ n. n;
    to_iso = λ ms. ms ∷ [];
    number = λ n. n;
  };
  upper = λ t. t;
  fetch = λ k r. some token_answer;
  performance_now = λ n. n;
  elapsed = λ a b. b - a;
}

abbrev signed_out : Client ℕ
signed_out = record {
  tab = record { stored = none; memory_token = none; unauthorized_events = 0 };
  telemetry = init (record { readable = true; writable = true; item = none });
  requests = [];
  readings = 0;
}

abbrev alone : ℕ → Client ℕ → Client ℕ
alone k c = c

abbrev as_typed : Text → Text
as_typed t = t

abbrev first_value : List (Text × Text) → Text
first_value [] = []
first_value ((k, t) ∷ more) = t

abbrev mail_of : RegistrationPayload → Text
mail_of p = p.email

abbrev someone : LoginFormValues
someone = record { email = codes "a@b.co"; password = codes "secret" }

-- Opens every function of a request.
requests_open : Unit {0}
unfolding request_api start start_at build_api_url finish_request settle without_end_slashes trim
    extract_access_token field_of text_eq parse_response_json has_part starts_with
requests_open = tt

answers_with_token :
    IsSignedIn
      (request_api open_net alone
        (codes "/auth/login")
        (login_call open_net alone as_typed first_value mail_of someone)
        signed_out).0
      (codes "t")
unfolding requests_open
answers_with_token = record {
  response = token_answer;
  value = signed_in;
  returned = refl;
  decoded = refl;
  found = refl;
}

login-read_token_example :
    ((login open_net alone as_typed first_value mail_of someone signed_out).0 ≡ done (codes "t"))
    × (read_token open_net.browser
          (login open_net alone as_typed first_value mail_of someone signed_out).1.tab
        ≡ some (codes "t"))
login-read_token_example =
    login-read_token open_net alone as_typed first_value mail_of refl refl someone signed_out
      (codes "t") answers_with_token

abbrev newcomer : RegisterFormValues
newcomer = record {
  email = codes "a@b.co";
  password = codes "secret";
  confirm_password = codes "secret";
  name = [];
  phone = [];
  address = [];
}

register-IsHonest_example :
    IsHonest open_net alone as_typed first_value mail_of newcomer
      (request_api open_net alone
        (codes "/users")
        (register_call open_net alone as_typed first_value mail_of newcomer)
        signed_out)
      (register open_net alone as_typed first_value mail_of newcomer signed_out)
register-IsHonest_example =
    register-IsHonest open_net alone as_typed first_value mail_of refl refl newcomer signed_out
