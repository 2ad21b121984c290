-- ===== src/Accounts/Payloads.antt =====
-- What uis/backoffice/lib/auth.ts makes of the answers of the API. `none` stands for a throw.
use miguel_n_ai_trackflow_pr.Common.{
  Bool, Json, List, Numbers, Option, Text, [], bool, codes, false, if◌then◌else◌, includes,
  is_empty, is_object, none, not, null, num, prop, some, str, trim, true, ◌||◌, ◌∷◌,
}
use miguel_n_ai_trackflow_pr.Accounts.Forms.{Profile}

pub record AuthenticatedUser : Type 0 where
  pub email : Text
  pub role : Text
  pub profile : Option Profile

abbrev pub user_roles : List Text
user_roles = codes "admin" ∷ codes "manager" ∷ codes "user" ∷ []

module _ {N : Type 0} where
  -- `typeof value === "string" ? value : ""`
  abbrev pub text_or_empty : Option (Json N) → Text
  text_or_empty (some (str t)) = t
  text_or_empty _ = []

  unfoldable pub read_nullable_string : Json N → Text → Option Text
  read_nullable_string record_ key = elim (prop record_ key) [
    | some (str t) ↦ if is_empty (trim t) then none else some t
    | _ ↦ none
  ]

  unfoldable pub normalize_profile : Json N → Option Profile
  normalize_profile payload =
      if is_object payload
      then some (record {
        id = text_or_empty (prop payload (codes "id"));
        name = read_nullable_string payload (codes "name");
        phone = read_nullable_string payload (codes "phone");
        address = read_nullable_string payload (codes "address");
      })
      else none

  -- `typeof role === "string" && USER_ROLES.includes(role) ? role : "user"`
  abbrev pub role_of : Option (Json N) → Text
  role_of (some (str t)) = if includes user_roles t then t else codes "user"
  role_of _ = codes "user"

  -- A string that is not blank, as it is.
  abbrev pub token_in : Option (Json N) → Option Text
  token_in (some (str t)) = if is_empty (trim t) then none else some t
  token_in _ = none

  unfoldable pub extract_access_token : Json N → Option Text
  extract_access_token payload = token_in (prop payload (codes "access_token"))

module _ {N : Type 0} (n : Numbers N) where
  -- Whether a value counts as true. JSON has no NaN, and of its numbers only 0 is false.
  abbrev pub is_truthy : Json N → Bool
  is_truthy null = false
  is_truthy (bool b) = b
  is_truthy (num a) = n.lt a (n.of_ℕ 0) || n.lt (n.of_ℕ 0) a
  is_truthy (str t) = not (is_empty t)
  is_truthy _ = true

  -- `profile ? normalizeProfile(profile) : null`, where the outer option is the throw.
  abbrev pub profile_of : Option (Json N) → Option (Option Profile)
  profile_of none = some none
  profile_of (some v) = if is_truthy v then some_profile (normalize_profile v) else some none
    where
      some_profile : Option Profile → Option (Option Profile)
      some_profile none = none
      some_profile (some p) = some (some p)

  abbrev pub with_profile : Text → Text → Option (Option Profile) → Option AuthenticatedUser
  with_profile email role none = none
  with_profile email role (some profile) =
      some (record { email = email; role = role; profile = profile })

  unfoldable pub normalize_authenticated_user : Json N → Option AuthenticatedUser
  normalize_authenticated_user payload =
      if is_object payload
      then with_profile (text_or_empty (prop payload (codes "email")))
          (role_of (prop payload (codes "role"))) (profile_of (prop payload (codes "profile")))
      else none
