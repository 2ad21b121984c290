-- ===== src/Accounts/Users.antt =====
-- When uis/backoffice/lib/auth.ts reads a signed-in user.
use miguel_n_ai_trackflow_pr.Common.{
  Bool, Bool-cases, Json, Numbers, Option, [], arr, bool, codes, false, if_intro, includes, inl,
  inr, is_object, none, not, null, num, obj, prop, refl, some, str, text_eq, true, ◌&&◌, ◌||◌, ◌∷◌,
  ◌≡◌, ◌⊎◌,
}
use miguel_n_ai_trackflow_pr.Accounts.Forms.{Profile}
use miguel_n_ai_trackflow_pr.Accounts.Payloads.{
  AuthenticatedUser, is_truthy, normalize_authenticated_user, normalize_profile, profile_of,
  role_of, text_or_empty, user_roles,
}

role_of-known : {N : Type 0} (v : Option (Json N)) → includes user_roles (role_of v) ≡ true
unfolding includes text_eq
role_of-known none = refl
role_of-known (some (str t)) =
    if_intro (λ r. includes user_roles r ≡ true) (includes user_roles t) (λ h. h) (λ h. refl)
role_of-known (some null) = refl
role_of-known (some (bool b)) = refl
role_of-known (some (num a)) = refl
role_of-known (some (arr vs)) = refl
role_of-known (some (obj fs)) = refl

module _ {N : Type 0} (n : Numbers N) where
  -- No profile, one that counts as false, or one that is an object or an array.
  abbrev pub is_profile : Option (Json N) → Bool
  is_profile none = true
  is_profile (some v) = not (is_truthy n v) || is_object v

  profile_of-cases :
      (v : Option (Json N))
      → ((is_profile v ≡ true) × ((p : Option Profile) × (profile_of n v ≡ some p)))
        ⊎ ((is_profile v ≡ false) × (profile_of n v ≡ none))
  unfolding normalize_profile
  profile_of-cases none = inl (refl, (none, refl))
  profile_of-cases (some null) = inl (refl, (none, refl))
  profile_of-cases (some (bool true)) = inr (refl, refl)
  profile_of-cases (some (bool false)) = inl (refl, (none, refl))
  profile_of-cases (some (num a)) = elim (Bool-cases (n.lt a (n.of_ℕ 0) || n.lt (n.of_ℕ 0) a)) [
    | inl truthy ↦ inr (rw truthy refl, rw truthy refl)
    | inr zero_ ↦ inl (rw zero_ refl, (none, rw zero_ refl))
  ]
  profile_of-cases (some (str [])) = inl (refl, (none, refl))
  profile_of-cases (some (str (c ∷ t))) = inr (refl, refl)
  profile_of-cases (some (arr vs)) = inl (refl, (some _, refl))
  profile_of-cases (some (obj fs)) = inl (refl, (some _, refl))

  -- A user is read, with one of the three roles, exactly when the answer is an object or an array
  -- whose profile is absent, counts as false, or is an object or an array; otherwise it throws.
  pub normalize_authenticated_user_lem :
      (payload : Json N)
      → (((is_object payload && is_profile (prop payload (codes "profile"))) ≡ true)
          × ((u : AuthenticatedUser) × (normalize_authenticated_user n payload ≡ some u)
              × (includes user_roles u.role ≡ true)))
        ⊎ (((is_object payload && is_profile (prop payload (codes "profile"))) ≡ false)
            × (normalize_authenticated_user n payload ≡ none))
  unfolding normalize_authenticated_user
  normalize_authenticated_user_lem payload = elim (Bool-cases (is_object payload)) [
    | inl fine ↦ elim (profile_of-cases (prop payload (codes "profile"))) [
      | inl (h, (p, e)) ↦ inl (
        rw fine h,
        (
          record {
            email = text_or_empty (prop payload (codes "email"));
            role = role_of (prop payload (codes "role"));
            profile = p;
          },
          rw (fine, e) refl,
          role_of-known (prop payload (codes "role")),
        ),
      )
      | inr (h, e) ↦ inr (rw fine h, rw (fine, e) refl)
    ]
    | inr bad ↦ inr (rw bad refl, rw bad refl)
  ]
