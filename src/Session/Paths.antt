-- ===== src/Session/Paths.antt =====
-- The paths around signing in, uis/backoffice/lib/auth-storage.ts. The URL parser of the platform,
-- `URLSearchParams` and `encodeURIComponent` are parameters.
use miguel_n_ai_trackflow_pr.Common.{
  Bool, Bool-cases, Option, Option-cases, Text, [], any, ap, arith, codes, false, if_intro,
  if◌then◌else◌, inl, inr, is_empty, ltb, none, not, refl, some, starts_with, subst, suc, sym,
  text_eq, text_eq_iff, text_eq_refl, text_eq_sound, trim, true, zero, ℕ, ◌++◌, ◌==◌, ◌||◌, ◌↔◌,
  ◌∙◌, ◌∷◌, ◌≡◌,
}

abbrev pub login_path : Text
login_path = codes "/login"

-- `new URLSearchParams(search).get(name)`, `encodeURIComponent(text)`, and `new URL(value, base)`
-- as the origin and the path name that it has, or `none` where it throws.
pub record Urls : Type 0 where
  pub param : Text → Text → Option Text
  pub encode : Text → Text
  pub resolve : Text → Text → Option (Text × Text)

abbrev pub same_text : Option Text → Text → Bool
same_text none t = false
same_text (some s) t = text_eq s t

abbrev pub resolution_base : Text
resolution_base = codes "http://trackflow.invalid"

-- A backslash, a control character or delete.
unfoldable pub has_rewritten_character : Text → Bool
has_rewritten_character value = any (λ c. c == 92 || ltb c 32 || c == 127) value

-- `path.replace(/\/+$/, "")`
abbrev pub slash_before : ℕ → Text → Text
slash_before c [] = if c == 47 then [] else c ∷ []
slash_before c (d ∷ s) = c ∷ d ∷ s

unfoldable pub without_end_slashes : Text → Text
without_end_slashes [] = []
without_end_slashes (c ∷ s) = slash_before c (without_end_slashes s)

none_unless {ℓ} :
    {A : Type ℓ} (b : Bool) (o : Option A) (w : A)
    → (if b then none else o) ≡ some w
    → (b ≡ false) × (o ≡ some w)
none_unless true o w h = cc
none_unless false o w h = (refl, h)

differs : (s t : Text) → (¬ s ≡ t) → text_eq s t ≡ false
differs s t h = elim (Bool-cases (text_eq s t)) [
  | inl same ↦ absurd (h (text_eq_sound s t same))
  | inr other_text ↦ other_text
]

starts_with-nonempty : (s : Text) → starts_with s (codes "/") ≡ true → is_empty s ≡ false
unfolding starts_with
starts_with-nonempty [] h = cc
starts_with-nonempty (c ∷ s) h = refl

module _ (u : Urls) where
  open u use {param, encode, resolve}

  unfoldable pub has_reset_success_flag : Text → Bool
  has_reset_success_flag search = same_text (param search (codes "reset")) (codes "success")

  unfoldable pub has_registered_flag : Text → Bool
  has_registered_flag search = same_text (param search (codes "registered")) (codes "1")

  unfoldable pub build_login_after_register_url : Text → Text
  build_login_after_register_url next_path =
      login_path ++ codes "?registered=1&next=" ++ encode next_path

  abbrev pub if_written : Option Text → Option Text
  if_written none = none
  if_written (some t) = if is_empty (trim t) then none else some t

  unfoldable pub read_reset_token : Text → Option Text
  read_reset_token search = if_written (param search (codes "token"))

  -- The two tests after the value was resolved.
  abbrev pub if_on_site : Text → Option (Text × Text) → Option Text
  if_on_site value none = none
  if_on_site value (some (origin, pathname)) =
      if not (text_eq origin resolution_base)
      then none
      else if text_eq (without_end_slashes pathname) login_path
      then none
      else some value

  unfoldable pub sanitize_next_path : Option Text → Option Text
  sanitize_next_path none = none
  sanitize_next_path (some value) =
      if is_empty value || not (starts_with value (codes "/")) || has_rewritten_character value
      then none
      else if_on_site value (resolve value resolution_base)

  abbrev pub login_url : Option Text → Text
  login_url none = login_path
  login_url (some next) =
      if is_empty next then login_path else login_path ++ codes "?next=" ++ encode next

  unfoldable pub build_login_url : Option Text → Text
  build_login_url next_path = login_url (sanitize_next_path next_path)

  -- A path of this site, other than the login page's.
  pub record IsSafe (value : Text) : Type 0 where
    pub origin : Text
    pub pathname : Text
    pub absolute : starts_with value (codes "/") ≡ true
    pub plain : has_rewritten_character value ≡ false
    pub resolved : resolve value resolution_base ≡ some (origin, pathname)
    pub same_origin : origin ≡ resolution_base
    pub not_login : ¬ without_end_slashes pathname ≡ login_path

  on_site_sound :
      (value w origin pathname : Text)
      → if_on_site value (some (origin, pathname)) ≡ some w
      → (w ≡ value) × (origin ≡ resolution_base) × (¬ without_end_slashes pathname ≡ login_path)
  on_site_sound value w origin pathname h =
      let (same, later) = none_unless (not (text_eq origin resolution_base)) _ w h in
      let (elsewhere, kept) =
        none_unless (text_eq (without_end_slashes pathname) login_path) (some value) w later in
      (
        ground arith,
        text_eq_sound origin resolution_base (ground arith),
        λ e. cc ((text_eq_iff (without_end_slashes pathname) login_path).1 e, elsewhere),
      )

  sanitize_sound :
      (value w : Text) → sanitize_next_path (some value) ≡ some w → (w ≡ value) × IsSafe value
  unfolding sanitize_next_path
  sanitize_sound value w h =
      let (fine, kept) =
        none_unless
          (is_empty value || not (starts_with value (codes "/")) || has_rewritten_character value)
          (if_on_site value (resolve value resolution_base)) w h in
      elim (Option-cases (resolve value resolution_base)) [
        | inl throws ↦ cc (subst (λ r. if_on_site value r ≡ some w) throws kept)
        | inr ((origin, pathname), found) ↦
            let (e, same, elsewhere) =
              on_site_sound value w origin pathname
                (subst (λ r. if_on_site value r ≡ some w) found kept) in
            (
              e,
              record {
                origin = origin;
                pathname = pathname;
                absolute = ground arith;
                plain = ground arith;
                resolved = found;
                same_origin = same;
                not_login = elsewhere;
              },
            )
      ]

  sanitize_complete : (value : Text) → IsSafe value → sanitize_next_path (some value) ≡ some value
  unfolding sanitize_next_path
  sanitize_complete value safe =
      rw (starts_with-nonempty value safe.absolute, safe.absolute, safe.plain, safe.resolved)
        (rw
          (safe.same_origin, differs (without_end_slashes safe.pathname) login_path safe.not_login)
          (rw (text_eq_refl resolution_base) refl))

  -- A wanted path is kept, as it is, exactly when it starts with a slash, has no character that a
  -- browser rewrites, resolves to the same origin, and does not lead to the login page.
  pub sanitize_next_path_iff :
      (value w : Text) → (sanitize_next_path (some value) ≡ some w) ↔ ((w ≡ value) × IsSafe value)
  sanitize_next_path_iff value w =
      (sanitize_sound value w, λ h. sanitize_complete value h.1 ∙ ap some (sym h.0))

abbrev pub slashes : ℕ → Text
slashes zero = []
slashes (suc n) = 47 ∷ slashes n

without_end_slashes-slashes : (n : ℕ) → without_end_slashes (slashes n) ≡ []
unfolding without_end_slashes
without_end_slashes-slashes zero = refl
without_end_slashes-slashes (suc n) = rw (without_end_slashes-slashes n) refl

without_end_slashes-append :
    (s : Text) (n : ℕ) → without_end_slashes (s ++ slashes n) ≡ without_end_slashes s
unfolding without_end_slashes
without_end_slashes-append [] n = without_end_slashes-slashes n
without_end_slashes-append (c ∷ s) n = ap (slash_before c) (without_end_slashes-append s n)

sanitize-login :
    (u : Urls) (value origin : Text) (n : ℕ)
    → u.resolve value resolution_base ≡ some (origin, login_path ++ slashes n)
    → sanitize_next_path u (some value) ≡ none
unfolding sanitize_next_path without_end_slashes text_eq
sanitize-login u value origin n h =
    if_intro (λ o. o ≡ none)
      (is_empty value || not (starts_with value (codes "/")) || has_rewritten_character value)
      (λ _. refl)
      (λ _.
        subst (λ r. if_on_site u value r ≡ none) (sym h)
          (if_intro (λ o. o ≡ none) (not (text_eq origin resolution_base)) (λ _. refl)
            (λ _.
              subst (λ p. (if text_eq p login_path then none else some value) ≡ none)
                (sym (without_end_slashes-append login_path n)) refl)))

-- The login page is refused however it is spelled: with any number of slashes at its end, and by
-- whatever text resolves to it.
pub sanitize_next_path-login :
    (u : Urls) (value origin : Text) (n : ℕ)
    → u.resolve value resolution_base ≡ some (origin, login_path ++ slashes n)
    → (sanitize_next_path u (some value) ≡ none) × (build_login_url u (some value) ≡ login_path)
unfolding build_login_url
sanitize_next_path-login u value origin n h =
    let refused = sanitize-login u value origin n h in (refused, ap (login_url u) refused)
