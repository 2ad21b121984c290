-- ===== src/Suppliers/Form.antt =====
-- The supplier form: parseRateInput, validateSupplierForm and buildSupplierPayload of
-- uis/backoffice/lib/supplier.ts. `number_of_text` is `Number(text)`.
use miguel_n_ai_trackflow_pr.Common.{
  Bool, Bool-cases, Numbers, Option, OrderLaws, Text, arith, codes, false, if◌then◌else◌, inl, inr,
  is_empty, is_some, is_written, length, none, not, or_else, refl, some, trim, true, ◌&&◌, ◌<◌,
  ◌==◌, ◌||◌, ◌↔◌, ◌≡◌, ◌⊎◌,
}
use miguel_n_ai_trackflow_pr.Accounts.Email.{is_email}
use miguel_n_ai_trackflow_pr.Suppliers.Records.{
  SupplierCreatePayload, SupplierFormValues, currency_for_country,
}

-- `text || null` of a trimmed text
abbrev pub filled_text : Text → Option Text
filled_text t = if is_empty (trim t) then none else some (trim t)

module _ {N : Type 0} (n : Numbers N) (number_of_text : Text → N) where
  -- A finite number is at most 0 exactly when 0 is not less than it.
  unfoldable pub parse_rate_input : Text → Option N
  parse_rate_input value =
      let parsed = number_of_text (trim value) in
      if not (n.is_finite parsed) || not (n.lt (n.of_ℕ 0) parsed) then none else some parsed

  unfoldable pub validate_supplier_form : SupplierFormValues → Option Text
  validate_supplier_form values =
      let email = trim values.contact_email in
      if not (is_written values.name)
      then some (codes "Name is required.")
      else if length values.categories == 0
      then some (codes "Select at least one category.")
      else if not (is_some (parse_rate_input values.rate_per_shipment))
      then some (codes "Rate per shipment must be a number greater than 0.")
      else if not (is_empty email) && not (is_email email)
      then some (codes "Contact email is not a valid email address.")
      else none

  unfoldable pub build_supplier_payload : SupplierFormValues → SupplierCreatePayload N
  build_supplier_payload values = record {
    name = trim values.name;
    country = values.country;
    categories = values.categories;
    rate_per_shipment = or_else (parse_rate_input values.rate_per_shipment) (n.of_ℕ 0);
    currency = currency_for_country values.country;
    status = values.status;
    service_zone = filled_text values.service_zone;
    contact_email = filled_text values.contact_email;
    notes = filled_text values.notes;
  }

  -- A payload that the API can take.
  pub record IsValid (p : SupplierCreatePayload N) : Type 0 where
    pub named : is_empty p.name ≡ false
    pub some_category : 0 < length p.categories
    pub finite : n.is_finite p.rate_per_shipment ≡ true
    pub positive : n.lt (n.of_ℕ 0) p.rate_per_shipment ≡ true
    pub currency : p.currency ≡ currency_for_country p.country
    pub email :
        (p.contact_email ≡ none) ⊎ ((t : Text) × (p.contact_email ≡ some t) × (is_email t ≡ true))

-- Four tests, each with its message.
none_iff :
    (a b c d : Bool) (s t u v : Text)
    → ((if a
          then some s
          else if b
          then some t
          else if c
          then some u
          else if d
          then some v
          else none)
        ≡ none)
      ↔ ((a ≡ false) × (b ≡ false) × (c ≡ false) × (d ≡ false))
none_iff true b c d s t u v = (λ h. cc, λ h. cc (h.0))
none_iff false true c d s t u v = (λ h. cc, λ h. cc (h.1))
none_iff false false true d s t u v = (λ h. cc, λ h. cc (h.2))
none_iff false false false true s t u v = (λ h. cc, λ h. cc (h.3))
none_iff false false false false s t u v = (λ h. (refl, refl, refl, refl), λ h. refl)

email_iff :
    (text : Text)
    → ((not (is_empty (trim text)) && not (is_email (trim text))) ≡ false) ↔ (
        (filled_text text ≡ none)
        ⊎ ((t : Text) × (filled_text text ≡ some t) × (is_email t ≡ true)))
email_iff text = elim (Bool-cases (is_empty (trim text))) [
  | inl blank ↦ rw blank (λ _. inl refl, λ _. refl)
  | inr filled ↦ rw filled (
    λ h. inr (trim text, refl, ground arith),
    λ h. elim h [
      | inl none_there ↦ cc (none_there)
      | inr (t, same, fine) ↦
          let at_trim : is_email (trim text) ≡ true = cc (same, fine) in ground arith
    ],
  )
]

module _ {N : Type 0} (n : Numbers N) (laws : OrderLaws n) (number_of_text : Text → N) where
  rate_iff :
      (value : Text)
      → let rate = or_else (parse_rate_input n number_of_text value) (n.of_ℕ 0) in
        (not (is_some (parse_rate_input n number_of_text value)) ≡ false)
        ↔ ((n.is_finite rate ≡ true) × (n.lt (n.of_ℕ 0) rate ≡ true))
  unfolding parse_rate_input
  rate_iff value =
      let parsed = number_of_text (trim value) in
      elim (Bool-cases (not (n.is_finite parsed) || not (n.lt (n.of_ℕ 0) parsed))) [
        | inl bad ↦ rw bad (λ h. cc, λ h. absurd (cc (h.1, laws.irrefl (n.of_ℕ 0) (h.0))))
        | inr good ↦ rw good (λ h. (ground arith, ground arith), λ h. refl)
      ]

  -- The form is accepted exactly when the payload that is built from it has a name, a category, a
  -- finite rate above 0, and no address or a well-formed one; and the currency is always the country's.
  pub validate_supplier_form_iff :
      (values : SupplierFormValues)
      → (validate_supplier_form n number_of_text values ≡ none)
        ↔ IsValid n number_of_text (build_supplier_payload n number_of_text values)
  unfolding validate_supplier_form build_supplier_payload
  validate_supplier_form_iff values =
      let tests =
        none_iff (not (is_written values.name)) (length values.categories == 0)
          (not (is_some (parse_rate_input n number_of_text values.rate_per_shipment)))
          (not (is_empty (trim values.contact_email)) && not (is_email (trim values.contact_email)))
          _ _ _ _ in
      (
        λ h.
            let (name, category, rate, email) = tests.0 h in
            let (finite, positive) = (rate_iff values.rate_per_shipment).0 rate in
            record {
              named = ground arith;
              some_category = ground arith;
              finite = finite;
              positive = positive;
              currency = refl;
              email = (email_iff values.contact_email).0 email;
            },
        λ h. tests.1 (
          ground arith,
          ground arith,
          (rate_iff values.rate_per_shipment).1 (h.finite, h.positive),
          (email_iff values.contact_email).1 h.email,
        ),
      )
