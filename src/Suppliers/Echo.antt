-- ===== src/Suppliers/Echo.antt =====
-- The form and the answer of the API fit: uis/backoffice/lib/supplier.ts.
use miguel_n_ai_trackflow_pr.Common.{
  &&_iff, Bool-cases, Json, List, Numbers, Option, Text, [], all, ap, elems, field_of, inl, inr,
  is_empty, refl, some, str, text_eq, trim, trim-trim, true, ◌∷◌, ◌≡◌,
}
use miguel_n_ai_trackflow_pr.Suppliers.Answers.{
  categories_in, country_from, created_supplier, currency_from, echo, normalize_supplier, nullable,
  status_from, text_items, to_nullable_string,
}
use miguel_n_ai_trackflow_pr.Suppliers.Form.{build_supplier_payload, filled_text}
use miguel_n_ai_trackflow_pr.Suppliers.Records.{
  Country, Currency, Status, SupplierFormValues, active, country_of, country_text,
  currency_for_country, currency_of, currency_text, eur, is_supplier_category, spain, status_of,
  status_text, suspended, usa, usd,
}

module _ {N : Type 0} (n : Numbers N) (to_number : Option (Json N) → N) where
  country-echo : (c : Country) → country_from n to_number (some (str (country_text c))) ≡ c
  unfolding country_of text_eq
  country-echo usa = refl
  country-echo spain = refl

  status-echo : (s : Status) → status_from n to_number (some (str (status_text s))) ≡ s
  unfolding status_of text_eq
  status-echo active = refl
  status-echo suspended = refl

  currency-echo :
      (c : Currency) (k : Country) → currency_from n to_number (some (str (currency_text c))) k ≡ c
  unfolding currency_of text_eq
  currency-echo usd k = refl
  currency-echo eur k = refl

  categories-echo :
      (ts : List Text)
      → all is_supplier_category ts ≡ true
      → categories_in n to_number (elems (text_items n to_number ts)) ≡ ts
  unfolding categories_in
  categories-echo [] h = refl
  categories-echo (t ∷ ts) h =
      let (first, rest) = (&&_iff (is_supplier_category t) (all is_supplier_category ts)).0 h in
      rw first (ap (◌∷◌ t) (categories-echo ts rest))

  filled-echo :
      (t : Text)
      → to_nullable_string n to_number (some (nullable n to_number (filled_text t))) ≡ filled_text t
  filled-echo t = elim (Bool-cases (is_empty (trim t))) [
    | inl blank ↦ rw blank refl
    | inr full ↦ rw full (rw (trim-trim t, full) refl)
  ]

  module _ (number_of_text : Text → N) where
    -- A supplier that the API saved as the form sent it, with any id and time, is read back with exactly
    -- the fields that were sent, if the form's categories are known ones.
    pub normalize_supplier-build_supplier_payload :
        (id : N) (updated_at : Text) (values : SupplierFormValues)
        → all is_supplier_category values.categories ≡ true
        → let payload = build_supplier_payload n number_of_text values in
          normalize_supplier n to_number (echo n to_number id updated_at payload)
          ≡ some (created_supplier n to_number id updated_at payload)
    unfolding normalize_supplier build_supplier_payload field_of text_eq
    normalize_supplier-build_supplier_payload id updated_at values known =
        rw
          (
            country-echo values.country,
            status-echo values.status,
            currency-echo (currency_for_country values.country) values.country,
            categories-echo values.categories known,
            filled-echo values.service_zone,
            filled-echo values.contact_email,
            filled-echo values.notes,
          )
          refl
