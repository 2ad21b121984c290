-- ===== src/Validations/Laws.antt =====
-- When the rules and validations of src/utils/validations.ts accept.
use miguel_n_ai_trackflow_pr.Common.{
  All, Bool, List, Numbers, Option, Text, [], ap, append_iff, arith, false, includes, max, min,
  none, not, refl, some, suc, true, ℕ, ◌&&◌, ◌++◌, ◌↔◌, ◌∷◌, ◌≡◌,
}
use miguel_n_ai_trackflow_pr.Models.{ProductItem}
use miguel_n_ai_trackflow_pr.Validations.Rules.{
  Unknown, ValidationError, ValidationResult, all_errors, combine_results, country_errors,
  create_result, error_if, in_range, is_non_empty_string, no_errors, null_value, other,
  product_errors, required_errors, required_from, text, undefined, valid_countries,
  validate_country_array, validate_date_coherence, validate_enum_field, validate_min_number,
  validate_numeric_range, validate_positive_number, validate_product_items,
  validate_required_fields, validate_string_field,
}

-- No error, as a statement about the result.
abbrev pub Passes : ValidationResult → Type 0
Passes r = r.errors ≡ []

all_errors_iff : (rs : List ValidationResult) → (all_errors rs ≡ []) ↔ All Passes rs
unfolding all_errors
all_errors_iff [] = (λ _. tt, λ _. refl)
all_errors_iff (r ∷ rs) = append_iff r.errors (all_errors rs) (λ h. h, λ h. h) (all_errors_iff rs)

pub combine_results_iff :
    (rs : List ValidationResult) → ((combine_results rs).is_valid ≡ true) ↔ All Passes rs
unfolding combine_results create_result
combine_results_iff rs = (
  λ h. (all_errors_iff rs).0 (valid (all_errors rs) h),
  λ h. ap no_errors ((all_errors_iff rs).1 h),
)
  where
    valid : (es : List ValidationError) → no_errors es ≡ true → es ≡ []
    valid [] h = refl
    valid (e ∷ es) h = cc

abbrev pub IsPresent : Unknown → Type 0
IsPresent undefined = ⊥
IsPresent null_value = ⊥
IsPresent (text value) = is_non_empty_string value ≡ true
IsPresent other = Unit

required_errors_iff :
    (name : Text) (value : Unknown) → (required_errors name value ≡ []) ↔ IsPresent value
required_errors_iff name undefined = (λ h. cc, λ h. absurd h)
required_errors_iff name null_value = (λ h. cc, λ h. absurd h)
required_errors_iff name (text value) = ground arith
required_errors_iff name other = (λ _. tt, λ _. refl)

pub validate_required_fields_iff :
    (source : Text → Unknown) (names : List Text)
    → Passes (validate_required_fields source names) ↔ All (λ name. IsPresent (source name)) names
unfolding validate_required_fields create_result required_from
validate_required_fields_iff source [] = (λ _. tt, λ _. refl)
validate_required_fields_iff source (name ∷ names) =
    append_iff (required_errors name (source name)) (required_from source names)
      (required_errors_iff name (source name)) (validate_required_fields_iff source names)

pub validate_string_field_iff :
    (at value : Text) → Passes (validate_string_field at value) ↔ (is_non_empty_string value ≡ true)
unfolding validate_string_field create_result
validate_string_field_iff at value = ground arith

pub validate_enum_field_iff :
    (at value : Text) (values : List Text)
    → Passes (validate_enum_field at value values) ↔ (includes values value ≡ true)
unfolding validate_enum_field create_result
validate_enum_field_iff at value values = ground arith

module _ {N : Type 0} (n : Numbers N) where
  open n use {is_finite, lt, of_ℕ, epsilon}

  error_if_iff : (b : Bool) (e : ValidationError) → (error_if n b e ≡ []) ↔ (b ≡ false)
  error_if_iff true e = (λ h. cc, λ h. cc)
  error_if_iff false e = (λ _. refl, λ _. refl)

  error_unless_iff : (b : Bool) (e : ValidationError) → (error_if n (not b) e ≡ []) ↔ (b ≡ true)
  error_unless_iff b e = ground arith

  coherence_iff :
      (s t l : Bool) (e1 e2 e3 : ValidationError)
      → ((error_if n (not s) e1 ++ error_if n (not t) e2 ++ error_if n (s && t && l) e3) ≡ [])
        ↔ ((s ≡ true) × (t ≡ true) × (l ≡ false))
  coherence_iff true true true e1 e2 e3 = (λ h. cc, λ h. cc (h.2))
  coherence_iff true true false e1 e2 e3 = (λ _. (refl, refl, refl), λ _. refl)
  coherence_iff true false l e1 e2 e3 = (λ h. cc, λ h. cc (h.1))
  coherence_iff false t l e1 e2 e3 = (λ h. cc, λ h. cc (h.0))

  pub validate_numeric_range_iff :
      (at : Text) (value : N) (min max : Option N)
      → Passes (validate_numeric_range n at value min max) ↔ (in_range n value min max ≡ true)
  unfolding validate_numeric_range create_result
  validate_numeric_range_iff at value min max = ground arith

  pub validate_min_number_iff :
      (at : Text) (value min : N)
      → Passes (validate_min_number n at value min) ↔ (in_range n value (some min) none ≡ true)
  unfolding validate_min_number
  validate_min_number_iff at value min = validate_numeric_range_iff at value (some min) none

  pub validate_positive_number_iff :
      (at : Text) (value : N)
      → Passes (validate_positive_number n at value) ↔ (in_range n value (some epsilon) none ≡ true)
  unfolding validate_positive_number
  validate_positive_number_iff at value = validate_numeric_range_iff at value (some epsilon) none

  -- Both dates are valid, and the second is not before the first.
  pub record AreOrdered (start stop : N) : Type 0 where
    pub start_valid : is_finite start ≡ true
    pub end_valid : is_finite stop ≡ true
    pub in_order : lt stop start ≡ false

  pub validate_date_coherence_iff :
      (a b : Text) (start stop : N)
      → Passes (validate_date_coherence n a start b stop) ↔ AreOrdered start stop
  unfolding validate_date_coherence create_result
  validate_date_coherence_iff a b start stop = (
    λ h.
        let fine = (coherence_iff (is_finite start) (is_finite stop) (lt stop start) _ _ _).0 h in
        record { start_valid = fine.0; end_valid = fine.1; in_order = fine.2 },
    λ h.
        (coherence_iff (is_finite start) (is_finite stop) (lt stop start) _ _ _).1
          (h.start_valid, h.end_valid, h.in_order),
  )

  abbrev pub IsGoodItem : ProductItem N → Type 0
  IsGoodItem item =
      (is_non_empty_string item.product ≡ true)
      × (in_range n item.quantity (some (of_ℕ 1)) none ≡ true)

  product_errors_iff :
      (index : ℕ) (items : List (ProductItem N))
      → (product_errors n index items ≡ []) ↔ All IsGoodItem items
  unfolding product_errors
  product_errors_iff index [] = (λ _. tt, λ _. refl)
  product_errors_iff index (item ∷ items) =
      append_iff _ _ (append_iff _ _ (error_unless_iff _ _) (error_unless_iff _ _))
        (product_errors_iff (suc index) items)

  pub validate_product_items_iff :
      (products : List (ProductItem N))
      → Passes (validate_product_items n products) ↔ ((¬ products ≡ []) × All IsGoodItem products)
  unfolding validate_product_items create_result
  validate_product_items_iff [] = (λ h. cc, λ h. absurd (h.0 refl))
  validate_product_items_iff (item ∷ items) = (
    λ h. (λ e. cc, (product_errors_iff 0 (item ∷ items)).0 h),
    λ h. (product_errors_iff 0 (item ∷ items)).1 h.1,
  )

  abbrev pub IsCountry : Text → Type 0
  IsCountry country = includes valid_countries country ≡ true

  country_errors_iff :
      (at : Text) (index : ℕ) (countries : List Text)
      → (country_errors n at index countries ≡ []) ↔ All IsCountry countries
  unfolding country_errors
  country_errors_iff at index [] = (λ _. tt, λ _. refl)
  country_errors_iff at index (country ∷ countries) =
      append_iff _ _ (error_unless_iff _ _) (country_errors_iff at (suc index) countries)

  pub validate_country_array_iff :
      (at : Text) (countries : List Text)
      → Passes (validate_country_array n at countries)
        ↔ ((¬ countries ≡ []) × All IsCountry countries)
  unfolding validate_country_array create_result
  validate_country_array_iff at [] = (λ h. cc, λ h. absurd (h.0 refl))
  validate_country_array_iff at (country ∷ countries) = (
    λ h. (λ e. cc, (country_errors_iff at 0 (country ∷ countries)).0 h),
    λ h. (country_errors_iff at 0 (country ∷ countries)).1 h.1,
  )
