-- ===== src/Validations/Rules.antt =====
-- The results and the field rules of src/utils/validations.ts, over the numbers of the platform. A
-- value that the source takes as `unknown` is told apart as far as the checks do.
use miguel_n_ai_trackflow_pr.Common.{
  Bool, List, Numbers, Option, Text, [], codes, false, if◌then◌else◌, includes, is_empty, max, min,
  none, not, some, suc, trim, true, ℕ, ◌&&◌, ◌++◌, ◌∷◌,
}
use miguel_n_ai_trackflow_pr.Models.{ProductItem}

pub record ValidationError : Type 0 where
  pub at : Text
  pub message : Text

pub record ValidationResult : Type 0 where
  pub is_valid : Bool
  pub errors : List ValidationError

abbrev pub error : Text → Text → ValidationError
error at message = record { at = at; message = message }

abbrev pub valid_countries : List Text
valid_countries = codes "Mexico" ∷ codes "Spain" ∷ []

abbrev pub valid_services : List Text
valid_services = codes "local" ∷ codes "international" ∷ []

abbrev pub valid_wms : List Text
valid_wms = codes "commercial software" ∷ codes "advanced spreadsheet" ∷ []

abbrev pub valid_order_status : List Text
valid_order_status =
    codes "In Process" ∷ codes "Shipped" ∷ codes "Delivered" ∷ codes "Returned" ∷ []

abbrev pub valid_return_status : List Text
valid_return_status =
    codes "Under review"
    ∷ codes "Approved"
    ∷ codes "Rejected"
    ∷ codes "In transit"
    ∷ codes "Refunded"
    ∷ codes "Disposed"
    ∷ []

abbrev pub valid_product_condition : List Text
valid_product_condition = codes "Poor" ∷ codes "Fair" ∷ codes "Excellent" ∷ codes "Like New" ∷ []

-- `errors.length === 0`
abbrev pub no_errors : List ValidationError → Bool
no_errors [] = true
no_errors (e ∷ es) = false

unfoldable pub create_result : List ValidationError → ValidationResult
create_result errors = record { is_valid = no_errors errors; errors = errors }

-- The loop of `combineResults`.
unfoldable pub all_errors : List ValidationResult → List ValidationError
all_errors [] = []
all_errors (r ∷ rs) = r.errors ++ all_errors rs

unfoldable pub combine_results : List ValidationResult → ValidationResult
combine_results results = create_result (all_errors results)

abbrev pub is_non_empty_string : Text → Bool
is_non_empty_string value = not (is_empty (trim value))

-- An `unknown` value, as `validateRequiredFields` tells them apart.
pub data Unknown : Type 0 where
  undefined : Unknown
  null_value : Unknown
  text : Text → Unknown
  other : Unknown

abbrev pub required_errors : Text → Unknown → List ValidationError
required_errors name undefined = error name (codes "Field is required.") ∷ []
required_errors name null_value = error name (codes "Field is required.") ∷ []
required_errors name (text value) =
    if is_empty (trim value) then error name (codes "Field cannot be empty.") ∷ [] else []
required_errors name other = []

unfoldable pub required_from : (Text → Unknown) → List Text → List ValidationError
required_from source [] = []
required_from source (name ∷ names) =
    required_errors name (source name) ++ required_from source names

unfoldable pub validate_required_fields : (Text → Unknown) → List Text → ValidationResult
validate_required_fields source names = create_result (required_from source names)

unfoldable pub validate_string_field : Text → Text → ValidationResult
validate_string_field at value =
    if is_non_empty_string value
    then create_result []
    else create_result (error at (codes "Field is required and must be a non-empty string.") ∷ [])

unfoldable pub validate_enum_field : Text → Text → List Text → ValidationResult
validate_enum_field at value valid_values =
    if includes valid_values value
    then create_result []
    else create_result (error at (codes "Invalid value.") ∷ [])

module _ {N : Type 0} (n : Numbers N) where
  open n use {is_finite, lt, of_ℕ, epsilon, show}

  unfoldable pub in_range : N → Option N → Option N → Bool
  in_range value none none = is_finite value
  in_range value (some min) none = is_finite value && not (lt value min)
  in_range value none (some max) = is_finite value && not (lt max value)
  in_range value (some min) (some max) = is_finite value && not (lt value min) && not (lt max value)

  abbrev pub bound_text : Option N → Text → Text
  bound_text none unbounded = unbounded
  bound_text (some bound) unbounded = show bound

  unfoldable pub validate_numeric_range : Text → N → Option N → Option N → ValidationResult
  validate_numeric_range at value min max =
      if in_range value min max
      then create_result []
      else create_result (
          error at (
            codes "Field must be a finite number in range ["
            ++ bound_text min (codes "-∞")
            ++ codes ", "
            ++ bound_text max (codes "+∞")
            ++ codes "].")
          ∷ [])

  unfoldable pub validate_positive_number : Text → N → ValidationResult
  validate_positive_number at value = validate_numeric_range at value (some epsilon) none

  unfoldable pub validate_min_number : Text → N → N → ValidationResult
  validate_min_number at value min = validate_numeric_range at value (some min) none

  -- `condition ? [error] : []`
  abbrev pub error_if : Bool → ValidationError → List ValidationError
  error_if true e = e ∷ []
  error_if false e = []

  unfoldable pub validate_date_coherence : Text → N → Text → N → ValidationResult
  validate_date_coherence start_field start_date end_field end_date = create_result (
      error_if (not (is_finite start_date)) (error start_field (codes "Invalid date."))
      ++ error_if (not (is_finite end_date)) (error end_field (codes "Invalid date."))
      ++ error_if (is_finite start_date && is_finite end_date && lt end_date start_date) (
          error (start_field ++ codes "-" ++ end_field)
            (end_field ++ codes " must be greater than or equal to " ++ start_field ++ codes ".")))

  -- `${name}[${index}]`
  abbrev pub indexed : Text → ℕ → Text
  indexed name index = name ++ codes "[" ++ show (of_ℕ index) ++ codes "]"

  unfoldable pub country_errors : Text → ℕ → List Text → List ValidationError
  country_errors at index [] = []
  country_errors at index (country ∷ countries) =
      error_if (not (includes valid_countries country))
        (error (indexed at index) (codes "Invalid country."))
      ++ country_errors at (suc index) countries

  unfoldable pub validate_country_array : Text → List Text → ValidationResult
  validate_country_array at [] =
      create_result (error at (codes "At least one country is required.") ∷ [])
  validate_country_array at (country ∷ countries) =
      create_result (country_errors at 0 (country ∷ countries))

  unfoldable pub product_errors : ℕ → List (ProductItem N) → List ValidationError
  product_errors index [] = []
  product_errors index (item ∷ items) =
      (error_if (not (is_non_empty_string item.product)) (
          error (indexed (codes "products") index ++ codes ".product")
            (codes "Product name is required."))
        ++ error_if (not (in_range item.quantity (some (of_ℕ 1)) none)) (
            error (indexed (codes "products") index ++ codes ".quantity")
              (codes "Quantity must be >= 1.")))
      ++ product_errors (suc index) items

  unfoldable pub validate_product_items : List (ProductItem N) → ValidationResult
  validate_product_items [] =
      create_result (error (codes "products") (codes "At least one product item is required.") ∷ [])
  validate_product_items (item ∷ items) = create_result (product_errors 0 (item ∷ items))
