-- ===== src/Validations/Tests.antt =====
-- Runs of src/utils/validations.ts, and the theorems at them.
use miguel_n_ai_trackflow_pr.Common.{
  [], codes, false, includes, refl, text_eq, trim, true, whole_numbers, ℕ, ◌↔◌, ◌∷◌, ◌≡◌,
}
use miguel_n_ai_trackflow_pr.Models.{Order, ProductItem, Return}
use miguel_n_ai_trackflow_pr.Validations.Rules.{
  all_errors, combine_results, create_result, error, in_range, product_errors, required_from,
  validate_date_coherence, validate_enum_field, validate_min_number, validate_numeric_range,
  validate_positive_number, validate_product_items, validate_required_fields,
}
use miguel_n_ai_trackflow_pr.Validations.Records.{field_value, validate_order, validate_return}
use miguel_n_ai_trackflow_pr.Validations.Accepts.{AcceptsOrder, validate_order_iff}

abbrev boots : ProductItem ℕ
boots = record { product = codes "boots"; quantity = 2 }

abbrev parcel : Order ℕ
parcel = record {
  order_id = codes "o1";
  placed_at = 10;
  expected_delivery = 20;
  package_quantity = 1;
  package_size = codes "M";
  weight = 3;
  urgent = false;
  destination = codes "Lima";
  products = boots ∷ [];
  carrier_id = codes "c1";
  warehouse_id = codes "w1";
  client = codes "acme";
  status = codes "Shipped";
}

abbrev sent_back : Return ℕ
sent_back = record {
  order_id = codes "o1";
  return_id = codes "r1";
  returning_reason = codes "too small";
  requested_at = 30;
  product_condition = codes "Fair";
  status = codes "Approved";
  expected_arrival = 25;
  package_quantity = 1;
  package_size = codes "M";
  weight = 3;
  products = boots ∷ [];
  carrier_id = codes "c1";
  warehouse_id = codes "w1";
  client = codes " ";
}

parcel_run : (validate_order whole_numbers parcel).is_valid ≡ true
unfolding validate_order combine_results create_result all_errors validate_required_fields
    required_from field_value text_eq trim validate_date_coherence validate_min_number
    validate_positive_number validate_numeric_range in_range validate_enum_field includes
    validate_product_items product_errors
parcel_run = refl

-- The blank client and the two dates are reported, in this order.
sent_back_run :
    (validate_return whole_numbers sent_back).errors
    ≡ error (codes "client") (codes "Field cannot be empty.")
      ∷ error
          (codes "requestedAt-expectedArrival")
          (codes "expectedArrival must be greater than or equal to requestedAt.")
      ∷ []
unfolding validate_return combine_results create_result all_errors validate_required_fields
    required_from field_value text_eq trim validate_date_coherence validate_min_number
    validate_positive_number validate_numeric_range in_range validate_enum_field includes
    validate_product_items product_errors
sent_back_run = refl

validate_order_iff_example :
    ((validate_order whole_numbers parcel).is_valid ≡ true) ↔ AcceptsOrder whole_numbers parcel
validate_order_iff_example = validate_order_iff whole_numbers parcel
