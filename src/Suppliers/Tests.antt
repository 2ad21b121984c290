-- ===== src/Suppliers/Tests.antt =====
-- Runs of the supplier form.
use miguel_n_ai_trackflow_pr.Common.{
  Json, Option, Text, [], all, codes, includes, length, none, refl, some, text_eq, true,
  whole_numbers, whole_numbers-OrderLaws, ℕ, ◌↔◌, ◌∷◌, ◌≡◌,
}
use miguel_n_ai_trackflow_pr.Suppliers.Answers.{created_supplier, echo, normalize_supplier}
use miguel_n_ai_trackflow_pr.Suppliers.Echo.{normalize_supplier-build_supplier_payload}
use miguel_n_ai_trackflow_pr.Suppliers.Form.{
  IsValid, build_supplier_payload, validate_supplier_form, validate_supplier_form_iff,
}
use miguel_n_ai_trackflow_pr.Suppliers.Records.{
  SupplierFormValues, active, is_supplier_category, spain,
}

abbrev length_of : Text → ℕ
length_of t = length t

abbrev no_number : Option (Json ℕ) → ℕ
no_number v = 0

abbrev carrier : SupplierFormValues
carrier = record {
  name = codes " Fast Vans ";
  country = spain;
  categories = codes "carrier_last_mile" ∷ [];
  rate_per_shipment = codes "12";
  status = active;
  service_zone = codes "Aragon";
  contact_email = codes "ops@vans.es";
  notes = [];
}

carrier_known : all is_supplier_category (codes "carrier_last_mile" ∷ []) ≡ true
unfolding is_supplier_category includes text_eq
carrier_known = refl

validate_supplier_form_iff_example :
    (validate_supplier_form whole_numbers length_of carrier ≡ none)
    ↔ IsValid whole_numbers length_of (build_supplier_payload whole_numbers length_of carrier)
validate_supplier_form_iff_example =
    validate_supplier_form_iff whole_numbers whole_numbers-OrderLaws length_of carrier

normalize_supplier-build_supplier_payload_example :
    normalize_supplier whole_numbers no_number (
      echo whole_numbers no_number 7
        (codes "2026-01-01")
        (build_supplier_payload whole_numbers length_of carrier))
    ≡ some (
        created_supplier whole_numbers no_number 7
          (codes "2026-01-01")
          (build_supplier_payload whole_numbers length_of carrier))
normalize_supplier-build_supplier_payload_example =
    normalize_supplier-build_supplier_payload whole_numbers no_number length_of 7
      (codes "2026-01-01") carrier carrier_known
