-- ===== src/Validations/Records.antt =====
-- The validations of the business records, src/utils/validations.ts. Records hold values of their
-- declared types, so what `Array.isArray` refuses does not arise.
use miguel_n_ai_trackflow_pr.Common.{List, Numbers, Text, [], codes, if◌then◌else◌, text_eq, ◌∷◌}
use miguel_n_ai_trackflow_pr.Models.{Carrier, Department, Order, Return, Warehouse, Worker}
use miguel_n_ai_trackflow_pr.Validations.Rules.{
  Unknown, ValidationResult, combine_results, create_result, other, text, undefined,
  valid_countries, valid_order_status, valid_product_condition, valid_return_status, valid_services,
  valid_wms, validate_country_array, validate_date_coherence, validate_enum_field,
  validate_min_number, validate_positive_number, validate_product_items, validate_required_fields,
  validate_string_field,
}

-- `source[field]`
unfoldable pub field_value : List (Text × Unknown) → Text → Unknown
field_value [] name = undefined
field_value ((key, value) ∷ fields) name =
    if text_eq key name then value else field_value fields name

unfoldable pub validate_warehouse : Warehouse → ValidationResult
validate_warehouse w = combine_results (
    validate_string_field (codes "warehouseID") w.warehouse_id
    ∷ validate_string_field (codes "location") w.location
    ∷ validate_enum_field (codes "country") w.country valid_countries
    ∷ validate_enum_field (codes "managementSystem") w.management_system valid_wms
    ∷ [])

unfoldable pub validate_worker : Worker → ValidationResult
validate_worker w = combine_results (
    validate_string_field (codes "name") w.name
    ∷ validate_string_field (codes "workerID") w.worker_id
    ∷ validate_enum_field (codes "location") w.location valid_countries
    ∷ validate_string_field (codes "departmentID") w.department_id
    ∷ validate_string_field (codes "position") w.position
    ∷ [])

abbrev pub order_required : List Text
order_required =
    codes "orderID"
    ∷ codes "packageSize"
    ∷ codes "destination"
    ∷ codes "carrierID"
    ∷ codes "warehouseID"
    ∷ codes "client"
    ∷ codes "products"
    ∷ codes "placedAt"
    ∷ codes "expectedDelivery"
    ∷ codes "status"
    ∷ []

abbrev pub return_required : List Text
return_required =
    codes "orderID"
    ∷ codes "returnID"
    ∷ codes "returningReason"
    ∷ codes "requestedAt"
    ∷ codes "expectedArrival"
    ∷ codes "packageSize"
    ∷ codes "carrierID"
    ∷ codes "warehouseID"
    ∷ codes "client"
    ∷ codes "status"
    ∷ codes "productCondition"
    ∷ codes "products"
    ∷ []

module _ {N : Type 0} (n : Numbers N) where
  unfoldable pub validate_department : Department → ValidationResult
  validate_department d = combine_results (
      validate_string_field (codes "name") d.name
      ∷ validate_string_field (codes "departmentID") d.department_id
      ∷ validate_country_array n (codes "location") d.location
      ∷ create_result []
      ∷ validate_string_field (codes "managerID") d.manager_id
      ∷ [])

  unfoldable pub validate_carrier : Carrier → ValidationResult
  validate_carrier c = combine_results (
      validate_string_field (codes "name") c.name
      ∷ validate_string_field (codes "carrierID") c.carrier_id
      ∷ validate_country_array n (codes "location") c.location
      ∷ validate_enum_field (codes "service") c.service valid_services
      ∷ [])

  -- An order as a record of unknown values.
  abbrev pub order_fields : Order N → List (Text × Unknown)
  order_fields o =
      (codes "orderID", text o.order_id)
      ∷ (codes "placedAt", other)
      ∷ (codes "expectedDelivery", other)
      ∷ (codes "packageSize", text o.package_size)
      ∷ (codes "destination", text o.destination)
      ∷ (codes "products", other)
      ∷ (codes "carrierID", text o.carrier_id)
      ∷ (codes "warehouseID", text o.warehouse_id)
      ∷ (codes "client", text o.client)
      ∷ (codes "status", text o.status)
      ∷ []

  unfoldable pub validate_order : Order N → ValidationResult
  validate_order o = combine_results (
      validate_required_fields (field_value (order_fields o)) order_required
      ∷ validate_date_coherence n (codes "placedAt") o.placed_at (codes "expectedDelivery")
          o.expected_delivery
      ∷ validate_min_number n (codes "packageQuantity") o.package_quantity (n.of_ℕ 1)
      ∷ validate_positive_number n (codes "weight") o.weight
      ∷ validate_enum_field (codes "status") o.status valid_order_status
      ∷ validate_product_items n o.products
      ∷ [])

  abbrev pub return_fields : Return N → List (Text × Unknown)
  return_fields r =
      (codes "orderID", text r.order_id)
      ∷ (codes "returnID", text r.return_id)
      ∷ (codes "returningReason", text r.returning_reason)
      ∷ (codes "requestedAt", other)
      ∷ (codes "productCondition", text r.product_condition)
      ∷ (codes "status", text r.status)
      ∷ (codes "expectedArrival", other)
      ∷ (codes "packageSize", text r.package_size)
      ∷ (codes "products", other)
      ∷ (codes "carrierID", text r.carrier_id)
      ∷ (codes "warehouseID", text r.warehouse_id)
      ∷ (codes "client", text r.client)
      ∷ []

  unfoldable pub validate_return : Return N → ValidationResult
  validate_return r = combine_results (
      validate_required_fields (field_value (return_fields r)) return_required
      ∷ validate_date_coherence n (codes "requestedAt") r.requested_at (codes "expectedArrival")
          r.expected_arrival
      ∷ validate_min_number n (codes "packageQuantity") r.package_quantity (n.of_ℕ 1)
      ∷ validate_positive_number n (codes "weight") r.weight
      ∷ validate_enum_field (codes "status") r.status valid_return_status
      ∷ validate_enum_field (codes "productCondition") r.product_condition valid_product_condition
      ∷ validate_product_items n r.products
      ∷ [])
