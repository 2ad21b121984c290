-- ===== src/Inventory/Calls.antt =====
-- The calls of uis/backoffice/lib/inventory.ts over requestAuthenticatedApi: inventoryRequest and its
-- callers. The option `cache` has no part in what is modelled.
use miguel_n_ai_trackflow_pr.Common.{
  Bool, Json, List, Option, Text, [], all, arr, codes, elems, false, if◌then◌else◌, is_empty, none,
  prop, some, ℕ, ◌&&◌, ◌++◌, ◌==◌, ◌↔◌, ◌∷◌, ◌≡◌,
}
use miguel_n_ai_trackflow_pr.Api.Checked.{
  Checked, IsAccepted, checked_request, checked_request_iff, gives,
}
use miguel_n_ai_trackflow_pr.Api.Responses.{Init}
use miguel_n_ai_trackflow_pr.Api.Requests.{Client, Net, request_authenticated_api}
use miguel_n_ai_trackflow_pr.Inventory.Guards.{
  Measures, is_movement_confirmation, is_order, is_product, is_product_availability, is_text,
}

abbrev pub inventory_response_message : Text
inventory_response_message =
    codes "The inventory service returned an unreadable response. Please try again."

-- `new URLSearchParams()` with `set`, and `toString()`.
pub record Params : Type 1 where
  pub Search : Type 0
  pub none_set : Search
  pub set_param : Text → Text → Search → Search
  pub size : Search → ℕ
  pub to_text : Search → Text

unfoldable pub set_filters : (u : Params) → List (Text × Option Text) → u.Search → u.Search
set_filters u [] q = q
set_filters u ((key, none) ∷ filters) q = set_filters u filters q
set_filters u ((key, some value) ∷ filters) q =
    set_filters u filters (if is_empty value then q else u.set_param key value q)

unfoldable pub query : Params → List (Text × Option Text) → Text
query u filters =
    let q = set_filters u filters u.none_set in
    if u.size q == 0 then [] else codes "?" ++ u.to_text q

module _ {N : Type 0} (net : Net N) (meanwhile : ℕ → Client N → Client N) where
  unfoldable pub inventory_request : Text → (Json N → Bool) → Init → Client N → Checked N × Client N
  inventory_request path check call c =
      checked_request net meanwhile inventory_response_message path check call c

  abbrev pub get : Init
  get = record { method = none; headers = []; body = none }

  -- The body is `JSON.stringify` of the payload.
  abbrev pub post : Text → Init
  post body = record {
    method = some (codes "POST");
    headers = (codes "Content-Type", codes "application/json") ∷ [];
    body = some body;
  }

  -- `Array.isArray(value) && value.every(test)`
  abbrev pub is_list_of : (Json N → Bool) → Json N → Bool
  is_list_of test (arr vs) = all test (elems vs)
  is_list_of test _ = false

  -- An inventory call gives a value exactly when the request was answered with success, and the
  -- answer was decoded to that value and passed the call's check.
  pub inventory_request_iff :
      (path : Text) (check : Json N → Bool) (call : Init) (c : Client N) (v : Json N)
      → ((inventory_request path check call c).0 ≡ gives v)
        ↔ IsAccepted check (request_authenticated_api net meanwhile path call c).0 v
  unfolding inventory_request
  inventory_request_iff path check call c v =
      checked_request_iff net meanwhile inventory_response_message path check call c v

  module _ (m : Measures N) (u : Params) where
    unfoldable pub get_products : Option Text → Option Text → Client N → Checked N × Client N
    get_products warehouse sku =
        inventory_request
          (codes "/inventory/products"
            ++ query u ((codes "warehouse", warehouse) ∷ (codes "sku", sku) ∷ []))
          (is_list_of (is_product m)) get

    -- `encode` is `encodeURIComponent`.
    unfoldable pub get_product : (Text → Text) → Text → Client N → Checked N × Client N
    get_product encode id =
        inventory_request (codes "/inventory/products/" ++ encode id) (is_product_availability m)
          get

    unfoldable pub create_product : Text → Client N → Checked N × Client N
    create_product body = inventory_request (codes "/inventory/products") (is_product m) (post body)

    abbrev pub is_movement : Text → Json N → Bool
    is_movement direction v =
        is_movement_confirmation m v && is_text direction (prop v (codes "direction"))

    unfoldable pub create_inbound_order : Text → Client N → Checked N × Client N
    create_inbound_order body =
        inventory_request (codes "/inventory/products/inbound") (is_movement (codes "inbound"))
          (post body)

    unfoldable pub create_outbound_order : Text → Client N → Checked N × Client N
    create_outbound_order body =
        inventory_request (codes "/inventory/products/outbound") (is_movement (codes "outbound"))
          (post body)

    unfoldable pub get_orders : Option Text → Option Text → Client N → Checked N × Client N
    get_orders warehouse product_id =
        inventory_request
          (codes "/inventory/orders"
            ++ query u ((codes "warehouse", warehouse) ∷ (codes "product_id", product_id) ∷ []))
          (is_list_of (is_order m)) get
