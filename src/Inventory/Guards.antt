-- ===== src/Inventory/Guards.antt =====
-- What uis/backoffice/lib/inventory.ts accepts as an answer. Numbers are the platform's.
use miguel_n_ai_trackflow_pr.Common.{
  Bool, Json, Option, Text, arith, codes, false, if◌then◌else◌, is_written, none, not, num, obj,
  prop, refl, some, str, text_eq, true, ℕ, ◌&&◌, ◌||◌, ◌↔◌, ◌≡◌,
}

-- `Number.isSafeInteger(a)`, `Number.isInteger(a)`, the comparisons, `Number(text)`, and
-- `Number.isFinite(Date.parse(text))`.
pub record Measures (N : Type 0) : Type 0 where
  pub is_safe_integer : N → Bool
  pub is_integer : N → Bool
  pub is_below : N → ℕ → Bool
  pub is_above : N → ℕ → Bool
  pub number_of_text : Text → N
  pub is_date : Text → Bool

abbrev pub max_quantity : ℕ
max_quantity = 2147483647

module _ {N : Type 0} where
  -- `record`, together with the reading of a key: `none` for what is no object or lacks the key.
  abbrev pub is_record : Json N → Bool
  is_record (obj fs) = true
  is_record _ = false

  abbrev pub nonempty : Option (Json N) → Bool
  nonempty (some (str t)) = is_written t
  nonempty _ = false

  abbrev pub is_text : Text → Option (Json N) → Bool
  is_text t (some (str s)) = text_eq s t
  is_text t _ = false

  abbrev pub is_number_that : (N → Bool) → Option (Json N) → Bool
  is_number_that test (some (num a)) = test a
  is_number_that test _ = false

  abbrev pub is_warehouse : Option (Json N) → Bool
  is_warehouse v = is_text (codes "Monterrey") v || is_text (codes "Zaragoza") v

  abbrev pub is_direction : Option (Json N) → Bool
  is_direction v = is_text (codes "inbound") v || is_text (codes "outbound") v

  unfoldable pub is_product_summary : Json N → Bool
  is_product_summary v =
      is_record v
      && nonempty (prop v (codes "id"))
      && nonempty (prop v (codes "name"))
      && nonempty (prop v (codes "sku"))
      && is_warehouse (prop v (codes "warehouse"))

  module _ (m : Measures N) where
    -- `Number.isSafeInteger(stock) && stock >= 0`
    abbrev pub is_stock : N → Bool
    is_stock a = m.is_safe_integer a && not (m.is_below a 0)

    abbrev pub is_quantity : N → Bool
    is_quantity a = m.is_integer a && m.is_above a 0 && not (m.is_above a max_quantity)

    unfoldable pub is_product : Json N → Bool
    is_product v = is_product_summary v && is_number_that is_stock (prop v (codes "current_stock"))

    unfoldable pub is_product_availability : Json N → Bool
    is_product_availability v =
        is_record v
        && nonempty (prop v (codes "id"))
        && is_number_that is_stock (prop v (codes "current_stock"))

    abbrev pub is_date_text : Option (Json N) → Bool
    is_date_text (some (str t)) = m.is_date t
    is_date_text _ = false

    unfoldable pub is_order : Json N → Bool
    is_order v =
        is_record v
        && nonempty (prop v (codes "id"))
        && nonempty (prop v (codes "product_id"))
        && nonempty (prop v (codes "user_uuid"))
        && nonempty (prop v (codes "created_at"))
        && is_date_text (prop v (codes "created_at"))
        && is_number_that is_quantity (prop v (codes "quantity"))
        && nonempty (prop v (codes "product_name"))
        && nonempty (prop v (codes "product_sku"))
        && is_warehouse (prop v (codes "warehouse"))
        && is_direction (prop v (codes "direction"))

    unfoldable pub is_movement_confirmation : Json N → Bool
    is_movement_confirmation v =
        is_record v
        && is_number_that is_quantity (prop v (codes "quantity"))
        && nonempty (prop v (codes "product_name"))
        && is_warehouse (prop v (codes "warehouse"))
        && is_direction (prop v (codes "direction"))

    abbrev pub quantity_message : Text
    quantity_message = codes "Enter a whole number from 1 to 2,147,483,647."

    unfoldable pub quantity_error : Text → Option Text
    quantity_error value =
        let quantity = m.number_of_text value in
        if not (is_written value)
          || not (m.is_integer quantity)
          || m.is_below quantity 1
          || m.is_above quantity max_quantity
        then some quantity_message
        else none

    narrower_product :
        (r i n s w k : Bool)
        → (r && i && n && s && w && k) ≡ true
        → ((r && i && k) ≡ true) × ((r && i && n && s && w) ≡ true)
    narrower_product r i n s w k h = (ground arith, ground arith)

    -- A product is a summary of a product, and says how much of it there is.
    pub is_product-narrower :
        (v : Json N)
        → is_product v ≡ true
        → (is_product_availability v ≡ true) × (is_product_summary v ≡ true)
    unfolding is_product is_product_availability is_product_summary
    is_product-narrower v h = narrower_product (is_record v) _ _ _ _ _ h

    narrower_order :
        (r a b c d e q n s w o : Bool)
        → (r && a && b && c && d && e && q && n && s && w && o) ≡ true
        → (r && q && n && w && o) ≡ true
    narrower_order r a b c d e q n s w o h = ground arith

    -- An order of the history would also pass as the confirmation of a movement.
    pub is_order-narrower : (v : Json N) → is_order v ≡ true → is_movement_confirmation v ≡ true
    unfolding is_order is_movement_confirmation
    is_order-narrower v h = narrower_order (is_record v) _ _ _ _ _ _ _ _ _ _ h

-- A whole number is above 0 exactly when it is not below 1.
pub record MeasureLaws {N : Type 0} (m : Measures N) : Type 0 where
  pub positive : (a : N) → m.is_integer a ≡ true → m.is_above a 0 ≡ not (m.is_below a 1)

refused_iff :
    (message : Text) (written integer below above over : Bool)
    → (integer ≡ true → above ≡ not below)
    → ((if not written || not integer || below || over then some message else none) ≡ none)
      ↔ ((written && (integer && above && not over)) ≡ true)
refused_iff message false integer below above over h = (λ e. cc, λ e. cc)
refused_iff message true false below above over h = (λ e. cc, λ e. cc)
refused_iff message true true true above over h = (λ e. cc, λ e. absurd (ground (arith, h refl)))
refused_iff message true true false above true h = (λ e. cc, λ e. absurd (ground arith))
refused_iff message true true false above false h = (λ e. ground (arith, h refl), λ e. refl)

-- The form refuses a quantity exactly when it is blank, or is no number that an answer could name
-- as the quantity of a movement.
pub quantity_error_iff :
    {N : Type 0} (m : Measures N) (value : Text)
    → MeasureLaws m
    → (quantity_error m value ≡ none)
      ↔ ((is_written value && is_quantity m (m.number_of_text value)) ≡ true)
unfolding quantity_error
quantity_error_iff m value laws =
    let q = m.number_of_text value in
    refused_iff (quantity_message m) (is_written value) (m.is_integer q) (m.is_below q 1)
      (m.is_above q 0) (m.is_above q max_quantity) (laws.positive q)
