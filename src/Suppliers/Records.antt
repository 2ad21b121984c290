-- ===== src/Suppliers/Records.antt =====
-- The types and tables of uis/backoffice/types/supplier.ts, and the labels of lib/supplier.ts. A
-- supplier's categories are texts.
use miguel_n_ai_trackflow_pr.Common.{
  Bool, List, Option, Text, [], codes, if◌then◌else◌, includes, join, lookup, map, none, or_else,
  some, text_eq, ◌∷◌,
}

pub data Country : Type 0 where
  usa : Country
  spain : Country

pub data Currency : Type 0 where
  usd : Currency
  eur : Currency

pub data Status : Type 0 where
  active : Status
  suspended : Status

abbrev pub country_text : Country → Text
country_text usa = codes "USA"
country_text spain = codes "Spain"

abbrev pub currency_text : Currency → Text
currency_text usd = codes "USD"
currency_text eur = codes "EUR"

abbrev pub status_text : Status → Text
status_text active = codes "active"
status_text suspended = codes "suspended"

-- `isSupplierCountry` and `isSupplierStatus`, with the value that the text then is.
unfoldable pub country_of : Text → Option Country
country_of t =
    if text_eq t (codes "USA")
    then some usa
    else if text_eq t (codes "Spain")
    then some spain
    else none

unfoldable pub status_of : Text → Option Status
status_of t =
    if text_eq t (codes "active")
    then some active
    else if text_eq t (codes "suspended")
    then some suspended
    else none

unfoldable pub currency_of : Text → Option Currency
currency_of t =
    if text_eq t (codes "USD") then some usd else if text_eq t (codes "EUR") then some eur else none

-- CATEGORY_LABELS; its keys are SUPPLIER_CATEGORIES, in the same order.
abbrev pub category_labels : List (Text × Text)
category_labels =
    (codes "carrier_last_mile", codes "Last-mile carrier")
    ∷ (codes "carrier_international", codes "International carrier")
    ∷ (codes "warehouse_supplies", codes "Warehouse supplies")
    ∷ (codes "packaging_materials", codes "Packaging materials")
    ∷ (codes "reverse_logistics", codes "Reverse logistics")
    ∷ (codes "fleet_maintenance", codes "Fleet maintenance")
    ∷ (codes "it_and_wms_software", codes "IT & WMS software")
    ∷ (codes "cleaning_and_facilities", codes "Cleaning & facilities")
    ∷ []

abbrev pub supplier_categories : List Text
supplier_categories =
    codes "carrier_last_mile"
    ∷ codes "carrier_international"
    ∷ codes "warehouse_supplies"
    ∷ codes "packaging_materials"
    ∷ codes "reverse_logistics"
    ∷ codes "fleet_maintenance"
    ∷ codes "it_and_wms_software"
    ∷ codes "cleaning_and_facilities"
    ∷ []

unfoldable pub is_supplier_category : Text → Bool
is_supplier_category t = includes supplier_categories t

unfoldable pub format_category_label : Text → Option Text
format_category_label category = lookup category_labels category

-- A category without a label would read `undefined`.
unfoldable pub format_categories_label : List Text → Text
format_categories_label [] = codes "-"
format_categories_label (c ∷ cs) =
    join (codes ", ")
      (map (λ category. or_else (format_category_label category) (codes "undefined")) (c ∷ cs))

abbrev pub format_status_label : Status → Text
format_status_label active = codes "Active"
format_status_label suspended = codes "Suspended"

-- CURRENCY_BY_COUNTRY
abbrev pub currency_for_country : Country → Currency
currency_for_country usa = usd
currency_for_country spain = eur

pub record Supplier (N : Type 0) : Type 0 where
  pub id : N
  pub name : Text
  pub country : Country
  pub categories : List Text
  pub rate_per_shipment : N
  pub currency : Currency
  pub status : Status
  pub service_zone : Option Text
  pub contact_email : Option Text
  pub notes : Option Text
  pub updated_at : Text

pub record SupplierListItem (N : Type 0) : Type 0 where
  pub id : N
  pub name : Text
  pub country : Country
  pub categories : List Text
  pub rate_per_shipment : N
  pub currency : Currency
  pub status : Status
  pub service_zone : Option Text

pub record SupplierCreatePayload (N : Type 0) : Type 0 where
  pub name : Text
  pub country : Country
  pub categories : List Text
  pub rate_per_shipment : N
  pub currency : Currency
  pub status : Status
  pub service_zone : Option Text
  pub contact_email : Option Text
  pub notes : Option Text

pub record SupplierFormValues : Type 0 where
  pub name : Text
  pub country : Country
  pub categories : List Text
  pub rate_per_shipment : Text
  pub status : Status
  pub service_zone : Text
  pub contact_email : Text
  pub notes : Text

abbrev pub empty_supplier_form_values : SupplierFormValues
empty_supplier_form_values = record {
  name = [];
  country = usa;
  categories = [];
  rate_per_shipment = [];
  status = active;
  service_zone = [];
  contact_email = [];
  notes = [];
}
