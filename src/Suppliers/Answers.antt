-- ===== src/Suppliers/Answers.antt =====
-- What uis/backoffice/lib/supplier.ts makes of the answers of the API: normalizeSupplier to
-- normalizeSuppliers. `none` stands for a throw, and `to_number` is `Number(value)`.
use miguel_n_ai_trackflow_pr.Common.{
  Items, Json, List, Numbers, Option, Text, [], arr, codes, cons, elems, end, field, if◌then◌else◌,
  is_object, is_written, nil, none, null, num, obj, or_else, prop, some, str, ◌∷◌,
}
use miguel_n_ai_trackflow_pr.Incidents.Payloads.{both}
use miguel_n_ai_trackflow_pr.Suppliers.Records.{
  Country, Currency, Status, Supplier, SupplierCreatePayload, SupplierListItem, active, country_of,
  country_text, currency_for_country, currency_of, currency_text, is_supplier_category, status_of,
  status_text, usa,
}

module _ {N : Type 0} (n : Numbers N) (to_number : Option (Json N) → N) where
  abbrev pub to_nullable_string : Option (Json N) → Option Text
  to_nullable_string (some (str t)) = if is_written t then some t else none
  to_nullable_string _ = none

  abbrev pub country_from : Option (Json N) → Country
  country_from (some (str t)) = or_else (country_of t) usa
  country_from _ = usa

  abbrev pub status_from : Option (Json N) → Status
  status_from (some (str t)) = or_else (status_of t) active
  status_from _ = active

  abbrev pub currency_from : Option (Json N) → Country → Currency
  currency_from (some (str t)) country = or_else (currency_of t) (currency_for_country country)
  currency_from _ country = currency_for_country country

  -- The strings of an array that are categories.
  unfoldable pub categories_in : List (Json N) → List Text
  categories_in [] = []
  categories_in (str t ∷ vs) =
      let rest = categories_in vs in if is_supplier_category t then t ∷ rest else rest
  categories_in (_ ∷ vs) = categories_in vs

  abbrev pub categories_from : Option (Json N) → List Text
  categories_from (some (arr vs)) = categories_in (elems vs)
  categories_from _ = []

  abbrev pub text_or : Option (Json N) → Text → Text
  text_or (some (str t)) fallback = t
  text_or _ fallback = fallback

  abbrev pub number_or : Option (Json N) → N → N
  number_or (some (num a)) fallback = a
  number_or _ fallback = fallback

  abbrev pub supplier_of : Json N → Supplier N
  supplier_of v =
      let country = country_from (prop v (codes "country")) in
      record {
        id = number_or (prop v (codes "id")) (to_number (prop v (codes "id")));
        name = text_or (prop v (codes "name")) (codes "Unnamed supplier");
        country = country;
        categories = categories_from (prop v (codes "categories"));
        rate_per_shipment = number_or (prop v (codes "rate_per_shipment")) (n.of_ℕ 0);
        currency = currency_from (prop v (codes "currency")) country;
        status = status_from (prop v (codes "status"));
        service_zone = to_nullable_string (prop v (codes "service_zone"));
        contact_email = to_nullable_string (prop v (codes "contact_email"));
        notes = to_nullable_string (prop v (codes "notes"));
        updated_at = text_or (prop v (codes "updated_at")) [];
      }

  unfoldable pub normalize_supplier : Json N → Option (Supplier N)
  normalize_supplier v = if is_object v then some (supplier_of v) else none

  unfoldable pub supplier_list_item_from_supplier : Supplier N → SupplierListItem N
  supplier_list_item_from_supplier s = record {
    id = s.id;
    name = s.name;
    country = s.country;
    categories = s.categories;
    rate_per_shipment = s.rate_per_shipment;
    currency = s.currency;
    status = s.status;
    service_zone = s.service_zone;
  }

  abbrev pub list_item : Option (Supplier N) → Option (SupplierListItem N)
  list_item none = none
  list_item (some s) = some (supplier_list_item_from_supplier s)

  unfoldable pub normalize_supplier_list_item : Json N → Option (SupplierListItem N)
  normalize_supplier_list_item v = list_item (normalize_supplier v)

  unfoldable pub normalize_supplier_items : List (Json N) → Option (List (SupplierListItem N))
  normalize_supplier_items [] = some []
  normalize_supplier_items (v ∷ vs) =
      both (normalize_supplier_list_item v) (normalize_supplier_items vs)

  unfoldable pub normalize_suppliers : Json N → Option (List (SupplierListItem N))
  normalize_suppliers (arr vs) = normalize_supplier_items (elems vs)
  normalize_suppliers _ = some []

  abbrev pub text_items : List Text → Items N
  text_items [] = nil
  text_items (t ∷ ts) = cons (str t) (text_items ts)

  abbrev pub nullable : Option Text → Json N
  nullable none = null
  nullable (some t) = str t

  -- An answer that repeats a payload, with the id and the time that the API gave it.
  abbrev pub echo : N → Text → SupplierCreatePayload N → Json N
  echo id updated_at p = obj (
      field (codes "id") (num id) (
        field (codes "name") (str p.name) (
          field (codes "country") (str (country_text p.country)) (
            field (codes "categories") (arr (text_items p.categories)) (
              field (codes "rate_per_shipment") (num p.rate_per_shipment) (
                field (codes "currency") (str (currency_text p.currency)) (
                  field (codes "status") (str (status_text p.status)) (
                    field (codes "service_zone") (nullable p.service_zone) (
                      field (codes "contact_email") (nullable p.contact_email) (
                        field (codes "notes") (nullable p.notes)
                          (field (codes "updated_at") (str updated_at) end)))))))))))

  abbrev pub created_supplier : N → Text → SupplierCreatePayload N → Supplier N
  created_supplier id updated_at p = record {
    id = id;
    name = p.name;
    country = p.country;
    categories = p.categories;
    rate_per_shipment = p.rate_per_shipment;
    currency = p.currency;
    status = p.status;
    service_zone = p.service_zone;
    contact_email = p.contact_email;
    notes = p.notes;
    updated_at = updated_at;
  }
