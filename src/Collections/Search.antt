-- ===== src/Collections/Search.antt =====
-- `searchByCriteria` and the searches of the business records, src/utils/collections.ts.
use miguel_n_ai_trackflow_pr.Common.{
  Bool, List, Numbers, Option, Text, [], none, some, text_eq, ◌∷◌,
}
use miguel_n_ai_trackflow_pr.Models.{Carrier, Order, Return, Warehouse}
use miguel_n_ai_trackflow_pr.Collections.Filters.{
  Place, filter_by_category, filter_by_date_range, filter_by_location, filter_by_price_range,
  filter_by_status, one, several,
}

pub record SearchCriteria (N C S : Type 0) : Type 0 where
  pub category : Option C
  pub min_price : Option N
  pub max_price : Option N
  pub status : Option S
  pub from_date : Option N
  pub to_date : Option N
  pub location : Option Text

pub record SearchAccessors (T N C S : Type 0) : Type 0 where
  pub get_category : Option (T → Option C)
  pub get_price : Option (T → Option N)
  pub get_status : Option (T → Option S)
  pub get_date : Option (T → Option N)
  pub get_location : Option (T → Place)

-- `criterion !== undefined && accessor`: the filter is used if both are there.
abbrev pub when_both {ℓ κ} :
    {A : Type ℓ} {B : Type κ} {T : Type 0}
    → Option A
    → Option B
    → (A → B → List T → List T)
    → List T
    → List T
when_both none b f xs = xs
when_both (some a) none f xs = xs
when_both (some a) (some g) f xs = f a g xs

-- `a !== undefined || b !== undefined`
abbrev pub either {ℓ} : {A : Type ℓ} → Option A → Option A → Option (Option A × Option A)
either none none = none
either a b = some (a, b)

module _ {T N C S : Type 0} (lower : Text → Text) (n : Numbers N) (same_category : C → C → Bool)
    (same_status : S → S → Bool) where
  module _ (c : SearchCriteria N C S) (a : SearchAccessors T N C S) where
    -- The five `if` statements, in order.
    unfoldable pub by_category : List T → List T
    by_category =
        when_both c.category a.get_category
          (λ category get xs. filter_by_category same_category xs category get)

    unfoldable pub by_price : List T → List T
    by_price =
        when_both (either c.min_price c.max_price) a.get_price
          (λ range get xs. filter_by_price_range n xs get range.0 range.1)

    unfoldable pub by_status : List T → List T
    by_status =
        when_both c.status a.get_status
          (λ status get xs. filter_by_status same_status xs status get)

    unfoldable pub by_date : List T → List T
    by_date =
        when_both (either c.from_date c.to_date) a.get_date
          (λ range get xs. filter_by_date_range n xs get range.0 range.1)

    unfoldable pub by_location : List T → List T
    by_location =
        when_both c.location a.get_location
          (λ location get xs. filter_by_location lower xs location get)

  unfoldable pub search_by_criteria :
      List T → SearchCriteria N C S → SearchAccessors T N C S → List T
  search_by_criteria items c a =
      by_location c a (by_date c a (by_status c a (by_price c a (by_category c a items))))

pub data OrderDate : Type 0 where
  placed_at : OrderDate
  expected_delivery : OrderDate

pub data ReturnDate : Type 0 where
  requested_at : ReturnDate
  expected_arrival : ReturnDate

abbrev pub order_date : {N : Type 0} → OrderDate → Order N → N
order_date placed_at o = o.placed_at
order_date expected_delivery o = o.expected_delivery

abbrev pub return_date : {N : Type 0} → ReturnDate → Return N → N
return_date requested_at r = r.requested_at
return_date expected_arrival r = r.expected_arrival

module _ {N : Type 0} (lower : Text → Text) (n : Numbers N) where
  unfoldable pub search_orders :
      List (Order N) → SearchCriteria N Text Text → OrderDate → List (Order N)
  search_orders orders criteria date_field =
      search_by_criteria lower n text_eq text_eq orders criteria (record {
        get_category = none;
        get_price = none;
        get_status = some (λ order. some order.status);
        get_date = some (λ order. some (order_date date_field order));
        get_location = some (λ order. one order.destination);
      })

  unfoldable pub search_returns :
      List (Return N) → SearchCriteria N Text Text → ReturnDate → List (Return N)
  search_returns returns criteria date_field =
      search_by_criteria lower n text_eq text_eq returns criteria (record {
        get_category = none;
        get_price = none;
        get_status = some (λ item. some item.status);
        get_date = some (λ item. some (return_date date_field item));
        get_location = some (λ item. one item.client);
      })

  unfoldable pub search_carriers : List Carrier → SearchCriteria N Text Text → List Carrier
  search_carriers carriers criteria =
      search_by_criteria lower n text_eq text_eq carriers criteria (record {
        get_category = some (λ carrier. some carrier.service);
        get_price = none;
        get_status = none;
        get_date = none;
        get_location = some (λ carrier. several carrier.location);
      })

  unfoldable pub search_warehouses : List Warehouse → SearchCriteria N Text Text → List Warehouse
  search_warehouses warehouses criteria =
      search_by_criteria lower n text_eq text_eq warehouses criteria (record {
        get_category = some (λ warehouse. some warehouse.management_system);
        get_price = none;
        get_status = none;
        get_date = none;
        get_location = some (λ warehouse. several (warehouse.country ∷ warehouse.location ∷ []));
      })
