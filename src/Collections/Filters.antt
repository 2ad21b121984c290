-- ===== src/Collections/Filters.antt =====
-- The filters of src/utils/collections.ts, over the numbers of the platform; `lower` is
-- `toLowerCase`. An optional argument that is `undefined` is `none`. A date is its time value, which
-- is finite exactly where the date is valid.
use miguel_n_ai_trackflow_pr.Common.{
  Bool, List, Numbers, Option, Text, [], any, false, if◌then◌else◌, keep, max, min, none, not, some,
  text_eq, trim, true, ◌∷◌,
}

module _ (lower : Text → Text) where
  unfoldable pub normalize_text : Text → Text
  normalize_text value = lower (trim value)

  unfoldable pub matches_location_value : Text → Text → Bool
  matches_location_value target source = text_eq (normalize_text target) (normalize_text source)

-- What `getLocation` gives: nothing, one place, or several.
pub data Place : Type 0 where
  nowhere : Place
  one : Text → Place
  several : List Text → Place

abbrev pub to_location_list : Place → List Text
to_location_list nowhere = []
to_location_list (one value) = value ∷ []
to_location_list (several values) = values

module _ {N : Type 0} (n : Numbers N) where
  open n use {is_finite, lt}

  unfoldable pub normalize_range : Option N → Option N → Option N × Option N
  normalize_range (some min) (some max) =
      if lt max min then (some max, some min) else (some min, some max)
  normalize_range min max = (min, max)

  -- `min !== undefined && value < min`, and its mirror
  abbrev pub under : N → Option N → Bool
  under value none = false
  under value (some min) = lt value min

  abbrev pub over : N → Option N → Bool
  over value none = false
  over value (some max) = lt max value

  unfoldable pub is_number_in_range : N → Option N → Option N → Bool
  is_number_in_range value min max =
      if not (is_finite value)
      then false
      else if under value min
      then false
      else if over value max
      then false
      else true

  -- `fromDate && isValidDate(fromDate) ? fromDate.getTime() : undefined`
  abbrev pub valid_time : Option N → Option N
  valid_time none = none
  valid_time (some time) = if is_finite time then some time else none

  -- The predicate of `filterByPriceRange`: an item without a price is left out.
  abbrev pub priced_within : (Option N × Option N) → Option N → Bool
  priced_within range none = false
  priced_within range (some value) = is_number_in_range value range.0 range.1

  -- The predicate of `filterByDateRange`.
  abbrev pub dated_within : (Option N × Option N) → Option N → Bool
  dated_within range none = false
  dated_within range (some time) =
      if not (is_finite time) then false else is_number_in_range time range.0 range.1

-- `getCategory(item) === category`, where the item may have none
abbrev pub holds {ℓ} : {C : Type ℓ} → (C → C → Bool) → Option C → C → Bool
holds same none c = false
holds same (some d) c = same d c

module _ {T C : Type 0} (same : C → C → Bool) where
  unfoldable pub filter_by_category : List T → C → (T → Option C) → List T
  filter_by_category items category get_category =
      keep (λ item. holds same (get_category item) category) items

  unfoldable pub filter_by_status : List T → C → (T → Option C) → List T
  filter_by_status items status get_status =
      keep (λ item. holds same (get_status item) status) items

module _ {T N : Type 0} (n : Numbers N) where
  unfoldable pub filter_by_price_range : List T → (T → Option N) → Option N → Option N → List T
  filter_by_price_range items get_price none none = items
  filter_by_price_range items get_price min_price max_price =
      keep (λ item. priced_within n (normalize_range n min_price max_price) (get_price item)) items

  unfoldable pub filter_by_date_range : List T → (T → Option N) → Option N → Option N → List T
  filter_by_date_range items get_date none none = items
  filter_by_date_range items get_date from_date to_date =
      keep
        (λ item.
          dated_within n (normalize_range n (valid_time n from_date) (valid_time n to_date))
            (get_date item))
        items

unfoldable pub filter_by_location :
    {T : Type 0} → (Text → Text) → List T → Text → (T → Place) → List T
filter_by_location lower items location get_location =
    keep
      (λ item. any (matches_location_value lower location) (to_location_list (get_location item)))
      items
