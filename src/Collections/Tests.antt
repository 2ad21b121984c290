-- ===== src/Collections/Tests.antt =====
-- Runs of src/utils/collections.ts, and the theorems at them.
use miguel_n_ai_trackflow_pr.Common.{
  Text, [], codes, keep, none, refl, some, text_eq, trim, whole_numbers, ℕ, ◌∷◌, ◌≡◌,
}
use miguel_n_ai_trackflow_pr.Models.{Carrier}
use miguel_n_ai_trackflow_pr.Collections.Filters.{
  filter_by_category, filter_by_location, filter_by_price_range, is_number_in_range,
  matches_location_value, normalize_range, normalize_text, several,
}
use miguel_n_ai_trackflow_pr.Collections.Search.{
  SearchAccessors, SearchCriteria, by_category, by_date, by_location, by_price, by_status,
  search_by_criteria, search_carriers,
}
use miguel_n_ai_trackflow_pr.Collections.Criteria.{meets, search_by_criteria-keep}

abbrev iberia : Carrier
iberia = record {
  name = codes "Iberia";
  carrier_id = codes "c1";
  location = codes "Spain" ∷ [];
  service = codes "local";
}

abbrev azteca : Carrier
azteca = record {
  name = codes "Azteca";
  carrier_id = codes "c2";
  location = codes "Mexico" ∷ codes "Spain" ∷ [];
  service = codes "international";
}

abbrev local_in_spain : SearchCriteria ℕ Text Text
local_in_spain = record {
  category = some (codes "local");
  min_price = none;
  max_price = none;
  status = none;
  from_date = none;
  to_date = none;
  location = some (codes " Spain");
}

carriers_run :
    search_carriers (λ t. t) whole_numbers (azteca ∷ iberia ∷ []) local_in_spain ≡ iberia ∷ []
unfolding search_carriers search_by_criteria by_category by_price by_status by_date by_location
    filter_by_category filter_by_location matches_location_value normalize_text text_eq trim
carriers_run = refl

abbrev carrier_accessors : SearchAccessors Carrier ℕ Text Text
carrier_accessors = record {
  get_category = some (λ c. some c.service);
  get_price = none;
  get_status = none;
  get_date = none;
  get_location = some (λ c. several c.location);
}

search_by_criteria-keep_example :
    search_by_criteria
      (λ t. t)
      whole_numbers
      text_eq
      text_eq
      (azteca ∷ iberia ∷ [])
      local_in_spain
      carrier_accessors
    ≡ keep
        (meets (λ t. t) whole_numbers text_eq text_eq local_in_spain carrier_accessors)
        (azteca ∷ iberia ∷ [])
search_by_criteria-keep_example =
    search_by_criteria-keep (λ t. t) whole_numbers text_eq text_eq (azteca ∷ iberia ∷ [])
      local_in_spain carrier_accessors

swapped_run :
    filter_by_price_range whole_numbers (3 ∷ 8 ∷ []) (λ p. some p) (some 9) (some 5) ≡ 8 ∷ []
unfolding filter_by_price_range normalize_range is_number_in_range
swapped_run = refl
