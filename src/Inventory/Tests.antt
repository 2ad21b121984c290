-- ===== src/Inventory/Tests.antt =====
-- Runs of the inventory screens' logic.
use miguel_n_ai_trackflow_pr.Common.{
  All, Json, codes, end, field, if◌then◌else◌, length, lookup, ltb, none, obj, proto, refl, str,
  text_eq, ℕ, ◌-◌, ◌≡◌,
}
use miguel_n_ai_trackflow_pr.Api.Checked.{request_failure}
use miguel_n_ai_trackflow_pr.Api.Fields.{first_about}
use miguel_n_ai_trackflow_pr.Api.Friendly.{api_error}
use miguel_n_ai_trackflow_pr.Inventory.Errors.{
  describe_inventory_error, describe_inventory_error_lem, inventory_problems, shown_problems,
}
use miguel_n_ai_trackflow_pr.Inventory.Stock.{
  IsWorsening, band, rank, stock_after, threshold_events, threshold_events_lem,
}

threshold_events_lem_example :
    (length (threshold_events 12 (stock_after 12 5))
      ≡ (if ltb (rank (band (12 - 5))) (rank (band 12)) then 1 else 0))
    × All (IsWorsening 12 (12 - 5)) (threshold_events 12 (stock_after 12 5))
threshold_events_lem_example = threshold_events_lem 12 5

-- A status outside what the API writes sentences for.
abbrev crash : Json ℕ
crash = obj (
    field (codes "detail")
      (obj (
        field (codes "field") (str (codes "quantity"))
          (field (codes "message") (str (codes "disk full")) end)))
      end)

describe_inventory_error_lem_example :
    lookup
      (describe_inventory_error (request_failure (api_error 500 crash))).field_errors
      (codes "quantity")
    ≡ (if text_eq (codes "quantity") proto
        then none
        else first_about (codes "quantity") (shown_problems (inventory_problems crash)))
describe_inventory_error_lem_example =
    describe_inventory_error_lem 500 crash (codes "quantity") refl
