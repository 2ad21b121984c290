-- ===== src/Reporting/Tests.antt =====
-- Runs of the weekly report.
use miguel_n_ai_trackflow_pr.Common.{
  List, Text, [], all, codes, includes, refl, text_eq, true, ℕ, ◌∷◌, ◌≡◌,
}
use miguel_n_ai_trackflow_pr.Reporting.Figures.{Entry, by_warehouse, sum_from, warehouses}
use miguel_n_ai_trackflow_pr.Reporting.Totals.{sum_of_groups, sum_of_groups-by_warehouse}

abbrev entry_in : Text → ℕ → Entry ℕ
entry_in warehouse units = record {
  warehouse = warehouse;
  client_id = codes "stride-athletics";
  inbound_units_count = units;
  outbound_orders_count = 2;
  stockout_events_count = 0;
  discrepancy_events_count = 1;
  discrepancy_rate = 0;
}

abbrev week : List (Entry ℕ)
week =
    entry_in (codes "Zaragoza") 5
    ∷ entry_in (codes "Monterrey") 8
    ∷ entry_in (codes "Zaragoza") 1
    ∷ []

week_known : all (λ e. includes warehouses e.warehouse) week ≡ true
unfolding includes text_eq
week_known = refl

sum_of_groups-by_warehouse_example :
    sum_of_groups (λ e. e.inbound_units_count) (by_warehouse week)
    ≡ sum_from (λ e. e.inbound_units_count) 0 week
sum_of_groups-by_warehouse_example =
    sum_of_groups-by_warehouse (λ e. e.inbound_units_count) week week_known
