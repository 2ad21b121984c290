-- ===== src/Reporting/Figures.antt =====
-- The figures of uis/backoffice/lib/reporting.ts. The counts that the checks let through are whole
-- numbers below 2 ^ 53, and so are the sums of a week's. `count_text` and `rate_text` are the
-- platform's formats.
use miguel_n_ai_trackflow_pr.Routes.Templates.{put_first}
use miguel_n_ai_trackflow_pr.Common.{
  Bool, List, Numbers, Text, [], codes, if◌then◌else◌, is_empty, join, keep, length, ltb, map, not,
  text_eq, ℕ, ◌++◌, ◌+◌, ◌==◌, ◌∷◌,
}

pub data KpiKey : Type 0 where
  inbound_units : KpiKey
  outbound_orders : KpiKey
  stockout_events : KpiKey
  rate_of_discrepancies : KpiKey

pub record Entry (N : Type 0) : Type 0 where
  pub warehouse : Text
  pub client_id : Text
  pub inbound_units_count : ℕ
  pub outbound_orders_count : ℕ
  pub stockout_events_count : ℕ
  pub discrepancy_events_count : ℕ
  pub discrepancy_rate : N

pub record WeekTotals (N : Type 0) : Type 0 where
  pub inbound_units_count : ℕ
  pub outbound_orders_count : ℕ
  pub stockout_events_count : ℕ
  pub discrepancy_events_count : ℕ
  pub discrepancy_rate : N

pub record Group (N : Type 0) : Type 0 where
  pub warehouse : Text
  pub entries : List (Entry N)

-- `text.split("-")`
unfoldable pub parts : Text → List Text
parts [] = [] ∷ []
parts (c ∷ s) = let rest = parts s in if c == 45 then [] ∷ rest else put_first c rest

-- `upper` is `toUpperCase` of a text of one code unit.
abbrev pub capitalise : (ℕ → Text) → Text → Text
capitalise upper [] = []
capitalise upper (c ∷ s) = upper c ++ s

unfoldable pub client_name : (ℕ → Text) → Text → Text
client_name upper client_id =
    join (codes " ") (map (capitalise upper) (keep (λ w. not (is_empty w)) (parts client_id)))

abbrev pub warehouses : List Text
warehouses = codes "Monterrey" ∷ codes "Zaragoza" ∷ []

module _ {N : Type 0} where
  -- `entries.reduce((total, entry) => total + key(entry), start)`
  unfoldable pub sum_from : (Entry N → ℕ) → ℕ → List (Entry N) → ℕ
  sum_from key start [] = start
  sum_from key start (e ∷ entries) = sum_from key (start + key e) entries

  abbrev pub entries_of : Text → List (Entry N) → List (Entry N)
  entries_of warehouse entries = keep (λ e. text_eq e.warehouse warehouse) entries

  abbrev pub group_of : List (Entry N) → Text → Group N
  group_of entries warehouse = record {
    warehouse = warehouse;
    entries = entries_of warehouse entries;
  }

  unfoldable pub by_warehouse : List (Entry N) → List (Group N)
  by_warehouse entries = keep (λ g. ltb 0 (length g.entries)) (map (group_of entries) warehouses)

  module _ (n : Numbers N) where
    unfoldable pub week_totals : List (Entry N) → WeekTotals N
    week_totals entries =
        let orders = sum_from (λ e. e.outbound_orders_count) 0 entries in
        let discrepancies = sum_from (λ e. e.discrepancy_events_count) 0 entries in
        record {
          inbound_units_count = sum_from (λ e. e.inbound_units_count) 0 entries;
          outbound_orders_count = orders;
          stockout_events_count = sum_from (λ e. e.stockout_events_count) 0 entries;
          discrepancy_events_count = discrepancies;
          discrepancy_rate =
              if ltb 0 orders then n.div (n.of_ℕ discrepancies) (n.of_ℕ orders) else n.of_ℕ 0;
        }

    unfoldable pub kpi_is_empty : KpiKey → WeekTotals N → Bool
    kpi_is_empty rate_of_discrepancies totals = totals.discrepancy_events_count == 0
    kpi_is_empty inbound_units totals = totals.inbound_units_count == 0
    kpi_is_empty outbound_orders totals = totals.outbound_orders_count == 0
    kpi_is_empty stockout_events totals = totals.stockout_events_count == 0

    module _ (count_text : ℕ → Text) (rate_text : N → Text) where
      unfoldable pub format_kpi_total : KpiKey → WeekTotals N → Text
      format_kpi_total inbound_units totals =
          count_text totals.inbound_units_count
          ++ codes " "
          ++ (if totals.inbound_units_count == 1 then codes "unit" else codes "units")
          ++ codes " received"
      format_kpi_total outbound_orders totals =
          count_text totals.outbound_orders_count
          ++ codes " "
          ++ (if totals.outbound_orders_count == 1 then codes "order" else codes "orders")
          ++ codes " dispatched"
      format_kpi_total stockout_events totals =
          count_text totals.stockout_events_count
          ++ codes " "
          ++ (if totals.stockout_events_count == 1 then codes "time" else codes "times")
          ++ codes " below minimum stock"
      format_kpi_total rate_of_discrepancies totals =
          rate_text totals.discrepancy_rate ++ codes " of orders"

      unfoldable pub format_kpi_value : KpiKey → Entry N → Text
      format_kpi_value inbound_units e = count_text e.inbound_units_count
      format_kpi_value outbound_orders e = count_text e.outbound_orders_count
      format_kpi_value stockout_events e = count_text e.stockout_events_count
      format_kpi_value rate_of_discrepancies e =
          let orders = e.outbound_orders_count in
          if orders == 0
          then rate_text e.discrepancy_rate ++ codes " (no orders dispatched)"
          else rate_text e.discrepancy_rate
            ++ codes " ("
            ++ count_text e.discrepancy_events_count
            ++ codes " of "
            ++ count_text orders
            ++ codes " "
            ++ (if orders == 1 then codes "order" else codes "orders")
            ++ codes ")"
