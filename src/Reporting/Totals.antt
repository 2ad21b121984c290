-- ===== src/Reporting/Totals.antt =====
-- Grouping the entries loses none of their figures: weekTotals, byWarehouse and kpiIsEmpty of
-- uis/backoffice/lib/reporting.ts.
use miguel_n_ai_trackflow_pr.Common.{
  &&_iff, Bool-cases, List, Numbers, Text, [], all, ap, arith, codes, false, if◌then◌else◌,
  includes, includes-All, inl, inr, keep, length, ltb, map, refl, text_eq, true, ℕ, ◌+◌, ◌==◌, ◌∙◌,
  ◌∷◌, ◌≡◌, ◌⊎◌,
}
use miguel_n_ai_trackflow_pr.Reporting.Figures.{
  Entry, Group, KpiKey, by_warehouse, entries_of, group_of, inbound_units, kpi_is_empty,
  outbound_orders, rate_of_discrepancies, stockout_events, sum_from, warehouses, week_totals,
}

module _ {N : Type 0} (key : Entry N → ℕ) where
  -- The figures of the groups together.
  unfoldable pub sum_of_groups : List (Group N) → ℕ
  sum_of_groups [] = 0
  sum_of_groups (g ∷ groups) = sum_from key 0 g.entries + sum_of_groups groups

  sum_from_lem :
      (start : ℕ) (es : List (Entry N)) → sum_from key start es ≡ start + sum_from key 0 es
  unfolding sum_from
  sum_from_lem start [] = omega arith
  sum_from_lem start (e ∷ es) =
      omega (arith, sum_from_lem (start + key e) es, sum_from_lem (0 + key e) es)

  sum-cons :
      (e : Entry N) (es : List (Entry N)) → sum_from key 0 (e ∷ es) ≡ key e + sum_from key 0 es
  unfolding sum_from
  sum-cons e es = omega (arith, sum_from_lem (0 + key e) es)

  empty_sum : (es : List (Entry N)) → ltb 0 (length es) ≡ false → sum_from key 0 es ≡ 0
  unfolding sum_from
  empty_sum [] h = refl
  empty_sum (e ∷ es) h = absurd (ground arith)

  -- A group without entries adds nothing.
  sum-keep :
      (groups : List (Group N))
      → sum_of_groups (keep (λ g. ltb 0 (length g.entries)) groups) ≡ sum_of_groups groups
  unfolding sum_of_groups
  sum-keep [] = refl
  sum-keep (g ∷ groups) = elim (Bool-cases (ltb 0 (length g.entries))) [
    | inl some_entries ↦ rw some_entries (ap (λ k. sum_from key 0 g.entries + k) (sum-keep groups))
    | inr no_entries ↦
        rw no_entries (omega (arith, sum-keep groups, empty_sum g.entries no_entries))
  ]

  -- An entry of the wanted warehouse counts, another does not.
  sum-entries_of :
      (w : Text) (e : Entry N) (es : List (Entry N))
      → sum_from key 0 (entries_of w (e ∷ es))
        ≡ (if text_eq e.warehouse w then key e else 0) + sum_from key 0 (entries_of w es)
  sum-entries_of w e es = elim (Bool-cases (text_eq e.warehouse w)) [
    | inl same ↦ rw same (sum-cons e (entries_of w es))
    | inr other ↦ rw other (omega arith)
  ]

  counted_once :
      (w : Text) (k : ℕ)
      → (w ≡ codes "Monterrey") ⊎ (w ≡ codes "Zaragoza")
      → (if text_eq w (codes "Monterrey") then k else 0)
          + (if text_eq w (codes "Zaragoza") then k else 0)
        ≡ k
  unfolding text_eq
  counted_once w k (inl e) = rw e (omega arith)
  counted_once w k (inr e) = rw e (omega arith)

  is_one :
      (w : Text) → includes warehouses w ≡ true → (w ≡ codes "Monterrey") ⊎ (w ≡ codes "Zaragoza")
  is_one w h =
      includes-All (λ t. (t ≡ codes "Monterrey") ⊎ (t ≡ codes "Zaragoza")) warehouses w
        (inl refl, (inr refl, tt)) h

  sum-both :
      (es : List (Entry N))
      → all (λ e. includes warehouses e.warehouse) es ≡ true
      → sum_from key 0 (entries_of (codes "Monterrey") es)
          + sum_from key 0 (entries_of (codes "Zaragoza") es)
        ≡ sum_from key 0 es
  unfolding sum_from
  sum-both [] h = omega arith
  sum-both (e ∷ es) h =
      let (first, rest) =
        (&&_iff (includes warehouses e.warehouse) (all (λ x. includes warehouses x.warehouse) es)).0
          h in
      rw (sum-entries_of (codes "Monterrey") e es, sum-entries_of (codes "Zaragoza") e es)
        (omega (
          arith,
          counted_once e.warehouse (key e) (is_one e.warehouse first),
          sum-both es rest,
          sum-cons e es,
        ))

  -- If every entry is of one of the two warehouses, as the check of an answer asks, then the groups by
  -- warehouse together have the total of any figure of the entries: the grouping loses none and counts
  -- none twice.
  pub sum_of_groups-by_warehouse :
      (es : List (Entry N))
      → all (λ e. includes warehouses e.warehouse) es ≡ true
      → sum_of_groups (by_warehouse es) ≡ sum_from key 0 es
  unfolding by_warehouse sum_of_groups
  sum_of_groups-by_warehouse es h =
      sum-keep (map (group_of es) warehouses) ∙ omega (arith, sum-both es h)

  sum-zero : (es : List (Entry N)) → (sum_from key 0 es == 0) ≡ all (λ e. key e == 0) es
  unfolding sum_from
  sum-zero [] = refl
  sum-zero (e ∷ es) = ap (λ s. s == 0) (sum-cons e es) ∙ ground (arith, sum-zero es)

-- What an entry counts under a KPI.
abbrev pub kpi_count : {N : Type 0} → KpiKey → Entry N → ℕ
kpi_count inbound_units e = e.inbound_units_count
kpi_count outbound_orders e = e.outbound_orders_count
kpi_count stockout_events e = e.stockout_events_count
kpi_count rate_of_discrepancies e = e.discrepancy_events_count

-- A week has nothing to show for a KPI exactly when none of its entries counts anything under it.
pub kpi_is_empty-week_totals :
    {N : Type 0} (n : Numbers N) (kpi : KpiKey) (es : List (Entry N))
    → kpi_is_empty n kpi (week_totals n es) ≡ all (λ e. kpi_count kpi e == 0) es
unfolding kpi_is_empty week_totals
kpi_is_empty-week_totals n inbound_units es = sum-zero (λ e. e.inbound_units_count) es
kpi_is_empty-week_totals n outbound_orders es = sum-zero (λ e. e.outbound_orders_count) es
kpi_is_empty-week_totals n stockout_events es = sum-zero (λ e. e.stockout_events_count) es
kpi_is_empty-week_totals n rate_of_discrepancies es = sum-zero (λ e. e.discrepancy_events_count) es
