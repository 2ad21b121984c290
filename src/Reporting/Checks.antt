-- ===== src/Reporting/Checks.antt =====
-- The response checks of uis/backoffice/lib/reporting.ts. `is_day` is whether `Date.parse` reads a text,
-- and `is_safe_count` is `Number.isSafeInteger(a) && a >= 0`.
use miguel_n_ai_trackflow_pr.Common.{
  Bool, Json, Numbers, Option, Text, [], all, arr, bool, codes, elems, false, is_empty, not, null,
  prop, some, str, suc, true, zero, ℕ, ◌&&◌, ◌==◌, ◌||◌, ◌∷◌,
}
use miguel_n_ai_trackflow_pr.Inventory.Guards.{
  is_number_that, is_record, is_text, is_warehouse, nonempty,
}
use miguel_n_ai_trackflow_pr.Routes.Templates.{is_digit}

-- `\\d` as many times as the first says, and what follows.
unfoldable pub after_digits : ℕ → (Text → Bool) → Text → Bool
after_digits zero rest s = rest s
after_digits (suc k) rest [] = false
after_digits (suc k) rest (c ∷ s) = is_digit c && after_digits k rest s

abbrev pub after_hyphen : (Text → Bool) → Text → Bool
after_hyphen rest [] = false
after_hyphen rest (c ∷ s) = c == 45 && rest s

-- ISO_DATE
unfoldable pub is_iso_date : Text → Bool
is_iso_date s =
    after_digits 4 (after_hyphen (after_digits 2 (after_hyphen (after_digits 2 is_empty)))) s

module _ {N : Type 0} (n : Numbers N) (is_day : Text → Bool) (is_safe_count : N → Bool) where
  abbrev pub is_date : Option (Json N) → Bool
  is_date (some (str t)) = is_iso_date t && is_day t
  is_date _ = false

  abbrev pub is_count : Option (Json N) → Bool
  is_count v = is_number_that is_safe_count v

  -- Finite and not below 0.
  abbrev pub is_rate : Option (Json N) → Bool
  is_rate v = is_number_that (λ a. n.is_finite a && not (n.lt a (n.of_ℕ 0))) v

  unfoldable pub is_entry : Json N → Bool
  is_entry v =
      is_record v
      && is_warehouse (prop v (codes "warehouse"))
      && nonempty (prop v (codes "client_id"))
      && is_count (prop v (codes "inbound_units_count"))
      && is_count (prop v (codes "outbound_orders_count"))
      && is_count (prop v (codes "stockout_events_count"))
      && is_count (prop v (codes "discrepancy_events_count"))
      && is_rate (prop v (codes "discrepancy_rate"))

  abbrev pub is_entry_list : Option (Json N) → Bool
  is_entry_list (some (arr vs)) = all is_entry (elems vs)
  is_entry_list _ = false

  unfoldable pub is_weekly_performance : Json N → Bool
  is_weekly_performance v =
      is_record v
      && is_date (prop v (codes "week_start"))
      && is_entry_list (prop v (codes "entries"))

  abbrev pub is_null : Option (Json N) → Bool
  is_null (some null) = true
  is_null _ = false

  abbrev pub is_string : Option (Json N) → Bool
  is_string (some (str t)) = true
  is_string _ = false

  abbrev pub is_boolean : Option (Json N) → Bool
  is_boolean (some (bool b)) = true
  is_boolean _ = false

  unfoldable pub is_pipeline_run_status : Json N → Bool
  is_pipeline_run_status v =
      let status = prop v (codes "status") in
      let quality = prop v (codes "quality_status") in
      let finished_at = prop v (codes "finished_at") in
      is_record v
      && (is_text (codes "running") status
          || is_text (codes "completed") status
          || is_text (codes "failed") status
          || is_text (codes "skipped") status)
      && (is_null finished_at || is_string finished_at)
      && is_date (prop v (codes "weeks_from"))
      && is_date (prop v (codes "weeks_to"))
      && is_date (prop v (codes "last_closed_week"))
      && is_boolean (prop v (codes "stale"))
      && (is_null quality || is_text (codes "ok") quality || is_text (codes "degraded") quality)
