-- ===== src/Inventory/Stock.antt =====
-- Stock levels of uis/backoffice/lib/inventory.ts and the events of a created order,
-- uis/backoffice/lib/inventory-telemetry.ts. Stocks and quantities are whole numbers, as the guards
-- and the form let no others through.
use miguel_n_ai_trackflow_pr.Common.{
  All, Bool, List, Option, Text, [], arith, codes, false, if_intro, if◌then◌else◌, leb, length, ltb,
  none, not, refl, some, sym, true, ℕ, ◌&&◌, ◌+◌, ◌-◌, ◌==◌, ◌∙◌, ◌∷◌, ◌≡◌,
}

pub data Band : Type 0 where
  out_of_stock : Band
  low : Band
  healthy : Band

unfoldable pub band : ℕ → Band
band stock = if stock == 0 then out_of_stock else if ltb stock 10 then low else healthy

unfoldable pub stock_level : ℕ → Text
stock_level stock =
    if stock == 0
    then codes "Out of stock"
    else if ltb stock 10
    then codes "Low stock"
    else codes "Healthy stock"

abbrev pub band_eq : Band → Band → Bool
band_eq out_of_stock out_of_stock = true
band_eq low low = true
band_eq healthy healthy = true
band_eq _ _ = false

pub data OrderDirection : Type 0 where
  inbound : OrderDirection
  outbound : OrderDirection

pub record Product : Type 0 where
  pub id : Text
  pub name : Text
  pub sku : Text
  pub warehouse : Text
  pub current_stock : ℕ

pub record Threshold : Type 0 where
  pub stock_level_after : ℕ
  pub threshold_band : Band
  pub threshold_max_units : ℕ
  pub previous_band : Band

-- The calls of `track`, without the product's id, code and warehouse, which all of them copy.
pub data OrderEvent : Type 0 where
  inbound_order_created : ℕ → ℕ → OrderEvent
  outbound_order_created : ℕ → ℕ → ℕ → Bool → OrderEvent
  stock_threshold_triggered : Threshold → OrderEvent

abbrev pub stock_after : ℕ → ℕ → ℕ
stock_after stock quantity = stock - quantity

unfoldable pub threshold_events : ℕ → ℕ → List OrderEvent
threshold_events stock_before after =
    let previous_band = band stock_before in
    let new_band = band after in
    if not (band_eq new_band healthy)
      && not (band_eq previous_band new_band)
      && not (band_eq previous_band out_of_stock)
    then stock_threshold_triggered (record {
      stock_level_after = after;
      threshold_band = new_band;
      threshold_max_units = if band_eq new_band out_of_stock then 0 else 9;
      previous_band = previous_band;
    })
      ∷ []
    else []

unfoldable pub track_order_created : OrderDirection → Product → ℕ → Option ℕ → List OrderEvent
track_order_created inbound product quantity stock_before =
    inbound_order_created quantity (product.current_stock + quantity) ∷ []
track_order_created outbound product quantity none = []
track_order_created outbound product quantity (some stock) =
    outbound_order_created quantity stock (stock_after stock quantity)
      (stock_after stock quantity == 0)
    ∷ threshold_events stock (stock_after stock quantity)

abbrev pub label : Band → Text
label out_of_stock = codes "Out of stock"
label low = codes "Low stock"
label healthy = codes "Healthy stock"

label-choice :
    (b c : Bool)
    → label (if b then out_of_stock else if c then low else healthy)
      ≡ (if b then codes "Out of stock" else if c then codes "Low stock" else codes "Healthy stock")
label-choice true c = refl
label-choice false true = refl
label-choice false false = refl

-- The bands are the levels that the screens show.
pub label-band : (stock : ℕ) → label (band stock) ≡ stock_level stock
unfolding band stock_level
label-band stock = label-choice (stock == 0) (ltb stock 10)

-- How well a band is stocked.
abbrev pub rank : Band → ℕ
rank out_of_stock = 0
rank low = 1
rank healthy = 2

-- The test of `track_order_created` is that the band got worse.
worse :
    (previous new : Band)
    → (not (band_eq new healthy)
        && not (band_eq previous new)
        && not (band_eq previous out_of_stock))
      ≡ ltb (rank new) (rank previous)
worse out_of_stock out_of_stock = refl
worse out_of_stock low = refl
worse out_of_stock healthy = refl
worse low out_of_stock = refl
worse low low = refl
worse low healthy = refl
worse healthy out_of_stock = refl
worse healthy low = refl
worse healthy healthy = refl

-- The most units of a band: exactly the stocks up to it are of that band or a worse one.
abbrev pub IsMost : ℕ → Band → Type 0
IsMost most b = (n : ℕ) → leb n most ≡ leb (rank (band n)) (rank b)

band-IsMost :
    (b : Band) → not (band_eq b healthy) ≡ true → IsMost (if band_eq b out_of_stock then 0 else 9) b
unfolding band
band-IsMost out_of_stock h n =
    if_intro (λ c. leb n 0 ≡ leb (rank c) 0) (n == 0) (λ e. ground arith)
      (λ e.
        if_intro (λ c. leb n 0 ≡ leb (rank c) 0) (ltb n 10) (λ l. ground arith) (λ l. ground arith))
band-IsMost low h n =
    if_intro (λ c. leb n 9 ≡ leb (rank c) 1) (n == 0) (λ e. ground arith)
      (λ e.
        if_intro (λ c. leb n 9 ≡ leb (rank c) 1) (ltb n 10) (λ l. ground arith) (λ l. ground arith))
band-IsMost healthy h n = cc

-- The event of an order that left `after` units of `stock`: it gives that stock, the bands before
-- and after, and the most units of the band after.
abbrev pub IsWorsening : ℕ → ℕ → OrderEvent → Type 0
IsWorsening stock after (stock_threshold_triggered t) =
    (t.stock_level_after ≡ after)
    × (t.previous_band ≡ band stock)
    × (t.threshold_band ≡ band after)
    × IsMost t.threshold_max_units (band after)
IsWorsening stock after _ = ⊥

-- The event of a threshold is sent, once, exactly when the order left the stock in a worse band than
-- it was in; it then gives the stock that the order left, the bands before and after, and a maximum
-- such that exactly the stocks up to it are in the band after or in a worse one.
pub threshold_events_lem :
    (stock quantity : ℕ)
    → let after = stock - quantity in
      (length (threshold_events stock (stock_after stock quantity))
        ≡ (if ltb (rank (band after)) (rank (band stock)) then 1 else 0))
      × All (IsWorsening stock after) (threshold_events stock (stock_after stock quantity))
unfolding threshold_events
threshold_events_lem stock quantity =
    let after = stock_after stock quantity in
    let test =
      not (band_eq (band after) healthy)
      && not (band_eq (band stock) (band after))
      && not (band_eq (band stock) out_of_stock) in
    let same = worse (band stock) (band after) in
    (
      if_intro
          (λ (es : List OrderEvent).
            length es ≡ (if ltb (rank (band after)) (rank (band stock)) then 1 else 0))
          test (λ e. rw (sym same ∙ e) refl) (λ e. rw (sym same ∙ e) refl),
      if_intro (All (IsWorsening stock after)) test
          (λ e. ((refl, refl, refl, band-IsMost (band after) (ground arith)), tt)) (λ e. tt),
    )
