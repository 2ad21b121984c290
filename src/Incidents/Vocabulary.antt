-- ===== src/Incidents/Vocabulary.antt =====
-- The value lists of uis/backoffice/types/incident.ts, and the labels and guards of
-- uis/backoffice/lib/incident.ts. A value of a union of string literals is the text that it is at
-- run time.
use miguel_n_ai_trackflow_pr.Common.{
  Bool, List, Option, Text, [], codes, includes, is_some, is_some-lookup, lookup, ℕ, ◌∷◌, ◌≡◌,
}

abbrev pub incident_statuses : List Text
incident_statuses = codes "open" ∷ codes "in_progress" ∷ codes "resolved" ∷ codes "discarded" ∷ []

abbrev pub incident_origins : List Text
incident_origins = codes "customer" ∷ codes "branch" ∷ codes "internal" ∷ []

abbrev pub incident_branches : List Text
incident_branches =
    codes "central"
    ∷ codes "la_warehouse"
    ∷ codes "la_office"
    ∷ codes "zaragoza_warehouse"
    ∷ codes "zaragoza_office"
    ∷ []

abbrev pub incident_categories : List Text
incident_categories =
    codes "lost_parcel"
    ∷ codes "delivery_failure"
    ∷ codes "inventory_discrepancy"
    ∷ codes "carrier_issue"
    ∷ codes "returns_issue"
    ∷ codes "warehouse_incident"
    ∷ codes "system_failure"
    ∷ codes "client_complaint"
    ∷ codes "other"
    ∷ []

abbrev pub title_max_length : ℕ
title_max_length = 120

abbrev pub description_max_length : ℕ
description_max_length = 4000

unfoldable pub is_incident_status : Text → Bool
is_incident_status value = includes incident_statuses value

unfoldable pub is_incident_origin : Text → Bool
is_incident_origin value = includes incident_origins value

unfoldable pub is_incident_branch : Text → Bool
is_incident_branch value = includes incident_branches value

unfoldable pub is_incident_category : Text → Bool
is_incident_category value = includes incident_categories value

abbrev pub branch_labels : List (Text × Text)
branch_labels =
    (codes "central", codes "Central")
    ∷ (codes "la_warehouse", codes "Los Angeles — Warehouse")
    ∷ (codes "la_office", codes "Los Angeles — Office")
    ∷ (codes "zaragoza_warehouse", codes "Zaragoza — Warehouse")
    ∷ (codes "zaragoza_office", codes "Zaragoza — Office")
    ∷ []

abbrev pub status_labels : List (Text × Text)
status_labels =
    (codes "open", codes "Open")
    ∷ (codes "in_progress", codes "In progress")
    ∷ (codes "resolved", codes "Resolved")
    ∷ (codes "discarded", codes "Discarded")
    ∷ []

abbrev pub origin_labels : List (Text × Text)
origin_labels =
    (codes "customer", codes "Customer")
    ∷ (codes "branch", codes "Branch")
    ∷ (codes "internal", codes "Internal")
    ∷ []

abbrev pub category_labels : List (Text × Text)
category_labels =
    (codes "lost_parcel", codes "Lost parcel")
    ∷ (codes "delivery_failure", codes "Delivery failure")
    ∷ (codes "inventory_discrepancy", codes "Inventory discrepancy")
    ∷ (codes "carrier_issue", codes "Carrier issue")
    ∷ (codes "returns_issue", codes "Returns issue")
    ∷ (codes "warehouse_incident", codes "Warehouse incident")
    ∷ (codes "system_failure", codes "System failure")
    ∷ (codes "client_complaint", codes "Client complaint")
    ∷ (codes "other", codes "Other")
    ∷ []

abbrev pub origin_hints : List (Text × Text)
origin_hints =
    (codes "customer", codes "Reported by a client company or an end consumer.")
    ∷ (codes "branch", codes "Detected by warehouse or office staff at a TrackFlow facility.")
    ∷ (codes "internal", codes "Detected internally by technology, leadership or operations.")
    ∷ []

unfoldable pub format_status_label : Text → Option Text
format_status_label status = lookup status_labels status

unfoldable pub format_origin_label : Text → Option Text
format_origin_label origin = lookup origin_labels origin

unfoldable pub format_branch_label : Text → Option Text
format_branch_label branch = lookup branch_labels branch

unfoldable pub format_category_label : Text → Option Text
format_category_label category = lookup category_labels category

unfoldable pub describe_origin : Text → Option Text
describe_origin origin = lookup origin_hints origin

-- A status, an origin, a branch or a category has a label exactly when its guard accepts it, and
-- so has an origin its hint.
pub labels_complete :
    (t : Text)
    → (is_some (format_status_label t) ≡ is_incident_status t)
      × (is_some (format_origin_label t) ≡ is_incident_origin t)
      × (is_some (format_branch_label t) ≡ is_incident_branch t)
      × (is_some (format_category_label t) ≡ is_incident_category t)
      × (is_some (describe_origin t) ≡ is_incident_origin t)
unfolding format_status_label format_origin_label format_branch_label format_category_label
    describe_origin is_incident_status is_incident_origin is_incident_branch is_incident_category
labels_complete t = (
  is_some-lookup status_labels t,
  is_some-lookup origin_labels t,
  is_some-lookup branch_labels t,
  is_some-lookup category_labels t,
  is_some-lookup origin_hints t,
)
