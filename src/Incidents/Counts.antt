-- ===== src/Incidents/Counts.antt =====
-- The counts of the summary panel: readCounts of uis/backoffice/lib/incident.ts.
use miguel_n_ai_trackflow_pr.Common.{
  Bool, Json, List, Numbers, Option, Text, [], ap, assign, false, if◌then◌else◌, includes, lookup,
  lookup-assign, none, refl, some, text_eq, text_eq_sound, true, ◌||◌, ◌∙◌, ◌∷◌, ◌≡◌,
}
use miguel_n_ai_trackflow_pr.Incidents.Payloads.{
  number_of, read_counts, read_counts_from, source_of,
}

merge_ifs {ℓ} :
    {A : Type ℓ} (a b : Bool) {x y : A} (z : A)
    → (a ≡ true → y ≡ x)
    → (if b then x else (if a then y else z)) ≡ (if a || b then x else z)
merge_ifs true true z h = refl
merge_ifs true false z h = h refl
merge_ifs false b z h = refl

module _ {N : Type 0} (n : Numbers N) where
  lookup-read_counts_from :
      (value : Option (Json N)) (counts : List (Text × N)) (keys : List Text) (k : Text)
      → lookup (read_counts_from n value counts keys) k
        ≡ (if includes keys k then some (number_of n (source_of n value k)) else lookup counts k)
  unfolding read_counts_from includes
  lookup-read_counts_from value counts [] k = refl
  lookup-read_counts_from value counts (key ∷ keys) k =
      lookup-read_counts_from value (assign key (number_of n (source_of n value key)) counts) keys k
      ∙ ap (λ o. if includes keys k then some (number_of n (source_of n value k)) else o)
          (lookup-assign key k (number_of n (source_of n value key)) counts)
      ∙ merge_ifs (text_eq key k) (includes keys k) (lookup counts k)
          (λ same. ap (λ i. some (number_of n (source_of n value i))) (text_eq_sound key k same))

  -- The counts that are read have exactly the wanted keys, whatever the API sent: under each, the
  -- finite number that the API sent there, and 0 if it sent none.
  pub lookup-read_counts :
      (value : Option (Json N)) (keys : List Text) (k : Text)
      → lookup (read_counts n value keys) k
        ≡ (if includes keys k then some (number_of n (source_of n value k)) else none)
  unfolding read_counts lookup
  lookup-read_counts value keys k = lookup-read_counts_from value [] keys k
