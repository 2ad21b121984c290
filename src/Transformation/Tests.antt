-- ===== src/Transformation/Tests.antt =====
-- Runs of src/utils/transformation.ts, and the theorems at them.
use miguel_n_ai_trackflow_pr.Common.{
  List, Numbers, Text, [], codes, is_inherited, ltb, refl, some, text_eq, whole_numbers,
  whole_numbers-OrderLaws, ℕ, ◌∷◌, ◌≡◌, ◌≢◌,
}
use miguel_n_ai_trackflow_pr.Transformation.Reports.{
  IsBest, build_numeric_report, build_numeric_report-IsBest, calculate_average, calculate_total,
  find_maximum, find_minimum, get_valid_numbers, max_from, min_from,
}
use miguel_n_ai_trackflow_pr.Transformation.Counts.{
  count_at, count_by_category, count_by_category_inherited, garbled, number, put,
}

abbrev weights : List ℕ
weights = 4 ∷ 9 ∷ 2 ∷ []

report_runs :
    build_numeric_report whole_numbers weights (λ n. n)
    ≡ record { total = 15; average = some 5; maximum = some 9; minimum = some 2 }
unfolding build_numeric_report calculate_total calculate_average find_maximum find_minimum
    get_valid_numbers max_from min_from
report_runs = refl

build_numeric_report-IsBest_example :
    IsBest whole_numbers.lt
      (get_valid_numbers whole_numbers weights (λ n. n))
      (build_numeric_report whole_numbers weights (λ n. n)).maximum
    × IsBest
        (λ x y. whole_numbers.lt y x)
        (get_valid_numbers whole_numbers weights (λ n. n))
        (build_numeric_report whole_numbers weights (λ n. n)).minimum
build_numeric_report-IsBest_example =
    build_numeric_report-IsBest whole_numbers weights (λ n. n) whole_numbers-OrderLaws

-- Numbers of which only those below 100 are finite.
abbrev capped : Numbers ℕ
capped = record whole_numbers { is_finite = λ n. ltb n 100 }

abbrev words : List Text
words = codes "local" ∷ codes "toString" ∷ codes "local" ∷ []

count_runs :
    count_by_category words (λ w. w) ≡ (codes "local", number 2) ∷ (codes "toString", garbled) ∷ []
unfolding count_by_category count_at put is_inherited text_eq
count_runs = refl

count_by_category_inherited_example :
    count_at (codes "toString") (count_by_category words (λ w. w)) ≢ some (number 1)
unfolding is_inherited text_eq
count_by_category_inherited_example =
    count_by_category_inherited words (λ w. w) (codes "toString") 1 refl
