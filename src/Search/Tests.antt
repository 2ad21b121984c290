-- ===== src/Search/Tests.antt =====
-- Runs of the searches of src/utils/search.ts, and the theorems at them.
use miguel_n_ai_trackflow_pr.Models.{Worker}
use miguel_n_ai_trackflow_pr.Common.{
  List, [], arith, codes, get_elem?, if◌then◌else◌, leb, ltb, negsuc, pos, refl, some, subst, suc,
  text_eq, trim, zero, ℕ, ℤ, ◌+◌, ◌-◌, ◌<◌, ◌∷◌, ◌≡◌,
}
use miguel_n_ai_trackflow_pr.Search.Linear.{
  find_worker_by_id, has_id, linear_search, linear_search_index, normalize_id,
}
use miguel_n_ai_trackflow_pr.Search.Binary.{
  IsAnswer, IsSorted, binary_search, binary_search_by, binary_search_by-IsAnswer, left, right, turn,
}

abbrev sample : List ℕ
sample = 2 ∷ 5 ∷ 9 ∷ []

linear_runs :
    (linear_search (λ n. ltb 3 n) sample ≡ some 5)
    × (linear_search_index (λ n. ltb 9 n) sample ≡ negsuc 0)
unfolding linear_search linear_search_index
linear_runs = (refl, refl)

-- `left - right`, as a comparator.
abbrev minus : ℕ → ℕ → ℤ
minus a b = if leb b a then pos (a - b) else negsuc (b - a - 1)

binary_runs :
    (binary_search sample 9 minus ≡ some (pos 2))
    × (binary_search sample 4 minus ≡ some (negsuc 0))
    × (binary_search_by sample 5 (λ n. n + 3) minus ≡ some (pos 0))
unfolding binary_search binary_search_by
binary_runs = (refl, refl, refl)

abbrev two : List ℕ
two = 2 ∷ 9 ∷ []

two-above :
    (i j : ℕ) (x y : ℕ)
    → i < j
    → get_elem? two i ≡ some x
    → get_elem? two j ≡ some y
    → turn (minus x 4) ≡ left
    → turn (minus y 4) ≡ left
two-above zero (suc zero) x y h p q e =
    let same : 9 ≡ y = ground arith in subst (λ n. turn (minus n 4) ≡ left) same refl
two-above (suc zero) (suc zero) x y h p q e = absurd (omega arith)
two-above zero zero x y h p q e = absurd (omega arith)
two-above (suc zero) zero x y h p q e = absurd (omega arith)
two-above (suc (suc i)) j x y h p q e = cc
two-above i (suc (suc j)) x y h p q e = cc

two-below :
    (i j : ℕ) (x y : ℕ)
    → i < j
    → get_elem? two i ≡ some x
    → get_elem? two j ≡ some y
    → turn (minus y 4) ≡ right
    → turn (minus x 4) ≡ right
two-below zero (suc zero) x y h p q e =
    let same : 2 ≡ x = ground arith in subst (λ n. turn (minus n 4) ≡ right) same refl
two-below (suc zero) (suc zero) x y h p q e = absurd (omega arith)
two-below zero zero x y h p q e = absurd (omega arith)
two-below (suc zero) zero x y h p q e = absurd (omega arith)
two-below (suc (suc i)) j x y h p q e = cc
two-below i (suc (suc j)) x y h p q e = cc

two-IsSorted : IsSorted (λ x. minus x 4) two
two-IsSorted = record { above = two-above; below = two-below }

binary_search_by-IsAnswer_example :
    IsAnswer (λ x. minus x 4) two (binary_search_by two 4 (λ n. n) minus)
binary_search_by-IsAnswer_example = binary_search_by-IsAnswer two 4 (λ n. n) minus two-IsSorted

abbrev worker : Worker
worker = record {
  name = codes "Ana";
  worker_id = codes "w1";
  location = codes "Spain";
  department_id = codes "d1";
  position = codes "picker";
}

worker_found : find_worker_by_id (λ t. t) (worker ∷ []) (codes " w1 ") ≡ some worker
unfolding find_worker_by_id has_id normalize_id text_eq linear_search trim
worker_found = refl
