-- ===== src/Search/Binary.antt =====
-- `binarySearch` and `binarySearchBy` of src/utils/search.ts. The two loops are the same but for the
-- comparator's first argument, so they are one function of how an element compares with the target.
-- The comparator's result is a whole number; `defaultCompare` is left out.
use miguel_n_ai_trackflow_pr.Common.{
  List, Option, arith, before, dec_lt, get_elem?, get_elem?-lt, get_elem?-some, if_intro,
  if◌then◌else◌, inl, inr, leb, leb_iff, length, negsuc, none, pos, refl, some, suc, zero, ℕ,
  ℕ_discrete, ℤ, ◌+◌, ◌/◌, ◌<◌, ◌≡◌, ◌≢◌, ◌≤◌, ◌⊎◌,
}

-- What the sign of a comparison asks for: the element is it, or the target lies left or right.
pub data Turn : Type 0 where
  found : Turn
  left : Turn
  right : Turn

abbrev pub turn : ℤ → Turn
turn (pos zero) = found
turn (pos (suc n)) = left
turn (negsuc n) = right

-- `sortedItems[index]`, and the three returns and assignments of the loop's body.
abbrev with_element {ℓ} : {A : Type ℓ} → Option A → (A → Option ℤ) → Option ℤ
with_element none f = none
with_element (some x) f = f x

abbrev pick : Turn → Option ℤ → Option ℤ → Option ℤ → Option ℤ
pick found here lower upper = here
pick left here lower upper = lower
pick right here lower upper = upper

module _ {ℓ} {A : Type ℓ} (comparison : A → ℤ) (xs : List A) where
  -- The loop `while (low <= high)`. `none` stands for a read beyond the array or for a loop that
  -- does not end within the fuel.
  unfoldable pub search_loop : ℕ → ℕ → ℤ → Option ℤ
  search_loop zero low high = none
  search_loop (suc fuel) low (negsuc n) = some (negsuc 0)
  search_loop (suc fuel) low (pos high) =
      let mid = (low + high) / 2 in
      let upper = search_loop fuel (mid + 1) (pos high) in
      let lower = search_loop fuel low (before mid) in
      let probe =
        with_element (get_elem? xs mid)
          (λ x. pick (turn (comparison x)) (some (pos mid)) lower upper) in
      if leb low high then probe else some (negsuc 0)

  unfoldable pub search_range : Option ℤ
  unfolding search_loop
  search_range = search_loop (suc (length xs)) 0 (before (length xs))

-- `comparator(sortedItems[mid], target)`
unfoldable pub binary_search {ℓ} : {A : Type ℓ} → List A → A → (A → A → ℤ) → Option ℤ
unfolding search_range
binary_search xs target compare = search_range (λ x. compare x target) xs

-- `comparator(selector(sortedItems[mid]), target)`
unfoldable pub binary_search_by {ℓ κ} :
    {A : Type ℓ} {K : Type κ} → List A → K → (A → K) → (K → K → ℤ) → Option ℤ
unfolding search_range
binary_search_by xs target selector compare = search_range (λ x. compare (selector x) target) xs

module _ {ℓ} {A : Type ℓ} (comparison : A → ℤ) (xs : List A) where
  abbrev pub TurnsTo : Turn → ℕ → Type ℓ
  TurnsTo t i = (x : A) → get_elem? xs i ≡ some x → turn (comparison x) ≡ t

  -- Sorted as far as the target can tell: whatever lies right of an element above the target is
  -- above it, and whatever lies left of one below the target is below it.
  pub record IsSorted : Type ℓ where
    pub above :
        (i j : ℕ) (x y : A)
        → i < j
        → get_elem? xs i ≡ some x
        → get_elem? xs j ≡ some y
        → turn (comparison x) ≡ left
        → turn (comparison y) ≡ left
    pub below :
        (i j : ℕ) (x y : A)
        → i < j
        → get_elem? xs i ≡ some x
        → get_elem? xs j ≡ some y
        → turn (comparison y) ≡ right
        → turn (comparison x) ≡ right

  -- An index of an element that is the target; or -1, and no element is.
  abbrev pub IsAnswer : Option ℤ → Type ℓ
  IsAnswer r =
      ((i : ℕ) × (x : A) × (r ≡ some (pos i))
        × (get_elem? xs i ≡ some x)
        × (turn (comparison x) ≡ found))
      ⊎ ((r ≡ some (negsuc 0))
          × ((i : ℕ) (x : A) → get_elem? xs i ≡ some x → turn (comparison x) ≢ found))

  -- Nothing is left between the bounds.
  exhausted :
      (low hi : ℕ)
      → hi ≤ low
      → ((i : ℕ) → i < low → TurnsTo right i)
      → ((i : ℕ) → hi ≤ i → TurnsTo left i)
      → (i : ℕ) (x : A) → get_elem? xs i ≡ some x
      → turn (comparison x) ≢ found
  exhausted low hi h below above i x e f = elim (dec_lt i low) [
    | yes p ↦ cc (below i p x e)
    | no p ↦ cc (above i (omega arith) x e)
  ]

  pick_intro :
      (t : Turn) {a b c : Option ℤ}
      → (t ≡ found → IsAnswer a)
      → (t ≡ left → IsAnswer b)
      → (t ≡ right → IsAnswer c)
      → IsAnswer (pick t a b c)
  pick_intro found f g h = f refl
  pick_intro left f g h = g refl
  pick_intro right f g h = h refl

  module _ (s : IsSorted) (mid : ℕ) (x : A) (at : get_elem? xs mid ≡ some x) where
    -- What one comparison tells of all elements on one side of it.
    lower_half : turn (comparison x) ≡ left → (i : ℕ) → mid ≤ i → TurnsTo left i
    lower_half t i h y e = elim (ℕ_discrete mid i) [
      | yes same ↦ cc
      | no other ↦ s.above mid i x y (omega arith) at e t
    ]

    upper_half : turn (comparison x) ≡ right → (i : ℕ) → i < mid + 1 → TurnsTo right i
    upper_half t i h y e = elim (ℕ_discrete mid i) [
      | yes same ↦ cc
      | no other ↦ s.below i mid y x (omega arith) e at t
    ]

  search_loop-IsAnswer :
      (fuel low hi : ℕ)
      → IsSorted
      → low ≤ hi
      → hi < low + fuel
      → hi ≤ length xs
      → ((i : ℕ) → i < low → TurnsTo right i)
      → ((i : ℕ) → hi ≤ i → TurnsTo left i)
      → IsAnswer (search_loop comparison xs fuel low (before hi))
  unfolding search_loop
  search_loop-IsAnswer zero low hi s o f b below above = absurd (omega arith)
  search_loop-IsAnswer (suc fuel) low zero s o f b below above =
      inr (refl, exhausted low 0 (omega arith) below above)
  search_loop-IsAnswer (suc fuel) low (suc high) s o f b below above =
      if_intro IsAnswer (leb low high)
        (λ more.
          let le : low ≤ high = (leb_iff low high).0 more in
          let mid = (low + high) / 2 in
          let (x, at) = get_elem?-some xs mid (omega arith) in
          rw at (
            pick_intro (turn (comparison x)) (λ hit. inl (mid, x, refl, at, hit))
              (λ t.
                search_loop-IsAnswer fuel low mid s (omega arith) (omega arith) (omega arith) below
                  (lower_half s mid x at t))
              (λ t.
                search_loop-IsAnswer fuel (mid + 1) (suc high) s (omega arith) (omega arith) b
                  (upper_half s mid x at t) above)))
        (λ over. inr (refl, exhausted low (suc high) (ground arith) below above))

  search_range-IsAnswer : IsSorted → IsAnswer (search_range comparison xs)
  unfolding search_range
  search_range-IsAnswer s =
      search_loop-IsAnswer (suc (length xs)) 0 (length xs) s (omega arith) (omega arith)
        (omega arith) (λ i h. absurd (omega arith))
        (λ i h x e. absurd (omega (arith, get_elem?-lt xs i e)))

-- On a list that is sorted as far as the target can tell, `binarySearchBy` ends within its fuel and
-- reads inside the list; it returns an index at which the selected key compares as equal to the
-- target, or -1 where no element's key does.
pub binary_search_by-IsAnswer {ℓ κ} :
    {A : Type ℓ} {K : Type κ} (xs : List A) (target : K) (selector : A → K) (compare : K → K → ℤ)
    → IsSorted (λ x. compare (selector x) target) xs
    → IsAnswer (λ x. compare (selector x) target) xs (binary_search_by xs target selector compare)
unfolding binary_search_by
binary_search_by-IsAnswer xs target selector compare s =
    search_range-IsAnswer (λ x. compare (selector x) target) xs s

-- The same of `binarySearch`, whose keys are the elements.
pub binary_search-IsAnswer {ℓ} :
    {A : Type ℓ} (xs : List A) (target : A) (compare : A → A → ℤ)
    → IsSorted (λ x. compare x target) xs
    → IsAnswer (λ x. compare x target) xs (binary_search xs target compare)
unfolding binary_search
binary_search-IsAnswer xs target compare s = search_range-IsAnswer (λ x. compare x target) xs s
