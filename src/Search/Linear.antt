-- ===== src/Search/Linear.antt =====
-- `linearSearch`, `linearSearchIndex` and the `find...ById` helpers of src/utils/search.ts.
use miguel_n_ai_trackflow_pr.Common.{
  Bool, Bool-cases, IsBlank, List, Option, Option-cases, Text, [], all, ap, arith, false, get_elem?,
  if◌then◌else◌, inl, inr, length, negsuc, none, not, pos, refl, some, subst, suc, text_eq, trim,
  trim-pad, true, ℕ, ℤ, ◌++◌, ◌+◌, ◌<◌, ◌∙◌, ◌∷◌, ◌≡◌, ◌⊎◌,
}
use miguel_n_ai_trackflow_pr.Models.{Carrier, Department, Order, Return, Warehouse, Worker}

module _ {ℓ} {A : Type ℓ} where
  unfoldable pub linear_search : (A → Bool) → List A → Option A
  linear_search p [] = none
  linear_search p (x ∷ xs) = if p x then some x else linear_search p xs

  -- The loop of `linearSearchIndex`, from `index` on.
  unfoldable pub index_from : (A → Bool) → ℕ → List A → ℤ
  index_from p index [] = negsuc 0
  index_from p index (x ∷ xs) = if p x then pos index else index_from p (suc index) xs

  unfoldable pub linear_search_index : (A → Bool) → List A → ℤ
  unfolding index_from
  linear_search_index p xs = index_from p 0 xs

-- `lower` is `toLowerCase`, whose tables are Unicode's.
module _ (lower : Text → Text) where
  unfoldable pub normalize_id : Text → Text
  normalize_id value = lower (trim value)

  -- The predicate that each of the helpers below gives to `linearSearch`.
  unfoldable pub has_id : Text → Text → Bool
  unfolding normalize_id
  has_id wanted id = text_eq (normalize_id id) (normalize_id wanted)

  unfoldable pub find_order_by_id : {N : Type 0} → List (Order N) → Text → Option (Order N)
  find_order_by_id orders id = linear_search (λ o. has_id id o.order_id) orders

  unfoldable pub find_return_by_id : {N : Type 0} → List (Return N) → Text → Option (Return N)
  find_return_by_id returns id = linear_search (λ r. has_id id r.return_id) returns

  unfoldable pub find_worker_by_id : List Worker → Text → Option Worker
  find_worker_by_id workers id = linear_search (λ w. has_id id w.worker_id) workers

  unfoldable pub find_carrier_by_id : List Carrier → Text → Option Carrier
  find_carrier_by_id carriers id = linear_search (λ c. has_id id c.carrier_id) carriers

  unfoldable pub find_warehouse_by_id : List Warehouse → Text → Option Warehouse
  find_warehouse_by_id warehouses id = linear_search (λ w. has_id id w.warehouse_id) warehouses

  unfoldable pub find_department_by_id : List Department → Text → Option Department
  find_department_by_id departments id = linear_search (λ d. has_id id d.department_id) departments

-- The first element that passes the test: those before it fail.
pub record First {ℓ} {A : Type ℓ} (p : A → Bool) (xs : List A) (found : A) : Type ℓ where
  pub earlier : List A
  pub later : List A
  pub split : xs ≡ earlier ++ found ∷ later
  pub passes : p found ≡ true
  pub fail : all (λ x. not (p x)) earlier ≡ true

module _ {ℓ} {A : Type ℓ} where
  First-cons :
      {p : A → Bool} {xs : List A} {found : A} (x : A)
      → p x ≡ false
      → First p xs found
      → First p (x ∷ xs) found
  First-cons x h f = record {
    earlier = x ∷ f.earlier;
    later = f.later;
    split = ap (◌∷◌ x) f.split;
    passes = f.passes;
    fail = rw h f.fail;
  }

  linear_search-First :
      (p : A → Bool) (xs : List A) (found : A) → linear_search p xs ≡ some found → First p xs found
  unfolding linear_search
  linear_search-First p [] found h = cc
  linear_search-First p (x ∷ xs) found h = elim (Bool-cases (p x)) [
    | inl hit ↦
        let same : x ≡ found = ground arith in
        record {
          earlier = [];
          later = xs;
          split = ap (λ y. y ∷ xs) same;
          passes = subst (λ y. p y ≡ true) same hit;
          fail = refl;
        }
    | inr miss ↦ First-cons x miss (linear_search-First p xs found (rw (miss, linear_search) at h))
  ]

  linear_search-none :
      (p : A → Bool) (xs : List A) → linear_search p xs ≡ none → all (λ x. not (p x)) xs ≡ true
  unfolding linear_search
  linear_search-none p [] h = refl
  linear_search-none p (x ∷ xs) h = ground (arith, linear_search-none p xs)

  -- Either nothing was found and every element fails, or the first element that passes was.
  pub linear_search_lem :
      (p : A → Bool) (xs : List A)
      → ((linear_search p xs ≡ none) × (all (λ x. not (p x)) xs ≡ true))
        ⊎ ((found : A) × (linear_search p xs ≡ some found) × First p xs found)
  linear_search_lem p xs = elim (Option-cases (linear_search p xs)) [
    | inl e ↦ inl (e, linear_search-none p xs e)
    | inr (found, e) ↦ inr (found, e, linear_search-First p xs found e)
  ]

  index_from_lem :
      (p : A → Bool) (base : ℕ) (xs : List A)
      → ((index_from p base xs ≡ negsuc 0) × (linear_search p xs ≡ none))
        ⊎ ((i : ℕ) × (index_from p base xs ≡ pos (base + i))
            × (linear_search p xs ≡ get_elem? xs i)
            × (i < length xs))
  unfolding linear_search index_from
  index_from_lem p base [] = inl (refl, refl)
  index_from_lem p base (x ∷ xs) = elim (Bool-cases (p x)) [
    | inl hit ↦ inr (0, rw hit (ap pos (omega arith)), rw hit refl, omega arith)
    | inr miss ↦ elim (index_from_lem p (suc base) xs) [
      | inl (e, f) ↦ inl (rw miss e, rw miss f)
      | inr (i, e, f, b) ↦ inr (suc i, rw miss (e ∙ ap pos (omega arith)), rw miss f, omega arith)
    ]
  ]

  -- The two linear searches agree: the index search gives -1 exactly when the search finds nothing,
  -- and otherwise an index within the list, at which the element that the search finds stands.
  pub linear_search_index_lem :
      (p : A → Bool) (xs : List A)
      → ((linear_search_index p xs ≡ negsuc 0) × (linear_search p xs ≡ none))
        ⊎ ((i : ℕ) × (linear_search_index p xs ≡ pos i)
            × (linear_search p xs ≡ get_elem? xs i)
            × (i < length xs))
  unfolding linear_search_index
  linear_search_index_lem p xs = elim (index_from_lem p 0 xs) [
    | inl h ↦ inl h
    | inr (i, e, f, b) ↦ inr (i, e ∙ ap pos (omega arith), f, b)
  ]

has_id-pad :
    (lower : Text → Text) (v w id : Text)
    → IsBlank v
    → IsBlank w
    → has_id lower (v ++ id ++ w) ≡ has_id lower id
unfolding has_id
has_id-pad lower v w id h k =
    ap (λ t. λ (other : Text). text_eq (normalize_id lower other) (lower t)) (trim-pad v id w h k)

-- None of the six searches by id minds white space around the wanted id.
pub find_by_id-pad :
    {N : Type 0} (lower : Text → Text) (v w id : Text) (orders : List (Order N))
    (returns : List (Return N)) (workers : List Worker) (carriers : List Carrier)
    (warehouses : List Warehouse) (departments : List Department)
    → IsBlank v
    → IsBlank w
    → let padded = v ++ id ++ w in
      (find_order_by_id lower orders padded ≡ find_order_by_id lower orders id)
      × (find_return_by_id lower returns padded ≡ find_return_by_id lower returns id)
      × (find_worker_by_id lower workers padded ≡ find_worker_by_id lower workers id)
      × (find_carrier_by_id lower carriers padded ≡ find_carrier_by_id lower carriers id)
      × (find_warehouse_by_id lower warehouses padded ≡ find_warehouse_by_id lower warehouses id)
      × (find_department_by_id lower departments padded
          ≡ find_department_by_id lower departments id)
unfolding find_order_by_id find_return_by_id find_worker_by_id find_carrier_by_id
    find_warehouse_by_id find_department_by_id
find_by_id-pad lower v w id orders returns workers carriers warehouses departments h k =
    let e = has_id-pad lower v w id h k in
    (
      ap (λ q. linear_search (λ o. q o.order_id) orders) e,
      ap (λ q. linear_search (λ o. q o.return_id) returns) e,
      ap (λ q. linear_search (λ o. q o.worker_id) workers) e,
      ap (λ q. linear_search (λ o. q o.carrier_id) carriers) e,
      ap (λ q. linear_search (λ o. q o.warehouse_id) warehouses) e,
      ap (λ q. linear_search (λ o. q o.department_id) departments) e,
    )
