-- ===== src/Collections/Criteria.antt =====
-- What the searches of src/utils/collections.ts select.
use miguel_n_ai_trackflow_pr.Common.{
  Bool, Bool-cases, List, Numbers, Option, OrderLaws, Text, [], any, ap, arith, false, inl, inr,
  keep, max, min, none, refl, some, sym, true, ◌&&◌, ◌↔◌, ◌∙◌, ◌∷◌, ◌≡◌,
}
use miguel_n_ai_trackflow_pr.Collections.Filters.{
  dated_within, filter_by_category, filter_by_date_range, filter_by_location, filter_by_price_range,
  filter_by_status, holds, is_number_in_range, matches_location_value, normalize_range, over,
  priced_within, to_location_list, under, valid_time,
}
use miguel_n_ai_trackflow_pr.Collections.Search.{
  SearchAccessors, SearchCriteria, by_category, by_date, by_location, by_price, by_status, either,
  search_by_criteria, when_both,
}

-- A criterion that is missing, or that no accessor can check, lets every item through.
abbrev pub wants {ℓ κ} : {A : Type ℓ} {B : Type κ} → Option A → Option B → (A → B → Bool) → Bool
wants none b p = true
wants (some a) none p = true
wants (some a) (some g) p = p a g

-- Some bound, as a pair with blanks, holds of a value: `min` and `max` may come in either order.
pub record IsWithin {N : Type 0} (n : Numbers N) (v : N) (min max : Option N) : Type 0 where
  pub finite : n.is_finite v ≡ true
  pub at_least : under n v min ≡ false
  pub at_most : over n v max ≡ false

pub is_number_in_range_iff :
    {N : Type 0} (n : Numbers N) (v : N) (min max : Option N)
    → (is_number_in_range n v min max ≡ true) ↔ IsWithin n v min max
unfolding is_number_in_range
is_number_in_range_iff n v min max = (
  λ h. record { finite = ground arith; at_least = ground arith; at_most = ground arith },
  λ w. ground (arith, w.finite, w.at_least, w.at_most),
)

module _ {T N C S : Type 0} (lower : Text → Text) (n : Numbers N) (same_category : C → C → Bool)
    (same_status : S → S → Bool) (c : SearchCriteria N C S) (a : SearchAccessors T N C S) where
  abbrev meets_category : T → Bool
  meets_category item =
      wants c.category a.get_category (λ category get. holds same_category (get item) category)

  abbrev meets_price : T → Bool
  meets_price item =
      wants (either c.min_price c.max_price) a.get_price
        (λ range get. priced_within n (normalize_range n range.0 range.1) (get item))

  abbrev meets_status : T → Bool
  meets_status item =
      wants c.status a.get_status (λ status get. holds same_status (get item) status)

  abbrev meets_date : T → Bool
  meets_date item = wants (either c.from_date c.to_date) a.get_date (λ range get.
      dated_within n (normalize_range n (valid_time n range.0) (valid_time n range.1)) (get item))

  abbrev meets_location : T → Bool
  meets_location item =
      wants c.location a.get_location
        (λ location get. any (matches_location_value lower location) (to_location_list (get item)))

  -- All criteria at once, of one item.
  abbrev pub meets : T → Bool
  meets item =
      meets_category item
      && meets_price item
      && meets_status item
      && meets_date item
      && meets_location item

keep-keep {ℓ} :
    {A : Type ℓ} (p q : A → Bool) (xs : List A) → keep q (keep p xs) ≡ keep (λ x. p x && q x) xs
keep-keep p q [] = refl
keep-keep p q (x ∷ xs) = ground (arith, keep-keep p q xs)

keep-true {ℓ} : {A : Type ℓ} (xs : List A) → keep (λ x. true) xs ≡ xs
keep-true [] = refl
keep-true (x ∷ xs) = ap (◌∷◌ x) (keep-true xs)

when_both-keep {ℓ κ} :
    {A : Type ℓ} {B : Type κ} {T : Type 0} (f : A → B → List T → List T) (p : A → B → T → Bool)
    (x : Option A) (y : Option B) (xs : List T)
    → ((a : A) (b : B) → f a b xs ≡ keep (p a b) xs)
    → when_both x y f xs ≡ keep (λ item. wants x y (λ a b. p a b item)) xs
when_both-keep f p none y xs h = sym (keep-true xs)
when_both-keep f p (some a) none xs h = sym (keep-true xs)
when_both-keep f p (some a) (some b) xs h = h a b

-- The same where the criterion is a range, which is never empty at both ends.
when_range-keep {κ} :
    {N T : Type 0} {B : Type κ} (f : Option N × Option N → B → List T → List T)
    (p : Option N × Option N → B → T → Bool) (min max : Option N) (y : Option B) (xs : List T)
    → ((m : N) (b : B) → f (some m, max) b xs ≡ keep (p (some m, max) b) xs)
    → ((m : N) (b : B) → f (none, some m) b xs ≡ keep (p (none, some m) b) xs)
    → when_both (either min max) y f xs
      ≡ keep (λ item. wants (either min max) y (λ r b. p r b item)) xs
when_range-keep f p none none y xs h k = sym (keep-true xs)
when_range-keep f p none (some m) none xs h k = sym (keep-true xs)
when_range-keep f p none (some m) (some b) xs h k = k m b
when_range-keep f p (some l) none none xs h k = sym (keep-true xs)
when_range-keep f p (some l) none (some b) xs h k = h l b
when_range-keep f p (some l) (some m) none xs h k = sym (keep-true xs)
when_range-keep f p (some l) (some m) (some b) xs h k = h l b

compose-keep :
    {T : Type 0} (f g : List T → List T) (p q : T → Bool)
    → ((xs : List T) → f xs ≡ keep p xs)
    → ((xs : List T) → g xs ≡ keep q xs)
    → (xs : List T) → g (f xs) ≡ keep (λ x. p x && q x) xs
compose-keep f g p q h k xs = k (f xs) ∙ ap (keep q) (h xs) ∙ keep-keep p q xs

module _ {T N C S : Type 0} (lower : Text → Text) (n : Numbers N) (same_category : C → C → Bool)
    (same_status : S → S → Bool) (c : SearchCriteria N C S) (a : SearchAccessors T N C S) where
  by_category-keep :
      (xs : List T)
      → by_category lower n same_category same_status c a xs
        ≡ keep (meets_category lower n same_category same_status c a) xs
  unfolding by_category filter_by_category
  by_category-keep xs = when_both-keep _ _ c.category a.get_category xs (λ _ _. refl)

  by_price-keep :
      (xs : List T)
      → by_price lower n same_category same_status c a xs
        ≡ keep (meets_price lower n same_category same_status c a) xs
  unfolding by_price filter_by_price_range
  by_price-keep xs =
      when_range-keep _ _ c.min_price c.max_price a.get_price xs (λ _ _. refl) (λ _ _. refl)

  by_status-keep :
      (xs : List T)
      → by_status lower n same_category same_status c a xs
        ≡ keep (meets_status lower n same_category same_status c a) xs
  unfolding by_status filter_by_status
  by_status-keep xs = when_both-keep _ _ c.status a.get_status xs (λ _ _. refl)

  by_date-keep :
      (xs : List T)
      → by_date lower n same_category same_status c a xs
        ≡ keep (meets_date lower n same_category same_status c a) xs
  unfolding by_date filter_by_date_range
  by_date-keep xs =
      when_range-keep _ _ c.from_date c.to_date a.get_date xs (λ _ _. refl) (λ _ _. refl)

  by_location-keep :
      (xs : List T)
      → by_location lower n same_category same_status c a xs
        ≡ keep (meets_location lower n same_category same_status c a) xs
  unfolding by_location filter_by_location
  by_location-keep xs = when_both-keep _ _ c.location a.get_location xs (λ _ _. refl)

  stages-keep :
      (xs : List T)
      → search_by_criteria lower n same_category same_status xs c a
        ≡ keep (meets lower n same_category same_status c a) xs
  unfolding search_by_criteria
  stages-keep =
      compose-keep _ _ _ _
        (compose-keep _ _ _ _
          (compose-keep _ _ _ _ (compose-keep _ _ _ _ by_category-keep by_price-keep)
            by_status-keep)
          by_date-keep)
        by_location-keep

-- One after the other, the five filters keep the items that meet all criteria at once, in order: a
-- criterion that is not given, or for which there is no accessor, lets every item through.
pub search_by_criteria-keep :
    {T N C S : Type 0} (lower : Text → Text) (n : Numbers N) (same_category : C → C → Bool)
    (same_status : S → S → Bool) (items : List T) (c : SearchCriteria N C S)
    (a : SearchAccessors T N C S)
    → search_by_criteria lower n same_category same_status items c a
      ≡ keep (meets lower n same_category same_status c a) items
search_by_criteria-keep lower n same_category same_status items c a =
    stages-keep lower n same_category same_status c a items

keep-ext {ℓ} :
    {A : Type ℓ} (p q : A → Bool) (xs : List A) → ((x : A) → p x ≡ q x) → keep p xs ≡ keep q xs
keep-ext p q [] h = refl
keep-ext p q (x ∷ xs) h = ground (arith, h x, keep-ext p q xs h)

module _ {N : Type 0} (n : Numbers N) (laws : OrderLaws n) (a b : N) (fa : n.is_finite a ≡ true)
    (fb : n.is_finite b ≡ true) where
  range_swap :
      (v : Option N)
      → priced_within n (normalize_range n (some a) (some b)) v
        ≡ priced_within n (normalize_range n (some b) (some a)) v
  unfolding normalize_range is_number_in_range
  range_swap none = refl
  range_swap (some v) = elim (Bool-cases (n.is_finite v)) [
    | inr bad ↦ ground arith
    | inl fv ↦ ground (
      arith,
      laws.asym a b fa fb,
      laws.asym b a fb fa,
      laws.trans v a b fv fa fb,
      laws.trans v b a fv fb fa,
      laws.trans a b v fa fb fv,
      laws.trans b a v fb fa fv,
    )
  ]

-- The two ends of a price range may be given in either order: for finite prices, which `<` orders
-- linearly, the filter selects the same items.
pub filter_by_price_range-swap :
    {T N : Type 0} (n : Numbers N) (items : List T) (get_price : T → Option N) (a b : N)
    → OrderLaws n
    → n.is_finite a ≡ true
    → n.is_finite b ≡ true
    → filter_by_price_range n items get_price (some a) (some b)
      ≡ filter_by_price_range n items get_price (some b) (some a)
unfolding filter_by_price_range
filter_by_price_range-swap n items get_price a b laws fa fb =
    keep-ext _ _ items (λ item. range_swap n laws a b fa fb (get_price item))
