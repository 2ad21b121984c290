-- ===== src/Transformation/Reports.antt =====
-- The numeric functions of src/utils/transformation.ts, over the numbers of the platform.
use miguel_n_ai_trackflow_pr.Common.{
  All, Bool, Bool-cases, List, Memᴰ, Numbers, Option, OrderLaws, [], ap, false, if_intro,
  if◌then◌else◌, inl, inr, keep, length, map, none, refl, some, subst, sym, true, ◌∙◌, ◌∷◌, ◌≡◌,
  ◌⊎◌,
}

pub record NumericReport (N : Type 0) : Type 0 where
  pub total : N
  pub average : Option N
  pub maximum : Option N
  pub minimum : Option N

-- The guard `values.length === 0`, and what follows it with `values[0]` and the rest.
abbrev pub of_values : {N : Type 0} → (N → List N → N) → List N → Option N
of_values f [] = none
of_values f (v ∷ vs) = some (f v vs)

module _ {N : Type 0} (n : Numbers N) where
  open n use {is_finite, lt, add, div, of_ℕ}

  -- The loops `total += value` and `if (value > best) best = value`, and the latter's mirror.
  unfoldable pub sum_from : N → List N → N
  sum_from total [] = total
  sum_from total (v ∷ vs) = sum_from (add total v) vs

  unfoldable pub max_from : N → List N → N
  max_from best [] = best
  max_from best (v ∷ vs) = max_from (if lt best v then v else best) vs

  unfoldable pub min_from : N → List N → N
  min_from best [] = best
  min_from best (v ∷ vs) = min_from (if lt v best then v else best) vs

  module _ {ℓ} {T : Type ℓ} where
    unfoldable pub get_valid_numbers : List T → (T → N) → List N
    get_valid_numbers items selector = keep is_finite (map selector items)

    unfoldable pub calculate_total : List T → (T → N) → N
    unfolding sum_from
    calculate_total items selector = sum_from (of_ℕ 0) (get_valid_numbers items selector)

    unfoldable pub calculate_average : List T → (T → N) → Option N
    unfolding sum_from
    calculate_average items selector =
        of_values (λ v vs. div (sum_from (of_ℕ 0) (v ∷ vs)) (of_ℕ (length (v ∷ vs))))
          (get_valid_numbers items selector)

    unfoldable pub find_maximum : List T → (T → N) → Option N
    find_maximum items selector = of_values max_from (get_valid_numbers items selector)

    unfoldable pub find_minimum : List T → (T → N) → Option N
    find_minimum items selector = of_values min_from (get_valid_numbers items selector)

    unfoldable pub build_numeric_report : List T → (T → N) → NumericReport N
    build_numeric_report items selector = record {
      total = calculate_total items selector;
      average = calculate_average items selector;
      maximum = find_maximum items selector;
      minimum = find_minimum items selector;
    }

-- `m` is one of the numbers, and none of them lies beyond it.
pub record IsBound {N : Type 0} (beyond : N → N → Bool) (vs : List N) (m : N) : Type 0 where
  pub member : Memᴰ m vs
  pub none_beyond : All (λ v. beyond m v ≡ false) vs

-- The two loops are one, over the test for a better value.
best_from {ℓ} : {N : Type ℓ} → (N → N → Bool) → N → List N → N
best_from beats best [] = best
best_from beats best (v ∷ vs) = best_from beats (if beats best v then v else best) vs

abbrev AllFinite : {N : Type 0} → (N → Bool) → List N → Type 0
AllFinite is_finite vs = All (λ v. is_finite v ≡ true) vs

module _ {N : Type 0} (is_finite : N → Bool) (beats : N → N → Bool)
    (irrefl : (a : N) → is_finite a ≡ true → beats a a ≡ false)
    (asym : (a b : N)
      → is_finite a ≡ true
      → is_finite b ≡ true
      → beats a b ≡ true
      → beats b a ≡ false)
    (trans : (a b c : N)
      → is_finite a ≡ true
      → is_finite b ≡ true
      → is_finite c ≡ true
      → beats a b ≡ false
      → beats b c ≡ false
      → beats a c ≡ false) where
  member-finite : {m : N} (vs : List N) → AllFinite is_finite vs → Memᴰ m vs → is_finite m ≡ true
  member-finite [] h k = elim k [ ]
  member-finite (v ∷ vs) (f, h) (Memᴰ.head e) = subst (λ x. is_finite x ≡ true) (sym e) f
  member-finite (v ∷ vs) (f, h) (Memᴰ.tail e) = member-finite vs h e

  -- From the loop's start `b`, which replaces `a` and is as good, to the list with `a` in front.
  IsBound-cons :
      (a b v : N) (vs : List N) {m : N}
      → AllFinite is_finite (a ∷ b ∷ v ∷ vs)
      → (b ≡ a) ⊎ (b ≡ v)
      → beats b a ≡ false
      → beats b v ≡ false
      → IsBound beats (b ∷ vs) m
      → IsBound beats (a ∷ v ∷ vs) m
  IsBound-cons a b v vs {m} (fa, (fb, (fv, h))) choice p q k =
      let fm = member-finite (b ∷ vs) (fb, h) k.member in
      let (here, later) = k.none_beyond in
      record {
        member = member choice k.member;
        none_beyond = (trans m b a fm fb fa here p, (trans m b v fm fb fv here q, later));
      }
    where
      member : (b ≡ a) ⊎ (b ≡ v) → Memᴰ m (b ∷ vs) → Memᴰ m (a ∷ v ∷ vs)
      member c (Memᴰ.tail e) = Memᴰ.tail (Memᴰ.tail e)
      member (inl c) (Memᴰ.head e) = Memᴰ.head (e ∙ c)
      member (inr c) (Memᴰ.head e) = Memᴰ.tail (Memᴰ.head (e ∙ c))

  best_from-IsBound :
      (best : N) (vs : List N)
      → is_finite best ≡ true
      → AllFinite is_finite vs
      → IsBound beats (best ∷ vs) (best_from beats best vs)
  unfolding best_from
  best_from-IsBound best [] f h = record {
    member = Memᴰ.head refl;
    none_beyond = (irrefl best f, tt);
  }
  best_from-IsBound best (v ∷ vs) f (g, h) =
      if_intro (λ b. IsBound beats (best ∷ v ∷ vs) (best_from beats b vs)) (beats best v)
        (λ better.
          IsBound-cons best v v vs (f, (g, (g, h))) (inr refl) (asym best v f g better) (irrefl v g)
            (best_from-IsBound v vs g h))
        (λ worse.
          IsBound-cons best best v vs (f, (f, (g, h))) (inl refl) (irrefl best f) worse
            (best_from-IsBound best vs f h))

keep-All {ℓ} : {A : Type ℓ} (p : A → Bool) (xs : List A) → All (λ x. p x ≡ true) (keep p xs)
keep-All p [] = tt
keep-All p (x ∷ xs) =
    if_intro (All (λ y. p y ≡ true)) (p x) (λ f. (f, keep-All p xs)) (λ _. keep-All p xs)

-- Nothing, of no values; and otherwise one of the values that none lies beyond.
abbrev pub IsBest : {N : Type 0} → (N → N → Bool) → List N → Option N → Type 0
IsBest beyond [] r = r ≡ none
IsBest {N} beyond (v ∷ vs) r = (m : N) × (r ≡ some m) × IsBound beyond (v ∷ vs) m

module _ {N : Type 0} (n : Numbers N) where
  max_from-best : (b : N) (vs : List N) → max_from n b vs ≡ best_from n.lt b vs
  unfolding max_from best_from
  max_from-best b [] = refl
  max_from-best b (v ∷ vs) = max_from-best (if n.lt b v then v else b) vs

  min_from-best : (b : N) (vs : List N) → min_from n b vs ≡ best_from (λ x y. n.lt y x) b vs
  unfolding min_from best_from
  min_from-best b [] = refl
  min_from-best b (v ∷ vs) = min_from-best (if n.lt v b then v else b) vs

  module _ (laws : OrderLaws n) where
    max-IsBest :
        (vs : List N) → AllFinite n.is_finite vs → IsBest n.lt vs (of_values (max_from n) vs)
    max-IsBest [] h = refl
    max-IsBest (v ∷ vs) (f, h) = (
      max_from n v vs,
      refl,
      rw (max_from-best v vs)
          (best_from-IsBound n.is_finite n.lt laws.irrefl laws.asym laws.trans v vs f h),
    )

    min-IsBest :
        (vs : List N)
        → AllFinite n.is_finite vs
        → IsBest (λ x y. n.lt y x) vs (of_values (min_from n) vs)
    min-IsBest [] h = refl
    min-IsBest (v ∷ vs) (f, h) = (
      min_from n v vs,
      refl,
      rw (min_from-best v vs) (
          best_from-IsBound n.is_finite (λ x y. n.lt y x) laws.irrefl
            (λ a b fa fb p. laws.asym b a fb fa p)
            (λ a b c fa fb fc p q. laws.trans c b a fc fb fa q p) v vs f h),
    )

-- The maximum of a selection is nothing if no selected number is finite, and otherwise one of its
-- finite numbers that none of them exceeds; likewise the minimum, that none of them lies below. `<`
-- orders the finite numbers linearly.
pub build_numeric_report-IsBest {ℓ} :
    {T : Type ℓ} {N : Type 0} (n : Numbers N) (items : List T) (selector : T → N)
    → OrderLaws n
    → IsBest n.lt
        (get_valid_numbers n items selector)
        (build_numeric_report n items selector).maximum
      × IsBest
          (λ x y. n.lt y x)
          (get_valid_numbers n items selector)
          (build_numeric_report n items selector).minimum
unfolding build_numeric_report find_maximum find_minimum get_valid_numbers
build_numeric_report-IsBest n items selector laws =
    let finite = keep-All n.is_finite (map selector items) in
    (max-IsBest n laws _ finite, min-IsBest n laws _ finite)

get_valid_numbers-keep {ℓ} :
    {T : Type ℓ} {N : Type 0} (n : Numbers N) (items : List T) (selector : T → N)
    → get_valid_numbers n (keep (λ x. n.is_finite (selector x)) items) selector
      ≡ get_valid_numbers n items selector
unfolding get_valid_numbers
get_valid_numbers-keep n [] selector = refl
get_valid_numbers-keep n (x ∷ items) selector = elim (Bool-cases (n.is_finite (selector x))) [
  | inl f ↦ rw (f, f) (ap (◌∷◌ (selector x)) (get_valid_numbers-keep n items selector))
  | inr g ↦ rw g (get_valid_numbers-keep n items selector)
]

-- Items whose number is not finite do not count: without them the whole report is the same.
pub build_numeric_report-keep {ℓ} :
    {T : Type ℓ} {N : Type 0} (n : Numbers N) (items : List T) (selector : T → N)
    → build_numeric_report n (keep (λ x. n.is_finite (selector x)) items) selector
      ≡ build_numeric_report n items selector
unfolding build_numeric_report calculate_total calculate_average find_maximum find_minimum
build_numeric_report-keep n items selector = rw (get_valid_numbers-keep n items selector)
