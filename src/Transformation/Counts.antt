-- ===== src/Transformation/Counts.antt =====
-- `countByCategory` of src/utils/transformation.ts. `result` starts as a plain object, so reading an
-- inherited key gives a function (or, at `__proto__`, an object), and adding 1 to that is joining
-- texts; what is written at `__proto__` is dropped, since it is no object.
use miguel_n_ai_trackflow_pr.Common.{
  Bool-cases, List, Option, Text, [], ap, arith, false, if◌then◌else◌, inl, inr, is_inherited, none,
  or_else, proto, refl, some, suc, text_eq, text_eq_iff, text_eq_refl, text_eq_sound, true, ℕ, ◌+◌,
  ◌∙◌, ◌∷◌, ◌≡◌, ◌≢◌, ◌⊎◌,
}

-- What a key of the record holds: a number, or a text that began with an inherited value.
pub data Count : Type 0 where
  number : ℕ → Count
  garbled : Count

-- `result[key] + 1`
abbrev pub add_one : Count → Count
add_one (number n) = number (suc n)
add_one garbled = garbled

unfoldable pub count_at : Text → List (Text × Count) → Option Count
count_at key [] = none
count_at key ((k, c) ∷ r) = if text_eq k key then some c else count_at key r

unfoldable pub put : Text → Count → List (Text × Count) → List (Text × Count)
put key c [] = (key, c) ∷ []
put key c ((k, d) ∷ r) = if text_eq k key then (k, c) ∷ r else (k, d) ∷ put key c r

-- `result[key] ?? 0`: an own value, else an inherited one, else 0.
abbrev pub read_count : Text → List (Text × Count) → Count
read_count key r = or_else (count_at key r) (if is_inherited key then garbled else number 0)

-- `result[key] = value`
abbrev pub write_count : Text → Count → List (Text × Count) → List (Text × Count)
write_count key c r = if text_eq key proto then r else put key c r

unfoldable pub count_from {ℓ} :
    {T : Type ℓ} → (T → Text) → List (Text × Count) → List T → List (Text × Count)
count_from selector result [] = result
count_from selector result (item ∷ items) =
    let key = selector item in
    count_from selector (write_count key (add_one (read_count key result)) result) items

unfoldable pub count_by_category {ℓ} : {T : Type ℓ} → List T → (T → Text) → List (Text × Count)
unfolding count_from
count_by_category items selector = count_from selector [] items

-- How many items have the category.
abbrev pub occurrences {ℓ} : {T : Type ℓ} → (T → Text) → Text → List T → ℕ
occurrences selector key [] = 0
occurrences selector key (item ∷ items) =
    (if text_eq (selector item) key then 1 else 0) + occurrences selector key items

count_at-put :
    (j k : Text) (c : Count) (r : List (Text × Count))
    → count_at j (put k c r) ≡ (if text_eq k j then some c else count_at j r)
unfolding count_at put
count_at-put j k c [] = refl
count_at-put j k c ((i, d) ∷ r) =
    ground (arith, text_eq_iff k j, text_eq_iff i k, text_eq_iff i j, count_at-put j k c r)

-- What the record holds at a key that is not inherited, with 0 for nothing.
abbrev own : Text → List (Text × Count) → Count
own key r = or_else (count_at key r) (number 0)

proto_plain : is_inherited proto ≡ false → ⊥
unfolding is_inherited text_eq
proto_plain h = cc

module _ (key : Text) (plain : is_inherited key ≡ false) where
  not-proto : text_eq key proto ≡ false
  not-proto = elim (Bool-cases (text_eq key proto)) [
    | inr e ↦ e
    | inl e ↦ absurd (proto_plain (rw (text_eq_sound key proto e) at plain))
  ]

  own-write_same :
      (r : List (Text × Count)) (m : ℕ)
      → own key r ≡ number m
      → own key (write_count key (add_one (read_count key r)) r) ≡ number (suc m)
  own-write_same r m h = ground (
    arith,
    plain,
    not-proto,
    text_eq_refl key,
    count_at-put key key (add_one (read_count key r)) r,
  )

  own-write_other :
      (k : Text) (c : Count) (r : List (Text × Count))
      → text_eq k key ≡ false
      → own key (write_count k c r) ≡ own key r
  own-write_other k c r h = ground (arith, count_at-put key k c r)

  count_from-own {ℓ} :
      {T : Type ℓ} (selector : T → Text) (r : List (Text × Count)) (items : List T) (m : ℕ)
      → own key r ≡ number m
      → own key (count_from selector r items) ≡ number (m + occurrences selector key items)
  unfolding count_from
  count_from-own selector r [] m h = h ∙ ap number (omega arith)
  count_from-own selector r (x ∷ items) m h = elim (Bool-cases (text_eq (selector x) key)) [
    | inl same ↦
        let e = text_eq_sound (selector x) key same in
        let ih =
          count_from-own selector (write_count key (add_one (read_count key r)) r) items (suc m)
            (own-write_same r m h) in
        rw (e, text_eq_refl key) (ih ∙ ap number (omega arith))
    | inr other ↦
        count_from-own selector (write_count (selector x) (add_one (read_count (selector x) r)) r)
          items m (own-write_other (selector x) (add_one (read_count (selector x) r)) r other ∙ h)
        ∙ ap number (rw other (omega arith))
  ]

-- The other way round: at an inherited key the record never holds a number.
IsGarbled : Text → List (Text × Count) → Type 0
IsGarbled key r = (count_at key r ≡ none) ⊎ (count_at key r ≡ some garbled)

module _ (key : Text) (inherited : is_inherited key ≡ true) where
  write_count-IsGarbled :
      (k : Text) (r : List (Text × Count))
      → IsGarbled key r
      → IsGarbled key (write_count k (add_one (read_count k r)) r)
  unfolding IsGarbled
  write_count-IsGarbled k r h = elim (Bool-cases (text_eq k key)) [
    | inl same ↦
        let e = text_eq_sound k key same in
        ground (arith, inherited, e, count_at-put key k (add_one (read_count k r)) r)
    | inr other ↦ ground (arith, count_at-put key k (add_one (read_count k r)) r)
  ]

  count_from-IsGarbled {ℓ} :
      {T : Type ℓ} (selector : T → Text) (r : List (Text × Count)) (items : List T)
      → IsGarbled key r
      → IsGarbled key (count_from selector r items)
  unfolding count_from
  count_from-IsGarbled selector r [] h = h
  count_from-IsGarbled selector r (x ∷ items) h =
      count_from-IsGarbled selector
        (write_count (selector x) (add_one (read_count (selector x) r)) r) items
        (write_count-IsGarbled (selector x) r h)

  not-number :
      (r : List (Text × Count)) (m : ℕ) → IsGarbled key r → count_at key r ≢ some (number m)
  unfolding IsGarbled
  not-number r m (inl e) h = cc
  not-number r m (inr e) h = cc

-- At a category whose name no object inherits the record holds the number of items of that category
-- (read as 0 where there is none).
pub count_by_category_counts {ℓ} :
    {T : Type ℓ} (items : List T) (selector : T → Text) (key : Text)
    → is_inherited key ≡ false
    → or_else (count_at key (count_by_category items selector)) (number 0)
      ≡ number (occurrences selector key items)
unfolding count_by_category count_at
count_by_category_counts items selector key plain =
    count_from-own key plain selector [] items 0 refl ∙ ap number (omega arith)

-- At an inherited name the record never holds a number.
pub count_by_category_inherited {ℓ} :
    {T : Type ℓ} (items : List T) (selector : T → Text) (key : Text) (m : ℕ)
    → is_inherited key ≡ true
    → count_at key (count_by_category items selector) ≢ some (number m)
unfolding count_by_category count_at IsGarbled
count_by_category_inherited items selector key m inherited =
    not-number key inherited _ m (count_from-IsGarbled key inherited selector [] items (inl refl))
