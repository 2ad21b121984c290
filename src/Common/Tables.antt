-- ===== src/Common/Tables.antt =====
-- Objects of the source as tables: keys with their values, in the order of insertion.
use Prim.Native.Nat.{ℕ, zero, suc}
use mathlib.Core.Path.{ap, ◌≡◌, refl, subst}
use mathlib.Core.Logic.{inl, inr}
use mathlib.Core.Bool.{Bool, true, ◌||◌}
use mathlib.Core.Option.{Option, none, some}
use mathlib.Core.List.{List, [], ◌∷◌, map}
use native.Mathlib.Omega.{arith}
use miguel_n_ai_trackflow_pr.Common.Tests.{&&_iff, Bool-cases, if◌then◌else◌, is_some}
use miguel_n_ai_trackflow_pr.Common.Lists.{All, all, any, get_elem?}
use miguel_n_ai_trackflow_pr.Common.Texts.{Text, includes, text_eq, text_eq_iff, text_eq_sound}

-- `table[key]` of a constant table, `undefined` for a key that it lacks.
unfoldable pub lookup {ℓ} : {A : Type ℓ} → List (Text × A) → Text → Option A
lookup [] key = none
lookup ((k, a) ∷ table) key = if text_eq k key then some a else lookup table key

-- `record[key] = value`, for a key that is no accessor.
unfoldable pub assign {ℓ} : {A : Type ℓ} → Text → A → List (Text × A) → List (Text × A)
assign key a [] = (key, a) ∷ []
assign key a ((k, b) ∷ r) = if text_eq k key then (k, a) ∷ r else (k, b) ∷ assign key a r

-- What holds of every row of a table holds of every row that is looked up.
pub lookup-All {ℓ κ} :
    {A : Type ℓ} (P : Text → A → Type κ) (table : List (Text × A)) (key : Text) (a : A)
    → All (λ row. P row.0 row.1) table
    → lookup table key ≡ some a
    → P key a
unfolding lookup
lookup-All P [] key a h e = cc
lookup-All P ((k, b) ∷ table) key a (h, hs) e = elim (Bool-cases (text_eq k key)) [
  | inl same ↦ subst (P key) (ground arith) (subst (λ i. P i b) (text_eq_sound k key same) h)
  | inr differs ↦ lookup-All P table key a hs (ground arith)
]

-- What holds of every text of a list holds of every text that it includes.
pub includes-All {κ} :
    (P : Text → Type κ) (ts : List Text) (t : Text) → All P ts → includes ts t ≡ true → P t
unfolding includes
includes-All P [] t h e = cc
includes-All P (s ∷ ts) t (h, hs) e = elim (Bool-cases (text_eq s t)) [
  | inl same ↦ subst P (text_eq_sound s t same) h
  | inr differs ↦ includes-All P ts t hs (ground arith)
]

abbrev pub keys_of {ℓ} : {A : Type ℓ} → List (Text × A) → List Text
keys_of table = map (λ row. row.0) table

pub is_some-lookup {ℓ} :
    {A : Type ℓ} (table : List (Text × A)) (key : Text)
    → is_some (lookup table key) ≡ includes (keys_of table) key
unfolding lookup includes
is_some-lookup [] key = refl
is_some-lookup ((k, a) ∷ table) key = ground (arith, is_some-lookup table key)

pub lookup-assign {ℓ} :
    {A : Type ℓ} (j k : Text) (a : A) (r : List (Text × A))
    → lookup (assign j a r) k ≡ (if text_eq j k then some a else lookup r k)
unfolding lookup assign
lookup-assign j k a [] = refl
lookup-assign j k a ((i, b) ∷ r) =
    ground (arith, text_eq_iff j k, text_eq_iff i k, text_eq_iff i j, lookup-assign j k a r)

-- What stands in a list is included.
pub includes-get_elem? :
    (i : ℕ) (ts : List Text) (t : Text) → get_elem? ts i ≡ some t → includes ts t ≡ true
unfolding includes
includes-get_elem? i [] t e = cc
includes-get_elem? zero (s ∷ ts) t e = ground (arith, text_eq_iff s t)
includes-get_elem? (suc i) (s ∷ ts) t e = ground (arith, includes-get_elem? i ts t)

or_right : (a b : Bool) → b ≡ true → (a || b) ≡ true
or_right a b h = ground arith

pub any-includes :
    (p : Text → Bool) (ts : List Text) (t : Text)
    → includes ts t ≡ true
    → p t ≡ true
    → any p ts ≡ true
unfolding includes
any-includes p [] t h e = cc
any-includes p (s ∷ ts) t h e = elim (Bool-cases (text_eq s t)) [
  | inl same ↦ rw (ap p (text_eq_sound s t same), e) refl
  | inr other ↦ or_right (p s) (any p ts) (any-includes p ts t (ground arith) e)
]

pub any-all :
    (p : Text → Bool) (ts guards : List Text)
    → all (includes ts) guards ≡ true
    → any p guards ≡ true
    → any p ts ≡ true
any-all p ts [] h a = cc
any-all p ts (g ∷ guards) h a =
    let (first, rest) = (&&_iff (includes ts g) (all (includes ts) guards)).0 h in
    elim (Bool-cases (p g)) [
      | inl fine ↦ any-includes p ts g first fine
      | inr bad ↦ any-all p ts guards rest (ground arith)
    ]
