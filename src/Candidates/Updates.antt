-- ===== src/Candidates/Updates.antt =====
-- Applying a form to a candidate and showing the candidate: uis/website/lib/candidate.ts.
use miguel_n_ai_trackflow_pr.Common.{
  &&_iff, All, Bool, Bool-cases, Json, List, Option, Text, [], all, any, any-all, ap, arith, assign,
  false, if_intro, if◌then◌else◌, includes, inl, inr, is_empty, is_some, lookup, lookup-assign,
  none, not, refl, some, str, text_eq, text_eq_refl, text_eq_sound, trim, true, ◌&&◌, ◌||◌, ◌∙◌,
  ◌∷◌, ◌≡◌, ◌⊎◌,
}
use miguel_n_ai_trackflow_pr.Candidates.Records.{
  CandidateRecord, Names, all_names, get_string_field, has, refresh, set_names, set_primary,
}

kept_has : (p g o : Bool) → (p || not g) ≡ false → (g ≡ true → o ≡ true) → (p || o) ≡ true
kept_has true g o h f = refl
kept_has false true o h f = f refl
kept_has false false o h f = cc

module _ {N : Type 0} where
  lookup-set_if :
      (b : Bool) (key k : Text) (t : Text) (c : CandidateRecord N)
      → lookup (if b then assign key (str t) c else c) k
        ≡ (if b && text_eq key k then some (str t) else lookup c k)
  lookup-set_if true key k t c = lookup-assign key k (str t) c
  lookup-set_if false key k t c = refl

  -- A name holds the text, or the record lacks it.
  abbrev pub Holds : Text → CandidateRecord N → Text → Type 0
  Holds t c key = (lookup c key ≡ none) ⊎ (lookup c key ≡ some (str t))

  rest_has :
      (o : Option (Json N)) (rest : Bool) → o ≡ none → (is_some o || rest) ≡ true → rest ≡ true
  rest_has none rest e h = h
  rest_has (some v) rest e h = cc

  pub get_string_field-Holds :
      (t : Text) (c : CandidateRecord N) (keys : List Text)
      → trim t ≡ t
      → is_empty t ≡ false
      → All (Holds t c) keys
      → any (λ key. has key c) keys ≡ true
      → get_string_field c keys ≡ t
  unfolding get_string_field
  get_string_field-Holds t c [] e w h a = cc
  get_string_field-Holds t c (key ∷ keys) e w (inl lacks, hs) a =
      rw lacks (get_string_field-Holds t c keys e w hs (rest_has (lookup c key) _ lacks a))
  get_string_field-Holds t c (key ∷ keys) e w (inr there, hs) a = rw (there, e, w) refl

  refresh_step :
      (among same there : Bool) (o : Option (Json N)) (v : Json N)
      → (same ≡ true → there ≡ is_some o)
      → (if among && is_some (if there && same then some v else o)
          then some v
          else (if there && same then some v else o))
        ≡ (if (same || among) && is_some o then some v else o)
  refresh_step true true true none v h = absurd (cc (h refl))
  refresh_step true true false none v h = refl
  refresh_step false true true none v h = absurd (cc (h refl))
  refresh_step false true false none v h = refl
  refresh_step among false true none v h = refl
  refresh_step among false false none v h = refl
  refresh_step true true true (some w) v h = refl
  refresh_step false true true (some w) v h = refl
  refresh_step among true false (some w) v h = absurd (cc (h refl))
  refresh_step true false true (some w) v h = refl
  refresh_step true false false (some w) v h = refl
  refresh_step false false true (some w) v h = refl
  refresh_step false false false (some w) v h = refl

  -- A name that is in no list keeps its value.
  pub refresh-lookup :
      (keys : List Text) (t : Text) (c : CandidateRecord N) (k : Text)
      → lookup (refresh keys t c) k
        ≡ (if includes keys k && has k c then some (str t) else lookup c k)
  unfolding refresh includes
  refresh-lookup [] t c k = refl
  refresh-lookup (key ∷ keys) t c k =
      refresh-lookup keys t (if has key c then assign key (str t) c else c) k
      ∙ rw (lookup-set_if (has key c) key k t c) (
          refresh_step (includes keys k) (text_eq key k) (has key c) (lookup c k) (str t)
            (λ same. ap (λ x. has x c) (text_eq_sound key k same)))

  set_primary-lookup :
      (names : Names) (t : Text) (c : CandidateRecord N) (k : Text)
      → lookup (set_primary names t c) k ≡ (
          if (has names.primary c || not (any (λ key. has key c) names.guards))
            && text_eq names.primary k
          then some (str t)
          else lookup c k)
  unfolding set_primary
  set_primary-lookup names t c k =
      lookup-set_if (has names.primary c || not (any (λ key. has key c) names.guards)) names.primary
        k t c

  some_either :
      (b : Bool) (o : Option (Json N)) (v : Json N)
      → is_some (if b && is_some o then some v else o) ≡ is_some o
  some_either true none v = refl
  some_either true (some w) v = refl
  some_either false o v = refl

  refresh-has :
      (keys : List Text) (t : Text) (c : CandidateRecord N) (k : Text)
      → has k (refresh keys t c) ≡ has k c
  refresh-has keys t c k =
      ap is_some (refresh-lookup keys t c k) ∙ some_either (includes keys k) (lookup c k) (str t)

  any-has :
      (keys : List Text) (c d : CandidateRecord N)
      → ((k : Text) → has k c ≡ has k d)
      → any (λ k. has k c) keys ≡ any (λ k. has k d) keys
  any-has [] c d h = refl
  any-has (k ∷ keys) c d h = rw (h k, any-has keys c d h) refl

  some_or_none :
      (b : Bool) (o : Option (Json N)) (v : Json N)
      → b ≡ true
      → ((if b && is_some o then some v else o) ≡ none)
        ⊎ ((if b && is_some o then some v else o) ≡ some v)
  some_or_none true none v h = inl refl
  some_or_none true (some w) v h = inr refl
  some_or_none false o v h = cc

  primary_or_none :
      (p g : Bool) (o : Option (Json N)) (v : Json N)
      → p ≡ is_some o
      → ((if (p || g) && true then some v else o) ≡ none)
        ⊎ ((if (p || g) && true then some v else o) ≡ some v)
  primary_or_none true g o v h = inr refl
  primary_or_none false true o v h = inr refl
  primary_or_none false false none v h = inl refl
  primary_or_none false false (some w) v h = cc

  never : (b : Bool) (o : Option (Json N)) (v : Json N) → (if b && false then some v else o) ≡ o
  never true o v = refl
  never false o v = refl

  assigned_has :
      (key : Text) (v : Json N) (c : CandidateRecord N) (others : List Text)
      → any (λ k. has k (assign key v c)) (key ∷ others) ≡ true
  assigned_has key v c others = rw (lookup-assign key key v c, text_eq_refl key) refl

  module _ (names : Names) (t : Text) (c : CandidateRecord N) where
    other_name :
        (k : Text)
        → includes (all_names names) k ≡ false
        → (text_eq names.primary k ≡ false) × (includes names.others k ≡ false)
    unfolding includes
    other_name k h = (ground arith, ground arith)

    pub set_names-lookup :
        (k : Text)
        → includes (all_names names) k ≡ false
        → lookup (set_names names t c) k ≡ lookup c k
    unfolding set_names includes
    set_names-lookup k h =
        refresh-lookup names.others t (set_primary names t c) k
        ∙ rw (other_name k h).1 (
            set_primary-lookup names t c k
            ∙ rw (other_name k h).0 (
                never (has names.primary c || not (any (λ key. has key c) names.guards))
                  (lookup c k) (str t)))

    first_name :
        (k : Text)
        → includes (all_names names) k ≡ true
        → includes names.others k ≡ false
        → text_eq names.primary k ≡ true
    unfolding includes
    first_name k h only = ground arith

    set_names-Holds :
        (k : Text) → includes (all_names names) k ≡ true → Holds t (set_names names t c) k
    unfolding set_names includes
    set_names-Holds k h =
        rw (refresh-lookup names.others t (set_primary names t c) k)
          (elim (Bool-cases (includes names.others k)) [
            | inl other ↦
                rw other (some_or_none true (lookup (set_primary names t c) k) (str t) refl)
            | inr only ↦
                rw (only, set_primary-lookup names t c k, first_name k h only)
                  (primary_or_none (has names.primary c) (not (any (λ key. has key c) names.guards))
                    (lookup c k) (str t)
                    (ap (λ x. has x c) (text_eq_sound names.primary k (first_name k h only))))
          ])

    pub all-Holds :
        (keys : List Text)
        → all (includes (all_names names)) keys ≡ true
        → All (Holds t (set_names names t c)) keys
    all-Holds [] h = tt
    all-Holds (k ∷ keys) h =
        let (first, rest) =
          (&&_iff (includes (all_names names) k) (all (includes (all_names names)) keys)).0 h in
        (set_names-Holds k first, all-Holds keys rest)

    primary_has :
        all (includes names.others) names.guards ≡ true
        → any (λ k. has k (set_primary names t c)) (all_names names) ≡ true
    unfolding set_primary
    primary_has h =
        if_intro (λ (d : CandidateRecord N). any (λ k. has k d) (all_names names) ≡ true)
          (has names.primary c || not (any (λ key. has key c) names.guards))
          (λ _. assigned_has names.primary (str t) c names.others)
          (λ kept.
            kept_has (has names.primary c) (any (λ key. has key c) names.guards)
              (any (λ key. has key c) names.others) kept
              (any-all (λ key. has key c) names.others names.guards h))

    pub guarded_has :
        all (includes names.others) names.guards ≡ true
        → any (λ k. has k (set_names names t c)) (all_names names) ≡ true
    unfolding set_names
    guarded_has h =
        any-has (all_names names) (refresh names.others t (set_primary names t c))
          (set_primary names t c) (refresh-has names.others t (set_primary names t c))
        ∙ primary_has h
