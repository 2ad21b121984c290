-- ===== src/Routes/Shapes.antt =====
-- What a route template looks like: routeTemplate of uis/backoffice/lib/telemetry-routes.ts.
use miguel_n_ai_trackflow_pr.Common.{
  &&_iff, All, Bool, Bool-cases, List, Text, [], all, ap, append-nil, arith, codes, if_intro,
  if◌then◌else◌, inl, inr, join, leb, length, length-take, ltb, map, not, refl, starts_with, suc,
  sym, take, true, zero, ℕ, ◌++◌, ◌==◌, ◌||◌, ◌∙◌, ◌∷◌, ◌≡◌, ◌≤◌,
}
use miguel_n_ai_trackflow_pr.Session.Paths.{slash_before, without_end_slashes}
use miguel_n_ai_trackflow_pr.Routes.Hidden.{is_hidden, template-hidden}
use miguel_n_ai_trackflow_pr.Routes.Templates.{
  before_query, ends_path, is_numeric, is_uuid, or_slash, put_first, route_template, segments,
  template_segment, with_slash,
}

-- No question mark and no number sign.
abbrev pub is_clean : Text → Bool
is_clean s = all (λ c. not (ends_path c)) s

is_clean-before_query : (s : Text) → is_clean (before_query s) ≡ true
unfolding before_query
is_clean-before_query [] = refl
is_clean-before_query (c ∷ s) = ground (arith, is_clean-before_query s)

is_clean-or_slash : (s : Text) → is_clean s ≡ true → is_clean (or_slash s) ≡ true
is_clean-or_slash [] h = refl
is_clean-or_slash (c ∷ s) h = h

is_clean-slash_before :
    (c : ℕ) (s : Text) → is_clean (c ∷ s) ≡ true → is_clean (slash_before c s) ≡ true
is_clean-slash_before c [] h = ground arith
is_clean-slash_before c (d ∷ s) h = h

is_clean-without_end_slashes :
    (s : Text) → is_clean s ≡ true → is_clean (without_end_slashes s) ≡ true
unfolding without_end_slashes
is_clean-without_end_slashes [] h = refl
is_clean-without_end_slashes (c ∷ s) h =
    let (here, later) = (&&_iff (not (ends_path c)) (is_clean s)).0 h in
    is_clean-slash_before c (without_end_slashes s)
      ((&&_iff (not (ends_path c)) _).1 (here, is_clean-without_end_slashes s later))

abbrev AllClean : List Text → Type 0
AllClean ts = All (λ t. is_clean t ≡ true) ts

put_first-AllClean :
    (c : ℕ) (ts : List Text) → not (ends_path c) ≡ true → AllClean ts → AllClean (put_first c ts)
put_first-AllClean c [] h k = ((&&_iff (not (ends_path c)) true).1 (h, refl), tt)
put_first-AllClean c (t ∷ ts) h k = ((&&_iff (not (ends_path c)) (is_clean t)).1 (h, k.0), k.1)

segments-AllClean : (s : Text) → is_clean s ≡ true → AllClean (segments s)
unfolding segments
segments-AllClean [] h = (refl, tt)
segments-AllClean (c ∷ s) h =
    let (here, later) = (&&_iff (not (ends_path c)) (is_clean s)).0 h in
    if_intro AllClean (c == 47) (λ slash. (refl, segments-AllClean s later))
      (λ letter. put_first-AllClean c (segments s) here (segments-AllClean s later))

map-AllClean : (ts : List Text) → AllClean ts → AllClean (map template_segment ts)
map-AllClean [] h = tt
map-AllClean (t ∷ ts) h = (
  if_intro (λ u. is_clean u ≡ true) (is_uuid t || is_numeric t) (λ id. refl) (λ plain. h.0),
  map-AllClean ts h.1,
)

is_clean-append : (s t : Text) → is_clean s ≡ true → is_clean t ≡ true → is_clean (s ++ t) ≡ true
is_clean-append [] t h k = k
is_clean-append (c ∷ s) t h k =
    let (here, later) = (&&_iff (not (ends_path c)) (is_clean s)).0 h in
    (&&_iff (not (ends_path c)) (is_clean (s ++ t))).1 (here, is_clean-append s t later k)

is_clean-join : (ts : List Text) → AllClean ts → is_clean (join (codes "/") ts) ≡ true
unfolding join
is_clean-join [] h = refl
is_clean-join (t ∷ []) h = h.0
is_clean-join (t ∷ u ∷ ts) h =
    is_clean-append (t ++ codes "/") (join (codes "/") (u ∷ ts))
      (is_clean-append t (codes "/") h.0 refl) (is_clean-join (u ∷ ts) h.1)

is_clean-take : (n : ℕ) (s : Text) → is_clean s ≡ true → is_clean (take n s) ≡ true
is_clean-take zero s h = refl
is_clean-take (suc n) [] h = refl
is_clean-take (suc n) (c ∷ s) h =
    let (here, later) = (&&_iff (not (ends_path c)) (is_clean s)).0 h in
    (&&_iff (not (ends_path c)) (is_clean (take n s))).1 (here, is_clean-take n s later)

starts_with-with_slash : (t : Text) → starts_with (with_slash t) (codes "/") ≡ true
unfolding starts_with
starts_with-with_slash t =
    if_intro (λ u. starts_with u (codes "/") ≡ true) (starts_with t (codes "/")) (λ h. h)
      (λ h. refl)

starts_with-take :
    (n : ℕ) (t : Text)
    → starts_with t (codes "/") ≡ true
    → starts_with (take (suc n) t) (codes "/") ≡ true
unfolding starts_with
starts_with-take n [] h = h
starts_with-take n (c ∷ t) h = h

-- Nothing, or a query or a fragment with its mark.
abbrev pub is_query : Text → Bool
is_query [] = true
is_query (c ∷ s) = ends_path c

before_query-nothing : (rest : Text) → is_query rest ≡ true → before_query rest ≡ []
unfolding before_query
before_query-nothing [] q = refl
before_query-nothing (c ∷ s) q = rw q refl

before_query-append :
    (path rest : Text)
    → is_clean path ≡ true
    → is_query rest ≡ true
    → before_query (path ++ rest) ≡ path
unfolding before_query
before_query-append [] rest h q = before_query-nothing rest q
before_query-append (c ∷ path) rest h q =
    let (here, later) = (&&_iff (not (ends_path c)) (is_clean path)).0 h in
    if_intro (λ (t : Text). t ≡ c ∷ path) (ends_path c) (λ e. absurd (cc (e, here)))
      (λ e. ap (◌∷◌ c) (before_query-append path rest later q))

-- Every text is a path without a mark and then a query or a fragment, or nothing.
split_query :
    (text : Text)
    → (path : Text) × (rest : Text) × (text ≡ path ++ rest)
      × (is_clean path ≡ true)
      × (is_query rest ≡ true)
split_query [] = ([], [], refl, refl, refl)
split_query (c ∷ s) =
    let (path, rest, same, clean, query) = split_query s in
    elim (Bool-cases (ends_path c)) [
      | inl mark ↦ ([], c ∷ s, refl, refl, mark)
      | inr letter ↦ (
        c ∷ path,
        rest,
        ap (◌∷◌ c) same,
        (&&_iff (not (ends_path c)) (is_clean path)).1 (rw letter refl, clean),
        query,
      )
    ]

-- What the steps after the query make of a path without end slashes.
abbrev pub template_of : Text → Text
template_of path = take 200 (with_slash (join (codes "/") (map template_segment (segments path))))

template_shape :
    (path : Text)
    → is_clean path ≡ true
    → (starts_with (template_of path) (codes "/") ≡ true)
      × (length (template_of path) ≤ 200)
      × (is_clean (template_of path) ≡ true)
      × ((leb 200 (length (template_of path)) || all is_hidden (segments (template_of path)))
          ≡ true)
template_shape path clean =
    let joined = join (codes "/") (map template_segment (segments path)) in
    let clean_joined =
      is_clean-join (map template_segment (segments path))
        (map-AllClean (segments path) (segments-AllClean path clean)) in
    (
      starts_with-take 199 (with_slash joined) (starts_with-with_slash joined),
      omega (arith, length-take 200 (with_slash joined)),
      is_clean-take 200 (with_slash joined) (
          if_intro (λ u. is_clean u ≡ true) (starts_with joined (codes "/")) {x = joined}
            {y = codes "/" ++ joined} (λ h. clean_joined)
            (λ h. is_clean-append (codes "/") joined refl clean_joined)),
      template-hidden path,
    )

trimmed-clean :
    (path : Text)
    → is_clean path ≡ true
    → is_clean (
        if ltb 1 (length (or_slash path))
        then without_end_slashes (or_slash path)
        else or_slash path)
      ≡ true
trimmed-clean path h =
    let clean = is_clean-or_slash path h in
    if_intro (λ u. is_clean u ≡ true) (ltb 1 (length (or_slash path)))
      {x = without_end_slashes (or_slash path)} {y = or_slash path}
      (λ long. is_clean-without_end_slashes (or_slash path) clean) (λ short. clean)

-- A template starts with a slash, has at most 200 code units and no question mark and no number
-- sign; unless it has all 200, no segment of it is a number or a UUID; and it has nothing of the
-- query or of the fragment: whatever query or fragment follows a path without those characters, the
-- template is that of the path alone.
pub route_template_lem :
    (path rest : Text)
    → is_clean path ≡ true
    → is_query rest ≡ true
    → let template = route_template (path ++ rest) in
      (starts_with template (codes "/") ≡ true)
      × (length template ≤ 200)
      × (is_clean template ≡ true)
      × ((leb 200 (length template) || all is_hidden (segments template)) ≡ true)
      × (template ≡ route_template path)
unfolding route_template
route_template_lem path rest clean query =
    let alone = ap before_query (sym (append-nil path)) ∙ before_query-append path [] clean refl in
    let same = before_query-append path rest clean query in
    let (start, bound, marks, hidden) = template_shape _ (trimmed-clean path clean) in
    rw (same, alone) (start, bound, marks, hidden, refl)
