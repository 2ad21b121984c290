-- ===== src/Routes/Hidden.antt =====
-- That a route template names no record: template_segment over the segments of a path, for
-- routeTemplate of uis/backoffice/lib/telemetry-routes.ts.
use miguel_n_ai_trackflow_pr.Common.{
  &&_iff, All, Bool, Bool-cases, List, Text, [], all, ap, arith, codes, false, if_intro, inl, inr,
  join, leb, length, length-take, map, not, refl, starts_with, subst, suc, sym, take, true, zero, ℕ,
  ◌++◌, ◌==◌, ◌||◌, ◌∙◌, ◌∷◌, ◌≡◌, ◌≤◌,
}
use miguel_n_ai_trackflow_pr.Routes.Templates.{
  has_groups, is_numeric, is_uuid, put_first, segments, template_segment, with_slash,
}

-- Neither a number nor a UUID.
abbrev pub is_hidden : Text → Bool
is_hidden segment = not (is_uuid segment || is_numeric segment)

abbrev AllHidden : List Text → Type 0
AllHidden ts = All (λ t. is_hidden t ≡ true) ts

-- Without a slash.
abbrev is_plain : Text → Bool
is_plain t = all (λ c. not (c == 47)) t

abbrev AllPlain : List Text → Type 0
AllPlain ts = All (λ t. is_plain t ≡ true) ts

put_first-AllPlain :
    (c : ℕ) (ts : List Text) → (c == 47) ≡ false → AllPlain ts → AllPlain (put_first c ts)
put_first-AllPlain c [] e h = (rw e refl, tt)
put_first-AllPlain c (t ∷ ts) e (h, hs) = (rw (e, h) refl, hs)

segments-AllPlain : (s : Text) → AllPlain (segments s)
unfolding segments
segments-AllPlain [] = (refl, tt)
segments-AllPlain (c ∷ s) =
    if_intro AllPlain (c == 47) (λ slash. (refl, segments-AllPlain s))
      (λ letter. put_first-AllPlain c (segments s) letter (segments-AllPlain s))

segments-slash : (t s : Text) → is_plain t ≡ true → segments (t ++ codes "/" ++ s) ≡ t ∷ segments s
unfolding segments
segments-slash [] s h = refl
segments-slash (c ∷ t) s h =
    let (here, later) = (&&_iff (not (c == 47)) (is_plain t)).0 h in
    if_intro (λ (r : List Text). r ≡ (c ∷ t) ∷ segments s) (c == 47) (λ e. absurd (cc (e, here)))
      (λ e. ap (put_first c) (segments-slash t s later))

segments-plain : (t : Text) → is_plain t ≡ true → segments t ≡ t ∷ []
unfolding segments
segments-plain [] h = refl
segments-plain (c ∷ t) h =
    let (here, later) = (&&_iff (not (c == 47)) (is_plain t)).0 h in
    if_intro (λ (r : List Text). r ≡ (c ∷ t) ∷ []) (c == 47) (λ e. absurd (cc (e, here)))
      (λ e. ap (put_first c) (segments-plain t later))

-- Splitting undoes joining.
segments-join :
    (t : Text) (ts : List Text) → AllPlain (t ∷ ts) → segments (join (codes "/") (t ∷ ts)) ≡ t ∷ ts
unfolding join
segments-join t [] (h, hs) = segments-plain t h
segments-join t (u ∷ ts) (h, hs) =
    segments-slash t (join (codes "/") (u ∷ ts)) h ∙ ap (◌∷◌ t) (segments-join u ts hs)

template_segment-plain : (t : Text) → is_plain t ≡ true → is_plain (template_segment t) ≡ true
template_segment-plain t h =
    if_intro (λ u. is_plain u ≡ true) (is_uuid t || is_numeric t) (λ id. refl) (λ other. h)

template_segment-hidden : (t : Text) → is_hidden (template_segment t) ≡ true
unfolding is_uuid has_groups
template_segment-hidden t =
    if_intro (λ u. is_hidden u ≡ true) (is_uuid t || is_numeric t) (λ id. refl)
      (λ other. rw other refl)

map-AllPlain : (ts : List Text) → AllPlain ts → AllPlain (map template_segment ts)
map-AllPlain [] h = tt
map-AllPlain (t ∷ ts) (h, hs) = (template_segment-plain t h, map-AllPlain ts hs)

map-AllHidden : (ts : List Text) → AllHidden (map template_segment ts)
map-AllHidden [] = tt
map-AllHidden (t ∷ ts) = (template_segment-hidden t, map-AllHidden ts)

joined-AllHidden :
    (ts : List Text) → AllPlain ts → AllHidden ts → AllHidden (segments (join (codes "/") ts))
unfolding segments join is_uuid has_groups
joined-AllHidden [] p h = (refl, tt)
joined-AllHidden (t ∷ ts) p h = subst AllHidden (sym (segments-join t ts p)) h

with_slash-AllHidden : (t : Text) → AllHidden (segments t) → AllHidden (segments (with_slash t))
unfolding segments is_uuid has_groups
with_slash-AllHidden t h =
    if_intro (λ (u : Text). AllHidden (segments u)) (starts_with t (codes "/")) (λ e. h)
      (λ e. (refl, h))

AllHidden-all : (ts : List Text) → AllHidden ts → all is_hidden ts ≡ true
AllHidden-all [] h = refl
AllHidden-all (t ∷ ts) (h, hs) = rw (h, AllHidden-all ts hs) refl

take_of_length : (n : ℕ) (s : Text) → length s ≤ n → take n s ≡ s
take_of_length zero [] h = refl
take_of_length zero (c ∷ s) h = absurd (omega arith)
take_of_length (suc n) [] h = refl
take_of_length (suc n) (c ∷ s) h = ap (◌∷◌ c) (take_of_length n s (omega arith))

-- A template that is not cut off has no segment that is a number or a UUID.
pub template-hidden :
    (path : Text)
    → let whole = with_slash (join (codes "/") (map template_segment (segments path))) in
      (leb 200 (length (take 200 whole)) || all is_hidden (segments (take 200 whole))) ≡ true
template-hidden path =
    let ts = map template_segment (segments path) in
    let whole = with_slash (join (codes "/") ts) in
    let hidden = AllHidden-all (segments whole) (
      with_slash-AllHidden (join (codes "/") ts) (
        joined-AllHidden ts (map-AllPlain (segments path) (segments-AllPlain path))
          (map-AllHidden (segments path)))) in
    elim (Bool-cases (leb 200 (length (take 200 whole)))) [
      | inl long ↦ rw long refl
      | inr short ↦
          let uncut : take 200 whole ≡ whole =
            take_of_length 200 whole (ground (arith, length-take 200 whole)) in
          rw short (ap (λ t. all is_hidden (segments t)) uncut ∙ hidden)
    ]
