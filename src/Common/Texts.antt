-- ===== src/Common/Texts.antt =====
-- Texts as lists of UTF-16 code units, with the string methods that the source calls.
use Prim.Native.Char.{code}
use Prim.Native.Nat.{ℕ, suc, ◌≤◌}
use Prim.Native.String.{String}
use mathlib.Core.Path.{◌≡◌, refl, ap, sym, ◌∙◌}
use mathlib.Core.Logic.{◌↔◌}
use mathlib.Core.Bool.{Bool, true, false, not, ◌&&◌, ◌||◌}
use mathlib.Core.List.{List, [], ◌∷◌, ◌++◌, append-nil, append_assoc}
use mathlib.Core.Logic.{inl, inr}
use native.Mathlib.Omega.{arith}
use miguel_n_ai_trackflow_pr.Common.Tests.{Bool-cases, if◌then◌else◌, leb, ◌==◌}
use miguel_n_ai_trackflow_pr.Common.Lists.{length}

abbrev pub Text : Type 0
Text = List ℕ

-- A literal of the source. Every character of the source's literals is one code unit.
abbrev pub codes : String → Text
codes String.[] = []
codes (String.◌∷◌ c s) = code c ∷ codes s

-- `===` on strings
unfoldable pub text_eq : Text → Text → Bool
text_eq [] [] = true
text_eq (a ∷ s) (b ∷ t) = a == b && text_eq s t
text_eq _ _ = false

pub text_eq_refl : (s : Text) → text_eq s s ≡ true
unfolding text_eq
text_eq_refl [] = refl
text_eq_refl (a ∷ s) = ground (arith, text_eq_refl s)

pub text_eq_sound : (s t : Text) → text_eq s t ≡ true → s ≡ t
unfolding text_eq
text_eq_sound [] [] h = refl
text_eq_sound [] (b ∷ t) h = cc
text_eq_sound (a ∷ s) [] h = cc
text_eq_sound (a ∷ s) (b ∷ t) h = ground (arith, text_eq_sound s t)

pub text_eq_iff : (s t : Text) → (text_eq s t ≡ true) ↔ (s ≡ t)
text_eq_iff s t = (text_eq_sound s t, λ e. rw e (text_eq_refl t))

-- The code units that `trim` removes: WhiteSpace and LineTerminator of ECMAScript.
unfoldable pub is_white : ℕ → Bool
is_white c =
    leb 9 c && leb c 13
    || c == 32
    || c == 160
    || c == 0x1680
    || leb 0x2000 c && leb c 0x200a
    || c == 0x2028
    || c == 0x2029
    || c == 0x202f
    || c == 0x205f
    || c == 0x3000
    || c == 0xfeff

unfoldable pub trim_start : Text → Text
trim_start [] = []
trim_start (c ∷ s) = if is_white c then trim_start s else c ∷ s

-- Puts `c` before what is left of the tail.
abbrev keep_before : ℕ → Text → Text
keep_before c [] = if is_white c then [] else c ∷ []
keep_before c (d ∷ s) = c ∷ d ∷ s

unfoldable pub trim_end : Text → Text
trim_end [] = []
trim_end (c ∷ s) = keep_before c (trim_end s)

unfoldable pub trim : Text → Text
unfolding trim_start trim_end is_white
trim s = trim_end (trim_start s)

-- `!text`
abbrev pub is_empty : Text → Bool
is_empty [] = true
is_empty (c ∷ s) = false

-- `value.trim()` as a test
abbrev pub is_written : Text → Bool
is_written t = not (is_empty (trim t))

length-trim_start : (s : Text) → length (trim_start s) ≤ length s
unfolding trim_start
length-trim_start [] = omega arith
length-trim_start (c ∷ s) = ground (arith, length-trim_start s)

length-keep_before : (c : ℕ) (s : Text) → length (keep_before c s) ≤ suc (length s)
length-keep_before c [] = ground arith
length-keep_before c (d ∷ s) = omega arith

length-trim_end : (s : Text) → length (trim_end s) ≤ length s
unfolding trim_end
length-trim_end [] = omega arith
length-trim_end (c ∷ s) = omega (arith, length-trim_end s, length-keep_before c (trim_end s))

pub length-trim : (s : Text) → length (trim s) ≤ length s
unfolding trim
length-trim s = omega (arith, length-trim_end (trim_start s), length-trim_start s)

-- `text.startsWith(prefix)`
unfoldable pub starts_with : Text → Text → Bool
starts_with s [] = true
starts_with [] (p ∷ ps) = false
starts_with (c ∷ s) (p ∷ ps) = c == p && starts_with s ps

-- `texts.includes(text)`
unfoldable pub includes : List Text → Text → Bool
includes [] t = false
includes (s ∷ ss) t = text_eq s t || includes ss t

-- `texts.join(separator)`
unfoldable pub join : Text → List Text → Text
join sep [] = []
join sep (s ∷ []) = s
join sep (s ∷ t ∷ ts) = s ++ sep ++ join sep (t ∷ ts)

trimmed : trim (codes "  a b ") ≡ codes "a b"
unfolding trim
trimmed = refl

-- Only white space.
abbrev pub IsBlank : Text → Type 0
IsBlank [] = Unit
IsBlank (c ∷ s) = (is_white c ≡ true) × IsBlank s

trim_start-blank : (w s : Text) → IsBlank w → trim_start (w ++ s) ≡ trim_start s
unfolding trim_start
trim_start-blank [] s h = refl
trim_start-blank (c ∷ w) s (h, hs) = rw h (trim_start-blank w s hs)

trim_end-blank : (w : Text) → IsBlank w → trim_end w ≡ []
unfolding trim_end
trim_end-blank [] h = refl
trim_end-blank (c ∷ w) (h, hs) = rw (trim_end-blank w hs, h) refl

trim_end-append-blank : (s w : Text) → IsBlank w → trim_end (s ++ w) ≡ trim_end s
unfolding trim_end
trim_end-append-blank [] w h = trim_end-blank w h
trim_end-append-blank (c ∷ s) w h = ap (keep_before c) (trim_end-append-blank s w h)

trim-append-blank :
    (s w : Text) → IsBlank w → trim_end (trim_start (s ++ w)) ≡ trim_end (trim_start s)
unfolding trim_start
trim-append-blank [] w h =
    ap (λ t. trim_end (trim_start t)) (sym (append-nil w)) ∙ ap trim_end (trim_start-blank w [] h)
trim-append-blank (c ∷ s) w h = elim (Bool-cases (is_white c)) [
  | inl white ↦ rw white (trim-append-blank s w h)
  | inr black ↦ rw black (trim_end-append-blank (c ∷ s) w h)
]

-- White space around a text does not matter to `trim`.
pub trim-pad : (v s w : Text) → IsBlank v → IsBlank w → trim (v ++ s ++ w) ≡ trim s
unfolding trim
trim-pad v s w h k =
    ap (λ t. trim_end (trim_start t)) (append_assoc v s w)
    ∙ ap trim_end (trim_start-blank v (s ++ w) h)
    ∙ trim-append-blank s w k

pub trim-blank : (w : Text) → IsBlank w → trim w ≡ []
unfolding trim trim_start trim_end
trim-blank w h =
    ap (λ t. trim_end (trim_start t)) (sym (append-nil w)) ∙ ap trim_end (trim_start-blank w [] h)

trim_end-keep_before :
    (c : ℕ) (s : Text) → trim_end s ≡ s → trim_end (keep_before c s) ≡ keep_before c s
unfolding trim_end
trim_end-keep_before c [] h = ground arith
trim_end-keep_before c (d ∷ s) h = ap (keep_before c) h

trim_end-trim_end : (s : Text) → trim_end (trim_end s) ≡ trim_end s
unfolding trim_end
trim_end-trim_end [] = refl
trim_end-trim_end (c ∷ s) = trim_end-keep_before c (trim_end s) (trim_end-trim_end s)

trim_start-keep_before :
    (c : ℕ) (s : Text) → is_white c ≡ false → trim_start (keep_before c s) ≡ keep_before c s
unfolding trim_start
trim_start-keep_before c [] h = ground arith
trim_start-keep_before c (d ∷ s) h = rw h refl

trim_start-trim : (s : Text) → trim_start (trim_end (trim_start s)) ≡ trim_end (trim_start s)
unfolding trim_start trim_end
trim_start-trim [] = refl
trim_start-trim (c ∷ s) = elim (Bool-cases (is_white c)) [
  | inl white ↦ rw white (trim_start-trim s)
  | inr black ↦ rw black (trim_start-keep_before c (trim_end s) black)
]

-- A trimmed text has nothing to trim.
pub trim-trim : (s : Text) → trim (trim s) ≡ trim s
unfolding trim
trim-trim s = ap trim_end (trim_start-trim s) ∙ trim_end-trim_end (trim_start s)
