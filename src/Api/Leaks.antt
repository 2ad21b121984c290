-- ===== src/Api/Leaks.antt =====
-- LEAKED_INTERNALS of uis/backoffice/lib/friendly-error.ts: five patterns, each as a test that reads
-- the text. `i` folds the case of ASCII letters only, as it does without `u`.
use miguel_n_ai_trackflow_pr.Common.{
  Bool, Option, Text, [], before, codes, drop, false, if◌then◌else◌, is_white, leb, map, none, not,
  some, starts_with, ℕ, ◌&&◌, ◌+◌, ◌==◌, ◌||◌, ◌∷◌,
}

abbrev pub is_digit : ℕ → Bool
is_digit c = leb 48 c && leb c 57

abbrev pub is_letter : ℕ → Bool
is_letter c = leb 65 c && leb c 90 || leb 97 c && leb c 122

-- `\w`
abbrev pub is_word_char : ℕ → Bool
is_word_char c = is_letter c || is_digit c || c == 95

-- Lower case, of ASCII.
abbrev pub fold_case : ℕ → ℕ
fold_case c = if leb 65 c && leb c 90 then c + 32 else c

-- Whether the test holds somewhere in the text; it also sees the character before.
unfoldable pub anywhere : (Option ℕ → Text → Bool) → Option ℕ → Text → Bool
anywhere test before [] = test before []
anywhere test before (c ∷ s) = let later = anywhere test (some c) s in test before (c ∷ s) || later

-- `/traceback/i`
unfoldable pub has_traceback : Text → Bool
has_traceback s = anywhere (λ _ t. starts_with (map fold_case t) (codes "traceback")) none s

abbrev pub is_word_before : Option ℕ → Bool
is_word_before none = false
is_word_before (some c) = is_word_char c

-- `[\w$.]* \(`
unfoldable pub ends_frame : Text → Bool
ends_frame [] = false
ends_frame (c ∷ s) =
    let later = ends_frame s in
    if is_word_char c || c == 36 || c == 46 then later else c == 32 && starts_with s (codes "(")

-- `[\w$.]+ \(`
abbrev pub is_frame : Text → Bool
is_frame [] = false
is_frame (c ∷ s) = (is_word_char c || c == 36 || c == 46) && ends_frame s

-- `/\bat [\w$.]+ \(/`
unfoldable pub has_frame : Text → Bool
has_frame s =
    anywhere
      (λ before t.
        not (is_word_before before) && starts_with t (codes "at ") && is_frame (drop 3 t))
      none s

-- `/^\w*(Error|Exception):/`
unfoldable pub starts_with_exception : Text → Bool
starts_with_exception [] = false
starts_with_exception (c ∷ s) =
    let later = starts_with_exception s in
    starts_with (c ∷ s) (codes "Error:")
    || starts_with (c ∷ s) (codes "Exception:")
    || is_word_char c && later

abbrev pub starts_with_digit : Text → Bool
starts_with_digit [] = false
starts_with_digit (c ∷ s) = is_digit c

abbrev pub is_location : Text → Bool
is_location t =
    starts_with t (codes ".py:") && starts_with_digit (drop 4 t)
    || starts_with t (codes ".ts:") && starts_with_digit (drop 4 t)
    || starts_with t (codes ".tsx:") && starts_with_digit (drop 5 t)
    || starts_with t (codes ".js:") && starts_with_digit (drop 4 t)

-- `/\.(py|ts|tsx|js):\d+/`
unfoldable pub has_location : Text → Bool
has_location s = anywhere (λ _ t. is_location t) none s

-- `[a-z]*[\s>]`, without regard to case
unfoldable pub ends_tag : Text → Bool
ends_tag [] = false
ends_tag (c ∷ s) = let later = ends_tag s in if is_letter c then later else is_white c || c == 62

-- `[a-z]+[\s>]`
abbrev pub is_tag_name : Text → Bool
is_tag_name [] = false
is_tag_name (c ∷ s) = is_letter c && ends_tag s

-- `<\/?[a-z]+[\s>]`
abbrev pub is_tag : Text → Bool
is_tag t =
    starts_with t (codes "<")
    && (is_tag_name (drop 1 t) || starts_with t (codes "</") && is_tag_name (drop 2 t))

-- `/<\/?[a-z]+[\s>]/i`
unfoldable pub has_tag : Text → Bool
has_tag s = anywhere (λ _ t. is_tag t) none s

unfoldable pub leaks_internals : Text → Bool
leaks_internals s =
    has_traceback s || has_frame s || starts_with_exception s || has_location s || has_tag s
