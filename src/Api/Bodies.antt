-- ===== src/Api/Bodies.antt =====
-- The error bodies that uis/backoffice/lib/api-client.ts reads, from formatValidationDetail to
-- extractApiProblems.
use miguel_n_ai_trackflow_pr.Common.{
  Fields, Json, List, Numbers, Option, Text, [], arr, codes, drop, elems, field_of, if◌then◌else◌,
  is_empty, is_object, join, keep, map, none, num, obj, or_else, prop, some, str, trim, ℕ, ◌++◌,
  ◌∷◌,
}

-- A field and what is wrong with it; the empty text for no field.
pub record ApiFieldError : Type 0 where
  pub at : Text
  pub message : Text

abbrev pub api_field_error : Text → Text → ApiFieldError
api_field_error at message = record { at = at; message = message }

-- `typeof value === "string" && value.trim() ? value.trim() : undefined`
abbrev pub trimmed_text : {N : Type 0} → Option (Json N) → Option Text
trimmed_text (some (str t)) = if is_empty (trim t) then none else some (trim t)
trimmed_text _ = none

abbrev pub also : Option ApiFieldError → List ApiFieldError → List ApiFieldError
also none ps = ps
also (some p) ps = p ∷ ps

-- `problems.length > 0 ? problems : other`
abbrev pub first_nonempty : List ApiFieldError → List ApiFieldError → List ApiFieldError
first_nonempty [] others = others
first_nonempty (p ∷ ps) others = p ∷ ps

abbrev pub invalid_value : Text
invalid_value = codes "Invalid value"

module _ {N : Type 0} where
  -- `value.detail` of an object, and `undefined` of anything else
  abbrev pub detail_of : Json N → Option (Json N)
  detail_of payload = if is_object payload then prop payload (codes "detail") else none

  abbrev pub plain_text : Option (Json N) → Text
  plain_text (some (str t)) = t
  plain_text _ = []

  -- The fields of an object that is no array.
  abbrev pub problem_of : Fields N → Option Text → Option ApiFieldError
  problem_of fs none = none
  problem_of fs (some message) =
      some (api_field_error (plain_text (field_of fs (codes "field"))) message)

  unfoldable pub read_problem_detail : Option (Json N) → Option ApiFieldError
  read_problem_detail (some (obj fs)) = problem_of fs (trimmed_text (field_of fs (codes "message")))
  read_problem_detail _ = none

  -- `items.filter(isObject)`
  abbrev pub objects : List (Json N) → List (Json N)
  objects vs = keep is_object vs

  -- The elements of an array, and `none` for what is no array.
  abbrev pub array_of : Option (Json N) → Option (List (Json N))
  array_of (some (arr vs)) = some (elems vs)
  array_of _ = none

  abbrev pub text_parts : List (Json N) → List Text
  text_parts [] = []
  text_parts (str t ∷ vs) = t ∷ text_parts vs
  text_parts (v ∷ vs) = text_parts vs

  unfoldable pub field_error_of : Json N → ApiFieldError
  field_error_of item =
      api_field_error
        (join (codes ".") (drop 1 (text_parts (or_else (array_of (prop item (codes "loc"))) []))))
        (or_else (trimmed_text (prop item (codes "msg"))) invalid_value)

  unfoldable pub extract_api_field_errors : Json N → List ApiFieldError
  extract_api_field_errors payload =
      map field_error_of (objects (or_else (array_of (detail_of payload)) []))

  -- The problems that could be read, in order.
  unfoldable pub read_problems_of : List (Json N) → List ApiFieldError
  read_problems_of [] = []
  read_problems_of (v ∷ vs) = also (read_problem_detail (some v)) (read_problems_of vs)

  unfoldable pub extract_api_problems : Json N → List ApiFieldError
  extract_api_problems payload =
      if is_object payload
      then first_nonempty (read_problems_of (or_else (array_of (prop payload (codes "errors"))) []))
          (also (read_problem_detail (prop payload (codes "detail"))) [])
      else []

abbrev pub with_path : Text → Text → Text
with_path path message = if is_empty path then message else path ++ codes ": " ++ message

-- `messages.length > 0 ? messages.join(" · ") : undefined`
abbrev pub joined : List Text → Option Text
joined [] = none
joined (t ∷ ts) = some (join (codes " · ") (t ∷ ts))

abbrev pub problem_message : Option ApiFieldError → Option Text
problem_message none = none
problem_message (some p) = some p.message

module _ {N : Type 0} (n : Numbers N) where
  abbrev pub path_parts : List (Json N) → List Text
  path_parts [] = []
  path_parts (str t ∷ vs) = t ∷ path_parts vs
  path_parts (num a ∷ vs) = n.show a ∷ path_parts vs
  path_parts (v ∷ vs) = path_parts vs

  unfoldable pub format_validation_detail : Json N → Text
  format_validation_detail detail =
      with_path
        (join (codes ".") (drop 1 (path_parts (or_else (array_of (prop detail (codes "loc"))) []))))
        (or_else (trimmed_text (prop detail (codes "msg"))) invalid_value)

  -- The last two attempts, after the text of the body.
  abbrev pub message_of : Option (Json N) → ℕ → Text
  message_of detail status = or_else (problem_message (read_problem_detail detail)) (
      or_else (joined (map format_validation_detail (objects (or_else (array_of detail) []))))
        (codes "Request failed with status " ++ n.show (n.of_ℕ status)))

  unfoldable pub extract_api_error_message : Json N → ℕ → Text
  extract_api_error_message payload status =
      or_else (trimmed_text (detail_of payload)) (message_of (detail_of payload) status)
