-- ===== src/Common/Values.antt =====
-- Values that `JSON.parse` gives, over the type of numbers of the platform. A property that an
-- object lacks reads as `none` (`undefined`).
use mathlib.Core.Bool.{Bool, true, false}
use mathlib.Core.Option.{Option, none, some}
use mathlib.Core.List.{List, [], ◌∷◌}
use miguel_n_ai_trackflow_pr.Common.Tests.{if◌then◌else◌}
use miguel_n_ai_trackflow_pr.Common.Texts.{Text, text_eq}

mutual
  pub data Json (N : Type 0) : Type 0 where
    null : Json N
    bool : Bool → Json N
    num : N → Json N
    str : Text → Json N
    arr : Items N → Json N
    obj : Fields N → Json N

  pub data Items (N : Type 0) : Type 0 where
    nil : Items N
    cons : Json N → Items N → Items N

  pub data Fields (N : Type 0) : Type 0 where
    end : Fields N
    field : Text → Json N → Fields N → Fields N

module _ {N : Type 0} where
  abbrev pub elems : Items N → List (Json N)
  elems nil = []
  elems (cons v vs) = v ∷ elems vs

  unfoldable pub field_of : Fields N → Text → Option (Json N)
  field_of end k = none
  field_of (field j v fs) k = if text_eq j k then some v else field_of fs k

  -- `typeof value === "object" && value !== null`
  abbrev pub is_object : Json N → Bool
  is_object (arr vs) = true
  is_object (obj fs) = true
  is_object _ = false

  -- `value[key]` of an object or an array, for a key that is no index and not `length`
  abbrev pub prop : Json N → Text → Option (Json N)
  prop (obj fs) k = field_of fs k
  prop _ k = none
