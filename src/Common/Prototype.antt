-- ===== src/Common/Prototype.antt =====
-- Keys that every plain object inherits from `Object.prototype`, which `record[key]` and `key in
-- record` see as well as the record's own keys.
use mathlib.Core.Bool.{Bool}
use mathlib.Core.List.{List, [], ◌∷◌}
use miguel_n_ai_trackflow_pr.Common.Texts.{Text, codes, includes}

abbrev pub proto : Text
proto = codes "__proto__"

abbrev pub inherited_keys : List Text
inherited_keys =
    proto
    ∷ codes "constructor"
    ∷ codes "toString"
    ∷ codes "valueOf"
    ∷ codes "toLocaleString"
    ∷ codes "hasOwnProperty"
    ∷ codes "isPrototypeOf"
    ∷ codes "propertyIsEnumerable"
    ∷ codes "__defineGetter__"
    ∷ codes "__defineSetter__"
    ∷ codes "__lookupGetter__"
    ∷ codes "__lookupSetter__"
    ∷ []

unfoldable pub is_inherited : Text → Bool
unfolding includes
is_inherited key = includes inherited_keys key
