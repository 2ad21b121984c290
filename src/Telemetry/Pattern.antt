-- ===== src/Telemetry/Pattern.antt =====
-- `EVENT_TYPE_PATTERN` of uis/backoffice/services/telemetry-service.ts, the regular expression
-- `^[a-z]+(_[a-z]+)+$`, as the automaton that reads it.
use miguel_n_ai_trackflow_pr.Common.{
  Bool, Text, [], codes, false, if◌then◌else◌, leb, not, refl, true, ℕ, ◌&&◌, ◌==◌, ◌∷◌, ◌≡◌,
}

abbrev pub is_lower : ℕ → Bool
is_lower c = leb b'a' c && leb c b'z'

-- Where the reader stands: at the start of a word or inside one, and whether it is the first word.
pub data Place : Type 0 where
  starting : Bool → Place
  inside : Bool → Place
  failed : Place

next : Place → ℕ → Place
next (starting first) c = if is_lower c then inside first else failed
next (inside first) c =
    if is_lower c then inside first else if c == b'_' then starting false else failed
next failed c = failed

read_from : Place → Text → Place
read_from p [] = p
read_from p (c ∷ s) = read_from (next p c) s

accepts : Place → Bool
accepts (inside first) = not first
accepts _ = false

unfoldable pub event_type_ok : Text → Bool
unfolding next read_from accepts
event_type_ok s = accepts (read_from (starting true) s)

pattern_tests :
    (event_type_ok (codes "flow_started") ≡ true)
    × (event_type_ok (codes "flow") ≡ false)
    × (event_type_ok (codes "flow_") ≡ false)
    × (event_type_ok (codes "_flow") ≡ false)
    × (event_type_ok (codes "flow__x") ≡ false)
    × (event_type_ok (codes "Flow_x") ≡ false)
unfolding event_type_ok
pattern_tests = (refl, refl, refl, refl, refl, refl)
