-- ===== src/Alarms/Rules.antt =====
-- The conditions of the alarm rules (backend/app/alarms/rules.py).
pub mod Levels
pub mod EventState
use superviseur.Prelude.{
  ℕ, ◌+◌, ◌≤◌, Bool, true, false, not, ◌&&◌, ◌||◌, Option, none, some, List, [], ◌∷◌, map, leb,
  ◌==◌, nat_eq, if◌then◌else◌, filter,
}
use superviseur.Prelude.Text.{Text, codes, same_text, lower}
use superviseur.Prelude.Int.{pos}
use superviseur.Prelude.Float.{Float, num, flt, fadd, fsub, fabs, is_nan}
use superviseur.Models.{AlarmKind}

-- Membership in `VALUE_KINDS`.
abbrev pub is_value_kind : AlarmKind → Bool
is_value_kind AlarmKind.high = true
is_value_kind AlarmKind.low = true
is_value_kind AlarmKind.state = true
is_value_kind _ = false

-- Membership in `THRESHOLD_KINDS`.
abbrev pub is_threshold_kind : AlarmKind → Bool
is_threshold_kind AlarmKind.stale = true
is_threshold_kind k = is_value_kind k

-- The tests of `evaluate_value` by kind, once value and threshold are known.
compare_value : AlarmKind → Float → Float → Float → Bool → Option Bool
compare_value AlarmKind.high v t h previous = some (flt t v || (previous && flt (fsub t h) v))
compare_value AlarmKind.low v t h previous = some (flt v t || (previous && flt v (fadd t h)))
compare_value AlarmKind.state v t h previous = some (flt (fabs (fsub v t)) (num (pos 1000)))
compare_value _ v t h previous = none

unfoldable pub evaluate_value : AlarmKind → Option Float → Option Float → Float → Bool → Option Bool
unfolding compare_value
evaluate_value kind none threshold h previous = none
evaluate_value kind (some v) none h previous = none
evaluate_value kind (some v) (some t) h previous =
    if is_nan v then none else compare_value kind v t h previous

unfoldable pub is_stale : Float → Float → Bool
is_stale age max_age = flt max_age age

abbrev pub is_joiner : ℕ → Bool
is_joiner c = (c == b'-') || (c == b'_')

-- No letter outside ASCII is lowered to a letter of `normal`.
-- `to_state.lower().replace("-", "").replace("_", "")`
abbrev pub plain_letters : Text → Text
plain_letters text = filter (λ c. not (is_joiner c)) (map lower text)

unfoldable pub is_abnormal_event_state : Text → Bool
is_abnormal_event_state to_state = not (same_text (plain_letters to_state) (codes "normal"))
