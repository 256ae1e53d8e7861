-- ===== src/Tests/Rules.antt =====
-- The rules on concrete inputs.
use superviseur.Prelude.{◌≡◌, refl, true, false, Option, none, some, arith, if◌then◌else◌}
use superviseur.Prelude.Int.{pos, leb_ℤ, ◌-ℤ◌}
use superviseur.Prelude.Float.{Float, num}
use superviseur.Prelude.Text.{codes}
use superviseur.Models.{AlarmKind}
use superviseur.Alarms.Rules.{evaluate_value, is_abnormal_event_state}
use superviseur.Alarms.Rules.Levels.{high_zones}

high_zones_example :
    evaluate_value AlarmKind.high (some (num (pos 27))) (some (num (pos 28))) (num (pos 2)) true
    ≡ some (
        if leb_ℤ (pos 27) (pos 28 -ℤ pos 2)
        then false
        else if leb_ℤ (pos 27) (pos 28)
        then true
        else true)
high_zones_example = high_zones (pos 27) (pos 28) (pos 2) true (omega arith)

abbrev no_threshold : Option Float
no_threshold = none

dashed_normal : is_abnormal_event_state (codes "NOR_mal") ≡ false
unfolding is_abnormal_event_state
dashed_normal = refl
