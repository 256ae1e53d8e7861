-- ===== src/Alarms/Rules/Levels.antt =====
-- The level rules `high` and `low`: zones, hysteresis and symmetry.
use superviseur.Prelude.{◌≡◌, ◌↔◌, ◌⊎◌, Bool, true, false, Option, none, some, arith, if◌then◌else◌}
use superviseur.Prelude.Int.{ℤ, pos, leb_ℤ, ◌-ℤ◌, ◌≤ℤ◌}
use superviseur.Prelude.Float.{Float, num, is_nan, negate, fsub, fadd}
use superviseur.Models.{AlarmKind}
use superviseur.Alarms.Rules.{evaluate_value, is_value_kind}

-- With a hysteresis of zero or more, a `high` rule at finite numbers is false from the threshold
-- minus the hysteresis downwards, keeps its previous condition from there up to the threshold, and
-- is true above it.
pub high_zones :
    (v t h : ℤ) (previous : Bool)
    → pos 0 ≤ℤ h
    → evaluate_value AlarmKind.high (some (num v)) (some (num t)) (num h) previous
      ≡ some (if leb_ℤ v (t -ℤ h) then false else if leb_ℤ v t then previous else true)
unfolding evaluate_value fsub
high_zones v t h true p = ground arith
high_zones v t h false p = ground arith

-- A `low` rule is the mirror image of a `high` rule: it gives for a value what the `high` rule
-- gives for the opposite value at the opposite threshold, for every float.
pub low_mirrors_high :
    (v t h : Float) (previous : Bool)
    → evaluate_value AlarmKind.low (some v) (some t) h previous
      ≡ evaluate_value AlarmKind.high (some (negate v)) (some (negate t)) h previous
unfolding evaluate_value fsub fadd
low_mirrors_high v t h previous = ground arith

abbrev pub is_unknown : Option Float → Bool
is_unknown none = true
is_unknown (some v) = is_nan v

-- A rule has no information exactly when its kind does not read values, the value is missing or
-- NaN, or the threshold is missing.
pub no_information :
    (k : AlarmKind) (v t : Option Float) (h : Float) (previous : Bool)
    → (evaluate_value k v t h previous ≡ none)
      ↔ ((is_value_kind k ≡ false) ⊎ (is_unknown v ≡ true) ⊎ (t ≡ none))
unfolding evaluate_value
no_information k v t h previous = ground arith
