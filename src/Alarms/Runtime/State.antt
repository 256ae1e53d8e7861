-- ===== src/Alarms/Runtime/State.antt =====
-- A rule's runtime, and the calls on it: state, effects and exceptions.
use superviseur.Prelude.{ℕ, Bool, true, false, Option, none, some, String}
use superviseur.Prelude.Float.{Float}
use superviseur.Alarms.Machine.{AlarmMachine}
use superviseur.Alarms.Records.{RuleRecord}

pub record RuleRuntime : Type 0 where
  pub rec : RuleRecord
  pub machine : AlarmMachine
  pub condition : Bool
  pub event_id : Option ℕ
  pub raised_at : Option ℕ
  pub acked_at : Option ℕ
  pub acked_by : Option String
  pub cleared_at : Option ℕ
  pub value : Option Float
  pub raised_value : Option Float
  pub last_valid : Float

-- `none` is a raised exception; what was assigned before it stays assigned.
abbrev pub Action : Type 0 → Type 0 → Type 0
Action W A = RuleRuntime → W → Option A × RuleRuntime × W

abbrev pub success : Bool → Option (Unit {0})
success true = some tt
success false = none

module _ {W A : Type 0} where
  abbrev pub pure : A → Action W A
  pure a rt w = (some a, rt, w)

  abbrev pub raise : Action W A
  raise rt w = (none, rt, w)

  abbrev pub read : (W → A × W) → Action W A
  read f rt w = let (a, w') = f w in (some a, rt, w')

  -- A call that answers `none` when it raises.
  abbrev pub or_raise : (W → Option A × W) → Action W A
  or_raise f rt w = let (a, w') = f w in (a, rt, w')

module _ {W : Type 0} where
  abbrev pub current : Action W RuleRuntime
  current rt w = (some rt, rt, w)

  abbrev pub change : (RuleRuntime → RuleRuntime) → Action W (Unit {0})
  change f rt w = (some tt, f rt, w)

  abbrev pub always : (W → W) → Action W (Unit {0})
  always f rt w = (some tt, rt, f w)

  -- A call that answers `false` when it raises.
  abbrev pub ensure : (W → Bool × W) → Action W (Unit {0})
  ensure f rt w = let (b, w') = f w in (success b, rt, w')

infixl 5 ◌>>=◌ ◌>>◌
abbrev pub ◌>>=◌ : {W A B : Type 0} → Action W A → (A → Action W B) → Action W B
◌>>=◌ m f rt w =
    let (r, rt', w') = m rt w in elim r [ none ↦ (none, rt', w') | some a ↦ f a rt' w' ]

abbrev pub ◌>>◌ : {W B : Type 0} → Action W (Unit {0}) → Action W B → Action W B
m >> k = m >>= λ _. k
