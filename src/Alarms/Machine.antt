-- ===== src/Alarms/Machine.antt =====
-- The state machine of one alarm (backend/app/alarms/machine.py). Instants and durations are
-- counted in ticks of the monotonic clock, so `now - since >= delay` is `since + delay ≤ now`.
pub mod Diagram
pub mod Update
pub mod Timing
use superviseur.Prelude.{
  ℕ, ◌+◌, Bool, true, false, Option, none, some, List, [], ◌∷◌, ◌++◌, or_else, leb, if◌then◌else◌,
}
use superviseur.Models.{AlarmState}
use superviseur.Models.AlarmState.{active_unacked, active_acked, cleared_unacked}

pub data TransitionKind : Type 0 where
  pending cancelled raised cleared acked normal : TransitionKind

-- Membership in `PERSISTENT`.
abbrev pub is_persistent : TransitionKind → Bool
is_persistent TransitionKind.pending = false
is_persistent TransitionKind.cancelled = false
is_persistent _ = true

pub record Transition : Type 0 where
  pub from_state : AlarmState
  pub to_state : AlarmState
  pub kind : TransitionKind

-- The property `Transition.persistent`.
abbrev pub persistent : Transition → Bool
persistent t = is_persistent t.kind

abbrev pub transition : AlarmState → AlarmState → TransitionKind → Transition
transition a b k = record { from_state = a; to_state = b; kind = k }

pub record AlarmMachine : Type 0 where
  pub delay_s : ℕ
  pub state : AlarmState
  pub pending_since : Option ℕ

-- A pending alarm is not restored: its delay starts again.
abbrev pub restorable : AlarmState → AlarmState
restorable AlarmState.pending = AlarmState.normal
restorable s = s

-- `AlarmMachine.__init__`
unfoldable pub init : ℕ → AlarmState → AlarmMachine
init delay s = record { delay_s = delay; state = restorable s; pending_since = none }

abbrev pub Output : Type 0
Output = AlarmMachine × List Transition

-- The first `if` of `update`: a condition that appears starts the delay.
start_delay : AlarmState → Bool → ℕ → AlarmMachine → Output
start_delay AlarmState.normal true now m = (
  record m { state = AlarmState.pending; pending_since = some now },
  transition AlarmState.normal AlarmState.pending TransitionKind.pending ∷ [],
)
start_delay _ c now m = (m, [])

-- `now - (pending_since if not None else now) >= delay_s`
abbrev pub elapsed : AlarmMachine → ℕ → Bool
elapsed m now = leb (or_else m.pending_since now + m.delay_s) now

-- The `if`/`elif` chain of `update`.
advance : AlarmState → Bool → ℕ → AlarmMachine → Output
advance AlarmState.pending false now m = (
  record m { state = AlarmState.normal; pending_since = none },
  transition AlarmState.pending AlarmState.normal TransitionKind.cancelled ∷ [],
)
advance AlarmState.pending true now m =
    if elapsed m now
    then (
      record m { state = active_unacked; pending_since = none },
      transition AlarmState.pending active_unacked TransitionKind.raised ∷ [],
    )
    else (m, [])
advance active_unacked false now m = (
  record m { state = cleared_unacked },
  transition active_unacked cleared_unacked TransitionKind.cleared ∷ [],
)
advance active_acked false now m = (
  record m { state = AlarmState.normal },
  transition active_acked AlarmState.normal TransitionKind.normal ∷ [],
)
advance cleared_unacked true now m = (
  record m { state = active_unacked },
  transition cleared_unacked active_unacked TransitionKind.raised ∷ [],
)
advance _ c now m = (m, [])

-- `AlarmMachine.update`
unfoldable pub update : AlarmMachine → Bool → ℕ → Output
unfolding start_delay advance
update m c now =
    let (m1, out1) = start_delay m.state c now m in
    let (m2, out2) = advance m1.state c now m1 in (m2, out1 ++ out2)

acknowledge_in : AlarmState → AlarmMachine → AlarmMachine × Option Transition
acknowledge_in active_unacked m = (
  record m { state = active_acked },
  some (transition active_unacked active_acked TransitionKind.acked),
)
acknowledge_in cleared_unacked m = (
  record m { state = AlarmState.normal },
  some (transition cleared_unacked AlarmState.normal TransitionKind.acked),
)
acknowledge_in _ m = (m, none)

-- `AlarmMachine.acknowledge`
unfoldable pub acknowledge : AlarmMachine → AlarmMachine × Option Transition
unfolding acknowledge_in
acknowledge m = acknowledge_in m.state m
