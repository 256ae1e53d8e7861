-- ===== src/Alarms/Runtime/Retry.antt =====
-- What becomes of an alarm whose raising could not be recorded.
use superviseur.Prelude.{ℕ, ◌<◌, ◌≡◌, refl, true, Option, none, List, [], ◌∷◌, arith}
use superviseur.Prelude.Float.{Float}
use superviseur.Models.AlarmState.{pending, active_unacked}
use superviseur.Alarms.Machine
use superviseur.Alarms.Machine.{AlarmMachine, Transition, TransitionKind, elapsed, transition}
use superviseur.Alarms.Records.{Effects}
use superviseur.Alarms.Runtime.{RuleRuntime, persist_all, update}
use superviseur.Alarms.Runtime.Persist.{persist-machine}

abbrev raise_transition : Transition
raise_transition = transition pending active_unacked TransitionKind.raised

-- A machine that is pending with no instant to count from, and with a delay.
abbrev pub IsStuck : AlarmMachine → Type 0
IsStuck m = (m.state ≡ pending) × (m.pending_since ≡ none) × (0 < m.delay_s)

update-elapsed :
    (m : AlarmMachine) (now : ℕ)
    → m.state ≡ pending
    → elapsed m now ≡ true
    → Machine.update m true now
      ≡ (record m { state = active_unacked; pending_since = none }, raise_transition ∷ [])
unfolding Machine.update
update-elapsed m now p e = ground arith

update_stuck : (m : AlarmMachine) (now : ℕ) → IsStuck m → Machine.update m true now ≡ (m, [])
unfolding Machine.update
update_stuck m now s = ground arith

module _ {W : Type 0} (fx : Effects W) where
  -- Observations that find the condition true, one after the other, each with its value.
  unfoldable pub observe_true : List (Option Float) → RuleRuntime → W → RuleRuntime × W
  observe_true [] rt w = (rt, w)
  observe_true (v ∷ vs) rt w = let (rt', w') = update fx rt true v w in observe_true vs rt' w'

  update-IsStuck :
      (rt : RuleRuntime) (v : Option Float) (w : W)
      → IsStuck rt.machine
      → IsStuck (update fx rt true v w).0.machine
  unfolding update
  update-IsStuck rt v w s = rw (update_stuck rt.machine (fx.clock w).0 s) s

  observe_true-IsStuck :
      (vs : List (Option Float)) (rt : RuleRuntime) (w : W)
      → IsStuck rt.machine
      → IsStuck (observe_true vs rt w).0.machine
  unfolding observe_true
  observe_true-IsStuck [] rt w s = s
  observe_true-IsStuck (v ∷ vs) rt w s =
      observe_true-IsStuck vs _ (update fx rt true v w).1 (update-IsStuck rt v w s)

  unrecorded_one :
      (rt : RuleRuntime) (w : W)
      → rt.machine.pending_since ≡ none
      → 0 < rt.machine.delay_s
      → (persist_all fx (raise_transition ∷ []) rt w).0.machine.state ≡ pending
      → rt.machine.state ≡ active_unacked
      → IsStuck (persist_all fx (raise_transition ∷ []) rt w).0.machine
  unfolding persist_all
  unrecorded_one rt w n d still raised =
      ground (arith, persist-machine fx raise_transition none rt w)

  unrecorded-IsStuck :
      (rt : RuleRuntime) (v : Option Float) (w : W)
      → rt.machine.state ≡ pending
      → 0 < rt.machine.delay_s
      → elapsed rt.machine (fx.clock w).0 ≡ true
      → (update fx rt true v w).0.machine.state ≡ pending
      → IsStuck (update fx rt true v w).0.machine
  unfolding update
  unrecorded-IsStuck rt v w p d e still =
      let recorded = update-elapsed rt.machine (fx.clock w).0 p e in
      rw recorded (unrecorded_one _ (fx.clock w).1 refl d (rw recorded at still) refl)

  -- If the delay of a pending alarm is over but the raising could not be recorded, so that the
  -- alarm is still pending, and its delay is not zero, then no sequence of further observations
  -- that find the condition true raises it, whatever the store then answers.
  pub unrecorded_never_raised :
      (rt : RuleRuntime) (v : Option Float) (w : W) (vs : List (Option Float))
      → rt.machine.state ≡ pending
      → 0 < rt.machine.delay_s
      → elapsed rt.machine (fx.clock w).0 ≡ true
      → (update fx rt true v w).0.machine.state ≡ pending
      → (observe_true (v ∷ vs) rt w).0.machine.state ≡ pending
  unfolding observe_true
  unrecorded_never_raised rt v w vs p d e still =
      (observe_true-IsStuck vs _ (update fx rt true v w).1
        (unrecorded-IsStuck rt v w p d e still)).0
