-- ===== src/Tests/Machine.antt =====
-- The alarm machine on concrete inputs.
use superviseur.Prelude.{◌+◌, ◌≤◌, ◌≡◌, ◌↔◌, refl, true, false, none, some, List, [], ◌∷◌, or_else}
use superviseur.Models.AlarmState.{normal, pending, active_unacked}
use superviseur.Alarms.Machine
use superviseur.Alarms.Machine.{AlarmMachine, persistent}
use superviseur.Alarms.Machine.Diagram.{Walk, update-Walk}
use superviseur.Alarms.Machine.Timing.{
  Happening, observe, ack, after, true_since, raises_after_delay,
}

abbrev waiting : AlarmMachine
waiting = record { delay_s = 30; state = pending; pending_since = some 100 }

raised_after_thirty : (Machine.update waiting true 130).0.state ≡ active_unacked
unfolding Machine.update
raised_after_thirty = refl

still_waiting : (Machine.update waiting true 129).0 ≡ waiting
unfolding Machine.update
still_waiting = refl

update-Walk_example :
    Walk
      (some true)
      pending
      (Machine.update waiting true 130).1
      (Machine.update waiting true 130).0.state
update-Walk_example = update-Walk waiting true 130

abbrev raised : AlarmMachine
raised = record { delay_s = 30; state = active_unacked; pending_since = none }

-- An alarm that was raised, cleared and acknowledged; then the condition is seen from 200 on.
abbrev day : List Happening
day =
    observe true 210
    ∷ observe true 200
    ∷ ack
    ∷ observe false 150
    ∷ observe true 140
    ∷ observe true 100
    ∷ []

raises_after_delay_example :
    ((after (Machine.init 30 normal) (observe true 230 ∷ day)).state ≡ active_unacked)
    ↔ (or_else (true_since day) 230 + 30 ≤ 230)
raises_after_delay_example =
    raises_after_delay 30 230 day
      (unfold after Machine.init Machine.update Machine.acknowledge in refl)
