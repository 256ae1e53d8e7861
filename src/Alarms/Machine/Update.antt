-- ===== src/Alarms/Machine/Update.antt =====
-- One call of `update` in the alarm machine: it is idempotent and notifies at most once.
use superviseur.Prelude.{ℕ, ◌≤◌, ◌≡◌, Bool, [], arith, filter, length}
use superviseur.Alarms.Machine.{AlarmMachine, persistent, update}

-- Calling `update` again with the same condition at the same instant changes nothing and
-- returns no transition.
pub update_again :
    (m : AlarmMachine) (c : Bool) (now : ℕ)
    → update (update m c now).0 c now ≡ ((update m c now).0, [])
unfolding update
update_again m c now = ground arith

-- One call returns at most one transition that is recorded and notified.
pub update_once :
    (m : AlarmMachine) (c : Bool) (now : ℕ) → length (filter persistent (update m c now).1) ≤ 1
unfolding update
update_once m c now = ground arith
