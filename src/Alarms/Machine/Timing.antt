-- ===== src/Alarms/Machine/Timing.antt =====
-- The delay of an alarm over a whole history of observations and acknowledgements.
use superviseur.Prelude.{
  ℕ, ◌+◌, ◌≤◌, ◌≡◌, ◌↔◌, Bool, true, false, Option, none, some, List, [], ◌∷◌, arith, or_else,
  is_some,
}
use superviseur.Models.{is_open}
use superviseur.Models.AlarmState.{normal, pending, active_unacked, cleared_unacked}
use superviseur.Alarms.Machine.{AlarmMachine, init, update, acknowledge}

-- What happens to a machine: the condition is observed at an instant, or an operator acknowledges.
pub data Happening : Type 0 where
  observe : Bool → ℕ → Happening
  ack : Happening

-- The machine after a history, the newest happening first.
unfoldable pub after : AlarmMachine → List Happening → AlarmMachine
after m [] = m
after m (observe c now ∷ h) = (update (after m h) c now).0
after m (ack ∷ h) = (acknowledge (after m h)).0

-- The instant from which every observation up to the newest one found the condition true.
abbrev pub true_since : List Happening → Option ℕ
true_since [] = none
true_since (observe true now ∷ h) = some (or_else (true_since h) now)
true_since (observe false now ∷ h) = none
true_since (ack ∷ h) = true_since h

record Tracks (delay : ℕ) (m : AlarmMachine) (since : Option ℕ) : Type 0 where
  keeps_delay : m.delay_s ≡ delay
  in_normal : m.state ≡ normal → since ≡ none
  in_pending : m.state ≡ pending → (m.pending_since ≡ since) × (is_some since ≡ true)
  in_cleared : m.state ≡ cleared_unacked → since ≡ none

abbrev next_since : Bool → ℕ → Option ℕ → Option ℕ
next_since true now since = some (or_else since now)
next_since false now since = none

update-Tracks :
    (delay now : ℕ) (c : Bool) (m : AlarmMachine) (since : Option ℕ)
    → Tracks delay m since
    → Tracks delay (update m c now).0 (next_since c now since)
unfolding update
update-Tracks delay now true m since t = ground arith
update-Tracks delay now false m since t = ground arith

acknowledge-Tracks :
    (delay : ℕ) (m : AlarmMachine) (since : Option ℕ)
    → Tracks delay m since
    → Tracks delay (acknowledge m).0 since
unfolding acknowledge
acknowledge-Tracks delay m since t = ground arith

after-Tracks :
    (delay : ℕ) (h : List Happening) → Tracks delay (after (init delay normal) h) (true_since h)
unfolding after
after-Tracks delay [] = unfold init in ground arith
after-Tracks delay (observe true now ∷ h) = update-Tracks delay now true _ _ (after-Tracks delay h)
after-Tracks delay (observe false now ∷ h) =
    update-Tracks delay now false _ _ (after-Tracks delay h)
after-Tracks delay (ack ∷ h) = acknowledge-Tracks delay _ _ (after-Tracks delay h)

raises_step :
    (delay now : ℕ) (m : AlarmMachine) (since : Option ℕ)
    → Tracks delay m since
    → is_open m.state ≡ false
    → ((update m true now).0.state ≡ active_unacked) ↔ (or_else since now + delay ≤ now)
unfolding update
raises_step delay now m since t closed = ground arith

-- Whatever happened to a machine that started in its normal state, if no alarm is open then an
-- observation of a true condition opens one exactly when the condition has been observed true
-- without interruption for at least the delay.
pub raises_after_delay :
    (delay now : ℕ) (h : List Happening)
    → is_open (after (init delay normal) h).state ≡ false
    → ((after (init delay normal) (observe true now ∷ h)).state ≡ active_unacked)
      ↔ (or_else (true_since h) now + delay ≤ now)
raises_after_delay delay now h closed =
    unfold after in raises_step delay now _ _ (after-Tracks delay h) closed
