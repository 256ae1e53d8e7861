-- ===== src/Tests/Store.antt =====
-- The alarm store in memory on a concrete input.
use superviseur.Prelude.{◌≡◌, refl, false, some, none, [], ◌∷◌}
use superviseur.Prelude.Float.{of_ℕ}
use superviseur.Models.AlarmState.{normal}
use superviseur.Alarms.Store.{MemoryAlarmStore, open_events, new_event, create_event}

-- One alarm is closed, another is open.
abbrev two_events : MemoryAlarmStore
two_events = record {
  rules = [];
  events =
      (7, record (new_event 7 1 100 (some (of_ℕ 30))) { state = normal })
      ∷ (8, new_event 8 2 110 none)
      ∷ [];
  latest = [];
  online = [];
  logins = [];
  roles = [];
  history = [];
  fail = false;
}

three_events :
    open_events (create_event 9 1 120 none two_events).1
    ≡ new_event 8 2 110 none ∷ new_event 9 1 120 none ∷ []
unfolding open_events create_event new_event
three_events = refl
