-- ===== src/Alarms/Store.antt =====
-- The store of the alarm engine in memory (backend/app/alarms/store.py, MemoryAlarmStore). The ids
-- that `uuid4` draws are an argument of the operation that draws one.
use superviseur.Prelude.{
  ℕ, ◌≡◌, refl, ap, Bool, true, false, not, Option, none, some, List, [], ◌∷◌, ◌++◌, String, ◌==◌,
  nat_eq, any, filter, or_else, if◌then◌else◌, Bool-cases, inl, inr,
}
use superviseur.Prelude.Float.{Float}
use superviseur.Prelude.Dict.{Dict, lookup, insert, values}
use superviseur.Models.{AlarmState, is_normal}
use superviseur.Models.AlarmState.{active_unacked}
use superviseur.Alarms.Records.{RuleRecord, OpenEvent, LatestValue, EventUpdate}

-- An entry of the store's history.
pub data Change : Type 0 where
  created : ℕ → AlarmState → Change
  updated : ℕ → EventUpdate → Change

pub record MemoryAlarmStore : Type 0 where
  pub rules : List RuleRecord
  pub events : Dict ℕ OpenEvent
  pub latest : Dict ℕ LatestValue
  pub online : Dict ℕ Bool
  pub logins : Dict ℕ String
  pub roles : Dict ℕ String
  pub history : List Change
  pub fail : Bool

-- `open_events`
unfoldable pub open_events : MemoryAlarmStore → List OpenEvent
open_events s = filter (λ e. not (is_normal e.state)) (values s.events)

unfoldable pub new_event : ℕ → ℕ → ℕ → Option Float → OpenEvent
new_event id rule at v = record {
  id = id;
  rule_id = rule;
  state = active_unacked;
  raised_at = at;
  acked_at = none;
  acked_by = none;
  cleared_at = none;
  raised_value = v;
}

-- `create_event`, with the id drawn; `none` is the exception of a store out of reach.
unfoldable pub create_event :
    ℕ → ℕ → ℕ → Option Float → MemoryAlarmStore → Option ℕ × MemoryAlarmStore
create_event id rule at v s = if s.fail then (none, s) else (
  some id,
  record s {
    events = insert id (new_event id rule at v) s.events;
    history = s.history ++ created id active_unacked ∷ [];
  },
)

-- The assignments of `setattr` for the columns that an update names.
unfoldable pub assign : EventUpdate → OpenEvent → OpenEvent
assign u e = record e {
  state = u.state;
  cleared_at = or_else u.cleared_at e.cleared_at;
  acked_at = elim u.acked [ none ↦ e.acked_at | some (now, by) ↦ some now ];
  acked_by = elim u.acked [ none ↦ e.acked_by | some (now, by) ↦ by ];
}

update_found : Option OpenEvent → ℕ → EventUpdate → MemoryAlarmStore → Bool × MemoryAlarmStore
update_found none id u s = (false, s)
update_found (some e) id u s = (
  true,
  record s { events = insert id (assign u e) s.events; history = s.history ++ updated id u ∷ [] },
)

-- `update_event`; `false` is the exception of a store out of reach, or of an unknown event.
unfoldable pub update_event : ℕ → EventUpdate → MemoryAlarmStore → Bool × MemoryAlarmStore
unfolding update_found assign
update_event id u s =
    let found = update_found (lookup id s.events) id u s in if s.fail then (false, s) else found

-- `latest_values`
unfoldable pub latest_values : List ℕ → MemoryAlarmStore → Dict ℕ LatestValue
latest_values ids s = filter (λ (x : ℕ × LatestValue). any (λ id. id == x.0) ids) s.latest

-- `user_login` and `user_role`
unfoldable pub user_login : ℕ → MemoryAlarmStore → Option String
user_login user s = lookup user s.logins

unfoldable pub user_role : ℕ → MemoryAlarmStore → Option String
user_role user s = lookup user s.roles

open_values : Dict ℕ OpenEvent → List OpenEvent
open_values d = filter (λ e. not (is_normal e.state)) (values d)

open_values-insert :
    (id : ℕ) (e : OpenEvent) (d : Dict ℕ OpenEvent)
    → lookup id d ≡ none
    → is_normal e.state ≡ false
    → open_values (insert id e d) ≡ open_values d ++ e ∷ []
unfolding open_values
open_values-insert id e [] h n = rw n refl
open_values-insert id e ((j, x) ∷ d) h n = elim (Bool-cases (j == id)) [
  | inl same ↦ let none_there : some x ≡ none = rw same at h in cc
  | inr other ↦
      let rest = open_values-insert id e d (rw other at h) n in
      elim (Bool-cases (is_normal x.state)) [
        | inl closed ↦ rw (other, closed) rest
        | inr opened ↦ rw (other, opened) (ap (λ ys. x ∷ ys) rest)
      ]
]

-- While the store is in reach, the open events after a creation under a new id are those before it
-- and then the new one.
pub open_events-create_event :
    (id rule at : ℕ) (v : Option Float) (s : MemoryAlarmStore)
    → s.fail ≡ false
    → lookup id s.events ≡ none
    → open_events (create_event id rule at v s).1 ≡ open_events s ++ new_event id rule at v ∷ []
unfolding open_events create_event
open_events-create_event id rule at v s reached fresh = rw reached (
    unfold open_values new_event in
    open_values-insert id (new_event id rule at v) s.events fresh refl)
