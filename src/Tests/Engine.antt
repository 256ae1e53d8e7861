-- ===== src/Tests/Engine.antt =====
-- The alarm engine with concrete effects: a clock that counts its readings, a store of one rule that
-- may be out of reach, and a Redis that always answers.
use superviseur.Prelude.{
  all, ℕ, ◌+◌, ◌≡◌, ◌≢◌, refl, Bool, true, false, Option, none, some, List, [], ◌∷◌, ◌&&◌, ◌==◌,
  nat_eq, arith, All,
}
use mathlib.Core.Path.{subst}
use superviseur.Prelude.Float.{of_ℕ}
use superviseur.Models.{AlarmKind}
use superviseur.Models.AlarmState.{pending, active_unacked}
use superviseur.Alarms.Machine.{elapsed}
use superviseur.Alarms.Records.{RuleRecord, OpenEvent, Effects}
use superviseur.Alarms.Runtime
use superviseur.Alarms.Runtime.{
  RuleRuntime, AckResult, record_transition, announce, persist, record_ack, signature,
}
use superviseur.Alarms.Runtime.Retry.{observe_true, unrecorded_never_raised}
use superviseur.Alarms.Engine
use superviseur.Alarms.Engine.{
  Rules, index, index_rule, is_comm_lost, for_each, step_found, on_value_rule, tick_rule,
  update_known, refresh_valid,
}
use superviseur.Alarms.Engine.Index.{of_point, of_device, ids_where, index_complete}
use superviseur.Alarms.Machine
use superviseur.Alarms.Engine.Load.{
  load, load_records, load_rule, restore, close_orphans, initial_evaluation, evaluate_latest,
  evaluate_online, initial_rule, last_seen, evaluate_last,
}
use superviseur.Alarms.Rules.{evaluate_value}
use superviseur.Prelude.Float.{fsub}
use superviseur.Alarms.Engine.Reload.{DatesLoaded}
use superviseur.Alarms.Runtime.Linked.{Dates, DatesCreated}
use superviseur.Alarms.Engine.Calls.{
  keeps_event, Call, no_rules, call, calls, open_alarms_have_events,
}

abbrev hot : RuleRecord
hot = record {
  id = 4;
  point_id = 1;
  name = none;
  kind = AlarmKind.high;
  threshold = some (of_ℕ 28);
  hysteresis = of_ℕ 1;
  delay_s = 0;
  severity = "critical";
  notify = [];
  point_name = "T1";
  path = none;
  unit = none;
  object_type = "analog-input";
  object_instance = 1;
  device_id = 9;
  device_instance = 100;
}

abbrev created : Bool → Option ℕ
created true = some 77
created false = none

-- The state counts the readings of the clocks; a store out of reach records nothing.
abbrev effects : Bool → Effects ℕ
effects reachable = record {
  clock = λ w. (w, w + 1);
  wall = λ w. (1000 + w, w + 1);
  load_rules = λ w. (some (hot ∷ []), w);
  open_events = λ w. (some [], w);
  latest_values = λ ids w. (some [], w);
  devices_online = λ w. (some [], w);
  create_event = λ rule at v w. (created reachable, w);
  update_event = λ id u w. (reachable, w);
  user_login = λ u w. (some (some "marie"), w);
  user_role = λ u w. (some (some "operator"), w);
  publish = λ m w. (true, w);
  submit = λ n w. w;
  uuid_text = λ u. "?";
}

abbrev left_open : OpenEvent
left_open = record {
  id = 57;
  rule_id = 4;
  state = active_unacked;
  raised_at = 50;
  acked_at = none;
  acked_by = none;
  cleared_at = none;
  raised_value = none;
}

abbrev hot_day : List Call
hot_day =
    Call.reload
    ∷ Call.value 1 (some (of_ℕ 30))
    ∷ Call.tick
    ∷ Call.acknowledge 77 5
    ∷ Call.value 1 (some (of_ℕ 29))
    ∷ []

hot_day_acked : Engine.find_event 77 (calls (effects true) hot_day no_rules 0).0.rules ≢ none
unfolding calls call load load_records load_rule restore close_orphans initial_evaluation
    evaluate_latest evaluate_online for_each step_found initial_rule Engine.on_value on_value_rule
    Engine.tick tick_rule Engine.acknowledge Engine.find_event Runtime.update persist
    record_transition announce Runtime.acknowledge record_ack signature evaluate_value
    Machine.update Machine.acknowledge Machine.init index index_rule last_seen evaluate_last
    update_known refresh_valid fsub
hot_day_acked = cc

-- A store whose events have the number of their instant plus 7, and that gives one of them as open.
abbrev numbered : Effects ℕ
numbered = record (effects true) {
  open_events = λ w. (some (left_open ∷ []), w);
  create_event = λ rule at v w. (some (at + 7), w);
}

abbrev seven_more : Dates
seven_more id at = id == at + 7

numbered-DatesCreated : DatesCreated seven_more numbered
numbered-DatesCreated rule at v w id e = ground (arith, e)

numbered-DatesLoaded : DatesLoaded seven_more numbered
numbered-DatesLoaded w es e =
    let same : left_open ∷ [] ≡ es = cc e in
    subst (All (λ (x : OpenEvent). seven_more x.id x.raised_at ≡ true)) same (refl, tt)

open_alarms_have_events_example :
    all (λ x. keeps_event seven_more x.1) (calls numbered hot_day no_rules 0).0.rules ≡ true
open_alarms_have_events_example =
    open_alarms_have_events numbered seven_more numbered-DatesCreated numbered-DatesLoaded hot_day 0

-- A rule that waited for its delay, with a store out of reach.
abbrev overdue : RuleRuntime
overdue = record {
  rec = hot;
  machine = record { delay_s = 5; state = pending; pending_since = some 1 };
  condition = true;
  event_id = none;
  raised_at = none;
  acked_at = none;
  acked_by = none;
  cleared_at = none;
  value = some (of_ℕ 30);
  raised_value = none;
  last_valid = of_ℕ 0;
}

overdue_unrecorded : (Runtime.update (effects false) overdue true none 10).0.machine.state ≡ pending
unfolding Runtime.update persist record_transition announce Machine.update
overdue_unrecorded = refl

unrecorded_never_raised_example :
    (observe_true (effects false) (none ∷ some (of_ℕ 31) ∷ none ∷ []) overdue 10).0.machine.state
    ≡ pending
unrecorded_never_raised_example =
    unrecorded_never_raised (effects false) overdue none 10 (some (of_ℕ 31) ∷ none ∷ []) refl
      (omega arith) refl overdue_unrecorded

abbrev two_rules : Rules
two_rules =
    (4, overdue)
    ∷ (5, record overdue { rec = record hot { id = 5; kind = AlarmKind.comm_lost } })
    ∷ []

index_complete_example :
    (of_point 1 (index two_rules) ≡ ids_where (λ rt. rt.rec.point_id == 1) two_rules)
    × (of_device 9 (index two_rules)
        ≡ ids_where (λ rt. is_comm_lost rt.rec.kind && (rt.rec.device_id == 9)) two_rules)
index_complete_example = index_complete two_rules 1 9
