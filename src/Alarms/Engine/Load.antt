-- ===== src/Alarms/Engine/Load.antt =====
-- `load`: the rules are read again, known ones keep their state, and new ones are restored from
-- their open events and evaluated once (backend/app/alarms/engine.py).
use superviseur.Prelude.{
  ℕ, ◌-◌, ◌*◌, Bool, true, false, not, ◌&&◌, Option, none, some, List, [], ◌∷◌, ◌++◌, nat_eq,
  or_else, is_some, if◌then◌else◌,
}
use superviseur.Prelude.Float.{fsub}
use superviseur.Prelude.Dict.{Dict, lookup, insert}
use superviseur.Models.{AlarmState}
use superviseur.Models.AlarmState.{active_unacked, active_acked}
use superviseur.Alarms.Machine
use superviseur.Alarms.Machine.{TransitionKind}
use superviseur.Alarms.Rules.{evaluate_value, is_value_kind}
use superviseur.Alarms.Records.{RuleRecord, OpenEvent, LatestValue, AlarmMessage, Effects}
use superviseur.Alarms.Runtime
use superviseur.Alarms.Runtime.{RuleRuntime}
use superviseur.Alarms.Engine.{
  AlarmEngine, Rules, RuleStep, seconds_of, is_comm_lost, index, for_each, update_known,
}

-- Whole seconds, in ticks.
abbrev pub ticks : ℕ → ℕ
ticks s = s * 1000000000000

-- `state in (ACTIVE_UNACKED, ACTIVE_ACKED)`
abbrev pub is_active : AlarmState → Bool
is_active active_unacked = true
is_active active_acked = true
is_active _ = false

-- `_restore`, at the instant that the clock shows.
unfoldable pub restore : RuleRecord → Option OpenEvent → ℕ → RuleRuntime
restore rec none now = record {
  rec = rec;
  machine = Machine.init (ticks rec.delay_s) AlarmState.normal;
  condition = false;
  event_id = none;
  raised_at = none;
  acked_at = none;
  acked_by = none;
  cleared_at = none;
  value = none;
  raised_value = none;
  last_valid = seconds_of now;
}
restore rec (some e) now = record {
  rec = rec;
  machine = Machine.init (ticks rec.delay_s) e.state;
  condition = is_active e.state;
  event_id = some e.id;
  raised_at = some e.raised_at;
  acked_at = e.acked_at;
  acked_by = e.acked_by;
  cleared_at = e.cleared_at;
  value = e.raised_value;
  raised_value = e.raised_value;
  last_valid = seconds_of now;
}

-- The new record of a rule that is already known; its state is kept.
unfoldable pub refresh : RuleRecord → RuleRuntime → RuleRuntime
refresh rec rt = record rt {
  rec = rec;
  machine = record (rt.machine) { delay_s = ticks rec.delay_s };
}

-- What the loop over the records builds: the old runtimes, which it changes in place, the new
-- dict, and the ids of the fresh runtimes.
pub record Loading : Type 0 where
  pub old : Rules
  pub rules : Rules
  pub fresh : List ℕ

-- `{e.rule_id: e for e in events}`
abbrev pub by_rule : List OpenEvent → Dict ℕ OpenEvent → Dict ℕ OpenEvent
by_rule [] d = d
by_rule (e ∷ es) d = by_rule es (insert e.rule_id e d)

module _ {W : Type 0} (fx : Effects W) where
  open fx use {clock, wall, update_event, publish, latest_values, devices_online}

  -- One round of the loop over the records.
  unfoldable pub load_rule :
      Option RuleRuntime → RuleRecord → Option OpenEvent → Loading → W → Loading × W
  load_rule (some rt) rec event l w =
      let rt' = refresh rec rt in
      (record l { old = insert rec.id rt' l.old; rules = insert rec.id rt' l.rules }, w)
  load_rule none rec event l w =
      let (now, w') = clock w in
      (
        record l {
          rules = insert rec.id (restore rec event now) l.rules;
          fresh = l.fresh ++ rec.id ∷ [];
        },
        w',
      )

  unfoldable pub load_records : List RuleRecord → Dict ℕ OpenEvent → Loading → W → Loading × W
  load_records [] events l w = (l, w)
  load_records (rec ∷ recs) events l w =
      let (l', w') = load_rule (lookup rec.id l.old) rec (lookup rec.id events) l w in
      load_records recs events l' w'

  -- `_close_orphan`; `false` is an exception.
  unfoldable pub close_orphan : OpenEvent → W → Bool × W
  close_orphan e w0 =
      let (now, w) = wall w0 in
      let cleared = some (or_else e.cleared_at now) in
      let (done, w1) =
        update_event e.id
          (record { state = AlarmState.normal; cleared_at = some cleared; acked = none }) w in
      let told = publish (AlarmMessage.orphan TransitionKind.normal e.id AlarmState.normal) w1 in
      if done then told else (false, w1)

  -- The loop over the events whose rule is gone.
  unfoldable pub close_orphans : Dict ℕ OpenEvent → Rules → W → Bool × W
  close_orphans [] rules w = (true, w)
  close_orphans ((id, e) ∷ events) rules w =
      let (done, w') = if is_some (lookup id rules) then (true, w) else close_orphan e w in
      let rest : Bool × W = close_orphans events rules w' in if done then rest else (false, w')

  -- The loop of `_initial_evaluation`, for one fresh runtime.
  unfoldable pub last_seen : Option LatestValue → ℕ → RuleStep fx
  last_seen none wall_now rt w = (rt, w)
  last_seen (some v) wall_now rt w =
      let (now, w') = clock w in
      (record rt { last_valid = fsub (seconds_of now) (seconds_of (wall_now - v.ts)) }, w')

  unfoldable pub evaluate_last : Option LatestValue → RuleStep fx
  evaluate_last none rt w = (rt, w)
  evaluate_last (some v) rt w =
      update_known fx
        (evaluate_value rt.rec.kind v.value rt.rec.threshold rt.rec.hysteresis rt.condition) v.value
        rt w

  unfoldable pub initial_rule : Dict ℕ LatestValue → Dict ℕ Bool → ℕ → RuleStep fx
  unfolding last_seen evaluate_last update_known
  initial_rule latest online wall_now rt0 w0 =
      let last = lookup rt0.rec.point_id latest in
      let (rt, w) = last_seen last wall_now rt0 w0 in
      if is_value_kind rt.rec.kind
      then evaluate_last last rt w
      else if is_comm_lost rt.rec.kind && not (or_else (lookup rt.rec.device_id online) true)
      then Runtime.update fx rt true none w
      else (rt, w)

  point_ids : List ℕ → Rules → List ℕ
  point_ids [] rules = []
  point_ids (id ∷ ids) rules = elim (lookup id rules) [
    | none ↦ point_ids ids rules
    | some rt ↦ rt.rec.point_id ∷ point_ids ids rules
  ]

  -- `_initial_evaluation` from its second call on; `false` is an exception.
  unfoldable pub evaluate_online :
      List ℕ → Rules → Dict ℕ LatestValue → Option (Dict ℕ Bool) × W → Bool × Rules × W
  evaluate_online ids rules latest (none, w) = (false, rules, w)
  evaluate_online ids rules latest (some online, w) =
      let (wall_now, w1) = wall w in
      let (rules', w2) = for_each fx ids (initial_rule latest online wall_now) rules w1 in
      (true, rules', w2)

  unfoldable pub evaluate_latest :
      List ℕ → Rules → Option (Dict ℕ LatestValue) × W → Bool × Rules × W
  evaluate_latest ids rules (none, w) = (false, rules, w)
  evaluate_latest ids rules (some latest, w) = evaluate_online ids rules latest (devices_online w)

  -- `_initial_evaluation`
  unfoldable pub initial_evaluation : List ℕ → Rules → W → Bool × Rules × W
  unfolding point_ids
  initial_evaluation [] rules w = (true, rules, w)
  initial_evaluation (id ∷ ids) rules w =
      evaluate_latest (id ∷ ids) rules (latest_values (point_ids (id ∷ ids) rules) w)

  -- The end of `load`. After an exception in the loop over the orphans the engine keeps its old
  -- rules, with the records that the loop has put in.
  unfoldable pub finish_load : Bool × W → Loading → AlarmEngine → Bool × AlarmEngine × W
  finish_load (false, w) l e = (false, record e { rules = l.old }, w)
  finish_load (true, w) l e =
      let (done, rules, w') = initial_evaluation l.fresh l.rules w in
      (done, record (index l.rules) { rules = rules }, w')

  abbrev pub start_loading : AlarmEngine → Loading
  start_loading e = record { old = e.rules; rules = []; fresh = [] }

  unfoldable pub load_events :
      List RuleRecord → AlarmEngine → Option (List OpenEvent) × W → Bool × AlarmEngine × W
  load_events recs e (none, w) = (false, e, w)
  load_events recs e (some open_list, w) =
      let events = by_rule open_list [] in
      let (l, w1) = load_records recs events (start_loading e) w in
      finish_load (close_orphans events l.rules w1) l e

  unfoldable pub load_rules : AlarmEngine → Option (List RuleRecord) × W → Bool × AlarmEngine × W
  load_rules e (none, w) = (false, e, w)
  load_rules e (some recs, w) = load_events recs e (fx.open_events w)

  -- `load`; `false` is an exception, which the callers log.
  unfoldable pub load : AlarmEngine → W → Bool × AlarmEngine × W
  unfolding load_rules load_events finish_load
  load e w = load_rules e (fx.load_rules w)
