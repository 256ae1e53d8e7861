-- ===== src/Alarms/Engine.antt =====
-- The alarm engine: its indexes and handlers (backend/app/alarms/engine.py). Each handler runs under
-- the engine's lock, so it is one step. The indexes of the source hold references to the runtimes;
-- here they hold the ids of the rules, and the runtimes stand in `rules` alone.
pub mod Load
pub mod Sound
pub mod Reload
pub mod Index
pub mod Calls
use superviseur.Prelude.{
  ℕ, Bool, true, false, not, ◌&&◌, Option, none, some, List, [], ◌∷◌, ◌++◌, String, ◌==◌, nat_eq,
  string_eq, or_else, is_some, if◌then◌else◌,
}
use superviseur.Prelude.Float.{Float, nan, num, fsub}
use superviseur.Prelude.Int.{pos}
use superviseur.Prelude.Dict.{Dict, lookup, insert, keys}
use superviseur.Prelude.Text.{Text}
use superviseur.Models.{AlarmKind, AlarmState, is_pending}
use superviseur.Alarms.Rules.{evaluate_value, is_stale, is_value_kind, is_abnormal_event_state}
use superviseur.Alarms.Records.{RuleRecord, Effects}
use superviseur.Alarms.Runtime
use superviseur.Alarms.Runtime.{RuleRuntime, AckResult}

abbrev pub Rules : Type 0
Rules = Dict ℕ RuleRuntime

-- The BACnet object that a rule of kind `bacnet_event` watches.
pub record ObjectKey : Type 0 where
  pub device_instance : ℕ
  pub object_type : String
  pub object_instance : ℕ

pub record AlarmEngine : Type 0 where
  pub rules : Rules
  pub by_point : Dict ℕ (List ℕ)
  pub by_device : Dict ℕ (List ℕ)
  pub by_object : List (ObjectKey × List ℕ)

-- `r.event_id == event_id`
abbrev pub holds : ℕ → Option ℕ → Bool
holds event none = false
holds event (some id) = id == event

-- The float of an instant of the monotonic clock.
abbrev pub seconds_of : ℕ → Float
seconds_of now = num (pos now)

abbrev pub is_comm_lost : AlarmKind → Bool
is_comm_lost AlarmKind.comm_lost = true
is_comm_lost _ = false

abbrev pub is_bacnet_event : AlarmKind → Bool
is_bacnet_event AlarmKind.bacnet_event = true
is_bacnet_event _ = false

abbrev pub is_stale_kind : AlarmKind → Bool
is_stale_kind AlarmKind.stale = true
is_stale_kind _ = false

-- `d.setdefault(key, []).append(id)`
abbrev pub append_to : ℕ → ℕ → Dict ℕ (List ℕ) → Dict ℕ (List ℕ)
append_to key id d = insert key (or_else (lookup key d) [] ++ id ∷ []) d

abbrev pub same_object : ObjectKey → ObjectKey → Bool
same_object a b =
    a.device_instance == b.device_instance
    && (a.object_type == b.object_type && a.object_instance == b.object_instance)

abbrev pub find_object : ObjectKey → List (ObjectKey × List ℕ) → List ℕ
find_object key [] = []
find_object key ((k, ids) ∷ d) = if same_object k key then ids else find_object key d

abbrev pub append_object : ObjectKey → ℕ → List (ObjectKey × List ℕ) → List (ObjectKey × List ℕ)
append_object key id [] = (key, id ∷ []) ∷ []
append_object key id ((k, ids) ∷ d) =
    if same_object k key then (k, ids ++ id ∷ []) ∷ d else (k, ids) ∷ append_object key id d

abbrev pub object_of : RuleRecord → ObjectKey
object_of rec = record {
  device_instance = rec.device_instance;
  object_type = rec.object_type;
  object_instance = rec.object_instance;
}

-- One round of the loop of `_index`.
unfoldable pub index_rule : ℕ × RuleRuntime → AlarmEngine → AlarmEngine
index_rule (id, rt) e = record e {
  by_point = append_to rt.rec.point_id id e.by_point;
  by_device =
      if is_comm_lost rt.rec.kind then append_to rt.rec.device_id id e.by_device else e.by_device;
  by_object =
      if is_bacnet_event rt.rec.kind
      then append_object (object_of rt.rec) id e.by_object
      else e.by_object;
}

unfoldable pub index_rules : Rules → AlarmEngine → AlarmEngine
index_rules [] e = e
index_rules (x ∷ xs) e = index_rules xs (index_rule x e)

-- `_index`
unfoldable pub index : Rules → AlarmEngine
unfolding index_rules
index rules =
    index_rules rules (record { rules = rules; by_point = []; by_device = []; by_object = [] })

-- `next((r for r in rules.values() if r.event_id == event_id), None)`
unfoldable pub find_event : ℕ → Rules → Option (ℕ × RuleRuntime)
find_event event [] = none
find_event event ((id, rt) ∷ rules) =
    if holds event rt.event_id then some (id, rt) else find_event event rules

module _ {W : Type 0} (fx : Effects W) where
  -- What a handler does to the runtime of one rule.
  abbrev pub RuleStep : Type 0
  RuleStep = RuleRuntime → W → RuleRuntime × W

  unfoldable pub step_found : Option RuleRuntime → ℕ → RuleStep → Rules → W → Rules × W
  step_found none id f rules w = (rules, w)
  step_found (some rt) id f rules w = let (rt', w') = f rt w in (insert id rt' rules, w')

  -- `for runtime in ids: …`
  unfoldable pub for_each : List ℕ → RuleStep → Rules → W → Rules × W
  unfolding step_found
  for_each [] f rules w = (rules, w)
  for_each (id ∷ ids) f rules w =
      let (rules', w') = step_found (lookup id rules) id f rules w in for_each ids f rules' w'

  -- `_update` where the rule has a condition to apply.
  unfoldable pub update_known : Option Bool → Option Float → RuleStep
  update_known none v rt w = (rt, w)
  update_known (some c) v rt w = Runtime.update fx rt c v w

  unfoldable pub refresh_valid : Option Float → RuleStep
  refresh_valid none rt w = (rt, w)
  refresh_valid (some v) rt w =
      let (now, w') = fx.clock w in (record rt { last_valid = seconds_of now }, w')

  -- The body of the loop of `on_value`.
  unfoldable pub on_value_rule : Option Float → RuleStep
  unfolding update_known refresh_valid
  on_value_rule v rt0 w0 =
      let (rt, w) = refresh_valid v rt0 w0 in
      if is_value_kind rt.rec.kind
      then update_known
          (evaluate_value rt.rec.kind v rt.rec.threshold rt.rec.hysteresis rt.condition) v rt w
      else if is_stale_kind rt.rec.kind && is_some v
      then Runtime.update fx rt false v w
      else (rt, w)

  -- The body of the loop of `tick`, at the instant read before the loop. (`nan` is never read.)
  unfoldable pub tick_rule : ℕ → RuleStep
  tick_rule now rt w =
      if is_stale_kind rt.rec.kind && is_some rt.rec.threshold
      then Runtime.update fx rt
          (is_stale (fsub (seconds_of now) rt.last_valid) (or_else rt.rec.threshold nan)) none w
      else if is_pending rt.machine.state
      then Runtime.update fx rt rt.condition none w
      else (rt, w)

  run_step : List ℕ → RuleStep → AlarmEngine → W → AlarmEngine × W
  run_step ids f e w =
      let (rules, w') = for_each ids f e.rules w in (record e { rules = rules }, w')

  -- `on_value`
  unfoldable pub on_value : ℕ → Option Float → AlarmEngine → W → AlarmEngine × W
  unfolding run_step
  on_value point v e w = run_step (or_else (lookup point e.by_point) []) (on_value_rule v) e w

  -- `on_device_status`
  unfoldable pub on_device_status : ℕ → Bool → AlarmEngine → W → AlarmEngine × W
  unfolding run_step
  on_device_status device online e w =
      run_step (or_else (lookup device e.by_device) [])
        (λ rt. Runtime.update fx rt (not online) none) e w

  -- `on_bacnet_event`
  unfoldable pub on_bacnet_event : ObjectKey → Text → AlarmEngine → W → AlarmEngine × W
  unfolding run_step
  on_bacnet_event key to_state e w =
      run_step (find_object key e.by_object)
        (λ rt. Runtime.update fx rt (is_abnormal_event_state to_state) none) e w

  -- `tick`
  unfoldable pub tick : AlarmEngine → W → AlarmEngine × W
  unfolding run_step
  tick e w = let (now, w') = fx.clock w in run_step (keys e.rules) (tick_rule now) e w'

  ack_found : Option (ℕ × RuleRuntime) → ℕ → AlarmEngine → W → AckResult × AlarmEngine × W
  ack_found none user e w = (AckResult.not_found, e, w)
  ack_found (some (id, rt)) user e w =
      let (result, rt', w') = Runtime.acknowledge fx user rt w in
      (result, record e { rules = insert id rt' e.rules }, w')

  -- `acknowledge`
  unfoldable pub acknowledge : ℕ → ℕ → AlarmEngine → W → AckResult × AlarmEngine × W
  unfolding ack_found
  acknowledge event user e w = ack_found (find_event event e.rules) user e w
