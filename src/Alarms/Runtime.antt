-- ===== src/Alarms/Runtime.antt =====
-- One rule of the alarm engine at run time: `RuleRuntime`, `_persist`, `_update` and the rule's part
-- of `acknowledge` (backend/app/alarms/engine.py).
mod State
pub mod Persist
pub mod Sound
pub mod Linked
pub mod Retry
pub use State.*
use superviseur.Prelude.{
  ℕ, Bool, true, false, not, Option, none, some, List, [], ◌∷◌, String, or_else, if◌then◌else◌,
  ◌==◌, string_eq,
}
use superviseur.Prelude.Float.{Float}
use superviseur.Prelude.Text.{Text}
use superviseur.Models.{AlarmState, is_normal}
use superviseur.Alarms.Machine
use superviseur.Alarms.Machine.{AlarmMachine, Transition, TransitionKind, persistent}
use superviseur.Alarms.Records.{
  RuleRecord, AlarmInfo, AlarmMessage, Notification, EventUpdate, Effects,
}

-- `AckResult`, with its error texts as constructors.
pub data AckResult : Type 0 where
  done not_found not_recorded : AckResult
  impossible : AlarmState → AckResult

abbrev set_state : RuleRuntime → AlarmState → RuleRuntime
set_state rt s = record rt { machine = record (rt.machine) { state = s } }

module _ {W : Type 0} (fx : Effects W) where
  open fx use {clock, wall, create_event, update_event, user_login, publish, submit, uuid_text}

  -- A transition to a raised alarm, on the event that the runtime holds.
  record_raised : Option ℕ → AlarmState → ℕ → Action W (Unit {0})
  record_raised none s now = do
    rt ← current
    id ← or_raise (create_event rt.rec.id now rt.value)
    change (λ r. record r {
      event_id = some id;
      raised_at = some now;
      raised_value = rt.value;
      acked_at = none;
      acked_by = none;
    })
    change (λ r. record r { cleared_at = none })
  record_raised (some id) s now = do
    ensure (update_event id (record { state = s; cleared_at = some none; acked = none }))
    change (λ r. record r { cleared_at = none })

  -- The other kinds, on an open event. The first assignment of an ending stands before the call.
  record_open : TransitionKind → ℕ → AlarmState → ℕ → Option String → Action W (Unit {0})
  record_open TransitionKind.cleared id s now by = do
    change (λ r. record r { cleared_at = some now })
    ensure (update_event id (record { state = s; cleared_at = some (some now); acked = none }))
  record_open TransitionKind.acked id s now by = do
    ensure (update_event id (record { state = s; cleared_at = none; acked = some (now, by) }))
    change (λ r. record r { acked_at = some now; acked_by = by })
  record_open TransitionKind.normal id s now by = do
    change (λ r. record r { cleared_at = some now })
    ensure (update_event id (record { state = s; cleared_at = some (some now); acked = none }))
  record_open _ id s now by = pure tt

  record_other : TransitionKind → Option ℕ → AlarmState → ℕ → Option String → Action W (Unit {0})
  record_other kind none s now by = raise
  record_other kind (some id) s now by = record_open kind id s now by

  -- The `if`/`elif` chain of `_persist`.
  unfoldable pub record_transition :
      TransitionKind → Option ℕ → AlarmState → ℕ → Option String → Action W (Unit {0})
  unfolding record_raised record_open record_other
  record_transition TransitionKind.raised e s now by = record_raised e s now
  record_transition kind e s now by = record_other kind e s now by

  info_of : RuleRuntime → AlarmState → Option ℕ → Option ℕ → Option AlarmInfo
  info_of rt s (some id) (some raised) = some (record {
    event_id = id;
    rule_id = rt.rec.id;
    rule_name = rt.rec.name;
    kind = rt.rec.kind;
    severity = rt.rec.severity;
    state = s;
    point_id = rt.rec.point_id;
    point_name = rt.rec.point_name;
    path = rt.rec.path;
    unit = rt.rec.unit;
    threshold = rt.rec.threshold;
    value = elim rt.raised_value [ none ↦ rt.value | some v ↦ some v ];
    raised_at = raised;
    acked_at = rt.acked_at;
    acked_by = rt.acked_by;
    cleared_at = rt.cleared_at;
  })
  info_of rt s _ _ = none

  -- `_info`, whose assertion raises without an open event.
  info : AlarmState → Action W AlarmInfo
  info s rt w = (info_of rt s rt.event_id rt.raised_at, rt, w)

  -- The notification, if the rule has channels.
  notify_rule : TransitionKind → AlarmInfo → List Text → Action W (Unit {0})
  notify_rule kind i [] = pure tt
  notify_rule kind i (c ∷ cs) =
      always (submit (record { kind = kind; info = i; channels = c ∷ cs }))

  -- The message, the notification and the end of a closed alarm.
  unfoldable pub announce : Transition → Action W (Unit {0})
  unfolding info info_of notify_rule
  announce t = do
    i ← info t.to_state
    ensure (publish (AlarmMessage.full t.kind i))
    rt ← current
    notify_rule t.kind i rt.rec.notify
    change (λ r. if is_normal t.to_state then record r { event_id = none } else r)

  -- `_persist`
  unfoldable pub persist : Transition → Option String → Action W (Unit {0})
  persist t by = do
    now ← read wall
    rt ← current
    record_transition t.kind rt.event_id t.to_state now by
    announce t

  -- The loop of `_update`: a transition that is not recorded is undone, and the loop ends.
  persist_all : List Transition → RuleRuntime → W → RuleRuntime × W
  persist_all [] rt w = (rt, w)
  persist_all (t ∷ ts) rt w =
      let (r, rt', w') = persist t none rt w in
      let skipped : RuleRuntime × W = persist_all ts rt w in
      let next : RuleRuntime × W = persist_all ts rt' w' in
      if not (persistent t)
      then skipped
      else elim r [ none ↦ (set_state rt' t.from_state, w') | some _ ↦ next ]

  -- `_update`: it catches every exception, so it returns.
  unfoldable pub update : RuleRuntime → Bool → Option Float → W → RuleRuntime × W
  unfolding persist_all
  update rt c v w =
      let rt1 = record rt { condition = c; value = elim v [ none ↦ rt.value | some x ↦ some x ] } in
      let (now, w1) = clock w in
      let (m, ts) = Machine.update rt1.machine c now in
      persist_all ts (record rt1 { machine = m }) w1

  -- `login or str(user_id)`
  unfoldable pub signature : ℕ → Option String → String
  signature user none = uuid_text user
  signature user (some login) = if login == "" then uuid_text user else login

  -- The body of the `try` in `acknowledge`.
  unfoldable pub record_ack : Transition → ℕ → Action W (Unit {0})
  record_ack t user = do login ← or_raise (user_login user); persist t (some (signature user login))

  unfoldable pub ack_transition :
      ℕ → AlarmMachine × Option Transition → RuleRuntime → W → AckResult × RuleRuntime × W
  ack_transition user (m, none) rt w = (AckResult.impossible m.state, record rt { machine = m }, w)
  ack_transition user (m, some t) rt w =
      let (r, rt', w') = record_ack t user (record rt { machine = m }) w in
      elim r [
        | none ↦ (AckResult.not_recorded, set_state rt' t.from_state, w')
        | some _ ↦ (AckResult.done, rt', w')
      ]

  -- `acknowledge`, once the runtime of the event is found.
  unfoldable pub acknowledge : ℕ → RuleRuntime → W → AckResult × RuleRuntime × W
  unfolding ack_transition
  acknowledge user rt w = ack_transition user (Machine.acknowledge rt.machine) rt w
