-- ===== src/Api/Alarms.antt =====
-- The list of alarms and their acknowledgement (backend/app/api/routes/alarms.py). The rows of the
-- database, its order, and sending a command and waiting for the engine are effects or parameters.
pub mod Journal
use superviseur.Prelude.{
  ℕ, zero, Bool, true, false, not, ◌&&◌, ◌||◌, Option, none, some, List, [], ◌∷◌, String, filter,
  map, take, drop, length, or_else, ◌==◌, nat_eq, string_eq, if◌then◌else◌,
}
use Prim.Native.String.{◌++◌ as ◌+++◌}
use superviseur.Prelude.Float.{Float}
use superviseur.Prelude.Text.{Text, same_text}
use superviseur.Models.{AlarmKind, AlarmState}
use superviseur.Models.AlarmState.{normal, pending, active_unacked, active_acked, cleared_unacked}
use superviseur.Alarms.Records.{OpenEvent}
use superviseur.Api.Session.{Answer, done, refused, failed}
use superviseur.Api.Deps.{CurrentUser}
use superviseur.Api.Doc.{starts_with}
use superviseur.Api.RuleForm.{Severity, AlarmRule}

-- The columns of the table `point` that the query reads.
pub record AlarmPoint : Type 0 where
  pub id : ℕ
  pub name : Text
  pub path : Option Text
  pub unit : Option Text

-- A row of `_alarm_query`.
pub record AlarmRow : Type 0 where
  pub event : OpenEvent
  pub rule : AlarmRule
  pub point : AlarmPoint

pub record AlarmOut : Type 0 where
  pub id : ℕ
  pub rule_id : ℕ
  pub rule_name : Option Text
  pub kind : AlarmKind
  pub severity : Severity
  pub state : AlarmState
  pub point_id : ℕ
  pub point_name : Text
  pub path : Option Text
  pub unit : Option Text
  pub threshold : Option Float
  pub value : Option Float
  pub raised_at : ℕ
  pub acked_at : Option ℕ
  pub acked_by : Option String
  pub cleared_at : Option ℕ

-- `_to_alarm`
unfoldable pub to_alarm : AlarmRow → AlarmOut
to_alarm r = record {
  id = r.event.id;
  rule_id = r.rule.id;
  rule_name = r.rule.values.name;
  kind = r.rule.values.kind;
  severity = r.rule.values.severity;
  state = r.event.state;
  point_id = r.point.id;
  point_name = r.point.name;
  path = r.point.path;
  unit = r.point.unit;
  threshold = r.rule.values.threshold;
  value = r.event.raised_value;
  raised_at = r.event.raised_at;
  acked_at = r.event.acked_at;
  acked_by = r.event.acked_by;
  cleared_at = r.event.cleared_at;
}

-- `_load_alarm`; none is the answer 404.
unfoldable pub load_alarm : ℕ → List AlarmRow → Option AlarmOut
load_alarm id [] = none
load_alarm id (r ∷ rs) = if r.event.id == id then some (to_alarm r) else load_alarm id rs

-- Membership in `ACKABLE`.
unfoldable pub is_ackable : AlarmState → Bool
is_ackable active_unacked = true
is_ackable cleared_unacked = true
is_ackable _ = false

-- The texts of the states.
unfoldable pub state_value : AlarmState → String
state_value normal = "normal"
state_value pending = "pending"
state_value active_unacked = "active_unacked"
state_value active_acked = "active_acked"
state_value cleared_unacked = "cleared_unacked"

-- The answer of the engine of the alarms.
pub record EngineReply : Type 0 where
  pub status : String
  pub message : Option String

-- How `send_and_wait` ends: with an exception of Redis or of an answer that cannot be read, with no
-- answer in time, or with an answer.
pub data Waited : Type 0 where
  raised silent : Waited
  replied : EngineReply → Waited

-- An entry of the journal: who, on which alarm, and the refusal or the new state.
pub data AckEntry : Type 0 where
  refusal : ℕ → Text → AlarmState → String → AckEntry
  accepted : ℕ → Text → AlarmState → AlarmState → AckEntry

pub record AckEffects (W : Type 0) : Type 0 where
  pub rows : W → List AlarmRow × W
  pub add_audit : AckEntry → W → W
  pub send_and_wait : ℕ → ℕ → W → Waited × W

-- `alarm.path or alarm.point_name`
abbrev pub label_of : AlarmOut → Text
label_of a = elim a.path [ none ↦ a.point_name | some [] ↦ a.point_name | some (c ∷ cs) ↦ c ∷ cs ]

module _ {W : Type 0} (fx : AckEffects W) where
  open fx use {rows, add_audit, send_and_wait}

  -- `refuse`
  unfoldable pub refuse : CurrentUser → AlarmOut → ℕ → String → W → Answer AlarmOut × W
  refuse user alarm code detail w =
      (refused code detail, add_audit (refusal user.id (label_of alarm) alarm.state detail) w)

  -- The end of `acknowledge`, with the alarm as it is after the engine.
  unfoldable pub accept : CurrentUser → AlarmOut → Option AlarmOut → W → Answer AlarmOut × W
  accept user alarm none w = (refused 404 "alarme introuvable", w)
  accept user alarm (some updated) w =
      (done updated, add_audit (accepted user.id (label_of alarm) alarm.state updated.state) w)

  -- What the answer of the engine comes to.
  unfoldable pub answer : CurrentUser → ℕ → AlarmOut → Waited → W → Answer AlarmOut × W
  answer user id alarm raised w = (failed, w)
  answer user id alarm silent w = refuse user alarm 504 "le moteur d'alarmes n'a pas répondu" w
  answer user id alarm (replied r) w =
      let (rs, w') = rows w in
      let accepted = accept user alarm (load_alarm id rs) w' in
      let detail = or_else r.message "" in
      if r.status == "ok"
      then accepted
      else refuse user alarm 409 (if detail == "" then "acquittement refusé" else detail) w

  -- The command is sent; it names the event and the user.
  unfoldable pub acknowledge_found : CurrentUser → ℕ → AlarmOut → W → Answer AlarmOut × W
  acknowledge_found user id alarm w =
      let (reply, w') = send_and_wait id user.id w in
      let sent = answer user id alarm reply w' in
      if is_ackable alarm.state
      then sent
      else refuse user alarm 409
          ("acquittement impossible dans l'état " +++ state_value alarm.state) w

  -- `acknowledge`
  unfoldable pub acknowledge : CurrentUser → ℕ → W → Answer AlarmOut × W
  acknowledge user id w =
      let (rs, w') = rows w in
      elim (load_alarm id rs) [
        | none ↦ (refused 404 "alarme introuvable", w')
        | some alarm ↦ acknowledge_found user id alarm w'
      ]

-- `STATE_GROUPS`
abbrev pub is_open_state : AlarmState → Bool
is_open_state active_unacked = true
is_open_state active_acked = true
is_open_state cleared_unacked = true
is_open_state _ = false

abbrev pub is_active_state : AlarmState → Bool
is_active_state active_unacked = true
is_active_state active_acked = true
is_active_state _ = false

abbrev pub is_known : String → Bool
is_known name =
    name == "normal"
    || (name == "pending"
        || (name == "active_unacked" || (name == "active_acked" || name == "cleared_unacked")))

-- The filter that `state` names; none is an unknown state.
unfoldable pub state_filter : String → Option (AlarmState → Bool)
state_filter name =
    if name == "open"
    then some is_open_state
    else if name == "active"
    then some is_active_state
    else if name == "unacked"
    then some is_ackable
    else if name == "closed"
    then some (λ s. state_value s == "normal")
    else if name == "all"
    then some (λ s. true)
    else if is_known name
    then some (λ s. state_value s == name)
    else none

-- The parameters of `list_alarms`, as FastAPI has checked them.
pub record AlarmQuery : Type 0 where
  pub state : String
  pub severity : Option String
  pub path : Option Text
  pub point : Option ℕ
  pub limit : ℕ
  pub offset : ℕ

pub record AlarmPage : Type 0 where
  pub items : List AlarmOut
  pub total : ℕ
  pub limit : ℕ
  pub offset : ℕ

abbrev pub severity_value : Severity → String
severity_value Severity.info = "info"
severity_value Severity.warning = "warning"
severity_value Severity.critical = "critical"

-- `where`
unfoldable pub matches : (AlarmState → Bool) → AlarmQuery → AlarmRow → Bool
matches in_state q r =
    in_state r.event.state
    && elim q.severity [
      | none ↦ true
      | some s ↦ if s == "" then true else severity_value r.rule.values.severity == s
    ]
    && elim q.path [
      | none ↦ true
      | some [] ↦ true
      | some (c ∷ cs) ↦ elim r.point.path [ none ↦ false | some p ↦ starts_with (c ∷ cs) p ]
    ]
    && elim q.point [ none ↦ true | some id ↦ r.point.id == id ]

-- `list_alarms`, over the rows in the order of the query.
unfoldable pub list_alarms : List AlarmRow → AlarmQuery → Answer AlarmPage
list_alarms rs q = elim (state_filter q.state) [
  | none ↦ refused 422 ("état inconnu : " +++ q.state)
  | some in_state ↦
      let found = filter (matches in_state q) rs in
      done (record {
        items = map to_alarm (take q.limit (drop q.offset found));
        total = length found;
        limit = q.limit;
        offset = q.offset;
      })
]
