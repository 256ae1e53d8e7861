-- ===== src/Alarms/Records.antt =====
-- The data of the alarm engine: rules and events as its store hands them over
-- (backend/app/alarms/store.py), what it publishes (backend/app/alarms/messages.py), and its
-- effects. Identifiers are numbers, instants are ticks.
use superviseur.Prelude.{ℕ, Bool, Option, List, String}
use superviseur.Prelude.Float.{Float}
use superviseur.Prelude.Dict.{Dict}
use superviseur.Prelude.Text.{Text}
use superviseur.Models.{AlarmKind, AlarmState}
use superviseur.Alarms.Machine.{TransitionKind}

pub record RuleRecord : Type 0 where
  pub id : ℕ
  pub point_id : ℕ
  pub name : Option String
  pub kind : AlarmKind
  pub threshold : Option Float
  pub hysteresis : Float
  pub delay_s : ℕ
  pub severity : String
  pub notify : List Text
  pub point_name : String
  pub path : Option String
  pub unit : Option String
  pub object_type : String
  pub object_instance : ℕ
  pub device_id : ℕ
  pub device_instance : ℕ

pub record OpenEvent : Type 0 where
  pub id : ℕ
  pub rule_id : ℕ
  pub state : AlarmState
  pub raised_at : ℕ
  pub acked_at : Option ℕ
  pub acked_by : Option String
  pub cleared_at : Option ℕ
  pub raised_value : Option Float

pub record LatestValue : Type 0 where
  pub ts : ℕ
  pub value : Option Float
  pub status : String

-- The columns that an `update_event` sets: `none` is a column that it leaves alone.
pub record EventUpdate : Type 0 where
  pub state : AlarmState
  pub cleared_at : Option (Option ℕ)
  pub acked : Option (ℕ × Option String)

-- `AlarmInfo`: what the messages say of an alarm.
pub record AlarmInfo : Type 0 where
  pub event_id : ℕ
  pub rule_id : ℕ
  pub rule_name : Option String
  pub kind : AlarmKind
  pub severity : String
  pub state : AlarmState
  pub point_id : ℕ
  pub point_name : String
  pub path : Option String
  pub unit : Option String
  pub threshold : Option Float
  pub value : Option Float
  pub raised_at : ℕ
  pub acked_at : Option ℕ
  pub acked_by : Option String
  pub cleared_at : Option ℕ

-- A message on the channel of the alarm events. An alarm without a rule has the short form.
pub data AlarmMessage : Type 0 where
  full : TransitionKind → AlarmInfo → AlarmMessage
  orphan : TransitionKind → ℕ → AlarmState → AlarmMessage

-- `Notification`, without the texts that `build_notification` composes from the same data.
pub record Notification : Type 0 where
  pub kind : TransitionKind
  pub info : AlarmInfo
  pub channels : List Text

-- What the engine calls: its clocks, the store, the publication and the notifier. A call that can
-- raise answers `none` or `false` when it does.
pub record Effects (W : Type 0) : Type 0 where
  pub clock : W → ℕ × W
  pub wall : W → ℕ × W
  pub load_rules : W → Option (List RuleRecord) × W
  pub open_events : W → Option (List OpenEvent) × W
  pub latest_values : List ℕ → W → Option (Dict ℕ LatestValue) × W
  pub devices_online : W → Option (Dict ℕ Bool) × W
  pub create_event : ℕ → ℕ → Option Float → W → Option ℕ × W
  pub update_event : ℕ → EventUpdate → W → Bool × W
  pub user_login : ℕ → W → Option (Option String) × W
  pub user_role : ℕ → W → Option (Option String) × W
  pub publish : AlarmMessage → W → Bool × W
  pub submit : Notification → W → W
  pub uuid_text : ℕ → String
