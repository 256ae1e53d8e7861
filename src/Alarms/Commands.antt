-- ===== src/Alarms/Commands.antt =====
-- The acknowledgements that users send (backend/app/alarms/commands.py), and the messages that feed
-- the engine (backend/app/alarms/runner.py). What the JSON of a message holds is a parameter of the
-- model: a command or a message as it is read.
pub mod Roles
use superviseur.Prelude.{
  ℕ, Bool, true, false, not, ◌&&◌, ◌||◌, Option, none, some, String, ◌==◌, string_eq, or_else,
  if◌then◌else◌,
}
use superviseur.Prelude.Float.{Float, flt, fsub}
use superviseur.Prelude.Text.{Text}
use superviseur.Models.{RoleName, role_value}
use superviseur.Alarms.Records.{Effects}
use superviseur.Alarms.Runtime.{AckResult}
use superviseur.Alarms.Engine
use superviseur.Alarms.Engine.{AlarmEngine, ObjectKey}
use superviseur.Alarms.Engine.Load

-- `issued_at` of a command: missing or null, a number, or a value that `float` refuses.
pub data IssuedAt : Type 0 where
  missing unreadable : IssuedAt
  at : Float → IssuedAt

-- A command; the ids are `none` where they are missing or no UUID.
pub record Command : Type 0 where
  pub action : Option String
  pub issued_at : IssuedAt
  pub user_id : Option ℕ
  pub event_id : Option ℕ

-- The results that `execute` returns, and that of `process` where `execute` raises.
pub data CommandResult : Type 0 where
  unknown_action expired forbidden invalid : CommandResult
  answered : AckResult → CommandResult

-- `role in ACK_ROLES`
unfoldable pub is_ack_role : Option String → Bool
is_ack_role none = false
is_ack_role (some role) =
    role == role_value RoleName.operator
    || (role == role_value RoleName.engineer || role == role_value RoleName.admin)

-- The calls that are not the engine's.
pub record Server (W : Type 0) : Type 0 where
  pub time : W → Float × W
  pub publish : String → CommandResult → W → Bool × W
  pub xack : String → W → Bool × W

-- A message of the stream; `command_id` is empty where it cannot be read.
pub record Message : Type 0 where
  pub message_id : String
  pub command_id : String
  pub command : Option Command

module _ {W : Type 0} (fx : Effects W) (server : Server W) where
  -- What a call leaves: its result, or none for an exception, and the engine.
  abbrev pub Answer : Type 0
  Answer = Option CommandResult × AlarmEngine × W

  -- The call of the engine.
  unfoldable pub acknowledge_event : Option ℕ → ℕ → AlarmEngine → W → Answer
  acknowledge_event none user e w = (none, e, w)
  acknowledge_event (some event) user e w =
      let (r, e', w') = Engine.acknowledge fx event user e w in (some (answered r), e', w')

  unfoldable pub check_role : Option (Option String) → Option ℕ → ℕ → AlarmEngine → W → Answer
  check_role none event user e w = (none, e, w)
  check_role (some role) event user e w =
      let acknowledged = acknowledge_event event user e w in
      if is_ack_role role then acknowledged else (some forbidden, e, w)

  unfoldable pub execute_for : Option ℕ → Option ℕ → AlarmEngine → W → Answer
  execute_for none event e w = (none, e, w)
  execute_for (some user) event e w =
      let (role, w') = fx.user_role user w in check_role role event user e w'

  -- The test of the command's age; the clock is read only where there is an instant.
  unfoldable pub execute_aged : Float → IssuedAt → Command → AlarmEngine → W → Answer
  execute_aged max_age missing c e w = execute_for c.user_id c.event_id e w
  execute_aged max_age unreadable c e w = (none, e, (server.time w).1)
  execute_aged max_age (at issued) c e w =
      let (now, w') = server.time w in
      let young = execute_for c.user_id c.event_id e w' in
      if flt max_age (fsub now issued) then (some expired, e, w') else young

  -- `execute`
  unfoldable pub execute : Float → Command → AlarmEngine → W → Answer
  execute max_age c e w =
      let known = execute_aged max_age c.issued_at c e w in
      if or_else c.action "" == "ack" then known else (some unknown_action, e, w)

  unfoldable pub try_execute : Float → Option Command → AlarmEngine → W → Answer
  try_execute max_age none e w = (none, e, w)
  try_execute max_age (some c) e w = execute max_age c e w

  -- The end of `process`; `false` is an exception of Redis.
  unfoldable pub report : Message → CommandResult → W → Bool × W
  report m r w =
      let (told, w') = if m.command_id == "" then (true, w) else server.publish m.command_id r w in
      let taken = server.xack m.message_id w' in if told then taken else (false, w')

  -- `process`
  unfoldable pub process : Float → Message → AlarmEngine → W → Bool × AlarmEngine × W
  unfolding try_execute report
  process max_age m e w =
      let (r, e', w') = try_execute max_age m.command e w in
      let (told, w'') = report m (or_else r invalid) w' in (told, e', w'')

-- A message on one of the engine's channels, as it is read.
pub data Update : Type 0 where
  value : ℕ → Option Float → Update
  device_status : ℕ → Bool → Update
  bacnet_event : ObjectKey → Text → Update
  rules_changed other : Update

-- `EngineRunner.dispatch`; `false` is an exception of `load`.
unfoldable pub dispatch :
    {W : Type 0} → Effects W → Update → AlarmEngine → W → Bool × AlarmEngine × W
dispatch fx (value point v) e w = let (e', w') = Engine.on_value fx point v e w in (true, e', w')
dispatch fx (device_status device online) e w =
    let (e', w') = Engine.on_device_status fx device online e w in (true, e', w')
dispatch fx (bacnet_event key to_state) e w =
    let (e', w') = Engine.on_bacnet_event fx key to_state e w in (true, e', w')
dispatch fx rules_changed e w = Load.load fx e w
dispatch fx other e w = (true, e, w)
