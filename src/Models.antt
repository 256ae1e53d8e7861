-- ===== src/Models.antt =====
-- The enumerations that the services share (backend/app/common/models.py). In the source they are
-- string enums; here each is a data type, compared by the tests below.
use superviseur.Prelude.{Bool, true, false, String}

pub data PointStatus : Type 0 where
  ok fault overridden out_of_service stale comm_lost : PointStatus

pub data AlarmKind : Type 0 where
  high low state stale comm_lost bacnet_event : AlarmKind

pub data AlarmState : Type 0 where
  normal pending active_unacked active_acked cleared_unacked : AlarmState

pub data RoleName : Type 0 where
  viewer operator engineer admin : RoleName

pub PointStatus-discrete : Discrete PointStatus
PointStatus-discrete = hlevel

pub AlarmState-discrete : Discrete AlarmState
AlarmState-discrete = hlevel

-- The text of a role, as stored in the database.
abbrev pub role_value : RoleName → String
role_value RoleName.viewer = "viewer"
role_value RoleName.operator = "operator"
role_value RoleName.engineer = "engineer"
role_value RoleName.admin = "admin"

abbrev pub is_pending : AlarmState → Bool
is_pending AlarmState.pending = true
is_pending _ = false

abbrev pub is_normal : AlarmState → Bool
is_normal AlarmState.normal = true
is_normal _ = false

-- The states in which an alarm is open: `alarm_event` holds a row that is not closed.
abbrev pub is_open : AlarmState → Bool
is_open AlarmState.normal = false
is_open AlarmState.pending = false
is_open _ = true
