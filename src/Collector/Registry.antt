-- ===== src/Collector/Registry.antt =====
-- The state of the devices and points in memory (backend/app/collector/registry.py). A point of the
-- source refers to its device, and a device holds its points; here both hold ids, and each object
-- stands once, in one of the two dicts of the registry.
pub mod Replace
use superviseur.Prelude.{
  ℕ, Bool, true, false, Option, none, some, List, [], ◌∷◌, ◌++◌, String, ◌==◌, nat_eq,
  if◌then◌else◌,
}
use superviseur.Prelude.Float.{Float}
use superviseur.Prelude.Dict.{Dict, lookup, insert, values}
use superviseur.Models.{PointStatus}

-- The address of a point for the driver (backend/app/collector/driver_base.py).
pub record PointRef : Type 0 where
  pub point_id : ℕ
  pub device_instance : ℕ
  pub address : String
  pub object_type : String
  pub object_instance : ℕ

-- A normalised reading (backend/app/collector/driver_base.py), without its raw value.
pub record Reading : Type 0 where
  pub point_id : ℕ
  pub ts : ℕ
  pub value : Option Float
  pub status : PointStatus

-- What the collector keeps of a point from one registry to the next. `cov_expires` is `none` for the
-- infinity of a subscription without an end.
pub record Tracking : Type 0 where
  pub next_due : ℕ
  pub cov_active : Bool
  pub cov_expires : Option ℕ
  pub cov_retry_at : ℕ
  pub stored : Bool
  pub stored_value : Option Float
  pub stored_status : Option PointStatus
  pub stored_ts : Option ℕ

pub record PointState : Type 0 where
  pub ref : PointRef
  pub name : String
  pub path : Option String
  pub deadband : Float
  pub max_interval_s : ℕ
  pub poll_interval_s : ℕ
  pub cov_capable : Bool
  pub device : Option ℕ
  pub tracking : Tracking
  pub open tracking use *

-- What the collector keeps of a device from one registry to the next.
pub record Contact : Type 0 where
  pub online : Bool
  pub failures : ℕ
  pub last_contact : ℕ
  pub last_attempt : ℕ
  pub last_seen_written : ℕ

pub record DeviceState : Type 0 where
  pub device_id : ℕ
  pub instance_number : ℕ
  pub address : String
  pub name : String
  pub supports_cov : Bool
  pub points : List ℕ
  pub contact : Contact
  pub open contact use *

pub record Registry : Type 0 where
  pub devices : Dict ℕ DeviceState
  pub points : Dict ℕ PointState

-- A device as `replace` gets it: with its points, each under its id.
abbrev pub Loaded : Type 0
Loaded = DeviceState × Dict ℕ PointState

abbrev pub carry_contact : Option DeviceState → DeviceState → DeviceState
carry_contact none d = d
carry_contact (some previous) d = record d { contact = previous.contact }

abbrev pub carry_tracking : Option PointState → PointState → PointState
carry_tracking none p = p
carry_tracking (some old) p = record p { tracking = old.tracking }

-- The body of the inner loop of `replace`.
unfoldable pub carry_point : Registry → ℕ → ℕ × PointState → ℕ × PointState
carry_point old device (pid, p) =
    (pid, carry_tracking (lookup pid old.points) (record p { device = some device }))

unfoldable pub carry_points : Registry → ℕ → Dict ℕ PointState → Dict ℕ PointState
carry_points old device [] = []
carry_points old device (x ∷ xs) = carry_point old device x ∷ carry_points old device xs

-- The body of the outer loop of `replace`.
unfoldable pub carry_device : Registry → Loaded → Loaded
carry_device old (d, ps) =
    (carry_contact (lookup d.device_id old.devices) d, carry_points old d.device_id ps)

unfoldable pub put_devices : List Loaded → Dict ℕ DeviceState → Dict ℕ DeviceState
put_devices [] m = m
put_devices ((d, ps) ∷ ds) m = put_devices ds (insert d.device_id d m)

unfoldable pub put_points : Dict ℕ PointState → Dict ℕ PointState → Dict ℕ PointState
put_points [] m = m
put_points ((pid, p) ∷ ps) m = put_points ps (insert pid p m)

unfoldable pub put_all_points : List Loaded → Dict ℕ PointState → Dict ℕ PointState
put_all_points [] m = m
put_all_points ((d, ps) ∷ ds) m = put_all_points ds (put_points ps m)

unfoldable pub carry_all : Registry → List Loaded → List Loaded
carry_all old [] = []
carry_all old (d ∷ ds) = carry_device old d ∷ carry_all old ds

-- `Registry.replace`
unfoldable pub replace : Registry → List Loaded → Registry
unfolding carry_all
replace old devices =
    let carried = carry_all old devices in
    record { devices = put_devices carried []; points = put_all_points carried [] }

-- `Registry.point`
abbrev pub point : Registry → ℕ → Option PointState
point r pid = lookup pid r.points

-- `Registry.all_points`
abbrev pub all_points : Registry → List PointState
all_points r = values r.points
