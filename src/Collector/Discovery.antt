-- ===== src/Collector/Discovery.antt =====
-- The discovery of devices and their points (backend/app/collector/discovery.py). The imports of the
-- devices, which the source starts together, run one after the other.
use superviseur.Prelude.{
  ℕ, ◌+◌, Bool, not, ◌&&◌, Option, none, some, List, [], ◌∷◌, ◌++◌, String, any, filter, length,
  ◌==◌, nat_eq, string_eq, if◌then◌else◌,
}
use superviseur.Prelude.Dict.{Dict, insert}
use superviseur.Prelude.Float.{Float}
use superviseur.Prelude.Text.{Text}
use superviseur.Models.{PointStatus}
use superviseur.Collector.Registry.{PointState, Registry, Reading, Loaded, replace, all_points}
use superviseur.Api.Doc.{starts_with}

-- A device and an object as the driver finds them (backend/app/collector/driver_base.py).
pub record DeviceInfo : Type 0 where
  pub instance_number : ℕ
  pub address : String
  pub name : Option Text
  pub supports_cov : Bool

pub record ObjectInfo : Type 0 where
  pub object_type : String
  pub object_instance : ℕ
  pub name : Text
  pub unit : Option String
  pub writable : Bool
  pub value : Option Float
  pub status : PointStatus

pub record DiscoveryResult : Type 0 where
  pub devices : ℕ
  pub points : ℕ
  pub readings : List Reading

-- How `describe` ends: with the objects, with an error of the driver, or with another exception.
pub data Described : Type 0 where
  objects : List ObjectInfo → Described
  unavailable failed : Described

pub record Effects (W : Type 0) : Type 0 where
  pub discover : W → Option (List DeviceInfo) × W
  pub describe : DeviceInfo → W → Described × W
  pub upsert_device : DeviceInfo → W → Option ℕ × W
  pub upsert_points : ℕ → List ObjectInfo → Bool → Option Text → ℕ → W → Bool × W
  pub load_devices : W → Option (List Loaded) × W
  pub wall : W → ℕ × W

abbrev pub Inventory : Type 0
Inventory = Dict ℕ (List ObjectInfo)

-- `objects` without those whose names start with one of the prefixes
unfoldable pub keep_objects : List Text → List ObjectInfo → List ObjectInfo
keep_objects prefixes os =
    filter (λ (o : ObjectInfo). not (any (λ p. starts_with p o.name) prefixes)) os

-- `index.get(...)`: the last of the points with the address, as in a dict that is filled in order.
unfoldable pub find_point : ℕ → String → ℕ → List PointState → Option PointState
find_point device type number [] = none
find_point device type number (p ∷ ps) =
    let later = find_point device type number ps in
    let here =
      p.ref.device_instance == device
      && (p.ref.object_type == type && p.ref.object_instance == number) in
    elim later [ none ↦ if here then some p else none | some q ↦ some q ]

-- What an object adds to the result.
unfoldable pub count_found : Option PointState → ObjectInfo → ℕ → DiscoveryResult → DiscoveryResult
count_found none o now r = r
count_found (some p) o now r = record r {
  points = r.points + 1;
  readings = elim o.value [
    | none ↦ r.readings
    | some v ↦
        r.readings
        ++ record { point_id = p.ref.point_id; ts = now; value = some v; status = o.status } ∷ []
  ];
}

unfoldable pub count_objects :
    ℕ → List ObjectInfo → List PointState → ℕ → DiscoveryResult → DiscoveryResult
count_objects device [] ps now r = r
count_objects device (o ∷ os) ps now r =
    count_objects device os ps now
      (count_found (find_point device o.object_type o.object_instance ps) o now r)

-- The last two loops of `run_discovery`.
unfoldable pub count_all : Inventory → List PointState → ℕ → DiscoveryResult → DiscoveryResult
count_all [] ps now r = r
count_all ((device, os) ∷ inventory) ps now r =
    count_all inventory ps now (count_objects device os ps now r)

abbrev pub find_device : ℕ → List DeviceInfo → Option DeviceInfo
find_device n [] = none
find_device n (d ∷ ds) = if d.instance_number == n then some d else find_device n ds

module _ {W : Type 0} (prefixes : List Text) (fx : Effects W) where
  open fx use {discover, describe, upsert_device, upsert_points, load_devices, wall}

  -- The import of a device whose objects are known; `none` is an exception. The prefix of the paths
  -- is made of the name of the device, or else of its instance.
  unfoldable pub store_objects : DeviceInfo → List ObjectInfo → Inventory → W → Option Inventory × W
  store_objects d os inventory w0 =
      let (device, w1) = upsert_device d w0 in
      elim device [
        | none ↦ (none, w1)
        | some id ↦
            let (stored, w2) = upsert_points id os d.supports_cov d.name d.instance_number w1 in
            (if stored then some (insert d.instance_number os inventory) else none, w2)
      ]

  unfoldable pub import_described : Described → DeviceInfo → Inventory → W → Option Inventory × W
  import_described unavailable d inventory w = (some inventory, w)
  import_described failed d inventory w = (none, w)
  import_described (objects os) d inventory w =
      store_objects d (keep_objects prefixes os) inventory w

  -- `import_device`, for the first device with the instance
  unfoldable pub import_device : List DeviceInfo → ℕ → Inventory → W → Option Inventory × W
  import_device devices n inventory w = elim (find_device n devices) [
    | none ↦ (none, w)
    | some d ↦ let (described, w') = describe d w in import_described described d inventory w'
  ]

  -- `asyncio.gather`, up to the first exception
  unfoldable pub import_all :
      List DeviceInfo → List DeviceInfo → Inventory → W → Option Inventory × W
  import_all devices [] inventory w = (some inventory, w)
  import_all devices (d ∷ ds) inventory w =
      let (done, w') = import_device devices d.instance_number inventory w in
      elim done [ none ↦ (none, w') | some inventory' ↦ import_all devices ds inventory' w' ]

  -- The registry is replaced, and the result counts what it holds of the inventory.
  unfoldable pub finish : Option Inventory → Registry → W → Option DiscoveryResult × Registry × W
  finish none r w = (none, r, w)
  finish (some inventory) r w0 =
      let (loaded, w1) = load_devices w0 in
      elim loaded [
        | none ↦ (none, r, w1)
        | some ds ↦
            let r' = replace r ds in
            let (now, w2) = wall w1 in
            let empty : DiscoveryResult = record {
              devices = length inventory;
              points = 0;
              readings = [];
            } in
            (some (count_all inventory (all_points r') now empty), r', w2)
      ]

  -- `run_discovery`; `none` is an exception, and leaves the registry as it was.
  unfoldable pub run_discovery : Registry → W → Option DiscoveryResult × Registry × W
  run_discovery r w0 =
      let (found, w1) = discover w0 in
      elim found [
        | none ↦ (none, r, w1)
        | some ds ↦ let (inventory, w2) = import_all ds ds [] w1 in finish inventory r w2
      ]
