-- ===== src/Collector/Normalizer.antt =====
-- Normalisation of readings (backend/app/collector/normalizer.py).
use superviseur.Prelude.{
  ℕ, Bool, true, false, ◌&&◌, ◌||◌, Option, none, some, List, [], ◌∷◌, String, ltb, map, ◌==◌,
  nat_eq, string_eq, if◌then◌else◌,
}
use superviseur.Prelude.Text.{Text, codes, lower, text_eq}
use superviseur.Prelude.Float.{Float, of_ℕ}
use superviseur.Models.{PointStatus}
use superviseur.Collector.Registry.{Reading}

-- The four status flags of an object; a flag is set when it is not 0.
status_of : Bool → Bool → Bool → PointStatus
status_of fault overridden out_of_service =
    if out_of_service
    then PointStatus.out_of_service
    else if fault
    then PointStatus.fault
    else if overridden
    then PointStatus.overridden
    else PointStatus.ok

-- `normalize_status`
unfoldable pub normalize_status : Option (List ℕ) → PointStatus
unfolding status_of
normalize_status (some (in_alarm ∷ fault ∷ overridden ∷ out_of_service ∷ rest)) =
    status_of (ltb 0 fault) (ltb 0 overridden) (ltb 0 out_of_service)
normalize_status _ = PointStatus.ok

-- A raw value of the driver: nothing, a Boolean, a number, or anything else, with its text.
pub data Raw : Type 0 where
  nothing : Raw
  flag : Bool → Raw
  number : Float → Raw
  other : Text → Raw

-- `normalize_present_value`; `parse` is Python's `float(text)`, `none` for a `ValueError`.
unfoldable pub normalize_present_value : (Text → Option Float) → Raw → Option Float
normalize_present_value parse nothing = none
normalize_present_value parse (flag true) = some (of_ℕ 1)
normalize_present_value parse (flag false) = some (of_ℕ 0)
normalize_present_value parse (number x) = some x
normalize_present_value parse (other t) =
    let text = map lower t in
    if text == codes "active"
    then some (of_ℕ 1)
    else if text == codes "inactive"
    then some (of_ℕ 0)
    else parse text

-- `build_reading`, at its instant
unfoldable pub build_reading : (Text → Option Float) → ℕ → Raw → Option (List ℕ) → ℕ → Reading
build_reading parse point raw flags ts = record {
  point_id = point;
  ts = ts;
  value = normalize_present_value parse raw;
  status = normalize_status flags;
}

-- `comm_lost_reading`, at its instant
unfoldable pub comm_lost_reading : ℕ → ℕ → Reading
comm_lost_reading point ts = record {
  point_id = point;
  ts = ts;
  value = none;
  status = PointStatus.comm_lost;
}

-- The suffix test of `str.endswith`, over code points.
abbrev pub ends_with : Text → Text → Bool
ends_with suffix [] = suffix == []
ends_with suffix (c ∷ cs) = suffix == c ∷ cs || ends_with suffix cs

abbrev pub begins_with : Text → Text → Bool
begins_with [] cs = true
begins_with (p ∷ ps) [] = false
begins_with (p ∷ ps) (c ∷ cs) = p == c && begins_with ps cs

-- `is_writable`
unfoldable pub is_writable : Text → Bool
is_writable object_type =
    ends_with (codes "-output") object_type || ends_with (codes "-value") object_type

-- `is_multistate`
unfoldable pub is_multistate : Text → Bool
is_multistate object_type = begins_with (codes "multi-state") object_type

-- The labels of the units.
abbrev units : List (String × String)
units =
    ("degrees-celsius", "°C")
    ∷ ("degrees-fahrenheit", "°F")
    ∷ ("kelvin", "K")
    ∷ ("percent", "%")
    ∷ ("percent-relative-humidity", "%HR")
    ∷ ("watts", "W")
    ∷ ("kilowatts", "kW")
    ∷ ("megawatts", "MW")
    ∷ ("watt-hours", "Wh")
    ∷ ("kilowatt-hours", "kWh")
    ∷ ("kilojoules", "kJ")
    ∷ ("megajoules", "MJ")
    ∷ ("pascals", "Pa")
    ∷ ("kilopascals", "kPa")
    ∷ ("hectopascals", "hPa")
    ∷ ("bars", "bar")
    ∷ ("volts", "V")
    ∷ ("amperes", "A")
    ∷ ("milliamperes", "mA")
    ∷ ("hertz", "Hz")
    ∷ ("kilovolt-amperes", "kVA")
    ∷ ("kilovolt-amperes-reactive", "kvar")
    ∷ ("cubic-meters-per-hour", "m³/h")
    ∷ ("cubic-meters-per-second", "m³/s")
    ∷ ("liters-per-second", "L/s")
    ∷ ("liters", "L")
    ∷ ("cubic-meters", "m³")
    ∷ ("meters", "m")
    ∷ ("kilograms", "kg")
    ∷ ("revolutions-per-minute", "tr/min")
    ∷ ("parts-per-million", "ppm")
    ∷ ("seconds", "s")
    ∷ ("minutes", "min")
    ∷ ("hours", "h")
    ∷ ("degrees-angular", "°")
    ∷ ("lux", "lx")
    ∷ ("ohms", "ohm")
    ∷ []

find_unit : String → List (String × String) → String
find_unit name [] = name
find_unit name ((k, label) ∷ rest) = if k == name then label else find_unit name rest

-- `unit_label`
unfoldable pub unit_label : Option String → Option String
unfolding find_unit
unit_label none = none
unit_label (some name) =
    if name == "" || name == "no-units" then none else some (find_unit name units)
