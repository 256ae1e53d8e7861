-- ===== src/Collector/Recorder.antt =====
-- The recording of readings (backend/app/collector/recorder.py): which readings are kept, and the
-- buffer between them and the database. Instants are ticks.
pub mod Deadband
pub mod Buffer
use superviseur.Prelude.{
  ℕ, ◌+◌, ◌-◌, ◌*◌, Bool, true, false, not, ◌||◌, Option, none, some, List, [], ◌∷◌, ◌++◌, length,
  drop, leb, nat_eq, is_some, if◌then◌else◌,
}
use superviseur.Prelude.Float.{Float, flt, fsub, fabs}
use superviseur.Prelude.Dict.{Dict, lookup, insert, values}
use superviseur.Models.{PointStatus, PointStatus-discrete}
use superviseur.Collector.Registry.{Registry, PointState, DeviceState, Tracking, Reading}
use mathlib.Core.Bool.{decide}

abbrev pub max_buffered_rows : ℕ
max_buffered_rows = 200000

-- Whole seconds, in ticks.
abbrev pub ticks : ℕ → ℕ
ticks s = s * 1000000000000

abbrev pub same_status : PointStatus → PointStatus → Bool
same_status PointStatus.ok PointStatus.ok = true
same_status PointStatus.fault PointStatus.fault = true
same_status PointStatus.overridden PointStatus.overridden = true
same_status PointStatus.out_of_service PointStatus.out_of_service = true
same_status PointStatus.stale PointStatus.stale = true
same_status PointStatus.comm_lost PointStatus.comm_lost = true
same_status _ _ = false

abbrev pub status_changed : PointStatus → Option PointStatus → Bool
status_changed s none = true
status_changed s (some t) = not (same_status s t)

-- `(a is None) != (b is None) or (both are there and abs(a - b) > deadband)`
abbrev pub value_changed : Option Float → Option Float → Float → Bool
value_changed none none deadband = false
value_changed (some a) (some b) deadband = flt deadband (fabs (fsub a b))
value_changed _ _ deadband = true

-- The tests of `should_store` for a point with a stored row of instant `since`.
store_again : PointState → Reading → ℕ → Bool
store_again p r since =
    status_changed r.status p.stored_status
    || (value_changed r.value p.stored_value p.deadband
        || leb (since + ticks p.max_interval_s) r.ts)

store_after : Bool → Option ℕ → PointState → Reading → Bool
store_after true (some since) p r = store_again p r since
store_after _ _ p r = true

-- `should_store`
unfoldable pub should_store : PointState → Reading → Bool
unfolding store_after store_again
should_store p r = store_after p.stored p.stored_ts p r

-- The assignments to the point of a reading that is kept.
unfoldable pub mark_stored : PointState → Reading → PointState
mark_stored p r = record p {
  tracking = record (p.tracking) {
    stored = true;
    stored_value = r.value;
    stored_status = some r.status;
    stored_ts = some r.ts;
  };
}

-- The state of a `Recorder`. The write of a flush is a wait, during which readings may come in:
-- `in_flight` is what a flush has taken out of the buffer, and `written` what the store accepted.
-- `published` is what went to Redis, whose exceptions are caught.
pub record Recorder : Type 0 where
  pub registry : Registry
  pub samples : List Reading
  pub latest : Dict ℕ Reading
  pub in_flight : Option (List Reading × List Reading)
  pub written : List Reading
  pub published : List Reading

-- `point.device.last_contact = now`
unfoldable pub touch_device : ℕ → Option DeviceState → ℕ → Registry → Registry
touch_device id none now r = r
touch_device id (some d) now r = record r {
  devices = insert id (record d { contact = record (d.contact) { last_contact = now } }) r.devices;
}

unfoldable pub touch : Option ℕ → PointStatus → ℕ → Registry → Registry
touch (some id) PointStatus.comm_lost now r = r
touch (some id) s now r = touch_device id (lookup id r.devices) now r
touch none s now r = r

unfoldable pub record_point : PointState → Reading → ℕ → Recorder → Recorder
record_point p r now s =
    let registry = touch p.device r.status now s.registry in
    let kept = should_store p r in
    record s {
      registry =
          if kept
          then record registry { points = insert r.point_id (mark_stored p r) registry.points }
          else registry;
      samples = if kept then s.samples ++ r ∷ [] else s.samples;
      latest = insert r.point_id r s.latest;
      published = s.published ++ r ∷ [];
    }

unfoldable pub record_found : Option PointState → Reading → ℕ → Recorder → Recorder
unfolding record_point
record_found none r now s = s
record_found (some p) r now s = record_point p r now s

-- `handle` up to its flush, at the loop's instant `now`.
unfoldable pub handle : Reading → ℕ → Recorder → Recorder
handle r now s = record_found (lookup r.point_id s.registry.points) r now s

-- The test at the end of `handle`: whether it flushes.
abbrev pub is_full : ℕ → Recorder → Bool
is_full batch_rows s = leb batch_rows (length s.samples) || leb batch_rows (length s.latest)

abbrev pub is_idle : List Reading → Dict ℕ Reading → Bool
is_idle [] [] = true
is_idle _ _ = false

-- `flush` up to its wait. While another flush waits, the lock holds this one back.
unfoldable pub begin_flush : Recorder → Recorder
begin_flush s =
    if is_some s.in_flight || is_idle s.samples s.latest
    then s
    else record s { samples = []; latest = []; in_flight = some (s.samples, values s.latest) }

-- `items[-n:]`
abbrev pub take_last : ℕ → List Reading → List Reading
take_last n items = drop (length items - n) items

-- `for row in rows: latest.setdefault(row["point_id"], row)`
unfoldable pub set_defaults : List Reading → Dict ℕ Reading → Dict ℕ Reading
set_defaults [] d = d
set_defaults (r ∷ rs) d =
    set_defaults rs (if is_some (lookup r.point_id d) then d else insert r.point_id r d)

unfoldable pub end_taken : Option (List Reading × List Reading) → Bool → Recorder → Recorder
end_taken none done s = s
end_taken (some (samples, latest)) true s = record s {
  in_flight = none;
  written = s.written ++ samples;
}
end_taken (some (samples, latest)) false s = record s {
  in_flight = none;
  samples = take_last max_buffered_rows (samples ++ s.samples);
  latest = set_defaults latest s.latest;
}

-- `flush` after its wait; `false` is an exception of the store.
unfoldable pub end_flush : Bool → Recorder → Recorder
unfolding end_taken
end_flush done s = end_taken s.in_flight done s
