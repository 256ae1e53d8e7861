-- ===== src/Tests/Recorder.antt =====
-- The recorder and the registry on concrete inputs.
use superviseur.Prelude.{
  ℕ, ◌≤◌, ◌≡◌, refl, true, false, none, some, List, [], ◌∷◌, ◌++◌, length, arith,
}
use superviseur.Prelude.Float.{of_ℕ, fabs, fsub}
use superviseur.Models.{PointStatus}
use superviseur.Collector.Registry.{
  Reading, PointState, DeviceState, Registry, Loaded, replace, carry_all, carry_device,
  carry_points, carry_point, put_all_points, put_points,
}
use superviseur.Collector.Registry.Replace.{replace_keeps_tracking}
use superviseur.Collector.Recorder.{
  Recorder, max_buffered_rows, ticks, should_store, mark_stored, handle, record_found, record_point,
  touch, begin_flush, end_flush,
}
use superviseur.Collector.Recorder.Deadband.{StandsFor, after_reading, after_reading-StandsFor}
use superviseur.Collector.Recorder.Buffer.{
  Event, reading, flush_begins, flush_ends, run, step, all_kept, kept_in, no_row_lost,
  failed_flush_bounded,
}

abbrev at : ℕ → ℕ → Reading
at ts v = record { point_id = 1; ts = ticks ts; value = some (of_ℕ v); status = PointStatus.ok }

abbrev new_point : PointState
new_point = record {
  ref = record {
    point_id = 1;
    device_instance = 100;
    address = "10.0.0.5";
    object_type = "analog-input";
    object_instance = 3;
  };
  name = "T1";
  path = none;
  deadband = of_ℕ 2;
  max_interval_s = 300;
  poll_interval_s = 30;
  cov_capable = true;
  device = none;
  tracking = record {
    next_due = 0;
    cov_active = false;
    cov_expires = some 0;
    cov_retry_at = 0;
    stored = false;
    stored_value = none;
    stored_status = none;
    stored_ts = none;
  };
}

-- The point after its first row, whose value a second reading changes by less than the deadband.
abbrev once_stored : PointState
once_stored = record new_point {
  tracking = record (new_point.tracking) {
    stored = true;
    stored_value = some (of_ℕ 20);
    stored_status = some PointStatus.ok;
    stored_ts = some (ticks 10);
  };
}

after_reading-StandsFor_example : StandsFor (after_reading once_stored (at 20 21)) (at 20 21)
after_reading-StandsFor_example = after_reading-StandsFor once_stored (at 20 21) refl (omega arith)

abbrev recorder : Recorder
recorder = record {
  registry = record { devices = []; points = (1, new_point) ∷ [] };
  samples = [];
  latest = [];
  in_flight = none;
  written = [];
  published = [];
}

-- The second reading comes in while the first is being written; the write fails, the next works.
abbrev outage : List Event
outage =
    reading (at 10 20) 1
    ∷ flush_begins
    ∷ reading (at 20 30) 2
    ∷ flush_ends false
    ∷ flush_begins
    ∷ flush_ends true
    ∷ []

outage_kept : kept_in outage recorder ≡ at 10 20 ∷ at 20 30 ∷ []
unfolding kept_in step handle record_found record_point touch should_store mark_stored begin_flush
    end_flush fabs fsub
outage_kept = refl

no_row_lost_example : all_kept (run outage recorder) ≡ all_kept recorder ++ kept_in outage recorder
no_row_lost_example = no_row_lost outage recorder (rw outage_kept (omega arith))

abbrev stranded : Recorder
stranded = record recorder { samples = at 20 30 ∷ []; in_flight = some (at 10 20 ∷ [], []) }

failed_flush_bounded_example :
    (length (end_flush false stranded).samples ≤ max_buffered_rows)
    × ((given_up : List Reading) × (given_up ++ (end_flush false stranded).samples
          ≡ at 10 20 ∷ at 20 30 ∷ []))
failed_flush_bounded_example = failed_flush_bounded stranded refl

abbrev device : DeviceState
device = record {
  device_id = 9;
  instance_number = 100;
  address = "10.0.0.5";
  name = "AHU";
  supports_cov = true;
  points = 1 ∷ [];
  contact = record {
    online = true;
    failures = 0;
    last_contact = 0;
    last_attempt = 0;
    last_seen_written = 0;
  };
}

abbrev known_point : PointState
known_point = mark_stored new_point (at 10 20)

abbrev known : Registry
known = record { devices = []; points = (1, known_point) ∷ [] }

abbrev reloaded : List Loaded
reloaded = (device, (1, new_point) ∷ []) ∷ []

replace_keeps_tracking_example :
    (record new_point { device = some 9; tracking = known_point.tracking }).tracking
    ≡ known_point.tracking
unfolding replace put_all_points put_points carry_all carry_device carry_points carry_point
replace_keeps_tracking_example =
    replace_keeps_tracking known reloaded 1
      {p = record new_point { device = some 9; tracking = known_point.tracking }} {q = known_point}
      refl refl
