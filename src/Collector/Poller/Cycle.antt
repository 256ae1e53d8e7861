-- ===== src/Collector/Poller/Cycle.antt =====
-- A poll cycle and what it does to its device (backend/app/collector/poller.py).
use superviseur.Prelude.{
  ℕ, ◌+◌, Bool, true, false, not, ◌&&◌, Option, none, some, List, [], ◌∷◌, ◌++◌, map, leb, nat_eq,
  nat_eq, if◌then◌else◌,
}
use superviseur.Prelude.Dict.{lookup}
use superviseur.Models.{PointStatus}
use superviseur.Collector.Registry.{Reading, PointState, DeviceState}
use superviseur.Collector.Recorder.{Recorder, handle, is_full, begin_flush, end_flush}
use superviseur.Collector.Normalizer.{comm_lost_reading}
use superviseur.Collector.Poller.{
  Effects, Settings, Outcome, answered, unreachable, refused, last_seen_period_s, points_of, track,
  set_contact, schedule, chunks, due_points,
}

-- How the loop over the chunks ends: with the points that are left when the device does not answer,
-- after the last chunk, or with an exception that is not the driver's own.
pub data End : Type 0 where
  lost : List ℕ → End
  finished aborted : End

unfoldable pub concat : List (List ℕ) → List ℕ
concat [] = []
concat (xs ∷ xss) = xs ++ concat xss

abbrev instance_of : Option DeviceState → ℕ
instance_of none = 0
instance_of (some d) = d.instance_number

-- The readings of a chunk whose read the device refused.
unfoldable pub faults : ℕ → List (ℕ × PointState) → List Reading
faults stamp [] = []
faults stamp ((id, p) ∷ points) =
    record { point_id = p.ref.point_id; ts = stamp; value = none; status = PointStatus.fault }
    ∷ faults stamp points

module _ {W : Type 0} (cfg : Settings) (fx : Effects W) where
  open fx use {clock, wall, read, write_samples, set_device_status, publish}

  unfoldable pub write_taken : Option (List Reading × List Reading) → Recorder → W → Recorder × W
  write_taken none s w = (s, w)
  write_taken (some rows) s w = let (done, w') = write_samples rows w in (end_flush done s, w')

  -- `Recorder.flush`, while no other flush waits
  unfoldable pub flush : Recorder → W → Recorder × W
  unfolding write_taken
  flush s w = let taken = begin_flush s in write_taken taken.in_flight taken w

  -- `Recorder.handle`
  unfoldable pub record_reading : Reading → Recorder → W → Recorder × W
  record_reading r s w =
      let (now, w') = clock w in
      let kept = handle r now s in if is_full cfg.batch_rows kept then flush kept w' else (kept, w')

  unfoldable pub record_readings : List Reading → Recorder → W → Recorder × W
  record_readings [] s w = (s, w)
  record_readings (r ∷ rs) s w = let (s', w') = record_reading r s w in record_readings rs s' w'

  -- `for point in chunk: point.next_due = now + self._interval(point)`
  unfoldable pub schedule_all : ℕ → List ℕ → Recorder → Recorder
  schedule_all now [] s = s
  schedule_all now (id ∷ ids) s = schedule_all now ids (schedule cfg now id s)

  -- The `try` block's `publish_status`, whose exceptions are caught.
  unfoldable pub publish_status : ℕ → Bool → Recorder → W → Recorder × W
  publish_status id online s w0 =
      let (stamp, w1) = wall w0 in
      let (now, w2) = clock w1 in
      let s' = set_contact id (λ c. record c { last_seen_written = now }) s in
      let (stored, w3) = set_device_status id online (if online then some stamp else none) w2 in
      let told : Bool × W =
        publish id (instance_of (lookup id s.registry.devices)) online stamp w3 in
      if stored then (s', told.1) else (s', w3)

  -- `_touch_last_seen`
  unfoldable pub touch_last_seen : ℕ → Recorder → W → Recorder × W
  touch_last_seen id s w0 =
      let (now, w1) = clock w0 in
      let s' = set_contact id (λ c. record c { last_seen_written = now }) s in
      let (stamp, w2) = wall w1 in
      let (stored, w3) = set_device_status id true (some stamp) w2 in (s', w3)

  -- The points of a device that answers again: all are due, and no subscription holds.
  unfoldable pub restart : List ℕ → Recorder → W → Recorder × W
  restart [] s w = (s, w)
  restart (id ∷ ids) s w =
      let (now, w') = clock w in
      restart ids
        (track id
          (λ p. record (p.tracking) { next_due = now; cov_active = false; cov_retry_at = 0 }) s)
        w'

  unfoldable pub success_found : Option DeviceState → ℕ → Recorder → W → Recorder × W
  success_found none id s w = (s, w)
  success_found (some d) id s w =
      let back : Recorder × W =
        let (s', w') =
          publish_status id true (set_contact id (λ c. record c { online = true }) s) w in
        restart d.points s' w' in
      let (now, w1) = clock w in
      let seen : Recorder × W = touch_last_seen id s w1 in
      if not d.online
      then back
      else if leb (d.last_seen_written + last_seen_period_s) now
      then seen
      else (s, w1)

  -- `_on_success`
  unfoldable pub on_success : ℕ → Recorder → W → Recorder × W
  on_success id s w =
      let (now, w') = clock w in
      let s' = set_contact id (λ c. record c { failures = 0; last_contact = now }) s in
      success_found (lookup id s'.registry.devices) id s' w'

  unfoldable pub unsubscribe : List ℕ → Recorder → Recorder
  unsubscribe [] s = s
  unsubscribe (id ∷ ids) s =
      unsubscribe ids (track id (λ p. record (p.tracking) { cov_active = false }) s)

  -- The last loop of `_on_failure`.
  unfoldable pub lose : ℕ → List ℕ → Recorder → W → Recorder × W
  lose now [] s w = (s, w)
  lose now (id ∷ ids) s w =
      let (stamp, w1) = wall w in
      let (s', w2) = record_reading (comm_lost_reading id stamp) s w1 in
      lose now ids (schedule cfg now id s') w2

  unfoldable pub failure_found : Option DeviceState → ℕ → List ℕ → ℕ → Recorder → W → Recorder × W
  failure_found none id ids now s w = (s, w)
  failure_found (some d) id ids now s w =
      let gone : Recorder × W =
        let (s', w') =
          publish_status id false (set_contact id (λ c. record c { online = false }) s) w in
        lose now d.points (unsubscribe d.points s') w' in
      let waits : Recorder × W = lose now ids s w in
      if d.online && leb cfg.offline_after_cycles d.failures then gone else waits

  -- `_on_failure`, for the points that the cycle has not read
  unfoldable pub on_failure : ℕ → List ℕ → Recorder → W → Recorder × W
  on_failure id ids s w =
      let s' = set_contact id (λ c. record c { failures = c.failures + 1 }) s in
      let (now, w') = clock w in failure_found (lookup id s'.registry.devices) id ids now s' w'

  -- What a chunk leaves once its readings are there.
  unfoldable pub end_chunk : ℕ → List ℕ → List Reading → Recorder → W → Recorder × W
  end_chunk now chunk rs s w =
      let (s', w') = record_readings rs s w in (schedule_all now chunk s', w')

  unfoldable pub read_chunk : Outcome → ℕ → List ℕ → Recorder → W → Option (Recorder × W)
  unfolding end_chunk
  read_chunk (answered rs) now chunk s w = some (end_chunk now chunk rs s w)
  read_chunk refused now chunk s w =
      let (stamp, w') = wall w in
      some (end_chunk now chunk (faults stamp (points_of chunk s.registry)) s w')
  read_chunk _ now chunk s w = none

  abbrev pub end_of : Outcome → List ℕ → End
  end_of unreachable ids = lost ids
  end_of _ ids = aborted

  -- The loop over the chunks.
  unfoldable pub poll_chunks : ℕ → List (List ℕ) → Recorder → W → End × Recorder × W
  poll_chunks now [] s w = (finished, s, w)
  poll_chunks now (chunk ∷ rest) s w =
      let (out, w') =
        read (map (λ (x : ℕ × PointState). (x.1).ref) (points_of chunk s.registry)) w in
      elim (read_chunk out now chunk s w') [
        | none ↦ (end_of out (concat (chunk ∷ rest)), s, w')
        | some (s1, w1) ↦ poll_chunks now rest s1 w1
      ]

  unfoldable pub end_cycle : ℕ → End → Recorder → W → Recorder × W
  end_cycle id (lost ids) s w = on_failure id ids s w
  end_cycle id finished s w = on_success id s w
  end_cycle id aborted s w = (s, w)

  -- Without a chunk there is no answer, and nothing is to be done.
  abbrev pub ended : List (List ℕ) → End → End
  ended [] e = aborted
  ended (chunk ∷ chunked) e = e

  -- `_poll_cycle`
  unfoldable pub poll_cycle : ℕ → List ℕ → Recorder → W → Recorder × W
  unfolding poll_chunks end_cycle
  poll_cycle id ids s w =
      let (now, w0) = clock w in
      let s0 = set_contact id (λ c. record c { last_attempt = now }) s in
      let chunked = chunks cfg.batch_size ids in
      let (e, s1, w1) = poll_chunks now chunked s0 w0 in end_cycle id (ended chunked e) s1 w1

  poll_due : ℕ → List ℕ → Recorder → W → Recorder × W
  poll_due id [] s w = (s, w)
  poll_due id (p ∷ ps) s w = poll_cycle id (p ∷ ps) s w

  -- The body of the loop of `_device_loop`
  unfoldable pub device_round : ℕ → Recorder → W → Recorder × W
  unfolding poll_due
  device_round id s w = let (due, s', w') = due_points cfg fx id s w in poll_due id due s' w'
