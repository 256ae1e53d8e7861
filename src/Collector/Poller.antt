-- ===== src/Collector/Poller.antt =====
-- The polling of one device (backend/app/collector/poller.py): the points that are due, a cycle of
-- reads, and the detection of a lost device. A cycle is one run, without what other tasks do at its
-- waits. Instants and durations are ticks.
pub mod Cycle
pub mod Offline
use superviseur.Prelude.{
  ℕ, zero, suc, ◌+◌, ◌*◌, Bool, true, false, not, ◌&&◌, ◌||◌, Option, none, some, List, [], ◌∷◌,
  ◌++◌, ◌==◌, nat_eq, map, length, leb, ltb, is_some, filter, take, drop, if◌then◌else◌,
}
use superviseur.Prelude.Dict.{Dict, lookup, insert}
use superviseur.Models.{PointStatus}
use superviseur.Collector.Registry.{
  PointRef, Reading, PointState, Tracking, DeviceState, Contact, Registry,
}
use superviseur.Collector.Recorder.{
  Recorder, handle, is_full, begin_flush, end_flush, end_taken, record_found, record_point, touch,
  touch_device,
}

-- How a read of the driver ends: with readings, without an answer, with a refusal by the device, or
-- with any other exception.
pub data Outcome : Type 0 where
  answered : List Reading → Outcome
  unreachable refused failed : Outcome

pub record Effects (W : Type 0) : Type 0 where
  pub clock : W → ℕ × W
  pub wall : W → ℕ × W
  pub uniform : ℕ → W → ℕ × W
  pub read : List PointRef → W → Outcome × W
  pub write_samples : List Reading × List Reading → W → Bool × W
  pub set_device_status : ℕ → Bool → Option ℕ → W → Bool × W
  pub publish : ℕ → ℕ → Bool → ℕ → W → Bool × W

-- The settings of polling, of change of value and of storage that the poller reads.
pub record Settings : Type 0 where
  pub batch_size : ℕ
  pub offline_after_cycles : ℕ
  pub default_interval_s : ℕ
  pub safety_poll_s : ℕ
  pub batch_rows : ℕ

abbrev pub last_seen_period_s : ℕ
last_seen_period_s = 60000000000000

-- `_interval`
abbrev pub interval : Settings → PointState → ℕ
interval cfg p = if p.cov_active then cfg.safety_poll_s else p.poll_interval_s

-- The points with the ids.
unfoldable pub points_of : List ℕ → Registry → List (ℕ × PointState)
points_of [] r = []
points_of (id ∷ ids) r = elim (lookup id r.points) [
  | none ↦ points_of ids r
  | some p ↦ (id, p) ∷ points_of ids r
]

-- Assignments to the tracking of a point and to the contact of a device.
unfoldable pub track_found : Option PointState → ℕ → (PointState → Tracking) → Registry → Registry
track_found none id f r = r
track_found (some p) id f r = record r { points = insert id (record p { tracking = f p }) r.points }

unfoldable pub track : ℕ → (PointState → Tracking) → Recorder → Recorder
unfolding track_found
track id f s = record s { registry = track_found (lookup id s.registry.points) id f s.registry }

unfoldable pub contact_found : Option DeviceState → ℕ → (Contact → Contact) → Registry → Registry
contact_found none id f r = r
contact_found (some d) id f r = record r {
  devices = insert id (record d { contact = f d.contact }) r.devices;
}

unfoldable pub set_contact : ℕ → (Contact → Contact) → Recorder → Recorder
unfolding contact_found
set_contact id f s = record s {
  registry = contact_found (lookup id s.registry.devices) id f s.registry;
}

-- `point.next_due = now + self._interval(point)`
abbrev pub schedule : Settings → ℕ → ℕ → Recorder → Recorder
schedule cfg now id s = track id (λ p. record (p.tracking) { next_due = now + interval cfg p }) s

abbrev pub max : ℕ → ℕ → ℕ
max a b = if ltb a b then b else a

-- `min(points, key=lambda p: p.next_due)`: the first of the least.
unfoldable pub earliest : ℕ × PointState → List (ℕ × PointState) → ℕ
earliest (id, p) [] = id
earliest (id, p) ((j, q) ∷ rest) =
    earliest (if ltb q.next_due p.next_due then (j, q) else (id, p)) rest

-- `_chunks`, for a size that is not 0; the fuel is the number of the items.
unfoldable pub chunks_from : ℕ → ℕ → List ℕ → List (List ℕ)
chunks_from zero size items = []
chunks_from (suc f) size [] = []
chunks_from (suc f) size (x ∷ xs) = take size (x ∷ xs) ∷ chunks_from f size (drop size (x ∷ xs))

abbrev pub chunks : ℕ → List ℕ → List (List ℕ)
chunks size items = chunks_from (length items) size items

module _ {W : Type 0} (cfg : Settings) (fx : Effects W) where
  open fx use {clock, wall, uniform, read, write_samples, set_device_status, publish}

  -- The first loop of `_due_points`.
  unfoldable pub spread : ℕ → List (ℕ × PointState) → Recorder → W → Recorder × W
  spread now [] s w = (s, w)
  spread now ((id, p) ∷ points) s w =
      let (delay, w') = uniform (interval cfg p) w in
      let fresh : Recorder × W =
        spread now points (track id (λ q. record (q.tracking) { next_due = now + delay }) s) w' in
      let known : Recorder × W = spread now points s w in if p.next_due == 0 then fresh else known

  -- The points to read of a device with points, once each has its instant.
  unfoldable pub choose : ℕ → DeviceState → ℕ × PointState → List (ℕ × PointState) → List ℕ
  unfolding earliest
  choose now d first rest =
      let due = filter (λ (x : ℕ × PointState). leb (x.1).next_due now) (first ∷ rest) in
      let probe =
        length due == 0 && leb (max d.last_contact d.last_attempt + cfg.default_interval_s) now in
      if not d.online
      then if leb (d.last_attempt + cfg.default_interval_s) now then first.0 ∷ [] else []
      else if probe
      then earliest first rest ∷ []
      else map (λ (x : ℕ × PointState). x.0) due

  unfoldable pub choose_from : ℕ → DeviceState → List (ℕ × PointState) → List ℕ
  unfolding choose
  choose_from now d [] = []
  choose_from now d (first ∷ rest) = choose now d first rest

  unfoldable pub due_found : Option DeviceState → ℕ → Recorder → W → List ℕ × Recorder × W
  unfolding choose_from spread
  due_found none now s w = ([], s, w)
  due_found (some d) now s w =
      let (s', w') = spread now (points_of d.points s.registry) s w in
      (choose_from now d (points_of d.points s'.registry), s', w')

  -- `_due_points`
  unfoldable pub due_points : ℕ → Recorder → W → List ℕ × Recorder × W
  unfolding due_found
  due_points id s w = let (now, w') = clock w in due_found (lookup id s.registry.devices) now s w'
