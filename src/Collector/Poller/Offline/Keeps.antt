-- ===== src/Collector/Poller/Offline/Keeps.antt =====
-- The operations that leave every device's state and count of failures alone.
use superviseur.Prelude.{
  ℕ, ◌≡◌, refl, sym, ◌∙◌, ap, Bool, true, false, Option, none, some, List, [], ◌∷◌, ◌==◌, nat_eq,
  arith, Bool-cases, Option-cases, inl, inr,
}
use superviseur.Prelude.Dict.{lookup, insert, lookup-insert}
use superviseur.Models.{PointStatus}
use superviseur.Collector.Registry.{PointState, Tracking, DeviceState, Contact, Registry, Reading}
use superviseur.Collector.Recorder.{
  Recorder, should_store, handle, record_found, record_point, touch, touch_device, begin_flush,
  is_full, end_flush, end_taken,
}
use superviseur.Collector.Poller.{
  Effects, Settings, track, track_found, set_contact, contact_found, schedule,
}
use superviseur.Collector.Poller.Cycle.{
  flush, write_taken, record_reading, record_readings, schedule_all, publish_status,
  touch_last_seen, restart, unsubscribe, lose,
}

abbrev pub status_of : Option DeviceState → Option (Bool × ℕ)
status_of none = none
status_of (some d) = some (d.online, d.failures)

-- Whether a device is online, and its count of failures.
abbrev pub status : ℕ → Registry → Option (Bool × ℕ)
status id r = status_of (lookup id r.devices)

insert-status :
    (j id : ℕ) (d d' : DeviceState) (r : Registry)
    → lookup j r.devices ≡ some d
    → (d'.online ≡ d.online) × (d'.failures ≡ d.failures)
    → status_of (lookup id (insert j d' r.devices)) ≡ status id r
insert-status j id d d' r e h = elim (Bool-cases (j == id)) [
  | inl same ↦
      let k : j ≡ id = (nat_eq.agree_iff j id).0 same in
      let there : lookup id r.devices ≡ some d = ap (λ x. lookup x r.devices) (sym k) ∙ e in
      rw (lookup-insert j id d' r.devices, same, there) (λ i. some (h.0 i, h.1 i))
  | inr other ↦ rw (lookup-insert j id d' r.devices, other) refl
]

touch_device-status :
    (j id : ℕ) (d : Option DeviceState) (now : ℕ) (r : Registry)
    → lookup j r.devices ≡ d
    → status id (touch_device j d now r) ≡ status id r
unfolding touch_device
touch_device-status j id none now r e = refl
touch_device-status j id (some d) now r e = insert-status j id d _ r e (refl, refl)

touch-status :
    (id : ℕ) (d : Option ℕ) (s : PointStatus) (now : ℕ) (r : Registry)
    → status id (touch d s now r) ≡ status id r
unfolding touch
touch-status id none s now r = refl
touch-status id (some j) PointStatus.comm_lost now r = refl
touch-status id (some j) s now r = touch_device-status j id (lookup j r.devices) now r refl

handle-status :
    (id : ℕ) (r : Reading) (now : ℕ) (s : Recorder)
    → status id (handle r now s).registry ≡ status id s.registry
unfolding handle record_found record_point
handle-status id r now s = elim (Option-cases (lookup r.point_id s.registry.points)) [
  | inl missing ↦ rw missing refl
  | inr (p, found) ↦ rw found (elim (Bool-cases (should_store p r)) [
    | inl kept ↦ rw kept (touch-status id p.device r.status now s.registry)
    | inr dropped ↦ rw dropped (touch-status id p.device r.status now s.registry)
  ])
]

pub set_contact-status :
    (id j : ℕ) (f : Contact → Contact) (s : Recorder)
    → ((c : Contact) → ((f c).online ≡ c.online) × ((f c).failures ≡ c.failures))
    → status id (set_contact j f s).registry ≡ status id s.registry
unfolding set_contact contact_found
set_contact-status id j f s h = elim (Option-cases (lookup j s.registry.devices)) [
  | inl missing ↦ rw missing refl
  | inr (d, found) ↦ rw found (insert-status j id d _ s.registry found (h d.contact))
]

pub track-status :
    (id j : ℕ) (f : PointState → Tracking) (s : Recorder)
    → status id (track j f s).registry ≡ status id s.registry
unfolding track track_found
track-status id j f s = elim (Option-cases (lookup j s.registry.points)) [
  | inl missing ↦ rw missing refl
  | inr (p, found) ↦ rw found refl
]

begin_flush-registry : (s : Recorder) → (begin_flush s).registry ≡ s.registry
unfolding begin_flush
begin_flush-registry s = ground arith

end_taken-registry :
    (t : Option (List Reading × List Reading)) (done : Bool) (s : Recorder)
    → (end_taken t done s).registry ≡ s.registry
unfolding end_taken
end_taken-registry none done s = refl
end_taken-registry (some (xs, ys)) true s = refl
end_taken-registry (some (xs, ys)) false s = refl

module _ {W : Type 0} (cfg : Settings) (fx : Effects W) (id : ℕ) where
  write_taken-registry :
      (t : Option (List Reading × List Reading)) (s : Recorder) (w : W)
      → (write_taken cfg fx t s w).0.registry ≡ s.registry
  unfolding write_taken end_flush
  write_taken-registry none s w = refl
  write_taken-registry (some rows) s w =
      end_taken-registry s.in_flight (fx.write_samples rows w).0 s

  pub record_reading-status :
      (r : Reading) (s : Recorder) (w : W)
      → status id (record_reading cfg fx r s w).0.registry ≡ status id s.registry
  unfolding record_reading flush
  record_reading-status r s w =
      let kept = handle r (fx.clock w).0 s in
      let same = handle-status id r (fx.clock w).0 s in
      elim (Bool-cases (is_full cfg.batch_rows kept)) [
        | inl full ↦ rw full (
            ap (status id) (
              write_taken-registry (begin_flush kept).in_flight (begin_flush kept) (fx.clock w).1
              ∙ begin_flush-registry kept)
            ∙ same)
        | inr room ↦ rw room same
      ]

  pub record_readings-status :
      (rs : List Reading) (s : Recorder) (w : W)
      → status id (record_readings cfg fx rs s w).0.registry ≡ status id s.registry
  unfolding record_readings
  record_readings-status [] s w = refl
  record_readings-status (r ∷ rs) s w =
      record_readings-status rs _ (record_reading cfg fx r s w).1 ∙ record_reading-status r s w

  pub schedule_all-status :
      (now : ℕ) (ids : List ℕ) (s : Recorder)
      → status id (schedule_all cfg fx now ids s).registry ≡ status id s.registry
  unfolding schedule_all
  schedule_all-status now [] s = refl
  schedule_all-status now (j ∷ ids) s =
      schedule_all-status now ids (schedule cfg now j s) ∙ track-status id j _ s

  pub unsubscribe-status :
      (ids : List ℕ) (s : Recorder)
      → status id (unsubscribe cfg fx ids s).registry ≡ status id s.registry
  unfolding unsubscribe
  unsubscribe-status [] s = refl
  unsubscribe-status (j ∷ ids) s = unsubscribe-status ids _ ∙ track-status id j _ s

  pub lose-status :
      (now : ℕ) (ids : List ℕ) (s : Recorder) (w : W)
      → status id (lose cfg fx now ids s w).0.registry ≡ status id s.registry
  unfolding lose
  lose-status now [] s w = refl
  lose-status now (j ∷ ids) s w =
      lose-status now ids _ _ ∙ track-status id j _ _ ∙ record_reading-status _ s _

  pub restart-status :
      (ids : List ℕ) (s : Recorder) (w : W)
      → status id (restart cfg fx ids s w).0.registry ≡ status id s.registry
  unfolding restart
  restart-status [] s w = refl
  restart-status (j ∷ ids) s w = restart-status ids _ _ ∙ track-status id j _ s

  pub publish_status-status :
      (j : ℕ) (online : Bool) (s : Recorder) (w : W)
      → status id (publish_status cfg fx j online s w).0.registry ≡ status id s.registry
  unfolding publish_status
  publish_status-status j online s w =
      let now = (fx.clock (fx.wall w).1).0 in
      let kept =
        set_contact-status id j (λ c. record c { last_seen_written = now }) s (λ c. (refl, refl)) in
      ground (arith, kept)

  pub touch_last_seen-status :
      (j : ℕ) (s : Recorder) (w : W)
      → status id (touch_last_seen cfg fx j s w).0.registry ≡ status id s.registry
  unfolding touch_last_seen
  touch_last_seen-status j s w = set_contact-status id j _ s (λ c. (refl, refl))
