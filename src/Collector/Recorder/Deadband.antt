-- ===== src/Collector/Recorder/Deadband.antt =====
-- What is lost by not keeping a reading.
use superviseur.Prelude.{
  refl, sym, ap, Bool, none, some, ℕ, ◌+◌, ◌<◌, ◌≡◌, true, false, Option, arith, if◌then◌else◌,
  Bool-cases, inl, inr,
}
use superviseur.Prelude.Int.{ℤ, pos, ltb_ℤ, ◌≤ℤ◌, ◌+ℤ◌, ◌-ℤ◌}
use superviseur.Prelude.Float.{Float, nan, pos_inf, neg_inf, num, flt, fsub, fabs}
use superviseur.Models.{PointStatus}
use superviseur.Collector.Registry.{PointState, Reading}
use superviseur.Collector.Recorder.{
  store_after, store_again, should_store, mark_stored, value_changed, same_status, status_changed,
  ticks,
}

-- The point after a reading, as far as its stored row goes.
abbrev pub after_reading : PointState → Reading → PointState
after_reading p r = if should_store p r then mark_stored p r else p

-- A stored value and a value differ by no more than the deadband, if both are finite numbers, and both
-- are there or none is. Nothing is asked of infinities and NaN, nor with an infinite deadband.
abbrev pub Near : Option Float → Option Float → Float → Type 0
Near none none d = Unit
Near none (some b) d = ⊥
Near (some a) none d = ⊥
Near (some (num a)) (some (num b)) (num d) = (a ≤ℤ b +ℤ d) × (b ≤ℤ a +ℤ d)
Near (some a) (some b) d = Unit

-- The row that is stored last stands for a reading: it has the status of the reading, a value near it,
-- and an age below the longest interval.
pub record StandsFor (p : PointState) (r : Reading) : Type 0 where
  pub is_stored : p.stored ≡ true
  pub status_kept : p.stored_status ≡ some r.status
  pub value_kept : Near p.stored_value r.value p.deadband
  pub recent : (since : ℕ) × (p.stored_ts ≡ some since) × (r.ts < since + ticks p.max_interval_s)

near_itself : (a d : ℤ) → ltb_ℤ d (pos 0) ≡ false → a ≤ℤ a +ℤ d
unfolding ◌+ℤ◌
near_itself a d h = ground (arith, h)

own-Near : (v : Option Float) (d : Float) → flt d (num (pos 0)) ≡ false → Near v v d
own-Near none d h = tt
own-Near (some (num a)) (num d) h = (near_itself a d h, near_itself a d h)
own-Near (some nan) d h = tt
own-Near (some pos_inf) d h = tt
own-Near (some neg_inf) d h = tt
own-Near (some (num a)) nan h = tt
own-Near (some (num a)) pos_inf h = tt
own-Near (some (num a)) neg_inf h = tt

within :
    (a b d : ℤ) → flt (num d) (fabs (fsub (num b) (num a))) ≡ false → (a ≤ℤ b +ℤ d) × (b ≤ℤ a +ℤ d)
unfolding ◌+ℤ◌ ◌-ℤ◌ fabs fsub
within a b d h = (ground (arith, h), ground (arith, h))

value_changed-Near : (a b : Option Float) (d : Float) → value_changed b a d ≡ false → Near a b d
value_changed-Near none none d h = tt
value_changed-Near none (some b) d h = cc
value_changed-Near (some a) none d h = cc
value_changed-Near (some (num a)) (some (num b)) (num d) h = within a b d h
value_changed-Near (some (num a)) (some (num b)) nan h = tt
value_changed-Near (some (num a)) (some (num b)) pos_inf h = tt
value_changed-Near (some (num a)) (some (num b)) neg_inf h = tt
value_changed-Near (some (num a)) (some nan) d h = tt
value_changed-Near (some (num a)) (some pos_inf) d h = tt
value_changed-Near (some (num a)) (some neg_inf) d h = tt
value_changed-Near (some nan) (some b) d h = tt
value_changed-Near (some pos_inf) (some b) d h = tt
value_changed-Near (some neg_inf) (some b) d h = tt

same_status-eq : (s t : PointStatus) → same_status s t ≡ true → s ≡ t
same_status-eq s t h = ground (arith, h)

status_changed-some :
    (s : PointStatus) (o : Option PointStatus) → status_changed s o ≡ false → o ≡ some s
status_changed-some s none h = cc
status_changed-some s (some t) h = ap some (sym (same_status-eq s t (ground (arith, h))))

-- What the tests of `should_store` say of a reading that is not stored.
unchanged :
    (stored : Bool) (since : Option ℕ) (p : PointState) (r : Reading)
    → store_after stored since p r ≡ false
    → (stored ≡ true)
      × (status_changed r.status p.stored_status ≡ false)
      × (value_changed r.value p.stored_value p.deadband ≡ false)
      × ((ts : ℕ) × (since ≡ some ts) × (r.ts < ts + ticks p.max_interval_s))
unfolding store_after store_again
unchanged false none p r h = cc
unchanged false (some ts) p r h = cc
unchanged true none p r h = cc
unchanged true (some ts) p r h =
    (refl, ground (arith, h), ground (arith, h), (ts, refl, ground (arith, h)))

-- After any reading of a point whose deadband is not negative and whose longest interval is positive,
-- the row that is stored last for the point has the status of the reading, and a value that is missing
-- exactly when that of the reading is and, where value, stored value and deadband are finite, differs
-- from it by no more than the deadband; and the row is younger than the longest interval.
pub after_reading-StandsFor :
    (p : PointState) (r : Reading)
    → flt p.deadband (num (pos 0)) ≡ false
    → 0 < p.max_interval_s
    → StandsFor (after_reading p r) r
unfolding should_store mark_stored
after_reading-StandsFor p r h i = elim (Bool-cases (should_store p r)) [
  | inl kept ↦ rw kept (record {
    is_stored = refl;
    status_kept = refl;
    value_kept = own-Near r.value p.deadband h;
    recent = (r.ts, refl, omega (arith, i));
  })
  | inr dropped ↦
      let (stored, status, value, recent) = unchanged p.stored p.stored_ts p r dropped in
      rw dropped (record {
        is_stored = stored;
        status_kept = status_changed-some r.status p.stored_status status;
        value_kept = value_changed-Near p.stored_value r.value p.deadband value;
        recent = recent;
      })
]
