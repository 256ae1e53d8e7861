-- ===== src/Collector/ConfigSync.antt =====
-- The settings of a point that change while the collector runs (backend/app/collector/config_sync.py).
use superviseur.Prelude.{
  ℕ, ◌+◌, Bool, true, false, Option, none, some, String, ltb, ◌==◌, nat_eq, if◌then◌else◌,
}
use superviseur.Prelude.Dict.{insert}
use superviseur.Prelude.Float.{Float}
use superviseur.Collector.Registry.{PointState, Registry, point}

-- What the store returns (backend/app/collector/store.py).
pub record PointSettings : Type 0 where
  pub deadband : Float
  pub max_interval_s : ℕ
  pub poll_interval_s : Option ℕ
  pub path : Option String

abbrev pub min : ℕ → ℕ → ℕ
min a b = if ltb b a then b else a

-- `settings.poll_interval_s or self._default_poll_interval_s`
abbrev pub poll_interval : PointSettings → ℕ → ℕ
poll_interval s default = elim s.poll_interval_s [
  | none ↦ default
  | some n ↦ if n == 0 then default else n
]

-- The point with its settings, and with its next read where none is subscribed.
unfoldable pub with_settings : PointSettings → ℕ → ℕ → PointState → PointState
with_settings s default now p =
    let every = poll_interval s default in
    record p {
      deadband = s.deadband;
      max_interval_s = s.max_interval_s;
      poll_interval_s = every;
      path = s.path;
      tracking =
          if p.cov_active
          then p.tracking
          else record (p.tracking) { next_due = min p.next_due (now + every) };
    }

module _ {W : Type 0} (get_point_settings : ℕ → W → Option (Option PointSettings) × W)
    (clock : W → ℕ × W) (default : ℕ) where
  -- The end of `reload`, for a point of the registry; `none` is an exception of the store.
  unfoldable pub reload_point :
      Option (Option PointSettings) → ℕ → PointState → Registry → W → Option Bool × Registry × W
  reload_point none id p r w = (none, r, w)
  reload_point (some none) id p r w = (some false, r, w)
  reload_point (some (some s)) id p r w =
      let (now, w') = clock w in
      (some true, record r { points = insert id (with_settings s default now p) r.points }, w')

  -- `reload`
  unfoldable pub reload : ℕ → Registry → W → Option Bool × Registry × W
  reload id r w = elim (point r id) [
    | none ↦ (some false, r, w)
    | some p ↦ let (s, w') = get_point_settings id w in reload_point s id p r w'
  ]
