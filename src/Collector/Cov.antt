-- ===== src/Collector/Cov.antt =====
-- The subscriptions to changes of value (backend/app/collector/cov.py). Instants and durations are
-- ticks; the service of a device is one run, without what other tasks do at its waits.
use superviseur.Prelude.{
  ℕ, ◌+◌, Bool, true, false, not, ◌&&◌, Option, none, some, List, [], ◌∷◌, ltb, ◌==◌, nat_eq,
  if◌then◌else◌,
}
use superviseur.Prelude.Dict.{lookup, insert}
use superviseur.Collector.Registry.{PointRef, PointState, Tracking, Registry}
use superviseur.Collector.Poller.{max}

-- How a call of `subscribe_cov` ends: with a subscription, without an answer, with a refusal of the
-- service, with another refusal, or with any other exception.
pub data Subscription : Type 0 where
  subscribed unreachable unsupported refused failed : Subscription

pub record CovConfig : Type 0 where
  pub lifetime_s : ℕ
  pub renew_before_s : ℕ
  pub retry_s : ℕ
  pub safety_poll_s : ℕ

abbrev before_end : CovConfig → ℕ → Option ℕ → Bool
before_end cfg now none = true
before_end cfg now (some t) = ltb (now + cfg.renew_before_s) t

-- The tests before the subscription.
unfoldable pub is_due : CovConfig → ℕ → PointState → Bool
is_due cfg now p =
    p.cov_capable
    && (if p.cov_active
        then not (before_end cfg now p.cov_expires)
        else not (ltb now p.cov_retry_at))

-- The point after a subscription, and after a refusal of the driver.
unfoldable pub with_subscription : CovConfig → ℕ → PointState → Tracking
with_subscription cfg now p = record (p.tracking) {
  cov_active = true;
  cov_expires = if cfg.lifetime_s == 0 then none else some (now + cfg.lifetime_s);
  next_due = max p.next_due (now + cfg.safety_poll_s);
}

unfoldable pub without_subscription : CovConfig → ℕ → PointState → Tracking
without_subscription cfg now p = record (p.tracking) {
  cov_active = false;
  cov_retry_at = now + cfg.retry_s;
  next_due = if p.cov_active then now else p.next_due;
}

abbrev pub set_tracking : ℕ → PointState → (PointState → Tracking) → Registry → Registry
set_tracking id p f r = record r { points = insert id (record p { tracking = f p }) r.points }

-- `device.supports_cov = False`
abbrev pub give_up : ℕ → Registry → Registry
give_up device r = elim (lookup device r.devices) [
  | none ↦ r
  | some d ↦ record r { devices = insert device (record d { supports_cov = false }) r.devices }
]

-- What a call leaves: whether the loop goes on, and whether an exception leaves it.
pub data Next : Type 0 where
  next stop raise : Next

unfoldable pub after :
    Subscription → CovConfig → ℕ → ℕ → ℕ → PointState → Registry → Next × Registry
after subscribed cfg now device id p r = (next, set_tracking id p (with_subscription cfg now) r)
after unreachable cfg now device id p r = (stop, r)
after unsupported cfg now device id p r =
    (stop, give_up device (set_tracking id p (without_subscription cfg now) r))
after refused cfg now device id p r = (next, set_tracking id p (without_subscription cfg now) r)
after failed cfg now device id p r = (raise, r)

module _ {W : Type 0} (cfg : CovConfig) (subscribe_cov : PointRef → ℕ → W → Subscription × W)
    (clock : W → ℕ × W) where
  -- The loop over the points of a device; `false` is an exception.
  unfoldable pub service_points : ℕ → ℕ → List ℕ → Registry → W → Bool × Registry × W
  service_points now device [] r w = (true, r, w)
  service_points now device (id ∷ ids) r w = elim (lookup id r.points) [
    | none ↦ service_points now device ids r w
    | some p ↦
        let (answer, w') = subscribe_cov p.ref cfg.lifetime_s w in
        let (goes_on, r') = after answer cfg now device id p r in
        let further = service_points now device ids r' w' in
        let skipped = service_points now device ids r w in
        if is_due cfg now p
        then elim goes_on [ next ↦ further | stop ↦ (true, r', w') | raise ↦ (false, r', w') ]
        else skipped
  ]

  -- `service`
  unfoldable pub service : ℕ → Registry → W → Bool × Registry × W
  service device r w = elim (lookup device r.devices) [
    | none ↦ (true, r, w)
    | some d ↦ let (now, w') = clock w in service_points now device d.points r w'
  ]

  -- One round of `run`: the devices that are online and support the service, one after the other.
  unfoldable pub round : List ℕ → Registry → W → Registry × W
  round [] r w = (r, w)
  round (id ∷ ids) r w = elim (lookup id r.devices) [
    | none ↦ round ids r w
    | some d ↦
        let (done, r', w') = service id r w in
        let served = round ids r' w' in
        let skipped = round ids r w in if d.supports_cov && d.online then served else skipped
  ]
