-- ===== src/Api/PointSettings/Settled.antt =====
-- The bounds that a change of settings keeps (backend/app/api/routes/points.py).
use mathlib.Core.Path.{subst}
use superviseur.Prelude.{
  ℕ, ◌≡◌, Bool-cases, true, false, Option, none, some, List, [], ◌∷◌, All, or_else, ◌==◌, nat_eq,
  arith, inl, inr,
}
use superviseur.Prelude.Int.{ℤ}
use superviseur.Prelude.Float.{Float, of_ℕ, flt}
use superviseur.Api.PointSettings.{
  PointRow, PointUpdate, is_valid, interval_fits, deadband_fits, replaced, settings, is_unordered,
  find_point, set_point,
}

-- The bounds are ordered, the deadband is not below 0, and the intervals have between a second and a day.
pub record IsSettled (p : PointRow) : Type 0 where
  pub ordered : is_unordered p.write_min p.write_max ≡ false
  pub deadband_bound : flt p.deadband (of_ℕ 0) ≡ false
  pub max_interval_bounds : interval_fits (some (some p.max_interval_s)) ≡ true
  pub poll_interval_bounds : interval_fits (some p.poll_interval_s) ≡ true

replaced-deadband :
    (d : Float) (b : Option (Option Float))
    → flt d (of_ℕ 0) ≡ false
    → deadband_fits b ≡ true
    → flt (replaced d b) (of_ℕ 0) ≡ false
replaced-deadband d none h fits = h
replaced-deadband d (some none) h fits = h
replaced-deadband d (some (some x)) h fits = ground (arith, fits)

replaced-interval :
    (n : ℤ) (b : Option (Option ℤ))
    → interval_fits (some (some n)) ≡ true
    → interval_fits b ≡ true
    → interval_fits (some (some (replaced n b))) ≡ true
replaced-interval n none h fits = h
replaced-interval n (some none) h fits = h
replaced-interval n (some (some m)) h fits = fits

or_else-interval :
    (n : Option ℤ) (b : Option (Option ℤ))
    → interval_fits (some n) ≡ true
    → interval_fits b ≡ true
    → interval_fits (some (or_else b n)) ≡ true
or_else-interval n none h fits = h
or_else-interval n (some m) h fits = fits

pub settings-IsSettled :
    (b : PointUpdate) (p : PointRow)
    → is_valid b ≡ true
    → IsSettled p
    → is_unordered (settings b p).write_min (settings b p).write_max ≡ false
    → IsSettled (settings b p)
unfolding is_valid
settings-IsSettled b p valid h ordered = record {
  ordered = ordered;
  deadband_bound = replaced-deadband p.deadband b.deadband h.deadband_bound (ground (arith, valid));
  max_interval_bounds =
      replaced-interval p.max_interval_s b.max_interval_s h.max_interval_bounds
        (ground (arith, valid));
  poll_interval_bounds =
      or_else-interval p.poll_interval_s b.poll_interval_s h.poll_interval_bounds
        (ground (arith, valid));
}

pub All-set_point :
    (q : PointRow) (ps : List PointRow)
    → IsSettled q
    → All IsSettled ps
    → All IsSettled (set_point q ps)
unfolding set_point
All-set_point q [] s h = tt
All-set_point q (p ∷ ps) s h = elim (Bool-cases (p.id == q.id)) [
  | inl here ↦ rw (set_point, here) (s, h.1)
  | inr other ↦ rw (set_point, other) (h.0, All-set_point q ps s (h.1))
]

pub All-find_point :
    (id : ℕ) (p : PointRow) (ps : List PointRow)
    → All IsSettled ps
    → find_point id ps ≡ some p
    → IsSettled p
unfolding find_point
All-find_point id p [] h e = cc
All-find_point id p (q ∷ ps) h e = elim (Bool-cases (q.id == id)) [
  | inl here ↦
      let found : some q ≡ some p = rw (find_point, here) at e in subst IsSettled {x = q} (cc) (h.0)
  | inr other ↦ All-find_point id p ps (h.1) (rw (find_point, other) at e)
]
