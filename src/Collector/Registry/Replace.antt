-- ===== src/Collector/Registry/Replace.antt =====
-- A new registry keeps what was known of each point.
use superviseur.Prelude.{
  ℕ, ◌≡◌, Option, none, some, List, [], ◌∷◌, arith, nat_eq, ◌==◌, All, Bool-cases, inl, inr, ap,
  sym, ◌∙◌,
}
use superviseur.Prelude.Dict.{Dict, lookup, insert}
use superviseur.Collector.Registry.{
  Registry, Loaded, PointState, carry_tracking, carry_point, carry_points, carry_device, carry_all,
  put_points, put_all_points, replace,
}

-- What a point of the new registry keeps: the tracking of the point that had its id.
abbrev Keeps : Registry → ℕ × PointState → Type 0
Keeps old (pid, p) = (q : PointState) → lookup pid old.points ≡ some q → p.tracking ≡ q.tracking

put-Keeps :
    (old : Registry) (pid : ℕ) (p : PointState) (m : Dict ℕ PointState)
    → Keeps old (pid, p)
    → All (Keeps old) m
    → All (Keeps old) (insert pid p m)
put-Keeps old pid p [] k h = (k, tt)
put-Keeps old pid p ((j, w) ∷ m) k h = elim (Bool-cases (j == pid)) [
  | inl same ↦
      let e : j ≡ pid = (nat_eq.agree_iff j pid).0 same in
      rw same (λ q r. k q (ap (λ x. lookup x old.points) (sym e) ∙ r), h.1)
  | inr other ↦ rw other (h.0, put-Keeps old pid p m k h.1)
]

put_points-Keeps :
    (old : Registry) (ps m : Dict ℕ PointState)
    → All (Keeps old) ps
    → All (Keeps old) m
    → All (Keeps old) (put_points ps m)
unfolding put_points
put_points-Keeps old [] m k h = h
put_points-Keeps old ((pid, p) ∷ ps) m k h =
    put_points-Keeps old ps (insert pid p m) k.1 (put-Keeps old pid p m k.0 h)

carry_tracking-Keeps :
    (old p : Option PointState) (q r : PointState)
    → old ≡ some q
    → (carry_tracking old r).tracking ≡ q.tracking
carry_tracking-Keeps old p q r e = ground arith

carry_points-Keeps :
    (old : Registry) (device : ℕ) (ps : Dict ℕ PointState)
    → All (Keeps old) (carry_points old device ps)
unfolding carry_points carry_point
carry_points-Keeps old device [] = tt
carry_points-Keeps old device ((pid, p) ∷ ps) = (
  λ q e. carry_tracking-Keeps (lookup pid old.points) none q (record p { device = some device }) e,
  carry_points-Keeps old device ps,
)

put_all_points-Keeps :
    (old : Registry) (ds : List Loaded) (m : Dict ℕ PointState)
    → All (Keeps old) m
    → All (Keeps old) (put_all_points (carry_all old ds) m)
unfolding put_all_points carry_all carry_device
put_all_points-Keeps old [] m h = h
put_all_points-Keeps old ((d, ps) ∷ ds) m h = put_all_points-Keeps old ds _ (
    put_points-Keeps old (carry_points old d.device_id ps) m (carry_points-Keeps old d.device_id ps)
      h)

Keeps-lookup :
    (old : Registry) (pid : ℕ) (m : Dict ℕ PointState) {p q : PointState}
    → All (Keeps old) m
    → lookup pid m ≡ some p
    → lookup pid old.points ≡ some q
    → p.tracking ≡ q.tracking
Keeps-lookup old pid [] h e f = cc
Keeps-lookup old pid ((j, w) ∷ m) {p = p} {q = q} h e f = elim (Bool-cases (j == pid)) [
  | inl same ↦
      let i : j ≡ pid = (nat_eq.agree_iff j pid).0 same in
      let found : w ≡ p = cc (rw same at e) in
      rw found at (h.0 q (ap (λ x. lookup x old.points) i ∙ f))
  | inr other ↦ Keeps-lookup old pid m h.1 (rw other at e) f
]

-- A point of the new registry that the old registry knew keeps its due time, its subscription and
-- its last stored value, whatever devices the new registry was given.
pub replace_keeps_tracking :
    (old : Registry) (devices : List Loaded) (pid : ℕ) {p q : PointState}
    → lookup pid (replace old devices).points ≡ some p
    → lookup pid old.points ≡ some q
    → p.tracking ≡ q.tracking
unfolding replace
replace_keeps_tracking old devices pid e f =
    Keeps-lookup old pid (put_all_points (carry_all old devices) [])
      (put_all_points-Keeps old devices [] tt) e f
