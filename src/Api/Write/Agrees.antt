-- ===== src/Api/Write/Agrees.antt =====
-- The route and the collector apply the same tests to a point.
use superviseur.Prelude.{◌≡◌, ◌↔◌, refl, sym, ◌∙◌, ap, Option, none, some, arith}
use superviseur.Prelude.Int.{pos, ◌≤ℤ◌}
use superviseur.Prelude.Float.{Float}
use superviseur.Collector.Writer.{WriteTarget, check_target, is_below, is_above}
use superviseur.Api.Write.{Point, WriteRequest, below, above, check_point}

below-is_below : (m : Option Float) (v : Float) → below m v ≡ is_below v m
below-is_below none v = refl
below-is_below (some m) v = refl

above-is_above : (m : Option Float) (v : Float) → above m v ≡ is_above v m
above-is_above none v = refl
above-is_above (some m) v = refl

-- On the same row of a point, and with a priority in 1..16, as the schema asks, the route sends
-- a request on exactly when the collector accepts its point, value and priority.
pub check_point-check_target :
    (p : Point) (t : WriteTarget) (body : WriteRequest)
    → t.writable ≡ p.writable
    → t.write_min ≡ p.write_min
    → t.write_max ≡ p.write_max
    → (pos 1 ≤ℤ body.priority)
    → (body.priority ≤ℤ pos 16)
    → (check_point (some p) body ≡ none) ↔ (check_target (some t) body.value body.priority ≡ none)
unfolding check_point check_target
check_point-check_target p t body w low high first last =
    elim body.value
      as (λ v.
        (check_point (some p) (record body { value = v }) ≡ none)
        ↔ (check_target (some t) v body.priority ≡ none)) [
          | none ↦ ground (arith, w, first, last)
          | some v ↦ ground (
            arith,
            w,
            first,
            last,
            below-is_below p.write_min v ∙ sym (ap (is_below v) low),
            above-is_above p.write_max v ∙ sym (ap (is_above v) high),
          )
        ]
