-- ===== src/Prelude/Float.antt =====
-- Python's floats: `num z` is z units of 10⁻¹², beside the infinities and NaN. Sums and
-- differences of finite values are exact: rounding and overflow are not modelled.
use superviseur.Prelude.Tests.{if◌then◌else◌}
use superviseur.Prelude.Int.{ℤ, pos, ltb_ℤ, neg, ◌+ℤ◌, ◌-ℤ◌}
use Prim.Native.Nat.{ℕ, ◌*◌}
use mathlib.Core.Bool.{Bool, true, false}

pub data Float : Type 0 where
  nan neg_inf pos_inf : Float
  num : ℤ → Float

abbrev pub of_ℕ : ℕ → Float
of_ℕ n = num (pos (n * 1000000000000))

-- `math.isnan`
abbrev pub is_nan : Float → Bool
is_nan nan = true
is_nan _ = false

-- `a < b`; every comparison with NaN is false.
abbrev pub flt : Float → Float → Bool
flt nan b = false
flt neg_inf pos_inf = true
flt neg_inf (num b) = true
flt neg_inf b = false
flt pos_inf b = false
flt (num a) pos_inf = true
flt (num a) (num b) = ltb_ℤ a b
flt (num a) b = false

abbrev pub negate : Float → Float
negate nan = nan
negate neg_inf = pos_inf
negate pos_inf = neg_inf
negate (num a) = num (neg a)

-- `a + b`
unfoldable pub fadd : Float → Float → Float
unfolding ◌+ℤ◌
fadd (num a) (num b) = num (a +ℤ b)
fadd (num a) b = b
fadd nan b = nan
fadd neg_inf nan = nan
fadd neg_inf pos_inf = nan
fadd neg_inf b = neg_inf
fadd pos_inf nan = nan
fadd pos_inf neg_inf = nan
fadd pos_inf b = pos_inf

-- `a - b`
unfoldable pub fsub : Float → Float → Float
unfolding ◌-ℤ◌
fsub (num a) (num b) = num (a -ℤ b)
fsub (num a) nan = nan
fsub (num a) neg_inf = pos_inf
fsub (num a) pos_inf = neg_inf
fsub nan b = nan
fsub neg_inf nan = nan
fsub neg_inf neg_inf = nan
fsub neg_inf b = neg_inf
fsub pos_inf nan = nan
fsub pos_inf pos_inf = nan
fsub pos_inf b = pos_inf

-- `abs(a)`
unfoldable pub fabs : Float → Float
fabs nan = nan
fabs neg_inf = pos_inf
fabs pos_inf = pos_inf
fabs (num a) = if ltb_ℤ a (pos 0) then num (neg a) else num a
