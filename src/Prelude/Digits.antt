-- ===== src/Prelude/Digits.antt =====
-- `str` of a natural number and `int` of its digits. A unit of fuel is spent for each digit.
use Prim.Native.Nat.{ℕ, zero, suc, ◌+◌, ◌-◌, ◌*◌, ◌/◌, ◌%◌, ◌<◌}
use mathlib.Core.Path.{◌≡◌, refl, sym, ap, ◌∙◌}
use mathlib.Core.Logic.{inl, inr}
use mathlib.Core.Bool.{Bool, true, ◌&&◌}
use mathlib.Core.List.{[], ◌∷◌, ◌++◌}
use native.Mathlib.Omega.{arith}
use superviseur.Prelude.Tests.{ltb, leb, if◌then◌else◌, Bool-cases}
use superviseur.Prelude.Lists.{All, All-append}
use superviseur.Prelude.Text.{Text}

unfoldable pub digits : ℕ → ℕ → Text
digits zero n = []
digits (suc f) n =
    let front = digits f (n / 10) in
    if ltb n 10 then (b'0' + n) ∷ [] else front ++ (b'0' + n % 10) ∷ []

-- `str(n)`
abbrev pub decimal : ℕ → Text
decimal n = digits (suc n) n

-- `int(text)`, for a text of digits
abbrev pub value_from : ℕ → Text → ℕ
value_from n [] = n
value_from n (c ∷ cs) = value_from (n * 10 + (c - b'0')) cs

abbrev pub value : Text → ℕ
value cs = value_from 0 cs

value_from-append :
    (n : ℕ) (cs ds : Text) → value_from n (cs ++ ds) ≡ value_from (value_from n cs) ds
value_from-append n [] ds = refl
value_from-append n (c ∷ cs) ds = value_from-append (n * 10 + (c - b'0')) cs ds

value-digits : (f n : ℕ) → n < f → value (digits f n) ≡ n
unfolding digits
value-digits zero n h = absurd (omega arith)
value-digits (suc f) n h = elim (Bool-cases (ltb n 10)) [
  | inl small ↦ rw small (omega arith)
  | inr large ↦ rw large (
      value_from-append 0 (digits f (n / 10)) ((b'0' + n % 10) ∷ [])
      ∙ ap (λ v. v * 10 + (b'0' + n % 10 - b'0')) (value-digits f (n / 10) (ground arith))
      ∙ omega arith)
]

pub value-decimal : (n : ℕ) → value (decimal n) ≡ n
value-decimal n = value-digits (suc n) n (omega arith)

-- Different numbers have different digits.
pub decimal-inj : (m n : ℕ) → decimal m ≡ decimal n → m ≡ n
decimal-inj m n e = sym (value-decimal m) ∙ ap value e ∙ value-decimal n

abbrev pub is_decimal_digit : ℕ → Bool
is_decimal_digit c = leb b'0' c && leb c b'9'

pub digits-All : (f n : ℕ) → All (λ c. is_decimal_digit c ≡ true) (digits f n)
unfolding digits
digits-All zero n = tt
digits-All (suc f) n = elim (Bool-cases (ltb n 10)) [
  | inl small ↦ rw small (ground arith, tt)
  | inr large ↦ rw large (
      All-append (λ c. is_decimal_digit c ≡ true) (digits f (n / 10)) ((b'0' + n % 10) ∷ [])
        (digits-All f (n / 10)) (ground arith, tt))
]
