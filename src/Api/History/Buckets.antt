-- ===== src/Api/History/Buckets.antt =====
-- The texts of buckets, and the buckets that `auto` chooses.
use superviseur.Prelude.{
  ℕ, suc, ◌+◌, ◌-◌, ◌*◌, ◌/◌, ◌%◌, ◌≤◌, ◌<◌, ◌≡◌, ◌⊎◌, refl, ◌∙◌, true, false, none, some, List, [],
  ◌∷◌, ◌++◌, leb, leb→le, ltb, length, length-append, All, ◌==◌, nat_eq, arith, Bool-cases,
  Option-cases, inl, inr, if◌then◌else◌,
}
use mathlib.Core.Path.{subst}
use native.Mathlib.Nat.{mul_assoc, lt-div-mul-add}
use superviseur.Prelude.Text.{Text}
use superviseur.Prelude.Digits.{digits, decimal, value, value-decimal, is_decimal_digit, digits-All}
use superviseur.Api.Doc.{take_class}
use superviseur.Api.History.{
  nice_buckets, unit_seconds, bucket_value, parse_bucket, format_bucket, covered, first_size,
  ceil_div, auto_bucket_seconds,
}

take_class-digits :
    (ds : Text) (u : ℕ)
    → All (λ c. is_decimal_digit c ≡ true) ds
    → is_decimal_digit u ≡ false
    → take_class is_decimal_digit (ds ++ u ∷ []) ≡ (ds, u ∷ [])
take_class-digits [] u h k = rw k refl
take_class-digits (d ∷ ds) u h k = rw (h.0, take_class-digits ds u (h.1) k) refl

bucket_value-some :
    (ds : Text) (u : ℕ) → 0 < length ds → bucket_value ds (u ∷ []) ≡ value ds * unit_seconds u
unfolding bucket_value
bucket_value-some [] u h = absurd (omega arith)
bucket_value-some (d ∷ ds) u h = refl

digits_pos : (f n : ℕ) → 0 < length (digits (suc f) n)
unfolding digits
digits_pos f n = elim (Bool-cases (ltb n 10)) [
  | inl small ↦ rw small (omega arith)
  | inr large ↦ rw large (omega (arith, length-append (digits f (n / 10)) ((b'0' + n % 10) ∷ [])))
]

parse_unit :
    (n u : ℕ)
    → is_decimal_digit u ≡ false
    → parse_bucket (decimal n ++ u ∷ [])
      ≡ (if leb (n * unit_seconds u) 0 then none else some (n * unit_seconds u))
unfolding parse_bucket
parse_unit n u h =
    rw
      (
        take_class-digits (decimal n) u (digits-All (suc n) n) h,
        bucket_value-some (decimal n) u (digits_pos n n),
        value-decimal n,
      )
      refl

-- The text of a duration of at least a second is read back as that duration.
pub parse_bucket-format_bucket :
    (seconds : ℕ) → 0 < seconds → parse_bucket (format_bucket seconds) ≡ some seconds
unfolding format_bucket
parse_bucket-format_bucket seconds h = elim (Bool-cases (seconds % 86400 == 0)) [
  | inl days ↦
      rw days
        (parse_unit (seconds / 86400) b'd' refl ∙ (unfold unit_seconds in ground (arith, h, days)))
  | inr rest ↦ elim (Bool-cases (seconds % 3600 == 0)) [
    | inl hours ↦
        rw (rest, hours)
          (parse_unit (seconds / 3600) b'h' refl
            ∙ (unfold unit_seconds in ground (arith, h, hours)))
    | inr rest' ↦ elim (Bool-cases (seconds % 60 == 0)) [
      | inl minutes ↦
          rw (rest, rest', minutes)
            (parse_unit (seconds / 60) b'm' refl
              ∙ (unfold unit_seconds in ground (arith, h, minutes)))
      | inr odd ↦
          rw (rest, rest', odd)
            (parse_unit seconds b's' refl ∙ (unfold unit_seconds in ground (arith, h)))
    ]
  ]
]

-- The size of a list that is chosen is large enough, and no size of the list that is large enough is
-- smaller, if they grow.
Growing : List ℕ → Type 0
Growing [] = Unit
Growing (x ∷ xs) = All (λ y. x ≤ y) xs × Growing xs

abbrev pub Fits : ℕ → ℕ → ℕ → List ℕ → Type 0
Fits span max_points s sizes =
    (span ≤ covered s max_points) × All (λ t. span ≤ covered t max_points → s ≤ t) sizes

All-below :
    (span max_points s : ℕ) (sizes : List ℕ)
    → All (λ t. s ≤ t) sizes
    → All (λ t. span ≤ covered t max_points → s ≤ t) sizes
All-below span max_points s [] h = tt
All-below span max_points s (t ∷ ts) h = ((λ k. h.0), All-below span max_points s ts (h.1))

first_size-Fits :
    (span max_points s : ℕ) (sizes : List ℕ)
    → Growing sizes
    → first_size span max_points sizes ≡ some s
    → Fits span max_points s sizes
unfolding first_size Growing
first_size-Fits span max_points s [] g e = cc
first_size-Fits span max_points s (t ∷ ts) g e =
    elim (Bool-cases (leb span (covered t max_points))) [
      | inl large ↦
          let same : t ≡ s = (let here = rw large at e in cc) in
          subst (λ x. Fits span max_points x (t ∷ ts)) same
            (
              leb→le span (covered t max_points) large,
              ((λ k. omega arith), All-below span max_points t ts (g.0)),
            )
      | inr small ↦
          let (fits, least) = first_size-Fits span max_points s ts (g.1) (rw small at e) in
          (fits, ((λ k. absurd (ground (arith, small, k))), least))
    ]

first_size-none :
    (span max_points : ℕ) (sizes : List ℕ)
    → first_size span max_points sizes ≡ none
    → All (λ t. covered t max_points < span) sizes
unfolding first_size
first_size-none span max_points [] e = tt
first_size-none span max_points (t ∷ ts) e = elim (Bool-cases (leb span (covered t max_points))) [
  | inl large ↦ let found = rw large at e in cc
  | inr small ↦ (ground (arith, small), first_size-none span max_points ts (rw small at e))
]

ceil_div-covers : (a b : ℕ) → 0 < b → a ≤ ceil_div a b * b
ceil_div-covers a b h = omega (arith, h, lt-div-mul-add {a = a + (b - 1)} {b = b} h)

multiple_covers :
    (span max_points : ℕ)
    → 0 < max_points
    → span ≤ covered (ceil_div span (covered 86400 max_points) * 86400) max_points
multiple_covers span max_points h =
    let size = covered 86400 max_points in
    let whole = ceil_div-covers span size (omega (arith, h)) in
    rw (mul_assoc (ceil_div span size) 86400 (max_points * 1000000)) whole

All-vacuous :
    (span max_points s : ℕ) (sizes : List ℕ)
    → All (λ t. covered t max_points < span) sizes
    → All (λ t. span ≤ covered t max_points → s ≤ t) sizes
All-vacuous span max_points s [] h = tt
All-vacuous span max_points s (t ∷ ts) h =
    ((λ k. absurd (omega (arith, h.0, k))), All-vacuous span max_points s ts (h.1))

-- For a number of points that is not 0, the size that `auto` chooses is 0, for raw rows, only if the
-- range has no more seconds than points are wanted; any other size covers the range with no more
-- buckets than points are wanted, and no smaller size of the table does.
pub auto_bucket_seconds-Fits :
    (span max_points : ℕ)
    → 0 < max_points
    → let s = auto_bucket_seconds span max_points in
      ((s ≡ 0) × (span ≤ max_points * 1000000)) ⊎ Fits span max_points s nice_buckets
unfolding auto_bucket_seconds
auto_bucket_seconds-Fits span max_points h = elim (Bool-cases (leb span (max_points * 1000000))) [
  | inl short ↦ rw short (inl (refl, leb→le span (max_points * 1000000) short))
  | inr long ↦ elim (Option-cases (first_size span max_points nice_buckets)) [
    | inl none_fits ↦
        rw (long, none_fits)
          (inr (
            multiple_covers span max_points h,
            All-vacuous span max_points _ nice_buckets
                (first_size-none span max_points nice_buckets none_fits),
          ))
    | inr (s, e) ↦
        rw (long, e)
          (inr (first_size-Fits span max_points s nice_buckets (unfold Growing in omega arith) e))
  ]
]
