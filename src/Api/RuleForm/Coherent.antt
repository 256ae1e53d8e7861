-- ===== src/Api/RuleForm/Coherent.antt =====
-- What a rule that the form accepts satisfies (backend/app/api/schemas.py, `AlarmRuleIn`).
use superviseur.Prelude.{
  not, ℕ, ◌≡◌, ◌≢◌, ◌⊎◌, ◌≤◌, refl, Bool, Bool-cases, true, false, inl, inr, Option, none, some,
  List, [], ◌∷◌, All, all, length, arith, ◌&&◌, if◌then◌else◌, leb,
}
use mathlib.Core.Path.{subst}
use superviseur.Prelude.Float.{Float, of_ℕ, flt, is_nan}
use superviseur.Prelude.Int.{ℤ, pos}
use superviseur.Prelude.Text.{Text}
use superviseur.Models.{AlarmKind}
use superviseur.Alarms.Rules.{is_threshold_kind}
use superviseur.Api.RuleForm.{
  RuleValues, RuleForm, ◌>>=◌, max_channels, validate_channel, name_fits, hysteresis_in, delay_in,
  channels_in, is_not_positive, is_stale_kind, threshold_required, model_validate,
}

-- A rule of a kind that compares with a threshold has one, and the time of a stale rule is above 0;
-- the rest is within its bounds, and each channel is one that the notifier knows.
pub record IsCoherent (urlparse : Text → Option (Text × Text)) (v : RuleValues) : Type 0 where
  pub has_threshold : is_threshold_kind v.kind ≡ true → v.threshold ≢ none
  pub stale_time :
      (t : Float)
      → v.kind ≡ AlarmKind.stale
      → v.threshold ≡ some t
      → (is_nan t ≡ true) ⊎ (flt (of_ℕ 0) t ≡ true)
  pub name_length : (name : Text) → v.name ≡ some name → length name ≤ 255
  pub hysteresis_bound : flt v.hysteresis (of_ℕ 0) ≡ false
  pub delay_bound : v.delay_s ≤ 86400
  pub channel_count : length v.notify ≤ max_channels
  pub channels_valid : All (λ c. validate_channel urlparse c ≡ true) v.notify

-- What a step of `model_validate` that goes on has found.
bind-some :
    {A B : Type 0} (o : Option A) (f : A → Option B) (b : B)
    → (o >>= f) ≡ some b
    → (a : A) × (o ≡ some a) × (f a ≡ some b)
bind-some none f b e = cc
bind-some (some a) f b e = (a, refl, e)

hysteresis_in-bound :
    (f : Option Float) (h : Float) → hysteresis_in f ≡ some h → flt h (of_ℕ 0) ≡ false
hysteresis_in-bound none h e = cc
hysteresis_in-bound (some x) h e = elim (Bool-cases (flt x (of_ℕ 0))) [
  | inl below ↦ let no : none ≡ some h = rw below at e in cc
  | inr right ↦ let same : some x ≡ some h = rw right at e in cc
]

delay_in-bound : (f : Option ℤ) (n : ℕ) → delay_in f ≡ some n → n ≤ 86400
delay_in-bound none n e = cc
delay_in-bound (some (pos m)) n e = ground (arith, e)
delay_in-bound (some (_)) n e = cc

all-All : {A : Type 0} (p : A → Bool) (xs : List A) → all p xs ≡ true → All (λ x. p x ≡ true) xs
all-All p [] h = tt
all-All p (x ∷ xs) h = elim (Bool-cases (p x)) [
  | inl passed ↦ (passed, all-All p xs (rw passed at h))
  | inr fails ↦ let never : false ≡ true = rw fails at h in cc
]

name_fits-bound :
    (name : Option Text) (n : Text) → name_fits name ≡ true → name ≡ some n → length n ≤ 255
name_fits-bound none n h e = cc
name_fits-bound (some m) n h e =
    let short : length m ≤ 255 = ground (arith, h) in let same : m ≡ n = cc in rw same at short

threshold_required-has :
    (k : AlarmKind) (t : Option Float)
    → threshold_required k t ≡ true
    → is_threshold_kind k ≡ true
    → t ≢ none
unfolding threshold_required
threshold_required-has k none h kind = let never : not true ≡ true = rw kind at h in cc
threshold_required-has k (some t) h kind = λ e. cc

is_not_positive-false :
    (t : Float) → is_not_positive (some t) ≡ false → (is_nan t ≡ true) ⊎ (flt (of_ℕ 0) t ≡ true)
is_not_positive-false t h = ground (arith, h)

threshold_required-stale :
    (k : AlarmKind) (o : Option Float) (t : Float)
    → threshold_required k o ≡ true
    → k ≡ AlarmKind.stale
    → o ≡ some t
    → (is_nan t ≡ true) ⊎ (flt (of_ℕ 0) t ≡ true)
unfolding threshold_required
threshold_required-stale k none t h kind e = cc
threshold_required-stale k (some u) t h kind e =
    let same : u ≡ t = cc in
    let passed : not (is_stale_kind AlarmKind.stale && is_not_positive (some t)) ≡ true =
      rw (kind, same) at h in
    is_not_positive-false t (ground (arith, passed))

channels_in-bound :
    (urlparse : Text → Option (Text × Text)) (f : Option (List Text)) (cs : List Text)
    → channels_in urlparse f ≡ some cs
    → (length cs ≤ max_channels) × All (λ c. validate_channel urlparse c ≡ true) cs
channels_in-bound urlparse none cs e = cc
channels_in-bound urlparse (some ds) cs e =
    let valid = λ (c : Text). validate_channel urlparse c in
    elim (Bool-cases (leb (length ds) max_channels && all valid ds)) [
      | inl passed ↦
          let same : some ds ≡ some cs = rw passed at e in
          let few : length ds ≤ max_channels = ground (arith, passed) in
          let good : all valid ds ≡ true = ground (arith, passed) in
          subst (λ xs. (length xs ≤ max_channels) × All (λ c. valid c ≡ true) xs) {x = ds} (cc)
            (few, all-All valid ds good)
      | inr fails ↦ let never : none ≡ some cs = rw fails at e in cc
    ]

-- The end of `model_validate`.
accepted-some :
    {A : Type 0} (b : Bool) (a v : A) → (if b then some a else none) ≡ some v → (b ≡ true) × (a ≡ v)
accepted-some true a v e = (refl, cc)
accepted-some false a v e = cc

pub model_validate-IsCoherent :
    (urlparse : Text → Option (Text × Text)) (f : RuleForm) (v : RuleValues)
    → model_validate urlparse f ≡ some v
    → IsCoherent urlparse v
unfolding model_validate
model_validate-IsCoherent urlparse f v e =
    let (kind, k, e1) = bind-some f.kind _ v e in
    let (h, hyst, e2) = bind-some (hysteresis_in f.hysteresis) _ v e1 in
    let (n, delay, e3) = bind-some (delay_in f.delay_s) _ v e2 in
    let (sev, s, e4) = bind-some f.severity _ v e3 in
    let (cs, channels, e5) = bind-some (channels_in urlparse f.notify) _ v e4 in
    let (on, o, e6) = bind-some f.enabled _ v e5 in
    let (ok, same) =
      accepted-some (name_fits f.name && threshold_required kind f.threshold) _ v e6 in
    let fits : name_fits f.name ≡ true = ground (arith, ok) in
    let required : threshold_required kind f.threshold ≡ true = ground (arith, ok) in
    let sound = channels_in-bound urlparse f.notify cs channels in
    subst (IsCoherent urlparse) (same) (record {
      has_threshold = threshold_required-has kind f.threshold required;
      stale_time = λ t. threshold_required-stale kind f.threshold t required;
      name_length = λ name. name_fits-bound f.name name fits;
      hysteresis_bound = hysteresis_in-bound f.hysteresis h hyst;
      delay_bound = delay_in-bound f.delay_s n delay;
      channel_count = sound.0;
      channels_valid = sound.1;
    })
