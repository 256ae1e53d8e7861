-- ===== src/Api/RuleForm.antt =====
-- The forms of the alarm rules (backend/app/api/schemas.py) and the columns of a rule
-- (backend/app/db/models.py). A kind and a severity are their enumerations.
pub mod Coherent
use superviseur.Prelude.{
  ℕ, Bool, true, false, not, ◌&&◌, ◌||◌, Option, none, some, List, [], ◌∷◌, leb, all, length,
  or_else, ◌==◌, nat_eq, if◌then◌else◌,
}
use superviseur.Prelude.Int.{ℤ, pos, ltb_ℤ}
use superviseur.Prelude.Float.{Float, nan, neg_inf, pos_inf, num, of_ℕ, flt, is_nan}
use superviseur.Prelude.Text.{Text, text_eq, same_text, codes, is_space}
use superviseur.Api.Email.{is_email}
use superviseur.Models.{AlarmKind}
use superviseur.Alarms.Rules.{is_threshold_kind}

abbrev pub max_channels : ℕ
max_channels = 10

-- `channel.partition(":")`, without the separator.
abbrev pub partition : Text → Text × Text
partition [] = ([], [])
partition (c ∷ cs) =
    let (kind, target) = partition cs in if c == b':' then ([], cs) else (c ∷ kind, target)

pub data Severity : Type 0 where
  info warning critical : Severity

-- The columns of the table `alarm_rule` that `_rule_values` lists.
pub record RuleValues : Type 0 where
  pub name : Option Text
  pub kind : AlarmKind
  pub threshold : Option Float
  pub hysteresis : Float
  pub delay_s : ℕ
  pub severity : Severity
  pub notify : List Text
  pub enabled : Bool

pub record AlarmRule : Type 0 where
  pub id : ℕ
  pub point_id : ℕ
  pub values : RuleValues

-- The fields of a rule before they are checked; none is null, or a required field without a value.
pub record RuleForm : Type 0 where
  pub name : Option Text
  pub kind : Option AlarmKind
  pub threshold : Option Float
  pub hysteresis : Option Float
  pub delay_s : Option ℤ
  pub severity : Option Severity
  pub notify : Option (List Text)
  pub enabled : Option Bool

-- The fields that a body names, each with its value or null.
pub record RuleBody : Type 0 where
  pub name : Option (Option Text)
  pub kind : Option (Option AlarmKind)
  pub threshold : Option (Option Float)
  pub hysteresis : Option (Option Float)
  pub delay_s : Option (Option ℤ)
  pub severity : Option (Option Severity)
  pub notify : Option (Option (List Text))
  pub enabled : Option (Option Bool)

-- `{**before, **body.model_dump(exclude_unset=True)}`
abbrev pub merge : RuleForm → RuleBody → RuleForm
merge f b = record {
  name = or_else b.name f.name;
  kind = or_else b.kind f.kind;
  threshold = or_else b.threshold f.threshold;
  hysteresis = or_else b.hysteresis f.hysteresis;
  delay_s = or_else b.delay_s f.delay_s;
  severity = or_else b.severity f.severity;
  notify = or_else b.notify f.notify;
  enabled = or_else b.enabled f.enabled;
}

-- The defaults of `AlarmRuleIn`.
abbrev pub defaults : RuleForm
defaults = record {
  name = none;
  kind = none;
  threshold = none;
  hysteresis = some (of_ℕ 0);
  delay_s = some (pos 0);
  severity = none;
  notify = some [];
  enabled = some true;
}

-- `_rule_values`
abbrev pub rule_values : RuleValues → RuleForm
rule_values v = record {
  name = v.name;
  kind = some v.kind;
  threshold = v.threshold;
  hysteresis = some v.hysteresis;
  delay_s = some (pos v.delay_s);
  severity = some v.severity;
  notify = some v.notify;
  enabled = some v.enabled;
}

abbrev pub name_fits : Option Text → Bool
name_fits none = true
name_fits (some name) = leb (length name) 255

-- `ge=0, le=86400`
abbrev pub delay_in : Option ℤ → Option ℕ
delay_in (some (pos n)) = if leb n 86400 then some n else none
delay_in _ = none

-- `ge=0`, which a NaN passes.
abbrev pub hysteresis_in : Option Float → Option Float
hysteresis_in none = none
hysteresis_in (some h) = if flt h (of_ℕ 0) then none else some h

-- `(self.threshold or 0) <= 0`
abbrev pub is_not_positive : Option Float → Bool
is_not_positive none = true
is_not_positive (some t) = not (is_nan t) && not (flt (of_ℕ 0) t)

abbrev pub is_stale_kind : AlarmKind → Bool
is_stale_kind AlarmKind.stale = true
is_stale_kind _ = false

-- `_threshold_required`
unfoldable pub threshold_required : AlarmKind → Option Float → Bool
threshold_required kind none = not (is_threshold_kind kind)
threshold_required kind (some t) = not (is_stale_kind kind && is_not_positive (some t))

abbrev same_kind : AlarmKind → AlarmKind → Bool
same_kind AlarmKind.high AlarmKind.high = true
same_kind AlarmKind.low AlarmKind.low = true
same_kind AlarmKind.state AlarmKind.state = true
same_kind AlarmKind.stale AlarmKind.stale = true
same_kind AlarmKind.comm_lost AlarmKind.comm_lost = true
same_kind AlarmKind.bacnet_event AlarmKind.bacnet_event = true
same_kind _ _ = false

abbrev same_severity : Severity → Severity → Bool
same_severity info info = true
same_severity warning warning = true
same_severity critical critical = true
same_severity _ _ = false

-- A NaN is the same as itself here.
abbrev same_float : Float → Float → Bool
same_float nan nan = true
same_float (num a) (num b) = not (ltb_ℤ a b) && not (ltb_ℤ b a)
same_float pos_inf pos_inf = true
same_float neg_inf neg_inf = true
same_float _ _ = false

abbrev pub same_option : {A : Type 0} → (A → A → Bool) → Option A → Option A → Bool
same_option same none none = true
same_option same (some a) (some b) = same a b
same_option same _ _ = false

abbrev pub same_texts : List Text → List Text → Bool
same_texts [] [] = true
same_texts (t ∷ ts) (u ∷ us) = (t == u) && same_texts ts us
same_texts _ _ = false

-- `after == before`
unfoldable pub same_values : RuleValues → RuleValues → Bool
same_values v w =
    same_option same_text v.name w.name
    && same_kind v.kind w.kind
    && same_option same_float v.threshold w.threshold
    && same_float v.hysteresis w.hysteresis
    && (v.delay_s == w.delay_s)
    && same_severity v.severity w.severity
    && same_texts v.notify w.notify
    && (if v.enabled then w.enabled else not w.enabled)

infixl 40 ◌>>=◌
abbrev pub ◌>>=◌ : {A B : Type 0} → Option A → (A → Option B) → Option B
none >>= f = none
some a >>= f = f a

-- `urlparse` gives a scheme and a netloc, or raises `ValueError`.
module _ (urlparse : Text → Option (Text × Text)) where
  -- `valid_webhook_url` (backend/app/alarms/channels.py)
  unfoldable pub valid_webhook_url : Text → Bool
  valid_webhook_url url = elim (urlparse url) [
    | none ↦ false
    | some (scheme, netloc) ↦
        (scheme == codes "http" || scheme == codes "https") && not (netloc == [])
  ]

  -- `validate_channel`
  unfoldable pub validate_channel : Text → Bool
  validate_channel channel =
      let (kind, target) = partition channel in
      (kind == codes "email" && (target == [] || is_email target))
      || (kind == codes "webhook" && valid_webhook_url target)

  abbrev pub channels_in : Option (List Text) → Option (List Text)
  channels_in none = none
  channels_in (some cs) =
      if leb (length cs) max_channels && all validate_channel cs then some cs else none

  -- `AlarmRuleIn.model_validate`
  unfoldable pub model_validate : RuleForm → Option RuleValues
  model_validate f = do
    kind ← f.kind
    hysteresis ← hysteresis_in f.hysteresis
    delay ← delay_in f.delay_s
    severity ← f.severity
    notify ← channels_in f.notify
    enabled ← f.enabled
    let v : RuleValues = record {
      name = f.name;
      kind = kind;
      threshold = f.threshold;
      hysteresis = hysteresis;
      delay_s = delay;
      severity = severity;
      notify = notify;
      enabled = enabled;
    }
    let accepted = name_fits f.name && threshold_required kind f.threshold
    if accepted then some v else none
