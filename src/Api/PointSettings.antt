-- ===== src/Api/PointSettings.antt =====
-- The settings of a point (backend/app/api/routes/points.py, `update_point`, and the form of
-- backend/app/api/schemas.py). One request is one step.
pub mod Settled
pub mod Collection
pub mod Requests
use superviseur.Prelude.{
  ℕ, ◌+◌, Bool, true, false, not, ◌&&◌, ◌||◌, Option, none, some, List, [], ◌∷◌, ◌++◌, String, all,
  any, leb, length, or_else, ◌==◌, nat_eq, if◌then◌else◌,
}
use superviseur.Prelude.Int.{ℤ, pos, ltb_ℤ}
use superviseur.Prelude.Float.{Float, num, pos_inf, neg_inf, of_ℕ, flt}
use superviseur.Prelude.Text.{Text, same_text}
use superviseur.Api.Session.{AuditLog, Database, record_audit, Answer, done, refused}
use superviseur.Api.Deps.{CurrentUser}
use superviseur.Api.RuleForm.{same_option, same_texts}

-- The columns of the table `point` that the route reads, and the tags of the point in order.
pub record PointRow : Type 0 where
  pub id : ℕ
  pub path : Option Text
  pub deadband : Float
  pub max_interval_s : ℤ
  pub poll_interval_s : Option ℤ
  pub write_min : Option Float
  pub write_max : Option Float
  pub tags : List Text

-- The fields that a body names, each with its value or null; tags that are null are not named.
pub record PointUpdate : Type 0 where
  pub path : Option (Option Text)
  pub deadband : Option (Option Float)
  pub max_interval_s : Option (Option ℤ)
  pub poll_interval_s : Option (Option ℤ)
  pub write_min : Option (Option Float)
  pub write_max : Option (Option Float)
  pub tags : Option (List Text)

pub record Tables : Type 0 where
  pub db : Database
  pub points : List PointRow
  pub told : List ℕ

-- `ge=1, le=86400`
abbrev pub interval_fits : Option (Option ℤ) → Bool
interval_fits (some (some n)) = not (ltb_ℤ n (pos 1)) && not (ltb_ℤ (pos 86400) n)
interval_fits _ = true

-- `ge=0`, which a NaN passes.
abbrev pub deadband_fits : Option (Option Float) → Bool
deadband_fits (some (some d)) = not (flt d (of_ℕ 0))
deadband_fits _ = true

abbrev pub path_fits : Option (Option Text) → Bool
path_fits (some (some path)) = leb (length path) 512
path_fits _ = true

abbrev pub tags_fit : Option (List Text) → Bool
tags_fit none = true
tags_fit (some ts) =
    leb (length ts) 32 && all (λ (t : Text). leb 1 (length t) && leb (length t) 64) ts

-- What FastAPI checks of a body.
unfoldable pub is_valid : PointUpdate → Bool
is_valid b =
    path_fits b.path
    && deadband_fits b.deadband
    && interval_fits b.max_interval_s
    && interval_fits b.poll_interval_s
    && tags_fit b.tags

-- A field that the body sets to null.
abbrev pub is_null : {A : Type 0} → Option (Option A) → Bool
is_null (some none) = true
is_null _ = false

-- A column that is not nullable, once the body does not set it to null.
abbrev pub replaced : {A : Type 0} → A → Option (Option A) → A
replaced a (some (some x)) = x
replaced a _ = a

-- The loop over `_UPDATABLE`.
abbrev pub settings : PointUpdate → PointRow → PointRow
settings b p = record p {
  path = or_else b.path p.path;
  deadband = replaced p.deadband b.deadband;
  max_interval_s = replaced p.max_interval_s b.max_interval_s;
  poll_interval_s = or_else b.poll_interval_s p.poll_interval_s;
  write_min = or_else b.write_min p.write_min;
  write_max = or_else b.write_max p.write_max;
}

abbrev pub is_unordered : Option Float → Option Float → Bool
is_unordered (some m) (some n) = flt n m
is_unordered _ _ = false

abbrev pub same_int : ℤ → ℤ → Bool
same_int m n = not (ltb_ℤ m n) && not (ltb_ℤ n m)

-- `a == b` on floats; a NaN equals nothing.
abbrev pub float_eq : Float → Float → Bool
float_eq (num a) (num b) = same_int a b
float_eq pos_inf pos_inf = true
float_eq neg_inf neg_inf = true
float_eq _ _ = false

-- A field that the body does not name, or whose value is the one that it has.
abbrev pub unless_named : {A : Type 0} → Option A → Bool → Bool
unless_named none same = true
unless_named (some _) same = same

-- None of the fields of `after` is one on which the collector depends.
unfoldable pub same_collection : PointUpdate → PointRow → PointRow → Bool
same_collection b p q =
    unless_named b.deadband (float_eq p.deadband q.deadband)
    && unless_named b.max_interval_s (same_int p.max_interval_s q.max_interval_s)
    && unless_named b.poll_interval_s (same_option same_int p.poll_interval_s q.poll_interval_s)

-- `after` is empty.
unfoldable pub same_settings : PointUpdate → PointRow → PointRow → Bool
same_settings b p q =
    same_collection b p q
    && unless_named b.path (same_option same_text p.path q.path)
    && unless_named b.write_min (same_option float_eq p.write_min q.write_min)
    && unless_named b.write_max (same_option float_eq p.write_max q.write_max)
    && same_texts p.tags q.tags

-- `point.path or str(point_id)`
abbrev pub target_of : (ℕ → Text) → PointRow → Text
target_of str p = elim p.path [ none ↦ str p.id | some [] ↦ str p.id | some (c ∷ cs) ↦ c ∷ cs ]

unfoldable pub find_point : ℕ → List PointRow → Option PointRow
find_point id [] = none
find_point id (p ∷ ps) = if p.id == id then some p else find_point id ps

unfoldable pub set_point : PointRow → List PointRow → List PointRow
set_point q [] = []
set_point q (p ∷ ps) = let rest = set_point q ps in if p.id == q.id then q ∷ ps else p ∷ rest

-- `sorted({tag.strip().lower() for tag in body.tags if tag.strip()})` is a parameter.
module _ (normal_tags : List Text → List Text) (str : ℕ → Text) where
  abbrev pub tagged : PointUpdate → PointRow → PointRow
  tagged b p = record p { tags = elim b.tags [ none ↦ p.tags | some ts ↦ normal_tags ts ] }

  -- The end of `update_point`: the journal, and the message to the collector, if Redis is reached; a
  -- failure is only logged. The values are left out of the entry.
  unfoldable pub store_point :
      CurrentUser
      → Option String
      → Bool
      → PointUpdate
      → PointRow
      → PointRow
      → Tables
      → Answer PointRow × Tables
  store_point user ip reached b p q t =
      let entry : AuditLog = record {
        user_id = some user.id;
        action = "point.update";
        target = some (target_of str q);
        before = none;
        after = none;
        ip = ip;
      } in
      let stored : Tables = record t {
        db = record_audit entry t.db;
        points = set_point q t.points;
      } in
      (
        done q,
        if same_settings b p q
            then t
            else if same_collection b p q
            then stored
            else record stored { told = if reached then stored.told ++ q.id ∷ [] else stored.told },
      )

  unfoldable pub update_found :
      CurrentUser
      → Option String
      → Bool
      → PointUpdate
      → PointRow
      → Tables
      → Answer PointRow × Tables
  update_found user ip reached b p t =
      let q = settings b p in
      if is_null b.deadband
      then (refused 422 "deadband ne peut pas être vide", t)
      else if is_null b.max_interval_s
      then (refused 422 "max_interval_s ne peut pas être vide", t)
      else if is_unordered q.write_min q.write_max
      then (refused 422 "write_min ne peut pas dépasser write_max", t)
      else store_point user ip reached b p (tagged b q) t

  -- `update_point`
  unfoldable pub update_point :
      CurrentUser → Option String → Bool → ℕ → PointUpdate → Tables → Answer PointRow × Tables
  update_point user ip reached id b t = elim (find_point id t.points) [
    | none ↦
        (if is_valid b then refused 404 "point introuvable" else refused 422 "requête invalide", t)
    | some p ↦
        if is_valid b
        then update_found user ip reached b p t
        else (refused 422 "requête invalide", t)
  ]
