-- ===== src/Api/History.antt =====
-- The history of a point (backend/app/api/routes/points.py): its range, its buckets and its raw rows.
-- Instants are microseconds. Quotients of durations are exact.
pub mod Buckets
use superviseur.Prelude.{
  ℕ, zero, suc, ◌+◌, ◌-◌, ◌*◌, ◌/◌, ◌%◌, Bool, true, false, not, ◌&&◌, ◌||◌, Option, none, some,
  List, [], ◌∷◌, ◌++◌, leb, ltb, length, take, filter, map, or_else, ◌==◌, nat_eq, if◌then◌else◌,
}
use superviseur.Prelude.Text.{Text, text_eq, codes}
use superviseur.Prelude.Digits.{decimal, value, is_decimal_digit}
use superviseur.Prelude.Float.{Float}
use superviseur.Models.{PointStatus}
use superviseur.Api.Doc.{take_class, at_end}
use superviseur.Api.Session.{Answer, done, refused, failed}

abbrev pub max_history_rows : ℕ
max_history_rows = 20000

abbrev pub nice_buckets : List ℕ
nice_buckets = 5 ∷ 10 ∷ 30 ∷ 60 ∷ 300 ∷ 900 ∷ 1800 ∷ 3600 ∷ 10800 ∷ 21600 ∷ 43200 ∷ 86400 ∷ []

-- `_UNIT_SECONDS`; 0 stands for a letter that is no unit.
unfoldable pub unit_seconds : ℕ → ℕ
unit_seconds c =
    if c == b's'
    then 1
    else if c == b'm'
    then 60
    else if c == b'h'
    then 3600
    else if c == b'd'
    then 86400
    else 0

-- The seconds of a text that `_BUCKET` matches, from its digits and the rest; 0 if it does not match.
unfoldable pub bucket_value : Text → Text → ℕ
bucket_value [] rest = 0
bucket_value (d ∷ ds) [] = 0
bucket_value (d ∷ ds) (u ∷ end) = if at_end end then value (d ∷ ds) * unit_seconds u else 0

-- `_parse_bucket`; none is the answer 422.
unfoldable pub parse_bucket : Text → Option ℕ
parse_bucket text =
    let (digits, rest) = take_class is_decimal_digit text in
    let seconds = bucket_value digits rest in if leb seconds 0 then none else some seconds

-- `format_bucket`
unfoldable pub format_bucket : ℕ → Text
format_bucket seconds =
    if seconds % 86400 == 0
    then decimal (seconds / 86400) ++ b'd' ∷ []
    else if seconds % 3600 == 0
    then decimal (seconds / 3600) ++ b'h' ∷ []
    else if seconds % 60 == 0
    then decimal (seconds / 60) ++ b'm' ∷ []
    else decimal seconds ++ b's' ∷ []

-- The microseconds that so many buckets of a size cover.
abbrev pub covered : ℕ → ℕ → ℕ
covered size max_points = size * (max_points * 1000000)

-- The first of the sizes that is large enough.
unfoldable pub first_size : ℕ → ℕ → List ℕ → Option ℕ
first_size span max_points [] = none
first_size span max_points (s ∷ sizes) =
    if leb span (covered s max_points) then some s else first_size span max_points sizes

-- `math.ceil(a / b)`
abbrev pub ceil_div : ℕ → ℕ → ℕ
ceil_div a b = (a + (b - 1)) / b

-- `auto_bucket_seconds`, for a number of points that is not 0
unfoldable pub auto_bucket_seconds : ℕ → ℕ → ℕ
auto_bucket_seconds span max_points =
    if leb span (max_points * 1000000)
    then 0
    else or_else (first_size span max_points nice_buckets)
        (ceil_div span (covered 86400 max_points) * 86400)

-- What the request asks for.
pub record HistoryQuery : Type 0 where
  pub from : Option ℕ
  pub to : Option ℕ
  pub bucket : Option Text
  pub max_points : ℕ

pub record Sample : Type 0 where
  pub ts : ℕ
  pub value : Option Float
  pub status : PointStatus

-- The range and the size of its buckets, 0 for raw rows.
pub record Plan : Type 0 where
  pub start : ℕ
  pub end : ℕ
  pub seconds : ℕ

-- The size of the buckets that a request asks for; none is the answer 422.
unfoldable pub bucket_seconds : Option Text → ℕ → ℕ → Option ℕ
bucket_seconds none span max_points = some 0
bucket_seconds (some b) span max_points =
    if b == codes "auto" then some (auto_bucket_seconds span max_points) else parse_bucket b

-- `point_history` up to its query, for a point that exists. The start of a day's range lies after
-- the first instant of the calendar.
unfoldable pub plan_history : HistoryQuery → ℕ → Answer Plan
plan_history q now =
    let end = or_else q.to now in
    let start = or_else q.from (end - 86400000000) in
    let planned : Answer Plan = elim (bucket_seconds q.bucket (end - start) q.max_points) [
      | none ↦ refused 422 "bucket invalide (exemples : 30s, 5m, 1h, 1d, ou auto)"
      | some seconds ↦
          if not (seconds == 0) && ltb (max_history_rows * (seconds * 1000000)) (end - start)
          then refused 422 "trop de tranches : augmentez le bucket"
          else done (record { start = start; end = end; seconds = seconds })
    ] in
    if leb end start then refused 422 "`from` doit précéder `to`" else planned

-- The raw rows of a range, from the point's rows in the order of their instants, and whether some
-- are left out.
unfoldable pub raw_history : Plan → List Sample → List Sample × Bool
raw_history p rows =
    let found =
      take (max_history_rows + 1)
        (filter (λ (r : Sample). leb p.start r.ts && ltb r.ts p.end) rows) in
    (take max_history_rows found, ltb max_history_rows (length found))
