-- ===== src/Tests/Routes.antt =====
-- The routes on rules, points, history and live values on concrete inputs.
use superviseur.Prelude.{
  ℕ, ◌≡◌, ◌⊎◌, ◌≤◌, ◌*◌, refl, true, false, Option, none, some, List, [], ◌∷◌, String, All, map,
  length, filter, take, arith,
}
use superviseur.Prelude.Int.{pos}
use superviseur.Prelude.Float.{of_ℕ}
use superviseur.Prelude.Text.{Text, codes}
use superviseur.Models.{AlarmKind, AlarmState}
use superviseur.Alarms.Records.{OpenEvent}
use superviseur.Api.Session.{Database}
use superviseur.Api.Deps.{CurrentUser}
use superviseur.Api.Realtime.{
  PointLatest, Action, subscribed, unsubscribed, ping, connected, listen,
}
use superviseur.Api.Realtime.Limit.{IsSound, connection_within_limit}
use superviseur.Api.RuleForm.{RuleValues, RuleBody, critical}
use superviseur.Api.AlarmRules
use superviseur.Api.AlarmRules.{find_rule}
use superviseur.Api.AlarmRules.Changes
use superviseur.Api.AlarmRules.Changes.{RuleRequest, create, delete}
use superviseur.Api.AlarmRules.Kept.{AllCoherent, rules_stay_coherent, engine_is_told}
use superviseur.Api.AlarmRules.Open.{open_events, HasRule, open_alarms_keep_their_rules}
use superviseur.Api.PointSettings
use superviseur.Api.PointSettings.{
  PointRow, PointUpdate, update_point, find_point, is_valid, update_found, store_point,
  same_settings, same_collection,
}
use superviseur.Api.PointSettings.Settled.{IsSettled}
use superviseur.Api.PointSettings.Collection.{collection}
use superviseur.Api.PointSettings.Requests
use superviseur.Api.PointSettings.Requests.{
  PointRequest, settings_stay_in_bounds, collector_is_told,
}
use superviseur.Api.Tree.{tally, TreePoint, points_tree}
use superviseur.Api.Tree.Counts.{count_in, tree_counts_every_point}
use superviseur.Api.Tree.Level.{stands_in, stands_at}
use superviseur.Api.History.{nice_buckets, auto_bucket_seconds, parse_bucket, format_bucket}
use superviseur.Api.History.Buckets.{Fits, parse_bucket-format_bucket, auto_bucket_seconds-Fits}

abbrev last_value : ℕ → Option PointLatest
last_value id = some (record { point_id = id; ts = 5; value = none; status = "ok" })

abbrev session : List ((ℕ → Option PointLatest) × Action)
session =
    (last_value, subscribed (some (some 1 ∷ some 2 ∷ some 1 ∷ [])))
    ∷ (last_value, subscribed (some (some 2 ∷ some 3 ∷ [])))
    ∷ (last_value, unsubscribed (some (some 2 ∷ none ∷ [])))
    ∷ (last_value, ping)
    ∷ (last_value, unsubscribed (some (some 2 ∷ [])))
    ∷ []

connection_within_limit_example : IsSound ((listen {E = Unit} session connected).0)
connection_within_limit_example = connection_within_limit Unit session

abbrev engineer : CurrentUser
engineer = record { id = 7; login = codes "ada"; role = "engineer"; stamp = codes "s" }

abbrev empty_database : Database
empty_database = record { roles = []; users = []; audit_log = [] }

abbrev no_urls : Text → Option (Text × Text)
no_urls url = none

abbrev id_text : ℕ → Text
id_text n = codes "id"

abbrev high_body : RuleBody
high_body = record {
  name = none;
  kind = some (some AlarmKind.high);
  threshold = some (some (of_ℕ 30));
  hysteresis = none;
  delay_s = some (some (pos 60));
  severity = some (some critical);
  notify = some (some (codes "email:a@b.org" ∷ []));
  enabled = none;
}

abbrev high_values : RuleValues
high_values = record {
  name = none;
  kind = AlarmKind.high;
  threshold = some (of_ℕ 30);
  hysteresis = of_ℕ 0;
  delay_s = 60;
  severity = critical;
  notify = [];
  enabled = true;
}

abbrev rule_requests : List RuleRequest
rule_requests =
    create engineer none true 2 4 high_body
    ∷ delete engineer none true 1
    ∷ delete engineer none true 2
    ∷ []

abbrev no_rules : AlarmRules.Tables
no_rules = record {
  db = empty_database;
  points = record { id = 4; path = none } ∷ [];
  rules = [];
  events = [];
  reloads = 0;
}

rules_stay_coherent_example :
    AllCoherent no_urls id_text (Changes.handle_all no_urls id_text rule_requests no_rules).rules
rules_stay_coherent_example = rules_stay_coherent no_urls id_text rule_requests no_rules tt

abbrev high_alarm : OpenEvent
high_alarm = record {
  id = 9;
  rule_id = 1;
  state = AlarmState.active_unacked;
  raised_at = 3;
  acked_at = none;
  acked_by = none;
  cleared_at = none;
  raised_value = none;
}

abbrev one_alarm : AlarmRules.Tables
one_alarm = record no_rules {
  rules = record { id = 1; point_id = 4; values = high_values } ∷ [];
  events = high_alarm ∷ [];
}

engine_is_told_example :
    let u = Changes.handle no_urls id_text (delete engineer none true 1) one_alarm in
    (u.rules ≡ one_alarm.rules) × (u.events ≡ one_alarm.events)
unfolding Changes.handle AlarmRules.delete_rule AlarmRules.delete_found find_rule
    AlarmRules.find_point
engine_is_told_example =
    engine_is_told no_urls id_text (delete engineer none true 1) one_alarm refl refl

open_alarms_keep_their_rules_example :
    (open_events no_urls id_text (Changes.handle_all no_urls id_text rule_requests one_alarm).events
      ≡ high_alarm ∷ [])
    × All
        (HasRule no_urls id_text (Changes.handle_all no_urls id_text rule_requests one_alarm).rules)
        (open_events no_urls id_text
          (Changes.handle_all no_urls id_text rule_requests one_alarm).events)
unfolding find_rule
open_alarms_keep_their_rules_example =
    open_alarms_keep_their_rules no_urls id_text rule_requests one_alarm (refl, tt)

abbrev sensor : PointRow
sensor = record {
  id = 4;
  path = none;
  deadband = of_ℕ 1;
  max_interval_s = pos 900;
  poll_interval_s = none;
  write_min = some (of_ℕ 10);
  write_max = some (of_ℕ 30);
  tags = [];
}

abbrev unchanged : PointUpdate
unchanged = record {
  path = none;
  deadband = none;
  max_interval_s = none;
  poll_interval_s = none;
  write_min = none;
  write_max = none;
  tags = none;
}

abbrev request_of : PointUpdate → PointRequest
request_of b = record { user = engineer; ip = none; reached = true; id = 4; body = b }

abbrev same_tags : List Text → List Text
same_tags ts = ts

abbrev one_point : PointSettings.Tables
one_point = record { db = empty_database; points = sensor ∷ []; told = [] }

abbrev point_requests : List PointRequest
point_requests =
    request_of (record unchanged { write_min = some (some (of_ℕ 40)) })
    ∷ request_of (record unchanged { write_max = some (some (of_ℕ 50)) })
    ∷ request_of (record unchanged { deadband = some (some (of_ℕ 0)) })
    ∷ []

settings_stay_in_bounds_example :
    All IsSettled (Requests.handle_all same_tags id_text point_requests one_point).points
settings_stay_in_bounds_example =
    settings_stay_in_bounds same_tags id_text point_requests one_point (
      record {
        ordered = refl;
        deadband_bound = refl;
        max_interval_bounds = refl;
        poll_interval_bounds = refl;
      },
      tt,
    )

abbrev renamed : PointRequest
renamed = request_of (record unchanged { path = some (some (codes "site/t1")) })

collector_is_told_example :
    map collection (Requests.handle same_tags id_text renamed one_point).points
    ≡ collection sensor ∷ []
unfolding update_point find_point is_valid update_found store_point same_settings same_collection
collector_is_told_example = collector_is_told same_tags id_text renamed one_point refl refl

abbrev tree_point : ℕ → String → TreePoint
tree_point id path = record { id = id; name = codes "t"; path = some (codes path); missing = false }

abbrev tree_points : List TreePoint
tree_points = tree_point 1 "site/a/t" ∷ tree_point 2 "site/a/b/t" ∷ tree_point 3 "site/t" ∷ []

tree_counts_every_point_example :
    ((name : Text)
      → count_in name (points_tree (λ ids. ids) (codes "/site") tree_points).folders
        ≡ length (filter (stands_in (codes "site/") name) tree_points))
    × (length (map (λ (p : TreePoint). p.id) (filter (stands_at (codes "site/")) tree_points))
          ≤ 1000
        → (points_tree (λ ids. ids) (codes "/site") tree_points).points
          ≡ take 200
              (map (λ (p : TreePoint). p.id) (filter (stands_at (codes "site/")) tree_points)))
tree_counts_every_point_example = tree_counts_every_point (λ ids. ids) (codes "/site") tree_points

tree_run : (points_tree (λ ids. ids) (codes "/site") tree_points).points ≡ 3 ∷ []
unfolding points_tree tally
tree_run = refl

parse_bucket-format_bucket_example : parse_bucket (format_bucket 5400) ≡ some 5400
parse_bucket-format_bucket_example = parse_bucket-format_bucket 5400 (omega arith)

auto_bucket_seconds-Fits_example :
    let s = auto_bucket_seconds 86400000000 500 in
    ((s ≡ 0) × (86400000000 ≤ 500 * 1000000)) ⊎ Fits 86400000000 500 s nice_buckets
auto_bucket_seconds-Fits_example = auto_bucket_seconds-Fits 86400000000 500 (omega arith)
