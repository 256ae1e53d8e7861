-- ===== src/Api/AlarmRules.antt =====
-- The routes on the rules of the alarms (backend/app/api/routes/alarms.py). One request is one step.
pub mod Changes
pub mod Kept
pub mod Open
use superviseur.Prelude.{
  Bool, ℕ, ◌+◌, not, ◌&&◌, Option, none, some, List, [], ◌∷◌, ◌++◌, String, filter, ◌==◌, nat_eq,
  if◌then◌else◌,
}
use superviseur.Prelude.Text.{Text}
use superviseur.Models.{is_normal}
use superviseur.Alarms.Records.{OpenEvent}
use superviseur.Api.Session.{Database, record_audit, Answer, done, refused}
use superviseur.Api.Deps.{CurrentUser}
use superviseur.Api.RuleForm.{
  RuleValues, AlarmRule, RuleBody, merge, defaults, rule_values, same_values, ◌>>=◌, model_validate,
}

-- What the routes share: the tables `audit_log`, `point`, `alarm_rule` and `alarm_event`, and how
-- often the engine was told to read the rules again.
pub record PointRow : Type 0 where
  pub id : ℕ
  pub path : Option Text

pub record Tables : Type 0 where
  pub db : Database
  pub points : List PointRow
  pub rules : List AlarmRule
  pub events : List OpenEvent
  pub reloads : ℕ

unfoldable pub find_point : ℕ → List PointRow → Option PointRow
find_point id [] = none
find_point id (p ∷ ps) = if p.id == id then some p else find_point id ps

unfoldable pub find_rule : ℕ → List AlarmRule → Option AlarmRule
find_rule id [] = none
find_rule id (r ∷ rs) = if r.id == id then some r else find_rule id rs

-- `_rule_and_point`; none is the answer 404.
abbrev pub rule_and_point : ℕ → Tables → Option (AlarmRule × PointRow)
rule_and_point id t = do
  rule ← find_rule id t.rules
  point ← find_point rule.point_id t.points
  some (rule, point)

-- `_announce`, if Redis is reached; an error is only logged.
abbrev pub announce : Bool → Tables → Tables
announce reached t = record t { reloads = if reached then t.reloads + 1 else t.reloads }

-- The column `target`: the path, or the text of the id.
abbrev pub target_of : (ℕ → Text) → PointRow → Text
target_of str p = elim p.path [ none ↦ str p.id | some [] ↦ str p.id | some (c ∷ cs) ↦ c ∷ cs ]

-- An entry of the journal; the values of the rule are left out of it.
abbrev pub journal : (ℕ → Text) → CurrentUser → Option String → String → PointRow → Tables → Tables
journal str user ip action p t = record t {
  db =
      record_audit
        (record {
          user_id = some user.id;
          action = action;
          target = some (target_of str p);
          before = none;
          after = none;
          ip = ip;
        })
        t.db;
}

-- The row of an id with other values.
unfoldable pub set_values : ℕ → RuleValues → List AlarmRule → List AlarmRule
set_values id v [] = []
set_values id v (r ∷ rs) =
    if r.id == id then record r { values = v } ∷ rs else r ∷ set_values id v rs

-- The open alarms of a rule.
abbrev pub opened : ℕ → List OpenEvent → List OpenEvent
opened id es = filter (λ (e : OpenEvent). (e.rule_id == id) && not (is_normal e.state)) es

-- The deletion of a rule; its events follow it (`ondelete="CASCADE"`).
abbrev pub delete_row : ℕ → Tables → Tables
delete_row id t = record t {
  rules = filter (λ (r : AlarmRule). not (r.id == id)) t.rules;
  events = filter (λ (e : OpenEvent). not (e.rule_id == id)) t.events;
}

module _ (urlparse : Text → Option (Text × Text)) (str : ℕ → Text) where
  -- `create_rule`, with the id that the database draws.
  unfoldable pub create_rule :
      CurrentUser → Option String → Bool → ℕ → ℕ → RuleBody → Tables → Answer AlarmRule × Tables
  create_rule user ip reached id point_id body t =
      elim (model_validate urlparse (merge defaults body)) [
        | none ↦ (refused 422 "règle invalide", t)
        | some v ↦ elim (find_point point_id t.points) [
          | none ↦ (refused 404 "point introuvable", t)
          | some p ↦
              let rule : AlarmRule = record { id = id; point_id = point_id; values = v } in
              let added = record t { rules = t.rules ++ rule ∷ [] } in
              (done rule, announce reached (journal str user ip "alarm_rule.create" p added))
        ]
      ]

  -- The end of `update_rule`.
  unfoldable pub update_found :
      CurrentUser
      → Option String
      → Bool
      → AlarmRule
      → PointRow
      → RuleBody
      → Tables
      → Answer AlarmRule × Tables
  update_found user ip reached rule p body t =
      elim (model_validate urlparse (merge (rule_values rule.values) body)) [
        | none ↦ (refused 422 "règle invalide", t)
        | some v ↦
            let changed = record t { rules = set_values rule.id v t.rules } in
            (
              done (record rule { values = v }),
              if same_values v rule.values
                  then t
                  else announce reached (journal str user ip "alarm_rule.update" p changed),
            )
      ]

  -- `update_rule`
  unfoldable pub update_rule :
      CurrentUser → Option String → Bool → ℕ → RuleBody → Tables → Answer AlarmRule × Tables
  update_rule user ip reached id body t = elim (rule_and_point id t) [
    | none ↦ (refused 404 "règle introuvable", t)
    | some (rule, p) ↦ update_found user ip reached rule p body t
  ]

  -- The end of `delete_rule`.
  unfoldable pub delete_found :
      CurrentUser → Option String → Bool → PointRow → ℕ → Tables → Answer Unit × Tables
  delete_found user ip reached p id t = elim (opened id t.events) [
    | [] ↦ (done tt, announce reached (delete_row id (journal str user ip "alarm_rule.delete" p t)))
    | e ∷ es ↦ (
      refused 409
          "une alarme est ouverte : acquittez-la ou désactivez la règle plutôt que la supprimer",
      t,
    )
  ]

  -- `delete_rule`
  unfoldable pub delete_rule :
      CurrentUser → Option String → Bool → ℕ → Tables → Answer Unit × Tables
  delete_rule user ip reached id t = elim (rule_and_point id t) [
    | none ↦ (refused 404 "règle introuvable", t)
    | some (rule, p) ↦ delete_found user ip reached p id t
  ]
