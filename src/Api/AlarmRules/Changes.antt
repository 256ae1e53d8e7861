-- ===== src/Api/AlarmRules/Changes.antt =====
-- Requests on the rules of the alarms, one after the other (backend/app/api/routes/alarms.py), and
-- what each may do to the tables.
use superviseur.Prelude.{
  Bool, true, ℕ, ◌+◌, ◌≡◌, refl, Bool-cases, not, Option, Option-cases, List, [], ◌∷◌, ◌++◌, String,
  filter, ◌==◌, nat_eq, inl, inr,
}
use superviseur.Prelude.Text.{Text}
use superviseur.Alarms.Records.{OpenEvent}
use superviseur.Api.Deps.{CurrentUser}
use superviseur.Api.RuleForm.{
  RuleValues, AlarmRule, RuleBody, merge, defaults, rule_values, same_values, model_validate,
}
use superviseur.Api.RuleForm.Coherent.{IsCoherent, model_validate-IsCoherent}
use superviseur.Api.AlarmRules.{
  Tables, PointRow, find_point, rule_and_point, set_values, opened, create_rule, update_found,
  update_rule, delete_found, delete_rule,
}

-- A request on the rules, with who makes it and from where, and whether Redis takes a message then.
pub data RuleRequest : Type 0 where
  create : CurrentUser → Option String → Bool → ℕ → ℕ → RuleBody → RuleRequest
  update : CurrentUser → Option String → Bool → ℕ → RuleBody → RuleRequest
  delete : CurrentUser → Option String → Bool → ℕ → RuleRequest

abbrev pub is_reached : RuleRequest → Bool
is_reached (create user ip reached id point body) = reached
is_reached (update user ip reached id body) = reached
is_reached (delete user ip reached id) = reached

-- The deletion of a row of `alarm_rule`, and of the events that follow it.
abbrev pub other_rules : ℕ → List AlarmRule → List AlarmRule
other_rules id rs = filter (λ (r : AlarmRule). not (r.id == id)) rs

abbrev pub other_events : ℕ → List OpenEvent → List OpenEvent
other_events id es = filter (λ (e : OpenEvent). not (e.rule_id == id)) es

module _ (urlparse : Text → Option (Text × Text)) (str : ℕ → Text) where
  -- The tables after a request, and after requests one after the other.
  unfoldable pub handle : RuleRequest → Tables → Tables
  handle (create user ip reached id point body) t =
      (create_rule urlparse str user ip reached id point body t).1
  handle (update user ip reached id body) t = (update_rule urlparse str user ip reached id body t).1
  handle (delete user ip reached id) t = (delete_rule urlparse str user ip reached id t).1

  unfoldable pub handle_all : List RuleRequest → Tables → Tables
  handle_all [] t = t
  handle_all (r ∷ rs) t = handle_all rs (handle r t)

  -- What a request may do to the tables.
  pub data Change (reached : Bool) (t u : Tables) : Type 0 where
    nothing : u.rules ≡ t.rules → u.events ≡ t.events → Change reached t u
    added :
        (r : AlarmRule)
        → IsCoherent urlparse r.values
        → u.rules ≡ t.rules ++ r ∷ []
        → u.events ≡ t.events
        → (reached ≡ true → u.reloads ≡ t.reloads + 1)
        → Change reached t u
    changed :
        (id : ℕ) (v : RuleValues)
        → IsCoherent urlparse v
        → u.rules ≡ set_values id v t.rules
        → u.events ≡ t.events
        → (reached ≡ true → u.reloads ≡ t.reloads + 1)
        → Change reached t u
    deleted :
        (id : ℕ)
        → opened id t.events ≡ []
        → u.rules ≡ other_rules id t.rules
        → u.events ≡ other_events id t.events
        → (reached ≡ true → u.reloads ≡ t.reloads + 1)
        → Change reached t u

  create_rule-Change :
      (user : CurrentUser) (ip : Option String) (reached : Bool) (id point : ℕ) (body : RuleBody)
      (t : Tables)
      → Change reached t (create_rule urlparse str user ip reached id point body t).1
  unfolding create_rule
  create_rule-Change user ip reached id point body t =
      elim (Option-cases (model_validate urlparse (merge defaults body))) [
        | inl bad ↦ rw (create_rule, bad) (nothing refl refl)
        | inr (v, good) ↦ elim (Option-cases (find_point point t.points)) [
          | inl unknown ↦ rw (create_rule, good, unknown) (nothing refl refl)
          | inr (p, found) ↦
              rw (create_rule, good, found)
                (added (record { id = id; point_id = point; values = v })
                  (model_validate-IsCoherent urlparse (merge defaults body) v good) refl refl
                  (λ h. rw h refl))
        ]
      ]

  update_found-Change :
      (user : CurrentUser) (ip : Option String) (reached : Bool) (rule : AlarmRule) (p : PointRow)
      (body : RuleBody) (t : Tables)
      → Change reached t (update_found urlparse str user ip reached rule p body t).1
  unfolding update_found
  update_found-Change user ip reached rule p body t =
      let form = merge (rule_values rule.values) body in
      elim (Option-cases (model_validate urlparse form)) [
        | inl bad ↦ rw (update_found, bad) (nothing refl refl)
        | inr (v, good) ↦ elim (Bool-cases (same_values v rule.values)) [
          | inl same ↦ rw (update_found, good, same) (nothing refl refl)
          | inr differs ↦
              rw (update_found, good, differs)
                (changed rule.id v (model_validate-IsCoherent urlparse form v good) refl refl
                  (λ h. rw h refl))
        ]
      ]

  update_rule-Change :
      (user : CurrentUser) (ip : Option String) (reached : Bool) (id : ℕ) (body : RuleBody)
      (t : Tables)
      → Change reached t (update_rule urlparse str user ip reached id body t).1
  unfolding update_rule
  update_rule-Change user ip reached id body t = elim (Option-cases (rule_and_point id t)) [
    | inl unknown ↦ rw (update_rule, unknown) (nothing refl refl)
    | inr ((rule, p), found) ↦
        rw (update_rule, found) (update_found-Change user ip reached rule p body t)
  ]

  delete_found-Change :
      (user : CurrentUser) (ip : Option String) (reached : Bool) (p : PointRow) (id : ℕ)
      (t : Tables) (es : List OpenEvent)
      → opened id t.events ≡ es
      → Change reached t (delete_found urlparse str user ip reached p id t).1
  unfolding delete_found
  delete_found-Change user ip reached p id t [] none_open =
      rw (delete_found, none_open) (deleted id none_open refl refl (λ h. rw h refl))
  delete_found-Change user ip reached p id t (e ∷ es) some_open =
      rw (delete_found, some_open) (nothing refl refl)

  delete_rule-Change :
      (user : CurrentUser) (ip : Option String) (reached : Bool) (id : ℕ) (t : Tables)
      → Change reached t (delete_rule urlparse str user ip reached id t).1
  unfolding delete_rule
  delete_rule-Change user ip reached id t = elim (Option-cases (rule_and_point id t)) [
    | inl unknown ↦ rw (delete_rule, unknown) (nothing refl refl)
    | inr ((rule, p), found) ↦
        rw (delete_rule, found)
          (delete_found-Change user ip reached p id t (opened id t.events) refl)
  ]

  pub handle-Change : (r : RuleRequest) (t : Tables) → Change (is_reached r) t (handle r t)
  unfolding handle
  handle-Change (create user ip reached id point body) t =
      create_rule-Change user ip reached id point body t
  handle-Change (update user ip reached id body) t = update_rule-Change user ip reached id body t
  handle-Change (delete user ip reached id) t = delete_rule-Change user ip reached id t
