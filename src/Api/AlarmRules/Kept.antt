-- ===== src/Api/AlarmRules/Kept.antt =====
-- The rules that the requests leave (backend/app/api/routes/alarms.py).
use mathlib.Core.Path.{subst}
use superviseur.Prelude.{
  Bool, true, ℕ, ◌≡◌, sym, Bool-cases, Option, List, [], ◌∷◌, All, All-append, ◌==◌, nat_eq, arith,
  inl, inr,
}
use superviseur.Prelude.Text.{Text}
use superviseur.Api.RuleForm.{RuleValues, AlarmRule}
use superviseur.Api.RuleForm.Coherent.{IsCoherent}
use superviseur.Api.AlarmRules.{Tables, set_values}
use superviseur.Api.AlarmRules.Changes.{
  RuleRequest, is_reached, handle, handle_all, other_rules, Change, nothing, added, changed,
  deleted, handle-Change,
}

module _ (urlparse : Text → Option (Text × Text)) (str : ℕ → Text) where
  All-set_values :
      (id : ℕ) (v : RuleValues) (rs : List AlarmRule)
      → IsCoherent urlparse v
      → All (λ (r : AlarmRule). IsCoherent urlparse r.values) rs
      → All (λ (r : AlarmRule). IsCoherent urlparse r.values) (set_values id v rs)
  unfolding set_values
  All-set_values id v [] c h = tt
  All-set_values id v (r ∷ rs) c h = elim (Bool-cases (r.id == id)) [
    | inl here ↦ rw (set_values, here) (c, h.1)
    | inr other ↦ rw (set_values, other) (h.0, All-set_values id v rs c (h.1))
  ]

  All-other_rules :
      (id : ℕ) (rs : List AlarmRule)
      → All (λ (r : AlarmRule). IsCoherent urlparse r.values) rs
      → All (λ (r : AlarmRule). IsCoherent urlparse r.values) (other_rules id rs)
  All-other_rules id [] h = tt
  All-other_rules id (r ∷ rs) h = elim (Bool-cases (r.id == id)) [
    | inl here ↦ rw here (All-other_rules id rs (h.1))
    | inr other ↦ rw other (h.0, All-other_rules id rs (h.1))
  ]

  abbrev pub AllCoherent : List AlarmRule → Type 0
  AllCoherent rs = All (λ (r : AlarmRule). IsCoherent urlparse r.values) rs

  Change-AllCoherent :
      (reached : Bool) (t u : Tables)
      → Change urlparse str reached t u
      → AllCoherent t.rules
      → AllCoherent u.rules
  Change-AllCoherent reached t u (nothing same _) h = subst AllCoherent (sym same) h
  Change-AllCoherent reached t u (added r ok new _ _) h =
      subst AllCoherent (sym new)
        (All-append (λ (r : AlarmRule). IsCoherent urlparse r.values) t.rules (r ∷ []) h (ok, tt))
  Change-AllCoherent reached t u (changed id v ok new _ _) h =
      subst AllCoherent (sym new) (All-set_values id v t.rules ok h)
  Change-AllCoherent reached t u (deleted id _ new _ _) h =
      subst AllCoherent (sym new) (All-other_rules id t.rules h)

  -- Requests that create, change and delete rules, of any content and in any order, leave every rule
  -- of the table coherent when every rule was: it has the threshold that its kind needs (above 0, or
  -- NaN, for a stale rule), a name of at most 255 characters, a hysteresis that is not below 0, a delay
  -- of at most a day, and at most ten channels, each valid.
  pub rules_stay_coherent :
      (requests : List RuleRequest) (t : Tables)
      → AllCoherent t.rules
      → AllCoherent (handle_all urlparse str requests t).rules
  unfolding handle_all
  rules_stay_coherent [] t h = h
  rules_stay_coherent (r ∷ rs) t h = rules_stay_coherent rs (handle urlparse str r t) (
      Change-AllCoherent (is_reached r) t (handle urlparse str r t) (handle-Change urlparse str r t)
        h)

  Change-told :
      (reached : Bool) (t u : Tables)
      → Change urlparse str reached t u
      → reached ≡ true
      → u.reloads ≡ t.reloads
      → (u.rules ≡ t.rules) × (u.events ≡ t.events)
  Change-told reached t u (nothing same alike) r quiet = (same, alike)
  Change-told reached t u (added _ _ _ _ told) r quiet = absurd (omega (arith, told r, quiet))
  Change-told reached t u (changed _ _ _ _ _ told) r quiet = absurd (omega (arith, told r, quiet))
  Change-told reached t u (deleted _ _ _ _ told) r quiet = absurd (omega (arith, told r, quiet))

  -- When Redis takes a message, a request after which the engine of the alarms was not told to read the
  -- rules again, whether it failed or changed nothing, has left the rules and the events as they were.
  pub engine_is_told :
      (request : RuleRequest) (t : Tables)
      → is_reached request ≡ true
      → (handle urlparse str request t).reloads ≡ t.reloads
      → ((handle urlparse str request t).rules ≡ t.rules)
        × ((handle urlparse str request t).events ≡ t.events)
  engine_is_told request t =
      Change-told (is_reached request) t (handle urlparse str request t)
        (handle-Change urlparse str request t)
