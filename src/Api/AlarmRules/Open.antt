-- ===== src/Api/AlarmRules/Open.antt =====
-- The open alarms and their rules (backend/app/api/routes/alarms.py, `delete_rule`).
use mathlib.Core.Path.{subst}
use superviseur.Prelude.{
  Bool, ℕ, ◌≡◌, refl, sym, ◌∙◌, ap, Bool-cases, true, false, not, Option, is_some, List, [], ◌∷◌,
  ◌++◌, All, filter, ◌==◌, nat_eq, arith, inl, inr,
}
use superviseur.Prelude.Text.{Text}
use superviseur.Models.{is_normal}
use superviseur.Alarms.Records.{OpenEvent}
use superviseur.Api.RuleForm.{RuleValues, AlarmRule}
use superviseur.Api.AlarmRules.{Tables, find_rule, set_values, opened}
use superviseur.Api.AlarmRules.Changes.{
  RuleRequest, is_reached, handle, handle_all, other_rules, other_events, Change, nothing, added,
  changed, deleted, handle-Change,
}

module _ (urlparse : Text → Option (Text × Text)) (str : ℕ → Text) where
  -- The events that are not closed.
  abbrev pub open_events : List OpenEvent → List OpenEvent
  open_events es = filter (λ (e : OpenEvent). not (is_normal e.state)) es

  open_events-other_events :
      (id : ℕ) (es : List OpenEvent)
      → opened id es ≡ []
      → open_events (other_events id es) ≡ open_events es
  open_events-other_events id [] h = refl
  open_events-other_events id (e ∷ es) h = elim (Bool-cases (e.rule_id == id)) [
    | inl here ↦ elim (Bool-cases (is_normal e.state)) [
      | inl closed ↦ rw (here, closed) (open_events-other_events id es (rw (here, closed) at h))
      | inr is_open ↦ let never : e ∷ opened id es ≡ [] = rw (here, is_open) at h in cc
    ]
    | inr other ↦ elim (Bool-cases (is_normal e.state)) [
      | inl closed ↦ rw (other, closed) (open_events-other_events id es (rw (other) at h))
      | inr is_open ↦
          rw (other, is_open) (ap (λ xs. e ∷ xs) (open_events-other_events id es (rw (other) at h)))
    ]
  ]

  Change-open_events :
      (reached : Bool) (t u : Tables)
      → Change urlparse str reached t u
      → open_events u.events ≡ open_events t.events
  Change-open_events reached t u (nothing _ same) = ap open_events same
  Change-open_events reached t u (added r _ _ same _) = ap open_events same
  Change-open_events reached t u (changed id v _ _ same _) = ap open_events same
  Change-open_events reached t u (deleted id none_open _ fewer _) =
      ap open_events fewer ∙ open_events-other_events id t.events none_open

  -- The rule of an event stands in the table.
  abbrev pub HasRule : List AlarmRule → OpenEvent → Type 0
  HasRule rs e = is_some (find_rule e.rule_id rs) ≡ true

  find_rule-append :
      (id : ℕ) (rs ss : List AlarmRule)
      → is_some (find_rule id rs) ≡ true
      → is_some (find_rule id (rs ++ ss)) ≡ true
  unfolding find_rule
  find_rule-append id [] ss h = cc
  find_rule-append id (r ∷ rs) ss h = elim (Bool-cases (r.id == id)) [
    | inl here ↦ rw (find_rule, here) refl
    | inr other ↦ rw (find_rule, other) (find_rule-append id rs ss (rw (find_rule, other) at h))
  ]

  find_rule-set_values :
      (id j : ℕ) (v : RuleValues) (rs : List AlarmRule)
      → is_some (find_rule id rs) ≡ true
      → is_some (find_rule id (set_values j v rs)) ≡ true
  unfolding find_rule set_values
  find_rule-set_values id j v [] h = cc
  find_rule-set_values id j v (r ∷ rs) h = elim (Bool-cases (r.id == id)) [
    | inl here ↦ elim (Bool-cases (r.id == j)) [
      | inl there ↦ rw (set_values, there, find_rule, here) refl
      | inr other ↦ rw (set_values, other, find_rule, here) refl
    ]
    | inr away ↦
        let rest = find_rule-set_values id j v rs (rw (find_rule, away) at h) in
        elim (Bool-cases (r.id == j)) [
          | inl there ↦ rw (set_values, there, find_rule, away) (rw (find_rule, away) at h)
          | inr other ↦ rw (set_values, other, find_rule, away) rest
        ]
  ]

  find_rule-other_rules :
      (id j : ℕ) (rs : List AlarmRule)
      → (id == j) ≡ false
      → is_some (find_rule id rs) ≡ true
      → is_some (find_rule id (other_rules j rs)) ≡ true
  unfolding find_rule
  find_rule-other_rules id j [] differ h = cc
  find_rule-other_rules id j (r ∷ rs) differ h = elim (Bool-cases (r.id == id)) [
    | inl here ↦
        let kept : (r.id == j) ≡ false = ground (arith, here, differ) in
        rw (kept, find_rule, here) refl
    | inr away ↦
        let rest = find_rule-other_rules id j rs differ (rw (find_rule, away) at h) in
        elim (Bool-cases (r.id == j)) [
          | inl there ↦ rw there rest
          | inr other ↦ rw (other, find_rule, away) rest
        ]
  ]

  All-map :
      {A : Type 0} (P Q : A → Type 0) (f : (x : A) → P x → Q x) (xs : List A) → All P xs → All Q xs
  All-map P Q f [] h = tt
  All-map P Q f (x ∷ xs) h = (f x (h.0), All-map P Q f xs (h.1))

  -- The deletion of a rule without open alarms leaves the rules of the open alarms.
  other_rules-HasRule :
      (id : ℕ) (rs : List AlarmRule) (es : List OpenEvent)
      → opened id es ≡ []
      → All (HasRule rs) (open_events es)
      → All (HasRule (other_rules id rs)) (open_events es)
  other_rules-HasRule id rs [] none_open h = tt
  other_rules-HasRule id rs (e ∷ es) none_open h = elim (Bool-cases (is_normal e.state)) [
    | inl closed ↦ elim (Bool-cases (e.rule_id == id)) [
      | inl here ↦
          rw closed (other_rules-HasRule id rs es (rw (here, closed) at none_open) (rw closed at h))
      | inr other ↦
          rw closed (other_rules-HasRule id rs es (rw other at none_open) (rw closed at h))
    ]
    | inr is_open ↦ elim (Bool-cases (e.rule_id == id)) [
      | inl here ↦ let never : e ∷ opened id es ≡ [] = rw (here, is_open) at none_open in cc
      | inr other ↦
          let both : All (HasRule rs) (e ∷ open_events es) = rw is_open at h in
          rw is_open (
            find_rule-other_rules e.rule_id id rs other (both.0),
            other_rules-HasRule id rs es (rw other at none_open) (both.1),
          )
    ]
  ]

  Change-HasRule :
      (reached : Bool) (t u : Tables)
      → Change urlparse str reached t u
      → All (HasRule t.rules) (open_events t.events)
      → All (HasRule u.rules) (open_events t.events)
  Change-HasRule reached t u (nothing same _) h =
      subst (λ rs. All (HasRule rs) (open_events t.events)) (sym same) h
  Change-HasRule reached t u (added r _ new _ _) h =
      subst (λ rs. All (HasRule rs) (open_events t.events)) (sym new)
        (All-map (HasRule t.rules) (HasRule (t.rules ++ r ∷ []))
          (λ e. find_rule-append e.rule_id t.rules (r ∷ [])) (open_events t.events) h)
  Change-HasRule reached t u (changed id v _ new _ _) h =
      subst (λ rs. All (HasRule rs) (open_events t.events)) (sym new)
        (All-map (HasRule t.rules) (HasRule (set_values id v t.rules))
          (λ e. find_rule-set_values e.rule_id id v t.rules) (open_events t.events) h)
  Change-HasRule reached t u (deleted id none_open new _ _) h =
      subst (λ rs. All (HasRule rs) (open_events t.events)) (sym new)
        (other_rules-HasRule id t.rules t.events none_open h)

  -- Requests that create, change and delete rules, in any order, leave the open alarms as they are,
  -- one for one; and where the rule of each open alarm stood in the table, it still does.
  pub open_alarms_keep_their_rules :
      (requests : List RuleRequest) (t : Tables)
      → All (HasRule t.rules) (open_events t.events)
      → (open_events (handle_all urlparse str requests t).events ≡ open_events t.events)
        × All
            (HasRule (handle_all urlparse str requests t).rules)
            (open_events (handle_all urlparse str requests t).events)
  unfolding handle_all
  open_alarms_keep_their_rules [] t h = (refl, h)
  open_alarms_keep_their_rules (r ∷ rs) t h =
      let change = handle-Change urlparse str r t in
      let same = Change-open_events (is_reached r) t (handle urlparse str r t) change in
      let (rest, kept) = open_alarms_keep_their_rules rs (handle urlparse str r t) (
        subst (λ es. All (HasRule (handle urlparse str r t).rules) es) (sym same)
          (Change-HasRule (is_reached r) t (handle urlparse str r t) change h)) in
      (rest ∙ same, kept)
