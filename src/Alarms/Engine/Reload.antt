-- ===== src/Alarms/Engine/Reload.antt =====
-- The reading of the rules keeps the events that they hold (backend/app/alarms/engine.py).
use superviseur.Prelude.{
  ℕ, ◌≡◌, refl, Bool, true, false, Option, none, some, List, [], ◌∷◌, arith, nat_eq, All,
}
use superviseur.Prelude.Dict.{Dict, lookup, All-insert, All-lookup}
use superviseur.Alarms.Machine
use superviseur.Alarms.Records.{RuleRecord, OpenEvent, LatestValue, Effects}
use superviseur.Alarms.Runtime.{RuleRuntime}
use superviseur.Alarms.Runtime.Linked.{Dates, IsKept, DatesCreated, update-IsKept}
use superviseur.Alarms.Engine.{AlarmEngine, Rules, index_rule, index_rules}
use superviseur.Alarms.Engine.Load.{
  Loading, restore, refresh, load_rule, load_records, initial_rule, initial_evaluation, last_seen,
  evaluate_last, evaluate_online, evaluate_latest, finish_load, load_events, load_rules, load,
  by_rule,
}
use superviseur.Alarms.Engine.Sound.{AllKept, Keeps, for_each-AllKept, update_known-Keeps}

-- The instant of an event that is read from the store.
abbrev IsDated : Dates → OpenEvent → Type 0
IsDated dates e = dates e.id e.raised_at ≡ true

-- The events that the store gives as open have their instants.
abbrev pub DatesLoaded : {W : Type 0} → Dates → Effects W → Type 0
DatesLoaded {W} dates fx =
    (w : W) (es : List OpenEvent)
    → (fx.open_events w).0 ≡ some es
    → All (λ (e : OpenEvent). dates e.id e.raised_at ≡ true) es

abbrev AllDated : Dates → Dict ℕ OpenEvent → Type 0
AllDated dates = All (λ (x : ℕ × OpenEvent). IsDated dates x.1)

by_rule-AllDated :
    (dates : Dates) (es : List OpenEvent) (d : Dict ℕ OpenEvent)
    → All (IsDated dates) es
    → AllDated dates d
    → AllDated dates (by_rule es d)
by_rule-AllDated dates [] d h k = k
by_rule-AllDated dates (e ∷ es) d h k =
    by_rule-AllDated dates es _ h.1 (All-insert (IsDated dates) e.rule_id e d k h.0)

restore-IsKept :
    (dates : Dates) (rec : RuleRecord) (event : Option OpenEvent) (now : ℕ)
    → ((e : OpenEvent) → event ≡ some e → IsDated dates e)
    → IsKept dates (restore rec event now)
unfolding restore Machine.init
restore-IsKept dates rec none now k = (λ h. cc, λ h. cc)
restore-IsKept dates rec (some e) now k = (λ h. (refl, refl), λ h. k e refl)

refresh-IsKept :
    (dates : Dates) (rec : RuleRecord) (rt : RuleRuntime)
    → IsKept dates rt
    → IsKept dates (refresh rec rt)
unfolding refresh
refresh-IsKept dates rec rt h = h

index_rules-rules : (xs : Rules) (e : AlarmEngine) → (index_rules xs e).rules ≡ e.rules
unfolding index_rules index_rule
index_rules-rules [] e = refl
index_rules-rules (x ∷ xs) e = index_rules-rules xs (index_rule x e)

-- The two dicts that the loop over the records builds.
abbrev BothKept : Dates → Loading → Type 0
BothKept dates l = AllKept dates l.old × AllKept dates l.rules

module _ {W : Type 0} (fx : Effects W) (dates : Dates) (created : DatesCreated dates fx) where
  load_rule-BothKept :
      (r : Option RuleRuntime) (rec : RuleRecord) (event : Option OpenEvent) (l : Loading) (w : W)
      → ((rt : RuleRuntime) → r ≡ some rt → IsKept dates rt)
      → ((e : OpenEvent) → event ≡ some e → IsDated dates e)
      → BothKept dates l
      → BothKept dates (load_rule fx r rec event l w).0
  unfolding load_rule
  load_rule-BothKept (some rt) rec event l w k d h =
      let s = refresh-IsKept dates rec rt (k rt refl) in
      (
        All-insert (IsKept dates) rec.id _ l.old h.0 s,
        All-insert (IsKept dates) rec.id _ l.rules h.1 s,
      )
  load_rule-BothKept none rec event l w k d h = (
    h.0,
    All-insert (IsKept dates) rec.id _ l.rules h.1
        (restore-IsKept dates rec event (fx.clock w).0 d),
  )

  load_records-BothKept :
      (recs : List RuleRecord) (events : Dict ℕ OpenEvent) (l : Loading) (w : W)
      → AllDated dates events
      → BothKept dates l
      → BothKept dates (load_records fx recs events l w).0
  unfolding load_records
  load_records-BothKept [] events l w d h = h
  load_records-BothKept (rec ∷ recs) events l w d h =
      let r = lookup rec.id l.old in
      let step = load_rule fx r rec (lookup rec.id events) l w in
      load_records-BothKept recs events step.0 step.1 d (
        load_rule-BothKept r rec (lookup rec.id events) l w
          (λ rt q. All-lookup (IsKept dates) rec.id l.old h.0 q)
          (λ e q. All-lookup (IsDated dates) rec.id events d q) h)

  last_seen-Keeps :
      (last : Option LatestValue) (wall_now : ℕ)
      → Keeps fx dates created (last_seen fx last wall_now)
  unfolding last_seen
  last_seen-Keeps none wall_now rt w h = h
  last_seen-Keeps (some v) wall_now rt w h = h

  evaluate_last-Keeps : (last : Option LatestValue) → Keeps fx dates created (evaluate_last fx last)
  unfolding evaluate_last
  evaluate_last-Keeps none rt w h = h
  evaluate_last-Keeps (some v) rt w h = update_known-Keeps fx dates created _ v.value rt w h

  initial_rule-Keeps :
      (latest : Dict ℕ LatestValue) (online : Dict ℕ Bool) (wall_now : ℕ)
      → Keeps fx dates created (initial_rule fx latest online wall_now)
  unfolding initial_rule
  initial_rule-Keeps latest online wall_now rt0 w0 h0 =
      let last = lookup rt0.rec.point_id latest in
      let (rt, w) = last_seen fx last wall_now rt0 w0 in
      let h = last_seen-Keeps last wall_now rt0 w0 h0 in
      ground
        (arith, h, evaluate_last-Keeps last rt w h, update-IsKept fx dates created rt true none w h)

  evaluate_online-AllKept :
      (ids : List ℕ) (rules : Rules) (latest : Dict ℕ LatestValue) (r : Option (Dict ℕ Bool) × W)
      → AllKept dates rules
      → AllKept dates (evaluate_online fx ids rules latest r).1
  unfolding evaluate_online
  evaluate_online-AllKept ids rules latest (none, w) h = h
  evaluate_online-AllKept ids rules latest (some online, w) h =
      let (wall_now, w1) = fx.wall w in
      for_each-AllKept fx dates created ids _ rules w1 (initial_rule-Keeps latest online wall_now) h

  evaluate_latest-AllKept :
      (ids : List ℕ) (rules : Rules) (r : Option (Dict ℕ LatestValue) × W)
      → AllKept dates rules
      → AllKept dates (evaluate_latest fx ids rules r).1
  unfolding evaluate_latest
  evaluate_latest-AllKept ids rules (none, w) h = h
  evaluate_latest-AllKept ids rules (some latest, w) h =
      evaluate_online-AllKept ids rules latest (fx.devices_online w) h

  initial_evaluation-AllKept :
      (ids : List ℕ) (rules : Rules) (w : W)
      → AllKept dates rules
      → AllKept dates (initial_evaluation fx ids rules w).1
  unfolding initial_evaluation
  initial_evaluation-AllKept [] rules w h = h
  initial_evaluation-AllKept (id ∷ ids) rules w h = evaluate_latest-AllKept (id ∷ ids) rules _ h

  finish_load-AllKept :
      (r : Bool × W) (l : Loading) (e : AlarmEngine)
      → BothKept dates l
      → AllKept dates (finish_load fx r l e).1.rules
  unfolding finish_load
  finish_load-AllKept (false, w) l e h = h.0
  finish_load-AllKept (true, w) l e h = initial_evaluation-AllKept l.fresh l.rules w h.1

  load_events-AllKept :
      (recs : List RuleRecord) (e : AlarmEngine) (r : Option (List OpenEvent) × W)
      → ((es : List OpenEvent) → r.0 ≡ some es → All (IsDated dates) es)
      → AllKept dates e.rules
      → AllKept dates (load_events fx recs e r).1.rules
  unfolding load_events
  load_events-AllKept recs e (none, w) d h = h
  load_events-AllKept recs e (some es, w) d h = finish_load-AllKept _ _ e (
      load_records-BothKept recs (by_rule es []) _ w (by_rule-AllDated dates es [] (d es refl) tt)
        (h, tt))

module _ {W : Type 0} (fx : Effects W) (dates : Dates) (created : DatesCreated dates fx)
    (loaded : DatesLoaded dates fx) where
  load_rules-AllKept :
      (e : AlarmEngine) (r : Option (List RuleRecord) × W)
      → AllKept dates e.rules
      → AllKept dates (load_rules fx e r).1.rules
  unfolding load_rules
  load_rules-AllKept e (none, w) h = h
  load_rules-AllKept e (some recs, w) h =
      load_events-AllKept fx dates created recs e (fx.open_events w) (loaded w) h

  pub load-AllKept :
      (e : AlarmEngine) (w : W) → AllKept dates e.rules → AllKept dates (load fx e w).1.rules
  unfolding load
  load-AllKept e w h = load_rules-AllKept e (fx.load_rules w) h
