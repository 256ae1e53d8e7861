-- ===== src/Alarms/Engine/Sound.antt =====
-- Every rule of the engine keeps the event of its open alarm under every handler.
use superviseur.Prelude.{
  ℕ, ◌≡◌, refl, Bool, false, not, Option, none, some, List, [], ◌∷◌, arith, nat_eq, or_else, All,
  inl, inr, Bool-cases,
}
use superviseur.Prelude.Float.{Float, nan, fsub}
use superviseur.Prelude.Dict.{lookup, keys, All-insert, All-lookup}
use superviseur.Prelude.Text.{Text}
use superviseur.Alarms.Rules.{evaluate_value, is_stale, is_abnormal_event_state}
use superviseur.Alarms.Records.{Effects}
use superviseur.Alarms.Runtime.{RuleRuntime}
use superviseur.Alarms.Runtime.Linked.{
  Dates, IsKept, DatesCreated, update-IsKept, acknowledge-IsKept,
}
use superviseur.Alarms.Engine
use superviseur.Alarms.Engine.{
  AlarmEngine, Rules, RuleStep, ObjectKey, ack_found, find_event, find_object, for_each, step_found,
  holds, is_comm_lost, is_stale_kind, seconds_of, update_known, refresh_valid, on_value_rule,
  tick_rule, index,
}

-- Every runtime of a dict of rules keeps its event.
abbrev pub AllKept : Dates → Rules → Type 0
AllKept dates = All (λ (x : ℕ × RuleRuntime). IsKept dates x.1)

module _ {W : Type 0} (fx : Effects W) (dates : Dates) (created : DatesCreated dates fx) where
  -- A step after which a runtime still keeps its event, whatever the effects answer.
  abbrev pub Keeps : RuleStep fx → Type 0
  Keeps f = (rt : RuleRuntime) (w : W) → IsKept dates rt → IsKept dates (f rt w).0

  step_found-AllKept :
      (r : Option RuleRuntime) (id : ℕ) (f : RuleStep fx) (rules : Rules) (w : W)
      → Keeps f
      → lookup id rules ≡ r
      → AllKept dates rules
      → AllKept dates (step_found fx r id f rules w).0
  unfolding step_found
  step_found-AllKept none id f rules w k e h = h
  step_found-AllKept (some rt) id f rules w k e h =
      All-insert (IsKept dates) id (f rt w).0 rules h
        (k rt w (All-lookup (IsKept dates) id rules h e))

  pub for_each-AllKept :
      (ids : List ℕ) (f : RuleStep fx) (rules : Rules) (w : W)
      → Keeps f
      → AllKept dates rules
      → AllKept dates (for_each fx ids f rules w).0
  unfolding for_each
  for_each-AllKept [] f rules w k h = h
  for_each-AllKept (id ∷ ids) f rules w k h =
      for_each-AllKept ids f _ (step_found fx (lookup id rules) id f rules w).1 k
        (step_found-AllKept (lookup id rules) id f rules w k refl h)

  pub update_known-Keeps : (c : Option Bool) (v : Option Float) → Keeps (update_known fx c v)
  unfolding update_known
  update_known-Keeps none v rt w h = h
  update_known-Keeps (some c) v rt w h = update-IsKept fx dates created rt c v w h

  refresh_valid-Keeps : (v : Option Float) → Keeps (refresh_valid fx v)
  unfolding refresh_valid
  refresh_valid-Keeps none rt w h = h
  refresh_valid-Keeps (some v) rt w h = h

  on_value_rule-Keeps : (v : Option Float) → Keeps (on_value_rule fx v)
  unfolding on_value_rule
  on_value_rule-Keeps v rt0 w0 h =
      let (rt, w) = refresh_valid fx v rt0 w0 in
      let h1 = refresh_valid-Keeps v rt0 w0 h in
      let known = evaluate_value rt.rec.kind v rt.rec.threshold rt.rec.hysteresis rt.condition in
      ground (
        arith,
        h1,
        update_known-Keeps known v rt w h1,
        update-IsKept fx dates created rt false v w h1,
      )

  tick_rule-Keeps : (now : ℕ) → Keeps (tick_rule fx now)
  unfolding tick_rule
  tick_rule-Keeps now rt w h = ground (
    arith,
    update-IsKept fx dates created rt
        (is_stale (fsub (seconds_of now) rt.last_valid) (or_else rt.rec.threshold nan)) none w h,
    update-IsKept fx dates created rt rt.condition none w h,
  )

  find_event-IsKept :
      (event : ℕ) (rules : Rules) {id : ℕ} {rt : RuleRuntime}
      → AllKept dates rules
      → find_event event rules ≡ some (id, rt)
      → IsKept dates rt
  unfolding find_event
  find_event-IsKept event [] h e = cc
  find_event-IsKept event ((id, r) ∷ rules) {rt = rt} h e =
      elim (Bool-cases (holds event r.event_id)) [
        | inl found ↦ let same : r ≡ rt = ground arith in rw same at (h.0)
        | inr other ↦ find_event-IsKept event rules h.1 (rw other at e)
      ]

  -- A value of a point keeps the events of the rules.
  pub on_value-AllKept :
      (p : ℕ) (v : Option Float) (e : AlarmEngine) (w : W)
      → AllKept dates e.rules
      → AllKept dates (Engine.on_value fx p v e w).0.rules
  unfolding Engine.on_value
  on_value-AllKept p v e w h =
      for_each-AllKept (or_else (lookup p e.by_point) []) (on_value_rule fx v) e.rules w
        (on_value_rule-Keeps v) h

  pub on_device_status-AllKept :
      (d : ℕ) (online : Bool) (e : AlarmEngine) (w : W)
      → AllKept dates e.rules
      → AllKept dates (Engine.on_device_status fx d online e w).0.rules
  unfolding Engine.on_device_status
  on_device_status-AllKept d online e w h =
      for_each-AllKept (or_else (lookup d e.by_device) []) _ e.rules w
        (λ rt w' s. update-IsKept fx dates created rt (not online) none w' s) h

  pub on_bacnet_event-AllKept :
      (key : ObjectKey) (to_state : Text) (e : AlarmEngine) (w : W)
      → AllKept dates e.rules
      → AllKept dates (Engine.on_bacnet_event fx key to_state e w).0.rules
  unfolding Engine.on_bacnet_event
  on_bacnet_event-AllKept key to_state e w h =
      for_each-AllKept (find_object key e.by_object) _ e.rules w
        (λ rt w' s. update-IsKept fx dates created rt (is_abnormal_event_state to_state) none w' s)
        h

  pub tick-AllKept :
      (e : AlarmEngine) (w : W) → AllKept dates e.rules → AllKept dates (Engine.tick fx e w).0.rules
  unfolding Engine.tick
  tick-AllKept e w h =
      let (now, w') = fx.clock w in
      for_each-AllKept (keys e.rules) (tick_rule fx now) e.rules w' (tick_rule-Keeps now) h

  ack_found-AllKept :
      (r : Option (ℕ × RuleRuntime)) (user : ℕ) (e : AlarmEngine) (w : W)
      → ((id : ℕ) (rt : RuleRuntime) → r ≡ some (id, rt) → IsKept dates rt)
      → AllKept dates e.rules
      → AllKept dates (ack_found fx r user e w).1.rules
  unfolding ack_found
  ack_found-AllKept none user e w k h = h
  ack_found-AllKept (some (id, rt)) user e w k h =
      All-insert (IsKept dates) id _ e.rules h
        (acknowledge-IsKept fx dates created user rt w (k id rt refl))

  pub acknowledge-AllKept :
      (event user : ℕ) (e : AlarmEngine) (w : W)
      → AllKept dates e.rules
      → AllKept dates (Engine.acknowledge fx event user e w).1.rules
  unfolding Engine.acknowledge
  acknowledge-AllKept event user e w h =
      ack_found-AllKept (find_event event e.rules) user e w
        (λ id rt q. find_event-IsKept event e.rules h q) h
