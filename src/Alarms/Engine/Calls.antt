-- ===== src/Alarms/Engine/Calls.antt =====
-- Any sequence of calls of the engine's handlers, with any answers of its effects.
use superviseur.Prelude.{
  ℕ, ◌≡◌, refl, Bool, true, not, ◌||◌, Option, List, [], ◌∷◌, nat_eq, all, Bool-cases, inl, inr,
}
use superviseur.Prelude.Float.{Float}
use superviseur.Prelude.Text.{Text}
use superviseur.Models.{is_open}
use superviseur.Alarms.Records.{Effects}
use superviseur.Alarms.Runtime.{RuleRuntime}
use superviseur.Alarms.Runtime.Linked.{Dates, are_dated, IsKept, DatesCreated}
use superviseur.Alarms.Engine
use superviseur.Alarms.Engine.{AlarmEngine, Rules, ObjectKey, index, index_rule, index_rules}
use superviseur.Alarms.Engine.Load.{load}
use superviseur.Alarms.Engine.Sound.{
  AllKept, on_value-AllKept, on_device_status-AllKept, on_bacnet_event-AllKept, tick-AllKept,
  acknowledge-AllKept,
}
use superviseur.Alarms.Engine.Reload.{DatesLoaded, load-AllKept}

-- A call of a handler, with its arguments.
pub data Call : Type 0 where
  reload tick : Call
  value : ℕ → Option Float → Call
  device_status : ℕ → Bool → Call
  bacnet_event : ObjectKey → Text → Call
  acknowledge : ℕ → ℕ → Call

module _ {W : Type 0} (fx : Effects W) where
  unfoldable pub call : Call → AlarmEngine → W → AlarmEngine × W
  call Call.reload e w = let (_, e', w') = load fx e w in (e', w')
  call Call.tick e w = Engine.tick fx e w
  call (Call.value p v) e w = Engine.on_value fx p v e w
  call (Call.device_status d online) e w = Engine.on_device_status fx d online e w
  call (Call.bacnet_event key s) e w = Engine.on_bacnet_event fx key s e w
  call (Call.acknowledge event user) e w =
      let (_, e', w') = Engine.acknowledge fx event user e w in (e', w')

  unfoldable pub calls : List Call → AlarmEngine → W → AlarmEngine × W
  calls [] e w = (e, w)
  calls (c ∷ cs) e w = let (e', w') = call c e w in calls cs e' w'

module _ {W : Type 0} (fx : Effects W) (dates : Dates) (created : DatesCreated dates fx)
    (loaded : DatesLoaded dates fx) where
  call-AllKept :
      (c : Call) (e : AlarmEngine) (w : W)
      → AllKept dates e.rules
      → AllKept dates (call fx c e w).0.rules
  unfolding call
  call-AllKept Call.reload e w h = load-AllKept fx dates created loaded e w h
  call-AllKept Call.tick e w h = tick-AllKept fx dates created e w h
  call-AllKept (Call.value p v) e w h = on_value-AllKept fx dates created p v e w h
  call-AllKept (Call.device_status d online) e w h =
      on_device_status-AllKept fx dates created d online e w h
  call-AllKept (Call.bacnet_event key s) e w h =
      on_bacnet_event-AllKept fx dates created key s e w h
  call-AllKept (Call.acknowledge event user) e w h =
      acknowledge-AllKept fx dates created event user e w h

  calls-AllKept :
      (cs : List Call) (e : AlarmEngine) (w : W)
      → AllKept dates e.rules
      → AllKept dates (calls fx cs e w).0.rules
  unfolding calls
  calls-AllKept [] e w h = h
  calls-AllKept (c ∷ cs) e w h = calls-AllKept cs _ (call fx c e w).1 (call-AllKept c e w h)

-- `AlarmEngine.__init__`
abbrev pub no_rules : AlarmEngine
no_rules = record { rules = []; by_point = []; by_device = []; by_object = [] }

-- The test that a rule whose alarm is open holds an event, and the instant of that event.
abbrev pub keeps_event : Dates → RuleRuntime → Bool
keeps_event dates rt = not (is_open rt.machine.state) || are_dated dates rt.event_id rt.raised_at

keeps_event-IsKept :
    (dates : Dates) (rt : RuleRuntime) → IsKept dates rt → keeps_event dates rt ≡ true
keeps_event-IsKept dates rt h = elim (Bool-cases (is_open rt.machine.state)) [
  | inl opened ↦ rw (opened, h.1 (h.0 opened).0) refl
  | inr closed ↦ rw closed refl
]

all-AllKept :
    (dates : Dates) (rules : Rules)
    → AllKept dates rules
    → all (λ x. keeps_event dates x.1) rules ≡ true
all-AllKept dates [] h = refl
all-AllKept dates ((id, rt) ∷ rules) h =
    rw (keeps_event-IsKept dates rt h.0) (all-AllKept dates rules h.1)

-- Take any test of which instant is that of an event, where an event that the store creates for an
-- instant, and answers, has that instant, and so has each event that the store gives as open, with the
-- instant it gives. After any sequence of handler calls on a new engine, whatever its clocks, its store,
-- Redis and the notifier answered, every rule whose alarm is open holds an event, and beside it the
-- instant of this event.
pub open_alarms_have_events :
    {W : Type 0} (fx : Effects W) (dates : Dates)
    → DatesCreated dates fx
    → DatesLoaded dates fx
    → (cs : List Call) (w : W)
    → all (λ x. keeps_event dates x.1) (calls fx cs no_rules w).0.rules ≡ true
open_alarms_have_events fx dates created loaded cs w =
    all-AllKept dates _ (calls-AllKept fx dates created loaded cs no_rules w tt)
