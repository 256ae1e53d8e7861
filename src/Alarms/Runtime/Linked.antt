-- ===== src/Alarms/Runtime/Linked.antt =====
-- The event that a rule holds and the instant that it holds beside it belong together
-- (backend/app/alarms/engine.py).
use superviseur.Prelude.{
  ℕ, ◌≡◌, Bool, true, false, inl, inr, Option, none, some, is_some, List, [], ◌∷◌, String, arith,
  Bool-cases, Option-cases,
}
use superviseur.Prelude.Float.{Float}
use superviseur.Models.{AlarmState}
use superviseur.Alarms.Machine
use superviseur.Alarms.Machine.{AlarmMachine, Transition, TransitionKind, persistent}
use superviseur.Alarms.Records.{Effects}
use superviseur.Alarms.Runtime.{
  RuleRuntime, record_transition, announce, persist, persist_all, update, acknowledge, record_ack,
  ack_transition,
}
use superviseur.Alarms.Runtime.Persist.{record_ack_cases}
use superviseur.Alarms.Runtime.Sound.{IsSound, update-IsSound, acknowledge-IsSound}

-- Which instant is that of an event.
abbrev pub Dates : Type 0
Dates = ℕ → ℕ → Bool

-- The event and the instant are there, and the instant is that of the event.
abbrev pub are_dated : Dates → Option ℕ → Option ℕ → Bool
are_dated dates (some id) (some at) = dates id at
are_dated dates _ _ = false

-- If a rule holds an event, it holds the instant of that event.
abbrev pub IsLinked : Dates → RuleRuntime → Type 0
IsLinked dates rt = (is_some rt.event_id ≡ true) → are_dated dates rt.event_id rt.raised_at ≡ true

-- An open alarm has its event, and the instant beside an event is the one of that event.
abbrev pub IsKept : Dates → RuleRuntime → Type 0
IsKept dates rt = IsSound rt × IsLinked dates rt

-- An event that the store creates for an instant has that instant.
abbrev pub DatesCreated : {W : Type 0} → Dates → Effects W → Type 0
DatesCreated {W} dates fx =
    (rule at : ℕ) (v : Option Float) (w : W) (id : ℕ)
    → (fx.create_event rule at v w).0 ≡ some id
    → dates id at ≡ true

module _ {W : Type 0} (fx : Effects W) (dates : Dates) (created : DatesCreated dates fx) where
  record_transition-IsLinked :
      (k : TransitionKind) (s : AlarmState) (now : ℕ) (by : Option String) (rt : RuleRuntime)
      (w : W)
      → IsLinked dates rt
      → IsLinked dates (record_transition fx k rt.event_id s now by rt w).1
  unfolding record_transition
  record_transition-IsLinked k s now by rt w h =
      elim (Option-cases (fx.create_event rt.rec.id now rt.value w).0) [
        | inl e ↦ ground (arith, h, e)
        | inr (id, e) ↦ ground (arith, h, e, created rt.rec.id now rt.value w id e)
      ]

  announce-IsLinked :
      (t : Transition) (rt : RuleRuntime) (w : W)
      → IsLinked dates rt
      → IsLinked dates (announce fx t rt w).1
  unfolding announce
  announce-IsLinked t rt w h = ground (arith, h)

  persist-IsLinked :
      (t : Transition) (by : Option String) (rt : RuleRuntime) (w : W)
      → IsLinked dates rt
      → IsLinked dates (persist fx t by rt w).1
  unfolding persist
  persist-IsLinked t by rt w h =
      let (now, w1) = fx.wall w in
      let (r, rt2, w2) = record_transition fx t.kind rt.event_id t.to_state now by rt w1 in
      let kept = record_transition-IsLinked t.kind t.to_state now by rt w1 h in
      ground (arith, kept, announce-IsLinked t rt2 w2 kept)

  persist_all-IsLinked :
      (ts : List Transition) (rt : RuleRuntime) (w : W)
      → IsLinked dates rt
      → IsLinked dates (persist_all fx ts rt w).0
  unfolding persist_all
  persist_all-IsLinked [] rt w h = h
  persist_all-IsLinked (t ∷ ts) rt w h =
      let (r, rt', w') = persist fx t none rt w in
      let kept = persist-IsLinked t none rt w h in
      elim (Bool-cases (persistent t)) [
        | inl lasts ↦ elim (Option-cases r) [
          | inl e ↦ rw (lasts, e) kept
          | inr (_, e) ↦ rw (lasts, e) (persist_all-IsLinked ts rt' w' kept)
        ]
        | inr quiet ↦ rw quiet (persist_all-IsLinked ts rt w h)
      ]

  update-IsLinked :
      (rt : RuleRuntime) (c : Bool) (v : Option Float) (w : W)
      → IsLinked dates rt
      → IsLinked dates (update fx rt c v w).0
  unfolding update
  update-IsLinked rt c v w h =
      let (now, w1) = fx.clock w in persist_all-IsLinked (Machine.update rt.machine c now).1 _ w1 h

  record_ack-IsLinked :
      (t : Transition) (user : ℕ) (rt : RuleRuntime) (w : W)
      → IsLinked dates rt
      → IsLinked dates (record_ack fx t user rt w).1
  record_ack-IsLinked t user rt w h = elim (record_ack_cases fx t user rt w) [
    | inl (w', e) ↦ rw e h
    | inr (by, w', e) ↦ rw e (persist-IsLinked t by rt w' h)
  ]

  ack_transition-IsLinked :
      (user : ℕ) (r : AlarmMachine × Option Transition) (rt : RuleRuntime) (w : W)
      → IsLinked dates rt
      → IsLinked dates (ack_transition fx user r rt w).1
  unfolding ack_transition
  ack_transition-IsLinked user (m, none) rt w h = h
  ack_transition-IsLinked user (m, some t) rt w h =
      let kept = record_ack-IsLinked t user (record rt { machine = m }) w h in
      elim (Option-cases (record_ack fx t user (record rt { machine = m }) w).0) [
        | inl failed ↦ rw (ack_transition, failed) kept
        | inr (_, done) ↦ rw (ack_transition, done) kept
      ]

  -- Whatever the store, Redis and the notifier do, an observation keeps what a rule holds.
  pub update-IsKept :
      (rt : RuleRuntime) (c : Bool) (v : Option Float) (w : W)
      → IsKept dates rt
      → IsKept dates (update fx rt c v w).0
  update-IsKept rt c v w h = (update-IsSound fx rt c v w h.0, update-IsLinked rt c v w h.1)

  -- So does an acknowledgement.
  pub acknowledge-IsKept :
      (user : ℕ) (rt : RuleRuntime) (w : W)
      → IsKept dates rt
      → IsKept dates (acknowledge fx user rt w).1
  unfolding acknowledge
  acknowledge-IsKept user rt w h = (
    acknowledge-IsSound fx user rt w h.0,
    ack_transition-IsLinked user (Machine.acknowledge rt.machine) rt w h.1,
  )
