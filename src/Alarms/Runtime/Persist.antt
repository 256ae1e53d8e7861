-- ===== src/Alarms/Runtime/Persist.antt =====
-- What `_persist` does to a rule's runtime, whatever its effects do.
use superviseur.Prelude.{
  ℕ, ◌≡◌, true, false, Option, none, some, String, arith, is_some, ◌⊎◌, inl, inr, Option-cases,
}
use superviseur.Models.{AlarmState, is_normal}
use superviseur.Alarms.Machine.{Transition, TransitionKind}
use superviseur.Alarms.Records.{Effects}
use superviseur.Alarms.Runtime.{
  RuleRuntime, persist, record_transition, announce, record_ack, signature,
}

-- The runtime holds an event and an instant.
abbrev pub HasEvent : RuleRuntime → Type 0
HasEvent rt = (is_some rt.event_id ≡ true) × (is_some rt.raised_at ≡ true)

module _ {W : Type 0} (fx : Effects W) where
  record_transition-machine :
      (k : TransitionKind) (e : Option ℕ) (s : AlarmState) (now : ℕ) (by : Option String)
      (rt : RuleRuntime) (w : W)
      → (record_transition fx k e s now by rt w).1.machine ≡ rt.machine
  unfolding record_transition
  record_transition-machine k e s now by rt w = ground arith

  announce-machine :
      (t : Transition) (rt : RuleRuntime) (w : W) → (announce fx t rt w).1.machine ≡ rt.machine
  unfolding announce
  announce-machine t rt w = ground arith

  -- `_persist` leaves the machine alone.
  pub persist-machine :
      (t : Transition) (by : Option String) (rt : RuleRuntime) (w : W)
      → (persist fx t by rt w).1.machine ≡ rt.machine
  unfolding persist
  persist-machine t by rt w = ground (
    arith,
    record_transition-machine t.kind rt.event_id t.to_state (fx.wall w).0 by rt (fx.wall w).1,
    announce-machine t
        (record_transition fx t.kind rt.event_id t.to_state (fx.wall w).0 by rt (fx.wall w).1).1
        (record_transition fx t.kind rt.event_id t.to_state (fx.wall w).0 by rt (fx.wall w).1).2,
  )

  record_transition-HasEvent :
      (k : TransitionKind) (s : AlarmState) (now : ℕ) (by : Option String) (rt : RuleRuntime)
      (w : W)
      → HasEvent rt
      → HasEvent (record_transition fx k rt.event_id s now by rt w).1
  unfolding record_transition
  record_transition-HasEvent k s now by rt w h = ground arith

  announce-HasEvent :
      (t : Transition) (rt : RuleRuntime) (w : W)
      → is_normal t.to_state ≡ false
      → (announce fx t rt w).0 ≡ some tt
      → HasEvent (announce fx t rt w).1
  unfolding announce
  announce-HasEvent t rt w open_ done = ground arith

  announce-HasEvent_failed :
      (t : Transition) (rt : RuleRuntime) (w : W)
      → HasEvent rt
      → (announce fx t rt w).0 ≡ none
      → HasEvent (announce fx t rt w).1
  unfolding announce
  announce-HasEvent_failed t rt w h failed = ground arith

  -- A transition that was not recorded leaves an open event in place.
  pub persist-HasEvent_failed :
      (t : Transition) (by : Option String) (rt : RuleRuntime) (w : W)
      → HasEvent rt
      → (persist fx t by rt w).0 ≡ none
      → HasEvent (persist fx t by rt w).1
  unfolding persist
  persist-HasEvent_failed t by rt w h failed =
      let (now, w1) = fx.wall w in
      let (r, rt2, w2) = record_transition fx t.kind rt.event_id t.to_state now by rt w1 in
      ground (
        arith,
        record_transition-HasEvent t.kind t.to_state now by rt w1 h,
        announce-HasEvent_failed t rt2 w2,
      )

  -- A recorded transition to a state other than normal leaves the runtime with an open event.
  pub persist-HasEvent :
      (t : Transition) (by : Option String) (rt : RuleRuntime) (w : W)
      → is_normal t.to_state ≡ false
      → (persist fx t by rt w).0 ≡ some tt
      → HasEvent (persist fx t by rt w).1
  unfolding persist
  persist-HasEvent t by rt w open_ done =
      let (now, w1) = fx.wall w in
      let (r, rt2, w2) = record_transition fx t.kind rt.event_id t.to_state now by rt w1 in
      ground (arith, announce-HasEvent t rt2 w2)

  -- An acknowledgement records its transition with the user's signature, or raises before.
  pub record_ack_cases :
      (t : Transition) (user : ℕ) (rt : RuleRuntime) (w : W)
      → ((w' : W) × (record_ack fx t user rt w ≡ (none, rt, w')))
        ⊎ ((by : Option String) × (w' : W) × (record_ack fx t user rt w ≡ persist fx t by rt w'))
  unfolding record_ack
  record_ack_cases t user rt w = elim (Option-cases (fx.user_login user w).0) [
    | inl e ↦ inl ((fx.user_login user w).1, ground arith)
    | inr (login, e) ↦ inr (some (signature fx user login), (fx.user_login user w).1, ground arith)
  ]
