-- ===== src/Alarms/Runtime/Sound.antt =====
-- A rule whose alarm is open always holds an event, also when the store or Redis fails.
use superviseur.Prelude.{
  ℕ, ◌≡◌, refl, sym, ◌∙◌, ap, Bool, true, false, inl, inr, Option, none, some, List, arith,
  Bool-cases, Option-cases,
}
use superviseur.Prelude.Float.{Float}
use superviseur.Models.{AlarmState, is_normal, is_open}
use superviseur.Alarms.Machine
use superviseur.Alarms.Machine.{
  AlarmMachine, Transition, TransitionKind, is_persistent, persistent, transition,
}
use superviseur.Alarms.Machine.Diagram.{Arrow, Walk, update-Walk}
use superviseur.Alarms.Records.{Effects}
use superviseur.Alarms.Runtime.{RuleRuntime, persist, persist_all, update, acknowledge, record_ack}
use superviseur.Alarms.Runtime.Persist.{
  HasEvent, record_ack_cases, persist-machine, persist-HasEvent, persist-HasEvent_failed,
}

-- The runtime of a rule: if its alarm is open, it holds an event and an instant.
abbrev pub IsSound : RuleRuntime → Type 0
IsSound rt = is_open rt.machine.state ≡ true → HasEvent rt

-- A transition that is not recorded ends in a state without an open alarm.
Arrow-is_open :
    {s t : AlarmState} {k : TransitionKind} {c : Option Bool}
    → Arrow s t k c
    → is_persistent k ≡ false
    → is_open t ≡ false
Arrow-is_open Arrow.appears h = refl
Arrow-is_open Arrow.cancels h = refl
Arrow-is_open Arrow.expires h = cc
Arrow-is_open Arrow.acks h = cc
Arrow-is_open Arrow.ends h = cc
Arrow-is_open Arrow.clears h = cc
Arrow-is_open Arrow.acks_cleared h = cc
Arrow-is_open Arrow.returns h = cc

open_of_normal : (s : AlarmState) → is_normal s ≡ true → is_open s ≡ false
open_of_normal s h = ground arith

module _ {W : Type 0} (fx : Effects W) where
  -- What the recording of one transition leaves, by how it ended.
  recorded :
      (t : Transition) (rt : RuleRuntime) (w : W)
      → (is_open t.from_state ≡ true → HasEvent rt)
      → let (r, rt', w') = persist fx t none rt w in
        (r ≡ none → is_open t.from_state ≡ true → HasEvent rt')
        × (r ≡ some tt → is_open t.to_state ≡ true → HasEvent rt')
  recorded t rt w h = (
    λ failed from. persist-HasEvent_failed fx t none rt w (h from) failed,
    λ done to. persist-HasEvent fx t none rt w (ground (arith, open_of_normal t.to_state)) done,
  )

  persist_all-IsSound :
      {c : Option Bool} {s e : AlarmState} {ts : List Transition} (rt : RuleRuntime) (w : W)
      → Walk c s ts e
      → rt.machine.state ≡ e
      → (is_open s ≡ true → HasEvent rt)
      → IsSound (persist_all fx ts rt w).0
  unfolding persist_all
  persist_all-IsSound rt w Walk.stay q h = λ o. h (ap is_open (sym q) ∙ o)
  persist_all-IsSound rt w (Walk.go {s = s} {t = t} {k = k} {ts = ts} a r) q h =
      let step = transition s t k in
      let (result, rt', w') = persist fx step none rt w in
      let (failed, done) = recorded step rt w h in
      let same = ap (λ m. m.state) (persist-machine fx step none rt w) in
      elim (Bool-cases (is_persistent k)) [
        | inl kept ↦ elim (Option-cases result) [
          | inl e ↦ rw (kept, e) (λ o. failed e o)
          | inr (_, e) ↦ rw (kept, e) (persist_all-IsSound rt' w' r (same ∙ q) (λ o. done e o))
        ]
        | inr quiet ↦ rw quiet (persist_all-IsSound rt w r q (λ o. cc (o, Arrow-is_open a quiet)))
      ]

  -- Whatever the store, Redis and the notifier do, an observation keeps the runtime of a rule
  -- sound: if its alarm is open afterwards, it holds an event and an instant.
  pub update-IsSound :
      (rt : RuleRuntime) (c : Bool) (v : Option Float) (w : W)
      → IsSound rt
      → IsSound (update fx rt c v w).0
  unfolding update
  update-IsSound rt c v w h =
      let (now, w1) = fx.clock w in persist_all-IsSound _ w1 (update-Walk rt.machine c now) refl h

  record_ack_parts :
      (t : Transition) (user : ℕ) (rt : RuleRuntime) (w : W)
      → HasEvent rt
      → let (r, rt', w') = record_ack fx t user rt w in
        (rt'.machine ≡ rt.machine)
        × (r ≡ none → HasEvent rt')
        × (r ≡ some tt → is_normal t.to_state ≡ false → HasEvent rt')
  record_ack_parts t user rt w h = elim (record_ack_cases fx t user rt w) [
    | inl (w', e) ↦ rw e (refl, λ _. h, λ d. cc)
    | inr (by, w', e) ↦ rw e (
      persist-machine fx t by rt w',
      λ f. persist-HasEvent_failed fx t by rt w' h f,
      λ d n. persist-HasEvent fx t by rt w' n d,
    )
  ]

  -- The acknowledged state is the one that the transition names.
  acknowledged_ends :
      (m : AlarmMachine) (t : Transition)
      → (Machine.acknowledge m).1 ≡ some t
      → (is_open m.state ≡ true) × ((Machine.acknowledge m).0.state ≡ t.to_state)
  unfolding Machine.acknowledge
  acknowledged_ends m t e = ground arith

  unacknowledged_same :
      (m : AlarmMachine) → (Machine.acknowledge m).1 ≡ none → (Machine.acknowledge m).0 ≡ m
  unfolding Machine.acknowledge
  unacknowledged_same m e = ground arith

  -- Whatever the store, Redis and the notifier do, an acknowledgement keeps the runtime of a rule
  -- sound.
  pub acknowledge-IsSound :
      (user : ℕ) (rt : RuleRuntime) (w : W) → IsSound rt → IsSound (acknowledge fx user rt w).1
  unfolding acknowledge
  acknowledge-IsSound user rt w h = elim (Option-cases (Machine.acknowledge rt.machine).1) [
    | inl e ↦ ground (arith, unacknowledged_same rt.machine)
    | inr (t, e) ↦
        let m = (Machine.acknowledge rt.machine).0 in
        let (was_open, ends) = acknowledged_ends rt.machine t e in
        let had = h was_open in
        ground (
          arith,
          record_ack_parts t user (record rt { machine = m }) w had,
          open_of_normal t.to_state,
        )
  ]
