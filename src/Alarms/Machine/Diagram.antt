-- ===== src/Alarms/Machine/Diagram.antt =====
-- The diagram in the head of backend/app/alarms/machine.py, and the machine against it.
use superviseur.Prelude.{
  or_else, Bool-cases, leb, ◌+◌, ℕ, Bool, true, false, inl, inr, Option, none, some, List, [], ◌∷◌,
}
use superviseur.Models.{AlarmState}
use superviseur.Models.AlarmState.{normal, pending, active_unacked, active_acked, cleared_unacked}
use superviseur.Alarms.Machine.{
  TransitionKind, Transition, AlarmMachine, update, acknowledge, transition,
}

-- The arrows of the diagram: state, state, kind, and the condition that the arrow needs (`none`
-- for an acknowledgement).
pub data Arrow : AlarmState → AlarmState → TransitionKind → Option Bool → Type 0 where
  appears : Arrow normal pending TransitionKind.pending (some true)
  expires : Arrow pending active_unacked TransitionKind.raised (some true)
  cancels : Arrow pending normal TransitionKind.cancelled (some false)
  acks : Arrow active_unacked active_acked TransitionKind.acked none
  ends : Arrow active_acked normal TransitionKind.normal (some false)
  clears : Arrow active_unacked cleared_unacked TransitionKind.cleared (some false)
  acks_cleared : Arrow cleared_unacked normal TransitionKind.acked none
  returns : Arrow cleared_unacked active_unacked TransitionKind.raised (some true)

-- A list of transitions that leads from one state to another along the arrows.
pub data Walk (c : Option Bool) : AlarmState → List Transition → AlarmState → Type 0 where
  stay : {s : AlarmState} → Walk c s [] s
  go :
      {s t u : AlarmState} {k : TransitionKind} {ts : List Transition}
      → Arrow s t k c
      → Walk c t ts u
      → Walk c s (transition s t k ∷ ts) u

update_in-Walk :
    (s : AlarmState) (c : Bool) (now delay : ℕ) (since : Option ℕ)
    → let (m', out) = update (record { delay_s = delay; state = s; pending_since = since }) c now in
      Walk (some c) s out m'.state
unfolding update
update_in-Walk normal true now delay since = elim (Bool-cases (leb (now + delay) now)) [
  | inl expired ↦ rw expired (go appears (go expires stay))
  | inr waits ↦ rw waits (go appears stay)
]
update_in-Walk normal false now delay since = stay
update_in-Walk pending true now delay since =
    elim (Bool-cases (leb (or_else since now + delay) now)) [
      | inl expired ↦ rw expired (go expires stay)
      | inr waits ↦ rw waits stay
    ]
update_in-Walk pending false now delay since = go cancels stay
update_in-Walk active_unacked true now delay since = stay
update_in-Walk active_unacked false now delay since = go clears stay
update_in-Walk active_acked true now delay since = stay
update_in-Walk active_acked false now delay since = go ends stay
update_in-Walk cleared_unacked true now delay since = go returns stay
update_in-Walk cleared_unacked false now delay since = stay

-- The transitions that one call of `update` returns lead from the state before it to the state
-- after it, each along an arrow of the documented diagram whose condition is the one observed.
pub update-Walk :
    (m : AlarmMachine) (c : Bool) (now : ℕ)
    → Walk (some c) m.state (update m c now).1 (update m c now).0.state
update-Walk m c now = update_in-Walk m.state c now m.delay_s m.pending_since

abbrev pub as_list : Option Transition → List Transition
as_list none = []
as_list (some t) = t ∷ []

acknowledge_in-Walk :
    (s : AlarmState) (delay : ℕ) (since : Option ℕ)
    → let (m', out) = acknowledge (record { delay_s = delay; state = s; pending_since = since }) in
      Walk none s (as_list out) m'.state
unfolding acknowledge
acknowledge_in-Walk active_unacked delay since = go acks stay
acknowledge_in-Walk cleared_unacked delay since = go acks_cleared stay
acknowledge_in-Walk _ delay since = stay

-- An acknowledgement follows an acknowledgement arrow of the diagram or changes no state.
pub acknowledge-Walk :
    (m : AlarmMachine) → Walk none m.state (as_list (acknowledge m).1) (acknowledge m).0.state
acknowledge-Walk m = acknowledge_in-Walk m.state m.delay_s m.pending_since
