-- ===== src/Alarms/Rules/EventState.antt =====
-- The texts of a BACnet event state: case and joining signs do not count.
use superviseur.Prelude.{
  ℕ, ◌≡◌, refl, true, List, [], ◌∷◌, ◌++◌, map, nat_eq, Bool-cases, inl, inr, arith,
}
use superviseur.Prelude.Text.{lower, lower-lower}
use superviseur.Alarms.Rules.{is_joiner, plain_letters, is_abnormal_event_state}

plain_letters-append :
    (xs ys : List ℕ) → plain_letters (xs ++ ys) ≡ plain_letters xs ++ plain_letters ys
plain_letters-append [] ys = refl
plain_letters-append (x ∷ xs) ys = elim (Bool-cases (is_joiner (lower x))) [
  | inl joins ↦ rw joins (plain_letters-append xs ys)
  | inr letter ↦ rw letter (rw (plain_letters-append xs ys))
]

plain_letters-skip :
    (c : ℕ) (ys : List ℕ) → is_joiner c ≡ true → plain_letters (c ∷ ys) ≡ plain_letters ys
plain_letters-skip c ys h = ground arith

-- Adding a dash or an underscore anywhere in the name of an event state does not change whether
-- the state is abnormal.
pub joiner_ignored :
    (xs ys : List ℕ) (c : ℕ)
    → is_joiner c ≡ true
    → is_abnormal_event_state (xs ++ c ∷ ys) ≡ is_abnormal_event_state (xs ++ ys)
unfolding is_abnormal_event_state
joiner_ignored xs ys c h =
    rw (plain_letters-append xs (c ∷ ys), plain_letters-append xs ys, plain_letters-skip c ys h)

plain_letters-lower : (xs : List ℕ) → plain_letters (map lower xs) ≡ plain_letters xs
plain_letters-lower [] = refl
plain_letters-lower (x ∷ xs) = rw (lower-lower x, plain_letters-lower xs)

-- The case of the letters does not change whether an event state is abnormal.
pub case_ignored :
    (xs : List ℕ) → is_abnormal_event_state (map lower xs) ≡ is_abnormal_event_state xs
unfolding is_abnormal_event_state
case_ignored xs = rw (plain_letters-lower xs)
