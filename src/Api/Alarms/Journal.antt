-- ===== src/Api/Alarms/Journal.antt =====
-- The journal of the acknowledgements (backend/app/api/routes/alarms.py, `acknowledge`).
use superviseur.Prelude.{
  ℕ, ◌+◌, ◌≡◌, ◌⊎◌, refl, ◌∙◌, Bool-cases, Option, Option-cases, none, some, inl, inr, arith, ◌==◌,
  string_eq, String,
}
use superviseur.Api.Session.{Answer, refused, failed}
use superviseur.Api.Deps.{CurrentUser}
use superviseur.Api.Alarms.{
  AlarmOut, Waited, raised, silent, replied, AckEntry, AckEffects, load_alarm, is_ackable, refuse,
  accept, answer, acknowledge_found, acknowledge,
}

-- How many entries the journal has: an entry adds one, and the rest leaves the journal alone.
pub record Counts {W : Type 0} (fx : AckEffects W) : Type 0 where
  pub entries : W → ℕ
  pub add_entries : (e : AckEntry) (w : W) → entries (fx.add_audit e w) ≡ entries w + 1
  pub rows_entries : (w : W) → entries (fx.rows w).1 ≡ entries w
  pub send_entries : (id user : ℕ) (w : W) → entries (fx.send_and_wait id user w).1 ≡ entries w

module _ {W : Type 0} (fx : AckEffects W) (c : Counts fx) where
  open c use {entries, add_entries, rows_entries, send_entries}

  -- The end of a request that began with `n` entries.
  abbrev pub IsJournaled : ℕ → Answer AlarmOut × W → Type 0
  IsJournaled n r =
      (((r.0 ≡ refused 404 "alarme introuvable") ⊎ (r.0 ≡ failed)) × (entries r.1 ≡ n))
      ⊎ (entries r.1 ≡ n + 1)

  refuse-IsJournaled :
      (user : CurrentUser) (a : AlarmOut) (code : ℕ) (detail : String) (n : ℕ) (w : W)
      → entries w ≡ n
      → IsJournaled n (refuse fx user a code detail w)
  unfolding refuse
  refuse-IsJournaled user a code detail n w h = inr (add_entries _ w ∙ (omega (arith, h)))

  accept-IsJournaled :
      (user : CurrentUser) (a : AlarmOut) (now : Option AlarmOut) (n : ℕ) (w : W)
      → entries w ≡ n
      → IsJournaled n (accept fx user a now w)
  unfolding accept
  accept-IsJournaled user a none n w h = inl (inl refl, h)
  accept-IsJournaled user a (some b) n w h = inr (add_entries _ w ∙ (omega (arith, h)))

  answer-IsJournaled :
      (user : CurrentUser) (id : ℕ) (a : AlarmOut) (reply : Waited) (n : ℕ) (w : W)
      → entries w ≡ n
      → IsJournaled n (answer fx user id a reply w)
  unfolding answer
  answer-IsJournaled user id a raised n w h = inl (inr refl, h)
  answer-IsJournaled user id a silent n w h = refuse-IsJournaled user a 504 _ n w h
  answer-IsJournaled user id a (replied r) n w h = elim (Bool-cases (r.status == "ok")) [
    | inl ok ↦
        rw (answer, ok)
          (accept-IsJournaled user a (load_alarm id (fx.rows w).0) n (fx.rows w).1
            (rows_entries w ∙ h))
    | inr other ↦ rw (answer, other) (refuse-IsJournaled user a 409 _ n w h)
  ]

  acknowledge_found-IsJournaled :
      (user : CurrentUser) (id : ℕ) (a : AlarmOut) (n : ℕ) (w : W)
      → entries w ≡ n
      → IsJournaled n (acknowledge_found fx user id a w)
  unfolding acknowledge_found
  acknowledge_found-IsJournaled user id a n w h = elim (Bool-cases (is_ackable a.state)) [
    | inl ackable ↦
        rw (acknowledge_found, ackable)
          (answer-IsJournaled user id a (fx.send_and_wait id user.id w).0 n
            (fx.send_and_wait id user.id w).1 (send_entries id user.id w ∙ h))
    | inr closed ↦ rw (acknowledge_found, closed) (refuse-IsJournaled user a 409 _ n w h)
  ]

  -- While the database answers, a request to acknowledge an alarm leaves exactly one entry in the
  -- journal, whether it is refused because of the state of the alarm, gets no answer in time, is refused
  -- by the engine or succeeds. It leaves none only in two cases: it is answered 404, since the alarm is
  -- not found before the command or after it, or it fails with an exception of `send_and_wait`. Reading
  -- the alarms and sending the command leave the number of the entries as it was.
  pub acknowledge-IsJournaled :
      (user : CurrentUser) (id : ℕ) (w : W) → IsJournaled (entries w) (acknowledge fx user id w)
  unfolding acknowledge
  acknowledge-IsJournaled user id w = elim (Option-cases (load_alarm id (fx.rows w).0)) [
    | inl unknown ↦ rw (acknowledge, unknown) (inl (inl refl, rows_entries w))
    | inr (a, found) ↦
        rw (acknowledge, found)
          (acknowledge_found-IsJournaled user id a (entries w) (fx.rows w).1 (rows_entries w))
  ]
