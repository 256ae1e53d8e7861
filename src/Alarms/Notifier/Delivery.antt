-- ===== src/Alarms/Notifier/Delivery.antt =====
-- One delivery: it stops at the first success, and gives up after the attempts that are set.
use superviseur.Prelude.{ℕ, zero, suc, ◌+◌, ◌<◌, ◌≡◌, refl, Bool, true, false, some, arith}
use superviseur.Alarms.Notifier.{Settings, sent, abandoned, attempt, deliver}

module _ {W : Type 0} (cfg : Settings) (send : W → Bool × W) where
  -- The state after `n` calls of the sender.
  unfoldable pub after_sends : ℕ → W → W
  after_sends zero w = w
  after_sends (suc n) w = after_sends n (send w).1

  -- The sender fails `n` times in a row.
  abbrev pub FailsFor : ℕ → W → Type 0
  FailsFor zero w = Unit
  FailsFor (suc n) w = ((send w).0 ≡ false) × FailsFor n (send w).1

  attempt_fails :
      (k left : ℕ) (w : W)
      → FailsFor left w
      → let r = attempt cfg send k left w in (r.0 ≡ abandoned) × (r.2 ≡ after_sends left w)
  unfolding attempt after_sends
  attempt_fails k zero w h = (refl, refl)
  attempt_fails k (suc left) w h = ground (arith, attempt_fails (k + 1) left (send w).1 h.1)

  attempt_sends :
      (k n left : ℕ) (w : W)
      → FailsFor n w
      → (send (after_sends n w)).0 ≡ true
      → n < left
      → let r = attempt cfg send k left w in (r.0 ≡ sent) × (r.2 ≡ after_sends (suc n) w)
  unfolding attempt after_sends
  attempt_sends k n zero w h d l = absurd (omega arith)
  attempt_sends k zero (suc left) w h d l = ground arith
  attempt_sends k (suc n) (suc left) w h d l =
      ground (arith, attempt_sends (k + 1) n left (send w).1 h.1 d (omega arith))

  -- If the sender fails in each of the attempts that are set, the job is given up after exactly
  -- those calls.
  pub deliver_gives_up :
      (w : W)
      → FailsFor cfg.attempts w
      → let r = deliver cfg (some send) w in (r.0 ≡ abandoned) × (r.2 ≡ after_sends cfg.attempts w)
  unfolding deliver
  deliver_gives_up w h = attempt_fails 1 cfg.attempts w h

  -- If the sender fails `n` times and then succeeds, and `n` is less than the attempts that are
  -- set, the job is sent, with exactly `n + 1` calls of the sender.
  pub deliver_sends_once :
      (n : ℕ) (w : W)
      → FailsFor n w
      → (send (after_sends n w)).0 ≡ true
      → n < cfg.attempts
      → let r = deliver cfg (some send) w in (r.0 ≡ sent) × (r.2 ≡ after_sends (suc n) w)
  unfolding deliver
  deliver_sends_once n w h d l = attempt_sends 1 n cfg.attempts w h d l
