-- ===== src/Auth/Lockout/Laws.antt =====
-- The login guard over a Redis that answers as documented while no time passes.
use superviseur.Prelude.{
  ℕ, zero, suc, ◌+◌, ◌≤◌, ◌<◌, ◌≡◌, refl, false, [], ◌∷◌, leb, nat_eq, agree_refl, if◌then◌else◌,
  arith,
}
use superviseur.Prelude.Text.{Text, text_eq, same_text}
use superviseur.Auth.Lockout.{
  LoginGuard, fail_key, lock_key, locked_for, lock_login, record_failure, record_success, unlock,
}
use superviseur.Auth.Lockout.Server.{Redis, Answers, IsExpiry, max_counter}

-- The two keys of a login, and of different logins, never meet.
pub fail_key-ne-lock_key : (a b : Text) → same_text (fail_key a) (lock_key b) ≡ false
unfolding fail_key lock_key
fail_key-ne-lock_key a b = refl

pub lock_key-ne-fail_key : (a b : Text) → same_text (lock_key a) (fail_key b) ≡ false
unfolding fail_key lock_key
lock_key-ne-fail_key a b = refl

-- The settings of the guard with which Redis does what it says: the lengths of the window and of the
-- lock are expiries, and the limit is a counter.
pub record IsConfigured (g : LoginGuard) : Type 0 where
  pub window_expiry : IsExpiry g.window
  pub lock_expiry : IsExpiry g.lock
  pub max_counts : g.max ≤ max_counter

module _ {W : Type 0} (redis : Redis W) (answers : Answers redis) (g : LoginGuard)
    (configured : IsConfigured g) (login : Text) where
  open answers use {
    counter, left, incr_answer, incr_counter, incr_left, expire_answer, expire_counter, expire_left,
    set_answer, set_counter, set_left, delete_answer, delete_counter, delete_left, ttl_answer,
  }

  -- What `locked_for` tells is the time that the lock has left.
  pub locked_for-left : (w : W) → (locked_for redis login w).0 ≡ left w (lock_key login)
  unfolding locked_for
  locked_for-left w = let (z, e, p) = ttl_answer (lock_key login) w in ground (arith)

  -- A failure below the limit counts and does not lock.
  pub failure_counts :
      (w : W)
      → counter w (fail_key login) + 1 < g.max
      → let (answer, w') = record_failure redis g login w in
        (answer ≡ 0)
        × (counter w' (fail_key login) ≡ counter w (fail_key login) + 1)
        × (left w' (lock_key login) ≡ left w (lock_key login))
  unfolding record_failure
  failure_counts w h =
      let k = fail_key login in
      let l = lock_key login in
      let w1 = (redis.incr k w).1 in
      let few : counter w k < max_counter = omega (arith, h, configured.max_counts) in
      ground (
        arith,
        incr_answer k w few,
        incr_counter k k w few,
        incr_left k l w,
        expire_answer k g.window w1 configured.window_expiry,
        expire_counter k k g.window w1 configured.window_expiry,
        expire_left k l g.window w1 (fail_key-ne-lock_key login login),
        agree_refl k,
      )

  lock_login_locks :
      (w : W)
      → let (answer, w') = lock_login redis g login w in
        (answer ≡ g.lock) × (counter w' (fail_key login) ≡ 0) × (left w' (lock_key login) ≡ g.lock)
  unfolding lock_login
  lock_login_locks w =
      let k = fail_key login in
      let l = lock_key login in
      let w1 = (redis.set_ex l g.lock w).1 in
      ground (
        arith,
        set_answer l g.lock w configured.lock_expiry,
        set_left l l g.lock w configured.lock_expiry,
        delete_answer (k ∷ []) w1,
        delete_counter (k ∷ []) k w1,
        delete_left (k ∷ []) l w1,
        agree_refl k,
        agree_refl l,
        lock_key-ne-fail_key login login,
      )

  -- The failure that reaches the limit locks the login and starts the count again.
  pub failure_locks :
      (w : W)
      → g.max ≤ counter w (fail_key login) + 1
      → counter w (fail_key login) < max_counter
      → let (answer, w') = record_failure redis g login w in
        (answer ≡ g.lock) × (counter w' (fail_key login) ≡ 0) × (left w' (lock_key login) ≡ g.lock)
  unfolding record_failure
  failure_locks w h few =
      let k = fail_key login in
      let w1 = (redis.incr k w).1 in
      ground (
        arith,
        incr_answer k w few,
        expire_answer k g.window w1 configured.window_expiry,
        lock_login_locks w1,
        lock_login_locks (redis.expire k g.window w1).1,
      )

  -- The state after `n` failures of the login, one after the other.
  unfoldable pub failures : ℕ → W → W
  failures zero w = w
  failures (suc n) w = (record_failure redis g login (failures n w)).1

  failures_count :
      (n : ℕ) (w : W)
      → counter w (fail_key login) ≡ 0
      → left w (lock_key login) ≡ 0
      → n < g.max
      → (counter (failures n w) (fail_key login) ≡ n) × (left (failures n w) (lock_key login) ≡ 0)
  unfolding failures
  failures_count zero w c l h = (c, l)
  failures_count (suc n) w c l h =
      let (c', l') = failures_count n w c l (omega arith) in
      let (a, c'', l'') = failure_counts (failures n w) (omega arith) in (omega arith, omega arith)

  -- On a Redis that answers as documented, with lengths of the window and of the lock that are more
  -- than 0 and at most a thousand million seconds, and a limit within 64 bits: from a login with no
  -- failure counted and no lock, and while no time passes, the failure after `n` others, `n` below the
  -- limit, answers with the length of the lock and locks the login for
  -- that long if it reaches the limit; if not, it answers 0 and leaves the login unlocked.
  pub locks_at_limit :
      (n : ℕ) (w : W)
      → counter w (fail_key login) ≡ 0
      → left w (lock_key login) ≡ 0
      → n < g.max
      → let locked = if leb g.max (n + 1) then g.lock else 0 in
        let (answer, w') = record_failure redis g login (failures n w) in
        (answer ≡ locked) × ((locked_for redis login w').0 ≡ locked)
  locks_at_limit n w c l h =
      let (count, free) = failures_count n w c l h in
      let v = failures n w in
      let w' = (record_failure redis g login v).1 in
      let few : counter v (fail_key login) < max_counter =
        omega (arith, count, h, configured.max_counts) in
      let locks = λ (m : g.max ≤ counter v (fail_key login) + 1). failure_locks v m few in
      ground (arith, failure_counts v, locks, locked_for-left w')

  -- An administrator's `unlock` frees the login and forgets its failures.
  pub unlock_frees :
      (w : W)
      → let w' = (unlock redis login w).1 in
        ((locked_for redis login w').0 ≡ 0) × (counter w' (fail_key login) ≡ 0)
  unfolding unlock
  unlock_frees w =
      let k = fail_key login in
      let l = lock_key login in
      let w' = (unlock redis login w).1 in
      ground (
        arith,
        locked_for-left w',
        delete_answer (l ∷ k ∷ []) w,
        delete_counter (l ∷ k ∷ []) k w,
        delete_left (l ∷ k ∷ []) l w,
        agree_refl k,
        agree_refl l,
      )

  -- After a success, fewer failures than the limit leave a login without a lock unlocked, however
  -- many failures were counted before the success, while no time passes.
  pub success_restarts :
      (n : ℕ) (w : W)
      → left w (lock_key login) ≡ 0
      → n < g.max
      → (locked_for redis login (failures n (record_success redis login w))).0 ≡ 0
  success_restarts n w l h =
      let k = fail_key login in
      let w' = record_success redis login w in
      let c : counter w' k ≡ 0 =
        unfold record_success in ground (arith, delete_counter (k ∷ []) k w, agree_refl k) in
      let free : left w' (lock_key login) ≡ 0 =
        unfold record_success in
        ground (arith, delete_left (k ∷ []) (lock_key login) w, lock_key-ne-fail_key login login) in
      omega (arith, failures_count n w' c free h, locked_for-left (failures n w'))
