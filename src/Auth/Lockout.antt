-- ===== src/Auth/Lockout.antt =====
-- The lockout of logins (backend/app/auth/lockout.py), over a Redis that the caller supplies.
pub mod Server
pub mod Laws
use superviseur.Prelude.{
  ℕ, ◌+◌, Bool, true, false, Option, none, some, List, [], ◌∷◌, ◌++◌, map, ltb, ◌==◌, nat_eq,
  if◌then◌else◌,
}
use superviseur.Prelude.Int.{ℤ, pos_part}
use superviseur.Prelude.Text.{Text, codes, lower, strip}
use Server.{Redis}

-- `login.strip().lower()`
abbrev pub normal_login : Text → Text
normal_login login = map lower (strip login)

-- `_fail_key`
unfoldable pub fail_key : Text → Text
fail_key login = codes "auth.fail." ++ normal_login login

-- `_lock_key`
unfoldable pub lock_key : Text → Text
lock_key login = codes "auth.lock." ++ normal_login login

-- The fields of `LoginGuard` beside its Redis.
pub record LoginGuard : Type 0 where
  pub max : ℕ
  pub window : ℕ
  pub lock : ℕ

module _ {W : Type 0} (redis : Redis W) where
  open redis use {incr, expire, set_ex, delete, ttl}

  -- `locked_for`; `none` is a Redis out of reach.
  unfoldable pub locked_for : Text → W → ℕ × W
  locked_for login w =
      let (remaining, w') = ttl (lock_key login) w in
      elim remaining [ none ↦ (0, w') | some seconds ↦ (pos_part seconds, w') ]

  -- The end of `record_failure`, from `redis.set` on.
  pub lock_login : LoginGuard → Text → W → ℕ × W
  lock_login g login w =
      let (done, w') = set_ex (lock_key login) g.lock w in
      let (removed, w'') = delete (fail_key login ∷ []) w' in
      if done then elim removed [ none ↦ (0, w'') | some n ↦ (g.lock, w'') ] else (0, w')

  -- `record_failure` once the counter is known.
  count_failure : LoginGuard → Text → ℕ → W → ℕ × W
  count_failure g login count w =
      let (kept, w') = if count == 1 then expire (fail_key login) g.window w else (true, w) in
      if kept then if ltb count g.max then (0, w') else lock_login g login w' else (0, w')

  -- `record_failure`
  unfoldable pub record_failure : LoginGuard → Text → W → ℕ × W
  unfolding count_failure
  record_failure g login w =
      let (count, w') = incr (fail_key login) w in
      elim count [ none ↦ (0, w') | some n ↦ count_failure g login n w' ]

  -- `record_success`
  unfoldable pub record_success : Text → W → W
  record_success login w = (delete (fail_key login ∷ []) w).1

  -- `unlock`; `none` is an exception of Redis, which this method does not catch.
  unfoldable pub unlock : Text → W → Option Bool × W
  unlock login w =
      let (removed, w') = delete (lock_key login ∷ fail_key login ∷ []) w in
      elim removed [ none ↦ (none, w') | some n ↦ (some (ltb 0 n), w') ]
