-- ===== src/Api/Login/Locked.antt =====
-- What an attacker who guesses passwords gets.
use superviseur.Prelude.{
  ℕ, ◌+◌, ◌≤◌, ◌<◌, ◌≡◌, refl, ◌∙◌, ap, Bool, true, false, Option, none, some, List, [], ◌∷◌, map,
  String, ltb, arith, length, All, inl, inr, Bool-cases,
}
use superviseur.Prelude.Text.{Text}
use superviseur.Auth.Tokens.{TokenKind}
use superviseur.Auth.Lockout.{LoginGuard, locked_for, record_failure, fail_key, lock_key}
use superviseur.Auth.Lockout.Server.{Redis, Answers, max_counter}
use superviseur.Auth.Lockout.Laws.{IsConfigured, locked_for-left, failure_counts, failure_locks}
use superviseur.Api.Session.{User, Database, record_audit, Answer, refused}
use superviseur.Api.Login.{
  LoginRequest, Settings, Cookie, UserOut, find_login, is_valid, reject, login_found, login,
  locked_text,
}

module _ {W : Type 0} (settings : Settings) (g : LoginGuard) (redis : Redis W)
    (verify : Text → Text → Bool) (create_token : Text → ℕ → TokenKind → ℕ → Text → Text)
    (password_stamp : Text → Text) where
  abbrev valid : Option User → LoginRequest → Bool
  valid u b = is_valid settings g redis verify create_token password_stamp u b

  abbrev pub attempt : LoginRequest → Database → W → Answer UserOut × List Cookie × Database × W
  attempt b db w = login settings g redis verify create_token password_stamp b db w

  -- Login requests one after the other.
  unfoldable pub attempts : List LoginRequest → Database → W → Database × W
  attempts [] db w = (db, w)
  attempts (b ∷ bs) db w = let (answer, cookies, db', w') = attempt b db w in attempts bs db' w'

  -- A request that is answered as a wrong password leaves the users and counts one failure.
  abbrev Rejected :
      LoginRequest → Database → W → Answer UserOut × List Cookie × Database × W → Type 0
  Rejected b db w r =
      let (answer, cookies, db', w') = r in
      (db'.users ≡ db.users) × (w' ≡ (record_failure redis g b.login w).1)

  reject-Rejected :
      (u : Option User) (b : LoginRequest) (db d : Database) (w : W)
      → d.users ≡ db.users
      → Rejected b db w (reject settings g redis verify create_token password_stamp u b d w)
  unfolding reject record_audit
  reject-Rejected u b db d w h = elim (Bool-cases (ltb 0 (record_failure redis g b.login w).0)) [
    | inl locks ↦ rw locks (h, refl)
    | inr counts ↦ rw counts (h, refl)
  ]

  login_found-Rejected :
      (u : Option User) (b : LoginRequest) (db : Database) (w : W)
      → valid u b ≡ false
      → Rejected b db w (login_found settings g redis verify create_token password_stamp u b db w)
  unfolding login_found record_audit
  login_found-Rejected none b db w h = reject-Rejected none b db _ w refl
  login_found-Rejected (some u) b db w h = rw h (reject-Rejected (some u) b db _ w refl)

  -- A guess at a login that is not locked.
  guess-Rejected :
      (b : LoginRequest) (db : Database) (w : W)
      → valid (find_login b.login db.users) b ≡ false
      → (locked_for redis b.login w).0 ≡ 0
      → Rejected b db (locked_for redis b.login w).1 (attempt b db w)
  unfolding login
  guess-Rejected b db w h free =
      rw (ap (ltb 0) free) (login_found-Rejected (find_login b.login db.users) b db _ h)

  module _ (answers : Answers redis) (configured : IsConfigured g) (name : Text) where
    open answers use {counter, left, ttl_counter, ttl_left}

    locked_for_keeps :
        (w : W)
        → let w' = (locked_for redis name w).1 in
          (counter w' (fail_key name) ≡ counter w (fail_key name))
          × (left w' (lock_key name) ≡ left w (lock_key name))
    unfolding locked_for
    locked_for_keeps w =
        let k = lock_key name in
        let (z, e, p) = answers.ttl_answer k w in
        rw (locked_for, e) (ttl_counter k (fail_key name) w, ttl_left k k w)

    -- A request of this login with a password, from an address.
    abbrev pub request : Text × Option String → LoginRequest
    request (password, ip) = record { login = name; password = password; ip = ip }

    -- The password is not that of the login's account.
    abbrev pub IsGuess : Database → Text × Option String → Type 0
    IsGuess db b = valid (find_login name db.users) (request b) ≡ false

    guess-count :
        (b : Text × Option String) (db : Database) (w : W)
        → IsGuess db b
        → left w (lock_key name) ≡ 0
        → let (answer, cookies, db', w') = attempt (request b) db w in
          (db'.users ≡ db.users)
          × ((counter w (fail_key name) + 1 < g.max)
              → (counter w' (fail_key name) ≡ counter w (fail_key name) + 1)
                × (left w' (lock_key name) ≡ 0))
          × (g.max ≤ counter w (fail_key name) + 1
              → counter w (fail_key name) < max_counter
              → left w' (lock_key name) ≡ g.lock)
    guess-count b db w h free =
        let w1 = (locked_for redis name w).1 in
        let (same, failed) =
          guess-Rejected (request b) db w h
            (locked_for-left redis answers g configured name w ∙ free) in
        let (counted, kept) = locked_for_keeps w in
        (
          same,
          (λ few.
              let (zero_answer, more, still) =
                failure_counts redis answers g configured name w1 (omega (arith, few, counted)) in
              (
                ap (λ x. counter x (fail_key name)) failed ∙ more ∙ ap (λ n. n + 1) counted,
                ap (λ x. left x (lock_key name)) failed ∙ still ∙ kept ∙ free,
              )),
          (λ many small.
              let (lock_answer, fresh, locked) =
                failure_locks redis answers g configured name w1 (omega (arith, many, counted))
                  (omega (arith, small, counted)) in
              ap (λ x. left x (lock_key name)) failed ∙ locked),
        )

    IsGuess-users :
        (db after : Database) (bs : List (Text × Option String))
        → after.users ≡ db.users
        → All (IsGuess db) bs
        → All (IsGuess after) bs
    IsGuess-users db after [] e h = tt
    IsGuess-users db after (b ∷ bs) e h = (
      ap (λ us. valid (find_login name us) (request b)) e ∙ h.0,
      IsGuess-users db after bs e (h.1),
    )

    -- The guesses up to the limit lock the login.
    guesses_lock :
        (bs : List (Text × Option String)) (db : Database) (w : W)
        → 0 < length bs
        → counter w (fail_key name) + length bs ≡ g.max
        → left w (lock_key name) ≡ 0
        → All (IsGuess db) bs
        → left (attempts (map request bs) db w).1 (lock_key name) ≡ g.lock
    unfolding attempts
    guesses_lock [] db w some_bs n free h = absurd (omega arith)
    guesses_lock (b ∷ []) db w some_bs n free h =
        let (same, counts, locks) = guess-count b db w h.0 free in
        locks (omega (arith, n)) (omega (arith, n, configured.max_counts))
    guesses_lock (b ∷ c ∷ bs) db w some_bs n free h =
        let (same, counts, locks) = guess-count b db w h.0 free in
        let (more, still) = counts (omega (arith, n)) in
        guesses_lock (c ∷ bs) _ _ (omega arith) (omega (arith, n, more)) still
          (IsGuess-users db (attempt (request b) db w).2 (c ∷ bs) same (h.1))

    -- On a Redis that answers as documented, with lengths of the window and of the lock that are more
    -- than 0 and at most a thousand million seconds, and a limit that is more than 0 and within 64
    -- bits: as many wrong passwords for a login as the guard allows, tried one after the other from no
    -- failure counted and while no time passes, lock it: the next request for the login is refused
    -- with status 429 and sets no cookie, even with the right password.
    pub guessing_locks :
        (bs : List (Text × Option String)) (b : Text × Option String) (db : Database) (w : W)
        → 0 < g.max
        → length bs ≡ g.max
        → counter w (fail_key name) ≡ 0
        → left w (lock_key name) ≡ 0
        → All (IsGuess db) bs
        → let (db', w') = attempts (map request bs) db w in
          let (answer, cookies, after, w'') = attempt (request b) db' w' in
          (answer ≡ refused 429 locked_text) × (cookies ≡ [])
    unfolding login
    guessing_locks bs b db w limit n none_yet free h =
        let (db', w') = attempts (map request bs) db w in
        let locked : left w' (lock_key name) ≡ g.lock =
          guesses_lock bs db w (omega (arith, n)) (omega (arith, n, none_yet)) free h in
        let waits : ltb 0 (locked_for redis name w').0 ≡ true = ground (
          arith,
          locked_for-left redis answers g configured name w',
          locked,
          configured.lock_expiry.positive,
        ) in
        rw waits (refl, refl)
