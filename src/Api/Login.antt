-- ===== src/Api/Login.antt =====
-- The login of a user (backend/app/api/routes/auth.py), with its journal and its cookies.
pub mod Locked
use superviseur.Prelude.{
  ℕ, ◌*◌, Bool, true, false, ◌&&◌, Option, none, some, List, [], ◌∷◌, String, ltb, length, ◌==◌,
  if◌then◌else◌,
}
use superviseur.Prelude.Text.{Text, text_eq}
use superviseur.Auth.Lockout.{LoginGuard, locked_for, record_failure, record_success}
use superviseur.Auth.Lockout.Server.{Redis}
use superviseur.Auth.Tokens.{TokenKind, access, refresh}
use superviseur.Api.Session.{
  User, Detail, text, count, AuditLog, Database, record_audit, Answer, done, refused, failed,
}

pub record LoginRequest : Type 0 where
  pub login : Text
  pub password : Text
  pub ip : Option String

pub record UserOut : Type 0 where
  pub id : ℕ
  pub login : Text
  pub role : String

pub record Cookie : Type 0 where
  pub name : String
  pub value : Text
  pub max_age : ℕ
  pub path : String
  pub secure : Bool

pub record Settings : Type 0 where
  pub jwt_secret : Option Text
  pub access_token_minutes : ℕ
  pub refresh_token_days : ℕ
  pub cookie_secure : Bool

-- `jwt_secret` (backend/app/api/deps.py); `none` is a `RuntimeError`.
unfoldable pub jwt_secret : Settings → Option Text
jwt_secret s = elim s.jwt_secret [
  | none ↦ none
  | some secret ↦ if ltb (length secret) 32 then none else some secret
]

-- The user with the login, which is unique.
unfoldable pub find_login : Text → List User → Option User
find_login login [] = none
find_login login (u ∷ us) = if u.login == login then some u else find_login login us

abbrev pub locked_text : String
locked_text = "compte temporairement verrouillé : trop de tentatives, réessayez plus tard"

abbrev user_id : Option User → Option ℕ
user_id none = none
user_id (some u) = some u.id

abbrev pub entry_of : LoginRequest → String → Option User → List (String × Detail) → AuditLog
entry_of body action u after = record {
  user_id = user_id u;
  action = action;
  target = some body.login;
  before = none;
  after = some after;
  ip = body.ip;
}

-- A response: how the request ends, the cookies it sets, and what is committed.
abbrev pub Response : Type 0 → Type 0
Response W = Answer UserOut × List Cookie × Database × W

-- `verify_password`, `create_token` without its clock, and `password_stamp` are parameters.
module _ {W : Type 0} (settings : Settings) (g : LoginGuard) (redis : Redis W)
    (verify : Text → Text → Bool) (create_token : Text → ℕ → TokenKind → ℕ → Text → Text)
    (password_stamp : Text → Text) where
  -- `_set_cookies`
  unfoldable pub set_cookies : ℕ → Text → Option (List Cookie)
  set_cookies id stamp = elim (jwt_secret settings) [
    | none ↦ none
    | some secret ↦
        let access_ttl = settings.access_token_minutes * 60 in
        let refresh_ttl = settings.refresh_token_days * 86400 in
        some (
          record {
            name = "access_token";
            value = create_token secret id access access_ttl stamp;
            max_age = access_ttl;
            path = "/api";
            secure = settings.cookie_secure;
          }
          ∷ record {
            name = "refresh_token";
            value = create_token secret id refresh refresh_ttl stamp;
            max_age = refresh_ttl;
            path = "/api/v1/auth";
            secure = settings.cookie_secure;
          }
          ∷ [])
  ]

  -- The password is verified for an active account only.
  abbrev pub is_valid : Option User → LoginRequest → Bool
  is_valid none body = false
  is_valid (some u) body = u.active && verify u.password_hash body.password

  -- A login that fails counts, and the failure that locks the account is journaled too.
  unfoldable pub reject : Option User → LoginRequest → Database → W → Response W
  reject u body db w =
      let (lock, w') = record_failure redis g body.login w in
      let lockout =
        entry_of body "auth.lockout" u
          (("failures", count g.max) ∷ ("lock_s", count g.lock) ∷ []) in
      (
        refused 401 "identifiants invalides",
        [],
        if ltb 0 lock then record_audit lockout db else db,
        w',
      )

  -- A login that succeeds.
  unfoldable pub accept : User → LoginRequest → Database → W → Response W
  accept u body db w =
      let w' = record_success redis body.login w in
      elim (set_cookies u.id (password_stamp u.password_hash)) [
        | none ↦ (failed, [], db, w')
        | some cookies ↦
            (done (record { id = u.id; login = u.login; role = u.role }), cookies, db, w')
      ]

  unfoldable pub login_found : Option User → LoginRequest → Database → W → Response W
  login_found none body db w =
      reject none body
        (record_audit (entry_of body "auth.login" none (("result", text "échec") ∷ [])) db) w
  login_found (some u) body db w =
      let valid = is_valid (some u) body in
      let result = if valid then "ok" else "échec" in
      let journaled =
        record_audit (entry_of body "auth.login" (some u) (("result", text result) ∷ [])) db in
      if valid then accept u body journaled w else reject (some u) body journaled w

  -- `login`; the header `Retry-After` is the time that is left, and is not kept.
  unfoldable pub login : LoginRequest → Database → W → Response W
  login body db w =
      let (locked, w') = locked_for redis body.login w in
      let tried = login_found (find_login body.login db.users) body db w' in
      let journal = entry_of body "auth.login" none (("result", text "verrouillé") ∷ []) in
      if ltb 0 locked then (refused 429 locked_text, [], record_audit journal db, w') else tried
