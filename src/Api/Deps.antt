-- ===== src/Api/Deps.antt =====
-- Who a request comes from, and the roles that handlers ask for (backend/app/api/deps.py).
use superviseur.Prelude.{ℕ, Option, none, some, String, ◌==◌, nat_eq, if◌then◌else◌}
use superviseur.Prelude.Text.{Text, text_eq}
use superviseur.Models.{RoleName}
use superviseur.Auth.Permissions.{has_role}
use superviseur.Auth.Tokens.{Payload, decode_token, access}
use superviseur.Api.Session.{User, Database, find_user, Answer, done, refused}

pub record CurrentUser : Type 0 where
  pub id : ℕ
  pub login : Text
  pub role : String
  pub stamp : Text

-- `password_stamp` is a parameter, a call of the library's hash.
module _ (password_stamp : Text → Text) where
  -- The user of a row, if the token was given out for the password it has now.
  load_found : User → Option Text → Option CurrentUser
  load_found u stamp =
      let current = password_stamp u.password_hash in
      let user : CurrentUser = record {
        id = u.id;
        login = u.login;
        role = u.role;
        stamp = current;
      } in
      elim stamp [ none ↦ some user | some given ↦ if given == current then some user else none ]

  -- `load_user`
  unfoldable pub load_user : Database → ℕ → Option Text → Option CurrentUser
  unfolding load_found
  load_user db id stamp = elim (find_user id db.users) [
    | none ↦ none
    | some u ↦ if u.active then load_found u stamp else none
  ]

  -- `current_user`, where `decode` is `jwt.decode` with the secret
  unfoldable pub current_user :
      (Text → Option Payload) → Option Text → Database → Answer CurrentUser
  current_user decode cookie db =
      let unknown : Answer CurrentUser = refused 401 "authentification requise" in
      elim (decode_token decode cookie access) [
        | none ↦ unknown
        | some claims ↦ elim (load_user db claims.user_id (some claims.stamp)) [
          | none ↦ unknown
          | some user ↦ done user
        ]
      ]

-- `require_role`
unfoldable pub require_role : RoleName → CurrentUser → Answer CurrentUser
require_role minimum user =
    if has_role user.role minimum then done user else refused 403 "droits insuffisants"
