-- ===== src/Api/Users.antt =====
-- The administration of users (backend/app/api/routes/users.py). One request is one step; the
-- database answers, and Redis is that of the login guard.
pub mod Admins
use superviseur.Prelude.{
  ℕ, Bool, true, false, not, ◌&&◌, ◌||◌, Option, none, some, List, [], ◌∷◌, ◌++◌, String, ltb, any,
  filter, length, is_some, or_else, ◌==◌, nat_eq, string_eq, if◌then◌else◌,
}
use superviseur.Prelude.Text.{Text, text_eq}
use superviseur.Models.{RoleName, role_value}
use superviseur.Auth.Lockout.{locked_for, unlock}
use superviseur.Auth.Lockout.Server.{Redis}
use superviseur.Api.Session.{
  User, Detail, text, flag, AuditLog, Database, record_audit, Answer, done, refused, failed,
  find_user,
}
use superviseur.Api.Deps.{CurrentUser}

pub record UserCreate : Type 0 where
  pub login : Text
  pub password : Text
  pub role : String

pub record UserUpdate : Type 0 where
  pub role : Option String
  pub active : Option Bool
  pub password : Option Text

pub record UserAdminOut : Type 0 where
  pub id : ℕ
  pub login : Text
  pub role : String
  pub active : Bool
  pub locked : Bool

abbrev pub is_admin : String → Bool
is_admin role = role == role_value RoleName.admin

abbrev pub is_active_admin : User → Bool
is_active_admin u = is_admin u.role && u.active

-- `_other_active_admins`
abbrev pub other_active_admins : ℕ → List User → ℕ
other_active_admins id us = length (filter (λ (u : User). is_active_admin u && not (u.id == id)) us)

-- Assignments to the row of a user.
unfoldable pub assign : ℕ → (User → User) → List User → List User
assign id f [] = []
assign id f (u ∷ us) = if u.id == id then f u ∷ us else u ∷ assign id f us

-- `session.delete`, for the row of a user
unfoldable pub remove : ℕ → List User → List User
remove id [] = []
remove id (u ∷ us) = if u.id == id then us else u ∷ remove id us

-- `ON DELETE SET NULL` of the journal.
abbrev forget : ℕ → List AuditLog → List AuditLog
forget id [] = []
forget id (e ∷ es) =
    let rest = forget id es in
    elim e.user_id [
      | none ↦ e ∷ rest
      | some j ↦ (if j == id then record e { user_id = none } else e) ∷ rest
    ]

-- What a request knows of its caller: the administrator and the address of the client.
pub record Caller : Type 0 where
  pub admin : CurrentUser
  pub ip : Option String

abbrev entry : Caller → String → User → AuditLog
entry c action u = record {
  user_id = some c.admin.id;
  action = action;
  target = some u.login;
  before = none;
  after = none;
  ip = c.ip;
}

-- `hash` is `hash_password`, a call of the argon2 package.
module _ (hash : Text → Text) where
  -- `create_user`; the id is one that the database gives.
  unfoldable pub create_user : Caller → ℕ → UserCreate → Database → Answer UserAdminOut × Database
  create_user c id body db =
      let user : User = record {
        id = id;
        login = body.login;
        password_hash = hash body.password;
        role = body.role;
        active = true;
      } in
      let journal = record (entry c "user.create" user) {
        after = some (("role", text body.role) ∷ []);
      } in
      if not (any (λ r. r == body.role) db.roles)
      then (refused 422 "rôle inconnu", db)
      else if any (λ u. u.login == body.login) db.users
      then (refused 409 "ce login existe déjà", db)
      else (
        done (record {
          id = id;
          login = body.login;
          role = body.role;
          active = true;
          locked = false;
        }),
        record_audit journal (record db { users = db.users ++ user ∷ [] }),
      )

  -- The changes to the row of a user.
  abbrev pub changed : UserUpdate → User → User
  changed body u = record u {
    role = or_else body.role u.role;
    active = or_else body.active u.active;
    password_hash = elim body.password [ none ↦ u.password_hash | some p ↦ hash p ];
  }

  abbrev journal_of : Caller → UserUpdate → User → AuditLog
  journal_of c body u =
      let base =
        ("role", text (or_else body.role u.role))
        ∷ ("active", flag (or_else body.active u.active))
        ∷ [] in
      record (entry c "user.update" u) {
        before = some (("role", text u.role) ∷ ("active", flag u.active) ∷ []);
        after =
            some (
              if is_some body.password then base ++ ("password_changed", flag true) ∷ [] else base);
      }

  abbrev pub losing_admin : UserUpdate → User → Bool
  losing_admin body u =
      is_admin u.role
      && (u.active
          && (not (is_admin (or_else body.role u.role)) || not (or_else body.active u.active)))

  -- The test that refuses an update, if one does.
  unfoldable pub check_update : Caller → UserUpdate → User → Database → Option (ℕ × String)
  check_update c body u db =
      let losing = losing_admin body u in
      if losing && u.id == c.admin.id
      then some (409, "vous ne pouvez pas retirer vos propres droits d'administrateur")
      else if losing && other_active_admins u.id db.users == 0
      then some (409, "il doit rester un administrateur actif")
      else if u.id == c.admin.id && not (or_else body.active u.active)
      then some (409, "vous ne pouvez pas désactiver votre compte")
      else if is_some body.role && not (any (λ r. r == or_else body.role u.role) db.roles)
      then some (422, "rôle inconnu")
      else none

  module _ {W : Type 0} (redis : Redis W) where
    update_checked :
        Option (ℕ × String)
        → Caller
        → UserUpdate
        → User
        → Database
        → W
        → Answer UserAdminOut × Database × W
    update_checked (some (code, detail)) c body u db w = (refused code detail, db, w)
    update_checked none c body u db w =
        let (locked, w') = locked_for redis u.login w in
        (
          done (record {
            id = u.id;
            login = u.login;
            role = or_else body.role u.role;
            active = or_else body.active u.active;
            locked = ltb 0 locked;
          }),
          record_audit (journal_of c body u)
              (record db { users = assign u.id (changed body) db.users }),
          w',
        )

    -- `update_user`
    unfoldable pub update_user :
        Caller → ℕ → UserUpdate → Database → W → Answer UserAdminOut × Database × W
    unfolding update_checked
    update_user c id body db w = elim (find_user id db.users) [
      | none ↦ (refused 404 "utilisateur introuvable", db, w)
      | some u ↦ update_checked (check_update c body u db) c body u db w
    ]

-- `unlock_user`
unfoldable pub unlock_user :
    {W : Type 0} → Redis W → Caller → ℕ → Database → W → Answer UserAdminOut × Database × W
unlock_user redis c id db w = elim (find_user id db.users) [
  | none ↦ (refused 404 "utilisateur introuvable", db, w)
  | some u ↦
      let (was_locked, w') = unlock redis u.login w in
      elim was_locked [
        | none ↦ (failed, db, w')
        | some b ↦ (
          done (record {
            id = u.id;
            login = u.login;
            role = u.role;
            active = u.active;
            locked = false;
          }),
          record_audit
              (record (entry c "user.unlock" u) { after = some (("was_locked", flag b) ∷ []) }) db,
          w',
        )
      ]
]

-- The test that refuses to delete a user, if one does.
unfoldable pub check_delete : Caller → User → Database → Option (ℕ × String)
check_delete c u db =
    if u.id == c.admin.id
    then some (409, "vous ne pouvez pas supprimer votre compte")
    else if is_active_admin u && other_active_admins u.id db.users == 0
    then some (409, "il doit rester un administrateur actif")
    else none

delete_checked : Option (ℕ × String) → Caller → User → Database → Answer (Unit {0}) × Database
delete_checked (some (code, detail)) c u db = (refused code detail, db)
delete_checked none c u db =
    let journal = record (entry c "user.delete" u) {
      before = some (("role", text u.role) ∷ ("active", flag u.active) ∷ []);
    } in
    let journaled = record_audit journal db in
    (
      done tt,
      record journaled {
        users = remove u.id db.users;
        audit_log = forget u.id journaled.audit_log;
      },
    )

-- `delete_user`
unfoldable pub delete_user : Caller → ℕ → Database → Answer (Unit {0}) × Database
unfolding delete_checked
delete_user c id db = elim (find_user id db.users) [
  | none ↦ (refused 404 "utilisateur introuvable", db)
  | some u ↦ delete_checked (check_delete c u db) c u db
]
