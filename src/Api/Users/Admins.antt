-- ===== src/Api/Users/Admins.antt =====
-- An active administrator always remains.
pub mod Counts
use superviseur.Prelude.{
  ℕ, zero, suc, ◌+◌, ◌≤◌, ◌<◌, ◌≡◌, refl, sym, ◌∙◌, ap, Bool, true, false, not, ◌&&◌, ◌||◌, Option,
  none, some, List, [], ◌∷◌, ◌++◌, String, any, length, filter, or_else, arith, ◌==◌, nat_eq,
  string_eq, inl, inr, Bool-cases, Option-cases, if◌then◌else◌, length-append,
}
use superviseur.Prelude.Text.{Text, text_eq}
use superviseur.Auth.Lockout.{unlock}
use superviseur.Auth.Lockout.Server.{Redis}
use superviseur.Api.Session.{User, Database, record_audit, Answer, find_user}
use Counts.{
  active_admins, active_admins-assign, active_admins-remove, active_admins-append, others-assign,
  others-remove, find_user_again,
}
use superviseur.Api.Users.{
  Caller, UserCreate, UserUpdate, is_admin, is_active_admin, other_active_admins, assign, remove,
  create_user, changed, losing_admin, check_update, update_checked, update_user, unlock_user,
  check_delete, delete_checked, delete_user,
}

module _ (hash : Text → Text) where
  -- An update that loses no administrator keeps the user one.
  changed-admin :
      (body : UserUpdate) (u : User)
      → losing_admin hash body u ≡ false
      → is_active_admin u ≡ true
      → is_active_admin (changed hash body u) ≡ true
  changed-admin body u l a = ground arith

  check_update-others :
      (c : Caller) (body : UserUpdate) (u : User) (db : Database)
      → check_update hash c body u db ≡ none
      → losing_admin hash body u ≡ true
      → 0 < other_active_admins u.id db.users
  unfolding check_update
  check_update-others c body u db h l = ground (arith, h, l)

  create_user-keeps :
      (c : Caller) (id : ℕ) (body : UserCreate) (db : Database)
      → active_admins db.users ≤ active_admins (create_user hash c id body db).1.users
  unfolding create_user record_audit
  create_user-keeps c id body db = elim (Bool-cases (not (any (λ r. r == body.role) db.roles))) [
    | inl unknown ↦ rw unknown (omega arith)
    | inr known ↦ elim (Bool-cases (any (λ u. u.login == body.login) db.users)) [
      | inl taken ↦ rw (known, taken) (omega arith)
      | inr fresh ↦ rw (known, fresh) (active_admins-append db.users _)
    ]
  ]

  update_checked-keeps :
      {W : Type 0} (redis : Redis W) (o : Option (ℕ × String)) (c : Caller) (body : UserUpdate)
      (u : User) (db : Database) (w : W)
      → check_update hash c body u db ≡ o
      → find_user u.id db.users ≡ some u
      → 0 < active_admins db.users
      → 0 < active_admins (update_checked hash redis o c body u db w).1.users
  unfolding update_checked record_audit
  update_checked-keeps redis (some r) c body u db w e f h = h
  update_checked-keeps redis none c body u db w e f h =
      elim (Bool-cases (losing_admin hash body u)) [
        | inl loses ↦
            let rest = check_update-others c body u db e loses in
            omega (arith, rest, others-assign u.id (changed hash body) db.users)
        | inr keeps ↦ omega (
          arith,
          h,
          active_admins-assign u.id (changed hash body) db.users u f (changed-admin body u keeps),
        )
      ]

delete_checked-keeps :
    (o : Option (ℕ × String)) (c : Caller) (u : User) (db : Database)
    → check_delete c u db ≡ o
    → find_user u.id db.users ≡ some u
    → 0 < active_admins db.users
    → 0 < active_admins (delete_checked o c u db).1.users
unfolding delete_checked record_audit check_delete
delete_checked-keeps (some r) c u db e f h = h
delete_checked-keeps none c u db e f h = elim (Bool-cases (is_active_admin u)) [
  | inl admin ↦
      let rest : 0 < other_active_admins u.id db.users = ground (arith, e, admin) in
      omega (arith, rest, others-remove u.id db.users)
  | inr other ↦ omega (arith, h, active_admins-remove u.id db.users u f other)
]

-- The requests of this file that change the database.
pub data Request : Type 0 where
  create : ℕ → UserCreate → Request
  update : ℕ → UserUpdate → Request
  release delete : ℕ → Request

module _ {W : Type 0} (hash : Text → Text) (redis : Redis W) where
  unfoldable pub handle : Caller → Request → Database → W → Database × W
  handle c (create id body) db w = ((create_user hash c id body db).1, w)
  handle c (update id body) db w =
      let (answer, db', w') = update_user hash redis c id body db w in (db', w')
  handle c (release id) db w = let (answer, db', w') = unlock_user redis c id db w in (db', w')
  handle c (delete id) db w = ((delete_user c id db).1, w)

  -- Requests, each with its caller, one after the other.
  unfoldable pub handle_all : List (Caller × Request) → Database → W → Database × W
  handle_all [] db w = (db, w)
  handle_all ((c, r) ∷ rs) db w = let (db', w') = handle c r db w in handle_all rs db' w'

  update_user-keeps :
      (c : Caller) (id : ℕ) (body : UserUpdate) (db : Database) (w : W)
      → 0 < active_admins db.users
      → 0 < active_admins (update_user hash redis c id body db w).1.users
  unfolding update_user
  update_user-keeps c id body db w h = elim (Option-cases (find_user id db.users)) [
    | inl missing ↦ rw (update_user, missing) h
    | inr (u, found) ↦
        rw (update_user, found)
          (update_checked-keeps hash redis (check_update hash c body u db) c body u db w refl
            (find_user_again id db.users u found) h)
  ]

  unlock_user-keeps :
      (c : Caller) (id : ℕ) (db : Database) (w : W)
      → (unlock_user redis c id db w).1.users ≡ db.users
  unfolding unlock_user record_audit
  unlock_user-keeps c id db w = elim (Option-cases (find_user id db.users)) [
    | inl missing ↦ rw (unlock_user, missing) refl
    | inr (u, found) ↦ elim (Option-cases (unlock redis u.login w).0) [
      | inl down ↦ rw (unlock_user, found, down) refl
      | inr (b, up) ↦ rw (unlock_user, found, up) refl
    ]
  ]

  delete_user-keeps :
      (c : Caller) (id : ℕ) (db : Database)
      → 0 < active_admins db.users
      → 0 < active_admins (delete_user c id db).1.users
  unfolding delete_user
  delete_user-keeps c id db h = elim (Option-cases (find_user id db.users)) [
    | inl missing ↦ rw (delete_user, missing) h
    | inr (u, found) ↦
        rw (delete_user, found)
          (delete_checked-keeps (check_delete c u db) c u db refl
            (find_user_again id db.users u found) h)
  ]

  handle-keeps :
      (c : Caller) (r : Request) (db : Database) (w : W)
      → 0 < active_admins db.users
      → 0 < active_admins (handle c r db w).0.users
  unfolding handle
  handle-keeps c (create id body) db w h = omega (arith, h, create_user-keeps hash c id body db)
  handle-keeps c (update id body) db w h = update_user-keeps c id body db w h
  handle-keeps c (release id) db w h =
      omega (arith, h, ap active_admins (unlock_user-keeps c id db w))
  handle-keeps c (delete id) db w h = delete_user-keeps c id db h

  -- Whatever users are created, changed, unlocked and deleted one request after the other, and by
  -- whomever, an active administrator remains, if there was one.
  pub admin_remains :
      (rs : List (Caller × Request)) (db : Database) (w : W)
      → 0 < active_admins db.users
      → 0 < active_admins (handle_all rs db w).0.users
  unfolding handle_all
  admin_remains [] db w h = h
  admin_remains ((c, r) ∷ rs) db w h = admin_remains rs _ _ (handle-keeps c r db w h)
