-- ===== src/Api/Session.antt =====
-- The rows of the database that the routes on accounts use (backend/app/db/models.py), and the
-- journal of what was done (backend/app/api/audit.py). A user's role_id is written as the name of
-- the role, which is unique.
use superviseur.Prelude.{
  ◌≡◌, ◌⊎◌, refl, inl, inr, ℕ, Bool, Option, none, some, List, [], ◌∷◌, ◌++◌, ◌==◌, nat_eq,
  if◌then◌else◌,
}
use superviseur.Prelude.Dict.{Dict}
use superviseur.Prelude.Text.{Text}
use superviseur.Prelude.{String}

pub record User : Type 0 where
  pub id : ℕ
  pub login : Text
  pub password_hash : Text
  pub role : String
  pub active : Bool

-- A value in the columns `before` and `after`.
pub data Detail : Type 0 where
  text : String → Detail
  flag : Bool → Detail
  count : ℕ → Detail
  null : Detail

pub record AuditLog : Type 0 where
  pub user_id : Option ℕ
  pub action : String
  pub target : Option Text
  pub before : Option (Dict String Detail)
  pub after : Option (Dict String Detail)
  pub ip : Option String

-- The tables `role`, `user` and `audit_log`.
pub record Database : Type 0 where
  pub roles : List String
  pub users : List User
  pub audit_log : List AuditLog

-- `record_audit`; a handler that raises before its commit returns the database it was given.
unfoldable pub record_audit : AuditLog → Database → Database
record_audit entry db = record db { audit_log = db.audit_log ++ entry ∷ [] }

-- How a request ends: with an answer, with an `HTTPException` of this status and text, or with
-- another exception.
pub data Answer (A : Type 0) : Type 0 where
  done : A → Answer A
  refused : ℕ → String → Answer A
  failed : Answer A

-- The user with the id, which is unique.
unfoldable pub find_user : ℕ → List User → Option User
find_user id [] = none
find_user id (u ∷ us) = if u.id == id then some u else find_user id us

pub Answer-cases :
    {A : Type 0} (a : Answer A)
    → ((x : A) × (a ≡ done x)) ⊎ ((n : ℕ) × (s : String) × (a ≡ refused n s)) ⊎ (a ≡ failed)
Answer-cases (done x) = inl (x, refl)
Answer-cases (refused n s) = inr (inl (n, s, refl))
Answer-cases failed = inr (inr refl)
