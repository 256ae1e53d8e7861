-- ===== src/Tests/Requests.antt =====
-- Requests to the API on concrete inputs.
use superviseur.Prelude.{
  ◌<◌, ◌≡◌, ◌↔◌, refl, true, Option, none, some, List, [], ◌∷◌, String, map, arith,
}
use superviseur.Prelude.Int.{pos}
use superviseur.Prelude.Float.{of_ℕ}
use superviseur.Prelude.Text.{Text, codes, same_text, text_eq}
use superviseur.Auth.Lockout.{LoginGuard}
use superviseur.Collector.Writer.{WriteTarget, check_target}
use superviseur.Tests.Memory.{memory_redis, memory_answers, fresh}
use superviseur.Api.Session.{Database, refused}
use superviseur.Api.Users.{Caller, UserUpdate}
use superviseur.Api.Users.Admins.{Request, update, delete, handle_all, admin_remains}
use superviseur.Api.Users.Admins.Counts.{active_admins}
use superviseur.Api.Login.{Settings, locked_text, find_login}
use superviseur.Auth.Lockout.Server.{max_counter, max_expiry}
use superviseur.Auth.Lockout.Laws.{IsConfigured}
use superviseur.Api.Login.Locked.{attempt, attempts, request, guessing_locks}
use superviseur.Api.Write.{Point, WriteRequest, check_point}
use superviseur.Api.Write.Agrees.{check_point-check_target}

abbrev two_admins : Database
two_admins = record {
  roles = "viewer" ∷ "operator" ∷ "engineer" ∷ "admin" ∷ [];
  users =
      record {
        id = 1;
        login = codes "anna";
        password_hash = codes "secret-a";
        role = "admin";
        active = true;
      }
      ∷ record {
        id = 2;
        login = codes "ben";
        password_hash = codes "secret-b";
        role = "admin";
        active = true;
      }
      ∷ [];
  audit_log = [];
}

abbrev by_anna : Caller
by_anna = record {
  admin = record { id = 1; login = codes "anna"; role = "admin"; stamp = [] };
  ip = none;
}

abbrev demote : UserUpdate
demote = record { role = some "viewer"; active = none; password = none }

-- The second administrator loses the role, and the first tries to lose it and to go.
abbrev three_requests : List (Caller × Request)
three_requests = (by_anna, update 2 demote) ∷ (by_anna, update 1 demote) ∷ (by_anna, delete 1) ∷ []

admin_remains_example :
    0 < active_admins (handle_all (λ p. p) memory_redis three_requests two_admins fresh).0.users
admin_remains_example =
    admin_remains (λ p. p) memory_redis three_requests two_admins fresh (omega arith)

abbrev two_tries : LoginGuard
two_tries = record { max = 2; window = 900; lock = 900 }

abbrev settings : Settings
settings = record {
  jwt_secret = none;
  access_token_minutes = 15;
  refresh_token_days = 7;
  cookie_secure = true;
}

abbrev guesses : List (Text × Option String)
guesses = (codes "1234", none) ∷ (codes "azerty", none) ∷ []

abbrev two_tries-IsConfigured : IsConfigured two_tries
unfolding max_counter max_expiry
two_tries-IsConfigured = record {
  window_expiry = record { positive = omega arith; bounded = omega arith };
  lock_expiry = record { positive = omega arith; bounded = omega arith };
  max_counts = omega arith;
}

guessing_locks_example :
    let (db', w') =
      attempts settings two_tries memory_redis same_text
        (λ s u k t p. [])
        (λ h. h)
        (map
          (request settings two_tries memory_redis same_text
            (λ s u k t p. [])
            (λ h. h)
            memory_answers
            two_tries-IsConfigured
            (codes "anna"))
          guesses)
        two_admins
        fresh in
    let (answer, cookies, after, w'') =
      attempt settings two_tries memory_redis same_text
        (λ s u k t p. [])
        (λ h. h)
        (request settings two_tries memory_redis same_text
          (λ s u k t p. [])
          (λ h. h)
          memory_answers
          two_tries-IsConfigured
          (codes "anna")
          (codes "secret-a", none))
        db'
        w' in
    (answer ≡ refused 429 locked_text) × (cookies ≡ [])
unfolding find_login
guessing_locks_example =
    guessing_locks settings two_tries memory_redis same_text (λ s u k t p. []) (λ h. h)
      memory_answers two_tries-IsConfigured (codes "anna") guesses (codes "secret-a", none)
      two_admins fresh (omega arith) refl refl refl (refl, (refl, tt))

abbrev valve_row : Point
valve_row = record {
  path = none;
  writable = true;
  write_min = some (of_ℕ 0);
  write_max = some (of_ℕ 100);
}

abbrev valve_target : WriteTarget
valve_target = record {
  ref = record {
    point_id = 1;
    device_instance = 100;
    address = "10.0.0.5";
    object_type = "analog-output";
    object_instance = 3;
  };
  path = none;
  writable = true;
  write_min = some (of_ℕ 0);
  write_max = some (of_ℕ 100);
  last_value = none;
}

abbrev open_valve : WriteRequest
open_valve = record { point_id = 1; value = some (of_ℕ 120); priority = pos 8 }

check_point-check_target_example :
    (check_point (some valve_row) open_valve ≡ none)
    ↔ (check_target (some valve_target) (some (of_ℕ 120)) (pos 8) ≡ none)
check_point-check_target_example =
    check_point-check_target valve_row valve_target open_valve refl refl refl (omega arith)
      (omega arith)
