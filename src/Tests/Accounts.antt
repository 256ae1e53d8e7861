-- ===== src/Tests/Accounts.antt =====
-- Roles and the login guard on concrete inputs.
use superviseur.Prelude.{◌≡◌, refl, arith}
use superviseur.Prelude.Text.{Text, codes, text_eq}
use superviseur.Auth.Lockout.{LoginGuard, locked_for, record_failure}
use superviseur.Auth.Lockout.Server.{max_counter, max_expiry}
use superviseur.Tests.Memory.{memory_redis, memory_answers, fresh}
use superviseur.Auth.Lockout.Laws.{IsConfigured, failures, locks_at_limit}

abbrev five : LoginGuard
five = record { max = 5; window = 900; lock = 900 }

abbrev admin : Text
admin = codes "Admin"

abbrev five-IsConfigured : IsConfigured five
unfolding max_counter max_expiry
five-IsConfigured = record {
  window_expiry = record { positive = omega arith; bounded = omega arith };
  lock_expiry = record { positive = omega arith; bounded = omega arith };
  max_counts = omega arith;
}

locks_at_limit_example :
    let (answer, w') =
      record_failure memory_redis five admin
        (failures memory_redis memory_answers five five-IsConfigured admin 4 fresh) in
    (answer ≡ 900) × ((locked_for memory_redis admin w').0 ≡ 900)
locks_at_limit_example =
    locks_at_limit memory_redis memory_answers five five-IsConfigured admin 4 fresh refl refl
      (omega arith)
