-- ===== src/Alarms/Commands/Roles.antt =====
-- Who can acknowledge an alarm through a command.
use superviseur.Prelude.{
  ℕ, ◌≡◌, refl, sym, ◌∙◌, ap, false, Option, some, String, ◌==◌, string_eq, or_else, arith, inl,
  inr, Bool-cases,
}
use superviseur.Prelude.Float.{Float, flt, fsub}
use superviseur.Models.{RoleName}
use superviseur.Auth.Permissions.{has_role, role_level}
use superviseur.Alarms.Records.{Effects}
use superviseur.Alarms.Engine.{AlarmEngine}
use superviseur.Alarms.Commands.{
  Command, IssuedAt, missing, unreadable, at, Server, Message, is_ack_role, check_role, execute_for,
  execute_aged, execute, try_execute, process,
}

is_ack_role-has_role : (role : String) → is_ack_role (some role) ≡ has_role role RoleName.operator
unfolding is_ack_role has_role role_level
is_ack_role-has_role role = elim (Bool-cases (role == "viewer")) [
  | inl same ↦
      let viewer = (string_eq.agree_iff role "viewer").0 same in
      ap (λ x. is_ack_role (some x)) viewer ∙ sym (ap (λ x. has_role x RoleName.operator) viewer)
  | inr other ↦ ground (arith, other)
]

module _ {W : Type 0} (fx : Effects W) (server : Server W) (user : ℕ) (role : String)
    (reads : (x : W) → (fx.user_role user x).0 ≡ some (some role))
    (low : has_role role RoleName.operator ≡ false) where
  execute_for-keeps :
      (event : Option ℕ) (e : AlarmEngine) (w : W)
      → (execute_for fx server (some user) event e w).1 ≡ e
  unfolding execute_for check_role
  execute_for-keeps event e w = rw (reads w, is_ack_role-has_role role, low) refl

  execute_aged-keeps :
      (max_age : Float) (t : IssuedAt) (c : Command) (e : AlarmEngine) (w : W)
      → c.user_id ≡ some user
      → (execute_aged fx server max_age t c e w).1 ≡ e
  unfolding execute_aged
  execute_aged-keeps max_age missing c e w h = rw h (execute_for-keeps c.event_id e w)
  execute_aged-keeps max_age unreadable c e w h = refl
  execute_aged-keeps max_age (at issued) c e w h =
      elim (Bool-cases (flt max_age (fsub (server.time w).0 issued))) [
        | inl old ↦ rw (execute_aged, old) refl
        | inr young ↦ rw (execute_aged, young, h) (execute_for-keeps c.event_id e _)
      ]

  execute-keeps :
      (max_age : Float) (c : Command) (e : AlarmEngine) (w : W)
      → c.user_id ≡ some user
      → (execute fx server max_age c e w).1 ≡ e
  unfolding execute
  execute-keeps max_age c e w h = elim (Bool-cases (or_else c.action "" == "ack")) [
    | inl known ↦ rw (execute, known) (execute_aged-keeps max_age c.issued_at c e w h)
    | inr unknown ↦ rw (execute, unknown) refl
  ]

  -- A command of a user whose role is below operator whenever it is read leaves the engine, and so
  -- every alarm, as it was.
  pub below_operator_ignored :
      (max_age : Float) (m : Message) (c : Command) (e : AlarmEngine) (w : W)
      → m.command ≡ some c
      → c.user_id ≡ some user
      → (process fx server max_age m e w).1 ≡ e
  unfolding process try_execute
  below_operator_ignored max_age m c e w h k = rw h (execute-keeps max_age c e w k)
