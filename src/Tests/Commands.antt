-- ===== src/Tests/Commands.antt =====
-- The acknowledgement of an alarm by a user who may only look.
use superviseur.Prelude.{ℕ, ◌+◌, ◌≡◌, refl, true, some, []}
use superviseur.Prelude.Float.{of_ℕ}
use superviseur.Auth.Permissions.{has_role, role_level}
use superviseur.Alarms.Records.{Effects}
use superviseur.Alarms.Engine.Calls.{no_rules}
use superviseur.Alarms.Commands.{Command, at, Message, Server, process}
use superviseur.Alarms.Commands.Roles.{below_operator_ignored}

abbrev store : Effects ℕ
store = record {
  clock = λ w. (w, w + 1);
  wall = λ w. (1000 + w, w + 1);
  load_rules = λ w. (some [], w);
  open_events = λ w. (some [], w);
  latest_values = λ ids w. (some [], w);
  devices_online = λ w. (some [], w);
  create_event = λ rule at v w. (some 77, w);
  update_event = λ id u w. (true, w);
  user_login = λ u w. (some (some "marie"), w);
  user_role = λ u w. (some (some "viewer"), w);
  publish = λ m w. (true, w);
  submit = λ n w. w;
  uuid_text = λ u. "?";
}

abbrev server : Server ℕ
server = record {
  time = λ w. (of_ℕ 1000, w + 1);
  publish = λ id r w. (true, w + 10);
  xack = λ id w. (true, w + 100);
}

abbrev acknowledge_77 : Command
acknowledge_77 = record {
  action = some "ack";
  issued_at = at (of_ℕ 990);
  user_id = some 5;
  event_id = some 77;
}

abbrev message : Message
message = record { message_id = "1-0"; command_id = "c1"; command = some acknowledge_77 }

below_operator_ignored_example : (process store server (of_ℕ 30) message no_rules 0).1 ≡ no_rules
unfolding has_role role_level
below_operator_ignored_example =
    below_operator_ignored store server 5 "viewer" (λ x. refl) refl (of_ℕ 30) message acknowledge_77
      no_rules 0 refl refl
