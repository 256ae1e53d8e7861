-- ===== src/Tests/Writer.antt =====
-- The writer on concrete inputs. The driver and the store always answer.
use superviseur.Prelude.{ℕ, ◌+◌, ◌≡◌, refl, true, Option, [], none, some}
use superviseur.Prelude.Float.{Float, of_ℕ, fsub}
use superviseur.Collector.Writer.{
  Command, WriteTarget, Effects, is_writer, check_target, decide, refusal, check_role, execute,
  refresh, feed_read, feed,
}

abbrev valve : WriteTarget
valve = record {
  ref = record {
    point_id = 1;
    device_instance = 100;
    address = "10.0.0.5";
    object_type = "analog-output";
    object_instance = 3;
  };
  path = none;
  writable = true;
  write_min = some (of_ℕ 0);
  write_max = some (of_ℕ 100);
  last_value = none;
}

abbrev half : Option Float
half = some (of_ℕ 50)

abbrev effects : Effects ℕ
effects = record {
  time = λ w. (of_ℕ 1000, w);
  get_write_target = λ p w. (some (some valve), w + 1);
  get_user_role = λ u w. (some (some "operator"), w + 1);
  write = λ r v p w. (some none, w + 100);
  add_audit = λ e w. (true, w + 1);
  read = λ r w. (some [], w + 1000);
  on_reading = some (λ r w. (true, w));
  publish = λ c r w. (true, w);
  xack = λ m w. (true, w);
}

abbrev fresh_command : Command
fresh_command = record {
  point_id = 1;
  value = half;
  priority = none;
  user_id = some 5;
  issued_at = some (of_ℕ 990);
}

abbrev old_command : Command
old_command = record fresh_command { issued_at = some (of_ℕ 900) }

accepted_run : execute effects (of_ℕ 30) fresh_command 0 ≡ (some none, 1103)
unfolding execute decide refusal check_role is_writer check_target fsub refresh feed_read feed
accepted_run = refl
