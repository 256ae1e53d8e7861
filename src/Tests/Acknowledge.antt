-- ===== src/Tests/Acknowledge.antt =====
-- The acknowledgement of an alarm by the API on a concrete alarm. The world is the number of entries in
-- the journal.
use superviseur.Prelude.{ℕ, ◌+◌, ◌≡◌, ◌⊎◌, refl, true, none, some, [], ◌∷◌}
use superviseur.Prelude.Float.{of_ℕ}
use superviseur.Prelude.Text.{codes}
use superviseur.Models.{AlarmKind, AlarmState}
use superviseur.Api.Session.{refused, failed}
use superviseur.Api.Deps.{CurrentUser}
use superviseur.Api.RuleForm.{critical}
use superviseur.Api.Alarms.{AlarmRow, AckEffects, replied, acknowledge}
use superviseur.Api.Alarms.Journal.{Counts, acknowledge-IsJournaled}

abbrev alarm_row : AlarmRow
alarm_row = record {
  event = record {
    id = 9;
    rule_id = 1;
    state = AlarmState.active_unacked;
    raised_at = 3;
    acked_at = none;
    acked_by = none;
    cleared_at = none;
    raised_value = none;
  };
  rule = record {
    id = 1;
    point_id = 4;
    values = record {
      name = none;
      kind = AlarmKind.high;
      threshold = some (of_ℕ 30);
      hysteresis = of_ℕ 0;
      delay_s = 60;
      severity = critical;
      notify = [];
      enabled = true;
    };
  };
  point = record { id = 4; name = codes "T1"; path = none; unit = none };
}

abbrev engine_agrees : AckEffects ℕ
engine_agrees = record {
  rows = λ w. (alarm_row ∷ [], w);
  add_audit = λ e w. w + 1;
  send_and_wait = λ id user w. (replied (record { status = "ok"; message = none }), w);
}

abbrev journal_counts : Counts engine_agrees
journal_counts = record {
  entries = λ w. w;
  add_entries = λ e w. refl;
  rows_entries = λ w. refl;
  send_entries = λ id user w. refl;
}

abbrev ada : CurrentUser
ada = record { id = 7; login = codes "ada"; role = "operator"; stamp = codes "s" }

acknowledge-IsJournaled_example :
    ((((acknowledge engine_agrees ada 9 5).0 ≡ refused 404 "alarme introuvable")
        ⊎ ((acknowledge engine_agrees ada 9 5).0 ≡ failed))
      × ((acknowledge engine_agrees ada 9 5).1 ≡ 5))
    ⊎ ((acknowledge engine_agrees ada 9 5).1 ≡ 5 + 1)
acknowledge-IsJournaled_example = acknowledge-IsJournaled engine_agrees journal_counts ada 9 5
