-- ===== src/Tests/Poller.antt =====
-- The poller on concrete inputs. The driver never answers, and the store always does.
use superviseur.Prelude.{ℕ, ◌+◌, ◌≡◌, refl, true, none, some, [], ◌∷◌, List, arith, ltb}
use superviseur.Collector.Recorder.{Recorder}
use superviseur.Collector.Poller.{Effects, Settings, unreachable}
use superviseur.Collector.Poller.Offline.{failures_in, ends_of, poll_cycles, online_iff_answers}
use superviseur.Collector.Poller.Offline.Keeps.{status}

abbrev settings : Settings
settings = record {
  batch_size = 10;
  offline_after_cycles = 2;
  default_interval_s = 30;
  safety_poll_s = 300;
  batch_rows = 1000;
}

abbrev silent : Effects ℕ
silent = record {
  clock = λ w. (w, w + 1);
  wall = λ w. (w, w + 1);
  uniform = λ n w. (n, w);
  read = λ refs w. (unreachable, w + 3);
  write_samples = λ rows w. (true, w);
  set_device_status = λ d o t w. (true, w);
  publish = λ d i o t w. (true, w);
}

abbrev alone : Recorder
alone = record {
  registry = record {
    devices =
        (
          7,
          record {
            device_id = 7;
            instance_number = 100;
            address = "10.0.0.5";
            name = "A";
            supports_cov = true;
            points = 1 ∷ [];
            contact = record {
              online = true;
              failures = 0;
              last_contact = 0;
              last_attempt = 0;
              last_seen_written = 0;
            };
          },
        )
        ∷ [];
    points = [];
  };
  samples = [];
  latest = [];
  in_flight = none;
  written = [];
  published = [];
}

abbrev two_cycles : List (List ℕ)
two_cycles = (1 ∷ []) ∷ (1 ∷ []) ∷ []

online_iff_answers_example :
    let m = failures_in 0 (ends_of settings silent 7 two_cycles alone 0) in
    status 7 (poll_cycles settings silent 7 two_cycles alone 0).0.registry ≡ some (ltb m 2, m)
online_iff_answers_example =
    online_iff_answers settings silent 7 two_cycles alone 0 (omega arith) refl
