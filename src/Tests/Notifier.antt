-- ===== src/Tests/Notifier.antt =====
-- The notifier on concrete inputs.
use superviseur.Prelude.{
  ℕ, ◌+◌, ◌≡◌, refl, Bool, false, some, List, [], ◌∷◌, ◌++◌, arith, leb, length, filter, ltb, ◌≤◌,
}
use superviseur.Prelude.Text.{Text, codes}
use superviseur.Alarms.Notifier.{
  Target, Settings, Notifier, submit, flush_due, deliver, sent, route, route_all, targets, prune,
  join_digest, due_keys, pop_digests, pop_digest, pop_found,
}
use superviseur.Alarms.Notifier.Rate
use superviseur.Alarms.Notifier.Rate.{
  Event, routed, flushed, Ordered, last_instant, sent_alone, new_notifier, sends_alone_bounded,
}
use superviseur.Alarms.Notifier.Order.{
  to_send, repeat, targets_of_all, to_send-submit, to_send-flush_due,
}
use superviseur.Alarms.Notifier.Delivery.{after_sends, deliver_sends_once}

abbrev settings : Settings
settings = record {
  default_email = codes "a@b.fr" ∷ [];
  threshold = 1;
  window_s = 60;
  attempts = 3;
  retry_delay_s = 1;
}

abbrev channels : List Text
channels = codes "email" ∷ codes "webhook:https://x.org" ∷ []

abbrev marie : Target
marie = (codes "email", codes "a@b.fr")

abbrev empty : Notifier ℕ
empty = record { recent = []; digests = []; queue = [] }

-- The second notification within the window goes into a digest.
abbrev busy : Notifier ℕ
busy = submit settings channels 8 20 (submit settings channels 7 10 empty)

busy_order : to_send marie busy ≡ 7 ∷ 8 ∷ []
unfolding submit route_all route targets prune join_digest
busy_order = refl

to_send-submit_example :
    to_send marie (submit settings channels 9 30 busy)
    ≡ to_send marie busy ++ repeat {N = ℕ} settings marie (targets_of_all settings channels) 9
to_send-submit_example = to_send-submit settings channels marie 9 30 busy

to_send-flush_due_example : to_send marie (flush_due 70 busy).1 ≡ to_send marie busy
to_send-flush_due_example = to_send-flush_due marie 70 busy

-- A sender that works from its third call on.
abbrev third_time : ℕ → Bool × ℕ
third_time n = (leb 2 n, n + 1)

deliver_sends_once_example :
    let r = deliver settings (some third_time) 0 in
    (r.0 ≡ sent) × (r.2 ≡ after_sends settings third_time 3 0)
deliver_sends_once_example =
    deliver_sends_once settings third_time 2 0 (refl, (refl, tt)) (unfold after_sends in refl)
      (omega arith)

abbrev never : ℕ → Bool × ℕ
never n = (false, n + 1)

-- The notification at 20 goes into a digest; those at 10 and 80 go out alone.
abbrev flood : List (Event ℕ)
flood = routed marie 7 10 ∷ routed marie 8 20 ∷ flushed 70 ∷ routed marie 9 80 ∷ []

flood_alone : sent_alone settings marie flood new_notifier ≡ 10 ∷ 80 ∷ []
unfolding sent_alone Rate.step route prune join_digest flush_due due_keys pop_digests pop_digest
    pop_found
flood_alone = refl

sends_alone_bounded_example :
    length
      (filter (λ t. ltb 80 (t + settings.window_s)) (sent_alone settings marie flood new_notifier))
    ≤ settings.threshold
unfolding Ordered last_instant
sends_alone_bounded_example =
    sends_alone_bounded settings marie flood 80
      (omega arith, (omega arith, (omega arith, (omega arith, tt)))) (omega arith)
