-- ===== src/Alarms/Notifier/Rate.antt =====
-- How many notifications go out one by one to a target within a window.
mod Window
use superviseur.Prelude.{
  ℕ, ◌+◌, ◌≤◌, ◌<◌, ◌≡◌, refl, sym, ◌∙◌, ap, Bool, true, false, ◌&&◌, ◌||◌, Option, none, some,
  List, [], ◌∷◌, ◌++◌, append-nil, append_assoc, arith, ◌==◌, pair_eq, leb, ltb, leb→le, or_else,
  is_some, length, length-append, filter, All, All-append, if◌then◌else◌, inl, inr, Bool-cases,
}
use superviseur.Prelude.Dict.{Dict, lookup, insert, lookup-insert, lookup-insert_self}
use superviseur.Prelude.Text.{Text, text_eq}
use superviseur.Alarms.Notifier.{
  Target, Settings, Notifier, Digest, prune, route, flush_due, pop_digests, pop_digest, pop_found,
  due_keys,
}
use Window.{ltb_self, ltb_snoc, count_within, prune_parts, All-later, All-out}

-- What happens to a notifier, with the instants at which it happens.
pub data Event (N : Type 0) : Type 0 where
  routed : Target → N → ℕ → Event N
  flushed : ℕ → Event N

abbrev pub instant : {N : Type 0} → Event N → ℕ
instant (routed key n now) = now
instant (flushed now) = now

abbrev pub recent_of : {N : Type 0} → Target → Notifier N → List ℕ
recent_of k s = or_else (lookup k s.recent) []

abbrev pub grew : {N : Type 0} → Notifier N → Notifier N → Bool
grew s s' = ltb (length s.queue) (length s'.queue)

-- Instants do not decrease.
unfoldable pub Ordered : {N : Type 0} → ℕ → List (Event N) → Type 0
Ordered now [] = Unit
Ordered now (e ∷ es) = (now ≤ instant e) × Ordered (instant e) es

unfoldable pub last_instant : {N : Type 0} → ℕ → List (Event N) → ℕ
last_instant now [] = now
last_instant now (e ∷ es) = last_instant (instant e) es

module _ {N : Type 0} (cfg : Settings) where
  unfoldable pub step : Event N → Notifier N → Notifier N
  step (routed key n now) s = route cfg key n now s
  step (flushed now) s = (flush_due now s).1

  -- The instant of an event at which a notification for the target went into the queue alone.
  abbrev pub sent_at : Target → Event N → Notifier N → List ℕ
  sent_at k (routed key n now) s =
      if key == k && grew s (route cfg key n now s) then now ∷ [] else []
  sent_at k (flushed now) s = []

  -- The instants at which notifications for the target went into the queue alone.
  unfoldable pub sent_alone : Target → List (Event N) → Notifier N → List ℕ
  sent_alone k [] s = []
  sent_alone k (e ∷ es) s = sent_at k e s ++ sent_alone k es (step e s)

  -- The history of a target: what has left its window, and then what the notifier remembers.
  record Tracks (k : Target) (s : Notifier N) (history : List ℕ) (now : ℕ) : Type 0 where
    old : List ℕ
    split : history ≡ old ++ recent_of k s
    past : All (λ t. t + cfg.window_s ≤ now) old
    few : length (recent_of k s) ≤ cfg.threshold

  -- What a route leaves of a target's memory, and what it sends alone.
  route_self :
      (k : Target) (n : N) (now : ℕ) (s : Notifier N)
      → length (prune cfg.window_s now (recent_of k s)) ≤ cfg.threshold
      → let sent = if grew s (route cfg k n now s) then now ∷ [] else [] in
        (recent_of k (route cfg k n now s) ≡ prune cfg.window_s now (recent_of k s) ++ sent)
        × (length (recent_of k (route cfg k n now s)) ≤ cfg.threshold)
  unfolding route
  route_self k n now s h =
      let young = prune cfg.window_s now (recent_of k s) in
      elim (Bool-cases (is_some (lookup k s.digests) || leb cfg.threshold (length young))) [
        | inl crowded ↦
            rw (crowded, lookup-insert_self k young s.recent)
              (rw (ltb_self (length s.queue)) (sym (append-nil young)), h)
        | inr free ↦
            let room : length young < cfg.threshold = ground arith in
            rw (free, lookup-insert_self k (young ++ now ∷ []) s.recent)
              (rw (ltb_snoc s.queue _) refl, omega (arith, room, length-append young (now ∷ [])))
      ]

  route_other :
      (key k : Target) (n : N) (now : ℕ) (s : Notifier N)
      → (key == k) ≡ false
      → recent_of k (route cfg key n now s) ≡ recent_of k s
  unfolding route
  route_other key k n now s other =
      let young = prune cfg.window_s now (recent_of key s) in
      elim (Bool-cases (is_some (lookup key s.digests) || leb cfg.threshold (length young))) [
        | inl crowded ↦ rw (crowded, lookup-insert key k young s.recent, other) refl
        | inr free ↦ rw (free, lookup-insert key k (young ++ now ∷ []) s.recent, other) refl
      ]

  pop_digest-recent :
      (d : Option (Digest N)) (key : Target) (s : Notifier N)
      → (pop_found key d s).recent ≡ s.recent
  unfolding pop_found
  pop_digest-recent none key s = refl
  pop_digest-recent (some d) key s = refl

  pop_digests-recent :
      (keys : List Target) (s : Notifier N) → (pop_digests keys s).recent ≡ s.recent
  unfolding pop_digests pop_digest
  pop_digests-recent [] s = refl
  pop_digests-recent (key ∷ keys) s =
      pop_digests-recent keys (pop_digest key s) ∙ pop_digest-recent (lookup key s.digests) key s

  unchanged-Tracks :
      (k : Target) (s s' : Notifier N) (history : List ℕ) (now later : ℕ)
      → now ≤ later
      → recent_of k s' ≡ recent_of k s
      → Tracks k s history now
      → Tracks k s' (history ++ []) later
  unchanged-Tracks k s s' history now later l e t = record {
    old = t.old;
    split = append-nil history ∙ t.split ∙ ap (λ x. t.old ++ x) (sym e);
    past = All-later cfg now later t.old l t.past;
    few = rw e t.few;
  }

  routed-Tracks :
      (k : Target) (n : N) (s : Notifier N) (history : List ℕ) (now later : ℕ)
      → now ≤ later
      → Tracks k s history now
      → Tracks k
          (route cfg k n later s)
          (history ++ (if grew s (route cfg k n later s) then later ∷ [] else []))
          later
  routed-Tracks k n s history now later l t =
      let young = prune cfg.window_s later (recent_of k s) in
      let sent = if grew s (route cfg k n later s) then later ∷ [] else [] in
      let (p, e, h) = prune_parts cfg later (recent_of k s) in
      let shorter : length young ≤ cfg.threshold =
        omega (arith, ap length e, length-append p young, t.few) in
      let (r, f) = route_self k n later s shorter in
      let regroup : (t.old ++ (p ++ young)) ++ sent ≡ (t.old ++ p) ++ (young ++ sent) =
        simp append_assoc in
      record {
        old = t.old ++ p;
        split =
            ap (λ x. x ++ sent) (t.split ∙ ap (λ x. t.old ++ x) e)
            ∙ regroup
            ∙ ap (λ x. (t.old ++ p) ++ x) (sym r);
        past = All-append _ t.old p (All-later cfg now later t.old l t.past) h;
        few = f;
      }

  step-Tracks :
      (k : Target) (e : Event N) (s : Notifier N) (history : List ℕ) (now : ℕ)
      → now ≤ instant e
      → Tracks k s history now
      → Tracks k (step e s) (history ++ sent_at k e s) (instant e)
  unfolding step
  step-Tracks k (flushed at) s history now l t =
      unchanged-Tracks k s (flush_due at s).1 history now at l
        (ap (λ d. or_else (lookup k d) [])
          (unfold flush_due in pop_digests-recent (due_keys at s.digests) s))
        t
  step-Tracks k (routed key n at) s history now l t = elim (Bool-cases (key == k)) [
    | inl same ↦
        let e : key ≡ k = (pair_eq.agree_iff key k).0 same in
        rw (same, e) (routed-Tracks k n s history now at l t)
    | inr other ↦ rw other (
        unchanged-Tracks k s (route cfg key n at s) history now at l
          (route_other key k n at s other) t)
  ]

  unfoldable pub run : List (Event N) → Notifier N → Notifier N
  run [] s = s
  run (e ∷ es) s = run es (step e s)

  run-Tracks :
      (k : Target) (es : List (Event N)) (s : Notifier N) (history : List ℕ) (now : ℕ)
      → Ordered now es
      → Tracks k s history now
      → Tracks k (run es s) (history ++ sent_alone k es s) (last_instant now es)
  unfolding Ordered last_instant run sent_alone
  run-Tracks k [] s history now o t = unchanged-Tracks k s s history now now (omega arith) refl t
  run-Tracks k (e ∷ es) s history now o t =
      rw (sym (append_assoc history (sent_at k e s) (sent_alone k es (step e s)))) (
        run-Tracks k es (step e s) (history ++ sent_at k e s) (instant e) o.1
          (step-Tracks k e s history now o.0 t))

-- `Notifier.__init__`
abbrev pub new_notifier : {N : Type 0} → Notifier N
new_notifier = record { recent = []; digests = []; queue = [] }

-- Whatever is routed to whichever targets and whenever digests are flushed, as long as the clock
-- does not run backwards: of the notifications for one target that went into the queue alone, at
-- most `threshold` lie within a window that ends at the last instant or later.
pub sends_alone_bounded :
    {N : Type 0} (cfg : Settings) (k : Target) (es : List (Event N)) (now : ℕ)
    → Ordered 0 es
    → last_instant 0 es ≤ now
    → length (filter (λ t. ltb now (t + cfg.window_s)) (sent_alone cfg k es new_notifier))
      ≤ cfg.threshold
sends_alone_bounded cfg k es now o l =
    let start : Tracks cfg k new_notifier [] 0 = record {
      old = [];
      split = refl;
      past = tt;
      few = omega arith;
    } in
    let t = run-Tracks cfg k es new_notifier [] 0 o start in
    rw (t.split) (
      omega (
        arith,
        t.few,
        count_within (λ x. ltb now (x + cfg.window_s)) t.old _
            (All-out cfg (last_instant 0 es) now t.old l t.past),
      ))
