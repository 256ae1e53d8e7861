-- ===== src/Collector/Poller/Offline.antt =====
-- When a device counts as lost (backend/app/collector/poller.py).
pub mod Keeps
use superviseur.Prelude.{
  ℕ, zero, suc, ◌+◌, ◌≤◌, ◌<◌, ◌≡◌, refl, sym, ◌∙◌, ap, Bool, true, false, not, ◌&&◌, Option, none,
  some, List, [], ◌∷◌, ◌++◌, map, leb, ltb, ◌==◌, nat_eq, agree_refl, arith, Bool-cases,
  Option-cases, inl, inr, if◌then◌else◌,
}
use superviseur.Prelude.Dict.{lookup, insert, lookup-insert_self}
use superviseur.Collector.Registry.{DeviceState, Contact, Reading}
use superviseur.Collector.Recorder.{Recorder}
use superviseur.Collector.Poller.{
  Effects, Settings, Outcome, answered, unreachable, refused, failed, set_contact, contact_found,
  points_of, chunks, last_seen_period_s,
}
use superviseur.Collector.Poller.Cycle.{
  End, lost, finished, aborted, concat, faults, end_chunk, end_of, read_chunk, poll_chunks,
  on_success, success_found, on_failure, failure_found, end_cycle, ended, poll_cycle,
  publish_status, lose, unsubscribe,
}
use Keeps.{
  status, status_of, set_contact-status, record_readings-status, schedule_all-status,
  unsubscribe-status, lose-status, restart-status, publish_status-status, touch_last_seen-status,
}

-- The status of a device whose contact is changed.
abbrev changed : (Contact → Contact) → Option DeviceState → Option (Bool × ℕ)
changed f none = none
changed f (some d) = some ((f d.contact).online, (f d.contact).failures)

set_contact_self :
    (id : ℕ) (f : Contact → Contact) (s : Recorder)
    → status id (set_contact id f s).registry ≡ changed f (lookup id s.registry.devices)
unfolding set_contact contact_found
set_contact_self id f s = elim (Option-cases (lookup id s.registry.devices)) [
  | inl missing ↦ rw (missing, missing) refl
  | inr (d, found) ↦
      rw (found, lookup-insert_self id (record d { contact = f d.contact }) s.registry.devices) refl
]

status_inv :
    (o : Option DeviceState) {online : Bool} {n : ℕ}
    → status_of o ≡ some (online, n)
    → (d : DeviceState) × (o ≡ some d) × (d.online ≡ online) × (d.failures ≡ n)
status_inv none e = cc
status_inv (some d) e = (d, refl, cc, cc)

-- The status after an assignment to the contact, from the status before.
set_contact-eq :
    (id : ℕ) (f : Contact → Contact) (s : Recorder) {online after : Bool} {n m : ℕ}
    → status id s.registry ≡ some (online, n)
    → ((c : Contact)
        → c.online ≡ online
        → c.failures ≡ n
        → ((f c).online ≡ after) × ((f c).failures ≡ m))
    → status id (set_contact id f s).registry ≡ some (after, m)
set_contact-eq id f s e h =
    let (d, l, p, q) = status_inv (lookup id s.registry.devices) e in
    let (a, b) = h d.contact p q in
    set_contact_self id f s ∙ ap (changed f) l ∙ (λ i. some (a i, b i))

-- The failures in a row after one more cycle.
abbrev pub failures_after : ℕ → End → ℕ
failures_after n (lost ids) = n + 1
failures_after n finished = 0
failures_after n aborted = n

-- The failures in a row at the end of some cycles, from the count before them.
unfoldable pub failures_in : ℕ → List End → ℕ
failures_in n [] = n
failures_in n (e ∷ es) = failures_in (failures_after n e) es

abbrev status_after : {W : Type 0} → ℕ → Option (Recorder × W) → Option (Bool × ℕ)
status_after id none = none
status_after id (some (s, w)) = status id s.registry

module _ {W : Type 0} (cfg : Settings) (fx : Effects W) (id : ℕ) where
  end_chunk-status :
      (now : ℕ) (chunk : List ℕ) (rs : List Reading) (s : Recorder) (w : W)
      → status id (end_chunk cfg fx now chunk rs s w).0.registry ≡ status id s.registry
  unfolding end_chunk
  end_chunk-status now chunk rs s w =
      schedule_all-status cfg fx id now chunk _ ∙ record_readings-status cfg fx id rs s w

  read_chunk-status :
      (out : Outcome) (now : ℕ) (chunk : List ℕ) (s : Recorder) (w : W) (r : Recorder × W)
      → read_chunk cfg fx out now chunk s w ≡ some r
      → status id r.0.registry ≡ status id s.registry
  unfolding read_chunk
  read_chunk-status (answered rs) now chunk s w r e =
      ap (status_after id) (sym e) ∙ end_chunk-status now chunk rs s w
  read_chunk-status refused now chunk s w r e =
      ap (status_after id) (sym e) ∙ end_chunk-status now chunk _ s _
  read_chunk-status unreachable now chunk s w r e = cc
  read_chunk-status failed now chunk s w r e = cc

  abbrev read_of : List ℕ → Recorder → W → Outcome × W
  read_of chunk s w = fx.read (map (λ x. (x.1).ref) (points_of chunk s.registry)) w

  poll_goes :
      (now : ℕ) (chunk : List ℕ) (rest : List (List ℕ)) (s : Recorder) (w : W) {r : Recorder × W}
      → read_chunk cfg fx (read_of chunk s w).0 now chunk s (read_of chunk s w).1 ≡ some r
      → poll_chunks cfg fx now (chunk ∷ rest) s w ≡ poll_chunks cfg fx now rest r.0 r.1
  unfolding poll_chunks
  poll_goes now chunk rest s w e = ground (arith, e)

  poll_stops :
      (now : ℕ) (chunk : List ℕ) (rest : List (List ℕ)) (s : Recorder) (w : W)
      → read_chunk cfg fx (read_of chunk s w).0 now chunk s (read_of chunk s w).1 ≡ none
      → (poll_chunks cfg fx now (chunk ∷ rest) s w).1 ≡ s
  unfolding poll_chunks
  poll_stops now chunk rest s w e = ground (arith, e)

  poll_chunks-status :
      (now : ℕ) (chunked : List (List ℕ)) (s : Recorder) (w : W)
      → status id (poll_chunks cfg fx now chunked s w).1.registry ≡ status id s.registry
  poll_chunks-status now [] s w = unfold poll_chunks in refl
  poll_chunks-status now (chunk ∷ rest) s w =
      let (out, w') = read_of chunk s w in
      elim (Option-cases (read_chunk cfg fx out now chunk s w')) [
        | inl stops ↦
            ap (λ (x : Recorder). status id x.registry) (poll_stops now chunk rest s w stops)
        | inr (r, goes) ↦
            rw (poll_goes now chunk rest s w goes)
              (poll_chunks-status now rest r.0 r.1 ∙ read_chunk-status out now chunk s w' r goes)
      ]

  success_found-status :
      (d : DeviceState) (s : Recorder) (w : W)
      → status id s.registry ≡ some (d.online, 0)
      → status id (success_found cfg fx (some d) id s w).0.registry ≡ some (true, 0)
  unfolding success_found
  success_found-status d s w e = elim (Bool-cases d.online) [
    | inl on ↦
        rw on (elim (Bool-cases (leb (d.last_seen_written + last_seen_period_s) (fx.clock w).0)) [
          | inl old ↦ rw old (touch_last_seen-status cfg fx id id s (fx.clock w).1 ∙ (rw on at e))
          | inr young ↦ rw young (rw on at e)
        ])
    | inr off ↦ rw off (
        restart-status cfg fx id d.points _ _
        ∙ publish_status-status cfg fx id id true _ w
        ∙ set_contact-eq id (λ c. record c { online = true }) s e (λ c p q. (refl, q)))
  ]

  on_success-status :
      (s : Recorder) (w : W) (online : Bool) (n : ℕ)
      → status id s.registry ≡ some (online, n)
      → status id (on_success cfg fx id s w).0.registry ≡ some (true, 0)
  unfolding on_success
  on_success-status s w online n e =
      let (now, w') = fx.clock w in
      let f : Contact → Contact = λ c. record c { failures = 0; last_contact = now } in
      let e' = set_contact-eq id f s {after = online} {m = 0} e (λ c p q. (p, refl)) in
      let (d, l, p, q) = status_inv (lookup id (set_contact id f s).registry.devices) e' in
      rw l (success_found-status d (set_contact id f s) w' (e' ∙ ap (λ o. some (o, 0)) (sym p)))

  failure_found-status :
      (d : DeviceState) (ids : List ℕ) (now : ℕ) (s : Recorder) (w : W)
      → status id s.registry ≡ some (d.online, d.failures)
      → status id (failure_found cfg fx (some d) id ids now s w).0.registry
        ≡ some (d.online && ltb d.failures cfg.offline_after_cycles, d.failures)
  unfolding failure_found
  failure_found-status d ids now s w e =
      elim (Bool-cases (d.online && leb cfg.offline_after_cycles d.failures)) [
        | inl gone ↦
            let closed : (d.online && ltb d.failures cfg.offline_after_cycles) ≡ false =
              ground arith in
            rw gone (
              lose-status cfg fx id now d.points _ _
              ∙ unsubscribe-status cfg fx id d.points _
              ∙ publish_status-status cfg fx id id false _ w
              ∙ set_contact-eq id (λ c. record c { online = false }) s e (λ c p q. (refl, q))
              ∙ ap (λ b. some (b, d.failures)) (sym closed))
        | inr stays ↦
            let same : d.online ≡ (d.online && ltb d.failures cfg.offline_after_cycles) =
              ground arith in
            rw stays (lose-status cfg fx id now ids s w ∙ e ∙ ap (λ b. some (b, d.failures)) same)
      ]

  on_failure-status :
      (ids : List ℕ) (s : Recorder) (w : W) (online : Bool) (n : ℕ)
      → status id s.registry ≡ some (online, n)
      → status id (on_failure cfg fx id ids s w).0.registry
        ≡ some (online && ltb (n + 1) cfg.offline_after_cycles, n + 1)
  unfolding on_failure
  on_failure-status ids s w online n e =
      let f : Contact → Contact = λ c. record c { failures = c.failures + 1 } in
      let e' =
        set_contact-eq id f s {after = online} {m = n + 1} e (λ c p q. (p, ap (λ k. k + 1) q)) in
      let (d, l, p, q) = status_inv (lookup id (set_contact id f s).registry.devices) e' in
      rw l (
        failure_found-status d ids (fx.clock w).0 (set_contact id f s) (fx.clock w).1
          (e' ∙ (λ i. some (sym p i, sym q i)))
        ∙ (λ i. some (p i && ltb (q i) cfg.offline_after_cycles, q i)))

  end_cycle-status :
      (e : End) (s : Recorder) (w : W) (n : ℕ)
      → 0 < cfg.offline_after_cycles
      → status id s.registry ≡ some (ltb n cfg.offline_after_cycles, n)
      → status id (end_cycle cfg fx id e s w).0.registry
        ≡ some (ltb (failures_after n e) cfg.offline_after_cycles, failures_after n e)
  unfolding end_cycle
  end_cycle-status (lost ids) s w n pos h =
      on_failure-status ids s w (ltb n cfg.offline_after_cycles) n h
      ∙ ap (λ b. some (b, n + 1)) (ground arith)
  end_cycle-status finished s w n pos h =
      on_success-status s w (ltb n cfg.offline_after_cycles) n h
      ∙ ap (λ b. some (b, 0)) (ground arith)
  end_cycle-status aborted s w n pos h = h

  -- How the loop of a cycle ends.
  abbrev pub cycle_end : List ℕ → Recorder → W → End
  cycle_end ids s w =
      let (now, w') = fx.clock w in
      let chunked = chunks cfg.batch_size ids in
      ended cfg fx chunked
        (poll_chunks cfg fx now chunked (set_contact id (λ c. record c { last_attempt = now }) s)
          w').0

  poll_cycle-status :
      (ids : List ℕ) (s : Recorder) (w : W) (n : ℕ)
      → 0 < cfg.offline_after_cycles
      → status id s.registry ≡ some (ltb n cfg.offline_after_cycles, n)
      → let m = failures_after n (cycle_end ids s w) in
        status id (poll_cycle cfg fx id ids s w).0.registry
        ≡ some (ltb m cfg.offline_after_cycles, m)
  unfolding poll_cycle
  poll_cycle-status ids s w n pos h =
      let now = (fx.clock w).0 in
      let s0 = set_contact id (λ c. record c { last_attempt = now }) s in
      end_cycle-status (cycle_end ids s w) _ _ n pos (
        poll_chunks-status now (chunks cfg.batch_size ids) s0 (fx.clock w).1
        ∙ set_contact-status id id (λ c. record c { last_attempt = now }) s (λ c. (refl, refl))
        ∙ h)

  -- The cycles of a device, each with its points.
  unfoldable pub poll_cycles : List (List ℕ) → Recorder → W → Recorder × W
  poll_cycles [] s w = (s, w)
  poll_cycles (ids ∷ cycles) s w =
      let (s', w') = poll_cycle cfg fx id ids s w in poll_cycles cycles s' w'

  -- How each of the cycles ends.
  unfoldable pub ends_of : List (List ℕ) → Recorder → W → List End
  ends_of [] s w = []
  ends_of (ids ∷ cycles) s w =
      let (s', w') = poll_cycle cfg fx id ids s w in cycle_end ids s w ∷ ends_of cycles s' w'

  poll_cycles-status :
      (cycles : List (List ℕ)) (s : Recorder) (w : W) (n : ℕ)
      → 0 < cfg.offline_after_cycles
      → status id s.registry ≡ some (ltb n cfg.offline_after_cycles, n)
      → let m = failures_in n (ends_of cycles s w) in
        status id (poll_cycles cycles s w).0.registry ≡ some (ltb m cfg.offline_after_cycles, m)
  unfolding poll_cycles ends_of failures_in
  poll_cycles-status [] s w n pos h = h
  poll_cycles-status (ids ∷ cycles) s w n pos h =
      poll_cycles-status cycles _ _ _ pos (poll_cycle-status ids s w n pos h)

  -- Where the limit of cycles without an answer is above 0: after any poll cycles of a device that was
  -- online with no failure counted, whatever the driver answered, the device counts as many failures as cycles have ended without an answer since the
  -- last cycle that was read to its end, and it is online exactly when these are fewer than the limit.
  pub online_iff_answers :
      (cycles : List (List ℕ)) (s : Recorder) (w : W)
      → 0 < cfg.offline_after_cycles
      → status id s.registry ≡ some (true, 0)
      → let m = failures_in 0 (ends_of cycles s w) in
        status id (poll_cycles cycles s w).0.registry ≡ some (ltb m cfg.offline_after_cycles, m)
  online_iff_answers cycles s w pos h =
      poll_cycles-status cycles s w 0 pos (h ∙ ap (λ b. some (b, 0)) (ground arith))
