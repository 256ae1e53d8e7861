-- ===== src/Alarms/Notifier/Order.antt =====
-- Nothing is lost, doubled or reordered on the way to a target.
use superviseur.Prelude.{
  ℕ, ◌≡◌, refl, sym, ◌∙◌, ap, Bool, true, false, ◌||◌, Option, none, some, List, [], ◌∷◌, ◌++◌,
  append-nil, append_assoc, arith, ◌==◌, pair_eq, leb, or_else, is_some, length, if◌then◌else◌, inl,
  inr, Bool-cases,
}
use superviseur.Prelude.Dict.{Dict, lookup, insert, lookup-insert, lookup-erase}
use superviseur.Prelude.Text.{Text, text_eq}
use superviseur.Alarms.Notifier.{
  Target, Job, Digest, Settings, Notifier, join_digest, prune, route, route_all, submit, targets,
  pop_digest, pop_digests, pop_found, flush_due, due_keys,
}

-- What the queue holds for a target, in the order of sending.
abbrev pub queued : {N : Type 0} → Target → List (Job N) → List N
queued k [] = []
queued k (j ∷ js) = (if j.target == k then j.notifications else []) ++ queued k js

abbrev pub items_of : {N : Type 0} → Option (Digest N) → List N
items_of none = []
items_of (some d) = d.items

-- Everything that is still to be sent to a target, in the order of sending: the queue, then the
-- digest that is open.
abbrev pub to_send : {N : Type 0} → Target → Notifier N → List N
to_send k s = queued k s.queue ++ items_of (lookup k s.digests)

queued-append :
    {N : Type 0} (k : Target) (xs ys : List (Job N))
    → queued k (xs ++ ys) ≡ queued k xs ++ queued k ys
queued-append k [] ys = refl
queued-append k (x ∷ xs) ys = simp (queued-append k xs ys, append_assoc)

-- The targets of a list of channels.
abbrev pub targets_of_all : Settings → List Text → List Target
targets_of_all cfg [] = []
targets_of_all cfg (c ∷ cs) = targets cfg c ++ targets_of_all cfg cs

-- Taking one target's items behind its own, or leaving another's alone.
abbrev grown : {N : Type 0} → Bool → List N → N → List N
grown same xs n = if same then xs ++ n ∷ [] else xs

grown-append :
    {N : Type 0} (same : Bool) (q xs : List N) (n : N)
    → q ++ grown same xs n ≡ grown same (q ++ xs) n
grown-append true q xs n = sym (append_assoc q xs (n ∷ []))
grown-append false q xs n = refl

no_items : {N : Type 0} (d : Option (Digest N)) → is_some d ≡ false → items_of d ≡ []
no_items none h = refl
no_items (some d) h = cc

module _ {N : Type 0} (cfg : Settings) where
  join_digest-items :
      (d : Option (Digest N)) (recent : List ℕ) (n : N) (now : ℕ)
      → (join_digest cfg d recent n now).items ≡ items_of d ++ n ∷ []
  unfolding join_digest
  join_digest-items none recent n now = refl
  join_digest-items (some d) recent n now = refl

  items-insert :
      (key k : Target) (d : Digest N) (n : N) (ds : Dict Target (Digest N))
      → d.items ≡ items_of (lookup key ds) ++ n ∷ []
      → items_of (lookup k (insert key d ds)) ≡ grown (key == k) (items_of (lookup k ds)) n
  items-insert key k d n ds h = elim (Bool-cases (key == k)) [
    | inl same ↦
        let e : key ≡ k = (pair_eq.agree_iff key k).0 same in
        rw (lookup-insert key k d ds, same) (h ∙ ap (λ x. items_of (lookup x ds) ++ n ∷ []) e)
    | inr other ↦ rw (lookup-insert key k d ds, other)
  ]

  queued-job :
      (key k : Target) (n : N) (js : List (Job N))
      → queued k (js ++ record { target = key; notifications = n ∷ []; digest = false } ∷ [])
        ≡ grown (key == k) (queued k js) n
  queued-job key k n js = elim (Bool-cases (key == k)) [
    | inl same ↦ rw (queued-append k js _, same)
    | inr other ↦ rw (queued-append k js _, other, append-nil)
  ]

  send_now :
      (key k : Target) (n : N) (s : Notifier N)
      → is_some (lookup key s.digests) ≡ false
      → queued k (s.queue ++ record { target = key; notifications = n ∷ []; digest = false } ∷ [])
          ++ items_of (lookup k s.digests)
        ≡ grown (key == k) (to_send k s) n
  send_now key k n s h = elim (Bool-cases (key == k)) [
    | inl same ↦
        let e : key ≡ k = (pair_eq.agree_iff key k).0 same in
        let empty =
          no_items (lookup k s.digests) (ap (λ x. is_some (lookup x s.digests)) (sym e) ∙ h) in
        rw (queued-job key k n s.queue, same, empty) (simp append-nil)
    | inr other ↦ rw (queued-job key k n s.queue, other)
  ]

  -- A notification that is routed to a target goes behind everything that is still to be sent to
  -- that target, and changes nothing of what is still to be sent to any other target.
  pub to_send-route :
      (key k : Target) (n : N) (now : ℕ) (s : Notifier N)
      → to_send k (route cfg key n now s)
        ≡ (if key == k then to_send k s ++ n ∷ [] else to_send k s)
  unfolding route
  to_send-route key k n now s =
      let recent = prune cfg.window_s now (or_else (lookup key s.recent) []) in
      let digest = lookup key s.digests in
      elim (Bool-cases (is_some digest || leb cfg.threshold (length recent))) [
        | inl held ↦ rw held (
            rw
              (items-insert key k (join_digest cfg digest recent n now) n s.digests
                (join_digest-items digest recent n now))
              (grown-append (key == k) (queued k s.queue) (items_of (lookup k s.digests)) n))
        | inr sent ↦ rw sent (send_now key k n s (ground arith))
      ]

  abbrev pub repeat : (k : Target) → List Target → N → List N
  repeat k [] n = []
  repeat k (key ∷ keys) n = (if key == k then n ∷ [] else []) ++ repeat k keys n

  grown-copy :
      (same : Bool) (xs ys : List N) (n : N)
      → grown same xs n ++ ys ≡ xs ++ ((if same then n ∷ [] else []) ++ ys)
  grown-copy true xs ys n = append_assoc xs (n ∷ []) ys
  grown-copy false xs ys n = refl

  to_send-route_all :
      (keys : List Target) (k : Target) (n : N) (now : ℕ) (s : Notifier N)
      → to_send k (route_all cfg keys n now s) ≡ to_send k s ++ repeat k keys n
  unfolding route_all
  to_send-route_all [] k n now s = sym (append-nil (to_send k s))
  to_send-route_all (key ∷ keys) k n now s =
      to_send-route_all keys k n now (route cfg key n now s)
      ∙ ap (λ x. x ++ repeat k keys n) (to_send-route key k n now s)
      ∙ grown-copy (key == k) (to_send k s) (repeat k keys n) n

  repeat-append :
      (k : Target) (xs ys : List Target) (n : N)
      → repeat k (xs ++ ys) n ≡ repeat k xs n ++ repeat k ys n
  repeat-append k [] ys n = refl
  repeat-append k (x ∷ xs) ys n = simp (repeat-append k xs ys n, append_assoc)

  -- A submitted notification goes behind everything that is still to be sent to a target, once for
  -- each time that its channels name the target, and nothing else changes for that target.
  pub to_send-submit :
      (cs : List Text) (k : Target) (n : N) (now : ℕ) (s : Notifier N)
      → to_send k (submit cfg cs n now s) ≡ to_send k s ++ repeat k (targets_of_all cfg cs) n
  unfolding submit
  to_send-submit [] k n now s = sym (append-nil (to_send k s))
  to_send-submit (c ∷ cs) k n now s =
      to_send-submit cs k n now (route_all cfg (targets cfg c) n now s)
      ∙ ap (λ x. x ++ repeat k (targets_of_all cfg cs) n)
          (to_send-route_all (targets cfg c) k n now s)
      ∙ append_assoc (to_send k s) (repeat k (targets cfg c) n) (repeat k (targets_of_all cfg cs) n)
      ∙ ap (λ x. to_send k s ++ x) (sym (repeat-append k (targets cfg c) (targets_of_all cfg cs) n))

pop_found_same :
    {N : Type 0} (key k : Target) (d : Option (Digest N)) (s : Notifier N)
    → lookup key s.digests ≡ d
    → to_send k (pop_found key d s) ≡ to_send k s
unfolding pop_found
pop_found_same key k none s h = refl
pop_found_same key k (some d) s h = elim (Bool-cases (key == k)) [
  | inl same ↦
      let e : key ≡ k = (pair_eq.agree_iff key k).0 same in
      let held : lookup k s.digests ≡ some d = ap (λ x. lookup x s.digests) (sym e) ∙ h in
      rw (queued-append k s.queue _, lookup-erase key k s.digests, same, held) (simp append-nil)
  | inr other ↦
      rw (queued-append k s.queue _, lookup-erase key k s.digests, other) (simp append-nil)
]

to_send-pop_digests :
    {N : Type 0} (keys : List Target) (k : Target) (s : Notifier N)
    → to_send k (pop_digests keys s) ≡ to_send k s
unfolding pop_digests pop_digest
to_send-pop_digests [] k s = refl
to_send-pop_digests (key ∷ keys) k s =
    to_send-pop_digests keys k (pop_digest key s)
    ∙ pop_found_same key k (lookup key s.digests) s refl

-- `flush_due` neither loses, doubles nor reorders anything that is still to be sent to a target.
pub to_send-flush_due :
    {N : Type 0} (k : Target) (now : ℕ) (s : Notifier N)
    → to_send k (flush_due now s).1 ≡ to_send k s
unfolding flush_due
to_send-flush_due k now s = to_send-pop_digests (due_keys now s.digests) k s
