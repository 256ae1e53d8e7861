-- ===== src/Alarms/Notifier.antt =====
-- The sending of notifications, with its guard against floods (backend/app/alarms/notifier.py).
-- Instants are ticks of the monotonic clock; a notification is any value that tells its channels.
pub mod Order
pub mod Rate
pub mod Delivery
use superviseur.Prelude.{
  ℕ, zero, suc, ◌+◌, ◌-◌, ◌*◌, ◌^◌, ltb, Bool, true, false, ◌&&◌, ◌||◌, Option, none, some, List,
  [], ◌∷◌, ◌++◌, map, ◌==◌, nat_eq, pair_eq, leb, or_else, is_some, length, if◌then◌else◌,
}
use superviseur.Prelude.Dict.{Dict, lookup, insert, erase}
use superviseur.Prelude.Text.{Text, codes, text_eq}

-- The kind of a channel and the address on it.
abbrev pub Target : Type 0
Target = Text × Text

pub record Job (N : Type 0) : Type 0 where
  pub target : Target
  pub notifications : List N
  pub digest : Bool

pub record Digest (N : Type 0) : Type 0 where
  pub due_at : ℕ
  pub items : List N

-- The settings of a `Notifier`.
pub record Settings : Type 0 where
  pub default_email : List Text
  pub threshold : ℕ
  pub window_s : ℕ
  pub attempts : ℕ
  pub retry_delay_s : ℕ

-- The state of a `Notifier`.
pub record Notifier (N : Type 0) : Type 0 where
  pub recent : Dict Target (List ℕ)
  pub digests : Dict Target (Digest N)
  pub queue : List (Job N)

-- `text.partition(sep)` without the separator.
abbrev pub partition : ℕ → Text → Text × Text
partition sep [] = ([], [])
partition sep (c ∷ cs) =
    let (kind, rest) = partition sep cs in if c == sep then ([], cs) else (c ∷ kind, rest)

targets_of : Settings → Text × Text → List Target
targets_of cfg (kind, []) =
    if kind == codes "email"
    then map (λ address. (codes "email", address)) cfg.default_email
    else []
targets_of cfg (kind, c ∷ cs) = (kind, c ∷ cs) ∷ []

-- `targets`
unfoldable pub targets : Settings → Text → List Target
unfolding targets_of
targets cfg channel = targets_of cfg (partition b':' channel)

-- `while recent and now - recent[0] >= window_s: recent.popleft()`
unfoldable pub prune : ℕ → ℕ → List ℕ → List ℕ
prune window now [] = []
prune window now (t ∷ ts) =
    let rest = prune window now ts in if leb (t + window) now then rest else t ∷ ts

-- `recent[0] if recent else now`
abbrev pub first_or : ℕ → List ℕ → ℕ
first_or now [] = now
first_or now (t ∷ ts) = t

module _ {N : Type 0} (cfg : Settings) where
  -- The digest that is open, or a new one, with one more notification.
  unfoldable pub join_digest : Option (Digest N) → List ℕ → N → ℕ → Digest N
  join_digest none recent n now = record {
    due_at = first_or now recent + cfg.window_s;
    items = n ∷ [];
  }
  join_digest (some d) recent n now = record d { items = d.items ++ n ∷ [] }

  -- `_route`
  unfoldable pub route : Target → N → ℕ → Notifier N → Notifier N
  route key n now s =
      let recent = prune cfg.window_s now (or_else (lookup key s.recent) []) in
      let digest = lookup key s.digests in
      if is_some digest || leb cfg.threshold (length recent)
      then record s {
        recent = insert key recent s.recent;
        digests = insert key (join_digest digest recent n now) s.digests;
      }
      else record s {
        recent = insert key (recent ++ now ∷ []) s.recent;
        queue = s.queue ++ record { target = key; notifications = n ∷ []; digest = false } ∷ [];
      }

  unfoldable pub route_all : List Target → N → ℕ → Notifier N → Notifier N
  route_all [] n now s = s
  route_all (key ∷ keys) n now s = route_all keys n now (route key n now s)

  -- `submit`, for a notification with its channels.
  unfoldable pub submit : List Text → N → ℕ → Notifier N → Notifier N
  submit [] n now s = s
  submit (c ∷ cs) n now s = submit cs n now (route_all (targets cfg c) n now s)

-- The keys of the digests that are due.
unfoldable pub due_keys : {N : Type 0} → ℕ → Dict Target (Digest N) → List Target
due_keys now [] = []
due_keys now ((key, d) ∷ ds) =
    let rest = due_keys now ds in if leb d.due_at now then key ∷ rest else rest

unfoldable pub pop_found : {N : Type 0} → Target → Option (Digest N) → Notifier N → Notifier N
pop_found key none s = s
pop_found key (some d) s = record s {
  digests = erase key s.digests;
  queue = s.queue ++ record { target = key; notifications = d.items; digest = true } ∷ [];
}

-- The body of the loop of `flush_due`.
unfoldable pub pop_digest : {N : Type 0} → Target → Notifier N → Notifier N
unfolding pop_found
pop_digest key s = pop_found key (lookup key s.digests) s

unfoldable pub pop_digests : {N : Type 0} → List Target → Notifier N → Notifier N
pop_digests [] s = s
pop_digests (key ∷ keys) s = pop_digests keys (pop_digest key s)

-- `flush_due`, with the number of digests that it queues.
unfoldable pub flush_due : {N : Type 0} → ℕ → Notifier N → ℕ × Notifier N
flush_due now s = let due = due_keys now s.digests in (length due, pop_digests due s)

-- How one delivery ended, and the delays that it slept through.
pub data Outcome : Type 0 where
  no_channel sent abandoned : Outcome

-- The loop of `_deliver` over the attempts: attempt number `k`, with `left` attempts to go. `send`
-- answers `false` when it raises.
unfoldable pub attempt : {W : Type 0} → Settings → (W → Bool × W) → ℕ → ℕ → W → Outcome × List ℕ × W
attempt cfg send k zero w = (abandoned, [], w)
attempt cfg send k (suc left) w =
    let (done, w') = send w in
    let again = attempt cfg send (k + 1) left w' in
    if done
    then (sent, [], w')
    else if ltb k cfg.attempts
    then (again.0, cfg.retry_delay_s * 2 ^ (k - 1) ∷ again.1, again.2)
    else again

-- `_deliver`, with the sender of the job's kind.
unfoldable pub deliver : {W : Type 0} → Settings → Option (W → Bool × W) → W → Outcome × List ℕ × W
unfolding attempt
deliver cfg none w = (no_channel, [], w)
deliver cfg (some send) w = attempt cfg send 1 cfg.attempts w
