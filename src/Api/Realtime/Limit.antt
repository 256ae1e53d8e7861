-- ===== src/Api/Realtime/Limit.antt =====
-- What holds of a connection whatever its client sends.
use superviseur.Prelude.{
  sym, ◌∙◌, map, ℕ, ◌+◌, ◌≤◌, ◌≡◌, refl, ap, Bool, false, not, ◌||◌, Option, none, some, List, [],
  ◌∷◌, ◌++◌, filter, length, length-append, ltb, nat_eq, arith, Bool-cases, Option-cases, inl, inr,
  if◌then◌else◌,
}
use mathlib.Core.Path.{subst}
use superviseur.Api.Realtime.{
  max_subscriptions, PointLatest, Sent, alarm_events, point_values, unsubscribed_from, Connection,
  member, ids_of, without, subscribe_new, subscribe, unsubscribe, Action, subscribed, unsubscribed,
  ping, unreadable, unknown, receive, connected, listen,
}

abbrev pub Distinct : List ℕ → Type 0
Distinct [] = Unit
Distinct (x ∷ xs) = (member x xs ≡ false) × Distinct xs

-- The connection has at most 500 points, each once, and is subscribed to the alarms and to exactly the
-- channels of its points.
pub record IsSound (c : Connection) : Type 0 where
  pub few : length c.points ≤ max_subscriptions
  pub once : Distinct c.points
  pub subscribed_to : c.channels ≡ alarm_events ∷ map point_values c.points

member-append : (x : ℕ) (ys zs : List ℕ) → member x (ys ++ zs) ≡ (member x ys || member x zs)
member-append x [] zs = refl
member-append x (y ∷ ys) zs = ground (arith, member-append x ys zs)

member-filter :
    (x : ℕ) (p : ℕ → Bool) (ys : List ℕ) → member x ys ≡ false → member x (filter p ys) ≡ false
member-filter x p [] h = refl
member-filter x p (y ∷ ys) h = ground (arith, h, member-filter x p ys)

Distinct-filter : (p : ℕ → Bool) (xs : List ℕ) → Distinct xs → Distinct (filter p xs)
Distinct-filter p [] h = tt
Distinct-filter p (x ∷ xs) h = elim (Bool-cases (p x)) [
  | inl kept ↦ rw kept (member-filter x p xs (h.0), Distinct-filter p xs (h.1))
  | inr dropped ↦ rw dropped (Distinct-filter p xs (h.1))
]

length-filter : (p : ℕ → Bool) (xs : List ℕ) → length (filter p xs) ≤ length xs
length-filter p [] = omega arith
length-filter p (x ∷ xs) = ground (arith, length-filter p xs)

-- A point put before a set unless it is there.
add-Distinct : (x : ℕ) (xs : List ℕ) → Distinct xs → Distinct (if member x xs then xs else x ∷ xs)
add-Distinct x xs h = elim (Bool-cases (member x xs)) [
  | inl has ↦ rw has (h)
  | inr lacks ↦ rw lacks (lacks, h)
]

ids_of-Distinct : (raw : List (Option ℕ)) (xs : List ℕ) → ids_of raw ≡ some xs → Distinct xs
unfolding ids_of
ids_of-Distinct [] xs e = subst Distinct {x = []} (grind (arith, e)) tt
ids_of-Distinct (none ∷ raw) xs e = cc
ids_of-Distinct (some x ∷ raw) xs e = elim (Option-cases (ids_of raw)) [
  | inl failed ↦ cc
  | inr (ys, got) ↦
      subst Distinct {x = if member x ys then ys else x ∷ ys} (grind (arith, got, e))
        (add-Distinct x ys (ids_of-Distinct raw ys got))
]

-- None of the points of the first list stands in the second.
abbrev Apart : List ℕ → List ℕ → Type 0
Apart [] ys = Unit
Apart (x ∷ xs) ys = (member x ys ≡ false) × Apart xs ys

Apart-without : (xs ys : List ℕ) → Apart (without xs ys) ys
Apart-without [] ys = tt
Apart-without (x ∷ xs) ys = elim (Bool-cases (member x ys)) [
  | inl has ↦ rw has (Apart-without xs ys)
  | inr lacks ↦ rw lacks (lacks, Apart-without xs ys)
]

member-absent :
    (x : ℕ) (ys zs : List ℕ)
    → member x ys ≡ false
    → member x zs ≡ false
    → member x (ys ++ zs) ≡ false
member-absent x ys zs a b = ground (arith, member-append x ys zs, a, b)

-- A point outside a set to which `y` is put after it.
head-absent : (y : ℕ) (xs ys : List ℕ) → Apart xs (y ∷ ys) → member y xs ≡ false
head-absent y [] ys h = refl
head-absent y (x ∷ xs) ys h = ground (arith, h.0, head-absent y xs ys (h.1))

Apart-tail : (y : ℕ) (xs ys : List ℕ) → Apart xs (y ∷ ys) → Apart xs ys
Apart-tail y [] ys h = tt
Apart-tail y (x ∷ xs) ys h = (ground (arith, h.0), Apart-tail y xs ys (h.1))

Distinct-append : (ys xs : List ℕ) → Distinct ys → Distinct xs → Apart xs ys → Distinct (ys ++ xs)
Distinct-append [] xs a b apart = b
Distinct-append (y ∷ ys) xs a b apart = (
  member-absent y ys xs (a.0) (head-absent y xs ys apart),
  Distinct-append ys xs (a.1) b (Apart-tail y xs ys apart),
)

-- The new points of a request, put after those of the connection.
new-Distinct : (ys xs : List ℕ) → Distinct ys → Distinct xs → Distinct (ys ++ without xs ys)
new-Distinct ys xs a b =
    Distinct-append ys (without xs ys) a (Distinct-filter (λ x. not (member x ys)) xs b)
      (Apart-without xs ys)

map_points-append :
    (xs ys : List ℕ) → map point_values (xs ++ ys) ≡ map point_values xs ++ map point_values ys
map_points-append [] ys = refl
map_points-append (x ∷ xs) ys = ap (λ cs. point_values x ∷ cs) (map_points-append xs ys)

unsubscribed_from-map :
    (gone xs : List ℕ)
    → unsubscribed_from gone (map point_values xs) ≡ map point_values (without xs gone)
unsubscribed_from-map gone [] = refl
unsubscribed_from-map gone (x ∷ xs) = elim (Bool-cases (member x gone)) [
  | inl leaves ↦ rw leaves (unsubscribed_from-map gone xs)
  | inr stays ↦ rw stays (ap (λ cs. point_values x ∷ cs) (unsubscribed_from-map gone xs))
]

module _ (E : Type 0) where
  subscribe_new-IsSound :
      (row : ℕ → Option PointLatest) (new : List ℕ) (c : Connection)
      → IsSound c
      → length c.points + length new ≤ max_subscriptions
      → Distinct (c.points ++ new)
      → IsSound ((subscribe_new {E = E} row new c).0)
  unfolding subscribe_new
  subscribe_new-IsSound row [] c sound few once = sound
  subscribe_new-IsSound row (x ∷ xs) c sound few once = record {
    few = rw (length-append c.points (x ∷ xs)) few;
    once = once;
    subscribed_to =
        ap (λ ys. ys ++ map point_values (x ∷ xs)) sound.subscribed_to
        ∙ ap (λ ys. alarm_events ∷ ys) (sym (map_points-append c.points (x ∷ xs)));
  }

  subscribe-IsSound :
      (row : ℕ → Option PointLatest) (raw : List (Option ℕ)) (c : Connection)
      → IsSound c
      → IsSound ((subscribe {E = E} row raw c).0)
  unfolding subscribe
  subscribe-IsSound row raw c sound = elim (Option-cases (ids_of raw)) [
    | inl failed ↦ rw (subscribe, failed) (sound)
    | inr (wanted, got) ↦
        let new = without wanted c.points in
        elim (Bool-cases (ltb max_subscriptions (length c.points + length new))) [
          | inl full ↦ rw (subscribe, got, full) (sound)
          | inr room ↦
              rw (subscribe, got, room)
                (subscribe_new-IsSound row new c sound (ground (arith, room))
                  (new-Distinct c.points wanted sound.once (ids_of-Distinct raw wanted got)))
        ]
  ]

  unsubscribe-IsSound :
      (raw : List (Option ℕ)) (c : Connection) → IsSound c → IsSound ((unsubscribe {E = E} raw c).0)
  unfolding unsubscribe
  unsubscribe-IsSound raw c sound = elim (Option-cases (ids_of raw)) [
    | inl failed ↦ rw (unsubscribe, failed) (sound)
    | inr (ids, got) ↦
        let gone = filter (λ x. member x c.points) ids in
        rw (unsubscribe, got)
          (record {
            few =
                (let shorter = length-filter (λ x. not (member x gone)) c.points in
                  let few = sound.few in omega arith);
            once = Distinct-filter (λ x. not (member x gone)) c.points sound.once;
            subscribed_to =
                ap (unsubscribed_from gone) sound.subscribed_to
                ∙ ap (λ ys. alarm_events ∷ ys) (unsubscribed_from-map gone c.points);
          })
  ]

  receive-IsSound :
      (row : ℕ → Option PointLatest) (action : Action) (c : Connection) (c' : Connection)
      (sent : List (Sent E))
      → IsSound c
      → receive row action c ≡ some (c', sent)
      → IsSound c'
  unfolding receive
  receive-IsSound row (subscribed none) c c' sent sound e = cc
  receive-IsSound row (subscribed (some raw)) c c' sent sound e =
      subst IsSound {x = (subscribe {E = E} row raw c).0} (grind (arith, e))
        (subscribe-IsSound row raw c sound)
  receive-IsSound row (unsubscribed none) c c' sent sound e = cc
  receive-IsSound row (unsubscribed (some raw)) c c' sent sound e =
      subst IsSound {x = (unsubscribe {E = E} raw c).0} (grind (arith, e))
        (unsubscribe-IsSound raw c sound)
  receive-IsSound row ping c c' sent sound e = subst IsSound {x = c} (grind (arith, e)) sound
  receive-IsSound row unreadable c c' sent sound e = subst IsSound {x = c} (grind (arith, e)) sound
  receive-IsSound row (unknown action) c c' sent sound e =
      subst IsSound {x = c} (grind (arith, e)) sound

  listen-IsSound :
      (requests : List ((ℕ → Option PointLatest) × Action)) (c : Connection)
      → IsSound c
      → IsSound ((listen {E = E} requests c).0)
  unfolding listen
  listen-IsSound [] c sound = sound
  listen-IsSound ((row, action) ∷ rest) c sound =
      elim (Option-cases (receive {E = E} row action c)) [
        | inl ended ↦ rw (listen, ended) (sound)
        | inr ((c', sent), got) ↦
            rw (listen, got)
              (listen-IsSound rest c' (receive-IsSound row action c c' sent sound got))
      ]

-- Whatever messages a client sends after it connects, of any kind and in any order, and whatever
-- values the database answers, the connection keeps at most 500 points, each once, and is subscribed
-- on Redis to the channel of the alarms and, beside it, to exactly the channels of its points.
pub connection_within_limit :
    (E : Type 0) (requests : List ((ℕ → Option PointLatest) × Action))
    → IsSound ((listen {E = E} requests connected).0)
connection_within_limit E requests =
    listen-IsSound E requests connected
      (record { few = omega arith; once = tt; subscribed_to = refl })
