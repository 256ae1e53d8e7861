-- ===== src/Api/Realtime.antt =====
-- The WebSocket of live values (backend/app/api/routes/ws.py). The handling of a message is one step;
-- Redis and the database answer. A set is a list without repetitions.
pub mod Limit
use superviseur.Prelude.{
  ℕ, ◌+◌, Bool, true, false, not, ◌&&◌, Option, none, some, List, [], ◌∷◌, ◌++◌, String, map, any,
  filter, length, leb, ltb, ◌==◌, nat_eq, if◌then◌else◌,
}
use Prim.Native.String.{◌++◌ as ◌+++◌}
use superviseur.Prelude.Float.{Float}
use superviseur.Prelude.Text.{Text}
use superviseur.Auth.Tokens.{Payload, TokenClaims, decode_token, access}
use superviseur.Api.Session.{Database}
use superviseur.Api.Deps.{CurrentUser, load_user}

abbrev pub max_subscriptions : ℕ
max_subscriptions = 500

-- A row of the table `point_latest`.
pub record PointLatest : Type 0 where
  pub point_id : ℕ
  pub ts : ℕ
  pub value : Option Float
  pub status : String

-- A message to the client.
pub data Sent (E : Type 0) : Type 0 where
  latest : PointLatest → Sent E
  live : ℕ → E → Sent E
  alarm : E → Sent E
  error : String → Sent E
  pong : Sent E

-- A channel of Redis: that of the alarms, or that of the values of a point.
pub data Channel : Type 0 where
  alarm_events : Channel
  point_values : ℕ → Channel

-- `Connection`: the points of the client, and the channels to which it is subscribed on Redis.
pub record Connection : Type 0 where
  pub points : List ℕ
  pub channels : List Channel

-- The connection as the loop of `realtime` begins: `Connection.__init__`, and the subscription to the
-- alarms.
abbrev pub connected : Connection
connected = record { points = []; channels = alarm_events ∷ [] }

abbrev pub member : ℕ → List ℕ → Bool
member x ys = any (λ y. y == x) ys

-- `{uuid.UUID(str(raw)) for raw in raw_ids}`; none is the `ValueError` of an id that is no UUID.
unfoldable pub ids_of : List (Option ℕ) → Option (List ℕ)
ids_of [] = some []
ids_of (none ∷ raw) = none
ids_of (some x ∷ raw) = elim (ids_of raw) [
  | none ↦ none
  | some xs ↦ some (if member x xs then xs else x ∷ xs)
]

abbrev pub without : List ℕ → List ℕ → List ℕ
without xs ys = filter (λ x. not (member x ys)) xs

-- A message of the client. The points are none where they cannot be listed, and the raw ids in them
-- none where they are no UUID.
pub data Action : Type 0 where
  subscribed unsubscribed : Option (List (Option ℕ)) → Action
  ping unreadable : Action
  unknown : String → Action

-- A message of Redis, by its channel.
pub data Incoming (E : Type 0) : Type 0 where
  alarm_event : E → Incoming E
  point_value : ℕ → E → Incoming E
  elsewhere : Incoming E

-- The channel is none of those of the points.
abbrev pub is_other_channel : List ℕ → Channel → Bool
is_other_channel gone alarm_events = true
is_other_channel gone (point_values x) = not (member x gone)

abbrev pub unsubscribed_from : List ℕ → List Channel → List Channel
unsubscribed_from gone cs = filter (is_other_channel gone) cs

module _ {E : Type 0} where
  -- The rows of the points that have one.
  abbrev pub rows_of : (ℕ → Option PointLatest) → List ℕ → List (Sent E)
  rows_of row [] = []
  rows_of row (x ∷ xs) = elim (row x) [ none ↦ rows_of row xs | some r ↦ latest r ∷ rows_of row xs ]

  -- The end of `_subscribe`, for the points that the client does not have yet.
  unfoldable pub subscribe_new :
      (ℕ → Option PointLatest) → List ℕ → Connection → Connection × List (Sent E)
  subscribe_new row [] c = (c, [])
  subscribe_new row (x ∷ xs) c = (
    record { points = c.points ++ x ∷ xs; channels = c.channels ++ map point_values (x ∷ xs) },
    rows_of row (x ∷ xs),
  )

  -- `_subscribe`
  unfoldable pub subscribe :
      (ℕ → Option PointLatest) → List (Option ℕ) → Connection → Connection × List (Sent E)
  subscribe row raw c = elim (ids_of raw) [
    | none ↦ (c, error "identifiant de point invalide" ∷ [])
    | some wanted ↦
        let new = without wanted c.points in
        if ltb max_subscriptions (length c.points + length new)
        then (c, error "limite de 500 points par connexion" ∷ [])
        else subscribe_new row new c
  ]

  -- `_unsubscribe`; without a point that the client has, nothing changes.
  unfoldable pub unsubscribe : List (Option ℕ) → Connection → Connection × List (Sent E)
  unsubscribe raw c = elim (ids_of raw) [
    | none ↦ (c, error "identifiant de point invalide" ∷ [])
    | some ids ↦
        let wanted = filter (λ x. member x c.points) ids in
        (
          record {
            points = without c.points wanted;
            channels = unsubscribed_from wanted c.channels;
          },
          [],
        )
  ]

  -- A round of the loop of `realtime`; none is an exception, which ends the connection.
  unfoldable pub receive :
      (ℕ → Option PointLatest) → Action → Connection → Option (Connection × List (Sent E))
  receive row (subscribed none) c = none
  receive row (subscribed (some raw)) c = some (subscribe row raw c)
  receive row (unsubscribed none) c = none
  receive row (unsubscribed (some raw)) c = some (unsubscribe raw c)
  receive row ping c = some (c, pong ∷ [])
  receive row unreadable c = some (c, error "message invalide" ∷ [])
  receive row (unknown action) c = some (c, error ("action inconnue : " +++ action) ∷ [])

  -- The loop of `realtime` over the messages of the client, each with the rows of `point_latest` as it
  -- finds them; the result has all that was sent.
  unfoldable pub listen :
      List ((ℕ → Option PointLatest) × Action) → Connection → Connection × List (Sent E)
  listen [] c = (c, [])
  listen ((row, action) ∷ rest) c = elim (receive row action c) [
    | none ↦ (c, [])
    | some (next, sent) ↦ let (last, more) = listen rest next in (last, sent ++ more)
  ]

  -- A round of `_pump`: none closes the connection, since the token is no longer valid.
  unfoldable pub pump : TokenClaims → ℕ → Option (Incoming E) → Option (List (Sent E))
  pump claims now message =
      let relayed : List (Sent E) = elim message [
        | none ↦ []
        | some (alarm_event e) ↦ alarm e ∷ []
        | some (point_value x e) ↦ live x e ∷ []
        | some elsewhere ↦ []
      ] in
      if leb claims.expires_at now then none else some relayed

-- `_authenticate`
unfoldable pub authenticate :
    (Text → Text)
    → (Text → Option Payload)
    → Option Text
    → Database
    → Option (CurrentUser × TokenClaims)
authenticate password_stamp decode cookie db = elim (decode_token decode cookie access) [
  | none ↦ none
  | some claims ↦ elim (load_user password_stamp db claims.user_id (some claims.stamp)) [
    | none ↦ none
    | some user ↦ some (user, claims)
  ]
]
