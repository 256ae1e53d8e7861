-- ===== src/Collector/Writer.antt =====
-- The writing of setpoints (backend/app/collector/writer.py). The store, the driver, the clock and
-- the listener of readings are parameters; a call that can raise answers `none` or `false` then.
pub mod Checks
use superviseur.Prelude.{
  ℕ, ◌+◌, Bool, true, false, not, ◌&&◌, ◌||◌, Option, none, some, List, [], ◌∷◌, String, ◌==◌,
  string_eq, is_some, or_else, if◌then◌else◌,
}
use superviseur.Prelude.Int.{ℤ, pos, leb_ℤ}
use superviseur.Prelude.Float.{Float, flt, fsub}
use superviseur.Collector.Registry.{PointRef, Reading}

-- A command of the stream `cmd.write`, once its JSON is read.
pub record Command : Type 0 where
  pub point_id : ℕ
  pub value : Option Float
  pub priority : Option ℤ
  pub user_id : Option ℕ
  pub issued_at : Option Float

-- A message of the stream: `command` is `none` if its JSON or one of its fields cannot be read, and
-- `command_id` is empty as long as the id has not been read.
pub record Message : Type 0 where
  pub message_id : String
  pub command_id : String
  pub command : Option Command

pub record WriteTarget : Type 0 where
  pub ref : PointRef
  pub path : Option String
  pub writable : Bool
  pub write_min : Option Float
  pub write_max : Option Float
  pub last_value : Option Float

-- The refusals, a failure that gives no reason, a command that `execute` cannot carry out because
-- of an exception, and the errors of the driver.
pub data Error : Type 0 where
  expired user_required forbidden unknown_point not_writable bad_priority below_min above_max :
      Error
  no_reason invalid : Error
  driver_error : String → Error

-- `WriteResult`: no error is a success.
abbrev pub WriteResult : Type 0
WriteResult = Option Error

pub record AuditEntry : Type 0 where
  pub user : Option ℕ
  pub point : ℕ
  pub path : Option String
  pub before : Option (Option Float)
  pub value : Option Float
  pub priority : ℤ
  pub result : WriteResult

pub record Effects (W : Type 0) : Type 0 where
  pub time : W → Float × W
  pub get_write_target : ℕ → W → Option (Option WriteTarget) × W
  pub get_user_role : ℕ → W → Option (Option String) × W
  pub write : PointRef → Option Float → ℤ → W → Option WriteResult × W
  pub add_audit : AuditEntry → W → Bool × W
  pub read : PointRef → W → Option (List Reading) × W
  pub on_reading : Option (Reading → W → Bool × W)
  pub publish : String → WriteResult → W → Bool × W
  pub xack : String → W → Bool × W

-- Membership in `WRITER_ROLES`.
unfoldable pub is_writer : Option String → Bool
is_writer none = false
is_writer (some role) = role == "operator" || (role == "engineer" || role == "admin")

abbrev pub default_priority : ℤ
default_priority = pos 8

-- `limit is not None and value < limit`, and the same above.
abbrev pub is_below : Float → Option Float → Bool
is_below v none = false
is_below v (some low) = flt v low

abbrev pub is_above : Float → Option Float → Bool
is_above v none = false
is_above v (some high) = flt high v

abbrev pub check_value : WriteTarget → Option Float → WriteResult
check_value t none = none
check_value t (some v) =
    if is_below v t.write_min
    then some below_min
    else if is_above v t.write_max
    then some above_max
    else none

-- The tests of `_refusal` once the user's role is read.
unfoldable pub check_target : Option WriteTarget → Option Float → ℤ → WriteResult
check_target none v p = some unknown_point
check_target (some t) v p =
    if not t.writable
    then some not_writable
    else if not (leb_ℤ (pos 1) p && leb_ℤ p (pos 16))
    then some bad_priority
    else check_value t v

-- What a call of the writer returns: `none` is an exception, which `process` reports.
abbrev pub Answer : Type 0 → Type 0
Answer W = Option WriteResult × W

module _ {W : Type 0} (fx : Effects W) where
  open fx use {
    time, get_write_target, get_user_role, write, add_audit, read, on_reading, publish, xack,
  }

  unfoldable pub check_role :
      Option (Option String) → Option WriteTarget → Option Float → ℤ → W → Answer W
  check_role none t v p w = (none, w)
  check_role (some role) t v p w =
      (some (if is_writer role then check_target t v p else some forbidden), w)

  -- `_refusal`
  unfoldable pub refusal : Option WriteTarget → Option Float → ℤ → Option ℕ → W → Answer W
  refusal t v p none w = (some (some user_required), w)
  refusal t v p (some user) w = let (role, w') = get_user_role user w in check_role role t v p w'

  -- `issued_at is not None and time.time() - issued_at > max_age_s`, or else the refusal.
  unfoldable pub decide : Float → Command → Option WriteTarget → W → Answer W
  decide max_age c t w0 =
      let (now, w1) = time w0 in
      let aged = is_some c.issued_at && flt max_age (fsub now (or_else c.issued_at now)) in
      let w = if is_some c.issued_at then w1 else w0 in
      let p = or_else c.priority default_priority in
      if aged then (some (some expired), w) else refusal t c.value p c.user_id w

  -- The write itself, where nothing refused it.
  unfoldable pub perform : Command → Option WriteTarget → WriteResult → W → Answer W
  perform c t (some e) w = (some (some e), w)
  perform c none none w = (some (some no_reason), w)
  perform c (some t) none w = write t.ref c.value (or_else c.priority default_priority) w

  abbrev pub path_of : Option WriteTarget → Option String
  path_of none = none
  path_of (some t) = t.path

  abbrev pub value_before : Option WriteTarget → Option (Option Float)
  value_before none = none
  value_before (some t) = some t.last_value

  -- The entry of the audit log for a result.
  abbrev pub entry_of : Command → Option WriteTarget → WriteResult → AuditEntry
  entry_of c t r = record {
    user = c.user_id;
    point = c.point_id;
    path = path_of t;
    before = value_before t;
    value = c.value;
    priority = or_else c.priority default_priority;
    result = r;
  }

  -- The loop of `_refresh`, which an exception of the listener ends.
  unfoldable pub feed : (Reading → W → Bool × W) → List Reading → W → W
  feed f [] w = w
  feed f (r ∷ rs) w = let (done, w') = f r w in let rest = feed f rs w' in if done then rest else w'

  -- `_refresh`, with the readings of the point, or `none` for an exception or the time limit.
  unfoldable pub feed_read : (Reading → W → Bool × W) → Option (List Reading) × W → W
  unfolding feed
  feed_read f (none, w) = w
  feed_read f (some rs, w) = feed f rs w

  unfoldable pub refresh : Option (Reading → W → Bool × W) → PointRef → W → W
  unfolding feed_read
  refresh none ref w = w
  refresh (some f) ref w = feed_read f (read ref w)

  unfoldable pub refresh_after : Option WriteTarget → WriteResult → W → W
  refresh_after (some t) none w = refresh on_reading t.ref w
  refresh_after t r w = w

  unfoldable pub audit : Command → Option WriteTarget → Answer W → Answer W
  audit c t (none, w) = (none, w)
  audit c t (some r, w) =
      let (logged, w') = add_audit (entry_of c t r) w in
      if logged then (some r, refresh_after t r w') else (none, w')

  unfoldable pub perform_decided : Command → Option WriteTarget → Answer W → Answer W
  perform_decided c t (none, w) = (none, w)
  perform_decided c t (some r, w) = audit c t (perform c t r w)

  unfoldable pub execute_on : Float → Command → Option (Option WriteTarget) → W → Answer W
  execute_on max_age c none w = (none, w)
  execute_on max_age c (some t) w = perform_decided c t (decide max_age c t w)

  -- `execute`
  unfoldable pub execute : Float → Command → W → Answer W
  unfolding execute_on perform_decided audit perform refresh_after
  execute max_age c w = let (t, w') = get_write_target c.point_id w in execute_on max_age c t w'

  -- The `try` of `process`: a command that cannot be read raises, as `execute` may.
  unfoldable pub try_execute : Float → Option Command → W → Answer W
  try_execute max_age none w = (none, w)
  try_execute max_age (some c) w = execute max_age c w

  abbrev pub result_of : Option WriteResult → WriteResult
  result_of none = some invalid
  result_of (some r) = r

  -- The end of `process`: the result is published if the command has an id, then the message is
  -- taken off the stream; `false` is an exception of Redis.
  unfoldable pub report : Message → Answer W → Bool × W
  report m (r, w) =
      let (told, w') =
        if m.command_id == "" then (true, w) else publish m.command_id (result_of r) w in
      let taken = xack m.message_id w' in if told then taken else (false, w')

  -- `process`
  unfoldable pub process : Float → Message → W → Bool × W
  unfolding try_execute report
  process max_age m w = report m (try_execute max_age m.command w)
