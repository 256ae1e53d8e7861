-- ===== src/Api/Write.antt =====
-- The route that writes a setpoint (backend/app/api/routes/write.py). Sending the command and waiting
-- for the collector's answer is an effect. The bounds in the texts of refusals are left out.
pub mod Agrees
use superviseur.Prelude.{
  ℕ, zero, suc, ◌+◌, Bool, true, false, not, ◌&&◌, Option, none, some, List, [], ◌∷◌, ◌++◌, String,
  leb, ◌==◌, string_eq, or_else, if◌then◌else◌,
}
use superviseur.Prelude.Int.{ℤ}
use superviseur.Prelude.Float.{Float, flt}
use superviseur.Prelude.Text.{Text}
use superviseur.Models.{RoleName}
use superviseur.Auth.Permissions.{has_role}
use superviseur.Api.Session.{Answer, done, refused, failed}
use superviseur.Api.Deps.{CurrentUser}

pub record WriteRequest : Type 0 where
  pub point_id : ℕ
  pub value : Option Float
  pub priority : ℤ

-- The columns of the table `point` that the route reads.
pub record Point : Type 0 where
  pub path : Option String
  pub writable : Bool
  pub write_min : Option Float
  pub write_max : Option Float

pub record Command : Type 0 where
  pub command_id : Text
  pub body : WriteRequest
  pub user_id : ℕ
  pub issued_at : Float

-- The answer of the collector.
pub record Reply : Type 0 where
  pub status : String
  pub message : String

-- An entry of the journal: who tried what, on which label, and with which refusal.
pub record Attempt : Type 0 where
  pub user_id : ℕ
  pub label : Option String
  pub body : WriteRequest
  pub refusal : String

pub record Effects (W : Type 0) : Type 0 where
  pub get_point : ℕ → W → Option Point × W
  pub add_audit : Attempt → W → W
  pub uuid : W → Text × W
  pub time : W → Float × W
  pub send_and_wait : Command → W → Option Reply × W

abbrev pub below : Option Float → Float → Bool
below none v = false
below (some m) v = flt v m

abbrev pub above : Option Float → Float → Bool
above none v = false
above (some m) v = flt m v

abbrev pub out_of_bounds : Point → Option Float → Option (ℕ × String)
out_of_bounds p none = none
out_of_bounds p (some v) =
    if below p.write_min v
    then some (422, "valeur inférieure au minimum")
    else if above p.write_max v
    then some (422, "valeur supérieure au maximum")
    else none

-- `point.path or str(point_id)`; the label `none` stands for the text of the id.
abbrev pub label_of : Point → Option String
label_of p = if or_else p.path "" == "" then none else p.path

-- The refusal of a request before it is sent, with the label of its journal entry.
unfoldable pub check_point : Option Point → WriteRequest → Option (ℕ × String × Option String)
check_point none body = some (404, "point introuvable", none)
check_point (some p) body =
    if not p.writable
    then some (409, "point non inscriptible", label_of p)
    else elim (out_of_bounds p body.value) [
      | none ↦ none
      | some (code, detail) ↦ some (code, detail, label_of p)
    ]

module _ {W : Type 0} (fx : Effects W) where
  open fx use {get_point, add_audit, uuid, time, send_and_wait}

  -- `refuse`
  unfoldable pub refuse :
      CurrentUser → WriteRequest → ℕ → String → Option String → W → Answer Text × W
  refuse user body code detail label w = (
    refused code detail,
    add_audit (record { user_id = user.id; label = label; body = body; refusal = detail }) w,
  )

  -- What the answer of the collector comes to.
  unfoldable pub answer :
      Option Reply → CurrentUser → WriteRequest → Option String → Text → W → Answer Text × W
  answer none user body label id w = refuse user body 504 "le collecteur n'a pas répondu" label w
  answer (some r) user body label id w =
      if r.status == "ok"
      then (done id, w)
      else (refused 502 (if r.message == "" then "écriture refusée" else r.message), w)

  -- The command is sent.
  unfoldable pub send : CurrentUser → WriteRequest → Option String → W → Answer Text × W
  send user body label w0 =
      let (id, w1) = uuid w0 in
      let (now, w2) = time w1 in
      let command : Command = record {
        command_id = id;
        body = body;
        user_id = user.id;
        issued_at = now;
      } in
      let (reply, w3) = send_and_wait command w2 in answer reply user body label id w3

  unfoldable pub write_checked : Option Point → CurrentUser → WriteRequest → W → Answer Text × W
  write_checked p user body w = elim (check_point p body) [
    | none ↦ send user body (elim p [ none ↦ none | some q ↦ label_of q ]) w
    | some (code, detail, label) ↦ refuse user body code detail label w
  ]

  -- `write_point`
  unfoldable pub write_point : CurrentUser → WriteRequest → W → Answer Text × W
  write_point user body w =
      let (p, w') = get_point body.point_id w in
      let checked = write_checked p user body w' in
      if has_role user.role RoleName.operator
      then checked
      else refuse user body 403 "droits insuffisants" none w
