-- ===== src/Api/Synoptics.antt =====
-- Synoptics and their versions (backend/app/api/routes/synoptics.py). One request is one step. A
-- document is given, kept and returned by its typed fields.
pub mod Slugs
pub mod History
mod Stored
pub mod Editing
pub mod Conflicts
pub mod Restoring
use superviseur.Prelude.{
  ℕ, zero, suc, ◌+◌, ◌*◌, Bool, true, false, not, ◌&&◌, ◌||◌, Option, none, some, List, [], ◌∷◌,
  ◌++◌, String, ltb, any, filter, length, take, is_some, or_else, ◌==◌, nat_eq, if◌then◌else◌,
}
use superviseur.Prelude.Text.{Text, text_eq, codes}
use superviseur.Prelude.Digits.{decimal}
use superviseur.Prelude.Dict.{Dict}
use superviseur.Api.Doc.{Value, max_image_bytes}
use superviseur.Api.Doc.Slug.{is_valid_slug, slugify}
use superviseur.Api.Doc.Schema.{SynopticDoc, Verdict, valid, invalid, raised, validate_document}
use superviseur.Api.Session.{
  Detail, count, null, AuditLog, Database, record_audit, Answer, done, refused, failed,
}
use superviseur.Api.Deps.{CurrentUser}

-- The rows of the tables `synoptic` and `synoptic_version` (backend/app/db/models.py).
pub record Synoptic : Type 0 where
  pub id : ℕ
  pub name : Text
  pub slug : Text
  pub owner_id : ℕ

pub record SynopticVersion : Type 0 where
  pub synoptic_id : ℕ
  pub version : ℕ
  pub content : SynopticDoc
  pub created_by : ℕ
  pub created_at : ℕ

pub record Tables : Type 0 where
  pub db : Database
  pub synoptics : List Synoptic
  pub versions : List SynopticVersion

pub record SynopticOut : Type 0 where
  pub id : ℕ
  pub name : Text
  pub slug : Text
  pub version : ℕ
  pub updated_at : ℕ
  pub doc : SynopticDoc

pub record SynopticCreate : Type 0 where
  pub slug : Option Text
  pub doc : SynopticDoc

pub record SynopticSave : Type 0 where
  pub doc : SynopticDoc
  pub base_version : Option ℕ

-- Who asks, from where, and when the database writes.
pub record Context : Type 0 where
  pub user : CurrentUser
  pub ip : Option String
  pub now : ℕ

abbrev pub max_doc_bytes : ℕ
max_doc_bytes = 6 * 1024 * 1024

-- The versions of a synoptic, in the order in which they were written.
abbrev pub versions_of : ℕ → List SynopticVersion → List SynopticVersion
versions_of id vs = filter (λ (v : SynopticVersion). v.synoptic_id == id) vs

-- The version with the greatest number.
abbrev pub newer : SynopticVersion → Option SynopticVersion → SynopticVersion
newer v none = v
newer v (some u) = if ltb u.version v.version then v else u

unfoldable pub greatest : List SynopticVersion → Option SynopticVersion
greatest [] = none
greatest (v ∷ vs) = some (newer v (greatest vs))

-- `_latest`
abbrev pub latest : ℕ → Tables → Option SynopticVersion
latest id t = greatest (versions_of id t.versions)

abbrev number_detail : Option SynopticVersion → Detail
number_detail none = null
number_detail (some v) = count v.version

abbrev pub number : Option SynopticVersion → ℕ
number none = 0
number (some v) = v.version

-- `_by_slug` and `_by_id`; none is the answer 404.
unfoldable pub by_slug : Text → List Synoptic → Option Synoptic
by_slug slug [] = none
by_slug slug (s ∷ ss) = if s.slug == slug then some s else by_slug slug ss

unfoldable pub by_id : ℕ → List Synoptic → Option Synoptic
by_id id [] = none
by_id id (s ∷ ss) = if s.id == id then some s else by_id id ss

-- The version of a synoptic with a number.
unfoldable pub find_version : ℕ → List SynopticVersion → Option SynopticVersion
find_version n [] = none
find_version n (v ∷ vs) = if v.version == n then some v else find_version n vs

-- `_out`
abbrev pub out : Synoptic → SynopticVersion → SynopticOut
out s v = record {
  id = s.id;
  name = s.name;
  slug = s.slug;
  version = v.version;
  updated_at = v.created_at;
  doc = v.content;
}

-- The row that `_add_version` inserts.
abbrev pub next_version : Context → ℕ → SynopticDoc → Tables → SynopticVersion
next_version c id doc t = record {
  synoptic_id = id;
  version = number (latest id t) + 1;
  content = doc;
  created_by = c.user.id;
  created_at = c.now;
}

-- The insertion of a version; none is the `IntegrityError` of a number that is taken.
unfoldable pub insert_version : SynopticVersion → Tables → Option Tables
insert_version v t =
    if is_some (find_version v.version (versions_of v.synoptic_id t.versions))
    then none
    else some (record t { versions = t.versions ++ v ∷ [] })

-- `synoptic.name = doc.name`
unfoldable pub rename : ℕ → Text → List Synoptic → List Synoptic
rename id name [] = []
rename id name (s ∷ ss) =
    if s.id == id then record s { name = name } ∷ ss else s ∷ rename id name ss

abbrev pub journal :
    Context → String → Text → Option (Dict String Detail) → Option (Dict String Detail) → AuditLog
journal c action slug before after = record {
  user_id = some c.user.id;
  action = action;
  target = some slug;
  before = before;
  after = after;
  ip = c.ip;
}

-- `f"{base[:60]}-{suffix}"`
abbrev pub candidate : Text → ℕ → Text
candidate base suffix = take 60 base ++ b'-' ∷ decimal suffix

abbrev pub taken : Text → List Synoptic → Bool
taken slug ss = any (λ (s : Synoptic). s.slug == slug) ss

-- The loop that adapts a slug; none stands for a loop that has not ended yet.
unfoldable pub free_slug : ℕ → Text → Text → ℕ → List Synoptic → Option Text
free_slug zero base slug suffix ss = none
free_slug (suc f) base slug suffix ss =
    let further = free_slug f base (candidate base (suffix + 1)) (suffix + 1) ss in
    if taken slug ss then further else some slug

-- The slug of a new synoptic, from the one that was asked for and from its name.
unfoldable pub choose_slug : Option Text → Text → List Synoptic → Option Text
choose_slug (some slug) base ss = some base
choose_slug none base ss = free_slug (suc (suc (length ss))) base base 1 ss

abbrev pub requested : Option Text → Text → Text
requested none name = slugify name
requested (some []) name = slugify name
requested (some (c ∷ cs)) name = c ∷ cs

-- What a request leaves: its answer and the tables.
abbrev pub Reply : Type 0
Reply = Answer SynopticOut × Tables

abbrev pub not_found : String → Tables → Reply
not_found detail t = (refused 404 detail, t)

-- `get_synoptic`
unfoldable pub get_synoptic : Text → Tables → Answer SynopticOut
get_synoptic slug t = elim (by_slug slug t.synoptics) [
  | none ↦ refused 404 "synoptique introuvable"
  | some s ↦ elim (latest s.id t) [
    | none ↦ refused 404 "synoptique sans version"
    | some v ↦ done (out s v)
  ]
]

-- `get_version`
unfoldable pub get_version : Text → ℕ → Tables → Answer SynopticOut
get_version slug n t = elim (by_slug slug t.synoptics) [
  | none ↦ refused 404 "synoptique introuvable"
  | some s ↦ elim (find_version n (versions_of s.id t.versions)) [
    | none ↦ refused 404 "version introuvable"
    | some v ↦ done (out s v)
  ]
]

-- `delete_synoptic`
unfoldable pub delete_synoptic : Context → ℕ → Tables → Answer (Unit {0}) × Tables
delete_synoptic c id t = elim (by_id id t.synoptics) [
  | none ↦ (refused 404 "synoptique introuvable", t)
  | some s ↦
      let entry =
        journal c "synoptic.delete" s.slug (some (("version", number_detail (latest id t)) ∷ []))
          none in
      (
        done tt,
        record {
          db = record_audit entry t.db;
          synoptics = filter (λ (x : Synoptic). not (x.id == id)) t.synoptics;
          versions = filter (λ (v : SynopticVersion). not (v.synoptic_id == id)) t.versions;
        },
      )
]

-- A new version of a synoptic and its entry in the journal; none is an `IntegrityError`.
unfoldable pub store_version :
    Context
    → String
    → Option (Dict String Detail)
    → Dict String Detail
    → Synoptic
    → SynopticDoc
    → Tables
    → Option (SynopticOut × Tables)
store_version c action before more s doc t =
    let v = next_version c s.id doc t in
    let entry = journal c action s.slug before (some (("version", count v.version) ∷ more)) in
    elim (insert_version v t) [
      | none ↦ none
      | some t' ↦ some (out s v, record t' { db = record_audit entry t'.db })
    ]

abbrev pub widgets : SynopticDoc → Dict String Detail
widgets doc = ("widgets", count (length doc.widgets)) ∷ []

-- The synoptic and its row with the name of the document.
abbrev pub named : Synoptic → SynopticDoc → Synoptic
named s doc = record s { name = doc.name }

abbrev pub with_name : Synoptic → SynopticDoc → Tables → Tables
with_name s doc t = record t { synoptics = rename s.id doc.name t.synoptics }

-- The version that the editor worked on is still the latest, if it names one.
unfoldable pub is_stale : Option ℕ → Option SynopticVersion → Bool
is_stale (some base) (some v) = not (v.version == base)
is_stale _ _ = false

-- The identifiers that are UUIDs, and the length of a document's JSON, are parameters.
module _ (is_uuid : Value → Bool) (size : SynopticDoc → ℕ) where
  -- `_validated`
  unfoldable pub validated : SynopticDoc → Answer SynopticDoc
  validated doc =
      let verdict : Answer SynopticDoc = elim (validate_document is_uuid doc) [
        | valid ↦ done doc
        | invalid ↦ refused 422 "synoptique invalide"
        | raised ↦ failed
      ] in
      if ltb max_doc_bytes (size doc)
      then refused 413 "synoptique trop volumineux (6 Mo)"
      else verdict

  -- The insertion of a synoptic with its first version.
  unfoldable pub insert_synoptic : Context → ℕ → Text → SynopticDoc → Tables → Reply
  insert_synoptic c id slug doc t =
      let s : Synoptic = record { id = id; name = doc.name; slug = slug; owner_id = c.user.id } in
      let stored : Reply =
        elim (store_version c "synoptic.create" none (widgets doc) s doc
          (record t { synoptics = t.synoptics ++ s ∷ [] })) [
            | none ↦ (failed, t)
            | some (answer, t') ↦ (done answer, t')
          ] in
      if taken slug t.synoptics || is_some (by_id id t.synoptics)
      then (refused 409 "le slug existe déjà", t)
      else stored

  unfoldable pub create_checked : Context → ℕ → Option Text → Text → SynopticDoc → Tables → Reply
  create_checked c id asked slug doc t =
      let created : Reply = elim (choose_slug asked slug t.synoptics) [
        | none ↦ (failed, t)
        | some free ↦ insert_synoptic c id free doc t
      ] in
      if is_valid_slug slug
      then created
      else (refused 422 "slug : minuscules, chiffres et tirets", t)

  -- `create_synoptic`; the id is the one that the database gives.
  unfoldable pub create_synoptic : Context → ℕ → SynopticCreate → Tables → Reply
  create_synoptic c id body t = elim (validated body.doc) [
    | done doc ↦ create_checked c id body.slug (requested body.slug doc.name) doc t
    | refused code detail ↦ (refused code detail, t)
    | failed ↦ (failed, t)
  ]

  unfoldable pub save_checked : Context → ℕ → Option ℕ → SynopticDoc → Tables → Reply
  save_checked c id base doc t = elim (by_id id t.synoptics) [
    | none ↦ not_found "synoptique introuvable" t
    | some s ↦
        let saved : Reply =
          elim (store_version c "synoptic.save"
            (some (("version", number_detail (latest s.id t)) ∷ [])) (widgets doc) (named s doc) doc
            (with_name s doc t)) [
              | none ↦ (refused 409 "enregistrement simultané : réessayez", t)
              | some (answer, t') ↦ (done answer, t')
            ] in
        if is_stale base (latest s.id t)
        then (refused 409 "enregistré entre-temps : rechargez avant d'enregistrer", t)
        else saved
  ]

  -- `save_synoptic`
  unfoldable pub save_synoptic : Context → ℕ → SynopticSave → Tables → Reply
  save_synoptic c id body t = elim (validated body.doc) [
    | done doc ↦ save_checked c id body.base_version doc t
    | refused code detail ↦ (refused code detail, t)
    | failed ↦ (failed, t)
  ]

  unfoldable pub restore_found : Context → Synoptic → SynopticVersion → Tables → Reply
  restore_found c s old t = elim (validated old.content) [
    | done doc ↦
        elim (store_version c "synoptic.restore"
          (some (("restored_version", count old.version) ∷ [])) [] (named s doc) doc
          (with_name s doc t)) [ none ↦ (failed, t) | some (answer, t') ↦ (done answer, t') ]
    | refused code detail ↦ (refused code detail, t)
    | failed ↦ (failed, t)
  ]

  -- `restore_version`
  unfoldable pub restore_version : Context → ℕ → ℕ → Tables → Reply
  restore_version c id n t = elim (by_id id t.synoptics) [
    | none ↦ not_found "synoptique introuvable" t
    | some s ↦ elim (find_version n (versions_of id t.versions)) [
      | none ↦ not_found "version introuvable" t
      | some old ↦ restore_found c s old t
    ]
  ]
