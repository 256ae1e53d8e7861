-- ===== src/Tests/Editing.antt =====
-- The routes on synoptics on concrete inputs.
use superviseur.Prelude.{ℕ, ◌+◌, ◌≡◌, refl, Bool, false, none, some, List, [], ◌∷◌}
use superviseur.Prelude.Int.{pos}
use superviseur.Prelude.Text.{Text, codes}
use superviseur.Api.Doc.{Value, is_safe_css_value}
use superviseur.Api.Doc.Schema.{
  SynopticDoc, validate_document, refer, canvas_ok, widgets_verdict, properties, references_ok,
  distinct,
}
use superviseur.Api.Session.{refused, record_audit}
use superviseur.Api.Synoptics.{
  Synoptic, SynopticVersion, SynopticSave, Tables, Context, versions_of, latest, by_id,
  find_version, taken, choose_slug, out, validated, save_synoptic, save_checked, restore_version,
  restore_found, store_version, insert_version, greatest, rename, is_stale,
}
use superviseur.Api.Synoptics.Slugs.{choose_slug_free}
use superviseur.Api.Synoptics.History.{
  Request, create, save, restore, delete, handle_all, CountsUp, versions_numbered, history_kept,
}
use superviseur.Api.Synoptics.Conflicts.{lost_update_refused}
use superviseur.Api.Synoptics.Restoring.{restore_copies}

-- A document without widgets.
abbrev plan : Text → SynopticDoc
plan name = record {
  schema_version = pos 1;
  name = name;
  canvas = record {
    width = pos 800;
    height = pos 600;
    background = codes "white";
    bg_image = none;
  };
  widgets = [];
  links = [];
}

abbrev first_plan : SynopticDoc
first_plan = plan (codes "Plan")

abbrev second_plan : SynopticDoc
second_plan = plan (codes "Plan 2")

abbrev row : Synoptic
row = record { id = 1; name = codes "Plan"; slug = codes "plan"; owner_id = 7 }

abbrev written : SynopticVersion
written = record {
  synoptic_id = 1;
  version = 1;
  content = first_plan;
  created_by = 7;
  created_at = 10;
}

abbrev stored : Tables
stored = record {
  db = record { roles = []; users = []; audit_log = [] };
  synoptics = row ∷ [];
  versions = written ∷ [];
}

abbrev ada : Context
ada = record {
  user = record { id = 7; login = codes "ada"; role = "engineer"; stamp = codes "s" };
  ip = none;
  now = 20;
}

abbrev no_uuid : Value → Bool
no_uuid v = false

abbrev short : SynopticDoc → ℕ
short d = 100

abbrev changes : List (Context × Request)
changes =
    (ada, save 1 (record { doc = second_plan; base_version = some 1 })) ∷ (ada, restore 1 1) ∷ []

choose_slug_free_example :
    (slug : Text) × (choose_slug none (codes "plan") (row ∷ []) ≡ some slug)
    × (taken slug (row ∷ []) ≡ false)
choose_slug_free_example = choose_slug_free (codes "plan") (row ∷ [])

versions_numbered_example :
    CountsUp 0 (versions_of 1 (handle_all no_uuid short changes stored).versions)
versions_numbered_example = versions_numbered no_uuid short 1 changes stored (refl, tt)

history_kept_example :
    (vs : List SynopticVersion) × (versions_of 1 (handle_all no_uuid short changes stored).versions
      ≡ written ∷ vs)
history_kept_example = history_kept no_uuid short 1 changes stored (refl, (refl, tt))

abbrev edit : SynopticSave
edit = record { doc = second_plan; base_version = some 1 }

abbrev edited : SynopticVersion
edited = record written { version = 2; content = second_plan; created_at = 20 }

abbrev after_edit : Tables
after_edit = (save_synoptic no_uuid short ada 1 edit stored).1

-- What comes between the two saves.
abbrev between : List (Context × Request)
between =
    (ada, create 2 (record { slug = none; doc = first_plan }))
    ∷ (ada, restore 1 1)
    ∷ (ada, delete 2)
    ∷ []

lost_update_refused_example :
    let later = handle_all no_uuid short between after_edit in
    (2 ≡ 1 + 1)
    × (save_synoptic no_uuid short ada 1 (record { doc = first_plan; base_version = some 1 }) later
        ≡ (refused 409 "enregistré entre-temps : rechargez avant d'enregistrer", later))
unfolding save_synoptic save_checked by_id validated validate_document refer canvas_ok
    is_safe_css_value widgets_verdict properties references_ok distinct find_version greatest
    store_version insert_version record_audit rename is_stale
lost_update_refused_example =
    lost_update_refused no_uuid short ada ada 1 1 second_plan first_plan stored after_edit
      (out (record row { name = codes "Plan 2" }) edited) written between refl refl
      (refl, (refl, (refl, tt))) refl

abbrev after_restore : Tables
after_restore = (restore_version no_uuid short ada 1 1 after_edit).1

restore_copies_example :
    (first_plan ≡ first_plan)
    × ((v : SynopticVersion) × (latest 1 after_restore ≡ some v) × (v.content ≡ first_plan))
    × (find_version 1 (versions_of 1 after_restore.versions) ≡ some written)
unfolding save_synoptic save_checked by_id validated validate_document refer canvas_ok
    is_safe_css_value widgets_verdict properties references_ok distinct find_version greatest
    store_version insert_version record_audit rename is_stale restore_version restore_found
restore_copies_example =
    restore_copies no_uuid short ada 1 1 after_edit after_restore
      (out (record row { name = codes "Plan" }) (record written { version = 3; created_at = 20 }))
      (record row { name = codes "Plan 2" }) written refl refl refl
