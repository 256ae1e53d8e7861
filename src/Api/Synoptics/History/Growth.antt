-- ===== src/Api/Synoptics/History/Growth.antt =====
-- What each request leaves of the versions of all synoptics.
use superviseur.Prelude.{
  ℕ, ◌≡◌, ◌⊎◌, refl, Bool, ◌||◌, Option, none, some, List, [], ◌∷◌, ◌++◌, String, is_some, nat_eq,
  Bool-cases, Option-cases, inl, inr,
}
use superviseur.Prelude.Dict.{Dict}
use superviseur.Prelude.Text.{Text, text_eq}
use superviseur.Api.Doc.{Value}
use superviseur.Api.Doc.Slug.{is_valid_slug}
use superviseur.Api.Doc.Schema.{SynopticDoc}
use superviseur.Api.Session.{Detail, count, Answer-cases}
use superviseur.Api.Synoptics.Stored.{store_version_done}
use superviseur.Api.Synoptics.{
  Synoptic, SynopticVersion, SynopticCreate, SynopticSave, Tables, Context, versions_of, latest,
  number_detail, by_id, find_version, next_version, store_version, with_name, named, widgets, taken,
  choose_slug, requested, validated, insert_synoptic, create_checked, create_synoptic, is_stale,
  save_checked, save_synoptic, restore_found, restore_version,
}

-- The versions that a request leaves: those there were, or these and one with the next number.
abbrev pub Grows : Context → Tables → List SynopticVersion → Type 0
Grows c t vs =
    (vs ≡ t.versions)
    ⊎ ((id : ℕ) × (doc : SynopticDoc) × (vs ≡ t.versions ++ next_version c id doc t ∷ []))

module _ (is_uuid : Value → Bool) (size : SynopticDoc → ℕ) where
  insert_synoptic-Grows :
      (c : Context) (id : ℕ) (slug : Text) (doc : SynopticDoc) (t : Tables)
      → Grows c t (insert_synoptic is_uuid size c id slug doc t).1.versions
  unfolding insert_synoptic
  insert_synoptic-Grows c id slug doc t =
      elim (Bool-cases (taken slug t.synoptics || is_some (by_id id t.synoptics))) [
        | inl used ↦ rw (insert_synoptic, used) (inl refl)
        | inr free ↦
            let first : Synoptic = record {
              id = id;
              name = doc.name;
              slug = slug;
              owner_id = c.user.id;
            } in
            let t' : Tables = record t { synoptics = t.synoptics ++ first ∷ [] } in
            elim (Option-cases
              (store_version c "synoptic.create" none (widgets doc) first doc t')) [
                | inl broken ↦ rw (insert_synoptic, free, broken) (inl refl)
                | inr ((answer, after), e) ↦
                    rw (insert_synoptic, free, e)
                      (inr (
                        id,
                        doc,
                        (store_version_done c "synoptic.create" none (widgets doc) first doc t'
                            answer after e).1,
                      ))
              ]
      ]

  save_checked-Grows :
      (c : Context) (id : ℕ) (base : Option ℕ) (doc : SynopticDoc) (t : Tables)
      → Grows c t (save_checked is_uuid size c id base doc t).1.versions
  unfolding save_checked
  save_checked-Grows c id base doc t = elim (Option-cases (by_id id t.synoptics)) [
    | inl missing ↦ rw (save_checked, missing) (inl refl)
    | inr (s, found) ↦ elim (Bool-cases (is_stale base (latest s.id t))) [
      | inl stale ↦ rw (save_checked, found, stale) (inl refl)
      | inr current ↦
          let before : Option (Dict String Detail) =
            some (("version", number_detail (latest s.id t)) ∷ []) in
          let t' = with_name s doc t in
          elim (Option-cases
            (store_version c "synoptic.save" before (widgets doc) (named s doc) doc t')) [
              | inl broken ↦ rw (save_checked, found, current, broken) (inl refl)
              | inr ((answer, after), e) ↦
                  rw (save_checked, found, current, e)
                    (inr (
                      s.id,
                      doc,
                      (store_version_done c "synoptic.save" before (widgets doc) (named s doc) doc
                          t' answer after e).1,
                    ))
            ]
    ]
  ]

  restore_found-Grows :
      (c : Context) (s : Synoptic) (old : SynopticVersion) (t : Tables)
      → Grows c t (restore_found is_uuid size c s old t).1.versions
  unfolding restore_found
  restore_found-Grows c s old t = elim (Answer-cases (validated is_uuid size old.content)) [
    | inl (doc, accepted) ↦
        let before : Option (Dict String Detail) =
          some (("restored_version", count old.version) ∷ []) in
        let t' = with_name s doc t in
        elim (Option-cases (store_version c "synoptic.restore" before [] (named s doc) doc t')) [
          | inl broken ↦ rw (restore_found, accepted, broken) (inl refl)
          | inr ((answer, after), e) ↦
              rw (restore_found, accepted, e)
                (inr (
                  s.id,
                  doc,
                  (store_version_done c "synoptic.restore" before [] (named s doc) doc t' answer
                      after e).1,
                ))
        ]
    | inr (inl (n, detail, e)) ↦ rw (restore_found, e) (inl refl)
    | inr (inr e) ↦ rw (restore_found, e) (inl refl)
  ]

  pub create_synoptic-Grows :
      (c : Context) (id : ℕ) (body : SynopticCreate) (t : Tables)
      → Grows c t (create_synoptic is_uuid size c id body t).1.versions
  unfolding create_synoptic create_checked
  create_synoptic-Grows c id body t = elim (Answer-cases (validated is_uuid size body.doc)) [
    | inl (doc, accepted) ↦
        let slug = requested body.slug doc.name in
        elim (Bool-cases (is_valid_slug slug)) [
          | inl well ↦ elim (Option-cases (choose_slug body.slug slug t.synoptics)) [
            | inl never ↦ rw (create_synoptic, accepted, create_checked, well, never) (inl refl)
            | inr (free, e) ↦
                rw (create_synoptic, accepted, create_checked, well, e)
                  (insert_synoptic-Grows c id free doc t)
          ]
          | inr wrong ↦ rw (create_synoptic, accepted, create_checked, wrong) (inl refl)
        ]
    | inr (inl (n, detail, e)) ↦ rw (create_synoptic, e) (inl refl)
    | inr (inr e) ↦ rw (create_synoptic, e) (inl refl)
  ]

  pub save_synoptic-Grows :
      (c : Context) (id : ℕ) (body : SynopticSave) (t : Tables)
      → Grows c t (save_synoptic is_uuid size c id body t).1.versions
  unfolding save_synoptic
  save_synoptic-Grows c id body t = elim (Answer-cases (validated is_uuid size body.doc)) [
    | inl (doc, accepted) ↦
        rw (save_synoptic, accepted) (save_checked-Grows c id body.base_version doc t)
    | inr (inl (n, detail, e)) ↦ rw (save_synoptic, e) (inl refl)
    | inr (inr e) ↦ rw (save_synoptic, e) (inl refl)
  ]

  pub restore_version-Grows :
      (c : Context) (id n : ℕ) (t : Tables)
      → Grows c t (restore_version is_uuid size c id n t).1.versions
  unfolding restore_version
  restore_version-Grows c id n t = elim (Option-cases (by_id id t.synoptics)) [
    | inl missing ↦ rw (restore_version, missing) (inl refl)
    | inr (s, found) ↦ elim (Option-cases (find_version n (versions_of id t.versions))) [
      | inl unknown ↦ rw (restore_version, found, unknown) (inl refl)
      | inr (old, e) ↦ rw (restore_version, found, e) (restore_found-Grows c s old t)
    ]
  ]
