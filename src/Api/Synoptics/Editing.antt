-- ===== src/Api/Synoptics/Editing.antt =====
-- Two editors of the same synoptic, and the restoration of an old version.
use superviseur.Prelude.{
  ℕ, ◌+◌, ◌≡◌, sym, ◌∙◌, ap, Bool, false, Option, some, [], ◌∷◌, ◌++◌, String, ltb, nat_eq, arith,
  Bool-cases, Option-cases, inl, inr,
}
use superviseur.Prelude.Dict.{Dict}
use superviseur.Api.Doc.{Value}
use superviseur.Api.Doc.Schema.{SynopticDoc, Verdict, valid, invalid, raised, validate_document}
use superviseur.Api.Session.{Detail, Answer, Answer-cases, done, refused, failed}
use superviseur.Api.Synoptics.Stored.{
  greatest-append, versions_of-added, by_id-id, by_id-rename, store_version_done,
}
use superviseur.Api.Synoptics.{
  Synoptic, SynopticVersion, SynopticOut, SynopticSave, Tables, Context, versions_of, greatest,
  latest, number, number_detail, by_id, next_version, store_version, rename, with_name, named,
  widgets, out, validated, max_doc_bytes, is_stale, save_checked, save_synoptic,
}

verdict_same :
    (v : Verdict) (doc accepted : SynopticDoc)
    → ◌≡◌ {A = Answer SynopticDoc}
        (elim v [
          | valid ↦ done doc
          | invalid ↦ refused 422 "synoptique invalide"
          | raised ↦ failed
        ])
        (done accepted)
    → accepted ≡ doc
verdict_same valid doc accepted e = cc
verdict_same invalid doc accepted e = cc
verdict_same raised doc accepted e = cc

module _ (is_uuid : Value → Bool) (size : SynopticDoc → ℕ) where
  pub validated_same :
      (doc accepted : SynopticDoc) → validated is_uuid size doc ≡ done accepted → accepted ≡ doc
  unfolding validated
  validated_same doc accepted e = elim (Bool-cases (ltb max_doc_bytes (size doc))) [
    | inl large ↦ let broken = rw (validated, large) at e in cc
    | inr small ↦
        verdict_same (validate_document is_uuid doc) doc accepted (rw (validated, small) at e)
  ]

  -- What a save that is answered found and did.
  save_checked_done :
      (c : Context) (id : ℕ) (base : Option ℕ) (doc : SynopticDoc) (t after : Tables)
      (o : SynopticOut)
      → save_checked is_uuid size c id base doc t ≡ (done o, after)
      → (s : Synoptic) × (by_id id t.synoptics ≡ some s)
        × (is_stale base (latest s.id t) ≡ false)
        × (after.synoptics ≡ rename s.id doc.name t.synoptics)
        × (after.versions ≡ t.versions ++ next_version c s.id doc t ∷ [])
        × (o ≡ out (named s doc) (next_version c s.id doc t))
  unfolding save_checked
  save_checked_done c id base doc t after o e = elim (Option-cases (by_id id t.synoptics)) [
    | inl missing ↦ let broken = rw (save_checked, missing) at e in cc
    | inr (s, found) ↦ elim (Bool-cases (is_stale base (latest s.id t))) [
      | inl stale ↦ let broken = rw (save_checked, found, stale) at e in cc
      | inr current ↦
          let before : Option (Dict String Detail) =
            some (("version", number_detail (latest s.id t)) ∷ []) in
          let t' = with_name s doc t in
          elim (Option-cases
            (store_version c "synoptic.save" before (widgets doc) (named s doc) doc t')) [
              | inl clash ↦ let broken = rw (save_checked, found, current, clash) at e in cc
              | inr ((answer, stored), k) ↦
                  let (first, versions, synoptics) =
                    store_version_done c "synoptic.save" before (widgets doc) (named s doc) doc t'
                      answer stored k in
                  let reached = rw (save_checked, found, current, k) at e in
                  let same : answer ≡ o = cc in
                  let there : stored ≡ after = cc in
                  (
                    s,
                    found,
                    current,
                    ap (λ (x : Tables). x.synoptics) (sym there) ∙ synoptics,
                    ap (λ (x : Tables). x.versions) (sym there) ∙ versions,
                    sym same ∙ first,
                  )
            ]
    ]
  ]

  save_done :
      (c : Context) (id : ℕ) (body : SynopticSave) (t after : Tables) (o : SynopticOut)
      → save_synoptic is_uuid size c id body t ≡ (done o, after)
      → (s : Synoptic) × (by_id id t.synoptics ≡ some s)
        × (is_stale body.base_version (latest s.id t) ≡ false)
        × (after.synoptics ≡ rename s.id body.doc.name t.synoptics)
        × (after.versions ≡ t.versions ++ next_version c s.id body.doc t ∷ [])
        × (o ≡ out (named s body.doc) (next_version c s.id body.doc t))
  unfolding save_synoptic
  save_done c id body t after o e = elim (Answer-cases (validated is_uuid size body.doc)) [
    | inl (doc, accepted) ↦ save_checked_done c id body.base_version body.doc t after o (
        ap (λ d. save_checked is_uuid size c id body.base_version d t)
          (sym (validated_same body.doc doc accepted))
        ∙ (rw (save_synoptic, accepted) at e))
    | inr (inl (n, detail, bad)) ↦ let broken = rw (save_synoptic, bad) at e in cc
    | inr (inr bad) ↦ let broken = rw (save_synoptic, bad) at e in cc
  ]

  pub latest-added :
      (c : Context) (id : ℕ) (doc : SynopticDoc) (t after : Tables)
      → after.versions ≡ t.versions ++ next_version c id doc t ∷ []
      → latest id after ≡ some (next_version c id doc t)
  latest-added c id doc t after e =
      let v = next_version c id doc t in
      ap (λ vs. greatest (versions_of id vs)) e
      ∙ ap greatest (versions_of-added v t.versions)
      ∙ greatest-append (versions_of id t.versions) v (omega arith)

  current-version :
      (base : ℕ) (o : Option SynopticVersion) (v : SynopticVersion)
      → is_stale (some base) o ≡ false
      → o ≡ some v
      → number o ≡ base
  unfolding is_stale
  current-version base o v h e = ap number e ∙ ground (arith, ap (is_stale (some base)) (sym e) ∙ h)

  -- What an answered save that names its version leaves: the next version is the latest.
  pub save_numbers :
      (c : Context) (id base : ℕ) (doc : SynopticDoc) (t after : Tables) (o : SynopticOut)
      (v : SynopticVersion)
      → latest id t ≡ some v
      → save_synoptic is_uuid size c id (record { doc = doc; base_version = some base }) t
        ≡ (done o, after)
      → (o.version ≡ base + 1)
        × (number (latest id after) ≡ base + 1)
        × ((s : Synoptic) × (by_id id after.synoptics ≡ some s))
  save_numbers c id base doc t after o v last e =
      let body : SynopticSave = record { doc = doc; base_version = some base } in
      let (s, found, current, synoptics, versions, answer) = save_done c id body t after o e in
      let i = by_id-id id t.synoptics s found in
      let there : latest s.id t ≡ some v = ap (λ k. latest k t) i ∙ last in
      let was : number (latest s.id t) ≡ base =
        current-version base (latest s.id t) v current there in
      let newest = latest-added c s.id doc t after versions in
      (
        ap (λ (x : SynopticOut). x.version) answer ∙ ap (λ n. n + 1) was,
        ap (λ k. number (latest k after)) (sym i) ∙ ap number newest ∙ ap (λ n. n + 1) was,
        (
          named s doc,
          ap (by_id id) (synoptics ∙ ap (λ k. rename k doc.name t.synoptics) i)
              ∙ by_id-rename id doc.name t.synoptics s found,
        ),
      )
