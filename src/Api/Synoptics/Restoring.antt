-- ===== src/Api/Synoptics/Restoring.antt =====
-- The restoration of an old version.
use superviseur.Prelude.{
  ℕ, ◌≡◌, refl, sym, ◌∙◌, ap, Bool, Option, some, List, [], ◌∷◌, ◌++◌, String, ◌==◌, nat_eq,
  Bool-cases, Option-cases, inl, inr,
}
use superviseur.Prelude.Dict.{Dict}
use superviseur.Api.Doc.{Value}
use superviseur.Api.Doc.Schema.{SynopticDoc}
use superviseur.Api.Session.{Detail, count, Answer-cases, done}
use superviseur.Api.Synoptics.Stored.{versions_of-added, by_id-id, store_version_done}
use superviseur.Api.Synoptics.Editing.{validated_same, latest-added}
use superviseur.Api.Synoptics.{
  Synoptic, SynopticVersion, SynopticOut, Tables, Context, versions_of, latest, by_id, find_version,
  next_version, store_version, with_name, named, validated, restore_found, restore_version,
}

find_version-append :
    (n : ℕ) (vs ws : List SynopticVersion) (v : SynopticVersion)
    → find_version n vs ≡ some v
    → find_version n (vs ++ ws) ≡ some v
unfolding find_version
find_version-append n [] ws v e = cc
find_version-append n (u ∷ vs) ws v e = elim (Bool-cases (u.version == n)) [
  | inl here ↦ rw here (rw here at e)
  | inr other ↦ rw other (find_version-append n vs ws v (rw other at e))
]

module _ (is_uuid : Value → Bool) (size : SynopticDoc → ℕ) where
  restore_found_done :
      (c : Context) (s : Synoptic) (old : SynopticVersion) (t after : Tables) (o : SynopticOut)
      → restore_found is_uuid size c s old t ≡ (done o, after)
      → (after.versions ≡ t.versions ++ next_version c s.id old.content t ∷ [])
        × (o.doc ≡ old.content)
  unfolding restore_found
  restore_found_done c s old t after o e =
      elim (Answer-cases (validated is_uuid size old.content)) [
        | inl (doc, accepted) ↦
            let same_doc = validated_same is_uuid size old.content doc accepted in
            let before : Option (Dict String Detail) =
              some (("restored_version", count old.version) ∷ []) in
            let t' = with_name s doc t in
            elim (Option-cases
              (store_version c "synoptic.restore" before [] (named s doc) doc t')) [
                | inl clash ↦ let broken = rw (restore_found, accepted, clash) at e in cc
                | inr ((answer, stored), k) ↦
                    let (first, versions, synoptics) =
                      store_version_done c "synoptic.restore" before [] (named s doc) doc t' answer
                        stored k in
                    let reached = rw (restore_found, accepted, k) at e in
                    let same : answer ≡ o = cc in
                    let there : stored ≡ after = cc in
                    (
                      ap (λ (x : Tables). x.versions) (sym there)
                          ∙ versions
                          ∙ ap (λ d. t.versions ++ next_version c s.id d t ∷ []) same_doc,
                      ap (λ (x : SynopticOut). x.doc) (sym same ∙ first) ∙ same_doc,
                    )
              ]
        | inr (inl (n, detail, bad)) ↦ let broken = rw (restore_found, bad) at e in cc
        | inr (inr bad) ↦ let broken = rw (restore_found, bad) at e in cc
      ]

  -- When the restoration of a version of a synoptic is answered, the document that it answers and that
  -- of the latest version are the document of the version it restores, and that version is still there.
  pub restore_copies :
      (c : Context) (id n : ℕ) (t after : Tables) (o : SynopticOut) (s : Synoptic)
      (old : SynopticVersion)
      → by_id id t.synoptics ≡ some s
      → find_version n (versions_of id t.versions) ≡ some old
      → restore_version is_uuid size c id n t ≡ (done o, after)
      → (o.doc ≡ old.content)
        × ((v : SynopticVersion) × (latest id after ≡ some v) × (v.content ≡ old.content))
        × (find_version n (versions_of id after.versions) ≡ some old)
  unfolding restore_version
  restore_copies c id n t after o s old row there e =
      let reached = rw (restore_version, row, there) at e in
      let (versions, doc) = restore_found_done c s old t after o reached in
      let i = by_id-id id t.synoptics s row in
      let v = next_version c s.id old.content t in
      let newest = latest-added is_uuid size c s.id old.content t after versions in
      (
        doc,
        (v, ap (λ k. latest k after) (sym i) ∙ newest, refl),
        ap (λ k. find_version n (versions_of k after.versions)) (sym i)
            ∙ ap (λ vs. find_version n (versions_of s.id vs)) versions
            ∙ ap (find_version n) (versions_of-added v t.versions)
            ∙ find_version-append n (versions_of s.id t.versions) (v ∷ []) old
                (ap (λ k. find_version n (versions_of k t.versions)) i ∙ there),
      )
