-- ===== src/Api/Synoptics/Stored.antt =====
-- What the insertion of a version leaves, and which version is then the latest.
use superviseur.Prelude.{
  ℕ, ◌≤◌, ◌<◌, ◌≡◌, refl, sym, ◌∙◌, ap, Bool, false, Option, none, some, List, [], ◌∷◌, ◌++◌,
  String, is_some, ltb, ◌==◌, nat_eq, agree_refl, arith, Bool-cases, inl, inr, if◌then◌else◌,
}
use superviseur.Prelude.Dict.{Dict}
use superviseur.Prelude.Text.{Text}
use superviseur.Api.Doc.Schema.{SynopticDoc}
use superviseur.Api.Session.{Detail}
use superviseur.Api.Synoptics.{
  Synoptic, SynopticVersion, SynopticOut, Tables, Context, versions_of, greatest, newer, number,
  by_id, find_version, next_version, insert_version, store_version, rename, out,
}

newer-bounds :
    (u : SynopticVersion) (o : Option SynopticVersion)
    → (u.version ≤ (newer u o).version) × (number o ≤ (newer u o).version)
newer-bounds u none = (omega arith, omega arith)
newer-bounds u (some w) = (ground arith, ground arith)

pub greatest-append :
    (vs : List SynopticVersion) (v : SynopticVersion)
    → number (greatest vs) < v.version
    → greatest (vs ++ v ∷ []) ≡ some v
unfolding greatest
greatest-append [] v h = refl
greatest-append (u ∷ vs) v h =
    let (self, others) = newer-bounds u (greatest vs) in
    let rest = greatest-append vs v (omega (arith, h, others)) in
    ap (λ o. some (newer u o)) rest
    ∙ ap (λ (b : Bool). some (if b then u else v))
        (let older : ltb v.version u.version ≡ false = ground (arith, h, self) in older)

pub versions_of-added :
    (v : SynopticVersion) (vs : List SynopticVersion)
    → versions_of v.synoptic_id (vs ++ v ∷ []) ≡ versions_of v.synoptic_id vs ++ v ∷ []
versions_of-added v [] = rw (agree_refl v.synoptic_id) refl
versions_of-added v (x ∷ vs) = elim (Bool-cases (x.synoptic_id == v.synoptic_id)) [
  | inl here ↦ rw here (ap (λ zs. x ∷ zs) (versions_of-added v vs))
  | inr other ↦ rw other (versions_of-added v vs)
]

pub by_id-id : (id : ℕ) (ss : List Synoptic) (s : Synoptic) → by_id id ss ≡ some s → s.id ≡ id
unfolding by_id
by_id-id id [] s e = cc
by_id-id id (x ∷ ss) s e = elim (Bool-cases (x.id == id)) [
  | inl same ↦
      let here : x ≡ s = cc in ap (λ y. y.id) (sym here) ∙ (nat_eq.agree_iff x.id id).0 same
  | inr other ↦ by_id-id id ss s (rw other at e)
]

abbrev pub named_as : Synoptic → Text → Synoptic
named_as s name = record s { name = name }

pub by_id-rename :
    (id : ℕ) (name : Text) (ss : List Synoptic) (s : Synoptic)
    → by_id id ss ≡ some s
    → by_id id (rename id name ss) ≡ some (named_as s name)
unfolding by_id rename
by_id-rename id name [] s e = cc
by_id-rename id name (x ∷ ss) s e = elim (Bool-cases (x.id == id)) [
  | inl same ↦
      let here : x ≡ s = cc in rw (same, same) (ap (λ (y : Synoptic). some (named_as y name)) here)
  | inr other ↦ rw (other, other) (by_id-rename id name ss s (rw other at e))
]

abbrev versions_after : Option (SynopticOut × Tables) → List SynopticVersion
versions_after none = []
versions_after (some (answer, t)) = t.versions

abbrev synoptics_after : Option (SynopticOut × Tables) → List Synoptic
synoptics_after none = []
synoptics_after (some (answer, t)) = t.synoptics

-- What an answered insertion of a version has done.
pub store_version_done :
    (c : Context) (action : String) (before : Option (Dict String Detail))
    (more : Dict String Detail) (s : Synoptic) (doc : SynopticDoc) (t : Tables)
    (answer : SynopticOut) (after : Tables)
    → store_version c action before more s doc t ≡ some (answer, after)
    → (answer ≡ out s (next_version c s.id doc t))
      × (after.versions ≡ t.versions ++ next_version c s.id doc t ∷ [])
      × (after.synoptics ≡ t.synoptics)
unfolding store_version insert_version
store_version_done c action before more s doc t answer after e =
    elim (Bool-cases
      (is_some (find_version (next_version c s.id doc t).version (versions_of s.id t.versions)))) [
        | inl used ↦ let stuck = rw (store_version, insert_version, used) at e in cc
        | inr free ↦
            let stored = rw (store_version, insert_version, free) at e in
            let first : out s (next_version c s.id doc t) ≡ answer = cc in
            (sym first, sym (ap versions_after stored), sym (ap synoptics_after stored))
      ]
