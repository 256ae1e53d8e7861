-- ===== src/Api/Synoptics/Conflicts.antt =====
-- Two editors who began on the same version of a synoptic.
use superviseur.Prelude.{
  ℕ, ◌+◌, ◌≤◌, ◌<◌, ◌≡◌, refl, sym, ap, Bool, true, false, not, Option, none, some, is_some, All,
  List, [], ◌∷◌, ◌++◌, filter, ◌==◌, nat_eq, arith, Bool-cases, Option-cases, inl, inr,
}
use mathlib.Core.Path.{subst}
use superviseur.Prelude.Text.{Text}
use superviseur.Api.Doc.{Value}
use superviseur.Api.Doc.Schema.{SynopticDoc}
use superviseur.Api.Session.{done, refused}
use superviseur.Api.Synoptics.{
  Synoptic, SynopticVersion, SynopticOut, Tables, Context, versions_of, newer, greatest, latest,
  number, by_id, rename, validated, is_stale, save_checked, save_synoptic, delete_synoptic,
}
use superviseur.Api.Synoptics.Stored.{by_id-id}
use superviseur.Api.Synoptics.Editing.{save_numbers}
use superviseur.Api.Synoptics.History.{
  Request, create, save, restore, delete, deletes, handle, handle_all, history_kept,
}
use superviseur.Api.Synoptics.History.Rows.{
  Rows, create_synoptic-Rows, save_synoptic-Rows, restore_version-Rows,
}

newer_mono :
    (x : SynopticVersion) (o u : Option SynopticVersion)
    → number o ≤ number u
    → (newer x o).version ≤ (newer x u).version
newer_mono x none none h = omega arith
newer_mono x none (some b) h = ground arith
newer_mono x (some a) none h = ground (arith, h)
newer_mono x (some a) (some b) h = ground (arith, h)

number-greatest-append :
    (xs ys : List SynopticVersion) → number (greatest xs) ≤ number (greatest (xs ++ ys))
unfolding greatest
number-greatest-append [] ys = omega arith
number-greatest-append (x ∷ xs) ys =
    newer_mono x (greatest xs) (greatest (xs ++ ys)) (number-greatest-append xs ys)

is_stale_later :
    (base : ℕ) (o : Option SynopticVersion) → base < number o → is_stale (some base) o ≡ true
unfolding is_stale
is_stale_later base none h = absurd (omega arith)
is_stale_later base (some v) h = ground (arith, h)

-- The row of a synoptic is there.
abbrev HasRow : ℕ → List Synoptic → Type 0
HasRow id ss = is_some (by_id id ss) ≡ true

by_id-append : (id : ℕ) (ss more : List Synoptic) → HasRow id ss → HasRow id (ss ++ more)
unfolding by_id
by_id-append id [] more h = cc
by_id-append id (s ∷ ss) more h = elim (Bool-cases (s.id == id)) [
  | inl here ↦ rw (by_id, here) refl
  | inr other ↦ rw (by_id, other) (by_id-append id ss more (rw (by_id, other) at h))
]

rename-HasRow :
    (id j : ℕ) (name : Text) (ss : List Synoptic) → HasRow id ss → HasRow id (rename j name ss)
unfolding by_id rename
rename-HasRow id j name [] h = cc
rename-HasRow id j name (s ∷ ss) h = elim (Bool-cases (s.id == id)) [
  | inl here ↦ elim (Bool-cases (s.id == j)) [
    | inl named ↦ rw (rename, named, by_id, here) refl
    | inr other ↦ rw (rename, other, by_id, here) refl
  ]
  | inr away ↦
      let rest = rename-HasRow id j name ss (rw (by_id, away) at h) in
      elim (Bool-cases (s.id == j)) [
        | inl named ↦ rw (rename, named, by_id, away) (rw (by_id, away) at h)
        | inr other ↦ rw (rename, other, by_id, away) rest
      ]
]

filter-HasRow :
    (id j : ℕ) (ss : List Synoptic)
    → (j == id) ≡ false
    → HasRow id ss
    → HasRow id (filter (λ (x : Synoptic). not (x.id == j)) ss)
unfolding by_id
filter-HasRow id j [] differ h = cc
filter-HasRow id j (s ∷ ss) differ h = elim (Bool-cases (s.id == id)) [
  | inl here ↦
      let kept : (s.id == j) ≡ false = ground (arith, here, differ) in rw (kept, by_id, here) refl
  | inr away ↦
      let rest = filter-HasRow id j ss differ (rw (by_id, away) at h) in
      elim (Bool-cases (s.id == j)) [
        | inl gone ↦ rw gone rest
        | inr other ↦ rw (other, by_id, away) rest
      ]
]

Rows-HasRow :
    (id : ℕ) (t : Tables) (ss : List Synoptic) → Rows t ss → HasRow id t.synoptics → HasRow id ss
Rows-HasRow id t ss (inl same) h = subst (HasRow id) (sym same) h
Rows-HasRow id t ss (inr (inl (s, more))) h =
    subst (HasRow id) (sym more) (by_id-append id t.synoptics (s ∷ []) h)
Rows-HasRow id t ss (inr (inr (j, name, e))) h =
    subst (HasRow id) (sym e) (rename-HasRow id j name t.synoptics h)

delete-HasRow :
    (id j : ℕ) (c : Context) (t : Tables)
    → (j == id) ≡ false
    → HasRow id t.synoptics
    → HasRow id (delete_synoptic c j t).1.synoptics
unfolding delete_synoptic
delete-HasRow id j c t differ h = elim (Option-cases (by_id j t.synoptics)) [
  | inl missing ↦ rw (delete_synoptic, missing) h
  | inr (s, found) ↦ rw (delete_synoptic, found) (filter-HasRow id j t.synoptics differ h)
]

module _ (is_uuid : Value → Bool) (size : SynopticDoc → ℕ) where
  handle-HasRow :
      (id : ℕ) (c : Context) (r : Request) (t : Tables)
      → deletes id r ≡ false
      → HasRow id t.synoptics
      → HasRow id (handle is_uuid size c r t).synoptics
  unfolding handle
  handle-HasRow id c (create j body) t n h =
      Rows-HasRow id t _ (create_synoptic-Rows is_uuid size c j body t) h
  handle-HasRow id c (save j body) t n h =
      Rows-HasRow id t _ (save_synoptic-Rows is_uuid size c j body t) h
  handle-HasRow id c (restore j v) t n h =
      Rows-HasRow id t _ (restore_version-Rows is_uuid size c j v t) h
  handle-HasRow id c (delete j) t n h = delete-HasRow id j c t n h

  handle_all-HasRow :
      (id : ℕ) (rs : List (Context × Request)) (t : Tables)
      → All (λ (x : Context × Request). deletes id x.1 ≡ false) rs
      → HasRow id t.synoptics
      → HasRow id (handle_all is_uuid size rs t).synoptics
  unfolding handle_all
  handle_all-HasRow id [] t n h = h
  handle_all-HasRow id ((c, r) ∷ rs) t n h =
      handle_all-HasRow id rs (handle is_uuid size c r t) (n.1) (handle-HasRow id c r t (n.0) h)

  -- When an editor's save that names a version is answered, the new version has the next number; and
  -- from then on, whatever requests on whatever synoptics are handled in between, as long as none deletes
  -- this synoptic, another editor's valid save that names the same version is refused with status 409
  -- and changes nothing.
  pub lost_update_refused :
      (c c' : Context) (id base : ℕ) (doc doc' : SynopticDoc) (t after : Tables) (o : SynopticOut)
      (v : SynopticVersion) (between : List (Context × Request))
      → latest id t ≡ some v
      → save_synoptic is_uuid size c id (record { doc = doc; base_version = some base }) t
        ≡ (done o, after)
      → All (λ (x : Context × Request). deletes id x.1 ≡ false) between
      → validated is_uuid size doc' ≡ done doc'
      → let later = handle_all is_uuid size between after in
        (o.version ≡ base + 1)
        × (save_synoptic is_uuid size c' id (record { doc = doc'; base_version = some base }) later
            ≡ (refused 409 "enregistré entre-temps : rechargez avant d'enregistrer", later))
  unfolding save_synoptic save_checked
  lost_update_refused c c' id base doc doc' t after o v between last e none_deletes ok_doc =
      let (next, newest, (s, row)) = save_numbers is_uuid size c id base doc t after o v last e in
      let later = handle_all is_uuid size between after in
      let (vs, kept) = history_kept is_uuid size id between after none_deletes in
      let grown : base < number (latest id later) = omega (
        arith,
        newest,
        number-greatest-append (versions_of id after.versions) vs,
        ap (λ xs. number (greatest xs)) kept,
      ) in
      let there = handle_all-HasRow id between after none_deletes (ap is_some row) in
      elim (Option-cases (by_id id later.synoptics)) [
        | inl missing ↦ let never : false ≡ true = rw missing at there in cc
        | inr (u, found) ↦
            let same = by_id-id id later.synoptics u found in
            let stale =
              is_stale_later base (latest u.id later)
                (subst (λ k. base < number (latest k later)) (sym same) grown) in
            (next, rw (save_synoptic, ok_doc, save_checked, found, stale) refl)
      ]
