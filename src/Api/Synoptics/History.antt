-- ===== src/Api/Synoptics/History.antt =====
-- The versions of a synoptic are numbered one after the other, and none is changed.
mod Growth
pub mod Rows
use superviseur.Prelude.{
  ℕ, zero, suc, ◌+◌, ◌≤◌, ◌<◌, ◌≡◌, ◌⊎◌, refl, sym, ◌∙◌, ap, Bool, true, false, not, ◌&&◌, ◌||◌,
  Option, none, some, All, List, [], ◌∷◌, ◌++◌, String, append-nil, append_assoc, filter, is_some,
  any, length, ltb, ◌==◌, nat_eq, arith, Bool-cases, Option-cases, inl, inr, if◌then◌else◌,
}
use superviseur.Prelude.Dict.{Dict}
use superviseur.Prelude.Text.{Text, text_eq}
use superviseur.Api.Doc.{Value}
use superviseur.Api.Doc.Slug.{is_valid_slug}
use superviseur.Api.Doc.Schema.{SynopticDoc}
use superviseur.Api.Session.{Detail, count, Answer, Answer-cases, done, refused, failed}
use superviseur.Api.Synoptics.{
  Synoptic, SynopticVersion, SynopticOut, SynopticCreate, SynopticSave, Tables, Context, Reply,
  versions_of, greatest, newer, latest, number, number_detail, by_id, find_version, next_version,
  insert_version, store_version, with_name, named, widgets, taken, choose_slug, requested,
  validated, insert_synoptic, create_checked, create_synoptic, is_stale, save_checked,
  save_synoptic, restore_found, restore_version, delete_synoptic,
}
use Growth.{Grows, create_synoptic-Grows, save_synoptic-Grows, restore_version-Grows}

versions_of-append :
    (id : ℕ) (xs ys : List SynopticVersion)
    → versions_of id (xs ++ ys) ≡ versions_of id xs ++ versions_of id ys
versions_of-append id [] ys = refl
versions_of-append id (x ∷ xs) ys = elim (Bool-cases (x.synoptic_id == id)) [
  | inl here ↦ rw here (ap (λ zs. x ∷ zs) (versions_of-append id xs ys))
  | inr other ↦ rw other (versions_of-append id xs ys)
]

-- A request that changes synoptics.
pub data Request : Type 0 where
  create : ℕ → SynopticCreate → Request
  save : ℕ → SynopticSave → Request
  restore : ℕ → ℕ → Request
  delete : ℕ → Request

module _ (is_uuid : Value → Bool) (size : SynopticDoc → ℕ) where
  -- The tables after a request, and after requests with their contexts, one after the other.
  unfoldable pub handle : Context → Request → Tables → Tables
  handle c (create id body) t = (create_synoptic is_uuid size c id body t).1
  handle c (save id body) t = (save_synoptic is_uuid size c id body t).1
  handle c (restore id n) t = (restore_version is_uuid size c id n t).1
  handle c (delete id) t = (delete_synoptic c id t).1

  unfoldable pub handle_all : List (Context × Request) → Tables → Tables
  handle_all [] t = t
  handle_all ((c, r) ∷ rs) t = handle_all rs (handle c r t)

-- The numbers of the versions follow each other.
abbrev pub CountsUp : ℕ → List SynopticVersion → Type 0
CountsUp n [] = Unit
CountsUp n (v ∷ vs) = (v.version ≡ n + 1) × CountsUp (n + 1) vs

CountsUp-append :
    (n : ℕ) (vs : List SynopticVersion) (v : SynopticVersion)
    → CountsUp n vs
    → v.version ≡ n + length vs + 1
    → CountsUp n (vs ++ v ∷ [])
CountsUp-append n [] v h e = (omega (arith, e), tt)
CountsUp-append n (u ∷ vs) v h e = (h.0, CountsUp-append (n + 1) vs v (h.1) (omega (arith, e)))

newer-number :
    (v : SynopticVersion) (o : Option SynopticVersion) (m : ℕ)
    → number o ≡ m
    → v.version < m
    → (newer v o).version ≡ m
newer-number v none m e h = absurd (omega (arith, e, h))
newer-number v (some u) m e h = ground (arith, e, h)

number-greatest :
    (n : ℕ) (v : SynopticVersion) (vs : List SynopticVersion)
    → CountsUp n (v ∷ vs)
    → number (greatest (v ∷ vs)) ≡ n + length (v ∷ vs)
unfolding greatest
number-greatest n v [] h = omega (arith, h.0)
number-greatest n v (u ∷ vs) h =
    newer-number v (greatest (u ∷ vs)) (n + length (v ∷ u ∷ vs))
      (number-greatest (n + 1) u vs (h.1) ∙ omega arith) (omega (arith, h.0))

number-greatest_all : (vs : List SynopticVersion) → CountsUp 0 vs → number (greatest vs) ≡ length vs
number-greatest_all [] h = unfold greatest in refl
number-greatest_all (v ∷ vs) h = number-greatest 0 v vs h ∙ omega arith

-- The versions of one synoptic after a request that does not delete it.
abbrev Follows : ℕ → Tables → List SynopticVersion → Type 0
Follows id t after =
    (versions_of id after ≡ versions_of id t.versions)
    ⊎ ((v : SynopticVersion) × (v.version ≡ number (latest id t) + 1)
        × (versions_of id after ≡ versions_of id t.versions ++ v ∷ []))

Grows-Follows :
    (c : Context) (id : ℕ) (t : Tables) (after : List SynopticVersion)
    → Grows c t after
    → Follows id t after
Grows-Follows c id t after (inl same) = inl (ap (versions_of id) same)
Grows-Follows c id t after (inr (j, doc, e)) =
    let split =
      ap (versions_of id) e ∙ versions_of-append id t.versions (next_version c j doc t ∷ []) in
    elim (Bool-cases (j == id)) [
      | inl here ↦
          let same = (nat_eq.agree_iff j id).0 here in
          inr (
            next_version c j doc t,
            ap (λ k. number (latest k t) + 1) same,
            split
                ∙ ap
                    (λ b.
                      versions_of id t.versions ++ (if b then next_version c j doc t ∷ [] else []))
                    here,
          )
      | inr other ↦ inl (
          split
          ∙ ap (λ b. versions_of id t.versions ++ (if b then next_version c j doc t ∷ [] else []))
              other
          ∙ append-nil (versions_of id t.versions))
    ]

versions_of-filter :
    (id j : ℕ) (vs : List SynopticVersion)
    → versions_of id (filter (λ (v : SynopticVersion). not (v.synoptic_id == j)) vs)
      ≡ (if j == id then [] else versions_of id vs)
versions_of-filter id j [] = ground arith
versions_of-filter id j (v ∷ vs) = ground (arith, versions_of-filter id j vs)

abbrev pub deletes : ℕ → Request → Bool
deletes id (delete j) = j == id
deletes id _ = false

delete-Follows :
    (id j : ℕ) (c : Context) (t : Tables)
    → (j == id) ≡ false
    → Follows id t (delete_synoptic c j t).1.versions
unfolding delete_synoptic
delete-Follows id j c t h = elim (Option-cases (by_id j t.synoptics)) [
  | inl missing ↦ rw (delete_synoptic, missing) (inl refl)
  | inr (s, found) ↦
      rw (delete_synoptic, found)
        (inl (
          versions_of-filter id j t.versions
          ∙ ap (λ (b : Bool). if b then [] else versions_of id t.versions) h))
]

-- A deletion leaves no version, or it does not find its synoptic and leaves the tables.
delete_keeps :
    (id j : ℕ) (c : Context) (t : Tables)
    → CountsUp 0 (versions_of id t.versions)
    → j ≡ id
    → CountsUp 0 (versions_of id (delete_synoptic c j t).1.versions)
unfolding delete_synoptic
delete_keeps id j c t h e = elim (Option-cases (by_id j t.synoptics)) [
  | inl missing ↦ rw (delete_synoptic, missing) h
  | inr (s, found) ↦
      rw (delete_synoptic, found)
        (rw (versions_of-filter id j t.versions) (rw ((nat_eq.agree_iff j id).1 e) tt))
]

Follows-CountsUp :
    (id : ℕ) (t : Tables) (after : List SynopticVersion)
    → Follows id t after
    → CountsUp 0 (versions_of id t.versions)
    → CountsUp 0 (versions_of id after)
Follows-CountsUp id t after (inl same) h = rw same h
Follows-CountsUp id t after (inr (v, e, more)) h = rw more (
    CountsUp-append 0 (versions_of id t.versions) v h
      (omega (arith, e, number-greatest_all (versions_of id t.versions) h)))

module _ (is_uuid : Value → Bool) (size : SynopticDoc → ℕ) where
  handle-Follows :
      (id : ℕ) (c : Context) (r : Request) (t : Tables)
      → deletes id r ≡ false
      → Follows id t (handle is_uuid size c r t).versions
  unfolding handle
  handle-Follows id c (create j body) t h =
      Grows-Follows c id t _ (create_synoptic-Grows is_uuid size c j body t)
  handle-Follows id c (save j body) t h =
      Grows-Follows c id t _ (save_synoptic-Grows is_uuid size c j body t)
  handle-Follows id c (restore j n) t h =
      Grows-Follows c id t _ (restore_version-Grows is_uuid size c j n t)
  handle-Follows id c (delete j) t h = delete-Follows id j c t h

  handle-CountsUp :
      (id : ℕ) (c : Context) (r : Request) (t : Tables)
      → CountsUp 0 (versions_of id t.versions)
      → CountsUp 0 (versions_of id (handle is_uuid size c r t).versions)
  handle-CountsUp id c (create j body) t h =
      Follows-CountsUp id t (handle is_uuid size c (create j body) t).versions
        (handle-Follows id c (create j body) t refl) h
  handle-CountsUp id c (save j body) t h =
      Follows-CountsUp id t (handle is_uuid size c (save j body) t).versions
        (handle-Follows id c (save j body) t refl) h
  handle-CountsUp id c (restore j n) t h =
      Follows-CountsUp id t (handle is_uuid size c (restore j n) t).versions
        (handle-Follows id c (restore j n) t refl) h
  handle-CountsUp id c (delete j) t h = elim (Bool-cases (j == id)) [
    | inl here ↦ unfold handle in delete_keeps id j c t h ((nat_eq.agree_iff j id).0 here)
    | inr other ↦
        Follows-CountsUp id t (handle is_uuid size c (delete j) t).versions
          (handle-Follows id c (delete j) t other) h
  ]

  -- Whatever requests are handled one after the other, the versions of every synoptic stay numbered
  -- 1, 2, 3 and so on without a gap, in the order in which they were written, if they were so.
  pub versions_numbered :
      (id : ℕ) (rs : List (Context × Request)) (t : Tables)
      → CountsUp 0 (versions_of id t.versions)
      → CountsUp 0 (versions_of id (handle_all is_uuid size rs t).versions)
  unfolding handle_all
  versions_numbered id [] t h = h
  versions_numbered id ((c, r) ∷ rs) t h =
      versions_numbered id rs (handle is_uuid size c r t) (handle-CountsUp id c r t h)

  -- As long as a synoptic is not deleted, saving, restoring and creating leave its versions as they
  -- were, each with its content, and only add others behind them.
  pub history_kept :
      (id : ℕ) (rs : List (Context × Request)) (t : Tables)
      → All (λ (x : Context × Request). deletes id x.1 ≡ false) rs
      → (vs : List SynopticVersion) × (versions_of id (handle_all is_uuid size rs t).versions
          ≡ versions_of id t.versions ++ vs)
  unfolding handle_all
  history_kept id [] t h = ([], sym (append-nil (versions_of id t.versions)))
  history_kept id ((c, r) ∷ rs) t h =
      let (vs, e) = history_kept id rs (handle is_uuid size c r t) (h.1) in
      elim (handle-Follows id c r t (h.0)) [
        | inl same ↦ (vs, e ∙ ap (λ xs. xs ++ vs) same)
        | inr (v, n, more) ↦ (
          v ∷ vs,
          e ∙ ap (λ xs. xs ++ vs) more ∙ append_assoc (versions_of id t.versions) (v ∷ []) vs,
        )
      ]
