-- ===== src/Api/PointSettings/Requests.antt =====
-- What the requests on the settings of points leave (backend/app/api/routes/points.py).
use mathlib.Core.Path.{subst}
use superviseur.Prelude.{
  Bool, length, length-append, ℕ, ◌≡◌, ◌⊎◌, refl, sym, ◌∙◌, ap, Bool-cases, true, false, Option,
  Option-cases, some, List, [], ◌∷◌, ◌++◌, String, All, map, nat_eq, arith, inl, inr,
}
use superviseur.Prelude.Text.{Text}
use superviseur.Api.Deps.{CurrentUser}
use superviseur.Api.PointSettings.{
  PointRow, PointUpdate, Tables, is_valid, is_null, settings, is_unordered, same_collection,
  same_settings, find_point, set_point, tagged, store_point, update_found, update_point,
}
use superviseur.Api.PointSettings.Settled.{
  IsSettled, settings-IsSettled, All-set_point, All-find_point,
}
use superviseur.Api.PointSettings.Collection.{
  collection, collection-settings, collection-set_point, find_point-id,
}

-- A request to change the settings of a point, with who makes it and from where, and whether Redis
-- takes a message then.
pub record PointRequest : Type 0 where
  pub user : CurrentUser
  pub ip : Option String
  pub reached : Bool
  pub id : ℕ
  pub body : PointUpdate

module _ (normal_tags : List Text → List Text) (str : ℕ → Text) where
  -- The tables after a request, and after requests one after the other.
  abbrev pub handle : PointRequest → Tables → Tables
  handle r t = (update_point normal_tags str r.user r.ip r.reached r.id r.body t).1

  unfoldable pub handle_all : List PointRequest → Tables → Tables
  handle_all [] t = t
  handle_all (r ∷ rs) t = handle_all rs (handle r t)

  -- What a request may do to the tables.
  data Change (reached : Bool) (t u : Tables) : Type 0 where
    nothing : u ≡ t → Change reached t u
    stored :
        (b : PointUpdate) (p q : PointRow)
        → is_valid b ≡ true
        → is_unordered (settings b p).write_min (settings b p).write_max ≡ false
        → q ≡ tagged normal_tags str b (settings b p)
        → find_point p.id t.points ≡ some p
        → u.points ≡ set_point q t.points
        → (same_collection b p q ≡ true) ⊎ (reached ≡ true → u.told ≡ t.told ++ q.id ∷ [])
        → Change reached t u

  store_point-Change :
      (r : PointRequest) (p : PointRow) (t : Tables)
      → is_valid r.body ≡ true
      → is_unordered (settings r.body p).write_min (settings r.body p).write_max ≡ false
      → find_point p.id t.points ≡ some p
      → Change r.reached t
          (store_point normal_tags str r.user r.ip r.reached r.body p
            (tagged normal_tags str r.body (settings r.body p))
            t).1
  unfolding store_point
  store_point-Change r p t valid ordered found =
      let q = tagged normal_tags str r.body (settings r.body p) in
      elim (Bool-cases (same_settings r.body p q)) [
        | inl same ↦ rw (store_point, same) (nothing refl)
        | inr differs ↦ elim (Bool-cases (same_collection r.body p q)) [
          | inl same ↦
              rw (store_point, differs, same)
                (stored r.body p q valid ordered refl found refl (inl same))
          | inr told ↦
              rw (store_point, differs, told)
                (stored r.body p q valid ordered refl found refl (inr (λ h. rw h refl)))
        ]
      ]

  update_found-Change :
      (r : PointRequest) (p : PointRow) (t : Tables)
      → is_valid r.body ≡ true
      → find_point p.id t.points ≡ some p
      → Change r.reached t (update_found normal_tags str r.user r.ip r.reached r.body p t).1
  unfolding update_found
  update_found-Change r p t valid found =
      let q = settings r.body p in
      elim (Bool-cases (is_null r.body.deadband)) [
        | inl empty ↦ rw (update_found, empty) (nothing refl)
        | inr given ↦ elim (Bool-cases (is_null r.body.max_interval_s)) [
          | inl empty ↦ rw (update_found, given, empty) (nothing refl)
          | inr named ↦ elim (Bool-cases (is_unordered q.write_min q.write_max)) [
            | inl crossed ↦ rw (update_found, given, named, crossed) (nothing refl)
            | inr ordered ↦
                rw (update_found, given, named, ordered)
                  (store_point-Change r p t valid ordered found)
          ]
        ]
      ]

  handle-Change : (r : PointRequest) (t : Tables) → Change r.reached t (handle r t)
  unfolding update_point
  handle-Change r t = elim (Option-cases (find_point r.id t.points)) [
    | inl unknown ↦ rw (handle, update_point, unknown) (nothing refl)
    | inr (p, found) ↦ elim (Bool-cases (is_valid r.body)) [
      | inl valid ↦
          rw (handle, update_point, found, valid)
            (update_found-Change r p t valid (
              subst (λ id. find_point id t.points ≡ some p)
                (sym (find_point-id r.id t.points p found)) found))
      | inr invalid ↦ rw (handle, update_point, found, invalid) (nothing refl)
    ]
  ]

  tagged-IsSettled :
      (b : PointUpdate) (p : PointRow) → IsSettled p → IsSettled (tagged normal_tags str b p)
  tagged-IsSettled b p h = record {
    ordered = h.ordered;
    deadband_bound = h.deadband_bound;
    max_interval_bounds = h.max_interval_bounds;
    poll_interval_bounds = h.poll_interval_bounds;
  }

  Change-IsSettled :
      (reached : Bool) (t u : Tables)
      → Change reached t u
      → All IsSettled t.points
      → All IsSettled u.points
  Change-IsSettled reached t u (nothing same) h =
      subst (λ (x : Tables). All IsSettled x.points) (sym same) h
  Change-IsSettled reached t u (stored b p q valid ordered it found set told) h =
      subst (All IsSettled) (sym set) (
        All-set_point q t.points
          (subst IsSettled (sym it) (
            tagged-IsSettled b (settings b p)
              (settings-IsSettled b p valid (All-find_point p.id p t.points h found) ordered)))
          h)

  -- Requests on the settings of points, of any content and in any order, leave every point settled
  -- when every point was: its bounds of writing are ordered, its deadband is not below 0, and its
  -- intervals are between a second and a day.
  pub settings_stay_in_bounds :
      (requests : List PointRequest) (t : Tables)
      → All IsSettled t.points
      → All IsSettled (handle_all requests t).points
  unfolding handle_all
  settings_stay_in_bounds [] t h = h
  settings_stay_in_bounds (r ∷ rs) t h =
      settings_stay_in_bounds rs (handle r t)
        (Change-IsSettled r.reached t (handle r t) (handle-Change r t) h)

  collection-tagged :
      (b : PointUpdate) (p : PointRow) → collection (tagged normal_tags str b p) ≡ collection p
  collection-tagged b p = refl

  Change-collection :
      (reached : Bool) (t u : Tables)
      → Change reached t u
      → reached ≡ true
      → u.told ≡ t.told
      → map collection u.points ≡ map collection t.points
  unfolding same_collection
  Change-collection reached t u (nothing same) r quiet =
      ap (λ (x : Tables). map collection x.points) same
  Change-collection reached t u (stored b p q valid ordered it found set (inl same)) r quiet =
      ap (map collection) set
      ∙ collection-set_point q p t.points
          (subst (λ (x : PointRow). find_point x.id t.points ≡ some p) (sym it) found)
          (ap collection it
            ∙ collection-settings b p (subst (λ x. same_collection b p x ≡ true) it same))
  Change-collection reached t u (stored b p q valid ordered it found set (inr told)) r quiet =
      absurd (omega (arith, ap length (sym (told r) ∙ quiet), length-append t.told (q.id ∷ [])))

  -- When Redis takes a message, a request after which the collector was not told to read a point again
  -- has left the deadbands and the intervals of all points as they were.
  pub collector_is_told :
      (request : PointRequest) (t : Tables)
      → request.reached ≡ true
      → (handle request t).told ≡ t.told
      → map collection (handle request t).points ≡ map collection t.points
  collector_is_told request t =
      Change-collection request.reached t (handle request t) (handle-Change request t)
