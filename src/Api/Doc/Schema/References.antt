-- ===== src/Api/Doc/Schema/References.antt =====
-- What a valid document guarantees its viewer.
use superviseur.Prelude.{
  ◌≤◌, ◌≡◌, refl, ◌∙◌, ap, Bool, true, false, ◌&&◌, List, [], ◌∷◌, map, le→leb, ◌⊎◌, ◌++◌, none,
  ◌==◌, nat_eq, length, any, all, All, arith, Bool-cases, inl, inr,
}
use superviseur.Prelude.Text.{Text, codes, text_eq}
use superviseur.Api.Doc.{Value, get}
use superviseur.Api.Doc.Schema.{
  Verdict, valid, invalid, raised, SynopticDoc, Widget, Link, both, check, distinct, ids,
  references_ok, fields_ok, widget_fields_ok, widget_verdict, properties, points_of, iterate,
  is_null, widgets_verdict, refer, validate_document,
}

-- No text stands twice in the list.
abbrev pub Unique : List Text → Type 0
Unique [] = Unit
Unique (x ∷ xs) = (any (λ y. y == x) xs ≡ false) × Unique xs

any-distinct : (x : Text) (xs : List Text) → any (λ y. y == x) (distinct xs) ≡ any (λ y. y == x) xs
unfolding distinct
any-distinct x [] = refl
any-distinct x (y ∷ ys) =
    ground (arith, any-distinct x ys, any-distinct y ys, text_eq.agree_iff y x)

length-distinct : (xs : List Text) → length (distinct xs) ≤ length xs
unfolding distinct
length-distinct [] = omega arith
length-distinct (x ∷ xs) = ground (arith, length-distinct xs)

Unique-distinct : (xs : List Text) → length xs ≡ length (distinct xs) → Unique xs
unfolding distinct
Unique-distinct [] h = tt
Unique-distinct (x ∷ xs) h =
    ground (arith, length-distinct xs, any-distinct x xs, Unique-distinct xs)

-- One of the widgets has the id.
abbrev pub HasWidget : List Widget → Text → Type 0
HasWidget [] x = ⊥
HasWidget (w ∷ ws) x = (w.id ≡ x) ⊎ HasWidget ws x

and_parts : {a b : Bool} → (a && b) ≡ true → (a ≡ true) × (b ≡ true)
and_parts {a} {b} h = (ground arith, ground arith)

HasWidget-any :
    (ws : List Widget) (x : Text) → any (λ i. i == x) (map (λ w. w.id) ws) ≡ true → HasWidget ws x
HasWidget-any [] x h = cc
HasWidget-any (w ∷ ws) x h = elim (Bool-cases (w.id == x)) [
  | inl same ↦ inl ((text_eq.agree_iff w.id x).0 same)
  | inr other ↦ inr (HasWidget-any ws x (rw other at h))
]

All-HasWidget :
    (ws : List Widget) (ls : List Link)
    → all (λ l. any (λ i. i == l.widget) (map (λ w. w.id) ws)) ls ≡ true
    → All (λ (l : Link). HasWidget ws l.widget) ls
All-HasWidget ws [] h = tt
All-HasWidget ws (l ∷ ls) h =
    let (first, rest) = and_parts h in (HasWidget-any ws l.widget first, All-HasWidget ws ls rest)

refer-valid : (v : Verdict) (d : SynopticDoc) → refer v d ≡ valid → references_ok d ≡ true
unfolding refer
refer-valid valid d h = ground (arith, h)
refer-valid invalid d h = cc
refer-valid raised d h = cc

-- In a document that is valid, the ids of the widgets are unique, and each link belongs to one of
-- the widgets.
pub valid_document :
    (is_uuid : Value → Bool) (d : SynopticDoc)
    → validate_document is_uuid d ≡ valid
    → Unique (ids d) × All (λ (l : Link). HasWidget d.widgets l.widget) d.links
unfolding validate_document references_ok
valid_document is_uuid d h =
    let (sizes, linked) = and_parts (refer-valid _ d h) in
    (
      Unique-distinct (ids d)
          ((nat_eq.agree_iff (length (ids d)) (length (distinct (ids d)))).0 sizes),
      All-HasWidget d.widgets d.links linked,
    )

both-raised : (v : Verdict) → both v raised ≡ raised
both-raised valid = refl
both-raised invalid = refl
both-raised raised = refl

module _ (is_uuid : Value → Bool) where
  widgets_verdict-raised :
      (xs : List Widget) (w : Widget) (ys : List Widget)
      → widget_verdict is_uuid w ≡ raised
      → widgets_verdict is_uuid (xs ++ w ∷ ys) ≡ raised
  unfolding widgets_verdict
  widgets_verdict-raised [] w ys h = rw h
  widgets_verdict-raised (x ∷ xs) w ys h =
      rw (widgets_verdict-raised xs w ys h) (both-raised (widget_verdict is_uuid x))

  unlisted_points :
      (w : Widget)
      → widget_fields_ok w ≡ true
      → is_null (get (codes "point") w.bind) ≡ true
      → iterate (points_of w.bind) ≡ none
      → widget_verdict is_uuid w ≡ raised
  unfolding widget_verdict properties
  unlisted_points w f p i = rw (f, p, i) refl

-- A document of at most 500 widgets one of which, valid in its other fields and bound to no single
-- point, has `points` that cannot be iterated is neither accepted nor reported as invalid: an
-- exception that is no `ValueError` leaves the validation, whatever the rest of the document.
pub unlisted_points_raise :
    (is_uuid : Value → Bool) (d : SynopticDoc) (xs ys : List Widget) (w : Widget)
    → d.widgets ≡ xs ++ w ∷ ys
    → length d.widgets ≤ 500
    → widget_fields_ok w ≡ true
    → is_null (get (codes "point") w.bind) ≡ true
    → iterate (points_of w.bind) ≡ none
    → validate_document is_uuid d ≡ raised
unfolding validate_document refer
unlisted_points_raise is_uuid d xs ys w e n f p i =
    let broken : widgets_verdict is_uuid d.widgets ≡ raised =
      ap (widgets_verdict is_uuid) e
      ∙ widgets_verdict-raised is_uuid xs w ys (unlisted_points is_uuid w f p i) in
    rw (le→leb (length d.widgets) 500 n, broken, both-raised (check (fields_ok d))) refl
