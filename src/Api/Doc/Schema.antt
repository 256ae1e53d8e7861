-- ===== src/Api/Doc/Schema.antt =====
-- The parts of a synoptic document and their validation (backend/app/api/synoptic_doc.py), from the
-- typed fields that pydantic reads. Coordinates are finite and count 10⁻¹² units.
pub mod References
use superviseur.Prelude.{
  ℕ, ◌+◌, ◌*◌, Bool, true, false, not, ◌&&◌, ◌||◌, Option, none, some, List, [], ◌∷◌, ◌++◌, leb,
  ◌==◌, nat_eq, map, length, any, all, if◌then◌else◌,
}
use superviseur.Prelude.Int.{ℤ, pos, negsuc, leb_ℤ}
use superviseur.Prelude.Text.{Text, codes, text_eq}
use superviseur.Api.Expr.{Result, ok, err, out_of_fuel}
use superviseur.Api.Expr.Lexer.{check_expression}
use superviseur.Api.Doc.{
  Value, Items, Fields, null, text, arr, obj, nil, cons, end, field, get, has_key,
  is_safe_css_value, is_data_image,
}
use superviseur.Api.Doc.Slug.{is_id, is_target}

-- What the validation of a part comes to: a `ValueError` makes the document invalid, and any other
-- exception leaves the validation.
pub data Verdict : Type 0 where
  valid invalid raised : Verdict

abbrev pub both : Verdict → Verdict → Verdict
both raised v = raised
both v raised = raised
both valid v = v
both invalid v = invalid

abbrev pub check : Bool → Verdict
check true = valid
check false = invalid

abbrev pub within : ℤ → ℤ → ℤ → Bool
within low high x = leb_ℤ low x && leb_ℤ x high

abbrev units : ℕ → ℤ
units n = pos (n * 1000000000000)

pub record Canvas : Type 0 where
  pub width : ℤ
  pub height : ℤ
  pub background : Text
  pub bg_image : Option Text

abbrev is_image_or_none : Option Text → Bool
is_image_or_none none = true
is_image_or_none (some cs) = is_data_image cs

-- `Canvas._background`, `Canvas._bg_image` and the bounds of the fields
unfoldable pub canvas_ok : Canvas → Bool
canvas_ok c =
    within (pos 320) (pos 8000) c.width
    && (within (pos 240) (pos 8000) c.height
        && (is_safe_css_value (text c.background) && is_image_or_none c.bg_image))

abbrev style_keys : List Text
style_keys =
    codes "color"
    ∷ codes "background"
    ∷ codes "opacity"
    ∷ codes "fontSize"
    ∷ codes "fontWeight"
    ∷ codes "textAlign"
    ∷ codes "fill"
    ∷ codes "stroke"
    ∷ codes "strokeWidth"
    ∷ codes "borderColor"
    ∷ codes "borderRadius"
    ∷ []

abbrev widget_types : List Text
widget_types =
    codes "value"
    ∷ codes "label"
    ∷ codes "gauge"
    ∷ codes "indicator"
    ∷ codes "switch"
    ∷ codes "setpoint"
    ∷ codes "trend"
    ∷ codes "alarm_list"
    ∷ codes "image"
    ∷ codes "link"
    ∷ codes "shape"
    ∷ []

-- `_check_style`
unfoldable pub check_style : Fields → Bool
check_style end = true
check_style (field k v fs) = any (λ s. s == k) style_keys && (is_safe_css_value v && check_style fs)

pub record Rule : Type 0 where
  pub when : Text
  pub style : Fields

abbrev accepted : Result (Unit {0}) → Bool
accepted (ok _) = true
accepted _ = false

-- `Rule._when`, `Rule._style` and the bounds of `when`
unfoldable pub rule_ok : Rule → Bool
rule_ok r =
    leb 1 (length r.when)
    && (leb (length r.when) 200 && (accepted (check_expression r.when) && check_style r.style))

pub record Widget : Type 0 where
  pub id : Text
  pub type : Text
  pub x : ℤ
  pub y : ℤ
  pub w : ℤ
  pub h : ℤ
  pub bind : Fields
  pub style : Fields
  pub rules : List Rule
  pub extra : Fields

-- The bounds and the validators of a widget's fields
unfoldable pub widget_fields_ok : Widget → Bool
widget_fields_ok v =
    is_id v.id
    && (any (λ t. t == v.type) widget_types
        && (within (negsuc 9999999999999999) (units 20000) v.x
            && (within (negsuc 9999999999999999) (units 20000) v.y
                && (within (units 1) (units 20000) v.w
                    && (within (units 1) (units 20000) v.h
                        && (check_style v.style
                            && (leb (length v.rules) 20 && all rule_ok v.rules)))))))

abbrev pub listed : Items → List Value
listed nil = []
listed (cons v vs) = v ∷ listed vs

abbrev pub key_texts : Fields → List Value
key_texts end = []
key_texts (field k v fs) = text k ∷ key_texts fs

-- `for entry in value`: `none` is the `TypeError` of a value that has no elements.
unfoldable pub iterate : Value → Option (List Value)
iterate (arr vs) = some (listed vs)
iterate (obj fs) = some (key_texts fs)
iterate (text cs) = some (map (λ c. text (c ∷ [])) cs)
iterate _ = none

-- `entry.get("point") if isinstance(entry, dict) else entry`
abbrev pub point_of : Value → Value
point_of (obj fs) = get (codes "point") fs
point_of v = v

-- `bind.get("points", [])`
abbrev pub points_of : Fields → Value
points_of bind = if has_key (codes "points") bind then get (codes "points") bind else arr nil

abbrev pub is_null : Value → Bool
is_null null = true
is_null _ = false

abbrev is_image : Value → Bool
is_image (text cs) = is_data_image cs
is_image _ = false

-- The test of `src`, where the widget has one.
abbrev source_ok : Fields → Bool
source_ok extra = if has_key (codes "src") extra then is_image (get (codes "src") extra) else true

abbrev target_ok : Value → Bool
target_ok null = true
target_ok (text cs) = is_target cs
target_ok _ = false

pub record Link : Type 0 where
  pub widget : Text
  pub target : Text

pub record SynopticDoc : Type 0 where
  pub schema_version : ℤ
  pub name : Text
  pub canvas : Canvas
  pub widgets : List Widget
  pub links : List Link

-- `set(ids)`, in the order of the last occurrences
unfoldable pub distinct : List Text → List Text
distinct [] = []
distinct (x ∷ xs) = let rest = distinct xs in if any (λ y. y == x) rest then rest else x ∷ rest

abbrev pub ids : SynopticDoc → List Text
ids d = map (λ w. w.id) d.widgets

-- `SynopticDoc._references`
unfoldable pub references_ok : SynopticDoc → Bool
references_ok d =
    length (ids d) == length (distinct (ids d))
    && all (λ l. any (λ i. i == l.widget) (ids d)) d.links

abbrev pub links_ok : List Link → Bool
links_ok links = leb (length links) 500 && all (λ l. is_target l.target) links

abbrev pub fields_ok : SynopticDoc → Bool
fields_ok d =
    leb_ℤ (pos 1) d.schema_version
    && (leb_ℤ d.schema_version (pos 1)
        && (leb 1 (length d.name)
            && (leb (length d.name) 255 && (canvas_ok d.canvas && links_ok d.links))))

-- `_references` runs once every field is valid.
unfoldable pub refer : Verdict → SynopticDoc → Verdict
refer valid d = check (references_ok d)
refer v d = v

-- `uuid.UUID(str(value))` succeeds.
module _ (is_uuid : Value → Bool) where
  -- The tests on the elements of `points`
  points_ok : Option (List Value) → Fields → Verdict
  points_ok none extra = raised
  points_ok (some entries) extra = check (
      all (λ e. is_uuid (point_of e)) entries
      && (leb (length entries) 8 && (source_ok extra && target_ok (get (codes "target") extra))))

  -- `Widget._properties`
  unfoldable pub properties : Widget → Verdict
  unfolding points_ok
  properties w =
      let point = get (codes "point") w.bind in
      if is_null point || is_uuid point
      then points_ok (iterate (points_of w.bind)) w.extra
      else invalid

  unfoldable pub widget_verdict : Widget → Verdict
  widget_verdict w = if widget_fields_ok w then properties w else invalid

  unfoldable pub widgets_verdict : List Widget → Verdict
  widgets_verdict [] = valid
  widgets_verdict (w ∷ ws) = both (widget_verdict w) (widgets_verdict ws)

  -- `validate_document`
  unfoldable pub validate_document : SynopticDoc → Verdict
  unfolding refer
  validate_document d =
      let widgets = if leb (length d.widgets) 500 then widgets_verdict d.widgets else invalid in
      refer (both (check (fields_ok d)) widgets) d
