-- ===== src/Api/Doc.antt =====
-- The values in a synoptic document, and the tests on them (backend/app/api/synoptic_doc.py). Texts
-- are ASCII. In a regular expression `$` also stands before a newline that ends the text.
pub mod Slug
pub mod Schema
use superviseur.Prelude.{
  ℕ, ◌+◌, ◌*◌, ◌/◌, Bool, true, false, not, ◌&&◌, ◌||◌, Option, none, some, List, [], ◌∷◌, ◌++◌,
  leb, ◌==◌, nat_eq, map, length, any, filter, if◌then◌else◌,
}
use superviseur.Prelude.Text.{Text, codes, text_eq, lower, is_space}
use superviseur.Prelude.Float.{Float}
use superviseur.Prelude.Dict.{Dict, lookup}

-- A JSON value. Its containers stand in the block.
mutual
  pub data Value : Type 0 where
    null : Value
    bool : Bool → Value
    num : Float → Value
    text : Text → Value
    arr : Items → Value
    obj : Fields → Value

  pub data Items : Type 0 where
    nil : Items
    cons : Value → Items → Items

  pub data Fields : Type 0 where
    end : Fields
    field : Text → Value → Fields → Fields

-- `d.get(key)` of a dict, `None` for a missing key
unfoldable pub get : Text → Fields → Value
get key end = null
get key (field k v fs) = if k == key then v else get key fs

unfoldable pub has_key : Text → Fields → Bool
has_key key end = false
has_key key (field k v fs) = k == key || has_key key fs

-- `prefix` taken off a text, if the text starts with it
abbrev pub strip_prefix : Text → Text → Option Text
strip_prefix [] cs = some cs
strip_prefix (p ∷ ps) [] = none
strip_prefix (p ∷ ps) (c ∷ cs) = if p == c then strip_prefix ps cs else none

abbrev pub starts_with : Text → Text → Bool
starts_with p cs = elim (strip_prefix p cs) [ none ↦ false | some _ ↦ true ]

-- `token in text`
unfoldable pub contains : Text → Text → Bool
contains t [] = t == []
contains t (c ∷ cs) = starts_with t (c ∷ cs) || contains t cs

-- What `$` leaves: nothing, or one newline.
abbrev pub at_end : Text → Bool
at_end [] = true
at_end (c ∷ []) = c == b'\n'
at_end _ = false

abbrev is_forbidden : ℕ → Bool
is_forbidden c = c == b';' || (c == b'{' || (c == b'}' || (c == b'<' || (c == b'>' || c == b'\\'))))

abbrev is_safe_text : Text → Bool
is_safe_text cs =
    let lowered = map lower cs in
    leb (length cs) 100
    && (not (
          contains (codes "url(") lowered
          || (contains (codes "expression") lowered
              || (contains (codes "@import") lowered || contains (codes "javascript:") lowered)))
        && not (any is_forbidden cs))

-- `is_safe_css_value`
unfoldable pub is_safe_css_value : Value → Bool
unfolding contains
is_safe_css_value (num x) = true
is_safe_css_value (text cs) = is_safe_text cs
is_safe_css_value _ = false

abbrev pub max_image_bytes : ℕ
max_image_bytes = 5 * 1024 * 1024

abbrev is_base64 : ℕ → Bool
is_base64 c =
    (leb b'A' c && leb c b'Z')
    || ((leb b'a' c && leb c b'z')
        || ((leb b'0' c && leb c b'9') || (c == b'+' || (c == b'/' || c == b'='))))

-- The characters of a class at the start of a text, and the rest.
abbrev pub take_class : (ℕ → Bool) → Text → Text × Text
take_class p [] = ([], [])
take_class p (c ∷ cs) =
    let (xs, rest) = take_class p cs in if p c then (c ∷ xs, rest) else ([], c ∷ cs)

-- `;base64,` and the content, whose length is that of the match's second group
image_content : Text → Option Text
image_content cs = elim (strip_prefix (codes ";base64,") cs) [
  | none ↦ none
  | some rest ↦
      let (content, left) = take_class is_base64 rest in
      if leb 1 (length content) && at_end left then some content else none
]

image_type : List Text → Text → Option Text
image_type [] cs = none
image_type (t ∷ ts) cs = elim (strip_prefix t cs) [
  | none ↦ image_type ts cs
  | some rest ↦ image_content rest
]

-- The second group of `_DATA_IMAGE.match`
unfoldable pub data_image : Text → Option Text
unfolding image_type image_content
data_image cs = elim (strip_prefix (codes "data:image/") cs) [
  | none ↦ none
  | some rest ↦ image_type (codes "png" ∷ codes "jpeg" ∷ codes "svg+xml" ∷ codes "webp" ∷ []) rest
]

-- `is_data_image`
unfoldable pub is_data_image : Text → Bool
unfolding data_image
is_data_image cs = elim (data_image cs) [
  | none ↦ false
  | some content ↦ leb (length content * 3 / 4) max_image_bytes
]
