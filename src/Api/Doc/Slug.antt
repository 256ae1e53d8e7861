-- ===== src/Api/Doc/Slug.antt =====
-- Slugs and identifiers (backend/app/api/synoptic_doc.py).
pub mod Slugify
use superviseur.Prelude.{
  ℕ, zero, suc, ◌+◌, Bool, true, false, not, ◌&&◌, ◌||◌, Option, none, some, List, [], ◌∷◌, ◌++◌,
  leb, ◌==◌, nat_eq, map, length, take, if◌then◌else◌,
}
use superviseur.Prelude.Text.{Text, codes, lower}
use superviseur.Api.Doc.{strip_prefix, at_end, take_class}

abbrev pub is_slug_char : ℕ → Bool
is_slug_char c = (leb b'a' c && leb c b'z') || (leb b'0' c && leb c b'9')

-- `_SLUG.match`: a run of letters and digits, then further runs behind single dashes. The flag says
-- that a run has begun.
unfoldable pub match_slug : Bool → Text → Bool
match_slug begun [] = begun
match_slug begun (c ∷ cs) =
    let run = match_slug true cs in
    let next = match_slug false cs in
    if is_slug_char c then run else if begun && c == b'-' then next else begun && at_end (c ∷ cs)

-- `is_valid_slug`
unfoldable pub is_valid_slug : Text → Bool
is_valid_slug slug = match_slug false slug && leb (length slug) 64

-- `_TARGET.match`
unfoldable pub is_target : Text → Bool
is_target cs = elim (strip_prefix (codes "synoptic:") cs) [
  | none ↦ false
  | some slug ↦ match_slug false slug
]

abbrev is_id_char : ℕ → Bool
is_id_char c =
    (leb b'A' c && leb c b'Z')
    || ((leb b'a' c && leb c b'z') || ((leb b'0' c && leb c b'9') || (c == b'_' || c == b'-')))

-- `_ID.match`
unfoldable pub is_id : Text → Bool
is_id cs =
    let (name, rest) = take_class is_id_char cs in
    leb 1 (length name) && (leb (length name) 64 && at_end rest)

-- `re.sub(r"[^a-z0-9]+", "-", …)`; the flag says that the last character was replaced.
unfoldable pub dashes : Bool → Text → Text
dashes replaced [] = []
dashes replaced (c ∷ cs) =
    let kept = dashes false cs in
    let skipped = dashes true cs in
    if is_slug_char c then c ∷ kept else if replaced then skipped else b'-' ∷ skipped

abbrev pub drop_dashes : Text → Text
drop_dashes [] = []
drop_dashes (c ∷ cs) = let rest = drop_dashes cs in if c == b'-' then rest else c ∷ cs

-- A character before a text, unless it is a dash at the end.
abbrev pub cut : Bool → ℕ → Text → Text
cut true c [] = []
cut dash c cs = c ∷ cs

-- A text without the dashes at its end.
abbrev pub drop_last_dashes : Text → Text
drop_last_dashes [] = []
drop_last_dashes (c ∷ cs) = cut (c == b'-') c (drop_last_dashes cs)

-- `.strip("-")`
abbrev pub strip_dashes : Text → Text
strip_dashes cs = drop_last_dashes (drop_dashes cs)

-- `slug or "synoptique"`
abbrev pub or_default : Text → Text
or_default [] = codes "synoptique"
or_default (c ∷ cs) = c ∷ cs

-- `slugify`, from the ASCII form of the name that `unicodedata` and the codec produce
unfoldable pub slugify : Text → Text
unfolding dashes
slugify ascii_name =
    or_default (strip_dashes (take 64 (strip_dashes (dashes false (map lower ascii_name)))))
