-- ===== src/Api/Tree.antt =====
-- The tree of the points' logical paths (backend/app/api/routes/points.py, `points_tree`). The order
-- by name of the database is a parameter.
pub mod Level
pub mod Counts
use mathlib.Core.List.{reverse}
use superviseur.Prelude.{
  ℕ, ◌+◌, ◌*◌, Bool, true, false, not, ◌&&◌, Option, none, some, List, [], ◌∷◌, ◌++◌, map, take,
  drop, filter, length, or_else, ltb, ◌==◌, nat_eq, if◌then◌else◌,
}
use superviseur.Prelude.Text.{Text, text_eq, codes}
use superviseur.Api.Doc.{starts_with}
use superviseur.Prelude.Dict.{Dict, lookup, insert}

-- The columns of the table `point` that the tree reads.
pub record TreePoint : Type 0 where
  pub id : ℕ
  pub name : Text
  pub path : Option Text
  pub missing : Bool

pub record TreeFolder : Type 0 where
  pub name : Text
  pub path : Text
  pub count : ℕ

pub record TreeOut : Type 0 where
  pub path : Text
  pub folders : List TreeFolder
  pub points : List ℕ

abbrev pub max_tree_points : ℕ
max_tree_points = 200

abbrev pub no_path : Text
no_path = codes "(sans chemin)"

abbrev pub skip_slashes : Text → Text
skip_slashes [] = []
skip_slashes (c ∷ cs) = let rest = skip_slashes cs in if c == b'/' then rest else c ∷ cs

-- `path.strip("/")`
abbrev pub strip_slashes : Text → Text
strip_slashes cs = reverse (skip_slashes (reverse (skip_slashes cs)))

abbrev pub stem_of : Text → Text
stem_of [] = []
stem_of (c ∷ cs) = c ∷ cs ++ b'/' ∷ []

-- The path, or the name in the folder of the points without one.
abbrev pub logical : TreePoint → Text
logical p = or_else p.path (no_path ++ b'/' ∷ p.name)

-- The points below a folder, each with the rest of its path.
abbrev pub below : Text → List TreePoint → List (ℕ × Text)
below stem ps =
    map (λ (p : TreePoint). (p.id, drop (length stem) (logical p)))
      (filter (λ (p : TreePoint). not p.missing && starts_with stem (logical p)) ps)

-- `rest.split("/", 1)[0]` if there is a slash in the rest.
abbrev pub folder_of : Text → Option Text
folder_of [] = none
folder_of (c ∷ cs) =
    let rest = folder_of cs in
    if c == b'/' then some [] else elim rest [ none ↦ none | some f ↦ some (c ∷ f) ]

-- `counts[folder] = counts.get(folder, 0) + 1`
abbrev pub count_up : Text → Dict Text ℕ → Dict Text ℕ
count_up folder d = insert folder (or_else (lookup folder d) 0 + 1) d

-- The loop over the points, with `counts` and `leaves`.
unfoldable pub tally : List (ℕ × Text) → Dict Text ℕ → List ℕ → Dict Text ℕ × List ℕ
tally [] counts leaves = (counts, leaves)
tally ((id, rest) ∷ more) counts leaves = elim (folder_of rest) [
  | none ↦ tally more counts (leaves ++ id ∷ [])
  | some folder ↦ tally more (count_up folder counts) leaves
]

-- Texts are ordered by code points, a text before its continuations.
abbrev pub text_before : Text → Text → Bool
text_before [] [] = false
text_before [] (d ∷ ds) = true
text_before (c ∷ cs) [] = false
text_before (c ∷ cs) (d ∷ ds) = let rest = text_before cs ds in if c == d then rest else ltb c d

abbrev pub put_sorted : Text × ℕ → Dict Text ℕ → Dict Text ℕ
put_sorted x [] = x ∷ []
put_sorted x (y ∷ d) =
    let rest = put_sorted x d in if text_before (x.0) (y.0) then x ∷ y ∷ d else y ∷ rest

-- `sorted(counts.items())`; the names are all different.
abbrev pub sorted : Dict Text ℕ → Dict Text ℕ
sorted [] = []
sorted (x ∷ d) = put_sorted x (sorted d)

abbrev pub folders_of : Text → Dict Text ℕ → List TreeFolder
folders_of stem [] = []
folders_of stem ((name, count) ∷ d) =
    record { name = name; path = stem ++ name; count = count } ∷ folders_of stem d

-- `points_tree`
unfoldable pub points_tree : (List ℕ → List ℕ) → Text → List TreePoint → TreeOut
points_tree order_by_name path ps =
    let prefix = strip_slashes path in
    let stem = stem_of prefix in
    let (counts, leaves) = tally (below stem ps) [] [] in
    record {
      path = prefix;
      folders = folders_of stem (sorted counts);
      points = take max_tree_points (order_by_name (take (max_tree_points * 5) leaves));
    }
