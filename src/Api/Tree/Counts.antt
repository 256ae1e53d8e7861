-- ===== src/Api/Tree/Counts.antt =====
-- Every point below a level of the tree is counted in its folder or listed.
use superviseur.Prelude.{
  map, ℕ, ◌+◌, ◌≡◌, refl, sym, ◌∙◌, ap, Bool-cases, Option-cases, List, [], ◌∷◌, ◌++◌, append-nil,
  append_assoc, ◌≤◌, zero, suc, take, filter, length, ◌==◌, nat_eq, arith, inl, inr, if◌then◌else◌,
}
use superviseur.Prelude.Text.{Text, text_eq, same_text_iff}
use superviseur.Prelude.Dict.{Dict}
use superviseur.Api.Tree.Level.{is_in, is_leaf, ids, stands_in, stands_at, length-below, ids-below}
use superviseur.Api.Tree.{
  TreePoint, TreeFolder, strip_slashes, stem_of, below, folder_of, count_up, tally, put_sorted,
  sorted, folders_of, points_tree, text_before,
}

-- What the folders of a name count.
abbrev pub count_in : Text → List TreeFolder → ℕ
count_in name [] = 0
count_in name (f ∷ fs) =
    let rest = count_in name fs in if f.name == name then f.count + rest else rest

abbrev count_of : Text → Dict Text ℕ → ℕ
count_of name [] = 0
count_of name ((k, n) ∷ d) = let rest = count_of name d in if k == name then n + rest else rest

take-all : (n : ℕ) (xs : List ℕ) → length xs ≤ n → take n xs ≡ xs
take-all zero [] h = refl
take-all zero (x ∷ xs) h = absurd (omega arith)
take-all (suc n) [] h = refl
take-all (suc n) (x ∷ xs) h = ap (λ ys. x ∷ ys) (take-all n xs (omega (arith, h)))

count_of-count_up :
    (name folder : Text) (d : Dict Text ℕ)
    → count_of name (count_up folder d) ≡ count_of name d + (if folder == name then 1 else 0)
count_of-count_up name folder [] = ground arith
count_of-count_up name folder ((k, n) ∷ d) = ground (
  arith,
  same_text_iff k folder,
  same_text_iff k name,
  same_text_iff folder name,
  count_of-count_up name folder d,
)

count_of-put_sorted :
    (name : Text) (x : Text × ℕ) (d : Dict Text ℕ)
    → count_of name (put_sorted x d) ≡ count_of name (x ∷ d)
count_of-put_sorted name x [] = refl
count_of-put_sorted name x (y ∷ d) = elim (Bool-cases (text_before (x.0) (y.0))) [
  | inl first ↦ rw first refl
  | inr later ↦ rw later (ground (arith, count_of-put_sorted name x d))
]

count_of-sorted : (name : Text) (d : Dict Text ℕ) → count_of name (sorted d) ≡ count_of name d
count_of-sorted name [] = refl
count_of-sorted name (x ∷ d) =
    ground (arith, count_of-put_sorted name x (sorted d), count_of-sorted name d)

count_in-folders_of :
    (name stem : Text) (d : Dict Text ℕ) → count_in name (folders_of stem d) ≡ count_of name d
count_in-folders_of name stem [] = refl
count_in-folders_of name stem ((k, n) ∷ d) = ground (arith, count_in-folders_of name stem d)

count_of-tally :
    (name : Text) (xs : List (ℕ × Text)) (counts : Dict Text ℕ) (leaves : List ℕ)
    → count_of name (tally xs counts leaves).0
      ≡ count_of name counts + length (filter (is_in name) xs)
unfolding tally
count_of-tally name [] counts leaves = omega arith
count_of-tally name ((id, rest) ∷ xs) counts leaves = elim (Option-cases (folder_of rest)) [
  | inl leaf ↦
      rw (tally, leaf) (ground (arith, leaf, count_of-tally name xs counts (leaves ++ id ∷ [])))
  | inr (folder, found) ↦
      rw (tally, found)
        (ground (
          arith,
          found,
          count_of-tally name xs (count_up folder counts) leaves,
          count_of-count_up name folder counts,
        ))
]

leaves-tally :
    (xs : List (ℕ × Text)) (counts : Dict Text ℕ) (leaves : List ℕ)
    → (tally xs counts leaves).1 ≡ leaves ++ ids (filter is_leaf xs)
unfolding tally
leaves-tally [] counts leaves = sym (append-nil leaves)
leaves-tally ((id, rest) ∷ xs) counts leaves = elim (Option-cases (folder_of rest)) [
  | inl leaf ↦
      rw (tally, leaf)
        (leaves-tally xs counts (leaves ++ id ∷ [])
          ∙ append_assoc leaves (id ∷ []) (ids (filter is_leaf xs)))
  | inr (folder, found) ↦ rw (tally, found) (leaves-tally xs (count_up folder counts) leaves)
]

count_in-tree :
    (order_by_name : List ℕ → List ℕ) (path name : Text) (ps : List TreePoint)
    → count_in name (points_tree order_by_name path ps).folders
      ≡ length (filter (is_in name) (below (stem_of (strip_slashes path)) ps))
unfolding points_tree
count_in-tree order_by_name path name ps =
    let stem = stem_of (strip_slashes path) in
    let xs = below stem ps in
    count_in-folders_of name stem (sorted (tally xs [] []).0)
    ∙ count_of-sorted name (tally xs [] []).0
    ∙ count_of-tally name xs [] []
    ∙ (omega arith)

-- At each level of the tree, the count of a folder is the number of the points that are not missing and
-- whose path, or `(sans chemin)/` and their name, begins with the level, the name of the folder and a
-- slash; it is 0 for a name with a slash. Where at most 1000 points that are not missing have a path
-- that goes on from the level without a slash, those listed are the first 200 of them by name. The
-- level is the asked path without the slashes at its ends, with one behind it unless it is empty.
pub tree_counts_every_point :
    (order_by_name : List ℕ → List ℕ) (path : Text) (ps : List TreePoint)
    → let stem = stem_of (strip_slashes path) in
      let tree = points_tree order_by_name path ps in
      let here = map (λ (p : TreePoint). p.id) (filter (stands_at stem) ps) in
      ((name : Text) → count_in name tree.folders ≡ length (filter (stands_in stem name) ps))
      × (length here ≤ 1000 → tree.points ≡ take 200 (order_by_name here))
unfolding points_tree
tree_counts_every_point order_by_name path ps =
    let stem = stem_of (strip_slashes path) in
    let xs = below stem ps in
    let listed = leaves-tally xs [] [] ∙ ids-below stem ps in
    let here = map (λ (p : TreePoint). p.id) (filter (stands_at stem) ps) in
    (
      λ name. count_in-tree order_by_name path name ps ∙ length-below stem name ps,
      λ few.
          ap (λ ls. take 200 (order_by_name (take 1000 ls))) listed
          ∙ ap (λ ls. take 200 (order_by_name ls)) (take-all 1000 here few),
    )
