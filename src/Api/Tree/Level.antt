-- ===== src/Api/Tree/Level.antt =====
-- Which points stand at a level of the tree and in its folders, said of their paths.
use superviseur.Prelude.{
  ℕ, ◌≡◌, refl, ap, Bool, Bool-cases, true, false, not, ◌&&◌, Option-cases, none, some, is_some,
  List, [], ◌∷◌, ◌++◌, map, drop, filter, length, ◌==◌, nat_eq, arith, inl, inr,
}
use superviseur.Prelude.Text.{Text, text_eq, codes}
use superviseur.Api.Doc.{starts_with}
use superviseur.Api.Tree.{TreePoint, logical, below, folder_of}

-- The path of a point; those without one stand in a folder of their own.
abbrev pub full_path : TreePoint → Text
full_path p = elim p.path [ none ↦ codes "(sans chemin)/" ++ p.name | some path ↦ path ]

abbrev pub begins : Text → Text → Bool
begins [] l = true
begins (c ∷ cs) [] = false
begins (c ∷ cs) (d ∷ ds) = (c == d) && begins cs ds

abbrev pub no_slash : Text → Bool
no_slash [] = true
no_slash (c ∷ cs) = not (c == b'/') && no_slash cs

-- The point is there, in the folder of the name.
abbrev pub stands_in : Text → Text → TreePoint → Bool
stands_in stem name p =
    not p.missing && (no_slash name && begins (stem ++ (name ++ b'/' ∷ [])) (full_path p))

-- The point is there, directly at the level.
abbrev pub stands_at : Text → TreePoint → Bool
stands_at stem p =
    not p.missing && (begins stem (full_path p) && no_slash (drop (length stem) (full_path p)))

-- The same said by the folder of the rest of the path.
abbrev pub is_in : Text → ℕ × Text → Bool
is_in name x = elim (folder_of x.1) [ none ↦ false | some f ↦ f == name ]

abbrev pub is_leaf : ℕ × Text → Bool
is_leaf x = not (is_some (folder_of x.1))

abbrev pub ids : List (ℕ × Text) → List ℕ
ids [] = []
ids ((id, rest) ∷ xs) = id ∷ ids xs

starts_with-begins : (stem l : Text) → starts_with stem l ≡ begins stem l
starts_with-begins [] l = refl
starts_with-begins (c ∷ cs) [] = refl
starts_with-begins (c ∷ cs) (d ∷ ds) = elim (Bool-cases (c == d)) [
  | inl same ↦ rw same (ground (arith, same, starts_with-begins cs ds))
  | inr other ↦ rw other (ground (arith, other))
]

begins-append :
    (stem r l : Text) → begins (stem ++ r) l ≡ (begins stem l && begins r (drop (length stem) l))
begins-append [] r l = refl
begins-append (c ∷ cs) r [] = refl
begins-append (c ∷ cs) r (d ∷ ds) = ground (arith, begins-append cs r ds)

is_leaf-no_slash : (id : ℕ) (l : Text) → is_leaf (id, l) ≡ no_slash l
is_leaf-no_slash id [] = refl
is_leaf-no_slash id (c ∷ cs) = elim (Bool-cases (c == b'/')) [
  | inl slash ↦ rw slash refl
  | inr other ↦ elim (Option-cases (folder_of cs)) [
    | inl leaf ↦ rw (other, leaf) (ground (arith, leaf, is_leaf-no_slash id cs))
    | inr (f, found) ↦ rw (other, found) (ground (arith, found, is_leaf-no_slash id cs))
  ]
]

is_in-begins :
    (id : ℕ) (name l : Text) → is_in name (id, l) ≡ (no_slash name && begins (name ++ b'/' ∷ []) l)
is_in-begins id [] [] = refl
is_in-begins id (c ∷ cs) [] = ground arith
is_in-begins id [] (d ∷ ds) = elim (Bool-cases (d == b'/')) [
  | inl slash ↦ rw (is_in, slash) (ground (arith, slash))
  | inr other ↦ elim (Option-cases (folder_of ds)) [
    | inl leaf ↦ rw (is_in, other, leaf) (ground (arith, other))
    | inr (f, found) ↦ rw (is_in, other, found) (ground (arith, other))
  ]
]
is_in-begins id (c ∷ cs) (d ∷ ds) = elim (Bool-cases (d == b'/')) [
  | inl slash ↦ rw (is_in, slash) (ground (arith, slash))
  | inr other ↦ elim (Option-cases (folder_of ds)) [
    | inl leaf ↦ rw (is_in, other, leaf) (ground (arith, other, leaf, is_in-begins id cs ds))
    | inr (f, found) ↦
        rw (is_in, other, found) (ground (arith, other, found, is_in-begins id cs ds))
  ]
]

full_path-logical : (p : TreePoint) → full_path p ≡ logical p
full_path-logical p =
    elim p.path as (λ o. full_path (record p { path = o }) ≡ logical (record p { path = o })) [
      | none ↦ refl
      | some path ↦ refl
    ]

abbrev rest_of : Text → TreePoint → ℕ × Text
rest_of stem p = (p.id, drop (length stem) (logical p))

abbrev is_under : Text → TreePoint → Bool
is_under stem p = not p.missing && starts_with stem (logical p)

in-stands_in :
    (stem name : Text) (p : TreePoint)
    → (is_under stem p && is_in name (rest_of stem p)) ≡ stands_in stem name p
in-stands_in stem name p = rw (full_path-logical p) (
    ground (
      arith,
      starts_with-begins stem (logical p),
      begins-append stem (name ++ b'/' ∷ []) (logical p),
      is_in-begins p.id name (drop (length stem) (logical p)),
    ))

leaf-stands_at :
    (stem : Text) (p : TreePoint) → (is_under stem p && is_leaf (rest_of stem p)) ≡ stands_at stem p
leaf-stands_at stem p = rw (full_path-logical p) (
    ground (
      arith,
      starts_with-begins stem (logical p),
      is_leaf-no_slash p.id (drop (length stem) (logical p)),
    ))

pub length-below :
    (stem name : Text) (ps : List TreePoint)
    → length (filter (is_in name) (below stem ps)) ≡ length (filter (stands_in stem name) ps)
length-below stem name [] = refl
length-below stem name (p ∷ ps) =
    let same = in-stands_in stem name p in
    elim (Bool-cases (is_under stem p)) [
      | inl inside ↦ rw inside (ground (arith, inside, same, length-below stem name ps))
      | inr outside ↦ rw outside (ground (arith, outside, same, length-below stem name ps))
    ]

pub ids-below :
    (stem : Text) (ps : List TreePoint)
    → ids (filter is_leaf (below stem ps))
      ≡ map (λ (p : TreePoint). p.id) (filter (stands_at stem) ps)
ids-below stem [] = refl
ids-below stem (p ∷ ps) =
    let same = leaf-stands_at stem p in
    elim (Bool-cases (is_under stem p)) [
      | inl inside ↦ elim (Bool-cases (is_leaf (rest_of stem p))) [
        | inl leaf ↦
            let at : stands_at stem p ≡ true = ground (arith, same, inside, leaf) in
            rw (inside, leaf, at) (ap (λ xs. p.id ∷ xs) (ids-below stem ps))
        | inr deeper ↦
            let at : stands_at stem p ≡ false = ground (arith, same, inside, deeper) in
            rw (inside, deeper, at) (ids-below stem ps)
      ]
      | inr outside ↦
          let at : stands_at stem p ≡ false = ground (arith, same, outside) in
          rw (outside, at) (ids-below stem ps)
    ]
