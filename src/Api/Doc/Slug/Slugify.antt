-- ===== src/Api/Doc/Slug/Slugify.antt =====
-- Every slug that is made from a name is a valid slug.
use superviseur.Prelude.{
  ℕ, zero, suc, ◌≤◌, ◌≡◌, refl, ◌⊎◌, inl, inr, Bool, true, false, not, ◌&&◌, [], ◌∷◌, map, le→leb,
  ◌==◌, nat_eq, length, take, arith, Bool-cases, if◌then◌else◌,
}
use superviseur.Prelude.Text.{Text, lower}
use superviseur.Api.Doc.Slug.{
  is_slug_char, match_slug, is_valid_slug, dashes, drop_dashes, drop_last_dashes, cut, strip_dashes,
  or_default, slugify,
}

-- Letters, digits and single dashes; the flag says that a dash stands before the text, or nothing.
tidy : Bool → Text → Bool
tidy dash [] = true
tidy dash (c ∷ cs) =
    if is_slug_char c then tidy false cs else (not dash && c == b'-') && tidy true cs

dashes-tidy : (b : Bool) (cs : Text) → tidy b (dashes b cs) ≡ true
unfolding tidy dashes
dashes-tidy b [] = refl
dashes-tidy b (c ∷ cs) = ground (arith, dashes-tidy false cs, dashes-tidy true cs)

tidy-weaken : (b : Bool) (cs : Text) → tidy true cs ≡ true → tidy b cs ≡ true
unfolding tidy
tidy-weaken b [] h = refl
tidy-weaken b (c ∷ cs) h = ground arith

drop_dashes-tidy : (b : Bool) (cs : Text) → tidy b cs ≡ true → tidy true (drop_dashes cs) ≡ true
unfolding tidy
drop_dashes-tidy b [] h = refl
drop_dashes-tidy b (c ∷ cs) h = ground (arith, drop_dashes-tidy true cs)

cut-tidy :
    (b : Bool) (c : ℕ) (cs : Text) → tidy b (c ∷ cs) ≡ true → tidy b (cut (c == b'-') c cs) ≡ true
unfolding tidy
cut-tidy b c [] h = ground arith
cut-tidy b c (d ∷ ds) h = ground arith

drop_last_dashes-tidy :
    (b : Bool) (cs : Text) → tidy b cs ≡ true → tidy b (drop_last_dashes cs) ≡ true
unfolding tidy
drop_last_dashes-tidy b [] h = h
drop_last_dashes-tidy b (c ∷ cs) h =
    cut-tidy b c (drop_last_dashes cs)
      (ground (arith, drop_last_dashes-tidy false cs, drop_last_dashes-tidy true cs))

take-tidy : (b : Bool) (n : ℕ) (cs : Text) → tidy b cs ≡ true → tidy b (take n cs) ≡ true
unfolding tidy
take-tidy b zero cs h = refl
take-tidy b (suc n) [] h = refl
take-tidy b (suc n) (c ∷ cs) h = ground (arith, take-tidy false n cs, take-tidy true n cs)

cut_letter :
    (begun : Bool) (c : ℕ) (cs : Text)
    → is_slug_char c ≡ true
    → (cs ≡ []) ⊎ (match_slug true cs ≡ true)
    → match_slug begun (cut (c == b'-') c cs) ≡ true
unfolding match_slug
cut_letter begun c [] l h = ground arith
cut_letter begun c (d ∷ ds) l (inl e) = cc
cut_letter begun c (d ∷ ds) l (inr m) = ground (arith, m)

cut_dash :
    (c : ℕ) (cs : Text)
    → (c == b'-') ≡ true
    → (cs ≡ []) ⊎ (match_slug false cs ≡ true)
    → (cut (c == b'-') c cs ≡ []) ⊎ (match_slug true (cut (c == b'-') c cs) ≡ true)
unfolding match_slug
cut_dash c [] d h = inl (rw d refl)
cut_dash c (x ∷ xs) d (inl e) = cc
cut_dash c (x ∷ xs) d (inr m) = inr (ground (arith, m))

tidy_letter :
    (b : Bool) (c : ℕ) (cs : Text)
    → is_slug_char c ≡ true
    → tidy b (c ∷ cs) ≡ true
    → tidy false cs ≡ true
unfolding tidy
tidy_letter b c cs l h = ground arith

tidy_dash :
    (b : Bool) (c : ℕ) (cs : Text)
    → is_slug_char c ≡ false
    → tidy b (c ∷ cs) ≡ true
    → (b ≡ false) × ((c == b'-') ≡ true) × (tidy true cs ≡ true)
unfolding tidy
tidy_dash b c cs l h = (ground arith, ground arith, ground arith)

match_slug-tidy :
    (dash : Bool) (cs : Text)
    → tidy dash cs ≡ true
    → (drop_last_dashes cs ≡ []) ⊎ (match_slug (not dash) (drop_last_dashes cs) ≡ true)
match_slug-tidy dash [] h = inl refl
match_slug-tidy dash (c ∷ cs) h = elim (Bool-cases (is_slug_char c)) [
  | inl letter ↦ inr (
      cut_letter (not dash) c (drop_last_dashes cs) letter
        (match_slug-tidy false cs (tidy_letter dash c cs letter h)))
  | inr other ↦
      let (begun, is_dash, rest) = tidy_dash dash c cs other h in
      rw begun (cut_dash c (drop_last_dashes cs) is_dash (match_slug-tidy true cs rest))
]

length-cut : (b : Bool) (c : ℕ) (cs : Text) → length (cut b c cs) ≤ suc (length cs)
length-cut true c [] = omega arith
length-cut false c [] = omega arith
length-cut true c (d ∷ ds) = omega arith
length-cut false c (d ∷ ds) = omega arith

length-drop_last_dashes : (cs : Text) → length (drop_last_dashes cs) ≤ length cs
length-drop_last_dashes [] = omega arith
length-drop_last_dashes (c ∷ cs) =
    omega (arith, length-cut (c == b'-') c (drop_last_dashes cs), length-drop_last_dashes cs)

length-drop_dashes : (cs : Text) → length (drop_dashes cs) ≤ length cs
length-drop_dashes [] = omega arith
length-drop_dashes (c ∷ cs) = ground (arith, length-drop_dashes cs)

length-take : (n : ℕ) (cs : Text) → length (take n cs) ≤ n
length-take zero cs = omega arith
length-take (suc n) [] = omega arith
length-take (suc n) (c ∷ cs) = omega (arith, length-take n cs)

or_default-valid :
    (cs : Text)
    → (cs ≡ []) ⊎ (match_slug false cs ≡ true)
    → length cs ≤ 64
    → is_valid_slug (or_default cs) ≡ true
unfolding is_valid_slug
or_default-valid [] h l = unfold match_slug in refl
or_default-valid (c ∷ cs) (inl e) l = cc
or_default-valid (c ∷ cs) (inr m) l = rw (m, le→leb (length (c ∷ cs)) 64 l) refl

strip_dashes-tidy : (b : Bool) (cs : Text) → tidy b cs ≡ true → tidy true (strip_dashes cs) ≡ true
strip_dashes-tidy b cs h = drop_last_dashes-tidy true (drop_dashes cs) (drop_dashes-tidy b cs h)

-- The slug that is made from any name is a valid slug.
pub slugify_is_valid : (ascii_name : Text) → is_valid_slug (slugify ascii_name) ≡ true
unfolding slugify
slugify_is_valid ascii_name =
    let replaced = dashes false (map lower ascii_name) in
    let short = take 64 (strip_dashes replaced) in
    let trimmed = drop_dashes short in
    let short_tidy : tidy true short ≡ true =
      take-tidy true 64 (strip_dashes replaced)
        (strip_dashes-tidy false replaced (dashes-tidy false (map lower ascii_name))) in
    or_default-valid (drop_last_dashes trimmed)
      (match_slug-tidy true trimmed (drop_dashes-tidy true short short_tidy))
      (omega (
        arith,
        length-drop_last_dashes trimmed,
        length-drop_dashes short,
        length-take 64 (strip_dashes replaced),
      ))
