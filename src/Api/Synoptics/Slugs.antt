-- ===== src/Api/Synoptics/Slugs.antt =====
-- The loop that adapts the slug of a new synoptic comes to an end.
use superviseur.Prelude.{
  ℕ, zero, suc, ◌+◌, ◌≤◌, ◌<◌, ◌≡◌, refl, sym, ◌∙◌, ap, Bool, true, false, ◌||◌, none, some, List,
  [], ◌∷◌, ◌++◌, any, length, map, take, ◌==◌, nat_eq, arith, Bool-cases, Option-cases, inl, inr,
  if◌then◌else◌,
}
use superviseur.Prelude.Text.{Text, text_eq}
use superviseur.Prelude.Digits.{decimal, decimal-inj}
use superviseur.Api.Synoptics.{Synoptic, candidate, taken, free_slug, choose_slug}

append-cancel : (xs ys zs : Text) → xs ++ ys ≡ xs ++ zs → ys ≡ zs
append-cancel [] ys zs e = e
append-cancel (x ∷ xs) ys zs e = append-cancel xs ys zs (cc)

candidate-inj : (base : Text) (m n : ℕ) → candidate base m ≡ candidate base n → m ≡ n
candidate-inj base m n e =
    let tails = append-cancel (take 60 base) (b'-' ∷ decimal m) (b'-' ∷ decimal n) e in
    decimal-inj m n (cc)

-- The list without the first occurrence of a text.
abbrev erase : Text → List Text → List Text
erase x [] = []
erase x (y ∷ ys) = let rest = erase x ys in if y == x then ys else y ∷ rest

abbrev holds : Text → List Text → Bool
holds x ys = any (λ y. y == x) ys

length-erase :
    (x : Text) (ys : List Text) → holds x ys ≡ true → length ys ≡ suc (length (erase x ys))
length-erase x [] h = cc
length-erase x (y ∷ ys) h = elim (Bool-cases (y == x)) [
  | inl same ↦ rw same refl
  | inr other ↦ rw other (ap suc (length-erase x ys (rw other at h)))
]

holds-erase :
    (x z : Text) (ys : List Text)
    → (x == z) ≡ false
    → holds z ys ≡ true
    → holds z (erase x ys) ≡ true
holds-erase x z [] d h = h
holds-erase x z (y ∷ ys) d h = elim (Bool-cases (y == x)) [
  | inl same ↦
      let e = (text_eq.agree_iff y x).0 same in
      rw same (let away : (y == z) ≡ false = ap (λ t. t == z) e ∙ d in rw away at h)
  | inr other ↦ rw other (ground (arith, h, holds-erase x z ys d))
]

taken-holds : (x : Text) (ss : List Synoptic) → taken x ss ≡ holds x (map (λ s. s.slug) ss)
taken-holds x [] = refl
taken-holds x (s ∷ ss) = ap (λ b. (s.slug == x) || b) (taken-holds x ss)

length-map : (ss : List Synoptic) → length (map (λ s. s.slug) ss) ≡ length ss
length-map [] = refl
length-map (s ∷ ss) = ap suc (length-map ss)

module _ (base : Text) where
  -- So many candidates, from a number on, stand in the list.
  abbrev AllTaken : ℕ → ℕ → List Text → Type 0
  AllTaken zero k ys = Unit
  AllTaken (suc f) k ys = (holds (candidate base k) ys ≡ true) × AllTaken f (k + 1) ys

  candidate_differs : (m n : ℕ) → m < n → (candidate base m == candidate base n) ≡ false
  candidate_differs m n h = elim (Bool-cases (candidate base m == candidate base n)) [
    | inl same ↦
        absurd
          (let e = candidate-inj base m n ((text_eq.agree_iff _ _).0 same) in omega (arith, h, e))
    | inr other ↦ other
  ]

  AllTaken-erase :
      (f k j : ℕ) (ys : List Text)
      → k < j
      → AllTaken f j ys
      → AllTaken f j (erase (candidate base k) ys)
  AllTaken-erase zero k j ys h a = tt
  AllTaken-erase (suc f) k j ys h a = (
    holds-erase (candidate base k) (candidate base j) ys (candidate_differs k j h) (a.0),
    AllTaken-erase f k (j + 1) ys (omega (arith, h)) (a.1),
  )

  -- The candidates are all different, so that no more of them stand in a list than it has texts.
  pigeonhole : (f k : ℕ) (ys : List Text) → AllTaken f k ys → f ≤ length ys
  pigeonhole zero k ys a = omega arith
  pigeonhole (suc f) k ys a =
      let fewer =
        pigeonhole f (k + 1) (erase (candidate base k) ys)
          (AllTaken-erase f k (k + 1) ys (omega arith) (a.1)) in
      omega (arith, fewer, length-erase (candidate base k) ys (a.0))

  free_slug-none :
      (f k : ℕ) (ss : List Synoptic)
      → free_slug f base (candidate base k) k ss ≡ none
      → AllTaken f k (map (λ s. s.slug) ss)
  unfolding free_slug
  free_slug-none zero k ss h = tt
  free_slug-none (suc f) k ss h = elim (Bool-cases (taken (candidate base k) ss)) [
    | inl used ↦
        (sym (taken-holds (candidate base k) ss) ∙ used, free_slug-none f (k + 1) ss (rw used at h))
    | inr free ↦ cc
  ]

  free_slug_ends :
      (f : ℕ) (ss : List Synoptic) → length ss < f → ¬ (free_slug (suc f) base base 1 ss ≡ none)
  unfolding free_slug
  free_slug_ends f ss h never = elim (Bool-cases (taken base ss)) [
    | inl used ↦
        let few =
          pigeonhole f 2 (map (λ s. s.slug) ss) (free_slug-none f 2 ss (rw used at never)) in
        omega (arith, h, few, length-map ss)
    | inr free ↦ cc
  ]

  free_slug-free :
      (f : ℕ) (slug : Text) (k : ℕ) (ss : List Synoptic) (s : Text)
      → free_slug f base slug k ss ≡ some s
      → taken s ss ≡ false
  unfolding free_slug
  free_slug-free zero slug k ss s h = cc
  free_slug-free (suc f) slug k ss s h = elim (Bool-cases (taken slug ss)) [
    | inl used ↦ free_slug-free f (candidate base (k + 1)) (k + 1) ss s (rw used at h)
    | inr free ↦ let same : slug ≡ s = cc in ap (λ x. taken x ss) (sym same) ∙ free
  ]

-- The loop that adapts a slug that is made from a name ends after at most two rounds more than there
-- are synoptics, and the slug that it ends with is not taken.
pub choose_slug_free :
    (base : Text) (ss : List Synoptic)
    → (slug : Text) × (choose_slug none base ss ≡ some slug) × (taken slug ss ≡ false)
unfolding choose_slug
choose_slug_free base ss = elim (Option-cases (free_slug (suc (suc (length ss))) base base 1 ss)) [
  | inl never ↦ absurd (free_slug_ends base (suc (length ss)) ss (omega arith) never)
  | inr (slug, e) ↦ (slug, e, free_slug-free base (suc (suc (length ss))) base 1 ss slug e)
]
