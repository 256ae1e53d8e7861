-- ===== src/Alarms/Notifier/Rate/Window.antt =====
-- The instants that one target's window remembers.
use superviseur.Prelude.{
  ℕ, ◌+◌, ◌≤◌, ◌≡◌, refl, ap, Bool, true, false, List, [], ◌∷◌, ◌++◌, arith, pair_eq, leb, ltb,
  leb→le, length, length-append, filter, All, inl, inr, Bool-cases,
}
use superviseur.Prelude.Text.{text_eq}
use superviseur.Alarms.Notifier.{Settings, prune}

pub ltb_self : (n : ℕ) → ltb n n ≡ false
ltb_self n = ground arith

pub ltb_snoc : {A : Type 0} (xs : List A) (x : A) → ltb (length xs) (length (xs ++ x ∷ [])) ≡ true
ltb_snoc xs x = ground (arith, length-append xs (x ∷ []))

pub filter_shorter : (p : ℕ → Bool) (ts : List ℕ) → length (filter p ts) ≤ length ts
filter_shorter p [] = omega arith
filter_shorter p (t ∷ ts) = elim (Bool-cases (p t)) [
  | inl taken ↦ rw taken (omega (arith, filter_shorter p ts))
  | inr left ↦ rw left (omega (arith, filter_shorter p ts))
]

pub count_within :
    (p : ℕ → Bool) (old young : List ℕ)
    → All (λ t. p t ≡ false) old
    → length (filter p (old ++ young)) ≤ length young
count_within p [] young h = filter_shorter p young
count_within p (t ∷ ts) young h = rw (h.0) (count_within p ts young h.1)

module _ (cfg : Settings) where
  pub prune_parts :
      (now : ℕ) (ts : List ℕ)
      → (p : List ℕ) × (ts ≡ p ++ prune cfg.window_s now ts) × All (λ t. t + cfg.window_s ≤ now) p
  unfolding prune
  prune_parts now [] = ([], refl, tt)
  prune_parts now (t ∷ ts) = elim (Bool-cases (leb (t + cfg.window_s) now)) [
    | inl old ↦
        let (p, e, h) = prune_parts now ts in
        rw old (t ∷ p, ap (λ x. t ∷ x) e, (leb→le (t + cfg.window_s) now old, h))
    | inr young ↦ rw young ([], refl, tt)
  ]

  pub All-later :
      (now later : ℕ) (ts : List ℕ)
      → now ≤ later
      → All (λ t. t + cfg.window_s ≤ now) ts
      → All (λ t. t + cfg.window_s ≤ later) ts
  All-later now later [] l h = tt
  All-later now later (t ∷ ts) l h = (omega arith, All-later now later ts l h.1)

  pub All-out :
      (now later : ℕ) (ts : List ℕ)
      → now ≤ later
      → All (λ t. t + cfg.window_s ≤ now) ts
      → All (λ t. ltb later (t + cfg.window_s) ≡ false) ts
  All-out now later [] l h = tt
  All-out now later (t ∷ ts) l h = (out t h.0, All-out now later ts l h.1)
    where
      out : (u : ℕ) → u + cfg.window_s ≤ now → ltb later (u + cfg.window_s) ≡ false
      out u k = ground arith
