-- ===== src/Api/Users/Admins/Counts.antt =====
-- The number of active administrators, under the changes to the rows of the users.
use superviseur.Prelude.{
  ℕ, ◌≤◌, ◌≡◌, sym, ◌∙◌, ap, true, false, some, List, [], ◌∷◌, ◌++◌, length, filter, arith, ◌==◌,
  nat_eq, string_eq, inl, inr, Bool-cases,
}
use superviseur.Prelude.Text.{text_eq}
use superviseur.Api.Session.{User, find_user}
use superviseur.Api.Users.{is_active_admin, other_active_admins, assign, remove}

abbrev pub active_admins : List User → ℕ
active_admins us = length (filter is_active_admin us)

active_admins-more : (u : User) (us : List User) → active_admins us ≤ active_admins (u ∷ us)
active_admins-more u us = ground arith

others-all : (id : ℕ) (us : List User) → other_active_admins id us ≤ active_admins us
others-all id [] = omega arith
others-all id (u ∷ us) = ground (arith, others-all id us)

pub others-assign :
    (id : ℕ) (f : User → User) (us : List User)
    → other_active_admins id us ≤ active_admins (assign id f us)
unfolding assign
others-assign id f [] = omega arith
others-assign id f (u ∷ us) =
    ground (arith, others-assign id f us, others-all id us, active_admins-more (f u) us)

pub others-remove :
    (id : ℕ) (us : List User) → other_active_admins id us ≤ active_admins (remove id us)
unfolding remove
others-remove id [] = omega arith
others-remove id (u ∷ us) = ground (arith, others-remove id us, others-all id us)

active_admins-cons :
    (u v : User) (us vs : List User)
    → (is_active_admin u ≡ true → is_active_admin v ≡ true)
    → active_admins us ≤ active_admins vs
    → active_admins (u ∷ us) ≤ active_admins (v ∷ vs)
active_admins-cons u v us vs h k = elim (Bool-cases (is_active_admin u)) [
  | inl admin ↦ rw (admin, h admin) (omega (arith, k))
  | inr other ↦ rw other (omega (arith, k, active_admins-more v vs))
]

-- An assignment that takes no administrator away leaves their number at least.
pub active_admins-assign :
    (id : ℕ) (f : User → User) (us : List User) (u : User)
    → find_user id us ≡ some u
    → (is_active_admin u ≡ true → is_active_admin (f u) ≡ true)
    → active_admins us ≤ active_admins (assign id f us)
unfolding assign find_user
active_admins-assign id f [] u e h = cc
active_admins-assign id f (v ∷ us) u e h = elim (Bool-cases (v.id == id)) [
  | inl same ↦
      let here : v ≡ u = cc in
      rw same (
        active_admins-cons v (f v) us us
          (λ a. ap (λ x. is_active_admin (f x)) here ∙ h (ap is_active_admin (sym here) ∙ a))
          (omega arith))
  | inr other ↦ rw other (
      active_admins-cons v v us (assign id f us) (λ a. a)
        (active_admins-assign id f us u (rw other at e) h))
]

pub active_admins-remove :
    (id : ℕ) (us : List User) (u : User)
    → find_user id us ≡ some u
    → is_active_admin u ≡ false
    → active_admins us ≤ active_admins (remove id us)
unfolding remove find_user
active_admins-remove id [] u e h = cc
active_admins-remove id (v ∷ us) u e h = elim (Bool-cases (v.id == id)) [
  | inl same ↦ let here : v ≡ u = cc in rw (same, ap is_active_admin here ∙ h) (omega arith)
  | inr other ↦ rw other (
      active_admins-cons v v us (remove id us) (λ a. a)
        (active_admins-remove id us u (rw other at e) h))
]

pub active_admins-append : (us vs : List User) → active_admins us ≤ active_admins (us ++ vs)
active_admins-append [] vs = omega arith
active_admins-append (u ∷ us) vs =
    active_admins-cons u u us (us ++ vs) (λ a. a) (active_admins-append us vs)

find_user-id : (id : ℕ) (us : List User) (u : User) → find_user id us ≡ some u → u.id ≡ id
unfolding find_user
find_user-id id [] u e = cc
find_user-id id (v ∷ us) u e = elim (Bool-cases (v.id == id)) [
  | inl same ↦
      let here : v ≡ u = cc in ap (λ x. x.id) (sym here) ∙ (nat_eq.agree_iff v.id id).0 same
  | inr other ↦ find_user-id id us u (rw other at e)
]

pub find_user_again :
    (id : ℕ) (us : List User) (u : User) → find_user id us ≡ some u → find_user u.id us ≡ some u
find_user_again id us u e = ap (λ x. find_user x us) (find_user-id id us u e) ∙ e
