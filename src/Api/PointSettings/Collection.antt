-- ===== src/Api/PointSettings/Collection.antt =====
-- The settings on which the collector depends (backend/app/api/routes/points.py).
use mathlib.Core.Path.{subst}
use superviseur.Prelude.{
  ℕ, ◌≡◌, refl, sym, ap, Bool, Bool-cases, true, Option, none, some, List, [], ◌∷◌, map, or_else,
  ◌==◌, nat_eq, arith, inl, inr,
}
use superviseur.Prelude.Int.{ℤ, pos, negsuc}
use superviseur.Prelude.Float.{Float, num, pos_inf, neg_inf, nan}
use superviseur.Api.RuleForm.{same_option}
use superviseur.Api.PointSettings.{
  PointRow, PointUpdate, replaced, settings, same_int, float_eq, unless_named, same_collection,
  find_point, set_point,
}

-- What the collector reads of the settings of a point.
abbrev pub collection : PointRow → Float × ℤ × Option ℤ
collection p = (p.deadband, p.max_interval_s, p.poll_interval_s)

same_int-eq : (m n : ℤ) → same_int m n ≡ true → m ≡ n
same_int-eq (pos m) (pos n) h = ap pos (ground (arith, h))
same_int-eq (pos m) (negsuc n) h = absurd (ground (arith, h))
same_int-eq (negsuc m) (pos n) h = absurd (ground (arith, h))
same_int-eq (negsuc m) (negsuc n) h = ap negsuc (ground (arith, h))

float_eq-eq : (x y : Float) → float_eq x y ≡ true → x ≡ y
float_eq-eq (num a) (num b) h = ap num (same_int-eq a b h)
float_eq-eq pos_inf pos_inf h = refl
float_eq-eq neg_inf neg_inf h = refl
float_eq-eq nan y h = cc
float_eq-eq (num a) nan h = cc
float_eq-eq (num a) pos_inf h = cc
float_eq-eq (num a) neg_inf h = cc
float_eq-eq pos_inf nan h = cc
float_eq-eq pos_inf (num b) h = cc
float_eq-eq pos_inf neg_inf h = cc
float_eq-eq neg_inf nan h = cc
float_eq-eq neg_inf (num b) h = cc
float_eq-eq neg_inf pos_inf h = cc

same_option-eq : (x y : Option ℤ) → same_option same_int x y ≡ true → x ≡ y
same_option-eq none none h = refl
same_option-eq none (some y) h = cc
same_option-eq (some x) none h = cc
same_option-eq (some x) (some y) h = ap some (same_int-eq x y h)

replaced-same :
    {A : Type 0} (same : A → A → Bool) (eq : (x y : A) → same x y ≡ true → x ≡ y) (a : A)
    (b : Option (Option A))
    → unless_named b (same a (replaced a b)) ≡ true
    → replaced a b ≡ a
replaced-same same eq a none h = refl
replaced-same same eq a (some none) h = refl
replaced-same same eq a (some (some x)) h = sym (eq a x h)

or_else-same :
    (a : Option ℤ) (b : Option (Option ℤ))
    → unless_named b (same_option same_int a (or_else b a)) ≡ true
    → or_else b a ≡ a
or_else-same a none h = refl
or_else-same a (some x) h = sym (same_option-eq a x h)

pub collection-settings :
    (b : PointUpdate) (p : PointRow)
    → same_collection b p (settings b p) ≡ true
    → collection (settings b p) ≡ collection p
unfolding same_collection
collection-settings b p h =
    let d = replaced-same float_eq float_eq-eq p.deadband b.deadband (ground (arith, h)) in
    let m =
      replaced-same same_int same_int-eq p.max_interval_s b.max_interval_s (ground (arith, h)) in
    let n = or_else-same p.poll_interval_s b.poll_interval_s (ground (arith, h)) in
    rw (d, m, n) refl

pub collection-set_point :
    (q p : PointRow) (ps : List PointRow)
    → find_point q.id ps ≡ some p
    → collection q ≡ collection p
    → map collection (set_point q ps) ≡ map collection ps
unfolding find_point set_point
collection-set_point q p [] found same = refl
collection-set_point q p (r ∷ ps) found same = elim (Bool-cases (r.id == q.id)) [
  | inl here ↦
      let it : some r ≡ some p = rw (find_point, here) at found in
      rw (set_point, here)
        (ap (λ x. x ∷ map collection ps)
          (subst (λ (x : PointRow). collection q ≡ collection x) {x = p} {y = r} (cc) same))
  | inr other ↦
      rw (set_point, other)
        (ap (λ xs. collection r ∷ xs)
          (collection-set_point q p ps (rw (find_point, other) at found) same))
]

pub find_point-id :
    (id : ℕ) (ps : List PointRow) (p : PointRow) → find_point id ps ≡ some p → p.id ≡ id
unfolding find_point
find_point-id id [] p e = cc
find_point-id id (q ∷ ps) p e = elim (Bool-cases (q.id == id)) [
  | inl here ↦
      let it : some q ≡ some p = rw (find_point, here) at e in
      let right : q.id ≡ id = ground (arith, here) in
      subst (λ (x : PointRow). x.id ≡ id) {x = q} {y = p} (cc) right
  | inr other ↦ find_point-id id ps p (rw (find_point, other) at e)
]
