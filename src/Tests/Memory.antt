-- ===== src/Tests/Memory.antt =====
-- A Redis for the tests: it keeps two functions and always answers.
use superviseur.Prelude.{
  ℕ, zero, suc, ◌+◌, ◌≡◌, refl, Bool, Bool-cases, true, false, some, List, any, ltb, inl, inr,
  arith, if◌then◌else◌,
}
use superviseur.Prelude.Int.{pos}
use superviseur.Prelude.Text.{Text, same_text, text_eq}
use superviseur.Auth.Lockout.Server.{Redis, Answers, IsExpiry}

pub record Memory : Type 0 where
  pub counts : Text → ℕ
  pub lives : Text → ℕ

abbrev pub put : (Text → ℕ) → Text → ℕ → Text → ℕ
put f k n j = if same_text k j then n else f j

abbrev pub clear : (Text → ℕ) → List Text → Text → ℕ
clear f ks j = if any (same_text j) ks then 0 else f j

-- A key is there while it counts or has time left; an expiry of 0 deletes it.
abbrev pub expire_key : Text → ℕ → Memory → Memory
expire_key k zero w = record w { counts = put w.counts k 0; lives = put w.lives k 0 }
expire_key k (suc s) w =
    if ltb 0 (w.counts k + w.lives k) then record w { lives = put w.lives k (suc s) } else w

-- `SET` refuses an expiry of 0.
abbrev pub set_key : Text → ℕ → Memory → Bool × Memory
set_key k zero w = (false, w)
set_key k (suc s) w = (true, record w { lives = put w.lives k (suc s) })

abbrev pub memory_redis : Redis Memory
memory_redis = record {
  incr = λ k w. (some (w.counts k + 1), record w { counts = put w.counts k (w.counts k + 1) });
  expire = λ k s w. (true, expire_key k s w);
  set_ex = set_key;
  delete = λ ks w. (some 1, record w { counts = clear w.counts ks; lives = clear w.lives ks });
  ttl = λ k w. (some (pos (w.lives k)), w);
}

pub expire_key-counts :
    (k j : Text) (s : ℕ) (w : Memory) → IsExpiry s → (expire_key k s w).counts j ≡ w.counts j
expire_key-counts k j zero w h = let never = h.positive in absurd (omega arith)
expire_key-counts k j (suc s) w h = elim (Bool-cases (ltb 0 (w.counts k + w.lives k))) [
  | inl there ↦ rw there refl
  | inr absent ↦ rw absent refl
]

pub expire_key-lives :
    (k j : Text) (s : ℕ) (w : Memory)
    → same_text k j ≡ false
    → (expire_key k s w).lives j ≡ w.lives j
expire_key-lives k j zero w h = rw h refl
expire_key-lives k j (suc s) w h = elim (Bool-cases (ltb 0 (w.counts k + w.lives k))) [
  | inl there ↦ rw (there, h) refl
  | inr absent ↦ rw absent refl
]

pub set_key-answer : (k : Text) (s : ℕ) (w : Memory) → IsExpiry s → (set_key k s w).0 ≡ true
set_key-answer k zero w h = let never = h.positive in absurd (omega arith)
set_key-answer k (suc s) w h = refl

pub set_key-counts : (k j : Text) (s : ℕ) (w : Memory) → (set_key k s w).1.counts j ≡ w.counts j
set_key-counts k j zero w = refl
set_key-counts k j (suc s) w = refl

pub set_key-lives :
    (k j : Text) (s : ℕ) (w : Memory)
    → IsExpiry s
    → (set_key k s w).1.lives j ≡ (if same_text k j then s else w.lives j)
set_key-lives k j zero w h = let never = h.positive in absurd (omega arith)
set_key-lives k j (suc s) w h = refl

abbrev pub memory_answers : Answers memory_redis
memory_answers = record {
  counter = λ w. w.counts;
  left = λ w. w.lives;
  incr_answer = λ k w few. refl;
  incr_counter = λ k j w few. refl;
  incr_left = λ k j w. refl;
  expire_answer = λ k s w h. refl;
  expire_counter = expire_key-counts;
  expire_left = expire_key-lives;
  set_answer = set_key-answer;
  set_counter = λ k j s w h. set_key-counts k j s w;
  set_left = set_key-lives;
  delete_answer = λ ks w. (1, refl);
  delete_counter = λ ks j w. refl;
  delete_left = λ ks j w. refl;
  ttl_answer = λ k w. (pos (w.lives k), refl, refl);
  ttl_counter = λ k j w. refl;
  ttl_left = λ k j w. refl;
}

abbrev pub fresh : Memory
fresh = record { counts = λ k. 0; lives = λ k. 0 }
