-- ===== src/Auth/Lockout/Server.antt =====
-- The Redis commands of the login guard, which the program does not implement: a parameter, with
-- what their documentation says while no key expires.
use superviseur.Prelude.{
  ℕ, ◌+◌, ◌≡◌, ◌≤◌, ◌<◌, Bool, true, Option, some, List, ◌==◌, any, if◌then◌else◌,
}
use superviseur.Prelude.Int.{ℤ, pos_part}
use superviseur.Prelude.Text.{Text, text_eq, same_text}

-- Each command returns its answer, `none` or `false` where the call raises, and the new state.
pub record Redis (W : Type 0) : Type 0 where
  pub incr : Text → W → Option ℕ × W
  pub expire : Text → ℕ → W → Bool × W
  pub set_ex : Text → ℕ → W → Bool × W
  pub delete : List Text → W → Option ℕ × W
  pub ttl : Text → W → Option ℤ × W

-- The greatest counter of Redis, a signed integer of 64 bits: `INCR` raises at it.
unfoldable pub max_counter : ℕ
max_counter = 9223372036854775807

-- The seconds for which the laws below speak of an expiry: more than 0, since `SET` refuses 0 and
-- `EXPIRE` deletes the key, and far from where Redis refuses an expiry that is too late.
unfoldable pub max_expiry : ℕ
max_expiry = 1000000000

pub record IsExpiry (s : ℕ) : Type 0 where
  pub positive : 0 < s
  pub bounded : s ≤ max_expiry

-- The documented effect of each command on the counters and on the time that the keys with an
-- expiry have left, as long as the server answers and no time passes. A key is absent, which counts as
-- 0, or holds a number, as the keys of the guard do. What `EXPIRE` does to the
-- expiry of its own key is left open, since it depends on whether the key is there.
pub record Answers {W : Type 0} (redis : Redis W) : Type 0 where
  pub counter : W → Text → ℕ
  pub left : W → Text → ℕ
  pub incr_answer :
      (k : Text) (w : W) → counter w k < max_counter → (redis.incr k w).0 ≡ some (counter w k + 1)
  pub incr_counter :
      (k j : Text) (w : W)
      → counter w k < max_counter
      → counter (redis.incr k w).1 j ≡ (if k == j then counter w k + 1 else counter w j)
  pub incr_left : (k j : Text) (w : W) → left (redis.incr k w).1 j ≡ left w j
  pub expire_answer : (k : Text) (s : ℕ) (w : W) → IsExpiry s → (redis.expire k s w).0 ≡ true
  pub expire_counter :
      (k j : Text) (s : ℕ) (w : W) → IsExpiry s → counter (redis.expire k s w).1 j ≡ counter w j
  pub expire_left :
      (k j : Text) (s : ℕ) (w : W)
      → (k == j) ≡ Bool.false
      → left (redis.expire k s w).1 j ≡ left w j
  pub set_answer : (k : Text) (s : ℕ) (w : W) → IsExpiry s → (redis.set_ex k s w).0 ≡ true
  pub set_counter :
      (k j : Text) (s : ℕ) (w : W)
      → (k == j) ≡ Bool.false
      → counter (redis.set_ex k s w).1 j ≡ counter w j
  pub set_left :
      (k j : Text) (s : ℕ) (w : W)
      → IsExpiry s
      → left (redis.set_ex k s w).1 j ≡ (if k == j then s else left w j)
  pub delete_answer : (ks : List Text) (w : W) → (n : ℕ) × ((redis.delete ks w).0 ≡ some n)
  pub delete_counter :
      (ks : List Text) (j : Text) (w : W)
      → counter (redis.delete ks w).1 j ≡ (if any (same_text j) ks then 0 else counter w j)
  pub delete_left :
      (ks : List Text) (j : Text) (w : W)
      → left (redis.delete ks w).1 j ≡ (if any (same_text j) ks then 0 else left w j)
  pub ttl_answer :
      (k : Text) (w : W) → (z : ℤ) × ((redis.ttl k w).0 ≡ some z) × (pos_part z ≡ left w k)
  pub ttl_counter : (k j : Text) (w : W) → counter (redis.ttl k w).1 j ≡ counter w j
  pub ttl_left : (k j : Text) (w : W) → left (redis.ttl k w).1 j ≡ left w j
