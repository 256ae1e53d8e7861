-- ===== src/Api/Expr/Grammar/Complete.antt =====
-- Every sentence is accepted.
use superviseur.Prelude.{
  ℕ, zero, suc, ◌+◌, ◌≤◌, ◌<◌, ◌≡◌, refl, sym, ◌∙◌, ap, inl, inr, Bool, true, false, [], ◌∷◌, ◌++◌,
  append_assoc, length, length-append, arith, Bool-cases, ◌||◌, not,
}
use superviseur.Api.Expr.{
  Op, Token, Tokens, Parser, ok, number, string, word, op, is_or, is_and, is_cmp, is_add, is_mul,
  repeat, chain, close, primary, unary, mul, add, cmp, not_, and_, or_level, or_,
}
use superviseur.Api.Expr.Grammar.Sound.{repeat_takes, repeat_leaves}
use superviseur.Api.Expr.Grammar.{
  Level, Parses, operand, joins, prefixes, alone, joined, prefixed, leaf, paren, is_operand,
}

-- The operators that a parser of the level reads on with behind a sentence.
abbrev goes_on : Level → Op → Bool
goes_on Level.or o = is_or o || (is_and o || (is_cmp o || (is_add o || is_mul o)))
goes_on Level.and o = is_and o || (is_cmp o || (is_add o || is_mul o))
goes_on Level.not o = is_cmp o || (is_add o || is_mul o)
goes_on Level.cmp o = is_cmp o || (is_add o || is_mul o)
goes_on Level.add o = is_add o || is_mul o
goes_on Level.mul o = is_mul o
goes_on l o = false

-- The parser of the level stops at the first of the tokens.
abbrev pub stops : Level → Tokens → Bool
stops l (op o ∷ ts) = not (goes_on l o)
stops l _ = true

stops-operand : (l : Level) (ts : Tokens) → stops l ts ≡ true → stops (operand l) ts ≡ true
stops-operand l ts h = ground arith

joins-stops :
    (l : Level) (o : Op) (ts : Tokens) → joins l o ≡ true → stops (operand l) (op o ∷ ts) ≡ true
joins-stops l o ts h = ground arith

stops-joins : (l : Level) (o : Op) (ts : Tokens) → stops l (op o ∷ ts) ≡ true → joins l o ≡ false
stops-joins l o ts h = ground arith

-- The levels whose operators stand between operands.
abbrev has_loop : Level → Bool
has_loop Level.not = false
has_loop Level.unary = false
has_loop Level.primary = false
has_loop l = true

joins-has_loop : (l : Level) (o : Op) → joins l o ≡ true → has_loop l ≡ true
joins-has_loop l o h = ground arith

-- The tokens that a sentence may begin with.
abbrev may_start : Level → Tokens → Bool
may_start l [] = false
may_start Level.or (op Op.not ∷ ts) = true
may_start Level.and (op Op.not ∷ ts) = true
may_start Level.not (op Op.not ∷ ts) = true
may_start Level.primary (op Op.minus ∷ ts) = false
may_start l (op Op.minus ∷ ts) = true
may_start l (op Op.lpar ∷ ts) = true
may_start l (op o ∷ ts) = false
may_start l (t ∷ ts) = true

may_start-operand :
    (l : Level) (ts : Tokens) → may_start (operand l) ts ≡ true → may_start l ts ≡ true
may_start-operand l ts h = ground arith

Parses-may_start :
    {l : Level} {ts : Tokens} → Parses l ts → (rest : Tokens) → may_start l (ts ++ rest) ≡ true
Parses-may_start (alone {l = l} d) rest = may_start-operand l _ (Parses-may_start d rest)
Parses-may_start (joined {l = l} {ts = ts} {us = us} o d j e q) rest = rw q (
    rw (append_assoc ts (op o ∷ us) rest)
      (may_start-operand l _ (Parses-may_start d (op o ∷ us ++ rest))))
Parses-may_start (prefixed {l = l} o j d q) rest = rw q (ground arith)
Parses-may_start (leaf {t = t} j q) rest = rw q (ground arith)
Parses-may_start (paren d q) rest = rw q refl

pub Parses-pos : {l : Level} (ts : Tokens) → Parses l ts → 0 < length ts
Parses-pos {l = l} [] d = let starts : may_start l [] ≡ true = Parses-may_start d [] in cc
Parses-pos (t ∷ ts) d = omega arith

module _ (l : Level) (p : Op → Bool) (same : (o : Op) → p o ≡ joins l o) (sub : Parser) where
  repeat-stops :
      (n : ℕ) (rest : Tokens)
      → ((o : Op) (ts : Tokens) → rest ≡ op o ∷ ts → p o ≡ false)
      → repeat (suc n) p sub rest ≡ ok rest
  unfolding repeat
  repeat-stops n (op o ∷ ts) h = repeat_leaves n p sub o ts (h o ts refl)
  repeat-stops n _ h = refl

  chain-alone :
      (n : ℕ) (ts rest : Tokens)
      → sub (ts ++ rest) ≡ ok rest
      → ((o : Op) (us : Tokens) → rest ≡ op o ∷ us → p o ≡ false)
      → 0 < n
      → chain n p sub (ts ++ rest) ≡ ok rest
  unfolding chain
  chain-alone zero ts rest e h pos = absurd (omega arith)
  chain-alone (suc n) ts rest e h pos = rw e (repeat-stops n rest h)

  chain-joined :
      (n : ℕ) (o : Op) (ts us rest : Tokens)
      → sub (ts ++ (op o ∷ (us ++ rest))) ≡ ok (op o ∷ (us ++ rest))
      → p o ≡ true
      → chain n p sub (us ++ rest) ≡ ok rest
      → chain (suc n) p sub (ts ++ (op o ∷ (us ++ rest))) ≡ ok rest
  unfolding chain
  chain-joined n o ts us rest e j again = rw e (repeat_takes n p sub o (us ++ rest) j ∙ again)

not_-cmp :
    (f : ℕ) (nested : Parser) (ts : Tokens)
    → may_start Level.cmp ts ≡ true
    → not_ f nested ts ≡ cmp f nested ts
unfolding not_
not_-cmp f nested (op Op.not ∷ ts) h = cc
not_-cmp f nested ts h = refl

unary-primary :
    (f : ℕ) (nested : Parser) (ts : Tokens)
    → may_start Level.primary ts ≡ true
    → unary f nested ts ≡ primary f nested ts
unfolding unary
unary-primary f nested (op Op.minus ∷ ts) h = cc
unary-primary f nested ts h = refl

module _ (f : ℕ) (nested : Parser) where
  -- The parser of a level, its own loop with `n` rounds.
  parser : Level → ℕ → Parser
  parser Level.or n = chain n is_or (and_ f nested)
  parser Level.and n = chain n is_and (not_ f nested)
  parser Level.not n = not_ f nested
  parser Level.cmp n = chain n is_cmp (add f nested)
  parser Level.add n = chain n is_add (mul f nested)
  parser Level.mul n = chain n is_mul (unary f nested)
  parser Level.unary n = unary f nested
  parser Level.primary n = primary f nested

  parser-chain :
      (l : Level) (n : ℕ) (ts : Tokens)
      → has_loop l ≡ true
      → parser l n ts ≡ chain n (joins l) (parser (operand l) f) ts
  unfolding parser and_ cmp add mul
  parser-chain Level.or n ts h = refl
  parser-chain Level.and n ts h = refl
  parser-chain Level.not n ts h = cc
  parser-chain Level.cmp n ts h = refl
  parser-chain Level.add n ts h = refl
  parser-chain Level.mul n ts h = refl
  parser-chain Level.unary n ts h = cc
  parser-chain Level.primary n ts h = cc

  parser-alone :
      (l : Level) (n : ℕ) (ts : Tokens)
      → has_loop l ≡ false
      → may_start (operand l) ts ≡ true
      → parser l n ts ≡ parser (operand l) f ts
  unfolding parser and_ cmp add mul
  parser-alone Level.or n ts h s = cc
  parser-alone Level.and n ts h s = cc
  parser-alone Level.not n ts h s = not_-cmp f nested ts s
  parser-alone Level.cmp n ts h s = cc
  parser-alone Level.add n ts h s = cc
  parser-alone Level.mul n ts h s = cc
  parser-alone Level.unary n ts h s = unary-primary f nested ts s
  parser-alone Level.primary n ts h s = refl

  parser-prefixed :
      (l : Level) (n : ℕ) (o : Op) (ts : Tokens)
      → prefixes l o ≡ true
      → parser l n (op o ∷ ts) ≡ parser l n ts
  unfolding parser not_ unary
  parser-prefixed Level.not n Op.not ts h = refl
  parser-prefixed Level.unary n Op.minus ts h = refl
  parser-prefixed l n o ts h = cc

  parser-leaf :
      (n : ℕ) (t : Token) (rest : Tokens)
      → is_operand t ≡ true
      → parser Level.primary n (t ∷ rest) ≡ ok rest
  unfolding parser primary
  parser-leaf n (number v) rest h = refl
  parser-leaf n (string v) rest h = refl
  parser-leaf n (word v) rest h = refl
  parser-leaf n (op o) rest h = cc

  parser-paren :
      (n : ℕ) (ts rest : Tokens)
      → nested (ts ++ op Op.rpar ∷ rest) ≡ ok (op Op.rpar ∷ rest)
      → parser Level.primary n (op Op.lpar ∷ ts ++ op Op.rpar ∷ rest) ≡ ok rest
  unfolding parser primary close
  parser-paren n ts rest e = rw e

  module _
      (nested_complete : (ts rest : Tokens)
        → Parses Level.or ts
        → stops Level.or rest ≡ true
        → length (ts ++ rest) < f
        → nested (ts ++ rest) ≡ ok rest) where
    complete :
        {l : Level} (n : ℕ) (ts rest : Tokens)
        → Parses l ts
        → stops l rest ≡ true
        → length (ts ++ rest) ≤ n
        → length (ts ++ rest) ≤ f
        → parser l n (ts ++ rest) ≡ ok rest
    complete n ts rest (alone {l = l} d) s h k =
        let inner : parser (operand l) f (ts ++ rest) ≡ ok rest =
          complete f ts rest d (stops-operand l rest s) k k in
        elim (Bool-cases (has_loop l)) [
          | inl loops ↦
              parser-chain l n (ts ++ rest) loops
              ∙ chain-alone l (joins l) (λ o. refl) (parser (operand l) f) n ts rest inner
                  (λ o us e. stops-joins l o us (ap (stops l) (sym e) ∙ s))
                  (omega (arith, Parses-pos ts d, length-append ts rest))
          | inr passes ↦ parser-alone l n (ts ++ rest) passes (Parses-may_start d rest) ∙ inner
        ]
    complete zero vs rest (joined {l = l} {ts = ts} {us = us} o d j e q) s h k =
        absurd (omega (arith, ap length q, length-append vs rest, length-append ts (op o ∷ us)))
    complete (suc n) vs rest (joined {l = l} {ts = ts} {us = us} o d j e q) s h k =
        let regroup : vs ++ rest ≡ ts ++ (op o ∷ (us ++ rest)) =
          ap (λ x. x ++ rest) q ∙ append_assoc ts (op o ∷ us) rest in
        let size : length (vs ++ rest) ≡ length ts + suc (length (us ++ rest)) =
          ap length regroup ∙ length-append ts (op o ∷ (us ++ rest)) in
        let inner : parser (operand l) f (ts ++ (op o ∷ (us ++ rest))) ≡ ok (op o ∷ (us ++ rest)) =
          complete f ts (op o ∷ (us ++ rest)) d (joins-stops l o (us ++ rest) j)
            (omega (arith, ap length regroup)) (omega (arith, ap length regroup)) in
        let again : parser l n (us ++ rest) ≡ ok rest =
          complete n us rest e s (omega arith) (omega arith) in
        let loops = joins-has_loop l o j in
        ap (parser l (suc n)) regroup
        ∙ parser-chain l (suc n) _ loops
        ∙ chain-joined l (joins l) (λ o. refl) (parser (operand l) f) n o ts us rest inner j
            (sym (parser-chain l n (us ++ rest) loops) ∙ again)
    complete n vs rest (prefixed {l = l} {ts = ts} o j d q) s h k =
        let size : length (vs ++ rest) ≡ suc (length (ts ++ rest)) =
          ap (λ x. length (x ++ rest)) q in
        ap (λ x. parser l n (x ++ rest)) q
        ∙ parser-prefixed l n o (ts ++ rest) j
        ∙ complete n ts rest d s (omega arith) (omega arith)
    complete n vs rest (leaf {t = t} j q) s h k =
        ap (λ x. parser Level.primary n (x ++ rest)) q ∙ parser-leaf n t rest j
    complete n vs rest (paren {ts = ts} d q) s h k =
        let regroup : vs ++ rest ≡ op Op.lpar ∷ (ts ++ (op Op.rpar ∷ rest)) =
          ap (λ x. x ++ rest) q
          ∙ ap (λ x. op Op.lpar ∷ x) (append_assoc ts (op Op.rpar ∷ []) rest) in
        ap (parser Level.primary n) regroup
        ∙ parser-paren n ts rest
            (nested_complete ts (op Op.rpar ∷ rest) d refl (omega (arith, ap length regroup)))

-- Every sentence is read up to its end by a parser with fuel above the number of tokens.
pub or_-complete :
    (f : ℕ) (ts rest : Tokens)
    → Parses Level.or ts
    → stops Level.or rest ≡ true
    → length (ts ++ rest) < f
    → or_ f (ts ++ rest) ≡ ok rest
unfolding or_ or_level parser
or_-complete zero ts rest d s h = absurd (omega arith)
or_-complete (suc f) ts rest d s h =
    complete f (or_ f) (or_-complete f) f ts rest d s (omega arith) (omega arith)
