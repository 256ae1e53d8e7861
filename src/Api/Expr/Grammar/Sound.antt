-- ===== src/Api/Expr/Grammar/Sound.antt =====
-- What the parser accepts is a sentence, and its fuel suffices.
use superviseur.Prelude.{
  ℕ, zero, suc, ◌+◌, ◌≤◌, ◌<◌, ◌≡◌, refl, sym, ◌∙◌, ap, ◌⊎◌, inl, inr, Bool, true, false, [], ◌∷◌,
  ◌++◌, append_assoc, length, length-append, arith, Bool-cases,
}
use superviseur.Api.Expr.{
  Op, Error, Tokens, Result, Parser, ok, err, ◌>>=◌, number, string, word, op, unclosed, is_or,
  is_and, is_cmp, is_add, is_mul, repeat, chain, close, primary, unary, mul, add, cmp, not_, and_,
  or_level, or_,
}
use superviseur.Api.Expr.Grammar.{
  Level, Parses, operand, joins, prefixes, alone, joined, prefixed, leaf, paren,
}

-- A result on the tokens `ts`: it has read a sentence of the level, or it is an error.
pub data Reads (l : Level) (ts : Tokens) : Result Tokens → Type 0 where
  reads :
      (before rest : Tokens)
      → ts ≡ before ++ rest
      → Parses l before
      → 0 < length before
      → Reads l ts (ok rest)
  fails : {e : Error} → Reads l ts (err e)

Reads-bind :
    {l k : Level} {ts us : Tokens} {m : Result Tokens} (f : Parser)
    → Reads l ts m
    → ((before rest : Tokens)
        → ts ≡ before ++ rest
        → Parses l before
        → 0 < length before
        → Reads k us (f rest))
    → Reads k us (m >>= f)
Reads-bind f (reads before rest e d pos) g = g before rest e d pos
Reads-bind f fails g = fails

alone-Reads : {l : Level} {ts : Tokens} {r : Result Tokens} → Reads (operand l) ts r → Reads l ts r
alone-Reads (reads before rest e d pos) = reads before rest e (alone d) pos
alone-Reads fails = fails

pub repeat_takes :
    (n : ℕ) (p : Op → Bool) (sub : Parser) (o : Op) (ts : Tokens)
    → p o ≡ true
    → repeat (suc n) p sub (op o ∷ ts) ≡ sub ts >>= repeat n p sub
unfolding repeat
repeat_takes n p sub o ts h = ground (arith, h)

pub repeat_leaves :
    (n : ℕ) (p : Op → Bool) (sub : Parser) (o : Op) (ts : Tokens)
    → p o ≡ false
    → repeat (suc n) p sub (op o ∷ ts) ≡ ok (op o ∷ ts)
unfolding repeat
repeat_leaves n p sub o ts h = ground (arith, h)

module _ (l : Level) (p : Op → Bool) (same : (o : Op) → p o ≡ joins l o) (sub : Parser) (bound : ℕ)
    (sub_reads : (ts : Tokens) → length ts ≤ bound → Reads (operand l) ts (sub ts)) where
  joined-Reads :
      {ts before us : Tokens} {r : Result Tokens} (o : Op)
      → ts ≡ before ++ op o ∷ us
      → Parses (operand l) before
      → p o ≡ true
      → Reads l us r
      → Reads l ts r
  joined-Reads {before = before} o e d j (reads more rest e' d' pos) =
      reads (before ++ op o ∷ more) rest
        (e ∙ ap (λ x. before ++ op o ∷ x) e' ∙ sym (append_assoc before (op o ∷ more) rest))
        (joined o d (sym (same o) ∙ j) d' refl) (omega (arith, length-append before (op o ∷ more)))
  joined-Reads o e d j fails = fails

  repeat-Reads :
      (n : ℕ) {ts : Tokens} (before rest : Tokens)
      → ts ≡ before ++ rest
      → Parses (operand l) before
      → 0 < length before
      → length rest < n
      → length rest ≤ bound
      → Reads l ts (repeat n p sub rest)
  unfolding repeat
  repeat-Reads zero before rest e d pos h b = absurd (omega arith)
  repeat-Reads (suc n) before (op o ∷ us) e d pos h b = elim (Bool-cases (p o)) [
    | inl takes ↦ rw (repeat_takes n p sub o us takes) (
        joined-Reads o e d takes (
          Reads-bind (repeat n p sub) (sub_reads us (omega arith)) λ more rest e' d' pos'.
            let shorter : length us ≡ length more + length rest =
              ap length e' ∙ length-append more rest in
            repeat-Reads n more rest e' d' pos' (omega arith) (omega arith)))
    | inr leaves ↦ rw (repeat_leaves n p sub o us leaves) (reads before (op o ∷ us) e (alone d) pos)
  ]
  repeat-Reads (suc n) before rest e d pos h b = reads before rest e (alone d) pos

  chain-Reads :
      (n : ℕ) (ts : Tokens) → length ts ≤ n → length ts ≤ bound → Reads l ts (chain n p sub ts)
  unfolding chain
  chain-Reads n ts h b = Reads-bind (repeat n p sub) (sub_reads ts b) λ before rest e d pos.
      let shorter : length ts ≡ length before + length rest =
        ap length e ∙ length-append before rest in
      repeat-Reads n before rest e d pos (omega arith) (omega arith)

prefixed-Reads :
    {l : Level} {ts : Tokens} {r : Result Tokens} (o : Op)
    → prefixes l o ≡ true
    → Reads l ts r
    → Reads l (op o ∷ ts) r
prefixed-Reads o j (reads before rest e d pos) =
    reads (op o ∷ before) rest (ap (λ x. op o ∷ x) e) (prefixed o j d refl) (omega arith)
prefixed-Reads o j fails = fails

close_cases :
    (ts : Tokens)
    → (close ts ≡ err unclosed)
      ⊎ ((rest : Tokens) × (ts ≡ op Op.rpar ∷ rest) × (close ts ≡ ok rest))
unfolding close
close_cases (op Op.rpar ∷ ts) = inr (ts, refl, refl)
close_cases _ = inl refl

close-Reads :
    {ts : Tokens} {m : Result Tokens}
    → Reads Level.or ts m
    → Reads Level.primary (op Op.lpar ∷ ts) (m >>= close)
close-Reads (reads before rest e d pos) = elim (close_cases rest) [
  | inl unclosed_here ↦ rw unclosed_here fails
  | inr (more, f, closed) ↦ rw closed (
      reads (op Op.lpar ∷ (before ++ op Op.rpar ∷ [])) more
        (ap (λ x. op Op.lpar ∷ x)
          (e ∙ ap (λ x. before ++ x) f ∙ sym (append_assoc before (op Op.rpar ∷ []) more)))
        (paren d refl) (omega arith))
]
close-Reads fails = fails

module _ (f : ℕ) (nested : Parser)
    (nested_reads : (ts : Tokens) → length ts < f → Reads Level.or ts (nested ts)) where
  primary-Reads : (ts : Tokens) → length ts ≤ f → Reads Level.primary ts (primary f nested ts)
  unfolding primary
  primary-Reads [] h = fails
  primary-Reads (number v ∷ ts) h = reads (number v ∷ []) ts refl (leaf refl refl) (omega arith)
  primary-Reads (string v ∷ ts) h = reads (string v ∷ []) ts refl (leaf refl refl) (omega arith)
  primary-Reads (word v ∷ ts) h = reads (word v ∷ []) ts refl (leaf refl refl) (omega arith)
  primary-Reads (op Op.lpar ∷ ts) h = close-Reads (nested_reads ts (omega arith))
  primary-Reads (t ∷ ts) h = fails

  unary-Reads : (ts : Tokens) → length ts ≤ f → Reads Level.unary ts (unary f nested ts)
  unfolding unary
  unary-Reads (op Op.minus ∷ ts) h = prefixed-Reads Op.minus refl (unary-Reads ts (omega arith))
  unary-Reads ts h = alone-Reads (primary-Reads ts h)

  mul-Reads : (ts : Tokens) → length ts ≤ f → Reads Level.mul ts (mul f nested ts)
  unfolding mul
  mul-Reads ts h = chain-Reads Level.mul is_mul (λ o. refl) (unary f nested) f unary-Reads f ts h h

  add-Reads : (ts : Tokens) → length ts ≤ f → Reads Level.add ts (add f nested ts)
  unfolding add
  add-Reads ts h = chain-Reads Level.add is_add (λ o. refl) (mul f nested) f mul-Reads f ts h h

  cmp-Reads : (ts : Tokens) → length ts ≤ f → Reads Level.cmp ts (cmp f nested ts)
  unfolding cmp
  cmp-Reads ts h = chain-Reads Level.cmp is_cmp (λ o. refl) (add f nested) f add-Reads f ts h h

  not_-Reads : (ts : Tokens) → length ts ≤ f → Reads Level.not ts (not_ f nested ts)
  unfolding not_
  not_-Reads (op Op.not ∷ ts) h = prefixed-Reads Op.not refl (not_-Reads ts (omega arith))
  not_-Reads ts h = alone-Reads (cmp-Reads ts h)

  and_-Reads : (ts : Tokens) → length ts ≤ f → Reads Level.and ts (and_ f nested ts)
  unfolding and_
  and_-Reads ts h = chain-Reads Level.and is_and (λ o. refl) (not_ f nested) f not_-Reads f ts h h

  or_level-Reads : (ts : Tokens) → length ts ≤ f → Reads Level.or ts (or_level f nested ts)
  unfolding or_level
  or_level-Reads ts h = chain-Reads Level.or is_or (λ o. refl) (and_ f nested) f and_-Reads f ts h h

pub or_-Reads : (f : ℕ) (ts : Tokens) → length ts < f → Reads Level.or ts (or_ f ts)
unfolding or_
or_-Reads zero ts h = absurd (omega arith)
or_-Reads (suc f) ts h = or_level-Reads f (or_ f) (λ us k. or_-Reads f us k) ts (omega arith)
