-- ===== src/Api/Expr/Grammar.antt =====
-- The grammar in the head of backend/app/api/synoptic_expr.py, and that the parser accepts exactly
-- its sentences.
pub mod Sound
pub mod Complete
pub mod Decides
use superviseur.Prelude.{
  ℕ, zero, suc, ◌+◌, ◌≤◌, ◌≡◌, refl, sym, ◌∙◌, ap, Bool, true, false, Option, none, some, List, [],
  ◌∷◌, ◌++◌, append-nil, append_assoc, length, length-append, arith, ◌↔◌,
}
use superviseur.Prelude.Text.{Text}
use superviseur.Api.Expr.{
  Op, Token, Tokens, Result, ok, err, out_of_fuel, ◌>>=◌, number, string, word, op, is_or, is_and,
  is_cmp, is_add, is_mul, or_, or_level, parse, finish,
}

-- The nonterminals, loosest first.
pub data Level : Type 0 where
  or and not cmp add mul unary primary : Level

-- The operand of a level whose operators stand between operands.
abbrev pub operand : Level → Level
operand or = and
operand and = not
operand not = cmp
operand cmp = add
operand add = mul
operand mul = unary
operand unary = primary
operand primary = primary

-- The operators that stand between the operands of a level.
abbrev pub joins : Level → Op → Bool
joins or o = is_or o
joins and o = is_and o
joins cmp o = is_cmp o
joins add o = is_add o
joins mul o = is_mul o
joins _ o = false

-- The prefix operator of a level.
abbrev pub prefixes : Level → Op → Bool
prefixes not Op.not = true
prefixes unary Op.minus = true
prefixes _ o = false

abbrev pub is_operand : Token → Bool
is_operand (op o) = false
is_operand t = true

-- A token list is a sentence of a level: an operand alone, operands with an operator between them, a
-- prefix operator before a sentence of the same level, or the three forms of a primary.
pub data Parses : Level → Tokens → Type 0 where
  alone : {l : Level} {ts : Tokens} → Parses (operand l) ts → Parses l ts
  joined :
      {l : Level} {ts us vs : Tokens} (o : Op)
      → Parses (operand l) ts
      → joins l o ≡ true
      → Parses l us
      → vs ≡ ts ++ op o ∷ us
      → Parses l vs
  prefixed :
      {l : Level} {ts vs : Tokens} (o : Op)
      → prefixes l o ≡ true
      → Parses l ts
      → vs ≡ op o ∷ ts
      → Parses l vs
  leaf : {t : Token} {vs : Tokens} → is_operand t ≡ true → vs ≡ t ∷ [] → Parses primary vs
  paren :
      {ts vs : Tokens}
      → Parses or ts
      → vs ≡ op Op.lpar ∷ (ts ++ op Op.rpar ∷ [])
      → Parses primary vs
