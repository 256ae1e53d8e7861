-- ===== src/Api/Expr.antt =====
-- The grammar check of rule expressions (backend/app/api/synoptic_expr.py). The parser's index into
-- its tokens is the list of the tokens that are left. A call that nests gets one unit of fuel less,
-- and a loop has as many rounds as its parser has fuel: `parse` hands out more than the tokens.
pub mod Lexer
pub mod Grammar
use superviseur.Prelude.{
  ℕ, zero, suc, ◌+◌, Bool, true, false, ◌||◌, Option, none, some, List, [], ◌∷◌, length,
  if◌then◌else◌,
}
use superviseur.Prelude.Text.{Text}

pub data Op : Type 0 where
  or and not eq ne le ge lt gt plus minus times divide modulo lpar rpar : Op

pub data Token : Type 0 where
  number string word : Text → Token
  op : Op → Token

abbrev pub Tokens : Type 0
Tokens = List Token

-- The causes of an `ExpressionError`; the first holds the text from the unexpected character on.
pub data Error : Type 0 where
  unexpected_character unknown_identifier : Text → Error
  empty incomplete left_over unclosed : Error
  unexpected_token : Token → Error

pub data Result (A : Type 0) : Type 0 where
  ok : A → Result A
  err : Error → Result A
  out_of_fuel : Result A

infixl 5 ◌>>=◌
abbrev pub ◌>>=◌ : {A B : Type 0} → Result A → (A → Result B) → Result B
ok a >>= f = f a
err e >>= f = err e
out_of_fuel >>= f = out_of_fuel

-- A method of `_Parser` returns the tokens that are left.
abbrev pub Parser : Type 0
Parser = Tokens → Result Tokens

abbrev pub is_or : Op → Bool
is_or or = true
is_or _ = false

abbrev pub is_and : Op → Bool
is_and and = true
is_and _ = false

abbrev pub is_cmp : Op → Bool
is_cmp eq = true
is_cmp ne = true
is_cmp le = true
is_cmp ge = true
is_cmp lt = true
is_cmp gt = true
is_cmp _ = false

abbrev pub is_add : Op → Bool
is_add plus = true
is_add minus = true
is_add _ = false

abbrev pub is_mul : Op → Bool
is_mul times = true
is_mul divide = true
is_mul modulo = true
is_mul _ = false

-- `take_op`, for the operators that a test accepts.
abbrev pub take_op : (Op → Bool) → Tokens → Option Tokens
take_op p (op o ∷ ts) = if p o then some ts else none
take_op p _ = none

-- `while self.take_op(…): sub()`
unfoldable pub repeat : ℕ → (Op → Bool) → Parser → Parser
repeat zero p sub ts = out_of_fuel
repeat (suc n) p sub ts = elim (take_op p ts) [
  | none ↦ ok ts
  | some rest ↦ sub rest >>= repeat n p sub
]

-- `sub()`, then the loop.
unfoldable pub chain : ℕ → (Op → Bool) → Parser → Parser
unfolding repeat
chain n p sub ts = sub ts >>= repeat n p sub

-- `if not self.take_op(")"): raise`
unfoldable pub close : Parser
close (op rpar ∷ ts) = ok ts
close _ = err unclosed

module _ (rounds : ℕ) (nested : Parser) where
  -- `primary`, whose call of `or_` is `nested`
  unfoldable pub primary : Parser
  unfolding close
  primary [] = err incomplete
  primary (number v ∷ ts) = ok ts
  primary (string v ∷ ts) = ok ts
  primary (word v ∷ ts) = ok ts
  primary (op lpar ∷ ts) = nested ts >>= close
  primary (t ∷ ts) = err (unexpected_token t)

  unfoldable pub unary : Parser
  unfolding primary
  unary (op minus ∷ ts) = unary ts
  unary ts = primary ts

  unfoldable pub mul : Parser
  mul = chain rounds is_mul unary

  unfoldable pub add : Parser
  add = chain rounds is_add mul

  unfoldable pub cmp : Parser
  cmp = chain rounds is_cmp add

  unfoldable pub not_ : Parser
  not_ (op not ∷ ts) = not_ ts
  not_ ts = cmp ts

  unfoldable pub and_ : Parser
  and_ = chain rounds is_and not_

  unfoldable pub or_level : Parser
  or_level = chain rounds is_or and_

-- `or_`
unfoldable pub or_ : ℕ → Parser
unfolding or_level
or_ zero ts = out_of_fuel
or_ (suc f) ts = or_level f (or_ f) ts

abbrev pub finish : Tokens → Result (Unit {0})
finish [] = ok tt
finish (t ∷ ts) = err left_over

-- `parse`
unfoldable pub parse : Tokens → Result (Unit {0})
parse [] = err empty
parse (t ∷ ts) = or_ (length (t ∷ ts) + 1) (t ∷ ts) >>= finish
