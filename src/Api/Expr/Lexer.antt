-- ===== src/Api/Expr/Lexer.antt =====
-- The tokens of an expression: `_tokens` and its regular expression, over ASCII
-- (backend/app/api/synoptic_expr.py).
pub mod RoundTrip
pub mod Total
use superviseur.Prelude.{
  ℕ, zero, suc, ◌+◌, Bool, true, false, not, ◌&&◌, ◌||◌, Option, none, some, List, [], ◌∷◌, ◌++◌,
  leb, ◌==◌, nat_eq, length, if◌then◌else◌,
}
use superviseur.Prelude.Text.{Text, codes, text_eq, is_space}
use superviseur.Api.Expr.{
  Op, Token, Tokens, Error, Result, ok, err, out_of_fuel, ◌>>=◌, number, string, word, op, parse,
  unexpected_character, unknown_identifier,
}

abbrev pub is_digit : ℕ → Bool
is_digit c = leb b'0' c && leb c b'9'

abbrev pub starts_word : ℕ → Bool
starts_word c = (leb b'A' c && leb c b'Z') || ((leb b'a' c && leb c b'z') || c == b'_')

abbrev pub in_word : ℕ → Bool
in_word c = starts_word c || is_digit c

-- The longest prefix of characters of a class, and the rest.
abbrev pub span : (ℕ → Bool) → Text → Text × Text
span p [] = ([], [])
span p (c ∷ cs) = let (xs, rest) = span p cs in if p c then (c ∷ xs, rest) else ([], c ∷ cs)

-- `\s*`
abbrev pub skip_spaces : Text → Text
skip_spaces cs = (span is_space cs).1

-- `(?:\.\d+)?` after the digits of a number
fraction : Text → Text → Text × Text
fraction whole (c ∷ d ∷ cs) =
    let (digits, rest) = span is_digit (d ∷ cs) in
    if (c == b'.') && is_digit d then (whole ++ c ∷ digits, rest) else (whole, c ∷ d ∷ cs)
fraction whole cs = (whole, cs)

-- The rest of a string after its opening quote, if it is closed on its line.
abbrev pub up_to_quote : ℕ → Text → Option (Text × Text)
up_to_quote q [] = none
up_to_quote q (c ∷ cs) =
    let further : Option (Text × Text) = elim (up_to_quote q cs) [
      | none ↦ none
      | some (xs, rest) ↦ some (c ∷ xs, rest)
    ] in
    if c == q then some (c ∷ [], cs) else if c == b'\n' then none else further

-- The operators of two characters; the second character is the argument's head.
two_characters : ℕ → ℕ → Option Op
two_characters a b =
    if (a == b'&') && (b == b'&')
    then some Op.and
    else if (a == b'|') && (b == b'|')
    then some Op.or
    else if b == b'='
    then if a == b'='
      then some Op.eq
      else if a == b'!'
      then some Op.ne
      else if a == b'<'
      then some Op.le
      else if a == b'>'
      then some Op.ge
      else none
    else none

one_character : ℕ → Option Op
one_character a =
    if a == b'<'
    then some Op.lt
    else if a == b'>'
    then some Op.gt
    else if a == b'!'
    then some Op.not
    else if a == b'+'
    then some Op.plus
    else if a == b'-'
    then some Op.minus
    else if a == b'*'
    then some Op.times
    else if a == b'/'
    then some Op.divide
    else if a == b'%'
    then some Op.modulo
    else if a == b'('
    then some Op.lpar
    else if a == b')'
    then some Op.rpar
    else none

-- A match of the regular expression: a token, or a word that is still to be looked up.
pub data Lexeme : Type 0 where
  token : Token → Lexeme
  name : Text → Lexeme

abbrev pub operator : Op → Text → Option (Lexeme × Text)
operator o rest = some (token (op o), rest)

single : ℕ → Text → Option (Lexeme × Text)
single c rest = elim (one_character c) [ none ↦ none | some o ↦ operator o rest ]

lex_operator : ℕ → Text → Option (Lexeme × Text)
unfolding single one_character two_characters
lex_operator c [] = single c []
lex_operator c (d ∷ cs) = elim (two_characters c d) [
  | none ↦ single c (d ∷ cs)
  | some o ↦ operator o cs
]

lex_string : ℕ → Text → Option (Lexeme × Text)
lex_string q cs = elim (up_to_quote q cs) [
  | none ↦ none
  | some (xs, rest) ↦ some (token (string (q ∷ xs)), rest)
]

lex_number : Text → Option (Lexeme × Text)
unfolding fraction
lex_number cs =
    let (digits, rest) = span is_digit cs in
    let (whole, rest') = fraction digits rest in some (token (number whole), rest')

lex_word : Text → Option (Lexeme × Text)
lex_word cs = let (letters, rest) = span in_word cs in some (name letters, rest)

-- `_TOKEN.match` behind the spaces
unfoldable pub lex : ℕ → Text → Option (Lexeme × Text)
unfolding lex_operator lex_string lex_number lex_word
lex c cs =
    if is_digit c
    then lex_number (c ∷ cs)
    else if (c == b'\'') || (c == b'"')
    then lex_string c cs
    else if starts_word c
    then lex_word (c ∷ cs)
    else lex_operator c cs

-- The words that are operators, names or literals.
unfoldable pub token_of : Lexeme → Result Token
token_of (token t) = ok t
token_of (name w) =
    if w == codes "and"
    then ok (op Op.and)
    else if w == codes "or"
    then ok (op Op.or)
    else if w == codes "not"
    then ok (op Op.not)
    else if (w == codes "value") || (w == codes "status")
    then ok (word w)
    else if (w == codes "true") || ((w == codes "false") || (w == codes "null"))
    then ok (word w)
    else err (unknown_identifier w)

-- The loop of `_tokens`, on text without leading spaces; every match takes a character or more.
unfoldable pub tokens_from : ℕ → Text → Result Tokens
unfolding lex token_of
tokens_from zero text = out_of_fuel
tokens_from (suc f) [] = ok []
tokens_from (suc f) (c ∷ cs) = elim (lex c cs) [
  | none ↦ err (unexpected_character (c ∷ cs))
  | some (l, rest) ↦ token_of l >>= λ t. tokens_from f (skip_spaces rest) >>= λ ts. ok (t ∷ ts)
]

-- `_tokens`
unfoldable pub tokens : Text → Result Tokens
unfolding tokens_from
tokens text = tokens_from (length text + 1) (skip_spaces text)

-- `check_expression`
unfoldable pub check_expression : Text → Result (Unit {0})
check_expression text = tokens text >>= parse
