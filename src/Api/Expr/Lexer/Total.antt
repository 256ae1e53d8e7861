-- ===== src/Api/Expr/Lexer/Total.antt =====
-- The check of an expression always comes to an end.
use superviseur.Prelude.{
  ℕ, zero, suc, ◌+◌, ◌≤◌, ◌<◌, ◌≢◌, refl, ap, Bool, ◌&&◌, ◌||◌, Option, none, some, [], ◌∷◌, ◌==◌,
  nat_eq, length, arith, Bool-cases, Option-cases, inl, inr,
}
use superviseur.Prelude.Text.{Text, text_eq, is_space}
use superviseur.Api.Expr.{Result, ok, err, out_of_fuel, ◌>>=◌, parse}
use superviseur.Api.Expr.Grammar.Decides.{parse_iff}
use superviseur.Api.Expr.Lexer.{
  is_digit, starts_word, in_word, span, skip_spaces, fraction, up_to_quote, two_characters,
  one_character, Lexeme, token, name, single, lex_operator, lex_string, lex, token_of, tokens_from,
  tokens, check_expression,
}

-- The length of what is left of the text.
abbrev left : {A : Type 0} → Option (A × Text) → ℕ
left none = 0
left (some (x, rest)) = length rest

span-shorter : (p : ℕ → Bool) (cs : Text) → length (span p cs).1 ≤ length cs
span-shorter p [] = omega arith
span-shorter p (c ∷ cs) = elim (Bool-cases (p c)) [
  | inl here ↦ rw here (omega (arith, span-shorter p cs))
  | inr other ↦ rw other (omega arith)
]

fraction-shorter : (w cs : Text) → length (fraction w cs).1 ≤ length cs
unfolding fraction
fraction-shorter w [] = omega arith
fraction-shorter w (c ∷ []) = omega arith
fraction-shorter w (c ∷ d ∷ cs) = elim (Bool-cases ((c == b'.') && is_digit d)) [
  | inl dot ↦ rw dot (omega (arith, span-shorter is_digit (d ∷ cs)))
  | inr other ↦ rw other (omega arith)
]

up_to_quote-shorter : (q : ℕ) (cs : Text) → left (up_to_quote q cs) ≤ length cs
up_to_quote-shorter q [] = omega arith
up_to_quote-shorter q (c ∷ cs) = elim (Bool-cases (c == q)) [
  | inl closes ↦ rw (left, closes) (omega arith)
  | inr other ↦ elim (Bool-cases (c == b'\n')) [
    | inl broken ↦ rw (left, other, broken) (omega arith)
    | inr inside ↦ elim (Option-cases (up_to_quote q cs)) [
      | inl never ↦ rw (left, other, inside, never) (omega arith)
      | inr (found, e) ↦
          rw (left, other, inside, e) (omega (arith, up_to_quote-shorter q cs, ap left e))
    ]
  ]
]

lex_string-shorter : (q : ℕ) (cs : Text) → left (lex_string q cs) ≤ length cs
unfolding lex_string
lex_string-shorter q cs = elim (Option-cases (up_to_quote q cs)) [
  | inl open_string ↦ rw (left, open_string) (omega arith)
  | inr (found, e) ↦ rw (left, e) (omega (arith, up_to_quote-shorter q cs, ap left e))
]

single-shorter : (c : ℕ) (cs : Text) → left (single c cs) ≤ length cs
unfolding single
single-shorter c cs = elim (Option-cases (one_character c)) [
  | inl none_there ↦ rw (left, none_there) (omega arith)
  | inr (o, e) ↦ rw (left, e) (omega arith)
]

lex_operator-shorter : (c : ℕ) (cs : Text) → left (lex_operator c cs) ≤ length cs
unfolding lex_operator
lex_operator-shorter c [] = single-shorter c []
lex_operator-shorter c (d ∷ cs) = elim (Option-cases (two_characters c d)) [
  | inl none_there ↦ rw (left, none_there) (single-shorter c (d ∷ cs))
  | inr (o, e) ↦ rw (left, e) (omega arith)
]

-- A match takes a character at least.
lex-shorter : (c : ℕ) (cs : Text) → left (lex c cs) ≤ length cs
unfolding lex
lex-shorter c cs = elim (Bool-cases (is_digit c)) [
  | inl digit ↦
      rw (lex, digit)
        (omega (
          arith,
          span-shorter is_digit cs,
          fraction-shorter (c ∷ (span is_digit cs).0) (span is_digit cs).1,
        ))
  | inr other ↦ elim (Bool-cases ((c == b'\'') || (c == b'"'))) [
    | inl quote ↦ rw (lex, other, quote) (lex_string-shorter c cs)
    | inr plain ↦ elim (Bool-cases (starts_word c)) [
      | inl letter ↦ rw (lex, other, plain, letter) (span-shorter in_word cs)
      | inr sign ↦ rw (lex, other, plain, sign) (lex_operator-shorter c cs)
    ]
  ]
]

token_of-ne-out_of_fuel : (l : Lexeme) → token_of l ≢ out_of_fuel
unfolding token_of
token_of-ne-out_of_fuel (token t) = λ h. cc
token_of-ne-out_of_fuel (name w) = λ h. ground (arith, h)

bind-ne-out_of_fuel :
    {A B : Type 0} (m : Result A) (g : A → Result B)
    → m ≢ out_of_fuel
    → ((x : A) → g x ≢ out_of_fuel)
    → (m >>= g) ≢ out_of_fuel
bind-ne-out_of_fuel (ok x) g h k = k x
bind-ne-out_of_fuel (err e) g h k = λ p. cc
bind-ne-out_of_fuel out_of_fuel g h k = λ p. h refl

tokens_from-ne-out_of_fuel :
    (f : ℕ) (text : Text) → length text < f → tokens_from f text ≢ out_of_fuel
unfolding tokens_from
tokens_from-ne-out_of_fuel zero text h = absurd (omega arith)
tokens_from-ne-out_of_fuel (suc f) [] h = λ p. cc
tokens_from-ne-out_of_fuel (suc f) (c ∷ cs) h = elim (Option-cases (lex c cs)) [
  | inl nothing ↦ rw (tokens_from, nothing) (λ p. cc)
  | inr ((l, rest), e) ↦
      let shorter : length (skip_spaces rest) < f =
        omega (arith, h, span-shorter is_space rest, lex-shorter c cs, ap left e) in
      rw (tokens_from, e)
        (bind-ne-out_of_fuel (token_of l) _ (token_of-ne-out_of_fuel l) (λ t.
          bind-ne-out_of_fuel (tokens_from f (skip_spaces rest)) _
            (tokens_from-ne-out_of_fuel f (skip_spaces rest) shorter) (λ ts p. cc)))
]

-- The check of an expression ends with an acceptance or with an error, for every text: the fuel of
-- the tokenizer and that of the parser are always enough.
pub check_expression-ne-out_of_fuel : (text : Text) → check_expression text ≢ out_of_fuel
unfolding check_expression tokens
check_expression-ne-out_of_fuel text =
    bind-ne-out_of_fuel (tokens text) parse
      (tokens_from-ne-out_of_fuel (length text + 1) (skip_spaces text)
        (omega (arith, span-shorter is_space text)))
      (λ ts. (parse_iff ts).1)
