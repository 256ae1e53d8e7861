-- ===== src/Api/Expr/Lexer/RoundTrip.antt =====
-- The tokens of a printed token list are those that were printed.
use superviseur.Prelude.{
  ℕ, zero, suc, ◌+◌, ◌<◌, ◌≡◌, refl, sym, ◌∙◌, ap, ◌↔◌, Bool, true, false, ◌||◌, some, [], ◌∷◌,
  ◌++◌, append_assoc, All, length, length-append, arith, ◌==◌, nat_eq,
}
use superviseur.Prelude.Text.{Text, codes, text_eq, is_space}
use superviseur.Api.Expr.{Op, Token, Tokens, ok, number, string, word, op}
use superviseur.Api.Expr.Grammar.{Level, Parses}
use superviseur.Api.Expr.Grammar.Decides.{parse_iff}
use superviseur.Api.Expr.Lexer.{
  Lexeme, token, name, is_digit, span, skip_spaces, up_to_quote, lex, token_of, tokens_from, tokens,
  check_expression, lex_number, lex_string, lex_word, fraction,
}

abbrev pub op_text : Op → Text
op_text Op.or = codes "||"
op_text Op.and = codes "&&"
op_text Op.not = codes "!"
op_text Op.eq = codes "=="
op_text Op.ne = codes "!="
op_text Op.le = codes "<="
op_text Op.ge = codes ">="
op_text Op.lt = codes "<"
op_text Op.gt = codes ">"
op_text Op.plus = codes "+"
op_text Op.minus = codes "-"
op_text Op.times = codes "*"
op_text Op.divide = codes "/"
op_text Op.modulo = codes "%"
op_text Op.lpar = codes "("
op_text Op.rpar = codes ")"

abbrev pub text_of : Token → Text
text_of (number v) = v
text_of (string v) = v
text_of (word v) = v
text_of (op o) = op_text o

-- The tokens with a space behind each.
unfoldable pub render : Tokens → Text
render [] = []
render (t ∷ ts) = text_of t ++ b' ' ∷ render ts

-- A token as the regular expression describes it.
pub data IsToken : Token → Type 0 where
  whole :
      {v : Text} (d : ℕ) (ds : Text)
      → v ≡ d ∷ ds
      → All (λ c. is_digit c ≡ true) (d ∷ ds)
      → IsToken (number v)
  decimal :
      {v : Text} (d : ℕ) (ds : Text) (e : ℕ) (es : Text)
      → v ≡ (d ∷ ds) ++ b'.' ∷ (e ∷ es)
      → All (λ c. is_digit c ≡ true) (d ∷ ds)
      → All (λ c. is_digit c ≡ true) (e ∷ es)
      → IsToken (number v)
  quoted :
      {v : Text} (q : ℕ) (cs : Text)
      → ((q == b'\'') || (q == b'"')) ≡ true
      → All (λ c. ((c == q) || (c == b'\n')) ≡ false) cs
      → v ≡ q ∷ (cs ++ q ∷ [])
      → IsToken (string v)
  value : IsToken (word (codes "value"))
  status : IsToken (word (codes "status"))
  truth : IsToken (word (codes "true"))
  falsity : IsToken (word (codes "false"))
  null : IsToken (word (codes "null"))
  operator : {o : Op} → IsToken (op o)

-- How the text of a token is read back, whatever stands behind the space that follows it.
record ReadBack (t : Token) : Type 0 where
  head : ℕ
  tail : Text
  text : text_of t ≡ head ∷ tail
  visible : is_space head ≡ false
  lexeme : Lexeme
  known : token_of lexeme ≡ ok t
  matched : (rest : Text) → lex head (tail ++ b' ' ∷ rest) ≡ some (lexeme, b' ' ∷ rest)

span-append :
    (p : ℕ → Bool) (xs : Text) (c : ℕ) (rest : Text)
    → All (λ x. p x ≡ true) xs
    → p c ≡ false
    → span p (xs ++ c ∷ rest) ≡ (xs, c ∷ rest)
span-append p [] c rest h n = rw n
span-append p (x ∷ xs) c rest h n = rw (span-append p xs c rest h.1 n, h.0)

up_to_quote-append :
    (q : ℕ) (cs rest : Text)
    → All (λ c. ((c == q) || (c == b'\n')) ≡ false) cs
    → up_to_quote q (cs ++ q ∷ rest) ≡ some (cs ++ q ∷ [], rest)
up_to_quote-append q [] rest h = ground arith
up_to_quote-append q (c ∷ cs) rest h = ground (arith, up_to_quote-append q cs rest h.1)

op-ReadBack :
    {o : Op} (h : ℕ) (cs : Text)
    → op_text o ≡ h ∷ cs
    → is_space h ≡ false
    → ((rest : Text) → lex h (cs ++ b' ' ∷ rest) ≡ some (token (op o), b' ' ∷ rest))
    → ReadBack (op o)
unfolding token_of
op-ReadBack {o} h cs e v m = record {
  head = h;
  tail = cs;
  text = e;
  visible = v;
  lexeme = token (op o);
  known = refl;
  matched = m;
}

operator-ReadBack : (o : Op) → ReadBack (op o)
unfolding lex
operator-ReadBack Op.or = op-ReadBack b'|' (b'|' ∷ []) refl refl (λ rest. refl)
operator-ReadBack Op.and = op-ReadBack b'&' (b'&' ∷ []) refl refl (λ rest. refl)
operator-ReadBack Op.not = op-ReadBack b'!' ([]) refl refl (λ rest. refl)
operator-ReadBack Op.eq = op-ReadBack b'=' (b'=' ∷ []) refl refl (λ rest. refl)
operator-ReadBack Op.ne = op-ReadBack b'!' (b'=' ∷ []) refl refl (λ rest. refl)
operator-ReadBack Op.le = op-ReadBack b'<' (b'=' ∷ []) refl refl (λ rest. refl)
operator-ReadBack Op.ge = op-ReadBack b'>' (b'=' ∷ []) refl refl (λ rest. refl)
operator-ReadBack Op.lt = op-ReadBack b'<' ([]) refl refl (λ rest. refl)
operator-ReadBack Op.gt = op-ReadBack b'>' ([]) refl refl (λ rest. refl)
operator-ReadBack Op.plus = op-ReadBack b'+' ([]) refl refl (λ rest. refl)
operator-ReadBack Op.minus = op-ReadBack b'-' ([]) refl refl (λ rest. refl)
operator-ReadBack Op.times = op-ReadBack b'*' ([]) refl refl (λ rest. refl)
operator-ReadBack Op.divide = op-ReadBack b'/' ([]) refl refl (λ rest. refl)
operator-ReadBack Op.modulo = op-ReadBack b'%' ([]) refl refl (λ rest. refl)
operator-ReadBack Op.lpar = op-ReadBack b'(' ([]) refl refl (λ rest. refl)
operator-ReadBack Op.rpar = op-ReadBack b')' ([]) refl refl (λ rest. refl)

word-ReadBack :
    {w : Text} (h : ℕ) (cs : Text)
    → w ≡ h ∷ cs
    → is_space h ≡ false
    → token_of (name w) ≡ ok (word w)
    → ((rest : Text) → lex h (cs ++ b' ' ∷ rest) ≡ some (name w, b' ' ∷ rest))
    → ReadBack (word w)
word-ReadBack {w} h cs e v k m = record {
  head = h;
  tail = cs;
  text = e;
  visible = v;
  lexeme = name w;
  known = k;
  matched = m;
}

fraction_space : (w rest : Text) → fraction w (b' ' ∷ rest) ≡ (w, b' ' ∷ rest)
unfolding fraction
fraction_space w [] = refl
fraction_space w (c ∷ cs) = refl

whole-ReadBack :
    (d : ℕ) (ds : Text)
    → All (λ c. is_digit c ≡ true) (d ∷ ds)
    → (rest : Text) → lex d (ds ++ b' ' ∷ rest) ≡ some (token (number (d ∷ ds)), b' ' ∷ rest)
unfolding lex lex_number
whole-ReadBack d ds h rest =
    rw (h.0, span-append is_digit ds b' ' rest h.1 refl, fraction_space (d ∷ ds) rest) refl

fraction_decimal :
    (w : Text) (e : ℕ) (es rest : Text)
    → All (λ c. is_digit c ≡ true) (e ∷ es)
    → fraction w (b'.' ∷ e ∷ es ++ b' ' ∷ rest) ≡ (w ++ b'.' ∷ e ∷ es, b' ' ∷ rest)
unfolding fraction
fraction_decimal w e es rest h = rw (span-append is_digit es b' ' rest h.1 refl, h.0) refl

decimal-ReadBack :
    (d : ℕ) (ds : Text) (e : ℕ) (es : Text)
    → All (λ c. is_digit c ≡ true) (d ∷ ds)
    → All (λ c. is_digit c ≡ true) (e ∷ es)
    → (rest : Text)
    → lex d ((ds ++ b'.' ∷ e ∷ es) ++ b' ' ∷ rest)
      ≡ some (token (number ((d ∷ ds) ++ b'.' ∷ e ∷ es)), b' ' ∷ rest)
unfolding lex lex_number
decimal-ReadBack d ds e es h k rest = rw (append_assoc ds (b'.' ∷ e ∷ es) (b' ' ∷ rest)) (
    rw
      (
        h.0,
        span-append is_digit ds b'.' (e ∷ es ++ b' ' ∷ rest) h.1 refl,
        fraction_decimal (d ∷ ds) e es rest k,
      )
      refl)

lex_string-closed :
    (q : ℕ) (cs rest : Text)
    → All (λ c. ((c == q) || (c == b'\n')) ≡ false) cs
    → lex_string q (cs ++ q ∷ rest) ≡ some (token (string (q ∷ (cs ++ q ∷ []))), rest)
unfolding lex_string
lex_string-closed q cs rest k = ground (arith, up_to_quote-append q cs rest k)

quoted-ReadBack :
    (q : ℕ) (cs : Text)
    → ((q == b'\'') || (q == b'"')) ≡ true
    → All (λ c. ((c == q) || (c == b'\n')) ≡ false) cs
    → (rest : Text)
    → lex q ((cs ++ q ∷ []) ++ b' ' ∷ rest)
      ≡ some (token (string (q ∷ (cs ++ q ∷ []))), b' ' ∷ rest)
unfolding lex
quoted-ReadBack q cs h k rest =
    let plain : is_digit q ≡ false = ground arith in
    rw (append_assoc cs (q ∷ []) (b' ' ∷ rest))
      (rw (plain, h) (lex_string-closed q cs (b' ' ∷ rest) k))

IsToken-ReadBack : {t : Token} → IsToken t → ReadBack t
unfolding token_of
IsToken-ReadBack (whole d ds e h) = record {
  head = d;
  tail = ds;
  text = e;
  visible = ground arith;
  lexeme = token (number (d ∷ ds));
  known = ap (λ v. ok (number v)) (sym e);
  matched = whole-ReadBack d ds h;
}
IsToken-ReadBack (decimal d ds e es q h k) = record {
  head = d;
  tail = ds ++ b'.' ∷ e ∷ es;
  text = q;
  visible = ground arith;
  lexeme = token (number ((d ∷ ds) ++ b'.' ∷ e ∷ es));
  known = ap (λ v. ok (number v)) (sym q);
  matched = decimal-ReadBack d ds e es h k;
}
IsToken-ReadBack (quoted q cs h k e) = record {
  head = q;
  tail = cs ++ q ∷ [];
  text = e;
  visible = ground arith;
  lexeme = token (string (q ∷ (cs ++ q ∷ [])));
  known = ap (λ v. ok (string v)) (sym e);
  matched = quoted-ReadBack q cs h k;
}
IsToken-ReadBack value =
    unfold lex lex_word in word-ReadBack b'v' (codes "alue") refl refl refl (λ rest. refl)
IsToken-ReadBack status =
    unfold lex lex_word in word-ReadBack b's' (codes "tatus") refl refl refl (λ rest. refl)
IsToken-ReadBack truth =
    unfold lex lex_word in word-ReadBack b't' (codes "rue") refl refl refl (λ rest. refl)
IsToken-ReadBack falsity =
    unfold lex lex_word in word-ReadBack b'f' (codes "alse") refl refl refl (λ rest. refl)
IsToken-ReadBack null =
    unfold lex lex_word in word-ReadBack b'n' (codes "ull") refl refl refl (λ rest. refl)
IsToken-ReadBack (operator {o}) = operator-ReadBack o

skip_visible : (c : ℕ) (cs : Text) → is_space c ≡ false → skip_spaces (c ∷ cs) ≡ c ∷ cs
skip_visible c cs h = ground arith

skip_spaces-render : (ts : Tokens) → All IsToken ts → skip_spaces (render ts) ≡ render ts
unfolding render
skip_spaces-render [] h = refl
skip_spaces-render (t ∷ ts) h =
    let r = IsToken-ReadBack (h.0) in
    rw (r.text) (skip_visible r.head (r.tail ++ b' ' ∷ render ts) r.visible)

tokens_from-step :
    (f : ℕ) (c : ℕ) (cs rest : Text) (l : Lexeme) (t : Token) (ts : Tokens)
    → lex c cs ≡ some (l, rest)
    → token_of l ≡ ok t
    → tokens_from f (skip_spaces rest) ≡ ok ts
    → tokens_from (suc f) (c ∷ cs) ≡ ok (t ∷ ts)
unfolding tokens_from
tokens_from-step f c cs rest l t ts e k r = ground (arith, e, k, r)

tokens_from-render :
    (f : ℕ) (ts : Tokens)
    → All IsToken ts
    → length (render ts) < f
    → tokens_from f (render ts) ≡ ok ts
unfolding render
tokens_from-render zero ts h k = absurd (omega arith)
tokens_from-render (suc f) [] h k = unfold tokens_from in refl
tokens_from-render (suc f) (t ∷ ts) h k =
    let r = IsToken-ReadBack (h.0) in
    let shorter : length (render ts) < f =
      omega (arith, k, ap length r.text, length-append (text_of t) (b' ' ∷ render ts)) in
    ap (λ x. tokens_from (suc f) (x ++ b' ' ∷ render ts)) r.text
    ∙ tokens_from-step f r.head (r.tail ++ b' ' ∷ render ts) (b' ' ∷ render ts) r.lexeme t ts
        (r.matched (render ts)) r.known
        (ap (tokens_from f) (skip_spaces-render ts (h.1)) ∙ tokens_from-render f ts (h.1) shorter)

-- The tokens of a printed token list are those that were printed, if each is a token of the regular
-- expression.
pub tokens-render : (ts : Tokens) → All IsToken ts → tokens (render ts) ≡ ok ts
unfolding tokens
tokens-render ts h =
    ap (tokens_from (length (render ts) + 1)) (skip_spaces-render ts h)
    ∙ tokens_from-render (length (render ts) + 1) ts h (omega arith)

-- The check accepts a printed token list exactly when the tokens are a sentence of the grammar.
pub check_expression-render :
    (ts : Tokens) → All IsToken ts → (check_expression (render ts) ≡ ok tt) ↔ Parses Level.or ts
unfolding check_expression
check_expression-render ts h = rw (tokens-render ts h) ((parse_iff ts).0)
