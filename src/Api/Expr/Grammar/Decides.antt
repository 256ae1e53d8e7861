-- ===== src/Api/Expr/Grammar/Decides.antt =====
-- The parser decides the grammar.
use superviseur.Prelude.{
  ◌+◌, ◌≡◌, ◌≢◌, refl, sym, ◌∙◌, ap, ◌↔◌, [], ◌∷◌, ◌++◌, append-nil, length, arith,
}
use superviseur.Api.Expr.{out_of_fuel, Tokens, Result, ok, ◌>>=◌, or_, parse, finish}
use superviseur.Api.Expr.Grammar.{Level, Parses}
use superviseur.Api.Expr.Grammar.Sound.{Reads, reads, fails, or_-Reads}
use superviseur.Api.Expr.Grammar.Complete.{Parses-pos, or_-complete}

finish-Parses :
    {ts : Tokens} {r : Result Tokens}
    → Reads Level.or ts r
    → (r >>= finish) ≡ ok tt
    → Parses Level.or ts
finish-Parses {ts = ts} (reads before [] e d pos) h =
    let whole : ts ≡ before = e ∙ append-nil before in rw whole d
finish-Parses (reads before (t ∷ rest) e d pos) h = cc
finish-Parses fails h = cc

parse-Parses : (ts : Tokens) → (parse ts ≡ ok tt) ↔ Parses Level.or ts
unfolding parse
parse-Parses [] = (λ h. cc, λ d. let none_there = Parses-pos [] d in absurd (omega arith))
parse-Parses (t ∷ ts) = (
  λ h. finish-Parses (or_-Reads (length (t ∷ ts) + 1) (t ∷ ts) (omega arith)) h,
  λ d.
      let all = t ∷ ts in
      let done : or_ (length all + 1) (all ++ []) ≡ ok [] =
        or_-complete (length all + 1) all [] d refl (omega (arith, ap length (append-nil all))) in
      ap (λ x. or_ (length all + 1) x >>= finish) (sym (append-nil all))
      ∙ ap (λ r. r >>= finish) done,
)

finish-ne-out_of_fuel :
    {ts : Tokens} {r : Result Tokens} → Reads Level.or ts r → (r >>= finish) ≢ out_of_fuel
finish-ne-out_of_fuel (reads before [] e d pos) = λ h. cc
finish-ne-out_of_fuel (reads before (t ∷ rest) e d pos) = λ h. cc
finish-ne-out_of_fuel fails = λ h. cc

parse-ne-out_of_fuel : (ts : Tokens) → parse ts ≢ out_of_fuel
unfolding parse
parse-ne-out_of_fuel [] = λ h. cc
parse-ne-out_of_fuel (t ∷ ts) =
    finish-ne-out_of_fuel (or_-Reads (length (t ∷ ts) + 1) (t ∷ ts) (omega arith))

-- The parser accepts a list of tokens exactly when it is a sentence of the documented grammar, and
-- on no list of tokens does its fuel run out.
pub parse_iff : (ts : Tokens) → ((parse ts ≡ ok tt) ↔ Parses Level.or ts) × (parse ts ≢ out_of_fuel)
parse_iff ts = (parse-Parses ts, parse-ne-out_of_fuel ts)
