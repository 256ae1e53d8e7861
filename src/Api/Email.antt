-- ===== src/Api/Email.antt =====
-- The addresses of the channels of a rule (backend/app/api/schemas.py, `_EMAIL`), over ASCII.
use superviseur.Prelude.{
  ℕ, Bool, true, false, not, ◌&&◌, ◌||◌, [], ◌∷◌, ◌==◌, nat_eq, if◌then◌else◌,
}
use superviseur.Prelude.Text.{Text, is_space}

-- The class `[^@\s]` of `_EMAIL`.
abbrev pub is_address_char : ℕ → Bool
is_address_char c = not (c == b'@') && not (is_space c)

-- A dot with a character behind it.
abbrev pub has_dot : Text → Bool
has_dot (c ∷ d ∷ cs) = (c == b'.') || has_dot (d ∷ cs)
has_dot _ = false

-- `[^@\s]+\.[^@\s]+$`; the end stands before a last newline too.
abbrev pub is_domain_end : Text → Bool
is_domain_end [] = true
is_domain_end (c ∷ []) = is_address_char c || (c == 10)
is_domain_end (c ∷ d ∷ cs) = is_address_char c && is_domain_end (d ∷ cs)

abbrev pub without_newline : Text → Text
without_newline [] = []
without_newline (c ∷ []) = if c == 10 then [] else c ∷ []
without_newline (c ∷ d ∷ cs) = c ∷ without_newline (d ∷ cs)

unfoldable pub is_domain : Text → Bool
is_domain [] = false
is_domain (c ∷ cs) = is_domain_end (c ∷ cs) && is_address_char c && has_dot (without_newline cs)

-- `_EMAIL.match`, from a character of the part before `@` on.
unfoldable pub is_email_from : Text → Bool
is_email_from [] = false
is_email_from (c ∷ cs) =
    let rest = is_email_from cs in if c == b'@' then is_domain cs else is_address_char c && rest

unfoldable pub is_email : Text → Bool
is_email [] = false
is_email (c ∷ cs) = is_address_char c && is_email_from cs
