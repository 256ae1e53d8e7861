-- ===== src/Auth/Tokens.antt =====
-- The check of a token (backend/app/auth/tokens.py). What the jwt package decodes is a parameter.
use superviseur.Prelude.{ℕ, Option, none, some, [], ◌∷◌, if◌then◌else◌}
use superviseur.Prelude.Text.{Text, codes, text_eq}
use superviseur.Prelude.{◌==◌}

pub data TokenKind : Type 0 where
  access refresh : TokenKind

abbrev pub kind_value : TokenKind → Text
kind_value access = codes "access"
kind_value refresh = codes "refresh"

-- The claims of a token that `jwt.decode` accepts; `sub` is `none` where it is no UUID.
pub record Payload : Type 0 where
  pub sub : Option ℕ
  pub typ : Text
  pub exp : ℕ
  pub pwd : Option Text

pub record TokenClaims : Type 0 where
  pub user_id : ℕ
  pub kind : TokenKind
  pub expires_at : ℕ
  pub stamp : Text

-- The claims of a payload.
claims_of : TokenKind → Payload → Option TokenClaims
claims_of expected p = elim p.sub [
  | none ↦ none
  | some id ↦
      let stamp : Text = elim p.pwd [ none ↦ [] | some s ↦ s ] in
      if p.typ == kind_value expected
      then some (record { user_id = id; kind = expected; expires_at = p.exp; stamp = stamp })
      else none
]

-- `decode_token`; `none` is a `TokenError`, and an empty token is none at all.
unfoldable pub decode_token : (Text → Option Payload) → Option Text → TokenKind → Option TokenClaims
unfolding claims_of
decode_token decode none expected = none
decode_token decode (some []) expected = none
decode_token decode (some (c ∷ cs)) expected = elim (decode (c ∷ cs)) [
  | none ↦ none
  | some payload ↦ claims_of expected payload
]
