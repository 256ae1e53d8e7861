-- ===== src/Tests/Synoptics.antt =====
-- The expressions and documents of synoptics on concrete inputs.
use superviseur.Prelude.{◌≡◌, ◌≢◌, ◌↔◌, refl, true, false, none, [], ◌∷◌, All}
use superviseur.Prelude.Int.{pos}
use superviseur.Prelude.Text.{codes}
use superviseur.Api.Expr.{Op, Tokens, number, word, op, ok, out_of_fuel, parse}
use superviseur.Api.Expr.Grammar.{Level, Parses}
use superviseur.Api.Expr.Grammar.Decides.{parse_iff}
use superviseur.Api.Expr.Lexer.{tokens, check_expression}
use superviseur.Api.Expr.Lexer.RoundTrip.{
  IsToken, value, whole, operator, render, tokens-render, check_expression-render,
}
use superviseur.Api.Expr.Lexer.Total.{check_expression-ne-out_of_fuel}
use superviseur.Api.Doc.{null, end, field, get, has_key, is_safe_css_value}
use superviseur.Api.Doc.Slug.{is_valid_slug, slugify, is_id, is_target, match_slug}
use superviseur.Api.Doc.Slug.Slugify.{slugify_is_valid}
use superviseur.Api.Doc.Schema.{
  Widget, Link, SynopticDoc, ids, validate_document, widget_fields_ok, canvas_ok, check_style,
  iterate, properties, widget_verdict, widgets_verdict, references_ok, refer, distinct,
}
use superviseur.Api.Doc.Schema.References.{Unique, HasWidget, valid_document}

abbrev comparison : Tokens
comparison = word (codes "value") ∷ op Op.gt ∷ number (codes "3") ∷ []

abbrev comparison-IsToken : All IsToken comparison
comparison-IsToken = (value, (operator, (whole b'3' [] refl (refl, tt), tt)))

parse_iff_example :
    ((parse comparison ≡ ok tt) ↔ Parses Level.or comparison) × (parse comparison ≢ out_of_fuel)
parse_iff_example = parse_iff comparison

tokens-render_example : tokens (render comparison) ≡ ok comparison
tokens-render_example = tokens-render comparison comparison-IsToken

check_expression-render_example :
    (check_expression (render comparison) ≡ ok tt) ↔ Parses Level.or comparison
check_expression-render_example = check_expression-render comparison comparison-IsToken

check_expression-ne-out_of_fuel_example : check_expression (codes "value > ") ≢ out_of_fuel
check_expression-ne-out_of_fuel_example = check_expression-ne-out_of_fuel (codes "value > ")

slugify_is_valid_example : is_valid_slug (slugify (codes "--Chaufferie  nord--")) ≡ true
slugify_is_valid_example = slugify_is_valid (codes "--Chaufferie  nord--")

slugify_run : slugify (codes "--Chaufferie  nord--") ≡ codes "chaufferie-nord"
unfolding slugify
slugify_run = refl

abbrev gauge : Widget
gauge = record {
  id = codes "g1";
  type = codes "gauge";
  x = pos 0;
  y = pos 0;
  w = pos 50000000000000;
  h = pos 50000000000000;
  bind = end;
  style = end;
  rules = [];
  extra = end;
}

abbrev plan : SynopticDoc
plan = record {
  schema_version = pos 1;
  name = codes "Plan";
  canvas = record {
    width = pos 800;
    height = pos 600;
    background = codes "white";
    bg_image = none;
  };
  widgets = gauge ∷ [];
  links = record { widget = codes "g1"; target = codes "synoptic:chaufferie" } ∷ [];
}

valid_document_example :
    Unique (ids plan) × All (λ (l : Link). HasWidget plan.widgets l.widget) plan.links
unfolding validate_document refer canvas_ok is_safe_css_value is_target widgets_verdict
    widget_verdict widget_fields_ok is_id check_style properties get iterate has_key references_ok
    distinct match_slug
valid_document_example = valid_document (λ v. false) plan refl

-- A widget whose `points` is null.
abbrev unlisted : Widget
unlisted = record gauge { bind = field (codes "points") null end }

abbrev broken : SynopticDoc
broken = record plan { widgets = gauge ∷ unlisted ∷ [] }
