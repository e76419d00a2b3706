-- ===== src/Domain/Expression/Names.antt =====
-- A name parses to the expression that carries it, and no other text parses.
use stackchan_atoms3r.Base.{
  some, ◌≡◌, ◌↔◌, refl, ap, sym, ◌∙◌, Bytes, codes, bytes_eq, bytes_eq_iff, arith,
}
use stackchan_atoms3r.Domain.Expression.{
  Expression, neutral, happy, sad, doubt, sleepy, angry, expression_value, expression_cast,
  to_string, name_index, parse_expression,
}

pub parse_expression-to_string : (e : Expression) → parse_expression (to_string e) ≡ some e
unfolding to_string parse_expression name_index bytes_eq
parse_expression-to_string neutral = refl
parse_expression-to_string happy = refl
parse_expression-to_string sad = refl
parse_expression-to_string doubt = refl
parse_expression-to_string sleepy = refl
parse_expression-to_string angry = refl

pub cast-value : (e : Expression) → expression_cast (expression_value e) ≡ some e
cast-value neutral = refl
cast-value happy = refl
cast-value sad = refl
cast-value doubt = refl
cast-value sleepy = refl
cast-value angry = refl

to_string-parse :
    (name : Bytes) (e : Expression) → parse_expression name ≡ some e → to_string e ≡ name
unfolding parse_expression name_index to_string
to_string-parse name e h = ground (
  arith,
  bytes_eq_iff (codes "neutral") name,
  bytes_eq_iff (codes "happy") name,
  bytes_eq_iff (codes "sad") name,
  bytes_eq_iff (codes "doubt") name,
  bytes_eq_iff (codes "sleepy") name,
  bytes_eq_iff (codes "angry") name,
)

-- A text parses to an expression exactly if it is the name of that expression.
pub parse_expression_iff :
    (name : Bytes) (e : Expression) → (parse_expression name ≡ some e) ↔ (to_string e ≡ name)
parse_expression_iff name e =
    (to_string-parse name e, λ h. ap parse_expression (sym h) ∙ parse_expression-to_string e)
