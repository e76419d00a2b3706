-- ===== src/Domain/Expression/Examples.antt =====
-- A name of the table.
use stackchan_atoms3r.Base.{some, ◌≡◌, ◌↔◌, codes}
use stackchan_atoms3r.Domain.Expression.{happy, to_string, parse_expression}
use stackchan_atoms3r.Domain.Expression.Names.{parse_expression_iff}

parse_expression_iff_example :
    (parse_expression (codes "happy") ≡ some happy) ↔ (to_string happy ≡ codes "happy")
parse_expression_iff_example = parse_expression_iff (codes "happy") happy
