-- ===== src/Domain/JsonScan/Numbers.antt =====
-- Words and numbers that the writer has written end where they should.
use stackchan_atoms3r.Base.{
  ℕ, ◌≤◌, Bool, true, false, [], ◌∷◌, ◌++◌, some, ◌≡◌, refl, if◌then◌else◌, length, Bytes, codes,
  arith, ◌∙◌, ap, All, bytes_eq,
}
use stackchan_atoms3r.Domain.Decimal.Value.{IsDigit}
use stackchan_atoms3r.Domain.JsonScan.{
  ValueKind, number_char, starts_number, skip_while, skip_value, skip_keyword,
  keyword_starting_with, spanned,
}
use stackchan_atoms3r.Domain.JsonScan.Brackets.{span_between-append}

-- Text that does not go on with a number.
abbrev pub Stops : Bytes → Type 0
Stops rest = skip_while number_char rest ≡ rest

skip_while-IsDigit :
    (a rest : Bytes)
    → All IsDigit a
    → skip_while number_char (a ++ rest) ≡ skip_while number_char rest
unfolding skip_while
skip_while-IsDigit [] rest h = refl
skip_while-IsDigit (c ∷ cs) rest h = ground (arith, h.0, skip_while-IsDigit cs rest h.1)

skip_value_number :
    (c : ℕ) (cs rest : Bytes)
    → starts_number c ≡ true
    → All IsDigit cs
    → Stops rest
    → skip_value (c ∷ (cs ++ rest))
      ≡ some (record { span = c ∷ cs; kind = ValueKind.number; rest = rest })
unfolding skip_value
skip_value_number c cs rest h digits stops =
    let behind = skip_while-IsDigit cs rest digits ∙ stops in
    let found =
      ap (spanned (c ∷ (cs ++ rest)) ValueKind.number) behind
      ∙ ap (λ s. record { span = s; kind = ValueKind.number; rest = rest })
          (span_between-append (c ∷ cs) rest) in
    ground (arith, found)

pub skip_value_digits :
    (a rest : Bytes)
    → 1 ≤ length a
    → All IsDigit a
    → Stops rest
    → skip_value (a ++ rest) ≡ some (record { span = a; kind = ValueKind.number; rest = rest })
skip_value_digits [] rest l h stops = absurd (omega arith)
skip_value_digits (c ∷ cs) rest l h stops =
    skip_value_number c cs rest (ground (arith, h.0)) h.1 stops

pub skip_value_minus :
    (a rest : Bytes)
    → All IsDigit a
    → Stops rest
    → skip_value (b'-' ∷ (a ++ rest))
      ≡ some (record { span = b'-' ∷ a; kind = ValueKind.number; rest = rest })
skip_value_minus a rest h stops = skip_value_number b'-' a rest refl h stops

pub skip_value_flag :
    (b : Bool) (rest : Bytes)
    → skip_value ((if b then codes "true" else codes "false") ++ rest)
      ≡ some (record {
        span = if b then codes "true" else codes "false";
        kind = ValueKind.boolean;
        rest = rest;
      })
unfolding skip_value skip_keyword keyword_starting_with bytes_eq
skip_value_flag true rest = refl
skip_value_flag false rest = refl

pub skip_value_null :
    (rest : Bytes)
    → skip_value (codes "null" ++ rest)
      ≡ some (record { span = codes "null"; kind = ValueKind.null; rest = rest })
unfolding skip_value skip_keyword keyword_starting_with bytes_eq
skip_value_null rest = refl
