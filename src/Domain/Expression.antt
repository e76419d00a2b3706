-- ===== src/Domain/Expression.antt =====
-- src/core/stackchan_domain/src/expression.cpp and its header: the expressions of the face and their
-- names on the wire.
pub mod Names
mod Examples
use stackchan_atoms3r.Base.{
  ℕ, zero, suc, ◌+◌, ◌==◌, List, [], ◌∷◌, Option, none, some, if◌then◌else◌, length, get_or, ltb,
  Bytes, codes, bytes_eq,
}

pub data Expression : Type 0 where
  neutral happy sad doubt sleepy angry : Expression

abbrev pub expression_names : List Bytes
expression_names =
    codes "neutral"
    ∷ codes "happy"
    ∷ codes "sad"
    ∷ codes "doubt"
    ∷ codes "sleepy"
    ∷ codes "angry"
    ∷ []

-- The number that the enumeration stores.
abbrev pub expression_value : Expression → ℕ
expression_value neutral = 0
expression_value happy = 1
expression_value sad = 2
expression_value doubt = 3
expression_value sleepy = 4
expression_value angry = 5

-- The cast of a number to the enumeration; a number outside it is no enumerator.
abbrev pub expression_cast : ℕ → Option Expression
expression_cast zero = some neutral
expression_cast (suc zero) = some happy
expression_cast (suc (suc zero)) = some sad
expression_cast (suc (suc (suc zero))) = some doubt
expression_cast (suc (suc (suc (suc zero)))) = some sleepy
expression_cast (suc (suc (suc (suc (suc zero))))) = some angry
expression_cast _ = none

unfoldable pub to_string : Expression → Bytes
to_string expression =
    let index = expression_value expression in
    if ltb index (length expression_names)
    then get_or expression_names index []
    else get_or expression_names 0 []

-- The loop over the table, at index `i`.
unfoldable pub name_index : List Bytes → ℕ → Bytes → Option ℕ
name_index [] i name = none
name_index (n ∷ names) i name =
    let rest = name_index names (i + 1) name in if bytes_eq n name then some i else rest

abbrev pub cast_index : Option ℕ → Option Expression
cast_index none = none
cast_index (some i) = expression_cast i

unfoldable pub parse_expression : Bytes → Option Expression
parse_expression name = cast_index (name_index expression_names 0 name)
