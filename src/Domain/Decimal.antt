-- ===== src/Domain/Decimal.antt =====
-- Unsigned decimal, which src/core/stackchan_domain/src/ids.cpp (`write_decimal`) and json_writer.cpp
-- (`value(std::uint64_t)`) each write in the same way: the digits are produced lowest first into an
-- array of twenty characters, and read back from its end.
pub mod Value
use stackchan_atoms3r.Base.{
  ℕ, zero, suc, ◌+◌, ◌*◌, ◌/◌, ◌%◌, List, [], ◌∷◌, ◌==◌, if◌then◌else◌, Bytes,
}
use mathlib.Core.List.{reverse}

-- `while (value > 0)`: the fuel is the size of the array.
unfoldable pub reversed_digits : ℕ → ℕ → Bytes
reversed_digits zero value = []
reversed_digits (suc fuel) value =
    let rest = reversed_digits fuel (value / 10) in
    if value == 0 then [] else (b'0' + value % 10) ∷ rest

unfoldable pub decimal : ℕ → Bytes
decimal value = if value == 0 then b'0' ∷ [] else reverse (reversed_digits 20 value)
