-- ===== src/Runtime/ReceiveExact.antt =====
-- src/core/stackchan_runtime/include/stackchan/runtime/receive_exact.hpp: filling a buffer from a
-- transport that gives the data in pieces. The transport is a parameter: what the call with this number
-- returns when it is given so much room.
mod Filling
mod Examples
use stackchan_atoms3r.Base.{
  ℕ, zero, suc, ◌+◌, ◌-◌, Bool, true, false, not, ◌&&◌, ltb, ◌==◌, if◌then◌else◌,
}
use stackchan_atoms3r.Base.Int.{ℤ, pos, negsuc}

pub data ReceiveExactResult : Type 0 where
  complete incomplete error : ReceiveExactResult

-- One round of the loop by what the transport returned: the size of the piece, or the end.
pub data Piece : Type 0 where
  ended : ReceiveExactResult → Piece
  piece : ℕ → Piece

unfoldable pub judge : ℤ → ℕ → Piece
judge (negsuc n) room = ended error
judge (pos zero) room = ended incomplete
judge (pos (suc n)) room = if ltb room (suc n) then ended error else piece (suc n)

module _ (receive : ℕ → ℕ → ℤ) where
  -- The loop, on fuel, in its call with this number; every piece fills a byte at least.
  unfoldable pub receive_loop : ℕ → ℕ → ℕ → ℕ → ReceiveExactResult
  receive_loop zero number expected received = incomplete
  receive_loop (suc fuel) number expected received = elim (ltb received expected) [
    | false ↦ complete
    | true ↦ elim (judge (receive number (expected - received)) (expected - received)) [
      | ended result ↦ result
      | piece size ↦ receive_loop fuel (number + 1) expected (received + size)
    ]
  ]

  -- The flag is `destination == nullptr`.
  unfoldable pub receive_exact : Bool → ℕ → ReceiveExactResult
  receive_exact no_destination expected =
      if no_destination && not (expected == 0)
      then error
      else receive_loop (expected + 1) 0 expected 0
