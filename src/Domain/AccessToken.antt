-- ===== src/Domain/AccessToken.antt =====
-- src/core/stackchan_domain/src/access_token.cpp: a token, and the comparison that takes the same time
-- wherever the texts differ.
pub mod Matching
mod Examples
use Prim.Native.Nat.{bit_or, bit_xor}
use stackchan_atoms3r.Base.{
  ℕ, zero, suc, ◌+◌, ◌%◌, Bool, true, false, not, List, [], ◌∷◌, ◌==◌, if◌then◌else◌, length,
  get_or, replicate, Bytes,
}

abbrev pub token_length : ℕ
token_length = 32

pub record AccessToken : Type 0 where
  pub text : Bytes
  pub set : Bool

abbrev pub unset : AccessToken
unset = record { text = replicate token_length b'0'; set = false }

pub from_text : Bytes → AccessToken
from_text text =
    if not (length text == token_length) then unset else record { text = text; set = true }

-- The character that is compared at `i`: the position wraps.
abbrev pub presented_at : Bytes → ℕ → ℕ
presented_at [] i = 0
presented_at (c ∷ cs) i = get_or (c ∷ cs) (i % length (c ∷ cs)) 0

-- The loop of `matches` over what is left of the token's text, from position `i` on.
unfoldable pub difference_from : ℕ → Bytes → Bytes → ℕ → ℕ
difference_from i [] presented difference = difference
difference_from i (expected ∷ rest) presented difference =
    difference_from (i + 1) rest presented
      (bit_or difference (bit_xor expected (presented_at presented i)))

pub matches : AccessToken → Bytes → Bool
matches token presented =
    if not token.set
    then false
    else difference_from 0 token.text presented (if length presented == token_length then 0 else 1)
      == 0
