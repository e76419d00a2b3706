-- ===== src/Domain/Base64.antt =====
-- src/core/stackchan_domain/src/base64.cpp. `none` is the source's SIZE_MAX. The flag of
-- `base64_decode` is `out == nullptr`; a result is the bytes that the source leaves in `out`.
mod Groups
mod RoundTrip
mod Examples
use Prim.Native.Nat.{bit_and, bit_or}
use stackchan_atoms3r.Base.{
  ℕ, ◌+◌, ◌-◌, ◌*◌, ◌/◌, ◌%◌, Bool, true, false, not, ◌&&◌, ◌||◌, List, [], ◌∷◌, ◌++◌, Option, none,
  some, ltb, ◌==◌, if◌then◌else◌, within, length, get_or, Bytes,
}

abbrev pub invalid : ℕ
invalid = 0xFF

pub value_of : ℕ → ℕ
value_of c =
    if within b'A' b'Z' c
    then c - b'A'
    else if within b'a' b'z' c
    then c - b'a' + 26
    else if within b'0' b'9' c
    then c - b'0' + 52
    else if c == b'+'
    then 62
    else if c == b'/'
    then 63
    else invalid

pub base64_decoded_size : Bytes → Option ℕ
base64_decoded_size text =
    if length text == 0
    then some 0
    else if not (length text % 4 == 0)
    then none
    else (let size = length text / 4 * 3 in
        if get_or text (length text - 1) 0 == b'='
        then (if get_or text (length text - 2) 0 == b'=' then some (size - 2) else some (size - 1))
        else some size)

-- The three bytes of a group, from the values of its characters; a `std::uint8_t` drops what is
-- shifted above it.
pub first_byte : ℕ → ℕ → ℕ
first_byte v0 v1 = bit_or (v0 * 4) (v1 / 16) % 256

pub second_byte : ℕ → ℕ → ℕ
second_byte v1 v2 = bit_or (bit_and v1 0x0F * 16) (v2 / 4) % 256

pub third_byte : ℕ → ℕ → ℕ
third_byte v2 v3 = bit_or (bit_and v2 0x03 * 64) v3 % 256

abbrev pub is_empty : Bytes → Bool
is_empty [] = true
is_empty _ = false

abbrev cons_byte : ℕ → Option Bytes → Option Bytes
cons_byte b none = none
cons_byte b (some bs) = some (b ∷ bs)

-- One round of the loop: `others` is what the rounds behind it give.
decode_group : ℕ → ℕ → ℕ → ℕ → Bool → Option Bytes → Option Bytes
decode_group c0 c1 c2 c3 last_group others =
    let v0 = value_of c0 in
    let v1 = value_of c1 in
    let v2 = value_of c2 in
    let v3 = value_of c3 in
    if v0 == invalid || v1 == invalid
    then none
    else if c2 == b'='
    then (if not last_group || not (c3 == b'=') then none else some (first_byte v0 v1 ∷ []))
    else if v2 == invalid
    then none
    else if c3 == b'='
    then (if not last_group then none else some (first_byte v0 v1 ∷ second_byte v1 v2 ∷ []))
    else if v3 == invalid
    then none
    else cons_byte (first_byte v0 v1)
        (cons_byte (second_byte v1 v2) (cons_byte (third_byte v2 v3) others))

-- The loop over the groups of four characters. The lengths that the loop does not meet stand last.
pub decode_groups : Bytes → Option Bytes
decode_groups [] = some []
decode_groups (c0 ∷ c1 ∷ c2 ∷ c3 ∷ rest) =
    decode_group c0 c1 c2 c3 (is_empty rest) (decode_groups rest)
decode_groups _ = none

abbrev refused : Bytes → Bool → Option Bytes
refused text out_null = if is_empty text && not out_null then some [] else none

pub base64_decode : Bytes → Bool → ℕ → Option Bytes
base64_decode text out_null capacity = elim (base64_decoded_size text) [
  | none ↦ refused text out_null
  | some expected ↦
      if ltb capacity expected || out_null
      then refused text out_null
      else if is_empty text
      then some []
      else decode_groups text
]
