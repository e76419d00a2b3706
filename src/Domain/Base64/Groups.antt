-- ===== src/Domain/Base64/Groups.antt =====
-- The bytes of a group as numbers, and how many bytes a text decodes to.
use Prim.Native.Nat.{bit_and, bit_or}
use stackchan_atoms3r.Base.{
  ℕ, suc, ◌+◌, ◌-◌, ◌*◌, ◌/◌, ◌%◌, ◌≤◌, ◌<◌, Bool, true, false, [], ◌∷◌, Option, none, some, ◌≡◌,
  refl, ◌==◌, length, get_or, Bytes, arith,
}
use stackchan_atoms3r.Base.Search.{all_below, agree_below, agree_below_two}
use stackchan_atoms3r.Domain.Base64.{
  base64_decoded_size, first_byte, second_byte, third_byte, decode_group, decode_groups,
  base64_decode,
}

or_table_2 : all_below 64 (λ a. all_below 4 (λ b. bit_or (a * 4) b == a * 4 + b)) ≡ true
unfolding all_below
or_table_2 = refl

or_table_4 : all_below 16 (λ a. all_below 16 (λ b. bit_or (a * 16) b == a * 16 + b)) ≡ true
unfolding all_below
or_table_4 = refl

or_table_6 : all_below 4 (λ a. all_below 64 (λ b. bit_or (a * 64) b == a * 64 + b)) ≡ true
unfolding all_below
or_table_6 = refl

and_table_4 : all_below 64 (λ a. bit_and a 0x0F == a % 16) ≡ true
unfolding all_below
and_table_4 = refl

and_table_2 : all_below 64 (λ a. bit_and a 0x03 == a % 4) ≡ true
unfolding all_below
and_table_2 = refl

pub first_byte_lem : (a b : ℕ) → a < 64 → b < 64 → first_byte a b ≡ a * 4 + b / 16
unfolding first_byte
first_byte_lem a b h k = omega (
  arith,
  agree_below_two 64 4 (λ x y. bit_or (x * 4) y) (λ x y. x * 4 + y) a (b / 16) or_table_2 h
      (omega arith),
)

pub second_byte_lem : (a b : ℕ) → a < 64 → b < 64 → second_byte a b ≡ a % 16 * 16 + b / 4
unfolding second_byte
second_byte_lem a b h k = rw (agree_below 64 (λ x. bit_and x 0x0F) (λ x. x % 16) a and_table_4 h) (
    omega (
      arith,
      agree_below_two 16 16 (λ x y. bit_or (x * 16) y) (λ x y. x * 16 + y) (a % 16) (b / 4)
          or_table_4 (omega arith) (omega arith),
    ))

pub third_byte_lem : (a b : ℕ) → a < 64 → b < 64 → third_byte a b ≡ a % 4 * 64 + b
unfolding third_byte
third_byte_lem a b h k = rw (agree_below 64 (λ x. bit_and x 0x03) (λ x. x % 4) a and_table_2 h) (
    omega (
      arith,
      agree_below_two 4 64 (λ x y. bit_or (x * 64) y) (λ x y. x * 64 + y) (a % 4) b or_table_6
          (omega arith) k,
    ))

-- The last character of a group with groups behind it is the last of those.
last_of_group :
    (a b c d e k : ℕ) (rest : Bytes)
    → k < 4
    → k ≤ length rest
    → get_or (a ∷ b ∷ c ∷ d ∷ e ∷ rest) (length (a ∷ b ∷ c ∷ d ∷ e ∷ rest) - suc k) 0
      ≡ get_or (e ∷ rest) (length (e ∷ rest) - suc k) 0
last_of_group a b c d e k rest h l =
    let n : length (a ∷ b ∷ c ∷ d ∷ e ∷ rest) - suc k ≡ suc (suc (suc (suc (length rest - k)))) =
      omega arith in
    let m : length (e ∷ rest) - suc k ≡ length rest - k = omega arith in rw (n, m)

-- A group with others behind it gives three bytes.
decode_group_inner :
    (c0 c1 c2 c3 : ℕ) (others : Option Bytes) (bs : Bytes)
    → decode_group c0 c1 c2 c3 false others ≡ some bs
    → (os : Bytes) × (others ≡ some os) × (length bs ≡ length os + 3)
unfolding decode_group
decode_group_inner c0 c1 c2 c3 none bs e = absurd (ground arith)
decode_group_inner c0 c1 c2 c3 (some os) bs e = (os, refl, ground arith)

decode_group_last :
    (c0 c1 c2 c3 : ℕ) (bs : Bytes)
    → decode_group c0 c1 c2 c3 true (some []) ≡ some bs
    → base64_decoded_size (c0 ∷ c1 ∷ c2 ∷ c3 ∷ []) ≡ some (length bs)
unfolding decode_group base64_decoded_size
decode_group_last c0 c1 c2 c3 bs e = ground arith

decoded_size_group :
    (c0 c1 c2 c3 d n : ℕ) (rest : Bytes)
    → base64_decoded_size (d ∷ rest) ≡ some n
    → base64_decoded_size (c0 ∷ c1 ∷ c2 ∷ c3 ∷ d ∷ rest) ≡ some (n + 3)
unfolding base64_decoded_size
decoded_size_group c0 c1 c2 c3 d n rest e = ground (
  arith,
  last_of_group c0 c1 c2 c3 d 0 rest (omega arith) (omega arith),
  last_of_group c0 c1 c2 c3 d 1 rest (omega arith),
)

-- How many bytes the loop writes is the size computed beforehand.
pub decode_groups-size :
    (text bs : Bytes) → decode_groups text ≡ some bs → base64_decoded_size text ≡ some (length bs)
unfolding decode_groups
decode_groups-size [] bs e = unfold base64_decoded_size in ground arith
decode_groups-size (c0 ∷ c1 ∷ c2 ∷ c3 ∷ []) bs e = decode_group_last c0 c1 c2 c3 bs e
decode_groups-size (c0 ∷ c1 ∷ c2 ∷ c3 ∷ d ∷ rest) bs e =
    let (os, f, l) = decode_group_inner c0 c1 c2 c3 (decode_groups (d ∷ rest)) bs e in
    rw l (decoded_size_group c0 c1 c2 c3 d (length os) rest (decode_groups-size (d ∷ rest) os f))
decode_groups-size _ bs e = cc

-- A successful decoding never writes past the end of its buffer: it gives exactly the number of bytes
-- that `base64_decoded_size` promises, and no more than the capacity.
pub base64_decode-bounded :
    (text : Bytes) (out_null : Bool) (capacity : ℕ) (bs : Bytes)
    → base64_decode text out_null capacity ≡ some bs
    → (base64_decoded_size text ≡ some (length bs)) × (length bs ≤ capacity)
unfolding base64_decode
base64_decode-bounded [] out_null capacity bs e = unfold base64_decoded_size in ground arith
base64_decode-bounded (c ∷ text) out_null capacity bs e =
    ground (arith, decode_groups-size (c ∷ text) bs)
