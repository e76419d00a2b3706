-- ===== src/Domain/Base64/RoundTrip.antt =====
-- What `base64_decode` is for: it reads back what the standard encoding (RFC 4648) writes.
use stackchan_atoms3r.Base.{
  ℕ, ◌+◌, ◌-◌, ◌*◌, ◌/◌, ◌%◌, ◌≤◌, ◌<◌, Bool, true, false, [], ◌∷◌, some, ◌≡◌, ◌≢◌, ◌∙◌, refl, ltb,
  ◌==◌, if◌then◌else◌, length, Bytes, IsBytes, arith,
}
use stackchan_atoms3r.Domain.Base64.{value_of, is_empty, decode_group, decode_groups, base64_decode}
use stackchan_atoms3r.Domain.Base64.Groups.{
  first_byte_lem, second_byte_lem, third_byte_lem, decode_groups-size,
}

-- The alphabet.
pub char_of : ℕ → ℕ
char_of v =
    if ltb v 26
    then v + b'A'
    else if ltb v 52
    then v - 26 + b'a'
    else if ltb v 62
    then v - 52 + b'0'
    else if v == 62
    then b'+'
    else b'/'

-- The encoding: three bytes make four characters, and a shorter end is padded.
abbrev pub encode : Bytes → Bytes
encode [] = []
encode (a ∷ []) = char_of (a / 4) ∷ char_of (a % 4 * 16) ∷ b'=' ∷ b'=' ∷ []
encode (a ∷ b ∷ []) =
    char_of (a / 4) ∷ char_of (a % 4 * 16 + b / 16) ∷ char_of (b % 16 * 4) ∷ b'=' ∷ []
encode (a ∷ b ∷ c ∷ rest) =
    char_of (a / 4)
    ∷ char_of (a % 4 * 16 + b / 16)
    ∷ char_of (b % 16 * 4 + c / 64)
    ∷ char_of (c % 64)
    ∷ encode rest

value_of-char_of : (v : ℕ) → v < 64 → (value_of (char_of v) ≡ v) × (char_of v ≢ b'=')
unfolding value_of char_of
value_of-char_of v h = (ground arith, ground arith)

decode_group-full :
    (v0 v1 v2 v3 : ℕ) (last : Bool) (os : Bytes)
    → v0 < 64
    → v1 < 64
    → v2 < 64
    → v3 < 64
    → decode_group (char_of v0) (char_of v1) (char_of v2) (char_of v3) last (some os)
      ≡ some ((v0 * 4 + v1 / 16) ∷ (v1 % 16 * 16 + v2 / 4) ∷ (v2 % 4 * 64 + v3) ∷ os)
unfolding decode_group
decode_group-full v0 v1 v2 v3 last os h0 h1 h2 h3 = ground (
  arith,
  value_of-char_of v0 h0,
  value_of-char_of v1 h1,
  value_of-char_of v2 h2,
  value_of-char_of v3 h3,
  first_byte_lem v0 v1 h0 h1,
  second_byte_lem v1 v2 h1 h2,
  third_byte_lem v2 v3 h2 h3,
)

decode_group-two :
    (v0 v1 v2 : ℕ)
    → v0 < 64
    → v1 < 64
    → v2 < 64
    → decode_group (char_of v0) (char_of v1) (char_of v2) b'=' true (some [])
      ≡ some ((v0 * 4 + v1 / 16) ∷ (v1 % 16 * 16 + v2 / 4) ∷ [])
unfolding decode_group
decode_group-two v0 v1 v2 h0 h1 h2 = ground (
  arith,
  value_of-char_of v0 h0,
  value_of-char_of v1 h1,
  value_of-char_of v2 h2,
  first_byte_lem v0 v1 h0 h1,
  second_byte_lem v1 v2 h1 h2,
)

decode_group-one :
    (v0 v1 : ℕ)
    → v0 < 64
    → v1 < 64
    → decode_group (char_of v0) (char_of v1) b'=' b'=' true (some [])
      ≡ some ((v0 * 4 + v1 / 16) ∷ [])
unfolding decode_group
decode_group-one v0 v1 h0 h1 =
    ground (arith, value_of-char_of v0 h0, value_of-char_of v1 h1, first_byte_lem v0 v1 h0 h1)

-- Six bits each from three bytes, and the bytes back.
regroup :
    (a b c : ℕ) (os : Bytes)
    → a < 256
    → b < 256
    → c < 256
    → some (
        (a / 4 * 4 + (a % 4 * 16 + b / 16) / 16)
        ∷ ((a % 4 * 16 + b / 16) % 16 * 16 + (b % 16 * 4 + c / 64) / 4)
        ∷ ((b % 16 * 4 + c / 64) % 4 * 64 + c % 64)
        ∷ os)
      ≡ some (a ∷ b ∷ c ∷ os)
regroup a b c os ha hb hc = ground arith

decode_groups-encode : (bs : Bytes) → IsBytes bs → decode_groups (encode bs) ≡ some bs
unfolding decode_groups
decode_groups-encode [] h = refl
decode_groups-encode (a ∷ []) h =
    decode_group-one (a / 4) (a % 4 * 16) (omega arith) (omega arith) ∙ ground arith
decode_groups-encode (a ∷ b ∷ []) h =
    decode_group-two (a / 4) (a % 4 * 16 + b / 16) (b % 16 * 4) (omega arith) (omega arith)
      (omega arith)
    ∙ ground arith
decode_groups-encode (a ∷ b ∷ c ∷ rest) h = rw (decode_groups-encode rest h.1.1.1) (
    decode_group-full (a / 4) (a % 4 * 16 + b / 16) (b % 16 * 4 + c / 64) (c % 64) _ rest
      (omega arith) (omega arith) (omega arith) (omega arith)
    ∙ regroup a b c rest (omega arith) (omega arith) (omega arith))

decode_groups-is_empty : (text : Bytes) → is_empty text ≡ true → decode_groups text ≡ some []
unfolding decode_groups
decode_groups-is_empty [] h = refl
decode_groups-is_empty (c ∷ text) h = cc

-- Decoding what the standard encoding makes of any bytes gives the bytes back, whatever their number,
-- as soon as the buffer holds them.
pub base64_decode-encode :
    (bs : Bytes) (capacity : ℕ)
    → IsBytes bs
    → length bs ≤ capacity
    → base64_decode (encode bs) false capacity ≡ some bs
unfolding base64_decode
base64_decode-encode bs capacity h fits = ground (
  arith,
  decode_groups-encode bs h,
  decode_groups-size (encode bs) bs (decode_groups-encode bs h),
  decode_groups-is_empty (encode bs),
)
