-- ===== src/Domain/JsonScan/Integers.antt =====
-- `json_find_integer` on what the writer's `value(std::int64_t)` wrote.
use stackchan_atoms3r.Base.{
  ℕ, suc, ◌+◌, ◌-◌, ◌*◌, ◌≤◌, ◌<◌, [], ◌∷◌, ◌++◌, some, ◌≡◌, refl, ltb, if◌then◌else◌, length,
  Bytes, arith, ◌∙◌, ap, bytes_eq, bytes_eq_refl, bytes_eq_iff, Bool-cases, inl, inr, ◌≢◌, All,
}
use stackchan_atoms3r.Base.Int.{ℤ, pos, negsuc, neg_ℕ}
use stackchan_atoms3r.Base.Words.{u64_mod}
use stackchan_atoms3r.Domain.Decimal.{decimal}
use stackchan_atoms3r.Domain.Decimal.Value.{
  IsDigit, read_digits, decimal_lem, decimal-IsDigit, decimal-nonempty,
}
use stackchan_atoms3r.Domain.JsonWriter.Document.{
  integer, object, Members, end, member, escape, signed_decimal, render,
}
use stackchan_atoms3r.Domain.JsonScan.{
  ValueKind, integer_found, undefined, parsed, int64_bound, integer_digits, integer_of,
  json_find_integer, unsigned,
}
use stackchan_atoms3r.Domain.JsonScan.Found.{lookup, find_member-render}

read_digits_grows : (v : ℕ) (ds : Bytes) → v ≤ read_digits v ds
read_digits_grows v [] = omega arith
read_digits_grows v (d ∷ ds) = omega (arith, read_digits_grows (v * 10 + (d - b'0')) ds)

integer_digits-read_digits :
    (v : ℕ) (ds : Bytes)
    → All IsDigit ds
    → v < int64_bound
    → integer_digits v ds
      ≡ (if ltb (read_digits v ds) int64_bound then parsed (read_digits v ds) else undefined)
unfolding integer_digits
integer_digits-read_digits v [] h l = ground arith
integer_digits-read_digits v (d ∷ ds) h l =
    let next = v * 10 + (d - b'0') in
    ground (arith, h.0, read_digits_grows next ds, integer_digits-read_digits next ds h.1)

abbrev pub magnitude : ℤ → ℕ
magnitude (pos n) = n
magnitude (negsuc n) = n + 1

unsigned-digits :
    (sign : ℕ → ℤ) (ds : Bytes)
    → 1 ≤ length ds
    → All IsDigit ds
    → unsigned sign ds
      ≡ (if ltb (read_digits 0 ds) int64_bound then parsed (sign (read_digits 0 ds)) else undefined)
unsigned-digits sign [] l h = absurd (omega arith)
unsigned-digits sign (d ∷ ds) l h =
    rw (integer_digits-read_digits 0 (d ∷ ds) h (omega arith)) (ground arith)

unsigned-decimal :
    (sign : ℕ → ℤ) (n : ℕ)
    → n < u64_mod
    → unsigned sign (decimal n) ≡ (if ltb n int64_bound then parsed (sign n) else undefined)
unsigned-decimal sign n h =
    unsigned-digits sign (decimal n) (decimal-nonempty n) (decimal-IsDigit n)
    ∙ rw ((decimal_lem n h).2) refl

integer_of-IsDigit : (ds : Bytes) → All IsDigit ds → integer_of ds ≡ unsigned pos ds
unfolding integer_of
integer_of-IsDigit [] h = refl
integer_of-IsDigit (d ∷ ds) h = ground (arith, h.0)

neg_ℕ_suc : (n : ℕ) → neg_ℕ (n + 1) ≡ negsuc n
neg_ℕ_suc n = let e : n + 1 ≡ suc n = omega arith in ap neg_ℕ e

pub integer_of-signed_decimal :
    (z : ℤ)
    → magnitude z < u64_mod
    → integer_of (signed_decimal z)
      ≡ (if ltb (magnitude z) int64_bound then parsed z else undefined)
unfolding signed_decimal
integer_of-signed_decimal (pos n) h =
    integer_of-IsDigit (decimal n) (decimal-IsDigit n) ∙ unsigned-decimal pos n h
integer_of-signed_decimal (negsuc n) h =
    unfold integer_of in
    (unsigned-decimal neg_ℕ (n + 1) h
      ∙ ap (λ z. if ltb (n + 1) int64_bound then parsed z else undefined) (neg_ℕ_suc n))

-- Members, and then others.
abbrev pub join : Members → Members → Members
join end ms = ms
join (member k x before) ms = member k x (join before ms)

-- None of the members has the key, as it is compared: behind the escapes.
abbrev pub Lacks : Bytes → Members → Type 0
Lacks key end = Unit
Lacks key (member k x ms) = (escape k ≢ key) × Lacks key ms

found_there :
    (k : Bytes) (z : ℤ) (before behind : Members)
    → Lacks (escape k) before
    → lookup (escape k) (join before (member k (integer z) behind))
      ≡ some (signed_decimal z, ValueKind.number)
unfolding lookup render
found_there k z end behind h = rw (bytes_eq_refl (escape k)) refl
found_there k z (member j x before) behind h =
    let others = found_there k z before behind h.1 in
    elim (Bool-cases (bytes_eq (escape j) (escape k))) [
      | inl e ↦ absurd (h.0 ((bytes_eq_iff (escape j) (escape k)).0 e))
      | inr e ↦ rw e others
    ]

-- An integer of at most 64 bits that the writer wrote into an object, behind any members that have
-- another key and in front of any members at all, is read back by its key if its size is below 2^63.
-- From 2^63 on, the least 64-bit integer included, the source's computation is not defined.
pub json_find_integer-render :
    (k rest : Bytes) (z : ℤ) (before behind : Members)
    → magnitude z < u64_mod
    → Lacks (escape k) before
    → json_find_integer
        (render (object (join before (member k (integer z) behind))) ++ rest)
        (escape k)
      ≡ (if ltb (magnitude z) int64_bound then parsed z else undefined)
unfolding json_find_integer
json_find_integer-render k rest z before behind h lacks =
    let ms = join before (member k (integer z) behind) in
    let found = find_member-render ms (escape k) rest in
    ap integer_found (found ∙ found_there k z before behind lacks) ∙ integer_of-signed_decimal z h
