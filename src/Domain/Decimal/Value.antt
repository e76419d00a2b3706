-- ===== src/Domain/Decimal/Value.antt =====
-- The digits stand for the number.
use mathlib.Core.List.{reverse, reverse-cons}
use native.Mathlib.Nat.{pow-suc}
use stackchan_atoms3r.Base.{
  ℕ, zero, suc, ◌+◌, ◌-◌, ◌*◌, ◌/◌, ◌^◌, ◌≤◌, ◌<◌, [], ◌∷◌, ◌++◌, ◌≡◌, refl, ◌==◌, Bool-cases, inl,
  inr, Bytes, All, All-append, length, length-append, arith,
}
use stackchan_atoms3r.Base.Words.{u64_mod}
use stackchan_atoms3r.Domain.Decimal.{reversed_digits, decimal}

-- A decimal digit.
abbrev pub IsDigit : ℕ → Type 0
IsDigit c = (b'0' ≤ c) × (c ≤ b'9')

-- The number that a text of digits reads as, after those of `acc`.
abbrev pub read_digits : ℕ → Bytes → ℕ
read_digits acc [] = acc
read_digits acc (c ∷ cs) = read_digits (acc * 10 + (c - b'0')) cs

pub read_digits-append :
    (acc : ℕ) (a b : Bytes) → read_digits acc (a ++ b) ≡ read_digits (read_digits acc a) b
read_digits-append acc [] b = refl
read_digits-append acc (c ∷ a) b = read_digits-append (acc * 10 + (c - b'0')) a b

tenth_below : (fuel n : ℕ) → n < 10 ^ suc fuel → n / 10 < 10 ^ fuel
tenth_below fuel n h = let e = pow-suc 10 fuel in omega (arith, e)

read_digits-reversed :
    (fuel n : ℕ) → n < 10 ^ fuel → read_digits 0 (reverse (reversed_digits fuel n)) ≡ n
unfolding reversed_digits
read_digits-reversed zero n h = omega arith
read_digits-reversed (suc fuel) n h = elim (Bool-cases (n == 0)) [
  | inl e ↦ rw e (ground arith)
  | inr e ↦
      rw (e, reverse-cons, read_digits-append)
        (omega (arith, read_digits-reversed fuel (n / 10) (tenth_below fuel n h)))
]

reversed_digits-IsDigit : (fuel n : ℕ) → All IsDigit (reverse (reversed_digits fuel n))
unfolding reversed_digits
reversed_digits-IsDigit zero n = tt
reversed_digits-IsDigit (suc fuel) n = elim (Bool-cases (n == 0)) [
  | inl e ↦ rw e tt
  | inr e ↦
      rw (e, reverse-cons)
        (All-append IsDigit _ _ (reversed_digits-IsDigit fuel (n / 10))
          ((omega arith, omega arith), tt))
]

length-reversed_digits : (fuel n : ℕ) → length (reverse (reversed_digits fuel n)) ≤ fuel
unfolding reversed_digits
length-reversed_digits zero n = omega arith
length-reversed_digits (suc fuel) n = elim (Bool-cases (n == 0)) [
  | inl e ↦ rw e (omega arith)
  | inr e ↦
      rw (e, reverse-cons, length-append) (omega (arith, length-reversed_digits fuel (n / 10)))
]

pub decimal-IsDigit : (n : ℕ) → All IsDigit (decimal n)
unfolding decimal
decimal-IsDigit n = elim (Bool-cases (n == 0)) [
  | inl e ↦ rw e ((omega arith, omega arith), tt)
  | inr e ↦ rw e (reversed_digits-IsDigit 20 n)
]

pub decimal-nonempty : (n : ℕ) → 1 ≤ length (decimal n)
unfolding decimal reversed_digits
decimal-nonempty n = elim (Bool-cases (n == 0)) [
  | inl e ↦ rw e (omega arith)
  | inr e ↦ rw (e, reverse-cons, length-append) (omega arith)
]

-- The decimal text of a 64-bit number consists of digits, at most twenty of them, and reads as the
-- number.
pub decimal_lem :
    (n : ℕ)
    → n < u64_mod
    → All IsDigit (decimal n) × (length (decimal n) ≤ 20) × (read_digits 0 (decimal n) ≡ n)
unfolding decimal
decimal_lem n h = elim (Bool-cases (n == 0)) [
  | inl e ↦ rw e (((omega arith, omega arith), tt), omega arith, ground arith)
  | inr e ↦ rw e (
    reversed_digits-IsDigit 20 n,
    length-reversed_digits 20 n,
    read_digits-reversed 20 n (omega arith),
  )
]
