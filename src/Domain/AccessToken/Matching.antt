-- ===== src/Domain/AccessToken/Matching.antt =====
-- The accumulated difference is zero exactly if nothing differs.
use Prim.Native.Nat.{bit_or, bit_xor}
use native.Mathlib.Nat.{mod-eq_of_lt}
use stackchan_atoms3r.Base.{
  ℕ, zero, suc, ◌+◌, ◌%◌, ◌<◌, true, ◌&&◌, [], ◌∷◌, ◌≡◌, ◌↔◌, refl, ap, sym, ◌∙◌, ◌==◌,
  if◌then◌else◌, length, get_or, drop, within, Bytes, IsBytes, arith, Bool-cases, inl, inr,
}
use mathlib.Core.Bool.{beq}
use stackchan_atoms3r.Base.Search.{all_below, all_below_sound}
use stackchan_atoms3r.Domain.AccessToken.{
  token_length, from_text, presented_at, difference_from, matches,
}

xor_table : all_below 256 (λ a. all_below 256 (λ b. beq (bit_xor a b == 0) (a == b))) ≡ true
unfolding all_below
xor_table = refl

or_table :
    all_below 256 (λ a.
      all_below 256 (λ b. beq (bit_or a b == 0) (a == 0 && b == 0) && within 0 255 (bit_or a b)))
    ≡ true
unfolding all_below
or_table = refl

xor_bound_table : all_below 256 (λ a. all_below 256 (λ b. within 0 255 (bit_xor a b))) ≡ true
unfolding all_below
xor_bound_table = refl

xor_lem : (a b : ℕ) → a < 256 → b < 256 → ((bit_xor a b ≡ 0) ↔ (a ≡ b)) × (bit_xor a b < 256)
xor_lem a b h k =
    let zero_if = all_below_sound 256 _ b (all_below_sound 256 _ a xor_table h) k in
    let bound = all_below_sound 256 _ b (all_below_sound 256 _ a xor_bound_table h) k in
    (ground (arith, zero_if), ground (arith, bound))

or_lem :
    (a b : ℕ) → a < 256 → b < 256 → ((bit_or a b ≡ 0) ↔ ((a ≡ 0) × (b ≡ 0))) × (bit_or a b < 256)
or_lem a b h k =
    let zero_if = all_below_sound 256 _ b (all_below_sound 256 _ a or_table h) k in
    (ground (arith, zero_if), ground (arith, zero_if))

get_or-IsBytes : (xs : Bytes) (i : ℕ) → IsBytes xs → get_or xs i 0 < 256
get_or-IsBytes [] i h = omega arith
get_or-IsBytes (x ∷ xs) zero h = h.0
get_or-IsBytes (x ∷ xs) (suc i) h = get_or-IsBytes xs i h.1

presented_at-IsBytes : (p : Bytes) (i : ℕ) → IsBytes p → presented_at p i < 256
presented_at-IsBytes [] i h = omega arith
presented_at-IsBytes (c ∷ cs) i h = get_or-IsBytes (c ∷ cs) (i % length (c ∷ cs)) h

presented_at-get_or : (p : Bytes) (i : ℕ) → i < length p → presented_at p i ≡ get_or p i 0
presented_at-get_or [] i h = refl
presented_at-get_or (c ∷ cs) i h = ap (λ n. get_or (c ∷ cs) n 0) (mod-eq_of_lt h)

drop-get_or : (p : Bytes) (i : ℕ) → i < length p → drop i p ≡ get_or p i 0 ∷ drop (i + 1) p
drop-get_or [] i h = absurd (omega arith)
drop-get_or (x ∷ xs) zero h = refl
drop-get_or (x ∷ xs) (suc i) h =
    let e : suc i + 1 ≡ suc (i + 1) = omega arith in
    drop-get_or xs i (omega arith) ∙ ap (λ n. get_or xs i 0 ∷ drop n (x ∷ xs)) (sym e)

-- A difference once found stays.
difference_stays :
    (i : ℕ) (rest p : Bytes) (d : ℕ)
    → d < 256
    → IsBytes rest
    → IsBytes p
    → difference_from i rest p d ≡ 0
    → d ≡ 0
unfolding difference_from
difference_stays i [] p d b h k e = e
difference_stays i (x ∷ xs) p d b h k e =
    let differs = xor_lem x (presented_at p i) h.0 (presented_at-IsBytes p i k) in
    let joined = or_lem d (bit_xor x (presented_at p i)) b differs.1 in
    (joined.0.0 (difference_stays (i + 1) xs p _ joined.1 h.1 k e)).0

drop_all : (p : Bytes) → drop (length p) p ≡ []
drop_all [] = refl
drop_all (x ∷ xs) = drop_all xs

cons_inj : (x y : ℕ) (xs ys : Bytes) → x ∷ xs ≡ y ∷ ys → (x ≡ y) × (xs ≡ ys)
cons_inj x y xs ys e = (cc e, cc e)

difference_none :
    (i : ℕ) (rest p : Bytes)
    → IsBytes rest
    → IsBytes p
    → i + length rest ≡ length p
    → (difference_from i rest p 0 ≡ 0) ↔ (rest ≡ drop i p)
unfolding difference_from
difference_none i [] p h k size =
    let e : i ≡ length p = omega (arith, size) in
    let gone = sym (drop_all p) ∙ ap (λ n. drop n p) (sym e) in (λ _. gone, λ _. refl)
difference_none i (x ∷ xs) p h k size =
    let inside : i < length p = omega (arith, size) in
    let here = presented_at-get_or p i inside in
    let behind = drop-get_or p i inside in
    let y = bit_xor x (presented_at p i) in
    let differs = xor_lem x (presented_at p i) h.0 (presented_at-IsBytes p i k) in
    let joined = or_lem 0 y (omega arith) differs.1 in
    let others = difference_none (i + 1) xs p h.1 k (omega (arith, size)) in
    (
      λ e.
          let none_yet = difference_stays (i + 1) xs p (bit_or 0 y) joined.1 h.1 k e in
          let same = differs.0.0 ((joined.0.0 none_yet).1) ∙ here in
          let same_rest = others.0 (sym (ap (difference_from (i + 1) xs p) none_yet) ∙ e) in
          cc (same, same_rest, behind),
      λ e.
          let parts = cons_inj x (get_or p i 0) xs (drop (i + 1) p) (e ∙ behind) in
          let none_yet = joined.0.1 (refl, differs.0.1 (parts.0 ∙ sym here)) in
          ap (difference_from (i + 1) xs p) none_yet ∙ others.1 parts.1,
    )

matches_loop :
    (text presented : Bytes)
    → IsBytes text
    → IsBytes presented
    → length text ≡ token_length
    → ((difference_from 0 text presented (if length presented == token_length then 0 else 1) == 0)
        ≡ true)
      ↔ (text ≡ presented)
matches_loop text presented h k size = elim (Bool-cases (length presented == token_length)) [
  | inl e ↦ rw e (
      let same = difference_none 0 text presented h k (ground (arith, e, size)) in
      (λ z. same.0 (ground (arith, z)), λ q. let z = same.1 q in ground (arith, z)))
  | inr e ↦ rw e (
    (λ z. absurd (
        let one = difference_stays 0 text presented 1 (omega arith) h k (ground (arith, z)) in
        omega (arith, one))),
    λ q. absurd (let n = ap length q in ground (arith, n, e, size)),
  )
]

-- A token made from a text matches exactly that text, and only if the text has the length of a token;
-- made from any other text it matches nothing.
pub matches-from_text :
    (text presented : Bytes)
    → IsBytes text
    → IsBytes presented
    → (matches (from_text text) presented ≡ true)
      ↔ ((length text ≡ token_length) × (text ≡ presented))
unfolding matches from_text
matches-from_text text presented h k = elim (Bool-cases (length text == token_length)) [
  | inl e ↦ rw e (
      let loop = matches_loop text presented h k (ground (arith, e)) in
      (λ m. (ground (arith, e), loop.0 m), λ q. loop.1 q.1))
  | inr e ↦ rw e ((λ m. absurd (ground (arith, m))), λ q. absurd (ground (arith, e, q)))
]
