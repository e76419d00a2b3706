-- ===== src/Runtime/ReceiveExact/Filling.antt =====
-- The buffer is filled exactly when the pieces add up to it.
use stackchan_atoms3r.Base.{
  ℕ, zero, suc, ◌+◌, ◌-◌, ◌≤◌, ◌<◌, true, false, ltb, ◌≡◌, ◌≢◌, ◌↔◌, ◌⊎◌, inl, inr, refl, sym, ap,
  ◌∙◌, subst, arith, Bool-cases, if◌then◌else◌,
}
use stackchan_atoms3r.Base.Int.{ℤ, pos, negsuc}
use stackchan_atoms3r.Runtime.ReceiveExact.{
  ReceiveExactResult, complete, error, Piece, ended, piece, judge, receive_loop, receive_exact,
}

module _ (receive : ℕ → ℕ → ℤ) where
  -- The transport gives so much in pieces that fit, from the call with this number on.
  pub data Gives : ℕ → ℕ → Type 0 where
    nothing_left : (number : ℕ) → Gives number 0
    gives :
        (number left size : ℕ)
        → 1 ≤ size
        → size ≤ left
        → receive number left ≡ pos size
        → Gives (number + 1) (left - size)
        → Gives number left

  judge-piece :
      (z : ℤ) (room size : ℕ)
      → judge z room ≡ piece size
      → (z ≡ pos size) × (1 ≤ size) × (size ≤ room)
  unfolding judge
  judge-piece (negsuc n) room size h = absurd (ground (arith, h))
  judge-piece (pos zero) room size h = absurd (ground (arith, h))
  judge-piece (pos (suc n)) room size h = elim (Bool-cases (ltb room (suc n))) [
    | inl e ↦ absurd (ground (arith, h, e))
    | inr e ↦
        let same : piece (suc n) ≡ piece size =
          ap (λ b. if b then ended error else piece (suc n)) (sym e) ∙ h in
        let number : suc n ≡ size = cc in
        (ap pos number, omega (arith, number), ground (arith, e, number))
  ]

  judge-ended : (z : ℤ) (room : ℕ) (r : ReceiveExactResult) → judge z room ≡ ended r → r ≢ complete
  unfolding judge
  judge-ended (negsuc n) room r h = λ c. absurd (ground (arith, h, c))
  judge-ended (pos zero) room r h = λ c. absurd (ground (arith, h, c))
  judge-ended (pos (suc n)) room r h = λ c. absurd (ground (arith, h, c))

  judge-size : (room size : ℕ) → 1 ≤ size → size ≤ room → judge (pos size) room ≡ piece size
  unfolding judge
  judge-size room zero low high = absurd (omega (arith, low))
  judge-size room (suc n) low high = ground (arith, high)

  Piece-cases : (p : Piece) → ((r : ReceiveExactResult) × (p ≡ ended r)) ⊎ ((n : ℕ) × (p ≡ piece n))
  Piece-cases (ended r) = inl (r, refl)
  Piece-cases (piece n) = inr (n, refl)

  loop_ended :
      (fuel number expected received : ℕ) (r : ReceiveExactResult)
      → ltb received expected ≡ true
      → judge (receive number (expected - received)) (expected - received) ≡ ended r
      → receive_loop receive (suc fuel) number expected received ≡ r
  unfolding receive_loop
  loop_ended fuel number expected received r e f = rw (e, f, receive_loop) refl

  loop_piece :
      (fuel number expected received n : ℕ)
      → ltb received expected ≡ true
      → judge (receive number (expected - received)) (expected - received) ≡ piece n
      → receive_loop receive (suc fuel) number expected received
        ≡ receive_loop receive fuel (number + 1) expected (received + n)
  unfolding receive_loop
  loop_piece fuel number expected received n e f = rw (e, f, receive_loop) refl

  complete-Gives :
      (fuel number expected received : ℕ)
      → receive_loop receive fuel number expected received ≡ complete
      → Gives number (expected - received)
  unfolding receive_loop
  complete-Gives zero number expected received h = absurd (ground (arith, h))
  complete-Gives (suc fuel) number expected received h =
      let left = expected - received in
      elim (Bool-cases (ltb received expected)) [
        | inl e ↦ elim (Piece-cases (judge (receive number left) left)) [
          | inl (r, f) ↦ absurd (
              judge-ended (receive number left) left r f
                (sym (loop_ended fuel number expected received r e f) ∙ h))
          | inr (n, f) ↦
              let (given, low, high) = judge-piece (receive number left) left n f in
              let rest =
                complete-Gives fuel (number + 1) expected (received + n)
                  (sym (loop_piece fuel number expected received n e f) ∙ h) in
              let step : expected - (received + n) ≡ left - n = omega arith in
              gives number left n low high given (subst (Gives (number + 1)) step rest)
        ]
        | inr e ↦
            let none_left : 0 ≡ left = ground (arith, e) in
            subst (Gives number) none_left (nothing_left number)
      ]

  Gives-complete :
      (fuel number expected received left : ℕ)
      → Gives number left
      → left ≡ expected - received
      → left < fuel
      → receive_loop receive fuel number expected received ≡ complete
  unfolding receive_loop
  Gives-complete zero number expected received left g same enough = absurd (omega (arith, enough))
  Gives-complete (suc fuel) number expected received left (nothing_left n) same enough =
      let e : ltb received expected ≡ false = ground (arith, same) in rw (e, receive_loop) refl
  Gives-complete (suc fuel) number expected received left (gives n l size low high given rest) same
        enough =
      let e : ltb received expected ≡ true = ground (arith, same, low, high) in
      let found =
        ap (λ r. judge r (expected - received)) (ap (receive number) (sym same) ∙ given)
        ∙ judge-size (expected - received) size low (omega (arith, high, same)) in
      loop_piece fuel number expected received size e found
      ∙ Gives-complete fuel (number + 1) expected (received + size) (left - size) rest
          (omega (arith, same, high)) (omega (arith, enough, low, high))

  -- A buffer that is there is filled exactly if the pieces of the transport fit, and add up to it.
  pub receive_exact-complete :
      (expected : ℕ) → (receive_exact receive false expected ≡ complete) ↔ Gives 0 expected
  unfolding receive_exact
  receive_exact-complete expected =
      let whole : expected - 0 ≡ expected = omega arith in
      (
        λ h. subst (Gives 0) whole (complete-Gives (expected + 1) 0 expected 0 h),
        λ g. Gives-complete (expected + 1) 0 expected 0 expected g (sym whole) (omega arith),
      )
