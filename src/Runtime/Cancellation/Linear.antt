-- ===== src/Runtime/Cancellation/Linear.antt =====
-- The concurrent calls have the effect of the same calls made one after the other.
use stackchan_atoms3r.Base.{
  ℕ, Bool, true, false, List, [], ◌∷◌, some, ◌≡◌, refl, subst, ltb, if◌then◌else◌, get_elem?, set,
  some_inj, arith, Option-cases, inl, inr, All, zero, suc,
}
use stackchan_atoms3r.Runtime.Cancellation.{
  CancelReason, no_reason, timeout, requested, emergency_stop, gravity, Call, cancel, reset,
  clear_emergency, Pc, start, cancel_loop, reset_loop, returned, advance, System, finished, step,
  run,
}

-- What each call promises, in one indivisible step: the graver reason wins; a reset clears the
-- two lighter reasons; only `clear_emergency` releases an emergency stop, and it does nothing else.
abbrev pub effect : Call → CancelReason → CancelReason
effect (cancel r) s = if ltb (gravity s) (gravity r) then r else s
effect reset timeout = no_reason
effect reset requested = no_reason
effect reset s = s
effect clear_emergency emergency_stop = no_reason
effect clear_emergency s = s

-- The effects of a history, whose last call stands first.
abbrev pub effects : List Call → CancelReason → CancelReason
effects [] s = s
effects (c ∷ cs) s = effect c (effects cs s)

-- A value held in a loop is one that the loop's test let through.
abbrev pub IsSound : Pc → Type 0
IsSound (cancel_loop r cur) = ltb (gravity cur) (gravity r) ≡ true
IsSound (reset_loop cur) = effect reset cur ≡ no_reason
IsSound _ = Unit

-- What one access of a call does to the shared word: the whole effect of the call if the call
-- returns by it, and nothing otherwise.
advance-effect :
    (spurious : Bool) (s : CancelReason) (pc : Pc) (h : List Call) (s₀ : CancelReason)
    → IsSound pc
    → s ≡ effects h s₀
    → ((advance spurious s pc).0 ≡ effects (finished pc (advance spurious s pc).1 h) s₀)
      × IsSound (advance spurious s pc).1
unfolding advance
advance-effect spurious s (start (cancel r)) h s₀ i e = (ground arith, ground arith)
advance-effect spurious s (start reset) h s₀ i e = (ground arith, ground arith)
advance-effect spurious s (start clear_emergency) h s₀ i e = (ground arith, ground arith)
advance-effect spurious s (cancel_loop r c) h s₀ i e = (ground arith, ground arith)
advance-effect spurious s (reset_loop c) h s₀ i e = (ground arith, ground arith)
advance-effect spurious s (returned c) h s₀ i e = (e, tt)

-- A call that moves twice with nobody between, and meets no spurious failure, has returned.
pub advance-returns :
    (s : CancelReason) (pc : Pc)
    → let (t, pc') = advance false s pc in (c : Call) × ((advance false t pc').1 ≡ returned c)
unfolding advance
advance-returns s (start c) = (c, ground arith)
advance-returns s (cancel_loop r c) = (cancel r, ground arith)
advance-returns s (reset_loop c) = (reset, ground arith)
advance-returns s (returned c) = (c, refl)

All-set_IsSound :
    (pcs : List Pc) (i : ℕ) (pc : Pc) → All IsSound pcs → IsSound pc → All IsSound (set pcs i pc)
All-set_IsSound [] i pc h k = tt
All-set_IsSound (x ∷ pcs) zero pc h k = (k, h.1)
All-set_IsSound (x ∷ pcs) (suc i) pc h k = (h.0, All-set_IsSound pcs i pc h.1 k)

get_elem?-IsSound :
    (pcs : List Pc) (i : ℕ) (pc : Pc) → All IsSound pcs → get_elem? pcs i ≡ some pc → IsSound pc
get_elem?-IsSound [] i pc h e = cc
get_elem?-IsSound (x ∷ pcs) zero pc h e = subst IsSound (some_inj e) h.0
get_elem?-IsSound (x ∷ pcs) (suc i) pc h e = get_elem?-IsSound pcs i pc h.1 e

pub record IsLinear (s₀ : CancelReason) (s : System) : Type 0 where
  pub shared_is : s.shared ≡ effects s.history s₀
  pub sound : All IsSound s.calls

step-IsLinear :
    (s₀ : CancelReason) (s : System) (e : ℕ × Bool) → IsLinear s₀ s → IsLinear s₀ (step s e)
unfolding step
step-IsLinear s₀ s (i, spurious) l = elim (Option-cases (get_elem? s.calls i)) [
  | inl e ↦ rw (e, step) l
  | inr (pc, e) ↦
      let sound = get_elem?-IsSound s.calls i pc l.sound e in
      let moved = advance-effect spurious s.shared pc s.history s₀ sound l.shared_is in
      rw (e, step)
        (record { shared_is = moved.0; sound = All-set_IsSound s.calls i _ l.sound moved.1 })
]

pub run-IsLinear :
    (s₀ : CancelReason) (s : System) (es : List (ℕ × Bool)) → IsLinear s₀ s → IsLinear s₀ (run s es)
unfolding run
run-IsLinear s₀ s [] l = l
run-IsLinear s₀ s (e ∷ es) l = run-IsLinear s₀ (step s e) es (step-IsLinear s₀ s e l)

-- Calls that have not begun.
abbrev pub begun : List Call → List Pc
begun [] = []
begun (c ∷ cs) = start c ∷ begun cs

begun-IsSound : (cs : List Call) → All IsSound (begun cs)
begun-IsSound [] = tt
begun-IsSound (c ∷ cs) = ground (arith, begun-IsSound cs)

abbrev pub launch : CancelReason → List Call → System
launch s₀ cs = record { shared = s₀; calls = begun cs; history = [] }

-- Any calls, interleaved at their atomic accesses by any schedule and with any spurious failures,
-- leave the shared reason that the calls which have returned would leave if each had run alone,
-- in the order in which they returned.
pub run-effects :
    (s₀ : CancelReason) (cs : List Call) (es : List (ℕ × Bool))
    → (run (launch s₀ cs) es).shared ≡ effects (run (launch s₀ cs) es).history s₀
run-effects s₀ cs es =
    (run-IsLinear s₀ (launch s₀ cs) es
      (record { shared_is = refl; sound = begun-IsSound cs })).shared_is
