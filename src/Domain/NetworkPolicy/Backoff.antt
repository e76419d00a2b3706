-- ===== src/Domain/NetworkPolicy/Backoff.antt =====
-- When a failed connection is tried again.
use native.Mathlib.Nat.{pow-suc}
use stackchan_atoms3r.Base.{
  ℕ, zero, suc, ◌+◌, ◌-◌, ◌*◌, ◌%◌, ◌^◌, ◌≤◌, ◌<◌, min, true, ◌&&◌, List, [], ◌∷◌, ◌≡◌, refl, leb,
  ◌==◌, length, arith,
}
use stackchan_atoms3r.Base.Words.{u32_mod}
use stackchan_atoms3r.Clock.{elapsed-add}
use stackchan_atoms3r.Domain.NetworkPolicy.{
  NetworkPolicy, next_backoff, on_failed, should_attempt, wait_remaining_ms,
}
use stackchan_atoms3r.Domain.NetworkPolicy.Bounds.{IsValid}

-- Failures at the given times, the latest first.
abbrev pub fail_all : NetworkPolicy → List ℕ → NetworkPolicy
fail_all p [] = p
fail_all p (t ∷ ts) = on_failed (fail_all p ts) t

fail_all_config :
    (p : NetworkPolicy) (ts : List ℕ)
    → ((fail_all p ts).first_backoff_ms ≡ p.first_backoff_ms)
      × ((fail_all p ts).max_backoff_ms ≡ p.max_backoff_ms)
      × ((fail_all p ts).provisioned ≡ p.provisioned)
unfolding on_failed
fail_all_config p [] = (refl, refl, refl)
fail_all_config p (t ∷ ts) = ground (arith, fail_all_config p ts)

backoff-on_failed :
    (p : NetworkPolicy) (t : ℕ)
    → p.provisioned ≡ true
    → (on_failed p t).backoff_ms ≡ next_backoff p.first_backoff_ms p.max_backoff_ms p.backoff_ms
unfolding on_failed
backoff-on_failed p t pr = ground arith

next_backoff_fresh : (first longest b : ℕ) → b ≡ 0 → next_backoff first longest b ≡ first
unfolding next_backoff
next_backoff_fresh first longest b e = ground arith

pow_pos : (k : ℕ) → 0 < 2 ^ k
pow_pos zero = omega arith
pow_pos (suc k) = omega (arith, pow-suc 2 k, pow_pos k)

next_backoff_doubles :
    (first longest k b : ℕ)
    → 0 < first
    → first ≤ longest
    → longest < u32_mod
    → b ≡ min (first * 2 ^ k) longest
    → next_backoff first longest b ≡ min (first * 2 ^ suc k) longest
unfolding next_backoff
next_backoff_doubles first longest k b h l w e =
    let twice : first * 2 ^ suc k ≡ first * 2 ^ k * 2 = rw pow-suc (omega arith) in
    let grown : first ≤ first * 2 ^ k = grind (arith, pow_pos k) in ground arith

-- From a well-formed policy with credentials and an interval of zero, after `k + 1` failures in a row,
-- whenever they happened, the interval is the first interval doubled `k` times, or the longest
-- interval if that is less, provided that the first interval is not above the longest. This holds
-- too where the product of the code leaves 32 bits and wraps.
pub backoff-fail_all :
    (p : NetworkPolicy) (t : ℕ) (ts : List ℕ)
    → IsValid p
    → p.provisioned ≡ true
    → p.backoff_ms ≡ 0
    → p.first_backoff_ms ≤ p.max_backoff_ms
    → (fail_all p (t ∷ ts)).backoff_ms ≡ min (p.first_backoff_ms * 2 ^ length ts) p.max_backoff_ms
backoff-fail_all p t [] v pr fresh le = ground (
  arith,
  backoff-on_failed p t pr,
  next_backoff_fresh p.first_backoff_ms p.max_backoff_ms p.backoff_ms fresh,
)
backoff-fail_all p t (u ∷ us) v pr fresh le =
    let before = fail_all p (u ∷ us) in
    let config = fail_all_config p (u ∷ us) in
    let step =
      next_backoff_doubles p.first_backoff_ms p.max_backoff_ms (length us) before.backoff_ms
        v.first_positive le v.max_word (backoff-fail_all p u us v pr fresh le) in
    ground (arith, step, config, backoff-on_failed before t)

-- After a failure at `t` the next attempt is allowed exactly when the interval has passed, wherever
-- the clock has wrapped to, provided that credentials are there; with guests on the access point
-- it is not allowed at all.
pub should_attempt-on_failed :
    (p : NetworkPolicy) (t e : ℕ)
    → p.provisioned ≡ true
    → t < u32_mod
    → e < u32_mod
    → should_attempt (on_failed p t) ((t + e) % u32_mod)
      ≡ (p.guests == 0 && leb (on_failed p t).backoff_ms e)
unfolding should_attempt on_failed
should_attempt-on_failed p t e pr ht he = ground (arith, elapsed-add t e)

-- Meanwhile `wait_remaining_ms` counts the interval down to zero.
pub wait_remaining_ms-on_failed :
    (p : NetworkPolicy) (t e : ℕ)
    → p.provisioned ≡ true
    → t < u32_mod
    → e < u32_mod
    → wait_remaining_ms (on_failed p t) ((t + e) % u32_mod) ≡ (on_failed p t).backoff_ms - e
unfolding wait_remaining_ms on_failed should_attempt
wait_remaining_ms-on_failed p t e pr ht he = ground (arith, elapsed-add t e)
