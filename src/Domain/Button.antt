-- ===== src/Domain/Button.antt =====
-- src/core/stackchan_domain/src/button.cpp: settling the contact of a mechanical button.
mod Settling
mod Examples
use stackchan_atoms3r.Base.{ℕ, Bool, true, false, not, List, [], ◌∷◌, ltb, if◌then◌else◌}
use mathlib.Core.Bool.{beq}
use stackchan_atoms3r.Clock.{elapsed}

pub data ButtonEdge : Type 0 where
  no_edge pressed released : ButtonEdge

pub record ButtonDebouncer : Type 0 where
  pub stable_ms : ℕ
  pub stable : Bool
  pub candidate : Bool
  pub candidate_since : ℕ
  pub stable_since : ℕ
  pub last_press_ms : ℕ
  pub started : Bool

pub make_debouncer : ℕ → ButtonDebouncer
make_debouncer stable_ms = record {
  stable_ms = stable_ms;
  stable = false;
  candidate = false;
  candidate_since = 0;
  stable_since = 0;
  last_press_ms = 0;
  started = false;
}

-- The end of `update`: the candidate has settled.
settle : ButtonDebouncer → ℕ → ButtonDebouncer × ButtonEdge
settle b now_ms = (
  record b {
    last_press_ms =
        if not b.candidate then elapsed b.stable_since b.candidate_since else b.last_press_ms;
    stable = b.candidate;
    stable_since = now_ms;
  },
  if b.candidate then pressed else released,
)

pub update : ButtonDebouncer → Bool → ℕ → ButtonDebouncer × ButtonEdge
unfolding settle
update b reading now_ms =
    if not b.started
    then (
      record b {
        started = true;
        stable = reading;
        candidate = reading;
        candidate_since = now_ms;
        stable_since = now_ms;
      },
      no_edge,
    )
    else if not (beq reading b.candidate)
    then (record b { candidate = reading; candidate_since = now_ms }, no_edge)
    else if beq b.candidate b.stable
    then (b, no_edge)
    else if ltb (elapsed b.candidate_since now_ms) b.stable_ms
    then (b, no_edge)
    else settle b now_ms

pub held_ms : ButtonDebouncer → ℕ → ℕ
held_ms b now_ms = if not b.stable then 0 else elapsed b.stable_since now_ms

-- Readings with their times, the latest first.
pub updates : ButtonDebouncer → List (Bool × ℕ) → ButtonDebouncer
updates b [] = b
updates b ((reading, now) ∷ rs) = (update (updates b rs) reading now).0
