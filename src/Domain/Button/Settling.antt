-- ===== src/Domain/Button/Settling.antt =====
-- An edge is a settled change, and nothing else is.
use mathlib.Core.Bool.{beq}
use stackchan_atoms3r.Base.{
  ℕ, ◌+◌, ◌%◌, ◌≤◌, ◌<◌, Bool, true, false, List, [], ◌∷◌, ◌≡◌, ◌≢◌, ◌↔◌, refl, if◌then◌else◌,
  arith,
}
use stackchan_atoms3r.Base.Words.{u32_mod}
use stackchan_atoms3r.Clock.{elapsed, elapsed-add}
use stackchan_atoms3r.Domain.Button.{
  ButtonDebouncer, no_edge, pressed, released, make_debouncer, update, updates,
}

-- The edges are the changes of the settled state after the first reading: `pressed` is reported
-- exactly when it goes from up to down, `released` exactly when it goes from down to up, and
-- the first reading reports none.
pub update-edge :
    (b : ButtonDebouncer) (reading : Bool) (now : ℕ)
    → ((update b reading now).1 ≡ pressed
        ↔ ((b.started ≡ true) × (b.stable ≡ false) × ((update b reading now).0.stable ≡ true)))
      × ((update b reading now).1 ≡ released
          ↔ ((b.started ≡ true) × (b.stable ≡ true) × ((update b reading now).0.stable ≡ false)))
unfolding update
update-edge b reading now =
    ((λ h. ground arith, λ h. ground arith), (λ h. ground arith, λ h. ground arith))

-- The reading at the head of a history, and the time of the earliest reading of the unbroken
-- series of equal readings that it ends.
abbrev pub latest : List (Bool × ℕ) → Bool
latest [] = false
latest ((r, t) ∷ rs) = r

abbrev pub steady_since : List (Bool × ℕ) → ℕ
steady_since [] = 0
steady_since ((r, t) ∷ []) = t
steady_since ((r, t) ∷ (q, u) ∷ rs) = if beq r q then steady_since ((q, u) ∷ rs) else t

update_tracks :
    (b : ButtonDebouncer) (r : Bool) (t : ℕ)
    → b.started ≡ true
    → let c = (update b r t).0 in
      (c.stable_ms ≡ b.stable_ms)
      × (c.started ≡ true)
      × (c.candidate ≡ r)
      × (c.candidate_since ≡ (if beq r b.candidate then b.candidate_since else t))
unfolding update
update_tracks b r t h = (ground arith, ground arith, ground arith, ground arith)

updates_config :
    (ms : ℕ) (r : Bool) (t : ℕ) (rs : List (Bool × ℕ))
    → let b = updates (make_debouncer ms) ((r, t) ∷ rs) in
      (b.stable_ms ≡ ms)
      × (b.started ≡ true)
      × (b.candidate ≡ r)
      × (b.candidate_since ≡ steady_since ((r, t) ∷ rs))
unfolding updates
updates_config ms r t [] = unfold make_debouncer update in (refl, refl, refl, refl)
updates_config ms r t ((q, u) ∷ rs) =
    ground (
      arith,
      updates_config ms q u rs,
      update_tracks (updates (make_debouncer ms) ((q, u) ∷ rs)) r t,
    )

-- After any history of readings that is not empty, the next reading is an edge exactly when it
-- agrees with the last one, disagrees with the settled state, and the contact has read the same
-- for at least the settling time.
pub update-updates :
    (ms : ℕ) (r : Bool) (t : ℕ) (rs : List (Bool × ℕ)) (reading : Bool) (now : ℕ)
    → let b = updates (make_debouncer ms) ((r, t) ∷ rs) in
      ((update b reading now).1 ≢ no_edge)
      ↔ ((reading ≡ r) × (reading ≢ b.stable) × (ms ≤ elapsed (steady_since ((r, t) ∷ rs)) now))
unfolding update
update-updates ms r t rs reading now =
    (λ h. ground (arith, updates_config ms r t rs), λ h. ground (arith, updates_config ms r t rs))

-- A clean press: the contact closes at `down` and reads closed `e` milliseconds later, when it
-- settles; it opens at `up` and settles at `later`. The press is measured from the time at which
-- it settled to the time at which the contact opened, so it comes out `e` too short.
pub last_press_from_settling :
    (ms down e up later : ℕ)
    → ms ≤ e
    → down < u32_mod
    → e < u32_mod
    → up < u32_mod
    → ms ≤ elapsed up later
    → (updates (make_debouncer ms) (
        (false, later)
        ∷ (false, up)
        ∷ (true, (down + e) % u32_mod)
        ∷ (true, down)
        ∷ (false, 0)
        ∷ [])).last_press_ms
      ≡ elapsed ((down + e) % u32_mod) up
unfolding updates make_debouncer update
last_press_from_settling ms down e up later h hd he hu hl = ground (arith, elapsed-add down e)
