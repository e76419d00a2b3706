-- ===== src/Domain/ButtonGesture.antt =====
-- src/core/stackchan_domain/src/button_gesture.cpp: presses counted into gestures.
mod Counting
mod Examples
use stackchan_atoms3r.Base.{
  ℕ, ◌+◌, Bool, true, false, not, ◌&&◌, List, [], ◌∷◌, ltb, leb, ◌==◌, if◌then◌else◌,
}
use stackchan_atoms3r.Clock.{elapsed}
use stackchan_atoms3r.Domain.Button.{ButtonEdge, no_edge, pressed, released}

-- `GestureKind` and the click count that only `clicks` carries.
pub data Gesture : Type 0 where
  no_gesture hold : Gesture
  clicks : ℕ → Gesture

pub record ButtonGesture : Type 0 where
  pub window_ms : ℕ
  pub hold_ms : ℕ
  pub is_down : Bool
  pub hold_reported : Bool
  pub pressed_since : ℕ
  pub click_count : ℕ
  pub window_since : ℕ

pub make_gesture : ℕ → ℕ → ButtonGesture
make_gesture multi_click_window_ms hold_ms = record {
  window_ms = multi_click_window_ms;
  hold_ms = hold_ms;
  is_down = false;
  hold_reported = false;
  pressed_since = 0;
  click_count = 0;
  window_since = 0;
}

-- The first part of `update`: what the edge changes.
pub note_edge : ButtonGesture → ButtonEdge → ℕ → ButtonGesture
note_edge g no_edge now_ms = g
note_edge g pressed now_ms = record g {
  is_down = true;
  hold_reported = false;
  pressed_since = now_ms;
  window_since = if g.click_count == 0 then now_ms else g.window_since;
  click_count = if ltb g.click_count 255 then g.click_count + 1 else g.click_count;
}
note_edge g released now_ms = record g { is_down = false }

-- The second part: what the time decides.
pub judge : ButtonGesture → ℕ → ButtonGesture × Gesture
judge g now_ms =
    if g.is_down && (not g.hold_reported && leb g.hold_ms (elapsed g.pressed_since now_ms))
    then (record g { hold_reported = true; click_count = 0 }, hold)
    else if ltb 0 g.click_count && leb g.window_ms (elapsed g.window_since now_ms)
    then (record g { click_count = 0 }, clicks g.click_count)
    else (g, no_gesture)

pub update_gesture : ButtonGesture → ButtonEdge → ℕ → ButtonGesture × Gesture
update_gesture g edge now_ms = judge (note_edge g edge now_ms) now_ms

-- Edges with their times, the latest first; the gestures come out in the same order.
pub gestures : ButtonGesture → List (ButtonEdge × ℕ) → ButtonGesture × List Gesture
gestures g [] = (g, [])
gestures g ((edge, now) ∷ es) =
    let before = gestures g es in
    let after = update_gesture before.0 edge now in (after.0, after.1 ∷ before.1)
