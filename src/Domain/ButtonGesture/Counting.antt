-- ===== src/Domain/ButtonGesture/Counting.antt =====
-- Every press is counted into exactly one gesture, or discarded by a hold.
use stackchan_atoms3r.Base.{ℕ, ◌+◌, ◌≤◌, ◌<◌, min, List, [], ◌∷◌, ◌≡◌, refl, ap, ◌∙◌, arith}
use stackchan_atoms3r.Domain.Button.{ButtonEdge, no_edge, pressed, released}
use stackchan_atoms3r.Domain.ButtonGesture.{
  ButtonGesture, Gesture, no_gesture, hold, clicks, make_gesture, note_edge, judge, update_gesture,
  gestures,
}

-- A press adds one, however many there were.
abbrev pub count_edge : ButtonEdge → ℕ → ℕ
count_edge pressed n = n + 1
count_edge _ n = n

-- A reported gesture starts the count again.
abbrev pub count_gesture : Gesture → ℕ → ℕ
count_gesture no_gesture n = n
count_gesture _ n = 0

-- The number of presses since the last gesture, without a bound.
abbrev pub presses_since : List (ButtonEdge × ℕ) → List Gesture → ℕ
presses_since ((edge, t) ∷ es) (g ∷ gs) = count_gesture g (count_edge edge (presses_since es gs))
presses_since _ _ = 0

note_edge_count :
    (g : ButtonGesture) (edge : ButtonEdge) (now : ℕ)
    → g.click_count ≤ 255
    → ((note_edge g edge now).click_count ≡ min 255 (count_edge edge g.click_count))
      × ((note_edge g edge now).click_count ≤ 255)
unfolding note_edge
note_edge_count g no_edge now h = (omega arith, h)
note_edge_count g pressed now h = (ground arith, ground arith)
note_edge_count g released now h = (omega arith, h)

-- The bound of the count may be applied before or after an edge.
min-count_edge :
    (edge : ButtonEdge) (n : ℕ)
    → min 255 (count_edge edge (min 255 n)) ≡ min 255 (count_edge edge n)
min-count_edge no_edge n = omega arith
min-count_edge pressed n = omega arith
min-count_edge released n = omega arith

count_gesture-min :
    (g : Gesture) (n : ℕ) → count_gesture g (min 255 n) ≡ min 255 (count_gesture g n)
count_gesture-min no_gesture n = refl
count_gesture-min hold n = omega arith
count_gesture-min (clicks m) n = omega arith

pending_edge :
    (n total : ℕ) (edge : ButtonEdge)
    → n ≡ min 255 total
    → min 255 (count_edge edge n) ≡ min 255 (count_edge edge total)
pending_edge n total edge h = ap (λ m. min 255 (count_edge edge m)) h ∙ min-count_edge edge total

judge_count :
    (g : ButtonGesture) (now : ℕ)
    → ((judge g now).0.click_count ≡ count_gesture (judge g now).1 g.click_count)
      × ((judge g now).0.click_count ≤ g.click_count)
unfolding judge
judge_count g now = (ground arith, ground arith)

judge_clicks :
    (g : ButtonGesture) (now n : ℕ) → (judge g now).1 ≡ clicks n → (n ≡ g.click_count) × (0 < n)
unfolding judge
judge_clicks g now n h = ground arith

-- After any edges, the pending clicks are the presses since the last gesture that was reported, or 255
-- if there were more.
pub pending-gestures :
    (window hold_time : ℕ) (es : List (ButtonEdge × ℕ))
    → let r = gestures (make_gesture window hold_time) es in
      (r.0.click_count ≡ min 255 (presses_since es r.1)) × (r.0.click_count ≤ 255)
unfolding gestures update_gesture
pending-gestures window hold_time [] = unfold make_gesture in (omega arith, omega arith)
pending-gestures window hold_time ((edge, now) ∷ es) =
    let r = gestures (make_gesture window hold_time) es in
    let (pending, bound) = pending-gestures window hold_time es in
    let noted = note_edge_count r.0 edge now bound in
    let judged = judge_count (note_edge r.0 edge now) now in
    let g = (judge (note_edge r.0 edge now) now).1 in
    let total = pending_edge r.0.click_count (presses_since es r.1) edge pending in
    (
      judged.0
          ∙ ap (count_gesture g) (noted.0 ∙ total)
          ∙ count_gesture-min g (count_edge edge (presses_since es r.1)),
      omega (arith, judged.1, noted.1),
    )

-- A gesture of clicks reports the number of presses since the last gesture, the present one included,
-- or 255 if there were more, and at least one.
pub clicks-gestures :
    (window hold_time now n : ℕ) (edge : ButtonEdge) (es : List (ButtonEdge × ℕ))
    → let r = gestures (make_gesture window hold_time) es in
      (update_gesture r.0 edge now).1 ≡ clicks n
      → (n ≡ min 255 (presses_since ((edge, now) ∷ es) (no_gesture ∷ r.1))) × (0 < n)
unfolding update_gesture
clicks-gestures window hold_time now n edge es h =
    let r = gestures (make_gesture window hold_time) es in
    let (pending, bound) = pending-gestures window hold_time es in
    let clicked = judge_clicks (note_edge r.0 edge now) now n h in
    let total = pending_edge r.0.click_count (presses_since es r.1) edge pending in
    (clicked.0 ∙ (note_edge_count r.0 edge now bound).0 ∙ total, clicked.1)

-- The update that reports a hold discards the pending presses, and the update after it reports nothing
-- if it brings no edge, whatever its time.
pub hold_once :
    (g : ButtonGesture) (edge : ButtonEdge) (now later : ℕ)
    → (update_gesture g edge now).1 ≡ hold
    → ((update_gesture g edge now).0.click_count ≡ 0)
      × ((update_gesture (update_gesture g edge now).0 no_edge later).1 ≡ no_gesture)
unfolding update_gesture note_edge judge
hold_once g no_edge now later h = (ground arith, ground arith)
hold_once g pressed now later h = (ground arith, ground arith)
hold_once g released now later h = (ground arith, ground arith)
