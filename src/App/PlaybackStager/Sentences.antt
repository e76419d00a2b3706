-- ===== src/App/PlaybackStager/Sentences.antt =====
-- Following the calling contract of playback_stager.hpp, every sample is played once, in order, under
-- the expression of its own sentence.
use stackchan_atoms3r.Base.{
  ℕ, zero, suc, ◌+◌, ◌%◌, ◌≤◌, ◌<◌, true, false, List, [], ◌∷◌, ◌++◌, ◌≡◌, ◌==◌, if◌then◌else◌,
  length, take, drop,
}
use stackchan_atoms3r.Base.Words.{u32_mod}
use stackchan_atoms3r.Domain.Expression.{Expression}
use stackchan_atoms3r.App.PlaybackStager.{PlaybackStager, begin_sentence, accept, flushed}

-- A sample and the expression that the face wears while it is played.
abbrev pub tagged : Expression → List ℕ → List (ℕ × Expression)
tagged e [] = []
tagged e (x ∷ xs) = (x, e) ∷ tagged e xs

-- What the calls leave and what they play, in order.
abbrev pub Played : Type 0
Played = PlaybackStager × List (ℕ × Expression)

-- A sentence begins: as many samples of the stage as the stager answers are played, and then it is
-- told so.
pub start_sentence : PlaybackStager → ℕ → Expression → Played
start_sentence s now next =
    let begun = begin_sentence s next in
    if begun.1 == 0
    then (begun.0, [])
    else (flushed begun.0 now, tagged begun.0.speaking (take begun.1 begun.0.stage))

-- Samples arrive: while they are not all taken, the stage is played and the remainder offered again.
pub offer : ℕ → PlaybackStager → ℕ → List ℕ → Played
offer zero s now samples = (s, [])
offer (suc fuel) s now samples =
    let taken = accept s samples in
    let rest = offer fuel (flushed taken.0 now) now (drop taken.1 samples) in
    if taken.1 == length samples
    then (taken.0, [])
    else (rest.0, tagged taken.0.speaking taken.0.stage ++ rest.1)

-- Between two calls of the contract: there is a stage, it is not over-full, and no sentence waits.
abbrev pub IsValid : PlaybackStager → Type 0
IsValid s = (0 < s.capacity) × (length s.stage ≤ s.capacity) × (s.has_pending ≡ false)

-- Nothing waits, and the stage has been played.
abbrev emptied : PlaybackStager → ℕ → PlaybackStager
emptied s now = record s { stage = []; until_ms = (now + s.sink_depth_ms) % u32_mod; spoke = true }

-- What arrives, in order, each at its time.
pub data Arrival : Type 0 where
  sentence : ℕ → Expression → Arrival
  audio : ℕ → List ℕ → Arrival

-- Following the contract; the fuel of an offer is its samples and a round to empty a full stage.
pub arrive : PlaybackStager → Arrival → Played
arrive s (sentence now e) = start_sentence s now e
arrive s (audio now xs) = offer (length xs + 2) s now xs

pub arrive_all : PlaybackStager → List Arrival → Played
arrive_all s [] = (s, [])
arrive_all s (a ∷ calls) =
    let first = arrive s a in let rest = arrive_all first.0 calls in (rest.0, first.1 ++ rest.1)

-- The samples with the expressions of their sentences.
abbrev pub meant : Expression → List Arrival → List (ℕ × Expression)
meant e [] = []
meant e (sentence now next ∷ calls) = meant next calls
meant e (audio now xs ∷ calls) = tagged e xs ++ meant e calls
