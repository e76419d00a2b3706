-- ===== src/App/PlaybackStager.antt =====
-- src/core/stackchan_app/src/playback_stager.cpp: a sentence is held until its audio is complete.
-- `stage` is `stage_[0 .. staged_)`; the samples that a caller offers are a list, empty for `nullptr`.
mod Sentences
mod Sounding
mod Examples
use stackchan_atoms3r.Base.{
  ℕ, zero, suc, ◌+◌, ◌-◌, ◌%◌, min, Bool, true, false, not, ◌||◌, ◌&&◌, List, [], ◌∷◌, ◌++◌, ltb,
  ◌==◌, if◌then◌else◌, length, take,
}
use stackchan_atoms3r.Base.Words.{u32_mod}
use stackchan_atoms3r.Domain.Expression.{Expression, neutral}

pub record PlaybackStager : Type 0 where
  pub capacity : ℕ
  pub sink_depth_ms : ℕ
  pub stage : List ℕ
  pub speaking : Expression
  pub pending : Expression
  pub has_pending : Bool
  pub until_ms : ℕ
  pub spoke : Bool

pub make_stager : ℕ → ℕ → PlaybackStager
make_stager capacity sink_depth_ms = record {
  capacity = capacity;
  sink_depth_ms = sink_depth_ms;
  stage = [];
  speaking = neutral;
  pending = neutral;
  has_pending = false;
  until_ms = 0;
  spoke = false;
}

pub begin_sentence : PlaybackStager → Expression → PlaybackStager × ℕ
begin_sentence s next =
    if length s.stage == 0
    then (record s { speaking = next; has_pending = false }, 0)
    else (record s { pending = next; has_pending = true }, length s.stage)

pub accept : PlaybackStager → List ℕ → PlaybackStager × ℕ
accept s samples =
    if length samples == 0 || s.capacity == 0
    then (s, 0)
    else if s.has_pending
    then (s, 0)
    else let taken = min (length samples) (s.capacity - length s.stage) in
      if taken == 0 then (s, 0) else (record s { stage = s.stage ++ take taken samples }, taken)

pub finish : PlaybackStager → Bool → PlaybackStager × ℕ
finish s false = (record s { stage = []; has_pending = false }, 0)
finish s true = (s, length s.stage)

pub flushed : PlaybackStager → ℕ → PlaybackStager
flushed s now_ms =
    let played = record s {
      stage = [];
      until_ms = (now_ms + s.sink_depth_ms) % u32_mod;
      spoke = true;
    } in
    if s.has_pending then record played { speaking = s.pending; has_pending = false } else played

pub reset : PlaybackStager → PlaybackStager
reset s = record s {
  stage = [];
  speaking = neutral;
  pending = neutral;
  has_pending = false;
  until_ms = 0;
  spoke = false;
}

-- The difference of two 32-bit times, read with a sign: from 2^31 on it is negative.
pub remaining_ms : PlaybackStager → ℕ → ℕ
remaining_ms s now_ms =
    let left = (s.until_ms + u32_mod - now_ms) % u32_mod in
    if not s.spoke then 0 else if ltb 0 left && ltb left 2147483648 then left else 0
