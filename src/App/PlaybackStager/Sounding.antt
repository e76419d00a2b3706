-- ===== src/App/PlaybackStager/Sounding.antt =====
-- How much is still expected to sound, across the wrap of the clock.
use stackchan_atoms3r.Base.{ℕ, ◌+◌, ◌-◌, ◌%◌, ◌≤◌, ◌<◌, ◌≡◌, arith}
use stackchan_atoms3r.Base.Words.{u32_mod}
use stackchan_atoms3r.App.PlaybackStager.{PlaybackStager, flushed, remaining_ms}

-- So many milliseconds after samples have been handed over, what is left of the depth of the hardware's
-- buffer is still to sound, and nothing once the depth has passed; the clock may wrap in between.
pub remaining_ms-flushed :
    (s : PlaybackStager) (now k : ℕ)
    → now < u32_mod
    → s.sink_depth_ms < 2147483648
    → k ≤ 2147483648
    → remaining_ms (flushed s now) ((now + k) % u32_mod) ≡ s.sink_depth_ms - k
unfolding remaining_ms flushed
remaining_ms-flushed s now k h d l = ground arith
