-- ===== src/Base/Words.antt =====
-- Machine words as native numbers with their wrap-around written out.
use stackchan_atoms3r.Base.{ℕ, ◌^◌}

abbrev pub u8_mod : ℕ
u8_mod = 2 ^ 8

abbrev pub u16_mod : ℕ
u16_mod = 2 ^ 16

abbrev pub u32_mod : ℕ
u32_mod = 2 ^ 32

abbrev pub u64_mod : ℕ
u64_mod = 2 ^ 64
