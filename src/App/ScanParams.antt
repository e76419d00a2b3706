-- ===== src/App/ScanParams.antt =====
-- src/core/stackchan_app/src/scan_params.cpp and its header: the parameters of a request, read out of
-- the text of its payload. The texts that were read out fill an arena; a view of it is the bytes.
mod Reading
use stackchan_atoms3r.Base.{
  ℕ, ◌+◌, ◌-◌, Bool, true, false, not, ◌||◌, [], ◌∷◌, ◌++◌, Option, none, some, ◌==◌, if◌then◌else◌,
  length, Bytes,
}
use stackchan_atoms3r.Base.Int.{ℤ}
use stackchan_atoms3r.Domain.JsonScan.{
  Parsed, is_ws, json_find_raw_string, json_find_integer, json_find_bool, json_unescape,
}

abbrev pub arena_bytes : ℕ
arena_bytes = 512

-- `arena_[0 .. arena_used_)` is what was read.
pub record ScanParams : Type 0 where
  pub payload : Bytes
  pub arena : Bytes

abbrev pub scan_params : Bytes → ScanParams
scan_params payload_object = record { payload = payload_object; arena = [] }

unfoldable pub read_into : ScanParams → Option Bytes → ScanParams × Option Bytes
read_into p none = (p, none)
read_into p (some text) = (record p { arena = p.arena ++ text }, some text)

unfoldable pub read_raw : ScanParams → Option Bytes → ScanParams × Option Bytes
read_raw p none = (p, none)
read_raw p (some raw) = read_into p (json_unescape raw (arena_bytes - length p.arena))

unfoldable pub read_string : ScanParams → Bytes → ScanParams × Option Bytes
read_string p key = read_raw p (json_find_raw_string p.payload key)

abbrev pub read_integer : ScanParams → Bytes → Parsed ℤ
read_integer p key = json_find_integer p.payload key

abbrev pub read_bool : ScanParams → Bytes → Option Bool
read_bool p key = json_find_bool p.payload key

-- The loop of `empty`; the flag is whether the brace has been seen.
unfoldable pub empty_loop : Bool → Bytes → Bool
empty_loop inside [] = true
empty_loop false (c ∷ cs) = empty_loop (c == b'{') cs
empty_loop true (c ∷ cs) =
    let rest = empty_loop true cs in
    if c == b'"' then false else if c == b'}' then true else if not (is_ws c) then false else rest

-- The first test of `empty` holds of the loop too.
unfoldable pub empty : ScanParams → Bool
empty p = empty_loop false p.payload
