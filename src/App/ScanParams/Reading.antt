-- ===== src/App/ScanParams/Reading.antt =====
-- What is read out fits in the arena, and the parameters are empty when the payload has no member.
use stackchan_atoms3r.Base.{
  ◌-◌, ◌≤◌, true, Option, none, some, ◌≡◌, ◌↔◌, refl, length, length-append, Bytes, arith,
}
use stackchan_atoms3r.Domain.JsonWriter.Document.{object, Members, end, member, render}
use stackchan_atoms3r.Domain.JsonScan.{json_find_raw_string, json_unescape}
use stackchan_atoms3r.Domain.JsonScan.Unescape.{json_unescape_bounded}
use stackchan_atoms3r.App.ScanParams.{
  ScanParams, scan_params, arena_bytes, read_into, read_raw, read_string, empty_loop, empty,
}

read_into_fits :
    (p : ScanParams) (raw : Bytes) (o : Option Bytes)
    → length p.arena ≤ arena_bytes
    → json_unescape raw (arena_bytes - length p.arena) ≡ o
    → length (read_into p o).0.arena ≤ arena_bytes
unfolding read_into
read_into_fits p raw none h e = h
read_into_fits p raw (some text) h e = omega (
  arith,
  h,
  length-append p.arena text,
  json_unescape_bounded raw (arena_bytes - length p.arena) text e,
)

read_raw_fits :
    (p : ScanParams) (o : Option Bytes)
    → length p.arena ≤ arena_bytes
    → length (read_raw p o).0.arena ≤ arena_bytes
unfolding read_raw
read_raw_fits p none h = h
read_raw_fits p (some raw) h =
    read_into_fits p raw (json_unescape raw (arena_bytes - length p.arena)) h refl

-- However many texts a handler reads out, they stay within the arena.
pub read_string_fits :
    (p : ScanParams) (key : Bytes)
    → length p.arena ≤ arena_bytes
    → length (read_string p key).0.arena ≤ arena_bytes
unfolding read_string
read_string_fits p key h = read_raw_fits p (json_find_raw_string p.payload key) h

-- The parameters of a payload that a writer wrote are empty exactly if it has no member.
pub empty-render : (ms : Members) → (empty (scan_params (render (object ms))) ≡ true) ↔ (ms ≡ end)
unfolding empty empty_loop render
empty-render end = (λ h. refl, λ h. refl)
empty-render (member k x ms) = (λ h. absurd (ground (arith, h)), λ h. absurd (ground (arith, h)))
