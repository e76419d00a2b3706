-- ===== src/Domain/JsonWriter.antt =====
-- src/core/stackchan_domain/src/json_writer.cpp. The buffer and its counters are a record of their own;
-- `out` is `buffer_[0 .. length_)`. `open_levels` is `is_object_[0 .. depth_)` with the innermost level
-- first, so that `depth_` is its length.
pub mod Document
pub mod Emit
pub mod Limits
mod Examples
use Prim.Native.Nat.{bit_and}
use stackchan_atoms3r.Base.{
  ℕ, suc, ◌+◌, ◌/◌, Bool, true, false, not, ◌&&◌, ◌||◌, List, [], ◌∷◌, ◌++◌, ltb, leb, ◌==◌,
  if◌then◌else◌, length, get_or, Bytes, codes,
}
use mathlib.Core.Bool.{beq}
use stackchan_atoms3r.Base.Int.{ℤ, pos, negsuc}
use stackchan_atoms3r.Domain.Decimal.{decimal}

pub record Sink : Type 0 where
  pub capacity : ℕ
  pub out : Bytes
  pub required : ℕ
  pub overflowed : Bool

pub record JsonWriter : Type 0 where
  pub sink : Sink
  pub open sink use *
  pub open_levels : List Bool
  pub needs_comma : Bool

abbrev pub max_depth : ℕ
max_depth = 12

unfoldable pub make_writer : ℕ → JsonWriter
make_writer capacity = record {
  sink = record { capacity = capacity; out = []; required = 0; overflowed = false };
  open_levels = [];
  needs_comma = false;
}

pub put : Sink → ℕ → Sink
put s c =
    if s.overflowed || ltb s.capacity (length s.out + 1)
    then record s { required = s.required + 1; overflowed = true }
    else record s { required = s.required + 1; out = s.out ++ c ∷ [] }

pub put_text : Sink → Bytes → Sink
put_text s [] = s
put_text s (c ∷ cs) = put_text (put s c) cs

abbrev hex : Bytes
hex = codes "0123456789abcdef"

-- One round of the loop of `put_escaped`.
pub put_escaped_char : Sink → ℕ → Sink
put_escaped_char s c =
    if c == b'"'
    then put_text s (b'\\' ∷ b'"' ∷ [])
    else if c == b'\\'
    then put_text s (b'\\' ∷ b'\\' ∷ [])
    else if c == 10
    then put_text s (b'\\' ∷ b'n' ∷ [])
    else if c == 13
    then put_text s (b'\\' ∷ b'r' ∷ [])
    else if c == 9
    then put_text s (b'\\' ∷ b't' ∷ [])
    else if c == 8
    then put_text s (b'\\' ∷ b'b' ∷ [])
    else if c == 12
    then put_text s (b'\\' ∷ b'f' ∷ [])
    else if ltb c 0x20
    then put
        (put (put_text s (b'\\' ∷ b'u' ∷ b'0' ∷ b'0' ∷ [])) (get_or hex (bit_and (c / 16) 0x0F) 0))
        (get_or hex (bit_and c 0x0F) 0)
    else put s c

pub put_escaped_loop : Sink → Bytes → Sink
put_escaped_loop s [] = s
put_escaped_loop s (c ∷ cs) = put_escaped_loop (put_escaped_char s c) cs

pub put_escaped : Sink → Bytes → Sink
put_escaped s text = put (put_escaped_loop (put s b'"') text) b'"'

-- `separate`, on the buffer.
pub separate : JsonWriter → Sink
separate w = if w.needs_comma then put w.sink b',' else w.sink

abbrev overflow : JsonWriter → JsonWriter
overflow w = record w {
  sink = record { capacity = w.capacity; out = w.out; required = w.required; overflowed = true };
}

unfoldable pub open_level : JsonWriter → ℕ → Bool → JsonWriter
open_level w bracket is_object =
    let separated = record w { sink = separate w } in
    if leb max_depth (length w.open_levels) then overflow separated else record {
      sink = put (separate w) bracket;
      open_levels = is_object ∷ w.open_levels;
      needs_comma = false;
    }

close_level_of : List Bool → JsonWriter → ℕ → Bool → JsonWriter
close_level_of [] w bracket is_object = overflow w
close_level_of (top ∷ levels) w bracket is_object =
    if not (beq top is_object)
    then overflow w
    else record { sink = put w.sink bracket; open_levels = levels; needs_comma = true }

pub close_level : JsonWriter → ℕ → Bool → JsonWriter
unfolding close_level_of
close_level w = close_level_of w.open_levels w

abbrev pub begin_object : JsonWriter → JsonWriter
begin_object w = open_level w b'{' true

abbrev pub end_object : JsonWriter → JsonWriter
end_object w = close_level w b'}' true

abbrev pub begin_array : JsonWriter → JsonWriter
begin_array w = open_level w b'[' false

abbrev pub end_array : JsonWriter → JsonWriter
end_array w = close_level w b']' false

unfoldable pub key : JsonWriter → Bytes → JsonWriter
key w name = record w { sink = put (put_escaped (separate w) name) b':'; needs_comma = false }

unfoldable pub value_text : JsonWriter → Bytes → JsonWriter
value_text w text = record w { sink = put_escaped (separate w) text; needs_comma = true }

unfoldable pub value_bool : JsonWriter → Bool → JsonWriter
value_bool w flag = record w {
  sink = put_text (separate w) (if flag then codes "true" else codes "false");
  needs_comma = true;
}

unfoldable pub value_u64 : JsonWriter → ℕ → JsonWriter
value_u64 w number = record w { sink = put_text (separate w) (decimal number); needs_comma = true }

pub value_i64 : JsonWriter → ℤ → JsonWriter
value_i64 w (pos n) = value_u64 w n
value_i64 w (negsuc n) =
    value_u64 (record w { sink = put (separate w) b'-'; needs_comma = false }) (n + 1)

pub null_value : JsonWriter → JsonWriter
null_value w = record w { sink = put_text (separate w) (codes "null"); needs_comma = true }

unfoldable pub raw_json : JsonWriter → Bytes → JsonWriter
raw_json w json = record w { sink = put_text (separate w) json; needs_comma = true }

abbrev pub member_text : JsonWriter → Bytes → Bytes → JsonWriter
member_text w name text = value_text (key w name) text

abbrev pub member_bool : JsonWriter → Bytes → Bool → JsonWriter
member_bool w name flag = value_bool (key w name) flag

abbrev pub member_u64 : JsonWriter → Bytes → ℕ → JsonWriter
member_u64 w name number = value_u64 (key w name) number

abbrev pub member_i64 : JsonWriter → Bytes → ℤ → JsonWriter
member_i64 w name number = value_i64 (key w name) number

pub valid : JsonWriter → Bool
valid w = not w.overflowed && length w.open_levels == 0

pub reset : JsonWriter → JsonWriter
reset w = record {
  sink = record { capacity = w.capacity; out = []; required = 0; overflowed = false };
  open_levels = [];
  needs_comma = false;
}
