-- ===== src/Domain/JsonWriter/Document.antt =====
-- Documents as trees, what they look like, and that the calls of the writer produce just that.
use stackchan_atoms3r.Base.{
  ℕ, ◌+◌, ◌/◌, max, Bool, true, false, [], ◌∷◌, ◌++◌, ◌≡◌, refl, ltb, ◌==◌, if◌then◌else◌, get_or,
  Bytes, codes, arith,
}
use Prim.Native.Nat.{bit_and}
use stackchan_atoms3r.Base.Int.{ℤ, pos, negsuc}
use stackchan_atoms3r.Domain.Decimal.{decimal}
use stackchan_atoms3r.Domain.JsonWriter.{
  Sink, JsonWriter, put, put_text, hex, put_escaped_char, put_escaped_loop, put_escaped, separate,
  begin_object, end_object, begin_array, end_array, key, value_text, value_bool, value_u64,
  value_i64, null_value,
}

mutual
  pub data Json : Type 0 where
    text : Bytes → Json
    flag : Bool → Json
    number : ℕ → Json
    integer : ℤ → Json
    null : Json
    array : Items → Json
    object : Members → Json

  pub data Items : Type 0 where
    nil : Items
    cons : Json → Items → Items

  pub data Members : Type 0 where
    end : Members
    member : Bytes → Json → Members → Members

-- The calls that write a document, in order.
unfoldable mutual
  pub emit : JsonWriter → Json → JsonWriter
  emit w (text s) = value_text w s
  emit w (flag b) = value_bool w b
  emit w (number n) = value_u64 w n
  emit w (integer n) = value_i64 w n
  emit w null = null_value w
  emit w (array xs) = end_array (emit_items (begin_array w) xs)
  emit w (object ms) = end_object (emit_members (begin_object w) ms)

  pub emit_items : JsonWriter → Items → JsonWriter
  emit_items w nil = w
  emit_items w (cons x xs) = emit_items (emit w x) xs

  pub emit_members : JsonWriter → Members → JsonWriter
  emit_members w end = w
  emit_members w (member k x ms) = emit_members (emit (key w k) x) ms

-- A character between quotes, as the grammar of JSON writes it.
unfoldable pub escape_char : ℕ → Bytes
escape_char c =
    if c == b'"'
    then b'\\' ∷ b'"' ∷ []
    else if c == b'\\'
    then b'\\' ∷ b'\\' ∷ []
    else if c == 10
    then b'\\' ∷ b'n' ∷ []
    else if c == 13
    then b'\\' ∷ b'r' ∷ []
    else if c == 9
    then b'\\' ∷ b't' ∷ []
    else if c == 8
    then b'\\' ∷ b'b' ∷ []
    else if c == 12
    then b'\\' ∷ b'f' ∷ []
    else if ltb c 0x20
    then b'\\'
      ∷ b'u'
      ∷ b'0'
      ∷ b'0'
      ∷ get_or hex (bit_and (c / 16) 0x0F) 0
      ∷ get_or hex (bit_and c 0x0F) 0
      ∷ []
    else c ∷ []

unfoldable pub escape : Bytes → Bytes
escape [] = []
escape (c ∷ cs) = escape_char c ++ escape cs

abbrev pub quoted : Bytes → Bytes
quoted s = b'"' ∷ (escape s ++ b'"' ∷ [])

unfoldable pub signed_decimal : ℤ → Bytes
signed_decimal (pos n) = decimal n
signed_decimal (negsuc n) = b'-' ∷ decimal (n + 1)

abbrev pub comma_if : Bool → Bytes
comma_if c = if c then b',' ∷ [] else []

-- The text of a document. The flag of the lists is whether a comma stands before the next entry.
unfoldable mutual
  pub render : Json → Bytes
  render (text s) = quoted s
  render (flag b) = if b then codes "true" else codes "false"
  render (number n) = decimal n
  render (integer n) = signed_decimal n
  render null = codes "null"
  render (array xs) = b'[' ∷ (render_items false xs ++ b']' ∷ [])
  render (object ms) = b'{' ∷ (render_members false ms ++ b'}' ∷ [])

  pub render_items : Bool → Items → Bytes
  render_items c nil = []
  render_items c (cons x xs) = comma_if c ++ (render x ++ render_items true xs)

  pub render_members : Bool → Members → Bytes
  render_members c end = []
  render_members c (member k x ms) =
      comma_if c ++ (quoted k ++ (b':' ∷ (render x ++ render_members true ms)))

-- How deep the brackets nest.
unfoldable mutual
  pub height : Json → ℕ
  height (array xs) = height_items xs + 1
  height (object ms) = height_members ms + 1
  height _ = 0

  pub height_items : Items → ℕ
  height_items nil = 0
  height_items (cons x xs) = max (height x) (height_items xs)

  pub height_members : Members → ℕ
  height_members end = 0
  height_members (member k x ms) = max (height x) (height_members ms)

pub put_text-append : (s : Sink) (a b : Bytes) → put_text s (a ++ b) ≡ put_text (put_text s a) b
unfolding put_text
put_text-append s [] b = refl
put_text-append s (c ∷ a) b = put_text-append (put s c) a b

put_escaped_char_lem : (s : Sink) (c : ℕ) → put_escaped_char s c ≡ put_text s (escape_char c)
unfolding put_escaped_char escape_char put_text
put_escaped_char_lem s c = ground arith

put_escaped_loop_lem : (s : Sink) (t : Bytes) → put_escaped_loop s t ≡ put_text s (escape t)
unfolding put_escaped_loop escape put_text
put_escaped_loop_lem s [] = refl
put_escaped_loop_lem s (c ∷ cs) = cc (
  put_escaped_loop_lem (put_escaped_char s c) cs,
  put_escaped_char_lem s c,
  put_text-append s (escape_char c) (escape cs),
)

pub put_escaped_lem : (s : Sink) (t : Bytes) → put_escaped s t ≡ put_text s (quoted t)
unfolding put_escaped put_text
put_escaped_lem s t =
    cc (put_escaped_loop_lem (put s b'"') t, put_text-append (put s b'"') (escape t) (b'"' ∷ []))

pub separate_lem : (w : JsonWriter) → separate w ≡ put_text w.sink (comma_if w.needs_comma)
unfolding separate put_text
separate_lem w = ground arith
