-- ===== src/Domain/JsonWriter/Emit.antt =====
-- The calls of the writer put the text of the document into the buffer, and nothing else.
use stackchan_atoms3r.Base.{
  ℕ, ◌+◌, ◌≤◌, ◌<◌, Bool, true, false, List, [], ◌∷◌, ◌++◌, ◌≡◌, refl, ap, sym, ◌∙◌, length,
  if◌then◌else◌, Bytes, codes, append_assoc, arith,
}
use stackchan_atoms3r.Base.Int.{ℤ, pos, negsuc}
use stackchan_atoms3r.Domain.Decimal.{decimal}
use stackchan_atoms3r.Domain.JsonWriter.{
  Sink, JsonWriter, max_depth, put, put_text, separate, open_level, close_level, end_object,
  end_array, key, value_text, value_bool, value_u64, value_i64, null_value,
}
use stackchan_atoms3r.Domain.JsonWriter.Document.{
  Json, text, flag, number, integer, null, array, object, Items, nil, cons, Members, end, member,
  emit, emit_items, emit_members, quoted, signed_decimal, comma_if, render, render_items,
  render_members, height, height_items, height_members, put_text-append, put_escaped_lem,
  separate_lem,
}

abbrev with_sink : JsonWriter → Sink → Bool → JsonWriter
with_sink w s c = record { sink = s; open_levels = w.open_levels; needs_comma = c }

-- A writer that has put `bs` into its buffer.
abbrev pub wrote : JsonWriter → Bytes → Bool → JsonWriter
wrote w bs c = with_sink w (put_text w.sink bs) c

put_one : (s : Sink) (c : ℕ) → put_text s (c ∷ []) ≡ put s c
unfolding put_text
put_one s c = refl

pub put_separated :
    (w : JsonWriter) (bs : Bytes)
    → put_text (separate w) bs ≡ put_text w.sink (comma_if w.needs_comma ++ bs)
put_separated w bs = rw separate_lem (sym (put_text-append w.sink (comma_if w.needs_comma) bs))

value_text_lem :
    (w : JsonWriter) (s : Bytes)
    → value_text w s ≡ wrote w (comma_if w.needs_comma ++ quoted s) true
unfolding value_text
value_text_lem w s = cc (put_escaped_lem (separate w) s, put_separated w (quoted s))

value_bool_lem :
    (w : JsonWriter) (b : Bool)
    → value_bool w b
      ≡ wrote w (comma_if w.needs_comma ++ (if b then codes "true" else codes "false")) true
unfolding value_bool
value_bool_lem w b = cc (put_separated w (if b then codes "true" else codes "false"))

value_u64_lem :
    (w : JsonWriter) (n : ℕ) → value_u64 w n ≡ wrote w (comma_if w.needs_comma ++ decimal n) true
unfolding value_u64
value_u64_lem w n = cc (put_separated w (decimal n))

null_value_lem :
    (w : JsonWriter) → null_value w ≡ wrote w (comma_if w.needs_comma ++ codes "null") true
unfolding null_value
null_value_lem w = cc (put_separated w (codes "null"))

value_i64_lem :
    (w : JsonWriter) (n : ℤ)
    → value_i64 w n ≡ wrote w (comma_if w.needs_comma ++ signed_decimal n) true
unfolding value_i64 signed_decimal
value_i64_lem w (pos n) = value_u64_lem w n
value_i64_lem w (negsuc n) =
    value_u64_lem (record w { sink = put (separate w) b'-'; needs_comma = false }) (n + 1)
    ∙ cc (
      put_separated w (b'-' ∷ decimal (n + 1)),
      put_text-append (separate w) (b'-' ∷ []) (decimal (n + 1)),
      put_one (separate w) b'-',
    )

key_lem :
    (w : JsonWriter) (k : Bytes)
    → key w k ≡ wrote w (comma_if w.needs_comma ++ (quoted k ++ b':' ∷ [])) false
unfolding key
key_lem w k =
    let quoting = put_escaped_lem (separate w) k in
    let body = put_separated w (quoted k ++ b':' ∷ []) in
    ap (λ s. with_sink w s false)
      (cc (
        quoting,
        put_text-append (separate w) (quoted k) (b':' ∷ []),
        body,
        put_one (put_text (separate w) (quoted k)) b':',
      ))

open_level_lem :
    (w : JsonWriter) (bracket : ℕ) (o : Bool)
    → length w.open_levels < max_depth
    → open_level w bracket o ≡ record {
      sink = put_text w.sink (comma_if w.needs_comma ++ bracket ∷ []);
      open_levels = o ∷ w.open_levels;
      needs_comma = false;
    }
unfolding open_level
open_level_lem w bracket o h =
    ground (arith, put_separated w (bracket ∷ []), put_one (separate w) bracket)

close_level_lem :
    (s : Sink) (bracket : ℕ) (o : Bool) (levels : List Bool) (c : Bool)
    → close_level (record { sink = s; open_levels = o ∷ levels; needs_comma = c }) bracket o
      ≡ record { sink = put_text s (bracket ∷ []); open_levels = levels; needs_comma = true }
unfolding close_level put_text
close_level_lem s bracket true levels c = refl
close_level_lem s bracket false levels c = refl

put_bracketed :
    (s : Sink) (before : Bytes) (opening : ℕ) (inner : Bytes) (closing : ℕ)
    → put_text (put_text (put_text s (before ++ opening ∷ [])) inner) (closing ∷ [])
      ≡ put_text s (before ++ (opening ∷ (inner ++ closing ∷ [])))
put_bracketed s before opening inner closing =
    rw
      (
        ← put_text-append s (before ++ opening ∷ []) inner,
        ← put_text-append s ((before ++ opening ∷ []) ++ inner) (closing ∷ []),
      )
      (ap (put_text s)
        (append_assoc (before ++ opening ∷ []) inner _ ∙ append_assoc before (opening ∷ []) _))

-- Whether a comma is due behind the entries.
abbrev comma_items : Bool → Items → Bool
comma_items c nil = c
comma_items c (cons x xs) = true

abbrev comma_members : Bool → Members → Bool
comma_members c end = c
comma_members c (member k x ms) = true

comma_items-true : (xs : Items) → comma_items true xs ≡ true
comma_items-true nil = refl
comma_items-true (cons x xs) = refl

comma_members-true : (ms : Members) → comma_members true ms ≡ true
comma_members-true end = refl
comma_members-true (member k x ms) = refl

put_next :
    (w : JsonWriter) (a b : Bytes) (c : Bool) → wrote (wrote w a true) b c ≡ wrote w (a ++ b) c
put_next w a b c = ap (λ s. with_sink w s c) (sym (put_text-append w.sink a b))

written_nothing : (w : JsonWriter) → w ≡ wrote w [] w.needs_comma
unfolding put_text
written_nothing w = refl

member_text :
    (before k value after : Bytes)
    → ((before ++ (quoted k ++ b':' ∷ [])) ++ value) ++ after
      ≡ before ++ (quoted k ++ (b':' ∷ (value ++ after)))
member_text before k value after = simp append_assoc

mutual
  unfolding emit emit_items emit_members render render_items render_members height height_items
      height_members

  emit-render :
      (w : JsonWriter) (x : Json)
      → length w.open_levels + height x ≤ max_depth
      → emit w x ≡ wrote w (comma_if w.needs_comma ++ render x) true
  emit-render w (text s) h = value_text_lem w s
  emit-render w (flag b) h = value_bool_lem w b
  emit-render w (number n) h = value_u64_lem w n
  emit-render w (integer n) h = value_i64_lem w n
  emit-render w null h = null_value_lem w
  emit-render w (array xs) h =
      let opened : JsonWriter = record {
        sink = put_text w.sink (comma_if w.needs_comma ++ b'[' ∷ []);
        open_levels = false ∷ w.open_levels;
        needs_comma = false;
      } in
      ap (λ u. end_array (emit_items u xs)) (open_level_lem w b'[' false (omega arith))
      ∙ ap (λ u. end_array u) (emit_items-render opened xs (omega arith))
      ∙ close_level_lem _ b']' false w.open_levels _
      ∙ ap (λ s. with_sink w s true) (put_bracketed w.sink _ b'[' (render_items false xs) b']')
  emit-render w (object ms) h =
      let opened : JsonWriter = record {
        sink = put_text w.sink (comma_if w.needs_comma ++ b'{' ∷ []);
        open_levels = true ∷ w.open_levels;
        needs_comma = false;
      } in
      ap (λ u. end_object (emit_members u ms)) (open_level_lem w b'{' true (omega arith))
      ∙ ap (λ u. end_object u) (emit_members-render opened ms (omega arith))
      ∙ close_level_lem _ b'}' true w.open_levels _
      ∙ ap (λ s. with_sink w s true) (put_bracketed w.sink _ b'{' (render_members false ms) b'}')

  emit_items-render :
      (w : JsonWriter) (xs : Items)
      → length w.open_levels + height_items xs ≤ max_depth
      → emit_items w xs ≡ wrote w (render_items w.needs_comma xs) (comma_items w.needs_comma xs)
  emit_items-render w nil h = written_nothing w
  emit_items-render w (cons x xs) h =
      ap (λ u. emit_items u xs) (emit-render w x (omega arith))
      ∙ emit_items-render (wrote w (comma_if w.needs_comma ++ render x) true) xs (omega arith)
      ∙ ap (λ c. wrote (wrote w (comma_if w.needs_comma ++ render x) true) (render_items true xs) c)
          (comma_items-true xs)
      ∙ put_next w (comma_if w.needs_comma ++ render x) (render_items true xs) true
      ∙ ap (λ bs. wrote w bs true) (append_assoc (comma_if w.needs_comma) (render x) _)

  emit_members-render :
      (w : JsonWriter) (ms : Members)
      → length w.open_levels + height_members ms ≤ max_depth
      → emit_members w ms
        ≡ wrote w (render_members w.needs_comma ms) (comma_members w.needs_comma ms)
  emit_members-render w end h = written_nothing w
  emit_members-render w (member k x ms) h =
      let named = comma_if w.needs_comma ++ (quoted k ++ b':' ∷ []) in
      ap (λ u. emit_members (emit u x) ms) (key_lem w k)
      ∙ ap (λ u. emit_members u ms) (emit-render (wrote w named false) x (omega arith))
      ∙ ap (λ u. emit_members u ms) (put_next w named (render x) true)
      ∙ emit_members-render (wrote w (named ++ render x) true) ms (omega arith)
      ∙ ap (λ c. wrote (wrote w (named ++ render x) true) (render_members true ms) c)
          (comma_members-true ms)
      ∙ put_next w (named ++ render x) (render_members true ms) true
      ∙ ap (λ bs. wrote w bs true) (member_text (comma_if w.needs_comma) k (render x) _)

-- With room for its brackets, the calls that write a document put a comma if one is due and the text
-- of the document, leave the open levels as they were, and ask for a comma before the next entry.
pub emit_lem :
    (w : JsonWriter) (x : Json)
    → length w.open_levels + height x ≤ max_depth
    → emit w x ≡ wrote w (comma_if w.needs_comma ++ render x) true
emit_lem w x h = emit-render w x h
