-- ===== src/Domain/JsonScan/Found.antt =====
-- Looking up a key in an object that the writer has written.
use stackchan_atoms3r.Base.{
  ℕ, zero, suc, ◌+◌, ◌≤◌, ◌<◌, Bool, true, false, [], ◌∷◌, ◌++◌, Option, none, some, ◌≡◌, refl,
  if◌then◌else◌, length, length-append, Bytes, arith, ◌∙◌, ap, append_assoc, bytes_eq, All,
}
use stackchan_atoms3r.Base.Int.{pos, negsuc}
use stackchan_atoms3r.Domain.Decimal.{decimal}
use stackchan_atoms3r.Domain.Decimal.Value.{IsDigit, decimal-IsDigit, decimal-nonempty}
use stackchan_atoms3r.Domain.JsonWriter.Document.{
  Json, text, flag, number, integer, null, array, object, Members, end, member, escape, quoted,
  signed_decimal, comma_if, render, render_items, render_members,
}
use stackchan_atoms3r.Domain.JsonScan.{
  ValueKind, is_ws, is_gap, eat_ws, starts_with, skip_contents, skip_while, skip_value, skip_member,
  find_member_loop, find_member, text_value,
}
use stackchan_atoms3r.Domain.JsonScan.Render.{skip_contents-escape}
use stackchan_atoms3r.Domain.JsonScan.Brackets.{
  Passes-render_items, Passes-render_members, skip_container-brackets,
}
use stackchan_atoms3r.Domain.JsonScan.Numbers.{
  Stops, skip_value_digits, skip_value_minus, skip_value_flag, skip_value_null,
}

-- The extent and the kind that stand for a value: of a string, the escaped contents.
abbrev pub raw : Json → Bytes
raw (text s) = escape s
raw x = render x

abbrev pub kind_of : Json → ValueKind
kind_of (text s) = ValueKind.string
kind_of (flag b) = ValueKind.boolean
kind_of (number n) = ValueKind.number
kind_of (integer n) = ValueKind.number
kind_of null = ValueKind.null
kind_of (array xs) = ValueKind.array
kind_of (object ms) = ValueKind.object

-- The first member with the key.
unfoldable pub lookup : Bytes → Members → Option (Bytes × ValueKind)
lookup key end = none
lookup key (member k x ms) =
    if bytes_eq (escape k) key then some (raw x, kind_of x) else lookup key ms

skip_value-render :
    (x : Json) (rest : Bytes)
    → Stops rest
    → skip_value (render x ++ rest) ≡ some (record { span = raw x; kind = kind_of x; rest = rest })
unfolding render signed_decimal
skip_value-render (text s) rest h =
    unfold skip_value in
    ap text_value (
      ap (skip_contents false) (append_assoc (escape s) (b'"' ∷ []) rest)
      ∙ skip_contents-escape s rest)
skip_value-render (flag b) rest h = skip_value_flag b rest
skip_value-render (number n) rest h =
    skip_value_digits (decimal n) rest (decimal-nonempty n) (decimal-IsDigit n) h
skip_value-render (integer (pos n)) rest h =
    skip_value_digits (decimal n) rest (decimal-nonempty n) (decimal-IsDigit n) h
skip_value-render (integer (negsuc n)) rest h =
    skip_value_minus (decimal (n + 1)) rest (decimal-IsDigit (n + 1)) h
skip_value-render null rest h = skip_value_null rest
skip_value-render (array xs) rest h =
    unfold skip_value in
    skip_container-brackets ValueKind.array b'[' (render_items false xs) b']' rest refl refl
      (Passes-render_items false xs)
skip_value-render (object ms) rest h =
    unfold skip_value in
    skip_container-brackets ValueKind.object b'{' (render_members false ms) b'}' rest refl refl
      (Passes-render_members false ms)

eat_ws-IsDigit : (a rest : Bytes) → 1 ≤ length a → All IsDigit a → eat_ws (a ++ rest) ≡ a ++ rest
unfolding eat_ws is_ws
eat_ws-IsDigit [] rest l h = absurd (omega arith)
eat_ws-IsDigit (c ∷ cs) rest l h = ground (arith, h.0)

eat_ws-decimal : (n : ℕ) (rest : Bytes) → eat_ws (decimal n ++ rest) ≡ decimal n ++ rest
eat_ws-decimal n rest = eat_ws-IsDigit (decimal n) rest (decimal-nonempty n) (decimal-IsDigit n)

eat_ws-render : (x : Json) (rest : Bytes) → eat_ws (render x ++ rest) ≡ render x ++ rest
unfolding render signed_decimal eat_ws is_ws
eat_ws-render (text s) rest = refl
eat_ws-render (flag true) rest = refl
eat_ws-render (flag false) rest = refl
eat_ws-render (number n) rest = eat_ws-decimal n rest
eat_ws-render (integer (pos n)) rest = eat_ws-decimal n rest
eat_ws-render (integer (negsuc n)) rest = refl
eat_ws-render null rest = refl
eat_ws-render (array xs) rest = refl
eat_ws-render (object ms) rest = refl

-- What stands behind a value in an object.
abbrev remainder : Members → Bytes → Bytes
remainder ms rest = render_members true ms ++ b'}' ∷ rest

Stops-remainder : (ms : Members) (rest : Bytes) → Stops (remainder ms rest)
unfolding render_members skip_while
Stops-remainder end rest = refl
Stops-remainder (member k x ms) rest = refl

skip_member-render :
    (k : Bytes) (x : Json) (rest : Bytes)
    → Stops rest
    → skip_member (quoted k ++ (b':' ∷ (render x ++ rest)))
      ≡ some (escape k, record { span = raw x; kind = kind_of x; rest = rest })
unfolding skip_member eat_ws is_ws starts_with
skip_member-render k x rest h =
    let behind = b':' ∷ (render x ++ rest) in
    let key_found =
      ap (skip_contents false) (append_assoc (escape k) (b'"' ∷ []) behind)
      ∙ skip_contents-escape k behind in
    rw (key_found, eat_ws-render x rest, skip_value-render x rest h) refl

member_text :
    (k : Bytes) (x : Json) (ms : Members) (rest : Bytes)
    → (quoted k ++ (b':' ∷ (render x ++ render_members true ms))) ++ b'}' ∷ rest
      ≡ quoted k ++ (b':' ∷ (render x ++ remainder ms rest))
member_text k x ms rest = simp append_assoc

skip_gap :
    (c : Bool) (k : Bytes) (x : Json) (ms : Members) (rest : Bytes)
    → skip_while is_gap (render_members c (member k x ms) ++ b'}' ∷ rest)
      ≡ quoted k ++ (b':' ∷ (render x ++ remainder ms rest))
unfolding render_members skip_while is_ws
skip_gap true k x ms rest = member_text k x ms rest
skip_gap false k x ms rest = member_text k x ms rest

count : Members → ℕ
count end = 0
count (member k x ms) = suc (count ms)

find_member_loop-render :
    (fuel : ℕ) (key : Bytes) (c : Bool) (ms : Members) (rest : Bytes)
    → count ms < fuel
    → find_member_loop fuel key (render_members c ms ++ b'}' ∷ rest) ≡ lookup key ms
unfolding find_member_loop count lookup starts_with
find_member_loop-render zero key c ms rest h = absurd (omega arith)
find_member_loop-render (suc fuel) key c end rest h = unfold render_members skip_while is_ws in refl
find_member_loop-render (suc fuel) key c (member k x ms) rest h =
    let found = skip_member-render k x (remainder ms rest) (Stops-remainder ms rest) in
    let others = find_member_loop-render fuel key true ms rest (omega arith) in
    rw (skip_gap c k x ms rest, found) (ground (arith, others))

count-render_members : (c : Bool) (ms : Members) → count ms ≤ length (render_members c ms)
unfolding count render_members
count-render_members c end = omega arith
count-render_members c (member k x ms) =
    let tail = b':' ∷ (render x ++ render_members true ms) in
    omega (
      arith,
      count-render_members true ms,
      length-append (comma_if c) (quoted k ++ tail),
      length-append (escape k ++ b'"' ∷ []) tail,
      length-append (render x) (render_members true ms),
    )

-- Looking up a key in an object that the writer has written, followed by any text, finds the first
-- member whose key is the same behind the escapes, with its extent and its kind; without such a member
-- nothing is found.
pub find_member-render :
    (ms : Members) (key rest : Bytes) → find_member (render (object ms) ++ rest) key ≡ lookup key ms
unfolding find_member render eat_ws is_ws starts_with
find_member-render ms key rest =
    let inner = render_members false ms in
    ap (λ t. find_member_loop (suc (length t)) key t) (append_assoc inner (b'}' ∷ []) rest)
    ∙ find_member_loop-render _ key false ms rest
        (omega (arith, count-render_members false ms, length-append inner (b'}' ∷ rest)))

-- Nothing is found in a text that is no object.
pub find_member-array : (cs key : Bytes) → find_member (b'[' ∷ cs) key ≡ none
unfolding find_member eat_ws is_ws starts_with
find_member-array cs key = refl
