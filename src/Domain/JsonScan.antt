-- ===== src/Domain/JsonScan.antt =====
-- src/core/stackchan_domain/src/json_scan.cpp: searching the text of an object without building a
-- tree. The position `i` in the text is what is left of the text from `i` on; a `string_view` that a
-- function returns is the bytes it covers.
pub mod Checked
mod Strict
mod Progress
mod Render
mod Brackets
mod Numbers
pub mod Found
pub mod Integers
pub mod Unescape
mod Examples
use stackchan_atoms3r.Base.{
  ℕ, zero, suc, ◌+◌, ◌-◌, ◌*◌, Bool, true, false, not, ◌&&◌, ◌||◌, List, [], ◌∷◌, ◌++◌, Option,
  none, some, ltb, leb, ◌==◌, if◌then◌else◌, within, length, take, drop, Bytes, codes, bytes_eq,
}
use stackchan_atoms3r.Base.Int.{ℤ, pos, neg_ℕ}

pub data ValueKind : Type 0 where
  string number boolean null object array : ValueKind

-- The value that was found, and the text behind it.
pub record Value : Type 0 where
  pub span : Bytes
  pub kind : ValueKind
  pub rest : Bytes

pub is_ws : ℕ → Bool
is_ws c = c == b' ' || c == 9 || c == 10 || c == 13

pub eat_ws : Bytes → Bytes
eat_ws [] = []
eat_ws (c ∷ cs) = if is_ws c then eat_ws cs else c ∷ cs

-- `s.substr(start, i - start)`: the text `start` up to where `rest` begins.
pub span_between : Bytes → Bytes → Bytes
span_between start rest = take (length start - length rest) start

abbrev pub prepend : ℕ → Option (Bytes × Bytes) → Option (Bytes × Bytes)
prepend c none = none
prepend c (some (contents, rest)) = some (c ∷ contents, rest)

-- The loop of `skip_string`: the contents and the text behind the closing quote. The flag is whether
-- the character stands behind a backslash, which `i += 2` jumps over.
unfoldable pub skip_contents : Bool → Bytes → Option (Bytes × Bytes)
skip_contents _ [] = none
skip_contents true (c ∷ cs) = prepend c (skip_contents false cs)
skip_contents false (c ∷ cs) =
    let longer = prepend c (skip_contents (c == b'\\') cs) in
    if c == b'"' then some ([], cs) else longer

-- The text at its opening quote.
abbrev pub skip_string : Bytes → Option (Bytes × Bytes)
skip_string s = skip_contents false (drop 1 s)

abbrev pub opens : ℕ → Bool
opens c = c == b'{' || c == b'['

abbrev pub closes : ℕ → Bool
closes c = c == b'}' || c == b']'

-- The loop of `skip_container`, on fuel: the text behind the bracket that closes the outermost level.
unfoldable pub skip_levels : ℕ → ℕ → Bytes → Option Bytes
skip_levels zero depth s = none
skip_levels (suc fuel) depth [] = none
skip_levels (suc fuel) depth (c ∷ cs) =
    if c == b'"'
    then (elim (skip_contents false cs) [
      | none ↦ none
      | some (contents, rest) ↦ skip_levels fuel depth rest
    ])
    else if opens c
    then skip_levels fuel (depth + 1) cs
    else if closes c
    then (if depth - 1 == 0 then some cs else skip_levels fuel (depth - 1) cs)
    else skip_levels fuel depth cs

abbrev pub spanned : Bytes → ValueKind → Bytes → Value
spanned start kind rest = record { span = span_between start rest; kind = kind; rest = rest }

abbrev pub spanned_option : Bytes → ValueKind → Option Bytes → Option Value
spanned_option start kind none = none
spanned_option start kind (some rest) = some (spanned start kind rest)

abbrev pub skip_container : ValueKind → Bytes → Option Value
skip_container kind s = spanned_option s kind (skip_levels (length s) 0 s)

abbrev pub is_digit : ℕ → Bool
is_digit d = within b'0' b'9' d

abbrev pub number_char : ℕ → Bool
number_char d = is_digit d || d == b'.' || d == b'e' || d == b'E' || d == b'+' || d == b'-'

unfoldable pub skip_while : (ℕ → Bool) → Bytes → Bytes
skip_while p [] = []
skip_while p (c ∷ cs) = if p c then skip_while p cs else c ∷ cs

abbrev pub skip_number : Bytes → Value
skip_number s = spanned s number (skip_while number_char (drop 1 s))

pub keyword_starting_with : ℕ → Bytes
keyword_starting_with c =
    if c == b't' then codes "true" else if c == b'f' then codes "false" else codes "null"

unfoldable pub skip_keyword : ℕ → Bytes → Option Value
skip_keyword c s =
    let word = keyword_starting_with c in
    if not (bytes_eq (take (length word) s) word)
    then none
    else some (record {
      span = word;
      kind = if c == b'n' then null else boolean;
      rest = drop (length word) s;
    })

abbrev pub starts_keyword : ℕ → Bool
starts_keyword c = c == b't' || c == b'f' || c == b'n'

abbrev pub starts_number : ℕ → Bool
starts_number c = c == b'-' || is_digit c

abbrev pub text_value : Option (Bytes × Bytes) → Option Value
text_value none = none
text_value (some (contents, rest)) = some (record { span = contents; kind = string; rest = rest })

unfoldable pub skip_value : Bytes → Option Value
skip_value [] = none
skip_value (c ∷ cs) =
    if c == b'"'
    then text_value (skip_string (c ∷ cs))
    else if opens c
    then skip_container (if c == b'{' then object else array) (c ∷ cs)
    else if starts_keyword c
    then skip_keyword c (c ∷ cs)
    else if starts_number c
    then some (skip_number (c ∷ cs))
    else none

abbrev pub is_gap : ℕ → Bool
is_gap c = is_ws c || c == b','

-- What stands at a position: `i < s.size() && s[i] == c`.
pub starts_with : ℕ → Bytes → Bool
starts_with c [] = false
starts_with c (d ∷ ds) = d == c

-- A member of an object, from its key on: the key and the value.
unfoldable pub skip_member : Bytes → Option (Bytes × Value)
skip_member s =
    if starts_with b'"' s
    then (elim (skip_string s) [
      | none ↦ none
      | some (key, rest) ↦
          if starts_with b':' (eat_ws rest)
          then (elim (skip_value (eat_ws (drop 1 (eat_ws rest)))) [
            | none ↦ none
            | some value ↦ some (key, value)
          ])
          else none
    ])
    else none

-- The loop of `find_member`, on fuel.
unfoldable pub find_member_loop : ℕ → Bytes → Bytes → Option (Bytes × ValueKind)
find_member_loop zero key s = none
find_member_loop (suc fuel) key s =
    if starts_with b'}' (skip_while is_gap s)
    then none
    else (elim (skip_member (skip_while is_gap s)) [
      | none ↦ none
      | some (member_key, value) ↦ elim (bytes_eq member_key key) [
        | true ↦ some (value.span, value.kind)
        | false ↦ find_member_loop fuel key value.rest
      ]
    ])

-- Every round moves on, so that the length of the text is fuel enough.
unfoldable pub find_member : Bytes → Bytes → Option (Bytes × ValueKind)
find_member text key =
    if starts_with b'{' (eat_ws text)
    then find_member_loop (length text) key (drop 1 (eat_ws text))
    else none

-- The parts of the searches behind `find_member`.
abbrev pub string_found : Option (Bytes × ValueKind) → Option Bytes
string_found (some (span, string)) = some span
string_found _ = none

abbrev pub object_found : Option (Bytes × ValueKind) → Option Bytes
object_found (some (span, object)) = some span
object_found _ = none

abbrev pub bool_found : Option (Bytes × ValueKind) → Option Bool
bool_found (some (span, boolean)) = some (bytes_eq span (codes "true"))
bool_found _ = none

unfoldable pub json_find_raw_string : Bytes → Bytes → Option Bytes
json_find_raw_string text key = string_found (find_member text key)

unfoldable pub json_find_object : Bytes → Bytes → Option Bytes
json_find_object text key = object_found (find_member text key)

unfoldable pub json_find_bool : Bytes → Bytes → Option Bool
json_find_bool text key = bool_found (find_member text key)

-- What reading an integer comes to. `undefined` is a value that leaves the 64-bit range with a sign,
-- which the source does not test for and the language does not define.
pub data Parsed (A : Type 0) : Type 0 where
  refused undefined : Parsed A
  parsed : A → Parsed A

abbrev pub int64_bound : ℕ
int64_bound = 9223372036854775808

-- The loop over the digits.
unfoldable pub integer_digits : ℕ → Bytes → Parsed ℕ
integer_digits value [] = parsed value
integer_digits value (c ∷ cs) =
    let rest = integer_digits (value * 10 + (c - b'0')) cs in
    if not (is_digit c)
    then refused
    else if leb int64_bound (value * 10 + (c - b'0'))
    then undefined
    else rest

abbrev pub signed : (ℕ → ℤ) → Parsed ℕ → Parsed ℤ
signed sign refused = refused
signed sign undefined = undefined
signed sign (parsed n) = parsed (sign n)

-- The part of `json_find_integer` behind the sign: there has to be something.
abbrev pub unsigned : (ℕ → ℤ) → Bytes → Parsed ℤ
unsigned sign [] = refused
unsigned sign (c ∷ cs) = signed sign (integer_digits 0 (c ∷ cs))

unfoldable pub integer_of : Bytes → Parsed ℤ
integer_of [] = refused
integer_of (c ∷ cs) = if c == b'-' then unsigned neg_ℕ cs else unsigned pos (c ∷ cs)

-- The part of `json_find_integer` behind the search.
abbrev pub integer_found : Option (Bytes × ValueKind) → Parsed ℤ
integer_found (some (span, number)) = integer_of span
integer_found _ = refused

unfoldable pub json_find_integer : Bytes → Bytes → Parsed ℤ
json_find_integer text key = integer_found (find_member text key)

-- The `switch` of `json_unescape`.
unfoldable pub unescaped_char : ℕ → Option ℕ
unescaped_char e =
    if e == b'"'
    then some b'"'
    else if e == b'\\'
    then some b'\\'
    else if e == b'/'
    then some b'/'
    else if e == b'b'
    then some 8
    else if e == b'f'
    then some 12
    else if e == b'n'
    then some 10
    else if e == b'r'
    then some 13
    else if e == b't'
    then some 9
    else none

-- `out[written++] = c` with the capacity that is left, and the rest of the text behind it.
abbrev pub write : ℕ → ℕ → (ℕ → Option Bytes) → Option Bytes
write c zero further = none
write c (suc left) further = elim (further left) [ none ↦ none | some cs ↦ some (c ∷ cs) ]

-- The loop of `json_unescape`, for what it writes to an `out` that is there; `SIZE_MAX` is `none`. The
-- flag is whether the character stands behind a backslash.
unfoldable pub unescape_loop : Bool → Bytes → ℕ → Option Bytes
unescape_loop false [] left = some []
unescape_loop true [] left = none
unescape_loop false (c ∷ cs) left = elim (c == b'\\') [
  | true ↦ unescape_loop true cs left
  | false ↦ write c left (unescape_loop false cs)
]
unescape_loop true (c ∷ cs) left = elim (unescaped_char c) [
  | none ↦ none
  | some d ↦ write d left (unescape_loop false cs)
]

abbrev pub json_unescape : Bytes → ℕ → Option Bytes
json_unescape raw capacity = unescape_loop false raw capacity
