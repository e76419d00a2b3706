-- ===== src/Domain/JsonScan/Checked.antt =====
-- The strict walk of src/core/stackchan_domain/src/json_scan.cpp: `skip_checked_*`,
-- `checked_key_appeared_before` and `json_find_object_checked`.
use stackchan_atoms3r.Base.{
  ℕ, zero, suc, ◌+◌, ◌-◌, ◌*◌, Bool, true, false, not, ◌||◌, [], ◌∷◌, Option, none, some, ltb, leb,
  ◌==◌, if◌then◌else◌, within, length, drop, Bytes, bytes_eq, bind_option,
}
use stackchan_atoms3r.Domain.JsonScan.{
  Value, ValueKind, number, object, array, eat_ws, starts_with, is_digit, spanned_option,
  text_value, opens, starts_keyword, starts_number, skip_keyword, skip_while, prepend,
}

abbrev pub max_checked_json_depth : ℕ
max_checked_json_depth = 16

abbrev pub is_hex_digit : ℕ → Bool
is_hex_digit c = is_digit c || within b'a' b'f' c || within b'A' b'F' c

abbrev pub simple_escape : ℕ → Bool
simple_escape e =
    e == b'"'
    || e == b'\\'
    || e == b'/'
    || e == b'b'
    || e == b'f'
    || e == b'n'
    || e == b'r'
    || e == b't'

-- Where the loop of `skip_checked_string` stands: at a character, behind a backslash, or with this
-- many digits of a unicode escape to come.
pub data Place : Type 0 where
  plain escaped : Place
  digits : ℕ → Place

abbrev pub digits_left : ℕ → Place
digits_left zero = plain
digits_left (suc n) = digits (suc n)

-- The loop of `skip_checked_string`: the contents and the text behind the closing quote.
unfoldable pub checked_contents : Bool → Place → Bytes → Option (Bytes × Bytes)
checked_contents unicode _ [] = none
checked_contents unicode plain (c ∷ cs) =
    let longer = prepend c (checked_contents unicode (if c == b'\\' then escaped else plain) cs) in
    if ltb c 0x20 then none else if c == b'"' then some ([], cs) else longer
checked_contents unicode escaped (e ∷ cs) =
    let longer =
      prepend e (checked_contents unicode (if simple_escape e then plain else digits 4) cs) in
    if simple_escape e then longer else if not (e == b'u') || not unicode then none else longer
checked_contents unicode (digits n) (d ∷ cs) =
    let longer = prepend d (checked_contents unicode (digits_left (n - 1)) cs) in
    if is_hex_digit d then longer else none

unfoldable pub skip_checked_string : Bool → Bytes → Option (Bytes × Bytes)
skip_checked_string unicode s =
    if starts_with b'"' s then checked_contents unicode plain (drop 1 s) else none

abbrev head_is : (ℕ → Bool) → Bytes → Bool
head_is p [] = false
head_is p (c ∷ cs) = p c

-- `s[i] < '0' || s[i] > '9'` fails, then the loop over the digits.
abbrev one_or_more_digits : Bytes → Option Bytes
one_or_more_digits s = if head_is is_digit s then some (skip_while is_digit s) else none

abbrev checked_whole : Bytes → Option Bytes
checked_whole s =
    if starts_with b'0' s
    then (if head_is is_digit (drop 1 s) then none else some (drop 1 s))
    else if head_is (within b'1' b'9') s
    then some (skip_while is_digit s)
    else none

abbrev checked_fraction : Bytes → Option Bytes
checked_fraction s = if starts_with b'.' s then one_or_more_digits (drop 1 s) else some s

abbrev checked_exponent : Bytes → Option Bytes
checked_exponent s =
    if head_is (λ c. c == b'e' || c == b'E') s
    then (if head_is (λ c. c == b'+' || c == b'-') (drop 1 s)
        then one_or_more_digits (drop 2 s)
        else one_or_more_digits (drop 1 s))
    else some s

pub skip_checked_number : Bytes → Option Value
skip_checked_number s =
    let unsigned = if starts_with b'-' s then drop 1 s else s in
    spanned_option s number
      (bind_option (bind_option (checked_whole unsigned) checked_fraction) checked_exponent)

-- `checked_key_appeared_before`, for a walk that checks for duplicates: of the object's text, how much
-- of it is left at `before`, the key and the depth.
abbrev pub Appeared : Type 0
Appeared = Bytes → ℕ → Bytes → ℕ → Bool

-- `check_duplicates` is false.
abbrev never_appeared : Appeared
never_appeared _ _ _ _ = false

-- The four functions of the source on fuel. Each call but the first stands at a later character.
mutual
  pub skip_checked_value : Appeared → ℕ → ℕ → Bytes → Option Value
  skip_checked_value appeared zero depth s = none
  skip_checked_value appeared (suc fuel) depth [] = none
  skip_checked_value appeared (suc fuel) depth (c ∷ cs) =
      if c == b'"'
      then text_value (skip_checked_string true (c ∷ cs))
      else if opens c
      then (elim (leb max_checked_json_depth depth) [
        | true ↦ none
        | false ↦ elim (c == b'{') [
          | true ↦
              spanned_option (c ∷ cs) object
                (skip_checked_object appeared fuel (depth + 1) (c ∷ cs))
          | false ↦
              spanned_option (c ∷ cs) array (skip_checked_array appeared fuel (depth + 1) (c ∷ cs))
        ]
      ])
      else if starts_keyword c
      then skip_keyword c (c ∷ cs)
      else if starts_number c
      then skip_checked_number (c ∷ cs)
      else none

  pub skip_checked_object : Appeared → ℕ → ℕ → Bytes → Option Bytes
  skip_checked_object appeared zero depth s = none
  skip_checked_object appeared (suc fuel) depth s =
      if starts_with b'}' (eat_ws (drop 1 s))
      then some (drop 1 (eat_ws (drop 1 s)))
      else checked_members appeared fuel depth s (eat_ws (drop 1 s))

  -- The loop of `skip_checked_object` over the members of the object whose text is `start`.
  checked_members : Appeared → ℕ → ℕ → Bytes → Bytes → Option Bytes
  checked_members appeared zero depth start s = none
  checked_members appeared (suc fuel) depth start s = elim (skip_checked_string false s) [
    | none ↦ none
    | some (key, rest) ↦
        if appeared start (length s) key depth || not (starts_with b':' (eat_ws rest))
        then none
        else (elim (skip_checked_value appeared fuel depth (eat_ws (drop 1 (eat_ws rest)))) [
          | none ↦ none
          | some value ↦
              if starts_with b'}' (eat_ws value.rest)
              then some (drop 1 (eat_ws value.rest))
              else if not (starts_with b',' (eat_ws value.rest))
                  || starts_with b'}' (eat_ws (drop 1 (eat_ws value.rest)))
              then none
              else checked_members appeared fuel depth start (eat_ws (drop 1 (eat_ws value.rest)))
        ])
  ]

  pub skip_checked_array : Appeared → ℕ → ℕ → Bytes → Option Bytes
  skip_checked_array appeared zero depth s = none
  skip_checked_array appeared (suc fuel) depth s =
      if starts_with b']' (eat_ws (drop 1 s))
      then some (drop 1 (eat_ws (drop 1 s)))
      else checked_elements appeared fuel depth (eat_ws (drop 1 s))

  -- The loop of `skip_checked_array`.
  checked_elements : Appeared → ℕ → ℕ → Bytes → Option Bytes
  checked_elements appeared zero depth s = none
  checked_elements appeared (suc fuel) depth s = elim (skip_checked_value appeared fuel depth s) [
    | none ↦ none
    | some value ↦
        if starts_with b']' (eat_ws value.rest)
        then some (drop 1 (eat_ws value.rest))
        else if not (starts_with b',' (eat_ws value.rest))
            || starts_with b']' (eat_ws (drop 1 (eat_ws value.rest)))
        then none
        else checked_elements appeared fuel depth (eat_ws (drop 1 (eat_ws value.rest)))
  ]

-- The loop of `checked_key_appeared_before`: `before` is what is left of the text there.
appeared_loop : ℕ → ℕ → Bytes → ℕ → Bytes → Bool
appeared_loop zero before key depth s = true
appeared_loop (suc fuel) before key depth s =
    if leb (length s) before
    then not (length s == before)
    else (elim (skip_checked_string false s) [
      | none ↦ true
      | some (earlier, rest) ↦
          if bytes_eq earlier key
            || leb (length (eat_ws rest)) before
            || not (starts_with b':' (eat_ws rest))
          then true
          else (elim (skip_checked_value never_appeared fuel depth
              (eat_ws (drop 1 (eat_ws rest)))) [
                | none ↦ true
                | some value ↦
                    if leb (length (eat_ws value.rest)) before
                    then not (length (eat_ws value.rest) == before)
                    else if not (starts_with b',' (eat_ws value.rest))
                    then true
                    else appeared_loop fuel before key depth (eat_ws (drop 1 (eat_ws value.rest)))
              ])
    ])

-- Three levels of calls to a character are fuel enough.
pub checked_key_appeared_before : Appeared
unfolding appeared_loop
checked_key_appeared_before start before key depth =
    if not (starts_with b'{' start)
    then true
    else appeared_loop (3 * length start + 3) before key depth (eat_ws (drop 1 start))

pub data JsonMemberResult : Type 0 where
  found : Bytes → JsonMemberResult
  missing invalid : JsonMemberResult

abbrev ended : Option Bytes → Bytes → JsonMemberResult
ended none [] = missing
ended (some span) [] = found span
ended _ (_ ∷ _) = invalid

abbrev object_span : ValueKind → Bytes → Option (Option Bytes)
object_span object span = some (some span)
object_span _ span = none

-- The candidate so far, and whether the member has the key: with the key a value has to be an object,
-- and the first with it.
abbrev candidate : Option Bytes → Bool → Value → Option (Option Bytes)
candidate sofar false value = some sofar
candidate none true value = object_span value.kind value.span
candidate (some _) true value = none

-- The loop of `json_find_object_checked`, on fuel.
checked_loop : ℕ → Bytes → Bytes → Option Bytes → Bytes → JsonMemberResult
checked_loop zero start key sofar s = invalid
checked_loop (suc fuel) start key sofar s = elim (skip_checked_string false s) [
  | none ↦ invalid
  | some (member_key, rest) ↦
      if checked_key_appeared_before start (length s) member_key 0
        || not (starts_with b':' (eat_ws rest))
      then invalid
      else (elim (skip_checked_value checked_key_appeared_before (3 * length rest) 0
          (eat_ws (drop 1 (eat_ws rest)))) [
            | none ↦ invalid
            | some value ↦ elim (candidate sofar (bytes_eq member_key key) value) [
              | none ↦ invalid
              | some now ↦
                  if starts_with b'}' (eat_ws value.rest)
                  then ended now (eat_ws (drop 1 (eat_ws value.rest)))
                  else if not (starts_with b',' (eat_ws value.rest))
                      || starts_with b'}' (eat_ws (drop 1 (eat_ws value.rest)))
                  then invalid
                  else checked_loop fuel start key now (eat_ws (drop 1 (eat_ws value.rest)))
            ]
          ])
]

pub json_find_object_checked : Bytes → Bytes → JsonMemberResult
unfolding checked_loop
json_find_object_checked text key =
    if not (starts_with b'{' (eat_ws text))
    then invalid
    else if starts_with b'}' (eat_ws (drop 1 (eat_ws text)))
    then ended none (eat_ws (drop 1 (eat_ws (drop 1 (eat_ws text)))))
    else checked_loop (length text) (eat_ws text) key none (eat_ws (drop 1 (eat_ws text)))
