-- ===== src/Domain/JsonScan/Progress.antt =====
-- The lenient search moves on with every member, so that its fuel is enough for any text.
use stackchan_atoms3r.Base.{
  ℕ, zero, suc, ◌+◌, ◌-◌, ◌≤◌, ◌<◌, Bool, true, false, [], ◌∷◌, Option, none, some, ◌≡◌, refl, ap,
  length, length-drop, ◌==◌, if◌then◌else◌, drop, Bytes, bytes_eq, arith,
}
use stackchan_atoms3r.Domain.JsonScan.{
  Value, ValueKind, is_gap, eat_ws, starts_with, skip_contents, skip_levels, skip_while,
  skip_number, number_char, keyword_starting_with, skip_keyword, skip_value, skip_member,
  find_member_loop, spanned_option, text_value, opens, closes, starts_keyword, starts_number,
}
use stackchan_atoms3r.Domain.JsonScan.Render.{Shorter, skip_contents-Shorter}

skip_while-le : (p : ℕ → Bool) (s : Bytes) → length (skip_while p s) ≤ length s
unfolding skip_while
skip_while-le p [] = omega arith
skip_while-le p (c ∷ cs) = ground (arith, skip_while-le p cs)

eat_ws-le : (s : Bytes) → length (eat_ws s) ≤ length s
unfolding eat_ws
eat_ws-le [] = omega arith
eat_ws-le (c ∷ cs) = ground (arith, eat_ws-le cs)

-- The text behind a value, if there is one, is shorter than this.
abbrev Moves : ℕ → Option Value → Type 0
Moves n none = Unit
Moves n (some v) = length v.rest < n

abbrev Within : ℕ → Option Bytes → Type 0
Within n none = Unit
Within n (some rest) = length rest ≤ n

Within-more : (n m : ℕ) (o : Option Bytes) → Within n o → n ≤ m → Within m o
Within-more n m none h k = tt
Within-more n m (some rest) h k = omega (arith, h)

resumed-Within :
    (fuel depth n : ℕ) (o : Option (Bytes × Bytes))
    → Shorter n o
    → ((s : Bytes) → Within (length s) (skip_levels fuel depth s))
    → Within n (elim o [ none ↦ none | some (contents, rest) ↦ skip_levels fuel depth rest ])
resumed-Within fuel depth n none h f = tt
resumed-Within fuel depth n (some (contents, rest)) h f =
    Within-more (length rest) n (skip_levels fuel depth rest) (f rest) (omega (arith, h))

if-Within :
    (n : ℕ) (b : Bool) (o p : Option Bytes)
    → Within n o
    → Within n p
    → Within n (if b then o else p)
if-Within n true o p h k = h
if-Within n false o p h k = k

behind_first : (s : Bytes) (o : Option Bytes) → Within (length (drop 1 s)) o → Within (length s) o
behind_first s o h = Within-more (length (drop 1 s)) (length s) o h (omega (arith, length-drop 1 s))

-- A walk that ends has passed the character it began with.
skip_levels-Within :
    (fuel depth : ℕ) (s : Bytes) → Within (length (drop 1 s)) (skip_levels fuel depth s)
unfolding skip_levels
skip_levels-Within zero depth s = tt
skip_levels-Within (suc fuel) depth [] = tt
skip_levels-Within (suc fuel) depth (c ∷ cs) =
    let n = length cs in
    let string =
      resumed-Within fuel depth n (skip_contents false cs) (skip_contents-Shorter false cs)
        (λ s. behind_first s (skip_levels fuel depth s) (skip_levels-Within fuel depth s)) in
    let deeper =
      behind_first cs (skip_levels fuel (depth + 1) cs) (skip_levels-Within fuel (depth + 1) cs) in
    let higher =
      behind_first cs (skip_levels fuel (depth - 1) cs) (skip_levels-Within fuel (depth - 1) cs) in
    let level = behind_first cs (skip_levels fuel depth cs) (skip_levels-Within fuel depth cs) in
    if-Within n (c == b'"') _ _ string (
      if-Within n (opens c) _ _ deeper (
        if-Within n (closes c) _ _ (if-Within n (depth - 1 == 0) (some cs) _ (omega arith) higher)
          level))

if-Moves :
    (n : ℕ) (b : Bool) (o p : Option Value) → Moves n o → Moves n p → Moves n (if b then o else p)
if-Moves n true o p h k = h
if-Moves n false o p h k = k

text_value-Moves : (n : ℕ) (o : Option (Bytes × Bytes)) → Shorter n o → Moves (suc n) (text_value o)
text_value-Moves n none h = tt
text_value-Moves n (some (contents, rest)) h = omega (arith, h)

spanned-Moves :
    (n : ℕ) (start : Bytes) (kind : ValueKind) (o : Option Bytes)
    → Within n o
    → Moves (suc n) (spanned_option start kind o)
spanned-Moves n start kind none h = tt
spanned-Moves n start kind (some rest) h = omega (arith, h)

keyword_long : (c : ℕ) → 1 ≤ length (keyword_starting_with c)
unfolding keyword_starting_with
keyword_long c = ground arith

skip_keyword-Moves : (c : ℕ) (cs : Bytes) → Moves (suc (length cs)) (skip_keyword c (c ∷ cs))
unfolding skip_keyword
skip_keyword-Moves c cs =
    let word = keyword_starting_with c in
    ground (arith, keyword_long c, length-drop (length word) (c ∷ cs))

skip_value-Moves : (s : Bytes) → Moves (length s) (skip_value s)
unfolding skip_value
skip_value-Moves [] = tt
skip_value-Moves (c ∷ cs) =
    let n = length cs in
    if-Moves (suc n) (c == b'"') _ _
      (text_value-Moves n (skip_contents false cs) (skip_contents-Shorter false cs))
      (if-Moves (suc n) (opens c) _ _
        (spanned-Moves n (c ∷ cs) _ (skip_levels (suc n) 0 (c ∷ cs))
          (skip_levels-Within (suc n) 0 (c ∷ cs)))
        (if-Moves (suc n) (starts_keyword c) _ _ (skip_keyword-Moves c cs) (
          if-Moves (suc n) (starts_number c) (some (skip_number (c ∷ cs))) none
            (let less = skip_while-le number_char cs in omega (arith, less)) tt)))

-- The text behind a member, if there is one, is shorter than this.
abbrev MovesOn : ℕ → Option (Bytes × Value) → Type 0
MovesOn n none = Unit
MovesOn n (some (key, v)) = length v.rest < n

named-MovesOn :
    (n m : ℕ) (key : Bytes) (o : Option Value)
    → Moves n o
    → n ≤ m
    → MovesOn m (elim o [ none ↦ none | some value ↦ some (key, value) ])
named-MovesOn n m key none h k = tt
named-MovesOn n m key (some v) h k = omega (arith, h)

if-MovesOn :
    (n : ℕ) (b : Bool) (o : Option (Bytes × Value))
    → MovesOn n o
    → MovesOn n (if b then o else none)
if-MovesOn n true o h = h
if-MovesOn n false o h = tt

member-MovesOn :
    (n : ℕ) (o : Option (Bytes × Bytes))
    → Shorter n o
    → MovesOn n (elim o [
      | none ↦ none
      | some (key, rest) ↦
          if starts_with b':' (eat_ws rest)
          then (elim (skip_value (eat_ws (drop 1 (eat_ws rest)))) [
            | none ↦ none
            | some value ↦ some (key, value)
          ])
          else none
    ])
member-MovesOn n none h = tt
member-MovesOn n (some (key, rest)) h =
    let start = eat_ws (drop 1 (eat_ws rest)) in
    if-MovesOn n (starts_with b':' (eat_ws rest)) _ (
      named-MovesOn (length start) n key (skip_value start) (skip_value-Moves start) (
        omega (
          arith,
          h,
          eat_ws-le rest,
          eat_ws-le (drop 1 (eat_ws rest)),
          length-drop 1 (eat_ws rest),
        )))

Shorter-more : (n : ℕ) (o : Option (Bytes × Bytes)) → Shorter n o → Shorter (suc n) o
Shorter-more n none h = tt
Shorter-more n (some (contents, rest)) h = omega (arith, h)

skip_member-MovesOn : (s : Bytes) → MovesOn (length s) (skip_member s)
unfolding skip_member starts_with
skip_member-MovesOn [] = tt
skip_member-MovesOn (c ∷ cs) = if-MovesOn (suc (length cs)) (c == b'"') _ (
    member-MovesOn (suc (length cs)) (skip_contents false cs)
      (Shorter-more (length cs) (skip_contents false cs) (skip_contents-Shorter false cs)))

-- What the loop does with the member it has found.
abbrev continue_with : ℕ → Bytes → Option (Bytes × Value) → Option (Bytes × ValueKind)
continue_with fuel key none = none
continue_with fuel key (some (member_key, value)) = elim (bytes_eq member_key key) [
  | true ↦ some (value.span, value.kind)
  | false ↦ find_member_loop fuel key value.rest
]

continue_enough :
    (fuel more n : ℕ) (key : Bytes) (o : Option (Bytes × Value))
    → MovesOn n o
    → n ≤ fuel
    → n ≤ more
    → ((s : Bytes)
        → length s < fuel
        → length s < more
        → find_member_loop fuel key s ≡ find_member_loop more key s)
    → continue_with fuel key o ≡ continue_with more key o
continue_enough fuel more n key none m h k same = refl
continue_enough fuel more n key (some (member_key, value)) m h k same =
    let rest = same value.rest (omega (arith, m)) (omega (arith, m)) in ground (arith, rest)

-- Fuel for every character of a text is enough: with more, the search finds the same.
pub find_member_loop_enough :
    (fuel more : ℕ) (key s : Bytes)
    → length s < fuel
    → length s < more
    → find_member_loop fuel key s ≡ find_member_loop more key s
unfolding find_member_loop
find_member_loop_enough zero more key s h k = absurd (omega arith)
find_member_loop_enough (suc fuel) zero key s h k = absurd (omega arith)
find_member_loop_enough (suc fuel) (suc more) key s h k =
    let start = skip_while is_gap s in
    let next =
      continue_enough fuel more (length start) key (skip_member start) (skip_member-MovesOn start)
        (omega (arith, h, skip_while-le is_gap s)) (omega (arith, k, skip_while-le is_gap s))
        (λ t f g. find_member_loop_enough fuel more key t f g) in
    ap (λ o. if starts_with b'}' start then none else o) next
