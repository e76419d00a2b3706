-- ===== src/Domain/JsonScan/Unescape.antt =====
-- `json_unescape` undoes the escapes of the writer, within its capacity.
use stackchan_atoms3r.Base.{
  ℕ, zero, suc, ◌≤◌, Bool, true, false, not, ◌&&◌, ◌||◌, [], ◌∷◌, ◌++◌, Option, none, some, ◌≡◌,
  ltb, leb, ◌==◌, if◌then◌else◌, length, Bytes, arith, ◌∙◌, subst,
}
use stackchan_atoms3r.Domain.JsonWriter.Document.{escape_char, escape}
use stackchan_atoms3r.Domain.JsonScan.{write, unescaped_char, unescape_loop, json_unescape}

-- A character that the writer puts as it is, or behind a backslash.
abbrev pub has_short_form : ℕ → Bool
has_short_form c = not (ltb c 0x20) || c == 10 || c == 13 || c == 9 || c == 8 || c == 12

abbrev pub all_short : Bytes → Bool
all_short [] = true
all_short (c ∷ cs) = has_short_form c && all_short cs

unescape_char :
    (c : ℕ) (rest : Bytes) (left : ℕ)
    → unescape_loop false (escape_char c ++ rest) left
      ≡ (if has_short_form c then write c left (unescape_loop false rest) else none)
unfolding escape_char unescape_loop unescaped_char
unescape_char c rest left = ground arith

-- Reading back what the writer escaped gives the text if every character has a short form and the text
-- fits; otherwise it is refused.
pub json_unescape-escape :
    (s : Bytes) (capacity : ℕ)
    → json_unescape (escape s) capacity
      ≡ (if all_short s && leb (length s) capacity then some s else none)
unfolding escape
json_unescape-escape [] capacity = unfold unescape_loop in ground arith
json_unescape-escape (c ∷ cs) zero = unescape_char c (escape cs) zero ∙ ground arith
json_unescape-escape (c ∷ cs) (suc left) =
    unescape_char c (escape cs) (suc left) ∙ ground (arith, json_unescape-escape cs left)

-- The result, if there is one, has no more than so many characters.
abbrev Fits : ℕ → ℕ → Option Bytes → Type 0
Fits left size none = Unit
Fits left size (some out) = (length out ≤ left) × (length out ≤ size)

write-Fits :
    (c left size : ℕ) (further : ℕ → Option Bytes)
    → ((n : ℕ) → Fits n size (further n))
    → Fits left (suc size) (write c left further)
write-Fits c zero size further h = tt
write-Fits c (suc left) size further h = go (further left) (h left)
  where
    go :
        (o : Option Bytes)
        → Fits left size o
        → Fits (suc left) (suc size) (elim o [ none ↦ none | some cs ↦ some (c ∷ cs) ])
    go none f = tt
    go (some cs) f = (omega (arith, f.0), omega (arith, f.1))

Fits-more : (left size : ℕ) (o : Option Bytes) → Fits left size o → Fits left (suc size) o
Fits-more left size none f = tt
Fits-more left size (some out) f = (f.0, omega (arith, f.1))

branch-Fits :
    (b : Bool) (left size : ℕ) (x y : Option Bytes)
    → Fits left size x
    → Fits left (suc size) y
    → Fits left (suc size) (elim b [ true ↦ x | false ↦ y ])
branch-Fits true left size x y f g = Fits-more left size x f
branch-Fits false left size x y f g = g

chosen-Fits :
    (o : Option ℕ) (left size : ℕ) (further : ℕ → Option Bytes)
    → ((n : ℕ) → Fits n size (further n))
    → Fits left (suc size) (elim o [ none ↦ none | some d ↦ write d left further ])
chosen-Fits none left size further h = tt
chosen-Fits (some d) left size further h = write-Fits d left size further h

unescape_loop-Fits :
    (escaped : Bool) (raw : Bytes) (left : ℕ)
    → Fits left (length raw) (unescape_loop escaped raw left)
unfolding unescape_loop
unescape_loop-Fits false [] left = (omega arith, omega arith)
unescape_loop-Fits true [] left = tt
unescape_loop-Fits false (c ∷ cs) left =
    branch-Fits (c == b'\\') left (length cs) _ _ (unescape_loop-Fits true cs left)
      (write-Fits c left (length cs) _ (λ n. unescape_loop-Fits false cs n))
unescape_loop-Fits true (c ∷ cs) left =
    chosen-Fits (unescaped_char c) left (length cs) _ (λ n. unescape_loop-Fits false cs n)

-- A result never has more characters than the capacity, nor more than the text.
pub json_unescape_bounded :
    (raw : Bytes) (capacity : ℕ) (out : Bytes)
    → json_unescape raw capacity ≡ some out
    → (length out ≤ capacity) × (length out ≤ length raw)
json_unescape_bounded raw capacity out h =
    subst (Fits capacity (length raw)) h (unescape_loop-Fits false raw capacity)
