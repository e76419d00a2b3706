-- ===== src/Domain/JsonScan/Render.antt =====
-- The scanner on text that the writer has written: strings, brackets and numbers end where they should.
use stackchan_atoms3r.Base.{
  ℕ, zero, suc, ◌+◌, ◌-◌, ◌/◌, ◌≤◌, ◌<◌, Bool, true, false, List, [], ◌∷◌, ◌++◌, Option, none, some,
  ◌≡◌, refl, ◌==◌, if◌then◌else◌, length, get_or, Bytes, codes, arith, ◌∙◌, ap, All, append_assoc,
}
use Prim.Native.Nat.{bit_and}
use stackchan_atoms3r.Domain.JsonWriter.Document.{escape_char, escape}
use stackchan_atoms3r.Domain.JsonScan.{skip_contents, skip_levels, prepend}

get_or-All {κ} :
    {A : Type 0} (P : A → Type κ) (xs : List A) (i : ℕ) (d : A) → All P xs → P d → P (get_or xs i d)
get_or-All P [] i d h p = p
get_or-All P (x ∷ xs) zero d h p = h.0
get_or-All P (x ∷ xs) (suc i) d h p = get_or-All P xs i d h.1 p

abbrev Unquoted : ℕ → Type 0
Unquoted c = ((c == b'"') ≡ false) × ((c == b'\\') ≡ false)

hex_Unquoted : (i : ℕ) → Unquoted (get_or (codes "0123456789abcdef") i 0)
hex_Unquoted i =
    get_or-All Unquoted (codes "0123456789abcdef") i 0
      ((
        (refl, refl),
        (
          (refl, refl),
          (
            (refl, refl),
            (
              (refl, refl),
              (
                (refl, refl),
                (
                  (refl, refl),
                  (
                    (refl, refl),
                    (
                      (refl, refl),
                      (
                        (refl, refl),
                        (
                          (refl, refl),
                          (
                            (refl, refl),
                            (
                              (refl, refl),
                              ((refl, refl), ((refl, refl), ((refl, refl), ((refl, refl), tt)))),
                            ),
                          ),
                        ),
                      ),
                    ),
                  ),
                ),
              ),
            ),
          ),
        ),
      ))
      (refl, refl)

skip_contents_char :
    (c : ℕ) (s contents rest : Bytes)
    → skip_contents false s ≡ some (contents, rest)
    → skip_contents false (escape_char c ++ s) ≡ some (escape_char c ++ contents, rest)
unfolding escape_char skip_contents
skip_contents_char c s contents rest h =
    ground (arith, h, hex_Unquoted (bit_and (c / 16) 0x0F), hex_Unquoted (bit_and c 0x0F))

-- A string that the writer put is found whole.
pub skip_contents-escape :
    (s rest : Bytes) → skip_contents false (escape s ++ b'"' ∷ rest) ≡ some (escape s, rest)
unfolding escape
skip_contents-escape [] rest = unfold skip_contents in refl
skip_contents-escape (c ∷ cs) rest =
    ap (skip_contents false) (append_assoc (escape_char c) (escape cs) (b'"' ∷ rest))
    ∙ skip_contents_char c _ (escape cs) rest (skip_contents-escape cs rest)

-- The text behind what was found, if anything was, is shorter than this.
abbrev pub Shorter : ℕ → Option (Bytes × Bytes) → Type 0
Shorter n none = Unit
Shorter n (some (contents, rest)) = length rest < n

prepend-Shorter :
    (n c : ℕ) (o : Option (Bytes × Bytes)) → Shorter n o → Shorter (suc n) (prepend c o)
prepend-Shorter n c none h = tt
prepend-Shorter n c (some (contents, rest)) h = omega (arith, h)

if-Shorter :
    (n : ℕ) (b : Bool) (o p : Option (Bytes × Bytes))
    → Shorter n o
    → Shorter n p
    → Shorter n (if b then o else p)
if-Shorter n true o p f g = f
if-Shorter n false o p f g = g

pub skip_contents-Shorter : (b : Bool) (s : Bytes) → Shorter (length s) (skip_contents b s)
unfolding skip_contents
skip_contents-Shorter true [] = tt
skip_contents-Shorter false [] = tt
skip_contents-Shorter true (c ∷ cs) =
    prepend-Shorter (length cs) c _ (skip_contents-Shorter false cs)
skip_contents-Shorter false (c ∷ cs) =
    if-Shorter (suc (length cs)) (c == b'"') _ _ (omega arith)
      (prepend-Shorter (length cs) c _ (skip_contents-Shorter (c == b'\\') cs))

-- What the walk over a string of the container does next.
abbrev resume : ℕ → ℕ → Option (Bytes × Bytes) → Option Bytes
resume fuel depth none = none
resume fuel depth (some (contents, rest)) = skip_levels fuel depth rest

resume_enough :
    (fuel more depth n : ℕ) (o : Option (Bytes × Bytes))
    → Shorter n o
    → n ≤ suc fuel
    → n ≤ suc more
    → ((s : Bytes)
        → length s ≤ fuel
        → length s ≤ more
        → skip_levels fuel depth s ≡ skip_levels more depth s)
    → resume fuel depth o ≡ resume more depth o
resume_enough fuel more depth n none f h k same = refl
resume_enough fuel more depth n (some (contents, rest)) f h k same =
    same rest (omega (arith, f)) (omega (arith, f))

-- Fuel for every character is enough.
pub skip_levels_enough :
    (fuel more depth : ℕ) (s : Bytes)
    → length s ≤ fuel
    → length s ≤ more
    → skip_levels fuel depth s ≡ skip_levels more depth s
unfolding skip_levels
skip_levels_enough zero zero depth s h k = refl
skip_levels_enough zero (suc more) depth [] h k = refl
skip_levels_enough (suc fuel) zero depth [] h k = refl
skip_levels_enough zero (suc more) depth (c ∷ cs) h k = absurd (omega arith)
skip_levels_enough (suc fuel) zero depth (c ∷ cs) h k = absurd (omega arith)
skip_levels_enough (suc fuel) (suc more) depth [] h k = refl
skip_levels_enough (suc fuel) (suc more) depth (c ∷ cs) h k =
    let string =
      resume_enough fuel more depth (length cs) (skip_contents false cs)
        (skip_contents-Shorter false cs) (omega arith) (omega arith)
        (λ s f g. skip_levels_enough fuel more depth s f g) in
    ground (
      arith,
      string,
      skip_levels_enough fuel more (depth + 1) cs,
      skip_levels_enough fuel more (depth - 1) cs,
      skip_levels_enough fuel more depth cs,
    )
