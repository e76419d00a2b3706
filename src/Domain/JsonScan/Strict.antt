-- ===== src/Domain/JsonScan/Strict.antt =====
-- The strict walk over a string agrees with the lenient one wherever it accepts.
use stackchan_atoms3r.Base.{
  ℕ, zero, suc, ◌-◌, Bool, true, false, [], ◌∷◌, Option, none, some, ◌≡◌, ◌⊎◌, inl, inr, refl, ap,
  subst, drop, Bytes, arith,
}
use stackchan_atoms3r.Domain.JsonScan.{prepend, skip_contents, skip_string}
use stackchan_atoms3r.Domain.JsonScan.Checked.{
  Place, plain, escaped, digits, digits_left, checked_contents, skip_checked_string,
}

-- The first refuses, or it agrees with the second.
abbrev Refines : Option (Bytes × Bytes) → Option (Bytes × Bytes) → Type 0
Refines o p = (o ≡ none) ⊎ (o ≡ p)

prepend-Refines :
    (c : ℕ) (o p : Option (Bytes × Bytes)) → Refines o p → Refines (prepend c o) (prepend c p)
prepend-Refines c o p (inl e) = inl (ap (prepend c) e)
prepend-Refines c o p (inr e) = inr (ap (prepend c) e)

abbrev behind_backslash : Place → Bool
behind_backslash plain = false
behind_backslash escaped = true
behind_backslash (digits n) = false

behind_digits_left : (n : ℕ) → behind_backslash (digits_left n) ≡ false
behind_digits_left zero = refl
behind_digits_left (suc n) = refl

checked_contents-Refines :
    (unicode : Bool) (place : Place) (s : Bytes)
    → Refines (checked_contents unicode place s) (skip_contents (behind_backslash place) s)
unfolding checked_contents skip_contents
checked_contents-Refines unicode plain [] = inl refl
checked_contents-Refines unicode escaped [] = inl refl
checked_contents-Refines unicode (digits n) [] = inl refl
checked_contents-Refines unicode plain (c ∷ cs) =
    let at_escape = prepend-Refines c _ _ (checked_contents-Refines unicode escaped cs) in
    let at_plain = prepend-Refines c _ _ (checked_contents-Refines unicode plain cs) in
    ground (arith, at_escape, at_plain)
checked_contents-Refines unicode escaped (c ∷ cs) =
    let at_digits = prepend-Refines c _ _ (checked_contents-Refines unicode (digits 4) cs) in
    let at_plain = prepend-Refines c _ _ (checked_contents-Refines unicode plain cs) in
    ground (arith, at_digits, at_plain)
checked_contents-Refines unicode (digits n) (c ∷ cs) =
    let left = checked_contents-Refines unicode (digits_left (n - 1)) cs in
    let seen =
      subst (λ b. Refines (checked_contents unicode (digits_left (n - 1)) cs) (skip_contents b cs))
        (behind_digits_left (n - 1)) left in
    let further = prepend-Refines c _ _ seen in ground (arith, further)

-- A string that the strict walk accepts, with or without unicode escapes, is found by the lenient walk
-- with the same contents and the same text behind it.
pub skip_string-skip_checked_string :
    (unicode : Bool) (s contents rest : Bytes)
    → skip_checked_string unicode s ≡ some (contents, rest)
    → skip_string s ≡ some (contents, rest)
unfolding skip_checked_string
skip_string-skip_checked_string unicode s contents rest h =
    ground (arith, checked_contents-Refines unicode plain (drop 1 s), h)
