-- ===== src/Runtime/Mailbox/Ring.antt =====
-- The values that a ring holds, oldest first, and how a write to one slot changes them.
use native.Mathlib.Nat.{mod-add-div, mod-add-mod}
use stackchan_atoms3r.Base.{
  ℕ, zero, suc, ◌+◌, ◌%◌, ◌≤◌, ◌<◌, List, [], ◌∷◌, ◌++◌, ◌≡◌, ◌≢◌, refl, ap, sym, ◌∙◌, get_or, set,
  length, arith, get_or-set_ne,
}

-- Two numbers less than `n` apart differ modulo `n`.
pub mod_ne : (n a b : ℕ) → a < b → b < a + n → a % n ≢ b % n
mod_ne n a b lt close e = grind (arith, mod-add-div a n, mod-add-div b n)

module _ {A : Type 0} (capacity : ℕ) (blank : A) where
  -- `n` values from position `h` on, positions being taken modulo the capacity.
  abbrev pub items : List A → ℕ → ℕ → List A
  items slots h zero = []
  items slots h (suc n) = get_or slots (h % capacity) blank ∷ items slots (h + 1) n

  pub length-items : (slots : List A) (h n : ℕ) → length (items slots h n) ≡ n
  length-items slots h zero = refl
  length-items slots h (suc n) = ap suc (length-items slots (h + 1) n)

  pub items-mod :
      (slots : List A) (h k n : ℕ) → h % capacity ≡ k % capacity → items slots h n ≡ items slots k n
  items-mod slots h k zero e = refl
  items-mod slots h k (suc n) e =
      let next : (h + 1) % capacity ≡ (k + 1) % capacity =
        sym (mod-add-mod h capacity 1)
        ∙ ap (λ x. (x + 1) % capacity) e
        ∙ mod-add-mod k capacity 1 in
      cc (items-mod slots (h + 1) (k + 1) n next)

  pub items-snoc :
      (slots : List A) (h n : ℕ)
      → items slots h (suc n) ≡ items slots h n ++ get_or slots ((h + n) % capacity) blank ∷ []
  items-snoc slots h zero =
      let e : h ≡ h + 0 = omega arith in ap (λ x. get_or slots (x % capacity) blank ∷ []) e
  items-snoc slots h (suc n) =
      let e : h + 1 + n ≡ h + suc n = omega arith in
      ap (◌∷◌ (get_or slots (h % capacity) blank)) (
        items-snoc slots (h + 1) n
        ∙ ap (λ x. items slots (h + 1) n ++ get_or slots (x % capacity) blank ∷ []) e)

  -- A write behind the `n` values leaves them alone.
  pub items-set :
      (slots : List A) (t : ℕ) (v : A) (h n : ℕ)
      → h + n ≤ t
      → t < h + capacity
      → items (set slots (t % capacity) v) h n ≡ items slots h n
  items-set slots t v h zero before near = refl
  items-set slots t v h (suc n) before near = ground (
    arith,
    get_or-set_ne slots (t % capacity) (h % capacity) v blank,
    mod_ne capacity h t,
    items-set slots t v (h + 1) n,
  )
