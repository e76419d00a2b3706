-- ===== src/Base/Search.antt =====
-- Statements about small ranges of numbers, checked value by value.
use stackchan_atoms3r.Base.{ℕ, zero, suc, ◌<◌, Bool, true, ◌&&◌, ◌≡◌, ◌==◌, ==_iff, arith}

unfoldable pub all_below : ℕ → (ℕ → Bool) → Bool
all_below zero p = true
all_below (suc n) p = p n && all_below n p

pub all_below_sound : (n : ℕ) (p : ℕ → Bool) (x : ℕ) → all_below n p ≡ true → x < n → p x ≡ true
unfolding all_below
all_below_sound zero p x h lt = elim lt [ ]
all_below_sound (suc n) p x h lt = ground (arith, all_below_sound n p x)

-- Two functions that agree on a table agree below its bound.
pub agree_below :
    (n : ℕ) (f g : ℕ → ℕ) (x : ℕ) → all_below n (λ y. f y == g y) ≡ true → x < n → f x ≡ g x
agree_below n f g x h lt = (==_iff (f x) (g x)).0 (all_below_sound n _ x h lt)

pub agree_below_two :
    (n m : ℕ) (f g : ℕ → ℕ → ℕ) (x y : ℕ)
    → all_below n (λ a. all_below m (λ b. f a b == g a b)) ≡ true
    → x < n
    → y < m
    → f x y ≡ g x y
agree_below_two n m f g x y h lx ly =
    (==_iff (f x y) (g x y)).0 (all_below_sound m _ y (all_below_sound n _ x h lx) ly)
