-- ===== src/Domain/Speech/Utf8.antt =====
-- UTF-8 as a segmenter has to respect it, described by ranges of bytes: how many continuation bytes a
-- text still wants, and where the cut of a full buffer falls.
use stackchan_atoms3r.Base.{
  ℕ, zero, suc, ◌+◌, ◌-◌, ◌≤◌, ◌<◌, true, false, Option, none, some, [], ◌∷◌, ◌++◌, ◌≡◌, ◌⊎◌, inl,
  inr, refl, ap, sym, subst, ◌∙◌, ◌==◌, ltb, if◌then◌else◌, within, length, take, drop, get_or,
  Bytes, arith, Option-cases, bind_option,
}
use stackchan_atoms3r.Base.Search.{all_below, agree_below}
use stackchan_atoms3r.Domain.Speech.{utf8_length, find_lead, cut_point}

-- How long a character is that starts with this byte; 0 if none does.
abbrev pub lead_length : ℕ → ℕ
lead_length c =
    if ltb c 0x80
    then 1
    else if within 0xC0 0xDF c
    then 2
    else if within 0xE0 0xEF c
    then 3
    else if within 0xF0 0xF7 c
    then 4
    else 0

-- Behind a byte, with `k` continuation bytes wanted before it.
unfoldable pub scan_byte : ℕ → ℕ → Option ℕ
scan_byte zero c = if lead_length c == 0 then none else some (lead_length c - 1)
scan_byte (suc k) c = if within 0x80 0xBF c then some k else none

-- How many continuation bytes are wanted behind a text; `none` if it is not UTF-8.
unfoldable pub scan : ℕ → Bytes → Option ℕ
scan k [] = some k
scan k (c ∷ cs) = bind_option (scan_byte k c) (λ j. scan j cs)

pub scan-append : (k : ℕ) (a b : Bytes) → scan k (a ++ b) ≡ bind_option (scan k a) (λ j. scan j b)
unfolding scan
scan-append k [] b = refl
scan-append k (c ∷ a) b = elim (Option-cases (scan_byte k c)) [
  | inl e ↦ rw e refl
  | inr (j, e) ↦ rw e (scan-append j a b)
]

bind_option-some : (o : Option ℕ) → bind_option o some ≡ o
bind_option-some none = refl
bind_option-some (some j) = refl

pub scan-snoc :
    (k j : ℕ) (a : Bytes) (c : ℕ) → scan k a ≡ some j → scan k (a ++ c ∷ []) ≡ scan_byte j c
unfolding scan
scan-snoc k j a c h =
    scan-append k a (c ∷ [])
    ∙ ap (λ o. bind_option o (λ i. scan i (c ∷ []))) h
    ∙ bind_option-some (scan_byte j c)

length_table : all_below 256 (λ c. utf8_length c == lead_length c) ≡ true
unfolding all_below utf8_length
length_table = refl

scan_byte_lt : (k j c : ℕ) → scan_byte k c ≡ some j → c < 256
unfolding scan_byte
scan_byte_lt zero j c h = ground arith
scan_byte_lt (suc k) j c h = ground arith

-- A byte below 128 is a character, and stands only between two characters.
pub scan_byte-ascii : (k j c : ℕ) → scan_byte k c ≡ some j → c < 128 → (k ≡ 0) × (j ≡ 0)
unfolding scan_byte
scan_byte-ascii zero j c h lt = ground arith
scan_byte-ascii (suc k) j c h lt = ground arith

take-suc : (n : ℕ) (p : Bytes) → n < length p → take (suc n) p ≡ take n p ++ get_or p n 0 ∷ []
take-suc n [] h = elim h [ ]
take-suc zero (x ∷ p) h = refl
take-suc (suc n) (x ∷ p) h = ap (λ t. x ∷ t) (take-suc n p (omega arith))

-- What the last byte of a text says: a continuation byte fills a place, a lead opens its character.
step_back :
    (j i c : ℕ)
    → scan_byte j c ≡ some i
    → ((utf8_length c ≡ 0) × (j ≡ suc i)) ⊎ ((utf8_length c ≡ suc i) × (j ≡ 0))
unfolding scan_byte
step_back zero i c h =
    let size = agree_below 256 utf8_length lead_length c length_table (scan_byte_lt zero i c h) in
    ground (arith, size)
step_back (suc j) i c h =
    let size =
      agree_below 256 utf8_length lead_length c length_table (scan_byte_lt (suc j) i c h) in
    ground (arith, size)

-- Where a text of `n` bytes that wants `i` more opens its last character.
abbrev Opens : Bytes → ℕ → ℕ → Type 0
Opens p total lead =
    (0 < lead)
    × (lead ≤ length p)
    × (scan 0 (take (lead - 1) p) ≡ some 0)
    × (lead - 1 + utf8_length (get_or p (lead - 1) 0) ≡ total)

scan-take :
    (p : Bytes) (n i : ℕ)
    → n < length p
    → scan 0 (take (suc n) p) ≡ some i
    → (j : ℕ) × (scan 0 (take n p) ≡ some j) × (scan_byte j (get_or p n 0) ≡ some i)
scan-take p n i lt h =
    let whole = sym (ap (scan 0) (take-suc n p lt)) ∙ h in
    let joined = sym (scan-append 0 (take n p) (get_or p n 0 ∷ [])) ∙ whole in
    elim (Option-cases (scan 0 (take n p))) [
      | inl e ↦
          ground (arith, sym (ap (λ o. bind_option o (λ j. scan j (get_or p n 0 ∷ []))) e) ∙ joined)
      | inr (j, e) ↦ (j, e, sym (scan-snoc 0 j (take n p) (get_or p n 0) e) ∙ whole)
    ]

find_lead-Opens :
    (p : Bytes) (n i : ℕ)
    → n ≤ length p
    → 0 < n + i
    → scan 0 (take n p) ≡ some i
    → Opens p (n + i) (find_lead p n)
unfolding find_lead scan
find_lead-Opens p zero i le some_byte h = ground (arith, h)
find_lead-Opens p (suc n) i le some_byte h =
    let (j, before, last) = scan-take p n i (omega arith) h in
    let total : n + suc i ≡ suc n + i = omega arith in
    elim (step_back j i (get_or p n 0) last) [
      | inl (size, more) ↦ rw size (
          subst (λ t. Opens p t (find_lead p n)) total
            (find_lead-Opens p n (suc i) (omega arith) (omega arith) (before ∙ ap some more)))
      | inr (size, more) ↦
          let opened : (utf8_length (get_or p n 0) == 0) ≡ false = ground (arith, size) in
          let back : suc n - 1 ≡ n = omega arith in
          rw (opened, back) (omega arith, omega arith, before ∙ ap some more, omega (arith, size))
    ]

take-all : (p : Bytes) → take (length p) p ≡ p
take-all [] = refl
take-all (x ∷ p) = ap (λ t. x ∷ t) (take-all p)

pub take-drop : (n : ℕ) (p : Bytes) → take n p ++ drop n p ≡ p
take-drop zero p = refl
take-drop (suc n) [] = refl
take-drop (suc n) (x ∷ p) = ap (λ t. x ∷ t) (take-drop n p)

-- The cut falls behind a text of whole characters, and before a last character that is not whole.
cut_point-place :
    (p : Bytes) (j : ℕ) → 0 < length p → scan 0 p ≡ some j → scan 0 (take (cut_point p) p) ≡ some 0
unfolding cut_point
cut_point-place p zero some_byte h =
    let whole = ap (scan 0) (take-all p) ∙ h in
    let (up, low, before, size) =
      find_lead-Opens p (length p) 0 (omega arith) (omega arith) whole in
    ground (arith, up, low, before, size, whole)
cut_point-place p (suc j) some_byte h =
    let whole = ap (scan 0) (take-all p) ∙ h in
    let (up, low, before, size) =
      find_lead-Opens p (length p) (suc j) (omega arith) (omega arith) whole in
    ground (arith, up, low, before, size)

-- The cut of a text that wants `j` more bytes leaves whole characters before it, and behind it
-- what wants them.
pub cut_point-scan :
    (p : Bytes) (j : ℕ)
    → 0 < length p
    → scan 0 p ≡ some j
    → (scan 0 (take (cut_point p) p) ≡ some 0) × (scan 0 (drop (cut_point p) p) ≡ some j)
cut_point-scan p j some_byte h =
    let place = cut_point-place p j some_byte h in
    let n = cut_point p in
    (
      place,
      sym (ap (λ o. bind_option o (λ i. scan i (drop n p))) place)
          ∙ sym (scan-append 0 (take n p) (drop n p))
          ∙ ap (scan 0) (take-drop n p)
          ∙ h,
    )
