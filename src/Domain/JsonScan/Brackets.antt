-- ===== src/Domain/JsonScan/Brackets.antt =====
-- A value that the writer has written is balanced: the walk over a container passes it.
use stackchan_atoms3r.Base.{
  ℕ, suc, ◌+◌, ◌≤◌, Bool, true, false, [], ◌∷◌, ◌++◌, Option, some, ◌≡◌, refl, ◌==◌, if◌then◌else◌,
  length, length-append, take, take-append, Bytes, codes, arith, ◌∙◌, ap, subst, All, append_assoc,
}
use stackchan_atoms3r.Base.Int.{ℤ, pos, negsuc}
use stackchan_atoms3r.Domain.Decimal.{decimal}
use stackchan_atoms3r.Domain.Decimal.Value.{IsDigit, decimal-IsDigit}
use stackchan_atoms3r.Domain.JsonWriter.Document.{
  Json, text, flag, number, integer, null, array, object, Items, nil, cons, Members, end, member,
  escape, quoted, signed_decimal, comma_if, render, render_items, render_members,
}
use stackchan_atoms3r.Domain.JsonScan.{
  opens, closes, skip_contents, skip_levels, span_between, skip_container, ValueKind,
  spanned_option,
}
use stackchan_atoms3r.Domain.JsonScan.Render.{skip_contents-escape, skip_levels_enough}

-- The walk with fuel for every character.
abbrev levels : ℕ → Bytes → Option Bytes
levels depth s = skip_levels (length s) depth s

-- Inside a container the walk passes over this text.
abbrev Passes : Bytes → Type 0
Passes bs = (depth : ℕ) (rest : Bytes) → levels (suc depth) (bs ++ rest) ≡ levels (suc depth) rest

abbrev Plain : ℕ → Type 0
Plain c = ((c == b'"') ≡ false) × ((opens c ≡ false) × (closes c ≡ false))

levels-Plain : (depth c : ℕ) (cs : Bytes) → Plain c → levels depth (c ∷ cs) ≡ levels depth cs
unfolding skip_levels
levels-Plain depth c cs h = rw (h.0, h.1.0, h.1.1) refl

levels_string :
    (depth : ℕ) (cs contents rest : Bytes)
    → skip_contents false cs ≡ some (contents, rest)
    → length rest ≤ length cs
    → levels depth (b'"' ∷ cs) ≡ levels depth rest
unfolding skip_levels
levels_string depth cs contents rest h l =
    rw h (skip_levels_enough (length cs) (length rest) depth rest l (omega arith))

levels_open :
    (depth c : ℕ) (cs : Bytes) → opens c ≡ true → levels depth (c ∷ cs) ≡ levels (suc depth) cs
unfolding skip_levels
levels_open depth c cs h = ground arith

levels_close :
    (depth c : ℕ) (cs : Bytes)
    → closes c ≡ true
    → levels (suc (suc depth)) (c ∷ cs) ≡ levels (suc depth) cs
unfolding skip_levels
levels_close depth c cs h = ground arith

levels_end : (c : ℕ) (cs : Bytes) → closes c ≡ true → levels 1 (c ∷ cs) ≡ some cs
unfolding skip_levels
levels_end c cs h = ground arith

Passes-append : (a b : Bytes) → Passes a → Passes b → Passes (a ++ b)
Passes-append a b f g depth rest =
    ap (levels (suc depth)) (append_assoc a b rest) ∙ f depth (b ++ rest) ∙ g depth rest

Passes-Plain : (bs : Bytes) → All Plain bs → Passes bs
Passes-Plain [] h depth rest = refl
Passes-Plain (c ∷ cs) h depth rest =
    levels-Plain (suc depth) c (cs ++ rest) h.0 ∙ Passes-Plain cs h.1 depth rest

Passes-quoted : (s : Bytes) → Passes (quoted s)
Passes-quoted s depth rest =
    ap (λ t. levels (suc depth) (b'"' ∷ t)) (append_assoc (escape s) (b'"' ∷ []) rest)
    ∙ levels_string (suc depth) _ (escape s) rest (skip_contents-escape s rest)
        (omega (arith, length-append (escape s) (b'"' ∷ rest)))

Passes-brackets :
    (opening : ℕ) (inner : Bytes) (closing : ℕ)
    → opens opening ≡ true
    → closes closing ≡ true
    → Passes inner
    → Passes (opening ∷ (inner ++ closing ∷ []))
Passes-brackets opening inner closing o c f depth rest =
    levels_open (suc depth) opening _ o
    ∙ ap (levels (suc (suc depth))) (append_assoc inner (closing ∷ []) rest)
    ∙ f (suc depth) (closing ∷ rest)
    ∙ levels_close depth closing rest c

Plain-IsDigit : (bs : Bytes) → All IsDigit bs → All Plain bs
Plain-IsDigit [] h = tt
Plain-IsDigit (c ∷ cs) h =
    ((ground (arith, h.0), (ground (arith, h.0), ground (arith, h.0))), Plain-IsDigit cs h.1)

Passes-decimal : (n : ℕ) → Passes (decimal n)
Passes-decimal n = Passes-Plain (decimal n) (Plain-IsDigit (decimal n) (decimal-IsDigit n))

Passes-signed_decimal : (n : ℤ) → Passes (signed_decimal n)
unfolding signed_decimal
Passes-signed_decimal (pos n) = Passes-decimal n
Passes-signed_decimal (negsuc n) =
    Passes-append (b'-' ∷ []) (decimal (n + 1))
      (Passes-Plain (b'-' ∷ []) ((refl, (refl, refl)), tt)) (Passes-decimal (n + 1))

Passes-flag : (b : Bool) → Passes (if b then codes "true" else codes "false")
Passes-flag true = Passes-Plain (codes "true") (
  (refl, (refl, refl)),
  ((refl, (refl, refl)), ((refl, (refl, refl)), ((refl, (refl, refl)), tt))),
)
Passes-flag false = Passes-Plain (codes "false") (
  (refl, (refl, refl)),
  (
    (refl, (refl, refl)),
    ((refl, (refl, refl)), ((refl, (refl, refl)), ((refl, (refl, refl)), tt))),
  ),
)

Passes-comma_if : (c : Bool) → Passes (comma_if c)
Passes-comma_if true = Passes-Plain (b',' ∷ []) ((refl, (refl, refl)), tt)
Passes-comma_if false = Passes-Plain [] tt

mutual
  unfolding render render_items render_members

  pub Passes-render : (x : Json) → Passes (render x)
  Passes-render (text s) = Passes-quoted s
  Passes-render (flag b) = Passes-flag b
  Passes-render (number n) = Passes-decimal n
  Passes-render (integer n) = Passes-signed_decimal n
  Passes-render null = Passes-Plain (codes "null") (
    (refl, (refl, refl)),
    ((refl, (refl, refl)), ((refl, (refl, refl)), ((refl, (refl, refl)), tt))),
  )
  Passes-render (array xs) = Passes-brackets b'[' _ b']' refl refl (Passes-render_items false xs)
  Passes-render (object ms) = Passes-brackets b'{' _ b'}' refl refl (Passes-render_members false ms)

  pub Passes-render_items : (c : Bool) (xs : Items) → Passes (render_items c xs)
  Passes-render_items c nil = Passes-Plain [] tt
  Passes-render_items c (cons x xs) =
      Passes-append (comma_if c) _ (Passes-comma_if c)
        (Passes-append (render x) _ (Passes-render x) (Passes-render_items true xs))

  pub Passes-render_members : (c : Bool) (ms : Members) → Passes (render_members c ms)
  Passes-render_members c end = Passes-Plain [] tt
  Passes-render_members c (member k x ms) = Passes-append (comma_if c) _ (Passes-comma_if c) (
      Passes-append (quoted k) _ (Passes-quoted k) (
        Passes-append (b':' ∷ []) _ (Passes-Plain (b':' ∷ []) ((refl, (refl, refl)), tt))
          (Passes-append (render x) _ (Passes-render x) (Passes-render_members true ms))))

pub span_between-append : (a rest : Bytes) → span_between (a ++ rest) rest ≡ a
unfolding span_between
span_between-append a rest =
    rw (length-append a rest)
      (subst (λ n. take n (a ++ rest) ≡ a) (omega arith) (take-append a rest))

-- Brackets round text that the walk passes are found whole.
pub skip_container-brackets :
    (kind : ValueKind) (opening : ℕ) (inner : Bytes) (closing : ℕ) (rest : Bytes)
    → opens opening ≡ true
    → closes closing ≡ true
    → Passes inner
    → let whole = opening ∷ (inner ++ closing ∷ []) in
      skip_container kind (whole ++ rest) ≡ some (record { span = whole; kind = kind; rest = rest })
skip_container-brackets kind opening inner closing rest o c f =
    let whole = opening ∷ (inner ++ closing ∷ []) in
    let walk =
      levels_open 0 opening _ o
      ∙ ap (levels 1) (append_assoc inner (closing ∷ []) rest)
      ∙ f 0 (closing ∷ rest)
      ∙ levels_end closing rest c in
    ap (spanned_option (whole ++ rest) kind) walk
    ∙ ap (λ s. some (record { span = s; kind = kind; rest = rest }))
        (span_between-append whole rest)
