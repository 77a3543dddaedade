-- ===== src/Number/Numeral.antt =====
-- Which texts parse_uint32 of l850gl-mm-bridge/src/l850_cell.c reads as which numbers.
use mathlib.Core.Path.{subst}
use luci_app_l850gl_mm.Number.Exact.{at_most, unbounded, spelled, parse_uint32-spelled}
use luci_app_l850gl_mm.Number.{u32_max, digit_of, read_base, parse_uint32}
use luci_app_l850gl_mm.Base.{
  [], ◌∷◌, none, some, inl, inr, ◌||◌, ◌&&◌, ◌==◌, ℕ, Bytes, ◌≡◌, ◌≢◌, ◌≤◌, Option, ◌+◌, true, ◌⊎◌,
  ◌*◌, ◌↔◌, arith, codes, sym, Bool-cases, ◌∙◌, refl, Option-cases, ◌++◌,
}

-- The byte is a digit of the base with the value: `0` to `9`, and in base 16 `a` to `f` or `A` to
-- `F`.
abbrev pub IsDigit : ℕ → ℕ → ℕ → Type 0
IsDigit base c d =
    ((d ≤ 9) × (c ≡ 48 + d)) ⊎ ((base ≡ 16) × (10 ≤ d) × (d ≤ 15) × ((c ≡ 87 + d) ⊎ (c ≡ 55 + d)))

digit_of_iff : (base c d : ℕ) → (digit_of base c ≡ some d) ↔ IsDigit base c d
unfolding digit_of
digit_of_iff base c d = ground arith

-- The bytes are digits of the base, which behind `n` spell `v`.
abbrev pub Spells : ℕ → ℕ → Bytes → ℕ → Type 0
Spells base n [] v = n ≡ v
Spells base n (c ∷ s) v = (d : ℕ) × IsDigit base c d × Spells base (n * base + d) s v

spelled_iff : (base n : ℕ) (s : Bytes) (v : ℕ) → (spelled base n s ≡ some v) ↔ Spells base n s v
unfolding spelled
spelled_iff base n [] v = ground arith
spelled_iff base n (c ∷ s) v = elim (Option-cases (digit_of base c)) [
  | inl e ↦ (
    λ h. absurd (ground (arith, h, e)),
    λ (d, is, rest). absurd (ground (arith, (digit_of_iff base c d).1 is, e)),
  )
  | inr (d, e) ↦ (
    λ h. (d, (digit_of_iff base c d).0 e, (spelled_iff base (n * base + d) s v).0 (rw e at h)),
    λ (d', is, rest).
        let same : d' ≡ d = ground (arith, (digit_of_iff base c d').1 is, e) in
        rw e ((spelled_iff base (n * base + d) s v).1 (rw same at rest)),
  )
]

-- One or more decimal digits, or one or more hexadecimal digits behind "0x" or "0X".
abbrev pub IsNumeral : Bytes → ℕ → Type 0
IsNumeral s v =
    ((s ≢ []) × Spells 10 0 s v)
    ⊎ ((digits : Bytes) × ((s ≡ codes "0x" ++ digits) ⊎ (s ≡ codes "0X" ++ digits))
        × (digits ≢ [])
        × Spells 16 0 digits v)

at_most_iff :
    (limit : ℕ) (o : Option ℕ) (v : ℕ) → (at_most limit o ≡ some v) ↔ ((o ≡ some v) × (v ≤ limit))
at_most_iff limit none v = ground arith
at_most_iff limit (some n) v = ground arith

unbounded_iff :
    (base : ℕ) (digits : Bytes) (v : ℕ)
    → (unbounded (base, digits) ≡ some v) ↔ ((digits ≢ []) × Spells base 0 digits v)
unbounded_iff base [] v =
    (λ h. absurd (ground (arith, h)), λ (some_left, n). absurd (some_left refl))
unbounded_iff base (c ∷ s) v = (
  λ h. (λ e. absurd (ground (arith, e)), (spelled_iff base 0 (c ∷ s) v).0 h),
  λ (some_left, n). (spelled_iff base 0 (c ∷ s) v).1 n,
)

x-not_IsDigit : (x d : ℕ) → (x == b'x' || x == b'X') ≡ true → ¬ IsDigit 10 x d
x-not_IsDigit x d h is = ground (arith, h, is)

unbounded-IsNumeral : (s : Bytes) (v : ℕ) → (unbounded (read_base s) ≡ some v) ↔ IsNumeral s v
unfolding read_base
unbounded-IsNumeral [] v = (
  λ h. inl ((unbounded_iff 10 [] v).0 h),
  λ h. elim h [
    | inl numeral ↦ (unbounded_iff 10 [] v).1 numeral
    | inr (digits, e, n, m) ↦ absurd (ground (arith, e))
  ],
)
unbounded-IsNumeral (c ∷ []) v = (
  λ h. inl ((unbounded_iff 10 (c ∷ []) v).0 h),
  λ h. elim h [
    | inl numeral ↦ (unbounded_iff 10 (c ∷ []) v).1 numeral
    | inr (digits, e, n, m) ↦ absurd (ground (arith, e))
  ],
)
unbounded-IsNumeral (c ∷ x ∷ s) v = elim (Bool-cases (c == b'0' && (x == b'x' || x == b'X'))) [
  | inl hex ↦ (
    λ h.
        let (some_left, n) = (unbounded_iff 16 s v).0 (rw hex at h) in
        inr (s, ground (arith, hex), some_left, n),
    λ h. elim h [
      | inl (some_left, (d, is, (d', is', rest))) ↦
          absurd (x-not_IsDigit x d' (ground (arith, hex)) is')
      | inr (digits, e, m, n) ↦
          let same : digits ≡ s = ground (arith, e) in
          rw hex ((unbounded_iff 16 s v).1 (subst (λ t. (t ≢ []) × Spells 16 0 t v) same (m, n)))
    ],
  )
  | inr other ↦ (
    λ h. inl ((unbounded_iff 10 (c ∷ x ∷ s) v).0 (rw other at h)),
    λ h. elim h [
      | inl numeral ↦ rw other ((unbounded_iff 10 (c ∷ x ∷ s) v).1 numeral)
      | inr (digits, e, n, m) ↦ absurd (ground (arith, e, other))
    ],
  )
]

-- `parse_uint32` reads a text as a number exactly if the text is a numeral for it, decimal, or
-- hexadecimal behind "0x" or "0X", and the number is at most UINT32_MAX; it refuses every other text.
-- Nothing wraps around.
pub parse_uint32_exact :
    (s : Bytes) (v : ℕ) → (parse_uint32 s ≡ some v) ↔ (IsNumeral s v × (v ≤ 4294967295))
parse_uint32_exact s v =
    let spelled = parse_uint32-spelled s in
    let read = at_most_iff u32_max (unbounded (read_base s)) v in
    let numeral = unbounded-IsNumeral s v in
    (
      λ h. let (n, small) = read.0 (sym spelled ∙ h) in (numeral.0 n, small),
      λ (n, small). spelled ∙ read.1 (numeral.1 n, small),
    )
