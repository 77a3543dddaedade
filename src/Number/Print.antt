-- ===== src/Number/Print.antt =====
-- The decimal digits that the `%u` conversions of `snprintf` write, and the reading back of them.
-- Ten digits are enough for every 32-bit number.
use native.Mathlib.Nat.{pow-suc}
use luci_app_l850gl_mm.Base.{
  ℕ, zero, suc, ◌+◌, ◌*◌, ◌/◌, ◌%◌, ◌^◌, ◌≤◌, ◌<◌, true, [], ◌∷◌, ◌++◌, some, ◌≡◌, refl, ap, ◌∙◌,
  arith, ltb, if◌then◌else◌, Bytes, ◌>>=◌, length, length-append, inl, inr, Bool-cases, All,
  Option-cases, within, All-append,
}
use luci_app_l850gl_mm.Number.Exact.{spelled, unbounded, decimal-unbounded}
use luci_app_l850gl_mm.Number.{digit_of, u32_max, decimal, u64_mod}

-- At most `digits` digits of `n`, the last one first to be found.
print_digits : ℕ → ℕ → Bytes
print_digits zero n = []
print_digits (suc digits) n =
    if ltb n 10 then (b'0' + n) ∷ [] else print_digits digits (n / 10) ++ ((b'0' + n % 10) ∷ [])

unfoldable pub format_decimal : ℕ → Bytes
unfolding print_digits
format_decimal = print_digits 10

spelled-append :
    (base n : ℕ) (s t : Bytes)
    → spelled base n (s ++ t) ≡ (do v ← spelled base n s; spelled base v t)
unfolding spelled
spelled-append base n [] t = refl
spelled-append base n (c ∷ s) t = elim (Option-cases (digit_of base c)) [
  | inl e ↦ rw e
  | inr (d, e) ↦ rw e (spelled-append base (n * base + d) s t)
]

digit_of_digit : (d : ℕ) → d < 10 → digit_of 10 (b'0' + d) ≡ some d
unfolding digit_of
digit_of_digit d h = ground arith

spelled_digit : (v d : ℕ) → d < 10 → spelled 10 v ((b'0' + d) ∷ []) ≡ some (v * 10 + d)
unfolding spelled
spelled_digit v d h = rw (digit_of_digit d h)

spelled-print_digits :
    (digits n : ℕ) → n < 10 ^ digits → spelled 10 0 (print_digits digits n) ≡ some n
unfolding print_digits
spelled-print_digits zero n h = unfold spelled in ap some (omega arith)
spelled-print_digits (suc digits) n h = elim (Bool-cases (ltb n 10)) [
  | inl small ↦ rw small (spelled_digit 0 n (ground arith) ∙ ap some (omega arith))
  | inr large ↦
      rw
        (
          large,
          spelled-append 10 0 (print_digits digits (n / 10)) ((b'0' + n % 10) ∷ []),
          spelled-print_digits digits (n / 10) (omega (arith, pow-suc 10 digits)),
        )
        (spelled_digit (n / 10) (n % 10) (omega arith) ∙ ap some (omega arith))
]

length-print_digits : (digits n : ℕ) → length (print_digits digits n) ≤ digits
unfolding print_digits
length-print_digits zero n = omega arith
length-print_digits (suc digits) n = ground (
  arith,
  length-print_digits digits (n / 10),
  length-append (print_digits digits (n / 10)) ((b'0' + n % 10) ∷ []),
)

-- Every printed byte is a decimal digit.
print_digits-IsDigit : (digits n : ℕ) → All (λ c. within b'0' b'9' c ≡ true) (print_digits digits n)
unfolding print_digits
print_digits-IsDigit zero n = tt
print_digits-IsDigit (suc digits) n = elim (Bool-cases (ltb n 10)) [
  | inl small ↦ rw small (ground arith, tt)
  | inr large ↦ rw large (
      All-append _ (print_digits digits (n / 10)) ((b'0' + n % 10) ∷ [])
        (print_digits-IsDigit digits (n / 10)) (ground arith, tt))
]

nonempty-print_digits : (digits n : ℕ) → 0 < digits → 0 < length (print_digits digits n)
unfolding print_digits
nonempty-print_digits zero n h = elim h [ ]
nonempty-print_digits (suc digits) n h =
    ground (arith, length-append (print_digits digits (n / 10)) ((b'0' + n % 10) ∷ []))

pub length-format_decimal : (n : ℕ) → length (format_decimal n) ≤ 10
unfolding format_decimal
length-format_decimal n = length-print_digits 10 n

pub format_decimal-IsDigit : (n : ℕ) → All (λ c. within b'0' b'9' c ≡ true) (format_decimal n)
unfolding format_decimal
format_decimal-IsDigit n = print_digits-IsDigit 10 n

unbounded-spelled : (s : Bytes) → 0 < length s → unbounded (10, s) ≡ spelled 10 0 s
unbounded-spelled [] h = elim h [ ]
unbounded-spelled (c ∷ s) h = refl

-- Every number of 32 bits is read back from the digits that `%u` writes.
pub decimal-format_decimal :
    (n : ℕ) → n ≤ u32_max → decimal u32_max u64_mod (format_decimal n) ≡ some n
unfolding format_decimal
decimal-format_decimal n h =
    rw
      (
        decimal-unbounded u32_max u64_mod (print_digits 10 n) (omega arith) (omega arith),
        unbounded-spelled (print_digits 10 n) (nonempty-print_digits 10 n (omega arith)),
        spelled-print_digits 10 n (omega arith),
      )
      (ground arith)
