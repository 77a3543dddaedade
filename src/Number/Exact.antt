-- ===== src/Number/Exact.antt =====
-- What the number readers accept: the overflow guard of the loop loses nothing and lets nothing
-- wrap, so a reader is the unbounded reading followed by a range check.
use native.Mathlib.Nat.{mod-eq_of_lt}
use luci_app_l850gl_mm.Base.{
  ℕ, ◌+◌, ◌-◌, ◌*◌, ◌/◌, ◌%◌, ◌≤◌, ◌<◌, Bool, true, false, [], ◌∷◌, Option, none, some, ◌≡◌, ◌⊎◌,
  inl, inr, refl, arith, ltb, leb, ◌==◌, if◌then◌else◌, Bytes, ◌>>=◌, Option-cases,
}
use luci_app_l850gl_mm.Base.Int.{ℤ, pos, negsuc}
use luci_app_l850gl_mm.Number.{
  u32_max, i32_max, u64_mod, digit_of, accumulate, read_base, read_digits, parse_uint32, negate,
  parse_int32, decimal,
}

-- The number that digits spell behind `n`, with no bound and no wrap; `none` if a byte is no digit.
unfoldable pub spelled : ℕ → ℕ → Bytes → Option ℕ
spelled base n [] = some n
spelled base n (c ∷ s) = do digit ← digit_of base c; spelled base (n * base + digit) s

-- A text is one or more digits of its base, and spells a number of at most `limit`.
abbrev pub at_most : ℕ → Option ℕ → Option ℕ
at_most limit none = none
at_most limit (some v) = if leb v limit then some v else none

abbrev pub unbounded : ℕ × Bytes → Option ℕ
unbounded (base, []) = none
unbounded (base, c ∷ s) = spelled base 0 (c ∷ s)

abbrev IsBase : ℕ → Type 0
IsBase base = (base ≡ 10) ⊎ (base ≡ 16)

digit_of_bound : (base c : ℕ) {d : ℕ} → digit_of base c ≡ some d → d ≤ 15
unfolding digit_of
digit_of_bound base c h = ground arith

-- The guard `result > (limit - digit) / base` is the exact test for an overflow.
guard_exact :
    (base limit n d : ℕ)
    → IsBase base
    → d ≤ limit
    → ltb ((limit - d) / base) n ≡ ltb limit (n * base + d)
guard_exact base limit n d (inl e) h = rw e (ground arith)
guard_exact base limit n d (inr e) h = rw e (ground arith)

le-mul_base : (base n d : ℕ) → IsBase base → n ≤ n * base + d
le-mul_base base n d (inl e) = rw e (omega arith)
le-mul_base base n d (inr e) = rw e (omega arith)

le-spelled : (base n : ℕ) (s : Bytes) {v : ℕ} → IsBase base → spelled base n s ≡ some v → n ≤ v
unfolding spelled
le-spelled base n [] b h = ground arith
le-spelled base n (c ∷ s) b h = elim (Option-cases (digit_of base c)) [
  | inl e ↦ ground arith
  | inr (d, e) ↦
      omega (arith, le-mul_base base n d b, le-spelled base (n * base + d) s b (rw e at h))
]

spelled_above :
    (base limit n : ℕ) (s : Bytes)
    → IsBase base
    → limit < n
    → at_most limit (spelled base n s) ≡ none
spelled_above base limit n s b h = elim (Option-cases (spelled base n s)) [
  | inl e ↦ rw e
  | inr (v, e) ↦ rw e (ground (arith, le-spelled base n s b e))
]

module _ (base limit modulus : ℕ) (isBase : IsBase base) (large : 15 ≤ limit) where
  -- One round of the loop, with its guard in the exact form.
  accumulate_step :
      (n c d : ℕ) (s : Bytes)
      → limit < modulus
      → digit_of base c ≡ some d
      → accumulate base limit modulus n (c ∷ s) ≡ (
          if ltb limit (n * base + d) then none else accumulate base limit modulus (n * base + d) s)
  unfolding accumulate
  accumulate_step n c d s m e = rw e (wrap_free (ltb limit (n * base + d)) refl)
    where
      exact : ltb ((limit - d) / base) n ≡ ltb limit (n * base + d)
      exact = guard_exact base limit n d isBase (omega (arith, digit_of_bound base c e))

      wrap_free :
          (over : Bool)
          → ltb limit (n * base + d) ≡ over
          → (if ltb ((limit - d) / base) n
              then none
              else accumulate base limit modulus ((n * base + d) % modulus) s)
            ≡ (if ltb limit (n * base + d)
                then none
                else accumulate base limit modulus (n * base + d) s)
      wrap_free true o = rw (exact, o)
      wrap_free false o = rw (exact, mod-eq_of_lt {n = n * base + d} {m = modulus} (ground arith))

  accumulate-spelled :
      (s : Bytes) (n : ℕ)
      → limit < modulus
      → n ≤ limit
      → accumulate base limit modulus n s ≡ at_most limit (spelled base n s)
  unfolding spelled
  accumulate-spelled [] n m h = unfold accumulate in ground arith
  accumulate-spelled (c ∷ s) n m h = elim (Option-cases (digit_of base c)) [
    | inl e ↦ unfold accumulate in rw e
    | inr (d, e) ↦
        rw (accumulate_step n c d s m e, e)
          (ground (
            arith,
            spelled_above base limit (n * base + d) s isBase,
            accumulate-spelled s (n * base + d) m,
          ))
  ]

read_base-IsBase : (s : Bytes) → IsBase (read_base s).0
unfolding read_base
read_base-IsBase [] = inl refl
read_base-IsBase (c ∷ []) = inl refl
read_base-IsBase (c ∷ x ∷ s) = ground arith

read_digits-unbounded :
    (limit modulus : ℕ) (p : ℕ × Bytes)
    → IsBase p.0
    → 15 ≤ limit
    → limit < modulus
    → read_digits limit modulus p ≡ at_most limit (unbounded p)
unfolding read_digits
read_digits-unbounded limit modulus (base, []) b l m = refl
read_digits-unbounded limit modulus (base, c ∷ s) b l m =
    accumulate-spelled base limit modulus b l (c ∷ s) 0 m (omega arith)

pub parse_uint32-spelled : (s : Bytes) → parse_uint32 s ≡ at_most u32_max (unbounded (read_base s))
unfolding parse_uint32
parse_uint32-spelled s =
    read_digits-unbounded u32_max u64_mod (read_base s) (read_base-IsBase s) (omega arith)
      (omega arith)

abbrev pub opposite : Option ℕ → Option ℤ
opposite o = do n ← o; some (if n == 0 then pos 0 else negsuc (n - 1))

abbrev pub positive : Option ℕ → Option ℤ
positive o = do n ← o; some (pos n)

-- The reading of a signed text: a leading `-` allows one more than INT32_MAX.
abbrev pub signed : Bytes → Option ℤ
signed [] = none
signed (c ∷ s) =
    if c == b'-'
    then opposite (at_most 2147483648 (unbounded (read_base s)))
    else positive (at_most i32_max (unbounded (read_base (c ∷ s))))

-- `parse_int32` returns exactly the number that the text spells behind an optional `-`, and it
-- refuses the text exactly if that number is below -2147483648 or above 2147483647, or if what
-- stands behind the sign is no number.
pub parse_int32_exact : (s : Bytes) → parse_int32 s ≡ signed s
unfolding parse_int32 negate
parse_int32_exact [] = refl
parse_int32_exact (c ∷ s) = rw (
  read_digits-unbounded (i32_max + 1) u64_mod (read_base s) (read_base-IsBase s) (omega arith)
      (omega arith),
  read_digits-unbounded i32_max u64_mod (read_base (c ∷ s)) (read_base-IsBase (c ∷ s)) (omega arith)
      (omega arith),
)

-- The decimal readers, at any limit and at any word that holds it.
pub decimal-unbounded :
    (limit modulus : ℕ) (s : Bytes)
    → 15 ≤ limit
    → limit < modulus
    → decimal limit modulus s ≡ at_most limit (unbounded (10, s))
unfolding decimal
decimal-unbounded limit modulus s = read_digits-unbounded limit modulus (10, s) (inl refl)
