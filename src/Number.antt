-- ===== src/Number.antt =====
-- The number readers of the response parsers: `parse_uint32` and `parse_int32` of
-- l850gl-mm-bridge/src/l850_cell.c, which read decimal and 0x-hexadecimal texts. The loop takes
-- the base, the limit and the modulus of its accumulator as arguments, since l850_ca.c and
-- l850_voltage.c repeat it for decimal texts alone.
pub mod Exact
pub mod Numeral
pub mod Print
use luci_app_l850gl_mm.Base.{
  ℕ, List, cons?, ◌+◌, ◌-◌, ◌*◌, ◌/◌, ◌%◌, true, false, ◌&&◌, ◌||◌, [], ◌∷◌, Option, none, some,
  ltb, ◌==◌, if◌then◌else◌, within, Bytes, ◌>>=◌,
}
use luci_app_l850gl_mm.Base.Int.{ℤ, pos, negsuc}

abbrev pub u32_max : ℕ
u32_max = 4294967295

abbrev pub i32_max : ℕ
i32_max = 2147483647

abbrev pub u64_mod : ℕ
u64_mod = 18446744073709551616

-- The digit that a byte stands for in the given base.
unfoldable pub digit_of : ℕ → ℕ → Option ℕ
digit_of base c =
    if within b'0' b'9' c
    then some (c - b'0')
    else if base == 16 && within b'a' b'f' c
    then some (c - b'a' + 10)
    else if base == 16 && within b'A' b'F' c
    then some (c - b'A' + 10)
    else none

-- The loop over the digits: `result` is a word of the given modulus.
module _ (base limit modulus : ℕ) where
  accumulate : ℕ → Bytes → Option ℕ
  accumulate result [] = some result
  accumulate result (c ∷ s) = do
    digit ← digit_of base c
    let next = accumulate ((result * base + digit) % modulus) s
    if ltb ((limit - digit) / base) result then none else next

-- `value[0] == '0' && (value[1] == 'x' || value[1] == 'X')`: the base, and the text that is left.
unfoldable pub read_base : Bytes → ℕ × Bytes
read_base [] = (10, [])
read_base (c ∷ []) = (10, c ∷ [])
read_base (c ∷ x ∷ s) = if c == b'0' && (x == b'x' || x == b'X') then (16, s) else (10, c ∷ x ∷ s)

-- A text with no digit (none at all, or none behind "0x") is refused.
read_digits : ℕ → ℕ → ℕ × Bytes → Option ℕ
unfolding accumulate digit_of
read_digits limit modulus (base, []) = none
read_digits limit modulus (base, c ∷ s) = accumulate base limit modulus 0 (c ∷ s)

unfoldable pub parse_uint32 : Bytes → Option ℕ
unfolding read_digits read_base
parse_uint32 s = read_digits u32_max u64_mod (read_base s)

-- `-(int32_t)result`, with INT32_MIN written apart.
unfoldable pub negate : ℕ → ℤ
negate n = if n == 0 then pos 0 else negsuc (n - 1)

unfoldable pub parse_int32 : Bytes → Option ℤ
unfolding read_digits read_base negate
parse_int32 [] = none
parse_int32 (c ∷ s) =
    if c == b'-'
    then (do n ← read_digits (i32_max + 1) u64_mod (read_base s); some (negate n))
    else (do n ← read_digits i32_max u64_mod (read_base (c ∷ s)); some (pos n))

-- The decimal readers of l850_ca.c and l850_voltage.c.
unfoldable pub decimal : ℕ → ℕ → Bytes → Option ℕ
unfolding read_digits
decimal limit modulus s = read_digits limit modulus (10, s)

-- The loop that reads every field but one as a number; the entry of the skipped field is not used.
unfoldable pub read_values : (Bytes → Option ℕ) → ℕ → ℕ → List Bytes → Option (List ℕ)
read_values parse skipped index [] = some []
read_values parse skipped index (f ∷ fs) =
    cons? (if index == skipped then some 0 else parse f) (read_values parse skipped (index + 1) fs)
