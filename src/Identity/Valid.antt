-- ===== src/Identity/Valid.antt =====
-- Which tokens are generated.
use luci_app_l850gl_mm.Hardware.{take, interrupted, read_error}
use native.Mathlib.Decide.{ℕ_discrete}
use luci_app_l850gl_mm.Base.{
  ℕ, zero, suc, ◌-◌, ◌*◌, ◌/◌, ◌%◌, ◌<◌, Bool, true, ◌&&◌, [], ◌∷◌, ◌++◌, Option, none, some, ◌==◌,
  Bytes, length, All, ◌≡◌, refl, arith, ap, length-append, List, Option-cases, inl, inr, ◌≤◌,
}
use luci_app_l850gl_mm.Identity.{
  hex_digit, hex_pairs, token_generate_with, is_hex, all_hex, token_is_valid, random_len,
  buffer_size, system_random_fill, ReadAnswer, chunk,
}
use luci_app_l850gl_mm.Number.{digit_of}
use luci_app_l850gl_mm.Text.{after_prefix}
use mathlib.Core.List.{append_cancel_left}

abbrev all_below : (ℕ → Bool) → ℕ → Bool
all_below test zero = true
all_below test (suc n) = test n && all_below test n

all_below_lem : (test : ℕ → Bool) (n i : ℕ) → all_below test n ≡ true → i < n → test i ≡ true
all_below_lem test zero i h l = absurd (omega arith)
all_below_lem test (suc n) i h l = elim (ℕ_discrete i n) [
  | yes e ↦ rw e (ground arith)
  | no ne ↦ all_below_lem test n i (ground arith) (omega arith)
]

abbrev value_of : Option ℕ → ℕ
value_of none = 16
value_of (some n) = n

-- A digit is a hexadecimal byte, and it spells its number.
abbrev digit_fits : ℕ → Bool
digit_fits n = is_hex (hex_digit n) && value_of (digit_of 16 (hex_digit n)) == n

hex_digit_fits : (n : ℕ) → n < 16 → digit_fits n ≡ true
unfolding hex_digit digit_of
hex_digit_fits n l = all_below_lem digit_fits 16 n refl l

hex_digit-is_hex : (n : ℕ) → n < 16 → is_hex (hex_digit n) ≡ true
hex_digit-is_hex n l = ground (arith, hex_digit_fits n l)

hex_digit-injective : (m n : ℕ) → m < 16 → n < 16 → hex_digit m ≡ hex_digit n → m ≡ n
hex_digit-injective m n k l e =
    let same = ap (λ c. value_of (digit_of 16 c)) e in
    ground (arith, hex_digit_fits m k, hex_digit_fits n l, same)

abbrev pub IsByte : ℕ → Type 0
IsByte b = b < 256

hex_pairs-all_hex : (bs : Bytes) → All IsByte bs → all_hex (hex_pairs bs) ≡ true
unfolding hex_pairs
hex_pairs-all_hex [] h = refl
hex_pairs-all_hex (b ∷ bs) h =
    rw (hex_digit-is_hex (b / 16) (omega (arith, h.0)), hex_digit-is_hex (b % 16) (omega arith))
      (hex_pairs-all_hex bs h.1)

length-hex_pairs : (bs : Bytes) → length (hex_pairs bs) ≡ 2 * length bs
unfolding hex_pairs
length-hex_pairs [] = omega arith
length-hex_pairs (b ∷ bs) = omega (arith, length-hex_pairs bs)

hex_pairs-injective :
    (xs bs : Bytes) → All IsByte xs → All IsByte bs → hex_pairs xs ≡ hex_pairs bs → xs ≡ bs
unfolding hex_pairs
hex_pairs-injective [] [] ha hb e = refl
hex_pairs-injective [] (b ∷ bs) ha hb e = cc
hex_pairs-injective (a ∷ xs) [] ha hb e = cc
hex_pairs-injective (a ∷ xs) (b ∷ bs) ha hb e =
    let high =
      hex_digit-injective (a / 16) (b / 16) (omega (arith, ha.0)) (omega (arith, hb.0)) cc in
    let low = hex_digit-injective (a % 16) (b % 16) (omega arith) (omega arith) cc in
    let first : a ≡ b = omega (arith, high, low) in
    let rest = hex_pairs-injective xs bs ha.1 hb.1 cc in cc

after_prefix-append : (p s : Bytes) → after_prefix p (p ++ s) ≡ some s
unfolding after_prefix
after_prefix-append [] s = refl
after_prefix-append (c ∷ p) s = ground (arith, after_prefix-append p s)

token_generate_with_lem :
    (fill : ℕ → Option Bytes) (prefix bytes : Bytes)
    → fill random_len ≡ some bytes
    → token_generate_with fill (buffer_size prefix) prefix ≡ some (prefix ++ hex_pairs bytes)
unfolding token_generate_with
token_generate_with_lem fill prefix bytes f = rw f (ground arith)

-- With a source that gives 16 bytes, and with a buffer of the size that belongs to the prefix, a
-- token is generated, it is valid for the prefix, and another source of 16 bytes gives the same
-- token only if it gives the same bytes.
pub token_generate_with-valid :
    (fill fill' : ℕ → Option Bytes) (prefix bytes bytes' : Bytes)
    → fill random_len ≡ some bytes
    → fill' random_len ≡ some bytes'
    → (length bytes ≡ random_len) × (length bytes' ≡ random_len)
    → All IsByte bytes × All IsByte bytes'
    → (token : Bytes) × (token_generate_with fill (buffer_size prefix) prefix ≡ some token)
      × (token_is_valid (some token) prefix (buffer_size prefix) ≡ true)
      × (token_generate_with fill' (buffer_size prefix) prefix ≡ some token → bytes ≡ bytes')
unfolding token_is_valid
token_generate_with-valid fill fill' prefix bytes bytes' f f' (l, l') (h, h') =
    let size : length (prefix ++ hex_pairs bytes) ≡ buffer_size prefix - 1 =
      omega (arith, length-append prefix (hex_pairs bytes), length-hex_pairs bytes, l) in
    (
      prefix ++ hex_pairs bytes,
      token_generate_with_lem fill prefix bytes f,
      rw (after_prefix-append prefix (hex_pairs bytes), hex_pairs-all_hex bytes h)
          (ground (arith, size)),
      λ e. hex_pairs-injective bytes bytes' h h' (
          append_cancel_left prefix (hex_pairs bytes) (hex_pairs bytes')
            (let other = token_generate_with_lem fill' prefix bytes' f' in cc)),
    )

length-take : (n : ℕ) (s : Bytes) → length (take n s) ≤ n
unfolding take
length-take zero s = omega arith
length-take (suc n) [] = omega arith
length-take (suc n) (c ∷ s) = omega (arith, length-take n s)

-- The source of the daemon gives as many bytes as are wanted, in however many parts they come.
pub length-system_random_fill :
    (answers : List ReadAnswer) (missing : ℕ) {bytes : Bytes}
    → system_random_fill answers missing ≡ some bytes
    → length bytes ≡ missing
unfolding system_random_fill
length-system_random_fill answers zero h = ground (arith, h)
length-system_random_fill [] (suc n) h = cc
length-system_random_fill (interrupted ∷ answers) (suc n) h =
    length-system_random_fill answers (suc n) h
length-system_random_fill (read_error ∷ answers) (suc n) h = cc
length-system_random_fill (chunk [] ∷ answers) (suc n) h = cc
length-system_random_fill (chunk (b ∷ bs) ∷ answers) (suc n) {bytes} h =
    let count = take (suc n) (b ∷ bs) in
    elim (Option-cases (system_random_fill answers (suc n - length count))) [
      | inl e ↦ absurd (ground (arith, h, e))
      | inr (rest, e) ↦
          let whole : count ++ rest ≡ bytes = ground (arith, h, e) in
          omega (
            arith,
            ap length whole,
            length-append count rest,
            length-take (suc n) (b ∷ bs),
            length-system_random_fill answers (suc n - length count) e,
          )
    ]
