-- ===== src/Bits.antt =====
-- The bit operations of C on words of 32 bits, and what they do to each bit.
use luci_app_l850gl_mm.Base.{
  ℕ, zero, suc, ◌+◌, ◌*◌, ◌/◌, ◌%◌, ◌<◌, Bool, ◌&&◌, ◌||◌, ◌==◌, if◌then◌else◌, ◌≡◌, arith, false,
  ◌≢◌, true, Bool-cases, inl, inr, refl,
}

abbrev pub bit : ℕ → ℕ → Bool
bit zero a = a % 2 == 1
bit (suc k) a = bit k (a / 2)

module _ (f : Bool → Bool → Bool) where
  -- A bitwise operation on words of the given width.
  unfoldable pub bitwise : ℕ → ℕ → ℕ → ℕ
  bitwise zero a b = 0
  bitwise (suc width) a b =
      (if f (a % 2 == 1) (b % 2 == 1) then 1 else 0) + 2 * bitwise width (a / 2) (b / 2)

  pub bit-bitwise :
      (width k a b : ℕ) → k < width → bit k (bitwise width a b) ≡ f (bit k a) (bit k b)
  unfolding bitwise
  bit-bitwise zero k a b l = absurd (omega arith)
  bit-bitwise (suc width) zero a b l = ground arith
  bit-bitwise (suc width) (suc k) a b l =
      let rest = bitwise width (a / 2) (b / 2) in
      let low = if f (a % 2 == 1) (b % 2 == 1) then 1 else 0 in
      let half : (low + 2 * rest) / 2 ≡ rest = ground arith in
      rw half (bit-bitwise width k (a / 2) (b / 2) (omega arith))

-- `a & b` and `a | b`.
unfoldable pub land : ℕ → ℕ → ℕ
unfolding bitwise
land a b = bitwise ◌&&◌ 32 a b

unfoldable pub lor : ℕ → ℕ → ℕ
unfolding bitwise
lor a b = bitwise ◌||◌ 32 a b

pub bit-lor : (k a b : ℕ) → k < 32 → bit k (lor a b) ≡ bit k a || bit k b
unfolding lor
bit-lor k a b l = bit-bitwise ◌||◌ 32 k a b l

bitwise-shared :
    (width a b : ℕ)
    → bitwise ◌&&◌ width a b ≢ 0
    → (k : ℕ) × (k < width) × (bit k a ≡ true) × (bit k b ≡ true)
unfolding bitwise
bitwise-shared zero a b h = absurd (h refl)
bitwise-shared (suc width) a b h = elim (Bool-cases (a % 2 == 1 && b % 2 == 1)) [
  | inl e ↦ (0, omega arith, ground (arith, e), ground (arith, e))
  | inr e ↦
      let (k, l, x, y) = bitwise-shared width (a / 2) (b / 2) (λ z. ground (arith, h, e, z)) in
      (suc k, omega (arith, l), x, y)
]

-- Two words whose conjunction is not 0 share a bit.
pub land-shared :
    (a b : ℕ) → (land a b == 0) ≡ false → (k : ℕ) × (k < 32) × (bit k a ≡ true) × (bit k b ≡ true)
unfolding land
land-shared a b h = bitwise-shared 32 a b (ground (arith, h))
