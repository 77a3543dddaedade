-- ===== src/UbusRequest/Masks.antt =====
-- The masks of the fields that a request has, bit by bit (l850gl-mm-bridge/src/ubus_request.c).
use luci_app_l850gl_mm.Base.{
  ℕ, zero, suc, ◌/◌, ◌<◌, true, false, not, ◌&&◌, ◌||◌, ◌==◌, ◌≡◌, ◌∙◌, refl, ap, arith,
}
use luci_app_l850gl_mm.Bits.{bit, bitwise, bit-bitwise}
use luci_app_l850gl_mm.UbusRequest.{lor64, land64, shifted}

pub bit-zero : (k : ℕ) → bit k 0 ≡ false
bit-zero zero = refl
bit-zero (suc k) = bit-zero k

bit-shifted : (k i : ℕ) → bit k (shifted i) ≡ (k == i)
unfolding shifted
bit-shifted zero zero = refl
bit-shifted zero (suc i) = ground arith
bit-shifted (suc k) zero = ground (arith, bit-zero k)
bit-shifted (suc k) (suc i) = ground (arith, bit-shifted k i)

bitwise-zero : (width a : ℕ) → bitwise ◌&&◌ width a 0 ≡ 0
unfolding bitwise
bitwise-zero zero a = refl
bitwise-zero (suc width) a = ground (arith, bitwise-zero width (a / 2))

land-shifted : (width a i : ℕ) → i < width → (bitwise ◌&&◌ width a (shifted i) == 0) ≡ not (bit i a)
unfolding bitwise shifted
land-shifted zero a i l = absurd (omega arith)
land-shifted (suc width) a zero l = ground (arith, bitwise-zero width (a / 2))
land-shifted (suc width) a (suc i) l = ground (arith, land-shifted width (a / 2) i (omega arith))

pub land64-shifted : (a i : ℕ) → i < 64 → (land64 a (shifted i) == 0) ≡ not (bit i a)
unfolding land64
land64-shifted a i l = land-shifted 64 a i l

pub bit-lor64 : (a i k : ℕ) → k < 64 → bit k (lor64 a (shifted i)) ≡ bit k a || (k == i)
unfolding lor64
bit-lor64 a i k l = bit-bitwise ◌||◌ 64 k a (shifted i) l ∙ ap (◌||◌ (bit k a)) (bit-shifted k i)

-- A mask that holds the required one holds each of its bits.
pub required_bit :
    (seen required k : ℕ)
    → k < 64
    → land64 seen required ≡ required
    → bit k required ≡ true
    → bit k seen ≡ true
unfolding land64
required_bit seen required k l h b =
    ground (arith, bit-bitwise ◌&&◌ 64 k seen required l, ap (bit k) h, b)
