-- ===== src/CellLock/Earfcn/Exact.antt =====
-- The rows of the table are disjoint and ascending, so the search does not depend on their order:
-- a channel number has the band of the one row that holds it.
use mathlib.Core.List.{Memᴰ}
use luci_app_l850gl_mm.Base.{
  ℕ, ◌+◌, ◌≤◌, Bool, true, ◌&&◌, List, [], ◌∷◌, some, ◌≡◌, inl, inr, refl, arith, leb, within,
  Bool-cases,
}
use luci_app_l850gl_mm.CellLock.Earfcn.{EarfcnRange, earfcn_ranges, find_range, earfcn_to_band}

abbrev pub Holds : EarfcnRange → ℕ → Type 0
Holds r e = (r.first ≤ e) × (e ≤ r.last)

-- Every row is an interval, and begins behind the last number of the row before it.
ascending : ℕ → List EarfcnRange → Bool
ascending start [] = true
ascending start (r ∷ rs) = leb start r.first && leb r.first r.last && ascending (r.last + 1) rs

table_ascends : ascending 0 earfcn_ranges ≡ true
unfolding ascending earfcn_ranges
table_ascends = refl

le-first :
    (start : ℕ) (rs : List EarfcnRange) {r : EarfcnRange}
    → ascending start rs ≡ true
    → Memᴰ r rs
    → start ≤ r.first
unfolding ascending
le-first start [] a m = elim m [ ]
le-first start (s ∷ rs) a (Memᴰ.head e) = ground arith
le-first start (s ∷ rs) a (Memᴰ.tail m) = ground (arith, le-first (s.last + 1) rs (ground arith) m)

find_range-mem :
    (start : ℕ) (rs : List EarfcnRange) (r : EarfcnRange) (e : ℕ)
    → ascending start rs ≡ true
    → Memᴰ r rs
    → Holds r e
    → find_range rs e ≡ some r.band
unfolding ascending find_range
find_range-mem start [] r e a m h = elim m [ ]
find_range-mem start (s ∷ rs) r e a (Memᴰ.head p) h = ground arith
find_range-mem start (s ∷ rs) r e a (Memᴰ.tail m) h = ground (
  arith,
  le-first (s.last + 1) rs (ground arith) m,
  find_range-mem (s.last + 1) rs r e (ground arith) m h,
)

mem-find_range :
    (rs : List EarfcnRange) (e : ℕ) {b : ℕ}
    → find_range rs e ≡ some b
    → (r : EarfcnRange) × Memᴰ r rs × Holds r e × (r.band ≡ b)
unfolding find_range
mem-find_range [] e h = cc
mem-find_range (r ∷ rs) e h = elim (Bool-cases (within r.first r.last e)) [
  | inl y ↦ (r, Memᴰ.head refl, ground arith, ground arith)
  | inr n ↦
      let (s, m, holds, band) = mem-find_range rs e (rw n at h) in (s, Memᴰ.tail m, holds, band)
]

-- Every row of the table decides the band of all the channel numbers that it holds.
pub earfcn_to_band_complete :
    (r : EarfcnRange) (e : ℕ) → Memᴰ r earfcn_ranges → Holds r e → earfcn_to_band e ≡ some r.band
unfolding earfcn_to_band
earfcn_to_band_complete r e = find_range-mem 0 earfcn_ranges r e table_ascends

-- A band is found only for a channel number that a row of the table with that band holds.
pub earfcn_to_band_sound :
    (e : ℕ) {b : ℕ}
    → earfcn_to_band e ≡ some b
    → (r : EarfcnRange) × Memᴰ r earfcn_ranges × Holds r e × (r.band ≡ b)
unfolding earfcn_to_band
earfcn_to_band_sound e = mem-find_range earfcn_ranges e
