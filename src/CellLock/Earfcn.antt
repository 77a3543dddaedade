-- ===== src/CellLock/Earfcn.antt =====
-- The table of downlink channel numbers, and the search of `l850gl_l850_earfcn_to_band` in it
-- (l850gl-mm-bridge/src/l850_cell.c).
pub mod Exact
use luci_app_l850gl_mm.Base.{
  ℕ, Bool, ◌&&◌, List, [], ◌∷◌, Option, none, some, leb, if◌then◌else◌, within,
}

-- `struct EarfcnRange`.
pub record EarfcnRange : Type 0 where
  pub first : ℕ
  pub last : ℕ
  pub band : ℕ

abbrev row : ℕ → ℕ → ℕ → EarfcnRange
row first last band = record { first = first; last = last; band = band }

-- `earfcn_ranges`.
unfoldable pub earfcn_ranges : List EarfcnRange
earfcn_ranges =
    row 0 599 1
    ∷ row 600 1199 2
    ∷ row 1200 1949 3
    ∷ row 1950 2399 4
    ∷ row 2400 2649 5
    ∷ row 2650 2749 6
    ∷ row 2750 3449 7
    ∷ row 3450 3799 8
    ∷ row 3800 4149 9
    ∷ row 4150 4749 10
    ∷ row 4750 4949 11
    ∷ row 5010 5179 12
    ∷ row 5180 5279 13
    ∷ row 5280 5379 14
    ∷ row 5730 5849 17
    ∷ row 5850 5999 18
    ∷ row 6000 6149 19
    ∷ row 6150 6449 20
    ∷ row 6450 6599 21
    ∷ row 6600 7399 22
    ∷ row 7500 7699 23
    ∷ row 7700 8039 24
    ∷ row 8040 8689 25
    ∷ row 8690 9039 26
    ∷ row 9040 9209 27
    ∷ row 9210 9659 28
    ∷ row 9660 9769 29
    ∷ row 9770 9869 30
    ∷ row 9870 9919 31
    ∷ row 9920 10359 32
    ∷ row 36000 36199 33
    ∷ row 36200 36349 34
    ∷ row 36350 36949 35
    ∷ row 36950 37549 36
    ∷ row 37550 37749 37
    ∷ row 37750 38249 38
    ∷ row 38250 38649 39
    ∷ row 38650 39649 40
    ∷ row 39650 41589 41
    ∷ row 41590 43589 42
    ∷ row 43590 45589 43
    ∷ row 45590 46589 44
    ∷ row 46590 46789 45
    ∷ row 46790 54539 46
    ∷ row 54540 55239 47
    ∷ row 55240 56739 48
    ∷ row 65536 66435 65
    ∷ row 66436 67335 66
    ∷ row 67336 67535 67
    ∷ row 67536 67835 68
    ∷ row 67836 68335 69
    ∷ row 68336 68585 70
    ∷ row 68586 68935 71
    ∷ row 68936 68985 72
    ∷ row 68986 69035 73
    ∷ row 69036 69465 74
    ∷ row 69466 70315 75
    ∷ row 70316 70365 76
    ∷ row 70366 70545 85
    ∷ []

-- The loop over the table: the first row that holds the number gives the band.
pub find_range : List EarfcnRange → ℕ → Option ℕ
find_range [] earfcn = none
find_range (r ∷ rs) earfcn =
    if within r.first r.last earfcn then some r.band else find_range rs earfcn

unfoldable pub earfcn_to_band : ℕ → Option ℕ
unfolding find_range earfcn_ranges
earfcn_to_band earfcn = find_range earfcn_ranges earfcn
