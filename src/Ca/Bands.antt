-- ===== src/Ca/Bands.antt =====
-- The bands that a carrier of an L850-GL may have, with their downlink and uplink channel numbers,
-- and the bandwidth codes (l850gl-mm-bridge/src/l850_ca.c).
use luci_app_l850gl_mm.Base.{
  ℕ, Bool, false, List, [], ◌∷◌, Option, none, some, ◌==◌, if◌then◌else◌, within, get_elem?,
}

-- `struct CaBandRange`.
pub record CaBandRange : Type 0 where
  pub band : ℕ
  pub dl_first : ℕ
  pub dl_last : ℕ
  pub ul_first : ℕ
  pub ul_last : ℕ

abbrev row : ℕ → ℕ → ℕ → ℕ → ℕ → CaBandRange
row band dl_first dl_last ul_first ul_last = record {
  band = band;
  dl_first = dl_first;
  dl_last = dl_last;
  ul_first = ul_first;
  ul_last = ul_last;
}

-- `ca_band_ranges`.
unfoldable pub ca_band_ranges : List CaBandRange
ca_band_ranges =
    row 1 0 599 18000 18599
    ∷ row 2 600 1199 18600 19199
    ∷ row 3 1200 1949 19200 19949
    ∷ row 4 1950 2399 19950 20399
    ∷ row 5 2400 2649 20400 20649
    ∷ row 7 2750 3449 20750 21449
    ∷ row 8 3450 3799 21450 21799
    ∷ row 11 4750 4949 22750 22949
    ∷ row 12 5010 5179 23010 23179
    ∷ row 13 5180 5279 23180 23279
    ∷ row 17 5730 5849 23730 23849
    ∷ row 18 5850 5999 23850 23999
    ∷ row 19 6000 6149 24000 24149
    ∷ row 20 6150 6449 24150 24449
    ∷ row 21 6450 6599 24450 24599
    ∷ row 26 8690 9039 26690 27039
    ∷ row 28 9210 9659 27210 27659
    ∷ row 30 9770 9869 27660 27759
    ∷ row 38 37750 38249 37750 38249
    ∷ row 39 38250 38649 38250 38649
    ∷ row 40 38650 39649 38650 39649
    ∷ row 41 39650 41589 39650 41589
    ∷ row 66 66436 67335 131972 132671
    ∷ []

unfoldable pub find_in : List CaBandRange → ℕ → Option CaBandRange
find_in [] band = none
find_in (r ∷ rs) band = if r.band == band then some r else find_in rs band

unfoldable pub find_band_range : ℕ → Option CaBandRange
unfolding find_in ca_band_ranges
find_band_range band = find_in ca_band_ranges band

downlink_within : Option CaBandRange → ℕ → Bool
downlink_within none earfcn = false
downlink_within (some r) earfcn = within r.dl_first r.dl_last earfcn

uplink_within : Option CaBandRange → ℕ → Bool
uplink_within none earfcn = false
uplink_within (some r) earfcn = within r.ul_first r.ul_last earfcn

unfoldable pub band_downlink_earfcn_is_valid : ℕ → ℕ → Bool
unfolding downlink_within
band_downlink_earfcn_is_valid band dl_earfcn = downlink_within (find_band_range band) dl_earfcn

unfoldable pub band_uplink_earfcn_is_valid : ℕ → ℕ → Bool
unfolding uplink_within
band_uplink_earfcn_is_valid band ul_earfcn = uplink_within (find_band_range band) ul_earfcn

-- The bandwidth in tenths of a megahertz.
unfoldable pub bandwidth_code_to_tenths_mhz : ℕ → Option ℕ
bandwidth_code_to_tenths_mhz code = get_elem? (14 ∷ 30 ∷ 50 ∷ 100 ∷ 150 ∷ 200 ∷ []) code
