-- ===== src/CellLock/Line/Range.antt =====
-- What a parsed `+XMCI:` record is known to hold.
use luci_app_l850gl_mm.Base.{◌≤◌, false, some, ◌≡◌, ◌⊎◌, arith, ◌==◌, Bytes}
use luci_app_l850gl_mm.Base.Int.{negsuc, ◌≤ℤ◌}
use luci_app_l850gl_mm.Base.Result.{ok, >>=-eq-ok}
use luci_app_l850gl_mm.CellLock.Earfcn.{earfcn_to_band}
use luci_app_l850gl_mm.CellLock.Line.{
  Values, out_of_range, check_values, read_record, parse_cell_line,
}
use luci_app_l850gl_mm.CellLock.{Cell}

-- The ranges that the rest of the program relies on.
pub record IsValidCell (c : Cell) : Type 0 where
  pub lte : (c.type ≡ 4) ⊎ (c.type ≡ 5)
  pub serving_type : c.serving ≡ (c.type == 4)
  pub pci_range : c.pci ≤ 503
  pub band_of : earfcn_to_band c.earfcn ≡ some c.band
  pub rsrp_low : negsuc 140 ≤ℤ c.rsrp_dbm
  pub rsrp_high : c.rsrp_dbm ≤ℤ negsuc 43
  pub rsrq_low : negsuc 194 ≤ℤ c.rsrq_tenths_db
  pub rsrq_high : c.rsrq_tenths_db ≤ℤ negsuc 24

not_out_of_range : (v : Values) → out_of_range v ≡ false → (v.rsrp ≤ 97) × (v.rsrq ≤ 34)
unfolding out_of_range
not_out_of_range v h = ground arith

pub check_values-IsValidCell : (v : Values) {c : Cell} → check_values v ≡ ok c → IsValidCell c
unfolding check_values
check_values-IsValidCell v h = ground (arith, not_out_of_range v)

-- A record that `parse_cell_line` accepts gives a cell of type 4 or 5, marked as serving exactly
-- for type 4, with a PCI of at most 503, with the band of its channel number, with an RSRP between
-- -141 and -44 dBm and an RSRQ between -19.5 and -2.5 dB: no conversion to 16 bits loses anything.
pub parse_cell_line-IsValidCell :
    (line : Bytes) {c : Cell} → parse_cell_line line ≡ ok c → IsValidCell c
unfolding parse_cell_line
parse_cell_line-IsValidCell line h =
    let (v, _, checked) = >>=-eq-ok (read_record line) check_values h in
    check_values-IsValidCell v checked
