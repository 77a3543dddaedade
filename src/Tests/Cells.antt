-- ===== src/Tests/Cells.antt =====
-- Answers to AT+XMCI=1 and to the query of the lock, from tests/fixtures/pci, and the cell lock.
use mathlib.Core.List.{Memᴰ}
use luci_app_l850gl_mm.Base.Result.{ok}
use luci_app_l850gl_mm.Base.Int.{negsuc}
use luci_app_l850gl_mm.Base.{
  true, false, List, [], ◌∷◌, some, Bytes, codes, ◌≡◌, ◌↔◌, ◌≤◌, refl, arith, inl, length,
  same_text,
}
use luci_app_l850gl_mm.CellLock.Earfcn.{EarfcnRange, earfcn_ranges, earfcn_to_band}
use luci_app_l850gl_mm.CellLock.Earfcn.Exact.{earfcn_to_band_complete}
use luci_app_l850gl_mm.CellLock.Line.{
  parse_cell_line, unquote_numeric_token, has_sentinel, out_of_range, check_values, read_record,
}
use luci_app_l850gl_mm.CellLock.Line.Range.{IsValidCell, parse_cell_line-IsValidCell}
use luci_app_l850gl_mm.CellLock.Scan.{cell_parse, scan_lines, scan_current}
use luci_app_l850gl_mm.CellLock.Scan.Grammar.{Records, cell_parse_exact}
use luci_app_l850gl_mm.CellLock.Scan.Invariant.{IsScan, serving_cells, cell_parse-IsScan}
use luci_app_l850gl_mm.CellLock.Nvm.{
  NvmValues, nvm_parse, nvm_lines, nvm_current, nvm_end, key_value, key_index, lock_state,
}
use luci_app_l850gl_mm.CellLock.Nvm.Fields.{IsAnswer, nvm_parse-IsAnswer}
use luci_app_l850gl_mm.CellLock.Lifecycle.{
  State, available, scan_ready, lock_applied_reset_required, resetting, applied_verified, Run,
  still, next, state_transition_is_valid, Run-verified, Run-bounded,
}
use luci_app_l850gl_mm.CellLock.Command.{
  lock_state_matches, build_set_command, effective_pci, command_max,
}
use luci_app_l850gl_mm.CellLock.Command.Matches.{lock_state_matches_exact}
use luci_app_l850gl_mm.CellLock.Command.Injective.{build_set_command-injective}
use luci_app_l850gl_mm.CellLock.{Cell, LockState, parse_ok, max_results, cleared_state}
use luci_app_l850gl_mm.Number.{digit_of, read_base, parse_uint32, parse_int32, read_values, negate}
use luci_app_l850gl_mm.Text.{split, trim_ascii, strip_cr, has_byte}

abbrev two_cells : Bytes
two_cells =
    codes
      "+XMCI: 4,310,260,100,123456,0,1650,19650,80,51,19,30,1,10\n+XMCI: 5,310,260,101,123457,503,3450,21450,82,45,17,25,0,8\nOK\n"

abbrev two_cells_scan : List Cell
two_cells_scan = (cell_parse true (some two_cells) []).1

two_cells_accepted : cell_parse true (some two_cells) [] ≡ (parse_ok, two_cells_scan)
unfolding cell_parse scan_lines scan_current parse_cell_line unquote_numeric_token has_sentinel
    out_of_range check_values read_record nvm_parse nvm_lines nvm_current nvm_end key_value
    key_index lock_state earfcn_to_band digit_of read_base parse_uint32 parse_int32 read_values
    negate split trim_ascii strip_cr has_byte same_text
two_cells_accepted = refl

two_cells_clear : has_byte 0 two_cells ≡ false
unfolding has_byte
two_cells_clear = refl

cell_parse_exact_example : (cell_parse true (some two_cells) [] ≡ (parse_ok, two_cells_scan)) ↔ (
    Records false (split b'\n' two_cells) two_cells_scan
    × (1 ≤ length two_cells_scan)
    × (length two_cells_scan ≤ max_results)
    × (serving_cells two_cells_scan ≤ 1))
cell_parse_exact_example =
    cell_parse_exact two_cells [] two_cells_scan (omega arith) (omega arith) two_cells_clear

cell_parse-IsScan_example : IsScan two_cells_scan × (1 ≤ length two_cells_scan)
cell_parse-IsScan_example =
    cell_parse-IsScan true (some two_cells) [] {scan = two_cells_scan} two_cells_accepted

abbrev cell_line : Bytes
cell_line = codes "+XMCI: 4,310,260,100,123456,0,1650,19650,80,51,19,30,1,10"

abbrev the_cell : Cell
the_cell = record {
  type = 4;
  serving = true;
  earfcn = 1650;
  pci = 0;
  band = 3;
  rsrp_dbm = negsuc 89;
  rsrq_tenths_db = negsuc 99;
}

cell_line_accepted : parse_cell_line cell_line ≡ ok the_cell
unfolding cell_parse scan_lines scan_current parse_cell_line unquote_numeric_token has_sentinel
    out_of_range check_values read_record nvm_parse nvm_lines nvm_current nvm_end key_value
    key_index lock_state earfcn_to_band digit_of read_base parse_uint32 parse_int32 read_values
    negate split trim_ascii strip_cr has_byte same_text
cell_line_accepted = refl

parse_cell_line-IsValidCell_example : IsValidCell the_cell
parse_cell_line-IsValidCell_example =
    parse_cell_line-IsValidCell cell_line {c = the_cell} cell_line_accepted

abbrev nvm_locked : Bytes
nvm_locked = codes "frequency=1325\nrat=3\npsc_or_pci=381\nband_info=0\ninter_freq_lock_support=1\n"

abbrev the_lock : LockState
the_lock = record { enabled = true; has_pci = true; earfcn = 1325; pci = 381; band = 3 }

nvm_locked_accepted : nvm_parse true (some nvm_locked) cleared_state ≡ (parse_ok, the_lock)
unfolding cell_parse scan_lines scan_current parse_cell_line unquote_numeric_token has_sentinel
    out_of_range check_values read_record nvm_parse nvm_lines nvm_current nvm_end key_value
    key_index lock_state earfcn_to_band digit_of read_base parse_uint32 parse_int32 read_values
    negate split trim_ascii strip_cr has_byte same_text
nvm_locked_accepted = refl

nvm_parse-IsAnswer_example : (v : NvmValues) × IsAnswer (split b'\n' nvm_locked) v the_lock
nvm_parse-IsAnswer_example =
    nvm_parse-IsAnswer true nvm_locked cleared_state {state = the_lock} nvm_locked_accepted

abbrev the_values : NvmValues
the_values = record { frequency = 1325; rat = 3; pci = 381; band_info = 0; inter_frequency = 1 }

the_values_accepted : lock_state the_values ≡ ok the_lock
unfolding cell_parse scan_lines scan_current parse_cell_line unquote_numeric_token has_sentinel
    out_of_range check_values read_record nvm_parse nvm_lines nvm_current nvm_end key_value
    key_index lock_state earfcn_to_band digit_of read_base parse_uint32 parse_int32 read_values
    negate split trim_ascii strip_cr has_byte same_text
the_values_accepted = refl

lock_state_matches_exact_example :
    ((lock_state_matches (some the_lock) false 1325 true 381 ≡ true) ↔ (
      (the_values.inter_frequency ≡ 1)
      × (the_values.frequency ≡ 1325)
      × (the_values.pci ≡ effective_pci true 381)))
    × ((lock_state_matches (some the_lock) true 1325 true 381 ≡ true)
        ↔ (the_values.inter_frequency ≡ 0))
lock_state_matches_exact_example =
    lock_state_matches_exact the_values the_lock 1325 true 381 the_values_accepted (omega arith)

abbrev applied_trace : List State
applied_trace = scan_ready ∷ lock_applied_reset_required ∷ resetting ∷ applied_verified ∷ []

applied-Run : Run available applied_trace applied_verified
unfolding state_transition_is_valid
applied-Run = next refl (next refl (next refl (next refl still)))

Run-verified_example :
    applied_trace ≡ scan_ready ∷ lock_applied_reset_required ∷ resetting ∷ applied_verified ∷ []
Run-verified_example = Run-verified applied-Run (inl refl)

Run-bounded_example : length applied_trace ≤ 4
Run-bounded_example = Run-bounded applied-Run

band_of_1325 : earfcn_to_band 1325 ≡ some 3
unfolding earfcn_to_band
band_of_1325 = refl

build_set_command-injective_example :
    ((build_set_command 1325 true 381 command_max []).0 ≡ true)
    × ((build_set_command 1325 true 381 command_max []
          ≡ build_set_command 1325 false 0 command_max [])
        → (the_lock.earfcn ≡ 1325) × (effective_pci true 381 ≡ effective_pci false 0))
build_set_command-injective_example =
    build_set_command-injective 1325 1325 true false 381 0 [] []
      ((3, band_of_1325), omega arith, omega arith) ((3, band_of_1325), omega arith, omega arith)

abbrev third_row : EarfcnRange
third_row = record { first = 1200; last = 1949; band = 3 }

third_row_listed : Memᴰ third_row earfcn_ranges
unfolding earfcn_ranges
third_row_listed = Memᴰ.tail (Memᴰ.tail (Memᴰ.head refl))

earfcn_to_band_complete_example : earfcn_to_band 1325 ≡ some 3
earfcn_to_band_complete_example =
    earfcn_to_band_complete third_row 1325 third_row_listed (omega arith, omega arith)
