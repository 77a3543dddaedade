-- ===== src/CellLock/Line.antt =====
-- `parse_cell_line`: one `+XMCI:` record of l850gl-mm-bridge/src/l850_cell.c.
pub mod Range
use luci_app_l850gl_mm.Base.{
  ℕ, suc, zero, ◌+◌, ◌-◌, ◌*◌, ◌%◌, Bool, true, false, not, ◌&&◌, ◌||◌, List, [], ◌∷◌, Option, none,
  some, ltb, leb, ◌==◌, if◌then◌else◌, Bytes, codes, get_or, length, cons?, nonempty,
}
use luci_app_l850gl_mm.Base.Int.{ℤ, pos, negsuc, sub_ℕ, ltb_ℤ, i16}
use luci_app_l850gl_mm.Base.Result.{Result, ok, err, ◌>>=◌, ◌>>◌, refuse_if, required}
use luci_app_l850gl_mm.CellLock.{
  Failure, malformed, unsupported_type, sentinel, range, Cell, cleared_state,
}
use luci_app_l850gl_mm.CellLock.Earfcn.{earfcn_to_band}
use luci_app_l850gl_mm.Number.{u32_max, i32_max, parse_uint32, parse_int32, read_values}
use luci_app_l850gl_mm.Text.{is_blank, trim_ascii, split, after_prefix, has_byte}

abbrev pub field_count : ℕ
field_count = 14

-- `value[strlen(value) - 1U]`; the text is not empty.
last_byte : ℕ → Bytes → ℕ
last_byte c [] = c
last_byte c (d ∷ s) = last_byte d s

-- The text without its last byte.
all_but_last : Bytes → Bytes
all_but_last [] = []
all_but_last (c ∷ []) = []
all_but_last (c ∷ d ∷ s) = c ∷ all_but_last (d ∷ s)

-- The text between two quotes: not empty, with no quote inside and no blank at its ends.
inner_token : Bytes → Option Bytes
unfolding last_byte
inner_token [] = none
inner_token (c ∷ s) =
    if has_byte b'"' (c ∷ s) || is_blank c || is_blank (last_byte c s) then none else some (c ∷ s)

unquote_trimmed : Bytes → Option Bytes
unfolding inner_token last_byte all_but_last
unquote_trimmed [] = none
unquote_trimmed (c ∷ s) =
    if not (c == b'"')
    then (if has_byte b'"' (c ∷ s) then none else some (c ∷ s))
    else if ltb (length (c ∷ s)) 3 || not (last_byte c s == b'"')
    then none
    else inner_token (all_but_last s)

unfoldable pub unquote_numeric_token : Bytes → Option Bytes
unfolding unquote_trimmed trim_ascii has_byte
unquote_numeric_token s = unquote_trimmed (trim_ascii s)

-- The loop that cuts the record into fields: `room` is LTE_FIELD_COUNT - count.
cut_fields : ℕ → List Bytes → Option (List Bytes)
cut_fields room [] = some []
cut_fields zero (p ∷ ps) = none
cut_fields (suc room) (p ∷ ps) = cons? (nonempty (trim_ascii p)) (cut_fields room ps)

unquote_all : List Bytes → Option (List Bytes)
unquote_all [] = some []
unquote_all (f ∷ fs) = cons? (unquote_numeric_token f) (unquote_all fs)

-- The fields of one record after the parsers of numbers.
pub record Values : Type 0 where
  pub type : ℕ
  pub mcc : ℕ
  pub mnc : ℕ
  pub tac : ℕ
  pub cell_id : ℕ
  pub pci : ℕ
  pub earfcn : ℕ
  pub ul_earfcn : ℕ
  pub pathloss : ℕ
  pub rsrp : ℕ
  pub rsrq : ℕ
  pub rssnr : ℤ
  pub timing_advance : ℕ
  pub bandwidth : ℕ

-- `values[0]` to `values[13]`, of which the eleventh is `rssnr`.
abbrev name_values : List ℕ → ℤ → Values
name_values values rssnr = record {
  type = get_or values 0 0;
  mcc = get_or values 1 0;
  mnc = get_or values 2 0;
  tac = get_or values 3 0;
  cell_id = get_or values 4 0;
  pci = get_or values 5 0;
  earfcn = get_or values 6 0;
  ul_earfcn = get_or values 7 0;
  pathloss = get_or values 8 0;
  rsrp = get_or values 9 0;
  rsrq = get_or values 10 0;
  rssnr = rssnr;
  timing_advance = get_or values 12 0;
  bandwidth = get_or values 13 0;
}

-- The sentinels that stand for an unknown value.
unfoldable pub has_sentinel : Values → Bool
has_sentinel v = v.pci == u32_max || v.earfcn == u32_max || v.rsrp == 255 || v.rsrq == 255

unfoldable pub out_of_range : Values → Bool
out_of_range v =
    ltb 999 v.mcc
    || ltb 999 v.mnc
    || ltb 65535 v.tac
    || (ltb 0x0fffffff v.cell_id && not (v.cell_id == u32_max))
    || (ltb 262143 v.ul_earfcn && not (v.ul_earfcn == u32_max))
    || (ltb 254 v.pathloss && not (v.pathloss == u32_max))
    || ltb 97 v.rsrp
    || ltb 34 v.rsrq
    || ltb_ℤ v.rssnr (negsuc 254)
    || ltb_ℤ (pos 255) v.rssnr
    || (ltb 1282 v.timing_advance && not (v.timing_advance == i32_max))
    || ltb 15 v.bandwidth

-- The checks behind the readers of numbers, and the cell that is filled in.
unfoldable pub check_values : Values → Result Failure Cell
check_values v = do
  refuse_if (not (v.type == 4) && not (v.type == 5)) unsupported_type
  refuse_if (has_sentinel v) sentinel
  refuse_if (ltb 503 v.pci) range
  band ← required range (earfcn_to_band v.earfcn)
  refuse_if (out_of_range v) range
  ok (record {
    type = v.type % 256;
    serving = v.type == 4;
    earfcn = v.earfcn;
    pci = v.pci % 65536;
    band = band;
    rsrp_dbm = i16 (sub_ℕ v.rsrp 141);
    rsrq_tenths_db = i16 (sub_ℕ (v.rsrq * 5) 195);
  })

unfoldable pub read_record : Bytes → Result Failure Values
unfolding cut_fields unquote_all trim_ascii split after_prefix unquote_numeric_token parse_uint32
    parse_int32 read_values
read_record line = do
  rest ← required malformed (after_prefix (codes "+XMCI:") line)
  fields ← required malformed (cut_fields field_count (split b',' (trim_ascii rest)))
  refuse_if (not (length fields == field_count)) malformed
  tokens ← required malformed (unquote_all fields)
  values ← required malformed (read_values parse_uint32 11 0 tokens)
  rssnr ← required malformed (parse_int32 (get_or tokens 11 []))
  ok (name_values values rssnr)

unfoldable pub parse_cell_line : Bytes → Result Failure Cell
unfolding read_record check_values
parse_cell_line line = do v ← read_record line; check_values v
