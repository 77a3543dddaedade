-- ===== src/CellLock/Scan.antt =====
-- `l850gl_l850_cell_parse`: the answer to AT+XMCI=1 as a list of cells
-- (l850gl-mm-bridge/src/l850_cell.c). The loop runs over the lines between newlines. The response
-- is `none` for a NULL pointer, and `allocated` says whether `malloc` returned memory.
pub mod Invariant
pub mod Grammar
use luci_app_l850gl_mm.Base.Result.{Result, ok, err, ◌>>=◌}
use luci_app_l850gl_mm.Base.{
  Bool, true, false, not, ◌&&◌, ◌||◌, List, [], ◌∷◌, ◌++◌, Option, none, some, ltb, leb, ◌==◌,
  if◌then◌else◌, Bytes, codes, length, same_text,
}
use luci_app_l850gl_mm.CellLock.Line.{parse_cell_line}
use luci_app_l850gl_mm.CellLock.{
  Failure, empty, oversized, malformed, too_many, ParseResult, parse_ok, failed, Cell, CellScan,
  max_response, max_results,
}
use luci_app_l850gl_mm.Text.{trim_ascii, strip_cr, split, has_byte}

-- The variables of the loop: `ok_seen`, `serving_seen` and the first `scan->length` cells.
pub record ScanState : Type 0 where
  pub ok_seen : Bool
  pub serving_seen : Bool
  pub cells : List Cell

abbrev pub start : ScanState
start = record { ok_seen = false; serving_seen = false; cells = [] }

-- The end of a round, with the result of `parse_cell_line`.
add_cell : ScanState → Result Failure Cell → Result Failure ScanState
add_cell s (err e) = err e
add_cell s (ok c) =
    if c.serving && s.serving_seen
    then err malformed
    else ok (record s { serving_seen = s.serving_seen || c.serving; cells = s.cells ++ (c ∷ []) })

-- One round of the loop, on the trimmed line.
unfoldable pub scan_current : Bytes → ScanState → Result Failure ScanState
unfolding add_cell
scan_current [] s = ok s
scan_current (c ∷ line) s =
    if same_text (c ∷ line) (codes "OK")
    then (if s.ok_seen then err malformed else ok (record s { ok_seen = true }))
    else if s.ok_seen || leb max_results (length s.cells)
    then err (if leb max_results (length s.cells) then too_many else malformed)
    else add_cell s (parse_cell_line (c ∷ line))

abbrev pub clean : Bytes → Bytes
clean line = trim_ascii (strip_cr line)

unfoldable pub scan_lines : List Bytes → ScanState → Result Failure ScanState
scan_lines [] s = ok s
scan_lines (line ∷ lines) s = do t ← scan_current (clean line) s; scan_lines lines t

-- What follows the loop: `scan` is cleared on every failure.
abbrev pub scan_end : Result Failure ScanState → ParseResult × CellScan
scan_end (err e) = (failed e, [])
scan_end (ok s) = elim s.cells [ [] ↦ (failed empty, []) | c ∷ cs ↦ (parse_ok, c ∷ cs) ]

-- The third argument is what `*scan` holds before the call.
unfoldable pub cell_parse : Bool → Option Bytes → CellScan → ParseResult × CellScan
cell_parse allocated none scan = (failed empty, scan)
cell_parse allocated (some response) scan =
    if length response == 0
    then (failed empty, scan)
    else if ltb max_response (length response)
    then (failed oversized, scan)
    else if not allocated || has_byte 0 response
    then (failed malformed, [])
    else scan_end (scan_lines (split b'\n' response) start)
