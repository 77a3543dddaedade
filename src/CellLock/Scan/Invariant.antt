-- ===== src/CellLock/Scan/Invariant.antt =====
-- What holds of the list of cells after every round of the loop.
use luci_app_l850gl_mm.Base.Result.{Result, ok, err, >>=-eq-ok}
use luci_app_l850gl_mm.Base.{
  ℕ, ◌+◌, ◌≤◌, ◌<◌, Bool, true, false, List, [], ◌∷◌, ◌++◌, ◌≡◌, refl, arith, if◌then◌else◌, Bytes,
  All, All-append, length, length-append, Option, none, some,
}
use luci_app_l850gl_mm.CellLock.Line.Range.{IsValidCell, parse_cell_line-IsValidCell}
use luci_app_l850gl_mm.CellLock.Line.{parse_cell_line}
use luci_app_l850gl_mm.CellLock.Scan.{
  ScanState, start, add_cell, scan_current, clean, scan_lines, scan_end, cell_parse, has_byte,
  split,
}
use luci_app_l850gl_mm.CellLock.{Failure, Cell, max_results, parse_ok, CellScan, max_response}

unfoldable pub serving_cells : List Cell → ℕ
serving_cells [] = 0
serving_cells (c ∷ cs) = (if c.serving then 1 else 0) + serving_cells cs

serving_cells-concat :
    (cs : List Cell) (c : Cell)
    → serving_cells (cs ++ (c ∷ [])) ≡ serving_cells cs + (if c.serving then 1 else 0)
unfolding serving_cells
serving_cells-concat [] c = omega arith
serving_cells-concat (d ∷ cs) c = omega (arith, serving_cells-concat cs c)

-- A list that the parser may return.
pub record IsScan (cells : List Cell) : Type 0 where
  pub bounded : length cells ≤ max_results
  pub one_serving : serving_cells cells ≤ 1
  pub valid : All IsValidCell cells

pub record Inv (s : ScanState) : Type 0 where
  pub bounded : length s.cells ≤ max_results
  pub counted : serving_cells s.cells ≡ (if s.serving_seen then 1 else 0)
  pub valid : All IsValidCell s.cells

pub start-Inv : Inv start
unfolding serving_cells
start-Inv = record { bounded = omega arith; counted = refl; valid = tt }

add_cell-Inv :
    (s : ScanState) (r : Result Failure Cell) {t : ScanState}
    → ((c : Cell) → r ≡ ok c → IsValidCell c)
    → Inv s
    → length s.cells < max_results
    → add_cell s r ≡ ok t
    → Inv t
unfolding add_cell
add_cell-Inv s (err e) v i l h = cc
add_cell-Inv s (ok c) v i l h = ground (
  arith,
  length-append s.cells (c ∷ []),
  serving_cells-concat s.cells c,
  All-append IsValidCell s.cells (c ∷ []) i.valid (v c refl, tt),
)

scan_current-Inv :
    (line : Bytes) (s : ScanState) {t : ScanState} → Inv s → scan_current line s ≡ ok t → Inv t
unfolding scan_current
scan_current-Inv [] s i h = ground arith
scan_current-Inv (c ∷ line) s {t} i h = ground (
  arith,
  add_cell-Inv s (parse_cell_line (c ∷ line)) {t = t}
      (λ cell. parse_cell_line-IsValidCell (c ∷ line)),
)

scan_lines-Inv :
    (lines : List Bytes) (s : ScanState) {t : ScanState} → Inv s → scan_lines lines s ≡ ok t → Inv t
unfolding scan_lines
scan_lines-Inv [] s i h = ground arith
scan_lines-Inv (line ∷ lines) s i h =
    let (u, first, rest) = >>=-eq-ok (scan_current (clean line) s) (scan_lines lines) h in
    scan_lines-Inv lines u (scan_current-Inv (clean line) s i first) rest

-- An accepted response: the list is not empty and is a valid scan, and the call had memory and a
-- response of at most 16384 bytes with no NUL byte.
pub record IsAccepted (allocated : Bool) (response : Option Bytes) (scan : List Cell) : Type 0 where
  pub text : Bytes
  pub given : response ≡ some text
  pub memory : allocated ≡ true
  pub fits : length text ≤ max_response
  pub no_nul : has_byte 0 text ≡ false
  pub last : ScanState
  pub read : scan_lines (split b'\n' text) start ≡ ok last
  pub cells : last.cells ≡ scan
  pub some_cell : 1 ≤ length scan

scan_end-ok :
    (r : Result Failure ScanState) {scan : List Cell}
    → scan_end r ≡ (parse_ok, scan)
    → (s : ScanState) × (r ≡ ok s) × (s.cells ≡ scan) × (1 ≤ length scan)
scan_end-ok (err e) h = absurd (ground arith)
scan_end-ok (ok s) h = (s, refl, ground arith, ground arith)

pub cell_parse-IsAccepted :
    (allocated : Bool) (response : Option Bytes) (old : CellScan) {scan : CellScan}
    → cell_parse allocated response old ≡ (parse_ok, scan)
    → IsAccepted allocated response scan
unfolding cell_parse
cell_parse-IsAccepted allocated none old h = absurd (ground arith)
cell_parse-IsAccepted allocated (some text) old {scan} h =
    let (s, read, cells, some_cell) =
      scan_end-ok (scan_lines (split b'\n' text) start) {scan = scan} (ground arith) in
    record {
      text = text;
      given = refl;
      memory = ground arith;
      fits = ground arith;
      no_nul = ground arith;
      last = s;
      read = read;
      cells = cells;
      some_cell = some_cell;
    }

-- A scan that `l850gl_l850_cell_parse` returns with OK has between 1 and 64 cells, at most one of
-- which is the serving cell, and every cell satisfies the ranges of a valid record.
pub cell_parse-IsScan :
    (allocated : Bool) (response : Option Bytes) (old : CellScan) {scan : CellScan}
    → cell_parse allocated response old ≡ (parse_ok, scan)
    → IsScan scan × (1 ≤ length scan)
cell_parse-IsScan allocated response old h =
    let a = cell_parse-IsAccepted allocated response old h in
    let i = scan_lines-Inv (split b'\n' a.text) start start-Inv a.read in
    rw (← a.cells) (
      record { bounded = i.bounded; one_serving = ground (arith, i.counted); valid = i.valid },
      rw a.cells a.some_cell,
    )
