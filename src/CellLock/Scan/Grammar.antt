-- ===== src/CellLock/Scan/Grammar.antt =====
-- The responses that `l850gl_l850_cell_parse` accepts, as a relation between their lines and the
-- cells in them.
use mathlib.Core.List.{append-nil, append_assoc}
use luci_app_l850gl_mm.Base.Result.{Result, ok, err, >>=-eq-ok}
use luci_app_l850gl_mm.Base.{
  ◌&&◌, ◌||◌, ◌+◌, ◌≤◌, ◌<◌, Bool, true, false, List, [], ◌∷◌, ◌++◌, ◌≡◌, ◌≢◌, ◌↔◌, refl, sym, ap,
  ◌∙◌, arith, if◌then◌else◌, Bytes, codes, length, length-append, same_text, same_text_iff,
  Bool-cases, some, inl, inr,
}
use luci_app_l850gl_mm.CellLock.Line.{parse_cell_line}
use luci_app_l850gl_mm.CellLock.Scan.Invariant.{
  serving_cells, cell_parse-IsAccepted, cell_parse-IsScan,
}
use luci_app_l850gl_mm.CellLock.Scan.{
  ScanState, start, add_cell, scan_current, clean, scan_lines, scan_end, cell_parse, has_byte,
  split,
}
use luci_app_l850gl_mm.CellLock.{Cell, CellScan, max_results, max_response, parse_ok, Failure}

-- Lines hold these cells in this order: each line is blank, or "OK", or one record. There is at
-- most one "OK", and only blank lines follow it (`seen` says that it has been read).
pub data Records : Bool → List Bytes → List Cell → Type 0 where
  stop : {seen : Bool} → Records seen [] []
  blank :
      {seen : Bool} {line : Bytes} {lines : List Bytes} {cells : List Cell}
      → clean line ≡ []
      → Records seen lines cells
      → Records seen (line ∷ lines) cells
  final :
      {seen : Bool} {line : Bytes} {lines : List Bytes} {cells : List Cell}
      → seen ≡ false
      → clean line ≡ codes "OK"
      → Records true lines cells
      → Records seen (line ∷ lines) cells
  item :
      {seen : Bool} {line : Bytes} {lines : List Bytes} {cell : Cell} {cells : List Cell}
      → seen ≡ false
      → parse_cell_line (clean line) ≡ ok cell
      → Records false lines cells
      → Records seen (line ∷ lines) (cell ∷ cells)

-- What one successful round does.
data Round (line : Bytes) (s t : ScanState) : Type 0 where
  skip : line ≡ [] → t ≡ s → Round line s t
  finish : s.ok_seen ≡ false → line ≡ codes "OK" → t ≡ record s { ok_seen = true } → Round line s t
  add :
      (c : Cell)
      → s.ok_seen ≡ false
      → t.ok_seen ≡ false
      → parse_cell_line line ≡ ok c
      → t.cells ≡ s.cells ++ (c ∷ [])
      → Round line s t

-- A round that comes to `parse_cell_line` and succeeds.
add_cell-Round :
    (line : Bytes) (s t : ScanState) (r : Result Failure Cell)
    → parse_cell_line line ≡ r
    → s.ok_seen ≡ false
    → add_cell s r ≡ ok t
    → Round line s t
unfolding add_cell
add_cell-Round line s t (err e) p seen h = absurd (ground arith)
add_cell-Round line s t (ok c) p seen h = add c seen (ground arith) p (ground arith)

scan_current-Round : (line : Bytes) (s t : ScanState) → scan_current line s ≡ ok t → Round line s t
unfolding scan_current
scan_current-Round [] s t h = skip refl (ground arith)
scan_current-Round (c ∷ line) s t h = elim (Bool-cases (same_text (c ∷ line) (codes "OK"))) [
  | inl same ↦ finish (ground arith) ((same_text_iff (c ∷ line) (codes "OK")).0 same) (ground arith)
  | inr other ↦
      add_cell-Round (c ∷ line) s t (parse_cell_line (c ∷ line)) refl (ground arith) (ground arith)
]

scan_lines-Records :
    (lines : List Bytes) (s t : ScanState)
    → scan_lines lines s ≡ ok t
    → (cells : List Cell) × Records s.ok_seen lines cells × (t.cells ≡ s.cells ++ cells)
unfolding scan_lines
scan_lines-Records [] s t h = ([], stop, ground (arith, append-nil s.cells))
scan_lines-Records (line ∷ lines) s t h =
    let (u, first, rest) = >>=-eq-ok (scan_current (clean line) s) (scan_lines lines) h in
    let (cells, records, whole) = scan_lines-Records lines u t rest in
    joined line u cells records whole (scan_current-Round (clean line) s u first)
  where
    joined :
        (line : Bytes) (u : ScanState) (cells : List Cell)
        → Records u.ok_seen lines cells
        → t.cells ≡ u.cells ++ cells
        → Round (clean line) s u
        → (all : List Cell) × Records s.ok_seen (line ∷ lines) all × (t.cells ≡ s.cells ++ all)
    joined line u cells records whole (skip e same) =
        (cells, blank e (rw (ap (λ x. x.ok_seen) same) at records), ground arith)
    joined line u cells records whole (finish seen e next) =
        (cells, final seen e (rw (ap (λ x. x.ok_seen) next) at records), ground arith)
    joined line u cells records whole (add c seen still p more) = (
      c ∷ cells,
      item seen p (rw still at records),
      ground (arith, append_assoc s.cells (c ∷ []) cells),
    )

-- A text that is a record is neither blank nor "OK".
record-ne-nil : {c : Cell} → parse_cell_line [] ≢ ok c
unfolding parse_cell_line
record-ne-nil h = cc

record-ne-final : {c : Cell} → parse_cell_line (codes "OK") ≢ ok c
unfolding parse_cell_line
record-ne-final h = cc

scan_current-item :
    (line : Bytes) (s : ScanState) (c : Cell)
    → s.ok_seen ≡ false
    → length s.cells < max_results
    → parse_cell_line line ≡ ok c
    → (c.serving && s.serving_seen) ≡ false
    → scan_current line s
      ≡ ok (record s { serving_seen = s.serving_seen || c.serving; cells = s.cells ++ (c ∷ []) })
unfolding scan_current
scan_current-item [] s c seen room p one = absurd (record-ne-nil p)
scan_current-item (d ∷ line) s c seen room p one =
    elim (Bool-cases (same_text (d ∷ line) (codes "OK"))) [
      | inl same ↦
          absurd (record-ne-final (rw ((same_text_iff (d ∷ line) (codes "OK")).0 same) at p))
      | inr other ↦ rw (other, p) (ground arith)
    ]

scan_current-final :
    (line : Bytes) (s : ScanState)
    → s.ok_seen ≡ false
    → line ≡ codes "OK"
    → scan_current line s ≡ ok (record s { ok_seen = true })
unfolding scan_current same_text
scan_current-final line s seen e = rw (e, seen)

scan_current-blank : (line : Bytes) (s : ScanState) → line ≡ [] → scan_current line s ≡ ok s
unfolding scan_current
scan_current-blank line s e = rw e

Records-scan_lines :
    {seen : Bool} {lines : List Bytes} {cells : List Cell} (s : ScanState)
    → Records seen lines cells
    → s.ok_seen ≡ seen
    → length s.cells + length cells ≤ max_results
    → (if s.serving_seen then 1 else 0) + serving_cells cells ≤ 1
    → (t : ScanState) × (scan_lines lines s ≡ ok t) × (t.cells ≡ s.cells ++ cells)
unfolding scan_lines serving_cells
Records-scan_lines s stop e room one = (s, refl, sym (append-nil s.cells))
Records-scan_lines s (blank e r) seen room one =
    let (t, done, whole) = Records-scan_lines s r seen room one in
    (t, rw (scan_current-blank _ s e) done, whole)
Records-scan_lines s (final e p r) seen room one =
    let (t, done, whole) = Records-scan_lines (record s { ok_seen = true }) r refl room one in
    (t, rw (scan_current-final _ s (seen ∙ e) p) done, whole)
Records-scan_lines s (item {cell = c} {cells = cs} e p r) seen room one =
    let u = record s { serving_seen = s.serving_seen || c.serving; cells = s.cells ++ (c ∷ []) } in
    let (t, done, whole) =
      Records-scan_lines u r (seen ∙ e) (omega (arith, length-append s.cells (c ∷ [])))
        (ground arith) in
    (
      t,
      rw (scan_current-item _ s c (seen ∙ e) (omega arith) p (ground arith)) done,
      whole ∙ append_assoc s.cells (c ∷ []) cs,
    )

scan_end-some :
    (s : ScanState) (scan : List Cell)
    → s.cells ≡ scan
    → 1 ≤ length scan
    → scan_end (ok s) ≡ (parse_ok, scan)
scan_end-some s [] e h = elim h [ ]
scan_end-some s (c ∷ cs) e h = rw e

cell_parse-lines :
    (text : Bytes) (old : CellScan)
    → 1 ≤ length text
    → length text ≤ max_response
    → has_byte 0 text ≡ false
    → cell_parse true (some text) old ≡ scan_end (scan_lines (split b'\n' text) start)
unfolding cell_parse
cell_parse-lines text old some_byte fits clear = rw clear (ground arith)

-- For a response of 1 to 16384 bytes with no NUL byte, and with memory at hand, the parser returns
-- OK with a list of cells exactly if the lines of the response hold these cells in this order, with
-- blank lines anywhere and at most one "OK" line behind all records, and there are 1 to 64 cells,
-- at most one of them the serving cell.
pub cell_parse_exact :
    (text : Bytes) (old scan : CellScan)
    → 1 ≤ length text
    → length text ≤ max_response
    → has_byte 0 text ≡ false
    → (cell_parse true (some text) old ≡ (parse_ok, scan)) ↔ (
        Records false (split b'\n' text) scan
        × (1 ≤ length scan)
        × (length scan ≤ max_results)
        × (serving_cells scan ≤ 1))
cell_parse_exact text old scan some_byte fits clear = (sound, complete)
  where
    sound :
        cell_parse true (some text) old ≡ (parse_ok, scan)
        → Records false (split b'\n' text) scan
          × (1 ≤ length scan)
          × (length scan ≤ max_results)
          × (serving_cells scan ≤ 1)
    sound h =
        let a = cell_parse-IsAccepted true (some text) old h in
        let (i, some_cell) = cell_parse-IsScan true (some text) old h in
        let (cells, records, whole) = scan_lines-Records (split b'\n' a.text) start a.last a.read in
        let same : a.text ≡ text = ground (arith, a.given) in
        (rw (← same, ← a.cells, whole) records, some_cell, i.bounded, i.one_serving)

    complete :
        Records false (split b'\n' text) scan
          × (1 ≤ length scan)
          × (length scan ≤ max_results)
          × (serving_cells scan ≤ 1)
        → cell_parse true (some text) old ≡ (parse_ok, scan)
    complete (records, some_cell, room, one) =
        let (t, done, whole) = Records-scan_lines start records refl (omega arith) (omega arith) in
        cell_parse-lines text old some_byte fits clear
        ∙ ap scan_end done
        ∙ scan_end-some t scan whole some_cell
