-- ===== src/Voltage.antt =====
-- `l850gl_l850_voltage_parse`: the answer to AT+CBC (l850gl-mm-bridge/src/l850_voltage.c). The
-- response is `none` for a NULL pointer, and `allocated` says whether `malloc` returned memory.
pub mod Exact
use luci_app_l850gl_mm.Base.Result.{Result, ok, err, ◌>>=◌, ◌>>◌, refuse_if, required}
use luci_app_l850gl_mm.Base.{
  ℕ, ◌+◌, ◌%◌, Bool, true, false, not, ◌||◌, List, [], ◌∷◌, Option, none, some, ltb, ◌==◌,
  if◌then◌else◌, Bytes, codes, length,
}
use luci_app_l850gl_mm.CellLock.Scan.{clean}
use luci_app_l850gl_mm.Number.{u32_max, decimal}
use luci_app_l850gl_mm.Text.{trim_ascii, split, after_prefix, has_byte}

pub data Failure : Type 0 where
  empty : Failure
  oversized : Failure
  malformed : Failure
  range : Failure

pub data ParseResult : Type 0 where
  parse_ok : ParseResult
  failed : Failure → ParseResult

-- `struct L850GLL850Voltage`.
pub record Voltage : Type 0 where
  pub status : ℕ
  pub millivolts : ℕ

abbrev pub zero_voltage : Voltage
zero_voltage = record { status = 0; millivolts = 0 }

abbrev pub max_response : ℕ
max_response = 128

abbrev pub min_mv : ℕ
min_mv = 2500

abbrev pub max_mv : ℕ
max_mv = 5000

abbrev pub status_max : ℕ
status_max = 3

-- The accumulator of this reader is a word of 32 bits.
unfoldable pub parse_uint32_decimal : Bytes → Option ℕ
parse_uint32_decimal s = decimal u32_max (u32_max + 1) s

-- One round of the loop, on the trimmed line: the second line with text is refused.
note_line : Bytes → Option Bytes → Result Failure (Option Bytes)
note_line [] seen = ok seen
note_line (c ∷ line) none = ok (some (c ∷ line))
note_line (c ∷ line) (some r) = err malformed

unfoldable pub find_record : List Bytes → Option Bytes → Result Failure (Option Bytes)
unfolding note_line
find_record [] seen = ok seen
find_record (line ∷ lines) seen = do r ← note_line (clean line) seen; find_record lines r

-- The two texts around the only comma.
unfoldable pub read_fields : List Bytes → Result Failure Voltage
read_fields (a ∷ b ∷ []) = do
  status ← required malformed (parse_uint32_decimal (trim_ascii a))
  millivolts ← required malformed (parse_uint32_decimal (trim_ascii b))
  refuse_if (ltb status_max status || ltb millivolts min_mv || ltb max_mv millivolts) range
  ok (record { status = status % 256; millivolts = millivolts })
read_fields _ = err malformed

unfoldable pub read_voltage : Option Bytes → Result Failure Voltage
read_voltage none = err empty
read_voltage (some line) = do
  body ← required malformed (after_prefix (codes "+CBC:") line)
  read_fields (split b',' (trim_ascii body))

-- The label `out`.
abbrev pub voltage_out : Result Failure Voltage → ParseResult × Voltage
voltage_out (err e) = (failed e, zero_voltage)
voltage_out (ok v) = (parse_ok, v)

unfoldable pub voltage_parse : Bool → Option Bytes → ParseResult × Voltage
voltage_parse allocated none = (failed empty, zero_voltage)
voltage_parse allocated (some response) =
    if length response == 0
    then (failed empty, zero_voltage)
    else if ltb max_response (length response)
    then (failed oversized, zero_voltage)
    else if not allocated || has_byte 0 response
    then (failed malformed, zero_voltage)
    else voltage_out (find_record (split b'\n' response) none >>= read_voltage)

abbrev pub voltage_parse_result_name : ParseResult → Bytes
voltage_parse_result_name parse_ok = codes "ok"
voltage_parse_result_name (failed empty) = codes "empty"
voltage_parse_result_name (failed oversized) = codes "oversized"
voltage_parse_result_name (failed malformed) = codes "malformed"
voltage_parse_result_name (failed range) = codes "range"

abbrev pub voltage_query_command : Bytes
voltage_query_command = codes "AT+CBC"
