-- ===== src/CellLock.antt =====
-- The data types of l850gl-mm-bridge/src/l850_cell.h: result codes, a scanned cell, the scan list
-- and the lock state that the modem keeps in its non-volatile memory.
pub mod Earfcn
pub mod Line
pub mod Scan
pub mod Nvm
pub mod Lifecycle
pub mod Command
use luci_app_l850gl_mm.Base.{ℕ, Bool, false, List, []}
use luci_app_l850gl_mm.Base.Int.{ℤ}

-- `enum L850GLL850CellParseResult` without `L850GL_L850_CELL_PARSE_OK`.
pub data Failure : Type 0 where
  empty oversized malformed unsupported_type sentinel range too_many : Failure

-- `enum L850GLL850CellParseResult`.
pub data ParseResult : Type 0 where
  parse_ok : ParseResult
  failed : Failure → ParseResult

-- `struct L850GLL850Cell`.
pub record Cell : Type 0 where
  pub type : ℕ
  pub serving : Bool
  pub earfcn : ℕ
  pub pci : ℕ
  pub band : ℕ
  pub rsrp_dbm : ℤ
  pub rsrq_tenths_db : ℤ

-- `struct L850GLL850CellScan`: the first `length` entries of the array.
abbrev pub CellScan : Type 0
CellScan = List Cell

-- `struct L850GLL850LockState`.
pub record LockState : Type 0 where
  pub enabled : Bool
  pub has_pci : Bool
  pub earfcn : ℕ
  pub pci : ℕ
  pub band : ℕ

-- After `memset(state, 0, sizeof(*state))`.
abbrev pub cleared_state : LockState
cleared_state = record { enabled = false; has_pci = false; earfcn = 0; pci = 0; band = 0 }

abbrev pub max_response : ℕ
max_response = 16384

abbrev pub max_results : ℕ
max_results = 64

abbrev pub nvm_max_response : ℕ
nvm_max_response = 512

abbrev pub pci_wildcard : ℕ
pci_wildcard = 65535

abbrev pub clear_frequency : ℕ
clear_frequency = 65535
