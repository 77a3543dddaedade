-- ===== src/Ca.antt =====
-- Carrier aggregation: the data types of l850gl-mm-bridge/src/l850_ca.h.
pub mod Bands
pub mod Decimal
pub mod Record
pub mod Parse
use luci_app_l850gl_mm.Base.Int.{ℤ, pos}
use luci_app_l850gl_mm.Base.{ℕ, Bool, false, List, [], Bytes, codes}

-- `enum L850GLL850CaParseResult` without `L850GL_L850_CA_PARSE_OK`.
pub data Failure : Type 0 where
  empty oversized malformed sentinel range too_many duplicate : Failure
  count_mismatch missing_primary : Failure

-- `enum L850GLL850CaParseResult`.
pub data ParseResult : Type 0 where
  parse_ok : ParseResult
  failed : Failure → ParseResult

-- `struct L850GLL850CaCarrier`.
pub record Carrier : Type 0 where
  pub index : ℕ
  pub primary : Bool
  pub has_cell_identity : Bool
  pub uplink_active : Bool
  pub sinr_available : Bool
  pub band : ℕ
  pub mcc : ℕ
  pub mnc : ℕ
  pub tac : ℕ
  pub cell_id : ℕ
  pub pci : ℕ
  pub rsrp_dbm : ℤ
  pub rsrq_tenths_db : ℤ
  pub sinr_tenths_db : ℤ
  pub dl_earfcn : ℕ
  pub ul_earfcn : ℕ
  pub dl_bandwidth_tenths_mhz : ℕ
  pub ul_bandwidth_tenths_mhz : ℕ

-- `struct L850GLL850CaCarrier carrier = {}`.
abbrev pub zero_carrier : Carrier
zero_carrier = record {
  index = 0;
  primary = false;
  has_cell_identity = false;
  uplink_active = false;
  sinr_available = false;
  band = 0;
  mcc = 0;
  mnc = 0;
  tac = 0;
  cell_id = 0;
  pci = 0;
  rsrp_dbm = pos 0;
  rsrq_tenths_db = pos 0;
  sinr_tenths_db = pos 0;
  dl_earfcn = 0;
  ul_earfcn = 0;
  dl_bandwidth_tenths_mhz = 0;
  ul_bandwidth_tenths_mhz = 0;
}

-- `struct L850GLL850CaInfo`: the first `length` carriers of the array, and the declared slots.
pub record CaInfo : Type 0 where
  pub carriers : List Carrier
  pub declared_slots : ℕ

abbrev pub cleared_info : CaInfo
cleared_info = record { carriers = []; declared_slots = 0 }

abbrev pub max_response : ℕ
max_response = 4096

abbrev pub max_slots : ℕ
max_slots = 8

abbrev pub query_command : Bytes
query_command = codes "AT+GTCAINFO?"

unfoldable pub ca_parse_result_name : ParseResult → Bytes
ca_parse_result_name parse_ok = codes "ok"
ca_parse_result_name (failed empty) = codes "empty"
ca_parse_result_name (failed oversized) = codes "oversized"
ca_parse_result_name (failed malformed) = codes "malformed"
ca_parse_result_name (failed sentinel) = codes "sentinel"
ca_parse_result_name (failed range) = codes "range"
ca_parse_result_name (failed too_many) = codes "too_many"
ca_parse_result_name (failed duplicate) = codes "duplicate"
ca_parse_result_name (failed count_mismatch) = codes "count_mismatch"
ca_parse_result_name (failed missing_primary) = codes "missing_primary"
