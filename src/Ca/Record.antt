-- ===== src/Ca/Record.antt =====
-- One record of the answer to AT+GTCAINFO?: the primary carrier with 14 fields, or a secondary
-- carrier with 10 (l850gl-mm-bridge/src/l850_ca.c).
pub mod Valid
use luci_app_l850gl_mm.Base.Int.{ℤ, pos, negsuc, pos_part, neg_part, sub_ℕ, ltb_ℤ, i16}
use luci_app_l850gl_mm.Base.Result.{Result, ok, err, ◌>>=◌, ◌>>◌, refuse_if, required}
use luci_app_l850gl_mm.Base.{
  ℕ, ◌+◌, ◌*◌, ◌%◌, Bool, true, false, not, ◌&&◌, ◌||◌, List, [], Option, none, some, ltb, ◌==◌,
  if◌then◌else◌, Bytes, get_or,
}
use luci_app_l850gl_mm.Ca.Bands.{
  band_downlink_earfcn_is_valid, band_uplink_earfcn_is_valid, bandwidth_code_to_tenths_mhz,
}
use luci_app_l850gl_mm.Ca.Decimal.{parse_uint32_decimal, parse_int32_decimal}
use luci_app_l850gl_mm.Ca.{Failure, malformed, sentinel, range, Carrier, zero_carrier, max_slots}
use luci_app_l850gl_mm.Number.{read_values}

-- A test of a signed value against a number.
abbrev is_value : ℤ → ℕ → Bool
is_value (pos n) k = n == k
is_value (negsuc n) k = false

abbrev times_five : ℤ → ℤ
times_five z = sub_ℕ (pos_part z * 5) (neg_part z * 5)

-- The arguments of `validate_common_carrier`.
pub record Common : Type 0 where
  pub band : ℕ
  pub pci : ℕ
  pub rsrp : ℕ
  pub rsrq : ℕ
  pub sinr : ℤ
  pub dl_earfcn : ℕ
  pub ul_earfcn : ℕ
  pub dl_bandwidth : ℕ
  pub ul_bandwidth : ℕ

unfoldable pub common_sentinel : Common → Bool → Bool
common_sentinel v allow_unavailable_sinr =
    v.band == 255
    || v.pci == 65535
    || v.rsrp == 255
    || v.rsrq == 255
    || (is_value v.sinr 127 && not allow_unavailable_sinr)
    || is_value v.sinr 255
    || v.dl_earfcn == 65535
    || v.ul_earfcn == 65535
    || v.dl_bandwidth == 255

unfoldable pub common_out_of_range : Common → Bool
common_out_of_range v =
    v.band == 0
    || ltb 85 v.band
    || ltb 503 v.pci
    || ltb 97 v.rsrp
    || ltb 34 v.rsrq
    || (not (is_value v.sinr 127) && (ltb_ℤ v.sinr (negsuc 99) || ltb_ℤ (pos 100) v.sinr))
    || not (band_downlink_earfcn_is_valid v.band v.dl_earfcn)

-- The uplink of a carrier: whether it is active, and its bandwidth.
unfoldable pub common_uplink : Common → Bool → Result Failure (Bool × ℕ)
common_uplink v allow_inactive_uplink =
    if v.ul_bandwidth == 255
    then (if allow_inactive_uplink then ok (false, 0) else err sentinel)
    else if not (band_uplink_earfcn_is_valid v.band v.ul_earfcn)
    then err range
    else (do width ← required range (bandwidth_code_to_tenths_mhz v.ul_bandwidth); ok (true, width))

-- What is written behind the tests.
fill_carrier : Carrier → Common → ℕ → Bool × ℕ → Carrier
fill_carrier carrier v dl_width (active, ul_width) = record carrier {
  uplink_active = active;
  sinr_available = not (is_value v.sinr 127);
  band = v.band % 65536;
  pci = v.pci % 65536;
  rsrp_dbm = i16 (sub_ℕ v.rsrp 141);
  rsrq_tenths_db = i16 (sub_ℕ (v.rsrq * 5) 195);
  sinr_tenths_db = if is_value v.sinr 127 then pos 0 else i16 (times_five v.sinr);
  dl_earfcn = v.dl_earfcn;
  ul_earfcn = v.ul_earfcn;
  dl_bandwidth_tenths_mhz = dl_width;
  ul_bandwidth_tenths_mhz = ul_width;
}

unfoldable pub validate_common_carrier : Carrier → Common → Bool → Bool → Result Failure Carrier
unfolding fill_carrier
validate_common_carrier carrier v allow_inactive_uplink allow_unavailable_sinr = do
  refuse_if (common_sentinel v allow_unavailable_sinr) sentinel
  refuse_if (common_out_of_range v) range
  dl_width ← required range (bandwidth_code_to_tenths_mhz v.dl_bandwidth)
  uplink ← common_uplink v allow_inactive_uplink
  ok (fill_carrier carrier v dl_width uplink)

-- The values of a primary record: `values[9]` is the signed SINR.
abbrev pub primary_common : List ℕ → ℤ → Common
primary_common values sinr = record {
  band = get_or values 1 0;
  pci = get_or values 6 0;
  rsrp = get_or values 7 0;
  rsrq = get_or values 8 0;
  sinr = sinr;
  dl_earfcn = get_or values 10 0;
  ul_earfcn = get_or values 11 0;
  dl_bandwidth = get_or values 12 0;
  ul_bandwidth = get_or values 13 0;
}

unfoldable pub identity_out_of_range : List ℕ → Bool
identity_out_of_range values =
    get_or values 2 0 == 0
    || ltb 999 (get_or values 2 0)
    || ltb 999 (get_or values 3 0)
    || ltb 65535 (get_or values 4 0)
    || ltb 0x0fffffff (get_or values 5 0)

-- What is written behind `validate_common_carrier`.
abbrev with_identity : List ℕ → Carrier → Carrier
with_identity values c = record c {
  index = 1;
  primary = true;
  has_cell_identity = true;
  mcc = get_or values 2 0 % 65536;
  mnc = get_or values 3 0 % 65536;
  tac = get_or values 4 0 % 65536;
  cell_id = get_or values 5 0;
}

unfoldable pub parse_primary_record : List Bytes → Carrier → Result Failure Carrier
parse_primary_record fields carrier = do
  values ← required malformed (read_values parse_uint32_decimal 9 0 fields)
  sinr ← required malformed (parse_int32_decimal (get_or fields 9 []))
  refuse_if (not (get_or values 0 0 == 1)) range
  refuse_if (get_or values 2 0 == 65535 || get_or values 4 0 == 65535) sentinel
  refuse_if (identity_out_of_range values) range
  c ← validate_common_carrier carrier (primary_common values sinr) false false
  ok (with_identity values c)

-- The values of a secondary record: `values[5]` is the signed SINR.
abbrev pub secondary_common : List ℕ → ℤ → Common
secondary_common values sinr = record {
  band = get_or values 1 0;
  pci = get_or values 2 0;
  rsrp = get_or values 3 0;
  rsrq = get_or values 4 0;
  sinr = sinr;
  dl_earfcn = get_or values 6 0;
  ul_earfcn = get_or values 7 0;
  dl_bandwidth = get_or values 8 0;
  ul_bandwidth = get_or values 9 0;
}

-- A slot without a carrier: every value but the uplink channel is its sentinel.
unfoldable pub is_inactive : Common → Bool
is_inactive v =
    v.band == 255
    && v.pci == 65535
    && v.rsrp == 255
    && v.rsrq == 255
    && is_value v.sinr 127
    && v.dl_earfcn == 65535
    && v.dl_bandwidth == 255
    && v.ul_bandwidth == 255

-- What a record says: the number of its slot, whether the slot is active, and the carrier.
pub record Parsed : Type 0 where
  pub slot_index : ℕ
  pub active : Bool
  pub carrier : Carrier

abbrev active_secondary : ℕ → Carrier → Result Failure Parsed
active_secondary slot_index c =
    if c.uplink_active
    then err range
    else ok (record {
      slot_index = slot_index;
      active = true;
      carrier = record c { index = slot_index; primary = false; has_cell_identity = false };
    })

secondary_of : ℕ → Common → Carrier → Result Failure Parsed
secondary_of slot_index v carrier =
    if is_inactive v
    then (if ltb 262143 v.ul_earfcn
        then err sentinel
        else ok (record {
          slot_index = slot_index;
          active = false;
          carrier = record carrier {
            index = slot_index;
            primary = false;
            uplink_active = false;
            sinr_available = false;
            ul_earfcn = v.ul_earfcn;
          };
        }))
    else (do c ← validate_common_carrier carrier v true true; active_secondary slot_index c)

unfoldable pub parse_secondary_record : List Bytes → Carrier → Result Failure Parsed
unfolding secondary_of
parse_secondary_record fields carrier = do
  values ← required malformed (read_values parse_uint32_decimal 5 0 fields)
  sinr ← required malformed (parse_int32_decimal (get_or fields 5 []))
  refuse_if (ltb (get_or values 0 0) 2 || ltb max_slots (get_or values 0 0)) range
  secondary_of (get_or values 0 0 % 256) (secondary_common values sinr) carrier
