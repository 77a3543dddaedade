-- ===== src/Tests/Carriers.antt =====
-- Answers to AT+GTCAINFO? and AT+CBC, from tests/fixtures/ca and tests/fixtures/voltage.
use luci_app_l850gl_mm.Base.Result.{Result, ok, err}
use luci_app_l850gl_mm.Base.{true, false, List, [], ◌∷◌, some, Bytes, codes, ◌≡◌, ◌↔◌, refl, arith}
use luci_app_l850gl_mm.Ca.Decimal.{parse_uint32_decimal as uint32_of, parse_int32_decimal}
use luci_app_l850gl_mm.Ca.Bands.{
  ca_band_ranges, find_in, find_band_range, band_downlink_earfcn_is_valid,
  band_uplink_earfcn_is_valid, bandwidth_code_to_tenths_mhz,
}
use luci_app_l850gl_mm.Ca.Parse.{
  ca_parse, fields_of, split_fields, ca_header, ca_fields, store, ca_record, ca_current, ca_lines,
  complete, carriers_are_duplicate, ca_end,
}
use luci_app_l850gl_mm.Ca.Record.{
  Parsed, parse_primary_record, parse_secondary_record, common_sentinel, common_out_of_range,
  common_uplink, validate_common_carrier, identity_out_of_range, is_inactive,
}
use luci_app_l850gl_mm.Ca.{Carrier, CaInfo, zero_carrier, parse_ok}
use luci_app_l850gl_mm.Number.{digit_of, read_values, decimal, negate}
use luci_app_l850gl_mm.Text.{split, trim_ascii, strip_cr, after_prefix, has_byte}
use luci_app_l850gl_mm.Voltage.Exact.{texts, IsReading, voltage_parse_exact}
use luci_app_l850gl_mm.Voltage.{Voltage, voltage_parse, parse_ok as voltage_ok}

abbrev ok_or : {E A : Type 0} → Result E A → A → A
ok_or (ok a) d = a
ok_or (err e) d = d

abbrev two_carriers : Bytes
two_carriers =
    codes
      "+GTCAINFO: 2\n+GTCAINFO: 1,5,1,1,1,1,303,57,13,4,2450,20450,3,3\n+GTCAINFO: 2,3,381,47,3,8,1325,20450,5,255\n"

abbrev two_info : CaInfo
two_info = (ca_parse true (some two_carriers)).1

abbrev primary_fields : List Bytes
primary_fields = fields_of (codes "1,5,1,1,1,1,303,57,13,4,2450,20450,3,3")

abbrev primary_carrier : Carrier
primary_carrier = ok_or (parse_primary_record primary_fields zero_carrier) zero_carrier

primary_accepted : parse_primary_record primary_fields zero_carrier ≡ ok primary_carrier
unfolding ca_parse ca_lines ca_current ca_header ca_fields store ca_record complete
    carriers_are_duplicate ca_end split_fields parse_primary_record parse_secondary_record
    common_sentinel common_out_of_range common_uplink validate_common_carrier identity_out_of_range
    is_inactive uint32_of parse_int32_decimal ca_band_ranges find_in find_band_range
    band_downlink_earfcn_is_valid band_uplink_earfcn_is_valid bandwidth_code_to_tenths_mhz digit_of
    read_values decimal negate split trim_ascii strip_cr after_prefix has_byte
primary_accepted = refl

abbrev secondary_fields : List Bytes
secondary_fields = fields_of (codes "2,3,381,47,3,8,1325,20450,5,255")

abbrev secondary_slot : Parsed
secondary_slot =
    ok_or (parse_secondary_record secondary_fields zero_carrier)
      (record { slot_index = 0; active = false; carrier = zero_carrier })

secondary_accepted : parse_secondary_record secondary_fields zero_carrier ≡ ok secondary_slot
unfolding ca_parse ca_lines ca_current ca_header ca_fields store ca_record complete
    carriers_are_duplicate ca_end split_fields parse_primary_record parse_secondary_record
    common_sentinel common_out_of_range common_uplink validate_common_carrier identity_out_of_range
    is_inactive uint32_of parse_int32_decimal ca_band_ranges find_in find_band_range
    band_downlink_earfcn_is_valid band_uplink_earfcn_is_valid bandwidth_code_to_tenths_mhz digit_of
    read_values decimal negate split trim_ascii strip_cr after_prefix has_byte
secondary_accepted = refl

abbrev voltage_text : Bytes
voltage_text = codes "+CBC: 0,3550"

abbrev voltage_reading : Voltage
voltage_reading = record { status = 0; millivolts = 3550 }

voltage_clear : has_byte 0 voltage_text ≡ false
unfolding has_byte
voltage_clear = refl

voltage_parse_exact_example :
    (voltage_parse true (some voltage_text) ≡ (voltage_ok, voltage_reading)) ↔ (
      (line : Bytes) × (texts (split b'\n' voltage_text) ≡ line ∷ [])
      × IsReading line voltage_reading)
voltage_parse_exact_example =
    voltage_parse_exact voltage_text voltage_reading (omega arith) (omega arith) voltage_clear
