-- ===== src/Ca/Record/Valid.antt =====
-- What the carrier of an accepted record is known to hold.
use luci_app_l850gl_mm.Base.Int.{pos, negsuc, ◌≤ℤ◌}
use luci_app_l850gl_mm.Base.Result.{ok, >>=-eq-ok, refuse_if-eq-ok, refuse_if, required}
use luci_app_l850gl_mm.Base.{
  ℕ, ◌%◌, ◌≤◌, Bool, true, false, List, ◌≡◌, ◌⊎◌, inl, inr, refl, arith, ◌==◌, Bytes, Bool-cases,
  get_or, [], not, ltb, ◌||◌,
}
use luci_app_l850gl_mm.Ca.Bands.{
  band_downlink_earfcn_is_valid, band_uplink_earfcn_is_valid, bandwidth_code_to_tenths_mhz,
}
use luci_app_l850gl_mm.Ca.Record.{
  with_identity, active_secondary, secondary_of, is_inactive, identity_out_of_range, Common,
  common_sentinel, common_out_of_range, common_uplink, fill_carrier, validate_common_carrier,
  primary_common, parse_primary_record, Parsed, parse_secondary_record, read_values,
  parse_uint32_decimal, parse_int32_decimal, secondary_common,
}
use luci_app_l850gl_mm.Ca.{Carrier, max_slots, sentinel, range, malformed}

-- The ranges that are reported for an active carrier.
pub record InRange (c : Carrier) : Type 0 where
  pub downlink : band_downlink_earfcn_is_valid c.band c.dl_earfcn ≡ true
  pub uplink : c.uplink_active ≡ true → band_uplink_earfcn_is_valid c.band c.ul_earfcn ≡ true
  pub pci_range : c.pci ≤ 503
  pub rsrp_low : negsuc 140 ≤ℤ c.rsrp_dbm
  pub rsrp_high : c.rsrp_dbm ≤ℤ negsuc 43
  pub rsrq_low : negsuc 194 ≤ℤ c.rsrq_tenths_db
  pub rsrq_high : c.rsrq_tenths_db ≤ℤ negsuc 24
  pub sinr_low : negsuc 499 ≤ℤ c.sinr_tenths_db
  pub sinr_high : c.sinr_tenths_db ≤ℤ pos 500

-- What the range test establishes.
record Bounds (v : Common) : Type 0 where
  band : v.band ≤ 85
  pci : v.pci ≤ 503
  rsrp : v.rsrp ≤ 97
  rsrq : v.rsrq ≤ 34
  sinr : (v.sinr ≡ pos 127) ⊎ ((negsuc 99 ≤ℤ v.sinr) × (v.sinr ≤ℤ pos 100))
  downlink : band_downlink_earfcn_is_valid v.band v.dl_earfcn ≡ true

range-Bounds : (v : Common) → common_out_of_range v ≡ false → Bounds v
unfolding common_out_of_range
range-Bounds v h = ground arith

uplink_sound :
    (v : Common) (allow : Bool) {u : Bool × ℕ}
    → common_uplink v allow ≡ ok u
    → (u.0 ≡ true → band_uplink_earfcn_is_valid v.band v.ul_earfcn ≡ true)
      × (allow ≡ false → u.0 ≡ true)
unfolding common_uplink
uplink_sound v allow h = ground arith

fill_carrier-InRange :
    (c : Carrier) (v : Common) (width : ℕ) (u : Bool × ℕ)
    → Bounds v
    → (u.0 ≡ true → band_uplink_earfcn_is_valid v.band v.ul_earfcn ≡ true)
    → InRange (fill_carrier c v width u)
unfolding fill_carrier
fill_carrier-InRange c v width u b up =
    let band : v.band % 65536 ≡ v.band = omega (arith, b.band) in
    record {
      downlink = rw band b.downlink;
      uplink = rw band up;
      pci_range = omega (arith, b.pci);
      rsrp_low = ground (arith, b.rsrp);
      rsrp_high = ground (arith, b.rsrp);
      rsrq_low = ground (arith, b.rsrq);
      rsrq_high = ground (arith, b.rsrq);
      sinr_low = ground (arith, b.sinr);
      sinr_high = ground (arith, b.sinr);
    }

-- An accepted active carrier is in range, and has an active uplink unless that may be missing.
pub validate_common_carrier-InRange :
    (c : Carrier) (v : Common) (allow_uplink allow_sinr : Bool) {d : Carrier}
    → validate_common_carrier c v allow_uplink allow_sinr ≡ ok d
    → InRange d × (allow_uplink ≡ false → d.uplink_active ≡ true)
unfolding validate_common_carrier fill_carrier
validate_common_carrier-InRange c v allow_uplink allow_sinr {d} h =
    let (_, _, h₁) = >>=-eq-ok (refuse_if (common_sentinel v allow_sinr) sentinel) _ h in
    let (_, fits, h₂) = >>=-eq-ok (refuse_if (common_out_of_range v) range) _ h₁ in
    let (width, _, h₃) =
      >>=-eq-ok (required range (bandwidth_code_to_tenths_mhz v.dl_bandwidth)) _ h₂ in
    let (u, up, h₄) =
      >>=-eq-ok (common_uplink v allow_uplink) (λ u. ok (fill_carrier c v width u)) h₃ in
    let sound = uplink_sound v allow_uplink up in
    let in_range =
      fill_carrier-InRange c v width u (range-Bounds v (refuse_if-eq-ok _ _ fits)) sound.0 in
    let same : d ≡ fill_carrier c v width u = ground arith in rw same (in_range, sound.1)

-- What an accepted primary record gives.
pub record IsPrimary (c : Carrier) : Type 0 where
  pub in_range : InRange c
  pub first : c.index ≡ 1
  pub primary : c.primary ≡ true
  pub identity : c.has_cell_identity ≡ true
  pub uplink : c.uplink_active ≡ true

-- A primary record that is accepted gives the carrier with the number 1, marked as primary, with a
-- cell identity and an active uplink, within the ranges of a valid record.
pub parse_primary_record-IsPrimary :
    (fields : List Bytes) (c : Carrier) {d : Carrier}
    → parse_primary_record fields c ≡ ok d
    → IsPrimary d
unfolding parse_primary_record
parse_primary_record-IsPrimary fields c {d} h =
    let (values, _, h₁) =
      >>=-eq-ok (required malformed (read_values parse_uint32_decimal 9 0 fields)) _ h in
    let (sinr, _, h₂) =
      >>=-eq-ok (required malformed (parse_int32_decimal (get_or fields 9 []))) _ h₁ in
    let (_, _, h₃) = >>=-eq-ok (refuse_if (not (get_or values 0 0 == 1)) range) _ h₂ in
    let (_, _, h₄) =
      >>=-eq-ok (refuse_if (get_or values 2 0 == 65535 || get_or values 4 0 == 65535) sentinel) _
        h₃ in
    let (_, _, h₅) = >>=-eq-ok (refuse_if (identity_out_of_range values) range) _ h₄ in
    let (e, valid, h₆) =
      >>=-eq-ok (validate_common_carrier c (primary_common values sinr) false false)
        (λ x. ok (with_identity values x)) h₅ in
    let (in_range, up) =
      validate_common_carrier-InRange c (primary_common values sinr) false false valid in
    let same : d ≡ with_identity values e = ground arith in
    rw same (record {
      in_range = record {
        downlink = in_range.downlink;
        uplink = in_range.uplink;
        pci_range = in_range.pci_range;
        rsrp_low = in_range.rsrp_low;
        rsrp_high = in_range.rsrp_high;
        rsrq_low = in_range.rsrq_low;
        rsrq_high = in_range.rsrq_high;
        sinr_low = in_range.sinr_low;
        sinr_high = in_range.sinr_high;
      };
      first = refl;
      primary = refl;
      identity = refl;
      uplink = up refl;
    })

-- What an accepted secondary record gives: a slot from 2 to 8 without an uplink of its own.
pub record IsSecondary (p : Parsed) : Type 0 where
  pub slot_low : 2 ≤ p.slot_index
  pub slot_high : p.slot_index ≤ max_slots
  pub numbered : p.carrier.index ≡ p.slot_index
  pub not_primary : p.carrier.primary ≡ false
  pub no_uplink : p.carrier.uplink_active ≡ false
  pub in_range : p.active ≡ true → InRange p.carrier

active_secondary-IsSecondary :
    (slot : ℕ) (d : Carrier) {p : Parsed}
    → 2 ≤ slot
    → slot ≤ max_slots
    → InRange d
    → active_secondary slot d ≡ ok p
    → IsSecondary p
active_secondary-IsSecondary slot d {p} low high i h =
    let q : Parsed = record {
      slot_index = slot;
      active = true;
      carrier = record d { index = slot; primary = false; has_cell_identity = false };
    } in
    let same : p ≡ q = ground arith in
    rw same (record {
      slot_low = low;
      slot_high = high;
      numbered = refl;
      not_primary = refl;
      no_uplink = ground arith;
      in_range = λ a. record {
        downlink = i.downlink;
        uplink = i.uplink;
        pci_range = i.pci_range;
        rsrp_low = i.rsrp_low;
        rsrp_high = i.rsrp_high;
        rsrq_low = i.rsrq_low;
        rsrq_high = i.rsrq_high;
        sinr_low = i.sinr_low;
        sinr_high = i.sinr_high;
      };
    })

secondary_of-IsSecondary :
    (slot : ℕ) (v : Common) (c : Carrier) {p : Parsed}
    → 2 ≤ slot
    → slot ≤ max_slots
    → secondary_of slot v c ≡ ok p
    → IsSecondary p
unfolding secondary_of
secondary_of-IsSecondary slot v c {p} low high h = elim (Bool-cases (is_inactive v)) [
  | inl y ↦ record {
    slot_low = ground arith;
    slot_high = ground arith;
    numbered = ground arith;
    not_primary = ground arith;
    no_uplink = ground arith;
    in_range = λ a. absurd (ground arith);
  }
  | inr n ↦
      let (d, valid, h₁) =
        >>=-eq-ok (validate_common_carrier c v true true) (active_secondary slot) (rw n at h) in
      active_secondary-IsSecondary slot d low high
        (validate_common_carrier-InRange c v true true valid).0 h₁
]

-- A secondary record that is accepted is for a slot from 2 to 8, and its carrier has the number of
-- the slot, is not primary and has no uplink. If the slot is active, the carrier is within the
-- ranges of a valid record.
pub parse_secondary_record-IsSecondary :
    (fields : List Bytes) (c : Carrier) {p : Parsed}
    → parse_secondary_record fields c ≡ ok p
    → IsSecondary p
unfolding parse_secondary_record
parse_secondary_record-IsSecondary fields c h =
    let (values, _, h₁) =
      >>=-eq-ok (required malformed (read_values parse_uint32_decimal 5 0 fields)) _ h in
    let (sinr, _, h₂) =
      >>=-eq-ok (required malformed (parse_int32_decimal (get_or fields 5 []))) _ h₁ in
    let (_, slot, h₃) =
      >>=-eq-ok (refuse_if (ltb (get_or values 0 0) 2 || ltb max_slots (get_or values 0 0)) range) _
        h₂ in
    let inside = refuse_if-eq-ok _ _ slot in
    secondary_of-IsSecondary (get_or values 0 0 % 256) (secondary_common values sinr) c
      (ground arith) (ground arith) h₃
