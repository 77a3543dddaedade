-- ===== src/Ca/Parse.antt =====
-- `l850gl_l850_ca_parse`: the answer to AT+GTCAINFO? as a list of carriers
-- (l850gl-mm-bridge/src/l850_ca.c). One header line declares the slots, and one record for each
-- slot follows, in any order. `allocated` says whether `malloc` returned memory.
pub mod Slots
pub mod Info
use luci_app_l850gl_mm.Base.Result.{Result, ok, err, ◌>>=◌, ◌>>◌, refuse_if, required}
use luci_app_l850gl_mm.Base.{
  ℕ, zero, suc, ◌+◌, ◌-◌, ◌%◌, Bool, true, false, not, ◌&&◌, ◌||◌, List, [], ◌∷◌, ◌++◌, Option,
  none, some, ltb, leb, ◌==◌, if◌then◌else◌, Bytes, codes, length, get_or, set, cons?, nonempty,
}
use luci_app_l850gl_mm.Ca.Decimal.{parse_uint32_decimal}
use luci_app_l850gl_mm.Ca.Record.{Parsed, parse_primary_record, parse_secondary_record}
use luci_app_l850gl_mm.Ca.{
  Failure, empty, oversized, malformed, range, too_many, duplicate, count_mismatch, missing_primary,
  ParseResult, parse_ok, failed, Carrier, zero_carrier, CaInfo, cleared_info, max_response,
  max_slots,
}
use luci_app_l850gl_mm.CellLock.Scan.{clean}
use luci_app_l850gl_mm.Text.{trim_ascii, split, after_prefix, has_byte}

abbrev pub primary_field_count : ℕ
primary_field_count = 14

abbrev pub secondary_field_count : ℕ
secondary_field_count = 10

-- `split_fields`, with `room` for the fields that may still come. `none` stands for the counts 0
-- (an empty field) and capacity + 1 (too many): the caller tells neither from the other counts that
-- are not 1, 10 or 14.
unfoldable pub split_fields : ℕ → List Bytes → Option (List Bytes)
split_fields room [] = some []
split_fields zero (p ∷ ps) = none
split_fields (suc room) (p ∷ ps) = cons? (nonempty (trim_ascii p)) (split_fields room ps)

abbrev pub fields_of : Bytes → List Bytes
fields_of body = elim (split_fields (primary_field_count + 1) (split b',' body)) [
  | none ↦ []
  | some fs ↦ fs
]

-- `struct CaSlot`.
pub record CaSlot : Type 0 where
  pub seen : Bool
  pub active : Bool
  pub carrier : Carrier

abbrev pub zero_slot : CaSlot
zero_slot = record { seen = false; active = false; carrier = zero_carrier }

abbrev pub slot_at : List CaSlot → ℕ → CaSlot
slot_at slots i = get_or slots i zero_slot

-- The variables of the loop.
pub record CaState : Type 0 where
  pub header_seen : Bool
  pub declared_slots : ℕ
  pub record_count : ℕ
  pub slots : List CaSlot

abbrev pub ca_start : CaState
ca_start = record {
  header_seen = false;
  declared_slots = 0;
  record_count = 0;
  slots =
      zero_slot ∷ zero_slot ∷ zero_slot ∷ zero_slot ∷ zero_slot ∷ zero_slot ∷ zero_slot ∷ zero_slot
      ∷ [];
}

-- A line with one field: the number of slots.
unfoldable pub ca_header : Bytes → CaState → Result Failure CaState
ca_header field s = do
  refuse_if (s.header_seen || not (s.record_count == 0)) malformed
  n ← required malformed (parse_uint32_decimal field)
  refuse_if (n == 0) range
  refuse_if (ltb max_slots n) too_many
  ok (record s { header_seen = true; declared_slots = n })

-- A record with 14 or 10 fields.
unfoldable pub ca_fields : List Bytes → Result Failure Parsed
ca_fields fields =
    if length fields == primary_field_count
    then (do
      c ← parse_primary_record fields zero_carrier
      ok (record { slot_index = c.index; active = true; carrier = c }))
    else if length fields == secondary_field_count
    then parse_secondary_record fields zero_carrier
    else err malformed

-- The end of a round: the record goes to its slot.
unfoldable pub store : Parsed → CaState → Result Failure CaState
store p s = do
  refuse_if (ltb s.declared_slots p.slot_index) count_mismatch
  refuse_if ((slot_at s.slots (p.slot_index - 1)).seen) duplicate
  ok (record s {
    slots =
        set s.slots (p.slot_index - 1)
          (record { seen = true; active = p.active; carrier = p.carrier });
    record_count = s.record_count + 1;
  })

unfoldable pub ca_record : List Bytes → CaState → Result Failure CaState
ca_record fields s = do
  refuse_if (not s.header_seen) malformed
  refuse_if (leb s.declared_slots s.record_count) count_mismatch
  p ← ca_fields fields
  store p s

-- One round of the loop on a trimmed line that is not blank.
ca_body : List Bytes → CaState → Result Failure CaState
ca_body (field ∷ []) s = ca_header field s
ca_body fields s = ca_record fields s

unfoldable pub ca_current : Bytes → CaState → Result Failure CaState
unfolding ca_body
ca_current [] s = ok s
ca_current (c ∷ line) s = do
  body ← required malformed (after_prefix (codes "+GTCAINFO:") (c ∷ line))
  ca_body (fields_of (trim_ascii body)) s

unfoldable pub ca_lines : List Bytes → CaState → Result Failure CaState
ca_lines [] s = ok s
ca_lines (line ∷ lines) s = do t ← ca_current (clean line) s; ca_lines lines t

-- The checks between the loop and the two passes over the slots.
unfoldable pub complete : CaState → Result Failure (Unit {0})
complete s = do
  refuse_if (not s.header_seen) empty
  refuse_if (not (slot_at s.slots 0).seen || not (slot_at s.slots 0).active) missing_primary
  refuse_if (not (s.record_count == s.declared_slots)) count_mismatch

-- The first pass, over `left` slots from `index` on: a slot without an uplink of its own repeats
-- the uplink channel of the primary.
uplinks_repeat : List CaSlot → ℕ → ℕ → Bool
uplinks_repeat slots zero index = true
uplinks_repeat slots (suc left) index =
    ((slot_at slots index).carrier.uplink_active
      || (slot_at slots index).carrier.ul_earfcn == (slot_at slots 0).carrier.ul_earfcn)
    && uplinks_repeat slots left (suc index)

unfoldable pub carriers_are_duplicate : Carrier → Carrier → Bool
carriers_are_duplicate left right =
    left.band == right.band && left.pci == right.pci && left.dl_earfcn == right.dl_earfcn

-- The inner loop: an active slot before `index` (`compare` of them are left) has the same carrier.
has_duplicate : List CaSlot → Carrier → ℕ → Bool
has_duplicate slots carrier zero = false
has_duplicate slots carrier (suc compare) =
    ((slot_at slots compare).active
      && carriers_are_duplicate carrier (slot_at slots compare).carrier)
    || has_duplicate slots carrier compare

-- The second pass, over `left` slots from `index` on, with the carriers found so far.
collect : List CaSlot → ℕ → ℕ → List Carrier → Result Failure (List Carrier)
collect slots zero index carriers = ok carriers
collect slots (suc left) index carriers =
    let slot = slot_at slots index in
    let skip = collect slots left (suc index) carriers in
    let take = collect slots left (suc index) (carriers ++ (slot.carrier ∷ [])) in
    if not slot.seen
    then err count_mismatch
    else if not slot.active
    then skip
    else if has_duplicate slots slot.carrier index
    then err duplicate
    else take

unfoldable pub ca_end : CaState → Result Failure CaInfo
unfolding uplinks_repeat has_duplicate collect complete
ca_end s = do
  complete s
  refuse_if (not (uplinks_repeat s.slots (s.declared_slots - 1) 1)) range
  carriers ← collect s.slots s.declared_slots 0 []
  ok (record { carriers = carriers; declared_slots = s.declared_slots % 256 })

-- The label `out`: the result is cleared on every failure.
abbrev pub ca_out : Result Failure CaInfo → ParseResult × CaInfo
ca_out (err e) = (failed e, cleared_info)
ca_out (ok info) = (parse_ok, info)

unfoldable pub ca_parse : Bool → Option Bytes → ParseResult × CaInfo
ca_parse allocated none = (failed empty, cleared_info)
ca_parse allocated (some response) =
    if length response == 0
    then (failed empty, cleared_info)
    else if ltb max_response (length response)
    then (failed oversized, cleared_info)
    else if not allocated || has_byte 0 response
    then (failed malformed, cleared_info)
    else ca_out (do s ← ca_lines (split b'\n' response) ca_start; ca_end s)
