-- ===== src/Ca/Parse/Slots.antt =====
-- What the slots hold during and after the loop over the lines.
use luci_app_l850gl_mm.Base.Result.{ok, >>=-eq-ok, refuse_if-eq-ok, refuse_if, required}
use luci_app_l850gl_mm.Base.{
  ℕ, zero, suc, ◌+◌, ◌-◌, ◌≤◌, ◌<◌, true, not, ◌||◌, List, [], ◌∷◌, ◌≡◌, inl, inr, refl, arith, ltb,
  leb, ◌==◌, Bytes, length, set, length-set, Bool-cases, codes, ◌∙◌,
}
use luci_app_l850gl_mm.Ca.Record.Valid.{
  InRange, IsPrimary, IsSecondary, parse_primary_record-IsPrimary,
  parse_secondary_record-IsSecondary,
}
use luci_app_l850gl_mm.Ca.Record.{Parsed, parse_primary_record}
use luci_app_l850gl_mm.Ca.Parse.{
  CaSlot, zero_slot, slot_at, CaState, ca_start, ca_header, ca_fields, store, ca_record, ca_body,
  ca_current, ca_lines, fields_of, after_prefix, clean, parse_uint32_decimal, trim_ascii,
}
use luci_app_l850gl_mm.Ca.{
  Carrier, zero_carrier, max_slots, malformed, count_mismatch, range, too_many,
}

-- A slot with the number `index`, once its record has been read.
pub record IsSlot (index : ℕ) (s : CaSlot) : Type 0 where
  pub numbered : s.seen ≡ true → s.carrier.index ≡ index
  pub primary_first : s.seen ≡ true → s.carrier.primary ≡ (index == 1)
  pub uplink_first : s.seen ≡ true → s.carrier.uplink_active ≡ (index == 1)
  pub in_range : s.seen ≡ true → s.active ≡ true → InRange s.carrier

abbrev pub AllSlots : ℕ → List CaSlot → Type 0
AllSlots index [] = Unit
AllSlots index (s ∷ ss) = IsSlot index s × AllSlots (suc index) ss

AllSlots-set :
    (index i : ℕ) (ss : List CaSlot) (s : CaSlot)
    → AllSlots index ss
    → IsSlot (index + i) s
    → AllSlots index (set ss i s)
AllSlots-set index i [] s a h = tt
AllSlots-set index zero (t ∷ ss) s a h =
    ((let e : index + 0 ≡ index = omega arith in rw e at h), a.1)
AllSlots-set index (suc i) (t ∷ ss) s a h = (
  a.0,
  AllSlots-set (suc index) i ss s a.1
      (let e : index + suc i ≡ suc index + i = omega arith in rw e at h),
)

pub slot_at-IsSlot :
    (index i : ℕ) (ss : List CaSlot)
    → AllSlots index ss
    → i < length ss
    → IsSlot (index + i) (slot_at ss i)
slot_at-IsSlot index i [] a l = elim l [ ]
slot_at-IsSlot index zero (s ∷ ss) a l = let e : index + 0 ≡ index = omega arith in rw e a.0
slot_at-IsSlot index (suc i) (s ∷ ss) a l =
    let e : index + suc i ≡ suc index + i = omega arith in
    rw e (slot_at-IsSlot (suc index) i ss a.1 (omega arith))

-- What an accepted record becomes as a slot.
abbrev slot_of : Parsed → CaSlot
slot_of p = record { seen = true; active = p.active; carrier = p.carrier }

record IsParsed (p : Parsed) : Type 0 where
  slot_low : 1 ≤ p.slot_index
  slot_high : p.slot_index ≤ max_slots
  slot : IsSlot p.slot_index (slot_of p)

IsSecondary-IsParsed : (p : Parsed) → IsSecondary p → IsParsed p
IsSecondary-IsParsed p s = record {
  slot_low = omega (arith, s.slot_low);
  slot_high = s.slot_high;
  slot = record {
    numbered = λ _. s.numbered;
    primary_first = λ _. ground (arith, s.not_primary, s.slot_low);
    uplink_first = λ _. ground (arith, s.no_uplink, s.slot_low);
    in_range = λ _. s.in_range;
  };
}

IsPrimary-IsParsed :
    (c : Carrier) (p : Parsed)
    → IsPrimary c
    → p ≡ record { slot_index = c.index; active = true; carrier = c }
    → IsParsed p
IsPrimary-IsParsed c p i e = rw e (record {
  slot_low = omega (arith, i.first);
  slot_high = omega (arith, i.first);
  slot = record {
    numbered = λ _. refl;
    primary_first = λ _. ground (arith, i.primary, i.first);
    uplink_first = λ _. ground (arith, i.uplink, i.first);
    in_range = λ _ _. i.in_range;
  };
})

ca_fields-IsParsed : (fields : List Bytes) {p : Parsed} → ca_fields fields ≡ ok p → IsParsed p
unfolding ca_fields
ca_fields-IsParsed fields {p} h = elim (Bool-cases (length fields == 14)) [
  | inl e ↦
      let (c, read, h₁) =
        >>=-eq-ok (parse_primary_record fields zero_carrier)
          (λ c. ok (record { slot_index = c.index; active = true; carrier = c })) (rw e at h) in
      IsPrimary-IsParsed c p (parse_primary_record-IsPrimary fields zero_carrier read)
        (ground arith)
  | inr n ↦
      IsSecondary-IsParsed p (parse_secondary_record-IsSecondary fields zero_carrier (ground arith))
]

-- The invariant of the loop.
pub record Inv (s : CaState) : Type 0 where
  pub room : length s.slots ≡ max_slots
  pub declared : s.declared_slots ≤ max_slots
  pub positive : s.header_seen ≡ true → 1 ≤ s.declared_slots
  pub slots : AllSlots 1 s.slots

zero_slot-IsSlot : (index : ℕ) → IsSlot index zero_slot
zero_slot-IsSlot index = record {
  numbered = λ e. absurd (ground arith);
  primary_first = λ e. absurd (ground arith);
  uplink_first = λ e. absurd (ground arith);
  in_range = λ e. absurd (ground arith);
}

pub start-Inv : Inv ca_start
start-Inv = record {
  room = refl;
  declared = omega arith;
  positive = λ e. absurd (ground arith);
  slots = (
    zero_slot-IsSlot 1,
    (
      zero_slot-IsSlot 2,
      (
        zero_slot-IsSlot 3,
        (
          zero_slot-IsSlot 4,
          (
            zero_slot-IsSlot 5,
            (zero_slot-IsSlot 6, (zero_slot-IsSlot 7, (zero_slot-IsSlot 8, tt))),
          ),
        ),
      ),
    ),
  );
}

ca_header-Inv :
    (field : Bytes) (s : CaState) {t : CaState} → Inv s → ca_header field s ≡ ok t → Inv t
unfolding ca_header
ca_header-Inv field s {t} i h =
    let (_, _, h₁) =
      >>=-eq-ok (refuse_if (s.header_seen || not (s.record_count == 0)) malformed) _ h in
    let (n, _, h₂) = >>=-eq-ok (required malformed (parse_uint32_decimal field)) _ h₁ in
    let (_, some_slot, h₃) = >>=-eq-ok (refuse_if (n == 0) range) _ h₂ in
    let (_, few, h₄) =
      >>=-eq-ok (refuse_if (ltb max_slots n) too_many)
        (λ _. ok (record s { header_seen = true; declared_slots = n })) h₃ in
    let positive = refuse_if-eq-ok (n == 0) range some_slot in
    let small = refuse_if-eq-ok (ltb max_slots n) too_many few in
    let same : t ≡ record s { header_seen = true; declared_slots = n } = ground arith in
    rw same (record {
      room = i.room;
      declared = ground arith;
      positive = λ _. ground arith;
      slots = i.slots;
    })

abbrev stored : Parsed → CaState → CaState
stored p s = record s {
  slots = set s.slots (p.slot_index - 1) (slot_of p);
  record_count = s.record_count + 1;
}

store-Inv : (p : Parsed) (s : CaState) {t : CaState} → IsParsed p → Inv s → store p s ≡ ok t → Inv t
unfolding store
store-Inv p s {t} q i h =
    let same : t ≡ stored p s = ground arith in
    let index : 1 + (p.slot_index - 1) ≡ p.slot_index = omega (arith, q.slot_low) in
    rw same (record {
      room = length-set s.slots (p.slot_index - 1) (slot_of p) ∙ i.room;
      declared = i.declared;
      positive = i.positive;
      slots = AllSlots-set 1 (p.slot_index - 1) s.slots (slot_of p) i.slots (rw index q.slot);
    })

ca_record-Inv :
    (fields : List Bytes) (s : CaState) {t : CaState} → Inv s → ca_record fields s ≡ ok t → Inv t
unfolding ca_record
ca_record-Inv fields s i h =
    let (_, _, h₁) = >>=-eq-ok (refuse_if (not s.header_seen) malformed) _ h in
    let (_, _, h₂) =
      >>=-eq-ok (refuse_if (leb s.declared_slots s.record_count) count_mismatch) _ h₁ in
    let (p, read, h₃) = >>=-eq-ok (ca_fields fields) (λ p. store p s) h₂ in
    store-Inv p s (ca_fields-IsParsed fields read) i h₃

ca_body-Inv :
    (fields : List Bytes) (s : CaState) {t : CaState} → Inv s → ca_body fields s ≡ ok t → Inv t
unfolding ca_body
ca_body-Inv (field ∷ []) s i h = ca_header-Inv field s i h
ca_body-Inv [] s i h = ca_record-Inv [] s i h
ca_body-Inv (f ∷ g ∷ fields) s i h = ca_record-Inv (f ∷ g ∷ fields) s i h

ca_current-Inv :
    (line : Bytes) (s : CaState) {t : CaState} → Inv s → ca_current line s ≡ ok t → Inv t
unfolding ca_current
ca_current-Inv [] s {t} i h = let same : t ≡ s = ground arith in rw same i
ca_current-Inv (c ∷ line) s i h =
    let (body, _, h₁) =
      >>=-eq-ok (required malformed (after_prefix (codes "+GTCAINFO:") (c ∷ line)))
        (λ body. ca_body (fields_of (trim_ascii body)) s) h in
    ca_body-Inv (fields_of (trim_ascii body)) s i h₁

pub ca_lines-Inv :
    (lines : List Bytes) (s : CaState) {t : CaState} → Inv s → ca_lines lines s ≡ ok t → Inv t
unfolding ca_lines
ca_lines-Inv [] s {t} i h = let same : t ≡ s = ground arith in rw same i
ca_lines-Inv (line ∷ lines) s i h =
    let (u, first, rest) = >>=-eq-ok (ca_current (clean line) s) (ca_lines lines) h in
    ca_lines-Inv lines u (ca_current-Inv (clean line) s i first) rest
