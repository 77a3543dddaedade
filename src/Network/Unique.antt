-- ===== src/Network/Unique.antt =====
-- When a lookup answers UNIQUE.
use luci_app_l850gl_mm.Base.{
  ◌+◌, ◌≤◌, true, false, List, [], ◌∷◌, Option, none, some, ltb, if◌then◌else◌, Bytes, ◌≡◌, ◌↔◌,
  refl, arith, ◌∙◌, Bool-cases, inl, inr, ap,
}
use luci_app_l850gl_mm.Network.{
  unique, Binding, BindingScan, Section, zero_scan, section_name_is_safe, is_match, note_match,
  binding_of, scan_consider, scan_sections, scan_finish, device_is_valid, confdir_is_valid,
  binding_lookup_at, lookup_loaded,
}

-- The sections that match the device.
abbrev pub matching : Option Bytes → List Section → List Section
matching device [] = []
matching device (s ∷ ss) = if is_match device s then s ∷ matching device ss else matching device ss

scan_sections-none :
    (device : Option Bytes) (ss : List Section) (scan : BindingScan)
    → matching device ss ≡ []
    → scan_sections device ss scan ≡ scan
unfolding scan_sections scan_consider
scan_sections-none device [] scan h = refl
scan_sections-none device (s ∷ ss) scan h = elim (Bool-cases (is_match device s)) [
  | inl hit ↦ absurd (ground arith)
  | inr miss ↦ rw miss (scan_sections-none device ss scan (ground arith))
]

note_match-matches :
    (s : Section) (scan : BindingScan)
    → (note_match s scan).matches ≡ (if ltb scan.matches 2 then scan.matches + 1 else scan.matches)
unfolding note_match
note_match-matches s scan = ground arith

scan_sections-one :
    (device : Option Bytes) (ss : List Section) (scan : BindingScan)
    → 1 ≤ scan.matches
    → (scan_sections device ss scan).matches ≡ 1
    → (matching device ss ≡ []) × (scan.matches ≡ 1)
unfolding scan_sections scan_consider
scan_sections-one device [] scan l h = (refl, h)
scan_sections-one device (s ∷ ss) scan l h = elim (Bool-cases (is_match device s)) [
  | inl hit ↦
      let more = note_match-matches s scan in
      let (_, one) =
        scan_sections-one device ss (note_match s scan) (ground (arith, more))
          (rw (hit, scan_sections) at h) in
      absurd (ground (arith, more, one))
  | inr miss ↦ rw miss (scan_sections-one device ss scan l (rw (miss, scan_sections) at h))
]

scan_sections-first :
    (device : Option Bytes) (ss : List Section) (scan : BindingScan)
    → scan.matches ≡ 0
    → (scan_sections device ss scan).matches ≡ 1
    → (s : Section) × (matching device ss ≡ s ∷ [])
unfolding scan_sections scan_consider
scan_sections-first device [] scan z h = absurd (ground arith)
scan_sections-first device (s ∷ ss) scan z h = elim (Bool-cases (is_match device s)) [
  | inl hit ↦
      let more = note_match-matches s scan in
      let (rest, _) =
        scan_sections-one device ss (note_match s scan) (ground (arith, more))
          (rw (hit, scan_sections) at h) in
      (s, ground (arith, hit, rest))
  | inr miss ↦ rw miss (scan_sections-first device ss scan z (rw (miss, scan_sections) at h))
]

scan_sections-single :
    (device : Option Bytes) (ss : List Section) (scan : BindingScan) (s : Section)
    → matching device ss ≡ s ∷ []
    → scan_sections device ss scan ≡ note_match s scan
unfolding scan_sections scan_consider
scan_sections-single device [] scan s h = absurd (ground arith)
scan_sections-single device (t ∷ ss) scan s h = elim (Bool-cases (is_match device t)) [
  | inl hit ↦
      let same : t ≡ s = ground (arith, hit) in
      rw (hit, same) (scan_sections-none device ss (note_match s scan) (ground (arith, hit)))
  | inr miss ↦ rw miss (scan_sections-single device ss scan s (rw (miss, scan_sections) at h))
]

scan_finish-matches :
    (scan : BindingScan) (b : Binding) → scan_finish scan ≡ (unique, b) → scan.matches ≡ 1
unfolding scan_finish
scan_finish-matches scan b h = ground arith

scan_finish_single :
    (s : Section) (b : Binding)
    → (scan_finish (note_match s zero_scan) ≡ (unique, b))
      ↔ ((s.anonymous ≡ false) × (section_name_is_safe s.name ≡ true) × (b ≡ binding_of s))
unfolding scan_finish note_match
scan_finish_single s b = ground arith

-- The sections hold one that matches, and the binding is to that section.
pub record IsBinding (device : Option Bytes) (sections : List Section) (b : Binding) : Type 0 where
  pub section : Section
  pub only : matching device sections ≡ section ∷ []
  pub named : section.anonymous ≡ false
  pub has_safe_name : section_name_is_safe section.name ≡ true
  pub binding : b ≡ binding_of section

pub scan-IsBinding :
    (device : Option Bytes) (sections : List Section) (b : Binding)
    → (scan_finish (scan_sections device sections zero_scan) ≡ (unique, b))
      ↔ IsBinding device sections b
scan-IsBinding device sections b = (sound, complete)
  where
    sound :
        scan_finish (scan_sections device sections zero_scan) ≡ (unique, b)
        → IsBinding device sections b
    sound h =
        let one = scan_finish-matches (scan_sections device sections zero_scan) b h in
        let (s, only) = scan_sections-first device sections zero_scan refl one in
        let same = scan_sections-single device sections zero_scan s only in
        let (named, named_safely, binding) = (scan_finish_single s b).0 (rw same at h) in
        record {
          section = s;
          only = only;
          named = named;
          has_safe_name = named_safely;
          binding = binding;
        }

    complete :
        IsBinding device sections b
        → scan_finish (scan_sections device sections zero_scan) ≡ (unique, b)
    complete i =
        ap scan_finish (scan_sections-single device sections zero_scan i.section i.only)
        ∙ (scan_finish_single i.section b).1 (i.named, i.has_safe_name, i.binding)

-- For a device of 1 to 4096 bytes and a directory that is NULL or a valid path, whatever libuci
-- loads, the lookup answers UNIQUE with a binding exactly if the package loads, a single one of its
-- sections is an interface of the protocol "modemmanager" with that device, that section is not
-- anonymous, its name is safe, and the binding is made from it.
pub binding_lookup_at_exact :
    (load : Option Bytes → Option (List Section)) (confdir device : Option Bytes) (b : Binding)
    → device_is_valid device ≡ true
    → confdir_is_valid confdir ≡ true
    → (binding_lookup_at load confdir device ≡ (unique, b))
      ↔ ((sections : List Section) × (load confdir ≡ some sections) × IsBinding device sections b)
unfolding binding_lookup_at lookup_loaded
binding_lookup_at_exact load confdir device b valid absolute =
    rw (valid, absolute) (go (load confdir))
  where
    go :
        (loaded : Option (List Section))
        → (lookup_loaded load loaded device ≡ (unique, b))
          ↔ ((sections : List Section) × (loaded ≡ some sections) × IsBinding device sections b)
    go none = (λ h. absurd (ground arith), λ (_, e, _). absurd (ground arith))
    go (some sections) = (
      λ h. (sections, refl, (scan-IsBinding device sections b).0 h),
      λ (others, e, i).
          let same : sections ≡ others = ground arith in
          rw same ((scan-IsBinding device others b).1 i),
    )
