-- ===== src/Network/Exact.antt =====
-- The section that a change of modes writes to (l850gl-mm-bridge/src/network_binding.c).
use mathlib.Core.Path.{subst⁻¹}
use luci_app_l850gl_mm.Network.Unique.{matching}
use luci_app_l850gl_mm.Network.{Section, is_match}
use luci_app_l850gl_mm.Network.Update.{find_exact_from, find_exact_section, is_exact_section}
use luci_app_l850gl_mm.Base.{
  ℕ, Option, Bytes, List, ◌≤◌, none, ◌≡◌, some, false, ◌∷◌, [], ◌+◌, suc, arith, get_elem?,
  Bool-cases, inl, true, inr, refl,
}

find_exact_from-one :
    (device name : Option Bytes) (ss : List Section) (index matches : ℕ) (found : Option ℕ) (i : ℕ)
    → 1 ≤ matches
    → find_exact_from device name ss index matches found ≡ some i
    → (matching device ss ≡ []) × (matches ≡ 1) × (found ≡ some i)
unfolding find_exact_from
find_exact_from-one device name [] index matches found i l h =
    (refl, ground (arith, h), ground (arith, h))
find_exact_from-one device name (s ∷ ss) index matches found i l h =
    let passed = find_exact_from-one device name ss (index + 1) matches found i l in
    let counted =
      find_exact_from-one device name ss (index + 1) (matches + 1) found i (omega arith) in
    let matched =
      find_exact_from-one device name ss (index + 1) (matches + 1) (some index) i (omega arith) in
    elim (Bool-cases (is_match device s)) [
      | inl hit ↦ elim (Bool-cases (is_exact_section name s)) [
        | inl exact ↦ absurd (ground (arith, l, matched (ground (arith, h, hit, exact))))
        | inr other ↦ absurd (ground (arith, l, counted (ground (arith, h, hit, other))))
      ]
      | inr miss ↦
          let (none_left, one, same) = passed (ground (arith, h, miss)) in
          (ground (arith, miss, none_left), one, same)
    ]

-- The section that stands at the index is the only one of the device, and exactly the named one.
pub record IsExact (device name : Option Bytes) (sections : List Section) (i : ℕ) : Type 0 where
  pub section : Section
  pub only : matching device sections ≡ section ∷ []
  pub place : get_elem? sections i ≡ some section
  pub exact : is_exact_section name section ≡ true

IsExact-cons :
    (device name : Option Bytes) (s : Section) (ss : List Section) (i : ℕ)
    → is_match device s ≡ false
    → IsExact device name ss i
    → IsExact device name (s ∷ ss) (suc i)
IsExact-cons device name s ss i miss e = record {
  section = e.section;
  only = ground (arith, miss, e.only);
  place = e.place;
  exact = e.exact;
}

find_exact_from-IsExact :
    (device name : Option Bytes) (ss : List Section) (index i : ℕ)
    → find_exact_from device name ss index 0 none ≡ some i
    → (k : ℕ) × (i ≡ index + k) × IsExact device name ss k
unfolding find_exact_from
find_exact_from-IsExact device name [] index i h = absurd (ground (arith, h))
find_exact_from-IsExact device name (s ∷ ss) index i h = elim (Bool-cases (is_match device s)) [
  | inl hit ↦ elim (Bool-cases (is_exact_section name s)) [
    | inl exact ↦
        let (none_left, one, same) =
          find_exact_from-one device name ss (index + 1) 1 (some index) i (omega arith)
            (ground (arith, h, hit, exact)) in
        (
          0,
          ground (arith, same),
          record {
            section = s;
            only = ground (arith, hit, none_left);
            place = refl;
            exact = exact;
          },
        )
    | inr other ↦
        let (none_left, one, same) =
          find_exact_from-one device name ss (index + 1) 1 none i (omega arith)
            (ground (arith, h, hit, other)) in
        absurd (ground (arith, same))
  ]
  | inr miss ↦
      let (k, e, rest) =
        find_exact_from-IsExact device name ss (index + 1) i (ground (arith, h, miss)) in
      (suc k, omega (arith, e), IsExact-cons device name s ss k miss rest)
]

pub find_exact_section-IsExact :
    (device name : Option Bytes) (sections : List Section) (i : ℕ)
    → find_exact_section device name sections ≡ some i
    → IsExact device name sections i
unfolding find_exact_section
find_exact_section-IsExact device name sections i h =
    let (k, e, exact) = find_exact_from-IsExact device name sections 0 i h in
    subst⁻¹ (IsExact device name sections) (omega (arith, e)) exact
