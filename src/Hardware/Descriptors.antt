-- ===== src/Hardware/Descriptors.antt =====
-- The descriptors that an attestation opens and gives back
-- (l850gl-mm-bridge/src/hardware.c).
use luci_app_l850gl_mm.Hardware.{
  Kernel, descend, close, base_of, attest_l850_mbim_at, attest_l850_mbim, read_ids, open_physdev_at,
  close_current, read_exact_usb_id, attest_device, physdev_components,
}
use luci_app_l850gl_mm.Base.{
  none, some, ℕ, Bytes, List, ◌≡◌, Option, ◌∷◌, codes, arith, Option-cases, inl, inr, [], refl,
}

-- The descriptor that the traversal stands at, in front of those opened before.
abbrev held : Option ℕ → List ℕ → List ℕ
held none opens = opens
held (some fd) opens = fd ∷ opens

close_current-held :
    (current : Option ℕ) (opens : List ℕ) → close_current current (held current opens) ≡ opens
unfolding close
close_current-held none opens = refl
close_current-held (some fd) opens = ground arith

close_current-next :
    (current : Option ℕ) (next : ℕ) (opens : List ℕ)
    → close_current current (next ∷ held current opens) ≡ next ∷ opens
unfolding close
close_current-next none next opens = refl
close_current-next (some fd) next opens = ground arith

descend-held :
    (fs : Kernel) (root : ℕ) (current : Option ℕ) (names : List Bytes) (opens : List ℕ)
    → (descend fs root current names (held current opens)).1
      ≡ held (descend fs root current names (held current opens)).0 opens
unfolding descend
descend-held fs root current [] opens = refl
descend-held fs root current (name ∷ names) opens =
    elim (Option-cases (fs.open_directory (base_of root current) name)) [
      | inl e ↦ ground (arith, e, close_current-held current opens)
      | inr (next, e) ↦ ground (
        arith,
        e,
        close_current-held current opens,
        close_current-next current next opens,
        descend-held fs root (some next) names opens,
      )
    ]

open_physdev_at-held :
    (fs : Kernel) (root : ℕ) (physdev : Option Bytes) (opens : List ℕ)
    → (open_physdev_at fs root physdev opens).1
      ≡ held (open_physdev_at fs root physdev opens).0 opens
unfolding open_physdev_at
open_physdev_at-held fs root physdev opens = elim (Option-cases (physdev_components physdev)) [
  | inl e ↦ ground (arith, e)
  | inr (names, e) ↦ ground (arith, e, descend-held fs root none names opens)
]

read_exact_usb_id-opens :
    (fs : Kernel) (device : ℕ) (attribute expected : Bytes) (opens : List ℕ)
    → (read_exact_usb_id fs device attribute expected opens).1 ≡ opens
unfolding read_exact_usb_id close
read_exact_usb_id-opens fs device attribute expected opens = ground arith

read_ids-opens : (fs : Kernel) (device : ℕ) (opens : List ℕ) → (read_ids fs device opens).1 ≡ opens
unfolding read_ids
read_ids-opens fs device opens = ground (
  arith,
  read_exact_usb_id-opens fs device (codes "idVendor") (codes "2cb7") opens,
  read_exact_usb_id-opens fs device (codes "idProduct") (codes "0007") opens,
)

attest_l850_mbim_at-opens :
    (fs : Kernel) (root : ℕ) (physdev : Option Bytes) (opens : List ℕ)
    → (attest_l850_mbim_at fs root physdev opens).1 ≡ opens
unfolding attest_l850_mbim_at close
attest_l850_mbim_at-opens fs root physdev opens =
    go (open_physdev_at fs root physdev opens) (open_physdev_at-held fs root physdev opens)
  where
    go :
        (opened : Option ℕ × List ℕ)
        → opened.1 ≡ held opened.0 opens
        → (attest_device fs opened).1 ≡ opens
    go (none, _) h = h
    go (some device, left) h = ground (arith, h, read_ids-opens fs device left)

-- An attestation gives back every descriptor that it opens and no other, whatever the path is and
-- whatever the kernel answers: the open descriptors are those that were open before.
pub attest_l850_mbim-opens :
    (fs : Kernel) (physdev : Option Bytes) (opens : List ℕ)
    → (attest_l850_mbim fs physdev opens).1 ≡ opens
unfolding attest_l850_mbim close
attest_l850_mbim-opens fs physdev opens = elim (Option-cases fs.open_root) [
  | inl e ↦ ground (arith, e)
  | inr (root, e) ↦ ground (arith, e, attest_l850_mbim_at-opens fs root physdev (root ∷ opens))
]
