-- ===== src/Hardware/Attest.antt =====
-- When an attestation succeeds (l850gl-mm-bridge/src/hardware.c).
use luci_app_l850gl_mm.Hardware.Path.{Leads, open_physdev_at_iff}
use luci_app_l850gl_mm.Hardware.{
  id_matches, Kernel, take, read_exact_usb_id, read_ids, attest_l850_mbim, attest_l850_mbim_at,
  attest_device, open_physdev_at, regular, read_value,
}
use luci_app_l850gl_mm.Base.{
  ℕ, Option, Bytes, length, ◌≡◌, List, true, some, ◌↔◌, Option-cases, codes, ◌∷◌, ◌⊎◌, arith, inl,
  inr, refl, ◌++◌, none, [], same_text_iff,
}

-- The file holds the digits, with nothing behind them but one line feed.
abbrev pub HoldsId : Kernel → ℕ → Bytes → Bytes → Type 0
HoldsId fs device attribute digits =
    (file : ℕ) × (fs.open_file device attribute ≡ some file)
    × (fs.file_type file ≡ some regular)
    × (value : Bytes) × (read_value 6 (fs.reads file) ≡ some value)
    × ((value ≡ digits) ⊎ (value ≡ digits ++ b'\n' ∷ []))

id_matches_exact :
    (digits value : Bytes)
    → length digits ≡ 4
    → (id_matches digits value ≡ true) ↔ ((value ≡ digits) ⊎ (value ≡ digits ++ b'\n' ∷ []))
unfolding id_matches take
id_matches_exact (p ∷ q ∷ r ∷ s ∷ []) (a ∷ b ∷ c ∷ d ∷ []) h =
    ground (arith, same_text_iff (a ∷ b ∷ c ∷ d ∷ []) (p ∷ q ∷ r ∷ s ∷ []))
id_matches_exact (p ∷ q ∷ r ∷ s ∷ []) (a ∷ b ∷ c ∷ d ∷ e ∷ []) h =
    ground (arith, same_text_iff (a ∷ b ∷ c ∷ d ∷ []) (p ∷ q ∷ r ∷ s ∷ []))
id_matches_exact _ _ h = ground (arith, h)

read_exact_usb_id_exact :
    (fs : Kernel) (device : ℕ) (attribute digits : Bytes) (opens : List ℕ)
    → length digits ≡ 4
    → ((read_exact_usb_id fs device attribute digits opens).0 ≡ true)
      ↔ HoldsId fs device attribute digits
unfolding read_exact_usb_id
read_exact_usb_id_exact fs device attribute digits opens four =
    elim (Option-cases (fs.open_file device attribute)) [
      | inl e ↦ ground (arith, e)
      | inr (file, e) ↦ elim (Option-cases (read_value 6 (fs.reads file))) [
        | inl f ↦ ground (arith, e, f)
        | inr (value, f) ↦ ground (arith, e, f, id_matches_exact digits value four)
      ]
    ]

read_ids_exact :
    (fs : Kernel) (device : ℕ) (opens : List ℕ)
    → ((read_ids fs device opens).0 ≡ true) ↔ (
        HoldsId fs device (codes "idVendor") (codes "2cb7")
        × HoldsId fs device (codes "idProduct") (codes "0007"))
unfolding read_ids
read_ids_exact fs device opens =
    let vendor = read_exact_usb_id fs device (codes "idVendor") (codes "2cb7") opens in
    ground (
      arith,
      read_exact_usb_id_exact fs device (codes "idVendor") (codes "2cb7") opens refl,
      read_exact_usb_id_exact fs device (codes "idProduct") (codes "0007") vendor.1 refl,
    )

-- The attested device: a device below /sys/devices with the two identities of the modem.
pub record IsAttested (fs : Kernel) (path : Option Bytes) : Type 0 where
  pub root : ℕ
  pub root_opened : fs.open_root ≡ some root
  pub device : ℕ
  pub leads : Leads fs root path device
  pub vendor : HoldsId fs device (codes "idVendor") (codes "2cb7")
  pub product : HoldsId fs device (codes "idProduct") (codes "0007")

attest_device_iff :
    (fs : Kernel) (opened : Option ℕ × List ℕ)
    → ((attest_device fs opened).0 ≡ true)
      ↔ ((device : ℕ) × (opened.0 ≡ some device) × ((read_ids fs device opened.1).0 ≡ true))
attest_device_iff fs (none, opens) = ground arith
attest_device_iff fs (some device, opens) =
    (λ h. (device, refl, h), λ (d, e, h). ground (arith, e, h))

attest_l850_mbim-IsAttested :
    (fs : Kernel) (physdev : Option Bytes) (opens : List ℕ)
    → (attest_l850_mbim fs physdev opens).0 ≡ true
    → IsAttested fs physdev
unfolding attest_l850_mbim attest_l850_mbim_at
attest_l850_mbim-IsAttested fs physdev opens h = elim (Option-cases fs.open_root) [
  | inl e ↦ absurd (ground (arith, h, e))
  | inr (root, e) ↦
      let opened = open_physdev_at fs root physdev (root ∷ opens) in
      let (device, there, same) = (attest_device_iff fs opened).0 (ground (arith, h, e)) in
      let (vendor, product) = (read_ids_exact fs device opened.1).0 same in
      record {
        root = root;
        root_opened = e;
        device = device;
        leads = (open_physdev_at_iff fs root physdev (root ∷ opens) device).0 there;
        vendor = vendor;
        product = product;
      }
]

IsAttested-attest_l850_mbim :
    (fs : Kernel) (physdev : Option Bytes) (opens : List ℕ)
    → IsAttested fs physdev
    → (attest_l850_mbim fs physdev opens).0 ≡ true
unfolding attest_l850_mbim attest_l850_mbim_at
IsAttested-attest_l850_mbim fs physdev opens h =
    let opened = open_physdev_at fs h.root physdev (h.root ∷ opens) in
    ground (
      arith,
      h.root_opened,
      (attest_device_iff fs opened).1 (
        h.device,
        (open_physdev_at_iff fs h.root physdev (h.root ∷ opens) h.device).1 h.leads,
        (read_ids_exact fs h.device opened.1).1 (h.vendor, h.product),
      ),
    )

-- The attestation of a path succeeds exactly when the path is "/sys/devices/" with a text of at
-- least one component, of at most 4096 bytes in all, each component is of 1 to 255 bytes and neither
-- "." nor "..", the directories it names open one below the other from the directory of /sys, and
-- the last of them has regular files idVendor and idProduct that hold 2cb7 and 0007, each with
-- nothing behind the digits but at most one line feed.
pub attest_l850_mbim_exact :
    (fs : Kernel) (physdev : Option Bytes) (opens : List ℕ)
    → ((attest_l850_mbim fs physdev opens).0 ≡ true) ↔ IsAttested fs physdev
attest_l850_mbim_exact fs physdev opens =
    (attest_l850_mbim-IsAttested fs physdev opens, IsAttested-attest_l850_mbim fs physdev opens)
