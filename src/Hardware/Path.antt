-- ===== src/Hardware/Path.antt =====
-- The paths that `open_physdev_at` follows (l850gl-mm-bridge/src/hardware.c).
use mathlib.Core.Path.{subst}
use luci_app_l850gl_mm.Text.Laws.{last_empty, IsCut, after_prefix_iff, split-IsCut}
use luci_app_l850gl_mm.Hardware.{
  physdev_components, physdev_length, after_prefix, text_from, Kernel, open_physdev_at, descend,
  component_is_canonical, directory, FileType, is_directory, close,
}
use luci_app_l850gl_mm.Text.{split, push_front}
use luci_app_l850gl_mm.Base.{
  ℕ, List, Bytes, codes, All, ◌≡◌, some, Option-cases, false, inl, ◌∷◌, arith, inr, [], refl, ◌++◌,
  length, ◌≤◌, get_or, ◌-◌, ◌==◌, Bool-cases, ap, Option, none, ◌↔◌, true, same_text_iff, same_text,
  ◌≢◌,
}

-- A name that stands for itself in a directory.
abbrev pub IsName : Bytes → Type 0
IsName name = (1 ≤ length name) × (length name ≤ 255) × (name ≢ codes ".") × (name ≢ codes "..")

component_is_canonical_iff : (name : Bytes) → (component_is_canonical name ≡ true) ↔ IsName name
unfolding component_is_canonical
component_is_canonical_iff name =
    ground (arith, same_text_iff name (codes "."), same_text_iff name (codes ".."))

-- The directory that the names lead to.
abbrev pub follow : Kernel → ℕ → List Bytes → Option ℕ
follow fs base [] = some base
follow fs base (name ∷ names) = elim (fs.open_directory base name) [
  | none ↦ none
  | some next ↦ follow fs next names
]

descend_exact :
    (fs : Kernel) (root : ℕ) (current : ℕ) (names : List Bytes) (opens : List ℕ) (device : ℕ)
    → ((descend fs root (some current) names opens).0 ≡ some device)
      ↔ (All IsName names × (follow fs current names ≡ some device))
unfolding descend
descend_exact fs root current [] opens device = ground arith
descend_exact fs root current (name ∷ names) opens device =
    elim (Option-cases (fs.open_directory current name)) [
      | inl e ↦ ground (arith, e)
      | inr (next, e) ↦ ground (
        arith,
        e,
        component_is_canonical_iff name,
        descend_exact fs root next names (close current (next ∷ opens)) device,
      )
    ]

-- The path names a device below /sys/devices: no component is empty, "." or "..", or too long.
pub record IsPhysdev (physdev rest : Bytes) : Type 0 where
  pub whole : physdev ≡ codes "/sys/devices/" ++ rest
  pub bounded : length physdev ≤ 4096
  pub names : All IsName (split b'/' rest)

last_named : (ps : List Bytes) → All IsName ps → last_empty ps ≡ false
last_named [] h = refl
last_named (p ∷ []) h = ground (arith, h)
last_named (p ∷ q ∷ ps) h = last_named (q ∷ ps) h.1

abbrev below : Bytes → List Bytes
below rest = codes "devices" ∷ split b'/' rest

split_physdev :
    (rest : Bytes) → split b'/' (codes "/sys/devices/" ++ rest) ≡ [] ∷ codes "sys" ∷ below rest
unfolding split push_front
split_physdev rest = refl

split-below : (rest : Bytes) → split b'/' (text_from 5 (codes "/sys/devices/" ++ rest)) ≡ below rest
unfolding split push_front
split-below rest = refl

not_cut : (rest : Bytes) → All IsName (split b'/' rest) → IsCut ([] ∷ codes "sys" ∷ below rest) → ⊥
not_cut rest names (p, q, qs, e, l) = ground (arith, e, l, last_named (below rest))

not_trailing :
    (rest : Bytes)
    → All IsName (split b'/' rest)
    → let physdev = codes "/sys/devices/" ++ rest in
      (get_or physdev (length physdev - 1) 0 == b'/') ≡ false
not_trailing rest names = elim (Bool-cases (get_or physdev (length physdev - 1) 0 == b'/')) [
  | inl e ↦ absurd (
      not_cut rest names
        (subst IsCut (split_physdev rest) (split-IsCut b'/' b'/' _ (ground (arith, e)))))
  | inr e ↦ e
]
  where
    physdev : Bytes
    physdev = codes "/sys/devices/" ++ rest

named_nonempty : (rest : Bytes) → All IsName (split b'/' rest) → 1 ≤ length rest
unfolding split
named_nonempty [] names = ground (arith, names)
named_nonempty (c ∷ rest) names = omega arith

physdev_components-below :
    (rest : Bytes)
    → length (codes "/sys/devices/" ++ rest) ≤ 4096
    → All IsName (split b'/' rest)
    → physdev_components (some (codes "/sys/devices/" ++ rest)) ≡ some (below rest)
unfolding physdev_components physdev_length
physdev_components-below rest h names = ground (
  arith,
  named_nonempty rest names,
  not_trailing rest names,
  split-below rest,
  (after_prefix_iff (codes "/sys/devices/") (codes "/sys/devices/" ++ rest) rest).1 refl,
)

physdev_components-IsPhysdev :
    (physdev : Bytes) {names : List Bytes}
    → physdev_components (some physdev) ≡ some names
    → (rest : Bytes) × (physdev ≡ codes "/sys/devices/" ++ rest)
      × (length physdev ≤ 4096)
      × (names ≡ below rest)
unfolding physdev_components physdev_length
physdev_components-IsPhysdev physdev h =
    elim (Option-cases (after_prefix (codes "/sys/devices/") physdev)) [
      | inl e ↦ absurd (ground (arith, h, e))
      | inr (rest, e) ↦
          let whole = (after_prefix_iff (codes "/sys/devices/") physdev rest).0 e in
          (
            rest,
            whole,
            ground (arith, h, e),
            ground (arith, h, e, split-below rest, ap (λ s. split b'/' (text_from 5 s)) whole),
          )
    ]

-- The directory "devices" of the root, and the directories below it that the path names.
abbrev pub reached : Kernel → ℕ → Bytes → Option ℕ
reached fs root rest = follow fs root (codes "devices" ∷ split b'/' rest)

devices_named : IsName (codes "devices")
devices_named = (omega arith, omega arith, λ e. cc, λ e. cc)

descend-below :
    (fs : Kernel) (root : ℕ) (rest : Bytes) (opens : List ℕ) (device : ℕ)
    → ((descend fs root none (below rest) opens).0 ≡ some device)
      ↔ (All IsName (split b'/' rest) × (reached fs root rest ≡ some device))
unfolding descend component_is_canonical same_text
descend-below fs root rest opens device =
    elim (Option-cases (fs.open_directory root (codes "devices"))) [
      | inl e ↦ ground (arith, e)
      | inr (next, e) ↦
          ground (arith, e, descend_exact fs root next (split b'/' rest) (next ∷ opens) device)
    ]

-- The path leads from the directory of /sys to the device.
pub record Leads (fs : Kernel) (root : ℕ) (path : Option Bytes) (device : ℕ) : Type 0 where
  pub root_directory : fs.file_type root ≡ some directory
  pub physdev : Bytes
  pub given : path ≡ some physdev
  pub rest : Bytes
  pub physdev_named : IsPhysdev physdev rest
  pub device_reached : reached fs root rest ≡ some device

directory_of : (t : Option FileType) → is_directory t ≡ true → t ≡ some directory
directory_of t h = ground (arith, h)

open_physdev_at-Leads :
    (fs : Kernel) (root : ℕ) (physdev : Bytes) (opens : List ℕ) {device : ℕ}
    → (open_physdev_at fs root (some physdev) opens).0 ≡ some device
    → Leads fs root (some physdev) device
unfolding open_physdev_at
open_physdev_at-Leads fs root physdev opens {device} h =
    elim (Option-cases (physdev_components (some physdev))) [
      | inl e ↦ absurd (ground (arith, h, e))
      | inr (names, e) ↦
          let (rest, whole, bounded, same) = physdev_components-IsPhysdev physdev e in
          let down : (descend fs root none (below rest) opens).0 ≡ some device =
            ground (arith, h, e, same) in
          let (named, there) = (descend-below fs root rest opens device).0 down in
          record {
            root_directory = directory_of (fs.file_type root) (ground (arith, h, e));
            physdev = physdev;
            given = refl;
            rest = rest;
            physdev_named = record { whole = whole; bounded = bounded; names = named };
            device_reached = there;
          }
    ]

Leads-open_physdev_at :
    (fs : Kernel) (root : ℕ) (path : Option Bytes) (opens : List ℕ) {device : ℕ}
    → Leads fs root path device
    → (open_physdev_at fs root path opens).0 ≡ some device
unfolding open_physdev_at
Leads-open_physdev_at fs root path opens {device} h =
    let named = h.physdev_named in
    let components : physdev_components path ≡ some (below h.rest) =
      rw (h.given, named.whole)
        (physdev_components-below h.rest (subst (λ s. length s ≤ 4096) named.whole named.bounded)
          named.names) in
    ground (
      arith,
      h.root_directory,
      components,
      (descend-below fs root h.rest opens device).1 (named.names, h.device_reached),
    )

pub open_physdev_at_iff :
    (fs : Kernel) (root : ℕ) (physdev : Option Bytes) (opens : List ℕ) (device : ℕ)
    → ((open_physdev_at fs root physdev opens).0 ≡ some device) ↔ Leads fs root physdev device
unfolding open_physdev_at physdev_components
open_physdev_at_iff fs root none opens device =
    (λ h. absurd (ground (arith, h)), Leads-open_physdev_at fs root none opens)
open_physdev_at_iff fs root (some physdev) opens device = (
  open_physdev_at-Leads fs root physdev opens,
  Leads-open_physdev_at fs root (some physdev) opens,
)
