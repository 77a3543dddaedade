-- ===== src/Hardware.antt =====
-- The attestation of a modem's USB identity below /sys: l850gl-mm-bridge/src/hardware.c. The kernel
-- is the parameter `fs`, a record of the answers of openat, fstat and read; an open descriptor is a
-- number, and `opens` lists the descriptors that the calls hold.
pub mod Attest
pub mod Descriptors
pub mod Path
use luci_app_l850gl_mm.Base.{
  ℕ, zero, suc, ◌-◌, Bool, true, false, not, ◌&&◌, ◌||◌, List, [], ◌∷◌, ◌++◌, Option, none, some,
  ltb, leb, ◌==◌, if◌then◌else◌, Bytes, codes, length, get_or, same_text, ◌+◌,
}
use luci_app_l850gl_mm.Text.{split, after_prefix}

-- What `st_mode` tells of an open file.
pub data FileType : Type 0 where
  directory : FileType
  regular : FileType
  special : FileType

-- The answer of one call of `read`: an error, an interruption (EINTR), or bytes, none at the end of
-- the file. Of a chunk the call takes what it has room for.
pub data ReadAnswer : Type 0 where
  read_error : ReadAnswer
  interrupted : ReadAnswer
  chunk : Bytes → ReadAnswer

pub record Kernel : Type 0 where
  pub open_root : Option ℕ
  pub open_directory : ℕ → Bytes → Option ℕ
  pub open_file : ℕ → Bytes → Option ℕ
  pub file_type : ℕ → Option FileType
  pub reads : ℕ → List ReadAnswer

abbrev pub physdev_max : ℕ
physdev_max = 4096

abbrev pub component_max : ℕ
component_max = 255

abbrev pub usb_id_len : ℕ
usb_id_len = 4

abbrev pub sysfs_prefix : Bytes
sysfs_prefix = codes "/sys/devices/"

-- A descriptor is given back.
unfoldable pub close : ℕ → List ℕ → List ℕ
close fd [] = []
close fd (x ∷ opens) = if x == fd then opens else x ∷ close fd opens

abbrev pub is_directory : Option FileType → Bool
is_directory (some directory) = true
is_directory _ = false

abbrev pub is_regular : Option FileType → Bool
is_regular (some regular) = true
is_regular _ = false

unfoldable pub physdev_length : Option Bytes → Option ℕ
physdev_length none = none
physdev_length (some physdev) =
    if length physdev == 0 || ltb physdev_max (length physdev) then none else some (length physdev)

unfoldable pub component_is_canonical : Bytes → Bool
component_is_canonical component =
    if length component == 0 || ltb component_max (length component)
    then false
    else not (same_text component (codes ".")) && not (same_text component (codes ".."))

-- `current_fd >= 0 ? current_fd : sysfs_root_fd`.
abbrev pub base_of : ℕ → Option ℕ → ℕ
base_of root none = root
base_of root (some current) = current

-- `if (current_fd >= 0) close(current_fd);`
abbrev pub close_current : Option ℕ → List ℕ → List ℕ
close_current none opens = opens
close_current (some current) opens = close current opens

-- The text from the byte at an offset on.
abbrev pub text_from : ℕ → Bytes → Bytes
text_from zero s = s
text_from (suc n) [] = []
text_from (suc n) (c ∷ s) = text_from n s

-- The first bytes of a text.
unfoldable pub take : ℕ → Bytes → Bytes
take zero s = []
take (suc n) [] = []
take (suc n) (c ∷ s) = c ∷ take n s

-- The checks of the path before the loop: the path is refused, or the loop walks the components
-- that stand behind "/sys/".
unfoldable pub physdev_components : Option Bytes → Option (List Bytes)
physdev_components none = none
physdev_components (some physdev) = elim (physdev_length (some physdev)) [
  | none ↦ none
  | some path_length ↦
      if not (ltb (length sysfs_prefix) path_length)
      then none
      else elim (after_prefix sysfs_prefix physdev) [
        | none ↦ none
        | some _ ↦
            if get_or physdev (path_length - 1) 0 == b'/'
            then none
            else some (split b'/' (text_from 5 physdev))
      ]
]

module _ (fs : Kernel) where
  -- The loop of `open_physdev_at` over the components, with the descriptor it stands at.
  unfoldable pub descend : ℕ → Option ℕ → List Bytes → List ℕ → Option ℕ × List ℕ
  descend root current [] opens = (current, opens)
  descend root current (component ∷ rest) opens =
      if not (component_is_canonical component)
      then (none, close_current current opens)
      else elim (fs.open_directory (base_of root current) component) [
        | none ↦ (none, close_current current opens)
        | some next ↦ descend root (some next) rest (close_current current (next ∷ opens))
      ]

  abbrev pub open_components : ℕ → Option (List Bytes) → List ℕ → Option ℕ × List ℕ
  open_components root none opens = (none, opens)
  open_components root (some components) opens = descend root none components opens

  unfoldable pub open_physdev_at : ℕ → Option Bytes → List ℕ → Option ℕ × List ℕ
  open_physdev_at root physdev opens =
      if not (is_directory (fs.file_type root))
      then (none, opens)
      else open_components root (physdev_components physdev) opens

-- The loop of `read_exact_usb_id`, with the room that is left in its buffer.
unfoldable pub read_value : ℕ → List ReadAnswer → Option Bytes
read_value zero answers = some []
read_value (suc room) [] = some []
read_value (suc room) (read_error ∷ answers) = none
read_value (suc room) (interrupted ∷ answers) = read_value (suc room) answers
read_value (suc room) (chunk [] ∷ answers) = some []
read_value (suc room) (chunk (c ∷ s) ∷ answers) =
    let count = take (suc room) (c ∷ s) in
    elim (read_value (suc room - length count) answers) [
      | none ↦ none
      | some rest ↦ some (count ++ rest)
    ]

-- The four digits, with the end of the file or exactly one LF behind them.
unfoldable pub id_matches : Bytes → Bytes → Bool
id_matches expected value =
    (length value == usb_id_len
      || (length value == usb_id_len + 1 && get_or value usb_id_len 0 == b'\n'))
    && same_text (take usb_id_len value) expected

abbrev pub value_matches : Bytes → Option Bytes → Bool
value_matches expected none = false
value_matches expected (some value) = id_matches expected value

module _ (fs : Kernel) where
  unfoldable pub read_exact_usb_id : ℕ → Bytes → Bytes → List ℕ → Bool × List ℕ
  read_exact_usb_id device attribute expected opens = elim (fs.open_file device attribute) [
    | none ↦ (false, opens)
    | some file ↦ (
      is_regular (fs.file_type file)
          && value_matches expected (read_value (usb_id_len + 2) (fs.reads file)),
      close file (file ∷ opens),
    )
  ]

  -- `read_exact_usb_id(..., "idVendor", ...) && read_exact_usb_id(..., "idProduct", ...)`.
  unfoldable pub read_ids : ℕ → List ℕ → Bool × List ℕ
  read_ids device opens =
      let vendor = read_exact_usb_id device (codes "idVendor") (codes "2cb7") opens in
      if vendor.0
      then read_exact_usb_id device (codes "idProduct") (codes "0007") vendor.1
      else (false, vendor.1)

  abbrev pub attest_device : Option ℕ × List ℕ → Bool × List ℕ
  attest_device (none, opens) = (false, opens)
  attest_device (some device, opens) =
      let answer = read_ids device opens in (answer.0, close device answer.1)

  unfoldable pub attest_l850_mbim_at : ℕ → Option Bytes → List ℕ → Bool × List ℕ
  attest_l850_mbim_at root physdev opens = attest_device (open_physdev_at fs root physdev opens)

  unfoldable pub attest_l850_mbim : Option Bytes → List ℕ → Bool × List ℕ
  attest_l850_mbim physdev opens = elim fs.open_root [
    | none ↦ (false, opens)
    | some root ↦
        let answer = attest_l850_mbim_at root physdev (root ∷ opens) in
        (answer.0, close root answer.1)
  ]
