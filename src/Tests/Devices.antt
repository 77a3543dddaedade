-- ===== src/Tests/Devices.antt =====
-- The attestation of a device and of a modem at concrete inputs.
use luci_app_l850gl_mm.Text.{after_prefix, split, push_front}
use luci_app_l850gl_mm.Hardware.Attest.{IsAttested, attest_l850_mbim_exact}
use luci_app_l850gl_mm.Registry.Support.Target.{IsTarget, attest_mutation_target_exact}
use luci_app_l850gl_mm.Hardware.Descriptors.{attest_l850_mbim-opens}
use luci_app_l850gl_mm.Registry.Support.{
  Description, is_exact_l850gl, normalize_alnum, attest_mutation_target, modem_is_supported,
  modem_is_l850, kept_alnum, lower_text, composition, any_of_first, contains,
}
use luci_app_l850gl_mm.Hardware.{
  Kernel, attest_l850_mbim, ReadAnswer, FileType, attest_l850_mbim_at, open_physdev_at, directory,
  interrupted, regular, chunk, physdev_components, physdev_length, descend, component_is_canonical,
  close, read_ids, read_exact_usb_id, read_value, id_matches, take,
}
use luci_app_l850gl_mm.Base.{
  ℕ, Bytes, Option, List, if◌then◌else◌, some, codes, Bool, true, ◌∷◌, ◌==◌, ltb, same_text, none,
  ◌≡◌, [], refl, ◌↔◌, false,
}

abbrev device_path : Bytes
device_path = codes "/sys/devices/usb1"

abbrev directory_of_name : Bytes → Option ℕ
directory_of_name name =
    if same_text name (codes "devices")
    then some 2
    else if same_text name (codes "usb1")
    then some 3
    else none

abbrev file_of_name : Bytes → Option ℕ
file_of_name name = if same_text name (codes "idVendor") then some 4 else some 5

abbrev type_of_file : ℕ → Option FileType
type_of_file fd = if ltb fd 4 then some directory else some regular

-- The vendor comes after an interruption, in two parts.
abbrev reads_of_file : ℕ → List ReadAnswer
reads_of_file fd =
    if fd == 4
    then interrupted ∷ chunk (codes "2c") ∷ chunk (codes "b7\n") ∷ []
    else chunk (codes "0007") ∷ []

abbrev pub one_device : Kernel
one_device = record {
  open_root = some 1;
  open_directory = λ base name. directory_of_name name;
  open_file = λ base name. file_of_name name;
  file_type = type_of_file;
  reads = reads_of_file;
}

device_attested : (attest_l850_mbim one_device (some device_path) (9 ∷ [])).0 ≡ true
unfolding attest_l850_mbim attest_l850_mbim_at open_physdev_at physdev_components physdev_length
    after_prefix split push_front descend component_is_canonical close read_ids read_exact_usb_id
    read_value id_matches take same_text
device_attested = refl

parent_refused : (attest_l850_mbim one_device (some (codes "/sys/devices/../usb1")) []).0 ≡ false
unfolding attest_l850_mbim attest_l850_mbim_at open_physdev_at physdev_components physdev_length
    after_prefix split push_front descend component_is_canonical close same_text
parent_refused = refl

attest_l850_mbim_exact_example :
    ((attest_l850_mbim one_device (some device_path) (9 ∷ [])).0 ≡ true)
    ↔ IsAttested one_device (some device_path)
attest_l850_mbim_exact_example = attest_l850_mbim_exact one_device (some device_path) (9 ∷ [])

attest_l850_mbim-opens_example :
    (attest_l850_mbim one_device (some device_path) (9 ∷ [])).1 ≡ 9 ∷ []
attest_l850_mbim-opens_example = attest_l850_mbim-opens one_device (some device_path) (9 ∷ [])

abbrev pub any_utf8 : Bytes → Bool
any_utf8 text = true

abbrev pub described : Description
described = record {
  plugin = some (codes "fibocom");
  manufacturer = some (codes "Fibocom Wireless Inc.");
  model = some (codes "L850-GL");
  drivers = some (codes "cdc_MBIM" ∷ []);
  ports = none;
  physdev = some device_path;
}

described_exact : is_exact_l850gl any_utf8 described ≡ true
unfolding is_exact_l850gl normalize_alnum kept_alnum lower_text same_text
described_exact = refl

described_supported : modem_is_supported any_utf8 described ≡ true
unfolding modem_is_supported modem_is_l850 composition any_of_first contains lower_text
    normalize_alnum kept_alnum same_text after_prefix
described_supported = refl

attest_mutation_target_exact_example :
    (attest_mutation_target any_utf8 one_device true described ≡ true)
    ↔ IsTarget any_utf8 one_device true described
attest_mutation_target_exact_example =
    attest_mutation_target_exact any_utf8 one_device true described
