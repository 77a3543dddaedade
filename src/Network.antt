-- ===== src/Network.antt =====
-- The lookup of the network interface that a modem is bound to, and the modes that a client may ask
-- for (l850gl-mm-bridge/src/network_binding.c and network_binding.h). A text is `none` for a NULL
-- pointer. libuci is the parameter `load`: the sections of the network package for a configuration
-- directory, or `none` where a call of libuci fails.
pub mod Exact
pub mod Modes
pub mod Unique
pub mod Update
pub mod Verified
pub mod Written
use luci_app_l850gl_mm.Base.{
  ℕ, ◌+◌, ◌-◌, Bool, true, false, not, ◌&&◌, ◌||◌, List, [], ◌∷◌, Option, none, some, ltb, leb,
  ◌==◌, if◌then◌else◌, within, Bytes, codes, length, get_or, same_text,
}
use luci_app_l850gl_mm.Bits.{land, lor}

-- `enum L850GLNetworkBindingResult`.
pub data BindingResult : Type 0 where
  lookup_error : BindingResult
  no_binding : BindingResult
  unique : BindingResult
  ambiguous : BindingResult

-- `struct L850GLNetworkBinding`; a mode is `some` where its `has_` member is set.
pub record Binding : Type 0 where
  pub section : Bytes
  pub allowedmode : Option Bytes
  pub preferredmode : Option Bytes
  pub disable_modem : Bool
  pub disable_modem_configured : Bool

-- `struct BindingScan`.
pub record BindingScan : Type 0 where
  pub matches : ℕ
  pub unsafe_match : Bool
  pub candidate : Binding

-- A section of the package, with the options that the lookup reads.
pub record Section : Type 0 where
  pub name : Option Bytes
  pub type : Option Bytes
  pub anonymous : Bool
  pub proto : Option Bytes
  pub device : Option Bytes
  pub allowedmode : Option Bytes
  pub preferredmode : Option Bytes
  pub disable_modem : Option Bytes

abbrev pub device_max : ℕ
device_max = 4096

abbrev pub confdir_max : ℕ
confdir_max = 4096

abbrev pub section_max : ℕ
section_max = 64

abbrev pub mode_max : ℕ
mode_max = 15

-- `binding_clear`.
abbrev pub cleared_binding : Binding
cleared_binding = record {
  section = [];
  allowedmode = none;
  preferredmode = none;
  disable_modem = true;
  disable_modem_configured = false;
}

-- `scan = { 0 }`.
abbrev pub zero_scan : BindingScan
zero_scan = record {
  matches = 0;
  unsafe_match = false;
  candidate = record cleared_binding { disable_modem = false };
}

-- `bounded_length`, as a test.
abbrev pub is_bounded : Option Bytes → ℕ → Bool
is_bounded none maximum = false
is_bounded (some value) maximum = leb (length value) maximum

abbrev pub bounded_equal : Option Bytes → Option Bytes → ℕ → Bool
bounded_equal (some left) (some right) maximum =
    leb (length left) maximum && leb (length right) maximum && same_text left right
bounded_equal _ _ maximum = false

abbrev name_byte : ℕ → Bool
name_byte c = within b'a' b'z' c || within b'A' b'Z' c || within b'0' b'9' c || c == b'_'

abbrev name_bytes : Bytes → Bool
name_bytes [] = true
name_bytes (c ∷ s) = name_byte c && name_bytes s

unfoldable pub section_name_is_safe : Option Bytes → Bool
section_name_is_safe none = false
section_name_is_safe (some name) =
    leb (length name) section_max && not (length name == 0) && name_bytes name

-- The first two bytes of a mode.
abbrev mode_token_bit : ℕ → ℕ → ℕ
mode_token_bit a b =
    if not (b == b'g')
    then 0
    else if a == b'2'
    then 1
    else if a == b'3'
    then 2
    else if a == b'4'
    then 4
    else if a == b'5'
    then 8
    else 0

abbrev new_mode : ℕ → ℕ → Bool
new_mode modes mode = not (mode == 0) && land modes mode == 0

-- The loop over the modes; it ends at the end of the text, also behind a separator.
unfoldable pub mode_list : ℕ → Bytes → Bool
mode_list modes [] = true
mode_list modes (a ∷ []) = false
mode_list modes (a ∷ b ∷ []) = new_mode modes (mode_token_bit a b)
mode_list modes (a ∷ b ∷ c ∷ s) =
    new_mode modes (mode_token_bit a b) && c == b'|' && mode_list (lor modes (mode_token_bit a b)) s

unfoldable pub allowedmode_is_safe : Bytes → Bool
unfolding mode_list
allowedmode_is_safe value =
    leb (length value) mode_max
    && (length value == 0 || same_text value (codes "any") || mode_list 0 value)

abbrev single_mode : Bytes → Bool
single_mode (a ∷ b ∷ []) = not (mode_token_bit a b == 0)
single_mode _ = false

unfoldable pub preferredmode_is_safe : Bytes → Bool
preferredmode_is_safe value =
    leb (length value) mode_max
    && (length value == 0 || same_text value (codes "none") || single_mode value)

abbrev is_text : Option Bytes → Bytes → Bool
is_text none text = false
is_text (some value) text = same_text value text

unfoldable pub modes_are_valid : Option Bytes → Option Bytes → Bool
modes_are_valid allowedmode preferredmode =
    let combined = is_text allowedmode (codes "3g|4g") in
    if not (is_bounded allowedmode mode_max) || not (is_bounded preferredmode mode_max)
    then false
    else if not combined
        && not (is_text allowedmode (codes "3g"))
        && not (is_text allowedmode (codes "4g"))
    then false
    else if is_text preferredmode (codes "none")
    then true
    else if not combined
    then false
    else is_text preferredmode (codes "3g") || is_text preferredmode (codes "4g")

abbrev safe_copy : (Bytes → Bool) → Option Bytes → Option Bytes → Option Bytes
safe_copy is_safe none old = old
safe_copy is_safe (some value) old = if is_safe value then some value else old

abbrev pub copy_modes : Binding → Option Bytes → Option Bytes → Binding
copy_modes binding allowedmode preferredmode = record binding {
  allowedmode = safe_copy allowedmode_is_safe allowedmode binding.allowedmode;
  preferredmode = safe_copy preferredmode_is_safe preferredmode binding.preferredmode;
}

-- The section is an interface of the protocol "modemmanager" with the device.
unfoldable pub is_match : Option Bytes → Section → Bool
is_match target_device s =
    bounded_equal s.type (some (codes "interface")) 9
    && bounded_equal s.proto (some (codes "modemmanager")) 12
    && bounded_equal s.device target_device device_max

abbrev text_of : Option Bytes → Bytes
text_of none = []
text_of (some text) = text

-- The binding to a section with a safe name.
abbrev pub binding_of : Section → Binding
binding_of s =
    let modes = copy_modes cleared_binding s.allowedmode s.preferredmode in
    record modes {
      section = text_of s.name;
      disable_modem_configured = elim s.disable_modem [ none ↦ false | some _ ↦ true ];
      disable_modem = not (is_text s.disable_modem (codes "0"));
    }

-- What `scan_consider` does with a section that matches.
unfoldable pub note_match : Section → BindingScan → BindingScan
note_match s scan =
    let matches = if ltb scan.matches 2 then scan.matches + 1 else scan.matches in
    if s.anonymous || not (section_name_is_safe s.name)
    then record scan { matches = matches; unsafe_match = true }
    else if not (matches == 1)
    then record scan { matches = matches }
    else record scan { matches = matches; candidate = binding_of s }

unfoldable pub scan_consider : Option Bytes → Section → BindingScan → BindingScan
scan_consider target_device s scan = if is_match target_device s then note_match s scan else scan

-- The loop over the sections.
unfoldable pub scan_sections : Option Bytes → List Section → BindingScan → BindingScan
scan_sections device [] scan = scan
scan_sections device (s ∷ ss) scan = scan_sections device ss (scan_consider device s scan)

-- `scan_finish` and the label `out`.
unfoldable pub scan_finish : BindingScan → BindingResult × Binding
scan_finish scan =
    if scan.matches == 0
    then (no_binding, cleared_binding)
    else if not (scan.matches == 1) || scan.unsafe_match
    then (ambiguous, cleared_binding)
    else (unique, scan.candidate)

-- `lookup_arguments_are_valid`, without the clearing of the binding.
abbrev pub device_is_valid : Option Bytes → Bool
device_is_valid none = false
device_is_valid (some device) = leb (length device) device_max && not (length device == 0)

abbrev pub confdir_is_valid : Option Bytes → Bool
confdir_is_valid none = true
confdir_is_valid (some confdir) =
    leb (length confdir) confdir_max
    && not (length confdir == 0)
    && get_or confdir 0 0 == b'/'
    && not (get_or confdir (length confdir - 1) 0 == b'/')

module _ (load : Option Bytes → Option (List Section)) where
  unfoldable pub lookup_loaded : Option (List Section) → Option Bytes → BindingResult × Binding
  lookup_loaded none device = (lookup_error, cleared_binding)
  lookup_loaded (some sections) device = scan_finish (scan_sections device sections zero_scan)

  unfoldable pub binding_lookup_at : Option Bytes → Option Bytes → BindingResult × Binding
  unfolding lookup_loaded
  binding_lookup_at confdir device =
      if not (device_is_valid device) || not (confdir_is_valid confdir)
      then (lookup_error, cleared_binding)
      else lookup_loaded (load confdir) device

  abbrev pub binding_lookup : Option Bytes → BindingResult × Binding
  binding_lookup device = binding_lookup_at none device
