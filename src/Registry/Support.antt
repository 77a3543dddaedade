-- ===== src/Registry/Support.antt =====
-- Which modems the bridge admits and which it may change (l850gl-mm-bridge/src/bridge.c):
-- `is_exact_l850gl`, the composition, and `l850gl_modem_attest_mutation_target`. What libmm-glib
-- tells of a modem is the record `Description`, `g_utf8_validate` the parameter `utf8_valid`.
pub mod Target
use luci_app_l850gl_mm.Base.{
  ℕ, zero, suc, ◌+◌, Bool, true, false, not, ◌&&◌, ◌||◌, List, [], ◌∷◌, Option, none, some,
  if◌then◌else◌, within, Bytes, codes, map, same_text,
}
use luci_app_l850gl_mm.Text.{after_prefix}
use luci_app_l850gl_mm.Hardware.{Kernel, attest_l850_mbim}

-- The properties of an `MMModem`; a text is `none` for a NULL pointer, `ports` holds for each port
-- whether it is of the type MBIM, and is `none` where `mm_modem_peek_ports` fails.
pub record Description : Type 0 where
  pub plugin : Option Bytes
  pub manufacturer : Option Bytes
  pub model : Option Bytes
  pub drivers : Option (List Bytes)
  pub ports : Option (List Bool)
  pub physdev : Option Bytes

abbrev pub max_ports_or_drivers : ℕ
max_ports_or_drivers = 32

abbrev pub is_upper : ℕ → Bool
is_upper c = within b'A' b'Z' c

-- `g_ascii_isalnum`.
abbrev pub is_alnum : ℕ → Bool
is_alnum c = within b'0' b'9' c || within b'a' b'z' c || is_upper c

-- `g_ascii_tolower`.
abbrev pub to_lower : ℕ → ℕ
to_lower c = if is_upper c then c + 32 else c

-- `g_ascii_strdown`.
unfoldable pub lower_text : Bytes → Bytes
lower_text [] = []
lower_text (c ∷ s) = to_lower c ∷ lower_text s

-- The loop of `normalize_alnum`.
unfoldable pub kept_alnum : Bytes → Bytes
kept_alnum [] = []
kept_alnum (c ∷ s) = if is_alnum c then to_lower c ∷ kept_alnum s else kept_alnum s

-- `strstr(value, needle) != NULL`.
unfoldable pub contains : Bytes → Bytes → Bool
contains needle [] = elim (after_prefix needle []) [ none ↦ false | some _ ↦ true ]
contains needle (c ∷ s) = elim (after_prefix needle (c ∷ s)) [
  | none ↦ contains needle s
  | some _ ↦ true
]

abbrev pub string_contains_ascii_ci : Bytes → Bytes → Bool
string_contains_ascii_ci needle value = contains needle (lower_text value)

-- A search among the first entries of a list, for a loop that ends at a bound.
unfoldable pub any_of_first {ℓ} : {A : Type ℓ} → (A → Bool) → ℕ → List A → Bool
any_of_first test zero xs = false
any_of_first test (suc n) [] = false
any_of_first test (suc n) (x ∷ xs) = test x || any_of_first test n xs

abbrev pub any_entry {ℓ} : {A : Type ℓ} → (A → Bool) → Option (List A) → Bool
any_entry test none = false
any_entry test (some xs) = any_of_first test max_ports_or_drivers xs

abbrev pub is_mbim_driver : Bytes → Bool
is_mbim_driver driver =
    string_contains_ascii_ci (codes "cdc_mbim") driver
    || string_contains_ascii_ci (codes "mbim") driver

abbrev pub is_ncm_driver : Bytes → Bool
is_ncm_driver driver =
    string_contains_ascii_ci (codes "cdc_ncm") driver
    || string_contains_ascii_ci (codes "ncm") driver

unfoldable pub composition : Description → Bytes
composition d =
    if any_entry is_mbim_driver d.drivers
    then codes "mbim"
    else if any_entry (λ is_mbim. is_mbim) d.ports
    then codes "mbim"
    else if any_entry is_ncm_driver d.drivers
    then codes "ncm"
    else codes "unknown"

module _ (utf8_valid : Bytes → Bool) where
  unfoldable pub normalize_alnum : Option Bytes → Bytes
  normalize_alnum none = []
  normalize_alnum (some value) = if utf8_valid value then kept_alnum value else []

  -- `g_ascii_strcasecmp(plugin, "fibocom") == 0`.
  abbrev pub is_fibocom : Option Bytes → Bool
  is_fibocom none = false
  is_fibocom (some plugin) = same_text (lower_text plugin) (codes "fibocom")

  unfoldable pub is_exact_l850gl : Description → Bool
  is_exact_l850gl d =
      let manufacturer = normalize_alnum d.manufacturer in
      is_fibocom d.plugin
      && (same_text manufacturer (codes "fibocom")
          || same_text manufacturer (codes "fibocomwireless")
          || same_text manufacturer (codes "fibocomwirelessinc"))

  unfoldable pub modem_is_l850 : Description → Bool
  modem_is_l850 d = same_text (normalize_alnum d.model) (codes "l850gl")

  unfoldable pub modem_is_supported : Description → Bool
  modem_is_supported d = modem_is_l850 d && same_text (composition d) (codes "mbim")

  unfoldable pub modem_support_reason : Description → Bytes
  modem_support_reason d =
      if not (modem_is_l850 d)
      then codes "unsupported-l850gl-model"
      else if same_text (composition d) (codes "mbim")
      then codes "l850-mbim"
      else if same_text (composition d) (codes "ncm")
      then codes "l850-ncm-data-unsupported"
      else codes "l850-composition-unknown"

  -- The attestation of the hardware opens no descriptor that it keeps, so it starts from none.
  unfoldable pub attest_mutation_target : Kernel → Bool → Description → Bool
  attest_mutation_target fs live d =
      if not live || not (modem_is_supported d) then false else (attest_l850_mbim fs d.physdev []).0
