-- ===== src/Tests/Policies.antt =====
-- The verifier, the radio policy, the network binding and the cooldowns at concrete inputs.
use luci_app_l850gl_mm.Base.{
  ℕ, true, false, List, [], ◌∷◌, Option, none, some, Bytes, codes, ◌≡◌, ◌↔◌, ◌⊎◌, ◌≤◌, refl, arith,
  same_text, suc, ◌*◌, zero, ◌+◌,
}
use luci_app_l850gl_mm.Base.Result.{ok}
use luci_app_l850gl_mm.Base.Int.{pos}
use luci_app_l850gl_mm.Bits.{land, lor, bitwise as word_bits}
use luci_app_l850gl_mm.Cooldown.{scan_retry_after_ms}
use luci_app_l850gl_mm.Cooldown.Wait.{IsLeastWait, scan_retry_after_ms-IsLeastWait}
use luci_app_l850gl_mm.Identity.Valid.{token_generate_with-valid}
use luci_app_l850gl_mm.Identity.{token_generate_with, token_is_valid, buffer_size, sms_id_prefix}
use luci_app_l850gl_mm.Network.{Section, Binding, unique, binding_lookup_at, modes_are_valid}
use luci_app_l850gl_mm.Network.Modes.{modes_are_valid_exact}
use luci_app_l850gl_mm.Network.Unique.{IsBinding, binding_lookup_at_exact}
use luci_app_l850gl_mm.Number.{parse_uint32}
use luci_app_l850gl_mm.Number.Numeral.{IsNumeral, parse_uint32_exact}
use luci_app_l850gl_mm.Radio.{
  RadioBand, resolve_bands, resolve_names, resolve_one, find_supported, band_name_is_canonical,
}
use luci_app_l850gl_mm.Radio.Selection.{IsSelection, resolve_bands-IsSelection}
use luci_app_l850gl_mm.SmsDedupe.{
  sms_dedupe_expiry, sms_dedupe_is_expired, window, i64_max, sms_dedupe_expiry_exact,
}
use luci_app_l850gl_mm.SmsPolicy.Digest.{request_input-injective}
use luci_app_l850gl_mm.Verifier.{
  Observation, match_observed, mismatch, pre_reset, ready, verifier_observe, after_observations,
  required_matches, unbroken, verifier_observe-ready,
}

abbrev one_match : List Observation
one_match = match_observed ∷ mismatch ∷ []

verifier_observe-ready_example :
    ((verifier_observe (after_observations pre_reset one_match) match_observed).0 ≡ ready) ↔ (
      (1 ≤ required_matches pre_reset)
      × (required_matches pre_reset ≤ unbroken (match_observed ∷ one_match)))
verifier_observe-ready_example = verifier_observe-ready pre_reset match_observed one_match

abbrev two_names : List (Option Bytes)
two_names = some (codes "utran-1") ∷ some (codes "eutran-3") ∷ []

abbrev two_bands : List RadioBand
two_bands =
    record { name = some (codes "utran-1"); value = 5; family = 2 }
    ∷ record { name = some (codes "eutran-3"); value = 33; family = 4 }
    ∷ []

abbrev two_values : List ℕ
two_values = 5 ∷ 33 ∷ []

two_bands_accepted : resolve_bands two_names two_bands true 6 256 ≡ ok two_values
unfolding resolve_bands resolve_names resolve_one find_supported band_name_is_canonical land lor
    word_bits same_text
two_bands_accepted = refl

resolve_bands-IsSelection_example :
    ((two_names ≡ some (codes "any") ∷ []) × (two_values ≡ 256 ∷ []))
    ⊎ IsSelection two_names two_bands 6 two_values
resolve_bands-IsSelection_example =
    resolve_bands-IsSelection two_names two_bands true 6 256 {resolved = two_values}
      two_bands_accepted

abbrev modem_path : Bytes
modem_path = codes "/sys/devices/usb1"

abbrev wwan_section : Section
wwan_section = record {
  name = some (codes "wwan");
  type = some (codes "interface");
  anonymous = false;
  proto = some (codes "modemmanager");
  device = some modem_path;
  allowedmode = some (codes "3g|4g");
  preferredmode = none;
  disable_modem = some (codes "0");
}

abbrev wwan_binding : Binding
wwan_binding = record {
  section = codes "wwan";
  allowedmode = some (codes "3g|4g");
  preferredmode = none;
  disable_modem = false;
  disable_modem_configured = true;
}

abbrev one_section : Option Bytes → Option (List Section)
one_section _ = some (wwan_section ∷ [])

binding_lookup_at_exact_example :
    (binding_lookup_at one_section none (some modem_path) ≡ (unique, wwan_binding)) ↔ (
      (sections : List Section) × (one_section none ≡ some sections)
      × IsBinding (some modem_path) sections wwan_binding)
binding_lookup_at_exact_example =
    binding_lookup_at_exact one_section none (some modem_path) wwan_binding refl refl

modes_are_valid_exact_example :
    (modes_are_valid (some (codes "3g|4g")) (some (codes "4g")) ≡ true) ↔ (
      (((codes "3g|4g" ≡ codes "3g") ⊎ (codes "3g|4g" ≡ codes "4g")) × (codes "4g" ≡ codes "none"))
      ⊎ ((codes "3g|4g" ≡ codes "3g|4g")
          × ((codes "4g" ≡ codes "none") ⊎ (codes "4g" ≡ codes "3g") ⊎ (codes "4g" ≡ codes "4g"))))
modes_are_valid_exact_example = modes_are_valid_exact (codes "3g|4g") (codes "4g")

both_modes_valid : modes_are_valid (some (codes "3g|4g")) (some (codes "4g")) ≡ true
unfolding modes_are_valid same_text
both_modes_valid = refl

scan_retry_after_ms-IsLeastWait_example : IsLeastWait scan_retry_after_ms 4000001 1000000
scan_retry_after_ms-IsLeastWait_example =
    scan_retry_after_ms-IsLeastWait 4000001 1000000 (omega arith) (omega arith)

parse_uint32_exact_example :
    (parse_uint32 (codes "0x1F") ≡ some 31) ↔ (IsNumeral (codes "0x1F") 31 × (31 ≤ 4294967295))
parse_uint32_exact_example = parse_uint32_exact (codes "0x1F") 31

abbrev counted_bytes : ℕ → Bytes
counted_bytes zero = []
counted_bytes (suc n) = (n * 17) ∷ counted_bytes n

abbrev counted_fill : ℕ → Option Bytes
counted_fill n = some (counted_bytes n)

abbrev sixteen : Bytes
sixteen = counted_bytes 16

token_generate_with-valid_example :
    (token : Bytes) × (token_generate_with counted_fill (buffer_size sms_id_prefix) sms_id_prefix
      ≡ some token)
    × (token_is_valid (some token) sms_id_prefix (buffer_size sms_id_prefix) ≡ true)
    × (token_generate_with counted_fill (buffer_size sms_id_prefix) sms_id_prefix ≡ some token
        → sixteen ≡ sixteen)
token_generate_with-valid_example =
    token_generate_with-valid counted_fill counted_fill sms_id_prefix sixteen sixteen refl refl
      (refl, refl) (ground arith, ground arith)

sms_dedupe_expiry_exact_example :
    (sms_dedupe_is_expired (sms_dedupe_expiry (pos 5)) (pos 300000005) ≡ true)
    ↔ ((5 + window ≤ 300000005) ⊎ (300000005 ≡ i64_max))
sms_dedupe_expiry_exact_example = sms_dedupe_expiry_exact 5 300000005 (omega arith) (omega arith)

request_input-injective_example : (codes "+62812" ≡ codes "+62812") × (codes "hi" ≡ codes "hi")
request_input-injective_example =
    request_input-injective (codes "+62812") (codes "+62812") (codes "hi") (codes "hi")
      (omega arith) (omega arith) (omega arith) (omega arith) refl
