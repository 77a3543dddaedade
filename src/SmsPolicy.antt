-- ===== src/SmsPolicy.antt =====
-- The policy of outgoing messages (l850gl-mm-bridge/src/sms_policy.c): which recipients are valid,
-- and the digest of a request. The SHA-256 of GLib is the parameter `sha256`, a function of all the
-- bytes that the checksum was updated with; the UTF-8 functions of GLib are the parameter `utf8`.
pub mod Digest
use luci_app_l850gl_mm.Base.{
  ℕ, zero, suc, ◌+◌, ◌/◌, ◌%◌, Bool, true, false, not, ◌&&◌, ◌||◌, List, [], ◌∷◌, ◌++◌, Option,
  none, some, ltb, leb, ◌==◌, if◌then◌else◌, within, Bytes, codes, length, same_text,
}

abbrev pub recipient_digits_max : ℕ
recipient_digits_max = 20

abbrev pub sha256_digest_len : ℕ
sha256_digest_len = 32

-- The loop over the digits.
abbrev pub all_digits : Bytes → Bool
all_digits [] = true
all_digits (c ∷ s) = within b'0' b'9' c && all_digits s

abbrev behind_plus : Bytes → Bytes
behind_plus [] = []
behind_plus (c ∷ s) = if c == b'+' then s else c ∷ s

unfoldable pub sms_recipient_is_valid : Option Bytes → Bool
sms_recipient_is_valid none = false
sms_recipient_is_valid (some recipient) =
    if length recipient == 0 || ltb (recipient_digits_max + 1) (length recipient)
    then false
    else all_digits (behind_plus recipient)
      && leb 1 (length (behind_plus recipient))
      && leb (length (behind_plus recipient)) recipient_digits_max

abbrev pub sms_outbound_chars_max : ℕ
sms_outbound_chars_max = 1600

abbrev pub sms_outbound_bytes_max : ℕ
sms_outbound_bytes_max = 6400

-- `g_utf8_validate`, the characters that `g_utf8_strlen` counts and `g_utf8_next_char` walks over,
-- and `g_unichar_iscntrl`.
pub record Utf8 : Type 0 where
  pub is_valid : Bytes → Bool
  pub characters : Bytes → List ℕ
  pub is_control : ℕ → Bool

-- The loop over the characters.
unfoldable pub all_printable : Utf8 → List ℕ → Bool
all_printable utf8 [] = true
all_printable utf8 (c ∷ cs) =
    not (utf8.is_control c && not (c == b'\n') && not (c == b'\r') && not (c == b'\t'))
    && all_printable utf8 cs

unfoldable pub sms_outbound_text_is_valid : Utf8 → Option Bytes → Bool
sms_outbound_text_is_valid utf8 none = false
sms_outbound_text_is_valid utf8 (some value) =
    let characters = utf8.characters value in
    if length value == 0 || ltb sms_outbound_bytes_max (length value) || not (utf8.is_valid value)
    then false
    else if length characters == 0 || ltb sms_outbound_chars_max (length characters)
    then false
    else all_printable utf8 characters

-- The bytes of `encoded_length`, the highest first.
unfoldable pub encoded_length : ℕ → ℕ → Bytes
encoded_length zero n = []
encoded_length (suc count) n = encoded_length count (n / 256) ++ ((n % 256) ∷ [])

-- The checksum is the bytes that it was updated with.
unfoldable pub checksum_add_field : Bytes → Bytes → Bytes
checksum_add_field checksum value = (checksum ++ encoded_length 8 (length value)) ++ value

-- The name of the domain, with its terminating NUL.
abbrev pub domain : Bytes
domain = codes "l850gl-mm-send-sms-v1" ++ (0 ∷ [])

unfoldable pub request_input : Bytes → Bytes → Bytes
request_input recipient text = checksum_add_field (checksum_add_field domain recipient) text

-- `allocated` says whether `g_checksum_new` returned a checksum.
unfoldable pub sms_request_digest :
    (Bytes → Bytes) → Bool → Option Bytes → Option Bytes → Option Bytes
sms_request_digest sha256 allocated (some recipient) (some text) =
    let digest = sha256 (request_input recipient text) in
    if allocated && length digest == sha256_digest_len then some digest else none
sms_request_digest sha256 allocated _ _ = none

abbrev pub sms_digest_equal : Option Bytes → Option Bytes → Bool
sms_digest_equal (some left) (some right) = same_text left right
sms_digest_equal _ _ = false
