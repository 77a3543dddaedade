-- ===== src/Identity.antt =====
-- The random identities of modems and messages (l850gl-mm-bridge/src/identity.c and identity.h).
-- The source of random bytes is an argument: the bytes for a wanted length, or `none` where it
-- fails; that of the daemon reads what the kernel answers. A buffer is its size, and the pointers to it are taken non-NULL.
pub mod Valid
use luci_app_l850gl_mm.Hardware.{ReadAnswer, read_error, interrupted, chunk, take}
use luci_app_l850gl_mm.Base.{
  ℕ, ◌+◌, ◌-◌, ◌*◌, ◌/◌, ◌%◌, Bool, true, false, not, ◌&&◌, ◌||◌, List, [], ◌∷◌, ◌++◌, Option, none,
  some, ◌==◌, if◌then◌else◌, within, Bytes, codes, length, get_or, suc, zero,
}
use luci_app_l850gl_mm.Text.{after_prefix}

abbrev pub random_len : ℕ
random_len = 16

abbrev pub hex_len : ℕ
hex_len = 32

abbrev pub id_prefix : Bytes
id_prefix = codes "l850gl-"

abbrev pub sms_id_prefix : Bytes
sms_id_prefix = codes "sms-"

abbrev pub sms_op_prefix : Bytes
sms_op_prefix = codes "smsop-"

-- `L850GL_ID_BUFSIZE` and its two variants.
abbrev pub buffer_size : Bytes → ℕ
buffer_size prefix = length prefix + hex_len + 1

-- `hex[n]`.
unfoldable pub hex_digit : ℕ → ℕ
hex_digit n = get_or (codes "0123456789abcdef") n 0

-- The loop over the random bytes.
unfoldable pub hex_pairs : Bytes → Bytes
hex_pairs [] = []
hex_pairs (b ∷ bs) = hex_digit (b / 16) ∷ hex_digit (b % 16) ∷ hex_pairs bs

-- The text in the buffer on success.
unfoldable pub token_generate_with : (ℕ → Option Bytes) → ℕ → Bytes → Option Bytes
token_generate_with random_fill output_size prefix =
    if not (output_size == length prefix + hex_len + 1)
    then none
    else elim (random_fill random_len) [
      | none ↦ none
      | some bytes ↦ some (prefix ++ hex_pairs bytes)
    ]

-- The loop of `system_random_fill`, with the bytes that are missing and the answers of the calls of
-- getrandom, which are an error, an interruption, or some of the bytes asked for.
unfoldable pub system_random_fill : List ReadAnswer → ℕ → Option Bytes
system_random_fill answers zero = some []
system_random_fill [] (suc missing) = none
system_random_fill (interrupted ∷ answers) (suc missing) = system_random_fill answers (suc missing)
system_random_fill (read_error ∷ answers) (suc missing) = none
system_random_fill (chunk [] ∷ answers) (suc missing) = none
system_random_fill (chunk (b ∷ bs) ∷ answers) (suc missing) =
    let count = take (suc missing) (b ∷ bs) in
    elim (system_random_fill answers (suc missing - length count)) [
      | none ↦ none
      | some rest ↦ some (count ++ rest)
    ]

abbrev pub is_hex : ℕ → Bool
is_hex c = within b'0' b'9' c || within b'a' b'f' c

abbrev pub all_hex : Bytes → Bool
all_hex [] = true
all_hex (c ∷ s) = is_hex c && all_hex s

abbrev rest_is_hex : Option Bytes → Bool
rest_is_hex none = false
rest_is_hex (some s) = all_hex s

unfoldable pub token_is_valid : Option Bytes → Bytes → ℕ → Bool
token_is_valid none prefix expected_size = false
token_is_valid (some value) prefix expected_size =
    length value == expected_size - 1 && rest_is_hex (after_prefix prefix value)

abbrev pub identity_generate_with : (ℕ → Option Bytes) → Option Bytes
identity_generate_with random_fill =
    token_generate_with random_fill (buffer_size id_prefix) id_prefix

abbrev pub identity_is_valid : Option Bytes → Bool
identity_is_valid modem_id = token_is_valid modem_id id_prefix (buffer_size id_prefix)

abbrev pub sms_identity_generate_with : (ℕ → Option Bytes) → Option Bytes
sms_identity_generate_with random_fill =
    token_generate_with random_fill (buffer_size sms_id_prefix) sms_id_prefix

abbrev pub sms_identity_is_valid : Option Bytes → Bool
sms_identity_is_valid sms_id = token_is_valid sms_id sms_id_prefix (buffer_size sms_id_prefix)

abbrev pub sms_operation_token_is_valid : Option Bytes → Bool
sms_operation_token_is_valid token = token_is_valid token sms_op_prefix (buffer_size sms_op_prefix)

-- The generators that read the kernel.
abbrev pub identity_generate : List ReadAnswer → Option Bytes
identity_generate answers = identity_generate_with (system_random_fill answers)

abbrev pub sms_identity_generate : List ReadAnswer → Option Bytes
sms_identity_generate answers = sms_identity_generate_with (system_random_fill answers)
