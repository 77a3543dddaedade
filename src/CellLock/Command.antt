-- ===== src/CellLock/Command.antt =====
-- The AT commands of the cell lock, and the checks of their answers
-- (l850gl-mm-bridge/src/l850_cell.c).
pub mod Injective
pub mod Matches
use luci_app_l850gl_mm.Base.{
  ℕ, ◌+◌, Bool, true, false, not, ◌&&◌, ◌||◌, List, [], ◌∷◌, ◌++◌, Option, none, some, ltb, leb,
  ◌==◌, if◌then◌else◌, Bytes, codes, length, same_text,
}
use luci_app_l850gl_mm.CellLock.Earfcn.{earfcn_to_band}
use luci_app_l850gl_mm.CellLock.{LockState, pci_wildcard, clear_frequency}
use luci_app_l850gl_mm.Number.Print.{format_decimal}

-- `L850GL_L850_COMMAND_MAX`.
abbrev pub command_max : ℕ
command_max = 96

abbrev pub set_success : Bytes
set_success = codes "Frequency Lock Configuration Success CPS_MSG_TYPE_ASM_EM_CTRL_CNF"

abbrev pub clear_command : Bytes
clear_command = codes "AT@SIC:FREQ_LOCK(0,3,255,0,65535,65535)"

abbrev pub reset_command : Bytes
reset_command = codes "AT+CFUN=15"

abbrev pub scan_command : Bytes
scan_command = codes "AT+XMCI=1"

abbrev pub nvm_query_command : Bytes
nvm_query_command = codes "AT@NVM:DYN_CPS.NAS_ASM.FREQ_LOCK_PARAMS.*??"

-- The list of supported names holds "eutran-<band>". A name may be a NULL pointer, and the list
-- too; the 24 bytes of `expected` hold every name of a 16-bit band.
unfoldable pub has_name : Bytes → List (Option Bytes) → Bool
has_name expected [] = false
has_name expected (none ∷ names) = has_name expected names
has_name expected (some name ∷ names) = same_text name expected || has_name expected names

unfoldable pub band_is_supported : ℕ → Option (List (Option Bytes)) → Bool
unfolding has_name
band_is_supported band none = false
band_is_supported band (some names) = has_name (codes "eutran-" ++ format_decimal band) names

-- What the format string of `l850gl_l850_build_set_command` writes.
unfoldable pub set_command_text : ℕ → ℕ → ℕ → Bytes
set_command_text band earfcn pci =
    codes "AT@SIC:FREQ_LOCK(0,3,"
    ++ (format_decimal band
        ++ (codes ",1," ++ (format_decimal earfcn ++ (b',' ∷ (format_decimal pci ++ codes ")")))))

abbrev pub effective_pci : Bool → ℕ → ℕ
effective_pci has_pci pci = if has_pci then pci else pci_wildcard

-- `snprintf` into the buffer: a text that does not fit is dropped.
print_to : ℕ → Bytes → Bool × Bytes
print_to size text = if leb size (length text) then (false, []) else (true, text)

set_command_of : Option ℕ → ℕ → Bool → ℕ → ℕ → Bytes → Bool × Bytes
unfolding print_to
set_command_of none earfcn has_pci pci size command = (false, command)
set_command_of (some band) earfcn has_pci pci size command =
    if has_pci && ltb 503 pci
    then (false, command)
    else print_to size (set_command_text band earfcn (effective_pci has_pci pci))

-- The last argument is what the buffer of `size` bytes holds before the call; the result is
-- whether a command was built, and what the buffer holds then.
unfoldable pub build_set_command : ℕ → Bool → ℕ → ℕ → Bytes → Bool × Bytes
unfolding set_command_of
build_set_command earfcn has_pci pci size command =
    if size == 0
    then (false, command)
    else set_command_of (earfcn_to_band earfcn) earfcn has_pci pci size command

unfoldable pub set_response_is_success : Option Bytes → Bool
set_response_is_success none = false
set_response_is_success (some response) =
    length response == length set_success && same_text response set_success

unfoldable pub lock_state_matches : Option LockState → Bool → ℕ → Bool → ℕ → Bool
lock_state_matches none clear earfcn has_pci pci = false
lock_state_matches (some s) clear earfcn has_pci pci =
    if clear
    then not s.enabled && s.earfcn == clear_frequency && s.pci == pci_wildcard
    else s.enabled
      && s.earfcn == earfcn
      && (if s.has_pci then has_pci else not has_pci)
      && s.pci == effective_pci has_pci pci
