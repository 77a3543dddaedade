-- ===== src/CellLock/Nvm.antt =====
-- `l850gl_l850_nvm_parse`: the lock state that the modem keeps in its non-volatile memory, as five
-- `key = value` lines (l850gl-mm-bridge/src/l850_cell.c).
pub mod Fields
pub mod State
use luci_app_l850gl_mm.Base.Result.{Result, ok, err, ◌>>=◌, ◌>>◌, refuse_if, required}
use luci_app_l850gl_mm.Base.{
  ℕ, suc, ◌+◌, ◌%◌, Bool, true, false, not, ◌&&◌, ◌||◌, List, [], ◌∷◌, Option, none, some, ltb,
  ◌==◌, if◌then◌else◌, Bytes, codes, length, get_or, set, same_text,
}
use luci_app_l850gl_mm.CellLock.Earfcn.{earfcn_to_band}
use luci_app_l850gl_mm.CellLock.Scan.{clean}
use luci_app_l850gl_mm.CellLock.{
  Failure, empty, oversized, malformed, sentinel, range, ParseResult, parse_ok, failed, LockState,
  cleared_state, nvm_max_response, pci_wildcard, clear_frequency,
}
use luci_app_l850gl_mm.Number.{u32_max, parse_uint32}
use luci_app_l850gl_mm.Text.{trim_ascii, split, has_byte}

-- `NVM_FREQUENCY` to `NVM_INTER_FREQUENCY`, and `NVM_FIELD_COUNT`.
abbrev pub frequency : ℕ
frequency = 0

abbrev pub rat : ℕ
rat = 1

abbrev pub psc_or_pci : ℕ
psc_or_pci = 2

abbrev pub band_info : ℕ
band_info = 3

abbrev pub inter_frequency : ℕ
inter_frequency = 4

abbrev pub nvm_field_count : ℕ
nvm_field_count = 5

abbrev pub keys : List Bytes
keys =
    codes "frequency"
    ∷ codes "rat"
    ∷ codes "psc_or_pci"
    ∷ codes "band_info"
    ∷ codes "inter_freq_lock_support"
    ∷ []

-- The search of a key in `keys`, from index `i` on.
find_key : ℕ → List Bytes → Bytes → Option ℕ
find_key i [] key = none
find_key i (k ∷ ks) key = if same_text key k then some i else find_key (suc i) ks key

unfoldable pub key_index : Bytes → Option ℕ
unfolding find_key same_text
key_index = find_key 0 keys

-- The variables of the loop: `values`, `seen` and `parsed_count`.
pub record NvmState : Type 0 where
  pub values : List ℕ
  pub seen : List Bool
  pub parsed_count : ℕ

abbrev pub nvm_start : NvmState
nvm_start = record {
  values = 0 ∷ 0 ∷ 0 ∷ 0 ∷ 0 ∷ [];
  seen = false ∷ false ∷ false ∷ false ∷ false ∷ [];
  parsed_count = 0;
}

-- Exactly one `=` stands in the line: the texts before and behind it.
unfoldable pub key_value : List Bytes → Option (Bytes × Bytes)
key_value (k ∷ v ∷ []) = some (trim_ascii k, trim_ascii v)
key_value _ = none

-- One line that is not blank.
unfoldable pub nvm_current : Bytes → NvmState → Result Failure NvmState
nvm_current line s = do
  (key, value) ← required malformed (key_value (split b'=' line))
  index ← required malformed (key_index key)
  refuse_if (get_or s.seen index true) malformed
  number ← required malformed (parse_uint32 value)
  ok (record {
    values = set s.values index number;
    seen = set s.seen index true;
    parsed_count = s.parsed_count + 1;
  })

nvm_line : Bytes → NvmState → Result Failure NvmState
nvm_line [] s = ok s
nvm_line (c ∷ line) s = nvm_current (c ∷ line) s

unfoldable pub nvm_lines : List Bytes → NvmState → Result Failure NvmState
unfolding nvm_line
nvm_lines [] s = ok s
nvm_lines (line ∷ lines) s = do t ← nvm_line (clean line) s; nvm_lines lines t

-- The five values behind the loop.
pub record NvmValues : Type 0 where
  pub frequency : ℕ
  pub rat : ℕ
  pub pci : ℕ
  pub band_info : ℕ
  pub inter_frequency : ℕ

abbrev pub name_values : List ℕ → NvmValues
name_values values = record {
  frequency = get_or values frequency 0;
  rat = get_or values rat 0;
  pci = get_or values psc_or_pci 0;
  band_info = get_or values band_info 0;
  inter_frequency = get_or values inter_frequency 0;
}

-- The state of a modem whose lock is cleared.
unlocked_state : NvmValues → Result Failure LockState
unlocked_state v =
    if not (v.frequency == clear_frequency)
      || not (v.pci == pci_wildcard)
      || (not (v.rat == 3) && not (v.rat == 255))
      || (not (v.band_info == 0) && not (v.band_info == 255))
    then err malformed
    else ok (record cleared_state { earfcn = clear_frequency; pci = pci_wildcard })

-- What `l850gl_l850_earfcn_to_band` returns, with the tests that follow it.
locked_state : NvmValues → Option ℕ → Result Failure LockState
locked_state v none =
    err (if v.frequency == clear_frequency || v.pci == u32_max then sentinel else range)
locked_state v (some band) =
    if not (v.rat == 3) || (ltb 503 v.pci && not (v.pci == pci_wildcard))
    then err (if v.frequency == clear_frequency || v.pci == u32_max then sentinel else range)
    else if not (v.band_info == 0) && not (v.band_info == 255) && not (v.band_info == band)
    then err range
    else ok (record {
      enabled = true;
      has_pci = not (v.pci % 65536 == pci_wildcard);
      earfcn = v.frequency;
      pci = v.pci % 65536;
      band = band;
    })

unfoldable pub lock_state : NvmValues → Result Failure LockState
unfolding unlocked_state locked_state
lock_state v =
    if ltb pci_wildcard v.pci || ltb 1 v.inter_frequency
    then err range
    else if v.inter_frequency == 0
    then unlocked_state v
    else locked_state v (earfcn_to_band v.frequency)

-- What follows the loop.
unfoldable pub nvm_end : NvmState → Result Failure LockState
nvm_end s =
    if not (s.parsed_count == nvm_field_count)
    then err (if s.parsed_count == 0 then empty else malformed)
    else lock_state (name_values s.values)

-- The label `out`: the state is cleared on every failure.
abbrev pub nvm_out : Result Failure LockState → ParseResult × LockState
nvm_out (err e) = (failed e, cleared_state)
nvm_out (ok state) = (parse_ok, state)

unfoldable pub nvm_parse : Bool → Option Bytes → LockState → ParseResult × LockState
nvm_parse allocated none state = (failed empty, state)
nvm_parse allocated (some response) state =
    if length response == 0
    then (failed empty, state)
    else if ltb nvm_max_response (length response)
    then (failed oversized, state)
    else if not allocated || has_byte 0 response
    then (failed malformed, cleared_state)
    else nvm_out (do s ← nvm_lines (split b'\n' response) nvm_start; nvm_end s)
