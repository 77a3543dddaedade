-- ===== src/Tests/Mutations.antt =====
-- The mutations of Mutation at a concrete modem: number 1 with the proxy 10, which comes back after
-- the reset as number 2 with the proxy 20.
use luci_app_l850gl_mm.Tests.Devices.{any_utf8, one_device, described}
use luci_app_l850gl_mm.Mutation.Target.{attesting}
use luci_app_l850gl_mm.Number.{digit_of}
use luci_app_l850gl_mm.Base.Result.{ok}
use luci_app_l850gl_mm.Number.{digit_of, read_base, parse_uint32}
use luci_app_l850gl_mm.Text.{after_prefix, split, trim_ascii, strip_cr, has_byte}
use luci_app_l850gl_mm.Identity.{token_is_valid}
use luci_app_l850gl_mm.Number.Print.{format_decimal}
use luci_app_l850gl_mm.Radio.{band_name_is_canonical, band_family}
use luci_app_l850gl_mm.CellLock.Nvm.{
  nvm_parse, nvm_lines, nvm_current, nvm_end, key_value, key_index, lock_state,
}
use luci_app_l850gl_mm.Verifier.{verifier_observe}
use luci_app_l850gl_mm.Service.Errors.{
  advanced_error_has_unknown_outcome, remote_error_has_suffix, normalize_error,
}
use luci_app_l850gl_mm.Mutation.Commands.{
  dispatch_set, start_nvm_verification, start_nvm_command, start_reset, start_reprobe,
}
use luci_app_l850gl_mm.Number.Print.{format_decimal}
use luci_app_l850gl_mm.Radio.{band_name_is_canonical, band_family}
use luci_app_l850gl_mm.Service.{unavailable}
use luci_app_l850gl_mm.Mutation.Verify.{
  nvm_ready, nvm_read, nvm_decided, nvm_verified, nvm_confirmed,
}
use luci_app_l850gl_mm.CellLock.Earfcn.{earfcn_to_band}
use luci_app_l850gl_mm.Identity.{token_is_valid}
use luci_app_l850gl_mm.Mutation.Handlers.{probe_ready, set_ready, reset_ready}
use luci_app_l850gl_mm.Mutation.Poll.{poll, poll_phase, poll_nvm, poll_reprobe, take_replacement}
use luci_app_l850gl_mm.Mutation.Search.{only, Qualified, find_replacement-only}
use luci_app_l850gl_mm.Mutation.Guards.{
  find_replacement, search_modems, is_candidate, original_is_valid, replacement_is_valid,
  modem_is_valid, error_is_uncertain,
}
use luci_app_l850gl_mm.Mutation.Admission.{IsAdmitted, method_set_cell_lock-IsAdmitted}
use luci_app_l850gl_mm.Mutation.Deadline.{Advanced, poll-Advanced}
use luci_app_l850gl_mm.Mutation.Methods.{
  Tables, method_set_cell_lock, SetMessage, set_cell_lock, set_request, requested_modem, find_modem,
  is_occupied, has_active_mutation,
}
use luci_app_l850gl_mm.Mutation.Release.{IsModemOf, IsReleased, complete_buffer-IsReleased}
use luci_app_l850gl_mm.Base.{
  ℕ, ◌==◌, true, false, List, [], ◌∷◌, none, some, ◌≡◌, ◌≢◌, refl, if◌then◌else◌, Bytes, codes,
  arith, ◌≤◌, same_text,
}
use luci_app_l850gl_mm.Base.Int.{pos}
use luci_app_l850gl_mm.CellLock.Command.{
  set_success, reset_command, band_is_supported, has_name, build_set_command, set_command_text,
  set_response_is_success, lock_state_matches,
}
use luci_app_l850gl_mm.Mutation.Finish.{
  success_state, complete_buffer, change_modem, release_modems, release_modem, apply_cooldown,
  complete_success, complete_failure,
}
use luci_app_l850gl_mm.Mutation.Grammar.{verified, Talk, change_command}
use luci_app_l850gl_mm.Mutation.Run.{
  Event, answers, polls, launch, run, step, new_operation, happen, answer, fire, call,
}
use luci_app_l850gl_mm.Mutation.Safety.{
  outcome_of, success-verified, Outlined, resets, run-Outlined, resets-once,
}
use luci_app_l850gl_mm.Mutation.{
  mutation_clear, Request, World, Success, success, finished, Outcome, Operation, Failure, reprobe,
  failure,
}
use luci_app_l850gl_mm.Service.Modems.{
  Modem, mutation_none, registered, Surroundings, ServingCell, tenths, lte_band_is_supported,
  snapshot_supported_radio_bands, band_choices, advanced_retry_after_ms, cooldown_remaining_ms,
}

abbrev no_cell : ServingCell
no_cell = record {
  generation = 0;
  earfcn = 0;
  pci = 0;
  band = 0;
  rsrp = tenths (pos 0);
  rsrq = tenths (pos 0);
  has_rsrp = false;
  has_rsrq = false;
  updated_at = 0;
  reason = [];
}

abbrev modem_id : Bytes
modem_id = codes "l850gl-00112233445566778899aabbccddeeff"

abbrev a_modem : ℕ → ℕ → Modem
a_modem generation proxy = record {
  live = true;
  modem_id = modem_id;
  generation = generation;
  modem = proxy;
  mutation_busy = false;
  mutation_kind = mutation_none;
  advanced_cooldown_until = 0;
  l850_voltage_refresh_pending = false;
  serving_cell = no_cell;
  serving_cell_valid = false;
}

abbrev two_modems : ℕ → Modem
two_modems address = if address == 1 then a_modem 1 10 else a_modem 2 20

abbrev usb_port : Bytes
usb_port = codes "1-1"

abbrev around : Surroundings
around = record {
  now = 5;
  physdev_of = λ proxy. some usb_port;
  attests = λ address. true;
  state_of = λ proxy. registered;
  bands_of = λ proxy. some ((33, some (codes "eutran-3")) ∷ []);
  allocated = true;
  since_1_24 = true;
}

abbrev one_world : World
one_world = record {
  modems = two_modems;
  inventory = 1 ∷ 2 ∷ [];
  is_connected = true;
  context_initialized = true;
  stopping = false;
  conversation = [];
}

abbrev to_clear : Request
to_clear = record {
  type = mutation_clear;
  original = 1;
  original_generation = 1;
  physdev = usb_port;
  set_command = [];
  earfcn = 65535;
  has_pci = false;
  pci = 65535;
  band = 0;
}

abbrev nvm_cleared : Bytes
nvm_cleared =
    codes "frequency=65535\nrat=3\npsc_or_pci=65535\nband_info=0\ninter_freq_lock_support=0\n"

abbrev reads : ℕ → Bytes → Surroundings × Event
reads proxy text = (around, answers proxy (some text) none)

abbrev whole_course : List (Surroundings × Event)
whole_course =
    reads 10 nvm_cleared
    ∷ reads 10 set_success
    ∷ reads 10 nvm_cleared
    ∷ (around, polls)
    ∷ reads 10 nvm_cleared
    ∷ (around, answers 10 none none)
    ∷ (around, polls)
    ∷ reads 20 nvm_cleared
    ∷ []

abbrev cleared_reply : Success
cleared_reply = record {
  response_modem = some 2;
  operation = mutation_clear;
  state = success_state mutation_clear;
  cooldown_ms = 60000;
  serving_cell = none;
}

whole_course_done :
    (outcome_of one_world to_clear whole_course).1 ≡ finished (success cleared_reply) true
unfolding run step happen answer fire call launch probe_ready set_ready reset_ready nvm_ready
    nvm_read nvm_decided nvm_verified nvm_confirmed poll poll_phase poll_nvm poll_reprobe
    take_replacement find_replacement search_modems is_candidate original_is_valid
    replacement_is_valid modem_is_valid dispatch_set start_nvm_verification start_nvm_command
    start_reset start_reprobe change_modem release_modems release_modem apply_cooldown
    complete_buffer complete_success complete_failure error_is_uncertain
    advanced_error_has_unknown_outcome remote_error_has_suffix set_response_is_success
    lock_state_matches verifier_observe normalize_error nvm_parse nvm_lines nvm_current nvm_end
    key_value key_index lock_state earfcn_to_band digit_of read_base parse_uint32 split trim_ascii
    strip_cr has_byte same_text
whole_course_done = refl

success-verified_example :
    (address : ℕ) × (some 2 ≡ some address)
    × (mutation_clear ≡ mutation_clear)
    × (success_state mutation_clear ≡ success_state mutation_clear)
    × Talk to_clear (verified address) (outcome_of one_world to_clear whole_course).0.conversation
success-verified_example =
    success-verified one_world to_clear whole_course {r = cleared_reply} refl whole_course_done

run-Outlined_example : Outlined to_clear (outcome_of one_world to_clear whole_course)
run-Outlined_example = run-Outlined one_world to_clear whole_course refl

clear_is_no_reset : change_command to_clear ≢ reset_command
clear_is_no_reset e = ground (arith, e)

resets-once_example : resets (outcome_of one_world to_clear whole_course).0.conversation ≤ 1
resets-once_example = resets-once one_world to_clear whole_course refl clear_is_no_reset

-- The modem answers the probe with nothing.
abbrev silent_course : List (Surroundings × Event)
silent_course = (around, answers 10 none none) ∷ []

abbrev silent_reply : Failure
silent_reply = record {
  response_modem = 1;
  has_replacement = false;
  state = unavailable;
  configuration_acknowledged = false;
  verification_stage = none;
  code = unavailable;
  retryable = false;
}

abbrev awaited : Operation
awaited = record (new_operation to_clear) { phase = reprobe; poll_source = some 500 }

poll-Advanced_example : Advanced reprobe (poll around one_world awaited)
poll-Advanced_example = poll-Advanced around one_world awaited (omega arith)

find_replacement-only_example :
    (found : List ℕ) × Qualified around one_world awaited (1 ∷ 2 ∷ []) found
    × (find_replacement around one_world awaited ≡ only found)
find_replacement-only_example = find_replacement-only around one_world awaited

complete_buffer-IsReleased_example :
    ((address : ℕ)
      → IsModemOf awaited address
      → IsReleased 5 false
          (two_modems address)
          ((complete_buffer around one_world awaited (failure silent_reply)).0.modems address))
    × ((address : ℕ)
        → ¬ IsModemOf awaited address
        → (complete_buffer around one_world awaited (failure silent_reply)).0.modems address
          ≡ two_modems address)
    × ((complete_buffer around one_world awaited (failure silent_reply)).1
        ≡ finished (failure silent_reply) true)
complete_buffer-IsReleased_example =
    complete_buffer-IsReleased around one_world awaited (failure silent_reply)

abbrev to_set : SetMessage
to_set = record {
  modem_id = modem_id;
  generation = 1;
  earfcn = 1325;
  pci = some 381;
  confirm = true;
}

abbrev idle_tables : Tables
idle_tables = record { mutations = []; scans = []; carrier_queries = []; manager_available = true }

abbrev set_text : Bytes
set_text = codes "AT@SIC:FREQ_LOCK(0,3,3,1,1325,381)"

abbrev set_outcome : Outcome
set_outcome = launch one_world (set_request to_set one_world 3 1 set_text usb_port)

set_starts : method_set_cell_lock around one_world idle_tables (some to_set) ≡ ok set_outcome
unfolding method_set_cell_lock set_cell_lock requested_modem find_modem is_occupied
    has_active_mutation token_is_valid earfcn_to_band lte_band_is_supported
    snapshot_supported_radio_bands band_choices band_name_is_canonical band_family band_is_supported
    has_name format_decimal build_set_command set_command_text advanced_retry_after_ms
    cooldown_remaining_ms same_text after_prefix
set_starts = refl

method_set_cell_lock-IsAdmitted_example :
    (request : Request) × IsAdmitted around one_world idle_tables to_set request
    × (set_outcome ≡ launch one_world request)
method_set_cell_lock-IsAdmitted_example =
    method_set_cell_lock-IsAdmitted around one_world idle_tables to_set {outcome = set_outcome}
      set_starts

-- The modem of the set is attested by its device.
abbrev attested_around : Surroundings
attested_around = attesting any_utf8 one_device (λ address. described) one_world around
