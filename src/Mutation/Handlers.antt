-- ===== src/Mutation/Handlers.antt =====
-- The callbacks of the probe, of the set command and of the reset
-- (l850gl-mm-bridge/src/ubus_glib.c). The call of `mm_modem_command_finish` at the head of each is
-- made by the step that runs the callback.
use luci_app_l850gl_mm.Base.{
  ℕ, Bool, true, false, not, ◌&&◌, ◌||◌, Option, none, some, ◌==◌, if◌then◌else◌, Bytes,
}
use luci_app_l850gl_mm.CellLock.Command.{set_response_is_success}
use luci_app_l850gl_mm.CellLock.Nvm.{nvm_parse}
use luci_app_l850gl_mm.CellLock.{cleared_state, ParseResult, parse_ok, failed}
use luci_app_l850gl_mm.Mutation.Finish.{complete_failure}
use luci_app_l850gl_mm.Mutation.Guards.{original_is_valid, error_is_uncertain}
use luci_app_l850gl_mm.Mutation.{Phase, protocol_probe, Operation, World, Outcome}
use luci_app_l850gl_mm.Service.Errors.{normalize_error}
use luci_app_l850gl_mm.Service.Modems.{Surroundings}
use luci_app_l850gl_mm.Service.{
  GError, Code, device_gone, lock_applied_reset_required, outcome_unknown, operation_failed,
  unsupported_protocol, unavailable, malformed_response,
}
use luci_app_l850gl_mm.Verifier.{VerifyStage, ResetFinish, reset_finish_should_reprobe}
use luci_app_l850gl_mm.Mutation.Commands.{
  plain_answer, dispatch_set, start_reprobe, start_nvm_verification,
}

abbrev pub parsed_ok : ParseResult → Bool
parsed_ok parse_ok = true
parsed_ok (failed e) = false

abbrev pub in_probe : Phase → Bool
in_probe protocol_probe = true
in_probe _ = false

unfoldable pub probe_ready :
    Surroundings → World → Operation → ℕ → Option Bytes → Option GError → Outcome
probe_ready s w o source response error =
    if not (in_probe o.phase) || not (original_is_valid s w o source)
    then complete_failure s w o device_gone device_gone false
    else elim (plain_answer response error) [
      | none ↦
          let n = normalize_error s.since_1_24 error o.timed_out o.transport_lost in
          complete_failure s w o n.code n.code n.retryable
      | some text ↦
          if parsed_ok (nvm_parse s.allocated (some text) cleared_state).0
          then dispatch_set s w o
          else complete_failure s w o unsupported_protocol unsupported_protocol false
    ]

abbrev unavailable_as_failed : Code → Code
unavailable_as_failed unavailable = operation_failed
unavailable_as_failed code = code

-- The original is the modem that the command was sent to; it is not attested here.
abbrev pub original_is_same : World → Operation → ℕ → Bool
original_is_same w o source =
    let m = w.modems o.original in
    m.live && source == m.modem && m.generation == o.original_generation

unfoldable pub set_ready :
    Surroundings → World → Operation → ℕ → Option Bytes → Option GError → Outcome
set_ready s w o source response error =
    if error_is_uncertain o error || not (original_is_same w o source)
    then complete_failure s w o outcome_unknown outcome_unknown false
    else elim (plain_answer response error) [
      | none ↦
          let n = normalize_error s.since_1_24 error false false in
          complete_failure s w o n.code (unavailable_as_failed n.code) n.retryable
      | some text ↦
          if set_response_is_success (some text)
          then start_nvm_verification s w (record o { configuration_acknowledged = true })
              VerifyStage.pre_reset
          else complete_failure s w o malformed_response malformed_response false
    ]

-- How the reset command ended.
abbrev pub finish_of : Surroundings → Operation → Option GError → ResetFinish
finish_of s o none = ResetFinish.clean
finish_of s o (some error) =
    if error_is_uncertain o (some error)
    then ResetFinish.uncertain
    else elim (normalize_error s.since_1_24 (some error) false false).code [
      | unavailable ↦ ResetFinish.unclassified_failure
      | _ ↦ ResetFinish.definite_failure
    ]

-- `normalized.code`, which keeps its first value when the error is not normalized.
abbrev reset_code : Surroundings → Operation → Option GError → Code
reset_code s o none = operation_failed
reset_code s o (some error) =
    if error_is_uncertain o (some error)
    then operation_failed
    else (normalize_error s.since_1_24 (some error) false false).code

-- The answer to the reset is not read.
unfoldable pub reset_ready :
    Surroundings → World → Operation → ℕ → Option Bytes → Option GError → Outcome
reset_ready s w o source response error =
    if o.timed_out || o.transport_lost
    then complete_failure s w o outcome_unknown outcome_unknown false
    else if reset_finish_should_reprobe (finish_of s o error)
    then start_reprobe s w o
    else complete_failure s w o lock_applied_reset_required (reset_code s o error) false
