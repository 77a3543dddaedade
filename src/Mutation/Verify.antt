-- ===== src/Mutation/Verify.antt =====
-- The callbacks that verify a mutation (l850gl-mm-bridge/src/ubus_glib.c): the reads of the lock
-- state before and after the reset, and the measurement of the serving cell.
use luci_app_l850gl_mm.Base.{
  ℕ, ◌+◌, ◌*◌, Bool, true, false, not, ◌&&◌, ◌||◌, [], ◌∷◌, Option, none, some, leb, ◌==◌,
  if◌then◌else◌, Bytes, codes,
}
use luci_app_l850gl_mm.CellLock.Command.{scan_command, lock_state_matches}
use luci_app_l850gl_mm.CellLock.Nvm.{nvm_parse}
use luci_app_l850gl_mm.CellLock.Scan.{cell_parse}
use luci_app_l850gl_mm.CellLock.{
  Cell, CellScan, LockState, cleared_state, ParseResult, parse_ok, failed,
}
use luci_app_l850gl_mm.Mutation.Finish.{
  response_modem, change_modem, complete_failure, complete_success,
}
use luci_app_l850gl_mm.Mutation.Guards.{original_is_valid, replacement_is_valid, error_is_uncertain}
use luci_app_l850gl_mm.Mutation.{
  MutationType, mutation_set, mutation_clear, Phase, pre_reset_nvm_verify, Operation, World,
  Outcome, waiting, nvm_verify, on_cell,
}
use luci_app_l850gl_mm.Base.Int.{ℤ, pos, negsuc}
use luci_app_l850gl_mm.Service.Modems.{
  Modem, Surroundings, lte_band_is_supported, serving_cell_cache_store, tenths,
}
use luci_app_l850gl_mm.Service.{
  GError, lock_applied_reset_required, outcome_unknown, verification_mismatch, malformed_response,
}
use luci_app_l850gl_mm.Verifier.{
  Observation, Decision, fail_invalid, retry, ready, verifier_observe,
}
use luci_app_l850gl_mm.Mutation.Commands.{
  plain_answer, ask, start_reset, command_timeout_seconds, nvm_verify_poll_ms,
}

-- `pre_reset ? before : after`.
abbrev pub by_phase {ℓ} : {A : Type ℓ} → Phase → A → A → A
by_phase pre_reset_nvm_verify before after = before
by_phase _ before after = after

abbrev pub in_nvm_phase : Phase → Bool
in_nvm_phase pre_reset_nvm_verify = true
in_nvm_phase nvm_verify = true
in_nvm_phase _ = false

abbrev pub modem_still_valid : Surroundings → World → Operation → ℕ → Bool
modem_still_valid s w o source =
    by_phase o.phase (original_is_valid s w o source) (replacement_is_valid s w o source)

abbrev pub is_clear : MutationType → Bool
is_clear mutation_clear = true
is_clear mutation_set = false

-- Whether a read lock state is the one that the operation asked for.
abbrev pub state_matches : Operation → LockState → Bool
state_matches o state = lock_state_matches (some state) (is_clear o.type) o.earfcn o.has_pci o.pci

abbrev pub observation : Bool → Observation
observation true = Observation.match_observed
observation false = Observation.mismatch

-- What follows a verified read after the reset.
unfoldable pub nvm_confirmed : Surroundings → World → Operation → MutationType → Outcome
nvm_confirmed s w o mutation_clear = complete_success s w o none
nvm_confirmed s w o mutation_set =
    ask w (record o { phase = Phase.cell_verify }) (response_modem o) scan_command
      command_timeout_seconds on_cell

-- What follows a verified read.
unfoldable pub nvm_verified : Surroundings → World → Operation → Phase → Outcome
unfolding nvm_confirmed
nvm_verified s w o pre_reset_nvm_verify = start_reset s w o
nvm_verified s w o _ = nvm_confirmed s w o o.type

-- `operation->verification_stage = NULL`.
abbrev pub stage_done : Operation → Operation
stage_done o = record o { verification_stage = none }

-- The part behind the verifier, with its decision.
unfoldable pub nvm_decided : Surroundings → World → Operation → Decision → Outcome
nvm_decided s w o decision =
    let fail = by_phase o.phase lock_applied_reset_required verification_mismatch in
    elim decision [
      | fail_invalid ↦ complete_failure s w o fail malformed_response false
      | retry ↦
          if leb o.phase_deadline s.now
          then complete_failure s w o fail verification_mismatch false
          else (w, waiting (record o { poll_source = some nvm_verify_poll_ms }))
      | ready ↦
          if leb o.phase_deadline s.now
          then complete_failure s w o fail verification_mismatch false
          else nvm_verified s w (stage_done o) o.phase
    ]

abbrev pub observed : Operation → Observation → Decision × Operation
observed o seen =
    let answer = verifier_observe o.nvm_verifier seen in
    (answer.0, record o { nvm_verifier = answer.1 })

-- The part behind the first test, with the answer of the parser.
unfoldable pub nvm_read : Surroundings → World → Operation → ParseResult × LockState → Outcome
nvm_read s w o (parse_ok, state) =
    let seen = observed o (observation (state_matches o state)) in nvm_decided s w seen.1 seen.0
nvm_read s w o (failed e, state) =
    complete_failure s w (observed o Observation.invalid).1
      (by_phase o.phase lock_applied_reset_required verification_mismatch) malformed_response false

-- The first tests of `l850_mutation_nvm_ready`.
abbrev pub nvm_is_lost : Surroundings → World → Operation → ℕ → Option GError → Bool
nvm_is_lost s w o source error =
    not (in_nvm_phase o.phase) || not (modem_still_valid s w o source) || error_is_uncertain o error

unfoldable pub nvm_ready :
    Surroundings → World → Operation → ℕ → Option Bytes → Option GError → Outcome
nvm_ready s w o source response error =
    let fail =
      complete_failure s w o (by_phase o.phase lock_applied_reset_required outcome_unknown)
        outcome_unknown false in
    if nvm_is_lost s w o source error then fail else elim (plain_answer response error) [
      | none ↦ fail
      | some text ↦ nvm_read s w o (nvm_parse s.allocated (some text) cleared_state)
    ]

-- The last serving cell of a scan, when every band of the scan is supported.
unfoldable pub serving_of : Surroundings → Modem → CellScan → Option Cell → Option (Option Cell)
serving_of s m [] serving = some serving
serving_of s m (c ∷ cells) serving =
    let rest = serving_of s m cells (if c.serving then some c else serving) in
    if lte_band_is_supported s m c.band then rest else none

-- Whether the serving cell is the one that the operation asked for.
abbrev pub is_requested : Operation → Cell → Bool
is_requested o c = c.earfcn == o.earfcn && not (o.has_pci && not (c.pci == o.pci))

-- The cell that the loop and the test behind it let through.
abbrev pub requested_cell : Operation → Option (Option Cell) → Option Cell
requested_cell o none = none
requested_cell o (some none) = none
requested_cell o (some (some c)) = if is_requested o c then some c else none

abbrev pub scan_of : ParseResult × CellScan → Option CellScan
scan_of (parse_ok, cells) = some cells
scan_of (failed e, cells) = none

-- The requested cell of a scan by a modem.
abbrev pub measured_of : Surroundings → Operation → Modem → Option CellScan → Option Cell
measured_of s o m none = none
measured_of s o m (some cells) = requested_cell o (serving_of s m cells none)

-- The cell of an answer that is the requested one.
unfoldable pub measured_cell : Surroundings → Operation → Modem → Bytes → Option Cell
unfolding serving_of
measured_cell s o m text = measured_of s o m (scan_of (cell_parse s.allocated (some text) []))

abbrev expert_postcondition : Bytes
expert_postcondition = codes "expert-postcondition"

-- A level in whole units, in tenths of its unit.
abbrev times_ten : ℤ → ℤ
times_ten (pos n) = pos (n * 10)
times_ten (negsuc n) = negsuc (n * 10 + 9)

abbrev stored : Surroundings → Modem → Cell → Option Modem
stored s m c =
    serving_cell_cache_store s m c.earfcn c.pci c.band (tenths (times_ten c.rsrp_dbm)) true
      (tenths c.rsrq_tenths_db) true expert_postcondition

-- The cell is kept in the cache of the replacement.
unfoldable pub cell_measured : Surroundings → World → Operation → ℕ → Cell → Outcome
cell_measured s w o address c = elim (stored s (w.modems address) c) [
  | none ↦ complete_failure s w o verification_mismatch verification_mismatch false
  | some m ↦
      complete_success s (record w { modems = change_modem address (λ _. m) w.modems }) o (some c)
]

unfoldable pub cell_ready :
    Surroundings → World → Operation → ℕ → Option Bytes → Option GError → Outcome
cell_ready s w o source response error =
    let fail = complete_failure s w o outcome_unknown outcome_unknown false in
    let address = response_modem o in
    if not (replacement_is_valid s w o source) || error_is_uncertain o error
    then fail
    else elim (plain_answer response error) [
      | none ↦ fail
      | some text ↦ elim (measured_cell s o (w.modems address) text) [
        | none ↦ complete_failure s w o verification_mismatch verification_mismatch false
        | some c ↦ cell_measured s w o address c
      ]
    ]
