-- ===== src/Mutation/Poll.antt =====
-- `l850_mutation_poll` (l850gl-mm-bridge/src/ubus_glib.c): what the timer of a mutation does, while
-- a lock state is to be read again, while the modem is awaited after the reset, and while it
-- registers. A source is removed when the poll source of the operation is set anew or is none.
use luci_app_l850gl_mm.Base.{ℕ, ◌+◌, ◌*◌, true, false, not, ◌||◌, none, some, leb, if◌then◌else◌}
use luci_app_l850gl_mm.Mutation.Commands.{start_nvm_command, start_nvm_verification, modem_of_phase}
use luci_app_l850gl_mm.Mutation.Finish.{change_modem, complete_failure}
use luci_app_l850gl_mm.Mutation.Guards.{
  nothing_found, ambiguous, match_found, find_replacement, is_registered, replacement_is_valid,
}
use luci_app_l850gl_mm.Mutation.Verify.{by_phase, modem_still_valid}
use luci_app_l850gl_mm.Mutation.{
  Phase, pre_reset_nvm_verify, reprobe, registration, nvm_verify, Operation, World, Outcome,
  waiting, Code,
}
use luci_app_l850gl_mm.Service.{
  Code, lock_applied_reset_required, verification_mismatch, outcome_unknown, reprobe_timeout,
  registration_timeout, busy,
}
use luci_app_l850gl_mm.Service.Modems.{Modem, MutationKind, Surroundings}
use luci_app_l850gl_mm.Verifier.{VerifyStage}

abbrev pub registration_timeout_seconds : ℕ
registration_timeout_seconds = 60

abbrev pub registration_poll_ms : ℕ
registration_poll_ms = 1000

-- `operation->poll_source = 0U`.
abbrev pub no_poll : Operation → Operation
no_poll o = record o { poll_source = none }

abbrev fail : Surroundings → World → Operation → Code → Code → Outcome
fail s w o state code = complete_failure s w (no_poll o) state code false

-- The proxy of the modem that a command of the phase goes to.
abbrev pub proxy_of_phase : World → Operation → ℕ
proxy_of_phase w o = (w.modems (modem_of_phase o)).modem

-- The branch of the two phases that read the lock state.
unfoldable pub poll_nvm : Surroundings → World → Operation → Outcome
poll_nvm s w o =
    if leb o.phase_deadline s.now
    then fail s w o (by_phase o.phase lock_applied_reset_required verification_mismatch)
        verification_mismatch
    else if not (modem_still_valid s w o (proxy_of_phase w o))
    then fail s w o (by_phase o.phase lock_applied_reset_required outcome_unknown) outcome_unknown
    else start_nvm_command w (no_poll o)

-- The modem is taken for the mutation.
abbrev pub take_modem : Modem → Modem
take_modem m = record m { mutation_busy = true; mutation_kind = MutationKind.mutation_l850 }

abbrev pub taken : Surroundings → World → Operation → ℕ → Operation
taken s w o address = record o {
  replacement = some address;
  replacement_generation = (w.modems address).generation;
  phase = Phase.registration;
  phase_deadline = s.now + registration_timeout_seconds * 1000000;
  poll_source = none;
}

-- The replacement is found and not busy.
unfoldable pub take_replacement : Surroundings → World → Operation → ℕ → Outcome
take_replacement s w o address =
    let v = record w { modems = change_modem address take_modem w.modems } in
    let next = taken s w o address in
    if is_registered (s.state_of (w.modems address).modem)
    then start_nvm_verification s v next VerifyStage.post_reset
    else (v, waiting (record next { poll_source = some registration_poll_ms }))

unfoldable pub poll_reprobe : Surroundings → World → Operation → Outcome
poll_reprobe s w o = elim (find_replacement s w o) [
  | ambiguous ↦ fail s w o verification_mismatch verification_mismatch
  | match_found address ↦
      if (w.modems address).mutation_busy
      then fail s w o outcome_unknown busy
      else take_replacement s w o address
  | nothing_found ↦
      if leb o.phase_deadline s.now
      then fail s w o reprobe_timeout reprobe_timeout
      else (w, waiting o)
]

unfoldable pub poll_registration : Surroundings → World → Operation → Outcome
poll_registration s w o =
    if not (replacement_is_valid s w o (proxy_of_phase w o))
    then fail s w o outcome_unknown outcome_unknown
    else if is_registered (s.state_of (proxy_of_phase w o))
    then start_nvm_verification s w (no_poll o) VerifyStage.post_reset
    else if leb o.phase_deadline s.now
    then fail s w o registration_timeout registration_timeout
    else (w, waiting o)

unfoldable pub poll_phase : Surroundings → World → Operation → Phase → Outcome
poll_phase s w o pre_reset_nvm_verify = poll_nvm s w o
poll_phase s w o nvm_verify = poll_nvm s w o
poll_phase s w o reprobe = poll_reprobe s w o
poll_phase s w o registration = poll_registration s w o
poll_phase s w o _ = fail s w o outcome_unknown outcome_unknown

unfoldable pub poll : Surroundings → World → Operation → Outcome
unfolding poll_phase
poll s w o =
    if o.timed_out || o.transport_lost || w.stopping
    then fail s w o (by_phase o.phase lock_applied_reset_required outcome_unknown) outcome_unknown
    else poll_phase s w o o.phase
