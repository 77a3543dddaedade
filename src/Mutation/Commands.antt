-- ===== src/Mutation/Commands.antt =====
-- The commands that a mutation sends, and the functions that start a phase
-- (l850gl-mm-bridge/src/ubus_glib.c).
use luci_app_l850gl_mm.Base.{
  ℕ, ◌+◌, ◌*◌, Bool, true, false, not, ◌∷◌, Option, none, some, if◌then◌else◌, Bytes,
}
use luci_app_l850gl_mm.CellLock.Command.{clear_command, reset_command, nvm_query_command}
use luci_app_l850gl_mm.Mutation.Finish.{complete_failure}
use luci_app_l850gl_mm.Mutation.Guards.{original_is_valid}
use luci_app_l850gl_mm.Mutation.{
  mutation_set, mutation_clear, Phase, pre_reset_nvm_verify, Callback, Operation, World, Outcome,
  answered, asked, waiting, pre_reset_nvm, post_reset_nvm, on_reset, on_set, on_nvm,
}
use luci_app_l850gl_mm.Service.Modems.{Surroundings}
use luci_app_l850gl_mm.Service.{GError, device_gone, lock_applied_reset_required}
use luci_app_l850gl_mm.Verifier.{VerifyStage, pre_reset, verifier_init}

abbrev pub command_timeout_seconds : ℕ
command_timeout_seconds = 30

abbrev pub nvm_command_timeout_seconds : ℕ
nvm_command_timeout_seconds = 5

abbrev pub nvm_verify_timeout_seconds : ℕ
nvm_verify_timeout_seconds = 10

abbrev pub nvm_verify_poll_ms : ℕ
nvm_verify_poll_ms = 1000

abbrev pub reprobe_timeout_seconds : ℕ
reprobe_timeout_seconds = 45

abbrev pub reprobe_poll_ms : ℕ
reprobe_poll_ms = 500

-- `mm_modem_command_finish`, and the reset of `command_pending`.
abbrev pub heard : ℕ → Option Bytes → Option GError → World → World
heard source response error w = record w {
  conversation = answered source response error ∷ w.conversation;
}

abbrev pub idle : Operation → Operation
idle o = record o { callback = none; command_pending = false }

-- `mm_modem_command(modem->modem, command, timeout, …, callback, operation)`.
abbrev pub ask : World → Operation → ℕ → Bytes → ℕ → Callback → Outcome
ask w o address command timeout callback = (
  record w { conversation = asked address command timeout ∷ w.conversation },
  waiting (record o { callback = some callback; command_pending = true }),
)

unfoldable pub start_reprobe : Surroundings → World → Operation → Outcome
start_reprobe s w o = (
  w,
  waiting (record o {
    phase = Phase.reprobe;
    phase_deadline = s.now + reprobe_timeout_seconds * 1000000;
    poll_source = some reprobe_poll_ms;
  }),
)

-- The modem that a command of the phase goes to; there is a replacement in every phase but the
-- first three that use one.
abbrev pub modem_of_phase : Operation → ℕ
modem_of_phase o = elim o.phase [
  | pre_reset_nvm_verify ↦ o.original
  | _ ↦ elim o.replacement [ none ↦ o.original | some address ↦ address ]
]

unfoldable pub start_nvm_command : World → Operation → Outcome
start_nvm_command w o =
    ask w o (modem_of_phase o) nvm_query_command nvm_command_timeout_seconds on_nvm

abbrev pub is_pre_reset : VerifyStage → Bool
is_pre_reset pre_reset = true
is_pre_reset _ = false

unfoldable pub start_nvm_verification : Surroundings → World → Operation → VerifyStage → Outcome
unfolding start_nvm_command
start_nvm_verification s w o stage =
    let pre = is_pre_reset stage in
    start_nvm_command w (record o {
      phase = if pre then Phase.pre_reset_nvm_verify else Phase.nvm_verify;
      phase_deadline = s.now + nvm_verify_timeout_seconds * 1000000;
      verification_stage = some (if pre then pre_reset_nvm else post_reset_nvm);
      nvm_verifier = verifier_init stage;
    })

-- The proxy of the original, `G_OBJECT(operation->original->modem)`.
abbrev pub original_proxy : World → Operation → ℕ
original_proxy w o = (w.modems o.original).modem

abbrev command_of : Operation → Bytes
command_of o = elim o.type [ mutation_clear ↦ clear_command | mutation_set ↦ o.set_command ]

unfoldable pub dispatch_set : Surroundings → World → Operation → Outcome
unfolding original_is_valid complete_failure
dispatch_set s w o =
    if not (original_is_valid s w o (original_proxy w o))
    then complete_failure s w o device_gone device_gone false
    else ask w (record o { phase = Phase.set_command; set_dispatched = true }) o.original
        (command_of o) command_timeout_seconds on_set

unfoldable pub start_reset : Surroundings → World → Operation → Outcome
start_reset s w o =
    if not (original_is_valid s w o (original_proxy w o))
    then complete_failure s w o lock_applied_reset_required device_gone false
    else ask w (record o { phase = Phase.reset_command; reset_dispatched = true }) o.original
        reset_command command_timeout_seconds on_reset

-- `error != NULL || response == NULL`.
abbrev pub plain_answer : Option Bytes → Option GError → Option Bytes
plain_answer response none = response
plain_answer response (some error) = none
