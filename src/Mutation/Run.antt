-- ===== src/Mutation/Run.antt =====
-- A mutation from its start to its completion (l850gl-mm-bridge/src/ubus_glib.c): the request that
-- starts it, the events that move it, and what other parts of the daemon do to the modems meanwhile.
use luci_app_l850gl_mm.Base.{
  ℕ, Bool, true, false, List, [], ◌∷◌, Option, none, some, if◌then◌else◌, Bytes,
}
use luci_app_l850gl_mm.CellLock.Command.{nvm_query_command}
use luci_app_l850gl_mm.Mutation.Commands.{ask, heard, idle, nvm_command_timeout_seconds}
use luci_app_l850gl_mm.Mutation.Finish.{change_modem}
use luci_app_l850gl_mm.Mutation.Handlers.{probe_ready, set_ready, reset_ready}
use luci_app_l850gl_mm.Mutation.Poll.{poll}
use luci_app_l850gl_mm.Mutation.Verify.{nvm_ready, cell_ready}
use luci_app_l850gl_mm.Mutation.{
  Callback, on_probe, on_set, on_nvm, on_reset, on_cell, Phase, Request, Operation, World, waiting,
  finished, Outcome,
}
use luci_app_l850gl_mm.Service.Modems.{Modem, MutationKind, Surroundings}
use luci_app_l850gl_mm.Service.{GError}
use luci_app_l850gl_mm.Verifier.{VerifyStage, verifier_init}

-- What the main loop does next: an answer to the pending command with the proxy it came from, the
-- poll timer, the timer of the whole operation, the loss of the ubus connection or its end, and any
-- other handler of the daemon, which leaves these modems and flags.
pub data Event : Type 0 where
  answers : ℕ → Option Bytes → Option GError → Event
  polls : Event
  times_out : Event
  cancels : Bool → Event
  elsewhere : (ℕ → Modem) → List ℕ → Bool → Bool → Bool → Event

-- `l850_mutation_timeout`; cancelling reaches the libraries only.
abbrev pub timeout : Operation → Operation
timeout o = record o { timeout_source = false; timed_out = true }

-- `cancel_l850_mutation_operations`, for one operation of the table.
abbrev pub cancel : Bool → Operation → Operation
cancel lost o = record o { deferred = false; transport_lost = lost }

-- The callback that a command was given.
unfoldable pub call :
    Callback → Surroundings → World → Operation → ℕ → Option Bytes → Option GError → Outcome
call on_probe = probe_ready
call on_set = set_ready
call on_nvm = nvm_ready
call on_reset = reset_ready
call on_cell = cell_ready

abbrev with_modems : World → (ℕ → Modem) → List ℕ → Bool → Bool → Bool → World
with_modems w modems inventory is_connected initialized stopping = record w {
  modems = modems;
  inventory = inventory;
  is_connected = is_connected;
  context_initialized = initialized;
  stopping = stopping;
}

-- An answer, when a command is pending.
unfoldable pub answer :
    Option Callback → Surroundings → World → Operation → ℕ → Option Bytes → Option GError → Outcome
unfolding call
answer none s w o source response error = (w, waiting o)
answer (some callback) s w o source response error =
    call callback s (heard source response error w) (idle o) source response error

-- The poll timer, when it is set.
unfoldable pub fire : Option ℕ → Surroundings → World → Operation → Outcome
fire none s w o = (w, waiting o)
fire (some ms) s w o = poll s w o

-- An event of an operation in the table; one whose source is not there does not happen.
unfoldable pub happen : Surroundings → Event → World → Operation → Outcome
unfolding answer fire
happen s (answers source response error) w o = answer o.callback s w o source response error
happen s polls w o = fire o.poll_source s w o
happen s times_out w o = (w, waiting (if o.timeout_source then timeout o else o))
happen s (cancels lost) w o = (w, waiting (cancel lost o))
happen s (elsewhere modems inventory up initialized stopping) w o =
    (with_modems w modems inventory up initialized stopping, waiting o)

-- After the completion nothing is left of the operation.
unfoldable pub step : Surroundings → Event → Outcome → Outcome
unfolding happen
step s event (w, waiting o) = happen s event w o
step s event (w, finished reply sent) = (w, finished reply sent)

unfoldable pub run : List (Surroundings × Event) → Outcome → Outcome
run [] outcome = outcome
run ((s, event) ∷ events) outcome = run events (step s event outcome)

-- The operation of `l850_mutation_operation_new`.
abbrev pub new_operation : Request → Operation
new_operation request = record {
  request = request;
  phase = Phase.protocol_probe;
  replacement = none;
  replacement_generation = 0;
  timeout_source = true;
  poll_source = none;
  phase_deadline = 0;
  nvm_verifier = verifier_init VerifyStage.pre_reset;
  verification_stage = none;
  timed_out = false;
  transport_lost = false;
  deferred = true;
  callback = none;
  command_pending = false;
  set_dispatched = false;
  configuration_acknowledged = false;
  reset_dispatched = false;
}

abbrev mark_busy : Modem → Modem
mark_busy m = record m { mutation_busy = true; mutation_kind = MutationKind.mutation_l850 }

-- The part of `l850_mutation_start` behind `l850_mutation_operation_new`, whose last lines mark the
-- modem.
unfoldable pub launch : World → Request → Outcome
launch w request =
    ask (record w { modems = change_modem request.original mark_busy w.modems })
      (new_operation request) request.original nvm_query_command nvm_command_timeout_seconds
      on_probe
