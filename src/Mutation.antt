-- ===== src/Mutation.antt =====
-- The state of one cell-lock mutation, `L850MutationOperation` of
-- l850gl-mm-bridge/src/ubus_glib.c, with the modems, the AT commands sent and the answers read.
pub mod Guards
pub mod Finish
pub mod Commands
pub mod Handlers
pub mod Verify
pub mod Poll
pub mod Run
pub mod Grammar
pub mod Kept
pub mod Safety
pub mod Release
pub mod Search
pub mod Deadline
pub mod Methods
pub mod Admission
pub mod Advertised
pub mod Tested
pub mod Target
use luci_app_l850gl_mm.Base.{ℕ, Bool, List, Option, Bytes}
use luci_app_l850gl_mm.Service.Modems.{Modem}
use luci_app_l850gl_mm.Service.{Code, GError}
use luci_app_l850gl_mm.Verifier.{Verifier}

-- `L850MutationType`.
pub data MutationType : Type 0 where
  mutation_set mutation_clear : MutationType

-- `L850MutationPhase`.
pub data Phase : Type 0 where
  protocol_probe set_command pre_reset_nvm_verify reset_command : Phase
  reprobe registration nvm_verify cell_verify : Phase

-- The callback that the pending `mm_modem_command` was given.
pub data Callback : Type 0 where
  on_probe on_set on_nvm on_reset on_cell : Callback

-- `operation->verification_stage`, a text or NULL.
pub data Stage : Type 0 where
  pre_reset_nvm post_reset_nvm : Stage

-- What the request asks for: fixed from `l850_mutation_operation_new` on.
pub record Request : Type 0 where
  pub type : MutationType
  pub original : ℕ
  pub original_generation : ℕ
  pub physdev : Bytes
  pub set_command : Bytes
  pub earfcn : ℕ
  pub has_pci : Bool
  pub pci : ℕ
  pub band : ℕ

-- The fields that change. The modems are addresses; a source of the main loop is there or not, the
-- poll source with its interval in milliseconds.
pub record Operation : Type 0 where
  pub request : Request
  pub open request use *
  pub phase : Phase
  pub replacement : Option ℕ
  pub replacement_generation : ℕ
  pub timeout_source : Bool
  pub poll_source : Option ℕ
  pub phase_deadline : ℕ
  pub nvm_verifier : Verifier
  pub verification_stage : Option Stage
  pub timed_out : Bool
  pub transport_lost : Bool
  pub deferred : Bool
  pub callback : Option Callback
  pub command_pending : Bool
  pub set_dispatched : Bool
  pub configuration_acknowledged : Bool
  pub reset_dispatched : Bool

-- One exchange with a modem: a command sent to the modem at an address with its timeout in seconds,
-- or an answer read from a proxy.
pub data Entry : Type 0 where
  asked : ℕ → Bytes → ℕ → Entry
  answered : ℕ → Option Bytes → Option GError → Entry

-- What the handlers share with the rest of the service: the modems by their addresses, the live
-- ones in the order of `l850gl_bridge_snapshot_modems`, the flags of the ubus connection, and the
-- conversation of this mutation with the modems, the newest exchange first.
pub record World : Type 0 where
  pub modems : ℕ → Modem
  pub inventory : List ℕ
  pub is_connected : Bool
  pub context_initialized : Bool
  pub stopping : Bool
  pub conversation : List Entry

-- The serving cell of a reply.
pub record Measured : Type 0 where
  pub earfcn : ℕ
  pub pci : ℕ
  pub band : ℕ

-- The fields of the reply that reports a failure.
pub record Failure : Type 0 where
  pub response_modem : ℕ
  pub has_replacement : Bool
  pub state : Code
  pub configuration_acknowledged : Bool
  pub verification_stage : Option Stage
  pub code : Code
  pub retryable : Bool

-- The fields of the reply that reports a success.
pub record Success : Type 0 where
  pub response_modem : Option ℕ
  pub operation : MutationType
  pub state : Code
  pub cooldown_ms : ℕ
  pub serving_cell : Option Measured

pub data Reply : Type 0 where
  failure : Failure → Reply
  success : Success → Reply

-- An operation still in the table of the service, or what it was completed with and whether the
-- reply was sent.
pub data Status : Type 0 where
  waiting : Operation → Status
  finished : Reply → Bool → Status

-- What a handler leaves.
abbrev pub Outcome : Type 0
Outcome = World × Status
