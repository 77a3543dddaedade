-- ===== src/Mutation/Kept.antt =====
-- How the state of a mutation (l850gl-mm-bridge/src/ubus_glib.c) reflects its conversation with the
-- modems, and that the ends of the handlers keep to it.
pub mod Start
pub mod Reads
pub mod Answers
pub mod Cells
pub mod Polls
pub mod Steps
pub mod Endings
use luci_app_l850gl_mm.CellLock.{Cell}
use luci_app_l850gl_mm.Base.{
  ℕ, Bool, true, false, List, [], ◌∷◌, Option, none, some, ◌≡◌, refl, ◌⊎◌, inl, inr, Bytes,
}
use luci_app_l850gl_mm.Mutation.Commands.{nvm_verify_poll_ms}
use luci_app_l850gl_mm.Mutation.Finish.{
  complete_failure, complete_success, complete_buffer, success_state,
}
use luci_app_l850gl_mm.Mutation.Grammar.{
  Point, probing, setting, checking, paused, restarting, awaiting, registering, confirming,
  repeating, measuring, verified, Talk,
}
use luci_app_l850gl_mm.Mutation.{
  Phase, Callback, Request, Operation, World, Entry, answered, Success, Reply, success, failure,
  Status, waiting, finished, Outcome,
}
use luci_app_l850gl_mm.Service.Modems.{Surroundings}
use luci_app_l850gl_mm.Service.{
  Code, GError, lock_applied_reset_required, verification_mismatch, outcome_unknown,
  applied_verified, cleared_verified, reprobe_timeout, registration_timeout,
}
use luci_app_l850gl_mm.Verifier.{VerifyStage, Verifier}

-- The operation of a command that is pending.
abbrev pub Asks : Operation → Phase → Callback → Type 0
Asks o phase callback = (o.phase ≡ phase) × (o.callback ≡ some callback) × (o.poll_source ≡ none)

-- The operation of a phase that waits for its timer.
abbrev pub Waits : Operation → Phase → Type 0
Waits o phase = (o.phase ≡ phase) × (o.callback ≡ none)

abbrev pub counting : VerifyStage → ℕ → Verifier
counting stage n = record { stage = stage; consecutive_matches = n }

-- What the fields of the operation are at a point of the conversation.
abbrev pub Places : Operation → Point → Type 0
Places o probing = Asks o Phase.protocol_probe Callback.on_probe
Places o setting = Asks o Phase.set_command Callback.on_set
Places o (checking n) =
    Asks o Phase.pre_reset_nvm_verify Callback.on_nvm
    × (o.nvm_verifier ≡ counting VerifyStage.pre_reset n)
Places o (paused n) =
    Waits o Phase.pre_reset_nvm_verify × (o.nvm_verifier ≡ counting VerifyStage.pre_reset n)
Places o restarting = Asks o Phase.reset_command Callback.on_reset
Places o awaiting = Waits o Phase.reprobe
Places o (registering address) = Waits o Phase.registration × (o.replacement ≡ some address)
Places o (confirming address) =
    Asks o Phase.nvm_verify Callback.on_nvm
    × (o.nvm_verifier ≡ counting VerifyStage.post_reset 0)
    × (o.replacement ≡ some address)
Places o (repeating address) =
    Waits o Phase.nvm_verify
    × (o.nvm_verifier ≡ counting VerifyStage.post_reset 0)
    × (o.replacement ≡ some address)
Places o (measuring address) =
    Asks o Phase.cell_verify Callback.on_cell × (o.replacement ≡ some address)
Places o (verified address) = ⊥

-- A state that names no stage that follows the acknowledgement.
abbrev pub is_early : Code → Bool
is_early lock_applied_reset_required = false
is_early applied_verified = false
is_early cleared_verified = false
is_early reprobe_timeout = false
is_early registration_timeout = false
is_early verification_mismatch = false
is_early _ = true

abbrev is_mismatch_or_unknown : Code → Bool
is_mismatch_or_unknown verification_mismatch = true
is_mismatch_or_unknown outcome_unknown = true
is_mismatch_or_unknown _ = false

-- The states that a failure at a point may be reported with.
abbrev pub may_end : Point → Code → Bool
may_end probing state = is_early state
may_end setting state = is_early state
may_end (checking n) lock_applied_reset_required = true
may_end (checking n) _ = false
may_end (paused n) lock_applied_reset_required = true
may_end (paused n) _ = false
may_end restarting lock_applied_reset_required = true
may_end restarting outcome_unknown = true
may_end restarting _ = false
may_end awaiting reprobe_timeout = true
may_end awaiting state = is_mismatch_or_unknown state
may_end (registering address) registration_timeout = true
may_end (registering address) outcome_unknown = true
may_end (registering address) _ = false
may_end (confirming address) state = is_mismatch_or_unknown state
may_end (repeating address) state = is_mismatch_or_unknown state
may_end (measuring address) state = is_mismatch_or_unknown state
may_end (verified address) _ = false

-- A conversation that has come to a point of the grammar, but for an answer at its end that ended the
-- operation, which was reported with a state that fits the point.
abbrev pub Spoken : Request → Point → List Entry → Code → Type 0
Spoken request point conversation state =
    (talk : List Entry) × Talk request point talk
    × (may_end point state ≡ true)
    × ((conversation ≡ talk)
        ⊎ ((source : ℕ) × (response : Option Bytes) × (error : Option GError) × (conversation
              ≡ answered source response error ∷ talk)))

-- What holds of an operation and its conversation after an event at a point.
unfoldable pub Kept : Request → Point → Outcome → Type 0
Kept request before (w, waiting o) =
    (o.request ≡ request) × (point : Point) × Places o point × Talk request point w.conversation
Kept request before (w, finished (success r) sent) =
    (address : ℕ) × (r.response_modem ≡ some address)
    × (r.operation ≡ request.type)
    × (r.state ≡ success_state request.type)
    × Talk request (verified address) w.conversation
Kept request before (w, finished (failure f) sent) = Spoken request before w.conversation f.state

-- A failure after an answer.
pub failed-Kept :
    (request : Request) (s : Surroundings) (w : World) (o : Operation) (state code : Code)
    (retryable : Bool) {point : Point} {talk : List Entry} {source : ℕ} {response : Option Bytes}
    {error : Option GError}
    → Talk request point talk
    → may_end point state ≡ true
    → w.conversation ≡ answered source response error ∷ talk
    → Kept request point (complete_failure s w o state code retryable)
unfolding Kept complete_failure complete_buffer
failed-Kept request s w o state code retryable {source = source} {response} {error} t m e =
    (_, t, m, inr (source, response, error, e))

-- A failure of the timer.
pub stopped-Kept :
    (request : Request) (s : Surroundings) (w : World) (o : Operation) (state code : Code)
    (retryable : Bool) {point : Point}
    → Talk request point w.conversation
    → may_end point state ≡ true
    → Kept request point (complete_failure s w o state code retryable)
unfolding Kept complete_failure complete_buffer
stopped-Kept request s w o state code retryable t m = (_, t, m, inl refl)

pub succeeded-Kept :
    (s : Surroundings) (w : World) (o : Operation) (serving : Option Cell) (before : Point)
    {address : ℕ}
    → o.replacement ≡ some address
    → Talk o.request (verified address) w.conversation
    → Kept o.request before (complete_success s w o serving)
unfolding Kept complete_success complete_buffer
succeeded-Kept s w o serving before {address} e t = (address, e, refl, refl, t)

-- The operation goes on.
pub goes_on :
    (request : Request) (w : World) (o : Operation) (before point : Point)
    → o.request ≡ request
    → Places o point
    → Talk request point w.conversation
    → Kept request before (w, waiting o)
unfolding Kept
goes_on request w o before point e placed t = (e, point, placed, t)
