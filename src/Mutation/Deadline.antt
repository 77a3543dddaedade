-- ===== src/Mutation/Deadline.antt =====
-- The deadlines of the phases of a mutation (l850gl-mm-bridge/src/ubus_glib.c).
use luci_app_l850gl_mm.Base.{ℕ, ◌≤◌, ◌<◌, Bool, true, not, ◌||◌, ◌≡◌, refl, leb, arith, if_holds}
use luci_app_l850gl_mm.Mutation.Commands.{start_nvm_command, start_nvm_verification}
use luci_app_l850gl_mm.Mutation.Finish.{complete_failure, complete_buffer}
use luci_app_l850gl_mm.Mutation.Guards.{
  Search, nothing_found, ambiguous, match_found, find_replacement, is_registered,
  replacement_is_valid,
}
use luci_app_l850gl_mm.Mutation.Poll.{
  poll, poll_phase, poll_nvm, poll_reprobe, poll_registration, take_replacement, proxy_of_phase,
}
use luci_app_l850gl_mm.Mutation.{
  Phase, protocol_probe, set_command, pre_reset_nvm_verify, reset_command, reprobe, registration,
  nvm_verify, cell_verify, Operation, World, waiting, finished, Outcome,
}
use luci_app_l850gl_mm.Service.Modems.{Surroundings}
use luci_app_l850gl_mm.Service.{Code}

-- The order of the phases.
abbrev pub rank : Phase → ℕ
rank protocol_probe = 0
rank set_command = 1
rank pre_reset_nvm_verify = 2
rank reset_command = 3
rank reprobe = 4
rank registration = 5
rank nvm_verify = 6
rank cell_verify = 7

-- The operation is completed, or has gone on to a later phase.
unfoldable pub Advanced : Phase → Outcome → Type 0
Advanced phase (w, waiting o) = rank phase < rank o.phase
Advanced phase (w, finished reply sent) = Unit {0}

failed-Advanced :
    (phase : Phase) (s : Surroundings) (w : World) (o : Operation) (state code : Code)
    (retryable : Bool)
    → Advanced phase (complete_failure s w o state code retryable)
unfolding Advanced complete_failure complete_buffer
failed-Advanced phase s w o state code retryable = tt

poll_nvm-Advanced :
    (phase : Phase) (s : Surroundings) (w : World) (o : Operation)
    → leb o.phase_deadline s.now ≡ true
    → Advanced phase (poll_nvm s w o)
unfolding poll_nvm
poll_nvm-Advanced phase s w o late = rw late (failed-Advanced phase s w _ _ _ _)

poll_reprobe-Advanced :
    (s : Surroundings) (w : World) (o : Operation) (found : Search)
    → leb o.phase_deadline s.now ≡ true
    → find_replacement s w o ≡ found
    → Advanced reprobe (poll_reprobe s w o)
unfolding poll_reprobe take_replacement start_nvm_verification start_nvm_command Advanced
poll_reprobe-Advanced s w o ambiguous late f =
    rw (f, poll_reprobe) (failed-Advanced reprobe s w _ _ _ _)
poll_reprobe-Advanced s w o nothing_found late f =
    rw (f, poll_reprobe, late) (failed-Advanced reprobe s w _ _ _ _)
poll_reprobe-Advanced s w o (match_found address) late f =
    rw (f, poll_reprobe)
      (if_holds (Advanced reprobe) (w.modems address).mutation_busy
        (λ h. failed-Advanced reprobe s w _ _ _ _)
        (λ h.
          if_holds (Advanced reprobe) (is_registered (s.state_of (w.modems address).modem))
            (λ h. omega arith) (λ h. omega arith)))

poll_registration-Advanced :
    (s : Surroundings) (w : World) (o : Operation)
    → leb o.phase_deadline s.now ≡ true
    → Advanced registration (poll_registration s w o)
unfolding poll_registration start_nvm_verification start_nvm_command Advanced
poll_registration-Advanced s w o late =
    if_holds (Advanced registration) (not (replacement_is_valid s w o (proxy_of_phase w o)))
      (λ h. failed-Advanced registration s w _ _ _ _)
      (λ h.
        if_holds (Advanced registration) (is_registered (s.state_of (proxy_of_phase w o)))
          (λ h. omega arith) (λ h. rw late (failed-Advanced registration s w _ _ _ _)))

poll_phase-Advanced :
    (s : Surroundings) (w : World) (o : Operation) (phase : Phase)
    → leb o.phase_deadline s.now ≡ true
    → Advanced phase (poll_phase s w o phase)
unfolding poll_phase
poll_phase-Advanced s w o pre_reset_nvm_verify late =
    poll_nvm-Advanced pre_reset_nvm_verify s w o late
poll_phase-Advanced s w o nvm_verify late = poll_nvm-Advanced nvm_verify s w o late
poll_phase-Advanced s w o reprobe late = poll_reprobe-Advanced s w o _ late refl
poll_phase-Advanced s w o registration late = poll_registration-Advanced s w o late
poll_phase-Advanced s w o phase late = failed-Advanced phase s w _ _ _ _

-- When the timer of a mutation fires at or after the deadline of its phase, the mutation is completed or
-- goes on to a later phase.
pub poll-Advanced :
    (s : Surroundings) (w : World) (o : Operation)
    → o.phase_deadline ≤ s.now
    → Advanced o.phase (poll s w o)
unfolding poll
poll-Advanced s w o late =
    if_holds (Advanced o.phase) (o.timed_out || o.transport_lost || w.stopping)
      (λ h. failed-Advanced o.phase s w _ _ _ _)
      (λ h. poll_phase-Advanced s w o o.phase (ground (arith, late)))
