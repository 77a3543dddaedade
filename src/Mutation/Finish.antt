-- ===== src/Mutation/Finish.antt =====
-- How a mutation is completed (l850gl-mm-bridge/src/ubus_glib.c): the replies, and the release of
-- the modems with their cooldown.
use luci_app_l850gl_mm.Base.{
  ℕ, ◌+◌, ◌*◌, Bool, true, false, not, ◌&&◌, Option, none, some, ltb, ◌==◌, if◌then◌else◌,
}
use luci_app_l850gl_mm.CellLock.{Cell}
use luci_app_l850gl_mm.Mutation.{
  MutationType, mutation_set, mutation_clear, Operation, World, Measured, Reply, Outcome, finished,
  success, failure,
}
use luci_app_l850gl_mm.Service.Modems.{Modem, MutationKind, mutation_l850, Surroundings}
use luci_app_l850gl_mm.Service.{Code, cleared_verified, applied_verified}

abbrev pub post_mutation_cooldown_seconds : ℕ
post_mutation_cooldown_seconds = 60

abbrev max_of : ℕ → ℕ → ℕ
max_of a b = if ltb a b then b else a

unfoldable pub apply_cooldown : ℕ → Modem → Modem
apply_cooldown now m = record m {
  advanced_cooldown_until =
      max_of m.advanced_cooldown_until (now + post_mutation_cooldown_seconds * 1000000);
}

-- The part of the release that follows the cooldown.
abbrev clear_mutation : Modem → Modem
clear_mutation m = elim m.mutation_kind [
  | mutation_l850 ↦ record m { mutation_busy = false; mutation_kind = MutationKind.mutation_none }
  | _ ↦ m
]

unfoldable pub release_modem : ℕ → Bool → Modem → Modem
unfolding apply_cooldown
release_modem now cooldown m = clear_mutation (if cooldown then apply_cooldown now m else m)

-- A change of the modem at an address.
unfoldable pub change_modem : ℕ → (Modem → Modem) → (ℕ → Modem) → ℕ → Modem
change_modem address change modems other =
    if other == address then change (modems other) else modems other

-- The releases of `l850_mutation_operation_free`, which also takes the operation and its sources
-- out of the tables.
unfoldable pub release_modems : Surroundings → Operation → (ℕ → Modem) → ℕ → Modem
unfolding change_modem release_modem
release_modems s o modems =
    let release = release_modem s.now o.set_dispatched in
    elim o.replacement [
      | none ↦ change_modem o.original release modems
      | some address ↦
          if o.original == address
          then change_modem address release modems
          else change_modem o.original release (change_modem address release modems)
    ]

-- `l850_mutation_complete_buffer`.
unfoldable pub complete_buffer : Surroundings → World → Operation → Reply → Outcome
unfolding release_modems
complete_buffer s w o reply = (
  record w { modems = release_modems s o w.modems },
  finished reply (o.deferred && w.is_connected && w.context_initialized && not w.stopping),
)

-- `l850_mutation_response_modem`.
abbrev pub response_modem : Operation → ℕ
response_modem o = elim o.replacement [ none ↦ o.original | some address ↦ address ]

abbrev pub is_some : Option ℕ → Bool
is_some none = false
is_some (some address) = true

unfoldable pub complete_failure : Surroundings → World → Operation → Code → Code → Bool → Outcome
unfolding complete_buffer
complete_failure s w o state code retryable = complete_buffer s w o (
    failure (record {
      response_modem = response_modem o;
      has_replacement = is_some o.replacement;
      state = state;
      configuration_acknowledged = o.configuration_acknowledged;
      verification_stage = o.verification_stage;
      code = code;
      retryable = retryable;
    }))

abbrev pub success_state : MutationType → Code
success_state mutation_clear = cleared_verified
success_state mutation_set = applied_verified

-- `operation->type == L850_MUTATION_SET && serving != NULL`.
abbrev measured : MutationType → Option Cell → Option Measured
measured mutation_set (some c) = some (record { earfcn = c.earfcn; pci = c.pci; band = c.band })
measured _ _ = none

unfoldable pub complete_success : Surroundings → World → Operation → Option Cell → Outcome
unfolding complete_buffer
complete_success s w o serving = complete_buffer s w o (
    success (record {
      response_modem = o.replacement;
      operation = o.type;
      state = success_state o.type;
      cooldown_ms = post_mutation_cooldown_seconds * 1000;
      serving_cell = measured o.type serving;
    }))
