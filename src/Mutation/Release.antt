-- ===== src/Mutation/Release.antt =====
-- What the completion of a mutation leaves of its modems (l850gl-mm-bridge/src/ubus_glib.c).
use luci_app_l850gl_mm.Base.{
  ℕ, ◌+◌, ◌*◌, ◌≤◌, Bool, true, false, not, ◌&&◌, Option, none, some, ◌≡◌, ◌≢◌, refl, sym, ap, ◌∙◌,
  arith, inl, ◌⊎◌, inr,
}
use luci_app_l850gl_mm.Mutation.Finish.{
  apply_cooldown, change_modem, release_modem, release_modems, complete_buffer,
  post_mutation_cooldown_seconds,
}
use luci_app_l850gl_mm.Mutation.{Operation, World, Reply, finished}
use luci_app_l850gl_mm.Service.Modems.{Modem, MutationKind, Surroundings}

-- What a modem is after its release: free of a cell-lock mutation, and cooling down when the change
-- was sent; another operation on it goes on.
pub record IsReleased (now : ℕ) (dispatched : Bool) (before after : Modem) : Type 0 where
  pub free : after.mutation_kind ≢ MutationKind.mutation_l850
  pub idle : before.mutation_kind ≡ MutationKind.mutation_l850 → after.mutation_busy ≡ false
  pub others :
      before.mutation_kind ≢ MutationKind.mutation_l850
      → (after.mutation_kind ≡ before.mutation_kind) × (after.mutation_busy ≡ before.mutation_busy)
  pub cooling :
      dispatched ≡ true
      → now + post_mutation_cooldown_seconds * 1000000 ≤ after.advanced_cooldown_until
  pub not_cooling :
      dispatched ≡ false → after.advanced_cooldown_until ≡ before.advanced_cooldown_until
  pub no_sooner : before.advanced_cooldown_until ≤ after.advanced_cooldown_until
  pub same_modem :
      (after.live ≡ before.live)
      × (after.generation ≡ before.generation)
      × (after.modem ≡ before.modem)

release_modem-IsReleased :
    (now : ℕ) (dispatched : Bool) (m : Modem)
    → IsReleased now dispatched m (release_modem now dispatched m)
unfolding release_modem apply_cooldown
release_modem-IsReleased now dispatched m = record {
  free = ground arith;
  idle = ground arith;
  others = ground arith;
  cooling = ground arith;
  not_cooling = ground arith;
  no_sooner = ground arith;
  same_modem = ground arith;
}

changed_here :
    (address : ℕ) (change : Modem → Modem) (modems : ℕ → Modem)
    → change_modem address change modems address ≡ change (modems address)
unfolding change_modem
changed_here address change modems = ground arith

changed_elsewhere :
    (address other : ℕ) (change : Modem → Modem) (modems : ℕ → Modem)
    → other ≢ address
    → change_modem address change modems other ≡ modems other
unfolding change_modem
changed_elsewhere address other change modems h = ground arith

-- The modems of an operation.
abbrev pub IsModemOf : Operation → ℕ → Type 0
IsModemOf o address = (address ≡ o.original) ⊎ (o.replacement ≡ some address)

released :
    (s : Surroundings) (w : World) (o : Operation) (reply : Reply) (address : ℕ) (found : Option ℕ)
    → o.replacement ≡ found
    → IsModemOf o address
    → (complete_buffer s w o reply).0.modems address
      ≡ release_modem s.now o.set_dispatched (w.modems address)
unfolding complete_buffer release_modems change_modem
released s w o reply address none e (inl h) = rw e (ground (arith, h))
released s w o reply address none e (inr h) = ground (arith, e, h)
released s w o reply address (some found) e (inl h) = rw e (ground (arith, h))
released s w o reply address (some found) e (inr h) = rw e (ground (arith, e, h))

untouched :
    (s : Surroundings) (w : World) (o : Operation) (reply : Reply) (address : ℕ) (found : Option ℕ)
    → o.replacement ≡ found
    → ¬ IsModemOf o address
    → (complete_buffer s w o reply).0.modems address ≡ w.modems address
unfolding complete_buffer release_modems change_modem
untouched s w o reply address none e h =
    let a : address ≢ o.original = λ x. h (inl x) in rw e (ground (arith, a))
untouched s w o reply address (some found) e h =
    let a : address ≢ o.original = λ x. h (inl x) in
    let b : address ≢ found = λ x. h (inr (e ∙ ap some (sym x))) in rw e (ground (arith, a, b))

-- The completion of a mutation, with whatever reply, frees its modems, starts their cooldown of 60
-- seconds when the change was sent and never shortens one, leaves every other modem as it was, and
-- sends the reply exactly if it was deferred and the service is connected, has its ubus context
-- and is not stopping.
pub complete_buffer-IsReleased :
    (s : Surroundings) (w : World) (o : Operation) (reply : Reply)
    → ((address : ℕ)
        → IsModemOf o address
        → IsReleased s.now o.set_dispatched
            (w.modems address)
            ((complete_buffer s w o reply).0.modems address))
      × ((address : ℕ)
          → ¬ IsModemOf o address
          → (complete_buffer s w o reply).0.modems address ≡ w.modems address)
      × ((complete_buffer s w o reply).1
          ≡ finished reply
              (o.deferred && w.is_connected && w.context_initialized && not w.stopping))
unfolding complete_buffer
complete_buffer-IsReleased s w o reply = (
  λ address h.
      rw (released s w o reply address o.replacement refl h)
        (release_modem-IsReleased s.now o.set_dispatched (w.modems address)),
  λ address h. untouched s w o reply address o.replacement refl h,
  refl,
)
