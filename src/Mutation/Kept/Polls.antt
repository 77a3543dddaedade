-- ===== src/Mutation/Kept/Polls.antt =====
-- The timer of a mutation (l850gl-mm-bridge/src/ubus_glib.c) keeps to its conversation.
use luci_app_l850gl_mm.Mutation.Finish.{response_modem}
use mathlib.Core.Path.{subst}
use luci_app_l850gl_mm.Base.{
  ℕ, true, not, ◌||◌, List, [], ◌∷◌, Option, none, some, ◌≡◌, ◌≢◌, ◌⊎◌, inl, inr, refl, leb,
  if_holds, Bool-cases, arith,
}
use luci_app_l850gl_mm.Mutation.Commands.{start_nvm_command, start_nvm_verification, modem_of_phase}
use luci_app_l850gl_mm.Mutation.Grammar.{
  Point, paused, checking, awaiting, registering, confirming, repeating, Talk, checked_again, back,
  confirmed, confirmed_again,
}
use luci_app_l850gl_mm.Mutation.Guards.{
  Search, nothing_found, ambiguous, match_found, is_candidate, search_modems, find_replacement,
  is_registered, replacement_is_valid,
}
use luci_app_l850gl_mm.Mutation.Kept.{
  Kept, stopped-Kept, goes_on, counting, may_end, lock_applied_reset_required, outcome_unknown,
}
use luci_app_l850gl_mm.Mutation.Poll.{
  poll, poll_phase, poll_nvm, poll_reprobe, poll_registration, take_replacement, no_poll,
  proxy_of_phase,
}
use luci_app_l850gl_mm.Mutation.Verify.{modem_still_valid, by_phase}
use luci_app_l850gl_mm.Mutation.{Phase, Operation, World}
use luci_app_l850gl_mm.Service.Modems.{Surroundings}
use luci_app_l850gl_mm.Verifier.{VerifyStage}

search_step :
    (s : Surroundings) (w : World) (o : Operation) (found : Option ℕ) (b : ℕ) (rest : List ℕ)
    {a : ℕ}
    → is_candidate s w o b ≡ true
    → elim found [ none ↦ search_modems s w o (some b) rest | some other ↦ ambiguous ]
      ≡ match_found a
    → (search_modems s w o (some b) rest ≡ match_found a
        → (some b ≡ some a) ⊎ (is_candidate s w o a ≡ true))
    → (found ≡ some a) ⊎ (is_candidate s w o a ≡ true)
search_step s w o none b rest {a} f e on = elim (on e) [
  | inl same ↦ inr (subst (λ c. is_candidate s w o c ≡ true) (ground arith) f)
  | inr is ↦ inr is
]
search_step s w o (some other) b rest f e on = absurd (ground arith)

-- A match of the search passed its tests.
pub search_modems-candidate :
    (s : Surroundings) (w : World) (o : Operation) (found : Option ℕ) (rest : List ℕ) {a : ℕ}
    → search_modems s w o found rest ≡ match_found a
    → (found ≡ some a) ⊎ (is_candidate s w o a ≡ true)
unfolding search_modems
search_modems-candidate s w o none [] e = absurd (ground arith)
search_modems-candidate s w o (some b) [] e = ground arith
search_modems-candidate s w o found (b ∷ rest) {a} e = elim (Bool-cases (is_candidate s w o b)) [
  | inr f ↦ search_modems-candidate s w o found rest (rw f at e)
  | inl f ↦
      search_step s w o found b rest f (rw f at e) (search_modems-candidate s w o (some b) rest)
]

pub find_replacement-candidate :
    (s : Surroundings) (w : World) (o : Operation) {a : ℕ}
    → find_replacement s w o ≡ match_found a
    → is_candidate s w o a ≡ true
unfolding find_replacement
find_replacement-candidate s w o f = elim (search_modems-candidate s w o none w.inventory f) [
  | inl e ↦ absurd (ground arith)
  | inr e ↦ e
]

candidate-other :
    (s : Surroundings) (w : World) (o : Operation) {a : ℕ}
    → is_candidate s w o a ≡ true
    → a ≢ o.original
unfolding is_candidate
candidate-other s w o e h = ground arith

pub poll_nvm-Kept_before :
    (s : Surroundings) (w : World) (o : Operation) {n : ℕ}
    → o.phase ≡ Phase.pre_reset_nvm_verify
    → o.nvm_verifier ≡ counting VerifyStage.pre_reset n
    → Talk o.request (paused n) w.conversation
    → Kept o.request (paused n) (poll_nvm s w o)
unfolding poll_nvm start_nvm_command
poll_nvm-Kept_before s w o {n} ph v t =
    if_holds (Kept o.request _) (leb o.phase_deadline s.now)
      (λ h. stopped-Kept o.request s w _ _ _ _ t (rw ph refl))
      (λ h.
        if_holds (Kept o.request _) (not (modem_still_valid s w o (proxy_of_phase w o)))
          (λ h. stopped-Kept o.request s w _ _ _ _ t (rw ph refl))
          (λ h.
            let to : modem_of_phase (no_poll o) ≡ o.original = rw ph refl in
            goes_on o.request _ _ _ (checking n) refl ((ph, refl, refl), v)
              (rw to (checked_again t))))

pub poll_nvm-Kept_after :
    (s : Surroundings) (w : World) (o : Operation) {address : ℕ}
    → o.phase ≡ Phase.nvm_verify
    → o.nvm_verifier ≡ counting VerifyStage.post_reset 0
    → o.replacement ≡ some address
    → Talk o.request (repeating address) w.conversation
    → Kept o.request (repeating address) (poll_nvm s w o)
unfolding poll_nvm start_nvm_command
poll_nvm-Kept_after s w o {address} ph v a t =
    if_holds (Kept o.request _) (leb o.phase_deadline s.now)
      (λ h. stopped-Kept o.request s w _ _ _ _ t (rw ph refl))
      (λ h.
        if_holds (Kept o.request _) (not (modem_still_valid s w o (proxy_of_phase w o)))
          (λ h. stopped-Kept o.request s w _ _ _ _ t (rw ph refl))
          (λ h.
            let to : modem_of_phase (no_poll o) ≡ address = rw (ph, a) refl in
            goes_on o.request _ _ _ (confirming address) refl ((ph, refl, refl), v, a)
              (rw to (confirmed_again t))))

take_replacement-Kept :
    (s : Surroundings) (w : World) (o : Operation) (address : ℕ)
    → o.callback ≡ none
    → address ≢ o.original
    → Talk o.request awaiting w.conversation
    → Kept o.request awaiting (take_replacement s w o address)
unfolding take_replacement start_nvm_verification start_nvm_command
take_replacement-Kept s w o address c other t =
    if_holds (Kept o.request _) (is_registered (s.state_of (w.modems address).modem))
      (λ h.
        goes_on o.request _ _ _ (confirming address) refl ((refl, refl, refl), refl, refl)
          (confirmed (back t other)))
      (λ h. goes_on o.request _ _ _ (registering address) refl ((refl, c), refl) (back t other))

pub poll_reprobe-Kept :
    (s : Surroundings) (w : World) (o : Operation)
    → o.phase ≡ Phase.reprobe
    → o.callback ≡ none
    → Talk o.request awaiting w.conversation
    → (found : Search) → find_replacement s w o ≡ found
    → Kept o.request awaiting (poll_reprobe s w o)
unfolding poll_reprobe
poll_reprobe-Kept s w o ph c t ambiguous f =
    rw (f, poll_reprobe) (stopped-Kept o.request s w _ _ _ _ t refl)
poll_reprobe-Kept s w o ph c t (match_found address) f =
    rw (f, poll_reprobe)
      (if_holds (Kept o.request _) (w.modems address).mutation_busy
        (λ h. stopped-Kept o.request s w _ _ _ _ t refl)
        (λ h.
          take_replacement-Kept s w o address c
            (candidate-other s w o (find_replacement-candidate s w o f)) t))
poll_reprobe-Kept s w o ph c t nothing_found f =
    rw (f, poll_reprobe)
      (if_holds (Kept o.request _) (leb o.phase_deadline s.now)
        (λ h. stopped-Kept o.request s w _ _ _ _ t refl)
        (λ h. goes_on o.request _ _ _ awaiting refl (ph, c) t))

pub poll_registration-Kept :
    (s : Surroundings) (w : World) (o : Operation) {address : ℕ}
    → o.phase ≡ Phase.registration
    → o.callback ≡ none
    → o.replacement ≡ some address
    → Talk o.request (registering address) w.conversation
    → Kept o.request (registering address) (poll_registration s w o)
unfolding poll_registration start_nvm_verification start_nvm_command
poll_registration-Kept s w o {address} ph c a t =
    if_holds (Kept o.request _) (not (replacement_is_valid s w o (proxy_of_phase w o)))
      (λ h. stopped-Kept o.request s w _ _ _ _ t refl)
      (λ h.
        if_holds (Kept o.request _) (is_registered (s.state_of (proxy_of_phase w o)))
          (λ h.
            let to : response_modem o ≡ address = rw a refl in
            goes_on o.request _ _ _ (confirming address) refl ((refl, refl, refl), refl, a)
              (rw to (confirmed t)))
          (λ h.
            if_holds (Kept o.request _) (leb o.phase_deadline s.now)
              (λ h. stopped-Kept o.request s w _ _ _ _ t refl)
              (λ h. goes_on o.request _ _ _ (registering address) refl ((ph, c), a) t)))

-- The timer, from what it does in the phase.
pub poll-Kept :
    (s : Surroundings) (w : World) (o : Operation) {point : Point}
    → Talk o.request point w.conversation
    → may_end point (by_phase o.phase lock_applied_reset_required outcome_unknown) ≡ true
    → Kept o.request point (poll_phase s w o o.phase)
    → Kept o.request point (poll s w o)
unfolding poll
poll-Kept s w o t m phase =
    if_holds (Kept o.request _) (o.timed_out || o.transport_lost || w.stopping)
      (λ h. stopped-Kept o.request s w _ _ _ _ t m) (λ h. phase)
