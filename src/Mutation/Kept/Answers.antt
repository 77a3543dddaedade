-- ===== src/Mutation/Kept/Answers.antt =====
-- The reads of the lock state after the reset keep to the conversation of a mutation
-- (l850gl-mm-bridge/src/ubus_glib.c).
use mathlib.Core.Path.{subst⁻¹}
use luci_app_l850gl_mm.Base.{
  ℕ, Bool, true, false, List, ◌∷◌, Option, none, some, ◌≡◌, refl, leb, Bytes, if_holds, arith,
}
use luci_app_l850gl_mm.CellLock.Nvm.{nvm_parse}
use luci_app_l850gl_mm.CellLock.{LockState, ParseResult, parse_ok, failed, cleared_state}
use luci_app_l850gl_mm.Mutation.Grammar.{
  Point, confirming, repeating, measuring, Talk, differed, cleared, scanned, Reads, fits,
}
use luci_app_l850gl_mm.Mutation.Finish.{response_modem}
use luci_app_l850gl_mm.Mutation.Kept.{
  Kept, failed-Kept, succeeded-Kept, goes_on, counting, may_end, lock_applied_reset_required,
  outcome_unknown,
}
use luci_app_l850gl_mm.Mutation.Verify.{
  nvm_ready, nvm_read, nvm_decided, nvm_verified, observed, observation, state_matches,
  nvm_confirmed, stage_done, nvm_is_lost, by_phase,
}
use luci_app_l850gl_mm.Mutation.{
  Phase, MutationType, mutation_set, mutation_clear, Operation, World, Entry, answered,
}
use luci_app_l850gl_mm.Service.Modems.{Surroundings}
use luci_app_l850gl_mm.Service.{GError}
use luci_app_l850gl_mm.Verifier.{VerifyStage, Decision, Verifier, verifier_observe}

-- What follows a verified read after the reset.
confirmed-Kept :
    (s : Surroundings) (w : World) (o : Operation) {address source : ℕ} {text : Bytes}
    {state : LockState} {talk : List Entry}
    → o.poll_source ≡ none
    → o.replacement ≡ some address
    → Talk o.request (confirming address) talk
    → Reads text state
    → fits o.request state ≡ true
    → w.conversation ≡ answered source (some text) none ∷ talk
    → (type : MutationType) → o.type ≡ type
    → Kept o.request (confirming address) (nvm_confirmed s w o type)
unfolding nvm_confirmed
confirmed-Kept s w o p a t r f e mutation_clear k =
    succeeded-Kept s w o none _ a (rw e (cleared k t r f))
confirmed-Kept s w o {address} p a t r f e mutation_set k =
    let to : response_modem o ≡ address = rw a refl in
    goes_on o.request _ _ _ (measuring address) refl ((refl, refl, p), a)
      (rw (e, to) (scanned k t r f))

-- What the verifier of the stage after the reset decides on.
post_decided-Kept :
    (s : Surroundings) (w : World) (o : Operation) {address source : ℕ} {text : Bytes}
    {state : LockState} {talk : List Entry}
    → o.phase ≡ Phase.nvm_verify
    → o.callback ≡ none
    → o.poll_source ≡ none
    → o.replacement ≡ some address
    → Talk o.request (confirming address) talk
    → Reads text state
    → w.conversation ≡ answered source (some text) none ∷ talk
    → (decision : Decision) → (decision ≡ Decision.ready → fits o.request state ≡ true)
    → (decision ≡ Decision.retry
        → (fits o.request state ≡ false) × (o.nvm_verifier ≡ counting VerifyStage.post_reset 0))
    → Kept o.request (confirming address) (nvm_decided s w o decision)
unfolding nvm_decided nvm_verified
post_decided-Kept s w o ph c p a t r e Decision.fail_invalid ok again =
    failed-Kept o.request s w o _ _ _ t (rw ph refl) e
post_decided-Kept s w o {address} ph c p a t r e Decision.retry ok again =
    if_holds (Kept o.request _) (leb o.phase_deadline s.now)
      (λ h. failed-Kept o.request s w o _ _ _ t (rw ph refl) e)
      (λ h.
        let (f, v) = again refl in
        goes_on o.request _ _ _ (repeating address) refl ((ph, c), v, a) (rw e (differed t r f)))
post_decided-Kept s w o {address = address} {talk = talk} ph c p a t r e Decision.ready ok again =
    if_holds (Kept o.request _) (leb o.phase_deadline s.now)
      (λ h. failed-Kept o.request s w o _ _ _ t (rw ph refl) e)
      (λ h.
        subst⁻¹ (λ k. Kept o.request (confirming address) (nvm_verified s w (stage_done o) k)) ph
          (confirmed-Kept s w (stage_done o) p a t r (ok refl) e o.type refl))

-- What the verifier answers after the reset.
record IsPostAnswer (fit : Bool) (answer : Decision × Verifier) : Type 0 where
  on_ready : answer.0 ≡ Decision.ready → fit ≡ true
  on_retry :
      answer.0 ≡ Decision.retry → (fit ≡ false) × (answer.1 ≡ counting VerifyStage.post_reset 0)

post_answer :
    (fit : Bool)
    → IsPostAnswer fit (verifier_observe (counting VerifyStage.post_reset 0) (observation fit))
unfolding verifier_observe
post_answer true = record { on_ready = λ e. refl; on_retry = λ e. ground arith }
post_answer false = record { on_ready = λ e. ground arith; on_retry = λ e. (refl, refl) }

pub post_read-Kept :
    (s : Surroundings) (w : World) (o : Operation) {address source : ℕ} {text : Bytes}
    {talk : List Entry}
    → o.phase ≡ Phase.nvm_verify
    → o.callback ≡ none
    → o.poll_source ≡ none
    → o.nvm_verifier ≡ counting VerifyStage.post_reset 0
    → o.replacement ≡ some address
    → Talk o.request (confirming address) talk
    → w.conversation ≡ answered source (some text) none ∷ talk
    → (parsed : ParseResult × LockState) → nvm_parse s.allocated (some text) cleared_state ≡ parsed
    → Kept o.request (confirming address) (nvm_read s w o parsed)
unfolding nvm_read
post_read-Kept s w o ph c p v a t e (parse_ok, state) r =
    let fit = fits o.request state in
    let b =
      subst⁻¹ (λ u. IsPostAnswer fit (verifier_observe u (observation (state_matches o state)))) v
        (post_answer fit) in
    post_decided-Kept s w (observed o (observation (state_matches o state))).1 ph c p a t
      (s.allocated, r) e _ b.on_ready b.on_retry
post_read-Kept s w o ph c p v a t e (failed f, state) r =
    failed-Kept o.request s w _ _ _ _ t (rw ph refl) e

-- The callback, from what the reads do.
pub nvm_ready-Kept :
    (s : Surroundings) (w : World) (o : Operation) {point : Point} (source : ℕ)
    (response : Option Bytes) (error : Option GError) {talk : List Entry}
    → Talk o.request point talk
    → may_end point (by_phase o.phase lock_applied_reset_required outcome_unknown) ≡ true
    → w.conversation ≡ answered source response error ∷ talk
    → ((text : Bytes)
        → w.conversation ≡ answered source (some text) none ∷ talk
        → Kept o.request point (nvm_read s w o (nvm_parse s.allocated (some text) cleared_state)))
    → Kept o.request point (nvm_ready s w o source response error)
unfolding nvm_ready
nvm_ready-Kept s w o source (some text) none t m e read =
    if_holds (Kept o.request _) (nvm_is_lost s w o source none)
      (λ h. failed-Kept o.request s w o _ _ _ t m e) (λ h. read text e)
nvm_ready-Kept s w o source none none t m e read =
    if_holds (Kept o.request _) (nvm_is_lost s w o source none)
      (λ h. failed-Kept o.request s w o _ _ _ t m e) (λ h. failed-Kept o.request s w o _ _ _ t m e)
nvm_ready-Kept s w o source response (some error) t m e read =
    if_holds (Kept o.request _) (nvm_is_lost s w o source (some error))
      (λ h. failed-Kept o.request s w o _ _ _ t m e) (λ h. failed-Kept o.request s w o _ _ _ t m e)
