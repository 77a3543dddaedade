-- ===== src/Mutation/Kept/Reads.antt =====
-- The reads of the lock state and the measurement of the serving cell keep to the conversation of a
-- mutation (l850gl-mm-bridge/src/ubus_glib.c).
use mathlib.Core.Path.{subst, subst⁻¹}
use luci_app_l850gl_mm.Base.{
  ℕ, Bool, true, false, not, List, ◌∷◌, none, some, ◌≡◌, refl, leb, Bytes, if_holds, arith, inl,
  inr, ◌≤◌, suc, ◌⊎◌, zero,
}
use luci_app_l850gl_mm.CellLock.Nvm.{nvm_parse}
use luci_app_l850gl_mm.CellLock.{LockState, ParseResult, parse_ok, failed, cleared_state}
use luci_app_l850gl_mm.Mutation.Commands.{start_reset, original_proxy}
use luci_app_l850gl_mm.Mutation.Grammar.{
  Point, checking, paused, restarting, Talk, counted, missed, restarted, Reads, fits, checked_again,
}
use luci_app_l850gl_mm.Mutation.Guards.{original_is_valid}
use luci_app_l850gl_mm.Mutation.Kept.{Kept, failed-Kept, goes_on, counting}
use luci_app_l850gl_mm.Mutation.Verify.{
  nvm_read, nvm_decided, nvm_verified, observed, observation, state_matches, stage_done,
}
use luci_app_l850gl_mm.Mutation.{Phase, Operation, World, Entry, answered, Request}
use luci_app_l850gl_mm.Service.Modems.{Surroundings}
use luci_app_l850gl_mm.Verifier.{VerifyStage, Decision, Verifier, verifier_observe}

start_reset-Kept :
    (s : Surroundings) (w : World) (o : Operation) {source : ℕ} {text : Bytes} {state : LockState}
    {talk : List Entry}
    → o.poll_source ≡ none
    → Talk o.request (checking 1) talk
    → Reads text state
    → fits o.request state ≡ true
    → w.conversation ≡ answered source (some text) none ∷ talk
    → Kept o.request (checking 1) (start_reset s w o)
unfolding start_reset
start_reset-Kept s w o p t r f e =
    if_holds (Kept o.request _) (not (original_is_valid s w o (original_proxy w o)))
      (λ h. failed-Kept o.request s w o _ _ _ t refl e)
      (λ h. goes_on o.request _ _ _ restarting refl (refl, refl, p) (rw e (restarted t r f)))

-- What the verifier of the stage before the reset decides on.
pre_decided-Kept :
    (s : Surroundings) (w : World) (o : Operation) {n source : ℕ} {text : Bytes} {state : LockState}
    {talk : List Entry}
    → o.phase ≡ Phase.pre_reset_nvm_verify
    → o.callback ≡ none
    → o.poll_source ≡ none
    → Talk o.request (checking n) talk
    → Reads text state
    → w.conversation ≡ answered source (some text) none ∷ talk
    → (decision : Decision) → (decision ≡ Decision.ready → (n ≡ 1) × (fits o.request state ≡ true))
    → (decision ≡ Decision.retry
        → (m : ℕ) × (o.nvm_verifier ≡ counting VerifyStage.pre_reset m)
          × Talk o.request (paused m) (answered source (some text) none ∷ talk))
    → Kept o.request (checking n) (nvm_decided s w o decision)
unfolding nvm_decided nvm_verified
pre_decided-Kept s w o ph c p t r e Decision.fail_invalid ok again =
    failed-Kept o.request s w o _ _ _ t (rw ph refl) e
pre_decided-Kept s w o ph c p t r e Decision.retry ok again =
    if_holds (Kept o.request _) (leb o.phase_deadline s.now)
      (λ h. failed-Kept o.request s w o _ _ _ t (rw ph refl) e)
      (λ h.
        let (m, v, q) = again refl in goes_on o.request _ _ _ (paused m) refl ((ph, c), v) (rw e q))
pre_decided-Kept s w o {n = n} {talk = talk} ph c p t r e Decision.ready ok again =
    if_holds (Kept o.request _) (leb o.phase_deadline s.now)
      (λ h. failed-Kept o.request s w o _ _ _ t (rw ph refl) e)
      (λ h.
        let (one, f) = ok refl in
        subst⁻¹ (λ k. Kept o.request (checking n) (nvm_verified s w (stage_done o) k)) ph
          (subst⁻¹ (λ m. Kept o.request (checking m) (start_reset s w (stage_done o))) one
            (start_reset-Kept s w (stage_done o) p
              (subst (λ m. Talk o.request (checking m) talk) one t) r f e)))

-- How many matches in a row the conversation has at a point before the reset.
matches_at : Point → ℕ
matches_at (checking n) = n
matches_at (paused n) = n
matches_at _ = 0

matches_at-le :
    {request : Request} {point : Point} {talk : List Entry}
    → Talk request point talk
    → matches_at point ≤ 1
unfolding matches_at
matches_at-le (counted t r f) = omega arith
matches_at-le (checked_again t) = matches_at-le t
matches_at-le _ = omega arith

checking-le :
    {request : Request} {n : ℕ} {talk : List Entry} → Talk request (checking n) talk → n ≤ 1
unfolding matches_at
checking-le t = matches_at-le t

-- What the verifier answers before the reset.
record IsPreAnswer (n : ℕ) (fit : Bool) (answer : Decision × Verifier) : Type 0 where
  on_ready : answer.0 ≡ Decision.ready → (n ≡ 1) × (fit ≡ true)
  on_retry :
      answer.0 ≡ Decision.retry
      → (fit ≡ true) × (n ≡ 0) × (answer.1 ≡ counting VerifyStage.pre_reset 1)
        ⊎ (fit ≡ false) × (answer.1 ≡ counting VerifyStage.pre_reset 0)

pre_answer :
    (n : ℕ) (fit : Bool)
    → n ≤ 1
    → IsPreAnswer n fit (verifier_observe (counting VerifyStage.pre_reset n) (observation fit))
unfolding verifier_observe
pre_answer zero true h = record {
  on_ready = λ e. ground arith;
  on_retry = λ e. inl (refl, refl, refl);
}
pre_answer (suc zero) true h = record { on_ready = λ e. (refl, refl); on_retry = λ e. ground arith }
pre_answer (suc (suc n)) true h = record {
  on_ready = λ e. ground arith;
  on_retry = λ e. ground arith;
}
pre_answer n false h = record { on_ready = λ e. ground arith; on_retry = λ e. inr (refl, refl) }

-- The conversation after a read before the reset that is not the last.
pre_again :
    {request : Request} {n source : ℕ} {text : Bytes} {state : LockState} {talk : List Entry}
    {v : Verifier}
    → Talk request (checking n) talk
    → Reads text state
    → (fits request state ≡ true) × (n ≡ 0) × (v ≡ counting VerifyStage.pre_reset 1)
      ⊎ (fits request state ≡ false) × (v ≡ counting VerifyStage.pre_reset 0)
    → (m : ℕ) × (v ≡ counting VerifyStage.pre_reset m)
      × Talk request (paused m) (answered source (some text) none ∷ talk)
pre_again {request = request} {talk = talk} t r (inl (f, nil, v)) =
    (1, v, counted (subst (λ k. Talk request (checking k) talk) nil t) r f)
pre_again t r (inr (f, v)) = (0, v, missed t r f)

pub pre_read-Kept :
    (s : Surroundings) (w : World) (o : Operation) {n source : ℕ} {text : Bytes} {talk : List Entry}
    → o.phase ≡ Phase.pre_reset_nvm_verify
    → o.callback ≡ none
    → o.poll_source ≡ none
    → o.nvm_verifier ≡ counting VerifyStage.pre_reset n
    → Talk o.request (checking n) talk
    → w.conversation ≡ answered source (some text) none ∷ talk
    → (parsed : ParseResult × LockState) → nvm_parse s.allocated (some text) cleared_state ≡ parsed
    → Kept o.request (checking n) (nvm_read s w o parsed)
unfolding nvm_read
pre_read-Kept s w o {n} ph c p v t e (parse_ok, state) r =
    let a = pre_answer n (fits o.request state) (checking-le t) in
    let b =
      subst⁻¹
        (λ u.
          IsPreAnswer n (fits o.request state)
            (verifier_observe u (observation (state_matches o state))))
        v a in
    pre_decided-Kept s w (observed o (observation (state_matches o state))).1 ph c p t
      (s.allocated, r) e _ b.on_ready (λ h. pre_again t (s.allocated, r) (b.on_retry h))
pre_read-Kept s w o ph c p v t e (failed f, state) r =
    failed-Kept o.request s w _ _ _ _ t (rw ph refl) e
