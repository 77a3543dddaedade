-- ===== src/Mutation/Kept/Start.antt =====
-- The callbacks of the probe, of the set command and of the reset keep to the conversation of a
-- mutation (l850gl-mm-bridge/src/ubus_glib.c).
use luci_app_l850gl_mm.Service.Errors.{classify, normalize_error}
use luci_app_l850gl_mm.Service.{unsupported_protocol}
use luci_app_l850gl_mm.CellLock.Command.{set_response_is_success}
use luci_app_l850gl_mm.Verifier.{reset_finish_should_reprobe}
use luci_app_l850gl_mm.CellLock.Nvm.{nvm_parse}
use luci_app_l850gl_mm.Mutation.Guards.{original_is_valid, error_is_uncertain}
use luci_app_l850gl_mm.CellLock.{LockState, ParseResult, cleared_state, failed, parse_ok}
use luci_app_l850gl_mm.Mutation.Handlers.{
  probe_ready, reset_ready, set_ready, parsed_ok, in_probe, original_is_same, finish_of,
}
use luci_app_l850gl_mm.Mutation.Commands.{
  dispatch_set, original_proxy, start_reprobe, start_nvm_verification, start_nvm_command,
}
use luci_app_l850gl_mm.Base.{
  ℕ, Bool, true, false, not, List, ◌∷◌, Option, none, some, ◌≡◌, refl, Bytes, if_holds,
  if◌then◌else◌, ◌||◌, arith,
}
use luci_app_l850gl_mm.Mutation.Grammar.{
  probing, setting, checking, restarting, awaiting, Talk, changed, accepted, gone, Reads,
}
use luci_app_l850gl_mm.Mutation.Kept.{
  Kept, failed-Kept, Surroundings, goes_on, complete_failure, is_early,
}
use luci_app_l850gl_mm.Mutation.{Operation, World, answered, GError, Entry}

dispatch_set-Kept :
    (s : Surroundings) (w : World) (o : Operation) {source : ℕ} {text : Bytes} {state : LockState}
    {talk : List Entry}
    → o.poll_source ≡ none
    → Talk o.request probing talk
    → Reads text state
    → w.conversation ≡ answered source (some text) none ∷ talk
    → Kept o.request probing (dispatch_set s w o)
unfolding dispatch_set
dispatch_set-Kept s w o p t r e =
    if_holds (Kept o.request _) (not (original_is_valid s w o (original_proxy w o)))
      (λ h. failed-Kept o.request s w o _ _ _ t refl e)
      (λ h. goes_on o.request _ _ _ setting refl (refl, refl, p) (rw e (changed t r)))

probe_text-Kept :
    (s : Surroundings) (w : World) (o : Operation) {source : ℕ} {text : Bytes} {talk : List Entry}
    (parsed : ParseResult × LockState)
    → o.poll_source ≡ none
    → Talk o.request probing talk
    → nvm_parse s.allocated (some text) cleared_state ≡ parsed
    → w.conversation ≡ answered source (some text) none ∷ talk
    → Kept o.request probing (
        if parsed_ok parsed.0
        then dispatch_set s w o
        else complete_failure s w o unsupported_protocol unsupported_protocol false)
probe_text-Kept s w o (parse_ok, state) p t r e = dispatch_set-Kept s w o p t (s.allocated, r) e
probe_text-Kept s w o (failed f, state) p t r e = failed-Kept o.request s w o _ _ _ t refl e

-- An error is never classified as a state that follows the acknowledgement.
classify-early :
    (since_1_24 : Bool) (error : GError) → is_early (classify since_1_24 error).code ≡ true
unfolding classify
classify-early since_1_24 error = ground arith

normalize_error-early :
    (since_1_24 : Bool) (error : Option GError) (timed_out lost : Bool)
    → is_early (normalize_error since_1_24 error timed_out lost).code ≡ true
unfolding normalize_error
normalize_error-early v none a b = ground arith
normalize_error-early v (some error) a b = ground (arith, classify-early v error)

pub probe_ready-Kept :
    (s : Surroundings) (w : World) (o : Operation) (source : ℕ) (response : Option Bytes)
    (error : Option GError) {talk : List Entry}
    → o.poll_source ≡ none
    → Talk o.request probing talk
    → w.conversation ≡ answered source response error ∷ talk
    → Kept o.request probing (probe_ready s w o source response error)
unfolding probe_ready
probe_ready-Kept s w o source (some text) none p t e =
    if_holds (Kept o.request _) (not (in_probe o.phase) || not (original_is_valid s w o source))
      (λ h. failed-Kept o.request s w o _ _ _ t refl e) (λ h. probe_text-Kept s w o _ p t refl e)
probe_ready-Kept s w o source none none p t e =
    if_holds (Kept o.request _) (not (in_probe o.phase) || not (original_is_valid s w o source))
      (λ h. failed-Kept o.request s w o _ _ _ t refl e)
      (λ h.
        failed-Kept o.request s w o _ _ _ t
          (normalize_error-early s.since_1_24 none o.timed_out o.transport_lost) e)
probe_ready-Kept s w o source response (some error) p t e =
    if_holds (Kept o.request _) (not (in_probe o.phase) || not (original_is_valid s w o source))
      (λ h. failed-Kept o.request s w o _ _ _ t refl e)
      (λ h.
        failed-Kept o.request s w o _ _ _ t
          (normalize_error-early s.since_1_24 (some error) o.timed_out o.transport_lost) e)

pub set_ready-Kept :
    (s : Surroundings) (w : World) (o : Operation) (source : ℕ) (response : Option Bytes)
    (error : Option GError) {talk : List Entry}
    → o.poll_source ≡ none
    → Talk o.request setting talk
    → w.conversation ≡ answered source response error ∷ talk
    → Kept o.request setting (set_ready s w o source response error)
unfolding set_ready start_nvm_verification start_nvm_command
set_ready-Kept s w o source (some text) none p t e =
    if_holds (Kept o.request _) (error_is_uncertain o none || not (original_is_same w o source))
      (λ h. failed-Kept o.request s w o _ _ _ t refl e)
      (λ h.
        if_holds (Kept o.request _) (set_response_is_success (some text))
          (λ ok.
            goes_on o.request _ _ _ (checking 0) refl ((refl, refl, p), refl)
              (rw e (accepted t ok)))
          (λ ok. failed-Kept o.request s w o _ _ _ t refl e))
set_ready-Kept s w o source none none p t e =
    if_holds (Kept o.request _) (error_is_uncertain o none || not (original_is_same w o source))
      (λ h. failed-Kept o.request s w o _ _ _ t refl e)
      (λ h.
        failed-Kept o.request s w o _ _ _ t (normalize_error-early s.since_1_24 none false false) e)
set_ready-Kept s w o source response (some error) p t e =
    if_holds (Kept o.request _)
      (error_is_uncertain o (some error) || not (original_is_same w o source))
      (λ h. failed-Kept o.request s w o _ _ _ t refl e)
      (λ h.
        failed-Kept o.request s w o _ _ _ t
          (normalize_error-early s.since_1_24 (some error) false false) e)

pub reset_ready-Kept :
    (s : Surroundings) (w : World) (o : Operation) (source : ℕ) (response : Option Bytes)
    (error : Option GError) {talk : List Entry}
    → o.callback ≡ none
    → Talk o.request restarting talk
    → w.conversation ≡ answered source response error ∷ talk
    → Kept o.request restarting (reset_ready s w o source response error)
unfolding reset_ready start_reprobe
reset_ready-Kept s w o source response error c t e =
    if_holds (Kept o.request _) (o.timed_out || o.transport_lost)
      (λ h. failed-Kept o.request s w o _ _ _ t refl e)
      (λ h.
        if_holds (Kept o.request _) (reset_finish_should_reprobe (finish_of s o error))
          (λ again. goes_on o.request _ _ _ awaiting refl (refl, c) (rw e (gone t)))
          (λ again. failed-Kept o.request s w o _ _ _ t refl e))
