-- ===== src/Mutation/Kept/Steps.antt =====
-- Every step of a mutation (l850gl-mm-bridge/src/ubus_glib.c) keeps to its conversation.
use mathlib.Core.Path.{subst, subst⁻¹}
use luci_app_l850gl_mm.Base.{
  ℕ, Bool, true, false, List, [], ◌∷◌, Option, none, some, ◌≡◌, refl, inl, inr, Bytes, if_holds,
  Option-cases, arith,
}
use luci_app_l850gl_mm.Mutation.Commands.{idle}
use luci_app_l850gl_mm.Mutation.Grammar.{
  Point, probing, setting, checking, paused, restarting, awaiting, registering, confirming,
  repeating, measuring, verified, Talk, begun,
}
use luci_app_l850gl_mm.Mutation.Kept.Answers.{nvm_ready-Kept, post_read-Kept}
use luci_app_l850gl_mm.Mutation.Kept.Cells.{cell_ready-Kept}
use luci_app_l850gl_mm.Mutation.Kept.Polls.{
  poll-Kept, poll_nvm-Kept_before, poll_nvm-Kept_after, poll_reprobe-Kept, poll_registration-Kept,
}
use luci_app_l850gl_mm.Mutation.Kept.Reads.{pre_read-Kept}
use luci_app_l850gl_mm.Mutation.Kept.Start.{probe_ready-Kept, set_ready-Kept, reset_ready-Kept}
use luci_app_l850gl_mm.Mutation.Kept.{Kept, Places, goes_on}
use luci_app_l850gl_mm.Mutation.Poll.{poll, poll_phase}
use luci_app_l850gl_mm.Mutation.Run.{
  Event, answers, polls, times_out, cancels, elsewhere, call, answer, fire, happen, step, run,
  launch,
}
use luci_app_l850gl_mm.Mutation.{Callback, Request, Operation, World, Outcome, waiting, finished}
use luci_app_l850gl_mm.Service.Modems.{Surroundings}
use luci_app_l850gl_mm.Service.{GError}

-- The callback that is pending at a point.
callback_at : Point → Option Callback
callback_at probing = some Callback.on_probe
callback_at setting = some Callback.on_set
callback_at (checking n) = some Callback.on_nvm
callback_at restarting = some Callback.on_reset
callback_at (confirming address) = some Callback.on_nvm
callback_at (measuring address) = some Callback.on_cell
callback_at _ = none

callback_at-placed :
    (o : Operation) (point : Point) → Places o point → o.callback ≡ callback_at point
unfolding callback_at
callback_at-placed o probing (ph, c, p) = c
callback_at-placed o setting (ph, c, p) = c
callback_at-placed o (checking n) ((ph, c, p), v) = c
callback_at-placed o restarting (ph, c, p) = c
callback_at-placed o (confirming address) ((ph, c, p), v, a) = c
callback_at-placed o (measuring address) ((ph, c, p), a) = c
callback_at-placed o (paused n) ((ph, c), v) = c
callback_at-placed o awaiting (ph, c) = c
callback_at-placed o (registering address) ((ph, c), a) = c
callback_at-placed o (repeating address) ((ph, c), v, a) = c
callback_at-placed o (verified address) h = absurd h

-- The answer to the command of a point.
called-Kept :
    (s : Surroundings) (w : World) (o : Operation) (source : ℕ) (response : Option Bytes)
    (error : Option GError) (point : Point)
    → Places o point
    → Talk o.request point w.conversation
    → Kept o.request point (answer (callback_at point) s w o source response error)
unfolding answer call callback_at
called-Kept s w o source response error probing (ph, c, p) t =
    probe_ready-Kept s _ (idle o) source response error p t refl
called-Kept s w o source response error setting (ph, c, p) t =
    set_ready-Kept s _ (idle o) source response error p t refl
called-Kept s w o source response error restarting (ph, c, p) t =
    reset_ready-Kept s _ (idle o) source response error refl t refl
called-Kept s w o source response error (measuring address) ((ph, c, p), a) t =
    cell_ready-Kept s _ (idle o) source response error a t refl
called-Kept s w o source response error (checking n) ((ph, c, p), v) t =
    nvm_ready-Kept s _ (idle o) source response error t (rw ph refl) refl
      (λ text e. pre_read-Kept s _ (idle o) ph refl p v t e _ refl)
called-Kept s w o source response error (confirming address) ((ph, c, p), v, a) t =
    nvm_ready-Kept s _ (idle o) source response error t (rw ph refl) refl
      (λ text e. post_read-Kept s _ (idle o) ph refl p v a t e _ refl)
called-Kept s w o source response error point placed t = goes_on o.request w o _ point refl placed t

-- The timer, at a point that waits for it.
fired-Kept :
    (s : Surroundings) (w : World) (o : Operation) (ms : ℕ) (point : Point)
    → o.poll_source ≡ some ms
    → Places o point
    → Talk o.request point w.conversation
    → Kept o.request point (poll s w o)
unfolding poll_phase
fired-Kept s w o ms (paused n) e ((ph, c), v) t = poll-Kept s w o t (rw ph refl) (
    subst⁻¹ (λ k. Kept o.request (paused n) (poll_phase s w o k)) ph
      (poll_nvm-Kept_before s w o ph v t))
fired-Kept s w o ms (repeating address) e ((ph, c), v, a) t = poll-Kept s w o t (rw ph refl) (
    subst⁻¹ (λ k. Kept o.request (repeating address) (poll_phase s w o k)) ph
      (poll_nvm-Kept_after s w o ph v a t))
fired-Kept s w o ms awaiting e (ph, c) t = poll-Kept s w o t (rw ph refl) (
    subst⁻¹ (λ k. Kept o.request awaiting (poll_phase s w o k)) ph
      (poll_reprobe-Kept s w o ph c t _ refl))
fired-Kept s w o ms (registering address) e ((ph, c), a) t = poll-Kept s w o t (rw ph refl) (
    subst⁻¹ (λ k. Kept o.request (registering address) (poll_phase s w o k)) ph
      (poll_registration-Kept s w o ph c a t))
fired-Kept s w o ms (verified a) e h t = absurd h
fired-Kept s w o ms probing e (ph, c, p) t = absurd (ground (arith, e, p))
fired-Kept s w o ms setting e (ph, c, p) t = absurd (ground (arith, e, p))
fired-Kept s w o ms restarting e (ph, c, p) t = absurd (ground (arith, e, p))
fired-Kept s w o ms (checking n) e ((ph, c, p), v) t = absurd (ground (arith, e, p))
fired-Kept s w o ms (confirming address) e ((ph, c, p), v, a) t = absurd (ground (arith, e, p))
fired-Kept s w o ms (measuring address) e ((ph, c, p), a) t = absurd (ground (arith, e, p))

-- A change of the flags alone leaves the operation at its point.
placed_again :
    (o : Operation) (point : Point) (deferred lost timer late : Bool)
    → Places o point
    → Places
        (record o {
          deferred = deferred;
          transport_lost = lost;
          timeout_source = timer;
          timed_out = late;
        })
        point
placed_again o probing d l m z h = h
placed_again o setting d l m z h = h
placed_again o (checking n) d l m z h = h
placed_again o (paused n) d l m z h = h
placed_again o restarting d l m z h = h
placed_again o awaiting d l m z h = h
placed_again o (registering a) d l m z h = h
placed_again o (confirming a) d l m z h = h
placed_again o (repeating a) d l m z h = h
placed_again o (measuring a) d l m z h = h
placed_again o (verified a) d l m z h = h

happen-Kept :
    (s : Surroundings) (event : Event) (w : World) (o : Operation) (point : Point)
    → Places o point
    → Talk o.request point w.conversation
    → Kept o.request point (happen s event w o)
unfolding happen fire
happen-Kept s (answers source response error) w o point placed t =
    subst⁻¹ (λ c. Kept o.request point (answer c s w o source response error))
      (callback_at-placed o point placed) (called-Kept s w o source response error point placed t)
happen-Kept s polls w o point placed t = elim (Option-cases o.poll_source) [
  | inl e ↦
      subst⁻¹ (λ c. Kept o.request point (fire c s w o)) e
        (goes_on o.request w o _ point refl placed t)
  | inr (ms, e) ↦
      subst⁻¹ (λ c. Kept o.request point (fire c s w o)) e (fired-Kept s w o ms point e placed t)
]
happen-Kept s times_out w o point placed t =
    if_holds (λ (p : Operation). Kept o.request point (w, waiting p)) o.timeout_source
      (λ h.
        goes_on o.request w _ _ point refl
          (placed_again o point o.deferred o.transport_lost false true placed) t)
      (λ h. goes_on o.request w o _ point refl placed t)
happen-Kept s (cancels lost) w o point placed t =
    goes_on o.request w _ _ point refl
      (placed_again o point false lost o.timeout_source o.timed_out placed) t
happen-Kept s (elsewhere modems inventory up initialized stopping) w o point placed t =
    goes_on o.request _ o _ point refl placed t

pub step_at-Kept :
    (request : Request) (s : Surroundings) (event : Event) (w : World) (o : Operation)
    (point : Point)
    → o.request ≡ request
    → Places o point
    → Talk request point w.conversation
    → Kept request point (step s event (w, waiting o))
unfolding step
step_at-Kept request s event w o point same placed t =
    subst (λ r. Kept r point (happen s event w o)) same
      (happen-Kept s event w o point placed (subst⁻¹ (λ r. Talk r point w.conversation) same t))

-- What holds of an operation and its conversation at any time.
abbrev pub KeptAlong : Request → Outcome → Type 0
KeptAlong request outcome = (before : Point) × Kept request before outcome

step-Kept :
    (request : Request) (s : Surroundings) (event : Event) (outcome : Outcome)
    → KeptAlong request outcome
    → KeptAlong request (step s event outcome)
unfolding step Kept
step-Kept request s event (w, waiting o) (before, (same, point, placed, t)) =
    (point, step_at-Kept request s event w o point same placed t)
step-Kept request s event (w, finished reply sent) kept = kept

pub run-Kept :
    (request : Request) (events : List (Surroundings × Event)) (outcome : Outcome)
    → KeptAlong request outcome
    → KeptAlong request (run events outcome)
unfolding run
run-Kept request [] outcome kept = kept
run-Kept request ((s, event) ∷ events) outcome kept =
    run-Kept request events (step s event outcome) (step-Kept request s event outcome kept)

pub launch-Kept :
    (w : World) (request : Request) → w.conversation ≡ [] → KeptAlong request (launch w request)
unfolding launch
launch-Kept w request e =
    (probing, goes_on request _ _ probing probing refl (refl, refl, refl) (rw e begun))
