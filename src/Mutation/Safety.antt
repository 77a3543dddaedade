-- ===== src/Mutation/Safety.antt =====
-- What a mutation of l850gl-mm-bridge/src/ubus_glib.c guarantees, whatever the modems answer, in
-- whatever order its timers fire, and whatever the rest of the daemon does meanwhile.
use luci_app_l850gl_mm.Base.{
  ℕ, ◌+◌, ◌≤◌, Bool, false, List, [], ◌∷◌, Option, some, ◌≡◌, ◌≢◌, refl, ◌⊎◌, inl, inr,
  if◌then◌else◌, Bytes, same_text, same_text_iff, arith, Bool-cases,
}
use luci_app_l850gl_mm.CellLock.Command.{reset_command}
use luci_app_l850gl_mm.Mutation.Finish.{success_state}
use luci_app_l850gl_mm.Mutation.Grammar.{
  Point, probing, setting, checking, paused, verified, Talk, begun, changed, accepted, counted,
  missed, checked_again, restarted, gone, back, confirmed, differed, confirmed_again, cleared,
  scanned, measured, change_command,
}
use luci_app_l850gl_mm.Mutation.Kept.Steps.{run-Kept, launch-Kept, KeptAlong}
use luci_app_l850gl_mm.Mutation.Kept.{Kept, Places}
use luci_app_l850gl_mm.Mutation.Run.{Event, run, launch}
use luci_app_l850gl_mm.Mutation.{
  Request, World, Entry, asked, answered, Success, success, failure, waiting, finished, Outcome,
  GError,
}
use luci_app_l850gl_mm.Service.Modems.{Surroundings}

-- The outcome of a request after some events.
abbrev pub outcome_of : World → Request → List (Surroundings × Event) → Outcome
outcome_of w request events = run events (launch w request)

-- The commands that reset the modem, in a conversation.
abbrev pub resets : List Entry → ℕ
resets [] = 0
resets (asked to text timeout ∷ talk) =
    if same_text text reset_command then 1 + resets talk else resets talk
resets (answered source response error ∷ talk) = resets talk

kept :
    (w : World) (request : Request) (events : List (Surroundings × Event))
    → w.conversation ≡ []
    → KeptAlong request (outcome_of w request events)
kept w request events e = run-Kept request events (launch w request) (launch-Kept w request e)

of_success :
    {request : Request} (outcome : Outcome) {r : Success} {sent : Bool}
    → outcome.1 ≡ finished (success r) sent
    → KeptAlong request outcome
    → (address : ℕ) × (r.response_modem ≡ some address)
      × (r.operation ≡ request.type)
      × (r.state ≡ success_state request.type)
      × Talk request (verified address) outcome.0.conversation
unfolding Kept
of_success (w, waiting o) e k = absurd (ground arith)
of_success (w, finished (failure f) s) e k = absurd (ground arith)
of_success (w, finished (success q) s) {r} e (before, (address, m, t, c, talk)) =
    let same : q ≡ r = ground arith in rw⁻¹ same (address, m, t, c, talk)

-- A request is answered with a success only after the whole conversation: the probe, the change and
-- its acknowledgement, two matching reads in a row, the reset, and with another modem a matching
-- read and, for a set, a scan that shows the wanted serving cell. This holds for any events.
pub success-verified :
    (w : World) (request : Request) (events : List (Surroundings × Event)) {r : Success}
    {sent : Bool}
    → w.conversation ≡ []
    → (outcome_of w request events).1 ≡ finished (success r) sent
    → (address : ℕ) × (r.response_modem ≡ some address)
      × (r.operation ≡ request.type)
      × (r.state ≡ success_state request.type)
      × Talk request (verified address) (outcome_of w request events).0.conversation
success-verified w request events e done =
    of_success (outcome_of w request events) done (kept w request events e)

-- A conversation of the grammar, but for an answer at its end.
abbrev pub Ended : Request → List Entry → Type 0
Ended request conversation =
    (point : Point) × (talk : List Entry) × Talk request point talk
    × ((conversation ≡ talk)
        ⊎ ((source : ℕ) × (response : Option Bytes) × (error : Option GError) × (conversation
              ≡ answered source response error ∷ talk)))

-- What the conversation is, by whether the operation is still waiting or how it was completed.
unfoldable pub Outlined : Request → Outcome → Type 0
Outlined request (w, waiting o) =
    (point : Point) × Places o point × Talk request point w.conversation
Outlined request (w, finished (success r) sent) =
    (address : ℕ) × (r.response_modem ≡ some address)
    × Talk request (verified address) w.conversation
Outlined request (w, finished (failure f) sent) = Ended request w.conversation

outlined :
    (request : Request) (outcome : Outcome) → KeptAlong request outcome → Outlined request outcome
unfolding Kept Outlined
outlined request (w, waiting o) (before, (same, point, placed, t)) = (point, placed, t)
outlined request (w, finished (success r) sent) (before, (address, m, c, q, t)) = (address, m, t)
outlined request (w, finished (failure f) sent) (point, (talk, t, m, e)) = (point, talk, t, e)

-- While a mutation waits, its commands and the answers to them are exactly a conversation of the
-- grammar, and the phase, the pending callback, the count of matching reads and the replacement
-- of the operation are those of the point the conversation has come to, so no answer that the
-- grammar does not have leaves the mutation waiting. After a success the conversation has come
-- to the verification of the modem that the reply names. After a failure it is one of the grammar
-- but for at most one answer at its end.
pub run-Outlined :
    (w : World) (request : Request) (events : List (Surroundings × Event))
    → w.conversation ≡ []
    → Outlined request (outcome_of w request events)
run-Outlined w request events e =
    outlined request (outcome_of w request events) (kept w request events e)

Outlined-Ended :
    (request : Request) (outcome : Outcome)
    → Outlined request outcome
    → Ended request outcome.0.conversation
unfolding Outlined
Outlined-Ended request (w, waiting o) (point, placed, t) = (point, _, t, inl refl)
Outlined-Ended request (w, finished (success r) sent) (address, m, t) = (_, _, t, inl refl)
Outlined-Ended request (w, finished (failure f) sent) ended = ended

-- The resets that a conversation at a point holds.
resets_at : Point → ℕ
resets_at probing = 0
resets_at setting = 0
resets_at (checking n) = 0
resets_at (paused n) = 0
resets_at _ = 1

plain :
    (request : Request)
    → change_command request ≢ reset_command
    → same_text (change_command request) reset_command ≡ false
plain request other = elim (Bool-cases (same_text (change_command request) reset_command)) [
  | inl hit ↦ absurd (other ((same_text_iff _ _).0 hit))
  | inr miss ↦ miss
]

talk-resets :
    {request : Request} {point : Point} {talk : List Entry}
    → change_command request ≢ reset_command
    → Talk request point talk
    → resets talk ≡ resets_at point
unfolding resets_at same_text
talk-resets other begun = refl
talk-resets {request = request} other (changed t r) = rw (plain request other) (talk-resets other t)
talk-resets other (accepted t r) = talk-resets other t
talk-resets other (counted t r f) = talk-resets other t
talk-resets other (missed t r f) = talk-resets other t
talk-resets other (checked_again t) = talk-resets other t
talk-resets other (restarted t r f) = omega (arith, talk-resets other t)
talk-resets other (gone t) = talk-resets other t
talk-resets other (back t n) = talk-resets other t
talk-resets other (confirmed t) = talk-resets other t
talk-resets other (differed t r f) = talk-resets other t
talk-resets other (confirmed_again t) = talk-resets other t
talk-resets other (cleared k t r f) = talk-resets other t
talk-resets other (scanned k t r f) = talk-resets other t
talk-resets other (measured t m) = talk-resets other t

resets_at-le : (point : Point) → resets_at point ≤ 1
unfolding resets_at
resets_at-le probing = omega arith
resets_at-le _ = omega arith

-- A mutation resets the modem at most once, whatever happens, when the command of its change is not
-- itself the reset command.
pub resets-once :
    (w : World) (request : Request) (events : List (Surroundings × Event))
    → w.conversation ≡ []
    → change_command request ≢ reset_command
    → resets (outcome_of w request events).0.conversation ≤ 1
resets-once w request events e other =
    let (point, talk, t, ending) =
      Outlined-Ended request (outcome_of w request events) (run-Outlined w request events e) in
    let n = talk-resets other t in
    elim ending [
      | inl same ↦ rw (same, n) (resets_at-le point)
      | inr (source, response, error, same) ↦ rw (same, n) (resets_at-le point)
    ]
