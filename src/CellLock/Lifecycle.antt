-- ===== src/CellLock/Lifecycle.antt =====
-- The states of a cell-lock change, their names, and the transitions that
-- `l850gl_l850_state_transition_is_valid` allows (l850gl-mm-bridge/src/l850_cell.c).
use mathlib.Core.Bool.{false≢true}
use luci_app_l850gl_mm.Base.{
  ℕ, ◌+◌, ◌≤◌, ◌<◌, Bool, true, false, List, [], ◌∷◌, Option, none, some, ◌≡◌, ◌⊎◌, inl, inr, refl,
  sym, ◌∙◌, arith, if◌then◌else◌, Bytes, codes, length, same_text, ◌≢◌,
}
use luci_app_l850gl_mm.CellLock.{
  empty, oversized, malformed, unsupported_type, sentinel, range, too_many, ParseResult, parse_ok,
  failed,
}

-- `enum L850GLL850State`.
pub data State : Type 0 where
  available unsupported_build unsupported_protocol scan_ready : State
  lock_applied_reset_required resetting applied_verified cleared_verified : State
  reprobe_timeout registration_timeout verification_mismatch outcome_unknown : State

unfoldable pub state_transition_is_valid : State → State → Bool
state_transition_is_valid available scan_ready = true
state_transition_is_valid scan_ready lock_applied_reset_required = true
state_transition_is_valid scan_ready outcome_unknown = true
state_transition_is_valid lock_applied_reset_required resetting = true
state_transition_is_valid lock_applied_reset_required outcome_unknown = true
state_transition_is_valid resetting applied_verified = true
state_transition_is_valid resetting cleared_verified = true
state_transition_is_valid resetting reprobe_timeout = true
state_transition_is_valid resetting registration_timeout = true
state_transition_is_valid resetting verification_mismatch = true
state_transition_is_valid resetting outcome_unknown = true
state_transition_is_valid _ _ = false

unfoldable pub state_name : State → Bytes
state_name available = codes "available"
state_name unsupported_build = codes "unsupported_build"
state_name unsupported_protocol = codes "unsupported_protocol"
state_name scan_ready = codes "scan_ready"
state_name lock_applied_reset_required = codes "lock_applied_reset_required"
state_name resetting = codes "resetting"
state_name applied_verified = codes "applied_verified"
state_name cleared_verified = codes "cleared_verified"
state_name reprobe_timeout = codes "reprobe_timeout"
state_name registration_timeout = codes "registration_timeout"
state_name verification_mismatch = codes "verification_mismatch"
state_name outcome_unknown = codes "outcome_unknown"

unfoldable pub cell_parse_result_name : ParseResult → Bytes
cell_parse_result_name parse_ok = codes "ok"
cell_parse_result_name (failed empty) = codes "empty"
cell_parse_result_name (failed oversized) = codes "oversized"
cell_parse_result_name (failed malformed) = codes "malformed"
cell_parse_result_name (failed unsupported_type) = codes "unsupported_type"
cell_parse_result_name (failed sentinel) = codes "sentinel"
cell_parse_result_name (failed range) = codes "range"
cell_parse_result_name (failed too_many) = codes "too_many"

-- A run of valid transitions from a state: the states that it goes through.
pub data Run : State → List State → State → Type 0 where
  still : {s : State} → Run s [] s
  next :
      {s t u : State} {trace : List State}
      → state_transition_is_valid s t ≡ true
      → Run t trace u
      → Run s (t ∷ trace) u

-- How far a change has come; every transition goes on.
stage : State → ℕ
stage available = 0
stage scan_ready = 1
stage lock_applied_reset_required = 2
stage resetting = 3
stage _ = 4

stage-le : (s : State) → stage s ≤ 4
unfolding stage
stage-le available = omega arith
stage-le _ = omega arith

stage_grows : (s t : State) → state_transition_is_valid s t ≡ true → stage s < stage t
unfolding state_transition_is_valid stage
stage_grows s t h = ground arith

stage-length : {s t : State} {trace : List State} → Run s trace t → stage s + length trace ≤ stage t
stage-length still = omega arith
stage-length (next {s = s} {t = u} v r) = omega (arith, stage_grows s u v, stage-length r)

-- Every run of valid transitions ends: it has at most four steps, whatever state it starts in.
pub Run-bounded : {s t : State} {trace : List State} → Run s trace t → length trace ≤ 4
Run-bounded {t = t} r = omega (arith, stage-length r, stage-le t)

-- The states in which a change ends with its outcome confirmed.
abbrev pub IsVerified : State → Type 0
IsVerified s = (s ≡ applied_verified) ⊎ (s ≡ cleared_verified)

after_end : (s t : State) → stage s ≡ 4 → state_transition_is_valid s t ≡ false
unfolding state_transition_is_valid stage
after_end s t h = ground arith

after_resetting : (s t : State) → s ≡ resetting → state_transition_is_valid s t ≡ true → stage t ≡ 4
unfolding state_transition_is_valid stage
after_resetting s t e h = ground arith

stuck_at_end : {s t : State} {trace : List State} → stage s ≡ 4 → Run s trace t → trace ≡ []
stuck_at_end e still = refl
stuck_at_end e (next {s = s} {t = u} v r) = absurd (false≢true (sym (after_end s u e) ∙ v))

last_state : {s t : State} {trace : List State} → trace ≡ [] → Run s trace t → s ≡ t
last_state e still = refl
last_state e (next v r) = cc

from_resetting :
    {s t : State} {trace : List State}
    → s ≡ resetting
    → IsVerified t
    → Run s trace t
    → trace ≡ t ∷ []
from_resetting {s} e v still = absurd (ground arith)
from_resetting e v (next {s = s} {t = u} {trace = rest} h r) =
    let over : rest ≡ [] = stuck_at_end (after_resetting s u e h) r in
    let same = last_state over r in cc

-- What may follow a state on the way to a verified end.
way_on :
    (s t u : State)
    → IsVerified u
    → state_transition_is_valid s t ≡ true
    → (s ≡ available → t ≡ scan_ready)
      × (s ≡ scan_ready → (t ≡ lock_applied_reset_required) ⊎ (stage t ≡ 4) × (t ≢ u))
      × (s ≡ lock_applied_reset_required → (t ≡ resetting) ⊎ (stage t ≡ 4) × (t ≢ u))
unfolding state_transition_is_valid stage
way_on s t u v h = (λ e. ground arith, λ e. ground arith, λ e. ground arith)

from_lock_applied :
    {s t : State} {trace : List State}
    → s ≡ lock_applied_reset_required
    → IsVerified t
    → Run s trace t
    → trace ≡ resetting ∷ t ∷ []
from_lock_applied {s} e v still = absurd (ground arith)
from_lock_applied {t = t} e v (next {s = s} {t = u} {trace = rest} h r) =
    elim ((way_on s u t v h).2 e) [
      | inl on ↦ let tail = from_resetting on v r in cc
      | inr (ended, other) ↦ absurd (other (last_state (stuck_at_end ended r) r))
    ]

from_scan_ready :
    {s t : State} {trace : List State}
    → s ≡ scan_ready
    → IsVerified t
    → Run s trace t
    → trace ≡ lock_applied_reset_required ∷ resetting ∷ t ∷ []
from_scan_ready {s} e v still = absurd (ground arith)
from_scan_ready {t = t} e v (next {s = s} {t = u} {trace = rest} h r) =
    elim ((way_on s u t v h).1 e) [
      | inl on ↦ let tail = from_lock_applied on v r in cc
      | inr (ended, other) ↦ absurd (other (last_state (stuck_at_end ended r) r))
    ]

from_available :
    {s t : State} {trace : List State}
    → s ≡ available
    → IsVerified t
    → Run s trace t
    → trace ≡ scan_ready ∷ lock_applied_reset_required ∷ resetting ∷ t ∷ []
from_available {s} e v still = absurd (ground arith)
from_available {t = t} e v (next {s = s} {t = u} {trace = rest} h r) =
    let on = (way_on s u t v h).0 e in let tail = from_scan_ready on v r in cc

-- A run of valid transitions from the available state to a verified outcome goes through
-- `scan_ready`, `lock_applied_reset_required` and `resetting`, in this order and through no other
-- state: nothing is reported as verified without the reset.
pub Run-verified :
    {t : State} {trace : List State}
    → Run available trace t
    → IsVerified t
    → trace ≡ scan_ready ∷ lock_applied_reset_required ∷ resetting ∷ t ∷ []
Run-verified r v = from_available refl v r

-- The state whose name a text is.
abbrev all_states : List State
all_states =
    available ∷ unsupported_build ∷ unsupported_protocol ∷ scan_ready ∷ lock_applied_reset_required
    ∷ resetting ∷ applied_verified ∷ cleared_verified ∷ reprobe_timeout ∷ registration_timeout
    ∷ verification_mismatch ∷ outcome_unknown ∷ []

named : List State → Bytes → Option State
named [] name = none
named (s ∷ ss) name = if same_text (state_name s) name then some s else named ss name

named-state_name : (s : State) → named all_states (state_name s) ≡ some s
unfolding named state_name same_text
named-state_name available = refl
named-state_name _ = refl

-- No two states have one name.
pub state_name-injective : (s t : State) → state_name s ≡ state_name t → s ≡ t
state_name-injective s t e = cc (named-state_name s, named-state_name t, e)
