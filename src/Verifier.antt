-- ===== src/Verifier.antt =====
-- The policy of the NVM mutations (l850gl-mm-bridge/src/l850_mutation_policy.c): the verifier counts
-- matching reads of the lock state, and a finished reset says whether the modem is probed again.
-- `other_…` stands for an enum argument that is none of the named values.
use luci_app_l850gl_mm.Base.{
  ℕ, ◌+◌, ◌≤◌, Bool, true, false, List, [], ◌∷◌, ltb, leb, ◌==◌, if◌then◌else◌, ◌≡◌, ◌⊎◌, inl, ◌↔◌,
  refl, arith, ap,
}

pub data VerifyStage : Type 0 where
  pre_reset : VerifyStage
  post_reset : VerifyStage
  other_stage : VerifyStage

pub data Observation : Type 0 where
  match_observed : Observation
  mismatch : Observation
  invalid : Observation
  other_observation : Observation

pub data Decision : Type 0 where
  retry : Decision
  ready : Decision
  fail_invalid : Decision

pub data ResetFinish : Type 0 where
  clean : ResetFinish
  uncertain : ResetFinish
  unclassified_failure : ResetFinish
  definite_failure : ResetFinish
  other_finish : ResetFinish

-- `L850GLNvmVerifier`.
pub record Verifier : Type 0 where
  pub stage : VerifyStage
  pub consecutive_matches : ℕ

abbrev pub required_matches : VerifyStage → ℕ
required_matches pre_reset = 2
required_matches post_reset = 1
required_matches other_stage = 0

abbrev pub verifier_init : VerifyStage → Verifier
verifier_init stage = record { stage = stage; consecutive_matches = 0 }

abbrev reset_matches : Verifier → Verifier
reset_matches v = record v { consecutive_matches = 0 }

-- A match, when `required` matches in a row are wanted.
count_match : ℕ → Verifier → Decision × Verifier
count_match required v =
    let n =
      if ltb v.consecutive_matches required
      then v.consecutive_matches + 1
      else v.consecutive_matches in
    (if leb required n then ready else retry, record v { consecutive_matches = n })

unfoldable pub verifier_observe : Verifier → Observation → Decision × Verifier
unfolding count_match
verifier_observe v observation =
    if required_matches v.stage == 0 then (fail_invalid, reset_matches v) else elim observation [
      | invalid ↦ (fail_invalid, reset_matches v)
      | mismatch ↦ (retry, reset_matches v)
      | other_observation ↦ (fail_invalid, reset_matches v)
      | match_observed ↦ count_match (required_matches v.stage) v
    ]

abbrev pub reset_finish_should_reprobe : ResetFinish → Bool
reset_finish_should_reprobe clean = true
reset_finish_should_reprobe uncertain = true
reset_finish_should_reprobe unclassified_failure = true
reset_finish_should_reprobe definite_failure = false
reset_finish_should_reprobe other_finish = false

-- A verifier of the stage after some observations, the newest first.
abbrev pub after_observations : VerifyStage → List Observation → Verifier
after_observations stage [] = verifier_init stage
after_observations stage (o ∷ older) = (verifier_observe (after_observations stage older) o).1

-- The number of matches without a break up to the newest observation.
abbrev pub unbroken : List Observation → ℕ
unbroken [] = 0
unbroken (match_observed ∷ older) = 1 + unbroken older
unbroken (o ∷ older) = 0

-- What the verifier knows of the observations.
record IsCount (stage : VerifyStage) (v : Verifier) (n : ℕ) : Type 0 where
  same_stage : v.stage ≡ stage
  bounded : v.consecutive_matches ≤ required_matches stage
  counted : v.consecutive_matches ≤ n
  exact : (v.consecutive_matches ≡ n) ⊎ (v.consecutive_matches ≡ required_matches stage)

verifier_observe-IsCount :
    (stage : VerifyStage) (v : Verifier) (o : Observation) (older : List Observation)
    → IsCount stage v (unbroken older)
    → IsCount stage (verifier_observe v o).1 (unbroken (o ∷ older))
unfolding verifier_observe
verifier_observe-IsCount stage v o older i =
    let r : required_matches v.stage ≡ required_matches stage = ap required_matches i.same_stage in
    elim o [
      | match_observed ↦ record {
        same_stage = ground (arith, i.same_stage);
        bounded = ground (arith, r, i.bounded);
        counted = ground (arith, r, i.counted);
        exact = ground (arith, r, i.exact, i.bounded);
      }
      | _ ↦ record {
        same_stage = ground (arith, i.same_stage);
        bounded = ground arith;
        counted = ground arith;
        exact = ground arith;
      }
    ]

after_observations-IsCount :
    (stage : VerifyStage) (os : List Observation)
    → IsCount stage (after_observations stage os) (unbroken os)
after_observations-IsCount stage [] = record {
  same_stage = refl;
  bounded = omega arith;
  counted = omega arith;
  exact = inl refl;
}
after_observations-IsCount stage (o ∷ older) =
    verifier_observe-IsCount stage (after_observations stage older) o older
      (after_observations-IsCount stage older)

ready_iff :
    (stage : VerifyStage) (v : Verifier) (o : Observation) (older : List Observation)
    → IsCount stage v (unbroken older)
    → ((verifier_observe v o).0 ≡ ready)
      ↔ ((1 ≤ required_matches stage) × (required_matches stage ≤ unbroken (o ∷ older)))
unfolding verifier_observe
ready_iff stage v o older i =
    let r : required_matches v.stage ≡ required_matches stage = ap required_matches i.same_stage in
    elim o [
      | match_observed ↦ ground (arith, r, i.bounded, i.counted, i.exact)
      | _ ↦ ground (arith, r)
    ]

-- After any observations from the start of a stage, the next one is answered with READY exactly if
-- the stage wants at least one match and the last observations, this one included, are as many
-- matches in a row as the stage wants.
pub verifier_observe-ready :
    (stage : VerifyStage) (o : Observation) (older : List Observation)
    → ((verifier_observe (after_observations stage older) o).0 ≡ ready)
      ↔ ((1 ≤ required_matches stage) × (required_matches stage ≤ unbroken (o ∷ older)))
verifier_observe-ready stage o older =
    ready_iff stage (after_observations stage older) o older
      (after_observations-IsCount stage older)
