-- ===== src/Network/Verified.antt =====
-- When a change of modes answers OK (l850gl-mm-bridge/src/network_binding.c).
use luci_app_l850gl_mm.Network.Written.{IsUpdated, update_modes-IsUpdated}
use mathlib.Core.Path.{subst⁻¹, subst}
use luci_app_l850gl_mm.Base.Result.{◌>>=◌, err, ok, required, refuse_if, Result}
use luci_app_l850gl_mm.Network.{
  lookup_error, Section, Binding, BindingResult, modes_are_valid, copy_modes, unique, no_binding,
  ambiguous, device_is_valid, confdir_is_valid, scan_finish, scan_sections, zero_scan,
  cleared_binding,
}
use luci_app_l850gl_mm.Network.Update.{
  find_exact_section, Uci, unique_binding, reads_back, section_at, write_modes, update_modes,
  ModeUpdateResult, update_ambiguous, update_error, update_ok, verify_failed, update_invalid,
  modes_update_at,
}
use luci_app_l850gl_mm.Base.{
  Option, Bytes, List, none, ◌≡◌, some, false, arith, inl, true, inr, refl, codes, not, ◌≢◌, ◌⊎◌,
  ◌||◌, Bool,
}

Result-cases {ε α} :
    {E : Type ε} {A : Type α} (r : Result E A)
    → ((code : E) × (r ≡ err code)) ⊎ ((value : A) × (r ≡ ok value))
Result-cases (err code) = inl (code, refl)
Result-cases (ok value) = inr (value, refl)

-- A result that fails does not say OK.
IsHonest {α} : {A : Type α} → Result ModeUpdateResult A → Type 0
IsHonest (err code) = code ≢ update_ok
IsHonest (ok value) = Unit

>>=-IsHonest {α β} :
    {A : Type α} {B : Type β} (first : Result ModeUpdateResult A)
    (rest : A → Result ModeUpdateResult B)
    → IsHonest first
    → ((value : A) → IsHonest (rest value))
    → IsHonest (first >>= rest)
unfolding IsHonest
>>=-IsHonest (err code) rest h k = h
>>=-IsHonest (ok value) rest h k = k value

required-IsHonest {α} :
    {A : Type α} (code : ModeUpdateResult) (found : Option A)
    → code ≢ update_ok
    → IsHonest (required code found)
unfolding IsHonest
required-IsHonest code none h = h
required-IsHonest code (some value) h = tt

refuse_if-IsHonest :
    (test : Bool) (code : ModeUpdateResult) → code ≢ update_ok → IsHonest (refuse_if test code)
unfolding IsHonest
refuse_if-IsHonest false code h = tt
refuse_if-IsHonest true code h = h

ok-IsHonest {α} : {A : Type α} (value : A) → IsHonest (ok value)
unfolding IsHonest
ok-IsHonest value = tt

unique_binding-IsHonest : (found : BindingResult × Binding) → IsHonest (unique_binding found)
unfolding unique_binding IsHonest
unique_binding-IsHonest (no_binding, b) = λ e. cc
unique_binding-IsHonest (ambiguous, b) = λ e. cc
unique_binding-IsHonest (unique, b) = tt
unique_binding-IsHonest (lookup_error, b) = λ e. cc

module _ (uci : Uci) (device allowedmode preferredmode : Option Bytes) where
  write_modes-IsHonest :
      (loaded : List Section) (before : Binding)
      → IsHonest (write_modes uci device allowedmode preferredmode loaded before)
  unfolding write_modes
  write_modes-IsHonest loaded before =
      let name = some before.section in
      let at = find_exact_section device name loaded in
      >>=-IsHonest (required update_ambiguous at) _
        (required-IsHonest update_ambiguous at (λ e. cc))
        λ index.
          let set = uci.set_option loaded index (codes "allowedmode") allowedmode in
          >>=-IsHonest (required update_error set) _ (required-IsHonest update_error set (λ e. cc))
            λ allowed.
              let set' = uci.set_option allowed index (codes "preferredmode") preferredmode in
              >>=-IsHonest (required update_error set') _
                (required-IsHonest update_error set' (λ e. cc))
                λ changed.
                  >>=-IsHonest (required verify_failed (uci.commit changed)) _
                    (required-IsHonest verify_failed (uci.commit changed) (λ e. cc))
                    λ committed.
                      let back = section_at committed (find_exact_section device name committed) in
                      let differs = not (reads_back allowedmode preferredmode back) in
                      >>=-IsHonest (refuse_if differs verify_failed) _
                        (refuse_if-IsHonest differs verify_failed (λ e. cc))
                        λ _. ok-IsHonest (copy_modes before allowedmode preferredmode)

  update_modes-IsHonest :
      (confdir : Option Bytes)
      → IsHonest (update_modes uci confdir device allowedmode preferredmode)
  unfolding update_modes
  update_modes-IsHonest confdir =
      let invalid =
        not (device_is_valid device) || not (modes_are_valid allowedmode preferredmode) in
      >>=-IsHonest (refuse_if invalid update_invalid) _
        (refuse_if-IsHonest invalid update_invalid (λ e. cc))
        λ _.
          let relative = not (confdir_is_valid confdir) in
          >>=-IsHonest (refuse_if relative update_invalid) _
            (refuse_if-IsHonest relative update_invalid (λ e. cc))
            λ _.
              >>=-IsHonest (required update_error (uci.load confdir)) _
                (required-IsHonest update_error (uci.load confdir) (λ e. cc))
                λ loaded.
                  let scan = scan_finish (scan_sections device loaded zero_scan) in
                  >>=-IsHonest (unique_binding scan) _ (unique_binding-IsHonest scan)
                    (write_modes-IsHonest loaded)

-- A change of modes answers OK only when the modes are valid, the package loads with exactly one
-- interface of the device, both options are set on that interface and committed, and the committed
-- package has exactly one interface of the device, of the same safe name, with both modes; the
-- binding is then the one found with the new modes. With any other answer the binding is cleared.
pub modes_update_at-IsUpdated :
    (uci : Uci) (confdir device allowedmode preferredmode : Option Bytes)
    → let result = modes_update_at uci confdir device allowedmode preferredmode in
      (result.0 ≡ update_ok → IsUpdated uci confdir device allowedmode preferredmode result.1)
      × (result.0 ≢ update_ok → result.1 ≡ cleared_binding)
unfolding modes_update_at IsHonest
modes_update_at-IsUpdated uci confdir device allowedmode preferredmode =
    elim (Result-cases update) [
      | inl (code, e) ↦
          let honest : code ≢ update_ok =
            subst IsHonest e (update_modes-IsHonest uci device allowedmode preferredmode confdir) in
          (λ h. absurd (honest (ground (arith, e, h))), λ _. ground (arith, e))
      | inr (binding, e) ↦ (
        λ _.
            subst⁻¹ (IsUpdated uci confdir device allowedmode preferredmode) (ground (arith, e))
              (update_modes-IsUpdated uci confdir device allowedmode preferredmode e),
        λ n. absurd (n (ground (arith, e))),
      )
    ]
  where
    update : Result ModeUpdateResult Binding
    update = update_modes uci confdir device allowedmode preferredmode
