-- ===== src/Network/Written.antt =====
-- What a change of modes that ends well has written and read back
-- (l850gl-mm-bridge/src/network_binding.c).
use luci_app_l850gl_mm.Network.Exact.{find_exact_section-IsExact, IsExact}
use luci_app_l850gl_mm.Base.Result.{
  ok, required, required-eq-ok, refuse_if, refuse_if-eq-ok, >>=-eq-ok,
}
use luci_app_l850gl_mm.Network.Unique.{IsBinding, scan-IsBinding}
use luci_app_l850gl_mm.Network.{
  lookup_error, Section, bounded_equal, Binding, BindingResult, modes_are_valid, mode_max,
  copy_modes, unique, no_binding, ambiguous, device_is_valid, confdir_is_valid, scan_finish,
  scan_sections, zero_scan,
}
use luci_app_l850gl_mm.Network.Update.{
  find_exact_section, Uci, unique_binding, reads_back, section_at, write_modes, update_modes,
  update_ambiguous, update_error, verify_failed, update_invalid,
}
use luci_app_l850gl_mm.Base.{
  ℕ, Option, Bytes, List, none, ◌≡◌, some, arith, inl, true, inr, same_text_iff, Option-cases,
  codes, not, ◌||◌,
}

bounded_equal-eq :
    (left right : Option Bytes) (maximum : ℕ)
    → bounded_equal left right maximum ≡ true
    → left ≡ right
bounded_equal-eq (some left) (some right) maximum h = ground (arith, h, same_text_iff left right)
bounded_equal-eq none right maximum h = cc
bounded_equal-eq (some left) none maximum h = cc

-- What is read back of the committed sections.
pub IsReadBack : List Section → Option Bytes → Option Bytes → Option Bytes → Option Bytes → Type 0
IsReadBack committed device name allowedmode preferredmode =
    (place : ℕ) × (exact : IsExact device name committed place) × (exact.section.allowedmode
      ≡ allowedmode)
    × (exact.section.preferredmode ≡ preferredmode)

reads_back-IsReadBack :
    (committed : List Section) (device name allowedmode preferredmode : Option Bytes)
    → reads_back allowedmode preferredmode
        (section_at committed (find_exact_section device name committed))
      ≡ true
    → IsReadBack committed device name allowedmode preferredmode
unfolding IsReadBack
reads_back-IsReadBack committed device name allowedmode preferredmode h =
    elim (Option-cases (find_exact_section device name committed)) [
      | inl e ↦ absurd (ground (arith, h, e))
      | inr (place, e) ↦
          let exact = find_exact_section-IsExact device name committed place e in
          let reads : reads_back allowedmode preferredmode (some exact.section) ≡ true =
            ground (arith, h, e, exact.place) in
          (
            place,
            exact,
            bounded_equal-eq exact.section.allowedmode allowedmode mode_max (ground (arith, reads)),
            bounded_equal-eq exact.section.preferredmode preferredmode mode_max
                (ground (arith, reads)),
          )
    ]

unique_binding-ok :
    (found : BindingResult × Binding) {binding : Binding}
    → unique_binding found ≡ ok binding
    → found ≡ (unique, binding)
unfolding unique_binding
unique_binding-ok (no_binding, b) h = cc
unique_binding-ok (ambiguous, b) h = cc
unique_binding-ok (unique, b) h = ground (arith, h)
unique_binding-ok (lookup_error, b) h = cc

module _ (uci : Uci) (device allowedmode preferredmode : Option Bytes) where
  -- What a write from a binding does, when it ends well.
  pub record IsWritten (loaded : List Section) (before binding : Binding) : Type 0 where
    pub index : ℕ
    pub target : IsExact device (some before.section) loaded index
    pub allowed : List Section
    pub allowed_set : uci.set_option loaded index (codes "allowedmode") allowedmode ≡ some allowed
    pub changed : List Section
    pub preferred_set :
        uci.set_option allowed index (codes "preferredmode") preferredmode ≡ some changed
    pub committed : List Section
    pub is_committed : uci.commit changed ≡ some committed
    pub back : IsReadBack committed device (some before.section) allowedmode preferredmode
    pub result : binding ≡ copy_modes before allowedmode preferredmode

  write_modes-IsWritten :
      (loaded : List Section) (before : Binding) {binding : Binding}
      → write_modes uci device allowedmode preferredmode loaded before ≡ ok binding
      → IsWritten loaded before binding
  unfolding write_modes
  write_modes-IsWritten loaded before h =
      let name = some before.section in
      let (index, found, h₁) =
        >>=-eq-ok (required update_ambiguous (find_exact_section device name loaded)) _ h in
      let (allowed, allowed_set, h₂) =
        >>=-eq-ok
          (required update_error (uci.set_option loaded index (codes "allowedmode") allowedmode)) _
          h₁ in
      let (changed, preferred_set, h₃) =
        >>=-eq-ok
          (required update_error
            (uci.set_option allowed index (codes "preferredmode") preferredmode))
          _ h₂ in
      let (committed, is_committed, h₄) =
        >>=-eq-ok (required verify_failed (uci.commit changed)) _ h₃ in
      let back = section_at committed (find_exact_section device name committed) in
      let (_, verified, h₅) =
        >>=-eq-ok (refuse_if (not (reads_back allowedmode preferredmode back)) verify_failed) _
          h₄ in
      let reads =
        refuse_if-eq-ok (not (reads_back allowedmode preferredmode back)) verify_failed verified in
      record {
        index = index;
        target =
            find_exact_section-IsExact device name loaded index
              (required-eq-ok update_ambiguous (find_exact_section device name loaded) found);
        allowed = allowed;
        allowed_set =
            required-eq-ok update_error
              (uci.set_option loaded index (codes "allowedmode") allowedmode) allowed_set;
        changed = changed;
        preferred_set =
            required-eq-ok update_error
              (uci.set_option allowed index (codes "preferredmode") preferredmode) preferred_set;
        committed = committed;
        is_committed = required-eq-ok verify_failed (uci.commit changed) is_committed;
        back =
            reads_back-IsReadBack committed device name allowedmode preferredmode
              (ground (arith, reads));
        result = ground (arith, h₅);
      }

-- A change that is written and verified.
pub record IsUpdated (uci : Uci) (confdir device allowedmode preferredmode : Option Bytes)
    (binding : Binding) : Type 0 where
  pub modes_valid : modes_are_valid allowedmode preferredmode ≡ true
  pub loaded : List Section
  pub is_loaded : uci.load confdir ≡ some loaded
  pub before : Binding
  pub bound : IsBinding device loaded before
  pub written : IsWritten uci device allowedmode preferredmode loaded before binding

pub update_modes-IsUpdated :
    (uci : Uci) (confdir device allowedmode preferredmode : Option Bytes) {binding : Binding}
    → update_modes uci confdir device allowedmode preferredmode ≡ ok binding
    → IsUpdated uci confdir device allowedmode preferredmode binding
unfolding update_modes
update_modes-IsUpdated uci confdir device allowedmode preferredmode h =
    let invalid = not (device_is_valid device) || not (modes_are_valid allowedmode preferredmode) in
    let (_, passed, h₁) = >>=-eq-ok (refuse_if invalid update_invalid) _ h in
    let valid = refuse_if-eq-ok invalid update_invalid passed in
    let (_, _, h₂) = >>=-eq-ok (refuse_if (not (confdir_is_valid confdir)) update_invalid) _ h₁ in
    let (loaded, load, h₃) = >>=-eq-ok (required update_error (uci.load confdir)) _ h₂ in
    let scan = scan_finish (scan_sections device loaded zero_scan) in
    let (before, bound, h₄) = >>=-eq-ok (unique_binding scan) _ h₃ in
    record {
      modes_valid = ground (arith, valid);
      loaded = loaded;
      is_loaded = required-eq-ok update_error (uci.load confdir) load;
      before = before;
      bound = (scan-IsBinding device loaded before).0 (unique_binding-ok scan bound);
      written = write_modes-IsWritten uci device allowedmode preferredmode loaded before h₄;
    }
