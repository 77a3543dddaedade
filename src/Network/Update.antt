-- ===== src/Network/Update.antt =====
-- The change of the modes of a bound interface (l850gl-mm-bridge/src/network_binding.c). libuci is
-- the parameter `uci`: a package is the list of its sections, a section is named by its position,
-- and each call gives the package that it leaves, or `none` where it fails.
use luci_app_l850gl_mm.Network.{
  lookup_error, BindingResult, Binding, Section, cleared_binding, no_binding, ambiguous,
  device_is_valid, bounded_equal, section_name_is_safe, unique, copy_modes, section_max,
  modes_are_valid, mode_max, is_match, confdir_is_valid, scan_finish, scan_sections, zero_scan,
}
use luci_app_l850gl_mm.Base.{
  ℕ, Option, List, Bytes, some, not, none, if◌then◌else◌, Bool, ◌&&◌, false, get_elem?, ◌==◌, codes,
  ◌∷◌, ◌||◌, ◌+◌, [],
}
use luci_app_l850gl_mm.Base.Result.{Result, err, ok, required, refuse_if, ◌>>=◌, ◌>>◌}

-- `enum L850GLNetworkModeUpdateResult`.
pub data ModeUpdateResult : Type 0 where
  update_error : ModeUpdateResult
  update_none : ModeUpdateResult
  update_ok : ModeUpdateResult
  update_ambiguous : ModeUpdateResult
  update_invalid : ModeUpdateResult
  verify_failed : ModeUpdateResult

-- `uci_load` of a configuration directory, `uci_set` of an option and `uci_commit`.
pub record Uci : Type 0 where
  pub load : Option Bytes → Option (List Section)
  pub set_option : List Section → ℕ → Bytes → Option Bytes → Option (List Section)
  pub commit : List Section → Option (List Section)

unfoldable pub is_exact_section : Option Bytes → Section → Bool
is_exact_section name s =
    not s.anonymous && section_name_is_safe s.name && bounded_equal s.name name section_max

-- The loop of `find_exact_section` from a position on, with `matches` and `match`.
unfoldable pub find_exact_from :
    Option Bytes → Option Bytes → List Section → ℕ → ℕ → Option ℕ → Option ℕ
find_exact_from device name [] index matches found = if matches == 1 then found else none
find_exact_from device name (s ∷ ss) index matches found =
    let passed = find_exact_from device name ss (index + 1) matches found in
    let counted = find_exact_from device name ss (index + 1) (matches + 1) found in
    let matched = find_exact_from device name ss (index + 1) (matches + 1) (some index) in
    if not (is_match device s)
    then passed
    else if not (is_exact_section name s)
    then counted
    else matched

unfoldable pub find_exact_section : Option Bytes → Option Bytes → List Section → Option ℕ
find_exact_section device name sections = find_exact_from device name sections 0 0 none

-- `scan_finish` and the results that it leads to.
unfoldable pub unique_binding : BindingResult × Binding → Result ModeUpdateResult Binding
unique_binding (no_binding, b) = err update_none
unique_binding (ambiguous, b) = err update_ambiguous
unique_binding (unique, b) = ok b
unique_binding (lookup_error, b) = err update_error

-- The section that is read back has the modes.
abbrev pub reads_back : Option Bytes → Option Bytes → Option Section → Bool
reads_back allowedmode preferredmode none = false
reads_back allowedmode preferredmode (some s) =
    bounded_equal s.allowedmode allowedmode mode_max
    && bounded_equal s.preferredmode preferredmode mode_max

abbrev pub section_at : List Section → Option ℕ → Option Section
section_at sections none = none
section_at sections (some index) = get_elem? sections index

module _ (uci : Uci) where
  -- From the unique binding to the end, with what is loaded.
  unfoldable pub write_modes :
      Option Bytes
      → Option Bytes
      → Option Bytes
      → List Section
      → Binding
      → Result ModeUpdateResult Binding
  write_modes device allowedmode preferredmode loaded binding = do
    let name = some binding.section
    index ← required update_ambiguous (find_exact_section device name loaded)
    allowed ← required update_error (uci.set_option loaded index (codes "allowedmode") allowedmode)
    changed ←
        required update_error (uci.set_option allowed index (codes "preferredmode") preferredmode)
    committed ← required verify_failed (uci.commit changed)
    let back = section_at committed (find_exact_section device name committed)
    refuse_if (not (reads_back allowedmode preferredmode back)) verify_failed
    ok (copy_modes binding allowedmode preferredmode)

  unfoldable pub update_modes :
      Option Bytes → Option Bytes → Option Bytes → Option Bytes → Result ModeUpdateResult Binding
  update_modes confdir device allowedmode preferredmode = do
    refuse_if (not (device_is_valid device) || not (modes_are_valid allowedmode preferredmode))
        update_invalid
    refuse_if (not (confdir_is_valid confdir)) update_invalid
    loaded ← required update_error (uci.load confdir)
    binding ← unique_binding (scan_finish (scan_sections device loaded zero_scan))
    write_modes device allowedmode preferredmode loaded binding

  -- The label `out`.
  unfoldable pub modes_update_at :
      Option Bytes → Option Bytes → Option Bytes → Option Bytes → ModeUpdateResult × Binding
  modes_update_at confdir device allowedmode preferredmode =
      elim (update_modes confdir device allowedmode preferredmode) [
        | err code ↦ (code, cleared_binding)
        | ok binding ↦ (update_ok, binding)
      ]

  abbrev pub modes_update : Option Bytes → Option Bytes → Option Bytes → ModeUpdateResult × Binding
  modes_update device allowedmode preferredmode =
      modes_update_at none device allowedmode preferredmode
