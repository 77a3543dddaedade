-- ===== src/Mutation/Guards.antt =====
-- The tests of the mutation handlers (l850gl-mm-bridge/src/ubus_glib.c): whether the modems are
-- still those of the operation, whether an error leaves the outcome open, and the search for the
-- modem that replaces the original after the reset.
use luci_app_l850gl_mm.Base.{
  ℕ, Bool, true, false, not, ◌&&◌, ◌||◌, List, [], ◌∷◌, Option, none, some, ◌==◌, if◌then◌else◌,
  Bytes, codes, same_text,
}
use luci_app_l850gl_mm.Mutation.{Operation, World}
use luci_app_l850gl_mm.Service.Errors.{
  advanced_error_has_unknown_outcome, remote_error_has_suffix, remote_of,
}
use luci_app_l850gl_mm.Service.Modems.{
  ModemState, registered, disconnecting, connecting, connected, other_state, Surroundings,
}
use luci_app_l850gl_mm.Service.{GError}

-- `physdev != NULL && g_str_equal(physdev, operation->physdev)`.
abbrev pub same_physdev : Option Bytes → Bytes → Bool
same_physdev none physdev = false
same_physdev (some found) physdev = same_text found physdev

-- The test that both functions make of their modem.
unfoldable pub modem_is_valid : Surroundings → World → ℕ → ℕ → Bytes → ℕ → Bool
modem_is_valid s w address generation physdev source =
    let m = w.modems address in
    m.live
    && m.generation == generation
    && source == m.modem
    && s.attests address
    && same_physdev (s.physdev_of m.modem) physdev

unfoldable pub original_is_valid : Surroundings → World → Operation → ℕ → Bool
unfolding modem_is_valid
original_is_valid s w o source =
    modem_is_valid s w o.original o.original_generation o.physdev source

unfoldable pub replacement_is_valid : Surroundings → World → Operation → ℕ → Bool
unfolding modem_is_valid
replacement_is_valid s w o source = elim o.replacement [
  | none ↦ false
  | some address ↦ modem_is_valid s w address o.replacement_generation o.physdev source
]

unfoldable pub error_is_uncertain : Operation → Option GError → Bool
unfolding advanced_error_has_unknown_outcome remote_error_has_suffix
error_is_uncertain o error =
    o.timed_out
    || o.transport_lost
    || advanced_error_has_unknown_outcome error (remote_of error)
    || remote_error_has_suffix (remote_of error) (codes ".Core.Cancelled")

abbrev pub is_registered : ModemState → Bool
is_registered registered = true
is_registered disconnecting = true
is_registered connecting = true
is_registered connected = true
is_registered other_state = false

-- The tests of the loop of `l850_mutation_find_replacement` that do not `continue`.
unfoldable pub is_candidate : Surroundings → World → Operation → ℕ → Bool
is_candidate s w o address =
    let m = w.modems address in
    not (address == o.original || m.generation == o.original_generation)
    && same_physdev (s.physdev_of m.modem) o.physdev
    && s.attests address

-- What the search answers: NULL, NULL with `*ambiguous`, or the match.
pub data Search : Type 0 where
  nothing_found : Search
  ambiguous : Search
  match_found : ℕ → Search

abbrev search_result : Option ℕ → Search
search_result none = nothing_found
search_result (some address) = match_found address

-- The loop, with the match so far.
unfoldable pub search_modems : Surroundings → World → Operation → Option ℕ → List ℕ → Search
unfolding is_candidate
search_modems s w o found [] = search_result found
search_modems s w o found (address ∷ rest) =
    let skip = search_modems s w o found rest in
    let take = search_modems s w o (some address) rest in
    if is_candidate s w o address then elim found [ none ↦ take | some other ↦ ambiguous ] else skip

unfoldable pub find_replacement : Surroundings → World → Operation → Search
unfolding search_modems
find_replacement s w o = search_modems s w o none w.inventory
