-- ===== src/Mutation/Methods.antt =====
-- The methods that start a mutation (l850gl-mm-bridge/src/ubus_glib.c): `method_set_cell_lock`,
-- `method_clear_cell_lock` and `l850_requested_modem`, with `l850gl_bridge_find_modem` of
-- l850gl-mm-bridge/src/bridge.c. A message is none when `parse_exact_fields` refuses it.
use luci_app_l850gl_mm.Base.Result.{Result, ok, err, ◌>>=◌, ◌>>◌, refuse_if, required}
use luci_app_l850gl_mm.Base.{
  ℕ, Bool, true, false, not, ◌&&◌, ◌||◌, List, [], ◌∷◌, Option, none, some, ltb, ◌==◌,
  if◌then◌else◌, Bytes, length, same_text,
}
use luci_app_l850gl_mm.CellLock.Command.{build_set_command, command_max}
use luci_app_l850gl_mm.CellLock.Earfcn.{earfcn_to_band}
use luci_app_l850gl_mm.CellLock.{clear_frequency, pci_wildcard}
use luci_app_l850gl_mm.Identity.{identity_is_valid}
use luci_app_l850gl_mm.Mutation.Run.{launch}
use luci_app_l850gl_mm.Mutation.{mutation_set, mutation_clear, Request, World, Outcome}
use luci_app_l850gl_mm.Service.Modems.{
  Surroundings, lte_band_is_supported, supported_lte_bands_available, advanced_retry_after_ms,
}
use luci_app_l850gl_mm.Service.{
  Code, invalid_argument, stale_identity, dependency_unavailable, stale_generation, unsupported,
  busy, not_ready,
}

-- The tables of the other operations: the physical devices of the mutations, and the modems of the
-- scans and of the carrier queries; and `l850gl_bridge_manager_available`.
pub record Tables : Type 0 where
  pub mutations : List Bytes
  pub scans : List ℕ
  pub carrier_queries : List ℕ
  pub manager_available : Bool

pub record SetMessage : Type 0 where
  pub modem_id : Bytes
  pub generation : ℕ
  pub earfcn : ℕ
  pub pci : Option ℕ
  pub confirm : Bool

pub record ClearMessage : Type 0 where
  pub modem_id : Bytes
  pub generation : ℕ
  pub confirm : Bool

-- The arguments of `send_l850_error`.
pub record Refusal : Type 0 where
  pub modem : Option ℕ
  pub code : Code
  pub retryable : Bool
  pub retry_after_ms : ℕ

abbrev refusal : Option ℕ → Code → Bool → ℕ → Refusal
refusal modem code retryable retry_after = record {
  modem = modem;
  code = code;
  retryable = retryable;
  retry_after_ms = retry_after;
}

unfoldable pub find_modem : World → Bytes → List ℕ → Option ℕ
find_modem w modem_id [] = none
find_modem w modem_id (address ∷ rest) =
    let m = w.modems address in
    let later = find_modem w modem_id rest in
    if m.live && same_text m.modem_id modem_id then some address else later

abbrev pub one_of : Bytes → List Bytes → Bool
one_of text [] = false
one_of text (t ∷ ts) = same_text t text || one_of text ts

abbrev pub listed : ℕ → List ℕ → Bool
listed address [] = false
listed address (a ∷ as') = a == address || listed address as'

unfoldable pub has_active_mutation : Surroundings → World → Tables → ℕ → Bool
has_active_mutation s w tables address = elim (s.physdev_of (w.modems address).modem) [
  | none ↦ false
  | some physdev ↦ not (length physdev == 0) && one_of physdev tables.mutations
]

-- The last test of `l850_requested_modem`.
unfoldable pub is_occupied : Surroundings → World → Tables → ℕ → Bool
unfolding has_active_mutation
is_occupied s w tables address =
    has_active_mutation s w tables address
    || listed address tables.scans
    || listed address tables.carrier_queries
    || (w.modems address).l850_voltage_refresh_pending

unfoldable pub requested_modem : Surroundings → World → Tables → Bytes → ℕ → Result Code ℕ
unfolding find_modem is_occupied
requested_modem s w tables modem_id generation = do
  refuse_if (not (identity_is_valid (some modem_id))) invalid_argument
  address ←
      required (if tables.manager_available then stale_identity else dependency_unavailable)
        (find_modem w modem_id w.inventory)
  refuse_if (not ((w.modems address).generation == generation)) stale_generation
  refuse_if (not (s.attests address)) unsupported
  refuse_if (is_occupied s w tables address) busy
  ok address

abbrev pub is_retryable : Code → Bool
is_retryable dependency_unavailable = true
is_retryable busy = true
is_retryable _ = false

-- The modem, or the refusal that the methods send when there is none.
abbrev pub modem_or_refusal : Result Code ℕ → Result Refusal ℕ
modem_or_refusal (ok address) = ok address
modem_or_refusal (err code) = err (refusal none code (is_retryable code) 0)

-- `l850_mutation_start`, which fails when the modem has no physical device.
abbrev pub start : World → (Bytes → Request) → Option Bytes → Refusal → Result Refusal Outcome
start w request none refused = err refused
start w request (some physdev) refused =
    if length physdev == 0 then err refused else ok (launch w (request physdev))

-- Whether another operation, or the cooldown, holds the modem.
abbrev pub is_held : Surroundings → World → ℕ → Bool
is_held s w address =
    let m = w.modems address in
    m.mutation_busy || m.l850_voltage_refresh_pending || ltb 0 (advanced_retry_after_ms s m)

abbrev held : Surroundings → World → ℕ → Refusal
held s w address = refusal (some address) busy true (advanced_retry_after_ms s (w.modems address))

abbrev pub physdev_at : Surroundings → World → ℕ → Option Bytes
physdev_at s w address = s.physdev_of (w.modems address).modem

abbrev pub pci_of : Option ℕ → ℕ
pci_of none = 0
pci_of (some pci) = pci

abbrev pub has_value : Option ℕ → Bool
has_value none = false
has_value (some pci) = true

abbrev no_start : ℕ → Refusal
no_start address = refusal (some address) unsupported false 0

abbrev bad_argument : Option ℕ → Refusal
bad_argument modem = refusal modem invalid_argument false 0

-- `l850gl_l850_build_set_command` into a buffer of its full size.
abbrev pub built_command : ℕ → Option ℕ → Option Bytes
built_command earfcn pci =
    let answer = build_set_command earfcn (has_value pci) (pci_of pci) command_max [] in
    if answer.0 then some answer.1 else none

abbrev pub set_request : SetMessage → World → ℕ → ℕ → Bytes → Bytes → Request
set_request m w band address command physdev = record {
  type = mutation_set;
  original = address;
  original_generation = (w.modems address).generation;
  physdev = physdev;
  set_command = command;
  earfcn = m.earfcn;
  has_pci = has_value m.pci;
  pci = pci_of m.pci;
  band = band;
}

unfoldable pub set_cell_lock : Surroundings → World → Tables → SetMessage → Result Refusal Outcome
unfolding requested_modem
set_cell_lock s w tables m = do
  refuse_if (not m.confirm) (bad_argument none)
  band ← required (bad_argument none) (earfcn_to_band m.earfcn)
  refuse_if (ltb 503 (pci_of m.pci)) (bad_argument none)
  address ← modem_or_refusal (requested_modem s w tables m.modem_id m.generation)
  refuse_if (not (lte_band_is_supported s (w.modems address) band))
      (refusal (some address) not_ready true 0)
  refuse_if (is_held s w address) (held s w address)
  command ← required (bad_argument (some address)) (built_command m.earfcn m.pci)
  start w (set_request m w band address command) (physdev_at s w address) (no_start address)

unfoldable pub method_set_cell_lock :
    Surroundings → World → Tables → Option SetMessage → Result Refusal Outcome
unfolding set_cell_lock
method_set_cell_lock s w tables none = err (bad_argument none)
method_set_cell_lock s w tables (some m) = set_cell_lock s w tables m

abbrev pub clear_request : World → ℕ → Bytes → Request
clear_request w address physdev = record {
  type = mutation_clear;
  original = address;
  original_generation = (w.modems address).generation;
  physdev = physdev;
  set_command = [];
  earfcn = clear_frequency;
  has_pci = false;
  pci = pci_wildcard;
  band = 0;
}

unfoldable pub clear_cell_lock :
    Surroundings → World → Tables → ClearMessage → Result Refusal Outcome
unfolding requested_modem
clear_cell_lock s w tables m = do
  refuse_if (not m.confirm) (bad_argument none)
  address ← modem_or_refusal (requested_modem s w tables m.modem_id m.generation)
  refuse_if (not (supported_lte_bands_available s (w.modems address)))
      (refusal (some address) not_ready true 0)
  refuse_if (is_held s w address) (held s w address)
  start w (clear_request w address) (physdev_at s w address) (no_start address)

unfoldable pub method_clear_cell_lock :
    Surroundings → World → Tables → Option ClearMessage → Result Refusal Outcome
unfolding clear_cell_lock
method_clear_cell_lock s w tables none = err (bad_argument none)
method_clear_cell_lock s w tables (some m) = clear_cell_lock s w tables m
