-- ===== src/Mutation/Admission.antt =====
-- When a request for a set starts a mutation (l850gl-mm-bridge/src/ubus_glib.c), without the
-- functions that decide it.
use luci_app_l850gl_mm.Mutation.Advertised.{
  Advertises, lte_band_is_supported-Advertises, built_command-text, command_of,
}
use luci_app_l850gl_mm.CellLock.Earfcn.Exact.{Holds, earfcn_to_band_sound}
use luci_app_l850gl_mm.Mutation.Run.{launch}
use luci_app_l850gl_mm.CellLock.Earfcn.{EarfcnRange, earfcn_ranges}
use luci_app_l850gl_mm.Number.Print.{format_decimal}
use mathlib.Core.List.{Memᴰ}
use luci_app_l850gl_mm.Base.{
  ◌≡◌, All, ltb, some, ◌++◌, arith, false, ◌≢◌, length, ◌∷◌, ◌≤◌, true, same_text_iff, Bool-cases,
  ◌&&◌, same_text, inl, [], inr, ap, refl, Option, none, codes, if◌then◌else◌,
}
use luci_app_l850gl_mm.Service.Modems.{Surroundings, advanced_retry_after_ms, cooldown_remaining_ms}
use luci_app_l850gl_mm.Mutation.Methods.{
  find_modem, is_occupied, Tables, has_active_mutation, physdev_at, is_held, one_of, listed, pci_of,
  SetMessage, has_value, method_set_cell_lock, set_request,
}
use luci_app_l850gl_mm.Base.Result.{ok}
use luci_app_l850gl_mm.Mutation.Tested.{method_set_cell_lock-PassesTests}
use luci_app_l850gl_mm.Mutation.{World, Outcome, ℕ, Bytes, List, Modem, Request, mutation_set}

-- The first live modem of the inventory with the identity.
pub record IsFirstLive (w : World) (modem_id : Bytes) (addresses : List ℕ) (address : ℕ)
    : Type 0 where
  pub before : List ℕ
  pub after : List ℕ
  pub split : addresses ≡ before ++ (address ∷ after)
  pub alive : (w.modems address).live ≡ true
  pub named : (w.modems address).modem_id ≡ modem_id
  pub others :
      All
        (λ (other : ℕ). ¬ (((w.modems other).live ≡ true) × ((w.modems other).modem_id ≡ modem_id)))
        before

find_modem-IsFirstLive :
    (w : World) (modem_id : Bytes) (addresses : List ℕ) {address : ℕ}
    → find_modem w modem_id addresses ≡ some address
    → IsFirstLive w modem_id addresses address
unfolding find_modem
find_modem-IsFirstLive w modem_id [] h = absurd (ground (arith, h))
find_modem-IsFirstLive w modem_id (a ∷ rest) {address} h =
    let same_id = same_text_iff (w.modems a).modem_id modem_id in
    elim (Bool-cases ((w.modems a).live && same_text (w.modems a).modem_id modem_id)) [
      | inl e ↦
          let same : a ≡ address = ground (arith, h, e) in
          rw⁻¹ same (record {
            before = [];
            after = rest;
            split = refl;
            alive = ground (arith, e);
            named = ground (arith, e, same_id);
            others = tt;
          })
      | inr e ↦
          let later = find_modem-IsFirstLive w modem_id rest (rw e at h) in
          record {
            before = a ∷ later.before;
            after = later.after;
            split = ap (◌∷◌ a) later.split;
            alive = later.alive;
            named = later.named;
            others = (λ (live, named). ground (arith, e, live, named, same_id), later.others);
          }
    ]

-- No other operation of the service concerns the modem.
pub record IsFree (s : Surroundings) (w : World) (tables : Tables) (address : ℕ) (physdev : Bytes)
    : Type 0 where
  pub unchanged : All (λ (p : Bytes). p ≢ physdev) tables.mutations
  pub unscanned : All (λ (a : ℕ). a ≢ address) tables.scans
  pub unqueried : All (λ (a : ℕ). a ≢ address) tables.carrier_queries
  pub refreshed : (w.modems address).l850_voltage_refresh_pending ≡ false
  pub idle : (w.modems address).mutation_busy ≡ false
  pub rested : (w.modems address).advanced_cooldown_until ≤ s.now

one_of-others :
    (text : Bytes) (texts : List Bytes)
    → one_of text texts ≡ false
    → All (λ (t : Bytes). t ≢ text) texts
one_of-others text [] h = tt
one_of-others text (t ∷ ts) h =
    (λ e. ground (arith, h, e, same_text_iff t text), one_of-others text ts (ground (arith, h)))

listed-others :
    (address : ℕ) (addresses : List ℕ)
    → listed address addresses ≡ false
    → All (λ (a : ℕ). a ≢ address) addresses
listed-others address [] h = tt
listed-others address (a ∷ as') h =
    (λ e. ground (arith, h, e), listed-others address as' (ground (arith, h)))

advanced_retry_after_ms-rested :
    (s : Surroundings) (m : Modem)
    → ltb 0 (advanced_retry_after_ms s m) ≡ false
    → m.advanced_cooldown_until ≤ s.now
unfolding advanced_retry_after_ms cooldown_remaining_ms
advanced_retry_after_ms-rested s m h = ground (arith, h)

tests-IsFree :
    (s : Surroundings) (w : World) (tables : Tables) (address : ℕ) (physdev : Bytes)
    → physdev_at s w address ≡ some physdev
    → length physdev ≢ 0
    → is_occupied s w tables address ≡ false
    → is_held s w address ≡ false
    → IsFree s w tables address physdev
unfolding is_occupied has_active_mutation
tests-IsFree s w tables address physdev at some_left free not_held = record {
  unchanged = one_of-others physdev tables.mutations (ground (arith, at, some_left, free));
  unscanned = listed-others address tables.scans (ground (arith, free));
  unqueried = listed-others address tables.carrier_queries (ground (arith, free));
  refreshed = ground (arith, free);
  idle = ground (arith, not_held);
  rested = advanced_retry_after_ms-rested s (w.modems address) (ground (arith, not_held));
}

-- What a request for a set needs to start a mutation.
pub record IsAdmitted (s : Surroundings) (w : World) (tables : Tables) (m : SetMessage)
    (request : Request) : Type 0 where
  pub confirmed : m.confirm ≡ true
  pub banded : (r : EarfcnRange) × Memᴰ r earfcn_ranges × Holds r m.earfcn × (r.band ≡ request.band)
  pub bounded : (pci : ℕ) → m.pci ≡ some pci → pci ≤ 503
  pub found : IsFirstLive w m.modem_id w.inventory request.original
  pub current : (w.modems request.original).generation ≡ m.generation
  pub attested : s.attests request.original ≡ true
  pub placed : s.physdev_of (w.modems request.original).modem ≡ some request.physdev
  pub not_empty : request.physdev ≢ []
  pub free : IsFree s w tables request.original request.physdev
  pub advertised :
      Advertises s (w.modems request.original) (codes "eutran-" ++ format_decimal request.band)
  pub sets : request.type ≡ mutation_set
  pub written : request.set_command ≡ command_of request.band m.earfcn m.pci
  pub generation : request.original_generation ≡ m.generation
  pub earfcn : request.earfcn ≡ m.earfcn
  pub pci : m.pci ≡ (if request.has_pci then some request.pci else none)

tests-bounded : (o : Option ℕ) → pci_of o ≤ 503 → (pci : ℕ) → o ≡ some pci → pci ≤ 503
tests-bounded none h pci e = absurd (ground (arith, e))
tests-bounded (some p) h pci e = ground (arith, h, e)

pci_given : (o : Option ℕ) → o ≡ (if has_value o then some (pci_of o) else none)
pci_given none = refl
pci_given (some pci) = refl

-- A request for a set starts a mutation only when it is confirmed, a row of the channel table holds
-- its channel number, its PCI is at most 503, the first live modem of the inventory with its identity
-- has its generation and is attested, no mutation of the same physical device, scan, carrier query
-- or voltage refresh is under way there, the modem is not busy and its cooldown is over, and it
-- advertises the band "eutran-<band>" of the row. Then the mutation that starts is a set on this
-- modem, with the channel number and the PCI of the request and the command that they give.
pub method_set_cell_lock-IsAdmitted :
    (s : Surroundings) (w : World) (tables : Tables) (m : SetMessage) {outcome : Outcome}
    → method_set_cell_lock s w tables (some m) ≡ ok outcome
    → (request : Request) × IsAdmitted s w tables m request × (outcome ≡ launch w request)
method_set_cell_lock-IsAdmitted s w tables m h =
    let (address, band, command, physdev, tests, named, same) =
      method_set_cell_lock-PassesTests s w tables m h in
    (
      set_request m w band address command physdev,
      record {
        confirmed = tests.confirmed;
        banded = earfcn_to_band_sound m.earfcn tests.banded;
        bounded = tests-bounded m.pci tests.bounded;
        found = find_modem-IsFirstLive w m.modem_id w.inventory named.found;
        current = named.current;
        attested = named.attested;
        placed = tests.placed;
        not_empty = λ e. tests.not_empty (ap length e);
        free =
            tests-IsFree s w tables address physdev tests.placed tests.not_empty named.free
              tests.not_held;
        advertised = lte_band_is_supported-Advertises s (w.modems address) band tests.supported;
        sets = refl;
        written = built_command-text m.earfcn m.pci tests.banded tests.built;
        generation = named.current;
        earfcn = refl;
        pci = pci_given m.pci;
      },
      same,
    )
