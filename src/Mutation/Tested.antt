-- ===== src/Mutation/Tested.antt =====
-- The tests that a request for a set passes before it starts a mutation
-- (l850gl-mm-bridge/src/ubus_glib.c).
use luci_app_l850gl_mm.Base.Result.{Result, ok, err}
use luci_app_l850gl_mm.Base.{
  ℕ, ◌≤◌, true, false, some, ◌≡◌, ◌≢◌, refl, Bytes, arith, Option-cases, inl, inr, length, ◌⊎◌,
}
use luci_app_l850gl_mm.CellLock.Earfcn.{earfcn_to_band}
use luci_app_l850gl_mm.Mutation.Methods.{
  Tables, SetMessage, find_modem, is_occupied, requested_modem, is_held, physdev_at, pci_of,
  built_command, set_request, set_cell_lock, method_set_cell_lock,
}
use luci_app_l850gl_mm.Mutation.Run.{launch}
use luci_app_l850gl_mm.Mutation.{World, Outcome, Code}
use luci_app_l850gl_mm.Service.Modems.{Surroundings, lte_band_is_supported}

-- What holds of the modem that a request names.
pub record IsNamed (s : Surroundings) (w : World) (tables : Tables) (modem_id : Bytes)
    (generation address : ℕ) : Type 0 where
  pub found : find_modem w modem_id w.inventory ≡ some address
  pub current : (w.modems address).generation ≡ generation
  pub attested : s.attests address ≡ true
  pub free : is_occupied s w tables address ≡ false

requested_modem-IsNamed :
    (s : Surroundings) (w : World) (tables : Tables) (modem_id : Bytes) (generation : ℕ)
    {address : ℕ}
    → requested_modem s w tables modem_id generation ≡ ok address
    → IsNamed s w tables modem_id generation address
unfolding requested_modem
requested_modem-IsNamed s w tables modem_id generation {address} h =
    elim (Option-cases (find_modem w modem_id w.inventory)) [
      | inl f ↦ absurd (ground (arith, h, f))
      | inr (a, f) ↦
          let same : a ≡ address = ground (arith, h, f) in
          rw⁻¹ same (record {
            found = f;
            current = ground (arith, h, f);
            attested = ground (arith, h, f);
            free = ground (arith, h, f);
          })
    ]

-- What a request for a set needs, beside its modem, to start a mutation.
pub record PassesTests (s : Surroundings) (w : World) (tables : Tables) (m : SetMessage)
    (address band : ℕ) (command physdev : Bytes) : Type 0 where
  pub confirmed : m.confirm ≡ true
  pub banded : earfcn_to_band m.earfcn ≡ some band
  pub bounded : pci_of m.pci ≤ 503
  pub requested : requested_modem s w tables m.modem_id m.generation ≡ ok address
  pub supported : lte_band_is_supported s (w.modems address) band ≡ true
  pub not_held : is_held s w address ≡ false
  pub built : built_command m.earfcn m.pci ≡ some command
  pub placed : physdev_at s w address ≡ some physdev
  pub not_empty : length physdev ≢ 0

requested_cases :
    (r : Result Code ℕ) → ((code : Code) × (r ≡ err code)) ⊎ ((address : ℕ) × (r ≡ ok address))
requested_cases (err code) = inl (code, refl)
requested_cases (ok address) = inr (address, refl)

-- A request for a set that starts a mutation passes the tests.
pub method_set_cell_lock-PassesTests :
    (s : Surroundings) (w : World) (tables : Tables) (m : SetMessage) {outcome : Outcome}
    → method_set_cell_lock s w tables (some m) ≡ ok outcome
    → (address : ℕ) × (band : ℕ) × (command : Bytes) × (physdev : Bytes) × PassesTests s w tables m
        address band command physdev
      × IsNamed s w tables m.modem_id m.generation address
      × (outcome ≡ launch w (set_request m w band address command physdev))
unfolding method_set_cell_lock set_cell_lock
method_set_cell_lock-PassesTests s w tables m h = elim (Option-cases (earfcn_to_band m.earfcn)) [
  | inl f ↦ absurd (ground (arith, h, f))
  | inr (band, f) ↦ elim (requested_cases (requested_modem s w tables m.modem_id m.generation)) [
    | inl (code, g) ↦ absurd (ground (arith, h, f, g))
    | inr (address, g) ↦ elim (Option-cases (built_command m.earfcn m.pci)) [
      | inl k ↦ absurd (ground (arith, h, f, g, k))
      | inr (command, k) ↦ elim (Option-cases (physdev_at s w address)) [
        | inl p ↦ absurd (ground (arith, h, f, g, k, p))
        | inr (physdev, p) ↦ (
          address,
          band,
          command,
          physdev,
          record {
            confirmed = ground (arith, h, f, g, k, p);
            banded = f;
            bounded = ground (arith, h, f, g, k, p);
            requested = g;
            supported = ground (arith, h, f, g, k, p);
            not_held = ground (arith, h, f, g, k, p);
            built = k;
            placed = p;
            not_empty = ground (arith, h, f, g, k, p);
          },
          requested_modem-IsNamed s w tables m.modem_id m.generation g,
          ground (arith, h, f, g, k, p),
        )
      ]
    ]
  ]
]
