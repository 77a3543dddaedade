-- ===== src/Service/Modems.antt =====
-- `L850GLModem` of l850gl-mm-bridge/src/bridge.h as the operations of
-- l850gl-mm-bridge/src/ubus_glib.c use it: the bands that a modem supports, the cache of its
-- serving cell, and its cooldown. What the libraries answer about the modems while one handler runs
-- is the argument `Surroundings`; an address stands for a pointer.
use luci_app_l850gl_mm.Base.{
  ℕ, ◌+◌, ◌-◌, ◌*◌, ◌/◌, Bool, true, false, not, ◌&&◌, ◌||◌, List, [], ◌∷◌, Option, none, some, ltb,
  leb, ◌==◌, if◌then◌else◌, Bytes, length, map,
}
use luci_app_l850gl_mm.Base.Int.{ℤ}
use luci_app_l850gl_mm.Bits.{land, lor}
use luci_app_l850gl_mm.CellLock.Command.{band_is_supported}
use luci_app_l850gl_mm.CellLock.Earfcn.{earfcn_to_band}
use luci_app_l850gl_mm.Radio.{RadioBand, band_name_is_canonical, band_family, family_4g}

-- `gdouble`: the value of a level in tenths of its unit, or a value that is not finite.
pub data Double : Type 0 where
  tenths : ℤ → Double
  not_finite : Double

pub data MutationKind : Type 0 where
  mutation_none mutation_sms mutation_advanced mutation_l850 : MutationKind

-- The cached serving cell, `serving_cell_…` of the struct.
pub record ServingCell : Type 0 where
  pub generation : ℕ
  pub earfcn : ℕ
  pub pci : ℕ
  pub band : ℕ
  pub rsrp : Double
  pub rsrq : Double
  pub has_rsrp : Bool
  pub has_rsrq : Bool
  pub updated_at : ℕ
  pub reason : Bytes

pub record Modem : Type 0 where
  pub live : Bool
  pub modem_id : Bytes
  pub generation : ℕ
  -- The proxy object of libmm-glib, `modem->modem`.
  pub modem : ℕ
  pub mutation_busy : Bool
  pub mutation_kind : MutationKind
  pub advanced_cooldown_until : ℕ
  pub l850_voltage_refresh_pending : Bool
  pub serving_cell : ServingCell
  pub serving_cell_valid : Bool

-- `MMModemState`, the registered ones by name.
pub data ModemState : Type 0 where
  registered disconnecting connecting connected : ModemState
  other_state : ModemState

-- What the calls of one handler answer: the monotonic clock in microseconds, the proxies' physical
-- devices, states and advertised bands, `l850gl_modem_attest_mutation_target` of an address, and
-- whether `malloc` and the build's version test succeed.
pub record Surroundings : Type 0 where
  pub now : ℕ
  pub physdev_of : ℕ → Option Bytes
  pub attests : ℕ → Bool
  pub state_of : ℕ → ModemState
  pub bands_of : ℕ → Option (List (ℕ × Option Bytes))
  pub allocated : Bool
  pub since_1_24 : Bool

abbrev pub max_radio_bands : ℕ
max_radio_bands = 256

-- The loop of `snapshot_supported_radio_bands`; `MM_MODEM_BAND_UNKNOWN` is 0.
unfoldable pub band_choices : List (ℕ × Option Bytes) → List RadioBand
band_choices [] = []
band_choices ((value, name) ∷ bands) =
    if value == 0 || not (band_name_is_canonical name)
    then band_choices bands
    else record { name = name; value = value; family = band_family name } ∷ band_choices bands

abbrev pub families_of : List RadioBand → ℕ
families_of [] = 0
families_of (b ∷ bs) = lor b.family (families_of bs)

-- The choices, and FALSE when there are none.
unfoldable pub snapshot_supported_radio_bands : Surroundings → Modem → Option (List RadioBand)
unfolding band_choices
snapshot_supported_radio_bands s m = elim (s.bands_of m.modem) [
  | none ↦ none
  | some bands ↦
      if length bands == 0 || ltb max_radio_bands (length bands)
      then none
      else elim (band_choices bands) [ [] ↦ none | c ∷ cs ↦ some (c ∷ cs) ]
]

unfoldable pub lte_band_is_supported : Surroundings → Modem → ℕ → Bool
unfolding snapshot_supported_radio_bands
lte_band_is_supported s m band = elim (snapshot_supported_radio_bands s m) [
  | none ↦ false
  | some choices ↦ band_is_supported band (some (map (λ (c : RadioBand). c.name) choices))
]

unfoldable pub supported_lte_bands_available : Surroundings → Modem → Bool
unfolding snapshot_supported_radio_bands
supported_lte_bands_available s m = elim (snapshot_supported_radio_bands s m) [
  | none ↦ false
  | some choices ↦ not (land (families_of choices) family_4g == 0)
]

abbrev is_finite : Double → Bool
is_finite (tenths level) = true
is_finite not_finite = false

abbrev maps_to : ℕ → ℕ → Bool
maps_to earfcn band = elim (earfcn_to_band earfcn) [ none ↦ false | some mapped ↦ mapped == band ]

-- The test of `serving_cell_cache_store`.
unfoldable pub cell_is_storable :
    Surroundings → Modem → ℕ → ℕ → ℕ → Double → Bool → Double → Bool → Bool
cell_is_storable s m earfcn pci band rsrp has_rsrp rsrq has_rsrq =
    m.live
    && leb pci 503
    && maps_to earfcn band
    && lte_band_is_supported s m band
    && not (has_rsrp && not (is_finite rsrp))
    && not (has_rsrq && not (is_finite rsrq))

-- FALSE is `none`; the modem is not NULL at any call.
unfoldable pub serving_cell_cache_store :
    Surroundings → Modem → ℕ → ℕ → ℕ → Double → Bool → Double → Bool → Bytes → Option Modem
unfolding cell_is_storable
serving_cell_cache_store s m earfcn pci band rsrp has_rsrp rsrq has_rsrq reason =
    if cell_is_storable s m earfcn pci band rsrp has_rsrp rsrq has_rsrq
    then some (record m {
      serving_cell = record {
        generation = m.generation;
        earfcn = earfcn;
        pci = pci;
        band = band;
        rsrp = rsrp;
        rsrq = rsrq;
        has_rsrp = has_rsrp;
        has_rsrq = has_rsrq;
        updated_at = s.now;
        reason = reason;
      };
      serving_cell_valid = true;
    })
    else none

abbrev pub serving_cell_fresh_seconds : ℕ
serving_cell_fresh_seconds = 90

-- The difference of two times of the monotonic clock, which is negative when the update is later.
unfoldable pub serving_cell_cache_is_fresh : Modem → ℕ → Bool
serving_cell_cache_is_fresh m now =
    m.live
    && m.serving_cell_valid
    && m.serving_cell.generation == m.generation
    && ltb 0 m.serving_cell.updated_at
    && leb now (m.serving_cell.updated_at + serving_cell_fresh_seconds * 1000000)

-- `deadline <= 0` and `remaining <= 0` answer 0 alike.
unfoldable pub cooldown_remaining_ms : ℕ → ℕ → ℕ
cooldown_remaining_ms now deadline =
    if leb deadline now
    then 0
    else let remaining = (deadline - now + 999) / 1000 in
      if ltb 4294967295 remaining then 4294967295 else remaining

unfoldable pub advanced_retry_after_ms : Surroundings → Modem → ℕ
unfolding cooldown_remaining_ms
advanced_retry_after_ms s m = cooldown_remaining_ms s.now m.advanced_cooldown_until
