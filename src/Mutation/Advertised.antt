-- ===== src/Mutation/Advertised.antt =====
-- The bands that a modem advertises, and the command of a set, without the functions of
-- l850gl-mm-bridge/src/ubus_glib.c and l850_cell.c that read and write them.
use luci_app_l850gl_mm.Number.Print.{format_decimal}
use mathlib.Core.List.{Memᴰ}
use luci_app_l850gl_mm.Mutation.Methods.{built_command}
use luci_app_l850gl_mm.CellLock.Earfcn.{earfcn_to_band}
use luci_app_l850gl_mm.Radio.{RadioBand, band_name_is_canonical}
use luci_app_l850gl_mm.CellLock.Command.{
  has_name, build_set_command, set_command_text, band_is_supported,
}
use luci_app_l850gl_mm.Service.Modems.{
  snapshot_supported_radio_bands, Surroundings, lte_band_is_supported, band_choices, Modem,
}
use luci_app_l850gl_mm.Base.{
  [], ◌∷◌, none, some, ℕ, List, Option, Bytes, ◌≡◌, map, codes, true, ◌++◌, Option-cases, inl,
  arith, ◌≢◌, inr, Bool-cases, ◌==◌, ◌||◌, not, same_text, same_text_iff, ap, sym,
}

-- The modem advertises a band with the name.
abbrev pub Advertises : Surroundings → Modem → Bytes → Type 0
Advertises s m name =
    (bands : List (ℕ × Option Bytes)) × (value : ℕ) × (s.bands_of m.modem ≡ some bands)
    × Memᴰ (value, some name) bands
    × (value ≢ 0)

band_choices-Mem :
    (name : Bytes) (bands : List (ℕ × Option Bytes))
    → has_name name (map (λ (c : RadioBand). c.name) (band_choices bands)) ≡ true
    → (value : ℕ) × Memᴰ (value, some name) bands × (value ≢ 0)
unfolding has_name band_choices
band_choices-Mem name [] h = absurd (ground (arith, h))
band_choices-Mem name ((value, none) ∷ bands) h =
    let (v, m, n) = band_choices-Mem name bands (ground (arith, h)) in (v, Memᴰ.tail m, n)
band_choices-Mem name ((value, some text) ∷ bands) h =
    elim (Bool-cases (value == 0 || not (band_name_is_canonical (some text)))) [
      | inl skip ↦ let (v, m, n) = band_choices-Mem name bands (rw skip at h) in (v, Memᴰ.tail m, n)
      | inr take ↦ elim (Bool-cases (same_text text name)) [
        | inl e ↦
            let same : text ≡ name = (same_text_iff text name).0 e in
            (value, Memᴰ.head (ap (λ t. (value, some t)) (sym same)), ground (arith, take))
        | inr e ↦
            let (v, m, n) = band_choices-Mem name bands (ground (arith, h, take, e)) in
            (v, Memᴰ.tail m, n)
      ]
    ]

nonempty_choices :
    (choices : List RadioBand) {taken : List RadioBand}
    → elim choices [ [] ↦ none | c ∷ cs ↦ some (c ∷ cs) ] ≡ some taken
    → choices ≡ taken
nonempty_choices [] h = absurd (ground (arith, h))
nonempty_choices (c ∷ cs) h = ground (arith, h)

snapshot-choices :
    (s : Surroundings) (m : Modem) {choices : List RadioBand}
    → snapshot_supported_radio_bands s m ≡ some choices
    → (bands : List (ℕ × Option Bytes)) × (s.bands_of m.modem ≡ some bands)
      × (band_choices bands ≡ choices)
unfolding snapshot_supported_radio_bands
snapshot-choices s m {choices} h = elim (Option-cases (s.bands_of m.modem)) [
  | inl e ↦ absurd (ground (arith, h, e))
  | inr (bands, e) ↦ (bands, e, nonempty_choices (band_choices bands) (ground (arith, h, e)))
]

pub lte_band_is_supported-Advertises :
    (s : Surroundings) (m : Modem) (band : ℕ)
    → lte_band_is_supported s m band ≡ true
    → Advertises s m (codes "eutran-" ++ format_decimal band)
unfolding lte_band_is_supported band_is_supported
lte_band_is_supported-Advertises s m band h =
    elim (Option-cases (snapshot_supported_radio_bands s m)) [
      | inl e ↦ absurd (ground (arith, h, e))
      | inr (choices, e) ↦
          let (bands, at, same) = snapshot-choices s m e in
          let named : has_name (codes "eutran-" ++ format_decimal band)
                (map (λ (c : RadioBand). c.name) (band_choices bands))
              ≡ true =
            ground (arith, h, e, same) in
          let (value, m, n) =
            band_choices-Mem (codes "eutran-" ++ format_decimal band) bands named in
          (bands, value, at, m, n)
    ]

-- 65535 stands for any cell.
abbrev pub get_or_wildcard : Option ℕ → ℕ
get_or_wildcard none = 65535
get_or_wildcard (some pci) = pci

-- The command of a set, as it is sent.
abbrev pub command_of : ℕ → ℕ → Option ℕ → Bytes
command_of band earfcn pci =
    codes "AT@SIC:FREQ_LOCK(0,3,"
    ++ (format_decimal band
        ++ (codes ",1,"
            ++ (format_decimal earfcn
                ++ (codes "," ++ (format_decimal (get_or_wildcard pci) ++ codes ")")))))

pub built_command-text :
    (earfcn : ℕ) (pci : Option ℕ) {band : ℕ} {command : Bytes}
    → earfcn_to_band earfcn ≡ some band
    → built_command earfcn pci ≡ some command
    → command ≡ command_of band earfcn pci
unfolding build_set_command set_command_text
built_command-text earfcn none b h = ground (arith, b, h)
built_command-text earfcn (some pci) b h = ground (arith, b, h)
