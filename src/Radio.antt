-- ===== src/Radio.antt =====
-- The radio policy (l850gl-mm-bridge/src/radio_policy.c and radio_policy.h): which band names are
-- accepted, and how a selection of bands is resolved. A name is `none` for a NULL pointer; the
-- array arguments are taken non-NULL, so an array that is NULL stands with the empty ones.
pub mod Names
pub mod Selection
use luci_app_l850gl_mm.Base.Result.{Result, ok, err, ◌>>=◌, ◌>>◌, refuse_if, required}
use luci_app_l850gl_mm.Base.{
  ℕ, ◌-◌, Bool, true, false, not, ◌&&◌, ◌||◌, List, [], ◌∷◌, ◌++◌, Option, none, some, ltb, leb,
  ◌==◌, if◌then◌else◌, within, Bytes, codes, length, get_or, same_text,
}
use luci_app_l850gl_mm.Bits.{land, lor}
use luci_app_l850gl_mm.Text.{after_prefix}

pub data Failure : Type 0 where
  invalid_argument : Failure
  unsupported_band : Failure
  modes_unknown : Failure
  family_mismatch : Failure

-- `struct L850GLRadioBand`.
pub record RadioBand : Type 0 where
  pub name : Option Bytes
  pub value : ℕ
  pub family : ℕ

abbrev pub band_name_max : ℕ
band_name_max = 48

abbrev pub request_bands_max : ℕ
request_bands_max = 64

-- `enum L850GLRadioFamily`.
abbrev pub family_none : ℕ
family_none = 0

abbrev pub family_2g : ℕ
family_2g = 1

abbrev pub family_3g : ℕ
family_3g = 2

abbrev pub family_4g : ℕ
family_4g = 4

abbrev pub family_5g : ℕ
family_5g = 8

-- The loop over the bytes of a name; `first` says whether the index is 0.
abbrev pub canonical_bytes : Bool → Bytes → Bool
canonical_bytes first [] = true
canonical_bytes first (c ∷ s) =
    (within b'a' b'z' c || within b'0' b'9' c || (not first && c == b'-'))
    && canonical_bytes false s

-- `bounded_length` finds the terminating NUL among the first 49 bytes.
unfoldable pub band_name_is_canonical : Option Bytes → Bool
band_name_is_canonical none = false
band_name_is_canonical (some name) =
    leb (length name) band_name_max
    && not (length name == 0)
    && canonical_bytes true name
    && not (get_or name (length name - 1) 0 == b'-')

abbrev gsm_bands : List Bytes
gsm_bands =
    codes "egsm"
    ∷ codes "dcs"
    ∷ codes "pcs"
    ∷ codes "g850"
    ∷ codes "g450"
    ∷ codes "g480"
    ∷ codes "g750"
    ∷ codes "g380"
    ∷ codes "g410"
    ∷ codes "g710"
    ∷ codes "g810"
    ∷ []

abbrev one_of : Bytes → List Bytes → Bool
one_of name [] = false
one_of name (b ∷ bs) = same_text name b || one_of name bs

abbrev is_gsm_band : Bytes → Bool
is_gsm_band name = one_of name gsm_bands

-- `strncmp(name, prefix, sizeof(prefix) - 1U) == 0`.
abbrev starts : Bytes → Bytes → Bool
starts prefix name = elim (after_prefix prefix name) [ none ↦ false | some _ ↦ true ]

-- `strcmp` of two names; two NULL names are not compared by any caller.
abbrev pub same_name : Option Bytes → Option Bytes → Bool
same_name (some a) (some b) = same_text a b
same_name _ _ = false

abbrev pub is_any : Option Bytes → Bool
is_any name = same_name name (some (codes "any"))

family_of : Bytes → ℕ
family_of name =
    if is_gsm_band name
    then family_2g
    else if starts (codes "utran-") name
    then family_3g
    else if starts (codes "eutran-") name
    then family_4g
    else if starts (codes "ngran-") name
    then family_5g
    else family_none

unfoldable pub band_family : Option Bytes → ℕ
unfolding family_of
band_family none = family_none
band_family (some name) =
    if not (band_name_is_canonical (some name)) || is_any (some name)
    then family_none
    else family_of name

-- The first advertised band with the name.
unfoldable pub find_supported : List RadioBand → Option Bytes → Option RadioBand
find_supported [] name = none
find_supported (b ∷ bs) name = if same_name b.name name then some b else find_supported bs name

-- Every requested name is an LTE band.
abbrev pub all_lte : List (Option Bytes) → Bool
all_lte [] = true
all_lte (name ∷ names) = band_family name == family_4g && all_lte names

-- `continue`: a band that the expansion leaves out.
abbrev pub left_out : ℕ → RadioBand → Bool
left_out allowed b = b.family == family_4g || b.family == family_none || land b.family allowed == 0

-- The second loop of the expansion, with the names found so far.
add_others : ℕ → List RadioBand → List (Option Bytes) → Result Failure (List (Option Bytes))
add_others allowed [] effective = ok effective
add_others allowed (b ∷ bs) effective =
    let skip = add_others allowed bs effective in
    let take = add_others allowed bs (effective ++ (b.name ∷ [])) in
    if left_out allowed b
    then skip
    else if leb request_bands_max (length effective)
    then err invalid_argument
    else take

abbrev pub requests_any : List (Option Bytes) → Bool
requests_any (name ∷ []) = is_any name
requests_any _ = false

-- What a failed call leaves in `effective` is not modelled.
unfoldable pub expand_lte_selection :
    List (Option Bytes) → List RadioBand → ℕ → Result Failure (List (Option Bytes))
unfolding add_others
expand_lte_selection requested supported allowed =
    if length requested == 0 || ltb request_bands_max (length requested) || length supported == 0
    then err invalid_argument
    else if requests_any requested
    then ok requested
    else (do
      refuse_if (land allowed family_4g == 0) family_mismatch
      refuse_if (not (all_lte requested)) invalid_argument
      add_others allowed supported requested)

-- The variables of the loop of the resolution: the names before the index, the families so far and
-- the values written.
pub record ResolveState : Type 0 where
  pub previous : List (Option Bytes)
  pub requested_families : ℕ
  pub resolved : List ℕ

abbrev pub resolve_start : ResolveState
resolve_start = record { previous = []; requested_families = family_none; resolved = [] }

abbrev pub repeated : Option Bytes → List (Option Bytes) → Bool
repeated name [] = false
repeated name (p ∷ previous) = same_name name p || repeated name previous

-- One round.
unfoldable pub resolve_one :
    List RadioBand → ℕ → Option Bytes → ResolveState → Result Failure ResolveState
resolve_one supported allowed name s = do
  refuse_if (not (band_name_is_canonical name) || is_any name) invalid_argument
  refuse_if (repeated name s.previous) invalid_argument
  band ← required unsupported_band (find_supported supported name)
  refuse_if (band.family == family_none || land band.family allowed == 0) family_mismatch
  ok (record {
    previous = s.previous ++ (name ∷ []);
    requested_families = lor s.requested_families band.family;
    resolved = s.resolved ++ (band.value ∷ []);
  })

unfoldable pub resolve_names :
    List RadioBand → ℕ → List (Option Bytes) → ResolveState → Result Failure ResolveState
resolve_names supported allowed [] s = ok s
resolve_names supported allowed (name ∷ names) s = do
  t ← resolve_one supported allowed name s
  resolve_names supported allowed names t

-- What a failed call leaves in `resolved` is not modelled.
unfoldable pub resolve_bands :
    List (Option Bytes) → List RadioBand → Bool → ℕ → ℕ → Result Failure (List ℕ)
resolve_bands requested supported current_modes_known allowed any_value =
    if length requested == 0 || ltb request_bands_max (length requested)
    then err invalid_argument
    else if not current_modes_known || allowed == family_none
    then err modes_unknown
    else if length supported == 0
    then err unsupported_band
    else if requests_any requested
    then ok (any_value ∷ [])
    else (do
      s ← resolve_names supported allowed requested resolve_start
      refuse_if (not (s.requested_families == allowed)) family_mismatch
      ok s.resolved)
