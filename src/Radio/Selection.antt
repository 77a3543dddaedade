-- ===== src/Radio/Selection.antt =====
-- What an accepted selection of bands is.
use mathlib.Core.Path.{subst⁻¹}
use luci_app_l850gl_mm.Base.Result.{
  ok, ◌>>=◌, ◌>>◌, >>=-eq-ok, refuse_if-eq-ok, required-eq-ok, refuse_if, required,
}
use luci_app_l850gl_mm.Base.{
  ℕ, ◌<◌, ◌≤◌, Bool, true, false, not, ◌||◌, List, [], ◌∷◌, ◌++◌, Option, some, ◌==◌, Bytes, length,
  ◌≡◌, ◌⊎◌, inl, inr, refl, sym, arith, ◌∙◌, Bool-cases, ap, suc, zero, codes, All, ◌≢◌,
}
use luci_app_l850gl_mm.Bits.{land, lor, bit, bit-lor, land-shared}
use luci_app_l850gl_mm.Radio.Names.{
  IsCanonical, band_name_is_canonical-IsCanonical, same_name_iff, IsFirstNamed,
  find_supported-IsFirstNamed, repeated-fresh,
}
use luci_app_l850gl_mm.Radio.{
  invalid_argument, unsupported_band, family_mismatch, family_none, RadioBand, request_bands_max,
  band_name_is_canonical, is_any, find_supported, ResolveState, resolve_start, repeated,
  resolve_one, resolve_names, resolve_bands, requests_any,
}
use mathlib.Core.List.{append-nil, append_assoc}

-- The families of the bands, on top of others.
abbrev union : ℕ → List RadioBand → ℕ
union families [] = families
union families (b ∷ bs) = union (lor families b.family) bs

-- Some band is of the family of bit `k`.
abbrev pub covers : ℕ → List RadioBand → Bool
covers k [] = false
covers k (b ∷ bs) = bit k b.family || covers k bs

bit-zero : (k : ℕ) → bit k 0 ≡ false
bit-zero zero = refl
bit-zero (suc k) = bit-zero k

bit-union :
    (k families : ℕ) (bs : List RadioBand)
    → k < 32
    → bit k (union families bs) ≡ bit k families || covers k bs
bit-union k families [] l = ground arith
bit-union k families (b ∷ bs) l =
    let rest = bit-union k (lor families b.family) bs l in
    let first = bit-lor k families b.family l in ground (arith, rest, first)

-- No name is repeated, when those of `previous` stand before.
abbrev pub Fresh : List (Option Bytes) → List (Option Bytes) → Type 0
Fresh previous [] = Unit
Fresh previous (name ∷ names) = All (λ p. p ≢ name) previous × Fresh (previous ++ (name ∷ [])) names

-- The band that a requested name stands for.
pub record Stands (supported : List RadioBand) (allowed : ℕ) (name : Option Bytes) (b : RadioBand)
    : Type 0 where
  pub canonical : IsCanonical name
  pub explicit : name ≢ some (codes "any")
  pub advertised : IsFirstNamed supported name b
  pub has_family : b.family ≢ 0
  pub permitted : (k : ℕ) × (k < 32) × (bit k b.family ≡ true) × (bit k allowed ≡ true)

abbrev pub StandFor : List RadioBand → ℕ → List (Option Bytes) → List RadioBand → Type 0
StandFor supported allowed [] bands = bands ≡ []
StandFor supported allowed (name ∷ names) bands =
    (b : RadioBand) × (rest : List RadioBand) × (bands ≡ b ∷ rest)
    × Stands supported allowed name b
    × StandFor supported allowed names rest

abbrev pub values : List RadioBand → List ℕ
values [] = []
values (b ∷ bs) = b.value ∷ values bs

-- An accepted selection: the bands that the names stand for, whose families are the allowed ones,
-- no more and no fewer.
pub record IsSelection (requested : List (Option Bytes)) (supported : List RadioBand) (allowed : ℕ)
    (resolved : List ℕ) : Type 0 where
  pub bands : List RadioBand
  pub stand : StandFor supported allowed requested bands
  pub written : resolved ≡ values bands
  pub distinct : Fresh [] requested
  pub covered : (k : ℕ) → k < 32 → bit k allowed ≡ covers k bands
  pub bounded : length requested ≤ request_bands_max

-- A round that goes on.
abbrev resolved_one : Option Bytes → RadioBand → ResolveState → ResolveState
resolved_one name b s = record {
  previous = s.previous ++ (name ∷ []);
  requested_families = lor s.requested_families b.family;
  resolved = s.resolved ++ (b.value ∷ []);
}

resolve_one-Stands :
    (supported : List RadioBand) (allowed : ℕ) (name : Option Bytes) (s : ResolveState)
    {t : ResolveState}
    → resolve_one supported allowed name s ≡ ok t
    → (b : RadioBand) × (t ≡ resolved_one name b s)
      × Stands supported allowed name b
      × All (λ p. p ≢ name) s.previous
unfolding resolve_one
resolve_one-Stands supported allowed name s {t} h =
    let bad = not (band_name_is_canonical name) || is_any name in
    let (_, named, h₁) = >>=-eq-ok (refuse_if bad invalid_argument) _ h in
    let (_, fresh, h₂) = >>=-eq-ok (refuse_if (repeated name s.previous) invalid_argument) _ h₁ in
    let (b, found, h₃) =
      >>=-eq-ok (required unsupported_band (find_supported supported name)) _ h₂ in
    let outside = b.family == family_none || land b.family allowed == 0 in
    let (_, inside, h₄) =
      >>=-eq-ok (refuse_if outside family_mismatch) (λ _. ok (resolved_one name b s)) h₃ in
    let canonical = refuse_if-eq-ok bad invalid_argument named in
    let text = band_name_is_canonical-IsCanonical name (ground arith) in
    let shared = refuse_if-eq-ok outside family_mismatch inside in
    let same : t ≡ resolved_one name b s = ground arith in
    (
      b,
      same,
      record {
        canonical = text;
        explicit = λ e. ground (arith, canonical, (same_name_iff name (codes "any")).1 e);
        advertised =
            subst⁻¹ (λ n. IsFirstNamed supported n b) text.is
              (find_supported-IsFirstNamed supported (text.first ∷ text.others) (
                ap (find_supported supported) (sym text.is)
                ∙ required-eq-ok unsupported_band (find_supported supported name) found));
        has_family = ground (arith, shared);
        permitted = land-shared b.family allowed (ground (arith, shared));
      },
      subst⁻¹ (λ n. All (λ p. p ≢ n) s.previous) text.is
          (repeated-fresh (text.first ∷ text.others) s.previous (
            ap (λ n. repeated n s.previous) (sym text.is)
            ∙ refuse_if-eq-ok (repeated name s.previous) invalid_argument fresh)),
    )

-- What the loop adds to its variables.
record Added (supported : List RadioBand) (allowed : ℕ) (names : List (Option Bytes))
    (s t : ResolveState) : Type 0 where
  bands : List RadioBand
  stand : StandFor supported allowed names bands
  written : t.resolved ≡ s.resolved ++ values bands
  families : t.requested_families ≡ union s.requested_families bands
  fresh : Fresh s.previous names

resolve_names-Added :
    (supported : List RadioBand) (allowed : ℕ) (names : List (Option Bytes)) (s : ResolveState)
    {t : ResolveState}
    → resolve_names supported allowed names s ≡ ok t
    → Added supported allowed names s t
unfolding resolve_names
resolve_names-Added supported allowed [] s {t} h =
    let same : t ≡ s = ground arith in
    rw same (record {
      bands = [];
      stand = refl;
      written = sym (append-nil s.resolved);
      families = refl;
      fresh = tt;
    })
resolve_names-Added supported allowed (name ∷ names) s {t} h =
    let (u, first, h₁) =
      >>=-eq-ok (resolve_one supported allowed name s) (resolve_names supported allowed names) h in
    let (b, same, stands, fresh) = resolve_one-Stands supported allowed name s first in
    let rest =
      resolve_names-Added supported allowed names (resolved_one name b s) (rw same at h₁) in
    record {
      bands = b ∷ rest.bands;
      stand = (b, rest.bands, refl, stands, rest.stand);
      written = rest.written ∙ append_assoc s.resolved (b.value ∷ []) (values rest.bands);
      families = rest.families;
      fresh = (fresh, rest.fresh);
    }

resolve_explicit :
    (requested : List (Option Bytes)) (supported : List RadioBand) (allowed : ℕ) {resolved : List ℕ}
    → length requested ≤ request_bands_max
    → (resolve_names supported allowed requested resolve_start >>= λ s.
        refuse_if (not (s.requested_families == allowed)) family_mismatch >> ok s.resolved)
      ≡ ok resolved
    → IsSelection requested supported allowed resolved
resolve_explicit requested supported allowed {resolved} l h =
    let (s, loop, h₁) =
      >>=-eq-ok (resolve_names supported allowed requested resolve_start)
        (λ s. refuse_if (not (s.requested_families == allowed)) family_mismatch >> ok s.resolved)
        h in
    let (_, equal, h₂) =
      >>=-eq-ok (refuse_if (not (s.requested_families == allowed)) family_mismatch)
        (λ _. ok s.resolved) h₁ in
    let added = resolve_names-Added supported allowed requested resolve_start loop in
    let all = refuse_if-eq-ok (not (s.requested_families == allowed)) family_mismatch equal in
    let families : allowed ≡ union 0 added.bands = ground (arith, added.families) in
    let same : resolved ≡ s.resolved = ground arith in
    record {
      bands = added.bands;
      stand = added.stand;
      written = same ∙ added.written;
      distinct = added.fresh;
      covered =
          λ k below. ap (bit k) families ∙ bit-union k 0 added.bands below ∙ rw (bit-zero k) refl;
      bounded = l;
    }

any_alone :
    (requested : List (Option Bytes))
    → requests_any requested ≡ true
    → requested ≡ some (codes "any") ∷ []
any_alone [] h = absurd (ground (arith, h))
any_alone (name ∷ []) h = ap (λ n. n ∷ []) ((same_name_iff name (codes "any")).0 h)
any_alone (name ∷ other ∷ names) h = absurd (ground (arith, h))

-- A selection that `l850gl_radio_resolve_bands` accepts is either the single name "any", which
-- gives the value for it, or at most 64 distinct canonical names other than "any". Then each stands
-- for the first advertised band of that name, whose family shares a bit with the allowed ones, the
-- values of these bands are the answer in their order, and each of the 32 bits is in the allowed
-- families exactly if it is in the family of one of these bands.
pub resolve_bands-IsSelection :
    (requested : List (Option Bytes)) (supported : List RadioBand) (known : Bool)
    (allowed any_value : ℕ) {resolved : List ℕ}
    → resolve_bands requested supported known allowed any_value ≡ ok resolved
    → ((requested ≡ some (codes "any") ∷ []) × (resolved ≡ any_value ∷ []))
      ⊎ IsSelection requested supported allowed resolved
unfolding resolve_bands
resolve_bands-IsSelection requested supported known allowed any_value {resolved} h =
    elim (Bool-cases (requests_any requested)) [
      | inl any ↦ inl (any_alone requested any, ground arith)
      | inr explicit ↦
          inr (resolve_explicit requested supported allowed (ground arith) (ground arith))
    ]
