-- ===== src/Radio/Names.antt =====
-- The names of bands in l850gl-mm-bridge/src/radio_policy.c: which are canonical, which band a name
-- finds, and that a name does not stand before.
use luci_app_l850gl_mm.Radio.{
  band_name_is_canonical, find_supported, RadioBand, same_name, repeated, canonical_bytes,
}
use luci_app_l850gl_mm.Base.{
  [], ◌∷◌, none, some, inl, inr, ℕ, List, Bytes, Option, ◌≡◌, ◌≤◌, arith, ◌++◌, ◌⊎◌, length, true,
  false, ◌↔◌, Bool-cases, All, same_text_iff, ◌≢◌, ap, refl, get_or,
}

abbrev pub IsNameByte : ℕ → Type 0
IsNameByte c = ((97 ≤ c) × (c ≤ 122)) ⊎ ((48 ≤ c) × (c ≤ 57)) ⊎ (c ≡ 45)

-- A name of 1 to 48 lower-case letters, digits and `-`, with no `-` at either end.
pub record IsCanonical (name : Option Bytes) : Type 0 where
  pub first : ℕ
  pub others : Bytes
  pub is : name ≡ some (first ∷ others)
  pub short : length (first ∷ others) ≤ 48
  pub letters : All IsNameByte (first ∷ others)
  pub starts : first ≢ 45
  pub ends : get_or (first ∷ others) (length others) 0 ≢ 45

bytes-letters : (s : Bytes) → canonical_bytes false s ≡ true → All IsNameByte s
bytes-letters [] h = tt
bytes-letters (c ∷ s) h = (ground (arith, h), bytes-letters s (ground (arith, h)))

pub band_name_is_canonical-IsCanonical :
    (name : Option Bytes) → band_name_is_canonical name ≡ true → IsCanonical name
unfolding band_name_is_canonical
band_name_is_canonical-IsCanonical none h = absurd (ground (arith, h))
band_name_is_canonical-IsCanonical (some []) h = absurd (ground (arith, h))
band_name_is_canonical-IsCanonical (some (c ∷ s)) h = record {
  first = c;
  others = s;
  is = refl;
  short = ground (arith, h);
  letters = (ground (arith, h), bytes-letters s (ground (arith, h)));
  starts = ground (arith, h);
  ends = ground (arith, h);
}

pub same_name_iff :
    (a : Option Bytes) (text : Bytes) → (same_name a (some text) ≡ true) ↔ (a ≡ some text)
same_name_iff none text = ground arith
same_name_iff (some a) text = ground (arith, same_text_iff a text)

-- The first band of the list that has the name.
pub record IsFirstNamed (supported : List RadioBand) (name : Option Bytes) (b : RadioBand)
    : Type 0 where
  pub before : List RadioBand
  pub after : List RadioBand
  pub split : supported ≡ before ++ (b ∷ after)
  pub named : b.name ≡ name
  pub unnamed : All (λ (other : RadioBand). other.name ≢ name) before

pub find_supported-IsFirstNamed :
    (supported : List RadioBand) (text : Bytes) {b : RadioBand}
    → find_supported supported (some text) ≡ some b
    → IsFirstNamed supported (some text) b
unfolding find_supported
find_supported-IsFirstNamed [] text h = absurd (ground (arith, h))
find_supported-IsFirstNamed (c ∷ cs) text {b} h = elim (Bool-cases (same_name c.name (some text))) [
  | inl e ↦
      let same : c ≡ b = ground (arith, h, e) in
      rw⁻¹ same (record {
        before = [];
        after = cs;
        split = refl;
        named = (same_name_iff c.name text).0 e;
        unnamed = tt;
      })
  | inr e ↦
      let rest = find_supported-IsFirstNamed cs text (rw e at h) in
      record {
        before = c ∷ rest.before;
        after = rest.after;
        split = ap (◌∷◌ c) rest.split;
        named = rest.named;
        unnamed = (λ n. ground (arith, (same_name_iff c.name text).1 n, e), rest.unnamed);
      }
]

pub repeated-fresh :
    (text : Bytes) (previous : List (Option Bytes))
    → repeated (some text) previous ≡ false
    → All (λ p. p ≢ some text) previous
repeated-fresh text [] h = tt
repeated-fresh text (none ∷ previous) h = (λ e. ground (arith, e), repeated-fresh text previous h)
repeated-fresh text (some p ∷ previous) h = (
  λ e. ground (arith, h, e, same_text_iff text p),
  repeated-fresh text previous (ground (arith, h)),
)
