-- ===== src/Registry/Support/Target.antt =====
-- What it takes that a modem is a target of changes (l850gl-mm-bridge/src/bridge.c and hardware.c).
use luci_app_l850gl_mm.Hardware.Attest.{IsAttested, attest_l850_mbim_exact}
use luci_app_l850gl_mm.Text.Laws.{after_prefix_iff}
use luci_app_l850gl_mm.Registry.Support.{
  contains, after_prefix, composition, any_of_first, Description, is_mbim_driver, any_entry,
  lower_text, modem_is_l850, attest_mutation_target, Kernel, normalize_alnum, modem_is_supported,
  kept_alnum,
}
use mathlib.Core.List.{append_assoc}
use luci_app_l850gl_mm.Base.{
  ℕ, Bytes, Option, ◌++◌, ◌≡◌, ◌∷◌, List, codes, some, ap, true, ◌<◌, ◌∙◌, ◌↔◌, Option-cases,
  get_elem?, sym, inl, arith, inr, [], Bool, refl, suc, same_text, ◌⊎◌, zero, Bool-cases, none,
  same_text_iff,
}

-- The needle stands somewhere in the text.
abbrev pub Occurs : Bytes → Bytes → Type 0
Occurs needle s = (front : Bytes) × (back : Bytes) × (s ≡ front ++ (needle ++ back))

Occurs-cons : (needle : Bytes) (c : ℕ) (s : Bytes) → Occurs needle s → Occurs needle (c ∷ s)
Occurs-cons needle c s (front, back, e) = (c ∷ front, back, ap (◌∷◌ c) e)

contains_sound : (needle s : Bytes) → contains needle s ≡ true → Occurs needle s
unfolding contains
contains_sound needle [] h = elim (Option-cases (after_prefix needle [])) [
  | inl e ↦ absurd (ground (arith, h, e))
  | inr (back, e) ↦ ([], back, (after_prefix_iff needle [] back).0 e)
]
contains_sound needle (c ∷ s) h = elim (Option-cases (after_prefix needle (c ∷ s))) [
  | inl e ↦ Occurs-cons needle c s (contains_sound needle s (ground (arith, h, e)))
  | inr (back, e) ↦ ([], back, (after_prefix_iff needle (c ∷ s) back).0 e)
]

contains_complete : (needle front back : Bytes) → contains needle (front ++ (needle ++ back)) ≡ true
unfolding contains
contains_complete needle [] back =
    here (needle ++ back) ((after_prefix_iff needle (needle ++ back) back).1 refl)
  where
    here : (s : Bytes) → after_prefix needle s ≡ some back → contains needle s ≡ true
    here [] e = ground (arith, e)
    here (c ∷ s) e = ground (arith, e)
contains_complete needle (c ∷ front) back = ground (arith, contains_complete needle front back)

pub contains_iff : (needle s : Bytes) → (contains needle s ≡ true) ↔ Occurs needle s
contains_iff needle s =
    (contains_sound needle s, λ (front, back, e). rw e (contains_complete needle front back))

-- "cdc_mbim" holds "mbim".
cdc_mbim : (s : Bytes) → contains (codes "cdc_mbim") s ≡ true → contains (codes "mbim") s ≡ true
cdc_mbim s h =
    let (front, back, e) = contains_sound (codes "cdc_mbim") s h in
    (contains_iff (codes "mbim") s).1 (
      front ++ codes "cdc_",
      back,
      e ∙ sym (append_assoc front (codes "cdc_") (codes "mbim" ++ back)),
    )

-- An entry at a position below the bound passes the test.
abbrev pub Among {ℓ} : {A : Type ℓ} → (A → Bool) → ℕ → List A → Type ℓ
Among {A = A} test n xs = (i : ℕ) × (x : A) × (i < n) × (get_elem? xs i ≡ some x) × (test x ≡ true)

Among-cons {ℓ} :
    {A : Type ℓ} (test : A → Bool) (n : ℕ) (x : A) (xs : List A)
    → Among test n xs
    → Among test (suc n) (x ∷ xs)
Among-cons test n x xs (i, y, l, e, h) = (suc i, y, omega arith, e, h)

any_of_first-Among {ℓ} :
    {A : Type ℓ} (test : A → Bool) (n : ℕ) (xs : List A)
    → any_of_first test n xs ≡ true
    → Among test n xs
unfolding any_of_first
any_of_first-Among test zero xs h = cc
any_of_first-Among test (suc n) [] h = cc
any_of_first-Among test (suc n) (x ∷ xs) h = elim (Bool-cases (test x)) [
  | inl e ↦ (0, x, omega arith, refl, e)
  | inr e ↦ Among-cons test n x xs (any_of_first-Among test n xs (ground (arith, h, e)))
]

Among-any_of_first {ℓ} :
    {A : Type ℓ} (test : A → Bool) (n i : ℕ) (x : A) (xs : List A)
    → i < n
    → get_elem? xs i ≡ some x
    → test x ≡ true
    → any_of_first test n xs ≡ true
unfolding any_of_first
Among-any_of_first test zero i x xs l e h = absurd (omega arith)
Among-any_of_first test (suc n) i x [] l e h = cc
Among-any_of_first test (suc n) zero x (y ∷ xs) l e h = ground (arith, e, h)
Among-any_of_first test (suc n) (suc i) x (y ∷ xs) l e h =
    ground (arith, Among-any_of_first test n i x xs (omega arith) e h)

-- A driver among the first 32 whose name contains "mbim" in any case.
abbrev pub HasMbimDriver : Description → Type 0
HasMbimDriver d =
    (drivers : List Bytes) × (d.drivers ≡ some drivers)
    × (i : ℕ) × (driver : Bytes) × (i < 32)
    × (get_elem? drivers i ≡ some driver)
    × Occurs (codes "mbim") (lower_text driver)

-- A port among the first 32 of the type MBIM.
abbrev pub HasMbimPort : Description → Type 0
HasMbimPort d =
    (ports : List Bool) × (d.ports ≡ some ports)
    × (i : ℕ) × (i < 32)
    × (get_elem? ports i ≡ some true)

driver_iff :
    (driver : Bytes) → (is_mbim_driver driver ≡ true) ↔ Occurs (codes "mbim") (lower_text driver)
driver_iff driver =
    ground (arith, contains_iff (codes "mbim") (lower_text driver), cdc_mbim (lower_text driver))

any_entry_iff {ℓ} :
    {A : Type ℓ} (test : A → Bool) (entries : Option (List A))
    → (any_entry test entries ≡ true) ↔ ((xs : List A) × (entries ≡ some xs) × Among test 32 xs)
any_entry_iff test none = (λ h. cc, λ (xs, e, _). cc)
any_entry_iff test (some ys) = (
  λ h. (ys, refl, any_of_first-Among test 32 ys h),
  λ (xs, e, (i, x, l, at, h)). Among-any_of_first test 32 i x ys l (ground (arith, at, e)) h,
)

drivers_iff : (d : Description) → (any_entry is_mbim_driver d.drivers ≡ true) ↔ HasMbimDriver d
drivers_iff d =
    let (sound, complete) = any_entry_iff is_mbim_driver d.drivers in
    (
      λ h.
          let (xs, e, (i, x, l, at, test)) = sound h in (xs, e, i, x, l, at, (driver_iff x).0 test),
      λ (xs, e, i, x, l, at, occurs). complete (xs, e, (i, x, l, at, (driver_iff x).1 occurs)),
    )

ports_iff : (d : Description) → (any_entry (λ is_mbim. is_mbim) d.ports ≡ true) ↔ HasMbimPort d
ports_iff d =
    let (sound, complete) = any_entry_iff (λ is_mbim. is_mbim) d.ports in
    (
      λ h. let (xs, e, (i, x, l, at, test)) = sound h in (xs, e, i, l, at ∙ ap some test),
      λ (xs, e, i, l, at). complete (xs, e, (i, true, l, at, refl)),
    )

composition_iff :
    (d : Description)
    → (same_text (composition d) (codes "mbim") ≡ true) ↔ (HasMbimDriver d ⊎ HasMbimPort d)
unfolding composition same_text
composition_iff d = ground (arith, drivers_iff d, ports_iff d)

-- A modem that changes may be made to.
pub record IsTarget (utf8_valid : Bytes → Bool) (fs : Kernel) (live : Bool) (d : Description)
    : Type 0 where
  pub is_live : live ≡ true
  pub model : Bytes
  pub model_given : d.model ≡ some model
  pub model_valid : utf8_valid model ≡ true
  pub model_name : kept_alnum model ≡ codes "l850gl"
  pub mbim : HasMbimDriver d ⊎ HasMbimPort d
  pub attested : IsAttested fs d.physdev

modem_is_l850_iff :
    (utf8_valid : Bytes → Bool) (d : Description)
    → (modem_is_l850 utf8_valid d ≡ true) ↔ (
        (model : Bytes) × (d.model ≡ some model)
        × (utf8_valid model ≡ true)
        × (kept_alnum model ≡ codes "l850gl"))
unfolding modem_is_l850 normalize_alnum
modem_is_l850_iff utf8_valid d = elim (Option-cases d.model) [
  | inl e ↦ ground (arith, e, same_text_iff [] (codes "l850gl"))
  | inr (model, e) ↦ ground (
    arith,
    e,
    same_text_iff [] (codes "l850gl"),
    same_text_iff (kept_alnum model) (codes "l850gl"),
  )
]

-- A modem may be the target of a change exactly when it is live, its model, which is valid UTF-8,
-- reads l850gl when only its letters and digits are kept in lower case, one of its first 32 drivers
-- contains "mbim" in any case or one of its first 32 ports is of the type MBIM, and its device is
-- attested as an L850-GL by the files of /sys.
pub attest_mutation_target_exact :
    (utf8_valid : Bytes → Bool) (fs : Kernel) (live : Bool) (d : Description)
    → (attest_mutation_target utf8_valid fs live d ≡ true) ↔ IsTarget utf8_valid fs live d
unfolding attest_mutation_target modem_is_supported
attest_mutation_target_exact utf8_valid fs live d =
    let is_l850 = modem_is_l850_iff utf8_valid d in
    let is_mbim = composition_iff d in
    let attest = attest_l850_mbim_exact fs d.physdev [] in
    (
      λ h.
          let (model, given, valid, name) = is_l850.0 (ground (arith, h)) in
          record {
            is_live = ground (arith, h);
            model = model;
            model_given = given;
            model_valid = valid;
            model_name = name;
            mbim = is_mbim.0 (ground (arith, h));
            attested = attest.0 (ground (arith, h));
          },
      λ t. ground (
        arith,
        t.is_live,
        is_l850.1 (t.model, t.model_given, t.model_valid, t.model_name),
        is_mbim.1 t.mbim,
        attest.1 t.attested,
      ),
    )
