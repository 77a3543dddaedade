-- ===== src/Network/Modes.antt =====
-- The pairs of modes that a client may ask for.
use luci_app_l850gl_mm.Base.{
  true, some, Bytes, codes, same_text, same_text_iff, ◌≡◌, ◌⊎◌, inl, inr, ◌↔◌, refl, arith,
}
use luci_app_l850gl_mm.Bits.{land, lor, bitwise as word_bits}
use luci_app_l850gl_mm.Network.{
  Binding, copy_modes, mode_list, modes_are_valid, allowedmode_is_safe, preferredmode_is_safe, land,
  lor,
}

-- A pair of modes is valid exactly if the allowed modes are "3g", "4g" or "3g|4g" and the preferred
-- mode is "none", or the allowed modes are "3g|4g" and the preferred mode is "3g" or "4g".
pub modes_are_valid_exact :
    (allowed preferred : Bytes)
    → (modes_are_valid (some allowed) (some preferred) ≡ true) ↔ (
        (((allowed ≡ codes "3g") ⊎ (allowed ≡ codes "4g")) × (preferred ≡ codes "none"))
        ⊎ ((allowed ≡ codes "3g|4g")
            × ((preferred ≡ codes "none") ⊎ (preferred ≡ codes "3g") ⊎ (preferred ≡ codes "4g"))))
unfolding modes_are_valid same_text
modes_are_valid_exact allowed preferred = (sound, complete)
  where
    sound :
        modes_are_valid (some allowed) (some preferred) ≡ true
        → (((allowed ≡ codes "3g") ⊎ (allowed ≡ codes "4g")) × (preferred ≡ codes "none"))
          ⊎ ((allowed ≡ codes "3g|4g")
              × ((preferred ≡ codes "none") ⊎ (preferred ≡ codes "3g") ⊎ (preferred ≡ codes "4g")))
    sound h = ground (
      arith,
      same_text_iff allowed (codes "3g"),
      same_text_iff allowed (codes "4g"),
      same_text_iff allowed (codes "3g|4g"),
      same_text_iff preferred (codes "none"),
      same_text_iff preferred (codes "3g"),
      same_text_iff preferred (codes "4g"),
    )

    complete :
        (((allowed ≡ codes "3g") ⊎ (allowed ≡ codes "4g")) × (preferred ≡ codes "none"))
          ⊎ ((allowed ≡ codes "3g|4g")
              × ((preferred ≡ codes "none") ⊎ (preferred ≡ codes "3g") ⊎ (preferred ≡ codes "4g")))
        → modes_are_valid (some allowed) (some preferred) ≡ true
    complete (inl (inl a, p)) = rw (a, p) refl
    complete (inl (inr a, p)) = rw (a, p) refl
    complete (inr (a, inl p)) = rw (a, p) refl
    complete (inr (a, inr (inl p))) = rw (a, p) refl
    complete (inr (a, inr (inr p))) = rw (a, p) refl

-- Modes that a client may ask for are copied into every binding, as they are.
pub copy_modes_valid :
    (binding : Binding) (allowed preferred : Bytes)
    → modes_are_valid (some allowed) (some preferred) ≡ true
    → copy_modes binding (some allowed) (some preferred)
      ≡ record binding { allowedmode = some allowed; preferredmode = some preferred }
unfolding allowedmode_is_safe preferredmode_is_safe mode_list same_text land lor word_bits
copy_modes_valid binding allowed preferred h =
    elim ((modes_are_valid_exact allowed preferred).0 h) [
      | inl (inl a, p) ↦ rw (a, p) refl
      | inl (inr a, p) ↦ rw (a, p) refl
      | inr (a, inl p) ↦ rw (a, p) refl
      | inr (a, inr (inl p)) ↦ rw (a, p) refl
      | inr (a, inr (inr p)) ↦ rw (a, p) refl
    ]
