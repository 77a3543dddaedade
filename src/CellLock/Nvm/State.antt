-- ===== src/CellLock/Nvm/State.antt =====
-- The lock states that `l850gl_l850_nvm_parse` returns.
use luci_app_l850gl_mm.Base.Result.{ok}
use luci_app_l850gl_mm.Base.{◌≤◌, true, false, ◌≡◌, ◌⊎◌, arith, some}
use luci_app_l850gl_mm.CellLock.Earfcn.{earfcn_to_band}
use luci_app_l850gl_mm.CellLock.Nvm.{NvmValues, lock_state}
use luci_app_l850gl_mm.CellLock.{LockState, pci_wildcard, clear_frequency}

-- No lock: the frequency and the PCI have the values that clear a lock.
pub record IsUnlocked (s : LockState) : Type 0 where
  pub disabled : s.enabled ≡ false
  pub no_pci : s.has_pci ≡ false
  pub no_frequency : s.earfcn ≡ clear_frequency
  pub any_pci : s.pci ≡ pci_wildcard

-- A lock on a channel of a known band, with or without a cell identity.
pub record IsLocked (s : LockState) : Type 0 where
  pub enabled : s.enabled ≡ true
  pub band_of : earfcn_to_band s.earfcn ≡ some s.band
  pub pci_of : ((s.has_pci ≡ true) × (s.pci ≤ 503)) ⊎ ((s.has_pci ≡ false) × (s.pci ≡ pci_wildcard))

pub lock_state-cases :
    (v : NvmValues) {s : LockState}
    → lock_state v ≡ ok s
    → IsUnlocked s × (v.inter_frequency ≡ 0) ⊎ IsLocked s × (v.inter_frequency ≡ 1)
unfolding lock_state
lock_state-cases v h = ground arith
