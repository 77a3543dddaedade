-- ===== src/CellLock/Command/Matches.antt =====
-- When a lock state that was read back confirms a request.
use luci_app_l850gl_mm.Base.{ℕ, ◌≤◌, Bool, true, false, ◌≡◌, ◌↔◌, some, arith}
use luci_app_l850gl_mm.CellLock.Command.{effective_pci, lock_state_matches}
use luci_app_l850gl_mm.CellLock.Nvm.{NvmValues, lock_state}
use luci_app_l850gl_mm.CellLock.{LockState}
use luci_app_l850gl_mm.Base.Result.{ok}

-- For a state that was read from five values, with a requested cell identity of at most 503: the
-- state confirms a lock request exactly if the values hold an active lock with the requested
-- channel and the requested cell identity, or the wildcard where none is requested; and it
-- confirms a clearing exactly if the values hold no active lock.
pub lock_state_matches_exact :
    (v : NvmValues) (s : LockState) (earfcn : ℕ) (has_pci : Bool) (pci : ℕ)
    → lock_state v ≡ ok s
    → pci ≤ 503
    → ((lock_state_matches (some s) false earfcn has_pci pci ≡ true)
        ↔ ((v.inter_frequency ≡ 1) × (v.frequency ≡ earfcn) × (v.pci ≡ effective_pci has_pci pci)))
      × ((lock_state_matches (some s) true earfcn has_pci pci ≡ true) ↔ (v.inter_frequency ≡ 0))
unfolding lock_state lock_state_matches
lock_state_matches_exact v s earfcn has_pci pci h p =
    ((λ m. ground arith, λ m. ground arith), (λ m. ground arith, λ m. ground arith))
