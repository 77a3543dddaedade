-- ===== src/Cooldown/Wait.antt =====
-- The time that a refused query is told to wait.
use luci_app_l850gl_mm.Base.Int.{ℤ, pos}
use luci_app_l850gl_mm.Base.{ℕ, ◌+◌, ◌*◌, ◌≤◌, ◌<◌, ◌≡◌, ◌↔◌, arith}
use luci_app_l850gl_mm.Cooldown.{scan_retry_after_ms, ca_retry_after_ms}

-- The wait of a query that ended at `last`, at the time `now`.
pub record IsLeastWait (retry : ℤ → ℤ → ℕ) (now last : ℕ) : Type 0 where
  pub free : (retry (pos now) (pos last) ≡ 0) ↔ (last + 5000000 ≤ now)
  pub enough : last + 5000000 ≤ now + retry (pos now) (pos last) * 1000
  pub least : (ms : ℕ) → last + 5000000 ≤ now + ms * 1000 → retry (pos now) (pos last) ≤ ms

-- At a time not before the end of the last cell scan, which is positive, the wait is 0 exactly if five
-- seconds have passed; after the wait in milliseconds they have passed, and no smaller number of
-- milliseconds is enough.
pub scan_retry_after_ms-IsLeastWait :
    (now last : ℕ) → 0 < last → last ≤ now → IsLeastWait scan_retry_after_ms now last
unfolding scan_retry_after_ms
scan_retry_after_ms-IsLeastWait now last p h = record {
  free = (λ e. ground arith, λ e. ground arith);
  enough = ground arith;
  least = λ ms e. ground arith;
}

-- At a time not before the end of the last carrier query, which is positive, the wait is 0 exactly if five
-- seconds have passed; after the wait in milliseconds they have passed, and no smaller number of
-- milliseconds is enough.
pub ca_retry_after_ms-IsLeastWait :
    (now last : ℕ) → 0 < last → last ≤ now → IsLeastWait ca_retry_after_ms now last
unfolding ca_retry_after_ms
ca_retry_after_ms-IsLeastWait now last p h = record {
  free = (λ e. ground arith, λ e. ground arith);
  enough = ground arith;
  least = λ ms e. ground arith;
}
