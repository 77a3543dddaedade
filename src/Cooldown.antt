-- ===== src/Cooldown.antt =====
-- The cooldowns of the two vendor queries: `l850gl_l850_scan_retry_after_ms` of
-- l850gl-mm-bridge/src/l850_cell.c and `l850gl_l850_ca_retry_after_ms` of
-- l850gl-mm-bridge/src/l850_ca.c. Times are signed microseconds.
pub mod Wait
use luci_app_l850gl_mm.Base.Int.{ℤ, pos, pos_part, ltb_ℤ, leb_ℤ}
use luci_app_l850gl_mm.Base.{ℕ, ◌+◌, ◌-◌, ◌*◌, ◌/◌, ◌||◌, ltb, leb, if◌then◌else◌}

abbrev pub scan_cooldown_seconds : ℕ
scan_cooldown_seconds = 5

abbrev pub query_cooldown_seconds : ℕ
query_cooldown_seconds = 5

-- Neither time is negative behind the first test, so the differences are those of numbers.
retry_after : ℕ → ℤ → ℤ → ℕ
retry_after seconds now_us last_us =
    if ltb_ℤ now_us (pos 0) || leb_ℤ last_us (pos 0)
    then 0
    else if ltb (pos_part now_us) (pos_part last_us)
    then seconds * 1000
    else if leb (seconds * 1000000) (pos_part now_us - pos_part last_us)
    then 0
    else let remaining = (seconds * 1000000 - (pos_part now_us - pos_part last_us) + 999) / 1000 in
      if ltb 4294967295 remaining then 4294967295 else remaining

unfoldable pub scan_retry_after_ms : ℤ → ℤ → ℕ
unfolding retry_after
scan_retry_after_ms = retry_after scan_cooldown_seconds

unfoldable pub ca_retry_after_ms : ℤ → ℤ → ℕ
unfolding retry_after
ca_retry_after_ms = retry_after query_cooldown_seconds
