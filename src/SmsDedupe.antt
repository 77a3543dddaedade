-- ===== src/SmsDedupe.antt =====
-- The policy of the store that recognises repeated messages (l850gl-mm-bridge/src/
-- sms_dedupe_policy.c): when an entry expires, and how many entries make room for a new one. Times
-- are signed microseconds of 64 bits.
use luci_app_l850gl_mm.Base.Int.{ℤ, pos, pos_part, ltb_ℤ, leb_ℤ}
use luci_app_l850gl_mm.Base.{
  ℕ, ◌+◌, ◌-◌, ◌*◌, ◌≤◌, Bool, true, ltb, if◌then◌else◌, ◌≡◌, ◌⊎◌, ◌↔◌, arith,
}

abbrev pub i64_max : ℕ
i64_max = 9223372036854775807

abbrev pub dedupe_seconds : ℕ
dedupe_seconds = 300

abbrev pub dedupe_max : ℕ
dedupe_max = 64

abbrev pub window : ℕ
window = dedupe_seconds * 1000000

unfoldable pub sms_dedupe_expiry : ℤ → ℤ
sms_dedupe_expiry now_us =
    if ltb_ℤ now_us (pos 0)
    then pos 0
    else if ltb_ℤ (pos (i64_max - window)) now_us
    then pos i64_max
    else pos (pos_part now_us + window)

unfoldable pub sms_dedupe_is_expired : ℤ → ℤ → Bool
sms_dedupe_is_expired expires_at_us now_us = leb_ℤ expires_at_us now_us

unfoldable pub sms_dedupe_evictions_required : ℕ → ℕ
sms_dedupe_evictions_required current_length =
    if ltb current_length dedupe_max then 0 else current_length - dedupe_max + 1

-- An entry that is made at a time of at least 0 is expired at another such time exactly if 300
-- seconds have passed, or if that time is the largest of 64 bits.
pub sms_dedupe_expiry_exact :
    (now later : ℕ)
    → now ≤ i64_max
    → later ≤ i64_max
    → (sms_dedupe_is_expired (sms_dedupe_expiry (pos now)) (pos later) ≡ true)
      ↔ ((now + window ≤ later) ⊎ (later ≡ i64_max))
unfolding sms_dedupe_is_expired sms_dedupe_expiry
sms_dedupe_expiry_exact now later h l = (λ e. ground arith, λ e. ground arith)

-- The entries to evict are in the store; without them there is room for one entry more, and
-- either none is evicted or the store is full with that entry.
pub sms_dedupe_evictions_exact :
    (n : ℕ)
    → (sms_dedupe_evictions_required n ≤ n)
      × (n - sms_dedupe_evictions_required n + 1 ≤ dedupe_max)
      × ((sms_dedupe_evictions_required n ≡ 0)
          ⊎ (n - sms_dedupe_evictions_required n + 1 ≡ dedupe_max))
unfolding sms_dedupe_evictions_required
sms_dedupe_evictions_exact n = (ground arith, ground arith, ground arith)
