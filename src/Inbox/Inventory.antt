-- ===== src/Inbox/Inventory.antt =====
-- What holds of the cache of messages through the operations on one message
-- (l850gl-mm-bridge/src/bridge.c).
use mathlib.Core.Path.{subst}
use luci_app_l850gl_mm.Inbox.Identities.{DistinctBy}
use luci_app_l850gl_mm.Inbox.{
  modem_release_sms_id, has_text, Inbox, new_sms_id, modem_reserve_sms_id, sms_id_exists_in_hash,
  any_sms, without_text, Sms, reserve_with, sms_random_retries,
}
use luci_app_l850gl_mm.Base.{
  ℕ, Bytes, List, All, Option, length, some, ◌∷◌, ◌≡◌, Option-cases, true, [], ◌≤◌, false, suc,
  arith, Bool-cases, none, same_text, same_text_iff, refl, inl, Bool, not, if_holds, ap, ◌&&◌, inr,
  zero,
}

-- The identity of a cached message is not reserved, and the message is of the current generation.
abbrev pub IsKept : List Bytes → ℕ → Sms → Type 0
IsKept reserved current e =
    (has_text e.sms_id reserved ≡ false) × (e.messaging_generation ≡ current)

-- The cached messages differ in their paths and in their identities, none of their identities is
-- reserved, all are of the current generation of the messaging interface, and there are at most
-- 1024.
pub record IsInbox (m : Inbox) : Type 0 where
  pub paths : DistinctBy (λ e. e.path) m.sms_by_path
  pub ids : DistinctBy (λ e. e.sms_id) m.sms_by_path
  pub kept : All (IsKept m.sms_reserved_ids m.messaging_generation) m.sms_by_path
  pub bounded : length m.sms_by_path ≤ 1024

pub new_sms_id-fresh :
    (m : Inbox) (additional : List Sms) (generate : ℕ → Option Bytes) (left : ℕ) {sms_id : Bytes}
    → new_sms_id m additional generate left ≡ some sms_id
    → (sms_id_exists_in_hash m.sms_by_path sms_id ≡ false)
      × (sms_id_exists_in_hash additional sms_id ≡ false)
      × (has_text sms_id m.sms_reserved_ids ≡ false)
unfolding new_sms_id
new_sms_id-fresh m additional generate zero h = cc
new_sms_id-fresh m additional generate (suc left) {sms_id} h = elim (Option-cases (generate left)) [
  | inl e ↦ absurd (ground (arith, h, e))
  | inr (candidate, e) ↦ elim (Bool-cases (is_fresh candidate)) [
    | inl t ↦
        let same : candidate ≡ sms_id = ground (arith, h, e, t) in
        subst
          (λ s.
            (sms_id_exists_in_hash m.sms_by_path s ≡ false)
            × (sms_id_exists_in_hash additional s ≡ false)
            × (has_text s m.sms_reserved_ids ≡ false))
          same (ground (arith, t), ground (arith, t), ground (arith, t))
    | inr t ↦ new_sms_id-fresh m additional generate left (ground (arith, h, e, t))
  ]
]
  where
    is_fresh : Bytes → Bool
    is_fresh candidate =
        not (sms_id_exists_in_hash m.sms_by_path candidate)
        && not (sms_id_exists_in_hash additional candidate)
        && not (has_text candidate m.sms_reserved_ids)

pub has_text-without :
    (text gone : Bytes) (texts : List Bytes)
    → has_text text texts ≡ false
    → has_text text (without_text gone texts) ≡ false
unfolding has_text without_text
has_text-without text gone [] h = refl
has_text-without text gone (t ∷ texts) h = ground (arith, h, has_text-without text gone texts)

pub has_text-gone :
    (text : Bytes) (texts : List Bytes) → has_text text (without_text text texts) ≡ false
unfolding has_text without_text
has_text-gone text [] = refl
has_text-gone text (t ∷ texts) = ground (arith, has_text-gone text texts)

pub All-map {ℓ κ μ} :
    {A : Type ℓ} {P : A → Type κ} {Q : A → Type μ} (xs : List A)
    → ((x : A) → P x → Q x)
    → All P xs
    → All Q xs
All-map [] f h = tt
All-map (x ∷ xs) f (p, h) = (f x p, All-map xs f h)

pub release-kept :
    (sms_id : Bytes) (reserved : List Bytes) (current : ℕ) (cache : List Sms)
    → All (IsKept reserved current) cache
    → All (IsKept (without_text sms_id reserved) current) cache
release-kept sms_id reserved current cache =
    All-map cache λ e (free, now). (has_text-without e.sms_id sms_id reserved free, now)

reserve-kept :
    (sms_id : Bytes) (reserved : List Bytes) (current : ℕ) (cache : List Sms)
    → sms_id_exists_in_hash cache sms_id ≡ false
    → All (IsKept reserved current) cache
    → All (IsKept (sms_id ∷ reserved) current) cache
unfolding sms_id_exists_in_hash any_sms has_text
reserve-kept sms_id reserved current [] n h = tt
reserve-kept sms_id reserved current (e ∷ cache) n ((free, now), h) = (
  (ground (arith, free, n, same_text_iff sms_id e.sms_id, same_text_iff e.sms_id sms_id), now),
  reserve-kept sms_id reserved current cache (ground (arith, n)) h,
)

-- A reserved identity is no cached message's.
pub reserved-unused :
    (sms_id : Bytes) (reserved : List Bytes) (current : ℕ) (cache : List Sms)
    → has_text sms_id reserved ≡ true
    → All (IsKept reserved current) cache
    → sms_id_exists_in_hash cache sms_id ≡ false
unfolding sms_id_exists_in_hash any_sms
reserved-unused sms_id reserved current [] r h = refl
reserved-unused sms_id reserved current (e ∷ cache) r ((free, now), h) =
    elim (Bool-cases (same_text e.sms_id sms_id)) [
      | inl t ↦
          let same : e.sms_id ≡ sms_id = (same_text_iff e.sms_id sms_id).0 t in
          absurd (ground (arith, r, free, ap (λ s. has_text s reserved) same))
      | inr t ↦ ground (arith, t, reserved-unused sms_id reserved current cache r h)
    ]

-- A result with an inbox.
abbrev pub Answers : Option Sms × Inbox → Type 0
Answers r = IsInbox r.1

reserve_with-IsInbox :
    (m : Inbox) (found : Option Bytes)
    → ((sms_id : Bytes) → found ≡ some sms_id → sms_id_exists_in_hash m.sms_by_path sms_id ≡ false)
    → IsInbox m
    → IsInbox (reserve_with m found).1
unfolding reserve_with
reserve_with-IsInbox m none fresh i = i
reserve_with-IsInbox m (some sms_id) fresh i = record {
  paths = i.paths;
  ids = i.ids;
  kept =
      reserve-kept sms_id m.sms_reserved_ids m.messaging_generation m.sms_by_path
        (fresh sms_id refl) i.kept;
  bounded = i.bounded;
}

pub reserve-IsInbox :
    (m : Inbox) (generate : ℕ → Option Bytes)
    → IsInbox m
    → IsInbox (modem_reserve_sms_id m generate).1
unfolding modem_reserve_sms_id
reserve-IsInbox m generate i =
    if_holds (λ (r : Option Bytes × Inbox). IsInbox r.1) (not m.live) (λ _. i)
      (λ _.
        reserve_with-IsInbox m (new_sms_id m [] generate sms_random_retries)
          (λ sms_id e. (new_sms_id-fresh m [] generate sms_random_retries e).0) i)

pub release-IsInbox :
    (m : Inbox) (sms_id : Option Bytes) → IsInbox m → IsInbox (modem_release_sms_id m sms_id)
unfolding modem_release_sms_id
release-IsInbox m none i = i
release-IsInbox m (some sms_id) i = record {
  paths = i.paths;
  ids = i.ids;
  kept = release-kept sms_id m.sms_reserved_ids m.messaging_generation m.sms_by_path i.kept;
  bounded = i.bounded;
}
