-- ===== src/Inbox/Reserve.antt =====
-- The admission of a single message into the cache (`modem_admit_sms` and its callers, and
-- `l850gl_modem_find_sms` of l850gl-mm-bridge/src/bridge.c). `is_object_path` is
-- `g_variant_is_object_path`.
use luci_app_l850gl_mm.Inbox.{
  Inbox, Sms, sms_set_proxy, clear_sms_cache, sms_identity_is_valid, put_sms, new_sms,
  max_sms_cache, has_id, modem_release_sms_id, has_text, sms_at, sms_revision_bump, entry_id,
  sms_id_exists_in_hash,
}
use luci_app_l850gl_mm.Base.{
  ℕ, Bytes, Option, Bool, List, false, none, some, true, if◌then◌else◌, codes, leb, ◌∷◌, not, ◌&&◌,
  ◌==◌, same_text, ◌||◌, length, [],
}

-- The reserved identity is a valid one that is reserved, where there is one.
abbrev pub reserved_is_usable : Inbox → Option Bytes → Bool
reserved_is_usable m none = true
reserved_is_usable m (some sms_id) =
    sms_identity_is_valid (some sms_id) && has_text sms_id m.sms_reserved_ids

abbrev pub checked_path : (Bytes → Bool) → Option Bytes → Option Bytes
checked_path is_object_path none = none
checked_path is_object_path (some path) = if is_object_path path then some path else none

-- An entry of the cache is admitted again, with the reserved identity in place of its own.
unfoldable pub admit_known : Inbox → Sms → ℕ → Option Bytes → Option Sms × Inbox
admit_known m e sms none =
    let entry = sms_set_proxy m e sms in
    (some entry, record m { sms_by_path = put_sms entry m.sms_by_path })
admit_known m e sms (some reserved_id) =
    let renamed = record e { sms_id = reserved_id } in
    let entry = sms_set_proxy m renamed sms in
    let kept = record m { sms_by_path = put_sms entry m.sms_by_path } in
    if same_text e.sms_id reserved_id
    then (some entry, modem_release_sms_id kept (some reserved_id))
    else if sms_id_exists_in_hash m.sms_by_path reserved_id
    then (none, m)
    else (some entry, modem_release_sms_id (sms_revision_bump kept) (some reserved_id))

-- A new entry; without an identity the cache is given up.
unfoldable pub admit_new : Inbox → Bytes → ℕ → Option Bytes → Option Bytes → Option Sms × Inbox
admit_new m path sms reserved_id none =
    (none, clear_sms_cache (record m { sms_cache_state = codes "unavailable" }))
admit_new m path sms reserved_id (some sms_id) =
    let entry = new_sms m path sms_id sms in
    let kept = record m { sms_by_path = entry ∷ m.sms_by_path } in
    (some entry, sms_revision_bump (modem_release_sms_id kept reserved_id))

unfoldable pub admit_at :
    Inbox → ℕ → Option Bytes → (ℕ → Option Bytes) → Bytes → Option Sms → Option Sms × Inbox
admit_at m sms reserved_id generate path (some e) = admit_known m e sms reserved_id
admit_at m sms reserved_id generate path none =
    if leb max_sms_cache (length m.sms_by_path)
    then (none, record m { sms_cache_truncated = true })
    else admit_new m path sms reserved_id (entry_id m [] generate reserved_id)

abbrev pub has_messaging : Option ℕ → Bool
has_messaging none = false
has_messaging (some messaging) = true

unfoldable pub modem_admit_sms :
    (Bytes → Bool)
    → Inbox
    → Option Bytes
    → ℕ
    → Option Bytes
    → (ℕ → Option Bytes)
    → Option Sms × Inbox
modem_admit_sms is_object_path m path sms reserved_id generate =
    if not m.live || not (has_messaging m.messaging) || not (reserved_is_usable m reserved_id)
    then (none, m)
    else elim (checked_path is_object_path path) [
      | none ↦ (none, m)
      | some path ↦ admit_at m sms reserved_id generate path (sms_at path m.sms_by_path)
    ]

-- The loop of `l850gl_modem_find_sms`.
unfoldable pub find_current : Inbox → Bytes → List Sms → Option Sms
find_current m sms_id [] = none
find_current m sms_id (e ∷ cache) =
    if e.modem_generation == m.generation
      && e.messaging_generation == m.messaging_generation
      && has_id sms_id e
    then some e
    else find_current m sms_id cache

unfoldable pub modem_find_sms : Inbox → Bytes → Option Sms
modem_find_sms m sms_id =
    if sms_identity_is_valid (some sms_id) then find_current m sms_id m.sms_by_path else none
