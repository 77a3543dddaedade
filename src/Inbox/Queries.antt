-- ===== src/Inbox/Queries.antt =====
-- The queries that fill the cache, and the signals that change it
-- (l850gl-mm-bridge/src/bridge.c). A query that is sent to ModemManager is the result `true` of the
-- functions that may send one; its answer comes with the generation it was sent in.
use luci_app_l850gl_mm.Service.Modems.{MutationKind, mutation_sms}
use luci_app_l850gl_mm.Inbox.Reserve.{checked_path, has_messaging}
use luci_app_l850gl_mm.Inbox.{
  Inbox, sms_revision_bump, has_text, clear_sms_cache, without_text, max_sms_cache, sms_at,
  without_path,
}
use luci_app_l850gl_mm.Inbox.Listing.{Glib, Listed, list_sms}
use luci_app_l850gl_mm.Base.{
  ℕ, Option, Bool, Bytes, same_text, true, none, false, List, if◌then◌else◌, codes, not, ltb, [],
  some, ◌+◌, length, ◌==◌, ◌&&◌, ◌∷◌, ◌||◌,
}

abbrev is_ready : Bytes → Bool
is_ready state = same_text state (codes "ready") || same_text state (codes "ready-truncated")

unfoldable pub query_sms : Inbox → Inbox × Bool
query_sms m =
    if not m.live || not (has_messaging m.messaging)
    then (m, false)
    else if m.sms_query_pending
    then (record m { sms_query_dirty = true }, false)
    else (
      record m {
        sms_query_pending = true;
        sms_cache_state = if is_ready m.sms_cache_state then m.sms_cache_state else codes "loading";
      },
      true,
    )

-- What `mm_modem_messaging_list_finish` gives: the messages (a NULL list is the empty one), or an
-- error, which is a cancellation or another one.
pub data ListAnswer : Type 0 where
  list_failed : Bool → ListAnswer
  list_answered : List Listed → ListAnswer

unfoldable pub answer_query : Glib → Inbox → (ℕ → ℕ → Option Bytes) → ListAnswer → Inbox
answer_query glib m generate (list_failed cancelled) = sms_revision_bump (
    clear_sms_cache
      (record m { sms_cache_state = if cancelled then codes "cancelled" else codes "unavailable" }))
answer_query glib m generate (list_answered messages) = list_sms glib m generate messages

abbrev pub same_proxy : Option ℕ → ℕ → Bool
same_proxy none source = false
same_proxy (some messaging) source = messaging == source

unfoldable pub sms_list_ready :
    Glib → Inbox → (ℕ → ℕ → Option Bytes) → ℕ → ℕ → ListAnswer → Inbox × Bool
sms_list_ready glib m generate source generation answer =
    let idle = record m { sms_query_pending = false; sms_query_dirty = false } in
    let after = answer_query glib idle generate answer in
    if not m.live
      || not (same_proxy m.messaging source)
      || not (m.messaging_generation == generation)
    then (m, false)
    else if m.sms_query_dirty
    then query_sms after
    else (after, false)

abbrev forget : Option Bytes → List Bytes → List Bytes
forget none deleted = deleted
forget (some path) deleted = without_text path deleted

unfoldable pub sms_added : (Bytes → Bool) → Inbox → Option Bytes → Inbox × Bool
sms_added is_object_path m path =
    if not m.live
    then (m, false)
    else query_sms (
        sms_revision_bump (record m {
          sms_deleted_paths = forget (checked_path is_object_path path) m.sms_deleted_paths;
        }))

-- `g_hash_table_add` to a set.
abbrev pub add_text : Bytes → List Bytes → List Bytes
add_text text texts = if has_text text texts then texts else text ∷ texts

unfoldable pub delete_path : Inbox → Bytes → Inbox × Bool
delete_path m path =
    let noted = record m {
      sms_deleted_paths =
          if ltb (length m.sms_deleted_paths) max_sms_cache
          then add_text path m.sms_deleted_paths
          else m.sms_deleted_paths;
    } in
    query_sms (elim (sms_at path m.sms_by_path) [
      | none ↦ noted
      | some _ ↦ sms_revision_bump (record noted { sms_by_path = without_path path m.sms_by_path })
    ])

unfoldable pub sms_deleted : (Bytes → Bool) → Inbox → Option Bytes → Inbox × Bool
sms_deleted is_object_path m path =
    if not m.live then (m, false) else elim (checked_path is_object_path path) [
      | none ↦ (m, false)
      | some path ↦ delete_path m path
    ]

abbrev pub u32_last : ℕ
u32_last = 4294967295

abbrev pub same_messaging : Option ℕ → Option ℕ → Bool
same_messaging none none = true
same_messaging (some a) (some b) = a == b
same_messaging _ _ = false

abbrev is_sms_mutation : MutationKind → Bool
is_sms_mutation mutation_sms = true
is_sms_mutation _ = false

abbrev cancel_mutation : Inbox → List ℕ
cancel_mutation m =
    if is_sms_mutation m.mutation_kind
    then elim m.mutation_cancellable [
      | none ↦ m.cancelled
      | some cancellable ↦ cancellable ∷ m.cancelled
    ]
    else m.cancelled

-- What `reconcile_messaging` clears first.
unfoldable pub clear_messaging : Inbox → Inbox
clear_messaging m = record m {
  cancelled = cancel_mutation m;
  messaging = none;
  sms_by_path = [];
  sms_reserved_ids = [];
  sms_deleted_paths = [];
  sms_query_pending = false;
  sms_query_dirty = false;
  sms_cache_truncated = false;
  sms_dedupe = [];
}

unfoldable pub reconcile_messaging : Inbox → Option ℕ → Bool → Inbox × Bool
reconcile_messaging m messaging force_epoch =
    let cleared = clear_messaging m in
    let next =
      sms_revision_bump (record cleared { messaging_generation = m.messaging_generation + 1 }) in
    if not force_epoch && same_messaging messaging m.messaging
    then (m, false)
    else if m.messaging_generation == u32_last
    then (record cleared { sms_cache_state = codes "unavailable" }, false)
    else elim messaging [
      | none ↦ (record next { sms_cache_state = codes "absent" }, false)
      | some proxy ↦ query_sms (record next { messaging = some proxy })
    ]
