-- ===== src/Inbox.antt =====
-- The messages of one modem as the bridge keeps them (l850gl-mm-bridge/src/bridge.c): the cache of
-- the SMS objects by their paths, their identities, the reserved identities, and the queries that
-- fill the cache. The hash tables are lists; the tables of a live modem exist. GLib and libmm-glib
-- are parameters; the signal handlers and the time of the last change are not part of the state.
pub mod Admission
pub mod Changes
pub mod Entries
pub mod Identities
pub mod Inventory
pub mod Listed
pub mod Listing
pub mod Queries
pub mod Reserve
use luci_app_l850gl_mm.Base.{
  ℕ, zero, suc, ◌+◌, ◌-◌, Bool, true, false, not, ◌&&◌, ◌||◌, List, [], ◌∷◌, ◌++◌, Option, none,
  some, ltb, leb, ◌==◌, if◌then◌else◌, Bytes, codes, length, same_text,
}
use luci_app_l850gl_mm.Identity.{sms_identity_is_valid}
use luci_app_l850gl_mm.Service.Modems.{MutationKind, mutation_none, mutation_sms}
use luci_app_l850gl_mm.SmsStore.{Entry}

-- `L850GLSms` in the cache of its owner, with the key it stands under; `sms` is its proxy.
pub record Sms : Type 0 where
  pub path : Bytes
  pub sms_id : Bytes
  pub sms : ℕ
  pub modem_generation : ℕ
  pub messaging_generation : ℕ

-- The fields of `L850GLModem` for its messages; `messaging` is the proxy, `cancelled` lists the
-- cancellables that were cancelled.
pub record Inbox : Type 0 where
  pub live : Bool
  pub generation : ℕ
  pub messaging : Option ℕ
  pub messaging_generation : ℕ
  pub sms_by_path : List Sms
  pub sms_reserved_ids : List Bytes
  pub sms_deleted_paths : List Bytes
  pub sms_dedupe : List Entry
  pub sms_revision : ℕ
  pub sms_query_pending : Bool
  pub sms_query_dirty : Bool
  pub sms_cache_truncated : Bool
  pub sms_cache_state : Bytes
  pub mutation_busy : Bool
  pub mutation_kind : MutationKind
  pub mutation_cancellable : Option ℕ
  pub cancelled : List ℕ

abbrev pub max_sms_cache : ℕ
max_sms_cache = 1024

abbrev pub sms_random_retries : ℕ
sms_random_retries = 8

abbrev pub u64_max : ℕ
u64_max = 18446744073709551615

abbrev pub has_path : Bytes → Sms → Bool
has_path path e = same_text e.path path

abbrev pub has_id : Bytes → Sms → Bool
has_id sms_id e = same_text e.sms_id sms_id

unfoldable pub any_sms : (Sms → Bool) → List Sms → Bool
any_sms test [] = false
any_sms test (e ∷ cache) = test e || any_sms test cache

-- `g_hash_table_lookup` of a path.
unfoldable pub sms_at : Bytes → List Sms → Option Sms
sms_at path [] = none
sms_at path (e ∷ cache) = if has_path path e then some e else sms_at path cache

-- `g_hash_table_remove` and `g_hash_table_steal` of a path.
unfoldable pub without_path : Bytes → List Sms → List Sms
without_path path [] = []
without_path path (e ∷ cache) =
    if has_path path e then without_path path cache else e ∷ without_path path cache

-- `g_hash_table_contains` and `g_hash_table_remove` of a set of texts.
unfoldable pub has_text : Bytes → List Bytes → Bool
has_text text [] = false
has_text text (t ∷ ts) = same_text t text || has_text text ts

unfoldable pub without_text : Bytes → List Bytes → List Bytes
without_text text [] = []
without_text text (t ∷ ts) =
    if same_text t text then without_text text ts else t ∷ without_text text ts

unfoldable pub sms_id_exists_in_hash : List Sms → Bytes → Bool
sms_id_exists_in_hash cache sms_id = any_sms (has_id sms_id) cache

-- The loop of `new_sms_id`: the answer of `l850gl_sms_identity_generate` at each attempt, with the
-- attempts that are left.
unfoldable pub new_sms_id : Inbox → List Sms → (ℕ → Option Bytes) → ℕ → Option Bytes
new_sms_id m additional generate zero = none
new_sms_id m additional generate (suc left) =
    let again = new_sms_id m additional generate left in
    elim (generate left) [
      | none ↦ none
      | some candidate ↦
          if not (sms_id_exists_in_hash m.sms_by_path candidate)
            && not (sms_id_exists_in_hash additional candidate)
            && not (has_text candidate m.sms_reserved_ids)
          then some candidate
          else again
    ]

-- `sms_revision_bump`, without the time.
unfoldable pub sms_revision_bump : Inbox → Inbox
sms_revision_bump m = record m {
  sms_revision = if ltb m.sms_revision u64_max then m.sms_revision + 1 else m.sms_revision;
}

abbrev pub clear_sms_cache : Inbox → Inbox
clear_sms_cache m = record m { sms_by_path = [] }

-- The entry is the modem's, so only the proxy decides.
unfoldable pub sms_set_proxy : Inbox → Sms → ℕ → Sms
sms_set_proxy m e sms = if e.sms == sms then e else record e {
  sms = sms;
  modem_generation = m.generation;
  messaging_generation = m.messaging_generation;
}

unfoldable pub reserve_with : Inbox → Option Bytes → Option Bytes × Inbox
reserve_with m none = (none, m)
reserve_with m (some sms_id) =
    (some sms_id, record m { sms_reserved_ids = sms_id ∷ m.sms_reserved_ids })

unfoldable pub modem_reserve_sms_id : Inbox → (ℕ → Option Bytes) → Option Bytes × Inbox
modem_reserve_sms_id m generate =
    if not m.live then (none, m) else reserve_with m (new_sms_id m [] generate sms_random_retries)

unfoldable pub modem_release_sms_id : Inbox → Option Bytes → Inbox
modem_release_sms_id m none = m
modem_release_sms_id m (some sms_id) = record m {
  sms_reserved_ids = without_text sms_id m.sms_reserved_ids;
}

abbrev pub new_sms : Inbox → Bytes → Bytes → ℕ → Sms
new_sms m path sms_id sms = record {
  path = path;
  sms_id = sms_id;
  sms = sms;
  modem_generation = m.generation;
  messaging_generation = m.messaging_generation;
}

-- `sms_entry_new`: the identity is the reserved one or a new one.
abbrev pub entry_id : Inbox → List Sms → (ℕ → Option Bytes) → Option Bytes → Option Bytes
entry_id m additional generate (some reserved_id) = some reserved_id
entry_id m additional generate none = new_sms_id m additional generate sms_random_retries

-- A write of the entry with the path.
unfoldable pub put_sms : Sms → List Sms → List Sms
put_sms new [] = []
put_sms new (e ∷ cache) = if has_path new.path e then new ∷ cache else e ∷ put_sms new cache
