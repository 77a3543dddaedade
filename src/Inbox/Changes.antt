-- ===== src/Inbox/Changes.antt =====
-- Any changes of the cache of messages, one after the other (l850gl-mm-bridge/src/bridge.c).
use luci_app_l850gl_mm.Inbox.Entries.{bump-IsInbox}
use luci_app_l850gl_mm.Inbox.Admission.{modem_admit_sms-IsInbox}
use luci_app_l850gl_mm.Inbox.Identities.{DistinctBy-without}
use luci_app_l850gl_mm.Inbox.Listed.{list_sms-IsInbox, All-without, length-without}
use luci_app_l850gl_mm.Inbox.Reserve.{modem_admit_sms, checked_path}
use luci_app_l850gl_mm.Inbox.Inventory.{IsInbox, reserve-IsInbox, release-IsInbox, IsKept}
use luci_app_l850gl_mm.Inbox.Listing.{Glib}
use luci_app_l850gl_mm.Inbox.{
  Inbox, modem_reserve_sms_id, sms_revision_bump, modem_release_sms_id, without_path, max_sms_cache,
  Sms, sms_at,
}
use luci_app_l850gl_mm.Inbox.Queries.{
  sms_deleted, sms_list_ready, delete_path, query_sms, sms_added, reconcile_messaging, answer_query,
  clear_messaging, ListAnswer, list_failed, list_answered, same_proxy, same_messaging, u32_last,
  add_text,
}
use luci_app_l850gl_mm.Base.{
  none, some, ℕ, Option, Bool, ◌≡◌, Bytes, List, false, ◌∷◌, [], arith, if_holds, not, refl, ◌||◌,
  ◌+◌, if◌then◌else◌, codes, ltb, length, ◌==◌, ◌&&◌,
}

-- What happens to the messages of a modem.
pub data InboxChange : Type 0 where
  id_reserved : (ℕ → Option Bytes) → InboxChange
  id_released : Option Bytes → InboxChange
  sms_admitted : Option Bytes → ℕ → Option Bytes → (ℕ → Option Bytes) → InboxChange
  list_arrived : (ℕ → ℕ → Option Bytes) → ℕ → ℕ → ListAnswer → InboxChange
  refreshed : InboxChange
  signal_added : Option Bytes → InboxChange
  signal_deleted : Option Bytes → InboxChange
  messaging_reconciled : Option ℕ → Bool → InboxChange
  modem_removed : InboxChange

-- `modem_mark_removed`, for the messages.
unfoldable pub modem_mark_removed : Inbox → Inbox
modem_mark_removed m = record m {
  live = false;
  cancelled = elim m.mutation_cancellable [
    | none ↦ m.cancelled
    | some cancellable ↦ cancellable ∷ m.cancelled
  ];
  sms_by_path = [];
}

module _ (glib : Glib) where
  unfoldable pub change_inbox : Inbox → InboxChange → Inbox
  change_inbox m (id_reserved generate) = (modem_reserve_sms_id m generate).1
  change_inbox m (id_released sms_id) = modem_release_sms_id m sms_id
  change_inbox m (sms_admitted path sms reserved_id generate) =
      (modem_admit_sms glib.is_object_path m path sms reserved_id generate).1
  change_inbox m (list_arrived generate source generation answer) =
      (sms_list_ready glib m generate source generation answer).0
  change_inbox m refreshed = (query_sms m).0
  change_inbox m (signal_added path) = (sms_added glib.is_object_path m path).0
  change_inbox m (signal_deleted path) = (sms_deleted glib.is_object_path m path).0
  change_inbox m (messaging_reconciled messaging force_epoch) =
      (reconcile_messaging m messaging force_epoch).0
  change_inbox m modem_removed = modem_mark_removed m

  unfoldable pub change_all : Inbox → List InboxChange → Inbox
  change_all m [] = m
  change_all m (c ∷ cs) = change_all (change_inbox m c) cs

-- Only fields that say nothing of the cache differ.
same-IsInbox :
    (m n : Inbox)
    → IsInbox m
    → n.sms_by_path ≡ m.sms_by_path
    → n.sms_reserved_ids ≡ m.sms_reserved_ids
    → n.messaging_generation ≡ m.messaging_generation
    → IsInbox n
same-IsInbox m n i cache reserved current = record {
  paths = rw cache i.paths;
  ids = rw cache i.ids;
  kept = rw (cache, reserved, current) i.kept;
  bounded = rw cache i.bounded;
}

query-IsInbox : (m : Inbox) → IsInbox m → IsInbox (query_sms m).0
unfolding query_sms
query-IsInbox m i = same-IsInbox m (query_sms m).0 i (ground arith) (ground arith) (ground arith)

empty-IsInbox : (m : Inbox) → m.sms_by_path ≡ [] → IsInbox m
empty-IsInbox m h = record {
  paths = rw h tt;
  ids = rw h tt;
  kept = rw h tt;
  bounded = rw h (omega arith);
}

answer-IsInbox :
    (glib : Glib) (m : Inbox) (generate : ℕ → ℕ → Option Bytes) (answer : ListAnswer)
    → IsInbox m
    → IsInbox (answer_query glib m generate answer)
unfolding answer_query sms_revision_bump
answer-IsInbox glib m generate (list_failed cancelled) i = empty-IsInbox _ refl
answer-IsInbox glib m generate (list_answered messages) i =
    list_sms-IsInbox glib m generate messages i

-- A result with an inbox and whether a query is sent.
abbrev Holds : Inbox × Bool → Type 0
Holds r = IsInbox r.0

list_ready-IsInbox :
    (glib : Glib) (m : Inbox) (generate : ℕ → ℕ → Option Bytes) (source generation : ℕ)
    (answer : ListAnswer)
    → IsInbox m
    → Holds (sms_list_ready glib m generate source generation answer)
unfolding sms_list_ready
list_ready-IsInbox glib m generate source generation answer i =
    let idle = record m { sms_query_pending = false; sms_query_dirty = false } in
    let after = answer-IsInbox glib idle generate answer (same-IsInbox m idle i refl refl refl) in
    if_holds Holds
      (not m.live
        || not (same_proxy m.messaging source)
        || not (m.messaging_generation == generation))
      (λ _. i)
      (λ _.
        if_holds Holds m.sms_query_dirty
          (λ _. query-IsInbox (answer_query glib idle generate answer) after) (λ _. after))

added-IsInbox :
    (is_object_path : Bytes → Bool) (m : Inbox) (path : Option Bytes)
    → IsInbox m
    → Holds (sms_added is_object_path m path)
unfolding sms_added sms_revision_bump
added-IsInbox is_object_path m path i =
    if_holds Holds (not m.live) (λ _. i) (λ _. query-IsInbox _ (same-IsInbox m _ i refl refl refl))

gone-IsInbox :
    (m : Inbox) (path : Bytes)
    → IsInbox m
    → (deleted : List Bytes)
    → IsInbox
        (record m { sms_deleted_paths = deleted; sms_by_path = without_path path m.sms_by_path })
gone-IsInbox m path i deleted = record {
  paths = DistinctBy-without (λ e. e.path) path m.sms_by_path i.paths;
  ids = DistinctBy-without (λ e. e.sms_id) path m.sms_by_path i.ids;
  kept = All-without (IsKept m.sms_reserved_ids m.messaging_generation) path m.sms_by_path i.kept;
  bounded = omega (arith, length-without path m.sms_by_path, i.bounded);
}

delete_path-IsInbox : (m : Inbox) (path : Bytes) → IsInbox m → Holds (delete_path m path)
unfolding delete_path
delete_path-IsInbox m path i = query-IsInbox _ (go (sms_at path m.sms_by_path))
  where
    noted : Inbox
    noted = record m {
      sms_deleted_paths =
          if ltb (length m.sms_deleted_paths) max_sms_cache
          then add_text path m.sms_deleted_paths
          else m.sms_deleted_paths;
    }

    go :
        (found : Option Sms)
        → IsInbox (elim found [
          | none ↦ noted
          | some _ ↦
              sms_revision_bump (record noted { sms_by_path = without_path path m.sms_by_path })
        ])
    go none = same-IsInbox m noted i refl refl refl
    go (some e) = bump-IsInbox _ (gone-IsInbox m path i noted.sms_deleted_paths)

deleted-IsInbox :
    (is_object_path : Bytes → Bool) (m : Inbox) (path : Option Bytes)
    → IsInbox m
    → Holds (sms_deleted is_object_path m path)
unfolding sms_deleted
deleted-IsInbox is_object_path m path i =
    if_holds Holds (not m.live) (λ _. i) (λ _. go (checked_path is_object_path path))
  where
    go :
        (checked : Option Bytes)
        → Holds (elim checked [ none ↦ (m, false) | some path ↦ delete_path m path ])
    go none = i
    go (some path) = delete_path-IsInbox m path i

reconcile-IsInbox :
    (m : Inbox) (messaging : Option ℕ) (force_epoch : Bool)
    → IsInbox m
    → Holds (reconcile_messaging m messaging force_epoch)
unfolding reconcile_messaging clear_messaging sms_revision_bump
reconcile-IsInbox m messaging force_epoch i =
    if_holds Holds (not force_epoch && same_messaging messaging m.messaging) (λ _. i)
      (λ _.
        if_holds Holds (m.messaging_generation == u32_last) (λ _. empty-IsInbox _ refl)
          (λ _. go messaging))
  where
    cleared : Inbox
    cleared = clear_messaging m

    next : Inbox
    next = sms_revision_bump (record cleared { messaging_generation = m.messaging_generation + 1 })

    go :
        (found : Option ℕ)
        → Holds (elim found [
          | none ↦ (record next { sms_cache_state = codes "absent" }, false)
          | some proxy ↦ query_sms (record next { messaging = some proxy })
        ])
    go none = empty-IsInbox _ refl
    go (some proxy) = query-IsInbox (record next { messaging = some proxy }) (empty-IsInbox _ refl)

change-IsInbox :
    (glib : Glib) (m : Inbox) (c : InboxChange) → IsInbox m → IsInbox (change_inbox glib m c)
unfolding change_inbox modem_mark_removed
change-IsInbox glib m (id_reserved generate) i = reserve-IsInbox m generate i
change-IsInbox glib m (id_released sms_id) i = release-IsInbox m sms_id i
change-IsInbox glib m (sms_admitted path sms reserved_id generate) i =
    modem_admit_sms-IsInbox glib.is_object_path m path sms reserved_id generate i
change-IsInbox glib m (list_arrived generate source generation answer) i =
    list_ready-IsInbox glib m generate source generation answer i
change-IsInbox glib m refreshed i = query-IsInbox m i
change-IsInbox glib m (signal_added path) i = added-IsInbox glib.is_object_path m path i
change-IsInbox glib m (signal_deleted path) i = deleted-IsInbox glib.is_object_path m path i
change-IsInbox glib m (messaging_reconciled messaging force_epoch) i =
    reconcile-IsInbox m messaging force_epoch i
change-IsInbox glib m modem_removed i = empty-IsInbox _ refl

-- Whatever happens to the messages of a modem, in whatever order the answers and the signals come:
-- from a cache in order, the cached messages differ in their paths and in their identities, no
-- identity of theirs is reserved, all are of the current generation of the messaging interface, and
-- there are at most 1024.
pub change_all-IsInbox :
    (glib : Glib) (m : Inbox) (cs : List InboxChange) → IsInbox m → IsInbox (change_all glib m cs)
unfolding change_all
change_all-IsInbox glib m [] i = i
change_all-IsInbox glib m (c ∷ cs) i =
    change_all-IsInbox glib (change_inbox glib m c) cs (change-IsInbox glib m c i)
