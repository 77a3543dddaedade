-- ===== src/Inbox/Listed.antt =====
-- The cache of messages through the answer to a query (l850gl-mm-bridge/src/bridge.c).
use luci_app_l850gl_mm.Inbox.Admission.{without_cache}
use luci_app_l850gl_mm.Inbox.Reserve.{checked_path}
use mathlib.Core.Path.{subst⁻¹, subst}
use luci_app_l850gl_mm.Inbox.Entries.{proxy_id, All-at, proxy_current, bump-IsInbox}
use luci_app_l850gl_mm.Inbox.Inventory.{IsKept, new_sms_id-fresh, IsInbox, All-map}
use luci_app_l850gl_mm.Inbox.Identities.{
  DistinctBy, DistinctBy-insert, any_sms-taken, any_sms-path, same_text_sym, any_sms-without,
  any_sms-at, DistinctBy-without,
}
use luci_app_l850gl_mm.Inbox.{
  without_path, Inbox, sms_id_exists_in_hash, any_sms, Sms, sms_at, has_text, has_path,
  max_sms_cache, new_sms, sms_set_proxy, entry_id, sms_random_retries, has_id, clear_sms_cache,
}
use luci_app_l850gl_mm.Inbox.Listing.{
  list_message, list_entry, insert_sms, Listing, count_sms, replace_cache, list_sms, list_messages,
  Glib, Listed, sms_proxy_newest_first, empty_listing,
}
use luci_app_l850gl_mm.Base.{
  ℕ, Option, Bytes, some, if_holds, List, ◌≡◌, length, none, All, false, ◌∷◌, ◌≤◌, ◌<◌, leb, arith,
  [], refl, Bool, true, ap, ◌∙◌, Option-cases, codes, inl, inr,
}

-- The two caches of the loop: the new one is in order, and shares no identity with the old one.
record IsListing (m : Inbox) (l : Listing) : Type 0 where
  paths : DistinctBy (λ e. e.path) l.new_cache
  ids : DistinctBy (λ e. e.sms_id) l.new_cache
  kept : All (IsKept m.sms_reserved_ids m.messaging_generation) l.new_cache
  old_ids : DistinctBy (λ e. e.sms_id) l.old_cache
  old_kept : All (IsKept m.sms_reserved_ids m.messaging_generation) l.old_cache
  apart : All (λ e. sms_id_exists_in_hash l.old_cache e.sms_id ≡ false) l.new_cache
  counted : length l.new_cache ≤ l.count
  bounded : l.count ≤ 1024

pub All-without {κ} :
    (P : Sms → Type κ) (path : Bytes) (cache : List Sms)
    → All P cache
    → All P (without_path path cache)
unfolding without_path
All-without P path [] h = tt
All-without P path (e ∷ cache) (p, h) =
    let rest = All-without P path cache h in
    if_holds (All P) (has_path path e) (λ _. rest) (λ _. (p, rest))

pub length-without :
    (path : Bytes) (cache : List Sms) → length (without_path path cache) ≤ length cache
unfolding without_path
length-without path [] = omega arith
length-without path (e ∷ cache) = ground (arith, length-without path cache)

-- A message of the old cache has no identity of the new one.
apart_free :
    (path : Bytes) (old new : List Sms) {e : Sms}
    → sms_at path old ≡ some e
    → All (λ n. sms_id_exists_in_hash old n.sms_id ≡ false) new
    → sms_id_exists_in_hash new e.sms_id ≡ false
unfolding sms_id_exists_in_hash any_sms
apart_free path old [] at h = refl
apart_free path old (n ∷ new) {e} at (own, h) = ground (
  arith,
  same_text_sym e.sms_id n.sms_id (any_sms-at (has_id n.sms_id) path old at own),
  apart_free path old new at h,
)

-- An entry with a free identity is inserted.
insert-IsListing :
    (m : Inbox) (l : Listing) (e : Sms) (old : List Sms)
    → IsListing m l
    → IsKept m.sms_reserved_ids m.messaging_generation e
    → sms_id_exists_in_hash l.new_cache e.sms_id ≡ false
    → sms_id_exists_in_hash old e.sms_id ≡ false
    → DistinctBy (λ x. x.sms_id) old
    → All (IsKept m.sms_reserved_ids m.messaging_generation) old
    → All (λ x. sms_id_exists_in_hash old x.sms_id ≡ false) l.new_cache
    → l.count < 1024
    → IsListing m (count_sms e (record l { old_cache = old }))
unfolding insert_sms sms_id_exists_in_hash
insert-IsListing m l e old i kept free old_free old_ids old_kept apart room = record {
  paths = DistinctBy-insert (λ x. x.path) e l.new_cache i.paths (any_sms-path e.path l.new_cache);
  ids =
      DistinctBy-insert (λ x. x.sms_id) e l.new_cache i.ids
        (any_sms-without (has_id e.sms_id) e.path l.new_cache free);
  kept = (
    kept,
    All-without (IsKept m.sms_reserved_ids m.messaging_generation) e.path l.new_cache i.kept,
  );
  old_ids = old_ids;
  old_kept = old_kept;
  apart = (
    old_free,
    All-without (λ x. sms_id_exists_in_hash old x.sms_id ≡ false) e.path l.new_cache apart,
  );
  counted = omega (arith, length-without e.path l.new_cache, i.counted);
  bounded = omega (arith, room);
}

taken-IsListing :
    (m : Inbox) (l : Listing) (path : Bytes) (e : Sms) (sms : ℕ)
    → IsListing m l
    → sms_at path l.old_cache ≡ some e
    → l.count < 1024
    → IsListing m
        (count_sms (sms_set_proxy m e sms) (record l { old_cache = without_path path l.old_cache }))
unfolding sms_id_exists_in_hash
taken-IsListing m l path e sms i at room =
    let entry = sms_set_proxy m e sms in
    let same_id = proxy_id m e sms in
    let own =
      All-at (IsKept m.sms_reserved_ids m.messaging_generation) path l.old_cache at i.old_kept in
    let free =
      subst⁻¹ (λ s. sms_id_exists_in_hash l.new_cache s ≡ false) same_id
        (apart_free path l.old_cache l.new_cache at i.apart) in
    let old = without_path path l.old_cache in
    let gone =
      subst⁻¹ (λ s. sms_id_exists_in_hash old s ≡ false) same_id
        (any_sms-taken (λ x. x.sms_id) path l.old_cache i.old_ids at) in
    insert-IsListing m l entry old i
      (ap (λ s. has_text s m.sms_reserved_ids) same_id ∙ own.0, proxy_current m e sms own.1) free
      gone (DistinctBy-without (λ x. x.sms_id) path l.old_cache i.old_ids)
      (All-without (IsKept m.sms_reserved_ids m.messaging_generation) path l.old_cache i.old_kept)
      (All-map l.new_cache (λ x. any_sms-without (has_id x.sms_id) path l.old_cache) i.apart) room

-- A round of the loop keeps the caches in order.
abbrev Keeps : Inbox → Option Listing → Type 0
Keeps m none = Unit {0}
Keeps m (some l) = IsListing m l

list_entry-Keeps :
    (m : Inbox) (generate : ℕ → Option Bytes) (path : Bytes) (sms : ℕ) (l : Listing)
    → (found : Option Sms) → sms_at path l.old_cache ≡ found
    → IsListing m l
    → l.count < 1024
    → Keeps m (list_entry m generate path sms l found)
unfolding list_entry
list_entry-Keeps m generate path sms l (some e) at i room = taken-IsListing m l path e sms i at room
list_entry-Keeps m generate path sms l none at i room =
    go (entry_id left l.new_cache generate none)
      (λ s. new_sms_id-fresh left l.new_cache generate sms_random_retries)
  where
    left : Inbox
    left = record m { sms_by_path = l.old_cache }

    go :
        (found : Option Bytes)
        → ((s : Bytes)
            → found ≡ some s
            → (sms_id_exists_in_hash l.old_cache s ≡ false)
              × (sms_id_exists_in_hash l.new_cache s ≡ false)
              × (has_text s m.sms_reserved_ids ≡ false))
        → Keeps m (elim found [
          | none ↦ none
          | some sms_id ↦ some (count_sms (new_sms m path sms_id sms) l)
        ])
    go none fresh = tt
    go (some s) fresh =
        let (old_free, free, unreserved) = fresh s refl in
        insert-IsListing m l (new_sms m path s sms) l.old_cache i (unreserved, refl) free old_free
          i.old_ids i.old_kept i.apart room

mark-IsListing :
    (m : Inbox) (l : Listing) (seen : List Bytes) (truncated : Bool)
    → IsListing m l
    → IsListing m (record l { seen_deleted = seen; truncated = truncated })
mark-IsListing m l seen truncated i = record {
  paths = i.paths;
  ids = i.ids;
  kept = i.kept;
  old_ids = i.old_ids;
  old_kept = i.old_kept;
  apart = i.apart;
  counted = i.counted;
  bounded = i.bounded;
}

list_message-Keeps :
    (m : Inbox) (generate : ℕ → Option Bytes) (path : Bytes) (sms : ℕ) (l : Listing)
    → IsListing m l
    → Keeps m (list_message m generate path sms l)
unfolding list_message
list_message-Keeps m generate path sms l i =
    if_holds (Keeps m) (has_text path m.sms_deleted_paths)
      (λ _. mark-IsListing m l (path ∷ l.seen_deleted) l.truncated i)
      (λ _.
        if_holds (Keeps m) (leb max_sms_cache l.count)
          (λ _. mark-IsListing m l l.seen_deleted true i)
          (λ room.
            list_entry-Keeps m generate path sms l (sms_at path l.old_cache) refl i
              (ground (arith, room))))

list_messages-Keeps :
    (glib : Glib) (m : Inbox) (generate : ℕ → ℕ → Option Bytes) (messages : List Listed)
    (l : Listing)
    → IsListing m l
    → Keeps m (list_messages glib m generate messages l)
unfolding list_messages
list_messages-Keeps glib m generate [] l i = i
list_messages-Keeps glib m generate (x ∷ xs) l i =
    elim (Option-cases (checked_path glib.is_object_path x.path)) [
      | inl e ↦ subst⁻¹ (Keeps m) (ground (arith, e)) (list_messages-Keeps glib m generate xs l i)
      | inr (path, e) ↦
          let round = list_message-Keeps m (generate (length xs)) path x.sms l i in
          elim (Option-cases (list_message m (generate (length xs)) path x.sms l)) [
            | inl f ↦
                let stopped : list_messages glib m generate (x ∷ xs) l ≡ none =
                  ground (arith, e, f) in
                subst⁻¹ (Keeps m) stopped tt
            | inr (next, f) ↦
                subst⁻¹ (Keeps m) (ground (arith, e, f))
                  (list_messages-Keeps glib m generate xs next (subst (Keeps m) f round))
          ]
    ]

replace-IsInbox :
    (glib : Glib) (m : Inbox) (found : Option Listing)
    → Keeps m found
    → IsInbox (replace_cache glib m found)
unfolding replace_cache
replace-IsInbox glib m none i =
    bump-IsInbox (clear_sms_cache (record m { sms_cache_state = codes "unavailable" }))
      (without_cache (record m { sms_cache_state = codes "unavailable" }))
replace-IsInbox glib m (some l) i = bump-IsInbox _ (record {
  paths = i.paths;
  ids = i.ids;
  kept = i.kept;
  bounded = omega (arith, i.counted, i.bounded);
})

pub list_sms-IsInbox :
    (glib : Glib) (m : Inbox) (generate : ℕ → ℕ → Option Bytes) (messages : List Listed)
    → IsInbox m
    → IsInbox (list_sms glib m generate messages)
unfolding list_sms
list_sms-IsInbox glib m generate messages i = replace-IsInbox glib m _ (
    list_messages-Keeps glib m generate (glib.list_sort sms_proxy_newest_first messages)
      (empty_listing glib m)
      (record {
        paths = tt;
        ids = tt;
        kept = tt;
        old_ids = i.ids;
        old_kept = i.kept;
        apart = tt;
        counted = omega arith;
        bounded = omega arith;
      }))
