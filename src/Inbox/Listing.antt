-- ===== src/Inbox/Listing.antt =====
-- The answer to a query for all messages (`sms_list_ready` of l850gl-mm-bridge/src/bridge.c).
-- `g_list_sort` and `g_variant_is_object_path` are the parameter `glib`; `generate` answers the
-- random identities by the message and the attempt.
use luci_app_l850gl_mm.Inbox.Reserve.{checked_path}
use luci_app_l850gl_mm.Inbox.{
  Sms, Inbox, sms_revision_bump, has_text, clear_sms_cache, without_path, sms_set_proxy, entry_id,
  max_sms_cache, new_sms, sms_at,
}
use luci_app_l850gl_mm.Base.{
  zero, ℕ, Option, List, Bytes, if◌then◌else◌, Bool, ◌∷◌, some, [], ◌+◌, ltb, false, leb, codes,
  none, length, true,
}
use luci_app_l850gl_mm.Base.Int.{ℤ, pos, negsuc}

-- An SMS object of the list: its proxy, `mm_sms_get_path` and `mm_sms_get_timestamp`.
pub record Listed : Type 0 where
  pub sms : ℕ
  pub path : Option Bytes
  pub timestamp : Option Bytes

pub record Glib : Type 0 where
  pub is_object_path : Bytes → Bool
  pub list_sort : (Listed → Listed → ℤ) → List Listed → List Listed

-- `strcmp`.
unfoldable pub compare_text : Bytes → Bytes → ℤ
compare_text [] [] = pos 0
compare_text [] (d ∷ t) = negsuc 0
compare_text (c ∷ s) [] = pos 1
compare_text (c ∷ s) (d ∷ t) =
    if ltb c d then negsuc 0 else if ltb d c then pos 1 else compare_text s t

-- `g_strcmp0`.
abbrev pub compare_option : Option Bytes → Option Bytes → ℤ
compare_option none none = pos 0
compare_option none (some t) = negsuc 0
compare_option (some s) none = pos 1
compare_option (some s) (some t) = compare_text s t

abbrev first_nonzero : ℤ → ℤ → ℤ
first_nonzero (pos zero) other = other
first_nonzero compared other = compared

unfoldable pub sms_proxy_newest_first : Listed → Listed → ℤ
sms_proxy_newest_first left right =
    first_nonzero (compare_option right.timestamp left.timestamp)
      (compare_option left.path right.path)

-- What the loop keeps: the two caches, the paths seen deleted, the count, and `truncated`.
pub record Listing : Type 0 where
  pub old_cache : List Sms
  pub new_cache : List Sms
  pub seen_deleted : List Bytes
  pub count : ℕ
  pub truncated : Bool

-- `g_hash_table_insert` of an entry.
unfoldable pub insert_sms : Sms → List Sms → List Sms
insert_sms e cache = e ∷ without_path e.path cache

abbrev pub count_sms : Sms → Listing → Listing
count_sms e l = record l { new_cache = insert_sms e l.new_cache; count = l.count + 1 }

-- An entry is taken over from the old cache, or made; `none` where no identity is found.
unfoldable pub list_entry :
    Inbox → (ℕ → Option Bytes) → Bytes → ℕ → Listing → Option Sms → Option Listing
list_entry m generate path sms l (some e) =
    let entry = sms_set_proxy m e sms in
    some (count_sms entry (record l { old_cache = without_path path l.old_cache }))
list_entry m generate path sms l none =
    let left = record m { sms_by_path = l.old_cache } in
    elim (entry_id left l.new_cache generate none) [
      | none ↦ none
      | some sms_id ↦ some (count_sms (new_sms m path sms_id sms) l)
    ]

-- One round of the loop for a message with an object path.
unfoldable pub list_message : Inbox → (ℕ → Option Bytes) → Bytes → ℕ → Listing → Option Listing
list_message m generate path sms l =
    if has_text path m.sms_deleted_paths
    then some (record l { seen_deleted = path ∷ l.seen_deleted })
    else if leb max_sms_cache l.count
    then some (record l { truncated = true })
    else list_entry m generate path sms l (sms_at path l.old_cache)

module _ (glib : Glib) where
  unfoldable pub list_messages :
      Inbox → (ℕ → ℕ → Option Bytes) → List Listed → Listing → Option Listing
  list_messages m generate [] l = some l
  list_messages m generate (x ∷ xs) l = elim (checked_path glib.is_object_path x.path) [
    | none ↦ list_messages m generate xs l
    | some path ↦ elim (list_message m (generate (length xs)) path x.sms l) [
      | none ↦ none
      | some next ↦ list_messages m generate xs next
    ]
  ]

  abbrev pub empty_listing : Inbox → Listing
  empty_listing m = record {
    old_cache = m.sms_by_path;
    new_cache = [];
    seen_deleted = [];
    count = 0;
    truncated = false;
  }

  abbrev only_seen : List Bytes → List Bytes → List Bytes
  only_seen seen [] = []
  only_seen seen (path ∷ paths) =
      if has_text path seen then path ∷ only_seen seen paths else only_seen seen paths

  -- The end of `sms_list_ready` without an error.
  unfoldable pub replace_cache : Inbox → Option Listing → Inbox
  replace_cache m none =
      sms_revision_bump (clear_sms_cache (record m { sms_cache_state = codes "unavailable" }))
  replace_cache m (some l) = sms_revision_bump (record m {
    sms_by_path = l.new_cache;
    sms_cache_truncated = l.truncated;
    sms_cache_state = if l.truncated then codes "ready-truncated" else codes "ready";
    sms_deleted_paths = only_seen l.seen_deleted m.sms_deleted_paths;
  })

  unfoldable pub list_sms : Inbox → (ℕ → ℕ → Option Bytes) → List Listed → Inbox
  list_sms m generate messages =
      let sorted = glib.list_sort sms_proxy_newest_first messages in
      replace_cache m (list_messages m generate sorted (empty_listing m))
