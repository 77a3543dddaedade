-- ===== src/Inbox/Admission.antt =====
-- The cache of messages through the admission of one message (l850gl-mm-bridge/src/bridge.c).
use luci_app_l850gl_mm.Inbox.Identities.{has_key}
use mathlib.Core.Path.{subst⁻¹, subst}
use luci_app_l850gl_mm.Inbox.Entries.{
  All-at, path_at, proxy_id, put-IsInbox, proxy_path, proxy_current, bump-IsInbox,
}
use luci_app_l850gl_mm.Inbox.Reserve.{
  admit_known, modem_admit_sms, admit_at, admit_new, reserved_is_usable, has_messaging,
  checked_path,
}
use luci_app_l850gl_mm.Inbox.Inventory.{
  IsInbox, IsKept, Answers, reserved-unused, release-kept, has_text-gone, new_sms_id-fresh,
}
use luci_app_l850gl_mm.Inbox.{
  Inbox, Sms, sms_at, modem_release_sms_id, sms_revision_bump, has_text, sms_set_proxy,
  without_text, sms_id_exists_in_hash, put_sms, clear_sms_cache, any_sms, entry_id, new_sms,
  max_sms_cache, sms_random_retries,
}
use luci_app_l850gl_mm.Base.{
  ℕ, Bytes, ◌≡◌, some, ap, ◌∙◌, none, true, inl, false, if_holds, same_text, arith, same_text_iff,
  inr, Option, length, Bool, List, leb, ◌<◌, not, ◌∷◌, codes, ◌||◌, [], refl,
}

module _ (m : Inbox) (i : IsInbox m) (e : Sms) (sms : ℕ) (path : Bytes)
    (at : sms_at path m.sms_by_path ≡ some e) where
  own_kept : IsKept m.sms_reserved_ids m.messaging_generation e
  own_kept = All-at (IsKept m.sms_reserved_ids m.messaging_generation) path m.sms_by_path at i.kept

  known_at : (entry : Sms) → entry.path ≡ e.path → sms_at entry.path m.sms_by_path ≡ some e
  known_at entry same = ap (λ p. sms_at p m.sms_by_path) (same ∙ path_at path m.sms_by_path at) ∙ at

  again-IsInbox : Answers (admit_known m e sms none)
  unfolding admit_known
  again-IsInbox =
      let entry = sms_set_proxy m e sms in
      let same_id = proxy_id m e sms in
      put-IsInbox m entry m.sms_reserved_ids i (known_at entry (proxy_path m e sms)) (inl same_id)
        i.kept
        (
          ap (λ s. has_text s m.sms_reserved_ids) same_id ∙ own_kept.0,
          proxy_current m e sms own_kept.1,
        )

  renamed-IsInbox :
      (reserved_id : Bytes)
      → has_text reserved_id m.sms_reserved_ids ≡ true
      → Answers (admit_known m e sms (some reserved_id))
  unfolding admit_known modem_release_sms_id sms_revision_bump sms_id_exists_in_hash
  renamed-IsInbox reserved_id reserved =
      let renamed = record e { sms_id = reserved_id } in
      let entry = sms_set_proxy m renamed sms in
      let same_id = proxy_id m renamed sms in
      let left = without_text reserved_id m.sms_reserved_ids in
      let unused =
        reserved-unused reserved_id m.sms_reserved_ids m.messaging_generation m.sms_by_path reserved
          i.kept in
      let free = subst⁻¹ (λ s. sms_id_exists_in_hash m.sms_by_path s ≡ false) same_id unused in
      if_holds Answers (same_text e.sms_id reserved_id)
        (λ t. absurd (
          ground (
            arith,
            reserved,
            own_kept.0,
            ap (λ s. has_text s m.sms_reserved_ids) ((same_text_iff e.sms_id reserved_id).0 t),
          )))
        (λ _.
          if_holds Answers (sms_id_exists_in_hash m.sms_by_path reserved_id) (λ _. i)
            (λ _.
              bump-IsInbox
                (record m { sms_by_path = put_sms entry m.sms_by_path; sms_reserved_ids = left })
                (put-IsInbox m entry left i (known_at entry (proxy_path m renamed sms)) (inr free)
                  (release-kept reserved_id m.sms_reserved_ids m.messaging_generation m.sms_by_path
                    i.kept)
                  (
                    ap (λ s. has_text s left) same_id
                        ∙ has_text-gone reserved_id m.sms_reserved_ids,
                    proxy_current m renamed sms own_kept.1,
                  ))))

known-IsInbox :
    (m : Inbox) (e : Sms) (sms : ℕ) (reserved_id : Option Bytes) (path : Bytes)
    → IsInbox m
    → sms_at path m.sms_by_path ≡ some e
    → reserved_is_usable m reserved_id ≡ true
    → Answers (admit_known m e sms reserved_id)
known-IsInbox m e sms none path i at usable = again-IsInbox m i e sms path at
known-IsInbox m e sms (some reserved_id) path i at usable =
    renamed-IsInbox m i e sms path at reserved_id (ground (arith, usable))

absent_path :
    (path : Bytes) (cache : List Sms)
    → sms_at path cache ≡ none
    → any_sms (has_key (λ e. e.path) path) cache ≡ false
unfolding any_sms sms_at
absent_path path [] h = refl
absent_path path (e ∷ cache) h = ground (arith, h, absent_path path cache)

-- The identity of a new entry is reserved for it, or used nowhere.
IsGranted : Inbox → Option Bytes → Bytes → Type 0
IsGranted m reserved_id sms_id =
    (sms_id_exists_in_hash m.sms_by_path sms_id ≡ false)
    × (has_text sms_id (modem_release_sms_id m reserved_id).sms_reserved_ids ≡ false)

granted :
    (m : Inbox) (reserved_id : Option Bytes) (generate : ℕ → Option Bytes) (sms_id : Bytes)
    → IsInbox m
    → reserved_is_usable m reserved_id ≡ true
    → entry_id m [] generate reserved_id ≡ some sms_id
    → IsGranted m reserved_id sms_id
unfolding IsGranted modem_release_sms_id
granted m none generate sms_id i usable h =
    let (unused, _, free) = new_sms_id-fresh m [] generate sms_random_retries h in (unused, free)
granted m (some reserved_id) generate sms_id i usable h =
    let same : reserved_id ≡ sms_id = ground (arith, h) in
    subst (IsGranted m (some reserved_id)) same (
      reserved-unused reserved_id m.sms_reserved_ids m.messaging_generation m.sms_by_path
          (ground (arith, usable)) i.kept,
      has_text-gone reserved_id m.sms_reserved_ids,
    )

new-IsInbox :
    (m : Inbox) (path : Bytes) (sms : ℕ) (reserved_id : Option Bytes) (sms_id : Bytes)
    → IsInbox m
    → sms_at path m.sms_by_path ≡ none
    → length m.sms_by_path < 1024
    → IsGranted m reserved_id sms_id
    → Answers (admit_new m path sms reserved_id (some sms_id))
unfolding admit_new IsGranted modem_release_sms_id sms_id_exists_in_hash
new-IsInbox m path sms none sms_id i absent room (unused, free) =
    bump-IsInbox (record m { sms_by_path = new_sms m path sms_id sms ∷ m.sms_by_path })
      (record {
        paths = (absent_path path m.sms_by_path absent, i.paths);
        ids = (unused, i.ids);
        kept = ((free, refl), i.kept);
        bounded = omega (arith, room);
      })
new-IsInbox m path sms (some reserved_id) sms_id i absent room (unused, free) =
    let left = without_text reserved_id m.sms_reserved_ids in
    bump-IsInbox
      (record m {
        sms_by_path = new_sms m path sms_id sms ∷ m.sms_by_path;
        sms_reserved_ids = left;
      })
      (record {
        paths = (absent_path path m.sms_by_path absent, i.paths);
        ids = (unused, i.ids);
        kept = (
          (free, refl),
          release-kept reserved_id m.sms_reserved_ids m.messaging_generation m.sms_by_path i.kept,
        );
        bounded = omega (arith, room);
      })

pub without_cache : (m : Inbox) → IsInbox (clear_sms_cache m)
without_cache m = record { paths = tt; ids = tt; kept = tt; bounded = omega arith }

admit_new-IsInbox :
    (m : Inbox) (path : Bytes) (sms : ℕ) (reserved_id : Option Bytes)
    → (found : Option Bytes) → IsInbox m
    → sms_at path m.sms_by_path ≡ none
    → length m.sms_by_path < 1024
    → ((sms_id : Bytes) → found ≡ some sms_id → IsGranted m reserved_id sms_id)
    → Answers (admit_new m path sms reserved_id found)
unfolding admit_new
admit_new-IsInbox m path sms reserved_id none i absent room grant =
    without_cache (record m { sms_cache_state = codes "unavailable" })
admit_new-IsInbox m path sms reserved_id (some sms_id) i absent room grant =
    new-IsInbox m path sms reserved_id sms_id i absent room (grant sms_id refl)

admit_at-IsInbox :
    (m : Inbox) (sms : ℕ) (reserved_id : Option Bytes) (generate : ℕ → Option Bytes) (path : Bytes)
    → (found : Option Sms) → sms_at path m.sms_by_path ≡ found
    → IsInbox m
    → reserved_is_usable m reserved_id ≡ true
    → Answers (admit_at m sms reserved_id generate path found)
unfolding admit_at
admit_at-IsInbox m sms reserved_id generate path (some e) at i usable =
    known-IsInbox m e sms reserved_id path i at usable
admit_at-IsInbox m sms reserved_id generate path none at i usable =
    if_holds Answers (leb max_sms_cache (length m.sms_by_path))
      (λ _. record { paths = i.paths; ids = i.ids; kept = i.kept; bounded = i.bounded })
      (λ room.
        admit_new-IsInbox m path sms reserved_id (entry_id m [] generate reserved_id) i at
          (ground (arith, room)) (λ sms_id. granted m reserved_id generate sms_id i usable))

pub modem_admit_sms-IsInbox :
    (is_object_path : Bytes → Bool) (m : Inbox) (path : Option Bytes) (sms : ℕ)
    (reserved_id : Option Bytes) (generate : ℕ → Option Bytes)
    → IsInbox m
    → Answers (modem_admit_sms is_object_path m path sms reserved_id generate)
unfolding modem_admit_sms
modem_admit_sms-IsInbox is_object_path m path sms reserved_id generate i =
    if_holds Answers
      (not m.live || not (has_messaging m.messaging) || not (reserved_is_usable m reserved_id))
      (λ _. i) (λ passed. go (checked_path is_object_path path) (ground (arith, passed)))
  where
    go :
        (checked : Option Bytes)
        → reserved_is_usable m reserved_id ≡ true
        → Answers (elim checked [
          | none ↦ (none, m)
          | some path ↦ admit_at m sms reserved_id generate path (sms_at path m.sms_by_path)
        ])
    go none usable = i
    go (some path) usable =
        admit_at-IsInbox m sms reserved_id generate path (sms_at path m.sms_by_path) refl i usable
