-- ===== src/Inbox/Entries.antt =====
-- The entries of the cache, and the replacement of one of them (l850gl-mm-bridge/src/bridge.c).
use mathlib.Core.Path.{subst}
use luci_app_l850gl_mm.Inbox.Identities.{IsFree, DistinctBy-put}
use luci_app_l850gl_mm.Inbox.Inventory.{IsInbox, IsKept}
use luci_app_l850gl_mm.Inbox.{
  sms_set_proxy, Inbox, sms_at, sms_revision_bump, put_sms, Sms, has_path,
}
use luci_app_l850gl_mm.Base.{
  ℕ, Bytes, ◌≡◌, List, arith, All, some, length, ◌∷◌, Bool-cases, if_holds, [], refl, inl, ap, sym,
  inr, ◌∙◌, same_text_iff,
}

pub bump-IsInbox : (m : Inbox) → IsInbox m → IsInbox (sms_revision_bump m)
unfolding sms_revision_bump
bump-IsInbox m i = record { paths = i.paths; ids = i.ids; kept = i.kept; bounded = i.bounded }

length-put : (new : Sms) (cache : List Sms) → length (put_sms new cache) ≡ length cache
unfolding put_sms
length-put new [] = refl
length-put new (e ∷ cache) = ground (arith, length-put new cache)

All-put {κ} :
    (P : Sms → Type κ) (new : Sms) (cache : List Sms)
    → P new
    → All P cache
    → All P (put_sms new cache)
unfolding put_sms
All-put P new [] p h = tt
All-put P new (e ∷ cache) p (q, h) =
    if_holds (All P) (has_path new.path e) (λ _. (p, h)) (λ _. (q, All-put P new cache p h))

pub All-at {κ} :
    (P : Sms → Type κ) (path : Bytes) (cache : List Sms) {e : Sms}
    → sms_at path cache ≡ some e
    → All P cache
    → P e
unfolding sms_at
All-at P path [] h all = cc
All-at P path (c ∷ cache) {e} h (p, all) = elim (Bool-cases (has_path path c)) [
  | inl t ↦ subst P (ground (arith, h, t)) p
  | inr t ↦ All-at P path cache (ground (arith, h, t)) all
]

pub path_at :
    (path : Bytes) (cache : List Sms) {e : Sms} → sms_at path cache ≡ some e → e.path ≡ path
unfolding sms_at
path_at path [] h = cc
path_at path (c ∷ cache) {e} h = elim (Bool-cases (has_path path c)) [
  | inl t ↦
      let same : c ≡ e = ground (arith, h, t) in
      ap (λ x. x.path) (sym same) ∙ (same_text_iff c.path path).0 t
  | inr t ↦ let at : sms_at path cache ≡ some e = ground (arith, h, t) in path_at path cache at
]

pub proxy_path : (m : Inbox) (e : Sms) (sms : ℕ) → (sms_set_proxy m e sms).path ≡ e.path
unfolding sms_set_proxy
proxy_path m e sms = ground arith

pub proxy_id : (m : Inbox) (e : Sms) (sms : ℕ) → (sms_set_proxy m e sms).sms_id ≡ e.sms_id
unfolding sms_set_proxy
proxy_id m e sms = ground arith

pub proxy_current :
    (m : Inbox) (e : Sms) (sms : ℕ)
    → e.messaging_generation ≡ m.messaging_generation
    → (sms_set_proxy m e sms).messaging_generation ≡ m.messaging_generation
unfolding sms_set_proxy
proxy_current m e sms h = ground (arith, h)

-- An entry is replaced under its path, by one whose identity is free.
pub put-IsInbox :
    (m : Inbox) (new : Sms) (reserved : List Bytes) {e : Sms}
    → IsInbox m
    → sms_at new.path m.sms_by_path ≡ some e
    → IsFree (λ x. x.sms_id) new e m.sms_by_path
    → All (IsKept reserved m.messaging_generation) m.sms_by_path
    → IsKept reserved m.messaging_generation new
    → IsInbox (record m { sms_by_path = put_sms new m.sms_by_path; sms_reserved_ids = reserved })
put-IsInbox m new reserved {e} i at free kept new_kept = record {
  paths =
      DistinctBy-put (λ x. x.path) new m.sms_by_path at
        (inl (sym (path_at new.path m.sms_by_path at))) i.paths;
  ids = DistinctBy-put (λ x. x.sms_id) new m.sms_by_path at free i.ids;
  kept = All-put (IsKept reserved m.messaging_generation) new m.sms_by_path new_kept kept;
  bounded = omega (arith, length-put new m.sms_by_path, i.bounded);
}
