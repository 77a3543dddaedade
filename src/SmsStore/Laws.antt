-- ===== src/SmsStore/Laws.antt =====
-- What the store of messages keeps (l850gl-mm-bridge/src/ubus_glib.c).
use luci_app_l850gl_mm.Base.Int.{ℤ}
use luci_app_l850gl_mm.Base.{
  ℕ, ◌+◌, ◌≤◌, ◌<◌, true, false, List, [], ◌∷◌, ◌++◌, Option, none, some, ◌≡◌, inl, inr, refl, ltb,
  Bytes, length, same_text, same_text_iff, Bool-cases, arith, ap,
}
use luci_app_l850gl_mm.SmsDedupe.{dedupe_max, sms_dedupe_is_expired, sms_dedupe_evictions_required}
use luci_app_l850gl_mm.SmsStore.{
  Outcome, Entry, prune, lookup, find, evict, update, put, new_entry, store,
}

pub same_text_refl : (a : Bytes) → same_text a a ≡ true
same_text_refl a = (same_text_iff a a).1 refl

-- A lookup in a queue with one entry more at its end.
lookup-last :
    (token : Bytes) (queue : List Entry) (e : Entry)
    → lookup token queue ≡ none
    → same_text e.client_token token ≡ true
    → lookup token (queue ++ (e ∷ [])) ≡ some e
unfolding lookup
lookup-last token [] e h same = rw same refl
lookup-last token (d ∷ queue) e h same =
    let miss : same_text d.client_token token ≡ false = ground (arith, h) in
    let rest : lookup token queue ≡ none = ground (arith, h) in
    rw miss (lookup-last token queue e rest same)

pub lookup-evict :
    (token : Bytes) (queue : List Entry)
    → lookup token queue ≡ none
    → lookup token (evict queue) ≡ none
unfolding lookup evict
lookup-evict token [] h = refl
lookup-evict token (d ∷ queue) h =
    let rest : lookup token queue ≡ none = ground (arith, h) in
    elim (Bool-cases (ltb 0 (sms_dedupe_evictions_required (length (d ∷ queue))))) [
      | inl e ↦ rw e (lookup-evict token queue rest)
      | inr e ↦ rw e h
    ]

lookup-update :
    (new : Entry) (queue : List Entry) {old : Entry}
    → lookup new.client_token queue ≡ some old
    → lookup new.client_token (update new queue) ≡ some new
unfolding lookup update
lookup-update new [] h = absurd (ground arith)
lookup-update new (d ∷ queue) {old} h =
    elim (Bool-cases (same_text d.client_token new.client_token)) [
      | inl e ↦ rw (e, same_text_refl new.client_token) refl
      | inr e ↦
          let rest : lookup new.client_token queue ≡ some old = ground (arith, h, e) in
          rw (e, e) (lookup-update new queue rest)
    ]

lookup-put :
    (new : Entry) (queue : List Entry) (found : Option Entry)
    → lookup new.client_token queue ≡ found
    → lookup new.client_token (put new queue found) ≡ some new
unfolding put
lookup-put new queue none h =
    lookup-last new.client_token (evict queue) new (lookup-evict new.client_token queue h)
      (same_text_refl new.client_token)
lookup-put new queue (some old) h = lookup-update new queue h

pub lookup-prune :
    (now : ℤ) (token : Bytes) (queue : List Entry) {e : Entry}
    → lookup token queue ≡ some e
    → sms_dedupe_is_expired e.expires_at now ≡ false
    → lookup token (prune now queue) ≡ some e
unfolding lookup prune
lookup-prune now token [] h live = absurd (ground arith)
lookup-prune now token (d ∷ queue) {e} h live = elim (Bool-cases (same_text d.client_token token)) [
  | inl t ↦
      let same : d ≡ e = ground (arith, h, t) in
      let kept : sms_dedupe_is_expired d.expires_at now ≡ false = rw same live in
      rw (kept, t) (ap some same)
  | inr t ↦
      let rest = lookup-prune now token queue (rw t at h) live in
      elim (Bool-cases (sms_dedupe_is_expired d.expires_at now)) [
        | inl x ↦ rw x rest
        | inr x ↦ rw (x, t) rest
      ]
]

-- The search that follows a store directly finds under its token what was stored, at any time before
-- it expires, whatever the queue held, also when the store had to evict entries.
pub find-store :
    (clock : ℕ → ℤ) (later : ℤ) (token : Bytes) (outcome : Outcome) (queue : List Entry)
    → sms_dedupe_is_expired (new_entry (clock 2) token outcome).expires_at later ≡ false
    → (find later token (store clock token outcome queue)).1
      ≡ some (new_entry (clock 2) token outcome)
unfolding find store
find-store clock later token outcome queue live =
    lookup-prune later token _
      (lookup-put (new_entry (clock 2) token outcome) (prune (clock 1) (prune (clock 0) queue)) _
        refl)
      live

pub evict-length : (queue : List Entry) → length (evict queue) < dedupe_max
unfolding evict sms_dedupe_evictions_required
evict-length [] = omega arith
evict-length (e ∷ queue) = ground (arith, evict-length queue)

prune-length : (now : ℤ) (queue : List Entry) → length (prune now queue) ≤ length queue
unfolding prune
prune-length now [] = omega arith
prune-length now (e ∷ queue) = ground (arith, prune-length now queue)

pub update-length : (new : Entry) (queue : List Entry) → length (update new queue) ≡ length queue
unfolding update
update-length new [] = refl
update-length new (e ∷ queue) = ground (arith, update-length new queue)

pub last-length : (queue : List Entry) (e : Entry) → length (queue ++ (e ∷ [])) ≡ length queue + 1
last-length [] e = refl
last-length (d ∷ queue) e = omega (arith, last-length queue e)

put-length :
    (new : Entry) (queue : List Entry) (found : Option Entry)
    → length queue ≤ dedupe_max
    → length (put new queue found) ≤ dedupe_max
unfolding put
put-length new queue none h = omega (arith, last-length (evict queue) new, evict-length queue)
put-length new queue (some old) h = omega (arith, update-length new queue, h)

-- A store of at most 64 entries has at most 64 entries after another one is stored.
pub store-length :
    (clock : ℕ → ℤ) (token : Bytes) (outcome : Outcome) (queue : List Entry)
    → length queue ≤ dedupe_max
    → length (store clock token outcome queue) ≤ dedupe_max
unfolding store find
store-length clock token outcome queue h =
    put-length _ _ _ (
      omega
        (arith, prune-length (clock 1) (prune (clock 0) queue), prune-length (clock 0) queue, h))
