-- ===== src/SmsStore/Retained.antt =====
-- How long the store of messages keeps an entry (l850gl-mm-bridge/src/ubus_glib.c).
use luci_app_l850gl_mm.Base.Int.{ℤ}
use luci_app_l850gl_mm.SmsStore.Sits.{
  Sits, Sits-lookup, prune-Sits, evict-Sits, append-Sits, update-Sits, take_out-Sits,
}
use luci_app_l850gl_mm.SmsStore.Laws.{find-store, lookup-evict}
use luci_app_l850gl_mm.SmsStore.{
  Outcome, Entry, prune, lookup, find, evict, put, new_entry, store, remove,
}
use luci_app_l850gl_mm.SmsDedupe.{sms_dedupe_is_expired}
use luci_app_l850gl_mm.Base.{
  ℕ, List, [], ◌∷◌, none, some, inl, inr, ◌≡◌, ◌≢◌, Bytes, ◌+◌, ◌≤◌, false, arith, refl, ◌⊎◌,
  Option, All,
}

-- What the service does with the store: a search, a removal, a store.
pub data Use : Type 0 where
  searches : ℤ → Bytes → Use
  removes : ℤ → Bytes → Use
  stores : (ℕ → ℤ) → Bytes → Outcome → Use

unfoldable pub apply : Use → List Entry → List Entry
apply (searches now token) queue = (find now token queue).0
apply (removes now token) queue = remove now token queue
apply (stores clock token outcome) queue = store clock token outcome queue

unfoldable pub apply_all : List Use → List Entry → List Entry
apply_all [] queue = queue
apply_all (use_of ∷ uses) queue = apply_all uses (apply use_of queue)

-- The use comes before the entry expires, and neither removes nor replaces it.
abbrev pub Spares : Entry → Use → Type 0
Spares e (searches now token) = sms_dedupe_is_expired e.expires_at now ≡ false
Spares e (removes now token) =
    (sms_dedupe_is_expired e.expires_at now ≡ false) × (token ≢ e.client_token)
Spares e (stores clock token outcome) =
    (sms_dedupe_is_expired e.expires_at (clock 0) ≡ false)
    × (sms_dedupe_is_expired e.expires_at (clock 1) ≡ false)
    × (token ≢ e.client_token)

-- The stores among some uses.
abbrev pub stores_in : List Use → ℕ
stores_in [] = 0
stores_in (searches now token ∷ uses) = stores_in uses
stores_in (removes now token ∷ uses) = stores_in uses
stores_in (stores clock token outcome ∷ uses) = 1 + stores_in uses

module _ (e : Entry) where
  -- The three operations, on a queue that the entry sits in.
  pruned :
      (now : ℤ) {n : ℕ} {queue : List Entry}
      → Sits e n queue
      → sms_dedupe_is_expired e.expires_at now ≡ false
      → Sits e n (prune now queue)
  pruned now {n} sits live =
      rw sits.split (prune-Sits e now n sits.before sits.after sits.missing sits.few live)

  put-Sits :
      (n : ℕ) (new : Entry) {queue : List Entry} (found : Option Entry)
      → Sits e n queue
      → n ≤ 62
      → new.client_token ≢ e.client_token
      → Sits e (n + 1) (put new queue found)
  unfolding put
  put-Sits n new none sits small other =
      rw sits.split
        (append-Sits e n new (evict-Sits e n sits.before sits.after sits.missing sits.few small))
  put-Sits n new (some old) sits small other = rw sits.split (
      update-Sits e (n + 1) new sits.before sits.after sits.missing (omega (arith, sits.few)) other)

  apply_all-Sits :
      (uses : List Use) (n : ℕ) {queue : List Entry}
      → Sits e n queue
      → All (Spares e) uses
      → n + stores_in uses ≤ 63
      → Sits e 63 (apply_all uses queue)
  unfolding apply_all apply find store remove
  apply_all-Sits [] n sits spared small = record {
    before = sits.before;
    after = sits.after;
    split = sits.split;
    missing = sits.missing;
    few = omega (arith, sits.few, small);
  }
  apply_all-Sits (searches now token ∷ uses) n sits (live, spared) small =
      apply_all-Sits uses n (pruned now sits live) spared small
  apply_all-Sits (removes now token ∷ uses) n sits ((live, other), spared) small =
      let left = pruned now sits live in
      apply_all-Sits uses n
        (rw left.split (take_out-Sits e n token left.before left.after left.missing left.few other))
        spared small
  apply_all-Sits (stores clock token outcome ∷ uses) n sits ((first, second, other), spared) small =
      apply_all-Sits uses (n + 1)
        (put-Sits n (new_entry (clock 2) token outcome) _
          (pruned (clock 1) (pruned (clock 0) sits first) second) (omega (arith, small)) other)
        spared (omega (arith, small))

stored-Sits :
    (new : Entry) (queue : List Entry)
    → lookup new.client_token queue ≡ none
    → Sits new 0 (put new queue (lookup new.client_token queue))
unfolding put
stored-Sits new queue h = rw h (record {
  before = evict queue;
  after = [];
  split = refl;
  missing = lookup-evict new.client_token queue h;
  few = omega arith;
})

Sits-find :
    {e : Entry} {n : ℕ} {queue : List Entry} (later : ℤ)
    → sms_dedupe_is_expired e.expires_at later ≡ false
    → Sits e n queue
    → (find later e.client_token queue).1 ≡ some e
unfolding find
Sits-find {e} later live sits =
    let left = pruned e later sits live in
    rw left.split (Sits-lookup e left.before left.after left.missing)

-- What is stored under a new token is found under it until it expires, after any searches, any
-- removals of other tokens and at most 63 stores of other tokens, all before it expires; and what
-- is stored under any token is found by a search that follows directly, before it expires.
pub find-stored :
    (clock : ℕ → ℤ) (later : ℤ) (token : Bytes) (outcome : Outcome) (queue : List Entry)
    (uses : List Use)
    → ((find (clock 1) token (prune (clock 0) queue)).1 ≡ none) ⊎ (uses ≡ [])
    → All (Spares (new_entry (clock 2) token outcome)) uses
    → stores_in uses ≤ 63
    → sms_dedupe_is_expired (new_entry (clock 2) token outcome).expires_at later ≡ false
    → (find later token (apply_all uses (store clock token outcome queue))).1
      ≡ some (new_entry (clock 2) token outcome)
unfolding store find apply_all
find-stored clock later token outcome queue uses (inl fresh) spared small live =
    Sits-find later live (
      apply_all-Sits (new_entry (clock 2) token outcome) uses 0
        (stored-Sits (new_entry (clock 2) token outcome) (prune (clock 1) (prune (clock 0) queue))
          fresh)
        spared (omega (arith, small)))
find-stored clock later token outcome queue uses (inr idle) spared small live =
    rw idle (find-store clock later token outcome queue live)
