-- ===== src/SmsStore.antt =====
-- The store that recognises repeated messages of one modem (`modem->sms_dedupe`, and
-- `sms_dedupe_…` of l850gl-mm-bridge/src/ubus_glib.c), the head of the queue first. The monotonic
-- clock is an argument of each function; `clock` gives the answers of the three calls that a store
-- makes.
pub mod Laws
pub mod Sits
pub mod Retained
use luci_app_l850gl_mm.Base.Int.{ℤ}
use luci_app_l850gl_mm.Base.{
  ℕ, Bool, List, [], ◌∷◌, ◌++◌, Option, none, some, ltb, if◌then◌else◌, Bytes, length, same_text,
}
use luci_app_l850gl_mm.SmsDedupe.{
  sms_dedupe_expiry, sms_dedupe_is_expired, sms_dedupe_evictions_required,
}

-- What is remembered of a message; `request_digest` is none without `has_request_digest`.
pub record Outcome : Type 0 where
  pub ok : Bool
  pub sms_id : Option Bytes
  pub state : Option Bytes
  pub error_code : Option Bytes
  pub retryable : Bool
  pub request_digest : Option Bytes

-- `L850GLSmsDedupe`.
pub record Entry : Type 0 where
  pub client_token : Bytes
  pub outcome : Outcome
  pub expires_at : ℤ

unfoldable pub prune : ℤ → List Entry → List Entry
prune now [] = []
prune now (e ∷ queue) =
    if sms_dedupe_is_expired e.expires_at now then prune now queue else e ∷ prune now queue

-- The loop of `sms_dedupe_find`.
unfoldable pub lookup : Bytes → List Entry → Option Entry
lookup token [] = none
lookup token (e ∷ queue) = if same_text e.client_token token then some e else lookup token queue

-- The queue that is left, and the entry.
unfoldable pub find : ℤ → Bytes → List Entry → List Entry × Option Entry
unfolding prune lookup
find now token queue = (prune now queue, lookup token (prune now queue))

-- `g_queue_remove` of the entry that was found.
unfoldable pub take_out : Bytes → List Entry → List Entry
take_out token [] = []
take_out token (e ∷ queue) =
    if same_text e.client_token token then queue else e ∷ take_out token queue

unfoldable pub remove : ℤ → Bytes → List Entry → List Entry
unfolding take_out
remove now token queue = take_out token (prune now queue)

-- The loop that pops the head while the policy wants it.
unfoldable pub evict : List Entry → List Entry
evict [] = []
evict (e ∷ queue) =
    if ltb 0 (sms_dedupe_evictions_required (length (e ∷ queue))) then evict queue else e ∷ queue

-- The entry that was found gets its new contents.
unfoldable pub update : Entry → List Entry → List Entry
update new [] = []
update new (e ∷ queue) =
    if same_text e.client_token new.client_token then new ∷ queue else e ∷ update new queue

-- The part of the store behind the search.
unfoldable pub put : Entry → List Entry → Option Entry → List Entry
unfolding evict update
put new queue none = evict queue ++ (new ∷ [])
put new queue (some old) = update new queue

abbrev pub new_entry : ℤ → Bytes → Outcome → Entry
new_entry now token outcome = record {
  client_token = token;
  outcome = outcome;
  expires_at = sms_dedupe_expiry now;
}

unfoldable pub store : (ℕ → ℤ) → Bytes → Outcome → List Entry → List Entry
unfolding find put
store clock token outcome queue =
    let found = find (clock 1) token (prune (clock 0) queue) in
    put (new_entry (clock 2) token outcome) found.0 found.1
