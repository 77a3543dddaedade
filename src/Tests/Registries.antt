-- ===== src/Tests/Registries.antt =====
-- The registry of modems at concrete changes, an admission, a removal and another admission; and
-- the store of messages at one message; and the connection to ubus at a failed attempt.
use luci_app_l850gl_mm.Connection.{Attempt, reacts, ubus_start, unconnected, retries}
use luci_app_l850gl_mm.Connection.Armed.{IsArmed, start-IsArmed}
use luci_app_l850gl_mm.SmsStore.Retained.{Use, stores, searches, Spares, apply_all, find-stored}
use luci_app_l850gl_mm.SmsStore.{Entry, lookup, prune, Outcome, store, new_entry, find}
use luci_app_l850gl_mm.SmsDedupe.{sms_dedupe_is_expired, sms_dedupe_expiry}
use luci_app_l850gl_mm.Base.Int.{ℤ, pos}
use luci_app_l850gl_mm.Base.{
  ℕ, true, List, [], ◌∷◌, Option, some, Bytes, codes, none, ◌+◌, false, ◌≡◌, refl, inl, All, arith,
}
use luci_app_l850gl_mm.Registry.Fresh.{IsRegistry, changes-IsRegistry, no_modems-IsRegistry}
use luci_app_l850gl_mm.Registry.{Change, reconciled, removed, changes, no_modems}

abbrev fresh_id : Bytes → ℕ → Option Bytes
fresh_id name attempt = some name

abbrev three_changes : List Change
three_changes =
    reconciled (codes "/modem/0") true (fresh_id (codes "l850gl-a"))
    ∷ removed (codes "/modem/0")
    ∷ reconciled (codes "/modem/0") true (fresh_id (codes "l850gl-b"))
    ∷ []

changes-IsRegistry_example : IsRegistry (changes no_modems three_changes)
changes-IsRegistry_example = changes-IsRegistry no_modems three_changes no_modems-IsRegistry

abbrev sent_message : Outcome
sent_message = record {
  ok = true;
  sms_id = some (codes "sms-1");
  state = some (codes "sent");
  error_code = none;
  retryable = false;
  request_digest = none;
}

abbrev ticks : ℕ → ℤ
ticks n = pos (5 + n)

message_alive :
    sms_dedupe_is_expired (new_entry (ticks 2) (codes "token") sent_message).expires_at (pos 60)
    ≡ false
unfolding sms_dedupe_is_expired sms_dedupe_expiry
message_alive = refl

-- Another message is stored and the first one is searched.
abbrev two_uses : List Use
two_uses = stores ticks (codes "other") sent_message ∷ searches (pos 60) (codes "token") ∷ []

abbrev remembered : Entry
remembered = new_entry (ticks 2) (codes "token") sent_message

two_uses_spare : All (Spares remembered) two_uses
unfolding sms_dedupe_is_expired sms_dedupe_expiry
two_uses_spare = ((refl, refl, λ e. ground (arith, e)), (refl, tt))

token_is_new : (find (ticks 1) (codes "token") (prune (ticks 0) [])).1 ≡ none
unfolding find lookup prune
token_is_new = refl

find-stored_example :
    (find
      (pos 60)
      (codes "token")
      (apply_all two_uses (store ticks (codes "token") sent_message []))).1
    ≡ some remembered
find-stored_example =
    find-stored ticks (pos 60) (codes "token") sent_message [] two_uses (inl token_is_new)
      two_uses_spare (omega arith) message_alive

abbrev refused : Attempt
refused = record { connects = false; publishes = false }

abbrev accepted : Attempt
accepted = record { connects = true; publishes = true }

start-IsArmed_example :
    IsArmed (reacts (ubus_start 7 refused unconnected) (retries 9 accepted ∷ []))
start-IsArmed_example = start-IsArmed 7 refused (retries 9 accepted ∷ [])
