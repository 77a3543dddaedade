-- ===== src/Tests/Requests.antt =====
-- Requests, changes of the modes and the cache of messages at concrete inputs.
use luci_app_l850gl_mm.UbusRequest.Session.{IsSession, message_is_empty_exact}
use luci_app_l850gl_mm.Network.Verified.{modes_update_at-IsUpdated}
use luci_app_l850gl_mm.Network.Written.{IsUpdated}
use luci_app_l850gl_mm.UbusRequest.Fuel.{walk-finishes}
use luci_app_l850gl_mm.Network.{
  Section, modes_are_valid, cleared_binding, scan_finish, scan_sections, scan_consider, note_match,
  is_match, section_name_is_safe,
}
use luci_app_l850gl_mm.Inbox.Queries.{sms_list_ready, list_answered, answer_query}
use luci_app_l850gl_mm.UbusRequest.Read.{IsRequest, parse_exact-IsRequest}
use luci_app_l850gl_mm.Network.Update.{
  Uci, modes_update_at, update_modes, update_ok, write_modes, unique_binding, find_exact_section,
  find_exact_from, is_exact_section, modes_update,
}
use luci_app_l850gl_mm.Inbox.{
  Inbox, without_path, sms_at, new_sms_id, sms_id_exists_in_hash, any_sms, has_text,
  sms_revision_bump,
}
use luci_app_l850gl_mm.Inbox.Inventory.{IsInbox}
use luci_app_l850gl_mm.Inbox.Listing.{
  Glib, Listed, list_sms, list_messages, list_message, list_entry, insert_sms, replace_cache,
}
use luci_app_l850gl_mm.Base.{
  ℕ, Option, List, ◌≢◌, true, some, false, Bytes, leb, codes, arith, ◌≡◌, [], ◌∷◌, if◌then◌else◌,
  none, ◌==◌, ◌≤◌, ◌↔◌, ◌⊎◌, ◌<◌, same_text, refl, length,
}
use luci_app_l850gl_mm.Bits.{bitwise as word_bits}
use luci_app_l850gl_mm.Service.Modems.{mutation_none}
use luci_app_l850gl_mm.UbusRequest.{
  walk, parse_exact, Message, message_is_empty, Attribute, Parse, Libubox, Policy, take_attribute,
  out_of_fuel, take_field, attr_is_valid, find_field, finish_parse, land64, lor64, shifted,
}
use luci_app_l850gl_mm.Inbox.Changes.{
  InboxChange, list_arrived, signal_deleted, messaging_reconciled, change_inbox, change_all,
  change_all-IsInbox,
}

abbrev accepting : Libubox
accepting = record {
  check_attr_len = λ a named remaining. leb 1 a.padded;
  attr_size = 4;
  type_string = 3;
}

abbrev confirm_policy : List Policy
confirm_policy = record { name = some (codes "confirm"); type = 8 } ∷ []

abbrev confirm_attribute : Attribute
confirm_attribute = record { name = codes "confirm"; type = 8; bytes = 1 ∷ []; padded = 12 }

abbrev confirm_message : Message
confirm_message = record { data_len = 12; attribute_at = λ offset. confirm_attribute }

abbrev no_session : Parse
no_session = record { seen = 0; session_seen = false; parsed = none ∷ [] }

confirm_parsed :
    parse_exact accepting (some confirm_message) confirm_policy 1
    ≡ some (some confirm_attribute ∷ [])
unfolding parse_exact walk take_attribute take_field attr_is_valid find_field finish_parse land64
    lor64 shifted word_bits same_text
confirm_parsed = refl

parse_exact-IsRequest_example :
    IsRequest accepting confirm_message confirm_policy 1 (some confirm_attribute ∷ [])
parse_exact-IsRequest_example =
    parse_exact-IsRequest accepting confirm_message confirm_policy 1 confirm_parsed

accepting_moves :
    (a : Attribute) (remaining : ℕ)
    → accepting.check_attr_len a true remaining ≡ true
    → 1 ≤ a.padded
accepting_moves a remaining h = ground (arith, h)

walk-finishes_example :
    walk accepting confirm_message confirm_policy 12 0 12 no_session ≢ out_of_fuel
walk-finishes_example =
    walk-finishes accepting confirm_message confirm_policy 12 0 12 no_session accepting_moves
      (omega arith)

message_is_empty_exact_example : (message_is_empty accepting (some confirm_message) ≡ true) ↔ (
    (confirm_message.data_len ≡ 0)
    ⊎ ((0 < confirm_message.data_len)
        × (confirm_attribute.padded ≡ confirm_message.data_len)
        × IsSession accepting confirm_attribute 12))
message_is_empty_exact_example = message_is_empty_exact accepting confirm_message

abbrev wan_section : Option Bytes → Option Bytes → Section
wan_section allowedmode preferredmode = record {
  name = some (codes "wan");
  type = some (codes "interface");
  anonymous = false;
  proto = some (codes "modemmanager");
  device = some (codes "/sys/x");
  allowedmode = allowedmode;
  preferredmode = preferredmode;
  disable_modem = none;
}

abbrev set_all : List Section → ℕ → Bytes → Option Bytes → Option (List Section)
set_all sections index option value =
    some (wan_section (some (codes "3g|4g")) (some (codes "4g")) ∷ [])

-- A configuration that keeps what it is told.
abbrev one_interface : Uci
one_interface = record {
  load = λ confdir. some (wan_section none none ∷ []);
  set_option = set_all;
  commit = λ sections. some sections;
}

modes_updated :
    (modes_update one_interface
      (some (codes "/sys/x"))
      (some (codes "3g|4g"))
      (some (codes "4g"))).0
    ≡ update_ok
unfolding modes_update_at update_modes modes_are_valid write_modes unique_binding scan_finish
    scan_sections scan_consider note_match is_match section_name_is_safe find_exact_section
    find_exact_from is_exact_section same_text
modes_updated = refl

modes_update_at-IsUpdated_example :
    let result =
      modes_update_at one_interface none
        (some (codes "/sys/x"))
        (some (codes "3g|4g"))
        (some (codes "4g")) in
    (result.0 ≡ update_ok
      → IsUpdated one_interface none
          (some (codes "/sys/x"))
          (some (codes "3g|4g"))
          (some (codes "4g"))
          result.1)
    × (result.0 ≢ update_ok → result.1 ≡ cleared_binding)
modes_update_at-IsUpdated_example =
    modes_update_at-IsUpdated one_interface none (some (codes "/sys/x")) (some (codes "3g|4g"))
      (some (codes "4g"))

abbrev empty_inbox : Inbox
empty_inbox = record {
  live = true;
  generation = 1;
  messaging = some 7;
  messaging_generation = 1;
  sms_by_path = [];
  sms_reserved_ids = [];
  sms_deleted_paths = [];
  sms_dedupe = [];
  sms_revision = 0;
  sms_query_pending = true;
  sms_query_dirty = false;
  sms_cache_truncated = false;
  sms_cache_state = codes "loading";
  mutation_busy = false;
  mutation_kind = mutation_none;
  mutation_cancellable = none;
  cancelled = [];
}

-- Every text is an object path, and the list keeps its order.
abbrev simple_glib : Glib
simple_glib = record { is_object_path = λ text. true; list_sort = λ compare messages. messages }

abbrev two_messages : List Listed
two_messages =
    record { sms = 1; path = some (codes "/1"); timestamp = none }
    ∷ record { sms = 2; path = some (codes "/2"); timestamp = none }
    ∷ []

-- The first attempt repeats an identity, the later ones differ by the message.
abbrev drawn : ℕ → ℕ → Option Bytes
drawn message attempt = if attempt == 7 then some (codes "a") else some (message ∷ [])

abbrev some_changes : List InboxChange
some_changes =
    list_arrived drawn 7 1 (list_answered two_messages)
    ∷ signal_deleted (some (codes "/1"))
    ∷ messaging_reconciled none false
    ∷ []

both_listed :
    length
      (change_inbox simple_glib empty_inbox
        (list_arrived drawn 7 1 (list_answered two_messages))).sms_by_path
    ≡ 2
unfolding change_inbox sms_list_ready answer_query list_sms list_messages list_message list_entry
    insert_sms without_path sms_at new_sms_id sms_id_exists_in_hash any_sms has_text replace_cache
    sms_revision_bump same_text
both_listed = refl

empty_inbox-IsInbox : IsInbox empty_inbox
empty_inbox-IsInbox = record { paths = tt; ids = tt; kept = tt; bounded = omega arith }

change_all-IsInbox_example : IsInbox (change_all simple_glib empty_inbox some_changes)
change_all-IsInbox_example =
    change_all-IsInbox simple_glib empty_inbox some_changes empty_inbox-IsInbox
