-- ===== src/Lib.antt =====
-- The native bridge of luci-app-L850GL-MM (l850gl-mm-bridge/src) stands between the LuCI views of
-- an OpenWrt router and a Fibocom L850-GL modem that ModemManager drives. It sends vendor AT
-- commands, reads their answers, and decides which changes of the radio, of the network
-- configuration and of the cell lock are safe. The development models the parsers of the answers,
-- the policies that decide, and of the service the operation that changes the cell lock, the check
-- of its requests, the registry of modems and the attestation of their hardware, the inventory and
-- the store of messages, and the connection to ubus.
--
-- A C string is the list of its bytes before the terminating NUL, and a pointer that may be NULL
-- is an Option. A function that returns a code and fills an output gives a pair or a Result. The
-- output pointers themselves are taken non-NULL, and the result of malloc is the argument
-- `allocated`. Fixed-width integers are native numbers with their wrap-around written out, signed
-- ones the integers of Base/Int.antt.
--
-- - Base.antt, Base/Tests.antt, Base/Lists.antt, Base/Int.antt, Base/Result.antt: shared names,
--   Boolean tests, lists on native numbers, integers and results.
-- - Text.antt (Text/Laws.antt): trim_ascii and the cutting of texts, which l850_cell.c, l850_ca.c
--   and l850_voltage.c share.
-- - Number.antt (Number/Exact.antt, Number/Numeral.antt, Number/Print.antt): parse_uint32 and
--   parse_int32 of l850_cell.c, the decimal readers, and the decimal output of snprintf, whose ten
--   digits of fuel print every 32-bit number.
-- - CellLock.antt: the types of l850_cell.h. CellLock/Earfcn.antt is l850gl_l850_earfcn_to_band,
--   CellLock/Line.antt is parse_cell_line, CellLock/Scan.antt is l850gl_l850_cell_parse,
--   CellLock/Nvm.antt is l850gl_l850_nvm_parse, CellLock/Lifecycle.antt holds the states of a
--   change and their transitions, CellLock/Command.antt the commands and the comparison of a lock
--   state with a request.
-- - Cooldown.antt (Cooldown/Wait.antt): the two retry-after functions.
-- - Ca.antt: the types of l850_ca.h. Ca/Bands.antt is the band table, Ca/Decimal.antt the number
--   readers, Ca/Record.antt the records of primary and secondary carriers, Ca/Parse.antt is
--   l850gl_l850_ca_parse.
-- - Voltage.antt (Voltage/Exact.antt): l850gl_l850_voltage_parse of l850_voltage.c.
-- - Verifier.antt: l850_mutation_policy.c.
-- - Bits.antt, Radio.antt (Radio/Names.antt, Radio/Selection.antt): radio_policy.c, with the bit
--   operations on 32-bit words.
-- - Network.antt (Network/Unique.antt, Network/Modes.antt): the lookup and the modes of
--   network_binding.c, with libuci as the parameter `load`. Network/Update.antt
--   (Network/Exact.antt, Network/Written.antt, Network/Verified.antt) is
--   l850gl_network_modes_update_at, with libuci as the parameter `uci`.
-- - Identity.antt (Identity/Valid.antt): the tokens of identity.c, with the source of random bytes
--   as the parameter `random_fill`; system_random_fill reads the answers of getrandom.
-- - SmsDedupe.antt: sms_dedupe_policy.c.
-- - SmsPolicy.antt (SmsPolicy/Digest.antt): recipients, texts and digests of sms_policy.c, with
--   SHA-256 as the parameter `sha256` and the UTF-8 functions of GLib as the parameter `utf8`.
-- - Hardware.antt: hardware.c, with the kernel as the parameter `fs`. Hardware/Path.antt says
--   which paths open_physdev_at follows, Hardware/Attest.antt when the attestation succeeds,
--   Hardware/Descriptors.antt what becomes of the descriptors.
-- - UbusRequest.antt: ubus_request.c, with libubox as the parameter `lib`.
--   UbusRequest/Session.antt is about the rpc session, UbusRequest/Masks.antt about the mask of
--   the fields, UbusRequest/Fields.antt, Parsed.antt and Read.antt about l850gl_ubus_parse_exact,
--   UbusRequest/Fuel.antt about the end of its loop.
-- - Service.antt (Service/Errors.antt, Service/Modems.antt): the errors of ubus_glib.c and their
--   classification, and L850GLModem of bridge.h with its bands, its serving-cell cache and its
--   cooldown.
-- - Mutation.antt: L850MutationOperation of ubus_glib.c. Mutation/Guards.antt holds the tests on
--   the modems and l850_mutation_find_replacement, Mutation/Finish.antt the replies and
--   l850_mutation_operation_free, Mutation/Commands.antt the functions that start a phase,
--   Mutation/Handlers.antt the callbacks of the probe, the change and the reset,
--   Mutation/Verify.antt l850_mutation_nvm_ready and l850_mutation_cell_ready, Mutation/Poll.antt
--   l850_mutation_poll, Mutation/Run.antt the events and the whole course, Mutation/Methods.antt
--   the methods set_cell_lock and clear_cell_lock. Mutation/Grammar.antt describes the
--   conversations with the modems without the handlers; Mutation/Kept.antt and its children relate
--   the two; Mutation/Safety.antt, Release.antt, Deadline.antt, Search.antt and Admission.antt
--   (with Tested.antt and Advertised.antt) beside it hold the theorems; Mutation/Target.antt puts
--   the attestation of hardware.c in the place of its answer in Surroundings.
-- - Registry.antt (Registry/Fresh.antt): reconcile_object, remove_path and clear_modems of
--   bridge.c, with the source of identities as the parameter `generate`. Registry/Support.antt
--   (Registry/Support/Target.antt) is is_exact_l850gl, l850gl_modem_composition and
--   l850gl_modem_attest_mutation_target, with what libmm-glib tells of a modem as the record
--   Description.
-- - Inbox.antt: the messages of a modem in bridge.c. Inbox/Reserve.antt is modem_admit_sms and
--   l850gl_modem_find_sms, Inbox/Listing.antt the loop of sms_list_ready, Inbox/Queries.antt
--   query_sms, sms_list_ready, the signals and reconcile_messaging, Inbox/Changes.antt any
--   sequence of these; Inbox/Identities.antt, Inventory.antt, Entries.antt, Admission.antt and
--   Listed.antt hold the lemmas.
-- - SmsStore.antt (SmsStore/Laws.antt, SmsStore/Sits.antt, SmsStore/Retained.antt): the sms_dedupe
--   functions of ubus_glib.c, which use the policy of SmsDedupe.antt.
-- - Connection.antt (Connection/Armed.antt): schedule_reconnect, connection_lost, ubus_fd_ready,
--   connect_ubus, reconnect_cb, l850gl_ubus_start and l850gl_ubus_stop of ubus_glib.c.
-- - Tests.antt and the modules below it: the properties at concrete inputs.
--
-- The loops over a text or an array are structural recursion on the list of lines, fields,
-- sections or bytes, so they need no bound. The parsers share the lines and numbers of Text and
-- Number; the carrier and voltage parsers use the same trimming as the cell parser, since the
-- sources repeat it; the commands of the cell lock use the channel table of the scan.
--
-- The loop of l850gl_ubus_parse_exact runs on as much fuel as the message has bytes, which is
-- enough because every attribute that libubox accepts takes at least one; the loop of
-- l850gl_ubus_message_is_empty refuses a second attribute, so its fuel is 2. The loops around read
-- and getrandom go through the list of the kernel's answers, so an interruption is repeated as
-- often as the kernel interrupts.
--
-- A handler of a mutation takes what the libraries answer while it runs as the argument
-- Surroundings (clock, physical devices, states, bands, attestation) and returns the world and the
-- operation, or the reply that completed it. The modems are addresses in a store that handlers
-- write; between two events any other part of the daemon may leave any modems and flags there. The
-- conversation of the operation with the modems is kept in the world, so that the theorems can
-- speak of every command sent and every answer read. Times are numbers of microseconds, since the
-- monotonic clock is never negative.
--
-- Not modelled: of bridge.c the connection to ModemManager and the queries of the SIM and the
-- bearers, the other operations of ubus_glib.c (the course of a send and a deletion, bands and
-- modes, scans, status, carriers, voltage, overview), most of which compose replies from what
-- ModemManager reports, what libmm-glib does with a cancelled command, main.c, the JavaScript
-- views, and the packaging. What a failed call of radio_policy.c leaves in its output arrays is
-- not modelled either. Of libubus the answer of ubus_add_object is taken as a value, so a loss of
-- the connection that it would report while it runs is not modelled.
mod Base
pub mod Text
pub mod Number
pub mod CellLock
pub mod Cooldown
pub mod Ca
pub mod Voltage
pub mod Verifier
pub mod Bits
pub mod Radio
pub mod Network
pub mod Hardware
pub mod UbusRequest
pub mod Inbox
pub mod Identity
pub mod SmsDedupe
pub mod SmsPolicy
pub mod Service
pub mod Mutation
pub mod Registry
pub mod SmsStore
pub mod Connection
mod Tests
