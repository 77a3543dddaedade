-- ===== src/Connection.antt =====
-- The connection of the service to ubus (l850gl-mm-bridge/src/ubus_glib.c): `schedule_reconnect`,
-- `connection_lost`, `ubus_fd_ready`, `connect_ubus`, `reconnect_cb`, `l850gl_ubus_start` and
-- `l850gl_ubus_stop`. What libubus answers is part of each event; the cancelling of the operations
-- is in the modules of the operations.
pub mod Armed
use luci_app_l850gl_mm.Base.{
  ℕ, ◌+◌, ◌*◌, ◌/◌, ◌%◌, Bool, true, false, not, ◌&&◌, ◌||◌, List, [], ◌∷◌, Option, none, some, ltb,
  if◌then◌else◌,
}

abbrev pub reconnect_initial_ms : ℕ
reconnect_initial_ms = 250

abbrev pub reconnect_max_ms : ℕ
reconnect_max_ms = 30000

-- The fields of `L850GLUbus` that the connection uses; the source of the next attempt with its
-- delay in milliseconds.
pub record Connection : Type 0 where
  pub is_connected : Bool
  pub context_initialized : Bool
  pub stopping : Bool
  pub fd_source : Bool
  pub reconnect_source : Option ℕ
  pub reconnect_delay_ms : ℕ

abbrev pub is_set : Option ℕ → Bool
is_set none = false
is_set (some delay) = true

-- `g_random_int_range(0, MAX(1U, delay / 5U))`, from the number that is drawn.
abbrev pub jitter : ℕ → ℕ → ℕ
jitter drawn delay = drawn % (if ltb 1 (delay / 5) then delay / 5 else 1)

abbrev pub doubled : ℕ → ℕ
doubled delay = if ltb reconnect_max_ms (delay * 2) then reconnect_max_ms else delay * 2

unfoldable pub schedule_reconnect : ℕ → Connection → Connection
schedule_reconnect drawn c = if c.stopping || is_set c.reconnect_source then c else record c {
  reconnect_source = some (c.reconnect_delay_ms + jitter drawn c.reconnect_delay_ms);
  reconnect_delay_ms = doubled c.reconnect_delay_ms;
}

unfoldable pub connection_lost : ℕ → Connection → Connection
unfolding schedule_reconnect
connection_lost drawn c =
    if c.stopping
    then c
    else schedule_reconnect drawn (record c { is_connected = false; fd_source = false })

-- What the descriptor reports, and whether libubus calls `connection_lost` while it handles it.
pub record Condition : Type 0 where
  pub readable : Bool
  pub hung_up : Bool
  pub invalid : Bool
  pub lost_inside : Bool

-- `if (test) connection_lost(&ubus->context);`
unfoldable pub lose_if : ℕ → Bool → Connection → Connection
unfolding connection_lost
lose_if drawn test c = if test then connection_lost drawn c else c

unfoldable pub ubus_fd_ready : ℕ → Condition → Connection → Connection
ubus_fd_ready drawn condition c =
    let inside = (condition.readable || condition.hung_up) && condition.lost_inside in
    let handled = lose_if drawn inside c in
    let checked = lose_if drawn (handled.is_connected && condition.hung_up) handled in
    let last = lose_if drawn (checked.is_connected && condition.invalid) checked in
    if c.stopping || not c.is_connected then c else last

-- What libubus answers to an attempt: whether the socket connects, and whether the objects are
-- published then.
pub record Attempt : Type 0 where
  pub connects : Bool
  pub publishes : Bool

-- The connection after the attempt; FALSE is `is_connected` as it was.
unfoldable pub connect_ubus : Attempt → Connection → Bool × Connection
connect_ubus attempt c =
    if not attempt.connects
    then (false, c)
    else if not attempt.publishes
    then (false, record c { context_initialized = false })
    else (
      true,
      record c {
        is_connected = true;
        context_initialized = true;
        fd_source = true;
        reconnect_delay_ms = reconnect_initial_ms;
      },
    )

abbrev pub connect_or_retry : ℕ → Attempt → Connection → Connection
connect_or_retry drawn attempt c =
    let answer = connect_ubus attempt c in
    if answer.0 then answer.1 else schedule_reconnect drawn answer.1

unfoldable pub reconnect_cb : ℕ → Attempt → Connection → Connection
unfolding connect_ubus schedule_reconnect
reconnect_cb drawn attempt c =
    let fired = record c { reconnect_source = none } in
    if c.stopping then fired else connect_or_retry drawn attempt fired

unfoldable pub ubus_start : ℕ → Attempt → Connection → Connection
unfolding connect_ubus schedule_reconnect
ubus_start drawn attempt c =
    if c.stopping || c.is_connected || is_set c.reconnect_source
    then c
    else connect_or_retry drawn attempt c

unfoldable pub ubus_stop : Connection → Connection
ubus_stop c = if c.stopping then c else record c {
  stopping = true;
  is_connected = false;
  fd_source = false;
  reconnect_source = none;
  context_initialized = false;
}

-- What the main loop does; the retry happens only while its source is there.
pub data Event : Type 0 where
  starts : ℕ → Attempt → Event
  loses : ℕ → Event
  reports : ℕ → Condition → Event
  retries : ℕ → Attempt → Event
  stops : Event

unfoldable pub react : Connection → Event → Connection
unfolding ubus_start connection_lost ubus_fd_ready reconnect_cb ubus_stop
react c (starts drawn attempt) = ubus_start drawn attempt c
react c (loses drawn) = connection_lost drawn c
react c (reports drawn condition) = ubus_fd_ready drawn condition c
react c (retries drawn attempt) =
    if is_set c.reconnect_source then reconnect_cb drawn attempt c else c
react c stops = ubus_stop c

unfoldable pub reacts : Connection → List Event → Connection
reacts c [] = c
reacts c (e ∷ es) = reacts (react c e) es

abbrev pub unconnected : Connection
unconnected = record {
  is_connected = false;
  context_initialized = false;
  stopping = false;
  fd_source = false;
  reconnect_source = none;
  reconnect_delay_ms = reconnect_initial_ms;
}
