-- ===== src/Service/Errors.antt =====
-- How l850gl-mm-bridge/src/ubus_glib.c classifies errors: `advanced_error_has_unknown_outcome`,
-- `l850_error_is_unsupported` and `l850_normalize_error`. The argument `since_1_24` is the build's
-- `MM_CHECK_VERSION(1, 24, 0)`.
use luci_app_l850gl_mm.Base.{
  Bool, true, false, ◌||◌, [], ◌∷◌, Option, none, some, if◌then◌else◌, Bytes, codes, same_text,
}
use luci_app_l850gl_mm.Service.{
  ErrorCode, GError, Code, NormalizedError, timeout, core_throttled, dbus_service_unknown,
  io_timed_out, core_in_progress, io_permission_denied, dbus_unknown_method, core_timeout,
  core_wrong_state, dbus_no_reply, io_cancelled, core_retry, dbus_access_denied,
  dbus_name_has_no_owner, dependency_unavailable, dbus_not_supported, dbus_timeout, unavailable,
  io_closed, permission_denied, core_unsupported, dbus_auth_failed, core_unauthorized,
  unsupported_protocol, io_broken_pipe, equipment_not_supported, busy, not_ready,
}

-- `g_str_has_suffix`.
unfoldable pub ends_with : Bytes → Bytes → Bool
ends_with suffix [] = same_text [] suffix
ends_with suffix (c ∷ s) = same_text (c ∷ s) suffix || ends_with suffix s

unfoldable pub remote_error_has_suffix : Option Bytes → Bytes → Bool
unfolding ends_with
remote_error_has_suffix none suffix = false
remote_error_has_suffix (some remote) suffix = ends_with suffix remote

-- The alternatives of `g_error_matches` in `advanced_error_has_unknown_outcome`.
abbrev pub has_unknown_outcome : ErrorCode → Bool
has_unknown_outcome io_timed_out = true
has_unknown_outcome io_cancelled = true
has_unknown_outcome io_closed = true
has_unknown_outcome io_broken_pipe = true
has_unknown_outcome dbus_no_reply = true
has_unknown_outcome dbus_timeout = true
has_unknown_outcome _ = false

unfoldable pub advanced_error_has_unknown_outcome : Option GError → Option Bytes → Bool
unfolding remote_error_has_suffix
advanced_error_has_unknown_outcome none remote = false
advanced_error_has_unknown_outcome (some error) remote =
    has_unknown_outcome error.code
    || remote_error_has_suffix remote (codes ".Core.Timeout")
    || remote_error_has_suffix remote (codes ".MobileEquipment.NetworkTimeout")

-- `if (error != NULL && g_dbus_error_is_remote_error(error)) remote = …`
abbrev pub remote_of : Option GError → Option Bytes
remote_of none = none
remote_of (some error) = error.remote

abbrev pub core_error_is_timeout : Bool → ErrorCode → Bool
core_error_is_timeout since_1_24 core_timeout = since_1_24
core_error_is_timeout since_1_24 _ = false

abbrev pub core_error_is_throttled : Bool → ErrorCode → Bool
core_error_is_throttled since_1_24 core_throttled = since_1_24
core_error_is_throttled since_1_24 _ = false

abbrev is_timeout : ErrorCode → Bool
is_timeout io_timed_out = true
is_timeout dbus_no_reply = true
is_timeout dbus_timeout = true
is_timeout _ = false

abbrev is_dependency_lost : ErrorCode → Bool
is_dependency_lost dbus_service_unknown = true
is_dependency_lost dbus_name_has_no_owner = true
is_dependency_lost io_closed = true
is_dependency_lost io_broken_pipe = true
is_dependency_lost _ = false

abbrev is_denied : ErrorCode → Bool
is_denied io_permission_denied = true
is_denied dbus_access_denied = true
is_denied dbus_auth_failed = true
is_denied core_unauthorized = true
is_denied _ = false

abbrev is_unsupported : ErrorCode → Bool
is_unsupported dbus_unknown_method = true
is_unsupported dbus_not_supported = true
is_unsupported core_unsupported = true
is_unsupported equipment_not_supported = true
is_unsupported _ = false

abbrev is_in_progress : ErrorCode → Bool
is_in_progress core_in_progress = true
is_in_progress _ = false

abbrev is_wrong_state : ErrorCode → Bool
is_wrong_state core_wrong_state = true
is_wrong_state core_retry = true
is_wrong_state _ = false

abbrev normalized : Code → Bool → NormalizedError
normalized code retryable = record { code = code; retryable = retryable }

unfoldable pub error_is_unsupported : Option GError → Bool
unfolding remote_error_has_suffix
error_is_unsupported none = false
error_is_unsupported (some error) =
    is_unsupported error.code
    || remote_error_has_suffix error.remote (codes ".Core.Unsupported")
    || remote_error_has_suffix error.remote (codes ".MobileEquipment.NotSupported")

-- The tests on an error that is not NULL, in the order of the source.
unfoldable pub classify : Bool → GError → NormalizedError
unfolding remote_error_has_suffix
classify since_1_24 error =
    if is_timeout error.code
      || core_error_is_timeout since_1_24 error.code
      || remote_error_has_suffix error.remote (codes ".Core.Timeout")
    then normalized timeout true
    else if is_dependency_lost error.code
    then normalized dependency_unavailable true
    else if is_denied error.code
        || remote_error_has_suffix error.remote (codes ".Core.Unauthorized")
    then normalized permission_denied false
    else if is_unsupported error.code
        || remote_error_has_suffix error.remote (codes ".Core.Unsupported")
        || remote_error_has_suffix error.remote (codes ".MobileEquipment.NotSupported")
    then normalized unsupported_protocol false
    else if is_in_progress error.code
        || core_error_is_throttled since_1_24 error.code
        || remote_error_has_suffix error.remote (codes ".Core.InProgress")
        || remote_error_has_suffix error.remote (codes ".Core.Throttled")
    then normalized busy true
    else if is_wrong_state error.code
        || remote_error_has_suffix error.remote (codes ".Core.WrongState")
        || remote_error_has_suffix error.remote (codes ".Core.Retry")
    then normalized not_ready true
    else normalized unavailable false

unfoldable pub normalize_error : Bool → Option GError → Bool → Bool → NormalizedError
unfolding classify
normalize_error since_1_24 error timed_out transport_lost =
    if timed_out
    then normalized timeout true
    else if transport_lost
    then normalized dependency_unavailable true
    else elim error [ none ↦ normalized unavailable false | some error ↦ classify since_1_24 error ]
