-- ===== src/Service.antt =====
-- What the operations of the ubus service share (l850gl-mm-bridge/src/ubus_glib.c): the errors of
-- libmm-glib and GLib, and the modems with what they cache. `ErrorCode` names the pairs of a domain
-- and a code that the source asks `g_error_matches` for.
pub mod Errors
pub mod Modems
use luci_app_l850gl_mm.Base.{Bool, Option, Bytes}

pub data ErrorCode : Type 0 where
  io_timed_out io_cancelled io_closed io_broken_pipe io_permission_denied : ErrorCode
  dbus_no_reply dbus_timeout dbus_service_unknown dbus_name_has_no_owner : ErrorCode
  dbus_access_denied dbus_auth_failed dbus_unknown_method dbus_not_supported : ErrorCode
  core_timeout core_throttled core_unauthorized core_unsupported core_in_progress : ErrorCode
  core_wrong_state core_retry : ErrorCode
  equipment_network_timeout equipment_not_supported message_network_timeout : ErrorCode
  other_code : ErrorCode

-- `GError`: the code, and what `g_dbus_error_get_remote_error` answers for it, NULL when the error
-- is not a remote one.
pub record GError : Type 0 where
  pub code : ErrorCode
  pub remote : Option Bytes

-- The texts that the replies of the operations carry as `code` and `state`.
pub data Code : Type 0 where
  timeout dependency_unavailable unavailable permission_denied unsupported_protocol : Code
  busy not_ready operation_failed unsupported invalid_argument : Code
  stale_identity stale_generation device_gone malformed_response : Code
  verification_mismatch reprobe_timeout registration_timeout outcome_unknown : Code
  lock_applied_reset_required applied_verified cleared_verified : Code

-- `L850NormalizedError`.
pub record NormalizedError : Type 0 where
  pub code : Code
  pub retryable : Bool
