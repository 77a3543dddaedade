-- ===== src/UbusRequest.antt =====
-- The check of a ubus request against its policy (l850gl-mm-bridge/src/ubus_request.c). libubox is
-- the parameter `lib`; a message is the length of its data with what libubox reads as the attribute
-- at each offset of it. The loop over the attributes has a fuel.
pub mod Masks
pub mod Fields
pub mod Fuel
pub mod Parsed
pub mod Read
pub mod Session
use luci_app_l850gl_mm.Base.{
  ℕ, zero, suc, ◌+◌, ◌-◌, ◌*◌, Bool, true, false, not, ◌&&◌, ◌||◌, List, [], ◌∷◌, Option, none,
  some, ltb, leb, ◌==◌, if◌then◌else◌, within, Bytes, codes, length, get_or, set, same_text,
}
use luci_app_l850gl_mm.Bits.{bitwise}

-- `struct blob_attr` by the accessors of libubox: `blobmsg_name`, `blobmsg_type`, the bytes of
-- `blobmsg_data`, and `blob_pad_len`.
pub record Attribute : Type 0 where
  pub name : Bytes
  pub type : ℕ
  pub bytes : Bytes
  pub padded : ℕ

-- `blobmsg_check_attr_len`, `sizeof(struct blob_attr)` and `BLOBMSG_TYPE_STRING`.
pub record Libubox : Type 0 where
  pub check_attr_len : Attribute → Bool → ℕ → Bool
  pub attr_size : ℕ
  pub type_string : ℕ

pub record Message : Type 0 where
  pub data_len : ℕ
  pub attribute_at : ℕ → Attribute

-- `struct blobmsg_policy`.
pub record Policy : Type 0 where
  pub name : Option Bytes
  pub type : ℕ

abbrev pub rpc_session_name : Bytes
rpc_session_name = codes "ubus_rpc_session"

abbrev pub rpc_session_hex_length : ℕ
rpc_session_hex_length = 32

abbrev pub request_policy_max : ℕ
request_policy_max = 63

abbrev pub ascii_is_hex : ℕ → Bool
ascii_is_hex c = within b'0' b'9' c || within b'a' b'f' c || within b'A' b'F' c

unfoldable pub all_ascii_hex : Bytes → Bool
all_ascii_hex [] = true
all_ascii_hex (c ∷ s) = ascii_is_hex c && all_ascii_hex s

-- The bytes of a C string with its NUL: the text before the first NUL, when that is the last byte.
unfoldable pub canonical_text : Bytes → Option Bytes
canonical_text [] = none
canonical_text (c ∷ []) = if c == 0 then some [] else none
canonical_text (c ∷ d ∷ s) =
    if c == 0
    then none
    else elim (canonical_text (d ∷ s)) [ none ↦ none | some text ↦ some (c ∷ text) ]

abbrev pub is_some {ℓ} : {A : Type ℓ} → Option A → Bool
is_some none = false
is_some (some a) = true

abbrev pub is_session_text : Option Bytes → Bool
is_session_text none = false
is_session_text (some value) = length value == rpc_session_hex_length && all_ascii_hex value

-- `UINT64_C(1) << index`.
unfoldable pub shifted : ℕ → ℕ
shifted zero = 1
shifted (suc index) = 2 * shifted index

-- `a & b` and `a | b` of words of 64 bits.
unfoldable pub land64 : ℕ → ℕ → ℕ
land64 a b = bitwise ◌&&◌ 64 a b

unfoldable pub lor64 : ℕ → ℕ → ℕ
lor64 a b = bitwise ◌||◌ 64 a b

-- The loop over the policy: the first entry with the name.
unfoldable pub find_field : List Policy → Bytes → ℕ → Option (ℕ × Policy)
find_field [] name index = none
find_field (p ∷ ps) name index =
    let next = find_field ps name (suc index) in
    elim p.name [
      | none ↦ next
      | some wanted ↦ if same_text name wanted then some (index, p) else next
    ]

-- What the loop of `parse_exact` keeps.
pub record Parse : Type 0 where
  pub seen : ℕ
  pub session_seen : Bool
  pub parsed : List (Option Attribute)

-- How a walk over the attributes ends.
pub data Walk : Type 0 where
  out_of_fuel : Walk
  refused : Walk
  walked : Parse → Walk

unfoldable pub finish_parse : ℕ → Walk → Option (List (Option Attribute))
finish_parse required (walked state) =
    if land64 state.seen required == required then some state.parsed else none
finish_parse required _ = none

abbrev pub empty_slots : List Policy → List (Option Attribute)
empty_slots [] = []
empty_slots (p ∷ ps) = none ∷ empty_slots ps

module _ (lib : Libubox) where
  unfoldable pub attr_is_valid : Attribute → ℕ → Bool → Bool
  attr_is_valid attribute remaining name_required =
      if ltb remaining lib.attr_size
      then false
      else lib.check_attr_len attribute name_required remaining

  unfoldable pub string_is_canonical : Attribute → ℕ → Bool → Bool
  string_is_canonical attribute remaining name_required =
      if not (attr_is_valid attribute remaining name_required)
        || not (attribute.type == lib.type_string)
      then false
      else is_some (canonical_text attribute.bytes)

  unfoldable pub rpc_session_is_valid : Attribute → ℕ → Bool
  rpc_session_is_valid attribute remaining =
      if not (attr_is_valid attribute remaining true)
        || not (same_text attribute.name rpc_session_name)
        || not (attribute.type == lib.type_string)
        || not (string_is_canonical attribute remaining true)
      then false
      else is_session_text (canonical_text attribute.bytes)

  -- The loop of `message_is_empty`; it refuses a second attribute, so its fuel is 2.
  unfoldable pub empty_from : Message → ℕ → ℕ → ℕ → Bool → Bool
  empty_from message zero offset remaining session_seen = remaining == 0
  empty_from message (suc fuel) offset remaining session_seen =
      let attribute = message.attribute_at offset in
      let padded = attribute.padded in
      let next = empty_from message fuel (offset + padded) (remaining - padded) true in
      if remaining == 0
      then true
      else if not (attr_is_valid attribute remaining true)
          || session_seen
          || not (rpc_session_is_valid attribute remaining)
      then false
      else if ltb remaining padded
      then false
      else next

  unfoldable pub message_is_empty : Option Message → Bool
  message_is_empty none = true
  message_is_empty (some message) = empty_from message 2 0 message.data_len false

  -- The attribute is taken for the entry of the policy at the index.
  unfoldable pub take_field : Attribute → ℕ → Option (ℕ × Policy) → Parse → Option Parse
  take_field attribute remaining none state = none
  take_field attribute remaining (some (index, field)) state =
      if not (land64 state.seen (shifted index) == 0) || not (attribute.type == field.type)
      then none
      else if field.type == lib.type_string && not (string_is_canonical attribute remaining true)
      then none
      else some (record state {
        seen = lor64 state.seen (shifted index);
        parsed = set state.parsed index (some attribute);
      })

  -- One round of the loop, up to the label `next`.
  unfoldable pub take_attribute : List Policy → Attribute → ℕ → Parse → Option Parse
  take_attribute policy attribute remaining state =
      if not (attr_is_valid attribute remaining true)
      then none
      else if same_text attribute.name rpc_session_name
      then (if state.session_seen || not (rpc_session_is_valid attribute remaining)
          then none
          else some (record state { session_seen = true }))
      else take_field attribute remaining (find_field policy attribute.name 0) state

  unfoldable pub walk : Message → List Policy → ℕ → ℕ → ℕ → Parse → Walk
  walk message policy zero offset remaining state =
      if remaining == 0 then walked state else out_of_fuel
  walk message policy (suc fuel) offset remaining state =
      let attribute = message.attribute_at offset in
      let padded = attribute.padded in
      if remaining == 0
      then walked state
      else elim (take_attribute policy attribute remaining state) [
        | none ↦ refused
        | some next ↦
            if ltb remaining padded
            then refused
            else walk message policy fuel (offset + padded) (remaining - padded) next
      ]

  -- The result is `parsed` where the function returns true.
  unfoldable pub parse_exact : Option Message → List Policy → ℕ → Option (List (Option Attribute))
  parse_exact none policy required = none
  parse_exact (some message) policy required =
      if length policy == 0 || ltb request_policy_max (length policy)
      then none
      else finish_parse required (
          walk message policy message.data_len 0 message.data_len
            (record { seen = 0; session_seen = false; parsed = empty_slots policy }))
