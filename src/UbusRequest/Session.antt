-- ===== src/UbusRequest/Session.antt =====
-- The attribute of the rpc session, and the requests that have no other
-- (l850gl-mm-bridge/src/ubus_request.c).
use luci_app_l850gl_mm.Text.Laws.{Lacks}
use luci_app_l850gl_mm.UbusRequest.{
  Libubox, canonical_text, message_is_empty, Attribute, rpc_session_is_valid, string_is_canonical,
  empty_from, Message, attr_is_valid, all_ascii_hex,
}
use luci_app_l850gl_mm.Base.{
  ℕ, ◌++◌, Bytes, ◌≤◌, ◌≡◌, ◌∷◌, some, true, arith, Option-cases, ◌↔◌, codes, same_text_iff, ◌⊎◌,
  [], inl, inr, ◌<◌, length,
}

pub canonical_text_iff :
    (bytes text : Bytes)
    → (canonical_text bytes ≡ some text) ↔ ((bytes ≡ text ++ 0 ∷ []) × Lacks 0 text)
unfolding canonical_text
canonical_text_iff [] [] = ground arith
canonical_text_iff [] (x ∷ text) = ground arith
canonical_text_iff (c ∷ []) [] = ground arith
canonical_text_iff (c ∷ []) (x ∷ []) = ground arith
canonical_text_iff (c ∷ []) (x ∷ y ∷ text) = ground arith
canonical_text_iff (c ∷ d ∷ s) [] = ground arith
canonical_text_iff (c ∷ d ∷ s) (x ∷ text) = ground (arith, canonical_text_iff (d ∷ s) text)

-- The attribute of an rpc session: a canonical string of 32 hexadecimal digits under its name.
pub record IsSession (lib : Libubox) (attribute : Attribute) (remaining : ℕ) : Type 0 where
  pub fits : lib.attr_size ≤ remaining
  pub checked : lib.check_attr_len attribute true remaining ≡ true
  pub named : attribute.name ≡ codes "ubus_rpc_session"
  pub typed : attribute.type ≡ lib.type_string
  pub text : Bytes
  pub canonical : attribute.bytes ≡ text ++ 0 ∷ []
  pub no_nul : Lacks 0 text
  pub digits : length text ≡ 32
  pub hex : all_ascii_hex text ≡ true

rpc_session_is_valid-IsSession :
    (lib : Libubox) (attribute : Attribute) (remaining : ℕ)
    → rpc_session_is_valid lib attribute remaining ≡ true
    → IsSession lib attribute remaining
unfolding rpc_session_is_valid string_is_canonical attr_is_valid
rpc_session_is_valid-IsSession lib a remaining h = elim (Option-cases (canonical_text a.bytes)) [
  | inl e ↦ absurd (ground (arith, h, e))
  | inr (text, e) ↦
      let (whole, no_nul) = (canonical_text_iff a.bytes text).0 e in
      record {
        fits = ground (arith, h);
        checked = ground (arith, h);
        named = (same_text_iff a.name (codes "ubus_rpc_session")).0 (ground (arith, h));
        typed = ground (arith, h);
        text = text;
        canonical = whole;
        no_nul = no_nul;
        digits = ground (arith, h, e);
        hex = ground (arith, h, e);
      }
]

IsSession-rpc_session_is_valid :
    (lib : Libubox) (attribute : Attribute) (remaining : ℕ)
    → IsSession lib attribute remaining
    → rpc_session_is_valid lib attribute remaining ≡ true
unfolding rpc_session_is_valid string_is_canonical attr_is_valid
IsSession-rpc_session_is_valid lib a remaining s = ground (
  arith,
  s.fits,
  s.checked,
  s.typed,
  s.digits,
  s.hex,
  (same_text_iff a.name (codes "ubus_rpc_session")).1 s.named,
  (canonical_text_iff a.bytes s.text).1 (s.canonical, s.no_nul),
)

pub rpc_session_is_valid_iff :
    (lib : Libubox) (attribute : Attribute) (remaining : ℕ)
    → (rpc_session_is_valid lib attribute remaining ≡ true) ↔ IsSession lib attribute remaining
rpc_session_is_valid_iff lib a remaining =
    (rpc_session_is_valid-IsSession lib a remaining, IsSession-rpc_session_is_valid lib a remaining)

session_valid :
    (lib : Libubox) (attribute : Attribute) (remaining : ℕ)
    → rpc_session_is_valid lib attribute remaining ≡ true
    → attr_is_valid lib attribute remaining true ≡ true
unfolding rpc_session_is_valid
session_valid lib a remaining h = ground (arith, h)

-- A request counts as one without arguments exactly when it has no data, or when its data is one
-- attribute that fills it and is the rpc session.
pub message_is_empty_exact :
    (lib : Libubox) (message : Message)
    → let first = message.attribute_at 0 in
      (message_is_empty lib (some message) ≡ true) ↔ (
        (message.data_len ≡ 0)
        ⊎ ((0 < message.data_len)
            × (first.padded ≡ message.data_len)
            × IsSession lib first message.data_len))
unfolding message_is_empty empty_from
message_is_empty_exact lib message =
    let first = message.attribute_at 0 in
    ground (
      arith,
      rpc_session_is_valid_iff lib first message.data_len,
      session_valid lib first message.data_len,
    )
