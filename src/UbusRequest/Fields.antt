-- ===== src/UbusRequest/Fields.antt =====
-- The slots of a parsed request, through one attribute of it
-- (l850gl-mm-bridge/src/ubus_request.c).
use luci_app_l850gl_mm.UbusRequest.Session.{IsSession, canonical_text_iff}
use luci_app_l850gl_mm.Text.Laws.{Lacks}
use luci_app_l850gl_mm.Bits.{bit}
use luci_app_l850gl_mm.UbusRequest.{
  Libubox, find_field, Parse, string_is_canonical, Policy, Attribute, attr_is_valid, is_some,
  canonical_text, rpc_session_name,
}
use luci_app_l850gl_mm.Base.{
  ℕ, List, get_elem?, ◌+◌, length, ◌≡◌, Bytes, ◌∷◌, some, ◌<◌, get_or, ◌==◌, ◌++◌, suc, true, arith,
  none, ◌&&◌, [], not, zero, ◌⊎◌, false, Option-cases, inl, inr, Bool-cases, same_text,
  same_text_iff, ◌≢◌,
}

-- The attribute fits the entry of the policy.
pub record IsField (lib : Libubox) (field : Policy) (a : Attribute) : Type 0 where
  pub named : field.name ≡ some a.name
  pub typed : a.type ≡ field.type
  pub canonical :
      field.type ≡ lib.type_string → (text : Bytes) × (a.bytes ≡ text ++ 0 ∷ []) × Lacks 0 text

-- The slots hold what the mask says, each an attribute that fits its entry.
pub record IsParse (lib : Libubox) (policy : List Policy) (state : Parse) : Type 0 where
  pub size : length state.parsed ≡ length policy
  pub bits : (i : ℕ) → i < length policy → bit i state.seen ≡ is_some (get_or state.parsed i none)
  pub stored :
      (i : ℕ) (a : Attribute)
      → get_or state.parsed i none ≡ some a
      → (field : Policy) × (get_elem? policy i ≡ some field) × IsField lib field a

-- An attribute with the name has been taken: the session's, or that of the entry with the name.
abbrev pub Holds : List Policy → Parse → Bytes → Type 0
Holds policy state name =
    ((name ≡ rpc_session_name) × (state.session_seen ≡ true))
    ⊎ ((name ≢ rpc_session_name)
        × ((index : ℕ) × (field : Policy) × (find_field policy name 0 ≡ some (index, field))
            × (is_some (get_or state.parsed index none) ≡ true)))

-- What one attribute changes.
pub record IsStep (lib : Libubox) (policy : List Policy) (a : Attribute) (remaining : ℕ)
    (state next : Parse) : Type 0 where
  pub valid : attr_is_valid lib a remaining true ≡ true
  pub parse : IsParse lib policy next
  pub kept :
      (i : ℕ) (b : Attribute)
      → get_or state.parsed i none ≡ some b
      → get_or next.parsed i none ≡ some b
  pub from :
      (i : ℕ) (b : Attribute)
      → get_or next.parsed i none ≡ some b
      → (get_or state.parsed i none ≡ some b) ⊎ (b ≡ a)
  pub was_free : ¬ Holds policy state a.name
  pub holds : Holds policy next a.name
  pub holding : (name : Bytes) → Holds policy state name → Holds policy next name
  pub placed : IsSession lib a remaining ⊎ ((i : ℕ) × (get_or next.parsed i none ≡ some a))

-- The entry of the policy with the name, by an index that counts on from a start.
abbrev pub FieldAt : List Policy → Bytes → ℕ → ℕ → Policy → Type 0
FieldAt policy name start index field =
    (i : ℕ) × (index ≡ start + i) × (get_elem? policy i ≡ some field) × (field.name ≡ some name)

FieldAt-cons :
    (p : Policy) (ps : List Policy) (name : Bytes) (start index : ℕ) (field : Policy)
    → FieldAt ps name (suc start) index field
    → FieldAt (p ∷ ps) name start index field
FieldAt-cons p ps name start index field (i, e, at, n) = (suc i, omega (arith, e), at, n)

pub find_field-FieldAt :
    (policy : List Policy) (name : Bytes) (start index : ℕ) (field : Policy)
    → find_field policy name start ≡ some (index, field)
    → FieldAt policy name start index field
unfolding find_field
find_field-FieldAt [] name start index field h = cc
find_field-FieldAt (p ∷ ps) name start index field h =
    let later = find_field-FieldAt ps name (suc start) index field in
    let cons = FieldAt-cons p ps name start index field in
    elim (Option-cases p.name) [
      | inl e ↦ cons (later (ground (arith, h, e)))
      | inr (wanted, e) ↦ elim (Bool-cases (same_text name wanted)) [
        | inl t ↦ (
          0,
          ground (arith, h, e, t),
          ground (arith, h, e, t),
          ground (arith, h, e, t, same_text_iff name wanted),
        )
        | inr t ↦ cons (later (ground (arith, h, e, t)))
      ]
    ]

pub lt_of_get {ℓ} :
    {A : Type ℓ} (xs : List A) (i : ℕ) {x : A} → get_elem? xs i ≡ some x → i < length xs
lt_of_get [] i h = cc
lt_of_get (x ∷ xs) zero h = omega arith
lt_of_get (x ∷ xs) (suc i) h = omega (arith, lt_of_get xs i h)

pub IsField_of_take :
    (lib : Libubox) (a : Attribute) (remaining : ℕ) (field : Policy)
    → field.name ≡ some a.name
    → (a.type == field.type) ≡ true
    → (field.type == lib.type_string && not (string_is_canonical lib a remaining true)) ≡ false
    → IsField lib field a
unfolding string_is_canonical
IsField_of_take lib a remaining field named typed canonical = record {
  named = named;
  typed = ground (arith, typed);
  canonical = λ string. elim (Option-cases (canonical_text a.bytes)) [
    | inl e ↦ absurd (ground (arith, string, canonical, e))
    | inr (text, e) ↦
        let (whole, no_nul) = (canonical_text_iff a.bytes text).0 e in (text, whole, no_nul)
  ];
}
