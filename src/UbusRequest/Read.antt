-- ===== src/UbusRequest/Read.antt =====
-- What a parsed request is (l850gl-mm-bridge/src/ubus_request.c).
use luci_app_l850gl_mm.UbusRequest.Parsed.{take_attribute-IsStep}
use luci_app_l850gl_mm.Bits.{bit}
use mathlib.Core.List.{Memᴰ}
use mathlib.Core.Path.{subst, subst⁻¹}
use luci_app_l850gl_mm.UbusRequest.Masks.{bit-zero, required_bit}
use luci_app_l850gl_mm.UbusRequest.Session.{IsSession}
use luci_app_l850gl_mm.UbusRequest.Fields.{IsParse, IsStep, IsField, Holds}
use luci_app_l850gl_mm.UbusRequest.{
  Libubox, Message, Parse, Policy, parse_exact, Attribute, empty_slots, walk, walked, attr_is_valid,
  is_some, take_attribute, land64, finish_parse, Walk, out_of_fuel, refused,
}
use luci_app_l850gl_mm.Base.{
  ℕ, List, get_or, Option, length, false, [], ◌≡◌, some, ◌≤◌, none, ◌+◌, ◌⊎◌, ◌∙◌, ◌∷◌, ◌<◌, All,
  arith, refl, ap, sym, suc, get_elem?, true, zero, ◌-◌, inl, inr, Option-cases, ◌≢◌, Bytes,
}

-- The attributes that fill the rest of the data, each one valid where it stands.
pub data Laid (lib : Libubox) (message : Message) : ℕ → ℕ → List Attribute → Type 0 where
  laid_end : (offset : ℕ) → Laid lib message offset 0 []
  laid_next :
      (offset remaining : ℕ) (rest : List Attribute)
      → 0 < remaining
      → attr_is_valid lib (message.attribute_at offset) remaining true ≡ true
      → (message.attribute_at offset).padded ≤ remaining
      → Laid lib message
          (offset + (message.attribute_at offset).padded)
          (remaining - (message.attribute_at offset).padded)
          rest
      → Laid lib message offset remaining (message.attribute_at offset ∷ rest)

-- The attribute is the session's, or it stands in a slot.
abbrev pub IsPlaced : Libubox → List (Option Attribute) → Attribute → Type 0
IsPlaced lib slots a =
    ((remaining : ℕ) × IsSession lib a remaining) ⊎ ((i : ℕ) × (get_or slots i none ≡ some a))

-- No two attributes have the same name.
abbrev pub DistinctNames : List Attribute → Type 0
DistinctNames [] = Unit
DistinctNames (a ∷ attributes) =
    All (λ (b : Attribute). b.name ≢ a.name) attributes × DistinctNames attributes

-- What a walk from a state to another one has read.
pub record IsRead (lib : Libubox) (message : Message) (policy : List Policy) (offset remaining : ℕ)
    (state last : Parse) : Type 0 where
  pub attributes : List Attribute
  pub laid : Laid lib message offset remaining attributes
  pub parse : IsParse lib policy last
  pub from :
      (i : ℕ) (b : Attribute)
      → get_or last.parsed i none ≡ some b
      → (get_or state.parsed i none ≡ some b) ⊎ Memᴰ b attributes
  pub distinct : DistinctNames attributes
  pub apart :
      (name : Bytes) → Holds policy state name → All (λ (b : Attribute). b.name ≢ name) attributes
  pub kept :
      (i : ℕ) (b : Attribute)
      → get_or state.parsed i none ≡ some b
      → get_or last.parsed i none ≡ some b
  pub placed : All (IsPlaced lib last.parsed) attributes

module _ (lib : Libubox) (message : Message) (policy : List Policy)
    (small : length policy ≤ 63) where
  nothing-IsRead :
      (offset : ℕ) (state : Parse) (p : IsParse lib policy state)
      → IsRead lib message policy offset 0 state state
  nothing-IsRead offset state p = record {
    attributes = [];
    laid = laid_end offset;
    parse = p;
    from = λ i b e. inl e;
    distinct = tt;
    apart = λ name h. tt;
    kept = λ i b e. e;
    placed = tt;
  }

  more-IsRead :
      (offset remaining : ℕ) (state next last : Parse)
      → let a = message.attribute_at offset in
        0 < remaining
        → a.padded ≤ remaining
        → IsStep lib policy a remaining state next
        → IsRead lib message policy (offset + a.padded) (remaining - a.padded) next last
        → IsRead lib message policy offset remaining state last
  more-IsRead offset remaining state next last some_left fits step rest = record {
    attributes = message.attribute_at offset ∷ rest.attributes;
    laid = laid_next offset remaining rest.attributes some_left step.valid fits rest.laid;
    parse = rest.parse;
    from = λ i b e. elim (rest.from i b e) [
      | inr m ↦ inr (Memᴰ.tail m)
      | inl f ↦ elim (step.from i b f) [ inl old ↦ inl old | inr same ↦ inr (Memᴰ.head same) ]
    ];
    distinct = (rest.apart (message.attribute_at offset).name step.holds, rest.distinct);
    apart = λ name h. (
      λ e. step.was_free (subst⁻¹ (Holds policy state) e h),
      rest.apart name (step.holding name h),
    );
    kept = λ i b e. rest.kept i b (step.kept i b e);
    placed = (later step.placed, rest.placed);
  }
    where
      later :
          IsSession lib (message.attribute_at offset) remaining
            ⊎ ((i : ℕ) × (get_or next.parsed i none ≡ some (message.attribute_at offset)))
          → IsPlaced lib last.parsed (message.attribute_at offset)
      later (inl session) = inl (remaining, session)
      later (inr (i, e)) = inr (i, rest.kept i _ e)

  walk-IsRead :
      (fuel offset remaining : ℕ) (state last : Parse) (p : IsParse lib policy state)
      → walk lib message policy fuel offset remaining state ≡ walked last
      → IsRead lib message policy offset remaining state last
  unfolding walk
  walk-IsRead zero offset zero state last p h =
      subst (IsRead lib message policy offset 0 state) (ground (arith, h))
        (nothing-IsRead offset state p)
  walk-IsRead zero offset (suc r) state last p h = absurd (ground (arith, h))
  walk-IsRead (suc fuel) offset zero state last p h =
      subst (IsRead lib message policy offset 0 state) (ground (arith, h))
        (nothing-IsRead offset state p)
  walk-IsRead (suc fuel) offset (suc r) state last p h =
      let a = message.attribute_at offset in
      elim (Option-cases (take_attribute lib policy a (suc r) state)) [
        | inl e ↦ absurd (ground (arith, h, e))
        | inr (next, e) ↦
            let step = take_attribute-IsStep lib policy small state next p a (suc r) e in
            more-IsRead offset (suc r) state next last (omega arith) (ground (arith, h, e)) step (
              walk-IsRead fuel (offset + a.padded) (suc r - a.padded) next last step.parse
                (ground (arith, h, e)))
      ]

-- A request that the policy accepts: its data is a sequence of valid attributes with different
-- names, each of them a session or the one in a slot; each filled slot holds one of them, with the
-- name and the type of its entry, and each required slot is filled.
pub record IsRequest (lib : Libubox) (message : Message) (policy : List Policy) (required : ℕ)
    (parsed : List (Option Attribute)) : Type 0 where
  pub attributes : List Attribute
  pub laid : Laid lib message 0 message.data_len attributes
  pub distinct : DistinctNames attributes
  pub placed : All (IsPlaced lib parsed) attributes
  pub given : (i : ℕ) (a : Attribute) → get_or parsed i none ≡ some a → Memᴰ a attributes
  pub size : length parsed ≡ length policy
  pub stored :
      (i : ℕ) (a : Attribute)
      → get_or parsed i none ≡ some a
      → (field : Policy) × (get_elem? policy i ≡ some field) × IsField lib field a
  pub present :
      (i : ℕ) → i < length policy → bit i required ≡ true → is_some (get_or parsed i none) ≡ true

abbrev pub no_fields : List Policy → Parse
no_fields policy = record { seen = 0; session_seen = false; parsed = empty_slots policy }

module _ (lib : Libubox) where
  empty_at : (policy : List Policy) (i : ℕ) → get_or (empty_slots policy) i none ≡ none
  empty_at [] i = refl
  empty_at (f ∷ policy) zero = refl
  empty_at (f ∷ policy) (suc i) = empty_at policy i

  empty_length : (policy : List Policy) → length (empty_slots policy) ≡ length policy
  empty_length [] = refl
  empty_length (f ∷ policy) = ap suc (empty_length policy)

  no_fields-IsParse : (policy : List Policy) → IsParse lib policy (no_fields policy)
  no_fields-IsParse policy = record {
    size = empty_length policy;
    bits = λ i l. bit-zero i ∙ sym (ap is_some (empty_at policy i));
    stored = λ i a e. absurd (ground (arith, empty_at policy i, e));
  }

finish_parse-walked :
    (required : ℕ) (walk : Walk) {parsed : List (Option Attribute)}
    → finish_parse required walk ≡ some parsed
    → (last : Parse) × (walk ≡ walked last)
      × (land64 last.seen required ≡ required)
      × (last.parsed ≡ parsed)
unfolding finish_parse
finish_parse-walked required out_of_fuel h = cc
finish_parse-walked required refused h = cc
finish_parse-walked required (walked last) h = (last, refl, ground (arith, h), ground (arith, h))

read-IsRequest :
    (lib : Libubox) (message : Message) (policy : List Policy) (required : ℕ) (last : Parse)
    → length policy ≤ 63
    → IsRead lib message policy 0 message.data_len (no_fields policy) last
    → land64 last.seen required ≡ required
    → IsRequest lib message policy required last.parsed
read-IsRequest lib message policy required last small read all_seen = record {
  attributes = read.attributes;
  laid = read.laid;
  placed = read.placed;
  distinct = read.distinct;
  given = λ i a e. elim (read.from i a e) [
    | inr m ↦ m
    | inl old ↦ absurd (ground (arith, empty_at lib policy i, old))
  ];
  size = read.parse.size;
  stored = read.parse.stored;
  present = λ i l b.
      sym (read.parse.bits i l) ∙ required_bit last.seen required i (omega arith) all_seen b;
}

-- A request that `parse_exact` accepts consists of valid attributes that fill its data one behind
-- the other and have different names, so that none is repeated. Each is a valid rpc session or stands
-- in a slot, so that none is unknown; each filled slot holds one of them, with the name and the type
-- of its policy entry, a string without an inner NUL where the type says so; and every slot of the
-- required mask is filled.
pub parse_exact-IsRequest :
    (lib : Libubox) (message : Message) (policy : List Policy) (required : ℕ)
    {parsed : List (Option Attribute)}
    → parse_exact lib (some message) policy required ≡ some parsed
    → IsRequest lib message policy required parsed
unfolding parse_exact
parse_exact-IsRequest lib message policy required {parsed} h =
    let start = walk lib message policy message.data_len 0 message.data_len (no_fields policy) in
    let done : finish_parse required start ≡ some parsed = ground (arith, h) in
    let (last, e, all_seen, same) = finish_parse-walked required start done in
    let small : length policy ≤ 63 = ground (arith, h) in
    let read =
      walk-IsRead lib message policy small message.data_len 0 message.data_len (no_fields policy)
        last (no_fields-IsParse lib policy) e in
    subst (IsRequest lib message policy required) same
      (read-IsRequest lib message policy required last small read all_seen)
