-- ===== src/UbusRequest/Parsed.antt =====
-- One attribute of a request: what it changes (l850gl-mm-bridge/src/ubus_request.c).
use luci_app_l850gl_mm.UbusRequest.Session.{rpc_session_is_valid_iff}
use luci_app_l850gl_mm.UbusRequest.Masks.{bit-lor64, land64-shifted}
use mathlib.Core.Path.{subst}
use luci_app_l850gl_mm.Bits.{bit}
use luci_app_l850gl_mm.UbusRequest.Fields.{
  IsParse, IsField, IsStep, find_field-FieldAt, lt_of_get, IsField_of_take, Holds,
}
use luci_app_l850gl_mm.UbusRequest.{
  Libubox, Parse, Attribute, lor64, is_some, Policy, shifted, take_attribute, take_field,
  attr_is_valid, find_field, land64, rpc_session_is_valid, rpc_session_name,
}
use native.Mathlib.Decide.{ℕ_discrete}
use luci_app_l850gl_mm.Base.{
  ℕ, Option, List, ◌≡◌, length, false, set, ◌≤◌, none, some, refl, ◌<◌, ◌≢◌, arith, get_elem?,
  get_or, get_or-set_self, ap, sym, get_or-set_ne, length-set, ◌∙◌, true, ◌==◌, inr, Bool-cases,
  same_text, inl, same_text_iff, ◌⊎◌, Bytes,
}

none_of : (o : Option Attribute) → is_some o ≡ false → o ≡ none
none_of none h = refl
none_of (some a) h = cc

abbrev filled : Parse → ℕ → Attribute → Parse
filled state index a = record state {
  seen = lor64 state.seen (shifted index);
  parsed = set state.parsed index (some a);
}

module _ (lib : Libubox) (policy : List Policy) (small : length policy ≤ 63) where
  module _ (state : Parse) (p : IsParse lib policy state) (index : ℕ) (a : Attribute)
      (below : index < length policy) (unset : bit index state.seen ≡ false) where
    empty_slot : get_or state.parsed index none ≡ none
    empty_slot = none_of (get_or state.parsed index none) (sym (p.bits index below) ∙ unset)

    in_slots : index < length state.parsed
    in_slots = omega (arith, p.size)

    filled_self : get_or (filled state index a).parsed index none ≡ some a
    filled_self = get_or-set_self state.parsed index (some a) none in_slots

    filled_ne :
        (i : ℕ)
        → index ≢ i
        → get_or (filled state index a).parsed i none ≡ get_or state.parsed i none
    filled_ne i n = get_or-set_ne state.parsed index i (some a) none n

    filled_kept :
        (i : ℕ) (b : Attribute)
        → get_or state.parsed i none ≡ some b
        → get_or (filled state index a).parsed i none ≡ some b
    filled_kept i b e = elim (ℕ_discrete index i) [
      | yes same ↦ absurd (ground (arith, empty_slot, e, ap (λ k. get_or state.parsed k none) same))
      | no n ↦ filled_ne i n ∙ e
    ]

    filled_from :
        (i : ℕ) (b : Attribute)
        → get_or (filled state index a).parsed i none ≡ some b
        → (get_or state.parsed i none ≡ some b) ⊎ (b ≡ a)
    filled_from i b e = elim (ℕ_discrete index i) [
      | yes same ↦
          let there : get_or (filled state index a).parsed index none ≡ some b =
            ap (λ k. get_or (filled state index a).parsed k none) same ∙ e in
          inr (ground (arith, filled_self, there))
      | no n ↦ inl (sym (filled_ne i n) ∙ e)
    ]

    filled_some :
        (i : ℕ)
        → is_some (get_or state.parsed i none) ≡ true
        → is_some (get_or (filled state index a).parsed i none) ≡ true
    filled_some i h = elim (ℕ_discrete index i) [
      | yes same ↦
          ap (λ k. is_some (get_or (filled state index a).parsed k none)) (sym same)
          ∙ ap is_some filled_self
      | no n ↦ ap is_some (filled_ne i n) ∙ h
    ]

    filled_free :
        (field : Policy)
        → find_field policy a.name 0 ≡ some (index, field)
        → a.name ≢ rpc_session_name
        → ¬ Holds policy state a.name
    filled_free field f plain (inl (session, seen)) = plain session
    filled_free field f plain (inr (other, (i, g, found, there))) =
        let same : i ≡ index = ground (arith, f, found) in
        ground
          (arith, ap is_some empty_slot, there, ap (λ k. is_some (get_or state.parsed k none)) same)

    filled_holding :
        (name : Bytes) → Holds policy state name → Holds policy (filled state index a) name
    filled_holding name (inl session) = inl session
    filled_holding name (inr (other, (i, g, found, there))) =
        inr (other, (i, g, found, filled_some i there))

    filled_bits :
        (i : ℕ)
        → i < length policy
        → bit i (filled state index a).seen ≡ is_some (get_or (filled state index a).parsed i none)
    filled_bits i l = elim (ℕ_discrete index i) [
      | yes same ↦
          subst
            (λ k.
              bit k (filled state index a).seen
              ≡ is_some (get_or (filled state index a).parsed k none))
            same
            (ground (arith, bit-lor64 state.seen index index (omega arith), ap is_some filled_self))
      | no n ↦ ground (
        arith,
        bit-lor64 state.seen index i (omega arith),
        p.bits i l,
        ap is_some (filled_ne i n),
        n,
      )
    ]

    filled-IsParse :
        (field : Policy)
        → get_elem? policy index ≡ some field
        → IsField lib field a
        → IsParse lib policy (filled state index a)
    filled-IsParse field at fits = record {
      size = length-set state.parsed index (some a) ∙ p.size;
      bits = filled_bits;
      stored = λ i b e. elim (ℕ_discrete index i) [
        | yes same ↦
            let there : get_or (filled state index a).parsed index none ≡ some b =
              ap (λ k. get_or (filled state index a).parsed k none) same ∙ e in
            let equal : a ≡ b = ground (arith, filled_self, there) in
            (field, ap (get_elem? policy) (sym same) ∙ at, subst (IsField lib field) equal fits)
        | no n ↦ p.stored i b (sym (filled_ne i n) ∙ e)
      ];
    }

  take_field-IsStep :
      (state next : Parse) (p : IsParse lib policy state) (a : Attribute) (remaining : ℕ)
      → attr_is_valid lib a remaining true ≡ true
      → a.name ≢ rpc_session_name
      → (found : Option (ℕ × Policy)) → find_field policy a.name 0 ≡ found
      → take_field lib a remaining found state ≡ some next
      → IsStep lib policy a remaining state next
  unfolding take_field
  take_field-IsStep state next p a remaining valid plain none f h = cc
  take_field-IsStep state next p a remaining valid plain (some (index, field)) f h =
      let (i, e, at, named) = find_field-FieldAt policy a.name 0 index field f in
      let at' : get_elem? policy index ≡ some field =
        ap (get_elem? policy) (omega (arith, e)) ∙ at in
      let below = lt_of_get policy index at' in
      let free : (land64 state.seen (shifted index) == 0) ≡ true = ground (arith, h) in
      let unset : bit index state.seen ≡ false =
        ground (arith, free, land64-shifted state.seen index (omega arith)) in
      let fits =
        IsField_of_take lib a remaining field named (ground (arith, h)) (ground (arith, h)) in
      let same : filled state index a ≡ next = ground (arith, h) in
      subst (IsStep lib policy a remaining state) same (record {
        valid = valid;
        parse = filled-IsParse state p index a below unset field at' fits;
        kept = filled_kept state p index a below unset;
        from = filled_from state p index a below unset;
        was_free = filled_free state p index a below unset field f plain;
        holds =
            inr (plain, (index, field, f, ap is_some (filled_self state p index a below unset)));
        holding = filled_holding state p index a below unset;
        placed = inr (index, filled_self state p index a below unset);
      })

  session-IsStep :
      (state : Parse) (p : IsParse lib policy state) (a : Attribute) (remaining : ℕ)
      → attr_is_valid lib a remaining true ≡ true
      → a.name ≡ rpc_session_name
      → state.session_seen ≡ false
      → rpc_session_is_valid lib a remaining ≡ true
      → IsStep lib policy a remaining state (record state { session_seen = true })
  session-IsStep state p a remaining valid named first session = record {
    valid = valid;
    parse = record { size = p.size; bits = p.bits; stored = p.stored };
    kept = λ i b e. e;
    from = λ i b e. inl e;
    was_free = λ h. elim h [
      | inl (named, seen) ↦ absurd (ground (arith, seen, first))
      | inr (other, rest) ↦ other named
    ];
    holds = inl (named, refl);
    holding =
        λ name h. elim h [ inl (session, seen) ↦ inl (session, refl) | inr field ↦ inr field ];
    placed = inl ((rpc_session_is_valid_iff lib a remaining).0 session);
  }

  pub take_attribute-IsStep :
      (state next : Parse) (p : IsParse lib policy state) (a : Attribute) (remaining : ℕ)
      → take_attribute lib policy a remaining state ≡ some next
      → IsStep lib policy a remaining state next
  unfolding take_attribute
  take_attribute-IsStep state next p a remaining h =
      let valid : attr_is_valid lib a remaining true ≡ true = ground (arith, h) in
      elim (Bool-cases (same_text a.name rpc_session_name)) [
        | inl t ↦
            let step =
              session-IsStep state p a remaining valid ((same_text_iff a.name rpc_session_name).0 t)
                (ground (arith, h, t)) (ground (arith, h, t)) in
            subst (IsStep lib policy a remaining state) (ground (arith, h, t)) step
        | inr t ↦
            take_field-IsStep state next p a remaining valid
              (λ e. ground (arith, (same_text_iff a.name rpc_session_name).1 e, t)) _ refl
              (ground (arith, h, valid, t))
      ]
