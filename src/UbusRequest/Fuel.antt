-- ===== src/UbusRequest/Fuel.antt =====
-- The walk over the attributes ends (l850gl-mm-bridge/src/ubus_request.c).
use luci_app_l850gl_mm.UbusRequest.{
  Libubox, Attribute, take_attribute, attr_is_valid, Policy, walk, Parse, Message, out_of_fuel,
}
use luci_app_l850gl_mm.Base.{
  ℕ, true, List, ◌≡◌, ◌≤◌, some, arith, ◌≢◌, suc, Option-cases, inl, inr, ◌+◌, ◌-◌, zero,
}

take_valid :
    (lib : Libubox) (policy : List Policy) (a : Attribute) (remaining : ℕ) (state : Parse)
    {next : Parse}
    → take_attribute lib policy a remaining state ≡ some next
    → lib.check_attr_len a true remaining ≡ true
unfolding take_attribute attr_is_valid
take_valid lib policy a remaining state h = ground (arith, h)

-- With as much fuel as there are bytes left, the walk over the attributes ends by itself, when
-- libubox accepts no attribute of no bytes.
pub walk-finishes :
    (lib : Libubox) (message : Message) (policy : List Policy) (fuel offset remaining : ℕ)
    (state : Parse)
    → ((a : Attribute) (left : ℕ) → lib.check_attr_len a true left ≡ true → 1 ≤ a.padded)
    → remaining ≤ fuel
    → walk lib message policy fuel offset remaining state ≢ out_of_fuel
unfolding walk
walk-finishes lib message policy zero offset remaining state moves l h = ground (arith, h)
walk-finishes lib message policy (suc fuel) offset remaining state moves l h =
    let a = message.attribute_at offset in
    elim (Option-cases (take_attribute lib policy a remaining state)) [
      | inl e ↦ ground (arith, h, e)
      | inr (next, e) ↦
          let positive = moves a remaining (take_valid lib policy a remaining state e) in
          walk-finishes lib message policy fuel (offset + a.padded) (remaining - a.padded) next
            moves (omega (arith, positive)) (ground (arith, h, e))
    ]
