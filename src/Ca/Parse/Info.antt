-- ===== src/Ca/Parse/Info.antt =====
-- The carriers that an accepted answer lists.
use luci_app_l850gl_mm.Base.Result.{Result}
use luci_app_l850gl_mm.Base.{ℕ, suc, ◌≤◌, ◌<◌, true, false, List, [], ◌∷◌, ◌≡◌, ◌==◌, All}
use luci_app_l850gl_mm.Ca.Record.Valid.{InRange}
use luci_app_l850gl_mm.Ca.Parse.{CaSlot, slot_at, carriers_are_duplicate, has_duplicate}
use luci_app_l850gl_mm.Ca.{Carrier, CaInfo, max_slots}

-- A list of carriers taken from the slots from `low` up to `top`.
abbrev Taken : List CaSlot → ℕ → ℕ → List Carrier → Type 0
Taken slots top low [] = Unit
Taken slots top low (c ∷ cs) =
    (k : ℕ) × (low ≤ k)
    × (k < top)
    × ((slot_at slots k).seen ≡ true)
    × ((slot_at slots k).active ≡ true)
    × (c ≡ (slot_at slots k).carrier)
    × (has_duplicate slots c k ≡ false)
    × Taken slots top (suc k) cs

-- What the two passes guarantee of each carrier, next to the primary `p`.
pub record IsCarrier (p c : Carrier) : Type 0 where
  pub in_range : InRange c
  pub primary : c.primary ≡ (c.index == 1)
  pub uplink : c.uplink_active ≡ (c.index == 1)
  pub channel : c.ul_earfcn ≡ p.ul_earfcn

-- The carriers stand in the order of their numbers, from `low` to `top`, and none is like one that
-- stands before it.
abbrev pub Listed : Carrier → ℕ → ℕ → List Carrier → Type 0
Listed p low top [] = Unit
Listed p low top (c ∷ cs) =
    (low ≤ c.index)
    × (c.index ≤ top)
    × IsCarrier p c
    × All (λ d. carriers_are_duplicate d c ≡ false) cs
    × Listed p (suc c.index) top cs

-- An accepted result: the primary first, then the other active carriers.
pub record IsInfo (info : CaInfo) : Type 0 where
  pub primary : Carrier
  pub secondaries : List Carrier
  pub carriers : info.carriers ≡ primary ∷ secondaries
  pub first : primary.index ≡ 1
  pub slots : info.declared_slots ≤ max_slots
  pub listed : Listed primary 1 info.declared_slots info.carriers
