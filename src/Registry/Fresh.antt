-- ===== src/Registry/Fresh.antt =====
-- What holds of the registry of modems (l850gl-mm-bridge/src/bridge.c) after any changes.
use mathlib.Core.Path.{subst}
use luci_app_l850gl_mm.Base.{
  ◌==◌, ◌||◌, ℕ, suc, ◌+◌, ◌≤◌, ◌<◌, Bool, true, false, List, [], ◌∷◌, Option, none, some, ◌≡◌,
  refl, leb, Bytes, arith, Bool-cases, inl, inr, if_holds, zero, Option-cases,
}
use luci_app_l850gl_mm.Number.{u32_max}
use luci_app_l850gl_mm.Registry.{
  max_admitted_modems, Admitted, Registry, any_live, live_count, has_path, modem_id_exists,
  new_modem_id, drop, remove_path, clear_modems, admit, reconcile_object, Change, reconciled,
  removed, disconnected, change, changes, no_modems, random_retries,
}

-- The generations fall from the newest modem to the oldest, below a bound.
abbrev pub Falling : ℕ → List Admitted → Type 0
Falling bound [] = Unit {0}
Falling bound (m ∷ ms) = (1 ≤ m.generation) × (m.generation < bound) × Falling m.generation ms

-- No live modem shares its path or its identity with an older live one.
abbrev pub DistinctLive : List Admitted → Type 0
DistinctLive [] = Unit {0}
DistinctLive (m ∷ ms) =
    (m.live ≡ true
      → (any_live (has_path m.path) ms ≡ false) × (modem_id_exists ms m.modem_id ≡ false))
    × DistinctLive ms

pub record IsRegistry (b : Registry) : Type 0 where
  pub falling : Falling (b.next_generation + 1) b.admitted
  pub distinct : DistinctLive b.admitted
  pub bounded : live_count b.admitted ≤ max_admitted_modems
  pub in_range : b.next_generation ≤ u32_max

any_live-drop :
    (wanted test : Admitted → Bool) (ms : List Admitted)
    → any_live wanted ms ≡ false
    → any_live wanted (drop test ms) ≡ false
unfolding any_live drop
any_live-drop wanted test [] h = refl
any_live-drop wanted test (m ∷ ms) h =
    let rest : any_live wanted (drop test ms) ≡ false =
      any_live-drop wanted test ms (ground (arith, h)) in
    elim (Bool-cases (test m)) [ inl t ↦ rw t rest | inr t ↦ rw t (ground (arith, h, rest)) ]

live_count-drop :
    (test : Admitted → Bool) (ms : List Admitted) → live_count (drop test ms) ≤ live_count ms
unfolding drop
live_count-drop test [] = omega arith
live_count-drop test (m ∷ ms) = ground (arith, live_count-drop test ms)

drop-Falling :
    (test : Admitted → Bool) (bound : ℕ) (ms : List Admitted)
    → Falling bound ms
    → Falling bound (drop test ms)
unfolding drop
drop-Falling test bound [] h = tt
drop-Falling test bound (m ∷ ms) (least, below, h) =
    let rest = drop-Falling test m.generation ms h in
    elim (Bool-cases (test m)) [
      | inl t ↦ rw t (least, below, rest)
      | inr t ↦ rw t (least, below, rest)
    ]

drop-DistinctLive :
    (test : Admitted → Bool) (ms : List Admitted) → DistinctLive ms → DistinctLive (drop test ms)
unfolding drop modem_id_exists
drop-DistinctLive test [] h = tt
drop-DistinctLive test (m ∷ ms) (own, h) =
    let rest = drop-DistinctLive test ms h in
    elim (Bool-cases (test m)) [
      | inl t ↦ rw t (λ live. absurd (ground arith), rest)
      | inr t ↦ rw t (
        λ live. let (p, i) = own live in (any_live-drop _ test ms p, any_live-drop _ test ms i),
        rest,
      )
    ]

drop-IsRegistry :
    (b : Registry) (test : Admitted → Bool)
    → IsRegistry b
    → IsRegistry (record b { admitted = drop test b.admitted })
drop-IsRegistry b test i = record {
  falling = drop-Falling test (b.next_generation + 1) b.admitted i.falling;
  distinct = drop-DistinctLive test b.admitted i.distinct;
  bounded = omega (arith, live_count-drop test b.admitted, i.bounded);
  in_range = i.in_range;
}

new_modem_id-fresh :
    (ms : List Admitted) (generate : ℕ → Option Bytes) (left : ℕ) {modem_id : Bytes}
    → new_modem_id ms generate left ≡ some modem_id
    → modem_id_exists ms modem_id ≡ false
unfolding new_modem_id
new_modem_id-fresh ms generate zero h = absurd (ground arith)
new_modem_id-fresh ms generate (suc left) {modem_id} h = elim (Option-cases (generate left)) [
  | inl e ↦ absurd (ground (arith, h, e))
  | inr (candidate, e) ↦ elim (Bool-cases (modem_id_exists ms candidate)) [
    | inl t ↦
        let on : new_modem_id ms generate left ≡ some modem_id = ground (arith, h, e, t) in
        new_modem_id-fresh ms generate left on
    | inr t ↦
        let same : candidate ≡ modem_id = ground (arith, h, e, t) in
        subst (λ c. modem_id_exists ms c ≡ false) same t
  ]
]

admit-IsRegistry :
    (b : Registry) (path : Bytes) (modem_id : Option Bytes)
    → IsRegistry b
    → any_live (has_path path) b.admitted ≡ false
    → live_count b.admitted < max_admitted_modems
    → b.next_generation < u32_max
    → ((i : Bytes) → modem_id ≡ some i → modem_id_exists b.admitted i ≡ false)
    → IsRegistry (admit b path modem_id)
unfolding admit
admit-IsRegistry b path none i absent room below fresh = record {
  falling = i.falling;
  distinct = i.distinct;
  bounded = i.bounded;
  in_range = i.in_range;
}
admit-IsRegistry b path (some modem_id) i absent room below fresh = record {
  falling = (omega arith, omega arith, i.falling);
  distinct = (λ live. (absent, fresh modem_id refl), i.distinct);
  bounded = omega (arith, room);
  in_range = omega (arith, below);
}

reconcile_object-IsRegistry :
    (b : Registry) (path : Bytes) (is_exact : Bool) (generate : ℕ → Option Bytes)
    → IsRegistry b
    → IsRegistry (reconcile_object b path is_exact generate)
unfolding reconcile_object remove_path
reconcile_object-IsRegistry b path false generate i = drop-IsRegistry b (has_path path) i
reconcile_object-IsRegistry b path true generate i =
    if_holds IsRegistry
      (any_live (has_path path) b.admitted
        || leb max_admitted_modems (live_count b.admitted)
        || b.next_generation == u32_max)
      (λ h. i)
      (λ h.
        admit-IsRegistry b path _ i (ground (arith, h)) (ground (arith, h))
          (ground (arith, h, i.in_range))
          (λ modem_id e. new_modem_id-fresh b.admitted generate random_retries e))

change-IsRegistry : (b : Registry) (c : Change) → IsRegistry b → IsRegistry (change b c)
unfolding change clear_modems remove_path
change-IsRegistry b (reconciled path is_exact generate) i =
    reconcile_object-IsRegistry b path is_exact generate i
change-IsRegistry b (removed path) i = drop-IsRegistry b (has_path path) i
change-IsRegistry b disconnected i = drop-IsRegistry b (λ m. true) i

-- What IsRegistry says holds of the registry after any changes, if it holds before them, as it does
-- of the empty registry: the generations of the modems ever admitted fall strictly from the newest
-- to the oldest, so that none is used twice and none wraps around; no two live modems share a path
-- or an identity; and at most 32 are live.
pub changes-IsRegistry :
    (b : Registry) (cs : List Change) → IsRegistry b → IsRegistry (changes b cs)
unfolding changes
changes-IsRegistry b [] i = i
changes-IsRegistry b (c ∷ cs) i = changes-IsRegistry (change b c) cs (change-IsRegistry b c i)

pub no_modems-IsRegistry : IsRegistry no_modems
no_modems-IsRegistry = record {
  falling = tt;
  distinct = tt;
  bounded = omega arith;
  in_range = omega arith;
}
