-- ===== src/Registry.antt =====
-- The registry of modems (l850gl-mm-bridge/src/bridge.c): the table of the admitted modems by their
-- object paths, their identities and their generations. The entries of the table are the admitted
-- modems that are live; those that have left it stay in the list, since operations may still hold
-- them. What is queried of a modem after its admission is not part of this state.
pub mod Fresh
pub mod Support
use luci_app_l850gl_mm.Base.{
  ℕ, zero, suc, ◌+◌, Bool, true, false, ◌&&◌, ◌||◌, List, [], ◌∷◌, Option, none, some, leb, ◌==◌,
  if◌then◌else◌, Bytes, same_text,
}
use luci_app_l850gl_mm.Number.{u32_max}

abbrev pub max_admitted_modems : ℕ
max_admitted_modems = 32

abbrev pub random_retries : ℕ
random_retries = 8

-- The fields of `L850GLModem` that its admission fixes, and `live`.
pub record Admitted : Type 0 where
  pub path : Bytes
  pub modem_id : Bytes
  pub generation : ℕ
  pub live : Bool

-- The modems ever admitted, the newest first.
pub record Registry : Type 0 where
  pub admitted : List Admitted
  pub next_generation : ℕ
  pub random_failed : Bool

-- A search of the table.
unfoldable pub any_live : (Admitted → Bool) → List Admitted → Bool
any_live test [] = false
any_live test (m ∷ ms) = m.live && test m || any_live test ms

-- `g_hash_table_size`.
abbrev pub live_count : List Admitted → ℕ
live_count [] = 0
live_count (m ∷ ms) = if m.live then 1 + live_count ms else live_count ms

abbrev pub has_path : Bytes → Admitted → Bool
has_path path m = same_text m.path path

abbrev pub has_id : Bytes → Admitted → Bool
has_id modem_id m = same_text m.modem_id modem_id

unfoldable pub modem_id_exists : List Admitted → Bytes → Bool
unfolding any_live
modem_id_exists ms modem_id = any_live (has_id modem_id) ms

-- The loop of `new_modem_id`: the answer of `l850gl_identity_generate` at each attempt, with the
-- attempts that are left.
unfoldable pub new_modem_id : List Admitted → (ℕ → Option Bytes) → ℕ → Option Bytes
unfolding modem_id_exists
new_modem_id ms generate zero = none
new_modem_id ms generate (suc left) =
    let again = new_modem_id ms generate left in
    elim (generate left) [
      | none ↦ none
      | some candidate ↦ if modem_id_exists ms candidate then again else some candidate
    ]

abbrev pub mark_removed : Admitted → Admitted
mark_removed m = record m { live = false }

-- The modems of the table that pass the test leave it.
unfoldable pub drop : (Admitted → Bool) → List Admitted → List Admitted
drop test [] = []
drop test (m ∷ ms) = (if test m then mark_removed m else m) ∷ drop test ms

unfoldable pub remove_path : Registry → Bytes → Registry
unfolding drop
remove_path b path = record b { admitted = drop (has_path path) b.admitted }

unfoldable pub clear_modems : Registry → Registry
unfolding drop
clear_modems b = record b { admitted = drop (λ m. true) b.admitted }

-- The end of `reconcile_object`.
unfoldable pub admit : Registry → Bytes → Option Bytes → Registry
admit b path none = record b { random_failed = true }
admit b path (some modem_id) =
    let generation = b.next_generation + 1 in
    record b {
      admitted =
          record { path = path; modem_id = modem_id; generation = generation; live = true }
          ∷ b.admitted;
      next_generation = generation;
    }

-- `is_exact` says whether the object is one of ModemManager with a modem that is exactly an
-- L850-GL.
unfoldable pub reconcile_object : Registry → Bytes → Bool → (ℕ → Option Bytes) → Registry
unfolding remove_path admit
reconcile_object b path is_exact generate =
    if is_exact
    then (if any_live (has_path path) b.admitted
          || leb max_admitted_modems (live_count b.admitted)
          || b.next_generation == u32_max
        then b
        else admit b path (new_modem_id b.admitted generate random_retries))
    else remove_path b path

-- What happens to the registry: an object is looked at, a path goes, the connection goes.
pub data Change : Type 0 where
  reconciled : Bytes → Bool → (ℕ → Option Bytes) → Change
  removed : Bytes → Change
  disconnected : Change

unfoldable pub change : Registry → Change → Registry
unfolding reconcile_object clear_modems
change b (reconciled path is_exact generate) = reconcile_object b path is_exact generate
change b (removed path) = remove_path b path
change b disconnected = clear_modems b

unfoldable pub changes : Registry → List Change → Registry
changes b [] = b
changes b (c ∷ cs) = changes (change b c) cs

abbrev pub no_modems : Registry
no_modems = record { admitted = []; next_generation = 0; random_failed = false }
