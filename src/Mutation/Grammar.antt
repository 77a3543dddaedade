-- ===== src/Mutation/Grammar.antt =====
-- The conversation that a mutation of l850gl-mm-bridge/src/ubus_glib.c may have with the modems,
-- written down without its handlers: which command may follow which answer. The parser of the lock
-- state is asked with the result of `malloc` as it was.
use mathlib.Core.List.{Memᴰ}
use luci_app_l850gl_mm.Base.{
  ℕ, ◌≢◌, Bool, true, false, List, [], ◌∷◌, Option, none, some, ◌≡◌, Bytes,
}
use luci_app_l850gl_mm.CellLock.Command.{
  clear_command, reset_command, scan_command, nvm_query_command, set_response_is_success,
  lock_state_matches,
}
use luci_app_l850gl_mm.CellLock.Nvm.{nvm_parse}
use luci_app_l850gl_mm.CellLock.Scan.{cell_parse}
use luci_app_l850gl_mm.CellLock.{Cell, CellScan, LockState, cleared_state, parse_ok}
use luci_app_l850gl_mm.Mutation.{
  MutationType, mutation_set, mutation_clear, Request, Entry, asked, answered,
}
use luci_app_l850gl_mm.Service.{GError}

-- How far the conversation has come. The numbers count the matching reads in a row before the
-- reset; the modem after the reset is an address.
pub data Point : Type 0 where
  probing setting : Point
  checking paused : ℕ → Point
  restarting awaiting : Point
  registering confirming repeating measuring : ℕ → Point
  verified : ℕ → Point

-- The change that the request asks the modem for.
abbrev pub change_command : Request → Bytes
change_command request = elim request.type [
  | mutation_clear ↦ clear_command
  | mutation_set ↦ request.set_command
]

abbrev pub clears : MutationType → Bool
clears mutation_clear = true
clears mutation_set = false

-- An answer that holds the lock state.
abbrev pub Reads : Bytes → LockState → Type 0
Reads text state =
    (allocated : Bool) × (nvm_parse allocated (some text) cleared_state ≡ (parse_ok, state))

-- Whether a lock state is what the request asks for.
abbrev pub fits : Request → LockState → Bool
fits request state =
    lock_state_matches (some state) (clears request.type) request.earfcn request.has_pci request.pci

-- An answer that holds a scan with the wanted cell as its serving cell.
abbrev pub Measures : Request → Bytes → Type 0
Measures request text =
    (allocated : Bool) × (cells : CellScan) × (c : Cell) × (cell_parse allocated (some text) []
      ≡ (parse_ok, cells))
    × Memᴰ c cells
    × (c.serving ≡ true)
    × (c.earfcn ≡ request.earfcn)
    × (request.has_pci ≡ true → c.pci ≡ request.pci)

-- The conversations of a request that have come to a point, the newest exchange first.
pub data Talk (request : Request) : Point → List Entry → Type 0 where
  begun : Talk request probing (asked request.original nvm_query_command 5 ∷ [])
  changed :
      {talk : List Entry} {source : ℕ} {text : Bytes} {state : LockState}
      → Talk request probing talk
      → Reads text state
      → Talk request setting (
          asked request.original (change_command request) 30
          ∷ answered source (some text) none
          ∷ talk)
  accepted :
      {talk : List Entry} {source : ℕ} {text : Bytes}
      → Talk request setting talk
      → set_response_is_success (some text) ≡ true
      → Talk request
          (checking 0)
          (asked request.original nvm_query_command 5 ∷ answered source (some text) none ∷ talk)
  counted :
      {talk : List Entry} {source : ℕ} {text : Bytes} {state : LockState}
      → Talk request (checking 0) talk
      → Reads text state
      → fits request state ≡ true
      → Talk request (paused 1) (answered source (some text) none ∷ talk)
  missed :
      {talk : List Entry} {n source : ℕ} {text : Bytes} {state : LockState}
      → Talk request (checking n) talk
      → Reads text state
      → fits request state ≡ false
      → Talk request (paused 0) (answered source (some text) none ∷ talk)
  checked_again :
      {talk : List Entry} {n : ℕ}
      → Talk request (paused n) talk
      → Talk request (checking n) (asked request.original nvm_query_command 5 ∷ talk)
  restarted :
      {talk : List Entry} {source : ℕ} {text : Bytes} {state : LockState}
      → Talk request (checking 1) talk
      → Reads text state
      → fits request state ≡ true
      → Talk request restarting
          (asked request.original reset_command 30 ∷ answered source (some text) none ∷ talk)
  gone :
      {talk : List Entry} {source : ℕ} {response : Option Bytes} {error : Option GError}
      → Talk request restarting talk
      → Talk request awaiting (answered source response error ∷ talk)
  back :
      {talk : List Entry} {address : ℕ}
      → Talk request awaiting talk
      → address ≢ request.original
      → Talk request (registering address) talk
  confirmed :
      {talk : List Entry} {address : ℕ}
      → Talk request (registering address) talk
      → Talk request (confirming address) (asked address nvm_query_command 5 ∷ talk)
  differed :
      {talk : List Entry} {address source : ℕ} {text : Bytes} {state : LockState}
      → Talk request (confirming address) talk
      → Reads text state
      → fits request state ≡ false
      → Talk request (repeating address) (answered source (some text) none ∷ talk)
  confirmed_again :
      {talk : List Entry} {address : ℕ}
      → Talk request (repeating address) talk
      → Talk request (confirming address) (asked address nvm_query_command 5 ∷ talk)
  cleared :
      {talk : List Entry} {address source : ℕ} {text : Bytes} {state : LockState}
      → request.type ≡ mutation_clear
      → Talk request (confirming address) talk
      → Reads text state
      → fits request state ≡ true
      → Talk request (verified address) (answered source (some text) none ∷ talk)
  scanned :
      {talk : List Entry} {address source : ℕ} {text : Bytes} {state : LockState}
      → request.type ≡ mutation_set
      → Talk request (confirming address) talk
      → Reads text state
      → fits request state ≡ true
      → Talk request
          (measuring address)
          (asked address scan_command 30 ∷ answered source (some text) none ∷ talk)
  measured :
      {talk : List Entry} {address source : ℕ} {text : Bytes}
      → Talk request (measuring address) talk
      → Measures request text
      → Talk request (verified address) (answered source (some text) none ∷ talk)
