-- ===== src/CellLock/Nvm/Fields.antt =====
-- Where the five values of an accepted answer come from.
use luci_app_l850gl_mm.CellLock.Nvm.State.{IsUnlocked, IsLocked, lock_state-cases}
use native.Mathlib.Decide.{ℕ_discrete}
use luci_app_l850gl_mm.Base.Result.{
  ◌>>=◌, ok, >>=-eq-ok, required-eq-ok, refuse_if-eq-ok, Result, err,
}
use luci_app_l850gl_mm.Base.{
  ℕ, ◌+◌, true, false, List, ◌∷◌, ◌≡◌, arith, Bytes, get_or, set, some, length, length-set, ◌⊎◌,
  count_true, inl, ◌∙◌, count_true-set, inr, [], ◌<◌, lt_of_unset, ap, get_or-set_self, sym,
  get_or-set_ne, refl, Bool, suc, all_set, zero,
}
use luci_app_l850gl_mm.CellLock.Nvm.{
  key_index, key_value, NvmState, nvm_current, nvm_lines, nvm_line, nvm_field_count, nvm_start,
  nvm_end, nvm_parse, NvmValues, Failure, LockState, lock_state, parse_ok, frequency, nvm_out,
  name_values, rat, psc_or_pci, band_info, inter_frequency,
}
use luci_app_l850gl_mm.CellLock.Scan.{clean}
use luci_app_l850gl_mm.Number.{parse_uint32}
use luci_app_l850gl_mm.Text.{split}

-- A line `key = number` whose key is the one with index `i`.
pub record IsField (line : Bytes) (i n : ℕ) : Type 0 where
  pub key : Bytes
  pub value : Bytes
  pub cut : key_value (split b'=' line) ≡ some (key, value)
  pub known : key_index key ≡ some i
  pub number : parse_uint32 value ≡ some n

-- One of the lines is such a field.
pub data Sourced (i n : ℕ) : List Bytes → Type 0 where
  here : {line : Bytes} {lines : List Bytes} → IsField (clean line) i n → Sourced i n (line ∷ lines)
  there : {line : Bytes} {lines : List Bytes} → Sourced i n lines → Sourced i n (line ∷ lines)

-- What a successful line does to the state.
record Stored (line : Bytes) (s t : NvmState) : Type 0 where
  index : ℕ
  stored : ℕ
  field_of : IsField line index stored
  fresh : get_or s.seen index true ≡ false
  next : t ≡ record {
    values = set s.values index stored;
    seen = set s.seen index true;
    parsed_count = s.parsed_count + 1;
  }

nvm_current-Stored : (line : Bytes) (s t : NvmState) → nvm_current line s ≡ ok t → Stored line s t
unfolding nvm_current
nvm_current-Stored line s t h =
    let ((key, value), cut, h₁) = >>=-eq-ok _ _ h in
    let (i, known, h₂) = >>=-eq-ok _ _ h₁ in
    let (_, fresh, h₃) = >>=-eq-ok _ _ h₂ in
    let (n, number, h₄) = >>=-eq-ok _ _ h₃ in
    record {
      index = i;
      stored = n;
      field_of = record {
        key = key;
        value = value;
        cut = required-eq-ok _ _ cut;
        known = required-eq-ok _ _ known;
        number = required-eq-ok _ _ number;
      };
      fresh = refuse_if-eq-ok _ _ fresh;
      next = ground arith;
    }

record Inv (s : NvmState) : Type 0 where
  flags : length s.seen ≡ nvm_field_count
  room : length s.values ≡ nvm_field_count
  counted : s.parsed_count ≡ count_true s.seen

start-Inv : Inv nvm_start
unfolding count_true
start-Inv = record { flags = refl; room = refl; counted = refl }

Stored-Inv : {line : Bytes} (s t : NvmState) → Stored line s t → Inv s → Inv t
Stored-Inv s t r i = rw r.next (record {
  flags = length-set s.seen r.index true ∙ i.flags;
  room = length-set s.values r.index r.stored ∙ i.room;
  counted = omega (arith, i.counted, count_true-set s.seen r.index r.fresh);
})

-- Every flag that the lines set has its value from one of these lines.
abbrev FromLines : NvmState → NvmState → List Bytes → ℕ → Type 0
FromLines s t lines i =
    (get_or s.seen i false ≡ true) × (get_or t.values i 0 ≡ get_or s.values i 0)
    ⊎ Sourced i (get_or t.values i 0) lines

nvm_line-cases :
    (line : Bytes) (s t : NvmState) → nvm_line line s ≡ ok t → (t ≡ s) ⊎ Stored line s t
unfolding nvm_line
nvm_line-cases [] s t h = inl (ground arith)
nvm_line-cases (c ∷ line) s t h = inr (nvm_current-Stored (c ∷ line) s t h)

Stored-FromLines :
    {line : Bytes} (lines : List Bytes) (s t u : NvmState) (i : ℕ)
    → Inv s
    → Stored (clean line) s t
    → FromLines t u lines i
    → FromLines s u (line ∷ lines) i
Stored-FromLines lines s t u i v r (inr later) = inr (there later)
Stored-FromLines lines s t u i v r (inl (set_before, same)) = elim (ℕ_discrete r.index i) [
  | yes e ↦
      let inside : r.index < length s.values =
        omega (arith, lt_of_unset s.seen r.index r.fresh, v.flags, v.room) in
      let value : get_or u.values i 0 ≡ r.stored =
        same
        ∙ ap (λ (x : NvmState). get_or x.values i 0) r.next
        ∙ rw (← e) (get_or-set_self s.values r.index r.stored 0 inside) in
      inr (here (rw (value, ← e) r.field_of))
  | no ne ↦ inl (
    sym (get_or-set_ne s.seen r.index i true false ne)
        ∙ sym (ap (λ (x : NvmState). get_or x.seen i false) r.next)
        ∙ set_before,
    same
        ∙ ap (λ (x : NvmState). get_or x.values i 0) r.next
        ∙ get_or-set_ne s.values r.index i r.stored 0 ne,
  )
]

FromLines-cons :
    {line : Bytes} (lines : List Bytes) (s t : NvmState) (i : ℕ)
    → FromLines s t lines i
    → FromLines s t (line ∷ lines) i
FromLines-cons lines s t i (inl before) = inl before
FromLines-cons lines s t i (inr later) = inr (there later)

nvm_lines-FromLines :
    (lines : List Bytes) (s t : NvmState)
    → Inv s
    → nvm_lines lines s ≡ ok t
    → Inv t × ((i : ℕ) → get_or t.seen i false ≡ true → FromLines s t lines i)
unfolding nvm_lines
nvm_lines-FromLines [] s t v h =
    let same : s ≡ t = ground arith in rw (← same) (v, λ i flag. inl (flag, refl))
nvm_lines-FromLines (line ∷ lines) s t v h =
    let (u, first, rest) = >>=-eq-ok (nvm_line (clean line) s) (nvm_lines lines) h in
    elim (nvm_line-cases (clean line) s u first) [
      | inl same ↦
          let (w, later) = nvm_lines-FromLines lines u t (rw same v) rest in
          (w, λ i flag. FromLines-cons lines s t i (rw same at (later i (flag))))
      | inr stored ↦
          let (w, later) = nvm_lines-FromLines lines u t (Stored-Inv s u stored v) rest in
          (w, λ i flag. Stored-FromLines lines s u t i v stored (later i flag))
    ]

-- The five values of an accepted answer, with the lines that give them.
pub record IsAnswer (lines : List Bytes) (v : NvmValues) (state : LockState) : Type 0 where
  pub frequency_line : Sourced frequency v.frequency lines
  pub rat_line : Sourced rat v.rat lines
  pub pci_line : Sourced psc_or_pci v.pci lines
  pub band_line : Sourced band_info v.band_info lines
  pub inter_line : Sourced inter_frequency v.inter_frequency lines
  pub decides : lock_state v ≡ ok state
  pub shape : IsUnlocked state × (v.inter_frequency ≡ 0) ⊎ IsLocked state × (v.inter_frequency ≡ 1)

from_start :
    (lines : List Bytes) (t : NvmState) (i : ℕ)
    → i < nvm_field_count
    → nvm_lines lines nvm_start ≡ ok t
    → t.parsed_count ≡ nvm_field_count
    → Sourced i (get_or t.values i 0) lines
from_start lines t i small h full =
    let (v, sources) = nvm_lines-FromLines lines nvm_start t start-Inv h in
    elim (sources i
      (all_set t.seen i (omega (arith, v.counted, v.flags)) (omega (arith, v.flags)))) [
        | inl (before, _) ↦ absurd (unset i before)
        | inr source ↦ source
      ]
  where
    unset : (i : ℕ) → get_or nvm_start.seen i false ≡ true → ⊥
    unset zero e = cc
    unset (suc zero) e = cc
    unset (suc (suc zero)) e = cc
    unset (suc (suc (suc zero))) e = cc
    unset (suc (suc (suc (suc zero)))) e = cc
    unset (suc (suc (suc (suc (suc i))))) e = cc

nvm_end-full :
    (t : NvmState) {state : LockState}
    → nvm_end t ≡ ok state
    → (t.parsed_count ≡ nvm_field_count) × (lock_state (name_values t.values) ≡ ok state)
unfolding nvm_end
nvm_end-full t h = ground arith

nvm_out-ok :
    (r : Result Failure LockState) {state : LockState}
    → nvm_out r ≡ (parse_ok, state)
    → r ≡ ok state
nvm_out-ok (err e) h = absurd (ground arith)
nvm_out-ok (ok s) h = ground arith

-- If `l850gl_l850_nvm_parse` returns OK, each of the five values stands in a line `key = number` of
-- the response under its own key, and the state is either unlocked (disabled, with the clearing
-- frequency and PCI) or locked on a channel with its table band and a PCI of at most 503 or the
-- wildcard, as the fifth value is 0 or 1.
pub nvm_parse-IsAnswer :
    (allocated : Bool) (text : Bytes) (old : LockState) {state : LockState}
    → nvm_parse allocated (some text) old ≡ (parse_ok, state)
    → (v : NvmValues) × IsAnswer (split b'\n' text) v state
unfolding nvm_parse
nvm_parse-IsAnswer allocated text old {state} h =
    let lines = split b'\n' text in
    let done : (do s ← nvm_lines lines nvm_start; nvm_end s) ≡ ok state =
      nvm_out-ok _ (ground arith) in
    let (t, read, rest) = >>=-eq-ok (nvm_lines lines nvm_start) nvm_end done in
    let (full, decides) = nvm_end-full t rest in
    (
      name_values t.values,
      record {
        frequency_line = from_start lines t frequency (omega arith) read full;
        rat_line = from_start lines t rat (omega arith) read full;
        pci_line = from_start lines t psc_or_pci (omega arith) read full;
        band_line = from_start lines t band_info (omega arith) read full;
        inter_line = from_start lines t inter_frequency (omega arith) read full;
        decides = decides;
        shape = lock_state-cases (name_values t.values) decides;
      },
    )
