-- ===== src/Mutation/Kept/Cells.antt =====
-- The measurement of the serving cell keeps to the conversation of a mutation
-- (l850gl-mm-bridge/src/ubus_glib.c).
use luci_app_l850gl_mm.CellLock.Scan.{cell_parse}
use mathlib.Core.List.{Memᴰ}
use luci_app_l850gl_mm.Base.{
  ℕ, true, false, not, ◌||◌, List, [], ◌∷◌, Option, none, some, ◌≡◌, refl, ◌∙◌, Bytes, if_holds,
  arith, Option-cases, inl, inr, ◌⊎◌, Bool-cases, if◌then◌else◌, ap,
}
use luci_app_l850gl_mm.CellLock.{ParseResult, parse_ok, failed, Cell, CellScan}
use luci_app_l850gl_mm.Mutation.Grammar.{measuring, Talk, measured, Measures}
use luci_app_l850gl_mm.Mutation.Finish.{
  complete_failure, response_modem, complete_success, change_modem,
}
use luci_app_l850gl_mm.Mutation.Guards.{error_is_uncertain, replacement_is_valid}
use luci_app_l850gl_mm.Mutation.Kept.{Kept, failed-Kept, succeeded-Kept}
use luci_app_l850gl_mm.Mutation.Verify.{
  measured_cell, serving_of, cell_ready, requested_cell, cell_measured, is_requested, measured_of,
  scan_of,
}
use luci_app_l850gl_mm.Mutation.{Operation, World, Entry, answered, Modem}
use luci_app_l850gl_mm.Service.Modems.{Surroundings, lte_band_is_supported}
use luci_app_l850gl_mm.Service.{GError, verification_mismatch}

serving_step :
    {cells : CellScan} (d : Cell) (before : Option Cell) {c : Cell}
    → ((if d.serving then some d else before) ≡ some c) ⊎ Memᴰ c cells × (c.serving ≡ true)
    → (before ≡ some c) ⊎ Memᴰ c (d ∷ cells) × (c.serving ≡ true)
serving_step d before (inr (found, serving)) = inr (Memᴰ.tail found, serving)
serving_step d before {c} (inl e) = elim (Bool-cases d.serving) [
  | inl h ↦
      let same : c ≡ d = ground (arith, h, e) in
      inr (Memᴰ.head same, ap (λ (x : Cell). x.serving) same ∙ h)
  | inr h ↦ inl (ground (arith, h, e))
]

-- A cell that the loop found, unless it came with it.
serving_of-found :
    (s : Surroundings) (m : Modem) (cells : CellScan) (before : Option Cell) {c : Cell}
    → serving_of s m cells before ≡ some (some c)
    → (before ≡ some c) ⊎ Memᴰ c cells × (c.serving ≡ true)
unfolding serving_of
serving_of-found s m [] before e = ground arith
serving_of-found s m (d ∷ cells) before {c} e =
    elim (Bool-cases (lte_band_is_supported s m d.band)) [
      | inr f ↦ absurd (ground (arith, f, e))
      | inl f ↦
          let e₁ : serving_of s m cells (if d.serving then some d else before) ≡ some (some c) =
            ground (arith, f, e) in
          serving_step d before (serving_of-found s m cells _ e₁)
    ]

requested_cell-serving :
    (o : Operation) (found : Option (Option Cell)) {c : Cell}
    → requested_cell o found ≡ some c
    → (found ≡ some (some c)) × (c.earfcn ≡ o.earfcn) × (o.has_pci ≡ true → c.pci ≡ o.pci)
requested_cell-serving o none e = absurd (ground arith)
requested_cell-serving o (some none) e = absurd (ground arith)
requested_cell-serving o (some (some d)) {c} e = elim (Bool-cases (is_requested o d)) [
  | inr f ↦ absurd (ground (arith, f, e))
  | inl f ↦
      let same : d ≡ c = ground (arith, f, e) in
      rw⁻¹ same (refl, ground (arith, f), λ h. ground (arith, f, h))
]

measured_of-Measures :
    (s : Surroundings) (o : Operation) (m : Modem) (text : Bytes) (parsed : ParseResult × CellScan)
    {c : Cell}
    → cell_parse s.allocated (some text) [] ≡ parsed
    → measured_of s o m (scan_of parsed) ≡ some c
    → Measures o.request text
measured_of-Measures s o m text (failed f, cells) r e = absurd (ground arith)
measured_of-Measures s o m text (parse_ok, cells) {c} r e =
    let (found, earfcn, pci) = requested_cell-serving o (serving_of s m cells none) e in
    elim (serving_of-found s m cells none found) [
      | inl f ↦ absurd (ground (arith, f))
      | inr (member, serving) ↦ (s.allocated, cells, c, r, member, serving, earfcn, pci)
    ]

measured_cell-Measures :
    (s : Surroundings) (o : Operation) (m : Modem) (text : Bytes) {c : Cell}
    → measured_cell s o m text ≡ some c
    → Measures o.request text
unfolding measured_cell
measured_cell-Measures s o m text e = measured_of-Measures s o m text _ refl e

cell_measured-Kept :
    (s : Surroundings) (w : World) (o : Operation) {address source : ℕ} {text : Bytes}
    {talk : List Entry} (c : Cell)
    → o.replacement ≡ some address
    → Talk o.request (measuring address) talk
    → Measures o.request text
    → w.conversation ≡ answered source (some text) none ∷ talk
    → (kept : Option Modem)
    → Kept o.request (measuring address) (elim kept [
      | none ↦ complete_failure s w o verification_mismatch verification_mismatch false
      | some m ↦
          complete_success s
            (record w { modems = change_modem (response_modem o) (λ _. m) w.modems })
            o
            (some c)
    ])
cell_measured-Kept s w o c a t m e none = failed-Kept o.request s w o _ _ _ t refl e
cell_measured-Kept s w o c a t m e (some kept) =
    succeeded-Kept s _ o (some c) _ a (rw e (measured t m))

pub cell_ready-Kept :
    (s : Surroundings) (w : World) (o : Operation) {address : ℕ} (source : ℕ)
    (response : Option Bytes) (error : Option GError) {talk : List Entry}
    → o.replacement ≡ some address
    → Talk o.request (measuring address) talk
    → w.conversation ≡ answered source response error ∷ talk
    → Kept o.request (measuring address) (cell_ready s w o source response error)
unfolding cell_ready cell_measured
cell_ready-Kept s w o source (some text) none a t e =
    if_holds (Kept o.request _)
      (not (replacement_is_valid s w o source) || error_is_uncertain o none)
      (λ h. failed-Kept o.request s w o _ _ _ t refl e)
      (λ h. elim (Option-cases (measured_cell s o (w.modems (response_modem o)) text)) [
        | inl none_found ↦ rw none_found (failed-Kept o.request s w o _ _ _ t refl e)
        | inr (c, found) ↦
            rw found (cell_measured-Kept s w o c a t (measured_cell-Measures s o _ text found) e _)
      ])
cell_ready-Kept s w o source none none a t e =
    if_holds (Kept o.request _)
      (not (replacement_is_valid s w o source) || error_is_uncertain o none)
      (λ h. failed-Kept o.request s w o _ _ _ t refl e)
      (λ h. failed-Kept o.request s w o _ _ _ t refl e)
cell_ready-Kept s w o source response (some error) a t e =
    if_holds (Kept o.request _)
      (not (replacement_is_valid s w o source) || error_is_uncertain o (some error))
      (λ h. failed-Kept o.request s w o _ _ _ t refl e)
      (λ h. failed-Kept o.request s w o _ _ _ t refl e)
