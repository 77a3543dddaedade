-- ===== src/Mutation/Search.antt =====
-- The search for the modem that replaces the original (`l850_mutation_find_replacement` of
-- l850gl-mm-bridge/src/ubus_glib.c), against the list of the modems that qualify.
use luci_app_l850gl_mm.Base.{
  ℕ, List, [], ◌∷◌, Option, none, some, ◌≡◌, refl, inl, inr, Bool-cases, if◌then◌else◌, true, ◌≢◌,
  arith, ◌↔◌, Option-cases, same_text_iff,
}
use luci_app_l850gl_mm.Mutation.Guards.{
  Search, nothing_found, ambiguous, match_found, is_candidate, search_modems, find_replacement,
}
use luci_app_l850gl_mm.Mutation.{Operation, World}
use luci_app_l850gl_mm.Service.Modems.{Surroundings}

-- What a modem needs to replace the original.
pub record Qualifies (s : Surroundings) (w : World) (o : Operation) (address : ℕ) : Type 0 where
  pub other : address ≢ o.original
  pub newer : (w.modems address).generation ≢ o.original_generation
  pub placed : s.physdev_of (w.modems address).modem ≡ some o.physdev
  pub attested : s.attests address ≡ true

is_candidate_iff :
    (s : Surroundings) (w : World) (o : Operation) (address : ℕ)
    → (is_candidate s w o address ≡ true) ↔ Qualifies s w o address
unfolding is_candidate
is_candidate_iff s w o address = elim (Option-cases (s.physdev_of (w.modems address).modem)) [
  | inl e ↦ (
    λ h. absurd (ground (arith, h, e)),
    λ (q : Qualifies s w o address). absurd (ground (arith, q.placed, e)),
  )
  | inr (found, e) ↦
      let same = same_text_iff found o.physdev in
      (
        λ h. record {
          other = ground (arith, h);
          newer = ground (arith, h);
          placed = ground (arith, h, e, same);
          attested = ground (arith, h);
        },
        λ (q : Qualifies s w o address).
            ground (arith, q.other, q.newer, q.placed, q.attested, e, same),
      )
]

-- The modems of a list that qualify, in their order.
pub data Qualified (s : Surroundings) (w : World) (o : Operation) : List ℕ → List ℕ → Type 0 where
  at_end : Qualified s w o [] []
  taken :
      {address : ℕ} {rest found : List ℕ}
      → Qualifies s w o address
      → Qualified s w o rest found
      → Qualified s w o (address ∷ rest) (address ∷ found)
  passed :
      {address : ℕ} {rest found : List ℕ}
      → ¬ Qualifies s w o address
      → Qualified s w o rest found
      → Qualified s w o (address ∷ rest) found

-- The only one of a list.
abbrev pub only : List ℕ → Search
only [] = nothing_found
only (address ∷ []) = match_found address
only (address ∷ other ∷ rest) = ambiguous

candidates : Surroundings → World → Operation → List ℕ → List ℕ
candidates s w o [] = []
candidates s w o (address ∷ rest) =
    if is_candidate s w o address then address ∷ candidates s w o rest else candidates s w o rest

candidates-Qualified :
    (s : Surroundings) (w : World) (o : Operation) (addresses : List ℕ)
    → Qualified s w o addresses (candidates s w o addresses)
unfolding candidates
candidates-Qualified s w o [] = at_end
candidates-Qualified s w o (b ∷ rest) = elim (Bool-cases (is_candidate s w o b)) [
  | inl f ↦ rw f (taken ((is_candidate_iff s w o b).0 f) (candidates-Qualified s w o rest))
  | inr f ↦ rw f (
      passed (λ q. ground (arith, (is_candidate_iff s w o b).1 q, f))
        (candidates-Qualified s w o rest))
]

abbrev with_found : Option ℕ → List ℕ → List ℕ
with_found none rest = rest
with_found (some address) rest = address ∷ rest

search_modems-only :
    (s : Surroundings) (w : World) (o : Operation) (found : Option ℕ) (rest : List ℕ)
    → search_modems s w o found rest ≡ only (with_found found (candidates s w o rest))
unfolding search_modems candidates
search_modems-only s w o none [] = refl
search_modems-only s w o (some a) [] = refl
search_modems-only s w o none (b ∷ rest) = elim (Bool-cases (is_candidate s w o b)) [
  | inr f ↦ rw (f, search_modems-only s w o none rest) refl
  | inl f ↦ rw (f, search_modems-only s w o (some b) rest) refl
]
search_modems-only s w o (some a) (b ∷ rest) = elim (Bool-cases (is_candidate s w o b)) [
  | inr f ↦ rw (f, search_modems-only s w o (some a) rest) refl
  | inl f ↦ rw f refl
]

-- The search goes by the modems of the inventory that qualify: other than the original, of another
-- generation, at the operation's physical device, and attested. It finds a modem exactly if it is
-- the only one of these, nothing if there is none, and reports an ambiguity if there are several.
pub find_replacement-only :
    (s : Surroundings) (w : World) (o : Operation)
    → (found : List ℕ) × Qualified s w o w.inventory found × (find_replacement s w o ≡ only found)
unfolding find_replacement
find_replacement-only s w o = (
  candidates s w o w.inventory,
  candidates-Qualified s w o w.inventory,
  search_modems-only s w o none w.inventory,
)
