-- ===== src/Text/Laws.antt =====
-- Laws of the text helpers: what trimming leaves, and that cutting at a byte loses nothing.
use mathlib.Core.Path.{subst⁻¹}
use luci_app_l850gl_mm.Base.{
  ℕ, Bool, true, false, List, [], ◌∷◌, ◌++◌, ◌≡◌, inl, inr, refl, ap, ◌∙◌, arith, ◌==◌, Bytes, All,
  Bool-cases, length, get_or, some, ◌↔◌,
}
use luci_app_l850gl_mm.Text.{
  is_blank, skip_blanks, keep, drop_blanks, trim_ascii, push_front, split, after_prefix,
}

-- No blank at either end.
abbrev pub head_blank : Bytes → Bool
head_blank [] = false
head_blank (c ∷ s) = is_blank c

abbrev pub last_blank : Bytes → Bool
last_blank [] = false
last_blank (c ∷ []) = is_blank c
last_blank (c ∷ d ∷ s) = last_blank (d ∷ s)

abbrev pub AllBlank : Bytes → Type 0
AllBlank = All (λ c. is_blank c ≡ true)

skip_blanks_parts :
    (s : Bytes)
    → (front : Bytes) × (s ≡ front ++ skip_blanks s)
      × AllBlank front
      × (head_blank (skip_blanks s) ≡ false)
unfolding skip_blanks
skip_blanks_parts [] = ([], refl, tt, refl)
skip_blanks_parts (c ∷ s) = elim (Bool-cases (is_blank c)) [
  | inl b ↦
      let (front, split, blank, done) = skip_blanks_parts s in
      rw (b, skip_blanks) (c ∷ front, ap (◌∷◌ c) split, (b, blank), done)
  | inr n ↦ rw (n, skip_blanks) ([], refl, tt, n)
]

keep_parts :
    (c : ℕ) (kept back : Bytes)
    → AllBlank back
    → last_blank kept ≡ false
    → (back' : Bytes) × (c ∷ (kept ++ back) ≡ keep c kept ++ back')
      × AllBlank back'
      × (last_blank (keep c kept) ≡ false)
unfolding keep
keep_parts c [] back b l = elim (Bool-cases (is_blank c)) [
  | inl y ↦ rw y (c ∷ back, refl, (y, b), refl)
  | inr n ↦ rw n (back, refl, b, n)
]
keep_parts c (d ∷ kept) back b l = (back, refl, b, l)

drop_blanks_parts :
    (s : Bytes)
    → (back : Bytes) × (s ≡ drop_blanks s ++ back)
      × AllBlank back
      × (last_blank (drop_blanks s) ≡ false)
unfolding drop_blanks
drop_blanks_parts [] = ([], refl, tt, refl)
drop_blanks_parts (c ∷ s) =
    let (back, split, blank, done) = drop_blanks_parts s in
    let (back', whole, blank', done') = keep_parts c (drop_blanks s) back blank done in
    (back', ap (◌∷◌ c) split ∙ whole, blank', done')

drop_blanks-head : (s : Bytes) → head_blank s ≡ false → head_blank (drop_blanks s) ≡ false
unfolding drop_blanks keep
drop_blanks-head [] h = refl
drop_blanks-head (c ∷ s) h = go (drop_blanks s)
  where
    go : (t : Bytes) → head_blank (keep c t) ≡ false
    go [] = rw h h
    go (d ∷ t) = h

-- `trim_ascii` takes blanks away at the two ends and nothing else, and leaves a text that neither
-- begins nor ends with a blank.
pub record IsTrimmed (s t : Bytes) : Type 0 where
  pub front : Bytes
  pub back : Bytes
  pub parts : s ≡ front ++ (t ++ back)
  pub front_blank : AllBlank front
  pub back_blank : AllBlank back
  pub starts : head_blank t ≡ false
  pub ends : last_blank t ≡ false

-- `trim_ascii` removes spaces and tabs at the front and at the back of any text and nothing else,
-- and the text that it leaves neither begins nor ends with a space or a tab.
pub trim_ascii-IsTrimmed : (s : Bytes) → IsTrimmed s (trim_ascii s)
unfolding trim_ascii
trim_ascii-IsTrimmed s =
    let (front, split, blank, done) = skip_blanks_parts s in
    let (back, split', blank', done') = drop_blanks_parts (skip_blanks s) in
    record {
      front = front;
      back = back;
      parts = split ∙ ap (◌++◌ front) split';
      front_blank = blank;
      back_blank = blank';
      starts = drop_blanks-head (skip_blanks s) done;
      ends = done';
    }

-- The pieces of a text with the separator put back between them.
abbrev pub join : ℕ → List Bytes → Bytes
join separator [] = []
join separator (p ∷ []) = p
join separator (p ∷ q ∷ ps) = p ++ (separator ∷ join separator (q ∷ ps))

abbrev pub Lacks : ℕ → Bytes → Type 0
Lacks b = All (λ c. (c == b) ≡ false)

abbrev pub count_pieces : List Bytes → Bool
count_pieces [] = false
count_pieces (p ∷ ps) = true

split-ne-nil : (separator : ℕ) (s : Bytes) → count_pieces (split separator s) ≡ true
unfolding split push_front
split-ne-nil separator [] = refl
split-ne-nil separator (c ∷ s) = elim (Bool-cases (c == separator)) [
  | inl e ↦ rw e
  | inr n ↦ rw n (go (split separator s))
]
  where
    go : (ps : List Bytes) → count_pieces (push_front c ps) ≡ true
    go [] = refl
    go (p ∷ ps) = refl

join-push_front :
    (separator c : ℕ) (ps : List Bytes)
    → count_pieces ps ≡ true
    → join separator (push_front c ps) ≡ c ∷ join separator ps
unfolding push_front
join-push_front separator c [] h = cc
join-push_front separator c (p ∷ []) h = refl
join-push_front separator c (p ∷ q ∷ ps) h = refl

join-nil-cons :
    (separator : ℕ) (ps : List Bytes)
    → count_pieces ps ≡ true
    → join separator ([] ∷ ps) ≡ separator ∷ join separator ps
join-nil-cons separator [] h = cc
join-nil-cons separator (p ∷ ps) h = refl

pub join-split : (separator : ℕ) (s : Bytes) → join separator (split separator s) ≡ s
unfolding split
join-split separator [] = refl
join-split separator (c ∷ s) = elim (Bool-cases (c == separator)) [
  | inl e ↦ rw e (
      join-nil-cons separator (split separator s) (split-ne-nil separator s)
      ∙ ground (arith, join-split separator s))
  | inr n ↦ rw n (
      join-push_front separator c (split separator s) (split-ne-nil separator s)
      ∙ ap (◌∷◌ c) (join-split separator s))
]

push_front-Lacks :
    (separator c : ℕ) (ps : List Bytes)
    → (c == separator) ≡ false
    → All (Lacks separator) ps
    → All (Lacks separator) (push_front c ps)
unfolding push_front
push_front-Lacks separator c [] n h = ((n, tt), tt)
push_front-Lacks separator c (p ∷ ps) n h = ((n, h.0), h.1)

pub split-Lacks : (separator : ℕ) (s : Bytes) → All (Lacks separator) (split separator s)
unfolding split
split-Lacks separator [] = (tt, tt)
split-Lacks separator (c ∷ s) = elim (Bool-cases (c == separator)) [
  | inl e ↦ rw e (tt, split-Lacks separator s)
  | inr n ↦ rw n (push_front-Lacks separator c (split separator s) n (split-Lacks separator s))
]

pub after_prefix_iff :
    (prefix s rest : Bytes) → (after_prefix prefix s ≡ some rest) ↔ (s ≡ prefix ++ rest)
unfolding after_prefix
after_prefix_iff [] s rest = ground arith
after_prefix_iff (p ∷ prefix) [] rest = ground arith
after_prefix_iff (p ∷ prefix) (c ∷ s) rest = ground (arith, after_prefix_iff prefix s rest)

-- The last of the pieces, of which there are some, is empty.
abbrev pub last_empty : List Bytes → Bool
last_empty [] = false
last_empty (p ∷ []) = length p == 0
last_empty (p ∷ q ∷ ps) = last_empty (q ∷ ps)

abbrev pub IsCut : List Bytes → Type 0
IsCut pieces =
    (p : Bytes) × (q : Bytes) × (qs : List Bytes) × (pieces ≡ p ∷ q ∷ qs)
    × (last_empty (q ∷ qs) ≡ true)

IsCut-push_front : (c : ℕ) (ps : List Bytes) → IsCut ps → IsCut (push_front c ps)
unfolding push_front
IsCut-push_front c [] h = cc
IsCut-push_front c (p' ∷ ps) (p, q, qs, e, l) = (c ∷ p', q, qs, ground (arith, e), l)

IsCut-nil : (ps : List Bytes) → IsCut ps → IsCut ([] ∷ ps)
IsCut-nil [] h = cc
IsCut-nil (p' ∷ ps) (p, q, qs, e, l) = ([], p', ps, refl, ground (arith, e, l))

-- A text that ends with the separator has an empty last piece behind another one.
pub split-IsCut :
    (separator c : ℕ) (s : Bytes)
    → (get_or (c ∷ s) (length s) 0 == separator) ≡ true
    → IsCut (split separator (c ∷ s))
unfolding split push_front
split-IsCut separator c [] h = ([], [], [], rw h refl, refl)
split-IsCut separator c (d ∷ s) h = elim (Bool-cases (c == separator)) [
  | inl e ↦ subst⁻¹ IsCut (ground (arith, e)) (IsCut-nil _ (split-IsCut separator d s h))
  | inr n ↦ subst⁻¹ IsCut (ground (arith, n)) (IsCut-push_front c _ (split-IsCut separator d s h))
]
