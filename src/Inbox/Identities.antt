-- ===== src/Inbox/Identities.antt =====
-- A cache whose messages are told apart by a key, their path or their identity
-- (l850gl-mm-bridge/src/bridge.c).
use mathlib.Core.Path.{subst, subst⁻¹}
use luci_app_l850gl_mm.Inbox.{Sms, any_sms, without_path, put_sms, sms_at, has_path}
use luci_app_l850gl_mm.Inbox.Listing.{insert_sms}
use luci_app_l850gl_mm.Base.{
  Bytes, Bool, List, same_text, ◌≡◌, ◌∷◌, true, Bool-cases, some, false, same_text_iff, arith, ◌⊎◌,
  [], refl, inl, inr, ap, sym, ◌∙◌,
}

abbrev pub has_key : (Sms → Bytes) → Bytes → Sms → Bool
has_key key k e = same_text (key e) k

abbrev pub DistinctBy : (Sms → Bytes) → List Sms → Type 0
DistinctBy key [] = Unit
DistinctBy key (e ∷ cache) = (any_sms (has_key key (key e)) cache ≡ false) × DistinctBy key cache

pub same_text_sym : (a b : Bytes) → same_text a b ≡ false → same_text b a ≡ false
same_text_sym a b h = ground (arith, h, same_text_iff a b, same_text_iff b a)

same_text_self : (a : Bytes) → same_text a a ≡ true
same_text_self a = (same_text_iff a a).1 refl

pub any_sms-at :
    (test : Sms → Bool) (path : Bytes) (cache : List Sms) {e : Sms}
    → sms_at path cache ≡ some e
    → any_sms test cache ≡ false
    → test e ≡ false
unfolding any_sms sms_at
any_sms-at test path [] h n = cc
any_sms-at test path (d ∷ cache) {e} h n = elim (Bool-cases (has_path path d)) [
  | inl t ↦ let same : d ≡ e = ground (arith, h, t) in ap test (sym same) ∙ ground (arith, n)
  | inr t ↦ any_sms-at test path cache (ground (arith, h, t)) (ground (arith, n))
]

pub any_sms-without :
    (test : Sms → Bool) (path : Bytes) (cache : List Sms)
    → any_sms test cache ≡ false
    → any_sms test (without_path path cache) ≡ false
unfolding any_sms without_path
any_sms-without test path [] h = refl
any_sms-without test path (e ∷ cache) h =
    ground (arith, h, any_sms-without test path cache (ground (arith, h)))

pub DistinctBy-without :
    (key : Sms → Bytes) (path : Bytes) (cache : List Sms)
    → DistinctBy key cache
    → DistinctBy key (without_path path cache)
unfolding without_path
DistinctBy-without key path [] h = tt
DistinctBy-without key path (e ∷ cache) (own, h) =
    let rest = DistinctBy-without key path cache h in
    elim (Bool-cases (has_path path e)) [
      | inl t ↦ rw t rest
      | inr t ↦ rw t (any_sms-without (has_key key (key e)) path cache own, rest)
    ]

-- The message that stood at the path is gone, by its key as well.
pub any_sms-taken :
    (key : Sms → Bytes) (path : Bytes) (cache : List Sms) {e : Sms}
    → DistinctBy key cache
    → sms_at path cache ≡ some e
    → any_sms (has_key key (key e)) (without_path path cache) ≡ false
unfolding any_sms without_path sms_at
any_sms-taken key path [] d h = cc
any_sms-taken key path (c ∷ cache) {e} (own, d) h = elim (Bool-cases (has_path path c)) [
  | inl t ↦
      let same : c ≡ e = ground (arith, h, t) in
      rw t (
        subst (λ x. any_sms (has_key key (key x)) (without_path path cache) ≡ false) same
          (any_sms-without (has_key key (key c)) path cache own))
  | inr t ↦
      let at : sms_at path cache ≡ some e = ground (arith, h, t) in
      let other = any_sms-at (has_key key (key c)) path cache at own in
      let rest = any_sms-taken key path cache d at in
      rw t (ground (arith, rest, same_text_sym (key e) (key c) other))
]

-- No message with the path is left.
pub any_sms-path :
    (path : Bytes) (cache : List Sms)
    → any_sms (has_key (λ e. e.path) path) (without_path path cache) ≡ false
unfolding any_sms without_path
any_sms-path path [] = refl
any_sms-path path (e ∷ cache) = ground (arith, any_sms-path path cache)

pub DistinctBy-insert :
    (key : Sms → Bytes) (e : Sms) (cache : List Sms)
    → DistinctBy key cache
    → any_sms (has_key key (key e)) (without_path e.path cache) ≡ false
    → DistinctBy key (insert_sms e cache)
unfolding insert_sms
DistinctBy-insert key e cache d h = (h, DistinctBy-without key e.path cache d)

any_sms-put :
    (test : Sms → Bool) (new : Sms) (cache : List Sms)
    → any_sms test cache ≡ false
    → test new ≡ false
    → any_sms test (put_sms new cache) ≡ false
unfolding any_sms put_sms
any_sms-put test new [] h n = refl
any_sms-put test new (e ∷ cache) h n =
    ground (arith, h, n, any_sms-put test new cache (ground (arith, h)) n)

-- The key of the new entry is that of the entry it replaces, or no entry's.
abbrev pub IsFree : (Sms → Bytes) → Sms → Sms → List Sms → Type 0
IsFree key new e cache = (key new ≡ key e) ⊎ (any_sms (has_key key (key new)) cache ≡ false)

IsFree-tail :
    (key : Sms → Bytes) (new e c : Sms) (cache : List Sms)
    → IsFree key new e (c ∷ cache)
    → IsFree key new e cache
unfolding any_sms
IsFree-tail key new e c cache (inl k) = inl k
IsFree-tail key new e c cache (inr n) = inr (ground (arith, n))

free_of_head :
    (key : Sms → Bytes) (new e c : Sms) (cache : List Sms)
    → c ≡ e
    → any_sms (has_key key (key c)) cache ≡ false
    → IsFree key new e (c ∷ cache)
    → any_sms (has_key key (key new)) cache ≡ false
unfolding any_sms
free_of_head key new e c cache same own (inl k) =
    subst⁻¹ (λ x. any_sms (has_key key x) cache ≡ false) (k ∙ ap key (sym same)) own
free_of_head key new e c cache same own (inr n) = ground (arith, n)

apart_from_head :
    (key : Sms → Bytes) (new e c : Sms) (cache : List Sms)
    → sms_at new.path cache ≡ some e
    → any_sms (has_key key (key c)) cache ≡ false
    → IsFree key new e (c ∷ cache)
    → has_key key (key c) new ≡ false
unfolding any_sms
apart_from_head key new e c cache at own (inl k) =
    ap (λ x. same_text x (key c)) k ∙ any_sms-at (has_key key (key c)) new.path cache at own
apart_from_head key new e c cache at own (inr n) =
    same_text_sym (key c) (key new) (ground (arith, n))

-- An entry is replaced by one with the same path.
pub DistinctBy-put :
    (key : Sms → Bytes) (new : Sms) (cache : List Sms) {e : Sms}
    → sms_at new.path cache ≡ some e
    → IsFree key new e cache
    → DistinctBy key cache
    → DistinctBy key (put_sms new cache)
unfolding put_sms sms_at
DistinctBy-put key new [] h k d = tt
DistinctBy-put key new (c ∷ cache) {e} h k (own, d) = elim (Bool-cases (has_path new.path c)) [
  | inl t ↦
      let same : c ≡ e = ground (arith, h, t) in rw t (free_of_head key new e c cache same own k, d)
  | inr t ↦
      let at : sms_at new.path cache ≡ some e = ground (arith, h, t) in
      let apart = apart_from_head key new e c cache at own k in
      rw t (
        any_sms-put (has_key key (key c)) new cache own apart,
        DistinctBy-put key new cache at (IsFree-tail key new e c cache k) d,
      )
]
