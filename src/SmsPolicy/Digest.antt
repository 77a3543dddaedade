-- ===== src/SmsPolicy/Digest.antt =====
-- What the digest of a request is made of.
use luci_app_l850gl_mm.Base.{
  ℕ, zero, suc, ◌+◌, ◌*◌, ◌/◌, ◌%◌, ◌<◌, [], ◌∷◌, ◌++◌, Bytes, length, ◌≡◌, refl, sym, ap, ◌∙◌,
  arith, length-append,
}
use luci_app_l850gl_mm.SmsPolicy.{encoded_length, checksum_add_field, domain, request_input}
use mathlib.Core.List.{append-nil, append_assoc, append_cancel_left}

-- The number that bytes spell in base 256, behind those read before.
abbrev spelled_by : ℕ → Bytes → ℕ
spelled_by n [] = n
spelled_by n (b ∷ s) = spelled_by (n * 256 + b) s

spelled_by-append :
    (n : ℕ) (s : Bytes) (b : ℕ) → spelled_by n (s ++ (b ∷ [])) ≡ spelled_by n s * 256 + b
spelled_by-append n [] b = refl
spelled_by-append n (c ∷ s) b = spelled_by-append (n * 256 + c) s b

abbrev pub bound : ℕ → ℕ
bound zero = 1
bound (suc count) = 256 * bound count

spelled_by-encoded_length :
    (count n : ℕ) → n < bound count → spelled_by 0 (encoded_length count n) ≡ n
unfolding encoded_length
spelled_by-encoded_length zero n l = omega arith
spelled_by-encoded_length (suc count) n l =
    let front = spelled_by-append 0 (encoded_length count (n / 256)) (n % 256) in
    let rest = spelled_by-encoded_length count (n / 256) (omega arith) in omega (arith, front, rest)

length-encoded_length : (count n : ℕ) → length (encoded_length count n) ≡ count
unfolding encoded_length
length-encoded_length zero n = refl
length-encoded_length (suc count) n =
    let rest = length-encoded_length count (n / 256) in
    let whole = length-append (encoded_length count (n / 256)) ((n % 256) ∷ []) in
    omega (arith, rest, whole)

append_parts : (s t u v : Bytes) → length s ≡ length t → s ++ u ≡ t ++ v → (s ≡ t) × (u ≡ v)
append_parts [] [] u v l e = (refl, e)
append_parts [] (y ∷ t) u v l e = absurd (omega arith)
append_parts (x ∷ s) [] u v l e = absurd (omega arith)
append_parts (x ∷ s) (y ∷ t) u v l e =
    let (same, rest) = append_parts s t u v (omega arith) cc in (cc, rest)

-- A length and the bytes behind it are found again at the front of a text.
field_parts :
    (r r' s s' : Bytes)
    → length r < bound 8
    → length r' < bound 8
    → encoded_length 8 (length r) ++ (r ++ s) ≡ encoded_length 8 (length r') ++ (r' ++ s')
    → (r ≡ r') × (s ≡ s')
field_parts r r' s s' l l' e =
    let (lengths, rest) =
      append_parts (encoded_length 8 (length r)) (encoded_length 8 (length r')) (r ++ s) (r' ++ s')
        (length-encoded_length 8 (length r) ∙ sym (length-encoded_length 8 (length r'))) e in
    let same : length r ≡ length r' =
      sym (spelled_by-encoded_length 8 (length r) l)
      ∙ ap (spelled_by 0) lengths
      ∙ spelled_by-encoded_length 8 (length r') l' in
    append_parts r r' s s' same rest

request_input_flat :
    (r t : Bytes)
    → request_input r t
      ≡ domain ++ (encoded_length 8 (length r) ++ (r ++ (encoded_length 8 (length t) ++ (t ++ []))))
unfolding request_input checksum_add_field
request_input_flat r t =
    let n = encoded_length 8 (length r) in
    let m = encoded_length 8 (length t) in
    append_assoc ((domain ++ n) ++ r) m t
    ∙ append_assoc (domain ++ n) r (m ++ t)
    ∙ append_assoc domain n (r ++ (m ++ t))
    ∙ ap (λ x. domain ++ (n ++ (r ++ (m ++ x)))) (sym (append-nil t))

-- Two requests whose texts and recipients are shorter than 2 ^ 64 bytes give the checksum the same
-- bytes only if they have the same recipient and the same text.
pub request_input-injective :
    (r r' t t' : Bytes)
    → length r < bound 8
    → length r' < bound 8
    → length t < bound 8
    → length t' < bound 8
    → request_input r t ≡ request_input r' t'
    → (r ≡ r') × (t ≡ t')
request_input-injective r r' t t' l l' m m' e =
    let flat = sym (request_input_flat r t) ∙ e ∙ request_input_flat r' t' in
    let behind = append_cancel_left domain _ _ flat in
    let (recipients, rest) =
      field_parts r r' (encoded_length 8 (length t) ++ (t ++ []))
        (encoded_length 8 (length t') ++ (t' ++ [])) l l' behind in
    let (texts, _) = field_parts t t' [] [] m m' rest in (recipients, texts)
