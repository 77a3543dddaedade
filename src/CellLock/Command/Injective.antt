-- ===== src/CellLock/Command/Injective.antt =====
-- The command that is sent determines the request that it was built for.
use luci_app_l850gl_mm.Base.{
  ℕ, ◌≤◌, ◌<◌, Bool, true, false, [], ◌∷◌, ◌++◌, some, ◌≡◌, refl, ap, sym, ◌∙◌, arith, within,
  Bytes, codes, length, length-append, All,
}
use luci_app_l850gl_mm.CellLock.Command.{
  command_max, set_command_text, effective_pci, build_set_command,
}
use luci_app_l850gl_mm.CellLock.Earfcn.{earfcn_to_band}
use luci_app_l850gl_mm.Number.Print.{
  format_decimal, format_decimal-IsDigit, length-format_decimal, decimal-format_decimal,
}
use luci_app_l850gl_mm.Number.{u32_max}

abbrev AllDigits : Bytes → Type 0
AllDigits = All (λ c. within b'0' b'9' c ≡ true)

-- A run of digits ends at the first byte that is no digit.
digits_unique :
    (s t : Bytes) (c : ℕ) (r r' : Bytes)
    → AllDigits s
    → AllDigits t
    → within b'0' b'9' c ≡ false
    → s ++ (c ∷ r) ≡ t ++ (c ∷ r')
    → (s ≡ t) × (r ≡ r')
digits_unique [] [] c r r' hs ht n e = (refl, cc)
digits_unique [] (y ∷ t) c r r' hs ht n e = absurd (ground arith)
digits_unique (x ∷ s) [] c r r' hs ht n e = absurd (ground arith)
digits_unique (x ∷ s) (y ∷ t) c r r' hs ht n e =
    let (same, rest) = digits_unique s t c r r' hs.1 ht.1 n (cc) in (cc, rest)

format_decimal-injective :
    (m n : ℕ) → m ≤ u32_max → n ≤ u32_max → format_decimal m ≡ format_decimal n → m ≡ n
format_decimal-injective m n hm hn e =
    cc (decimal-format_decimal m hm, decimal-format_decimal n hn, e)

-- What stands behind the channel, and behind the band.
abbrev behind_channel : ℕ → Bytes
behind_channel pci = format_decimal pci ++ (b')' ∷ [])

abbrev behind_band : ℕ → ℕ → Bytes
behind_band earfcn pci = b'1' ∷ b',' ∷ (format_decimal earfcn ++ (b',' ∷ behind_channel pci))

set_command_text-injective :
    (band earfcn pci band' earfcn' pci' : ℕ)
    → (earfcn ≤ u32_max) × (earfcn' ≤ u32_max) × (pci ≤ u32_max) × (pci' ≤ u32_max)
    → set_command_text band earfcn pci ≡ set_command_text band' earfcn' pci'
    → (earfcn ≡ earfcn') × (pci ≡ pci')
unfolding set_command_text
set_command_text-injective band earfcn pci band' earfcn' pci' (he, he', hp, hp') same =
    let (_, after_band) =
      digits_unique (format_decimal band) (format_decimal band') b',' (behind_band earfcn pci)
        (behind_band earfcn' pci') (format_decimal-IsDigit band) (format_decimal-IsDigit band') refl
        (cc) in
    let (channel, after_channel) =
      digits_unique (format_decimal earfcn) (format_decimal earfcn') b',' (behind_channel pci)
        (behind_channel pci') (format_decimal-IsDigit earfcn) (format_decimal-IsDigit earfcn') refl
        (cc) in
    let (cell, _) =
      digits_unique (format_decimal pci) (format_decimal pci') b')' [] []
        (format_decimal-IsDigit pci) (format_decimal-IsDigit pci') refl (cc) in
    (
      format_decimal-injective earfcn earfcn' he he' channel,
      format_decimal-injective pci pci' hp hp' cell,
    )

-- The text of a command fits the buffer that the callers give.
length-set_command_text :
    (band earfcn pci : ℕ) → length (set_command_text band earfcn pci) < command_max
unfolding set_command_text
length-set_command_text band earfcn pci = omega (
  arith,
  length-append (format_decimal band)
      (codes ",1," ++ (format_decimal earfcn ++ (b',' ∷ (format_decimal pci ++ codes ")")))),
  length-append (format_decimal earfcn) (b',' ∷ (format_decimal pci ++ codes ")")),
  length-append (format_decimal pci) (codes ")"),
  length-format_decimal band,
  length-format_decimal earfcn,
  length-format_decimal pci,
)

-- A request that the program may send: a channel of a known band, and a PCI of at most 503.
abbrev pub IsRequest : ℕ → Bool → ℕ → Type 0
IsRequest earfcn has_pci pci =
    ((band : ℕ) × (earfcn_to_band earfcn ≡ some band)) × (earfcn ≤ u32_max) × (pci ≤ 503)

build_set_command_lem :
    (earfcn : ℕ) (has_pci : Bool) (pci : ℕ) (old : Bytes) (band : ℕ)
    → earfcn_to_band earfcn ≡ some band
    → pci ≤ 503
    → build_set_command earfcn has_pci pci command_max old
      ≡ (true, set_command_text band earfcn (effective_pci has_pci pci))
unfolding build_set_command
build_set_command_lem earfcn has_pci pci old band b p =
    rw b (ground (arith, length-set_command_text band earfcn (effective_pci has_pci pci)))

-- With the buffer of 96 bytes a command is built for every channel of a known band with every PCI
-- of at most 503 or none, and two requests with the same command have the same channel and the
-- same PCI (the wildcard standing for none).
pub build_set_command-injective :
    (earfcn earfcn' : ℕ) (has_pci has_pci' : Bool) (pci pci' : ℕ) (old old' : Bytes)
    → IsRequest earfcn has_pci pci
    → IsRequest earfcn' has_pci' pci'
    → ((build_set_command earfcn has_pci pci command_max old).0 ≡ true)
      × ((build_set_command earfcn has_pci pci command_max old
            ≡ build_set_command earfcn' has_pci' pci' command_max old')
          → (earfcn ≡ earfcn') × (effective_pci has_pci pci ≡ effective_pci has_pci' pci'))
build_set_command-injective earfcn earfcn' has_pci has_pci' pci pci' old old' r r' =
    let ((band, b), he, hp) = r in
    let ((band', b'), he', hp') = r' in
    let first = build_set_command_lem earfcn has_pci pci old band b hp in
    let second = build_set_command_lem earfcn' has_pci' pci' old' band' b' hp' in
    (
      ap (λ x. x.0) first,
      λ same.
          set_command_text-injective band earfcn (effective_pci has_pci pci) band' earfcn'
            (effective_pci has_pci' pci') (he, he', ground arith, ground arith)
            (ap (λ x. x.1) (sym first ∙ same ∙ second)),
    )
