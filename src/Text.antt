-- ===== src/Text.antt =====
-- The C string helpers that the response parsers share: `trim_ascii` of
-- l850gl-mm-bridge/src/l850_cell.c (repeated in l850_ca.c and l850_voltage.c), the cutting of a
-- response at its newlines, and the removal of a final carriage return.
pub mod Laws
use luci_app_l850gl_mm.Base.{
  ℕ, Bool, true, false, ◌||◌, List, [], ◌∷◌, Option, none, some, ◌==◌, if◌then◌else◌, Bytes,
}

abbrev pub is_blank : ℕ → Bool
is_blank c = c == b' ' || c == b'\t'

-- `while (*value == ' ' || *value == '\t') value++;`
pub skip_blanks : Bytes → Bytes
skip_blanks [] = []
skip_blanks (c ∷ s) = elim (is_blank c) [ true ↦ skip_blanks s | false ↦ c ∷ s ]

keep : ℕ → Bytes → Bytes
keep c [] = if is_blank c then [] else c ∷ []
keep c (d ∷ s) = c ∷ d ∷ s

-- `while (end > value && (end[-1] == ' ' || end[-1] == '\t')) *--end = '\0';`
pub drop_blanks : Bytes → Bytes
unfolding keep
drop_blanks [] = []
drop_blanks (c ∷ s) = keep c (drop_blanks s)

unfoldable pub trim_ascii : Bytes → Bytes
unfolding skip_blanks drop_blanks
trim_ascii s = drop_blanks (skip_blanks s)

-- `if (line[0] != '\0' && line[strlen(line) - 1U] == '\r') line[strlen(line) - 1U] = '\0';`
unfoldable pub strip_cr : Bytes → Bytes
strip_cr [] = []
strip_cr (c ∷ []) = if c == b'\r' then [] else c ∷ []
strip_cr (c ∷ d ∷ s) = c ∷ strip_cr (d ∷ s)

-- A byte in front of the first piece.
unfoldable pub push_front : ℕ → List Bytes → List Bytes
push_front c [] = (c ∷ []) ∷ []
push_front c (p ∷ ps) = (c ∷ p) ∷ ps

-- All pieces between separators: a walk that follows `strchr(cursor, separator)` until it is NULL,
-- with a NUL written over each separator.
unfoldable pub split : ℕ → Bytes → List Bytes
unfolding push_front
split separator [] = [] ∷ []
split separator (c ∷ s) =
    if c == separator then [] ∷ split separator s else push_front c (split separator s)

-- `strncmp(text, prefix, strlen(prefix)) == 0`, with the text behind the prefix.
unfoldable pub after_prefix : Bytes → Bytes → Option Bytes
after_prefix [] s = some s
after_prefix (p ∷ ps) [] = none
after_prefix (p ∷ ps) (c ∷ s) = if p == c then after_prefix ps s else none

-- `strchr(text, byte) != NULL`, or `memchr` over the whole text.
unfoldable pub has_byte : ℕ → Bytes → Bool
has_byte b [] = false
has_byte b (c ∷ s) = c == b || has_byte b s
