-- ===== src/Ca/Decimal.antt =====
-- The decimal readers of l850gl-mm-bridge/src/l850_ca.c.
use luci_app_l850gl_mm.Base.Int.{ℤ, pos}
use luci_app_l850gl_mm.Base.{ℕ, ◌+◌, [], ◌∷◌, Option, none, some, ◌==◌, if◌then◌else◌, Bytes, ◌>>=◌}
use luci_app_l850gl_mm.Number.{u32_max, i32_max, u64_mod, decimal, negate}

unfoldable pub parse_uint32_decimal : Bytes → Option ℕ
unfolding decimal
parse_uint32_decimal s = decimal u32_max u64_mod s

unfoldable pub parse_int32_decimal : Bytes → Option ℤ
unfolding decimal negate
parse_int32_decimal [] = none
parse_int32_decimal (c ∷ s) =
    if c == b'-'
    then (do n ← decimal (i32_max + 1) u64_mod s; some (negate n))
    else (do n ← decimal i32_max u64_mod (c ∷ s); some (pos n))
