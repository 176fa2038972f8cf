-- ===== src/Common/Words.antt =====
-- Machine integers: the widths that the program uses, and the saturating operations of the
-- standard library. A value is a number; each operation writes out its own limit.
use scrybe.Common.Int.{ℤ, pos, negsuc, ◌+ℤ◌, ◌-ℤ◌, leb_ℤ, pos_part, neg_part}
use Prim.Native.Nat.{ℕ, ◌+◌, ◌-◌, ◌%◌, min}
use scrybe.Common.Tests.{ltb, if◌then◌else◌}

abbrev pub u32_mod : ℕ
u32_mod = 4294967296

abbrev pub u64_mod : ℕ
u64_mod = 18446744073709551616

abbrev pub u64_max : ℕ
u64_max = 18446744073709551615

-- `u64::saturating_add`
abbrev pub sat_add_u64 : ℕ → ℕ → ℕ
sat_add_u64 a b = min (a + b) u64_max

abbrev pub i64_max : ℤ
i64_max = pos 9223372036854775807

abbrev pub i64_min : ℤ
i64_min = negsuc 9223372036854775807

-- the nearest value of the type
unfoldable pub saturate_i64 : ℤ → ℤ
saturate_i64 a = if leb_ℤ i64_max a then i64_max else if leb_ℤ a i64_min then i64_min else a

abbrev pub sat_add_i64 : ℤ → ℤ → ℤ
sat_add_i64 a b = saturate_i64 (a +ℤ b)

abbrev pub sat_sub_i64 : ℤ → ℤ → ℤ
sat_sub_i64 a b = saturate_i64 (a -ℤ b)

-- two's complement: a - b and its absolute value in a build without overflow checks
unfoldable pub wrap_i64 : ℤ → ℤ
wrap_i64 a =
    let w = (pos_part a + u64_mod - neg_part a % u64_mod) % u64_mod in
    if ltb w 9223372036854775808 then pos w else negsuc (u64_max - w)
