-- ===== src/Base/Words.antt =====
-- Go's machine integers: a uint64 and a uint32 are numbers with their wrap-around written out, an
-- int64 is an integer, and a conversion keeps the bit pattern.
use moqlivemock_svc.Base.{ℕ, ◌+◌, ◌-◌, ◌%◌, ltb, if◌then◌else◌}
use moqlivemock_svc.Base.Int.{ℤ, pos, negsuc}

abbrev pub u64 : ℕ → ℕ
u64 n = n % 18446744073709551616

abbrev pub u32 : ℕ → ℕ
u32 n = n % 4294967296

abbrev pub u8 : ℕ → ℕ
u8 n = n % 256

-- `a - b` on uint64.
abbrev pub sub_u64 : ℕ → ℕ → ℕ
sub_u64 a b = (a + 18446744073709551616 - b) % 18446744073709551616

-- `int64(n)` of a uint64.
abbrev pub i64_of_u64 : ℕ → ℤ
i64_of_u64 n = if ltb n 9223372036854775808 then pos n else negsuc (18446744073709551615 - n)

-- The bit pattern of an integer that may lie outside the range of int64.
abbrev pub bits_of : ℤ → ℕ
bits_of (pos n) = n % 18446744073709551616
bits_of (negsuc n) = 18446744073709551615 - n % 18446744073709551616

-- The int64 that an integer becomes by overflow.
abbrev pub wrap_i64 : ℤ → ℤ
wrap_i64 z = i64_of_u64 (bits_of z)
