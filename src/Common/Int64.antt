-- ===== src/Common/Int64.antt =====
-- Go's `int64` as a bit pattern below 2 ^ 64, with addition that wraps around and the signed order.
use materialmind.Common.{ℕ, ◌+◌, ◌%◌, ◌^◌, ◌<◌, ◌≡◌, Bool, arith, ltb}

-- `a + b` on int64 or uint64
abbrev pub add64 : ℕ → ℕ → ℕ
add64 a b = (a + b) % 2 ^ 64

-- `a < b` on int64
abbrev pub slt : ℕ → ℕ → Bool
slt a b = ltb ((a + 2 ^ 63) % 2 ^ 64) ((b + 2 ^ 63) % 2 ^ 64)

-- On patterns of numbers that are not negative the signed order is the order.
pub slt_nonneg : (a b : ℕ) → a < 2 ^ 63 → b < 2 ^ 63 → slt a b ≡ ltb a b
slt_nonneg a b p q = ground arith
