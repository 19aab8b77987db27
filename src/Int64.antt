-- ===== src/Int64.antt =====
-- The int64 arithmetic of Go, with its wrap-around written out: the nanosecond counts of
-- Time.UnixNano and the products and sums of internal/worker/cpu_clock.go.
use saga_rydd.Prelude.{
  ℕ, ◌+◌, ◌-◌, ◌%◌, ◌≤◌, ◌≡◌, Bool, true, false, arith, leb, ltb, ◌==◌, if◌then◌else◌,
}
use saga_rydd.Prelude.Int.{ℤ, pos, negsuc, max_int64}

-- 2 ^ 64
abbrev pub two_64 : ℕ
two_64 = 18446744073709551616

-- Reads 64 bits as a signed number.
abbrev pub of_bits : ℕ → ℤ
of_bits bits = if leb bits max_int64 then pos bits else negsuc (two_64 - 1 - bits)

-- The int64 that a result that is not negative is stored as.
unfoldable pub to_int64 : ℕ → ℤ
to_int64 n = of_bits (n % two_64)

abbrev pub lt_int : ℤ → ℤ → Bool
lt_int (pos a) (pos b) = ltb a b
lt_int (negsuc a) (pos b) = true
lt_int (pos a) (negsuc b) = false
lt_int (negsuc a) (negsuc b) = ltb b a

abbrev pub int_eq : ℤ → ℤ → Bool
int_eq (pos a) (pos b) = a == b
int_eq (negsuc a) (negsuc b) = a == b
int_eq _ _ = false

unfoldable pub add_int64 : ℤ → ℤ → ℤ
add_int64 (pos a) (pos b) = to_int64 (a + b)
add_int64 (pos a) (negsuc b) = if leb a b then negsuc (b - a) else pos (a - b - 1)
add_int64 (negsuc a) (pos b) = if leb b a then negsuc (a - b) else pos (b - a - 1)
add_int64 (negsuc a) (negsuc b) = to_int64 (two_64 + two_64 - (a + b + 2))

-- math.MaxInt64 - z
unfoldable pub max_minus : ℤ → ℤ
max_minus (pos a) = pos (max_int64 - a)
max_minus (negsuc a) = to_int64 (max_int64 + a + 1)

pub to_int64-small : (n : ℕ) → n ≤ max_int64 → to_int64 n ≡ pos n
unfolding to_int64
to_int64-small n le = ground arith
