-- ===== src/Decimal/Exact.antt =====
-- A context that the tests use: fixed point with twelve places, rounded towards zero.
use crypto_master.Prelude.{ℕ, ◌/◌, ◌≤◌, ◌≡◌, suc, arith}
use crypto_master.Prelude.Int.{ℤ, pos, negsuc, ◌-ℤ◌, ◌≤ℤ◌}
use crypto_master.Decimal.{Context}
use crypto_master.Decimal.Laws.{IsRounding, IsExact}

abbrev pub quotient : ℤ → ℕ → ℤ
quotient (pos n) d = pos (n / d)
quotient (negsuc n) d = pos 0 -ℤ pos (suc n / d)

abbrev pub fixed : Context
fixed = record { unit = 1_000_000_000_000; round = quotient }

div_mono : (m n d : ℕ) → m ≤ n → m / d ≤ n / d
div_mono m n d h = grind arith

quotient_mono : (m n : ℤ) (d : ℕ) → m ≤ℤ n → quotient m d ≤ℤ quotient n d
unfolding ◌-ℤ◌
quotient_mono (pos m) (pos n) d h =
    let k : m / d ≤ n / d = div_mono m n d (omega arith) in omega arith
quotient_mono (pos m) (negsuc n) d h = absurd (omega arith)
quotient_mono (negsuc m) (pos n) d h = ground arith
quotient_mono (negsuc m) (negsuc n) d h = ground (arith, div_mono (suc n) (suc m) d)

quotient_again : (n : ℤ) (d : ℕ) → quotient (quotient n d) 1 ≡ quotient n d
unfolding ◌-ℤ◌
quotient_again n d = ground arith

quotient_neg : (n : ℤ) (d : ℕ) → quotient (pos 0 -ℤ n) d ≡ pos 0 -ℤ quotient n d
unfolding ◌-ℤ◌
quotient_neg n d = ground arith

quotient_zero : (d : ℕ) → quotient (pos 0) d ≡ pos 0
quotient_zero d = ground arith

pub fixed-IsRounding : IsRounding fixed
fixed-IsRounding = record {
  unit_pos = omega arith;
  round_mono = quotient_mono;
  round_zero = quotient_zero;
  round_neg = quotient_neg;
  round_again = quotient_again;
}

quotient_exact : (n : ℤ) → quotient n 1 ≡ n
unfolding ◌-ℤ◌
quotient_exact (pos n) = ground arith
quotient_exact (negsuc n) = ground arith

pub fixed-IsExact : IsExact fixed
fixed-IsExact = record { exact = quotient_exact }
