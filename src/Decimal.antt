-- ===== src/Decimal.antt =====
-- Python's `decimal.Decimal`, the finite values. Every such value is a whole number of the
-- smallest quantum of the context (ten to the power `Etiny`), so a value is that integer: orders
-- and equality are those of the integers, and each operation is the exact result, rounded once.
pub mod Laws
pub mod Exact
use crypto_master.Prelude.{Bool, ℕ, suc, ◌*◌, ◌/◌, List, [], ◌∷◌, if◌then◌else◌, ◌≡◌}
use crypto_master.Prelude.Int.{ℤ, pos, negsuc, ◌+ℤ◌, ◌-ℤ◌, ◌*ℤ◌, ltb_ℤ, leb_ℤ, eqb_ℤ, abs_ℤ}

abbrev pub Decimal : Type 0
Decimal = ℤ

-- `decimal.getcontext()`: the number of quanta in 1, and the rounding of an exact quotient of
-- quanta to a value of the context.
pub record Context : Type 0 where
  pub unit : ℕ
  pub round : ℤ → ℕ → Decimal

abbrev pub zero_dec : Decimal
zero_dec = pos 0

-- The comparisons `a < b`, `a <= b` and `a == b`.
abbrev pub lt : Decimal → Decimal → Bool
lt = ltb_ℤ

abbrev pub le : Decimal → Decimal → Bool
le = leb_ℤ

abbrev pub eq : Decimal → Decimal → Bool
eq = eqb_ℤ

-- The builtin `max(a, b)`, which returns its first argument on a tie.
unfoldable pub max : Decimal → Decimal → Decimal
max a b = if lt a b then b else a

module _ ⦃c : Context⦄ where
  -- The literal `Decimal("n/d")`, for a power of ten `d`: no rounding.
  abbrev pub literal : ℕ → ℕ → Decimal
  literal n d = pos (n * c.unit / d)

  unfoldable pub add : Decimal → Decimal → Decimal
  add a b = c.round (a +ℤ b) 1

  unfoldable pub sub : Decimal → Decimal → Decimal
  sub a b = c.round (a -ℤ b) 1

  unfoldable pub mul : Decimal → Decimal → Decimal
  mul a b = c.round (a *ℤ b) c.unit

  -- `a / b`; the callers keep `b` from zero, where Python raises.
  unfoldable pub div : Decimal → Decimal → Decimal
  div a (pos b) = c.round (a *ℤ pos c.unit) b
  div a (negsuc b) = c.round ((pos 0 -ℤ a) *ℤ pos c.unit) (suc b)

  -- `-a`
  unfoldable pub neg : Decimal → Decimal
  neg a = c.round (pos 0 -ℤ a) 1

  -- `abs(a)`
  unfoldable pub abs : Decimal → Decimal
  abs a = c.round (abs_ℤ a) 1

  -- `sum(xs, start)`
  unfoldable pub sum : Decimal → List Decimal → Decimal
  sum start [] = start
  sum start (x ∷ xs) = sum (add start x) xs

  -- A value that the context can hold: rounding leaves it alone.
  abbrev pub IsRepr : Decimal → Type 0
  IsRepr a = c.round a 1 ≡ a
