-- ===== src/Result.antt =====
-- A call that returns or raises: the exceptions of src/trading/paper.py.

-- `PaperTradingError`, by the place that raises it; `insufficient` is its subclass
-- `InsufficientPaperBalanceError`.
pub data Error : Type 0 where
  lock_not_positive unlock_not_positive add_not_positive deduct_not_positive : Error
  insufficient over_unlocked no_balance : Error
  -- pydantic's `ValidationError` for a `Position`
  invalid_position : Error

pub data Result (A : Type 0) : Type 0 where
  ok : A → Result A
  err : Error → Result A

infixl 5 ◌>>=◌
abbrev pub ◌>>=◌ : {A B : Type 0} → Result A → (A → Result B) → Result B
ok a >>= f = f a
err e >>= f = err e
