-- ===== src/Paper/Balance.antt =====
-- `PaperBalance` of src/trading/paper.py: the free and the locked amount of one currency. A method
-- that raises leaves the balance as it was.
pub mod Laws
use crypto_master.Prelude.{Bool, if◌then◌else◌}
use crypto_master.Prelude.Int.{pos}
use crypto_master.Text.{Text}
use crypto_master.Decimal.{Decimal, Context, add, sub, lt, le, literal}
use crypto_master.Result.{
  Result, ok, err, lock_not_positive, unlock_not_positive, add_not_positive, deduct_not_positive,
  insufficient, over_unlocked,
}

pub record PaperBalance : Type 0 where
  pub currency : Text
  pub free : Decimal
  pub locked : Decimal

module _ ⦃c : Context⦄ where
  -- `EPS`
  abbrev pub eps : Decimal
  eps = literal 1 1_000_000_000

  unfoldable pub total : PaperBalance → Decimal
  total b = add b.free b.locked

  unfoldable pub lock : Decimal → PaperBalance → Result PaperBalance
  lock amount b =
      if le amount (pos 0)
      then err lock_not_positive
      else if lt b.free amount
      then err insufficient
      else ok (record b { free = sub b.free amount; locked = add b.locked amount })

  -- The branch of `unlock` that tolerates a residual.
  unfoldable pub release_residual : Decimal → PaperBalance → Result PaperBalance
  release_residual amount b =
      if le (sub amount b.locked) eps
      then ok (record b { free = add b.free b.locked; locked = pos 0 })
      else err over_unlocked

  unfoldable pub unlock : Decimal → PaperBalance → Result PaperBalance
  unfolding release_residual
  unlock amount b =
      if le amount (pos 0)
      then err unlock_not_positive
      else if lt b.locked amount
      then release_residual amount b
      else ok (record b { locked = sub b.locked amount; free = add b.free amount })

  -- `PaperBalance.add`
  unfoldable pub credit : Decimal → PaperBalance → Result PaperBalance
  credit amount b =
      if le amount (pos 0) then err add_not_positive else ok (record b { free = add b.free amount })

  unfoldable pub deduct : Decimal → PaperBalance → Result PaperBalance
  deduct amount b =
      if le amount (pos 0)
      then err deduct_not_positive
      else if lt b.free amount
      then err insufficient
      else ok (record b { free = sub b.free amount })
