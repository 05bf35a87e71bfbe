-- ===== src/Paper/Valid.antt =====
-- The positions that `Position` of src/models.py accepts.
use crypto_master.Prelude.{◌≡◌, refl, Option, none, some, true, arith, ◌≤◌}
use crypto_master.Prelude.Int.{pos}
use crypto_master.Decimal.{Decimal, lt}
use crypto_master.Exit.{Position}
use crypto_master.RiskPolicy.{positive_or_none}
use crypto_master.Paper.Startup.{valid_position}

-- A bound is positive where there is one.
abbrev pub IsPositiveBound : Option Decimal → Type 0
IsPositiveBound none = Unit {0}
IsPositiveBound (some a) = lt (pos 0) a ≡ true

-- A positive price and quantity, a leverage of 1 to 125, and positive bounds.
pub record IsValid (p : Position) : Type 0 where
  pub price : lt (pos 0) p.entry_price ≡ true
  pub size : lt (pos 0) p.quantity ≡ true
  pub leverage_from : 1 ≤ p.leverage
  pub leverage_to : p.leverage ≤ 125
  pub stop : IsPositiveBound p.stop_loss
  pub target : IsPositiveBound p.take_profit

positive_or_none-of_bound : (a : Option Decimal) → IsPositiveBound a → positive_or_none a ≡ true
unfolding positive_or_none
positive_or_none-of_bound none h = refl
positive_or_none-of_bound (some a) h = h

pub valid_position-of_IsValid : (p : Position) → IsValid p → valid_position p ≡ true
unfolding valid_position
valid_position-of_IsValid p v =
    let price = v.price in
    let size = v.size in
    let from = v.leverage_from in
    let to = v.leverage_to in
    ground (
      arith,
      price,
      size,
      from,
      to,
      positive_or_none-of_bound p.stop_loss v.stop,
      positive_or_none-of_bound p.take_profit v.target,
    )
