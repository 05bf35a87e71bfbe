-- ===== src/Exit.antt =====
-- src/trading/base.py: when a price closes a position; `validate_prices` and `validate_leverage`
-- are those of src/trading/strategy.py, and `Position` that of src/models.py.
pub mod Triggers
use crypto_master.Prelude.{ℕ, Bool, true, false, Option, none, some, if◌then◌else◌, is_some}
use crypto_master.Prelude.Int.{ℤ, pos, ltb_ℤ}
use crypto_master.Text.{Text}
use crypto_master.Decimal.{Decimal, lt, le}
use crypto_master.TradingTypes.{TradeSide, SignalSide}

pub record Position : Type 0 where
  pub symbol : Text
  pub side : TradeSide
  pub entry_price : Decimal
  pub quantity : Decimal
  pub leverage : ℕ
  pub stop_loss : Option Decimal
  pub take_profit : Option Decimal

pub data ExitReason : Type 0 where
  stop_loss take_profit : ExitReason

-- The price is at the stop of a long or a short, or past it.
unfoldable pub at_stop : TradeSide → Decimal → Decimal → Bool
at_stop TradeSide.long price stop = le price stop
at_stop TradeSide.short price stop = le stop price

unfoldable pub at_target : TradeSide → Decimal → Decimal → Bool
at_target TradeSide.long price target = le target price
at_target TradeSide.short price target = le price target

-- The second half of `exit_reason_for_position`.
unfoldable pub target_reason : TradeSide → Option Decimal → Decimal → Option ExitReason
unfolding at_target
target_reason side none price = none
target_reason side (some target) price =
    if at_target side price target then some take_profit else none

unfoldable pub exit_reason :
    TradeSide → Option Decimal → Option Decimal → Decimal → Option ExitReason
unfolding at_stop target_reason
exit_reason side none target price = target_reason side target price
exit_reason side (some stop) target price =
    if at_stop side price stop then some stop_loss else target_reason side target price

unfoldable pub exit_reason_for_position : Position → Decimal → Option ExitReason
unfolding exit_reason
exit_reason_for_position p price = exit_reason p.side p.stop_loss p.take_profit price

unfoldable pub exit_condition_for_position : Position → Decimal → Bool × Option ExitReason
unfolding exit_reason_for_position
exit_condition_for_position p price =
    let reason = exit_reason_for_position p price in (is_some reason, reason)

-- `TradingValidationError`, by the field that it names.
pub data Validation : Type 0 where
  valid : Validation
  bad_entry_price bad_stop_loss bad_take_profit : Validation

-- The two last branches of `validate_prices`.
unfoldable pub validate_side : SignalSide → Decimal → Decimal → Decimal → Validation
validate_side SignalSide.neutral entry stop target = valid
validate_side SignalSide.long entry stop target =
    if le entry stop then bad_stop_loss else if le target entry then bad_take_profit else valid
validate_side SignalSide.short entry stop target =
    if le stop entry then bad_stop_loss else if le entry target then bad_take_profit else valid

unfoldable pub validate_directional : SignalSide → Decimal → Decimal → Decimal → Validation
unfolding validate_side
validate_directional signal entry stop target =
    if le entry (pos 0)
    then bad_entry_price
    else if le stop (pos 0)
    then bad_stop_loss
    else if le target (pos 0)
    then bad_take_profit
    else validate_side signal entry stop target

unfoldable pub validate_prices : SignalSide → Decimal → Decimal → Decimal → Validation
unfolding validate_directional
validate_prices SignalSide.neutral entry stop target = valid
validate_prices SignalSide.long entry stop target =
    validate_directional SignalSide.long entry stop target
validate_prices SignalSide.short entry stop target =
    validate_directional SignalSide.short entry stop target

-- `none` is the `TradingValidationError`; the ceiling is `config.max_leverage`.
unfoldable pub validate_leverage : ℤ → ℤ → Option ℤ
validate_leverage max_leverage leverage =
    if ltb_ℤ leverage (pos 1)
    then none
    else if ltb_ℤ max_leverage leverage
    then some max_leverage
    else some leverage
