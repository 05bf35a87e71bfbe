-- ===== src/Exit/Triggers.antt =====
-- The exits of src/trading/base.py, and how they fit the prices that src/trading/strategy.py
-- accepts.
use crypto_master.Prelude.{
  ◌≡◌, ◌≢◌, ◌↔◌, ◌⊎◌, refl, true, Option, none, some, arith, inl, inr, is_some,
}
use crypto_master.Prelude.Int.{ℤ, pos, ◌≤ℤ◌, ◌<ℤ◌, ≤ℤ-or-lt}
use crypto_master.Decimal.{Decimal}
use crypto_master.TradingTypes.{TradeSide, SignalSide}
use crypto_master.Exit.{
  Position, ExitReason, stop_loss, take_profit, at_stop, at_target, target_reason, exit_reason,
  exit_reason_for_position, exit_condition_for_position, valid, validate_side, validate_directional,
  validate_prices, validate_leverage,
}

-- The price has reached the stop; without a stop it never has.
abbrev pub IsStopped : TradeSide → Option Decimal → Decimal → Type 0
IsStopped side none price = ⊥
IsStopped TradeSide.long (some stop) price = price ≤ℤ stop
IsStopped TradeSide.short (some stop) price = stop ≤ℤ price

-- The price has reached the target.
abbrev pub IsPaid : TradeSide → Option Decimal → Decimal → Type 0
IsPaid side none price = ⊥
IsPaid TradeSide.long (some target) price = target ≤ℤ price
IsPaid TradeSide.short (some target) price = price ≤ℤ target

-- What an exit reason says of the price.
abbrev pub Explains :
    Option ExitReason → TradeSide → Option Decimal → Option Decimal → Decimal → Type 0
Explains (some stop_loss) side stop target price = IsStopped side stop price
Explains (some take_profit) side stop target price =
    (¬ IsStopped side stop price) × IsPaid side target price
Explains none side stop target price = (¬ IsStopped side stop price) × (¬ IsPaid side target price)

exit_reason-Explains :
    (side : TradeSide) (stop target : Option Decimal) (price : Decimal)
    → Explains (exit_reason side stop target price) side stop target price
unfolding exit_reason at_stop target_reason at_target
exit_reason-Explains TradeSide.long none none price = ground arith
exit_reason-Explains TradeSide.long none (some t) price = ground arith
exit_reason-Explains TradeSide.long (some s) none price = ground arith
exit_reason-Explains TradeSide.long (some s) (some t) price = ground arith
exit_reason-Explains TradeSide.short none none price = ground arith
exit_reason-Explains TradeSide.short none (some t) price = ground arith
exit_reason-Explains TradeSide.short (some s) none price = ground arith
exit_reason-Explains TradeSide.short (some s) (some t) price = ground arith

is_some_iff : (o : Option ExitReason) → (is_some o ≡ true) ↔ (o ≢ none)
is_some_iff none = ground arith
is_some_iff (some r) = ground arith

-- The reason that a position gives at a price explains it, and the flag beside it says whether
-- there is one: `stop_loss` where the price has reached the stop, also where it has reached the
-- target too; `take_profit` where it has reached the target and not the stop; none where it has
-- reached neither.
pub exit_condition-Explains :
    (p : Position) (price : Decimal)
    → let (should_exit, reason) = exit_condition_for_position p price in
      Explains reason p.side p.stop_loss p.take_profit price
      × ((should_exit ≡ true) ↔ (reason ≢ none))
unfolding exit_condition_for_position exit_reason_for_position
exit_condition-Explains p price =
    (exit_reason-Explains p.side p.stop_loss p.take_profit price, is_some_iff _)

-- The prices stand in the order that the side asks for.
abbrev pub IsOrdered : SignalSide → Decimal → Decimal → Decimal → Type 0
IsOrdered SignalSide.neutral entry stop target = Unit
IsOrdered SignalSide.long entry stop target = (pos 0 <ℤ stop) × (stop <ℤ entry) × (entry <ℤ target)
IsOrdered SignalSide.short entry stop target =
    (pos 0 <ℤ target) × (target <ℤ entry) × (entry <ℤ stop)

-- The prices of an analysis are accepted exactly where they are positive and the entry lies
-- strictly between the stop and the target, on the side's order; neutral ones always are.
pub validate_prices-eq-valid_iff :
    (signal : SignalSide) (entry stop target : Decimal)
    → (validate_prices signal entry stop target ≡ valid) ↔ IsOrdered signal entry stop target
unfolding validate_prices validate_directional validate_side
validate_prices-eq-valid_iff SignalSide.neutral entry stop target = (λ _. tt, λ _. refl)
validate_prices-eq-valid_iff SignalSide.long entry stop target = ground arith
validate_prices-eq-valid_iff SignalSide.short entry stop target = ground arith

abbrev pub signal_of : TradeSide → SignalSide
signal_of TradeSide.long = SignalSide.long
signal_of TradeSide.short = SignalSide.short

-- A position that is opened at validated prices does not exit at its entry price.
pub validated_stays_open :
    (side : TradeSide) (entry stop target : Decimal)
    → validate_prices (signal_of side) entry stop target ≡ valid
    → exit_reason side (some stop) (some target) entry ≡ none
unfolding exit_reason at_stop target_reason at_target
validated_stays_open TradeSide.long entry stop target v =
    let order = (validate_prices-eq-valid_iff SignalSide.long entry stop target).0 v in ground arith
validated_stays_open TradeSide.short entry stop target v =
    let order = (validate_prices-eq-valid_iff SignalSide.short entry stop target).0 v in
    ground arith

-- A leverage below one is refused; any other comes back capped: at most the ceiling and at most
-- what was asked for, and one of the two.
pub validate_leverage_cases :
    (ceiling asked : ℤ)
    → ((asked <ℤ pos 1) × (validate_leverage ceiling asked ≡ none))
      ⊎ ((l : ℤ) × (validate_leverage ceiling asked ≡ some l)
          × (l ≤ℤ ceiling)
          × (l ≤ℤ asked)
          × ((l ≡ ceiling) ⊎ (l ≡ asked)))
unfolding validate_leverage
validate_leverage_cases ceiling asked = elim (≤ℤ-or-lt (pos 1) asked) [
  | inr low ↦ inl (low, ground arith)
  | inl fine ↦ elim (≤ℤ-or-lt asked ceiling) [
    | inl under ↦ inr (asked, ground arith, under, omega arith, inr refl)
    | inr over ↦ inr (ceiling, ground arith, omega arith, omega arith, inl refl)
  ]
]
