-- ===== src/TradingMath.antt =====
-- src/utils/trading_math.py: the average true range, the floor on the distance of a stop, and the
-- profit of a trade. `Position.calculate_pnl` is that of src/models.py.
pub mod Floor
pub mod TrueRange
pub mod Pnl
use crypto_master.Prelude.{
  ℕ, zero, suc, ◌-◌, ◌+◌, Bool, true, false, Option, none, some, List, [], ◌∷◌, if◌then◌else◌, ltb,
  length, take, drop,
}
use crypto_master.Prelude.Int.{ℤ, pos, negsuc}
use crypto_master.Text.{Text, text}
use crypto_master.Dict.{Dict, lookup}
use crypto_master.Decimal.{Decimal, Context, add, sub, mul, div, neg, abs, max, le, sum, literal}
use crypto_master.TradingTypes.{TradeSide}

-- The fields of a candle that the true range reads.
pub record Candle : Type 0 where
  pub high : Decimal
  pub low : Decimal
  pub close : Decimal

-- `ValueError`, or the value.
pub data Atr : Type 0 where
  bad_period : Atr
  too_few : Atr
  average : Decimal → Atr

module _ ⦃c : Context⦄ where
  unfoldable pub true_range : Decimal → Candle → Decimal
  true_range prev_close k =
      max (max (sub k.high k.low) (abs (sub k.high prev_close))) (abs (sub k.low prev_close))

  -- The first loop of `compute_atr`: from the second candle on, against the close before it.
  unfoldable pub true_ranges : Decimal → List Candle → List Decimal
  true_ranges prev_close [] = []
  true_ranges prev_close (k ∷ ks) = true_range prev_close k ∷ true_ranges k.close ks

  -- The second loop: Wilder's smoothing.
  unfoldable pub smooth : Decimal → Decimal → List Decimal → Decimal
  smooth period atr [] = atr
  smooth period atr (tr ∷ trs) =
      smooth period (div (add (mul atr (sub period (literal 1 1))) tr) period) trs

  -- `compute_atr` from its second guard on, with `period` positive.
  unfoldable pub wilder : ℕ → List Candle → Atr
  unfolding true_range true_ranges smooth sum
  wilder period [] = too_few
  wilder period (k ∷ ks) =
      let trs = true_ranges k.close ks in
      if ltb (length (k ∷ ks)) (period + 1)
      then too_few
      else average (
          smooth (literal period 1) (div (sum (pos 0) (take period trs)) (literal period 1))
            (drop period trs))

  unfoldable pub compute_atr : List Candle → ℤ → Atr
  unfolding wilder
  compute_atr ohlcv (negsuc n) = bad_period
  compute_atr ohlcv (pos zero) = bad_period
  compute_atr ohlcv (pos (suc n)) = wilder (suc n) ohlcv

  -- `TF_MIN_SL_PCT`
  abbrev pub tf_min_sl_pct : Dict Decimal
  tf_min_sl_pct =
      (text "5m", literal 3 1000)
      ∷ (text "15m", literal 4 1000)
      ∷ (text "30m", literal 6 1000)
      ∷ (text "1h", literal 8 1000)
      ∷ (text "2h", literal 12 1000)
      ∷ (text "4h", literal 15 1000)
      ∷ (text "8h", literal 20 1000)
      ∷ (text "12h", literal 22 1000)
      ∷ (text "1d", literal 25 1000)
      ∷ (text "1w", literal 40 1000)
      ∷ []

  -- `TF_MIN_SL_PCT.get(timeframe, DEFAULT_TF_MIN_SL_PCT)`
  unfoldable pub tf_pct : Text → Decimal
  tf_pct timeframe = elim (lookup timeframe tf_min_sl_pct) [
    | none ↦ literal 8 1000
    | some pct ↦ pct
  ]

  unfoldable pub tf_floor_distance : Decimal → Text → Decimal
  tf_floor_distance entry_price timeframe = mul entry_price (tf_pct timeframe)

  unfoldable pub atr_floor_distance : Option Decimal → Decimal
  atr_floor_distance none = pos 0
  atr_floor_distance (some atr) = mul atr (literal 15 10)

  unfoldable pub floor_distance : Decimal → Text → Option Decimal → Decimal
  floor_distance entry_price timeframe atr =
      max (tf_floor_distance entry_price timeframe) (atr_floor_distance atr)

  -- The last two returns of `enforce_sl_floor`.
  unfoldable pub widened : TradeSide → Decimal → Decimal → Decimal
  widened TradeSide.long entry_price distance = sub entry_price distance
  widened TradeSide.short entry_price distance = add entry_price distance

  unfoldable pub enforce_sl_floor : TradeSide → Decimal → Decimal → Text → Option Decimal → Decimal
  unfolding widened
  enforce_sl_floor side entry_price stop_loss timeframe atr =
      let floor = floor_distance entry_price timeframe atr in
      if le floor (abs (sub entry_price stop_loss))
      then stop_loss
      else widened side entry_price floor

  unfoldable pub pnl_for_trade : Decimal → Decimal → Decimal → TradeSide → Decimal
  pnl_for_trade entry exit qty TradeSide.long = mul (sub exit entry) qty
  pnl_for_trade entry exit qty TradeSide.short = mul (sub entry exit) qty

  -- `Position.calculate_pnl` of src/models.py, over the fields that it reads.
  unfoldable pub position_pnl : TradeSide → Decimal → Decimal → Decimal → Decimal
  position_pnl TradeSide.long entry_price quantity current_price =
      mul (sub current_price entry_price) quantity
  position_pnl TradeSide.short entry_price quantity current_price =
      mul (neg (sub current_price entry_price)) quantity
