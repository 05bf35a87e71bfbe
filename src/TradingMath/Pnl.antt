-- ===== src/TradingMath/Pnl.antt =====
-- The profit of a trade: `pnl_for_trade` of src/utils/trading_math.py and `Position.calculate_pnl`
-- of src/models.py.
use crypto_master.Prelude.{◌≡◌, ◌∙◌, ap, sym, refl}
use crypto_master.Prelude.Int.{pos, ◌-ℤ◌, ◌≤ℤ◌, int_laws}
use crypto_master.Decimal.{Decimal, Context, sub, mul, neg}
use crypto_master.Decimal.Laws.{IsRounding, mul_nonneg, sub_nonneg, mul_mono}
use crypto_master.TradingTypes.{TradeSide}
use crypto_master.TradingMath.{pnl_for_trade, position_pnl}

-- The price moved in the trade's favour.
abbrev pub IsFavourable : TradeSide → Decimal → Decimal → Type 0
IsFavourable TradeSide.long before after = before ≤ℤ after
IsFavourable TradeSide.short before after = after ≤ℤ before

module _ ⦃c : Context⦄ (r : IsRounding c) where
  sub_mono : (a b x : Decimal) → a ≤ℤ b → sub a x ≤ℤ sub b x
  unfolding sub
  sub_mono a b x h = r.round_mono _ _ _ (omega int_laws)

  sub_anti : (a b x : Decimal) → b ≤ℤ a → sub x a ≤ℤ sub x b
  unfolding sub
  sub_anti a b x h = r.round_mono _ _ _ (omega int_laws)

  neg-sub : (a b : Decimal) → neg (sub a b) ≡ sub b a
  unfolding neg sub
  neg-sub a b =
      let flip : pos 0 -ℤ c.round (a -ℤ b) 1 ≡ c.round (b -ℤ a) 1 =
        sym (r.round_neg (a -ℤ b) 1) ∙ ap (λ n. c.round n 1) (omega int_laws) in
      rw (neg, sub, flip) (r.round_again _ _)

  -- The profit that a position shows at a price is the profit of the trade closed there, also
  -- under the rounding of the context, for both sides.
  pub position_pnl-eq-pnl_for_trade :
      (side : TradeSide) (entry qty price : Decimal)
      → position_pnl side entry qty price ≡ pnl_for_trade entry price qty side
  unfolding position_pnl pnl_for_trade
  position_pnl-eq-pnl_for_trade TradeSide.long entry qty price = refl
  position_pnl-eq-pnl_for_trade TradeSide.short entry qty price =
      ap (λ d. mul d qty) (neg-sub price entry)

  -- For a quantity that is not negative and a price no worse than the entry, the profit is not
  -- negative, and a price that moves on in the trade's favour does not lower it.
  pnl_for_trade_mono :
      (side : TradeSide) (entry before after qty : Decimal)
      → pos 0 ≤ℤ qty
      → IsFavourable side entry before
      → IsFavourable side before after
      → (pos 0 ≤ℤ pnl_for_trade entry before qty side)
        × (pnl_for_trade entry before qty side ≤ℤ pnl_for_trade entry after qty side)
  unfolding pnl_for_trade
  pnl_for_trade_mono TradeSide.long entry before after qty h gain move = (
    mul_nonneg r _ qty (sub_nonneg r before entry gain) h,
    mul_mono r _ _ qty h (sub_mono before after entry move),
  )
  pnl_for_trade_mono TradeSide.short entry before after qty h gain move = (
    mul_nonneg r _ qty (sub_nonneg r entry before gain) h,
    mul_mono r _ _ qty h (sub_anti before after entry move),
  )
