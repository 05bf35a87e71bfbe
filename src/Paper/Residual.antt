-- ===== src/Paper/Residual.antt =====
-- The residual that `unlock` of src/trading/paper.py tolerates, at a close.
use crypto_master.Prelude.{
  ℕ, ◌≡◌, refl, inl, inr, true, false, some, List, [], ◌∷◌, ◌&&◌, arith, if◌then◌else◌, Bool-cases,
}
use crypto_master.Prelude.Int.{pos, ◌-ℤ◌, ◌≤ℤ◌, ◌<ℤ◌}
use crypto_master.Text.{Text}
use crypto_master.Dict.{lookup, erase}
use crypto_master.Decimal.{Decimal, Context, add, sub, le, lt}
use crypto_master.Decimal.Laws.{IsExact, sub_exact}
use crypto_master.Result.{ok}
use crypto_master.Tracker.{close_trade}
use crypto_master.Paper.Balance.{PaperBalance, eps, unlock, release_residual}
use crypto_master.Paper.State.{OpenPosition, Event, liquidated, Config, PaperTrader}
use crypto_master.Paper.Trading.{
  closing, with_balance, settled_free, position_exit_pnl, exit_fee_of, close_balance, close_open,
  close_found, close_position,
}
use crypto_master.Paper.Close.{finish_close-parts}

module _ ⦃c : Context⦄ where
  -- An amount past the locked one by no more than the tolerance is unlocked.
  pub unlock-of_near :
      (x : IsExact c) (a : Decimal) (b : PaperBalance)
      → pos 0 <ℤ a
      → a -ℤ b.locked ≤ℤ eps
      → (b' : PaperBalance) × (unlock a b ≡ ok b')
  unfolding unlock release_residual
  unlock-of_near x a b h near =
      let wrong : le a (pos 0) ≡ false = ground arith in
      let close : le (sub a b.locked) eps ≡ true = rw (sub_exact x a b.locked) (ground arith) in
      elim (Bool-cases (lt b.locked a)) [
        | inl past ↦ (
          record b { free = add b.free b.locked; locked = pos 0 },
          rw (unlock, wrong, past, release_residual, close) refl,
        )
        | inr within ↦ (
          record b { locked = sub b.locked a; free = add b.free a },
          rw (unlock, wrong, within) refl,
        )
      ]

  -- Once the margin is unlocked, a close does not raise.
  pub close_position-of_unlocked :
      (g : Config) (now : ℕ) (k : Text) (price : Decimal) (reason : Text) (s : PaperTrader)
      (o : OpenPosition) (b b' : PaperBalance)
      → lookup k s.open_positions ≡ some o
      → lookup o.quote_currency s.balances ≡ some b
      → unlock o.margin b ≡ ok b'
      → let (result, s') = close_position g now k price reason s in
        (result ≡ ok (close_trade k now (closing price reason (exit_fee_of g o price)) s.store).0)
        × (s'.open_positions ≡ erase k s.open_positions)
  unfolding close_position close_found close_open close_balance
  close_position-of_unlocked g now k price reason s o b b' held funded unlocked =
      let pnl = position_exit_pnl o price in
      let (free, is_liquidated) = settled_free g b'.free pnl (exit_fee_of g o price) in
      let log : List Event =
        if is_liquidated && g.has_activity_log
        then liquidated o.position price pnl b'.free free ∷ []
        else [] in
      let parts =
        finish_close-parts g now k o price reason log true
          (with_balance o.quote_currency (record b' { free = free }) s) in
      rw (close_position, held, close_found, funded, close_open, unlocked, close_balance)
        (parts.0, parts.2)
