-- ===== src/Paper/Close.antt =====
-- `close_position` of src/trading/paper.py.
use crypto_master.Prelude.{
  ℕ, ◌≡◌, refl, ap, ◌∙◌, ◌⊎◌, inl, inr, Bool, true, false, none, some, List, [], ◌&&◌, arith,
  if◌then◌else◌, Bool-cases, is_some,
}
use crypto_master.Prelude.Int.{pos, ◌+ℤ◌, ◌-ℤ◌, ◌≤ℤ◌, ◌<ℤ◌, int_laws}
use crypto_master.Text.{Text, same, same_refl}
use crypto_master.Dict.{lookup, insert, erase, lookup-insert, lookup-erase}
use crypto_master.Decimal.{Decimal, Context, add, sub}
use crypto_master.Decimal.Laws.{IsRounding, IsExact, add_exact, sub_exact}
use crypto_master.Result.{ok}
use crypto_master.Tracker.{close_trade}
use crypto_master.Paper.Balance.{PaperBalance, total}
use crypto_master.Paper.Balance.Laws.{unlock-of_locked}
use crypto_master.Paper.State.{OpenPosition, Event, Config, PaperTrader}
use crypto_master.Paper.Trading.{
  with_balance, settled_free, closing, position_exit_pnl, exit_fee_of, finish_close, close_balance,
  close_open, close_found, close_position,
}
use crypto_master.Paper.Reconcile.{expected_locked, reconcile_locked, repair}
use crypto_master.Paper.Repair.{reconcile_locked-parts, lookup-repair_all, repair-locked}
use crypto_master.Paper.Margins.{AreMargins, margin-pos, margin-le-expected_locked}

module _ ⦃c : Context⦄ where
  -- A position whose margin its currency has locked.
  pub record IsCovered (s : PaperTrader) (k : Text) (o : OpenPosition) (b : PaperBalance)
      : Type 0 where
    pub held : lookup k s.open_positions ≡ some o
    pub funded : lookup o.quote_currency s.balances ≡ some b
    pub margin_pos : pos 0 <ℤ o.margin
    pub margin_locked : o.margin ≤ℤ b.locked

  -- The balance once the margin is unlocked, and once the profit is booked.
  abbrev pub released : OpenPosition → PaperBalance → PaperBalance
  released o b = record b { locked = sub b.locked o.margin; free = add b.free o.margin }

  abbrev pub booked : Config → OpenPosition → Decimal → PaperBalance → PaperBalance
  booked g o price b =
      let b' = released o b in
      record b' {
        free = (settled_free g b'.free (position_exit_pnl o price) (exit_fee_of g o price)).0;
      }

  pub close_position-of_covered :
      (g : Config) (now : ℕ) (k : Text) (price : Decimal) (reason : Text) (s : PaperTrader)
      (o : OpenPosition) (b : PaperBalance)
      → IsCovered s k o b
      → close_position g now k price reason s
        ≡ close_balance g now k o price reason (ok (released o b)) s
  unfolding close_position close_found close_open
  close_position-of_covered g now k price reason s o b v =
      rw
        (
          close_position,
          v.held,
          close_found,
          v.funded,
          close_open,
          unlock-of_locked o.margin b v.margin_pos v.margin_locked,
        )
        refl

  -- What `finish_close` leaves, whether or not it saves.
  pub finish_close-parts :
      (g : Config) (now : ℕ) (k : Text) (o : OpenPosition) (price : Decimal) (reason : Text)
      (log : List Event) (has : Bool) (s : PaperTrader)
      → let (result, s') = finish_close g now k o price reason log has s in
        let closed = close_trade k now (closing price reason (exit_fee_of g o price)) s.store in
        (result ≡ ok closed.0)
        × (s'.balances ≡ s.balances)
        × (s'.open_positions ≡ erase k s.open_positions)
        × (s'.store ≡ closed.1)
  unfolding finish_close
  finish_close-parts g now k o price reason log has s =
      elim (Bool-cases (
        is_some (close_trade k now (closing price reason (exit_fee_of g o price)) s.store).0
        && has)) [
          | inl saves ↦ rw saves (refl, refl, refl, refl)
          | inr skips ↦ rw skips (refl, refl, refl, refl)
        ]

  pub close_balance-finish :
      (g : Config) (now : ℕ) (k : Text) (o : OpenPosition) (price : Decimal) (reason : Text)
      (b : PaperBalance) (s : PaperTrader)
      → (log : List Event) × (close_balance g now k o price reason (ok (released o b)) s
          ≡ finish_close g now k o price reason log true
              (with_balance o.quote_currency (booked g o price b) s))
  unfolding close_balance
  close_balance-finish g now k o price reason b s = (_, refl)

  -- The whole effect of a covered close, on each field.
  pub close_position-effect :
      (g : Config) (now : ℕ) (k : Text) (price : Decimal) (reason : Text) (s : PaperTrader)
      (o : OpenPosition) (b : PaperBalance)
      → IsCovered s k o b
      → let (result, s') = close_position g now k price reason s in
        let closed = close_trade k now (closing price reason (exit_fee_of g o price)) s.store in
        (result ≡ ok closed.0)
        × (s'.store ≡ closed.1)
        × (s'.balances ≡ insert o.quote_currency (booked g o price b) s.balances)
        × (s'.open_positions ≡ erase k s.open_positions)
  close_position-effect g now k price reason s o b v =
      let (log, books) = close_balance-finish g now k o price reason b s in
      let parts =
        finish_close-parts g now k o price reason log true
          (with_balance o.quote_currency (booked g o price b) s) in
      rw (close_position-of_covered g now k price reason s o b v ∙ books)
        (parts.0, parts.3, parts.1, parts.2)

  -- A close in a currency without a balance only drops the position and closes the trade.
  pub close_position-unfunded :
      (g : Config) (now : ℕ) (k : Text) (price : Decimal) (reason : Text) (s : PaperTrader)
      (o : OpenPosition)
      → lookup k s.open_positions ≡ some o
      → lookup o.quote_currency s.balances ≡ none
      → let (result, s') = close_position g now k price reason s in
        let closed = close_trade k now (closing price reason (exit_fee_of g o price)) s.store in
        (result ≡ ok closed.0)
        × (s'.balances ≡ s.balances)
        × (s'.open_positions ≡ erase k s.open_positions)
        × (s'.store ≡ closed.1)
  unfolding close_position close_found close_open
  close_position-unfunded g now k price reason s o held missing =
      rw (close_position, held, close_found, missing, close_open)
        (finish_close-parts g now k o price reason [] false s)

  pub close_position-unknown :
      (g : Config) (now : ℕ) (k : Text) (price : Decimal) (reason : Text) (s : PaperTrader)
      → lookup k s.open_positions ≡ none
      → close_position g now k price reason s ≡ (ok none, s)
  unfolding close_position close_found
  close_position-unknown g now k price reason s missing =
      rw (close_position, missing, close_found) refl

  -- The effect of a covered close on what is looked up.
  close_position_covered :
      (g : Config) (now : ℕ) (k : Text) (price : Decimal) (reason : Text) (s : PaperTrader)
      (o : OpenPosition) (b : PaperBalance) (cur j : Text)
      → IsCovered s k o b
      → let (result, s') = close_position g now k price reason s in
        let closed = close_trade k now (closing price reason (exit_fee_of g o price)) s.store in
        (result ≡ ok closed.0)
        × (s'.store ≡ closed.1)
        × (lookup cur s'.balances ≡ (
            if same cur o.quote_currency then some (booked g o price b) else lookup cur s.balances))
        × (lookup j s'.open_positions ≡ (if same j k then none else lookup j s.open_positions))
  close_position_covered g now k price reason s o b cur j v =
      let effect = close_position-effect g now k price reason s o b v in
      (
        effect.0,
        effect.1,
        ap (lookup cur) effect.2
            ∙ lookup-insert o.quote_currency cur (booked g o price b) s.balances,
        ap (lookup j) effect.3 ∙ lookup-erase k j s.open_positions,
      )

  -- After the start-up repair every open position with a balance in its currency can be closed, at
  -- any price: the unlock does not raise, so the tracker's close is reached. The margins of the
  -- open positions are any positive values of the context, and sums are rounded.
  reconciled_position_closes :
      (r : IsRounding c) (g : Config) (now : ℕ) (k : Text) (price : Decimal) (reason : Text)
      (s : PaperTrader) (o : OpenPosition) (b : PaperBalance)
      → AreMargins s.open_positions
      → lookup k s.open_positions ≡ some o
      → lookup o.quote_currency s.balances ≡ some b
      → (close_position g now k price reason (reconcile_locked g s)).0
        ≡ ok (close_trade k now (closing price reason (exit_fee_of g o price)) s.store).0
  reconciled_position_closes r g now k price reason s o b m held funded =
      let parts = reconcile_locked-parts g s in
      let expected = expected_locked o.quote_currency s.open_positions in
      let repaired : IsCovered (reconcile_locked g s) k o (repair expected b) = record {
        held = ap (lookup k) parts.1 ∙ held;
        funded =
            ap (lookup o.quote_currency) parts.0
            ∙ lookup-repair_all o.quote_currency s.open_positions s.balances
            ∙ rw funded refl;
        margin_pos = margin-pos k o s.open_positions m held;
        margin_locked =
            rw (repair-locked expected b) (margin-le-expected_locked r k o s.open_positions m held);
      } in
      (close_position_covered g now k price reason (reconcile_locked g s) o (repair expected b) k k
        repaired).0
      ∙ ap (λ st. ok (close_trade k now (closing price reason (exit_fee_of g o price)) st).0)
          parts.2

  -- With the deposit on a liquidation switched on, a close never leaves the free amount negative;
  -- without it, the free amount is the released one and the profit less the exit fee.
  pub settled_free_cases :
      (g : Config) (free pnl exit_fee : Decimal)
      → ((g.auto_deposit_on_liquidation ≡ true) × (pos 0 ≤ℤ (settled_free g free pnl exit_fee).0))
        ⊎ ((g.auto_deposit_on_liquidation ≡ false)
            × ((settled_free g free pnl exit_fee).0 ≡ add free (sub pnl exit_fee)))
  unfolding settled_free
  settled_free_cases g free pnl exit_fee = elim (Bool-cases g.auto_deposit_on_liquidation) [
    | inl on ↦ inl (on, ground arith)
    | inr off ↦ inr (off, ground arith)
  ]

  pub booked-total :
      (x : IsExact c) (g : Config) (price : Decimal) (o : OpenPosition) (b : PaperBalance)
      → g.auto_deposit_on_liquidation ≡ false
      → total (booked g o price b) ≡ total b +ℤ (position_exit_pnl o price -ℤ exit_fee_of g o price)
  unfolding total
  booked-total x g price o b off =
      elim (settled_free_cases g (released o b).free (position_exit_pnl o price)
        (exit_fee_of g o price)) [
          | inl (on, _) ↦ cc
          | inr (_, e) ↦ rw e (simp (add_exact x, sub_exact x) (omega int_laws))
        ]

  -- Where no sum is rounded and there is no deposit on a liquidation, closing a covered position
  -- changes the total of its currency's balance by exactly the profit less the exit fee: the margin
  -- only moves from locked to free.
  pub close_position_conserves :
      (x : IsExact c) (g : Config) (now : ℕ) (k : Text) (price : Decimal) (reason : Text)
      (s : PaperTrader) (o : OpenPosition) (b : PaperBalance)
      → IsCovered s k o b
      → g.auto_deposit_on_liquidation ≡ false
      → (b' : PaperBalance) × (lookup o.quote_currency
            (close_position g now k price reason s).1.balances
          ≡ some b')
        × (total b' ≡ total b +ℤ (position_exit_pnl o price -ℤ exit_fee_of g o price))
  close_position_conserves x g now k price reason s o b v off =
      let parts = close_position_covered g now k price reason s o b o.quote_currency k v in
      (
        booked g o price b,
        parts.2 ∙ rw (same_refl o.quote_currency) refl,
        booked-total x g price o b off,
      )
