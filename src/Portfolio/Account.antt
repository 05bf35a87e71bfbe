-- ===== src/Portfolio/Account.antt =====
-- The books of an account: the paper trader's balance beside the realised profit that
-- src/trading/portfolio.py reports.
use crypto_master.Prelude.{
  ℕ, ◌≡◌, refl, ap, sym, ◌∙◌, true, false, Option, some, [], ◌∷◌, ◌++◌, arith,
}
use crypto_master.Prelude.Int.{ℤ, pos, ◌+ℤ◌, ◌-ℤ◌, ◌≤ℤ◌, int_laws}
use crypto_master.Text.{Text, same_refl}
use crypto_master.Dict.{lookup, lookup-insert}
use crypto_master.Decimal.{Decimal, Context, add}
use crypto_master.Decimal.Laws.{IsRounding, IsExact, add_exact, sub_exact}
use crypto_master.Exit.{Position}
use crypto_master.TradingMath.{pnl_for_trade}
use crypto_master.Tracker.{
  paper, Trade, Store, is_open, find, replace, new_trade, open_trade, or_entry, net_pnl,
  calculate_pnl, closed_trade,
}
use crypto_master.Tracker.Files.{find-id, find-mode}
use crypto_master.Paper.Balance.{PaperBalance, total}
use crypto_master.Paper.Symbols.{get_quote_currency}
use crypto_master.Paper.State.{OpenPosition, Config, PaperTrader}
use crypto_master.Paper.Trading.{
  Fresh, opening, commit_open, open_position, closing, position_exit_pnl, exit_fee_of,
  close_position,
}
use crypto_master.Paper.Close.{booked, booked-total, close_position-effect}
use crypto_master.Paper.Open.{
  IsAffordable, charged, entry_fee_of, fee_taken, open_position-effect, open_position-of_affordable,
}
use crypto_master.Paper.Ledger.{IsLedger, ledger-IsCovered}
use crypto_master.Paper.Marked.{charged-total}
use crypto_master.Paper.Startup.{position_from}
use crypto_master.Paper.InSync.{InSync, held_trade, update_trade-of_paper}
use crypto_master.Paper.Session.{save_trade-of_paper}
use crypto_master.Paper.Settle.{closed_held}
use crypto_master.Portfolio.Books.{
  weigh, weigh-append_one, weigh-replace, gain, open_fee, gain-of_open,
}

-- The fees of the open paper trades.
abbrev pub open_fees : Store → ℤ
open_fees s = weigh open_fee s.paper_trades

open_fee-of_open : (t : Trade) → is_open t.status ≡ true → open_fee t ≡ t.fees
open_fee-of_open t o = rw o refl

module _ ⦃c : Context⦄ where
  -- What the balance of a currency would be had nothing been opened or closed.
  abbrev pub capital : PaperBalance → Store → ℤ
  capital b s = (total b +ℤ open_fees s) -ℤ weigh gain s.paper_trades

  -- The capital after a trade that changes the total by `pnl - fee`, the realised profit by the same
  -- less the entry fee, and drops that fee.
  close_sums :
      (b b' f f' w w' pnl fee entry net : ℤ)
      → b' ≡ b +ℤ (pnl -ℤ fee)
      → f' +ℤ entry ≡ f +ℤ pos 0
      → w' +ℤ pos 0 ≡ w +ℤ net
      → net ≡ pnl -ℤ (entry +ℤ fee)
      → (b' +ℤ f') -ℤ w' ≡ (b +ℤ f) -ℤ w
  close_sums b b' f f' w w' pnl fee entry net h1 h2 h3 h4 =
      let fees : f' ≡ f -ℤ entry =
        let here : f' ≡ (f' +ℤ entry) -ℤ entry = omega int_laws in here ∙ rw h2 (omega int_laws) in
      let profit : w' ≡ w +ℤ net = let here : w' ≡ w' +ℤ pos 0 = omega int_laws in here ∙ h3 in
      rw (h1, fees, profit, h4) (omega int_laws)

  module _ (x : IsExact c) (r : IsRounding c) where
    -- An affordable open moves the fee from the balance to the open fees.
    pub affordable_capital :
        (g : Config) (f : Fresh) (p : Position) (performance : Option Text) (s : PaperTrader)
        (b : PaperBalance)
        → IsAffordable g p s b
        → pos 0 ≤ℤ entry_fee_of g p
        → let s' = (open_position g f p performance s).1 in
          (lookup (get_quote_currency p.symbol) s'.balances ≡ some (charged g p b))
          × (capital (charged g p b) s'.store ≡ capital b s.store)
    unfolding commit_open open_trade new_trade
    affordable_capital g f p performance s b a fee_nonneg =
        let quote = get_quote_currency p.symbol in
        let trade = new_trade f.trade_id f.now (opening g f p performance (entry_fee_of g p)) in
        let st = s.store.paper_trades in
        let taken : fee_taken g p ≡ entry_fee_of g p = ground arith in
        let paid = charged-total x r [] g p b in
        let effect = open_position-effect g f p performance s b a in
        let there : lookup quote (open_position g f p performance s).1.balances
            ≡ some (charged g p b) =
          ap (lookup quote) effect.0
          ∙ lookup-insert quote quote (charged g p b) s.balances
          ∙ rw (same_refl quote) refl in
        let grown : (open_position g f p performance s).1.store.paper_trades ≡ st ++ trade ∷ [] =
          rw (open_position-of_affordable g f p performance s b a)
            (ap (λ (n : Store). n.paper_trades) (save_trade-of_paper trade s.store refl)) in
        (
          there,
          rw
              (
                grown,
                paid,
                taken,
                weigh-append_one open_fee st trade,
                weigh-append_one gain st trade,
              )
              (omega int_laws),
        )

    -- A close of a held position moves its profit less the exit fee to the balance, and books the
    -- entry fee that the balance had paid.
    pub closed_capital :
        (g : Config) (now : ℕ) (k : Text) (price : Decimal) (reason : Text) (s : PaperTrader)
        (o : OpenPosition) (b : PaperBalance)
        → g.auto_deposit_on_liquidation ≡ false
        → IsLedger s
        → InSync s
        → lookup k s.open_positions ≡ some o
        → lookup o.quote_currency s.balances ≡ some b
        → let s' = (close_position g now k price reason s).1 in
          (lookup o.quote_currency s'.balances ≡ some (booked g o price b))
          × (capital (booked g o price b) s'.store ≡ capital b s.store)
    unfolding closed_trade or_entry calculate_pnl net_pnl position_from
    closed_capital g now k price reason s o b off l i held funded =
        let h = held_trade k s o i held in
        let fee = exit_fee_of g o price in
        let t' = closed_trade now (closing price reason fee) h.trade in
        let st = s.store.paper_trades in
        let effect =
          close_position-effect g now k price reason s o b
            (ledger-IsCovered x r s k o b l held funded) in
        let of_paper : t'.mode ≡ paper =
          find-mode paper k st h.trade i.file.filed.in_paper h.found in
        let is_k : t'.id ≡ k = find-id k st h.trade h.found in
        let old : find t'.id st ≡ some h.trade = ap (λ j. find j st) is_k ∙ h.found in
        let written : (close_position g now k price reason s).1.store.paper_trades ≡ replace t' st =
          ap (λ (n : Store). n.paper_trades)
            (effect.1
              ∙ ap (λ (z : Option Trade × Store). z.1)
                  (closed_held k now (closing price reason fee) s o i h)
              ∙ update_trade-of_paper t' s.store of_paper) in
        let paid = booked-total x g price o b off in
        let fees : weigh open_fee (replace t' st) +ℤ h.trade.fees ≡ weigh open_fee st +ℤ pos 0 =
          ap (λ n. weigh open_fee (replace t' st) +ℤ n)
            (sym (open_fee-of_open h.trade h.still_open))
          ∙ weigh-replace open_fee st h.trade t' old in
        let profits : weigh gain (replace t' st) +ℤ pos 0 ≡ weigh gain st +ℤ gain t' =
          ap (λ n. weigh gain (replace t' st) +ℤ n) (sym (gain-of_open h.trade h.still_open))
          ∙ weigh-replace gain st h.trade t' old in
        let net : gain t' ≡ position_exit_pnl o price -ℤ (h.trade.fees +ℤ fee) =
          sub_exact x (pnl_for_trade h.trade.entry_price price h.trade.entry_quantity h.trade.side)
            (add h.trade.fees fee)
          ∙ ap
              (λ n.
                pnl_for_trade h.trade.entry_price price h.trade.entry_quantity h.trade.side -ℤ n)
              (add_exact x h.trade.fees fee)
          ∙ ap (λ (q : OpenPosition). position_exit_pnl q price -ℤ (h.trade.fees +ℤ fee))
              (sym h.restores) in
        (
          ap (lookup o.quote_currency) effect.2
              ∙ lookup-insert o.quote_currency o.quote_currency (booked g o price b) s.balances
              ∙ rw (same_refl o.quote_currency) refl,
          rw written (
              close_sums (total b) (total (booked g o price b)) _ _ _ _ (position_exit_pnl o price)
                fee h.trade.fees (gain t') paid fees profits net),
        )
