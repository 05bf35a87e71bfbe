-- ===== src/Paper/Settle.antt =====
-- The calls of src/trading/paper.py keep a trader in agreement with its files: the close and the close
-- of an orphan.
use crypto_master.Prelude.{
  ℕ, ◌≡◌, refl, ap, sym, subst, ◌∙◌, inl, inr, Bool, true, false, Option, none, some, List, [],
  if◌then◌else◌, Option-cases, is_some,
}
use crypto_master.Text.{Text}
use crypto_master.Dict.{lookup, erase, IsDistinct, insert-IsDistinct}
use crypto_master.Decimal.{Decimal, Context}
use crypto_master.Decimal.Laws.{IsRounding, IsExact}
use crypto_master.Tracker.{
  paper, Trade, Store, find, update_trade, Closing, closed_trade, close_trade,
}
use crypto_master.Tracker.Files.{find-id, find-mode}
use crypto_master.Tracker.Lifecycle.{close_trade-of_open}
use crypto_master.Paper.State.{OpenPosition, Event, Config, PaperTrader}
use crypto_master.Paper.Trading.{
  closing, exit_fee_of, finish_close, with_balance, close_position, close_found, close_open,
}
use crypto_master.Paper.Close.{
  booked, close_position-effect, close_position-unfunded, close_position-unknown,
  close_position-of_covered, close_balance-finish,
}
use crypto_master.Paper.Ledger.{IsLedger, ledger-IsCovered}
use crypto_master.Paper.Sync.{restored_from}
use crypto_master.Paper.InSync.{
  IsPaperFile, InSync, IsHeldTrade, held_trade, get_trade-of_paper, settle-IsPaperFile,
  settle-restored, All-find,
}

module _ ⦃c : Context⦄ where
  finish_close-snapshot :
      (g : Config) (now : ℕ) (k : Text) (o : OpenPosition) (price : Decimal) (reason : Text)
      (log : List Event) (has : Bool) (s : PaperTrader)
      → is_some (close_trade k now (closing price reason (exit_fee_of g o price)) s.store).0 ≡ true
      → (finish_close g now k o price reason log has s).1.snapshot
        ≡ (if has then some s.balances else s.snapshot)
  unfolding finish_close
  finish_close-snapshot g now k o price reason log true s h = rw h refl
  finish_close-snapshot g now k o price reason log false s h = rw h refl

  -- What a close of a held position does to the files.
  pub closed_held :
      (k : Text) (now : ℕ) (x : Closing) (s : PaperTrader) (o : OpenPosition)
      → InSync s
      → (h : IsHeldTrade k s.store o)
      → close_trade k now x s.store
        ≡ (some (closed_trade now x h.trade), update_trade (closed_trade now x h.trade) s.store)
  closed_held k now x s o i h =
      close_trade-of_open k now x s.store h.trade
        (get_trade-of_paper k s.store h.trade i.file h.found) h.still_open

  -- A state that has dropped a held position and written its trade back closed.
  pub settled-InSync :
      (k : Text) (now : ℕ) (x : Closing) (s s' : PaperTrader) (o : OpenPosition)
      → InSync s
      → lookup k s.open_positions ≡ some o
      → s'.store ≡ (close_trade k now x s.store).1
      → s'.open_positions ≡ erase k s.open_positions
      → IsDistinct s'.balances
      → s'.snapshot ≡ some s'.balances
      → InSync s'
  unfolding closed_trade
  settled-InSync k now x s s' o i held of_store of_positions distinct saved =
      let h = held_trade k s o i held in
      let t' = closed_trade now x h.trade in
      let of_paper : t'.mode ≡ paper =
        find-mode paper k s.store.paper_trades h.trade i.file.filed.in_paper h.found in
      let is_k : t'.id ≡ k = find-id k s.store.paper_trades h.trade h.found in
      let apart : find t'.id s.store.backtest_trades ≡ none =
        All-find _ k s.store.paper_trades h.trade i.file.apart h.found in
      let written : s'.store ≡ update_trade t' s.store =
        of_store ∙ ap (λ (z : Option Trade × Store). z.1) (closed_held k now x s o i h) in
      record {
        file =
            subst IsPaperFile (sym written)
              (settle-IsPaperFile t' s.store of_paper refl apart i.file);
        restored =
            of_positions
            ∙ ap (λ j. erase j s.open_positions) (sym is_k)
            ∙ settle-restored t' s of_paper refl i
            ∙ ap (λ (st : Store). restored_from st.paper_trades) (sym written);
        distinct_balances = distinct;
        saved = saved;
      }

  module _ (x : IsExact c) (r : IsRounding c) where
    -- Closing keeps a ledger in agreement.
    pub close_position-InSync :
        (g : Config) (now : ℕ) (k : Text) (price : Decimal) (reason : Text) (s : PaperTrader)
        → IsLedger s
        → InSync s
        → InSync (close_position g now k price reason s).1
    unfolding close_position close_found close_open
    close_position-InSync g now k price reason s l i =
        elim (Option-cases (lookup k s.open_positions)) [
          | inl unknown ↦ rw (close_position-unknown g now k price reason s unknown) i
          | inr (o, held) ↦
              let fee = exit_fee_of g o price in
              let gone =
                closed_held k now (closing price reason fee) s o i (held_trade k s o i held) in
              let closes : is_some (close_trade k now (closing price reason fee) s.store).0 ≡ true =
                rw gone refl in
              elim (Option-cases (lookup o.quote_currency s.balances)) [
                | inl missing ↦
                    let effect = close_position-unfunded g now k price reason s o held missing in
                    settled-InSync k now (closing price reason fee) s _ o i held effect.3 effect.2
                      (rw effect.1 i.distinct_balances)
                      (rw effect.1 (
                        rw (close_position, held, close_found, missing, close_open)
                          (finish_close-snapshot g now k o price reason [] false s closes
                            ∙ i.saved)))
                | inr (b, funded) ↦
                    let v = ledger-IsCovered x r s k o b l held funded in
                    let effect = close_position-effect g now k price reason s o b v in
                    let (log, books) = close_balance-finish g now k o price reason b s in
                    let booked_state = with_balance o.quote_currency (booked g o price b) s in
                    settled-InSync k now (closing price reason fee) s _ o i held effect.1 effect.3
                      (rw effect.2 (
                        insert-IsDistinct o.quote_currency (booked g o price b) s.balances
                          i.distinct_balances))
                      (rw effect.2 (
                        rw (close_position-of_covered g now k price reason s o b v ∙ books) (
                          finish_close-snapshot g now k o price reason log true booked_state
                            closes)))
              ]
        ]
