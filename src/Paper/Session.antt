-- ===== src/Paper/Session.antt =====
-- The calls of src/trading/paper.py keep a trader in agreement with its files: the open and the close.
use crypto_master.Prelude.{
  ◌≡◌, refl, ap, sym, ◌∙◌, inl, inr, true, Option, none, List, [], ◌∷◌, ◌++◌, ◌||◌, arith, is_some,
  All,
}
use crypto_master.Text.{Text}
use crypto_master.Dict.{lookup, insert-IsDistinct}
use crypto_master.Decimal.{Context}
use crypto_master.Decimal.Laws.{IsRounding, IsExact}
use crypto_master.Exit.{Position}
use crypto_master.Tracker.{
  paper, Trade, Store, find, get_trade, save_in, save_trade, new_trade, open_trade,
}
use crypto_master.Tracker.Files.{save_trade-IsFiled}
use crypto_master.Paper.Balance.{PaperBalance}
use crypto_master.Paper.Symbols.{get_quote_currency}
use crypto_master.Paper.State.{Config, PaperTrader}
use crypto_master.Paper.Trading.{Fresh, opening, commit_open, open_position}
use crypto_master.Paper.Open.{
  IsAffordable, charged, entry_fee_of, opened_position, open_position-of_affordable,
}
use crypto_master.Paper.Ledger.{IsLedger}
use crypto_master.Paper.Entry.{open_position-cases}
use crypto_master.Paper.Startup.{position_from}
use crypto_master.Paper.Valid.{IsValid}
use crypto_master.Paper.Sync.{
  insert_absent, restored_from, restored_from-append_one, lookup-restored_from_absent,
  HasDistinctIds-append_one,
}
use crypto_master.Paper.InSync.{HasBounds, IsPaperFile, InSync}

All-append {κ} :
    (P : Trade → Type κ) (t : Trade) (ts : List Trade) → All P ts → P t → All P (ts ++ t ∷ [])
All-append P t [] a p = (p, tt)
All-append P t (u ∷ ts) a p = (a.0, All-append P t ts a.1 p)

-- An id that finds no trade is in no file.
pub absent_files :
    (k : Text) (s : Store)
    → get_trade k s ≡ none
    → (find k s.backtest_trades ≡ none) × (find k s.paper_trades ≡ none)
unfolding get_trade
absent_files k s e = ground arith

pub save_trade-of_paper :
    (t : Trade) (s : Store)
    → t.mode ≡ paper
    → save_trade t s ≡ record s { paper_trades = s.paper_trades ++ t ∷ [] }
unfolding save_trade save_in
save_trade-of_paper t s m = rw m refl

-- The position is valid, as every `Position` is, and has a stop or a target.
abbrev pub IsBounded : Position → Type 0
IsBounded p = ((is_some p.stop_loss || is_some p.take_profit) ≡ true) × IsValid p

module _ ⦃c : Context⦄ (x : IsExact c) (r : IsRounding c) where
  save-IsPaperFile :
      (t : Trade) (s : Store)
      → t.mode ≡ paper
      → HasBounds t
      → get_trade t.id s ≡ none
      → IsPaperFile s
      → IsPaperFile (save_trade t s)
  save-IsPaperFile t s m bounded fresh f =
      let e = save_trade-of_paper t s m in
      let absent = absent_files t.id s fresh in
      record {
        filed = save_trade-IsFiled t s f.filed;
        distinct_ids = rw e (HasDistinctIds-append_one t s.paper_trades absent.1 f.distinct_ids);
        apart = rw e (All-append _ t s.paper_trades f.apart absent.0);
        bounded = rw e (All-append _ t s.paper_trades f.bounded bounded);
      }

  affordable-InSync :
      (g : Config) (f : Fresh) (p : Position) (performance : Option Text) (s : PaperTrader)
      (b : PaperBalance)
      → InSync s
      → get_trade f.trade_id s.store ≡ none
      → IsBounded p
      → IsAffordable g p s b
      → InSync (open_position g f p performance s).1
  unfolding commit_open open_trade new_trade position_from
  affordable-InSync g f p performance s b i fresh bounded a =
      let trade = new_trade f.trade_id f.now (opening g f p performance (entry_fee_of g p)) in
      let quote = get_quote_currency p.symbol in
      let held = opened_position g f p in
      let absent = absent_files f.trade_id s.store fresh in
      let not_held : lookup f.trade_id s.open_positions ≡ none =
        ap (lookup f.trade_id) i.restored
        ∙ lookup-restored_from_absent f.trade_id s.store.paper_trades absent.1 in
      let grown : restored_from (save_trade trade s.store).paper_trades
          ≡ restored_from s.store.paper_trades ++ (f.trade_id, held) ∷ [] =
        ap (λ (st : Store). restored_from st.paper_trades) (save_trade-of_paper trade s.store refl)
        ∙ restored_from-append_one s.store.paper_trades trade refl in
      rw (open_position-of_affordable g f p performance s b a) (record {
        file = save-IsPaperFile trade s.store refl (inr bounded) fresh i.file;
        restored =
            insert_absent f.trade_id held s.open_positions not_held
            ∙ ap (λ d. d ++ (f.trade_id, held) ∷ []) i.restored
            ∙ sym grown;
        distinct_balances = insert-IsDistinct quote (charged g p b) s.balances i.distinct_balances;
        saved = refl;
      })

  -- Opening a bounded position under a fresh id keeps a ledger in agreement.
  pub open_position-InSync :
      (g : Config) (f : Fresh) (p : Position) (performance : Option Text) (s : PaperTrader)
      → IsLedger s
      → InSync s
      → get_trade f.trade_id s.store ≡ none
      → IsBounded p
      → InSync (open_position g f p performance s).1
  open_position-InSync g f p performance s l i fresh bounded =
      elim (open_position-cases x r g f p performance s l) [
        | inl (b, a) ↦ affordable-InSync g f p performance s b i fresh bounded a
        | inr same_state ↦ rw same_state i
      ]
