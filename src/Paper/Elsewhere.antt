-- ===== src/Paper/Elsewhere.antt =====
-- A close of a trade that is not in the paper file leaves that file alone.
use crypto_master.Prelude.{
  ◌≡◌, refl, ap, sym, subst, ◌∙◌, inl, inr, true, none, some, List, [], ◌∷◌, Bool-cases, All,
}
use crypto_master.Text.{Text, same}
use crypto_master.Dict.{lookup}
use crypto_master.Decimal.{Context}
use crypto_master.Tracker.{
  Mode, paper, backtest, live, Trade, Store, is_open, find, replace, get_trade, update_in,
  update_trade,
}
use crypto_master.Tracker.Files.{
  IsFiled, find-replace, update_trade-IsFiled, Located, get_trade-Located,
}
use crypto_master.Paper.State.{PaperTrader}
use crypto_master.Paper.Startup.{position_from}
use crypto_master.Paper.Sync.{restored_from, lookup-restored_from}
use crypto_master.Paper.InSync.{IsPaperFile, InSync}

find-replace_absent :
    (k : Text) (t : Trade) (ts : List Trade) → find k ts ≡ none → find k (replace t ts) ≡ none
find-replace_absent k t ts h =
    find-replace k t ts
    ∙ elim (Bool-cases (same t.id k)) [ inl hit ↦ rw (hit, h) refl | inr miss ↦ rw (miss, h) refl ]

apart-replace :
    (t : Trade) (bs ts : List Trade)
    → All (λ u. find u.id bs ≡ none) ts
    → All (λ u. find u.id (replace t bs) ≡ none) ts
apart-replace t bs [] a = tt
apart-replace t bs (u ∷ ts) a = (find-replace_absent u.id t bs a.0, apart-replace t bs ts a.1)

-- The file of a mode other than paper.
abbrev IsElsewhere : Mode → Type 0
IsElsewhere backtest = Unit
IsElsewhere paper = ⊥
IsElsewhere live = Unit

update_in-IsPaperFile :
    (m : Mode) (t : Trade) (s : Store)
    → IsElsewhere m
    → IsFiled (update_in m t s)
    → IsPaperFile s
    → IsPaperFile (update_in m t s)
unfolding update_in
update_in-IsPaperFile backtest t s e filed f = record {
  filed = filed;
  distinct_ids = f.distinct_ids;
  apart = apart-replace t s.backtest_trades s.paper_trades f.apart;
  bounded = f.bounded;
}
update_in-IsPaperFile paper t s e filed f = absurd e
update_in-IsPaperFile live t s e filed f = record {
  filed = filed;
  distinct_ids = f.distinct_ids;
  apart = f.apart;
  bounded = f.bounded;
}

update_in-paper_trades :
    (m : Mode) (t : Trade) (s : Store)
    → IsElsewhere m
    → (update_in m t s).paper_trades ≡ s.paper_trades
unfolding update_in
update_in-paper_trades backtest t s e = refl
update_in-paper_trades paper t s e = absurd e
update_in-paper_trades live t s e = refl

module _ ⦃c : Context⦄ (k : Text) (s : PaperTrader) (i : InSync s) (t : Trade)
    (there : get_trade k s.store ≡ some t) (o : is_open t.status ≡ true)
    (unheld : lookup k s.open_positions ≡ none) where
  -- An open trade without a position is in another file.
  get_trade-IsElsewhere : (m : Mode) → Located m k s.store t → IsElsewhere m
  get_trade-IsElsewhere backtest l = tt
  get_trade-IsElsewhere live l = tt
  get_trade-IsElsewhere paper l =
      let found = lookup-restored_from k s.store.paper_trades t i.file.distinct_ids l.1 in
      let lost : none ≡ some (position_from t t.stop_loss t.take_profit) =
        sym (ap (lookup k) (sym i.restored) ∙ unheld) ∙ found ∙ rw o refl in
      cc

  pub elsewhere-InSync :
      (new : Trade) (s' : PaperTrader)
      → new.mode ≡ t.mode
      → s'.store ≡ update_trade new s.store
      → s'.open_positions ≡ s.open_positions
      → s'.balances ≡ s.balances
      → s'.snapshot ≡ s.snapshot
      → InSync s'
  unfolding update_trade
  elsewhere-InSync new s' same_mode of_store of_positions of_balances of_snapshot =
      let (m, of_mode, located) = get_trade-Located k s.store t i.file.filed there in
      let e = get_trade-IsElsewhere m located in
      let new_mode : new.mode ≡ m = same_mode ∙ of_mode in
      let elsewhere : IsElsewhere new.mode = rw new_mode e in
      let filed = update_trade-IsFiled new s.store i.file.filed in
      record {
        file =
            subst IsPaperFile (sym of_store)
              (update_in-IsPaperFile new.mode new s.store elsewhere filed i.file);
        restored =
            of_positions
            ∙ i.restored
            ∙ ap restored_from (sym (update_in-paper_trades new.mode new s.store elsewhere))
            ∙ ap (λ (st : Store). restored_from st.paper_trades) (sym of_store);
        distinct_balances = rw of_balances i.distinct_balances;
        saved = of_snapshot ∙ i.saved ∙ ap some (sym of_balances);
      }
