-- ===== src/Paper/InSync.antt =====
-- The agreement of a trader of src/trading/paper.py with its files, and what it gives of the trade of
-- an open position.
use crypto_master.Prelude.{
  ◌≡◌, refl, ap, sym, subst, ◌∙◌, ◌⊎◌, inl, inr, true, false, none, some, List, [], ◌∷◌, ◌||◌,
  arith, Bool-cases, Option-cases, is_some, All,
}
use crypto_master.Text.{Text, same}
use crypto_master.Dict.{lookup, erase, IsDistinct}
use crypto_master.Decimal.{Context}
use crypto_master.Tracker.{
  paper, Trade, Store, is_open, find, replace, get_trade, update_in, update_trade,
}
use crypto_master.Tracker.Files.{IsFiled, find-id, update_trade-IsFiled}
use crypto_master.Paper.State.{OpenPosition, PaperTrader}
use crypto_master.Paper.Startup.{position_of, position_from}
use crypto_master.Paper.Valid.{IsValid}
use crypto_master.Paper.Sync.{
  HasDistinctIds, HasDistinctIds-replace, restored_from, restored_from-replace,
  lookup-restored_from, lookup-restored_from_absent,
}

-- A trade is settled, or has a stop or a target of its own and the fields of a valid position.
abbrev pub HasBounds : Trade → Type 0
HasBounds t =
    (is_open t.status ≡ false)
    ⊎ (((is_some t.stop_loss || is_some t.take_profit) ≡ true)
        × IsValid (position_of t t.stop_loss t.take_profit))

-- The paper file: its trades have distinct ids, which no backtest has, and bounds while they are open.
pub record IsPaperFile (s : Store) : Type 0 where
  pub filed : IsFiled s
  pub distinct_ids : HasDistinctIds s.paper_trades
  pub apart : All (λ t. find t.id s.backtest_trades ≡ none) s.paper_trades
  pub bounded : All HasBounds s.paper_trades

module _ ⦃c : Context⦄ where
  -- The positions are those of the open trades in the paper file, and the balance file holds the
  -- balances.
  pub record InSync (s : PaperTrader) : Type 0 where
    pub file : IsPaperFile s.store
    pub restored : s.open_positions ≡ restored_from s.store.paper_trades
    pub distinct_balances : IsDistinct s.balances
    pub saved : s.snapshot ≡ some s.balances

pub All-find {κ} :
    (P : Trade → Type κ) (k : Text) (ts : List Trade) (t : Trade)
    → All P ts
    → find k ts ≡ some t
    → P t
unfolding find
All-find P k [] t a e = cc
All-find P k (u ∷ ts) t a e = elim (Bool-cases (same u.id k)) [
  | inl hit ↦ let this : u ≡ t = ground (arith, rw hit at e) in subst P this a.0
  | inr miss ↦ All-find P k ts t a.1 (rw miss at e)
]

pub All-replace {κ} :
    (P : Trade → Type κ) (t : Trade) (ts : List Trade) → All P ts → P t → All P (replace t ts)
unfolding replace
All-replace P t [] a p = tt
All-replace P t (u ∷ ts) a p = elim (Bool-cases (same u.id t.id)) [
  | inl hit ↦ rw hit (p, a.1)
  | inr miss ↦ rw miss (a.0, All-replace P t ts a.1 p)
]

pub update_trade-of_paper :
    (t : Trade) (s : Store)
    → t.mode ≡ paper
    → update_trade t s ≡ record s { paper_trades = replace t s.paper_trades }
unfolding update_trade update_in
update_trade-of_paper t s m = rw m refl

-- A trade of the paper file is the one that its id finds.
pub get_trade-of_paper :
    (k : Text) (s : Store) (t : Trade)
    → IsPaperFile s
    → find k s.paper_trades ≡ some t
    → get_trade k s ≡ some t
unfolding get_trade
get_trade-of_paper k s t f e =
    let not_backtest : find k s.backtest_trades ≡ none =
      subst (λ i. find i s.backtest_trades ≡ none) (find-id k s.paper_trades t e)
        (All-find _ k s.paper_trades t f.apart e) in
    rw (not_backtest, e) refl

module _ ⦃c : Context⦄ where
  -- What an open position says of the files.
  pub record IsHeldTrade (k : Text) (s : Store) (o : OpenPosition) : Type 0 where
    pub trade : Trade
    pub found : find k s.paper_trades ≡ some trade
    pub still_open : is_open trade.status ≡ true
    pub restores : o ≡ position_from trade trade.stop_loss trade.take_profit

  pub held_trade :
      (k : Text) (s : PaperTrader) (o : OpenPosition)
      → InSync s
      → lookup k s.open_positions ≡ some o
      → IsHeldTrade k s.store o
  held_trade k s o i held =
      let there : lookup k (restored_from s.store.paper_trades) ≡ some o =
        ap (lookup k) (sym i.restored) ∙ held in
      elim (Option-cases (find k s.store.paper_trades)) [
        | inl missing ↦ cc (lookup-restored_from_absent k s.store.paper_trades missing)
        | inr (t, e) ↦
            let found = lookup-restored_from k s.store.paper_trades t i.file.distinct_ids e in
            elim (Bool-cases (is_open t.status)) [
              | inr settled ↦ let lost = rw settled at found in cc
              | inl o ↦ record {
                trade = t;
                found = e;
                still_open = o;
                restores = ground (arith, rw o at found, there);
              }
            ]
      ]

  -- A settled trade written to the paper file takes its position with it.
  pub settle-IsPaperFile :
      (t : Trade) (s : Store)
      → t.mode ≡ paper
      → is_open t.status ≡ false
      → find t.id s.backtest_trades ≡ none
      → IsPaperFile s
      → IsPaperFile (update_trade t s)
  settle-IsPaperFile t s m settled apart f =
      let e = update_trade-of_paper t s m in
      record {
        filed = update_trade-IsFiled t s f.filed;
        distinct_ids = rw e (HasDistinctIds-replace t s.paper_trades f.distinct_ids);
        apart = rw e (All-replace _ t s.paper_trades f.apart apart);
        bounded = rw e (All-replace _ t s.paper_trades f.bounded (inl settled));
      }

  pub settle-restored :
      (t : Trade) (s : PaperTrader)
      → t.mode ≡ paper
      → is_open t.status ≡ false
      → InSync s
      → erase t.id s.open_positions ≡ restored_from (update_trade t s.store).paper_trades
  settle-restored t s m settled i =
      ap (erase t.id) i.restored
      ∙ rw (update_trade-of_paper t s.store m)
          (sym (restored_from-replace t s.store.paper_trades i.file.distinct_ids settled))
