-- ===== src/Portfolio/Conserved.antt =====
-- A session of the trader of src/trading/paper.py in one currency, beside the realised profit that
-- src/trading/portfolio.py reports of it.
use crypto_master.Prelude.{
  ℕ, ◌≡◌, refl, ap, sym, subst, ◌∙◌, inl, inr, false, Option, none, some, Bool-cases, Option-cases,
  arith,
}
use crypto_master.Prelude.Int.{ℤ, pos, ◌+ℤ◌, ◌-ℤ◌, ◌≤ℤ◌}
use crypto_master.Text.{Text, same}
use crypto_master.Dict.{Dict, lookup, insert, erase, lookup-insert, lookup-erase}
use crypto_master.Decimal.{Decimal, Context}
use crypto_master.Decimal.Laws.{IsRounding, IsExact}
use crypto_master.Exit.{Position}
use crypto_master.Tracker.{paper, get_trade}
use crypto_master.Paper.Balance.{PaperBalance, total}
use crypto_master.Paper.Symbols.{get_quote_currency}
use crypto_master.Paper.State.{OpenPosition, Config, PaperTrader}
use crypto_master.Paper.Trading.{Fresh, open_position, close_position}
use crypto_master.Paper.Close.{booked, close_position-effect, close_position-unknown}
use crypto_master.Paper.Open.{entry_fee_of, charged, opened_position, open_position-effect}
use crypto_master.Paper.Ledger.{IsLedger, ledger-IsCovered}
use crypto_master.Paper.Entry.{open_position-cases}
use crypto_master.Paper.InSync.{InSync}
use crypto_master.Paper.Session.{IsBounded}
use crypto_master.Paper.Restart.{opens, closes, Call-kept}
use crypto_master.Portfolio.{calculate_realized_pnl}
use crypto_master.Portfolio.Books.{calculate_realized_pnl-eq-weigh}
use crypto_master.Portfolio.Account.{open_fees, capital, affordable_capital, closed_capital}

module _ ⦃c : Context⦄ where
  -- Every open position is quoted in the currency.
  abbrev pub IsQuotedIn : Text → Dict OpenPosition → Type 0
  IsQuotedIn cur d = (k : Text) (o : OpenPosition) → lookup k d ≡ some o → o.quote_currency ≡ cur

  insert_quoted :
      (cur k : Text) (new : OpenPosition) (d : Dict OpenPosition)
      → new.quote_currency ≡ cur
      → IsQuotedIn cur d
      → IsQuotedIn cur (insert k new d)
  insert_quoted cur k new d is_cur q j o found = elim (Bool-cases (same j k)) [
    | inl hit ↦
        let this : new ≡ o = ground (arith, rw (lookup-insert k j new d, hit) at found) in
        subst (λ (p : OpenPosition). p.quote_currency ≡ cur) this is_cur
    | inr miss ↦ q j o (rw (lookup-insert k j new d, miss) at found)
  ]

  erase_quoted :
      (cur k : Text) (d : Dict OpenPosition) → IsQuotedIn cur d → IsQuotedIn cur (erase k d)
  erase_quoted cur k d q j o found = elim (Bool-cases (same j k)) [
    | inl hit ↦ let lost = rw (lookup-erase k j d, hit) at found in cc
    | inr miss ↦ q j o (rw (lookup-erase k j d, miss) at found)
  ]

  -- Opens in the currency, of valid positions with a stop or a target, under fresh ids and with a fee
  -- that is not negative; and closes.
  pub data Deals (g : Config) (cur : Text) (s : PaperTrader) : PaperTrader → Type 0 where
    idle : Deals g cur s s
    buys :
        (f : Fresh) (p : Position) (performance : Option Text) {t : PaperTrader}
        → Deals g cur s t
        → get_trade f.trade_id t.store ≡ none
        → IsBounded p
        → get_quote_currency p.symbol ≡ cur
        → pos 0 ≤ℤ entry_fee_of g p
        → Deals g cur s (open_position g f p performance t).1
    sells :
        (now : ℕ) (k : Text) (price : Decimal) (reason : Text) {t : PaperTrader}
        → Deals g cur s t
        → Deals g cur s (close_position g now k price reason t).1

  -- A trader whose capital in the currency is the amount.
  pub record HasCapital (cur : Text) (amount : ℤ) (s : PaperTrader) : Type 0 where
    pub ledger : IsLedger s
    pub in_sync : InSync s
    pub quoted : IsQuotedIn cur s.open_positions
    pub balance : PaperBalance
    pub funded : lookup cur s.balances ≡ some balance
    pub conserved : capital balance s.store ≡ amount

  module _ (x : IsExact c) (r : IsRounding c) (g : Config)
      (off : g.auto_deposit_on_liquidation ≡ false) where
    open_position-HasCapital :
        (cur : Text) (amount : ℤ) (f : Fresh) (p : Position) (performance : Option Text)
        (s : PaperTrader)
        → HasCapital cur amount s
        → get_trade f.trade_id s.store ≡ none
        → IsBounded p
        → get_quote_currency p.symbol ≡ cur
        → pos 0 ≤ℤ entry_fee_of g p
        → HasCapital cur amount (open_position g f p performance s).1
    open_position-HasCapital cur amount f p performance s h fresh bounded quote fee =
        elim (open_position-cases x r g f p performance s h.ledger) [
          | inr same_state ↦ subst (HasCapital cur amount) (sym same_state) h
          | inl (b, a) ↦
              let effect = open_position-effect g f p performance s b a in
              let (there, even) = affordable_capital x r g f p performance s b a fee in
              let is_b : b ≡ h.balance =
                let found : lookup cur s.balances ≡ some b =
                  ap (λ q. lookup q s.balances) (sym quote) ∙ a.funded in
                let known = h.funded in cc in
              let kept =
                Call-kept x r {g = g} (opens f p performance fresh bounded) (h.ledger, h.in_sync) in
              record {
                ledger = kept.0;
                in_sync = kept.1;
                quoted = λ j o found.
                    insert_quoted cur f.trade_id (opened_position g f p) s.open_positions quote
                      h.quoted j o (ap (lookup j) (sym effect.1) ∙ found);
                balance = charged g p b;
                funded =
                    ap (λ q. lookup q (open_position g f p performance s).1.balances) (sym quote)
                    ∙ there;
                conserved = even ∙ ap (λ q. capital q s.store) is_b ∙ h.conserved;
              }
        ]

    close_position-HasCapital :
        (cur : Text) (amount : ℤ) (now : ℕ) (k : Text) (price : Decimal) (reason : Text)
        (s : PaperTrader)
        → HasCapital cur amount s
        → HasCapital cur amount (close_position g now k price reason s).1
    close_position-HasCapital cur amount now k price reason s h =
        elim (Option-cases (lookup k s.open_positions)) [
          | inl unknown ↦ rw (close_position-unknown g now k price reason s unknown) h
          | inr (o, held) ↦
              let (kept, synced) =
                Call-kept x r {g = g} (closes now k price reason) (h.ledger, h.in_sync) in
              let is_cur : o.quote_currency ≡ cur = h.quoted k o held in
              let funded : lookup o.quote_currency s.balances ≡ some h.balance =
                ap (λ q. lookup q s.balances) is_cur ∙ h.funded in
              let v = ledger-IsCovered x r s k o h.balance h.ledger held funded in
              let effect = close_position-effect g now k price reason s o h.balance v in
              let (there, even) =
                closed_capital x r g now k price reason s o h.balance off h.ledger h.in_sync held
                  funded in
              record {
                ledger = kept;
                in_sync = synced;
                quoted = λ j o' found.
                    erase_quoted cur k s.open_positions h.quoted j o'
                      (ap (lookup j) (sym effect.3) ∙ found);
                balance = booked g o price h.balance;
                funded =
                    ap (λ q. lookup q (close_position g now k price reason s).1.balances)
                      (sym is_cur)
                    ∙ there;
                conserved = even ∙ h.conserved;
              }
        ]

    Deals-kept :
        {cur : Text} {amount : ℤ} {s t : PaperTrader}
        → Deals g cur s t
        → HasCapital cur amount s
        → HasCapital cur amount t
    Deals-kept idle h = h
    Deals-kept {cur} {amount} (buys f p performance {t} run fresh bounded quote fee) h =
        open_position-HasCapital cur amount f p performance t (Deals-kept run h) fresh bounded quote
          fee
    Deals-kept {cur} {amount} (sells now k price reason {t} run) h =
        close_position-HasCapital cur amount now k price reason t (Deals-kept run h)

    -- Where no sum is rounded and a liquidation makes no deposit, opens and closes in one currency keep
    -- the books: the change of the currency's balance, free and locked, is the change of the realised
    -- profit that the portfolio tracker reports, less the entry fees of the positions still open. In
    -- full: from a trader that is a ledger in agreement with its files, with a balance in the currency
    -- and positions in no other, and over every sequence of closes and of opens in that currency, each
    -- of a valid position with a stop or a target, under an id that is in no file and with an entry
    -- fee that is not negative, the currency still has a balance, and its total with the fees of the
    -- open trades less the reported profit is as before.
    pub capital_conserved :
        (cur : Text) (s t : PaperTrader) (b : PaperBalance)
        → IsLedger s
        → InSync s
        → IsQuotedIn cur s.open_positions
        → lookup cur s.balances ≡ some b
        → Deals g cur s t
        → (b' : PaperBalance) × (lookup cur t.balances ≡ some b')
          × ((total b' +ℤ open_fees t.store) -ℤ calculate_realized_pnl paper t.store
              ≡ (total b +ℤ open_fees s.store) -ℤ calculate_realized_pnl paper s.store)
    capital_conserved cur s t b l i q funded run =
        let start : HasCapital cur (capital b s.store) s = record {
          ledger = l;
          in_sync = i;
          quoted = q;
          balance = b;
          funded = funded;
          conserved = refl;
        } in
        let h = Deals-kept run start in
        (
          h.balance,
          h.funded,
          rw (calculate_realized_pnl-eq-weigh x t.store, calculate_realized_pnl-eq-weigh x s.store)
              h.conserved,
        )
