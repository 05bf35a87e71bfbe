-- ===== src/Paper/Marked.antt =====
-- What opening and closing do to the marked equity of src/trading/paper.py.
use crypto_master.Prelude.{
  ◌≡◌, refl, ap, ◌∙◌, ℕ, false, inl, inr, Option, none, some, [], ◌∷◌, arith, Bool-cases,
}
use crypto_master.Prelude.Int.{pos, ◌+ℤ◌, ◌-ℤ◌, ◌*ℤ◌, ℤ, int_laws}
use crypto_master.Text.{Text, same, same_iff, same_refl}
use crypto_master.Dict.{Dict, lookup, insert, erase, IsDistinct, erase_absent, lookup-insert}
use crypto_master.Decimal.{Decimal, Context, add, sub, mul, neg, sum, lt}
use crypto_master.Decimal.Laws.{IsRounding, IsExact, add_exact, sub_exact}
use crypto_master.Exit.{Position}
use crypto_master.TradingTypes.{TradeSide}
use crypto_master.TradingMath.{position_pnl}
use crypto_master.TradingMath.Pnl.{position_pnl-eq-pnl_for_trade}
use crypto_master.Paper.Balance.{PaperBalance, total}
use crypto_master.Paper.Symbols.{get_quote_currency}
use crypto_master.Paper.State.{OpenPosition, Config, PaperTrader}
use crypto_master.Paper.Trading.{
  Fresh, open_position, position_exit_pnl, exit_fee_of, close_position,
}
use crypto_master.Paper.Equity.{
  profit_at, with_profit, unrealized_pnl, values, get_total_unrealized_pnl, with_unrealized,
  get_total_equity,
}
use crypto_master.Paper.Close.{IsCovered, booked, booked-total, close_position-effect}
use crypto_master.Paper.Open.{
  fee_taken, IsAffordable, charged, entry_fee_of, opened_position, open_position-effect,
}

module _ ⦃c : Context⦄ (x : IsExact c) (r : IsRounding c) (prices : Dict Decimal) where
  -- The profit that a position adds, if its symbol has a price.
  abbrev marked_at : OpenPosition → Option Decimal → Decimal
  marked_at o none = pos 0
  marked_at o (some price) = profit_at o price

  abbrev mark : OpenPosition → Decimal
  mark o = marked_at o (lookup o.position.symbol prices)

  abbrev marked : Dict OpenPosition → Decimal
  marked [] = pos 0
  marked ((k, o) ∷ ps) = mark o +ℤ marked ps

  sum-with_profit :
      (acc : Decimal) (k : Text) (o : OpenPosition) (price : Option Decimal) (d : Dict Decimal)
      → sum acc (values (with_profit k o price d)) ≡ sum (acc +ℤ marked_at o price) (values d)
  unfolding sum
  sum-with_profit acc k o none d = ap (λ a. sum a (values d)) (omega int_laws)
  sum-with_profit acc k o (some price) d =
      ap (λ a. sum a (values d)) (add_exact x acc (profit_at o price))

  sum-unrealized_pnl :
      (acc : Decimal) (ps : Dict OpenPosition)
      → sum acc (values (unrealized_pnl prices ps)) ≡ acc +ℤ marked ps
  unfolding unrealized_pnl sum
  sum-unrealized_pnl acc [] = omega int_laws
  sum-unrealized_pnl acc ((k, o) ∷ ps) =
      sum-with_profit acc k o (lookup o.position.symbol prices) (unrealized_pnl prices ps)
      ∙ sum-unrealized_pnl (acc +ℤ mark o) ps
      ∙ omega int_laws

  get_total_unrealized_pnl-eq-marked :
      (s : PaperTrader) → get_total_unrealized_pnl prices s ≡ marked s.open_positions
  unfolding get_total_unrealized_pnl
  get_total_unrealized_pnl-eq-marked s =
      sum-unrealized_pnl (pos 0) s.open_positions ∙ omega int_laws

  marked-insert_new :
      (k : Text) (o : OpenPosition) (ps : Dict OpenPosition)
      → lookup k ps ≡ none
      → marked (insert k o ps) ≡ marked ps +ℤ mark o
  unfolding insert lookup
  marked-insert_new k o [] h = omega int_laws
  marked-insert_new k o ((j, p) ∷ ps) h = elim (Bool-cases (same k j)) [
    | inl hit ↦ cc (rw hit at h)
    | inr miss ↦ rw (miss, marked-insert_new k o ps (rw miss at h)) (omega int_laws)
  ]

  marked-erase :
      (k : Text) (o : OpenPosition) (ps : Dict OpenPosition)
      → IsDistinct ps
      → lookup k ps ≡ some o
      → marked (erase k ps) ≡ marked ps -ℤ mark o
  unfolding erase lookup
  marked-erase k o [] d e = cc
  marked-erase k o ((j, p) ∷ ps) d e = elim (Bool-cases (same k j)) [
    | inr miss ↦ rw (miss, marked-erase k o ps d.1 (rw miss at e)) (omega int_laws)
    | inl hit ↦
        let is_j : k ≡ j = (same_iff k j).0 hit in
        let this : p ≡ o = ground (arith, rw hit at e) in
        let gone : erase k ps ≡ ps = erase_absent k ps (rw is_j d.0) in
        rw (hit, gone, ← this) (omega int_laws)
  ]

  sub_self : (a : Decimal) → sub a a ≡ pos 0
  unfolding sub
  sub_self a = ap (λ n. c.round n 1) (omega int_laws) ∙ r.round_zero 1

  zero_times : (a : ℤ) → pos 0 *ℤ a ≡ pos 0
  unfolding ◌*ℤ◌
  zero_times a = grind int_laws

  mul-zero_left : (a : Decimal) → mul (pos 0) a ≡ pos 0
  unfolding mul
  mul-zero_left a = ap (λ n. c.round n c.unit) (zero_times a) ∙ r.round_zero c.unit

  neg_zero : neg (pos 0) ≡ pos 0
  unfolding neg
  neg_zero = ap (λ n. c.round n 1) (omega int_laws) ∙ r.round_zero 1

  position_pnl_at_entry :
      (side : TradeSide) (entry qty : Decimal) → position_pnl side entry qty entry ≡ pos 0
  unfolding position_pnl
  position_pnl_at_entry TradeSide.long entry qty = rw (sub_self entry) (mul-zero_left qty)
  position_pnl_at_entry TradeSide.short entry qty =
      rw (sub_self entry, neg_zero) (mul-zero_left qty)

  with_unrealized-of_priced :
      (symbol : Text) (price equity : Decimal) (s : PaperTrader) (ps : Dict Decimal)
      → lookup symbol ps ≡ some price
      → with_unrealized ps s equity ≡ add equity (get_total_unrealized_pnl ps s)
  unfolding lookup
  with_unrealized-of_priced symbol price equity s [] h = cc
  with_unrealized-of_priced symbol price equity s (q ∷ ps) h = refl

  -- The equity where the currency has a balance and there is a price.
  get_total_equity-of_some :
      (cur symbol : Text) (price : Decimal) (s : PaperTrader) (b : PaperBalance)
      → lookup cur s.balances ≡ some b
      → lookup symbol prices ≡ some price
      → get_total_equity cur prices s ≡ total b +ℤ marked s.open_positions
  unfolding get_total_equity
  get_total_equity-of_some cur symbol price s b there priced =
      rw (get_total_equity, there)
        (with_unrealized-of_priced symbol price (total b) s prices priced
          ∙ add_exact x (total b) (get_total_unrealized_pnl prices s)
          ∙ ap (λ m. total b +ℤ m) (get_total_unrealized_pnl-eq-marked s))

  pub charged-total :
      (g : Config) (p : Position) (b : PaperBalance)
      → total (charged g p b) ≡ total b -ℤ fee_taken g p
  unfolding total
  charged-total g p b = elim (Bool-cases (lt (pos 0) (entry_fee_of g p))) [
    | inl charges ↦ rw charges (simp (add_exact x, sub_exact x) (omega int_laws))
    | inr free ↦ rw free (simp (add_exact x, sub_exact x) (omega int_laws))
  ]

  -- Opening an affordable position under a fresh id, marked at its own entry price, costs its
  -- currency's equity exactly the entry fee, and nothing where that is not positive. No sum is
  -- rounded.
  pub open_position-equity :
      (g : Config) (f : Fresh) (p : Position) (performance : Option Text) (s : PaperTrader)
      (b : PaperBalance)
      → IsAffordable g p s b
      → lookup f.trade_id s.open_positions ≡ none
      → lookup p.symbol prices ≡ some p.entry_price
      → let quote = get_quote_currency p.symbol in
        get_total_equity quote prices (open_position g f p performance s).1
        ≡ get_total_equity quote prices s -ℤ fee_taken g p
  open_position-equity g f p performance s b a fresh priced =
      let quote = get_quote_currency p.symbol in
      let s' = (open_position g f p performance s).1 in
      let effect = open_position-effect g f p performance s b a in
      let there : lookup quote s'.balances ≡ some (charged g p b) =
        ap (lookup quote) effect.0
        ∙ lookup-insert quote quote (charged g p b) s.balances
        ∙ rw (same_refl quote) refl in
      let at_entry : mark (opened_position g f p) ≡ pos 0 =
        ap (marked_at (opened_position g f p)) priced
        ∙ position_pnl_at_entry p.side p.entry_price p.quantity in
      let grown : marked s'.open_positions ≡ marked s.open_positions +ℤ pos 0 =
        ap marked effect.1
        ∙ marked-insert_new f.trade_id (opened_position g f p) s.open_positions fresh
        ∙ ap (λ m. marked s.open_positions +ℤ m) at_entry in
      get_total_equity-of_some quote p.symbol p.entry_price s' (charged g p b) there priced
      ∙ rw
          (
            grown,
            charged-total g p b,
            get_total_equity-of_some quote p.symbol p.entry_price s b a.funded priced,
          )
          (omega int_laws)

  -- Closing a covered position at the price that it is marked at costs its currency's equity
  -- exactly the exit fee: the unrealised profit becomes a realised one of the same amount. No sum
  -- is rounded and there is no deposit on a liquidation.
  pub close_position-equity :
      (g : Config) (now : ℕ) (k : Text) (price : Decimal) (reason : Text) (s : PaperTrader)
      (o : OpenPosition) (b : PaperBalance)
      → IsCovered s k o b
      → IsDistinct s.open_positions
      → lookup o.position.symbol prices ≡ some price
      → g.auto_deposit_on_liquidation ≡ false
      → get_total_equity o.quote_currency prices (close_position g now k price reason s).1
        ≡ get_total_equity o.quote_currency prices s -ℤ exit_fee_of g o price
  close_position-equity g now k price reason s o b v d priced off =
      let quote = o.quote_currency in
      let s' = (close_position g now k price reason s).1 in
      let effect = close_position-effect g now k price reason s o b v in
      let there : lookup quote s'.balances ≡ some (booked g o price b) =
        ap (lookup quote) effect.2
        ∙ lookup-insert quote quote (booked g o price b) s.balances
        ∙ rw (same_refl quote) refl in
      let realized : mark o ≡ position_exit_pnl o price =
        ap (marked_at o) priced
        ∙ position_pnl-eq-pnl_for_trade r o.position.side o.position.entry_price o.position.quantity
            price in
      let shrunk : marked s'.open_positions ≡ marked s.open_positions -ℤ position_exit_pnl o price =
        ap marked effect.3
        ∙ marked-erase k o s.open_positions d v.held
        ∙ ap (λ m. marked s.open_positions -ℤ m) realized in
      get_total_equity-of_some quote o.position.symbol price s' (booked g o price b) there priced
      ∙ rw
          (
            shrunk,
            booked-total x g price o b off,
            get_total_equity-of_some quote o.position.symbol price s b v.funded priced,
          )
          (omega int_laws)
