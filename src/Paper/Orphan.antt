-- ===== src/Paper/Orphan.antt =====
-- `force_close_orphan` of src/trading/paper.py.
use crypto_master.Prelude.{
  ℕ, ◌≡◌, refl, ap, sym, ◌∙◌, inl, inr, true, false, Option, none, some, ◌&&◌, Bool-cases,
  Option-cases, is_some,
}
use crypto_master.Prelude.Int.{pos}
use crypto_master.Text.{Text, text}
use crypto_master.Dict.{lookup, insert, erase}
use crypto_master.Decimal.{Decimal, Context}
use crypto_master.Decimal.Laws.{IsRounding, IsExact}
use crypto_master.Tracker.{Trade, Store, get_trade, is_open, close_trade}
use crypto_master.Paper.Balance.{PaperBalance}
use crypto_master.Paper.Balance.Laws.{unlock-of_locked}
use crypto_master.Paper.State.{OpenPosition, PaperTrader}
use crypto_master.Paper.Trading.{closing}
use crypto_master.Paper.Reconcile.{
  expected_locked, release_margin, pop_orphan, close_orphan, force_close_orphan,
}
use crypto_master.Paper.Close.{IsCovered, released}
use crypto_master.Paper.Ledger.{
  IsLedger, ledger-IsCovered, drop-IsLedger, unfunded_balanced, dropped_balanced,
}

module _ ⦃c : Context⦄ where
  abbrev pub orphan_close : ℕ → Text → Decimal → Store → Option Trade × Store
  orphan_close now k price st =
      let closed = close_trade k now (closing price (text "orphan_force_close") (pos 0)) st in
      (closed.0, closed.1)

  pub close_orphan-parts :
      (now : ℕ) (k : Text) (price : Decimal) (s : PaperTrader)
      → let (trade, s') = close_orphan now k price s in
        let popped = (pop_orphan k (lookup k s.open_positions) s).0 in
        (trade ≡ (orphan_close now k price popped.store).0)
        × (s'.store ≡ (orphan_close now k price popped.store).1)
        × (s'.balances ≡ popped.balances)
        × (s'.open_positions ≡ popped.open_positions)
  unfolding close_orphan
  close_orphan-parts now k price s =
      let (popped, changed) = pop_orphan k (lookup k s.open_positions) s in
      elim (Bool-cases (is_some (orphan_close now k price popped.store).0 && changed)) [
        | inl saves ↦ rw saves (refl, refl, refl, refl)
        | inr skips ↦ rw skips (refl, refl, refl, refl)
      ]

  pub pop_orphan-covered :
      (k : Text) (s : PaperTrader) (o : OpenPosition) (b : PaperBalance)
      → IsCovered s k o b
      → let popped = (pop_orphan k (lookup k s.open_positions) s).0 in
        (popped.balances ≡ insert o.quote_currency (released o b) s.balances)
        × (popped.open_positions ≡ erase k s.open_positions)
        × (popped.store ≡ s.store)
  unfolding pop_orphan release_margin
  pop_orphan-covered k s o b v =
      rw
        (
          v.held,
          pop_orphan,
          v.funded,
          release_margin,
          unlock-of_locked o.margin b v.margin_pos v.margin_locked,
        )
        (refl, refl, refl)

  pub pop_orphan-unfunded :
      (k : Text) (s : PaperTrader) (o : OpenPosition)
      → lookup k s.open_positions ≡ some o
      → lookup o.quote_currency s.balances ≡ none
      → let popped = (pop_orphan k (lookup k s.open_positions) s).0 in
        (popped.balances ≡ s.balances) × (popped.open_positions ≡ erase k s.open_positions)
  unfolding pop_orphan release_margin
  pop_orphan-unfunded k s o held missing =
      rw (held, pop_orphan, missing, release_margin) (refl, refl)

  pub force_close_orphan-of_open :
      (now : ℕ) (k : Text) (price : Decimal) (s : PaperTrader) (t : Trade)
      → get_trade k s.store ≡ some t
      → is_open t.status ≡ true
      → force_close_orphan now k price s ≡ close_orphan now k price s
  unfolding force_close_orphan
  force_close_orphan-of_open now k price s t e o = rw (force_close_orphan, e, o) refl

  pub force_close_orphan-of_settled :
      (now : ℕ) (k : Text) (price : Decimal) (s : PaperTrader) (t : Trade)
      → get_trade k s.store ≡ some t
      → is_open t.status ≡ false
      → force_close_orphan now k price s ≡ (none, s)
  unfolding force_close_orphan
  force_close_orphan-of_settled now k price s t e o = rw (force_close_orphan, e, o) refl

  pub force_close_orphan-of_unknown :
      (now : ℕ) (k : Text) (price : Decimal) (s : PaperTrader)
      → get_trade k s.store ≡ none
      → force_close_orphan now k price s ≡ (none, s)
  unfolding force_close_orphan
  force_close_orphan-of_unknown now k price s e = rw (force_close_orphan, e) refl

module _ ⦃c : Context⦄ (x : IsExact c) (r : IsRounding c) where
  close_orphan-IsLedger :
      (now : ℕ) (k : Text) (price : Decimal) (s : PaperTrader)
      → IsLedger s
      → IsLedger (close_orphan now k price s).1
  unfolding pop_orphan
  close_orphan-IsLedger now k price s l =
      let parts = close_orphan-parts now k price s in
      elim (Option-cases (lookup k s.open_positions)) [
        | inl unknown ↦
            let same_balances : (close_orphan now k price s).1.balances ≡ s.balances =
              parts.2 ∙ rw (unknown, pop_orphan) refl in
            let same_positions : (close_orphan now k price s).1.open_positions ≡ s.open_positions =
              parts.3 ∙ rw (unknown, pop_orphan) refl in
            record {
              distinct = rw same_positions l.distinct;
              margins = rw same_positions l.margins;
              balanced = λ cur b there.
                  l.balanced cur b (ap (lookup cur) (sym same_balances) ∙ there)
                  ∙ ap (expected_locked cur) (sym same_positions);
            }
        | inr (o, held) ↦ elim (Option-cases (lookup o.quote_currency s.balances)) [
          | inl missing ↦
              let popped = pop_orphan-unfunded k s o held missing in
              drop-IsLedger x r s k _ l (parts.3 ∙ popped.1) (λ cur b there.
                unfunded_balanced x r s k o cur b l held missing
                  (ap (lookup cur) (sym (parts.2 ∙ popped.0)) ∙ there))
          | inr (b, funded) ↦
              let popped =
                pop_orphan-covered k s o b (ledger-IsCovered x r s k o b l held funded) in
              drop-IsLedger x r s k _ l (parts.3 ∙ popped.1) (λ cur b' there.
                dropped_balanced x r s k o b (released o b) cur b' l held funded refl
                  (ap (lookup cur) (sym (parts.2 ∙ popped.0)) ∙ there))
        ]
      ]

  -- Closing an orphan keeps the ledger.
  pub force_close_orphan-IsLedger :
      (now : ℕ) (k : Text) (price : Decimal) (s : PaperTrader)
      → IsLedger s
      → IsLedger (force_close_orphan now k price s).1
  force_close_orphan-IsLedger now k price s l = elim (Option-cases (get_trade k s.store)) [
    | inl unknown ↦ rw (force_close_orphan-of_unknown now k price s unknown) l
    | inr (t, there) ↦ elim (Bool-cases (is_open t.status)) [
      | inl o ↦
          rw (force_close_orphan-of_open now k price s t there o)
            (close_orphan-IsLedger now k price s l)
      | inr settled ↦ rw (force_close_orphan-of_settled now k price s t there settled) l
    ]
  ]
