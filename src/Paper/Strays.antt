-- ===== src/Paper/Strays.antt =====
-- `force_close_orphan` of src/trading/paper.py keeps a trader in agreement with its files.
use crypto_master.Prelude.{
  ℕ, ◌≡◌, refl, ap, sym, subst, ◌∙◌, inl, inr, true, false, none, some, if◌then◌else◌, Bool-cases,
  Option-cases, is_some,
}
use crypto_master.Prelude.Int.{pos}
use crypto_master.Text.{Text, text}
use crypto_master.Dict.{lookup, IsDistinct, insert-IsDistinct}
use crypto_master.Decimal.{Decimal, Context}
use crypto_master.Decimal.Laws.{IsRounding, IsExact}
use crypto_master.Tracker.{Trade, is_open, get_trade, closed_trade, close_trade}
use crypto_master.Tracker.Lifecycle.{close_trade-of_open}
use crypto_master.Paper.Balance.{PaperBalance}
use crypto_master.Paper.Balance.Laws.{unlock-of_locked}
use crypto_master.Paper.State.{OpenPosition, PaperTrader}
use crypto_master.Paper.Trading.{closing}
use crypto_master.Paper.Reconcile.{release_margin, pop_orphan, close_orphan, force_close_orphan}
use crypto_master.Paper.Close.{IsCovered, released}
use crypto_master.Paper.Ledger.{IsLedger, ledger-IsCovered}
use crypto_master.Paper.Orphan.{
  orphan_close, close_orphan-parts, pop_orphan-covered, pop_orphan-unfunded,
  force_close_orphan-of_open, force_close_orphan-of_settled, force_close_orphan-of_unknown,
}
use crypto_master.Paper.InSync.{InSync, held_trade}
use crypto_master.Paper.Settle.{closed_held, settled-InSync}
use crypto_master.Paper.Elsewhere.{elsewhere-InSync}

module _ ⦃c : Context⦄ where
  -- The file is written exactly where the tracker closed the trade and a balance changed.
  close_orphan-snapshot :
      (now : ℕ) (k : Text) (price : Decimal) (s : PaperTrader)
      → let popped = pop_orphan k (lookup k s.open_positions) s in
        is_some (orphan_close now k price popped.0.store).0 ≡ true
        → (close_orphan now k price s).1.snapshot
          ≡ (if popped.1 then some popped.0.balances else popped.0.snapshot)
  unfolding close_orphan
  close_orphan-snapshot now k price s h =
      elim (Bool-cases (pop_orphan k (lookup k s.open_positions) s).1) [
        | inl changed ↦ rw (close_orphan, h, changed) refl
        | inr kept ↦ rw (close_orphan, h, kept) refl
      ]

  pop_orphan-changed :
      (k : Text) (s : PaperTrader) (o : OpenPosition) (b : PaperBalance)
      → IsCovered s k o b
      → (pop_orphan k (lookup k s.open_positions) s).1 ≡ true
  unfolding pop_orphan release_margin
  pop_orphan-changed k s o b v =
      rw
        (
          v.held,
          pop_orphan,
          v.funded,
          release_margin,
          unlock-of_locked o.margin b v.margin_pos v.margin_locked,
        )
        refl

  pop_orphan-kept :
      (k : Text) (s : PaperTrader) (o : OpenPosition)
      → lookup k s.open_positions ≡ some o
      → lookup o.quote_currency s.balances ≡ none
      → let popped = pop_orphan k (lookup k s.open_positions) s in
        (popped.0.store ≡ s.store) × (popped.0.snapshot ≡ s.snapshot) × (popped.1 ≡ false)
  unfolding pop_orphan release_margin
  pop_orphan-kept k s o held missing =
      rw (held, pop_orphan, missing, release_margin) (refl, refl, refl)

  module _ (x : IsExact c) (r : IsRounding c) (now : ℕ) (k : Text) (price : Decimal)
      (s : PaperTrader) (l : IsLedger s) (i : InSync s) where
    held_orphan-InSync :
        (o : OpenPosition)
        → lookup k s.open_positions ≡ some o
        → InSync (close_orphan now k price s).1
    held_orphan-InSync o held =
        let how = closing price (text "orphan_force_close") (pos 0) in
        let parts = close_orphan-parts now k price s in
        let popped = pop_orphan k (lookup k s.open_positions) s in
        let gone = closed_held k now how s o i (held_trade k s o i held) in
        let closes : is_some (close_trade k now how s.store).0 ≡ true = rw gone refl in
        elim (Option-cases (lookup o.quote_currency s.balances)) [
          | inl missing ↦
              let effect = pop_orphan-unfunded k s o held missing in
              let kept = pop_orphan-kept k s o held missing in
              let still_closes : is_some (close_trade k now how popped.0.store).0 ≡ true =
                rw kept.0 closes in
              let balances = parts.2 ∙ effect.0 in
              settled-InSync k now how s _ o i held
                (parts.1 ∙ ap (λ st. (close_trade k now how st).1) kept.0) (parts.3 ∙ effect.1)
                (subst IsDistinct (sym balances) i.distinct_balances)
                (close_orphan-snapshot now k price s still_closes
                  ∙ rw kept.2 kept.1
                  ∙ i.saved
                  ∙ ap some (sym balances))
          | inr (b, funded) ↦
              let v = ledger-IsCovered x r s k o b l held funded in
              let effect = pop_orphan-covered k s o b v in
              let still_closes : is_some (close_trade k now how popped.0.store).0 ≡ true =
                rw effect.2 closes in
              settled-InSync k now how s _ o i held
                (parts.1 ∙ ap (λ st. (close_trade k now how st).1) effect.2) (parts.3 ∙ effect.1)
                (subst IsDistinct (sym (parts.2 ∙ effect.0)) (
                  insert-IsDistinct o.quote_currency (released o b) s.balances i.distinct_balances))
                (close_orphan-snapshot now k price s still_closes
                  ∙ rw (pop_orphan-changed k s o b v) refl
                  ∙ ap some (sym parts.2))
        ]

    unheld_orphan-InSync :
        (t : Trade)
        → get_trade k s.store ≡ some t
        → is_open t.status ≡ true
        → lookup k s.open_positions ≡ none
        → InSync (close_orphan now k price s).1
    unfolding pop_orphan closed_trade
    unheld_orphan-InSync t there o unheld =
        let how = closing price (text "orphan_force_close") (pos 0) in
        let parts = close_orphan-parts now k price s in
        let gone = close_trade-of_open k now how s.store t there o in
        let as_before : pop_orphan k (lookup k s.open_positions) s ≡ (s, false) =
          rw (unheld, pop_orphan) refl in
        let closes : is_some
              (orphan_close now k price (pop_orphan k (lookup k s.open_positions) s).0.store).0
            ≡ true =
          rw (as_before, gone) refl in
        elsewhere-InSync k s i t there o unheld (closed_trade now how t)
          (close_orphan now k price s).1 refl (parts.1 ∙ rw (as_before, gone) refl)
          (parts.3 ∙ rw as_before refl) (parts.2 ∙ rw as_before refl)
          (close_orphan-snapshot now k price s closes ∙ rw as_before refl)

    -- Closing an orphan keeps a ledger in agreement.
    pub force_close_orphan-InSync : InSync (force_close_orphan now k price s).1
    force_close_orphan-InSync = elim (Option-cases (get_trade k s.store)) [
      | inl unknown ↦ rw (force_close_orphan-of_unknown now k price s unknown) i
      | inr (t, there) ↦ elim (Bool-cases (is_open t.status)) [
        | inr settled ↦ rw (force_close_orphan-of_settled now k price s t there settled) i
        | inl o ↦
            rw (force_close_orphan-of_open now k price s t there o)
              (elim (Option-cases (lookup k s.open_positions)) [
                | inl unheld ↦ unheld_orphan-InSync t there o unheld
                | inr (p, held) ↦ held_orphan-InSync p held
              ])
      ]
    ]
