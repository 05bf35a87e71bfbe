-- ===== src/Paper/Entry.antt =====
-- `open_position` of src/trading/paper.py keeps the ledger.
use crypto_master.Prelude.{
  ◌≡◌, refl, ap, sym, subst, ◌∙◌, ◌⊎◌, inl, inr, true, Option, none, some, arith, Bool-cases,
  Option-cases,
}
use crypto_master.Prelude.Int.{pos, ◌≤ℤ◌, ◌<ℤ◌, ≤ℤ-or-lt}
use crypto_master.Text.{Text, same, same_iff}
use crypto_master.Dict.{lookup, insert, lookup-insert, insert-IsDistinct, IsDistinct}
use crypto_master.Decimal.{Context, add, sub, lt, literal}
use crypto_master.Decimal.Laws.{IsRounding, IsExact, div-IsRepr, sub_nonneg}
use crypto_master.Exit.{Position}
use crypto_master.Paper.Balance.{PaperBalance}
use crypto_master.Paper.Balance.Laws.{lock-cases}
use crypto_master.Paper.Symbols.{get_quote_currency}
use crypto_master.Paper.State.{Config, PaperTrader}
use crypto_master.Paper.Trading.{
  Fresh, notional_value, required_margin, return_margin, after_fee, after_lock, open_on,
  open_position,
}
use crypto_master.Paper.Reconcile.{expected_locked}
use crypto_master.Paper.Margins.{
  AreMargins, AreMargins-insert, expected_locked-insert_new, expected_locked_nonneg,
}
use crypto_master.Paper.Open.{
  IsAffordable, entry_fee_of, open_position-effect, charged, opened_position, held_back,
  unlock-held_back, deduct-of_short, with_balance_same,
}
use crypto_master.Paper.Ledger.{IsLedger}

module _ ⦃c : Context⦄ where
  required_margin-IsRepr :
      IsRounding c → (p : Position) → c.round (required_margin p) 1 ≡ required_margin p
  unfolding required_margin
  required_margin-IsRepr r p = div-IsRepr r (notional_value p) (literal p.leverage 1)

module _ ⦃c : Context⦄ (x : IsExact c) (r : IsRounding c) (g : Config) (f : Fresh) (p : Position)
    (performance : Option Text) (s : PaperTrader) where
  -- An open is affordable, or it leaves the trader as it was.
  open_on-cases :
      (b : PaperBalance)
      → lookup (get_quote_currency p.symbol) s.balances ≡ some b
      → pos 0 ≤ℤ b.locked
      → IsAffordable g p s b ⊎ ((open_position g f p performance s).1 ≡ s)
  unfolding open_position open_on after_lock after_fee return_margin
  open_on-cases b there solvent = elim (lock-cases (required_margin p) b) [
    | inr (inl (low, e)) ↦ inr (rw (open_position, there, open_on, e, after_lock) refl)
    | inr (inr (positive, short, e)) ↦ inr (rw (open_position, there, open_on, e, after_lock) refl)
    | inl (positive, covered, e) ↦
        let rest = sub b.free (required_margin p) in
        let rest_nonneg : pos 0 ≤ℤ rest = sub_nonneg r b.free (required_margin p) covered in
        elim (≤ℤ-or-lt (entry_fee_of g p) rest) [
          | inl paid ↦ inl (record {
            funded = there;
            margin_pos = positive;
            margin_free = covered;
            fee_free = paid;
          })
          | inr short ↦
              let charges : pos 0 <ℤ entry_fee_of g p = omega arith in
              let charged_for : lt (pos 0) (entry_fee_of g p) ≡ true = ground arith in
              let held : PaperBalance = held_back x g f p performance s b there solvent in
              inr (
                rw
                  (
                    open_position,
                    there,
                    open_on,
                    e,
                    after_lock,
                    charged_for,
                    deduct-of_short (entry_fee_of g p) held charges (ground arith),
                    after_fee,
                    unlock-held_back x g f p performance s b there solvent positive,
                    return_margin,
                  )
                  (with_balance_same x g f p performance s b there solvent))
        ]
  ]

  -- What an affordable open leaves locked in each currency.
  charged_balanced :
      (b : PaperBalance) (cur : Text) (b' : PaperBalance)
      → IsLedger s
      → lookup f.trade_id s.open_positions ≡ none
      → lookup (get_quote_currency p.symbol) s.balances ≡ some b
      → lookup cur (insert (get_quote_currency p.symbol) (charged g p b) s.balances) ≡ some b'
      → b'.locked ≡ expected_locked cur (insert f.trade_id (opened_position g f p) s.open_positions)
  charged_balanced b cur b' l fresh funded there =
      let quote = get_quote_currency p.symbol in
      let found = sym (lookup-insert quote cur (charged g p b) s.balances) ∙ there in
      let grown =
        expected_locked-insert_new f.trade_id cur (opened_position g f p) s.open_positions fresh in
      elim (Bool-cases (same cur quote)) [
        | inr other ↦ l.balanced cur b' (rw other at found) ∙ sym (grown ∙ rw other refl)
        | inl hit ↦
            let this : charged g p b ≡ b' = ground (arith, rw hit at found) in
            let is_quote : cur ≡ quote = (same_iff cur quote).0 hit in
            let was : b.locked ≡ expected_locked cur s.open_positions =
              l.balanced quote b funded
              ∙ ap (λ q. expected_locked q s.open_positions) (sym is_quote) in
            sym (ap (λ (z : PaperBalance). z.locked) this)
            ∙ ap (λ n. add n (required_margin p)) was
            ∙ sym (grown ∙ rw hit refl)
      ]

  affordable-IsLedger :
      (b : PaperBalance)
      → IsLedger s
      → lookup f.trade_id s.open_positions ≡ none
      → IsAffordable g p s b
      → IsLedger (open_position g f p performance s).1
  affordable-IsLedger b l fresh a =
      let effect = open_position-effect g f p performance s b a in
      let held = opened_position g f p in
      record {
        distinct =
            subst IsDistinct (sym effect.1)
              (insert-IsDistinct f.trade_id held s.open_positions l.distinct);
        margins = subst AreMargins (sym effect.1) (
            AreMargins-insert f.trade_id held s.open_positions
              (a.margin_pos, required_margin-IsRepr r p) l.margins);
        balanced = λ cur b' there.
            charged_balanced b cur b' l fresh a.funded (ap (lookup cur) (sym effect.0) ∙ there)
            ∙ ap (expected_locked cur) (sym effect.1);
      }

  -- From a ledger, an open is affordable, or it leaves the trader as it was.
  pub open_position-cases :
      IsLedger s
      → ((b : PaperBalance) × IsAffordable g p s b) ⊎ ((open_position g f p performance s).1 ≡ s)
  unfolding open_position open_on
  open_position-cases l = elim (Option-cases (lookup (get_quote_currency p.symbol) s.balances)) [
    | inl missing ↦ inr (rw (open_position, missing, open_on) refl)
    | inr (b, there) ↦
        let solvent : pos 0 ≤ℤ b.locked =
          rw (l.balanced (get_quote_currency p.symbol) b there)
            (expected_locked_nonneg r (get_quote_currency p.symbol) s.open_positions l.margins) in
        elim (open_on-cases b there solvent) [
          | inl a ↦ inl (b, a)
          | inr same_state ↦ inr same_state
        ]
  ]

  -- Opening under a fresh id keeps the ledger.
  pub open_position-IsLedger :
      IsLedger s
      → lookup f.trade_id s.open_positions ≡ none
      → IsLedger (open_position g f p performance s).1
  open_position-IsLedger l fresh = elim (open_position-cases l) [
    | inl (b, a) ↦ affordable-IsLedger b l fresh a
    | inr same_state ↦ rw same_state l
  ]
