-- ===== src/Paper/Ledger.antt =====
-- The ledger invariant of src/trading/paper.py over whole runs: what a currency has locked is the
-- margins of the open positions in it.
use crypto_master.Prelude.{
  ℕ, ◌≡◌, refl, ap, sym, subst, ◌∙◌, inl, inr, false, none, some, [], ◌∷◌, arith, if◌then◌else◌,
  Bool-cases, Option-cases,
}
use crypto_master.Prelude.Int.{pos, ◌+ℤ◌, ◌-ℤ◌, int_laws}
use crypto_master.Text.{Text, same, same_iff}
use crypto_master.Dict.{
  Dict, lookup, insert, erase, lookup-insert, IsDistinct, erase-IsDistinct, erase_absent,
}
use crypto_master.Decimal.{Decimal, Context, add, sub}
use crypto_master.Decimal.Laws.{IsRounding, IsExact, add_exact, sub_exact}
use crypto_master.Paper.Balance.{PaperBalance}
use crypto_master.Paper.State.{OpenPosition, Config, PaperTrader}
use crypto_master.Paper.Trading.{close_position}
use crypto_master.Paper.Reconcile.{expected_from, expected_locked}
use crypto_master.Paper.Margins.{
  AreMargins, AreMargins-erase, margin-pos, margin-le-expected_locked,
}
use crypto_master.Paper.Close.{
  IsCovered, close_position-effect, close_position-unfunded, close_position-unknown, booked,
}

eq_of_plus_zero : (a e : Decimal) → a +ℤ pos 0 ≡ e → a ≡ e
eq_of_plus_zero a e h = rw (← h) (omega int_laws)

eq_sub_of_plus : (a m e : Decimal) → a +ℤ m ≡ e → a ≡ e -ℤ m
eq_sub_of_plus a m e h = rw (← h) (omega int_laws)

module _ ⦃c : Context⦄ where
  -- The state between two calls: one entry for each position, with its margin a value of the
  -- context and not negative, and in each currency exactly those margins locked.
  pub record IsLedger (s : PaperTrader) : Type 0 where
    pub distinct : IsDistinct s.open_positions
    pub margins : AreMargins s.open_positions
    pub balanced :
        (cur : Text) (b : PaperBalance)
        → lookup cur s.balances ≡ some b
        → b.locked ≡ expected_locked cur s.open_positions

module _ ⦃c : Context⦄ (x : IsExact c) where
  -- The accumulator comes out of the sum.
  expected_from-add :
      (acc y : Decimal) (cur : Text) (ps : Dict OpenPosition)
      → expected_from (acc +ℤ y) cur ps ≡ expected_from acc cur ps +ℤ y
  unfolding expected_from
  expected_from-add acc y cur [] = refl
  expected_from-add acc y cur ((k, o) ∷ ps) = elim (Bool-cases (same cur o.quote_currency)) [
    | inr other ↦ rw other (expected_from-add acc y cur ps)
    | inl hit ↦
        let swap : add (acc +ℤ y) o.margin ≡ add acc o.margin +ℤ y =
          simp (add_exact x) (omega int_laws) in
        rw (hit, swap) (expected_from-add (add acc o.margin) y cur ps)
  ]

  -- The margin that a position adds to a currency.
  abbrev counted : Text → OpenPosition → Decimal
  counted cur o = if same cur o.quote_currency then o.margin else pos 0

  counted-expected_from :
      (acc : Decimal) (cur : Text) (p : OpenPosition) (ps : Dict OpenPosition)
      → expected_from acc cur ps +ℤ counted cur p
        ≡ expected_from (if same cur p.quote_currency then add acc p.margin else acc) cur ps
  counted-expected_from acc cur p ps = elim (Bool-cases (same cur p.quote_currency)) [
    | inr other ↦ rw other (omega int_laws)
    | inl hit ↦ rw (hit, add_exact x acc p.margin) (sym (expected_from-add acc p.margin cur ps))
  ]

  expected_from-erase :
      (k cur : Text) (o : OpenPosition) (acc : Decimal) (ps : Dict OpenPosition)
      → IsDistinct ps
      → lookup k ps ≡ some o
      → expected_from acc cur (erase k ps) +ℤ counted cur o ≡ expected_from acc cur ps
  unfolding expected_from erase lookup
  expected_from-erase k cur o acc [] d e = cc
  expected_from-erase k cur o acc ((j, p) ∷ ps) d e = elim (Bool-cases (same k j)) [
    | inr miss ↦ rw miss (
        expected_from-erase k cur o (if same cur p.quote_currency then add acc p.margin else acc) ps
          d.1 (rw miss at e))
    | inl hit ↦
        let is_j : k ≡ j = (same_iff k j).0 hit in
        let this : p ≡ o = ground (arith, rw hit at e) in
        let gone : erase k ps ≡ ps = erase_absent k ps (rw is_j d.0) in
        rw (hit, gone, ← this) (counted-expected_from acc cur p ps)
  ]

  expected_locked-erase :
      (k cur : Text) (o : OpenPosition) (ps : Dict OpenPosition)
      → IsDistinct ps
      → lookup k ps ≡ some o
      → expected_locked cur (erase k ps) +ℤ counted cur o ≡ expected_locked cur ps
  unfolding expected_locked
  expected_locked-erase k cur o ps d e = expected_from-erase k cur o (pos 0) ps d e

  module _ (r : IsRounding c) where
    -- In a ledger every position with a balance in its currency is covered.
    pub ledger-IsCovered :
        (s : PaperTrader) (k : Text) (o : OpenPosition) (b : PaperBalance)
        → IsLedger s
        → lookup k s.open_positions ≡ some o
        → lookup o.quote_currency s.balances ≡ some b
        → IsCovered s k o b
    ledger-IsCovered s k o b l held funded = record {
      held = held;
      funded = funded;
      margin_pos = margin-pos k o s.open_positions l.margins held;
      margin_locked =
          rw (l.balanced o.quote_currency b funded)
            (margin-le-expected_locked r k o s.open_positions l.margins held);
    }

    -- The balances after the position is dropped, for a currency that the close did not touch.
    pub untouched_erase :
        (s : PaperTrader) (k cur : Text) (o : OpenPosition)
        → IsLedger s
        → lookup k s.open_positions ≡ some o
        → same cur o.quote_currency ≡ false
        → expected_locked cur (erase k s.open_positions) ≡ expected_locked cur s.open_positions
    untouched_erase s k cur o l held other =
        let e = expected_locked-erase k cur o s.open_positions l.distinct held in
        eq_of_plus_zero _ _ (rw other at e)

    -- What is locked in each currency once a position is dropped and its margin released.
    pub dropped_balanced :
        (s : PaperTrader) (k : Text) (o : OpenPosition) (b new : PaperBalance) (cur : Text)
        (b' : PaperBalance)
        → IsLedger s
        → lookup k s.open_positions ≡ some o
        → lookup o.quote_currency s.balances ≡ some b
        → new.locked ≡ sub b.locked o.margin
        → lookup cur (insert o.quote_currency new s.balances) ≡ some b'
        → b'.locked ≡ expected_locked cur (erase k s.open_positions)
    dropped_balanced s k o b new cur b' l held funded released there =
        let found = sym (lookup-insert o.quote_currency cur new s.balances) ∙ there in
        elim (Bool-cases (same cur o.quote_currency)) [
          | inr other ↦
              l.balanced cur b' (rw other at found) ∙ sym (untouched_erase s k cur o l held other)
          | inl hit ↦
              let this : new ≡ b' = ground (arith, rw hit at found) in
              let is_quote : cur ≡ o.quote_currency = (same_iff cur o.quote_currency).0 hit in
              let e = expected_locked-erase k cur o s.open_positions l.distinct held in
              let was : b.locked ≡ expected_locked cur s.open_positions =
                l.balanced o.quote_currency b funded
                ∙ ap (λ q. expected_locked q s.open_positions) (sym is_quote) in
              sym (ap (λ (z : PaperBalance). z.locked) this)
              ∙ released
              ∙ sub_exact x b.locked o.margin
              ∙ ap (λ n. n -ℤ o.margin) was
              ∙ sym (eq_sub_of_plus _ _ _ (rw hit at e))
        ]

    pub drop-IsLedger :
        (s : PaperTrader) (k : Text) (s' : PaperTrader)
        → IsLedger s
        → s'.open_positions ≡ erase k s.open_positions
        → ((cur : Text) (b : PaperBalance)
            → lookup cur s'.balances ≡ some b
            → b.locked ≡ expected_locked cur (erase k s.open_positions))
        → IsLedger s'
    drop-IsLedger s k s' l e h = record {
      distinct = subst IsDistinct (sym e) (erase-IsDistinct k s.open_positions l.distinct);
      margins = subst AreMargins (sym e) (AreMargins-erase k s.open_positions l.margins);
      balanced = λ cur b there. h cur b there ∙ ap (expected_locked cur) (sym e);
    }

    pub unfunded_balanced :
        (s : PaperTrader) (k : Text) (o : OpenPosition) (cur : Text) (b : PaperBalance)
        → IsLedger s
        → lookup k s.open_positions ≡ some o
        → lookup o.quote_currency s.balances ≡ none
        → lookup cur s.balances ≡ some b
        → b.locked ≡ expected_locked cur (erase k s.open_positions)
    unfunded_balanced s k o cur b l held missing there =
        elim (Bool-cases (same cur o.quote_currency)) [
          | inl hit ↦
              let is_quote : cur ≡ o.quote_currency = (same_iff cur o.quote_currency).0 hit in
              cc (rw is_quote at there)
          | inr other ↦ l.balanced cur b there ∙ sym (untouched_erase s k cur o l held other)
        ]

    -- Closing keeps the ledger.
    pub close_position-IsLedger :
        (g : Config) (now : ℕ) (k : Text) (price : Decimal) (reason : Text) (s : PaperTrader)
        → IsLedger s
        → IsLedger (close_position g now k price reason s).1
    close_position-IsLedger g now k price reason s l =
        elim (Option-cases (lookup k s.open_positions)) [
          | inl unknown ↦ rw (close_position-unknown g now k price reason s unknown) l
          | inr (o, held) ↦ elim (Option-cases (lookup o.quote_currency s.balances)) [
            | inl missing ↦
                let effect = close_position-unfunded g now k price reason s o held missing in
                drop-IsLedger s k _ l effect.2 (λ cur b there.
                  unfunded_balanced s k o cur b l held missing
                    (ap (lookup cur) (sym effect.1) ∙ there))
            | inr (b, funded) ↦
                let effect =
                  close_position-effect g now k price reason s o b
                    (ledger-IsCovered s k o b l held funded) in
                drop-IsLedger s k _ l effect.3 (λ cur b' there.
                  dropped_balanced s k o b (booked g o price b) cur b' l held funded refl
                    (ap (lookup cur) (sym effect.2) ∙ there))
          ]
        ]
