-- ===== src/Paper/Open.antt =====
-- `open_position` of src/trading/paper.py.
use crypto_master.Prelude.{
  ◌≡◌, refl, ap, ap₂, subst, ◌∙◌, inl, inr, true, Option, some, arith, if◌then◌else◌, Bool-cases,
  Option-cases,
}
use crypto_master.Prelude.Int.{pos, ◌≤ℤ◌, ◌<ℤ◌, int_laws}
use crypto_master.Text.{Text}
use crypto_master.Dict.{Dict, lookup, insert, insert_same}
use crypto_master.Decimal.{Decimal, Context, add, sub, lt}
use crypto_master.Decimal.Laws.{IsExact, add_exact, sub_exact}
use crypto_master.Exit.{Position}
use crypto_master.Result.{Result, ok, err, Error, insufficient}
use crypto_master.Tracker.{Trade}
use crypto_master.Paper.Balance.{PaperBalance, lock, unlock, deduct}
use crypto_master.Paper.Balance.Laws.{lock-of_free, unlock-of_locked, lock-cases}
use crypto_master.Paper.Symbols.{get_quote_currency}
use crypto_master.Paper.State.{OpenPosition, Config, PaperTrader}
use crypto_master.Paper.Trading.{
  Fresh, with_balance, notional_value, required_margin, calculate_fee, commit_open, return_margin,
  after_fee, after_lock, open_on, open_position,
}

module _ ⦃c : Context⦄ where
  abbrev pub entry_fee_of : Config → Position → Decimal
  entry_fee_of g p = calculate_fee g (notional_value p)

  -- The balance after an open: the margin locked and a positive fee paid.
  abbrev pub charged : Config → Position → PaperBalance → PaperBalance
  charged g p b =
      let rest = sub b.free (required_margin p) in
      record b {
        free = if lt (pos 0) (entry_fee_of g p) then sub rest (entry_fee_of g p) else rest;
        locked = add b.locked (required_margin p);
      }

  -- The fee that an open takes.
  abbrev pub fee_taken : Config → Position → Decimal
  fee_taken g p = if lt (pos 0) (entry_fee_of g p) then entry_fee_of g p else pos 0

  -- What `open_position` needs of the balance of its quote currency.
  pub record IsAffordable (g : Config) (p : Position) (s : PaperTrader) (b : PaperBalance)
      : Type 0 where
    pub funded : lookup (get_quote_currency p.symbol) s.balances ≡ some b
    pub margin_pos : pos 0 <ℤ required_margin p
    pub margin_free : required_margin p ≤ℤ b.free
    pub fee_free : entry_fee_of g p ≤ℤ sub b.free (required_margin p)

  deduct-of_free :
      (a : Decimal) (b : PaperBalance)
      → pos 0 <ℤ a
      → a ≤ℤ b.free
      → deduct a b ≡ ok (record b { free = sub b.free a })
  unfolding deduct
  deduct-of_free a b h k = ground arith

  pub deduct-of_short :
      (a : Decimal) (b : PaperBalance)
      → pos 0 <ℤ a
      → lt b.free a ≡ true
      → deduct a b ≡ err insufficient
  unfolding deduct
  deduct-of_short a b h k = ground arith

  pub open_position-of_affordable :
      (g : Config) (f : Fresh) (p : Position) (performance : Option Text) (s : PaperTrader)
      (b : PaperBalance)
      → IsAffordable g p s b
      → open_position g f p performance s
        ≡ commit_open g f p performance (entry_fee_of g p) (charged g p b) s
  unfolding open_position open_on after_lock after_fee
  open_position-of_affordable g f p performance s b a =
      let m = required_margin p in
      let locked_up : PaperBalance = record b { free = sub b.free m; locked = add b.locked m } in
      elim (Bool-cases (lt (pos 0) (entry_fee_of g p))) [
        | inl charges ↦
            rw
              (
                open_position,
                a.funded,
                open_on,
                lock-of_free m b a.margin_pos a.margin_free,
                after_lock,
                charges,
                deduct-of_free (entry_fee_of g p) locked_up (ground arith) a.fee_free,
              )
              refl
        | inr free_of_charge ↦
            rw
              (
                open_position,
                a.funded,
                open_on,
                lock-of_free m b a.margin_pos a.margin_free,
                after_lock,
                free_of_charge,
              )
              refl
      ]

  -- The position that an open keeps.
  abbrev pub opened_position : Config → Fresh → Position → OpenPosition
  opened_position g f p = record {
    trade_id = f.trade_id;
    position = p;
    margin = required_margin p;
    quote_currency = get_quote_currency p.symbol;
    entry_fee = entry_fee_of g p;
  }

  -- The whole effect of an affordable open on the balances and the positions.
  pub open_position-effect :
      (g : Config) (f : Fresh) (p : Position) (performance : Option Text) (s : PaperTrader)
      (b : PaperBalance)
      → IsAffordable g p s b
      → let (result, s') = open_position g f p performance s in
        (s'.balances ≡ insert (get_quote_currency p.symbol) (charged g p b) s.balances)
        × (s'.open_positions ≡ insert f.trade_id (opened_position g f p) s.open_positions)
  unfolding commit_open
  open_position-effect g f p performance s b a =
      rw (open_position-of_affordable g f p performance s b a) (refl, refl)

  -- An open that raises leaves the trader as it was.
  abbrev Unchanged : PaperTrader → Result Trade × PaperTrader → Type 0
  Unchanged s (ok t, s') = Unit
  Unchanged s (err e, s') = s' ≡ s

  module _ (x : IsExact c) (g : Config) (f : Fresh) (p : Position) (performance : Option Text)
      (s : PaperTrader) (b : PaperBalance)
      (there : lookup (get_quote_currency p.symbol) s.balances ≡ some b)
      (solvent : pos 0 ≤ℤ b.locked) where
    pub with_balance_same : with_balance (get_quote_currency p.symbol) b s ≡ s
    with_balance_same =
        ap {A = Dict PaperBalance} {B = PaperTrader} (λ d. record s { balances = d })
          (insert_same (get_quote_currency p.symbol) b s.balances there)

    abbrev pub held_back : PaperBalance
    held_back = record b {
      free = sub b.free (required_margin p);
      locked = add b.locked (required_margin p);
    }

    pub unlock-held_back : pos 0 <ℤ required_margin p → unlock (required_margin p) held_back ≡ ok b
    unlock-held_back h =
        unlock-of_locked (required_margin p) held_back h
          (rw (add_exact x b.locked (required_margin p)) (omega int_laws))
        ∙ simp (add_exact x, sub_exact x)
            (ap₂ (λ u v. ok (record b { free = u; locked = v })) (omega int_laws) (omega int_laws))

    after_fee-Unchanged :
        pos 0 <ℤ required_margin p
        → pos 0 <ℤ entry_fee_of g p
        → Unchanged s (
            after_fee g f p performance
              (entry_fee_of g p)
              held_back
              (deduct (entry_fee_of g p) held_back)
              s)
    unfolding after_fee return_margin commit_open
    after_fee-Unchanged h k = elim (Bool-cases (lt held_back.free (entry_fee_of g p))) [
      | inl short ↦
          rw
            (
              deduct-of_short (entry_fee_of g p) held_back k short,
              after_fee,
              unlock-held_back h,
              return_margin,
            )
            with_balance_same
      | inr covered ↦
          rw (deduct-of_free (entry_fee_of g p) held_back k (ground arith), after_fee) tt
    ]

    after_lock-Unchanged : Unchanged s (after_lock g f p performance (lock (required_margin p) b) s)
    unfolding after_lock commit_open
    after_lock-Unchanged = elim (lock-cases (required_margin p) b) [
      | inr (inl (low, e)) ↦ rw (e, after_lock) refl
      | inr (inr (positive, short, e)) ↦ rw (e, after_lock) refl
      | inl (positive, covered, e) ↦ elim (Bool-cases (lt (pos 0) (entry_fee_of g p))) [
        | inl charges ↦ rw (e, after_lock, charges) (after_fee-Unchanged positive (ground arith))
        | inr free_of_charge ↦ rw (e, after_lock, free_of_charge) tt
      ]
    ]

  open_position-Unchanged :
      (x : IsExact c) (g : Config) (f : Fresh) (p : Position) (performance : Option Text)
      (s : PaperTrader)
      → ((b : PaperBalance)
          → lookup (get_quote_currency p.symbol) s.balances ≡ some b
          → pos 0 ≤ℤ b.locked)
      → Unchanged s (open_position g f p performance s)
  unfolding open_position open_on
  open_position-Unchanged x g f p performance s solvent =
      elim (Option-cases (lookup (get_quote_currency p.symbol) s.balances)) [
        | inl missing ↦ rw (open_position, missing, open_on) refl
        | inr (b, there) ↦
            rw (open_position, there, open_on)
              (after_lock-Unchanged x g f p performance s b there (solvent b there))
      ]

  -- Where no sum is rounded and the quote currency's locked amount is not negative, an open that
  -- raises, for want of a balance, of margin or of the fee, leaves the whole trader as it was, the
  -- margin that was locked before the fee was found missing included.
  pub open_position_atomic :
      (x : IsExact c) (g : Config) (f : Fresh) (p : Position) (performance : Option Text)
      (s s' : PaperTrader) (e : Error)
      → ((b : PaperBalance)
          → lookup (get_quote_currency p.symbol) s.balances ≡ some b
          → pos 0 ≤ℤ b.locked)
      → open_position g f p performance s ≡ (err e, s')
      → s' ≡ s
  open_position_atomic x g f p performance s s' e solvent raised =
      subst (Unchanged s) raised (open_position-Unchanged x g f p performance s solvent)
