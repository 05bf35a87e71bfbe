-- ===== src/Tracker/Lifecycle.antt =====
-- The life of a trade under the operations of src/strategy/trade_history.py.
use crypto_master.Prelude.{
  ℕ, ◌≡◌, refl, ◌⊎◌, inl, inr, ◌&&◌, true, false, none, some, [], arith, Bool-cases, Option-cases,
  is_some,
}
use crypto_master.Text.{Text}
use crypto_master.Decimal.{Decimal, Context}
use crypto_master.Tracker.{
  Status, opened, closed, cancelled, Trade, Store, is_open, get_trade, save_trade, update_trade,
  Opening, new_trade, open_trade, Closing, net_pnl, calculate_pnl, closed_trade, close_trade,
  recover_trade_bounds, acknowledge_bounds_recovery, cancel_trade, link_to_performance,
}

abbrev pub empty : Store
empty = record { backtest_trades = []; paper_trades = []; live_trades = [] }

-- The fields that a status goes with.
abbrev pub Fits : Status → Trade → Type 0
Fits opened t =
    (t.exit_price ≡ none) × (t.exit_time ≡ none) × (t.pnl ≡ none) × (t.close_reason ≡ none)
Fits closed t =
    (is_some t.exit_price ≡ true)
    × (is_some t.exit_quantity ≡ true)
    × (is_some t.exit_time ≡ true)
    × (is_some t.pnl ≡ true)
    × (is_some t.close_reason ≡ true)
Fits cancelled t =
    (t.exit_price ≡ none) × (is_some t.exit_time ≡ true) × (t.pnl ≡ none) × (t.close_reason ≡ none)

-- What a rewrite of a stored trade keeps: the id and the file, the fit of the fields with the
-- status, and, once the trade is no longer open, all but the link to a performance record.
pub record Rewrites (t t' : Trade) : Type 0 where
  pub same_id : t'.id ≡ t.id
  pub same_mode : t'.mode ≡ t.mode
  pub frozen :
      (is_open t.status ≡ true)
      ⊎ (t' ≡ record t { performance_record_id = t'.performance_record_id })
  pub fits : Fits t.status t → Fits t'.status t'

-- What one call does to the files.
pub data View (s : Store) : Store → Type 0 where
  unchanged : View s s
  wrote :
      (k : Text) (t t' : Trade)
      → get_trade k s ≡ some t
      → Rewrites t t'
      → View s (update_trade t' s)
  saved : (t : Trade) → get_trade t.id s ≡ none → Fits t.status t → View s (save_trade t s)

-- The fields that a fit reads, on two trades.
abbrev Agrees : Trade → Trade → Type 0
Agrees t t' =
    (t'.exit_price ≡ t.exit_price)
    × (t'.exit_quantity ≡ t.exit_quantity)
    × (t'.exit_time ≡ t.exit_time)
    × (t'.pnl ≡ t.pnl)
    × (t'.close_reason ≡ t.close_reason)

Fits-Agrees : (st : Status) (t t' : Trade) → Agrees t t' → Fits st t → Fits st t'
Fits-Agrees opened t t' a f = ground arith
Fits-Agrees closed t t' a f = ground arith
Fits-Agrees cancelled t t' a f = ground arith

-- A cancelled trade was open.
Fits-cancelled :
    (st : Status) (now : ℕ) (t : Trade)
    → is_open st ≡ true
    → Fits st t
    → Fits cancelled (record t { status = cancelled; exit_time = some now })
Fits-cancelled opened now t o f = (f.0, refl, f.2, f.3)
Fits-cancelled closed now t o f = cc
Fits-cancelled cancelled now t o f = cc

module _ ⦃c : Context⦄ where
  pub closed_trade-Rewrites :
      (now : ℕ) (x : Closing) (t : Trade)
      → is_open t.status ≡ true
      → Rewrites t (closed_trade now x t)
  unfolding closed_trade calculate_pnl net_pnl
  closed_trade-Rewrites now x t o = record {
    same_id = refl;
    same_mode = refl;
    frozen = inl o;
    fits = λ f. (refl, refl, refl, refl, refl);
  }

  -- `close_trade` on an open trade, and on one that is not.
  pub close_trade-of_open :
      (k : Text) (now : ℕ) (x : Closing) (s : Store) (t : Trade)
      → get_trade k s ≡ some t
      → is_open t.status ≡ true
      → close_trade k now x s ≡ (some (closed_trade now x t), update_trade (closed_trade now x t) s)
  unfolding close_trade
  close_trade-of_open k now x s t e o = rw (close_trade, e, o)

  pub close_trade-of_settled :
      (k : Text) (now : ℕ) (x : Closing) (s : Store) (t : Trade)
      → get_trade k s ≡ some t
      → is_open t.status ≡ false
      → close_trade k now x s ≡ (none, s)
  unfolding close_trade
  close_trade-of_settled k now x s t e o = rw (close_trade, e, o)

  -- One call of the tracker. A new trade's id is fresh.
  pub data Step (s : Store) : Store → Type 0 where
    opens :
        (id : Text) (now : ℕ) (o : Opening)
        → get_trade id s ≡ none
        → Step s (open_trade id now o s).1
    closes : (k : Text) (now : ℕ) (x : Closing) → Step s (close_trade k now x s).1
    recovers : (k : Text) (stop target : Decimal) → Step s (recover_trade_bounds k stop target s)
    acknowledges : (k : Text) → Step s (acknowledge_bounds_recovery k s)
    cancels : (k : Text) (now : ℕ) → Step s (cancel_trade k now s).1
    links : (k performance : Text) → Step s (link_to_performance k performance s).1

  pub data Reach (s : Store) : Store → Type 0 where
    here : Reach s s
    next : {t u : Store} → Reach s t → Step t u → Reach s u

  View-close : (k : Text) (now : ℕ) (x : Closing) (s : Store) → View s (close_trade k now x s).1
  unfolding close_trade
  View-close k now x s = elim (Option-cases (get_trade k s)) [
    | inl none_there ↦ rw (close_trade, none_there) unchanged
    | inr (t, there) ↦ elim (Bool-cases (is_open t.status)) [
      | inl o ↦
          rw (close_trade, there, o)
            (wrote k t (closed_trade now x t) there (closed_trade-Rewrites now x t o))
      | inr settled ↦ rw (close_trade, there, settled) unchanged
    ]
  ]

  View-recover : (k : Text) (a b : Decimal) (s : Store) → View s (recover_trade_bounds k a b s)
  unfolding recover_trade_bounds
  View-recover k a b s = elim (Option-cases (get_trade k s)) [
    | inl none_there ↦ rw (recover_trade_bounds, none_there) unchanged
    | inr (t, there) ↦ elim (Bool-cases (is_open t.status)) [
      | inr settled ↦ rw (recover_trade_bounds, there, settled) unchanged
      | inl o ↦ elim (Bool-cases (is_some t.stop_loss && is_some t.take_profit)) [
        | inl full ↦ rw (recover_trade_bounds, there, o, full) unchanged
        | inr lacking ↦
            rw (recover_trade_bounds, there, o, lacking)
              (wrote k t _ there (record {
                same_id = refl;
                same_mode = refl;
                frozen = inl o;
                fits = Fits-Agrees t.status t _ (refl, refl, refl, refl, refl);
              }))
      ]
    ]
  ]

  View-acknowledge : (k : Text) (s : Store) → View s (acknowledge_bounds_recovery k s)
  unfolding acknowledge_bounds_recovery
  View-acknowledge k s = elim (Option-cases (get_trade k s)) [
    | inl none_there ↦ rw (acknowledge_bounds_recovery, none_there) unchanged
    | inr (t, there) ↦ elim (Bool-cases (is_open t.status && t.bounds_recovery_pending)) [
      | inr idle ↦ rw (acknowledge_bounds_recovery, there, idle) unchanged
      | inl pending ↦
          rw (acknowledge_bounds_recovery, there, pending)
            (wrote k t _ there (record {
              same_id = refl;
              same_mode = refl;
              frozen = inl (ground arith);
              fits = Fits-Agrees t.status t _ (refl, refl, refl, refl, refl);
            }))
    ]
  ]

  View-cancel : (k : Text) (now : ℕ) (s : Store) → View s (cancel_trade k now s).1
  unfolding cancel_trade
  View-cancel k now s = elim (Option-cases (get_trade k s)) [
    | inl none_there ↦ rw (cancel_trade, none_there) unchanged
    | inr (t, there) ↦ elim (Bool-cases (is_open t.status)) [
      | inr settled ↦ rw (cancel_trade, there, settled) unchanged
      | inl o ↦
          rw (cancel_trade, there, o)
            (wrote k t _ there (record {
              same_id = refl;
              same_mode = refl;
              frozen = inl o;
              fits = Fits-cancelled t.status now t o;
            }))
    ]
  ]

  View-link : (k p : Text) (s : Store) → View s (link_to_performance k p s).1
  unfolding link_to_performance
  View-link k p s = elim (Option-cases (get_trade k s)) [
    | inl none_there ↦ rw (link_to_performance, none_there) unchanged
    | inr (t, there) ↦
        rw (link_to_performance, there)
          (wrote k t _ there (record {
            same_id = refl;
            same_mode = refl;
            frozen = inr refl;
            fits = Fits-Agrees t.status t _ (refl, refl, refl, refl, refl);
          }))
  ]

  pub Step-View : {s t : Store} → Step s t → View s t
  unfolding open_trade new_trade
  Step-View {s} (opens id now o fresh) = saved (new_trade id now o) fresh (refl, refl, refl, refl)
  Step-View {s} (closes k now x) = View-close k now x s
  Step-View {s} (recovers k a b) = View-recover k a b s
  Step-View {s} (acknowledges k) = View-acknowledge k s
  Step-View {s} (cancels k now) = View-cancel k now s
  Step-View {s} (links k p) = View-link k p s
