-- ===== src/Tracker/Settled.antt =====
-- What every run of the tracker of src/strategy/trade_history.py keeps.
use crypto_master.Prelude.{
  ℕ, ◌≡◌, refl, sym, ◌∙◌, ap, subst, ◌⊎◌, inl, inr, Bool, true, false, Option, none, some, arith,
  if◌then◌else◌, Bool-cases,
}
use crypto_master.Text.{Text, same, same_iff, same_refl}
use crypto_master.Decimal.{Context, add, sub}
use crypto_master.TradingMath.{pnl_for_trade}
use crypto_master.Tracker.{
  opened, closed, Trade, Store, is_open, get_trade, update_trade, Closing, or_entry, net_pnl,
  calculate_pnl, closed_trade, close_trade,
}
use crypto_master.Tracker.Files.{
  IsFiled, get_trade-id, get_trade-update_trade, get_trade-save_trade, save_trade-IsFiled,
  update_trade-IsFiled,
}
use crypto_master.Tracker.Lifecycle.{
  empty, Fits, Rewrites, View, unchanged, wrote, saved, Reach, here, next, Step-View,
  close_trade-of_open, close_trade-of_settled,
}

-- What holds of the files between two calls: each trade lies in the file of its mode, and the
-- fields of each trade that an id finds fit its status.
pub record IsSound (s : Store) : Type 0 where
  pub filed : IsFiled s
  pub fits : (k : Text) (t : Trade) → get_trade k s ≡ some t → Fits t.status t

-- The trade that an id finds, but for its link to a performance record.
pub record Keeps (k : Text) (t : Trade) (s : Store) : Type 0 where
  pub now : Trade
  pub found : get_trade k s ≡ some now
  pub as_before : now ≡ record t { performance_record_id = now.performance_record_id }

some_of_if :
    (b : Bool) (new t : Trade) (o : Option Trade)
    → (if b then some new else o) ≡ some t
    → ((b ≡ true) × (t ≡ new)) ⊎ ((b ≡ false) × (o ≡ some t))
some_of_if true new t o e = inl (refl, ground arith)
some_of_if false new t o e = inr (refl, e)

module _ {s : Store} (f : IsFiled s) (j : Text) (u u' : Trade)
    (there : get_trade j s ≡ some u) where
  -- What an id finds after a rewrite.
  find_rewritten :
      Rewrites u u'
      → (k : Text) → get_trade k (update_trade u' s) ≡ (if same j k then some u' else get_trade k s)
  find_rewritten w k =
      get_trade-update_trade j k s u u' f there (w.same_id ∙ get_trade-id j s u there) w.same_mode

View-IsSound : {s s' : Store} → View s s' → IsSound s → IsSound s'
View-IsSound unchanged i = i
View-IsSound {s} (wrote j u u' there w) i = record {
  filed = update_trade-IsFiled u' s i.filed;
  fits = λ k t e.
      elim (some_of_if (same j k) u' t (get_trade k s)
        (sym (find_rewritten i.filed j u u' there w k) ∙ e)) [
          | inl (hit, is_new) ↦
              subst (λ x. Fits x.status x) (sym is_new) (w.fits (i.fits j u there))
          | inr (miss, old) ↦ i.fits k t old
        ];
}
View-IsSound {s} (saved n fresh f) i = record {
  filed = save_trade-IsFiled n s i.filed;
  fits = λ k t e.
      elim (some_of_if (same n.id k) n t (get_trade k s)
        (sym (get_trade-save_trade k s n fresh) ∙ e)) [
          | inl (hit, is_new) ↦ subst (λ x. Fits x.status x) (sym is_new) f
          | inr (miss, old) ↦ i.fits k t old
        ];
}

-- A rewrite leaves a settled trade alone.
View-Keeps :
    (k : Text) (t : Trade) {s s' : Store}
    → is_open t.status ≡ false
    → View s s'
    → IsFiled s
    → Keeps k t s
    → Keeps k t s'
View-Keeps k t settled unchanged f h = h
View-Keeps k t {s} settled (wrote j u u' there w) f h = elim (Bool-cases (same j k)) [
  | inr other ↦ record {
    now = h.now;
    found = find_rewritten f j u u' there w k ∙ rw other h.found;
    as_before = h.as_before;
  }
  | inl hit ↦
      let is_k : j ≡ k = (same_iff j k).0 hit in
      let was : u ≡ h.now = ground (arith, h.found) in
      let from_t : u ≡ record t { performance_record_id = h.now.performance_record_id } =
        was ∙ h.as_before in
      let still : is_open u.status ≡ is_open t.status = ap (λ x. is_open x.status) from_t in
      elim w.frozen [
        | inl o ↦ cc
        | inr e ↦ record {
          now = u';
          found = find_rewritten f j u u' there w k ∙ rw hit refl;
          as_before =
              e
              ∙ ap {A = Trade} {B = Trade}
                  (λ x. record x { performance_record_id = u'.performance_record_id }) from_t;
        }
      ]
]
View-Keeps k t {s} settled (saved n fresh fit) f h = elim (Bool-cases (same n.id k)) [
  | inl hit ↦ let is_k : n.id ≡ k = (same_iff n.id k).0 hit in ground (arith, h.found)
  | inr other ↦ record {
    now = h.now;
    found = get_trade-save_trade k s n fresh ∙ rw other h.found;
    as_before = h.as_before;
  }
]

module _ ⦃c : Context⦄ where
  Reach-IsSound : {s s' : Store} → Reach s s' → IsSound s → IsSound s'
  Reach-IsSound here i = i
  Reach-IsSound (next r st) i = View-IsSound (Step-View st) (Reach-IsSound r i)

  empty-IsSound : IsSound empty
  unfolding get_trade
  empty-IsSound = record {
    filed = record { in_backtest = tt; in_paper = tt; in_live = tt };
    fits = λ k t e. cc;
  }

  -- Whatever sequence of calls is made from empty files, with fresh ids for new trades, every
  -- trade lies in the file of its mode, and its fields fit its status: an open trade has no exit
  -- price, time and reason and no profit, a closed one has its exit price, quantity, time, reason
  -- and profit, and a cancelled one an exit time and no exit price, reason and profit.
  pub tracker_runs-IsSound : (s : Store) → Reach empty s → IsSound s
  tracker_runs-IsSound s r = Reach-IsSound r empty-IsSound

  Reach-Keeps :
      (k : Text) (t : Trade) {s s' : Store}
      → is_open t.status ≡ false
      → Reach s s'
      → IsSound s
      → Keeps k t s
      → Keeps k t s'
  Reach-Keeps k t settled here i h = h
  Reach-Keeps k t settled (next r st) i h =
      View-Keeps k t settled (Step-View st) (Reach-IsSound r i).filed
        (Reach-Keeps k t settled r i h)

  -- In files where each trade lies in the file of its mode with fields that fit its status, a
  -- trade that is closed or cancelled stays as it is under any further sequence of calls that
  -- opens trades under fresh ids, its profit and fees included; only the link to a performance
  -- record may change.
  pub settled_trade_stays :
      (k : Text) (t : Trade) (s s' : Store)
      → IsSound s
      → get_trade k s ≡ some t
      → is_open t.status ≡ false
      → Reach s s'
      → (t' : Trade) × (get_trade k s' ≡ some t')
        × (t' ≡ record t { performance_record_id = t'.performance_record_id })
  settled_trade_stays k t s s' i e settled r =
      let h = Reach-Keeps k t settled r i (record { now = t; found = e; as_before = refl }) in
      (h.now, h.found, h.as_before)

  -- In files where each trade lies in the file of its mode, closing an open trade returns it
  -- closed, with the profit at the exit price net of the fees of both sides; its id then finds
  -- that trade and every other id what it found before; and a second close of it returns nothing
  -- and changes nothing.
  pub close_trade_once :
      (k j : Text) (now later : ℕ) (x y : Closing) (s : Store) (t : Trade)
      → IsFiled s
      → get_trade k s ≡ some t
      → t.status ≡ opened
      → let (result, s') = close_trade k now x s in
        (result ≡ some (closed_trade now x t))
        × ((closed_trade now x t).status ≡ closed)
        × ((closed_trade now x t).pnl
            ≡ some (
                sub
                  (pnl_for_trade t.entry_price x.exit_price
                    (or_entry x.exit_quantity t.entry_quantity)
                    t.side)
                  (add t.fees x.fees)))
        × (get_trade j s' ≡ (if same k j then some (closed_trade now x t) else get_trade j s))
        × (close_trade k later y s' ≡ (none, s'))
  unfolding closed_trade calculate_pnl net_pnl
  close_trade_once k j now later x y s t f e o =
      let is_opened : is_open t.status ≡ true = ap is_open o in
      let after = λ (i : Text).
        get_trade-update_trade k i s t (closed_trade now x t) f e (get_trade-id k s t e) refl in
      rw (close_trade-of_open k now x s t e is_opened) (
        refl,
        refl,
        refl,
        after j,
        close_trade-of_settled k later y _ (closed_trade now x t) (after k ∙ rw (same_refl k) refl)
            refl,
      )
