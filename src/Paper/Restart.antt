-- ===== src/Paper/Restart.antt =====
-- A session of the trader of src/trading/paper.py between two starts: what is on disk suffices to
-- restore it.
use crypto_master.Prelude.{
  ℕ, ◌≡◌, refl, ap, sym, subst, ◌∙◌, inl, inr, true, false, Option, none, some, List, [], ◌∷◌,
  arith, Bool-cases,
}
use crypto_master.Text.{Text, same, same_iff, same_refl}
use crypto_master.Dict.{Dict, lookup, IsDistinct}
use crypto_master.Decimal.{Decimal, Context, eq}
use crypto_master.Decimal.Laws.{IsRounding, IsExact}
use crypto_master.Exit.{Position}
use crypto_master.Result.{ok}
use crypto_master.Tracker.{Trade, Store, is_open, get_trade}
use crypto_master.Paper.Balance.{PaperBalance}
use crypto_master.Paper.State.{OpenPosition, Config, PaperTrader, Event}
use crypto_master.Paper.Trading.{Fresh, open_position, close_position}
use crypto_master.Paper.Reconcile.{
  expected_locked, repair_all, repairs, any_event, reconcile_locked, force_close_orphan,
}
use crypto_master.Paper.Repair.{
  lookup-repair_all, repair-of_eq, reconcile_locked-of_none, reconcile_locked-parts,
}
use crypto_master.Paper.Margins.{AreMargins}
use crypto_master.Paper.Ledger.{IsLedger, close_position-IsLedger}
use crypto_master.Paper.Entry.{open_position-IsLedger}
use crypto_master.Paper.Orphan.{force_close_orphan-IsLedger}
use crypto_master.Paper.Run.{reconcile_locked-IsLedger}
use crypto_master.Paper.Startup.{BoundsIndex, start}
use crypto_master.Paper.Sync.{HasDistinctIds, restored_from, lookup-restored_from_absent}
use crypto_master.Paper.InSync.{IsPaperFile, InSync}
use crypto_master.Paper.Session.{IsBounded, absent_files, open_position-InSync}
use crypto_master.Paper.Settle.{close_position-InSync}
use crypto_master.Paper.Strays.{force_close_orphan-InSync}
use crypto_master.Paper.Boot.{loaded, start-loaded}

module _ ⦃c : Context⦄ where
  repair_all-of_none :
      (ps : Dict OpenPosition) (bs : Dict PaperBalance) → repairs ps bs ≡ [] → repair_all ps bs ≡ bs
  unfolding repairs repair_all
  repair_all-of_none ps [] h = refl
  repair_all-of_none ps ((k, b) ∷ bs) h = elim (Bool-cases (eq b.locked (expected_locked k ps))) [
    | inl done ↦
        rw (repair-of_eq (expected_locked k ps) b done, repair_all-of_none ps bs (rw done at h))
          refl
    | inr off ↦ cc (rw off at h)
  ]

  -- Balanced currencies need no repair.
  repairs-of_balanced :
      (ps : Dict OpenPosition) (bs : Dict PaperBalance)
      → IsDistinct bs
      → ((cur : Text) (b : PaperBalance)
          → lookup cur bs ≡ some b
          → b.locked ≡ expected_locked cur ps)
      → repairs ps bs ≡ []
  unfolding repairs lookup
  repairs-of_balanced ps [] d h = refl
  repairs-of_balanced ps ((k, b) ∷ bs) d h =
      let here : b.locked ≡ expected_locked k ps = h k b (rw (same_refl k) refl) in
      let done : eq b.locked (expected_locked k ps) ≡ true = ground (arith, here) in
      rw done (
        repairs-of_balanced ps bs d.1 (λ cur b' there. elim (Bool-cases (same cur k)) [
          | inl hit ↦ let is_k : cur ≡ k = (same_iff cur k).0 hit in cc (rw is_k at there)
          | inr miss ↦ h cur b' (rw miss there)
        ]))

  -- A ledger needs no repair.
  reconcile_locked-of_ledger :
      (g : Config) (s : PaperTrader) → IsLedger s → IsDistinct s.balances → reconcile_locked g s ≡ s
  reconcile_locked-of_ledger g s l d =
      let idle = repairs-of_balanced s.open_positions s.balances d l.balanced in
      reconcile_locked-of_none g s idle (repair_all-of_none s.open_positions s.balances idle)

  IsDistinct-repair_all :
      (ps : Dict OpenPosition) (bs : Dict PaperBalance)
      → IsDistinct bs
      → IsDistinct (repair_all ps bs)
  unfolding repair_all
  IsDistinct-repair_all ps [] d = tt
  IsDistinct-repair_all ps ((k, b) ∷ bs) d =
      (lookup-repair_all k ps bs ∙ rw d.0 refl, IsDistinct-repair_all ps bs d.1)

  reconcile_locked-saved :
      (g : Config) (s : PaperTrader)
      → s.snapshot ≡ some s.balances
      → (reconcile_locked g s).snapshot ≡ some (reconcile_locked g s).balances
  unfolding reconcile_locked
  reconcile_locked-saved g s h =
      elim (Bool-cases (any_event (repairs s.open_positions s.balances))) [
        | inl some_repair ↦ rw (reconcile_locked, some_repair) refl
        | inr none_needed ↦
            let idle : repairs s.open_positions s.balances ≡ [] =
              no_event (repairs s.open_positions s.balances) none_needed in
            rw (reconcile_locked, none_needed)
              (h ∙ ap some (sym (repair_all-of_none s.open_positions s.balances idle)))
      ]
    where
      no_event : (es : List Event) → any_event es ≡ false → es ≡ []
      no_event [] e = refl
      no_event (_ ∷ _) e = cc

  reconcile_locked-InSync :
      (g : Config) (s : PaperTrader) → InSync s → InSync (reconcile_locked g s)
  reconcile_locked-InSync g s i =
      let parts = reconcile_locked-parts g s in
      record {
        file = subst IsPaperFile (sym parts.2) i.file;
        restored =
            parts.1 ∙ i.restored ∙ ap (λ (st : Store). restored_from st.paper_trades) (sym parts.2);
        distinct_balances =
            subst IsDistinct (sym parts.0)
              (IsDistinct-repair_all s.open_positions s.balances i.distinct_balances);
        saved = reconcile_locked-saved g s i.saved;
      }

  restored_from-IsDistinct : (ts : List Trade) → HasDistinctIds ts → IsDistinct (restored_from ts)
  unfolding restored_from
  restored_from-IsDistinct [] d = tt
  restored_from-IsDistinct (t ∷ ts) d = elim (Bool-cases (is_open t.status)) [
    | inl o ↦ rw o (lookup-restored_from_absent t.id ts d.0, restored_from-IsDistinct ts d.1)
    | inr settled ↦ rw settled (restored_from-IsDistinct ts d.1)
  ]

  -- The calls of a session. A new trade's id is in no file, and its position is valid and has a stop
  -- or a target.
  pub data Call (g : Config) : PaperTrader → PaperTrader → Type 0 where
    opens :
        (f : Fresh) (p : Position) (performance : Option Text) {s : PaperTrader}
        → get_trade f.trade_id s.store ≡ none
        → IsBounded p
        → Call g s (open_position g f p performance s).1
    closes :
        (now : ℕ) (k : Text) (price : Decimal) (reason : Text) {s : PaperTrader}
        → Call g s (close_position g now k price reason s).1
    closes_orphan :
        (now : ℕ) (k : Text) (price : Decimal) {s : PaperTrader}
        → Call g s (force_close_orphan now k price s).1

  pub data Session (g : Config) (s : PaperTrader) : PaperTrader → Type 0 where
    begin : Session g s s
    call : {t u : PaperTrader} → Session g s t → Call g t u → Session g s u

  -- The balance file and the paper file that a trader is started from.
  pub record IsStartable (saved : Dict PaperBalance) (store : Store) : Type 0 where
    pub file : IsPaperFile store
    pub distinct_balances : IsDistinct saved
    pub margins : AreMargins (restored_from store.paper_trades)

  -- Starting does not raise, whatever the initial amounts and the performance records, from a balance
  -- file with distinct currencies and trade files where the paper trades have ids that are distinct
  -- and in no backtest and, while open, a stop or a target, a positive margin and the fields of a
  -- valid position: a positive price and quantity, a leverage of 1 to 125, and bounds that are
  -- positive. The trader that it returns has the positions of the open paper trades, in each currency
  -- with a balance exactly their margins locked, and its balances are what the balance file then has.
  pub start_from_files :
      (g : Config) (index : BoundsIndex) (initial : Dict Decimal) (saved : Dict PaperBalance)
      (store : Store)
      → IsStartable saved store
      → (s : PaperTrader) × (start g index initial (some saved) store ≡ ok s)
        × IsLedger s
        × InSync s
  start_from_files g index initial saved store q =
      let s = loaded saved store in
      let distinct = restored_from-IsDistinct store.paper_trades q.file.distinct_ids in
      (
        reconcile_locked g s,
        start-loaded g index initial saved store q.file,
        reconcile_locked-IsLedger g s distinct q.margins,
        reconcile_locked-InSync g s (record {
          file = q.file;
          restored = refl;
          distinct_balances = q.distinct_balances;
          saved = refl;
        }),
      )

  module _ (x : IsExact c) (r : IsRounding c) where
    pub Call-kept :
        {g : Config} {s t : PaperTrader}
        → Call g s t
        → IsLedger s × InSync s
        → IsLedger t × InSync t
    Call-kept {g} (opens f p performance {s} fresh bounded) (l, i) =
        let not_held : lookup f.trade_id s.open_positions ≡ none =
          ap (lookup f.trade_id) i.restored
          ∙ lookup-restored_from_absent f.trade_id s.store.paper_trades
              (absent_files f.trade_id s.store fresh).1 in
        (
          open_position-IsLedger x r g f p performance s l not_held,
          open_position-InSync x r g f p performance s l i fresh bounded,
        )
    Call-kept {g} (closes now k price reason {s}) (l, i) = (
      close_position-IsLedger x r g now k price reason s l,
      close_position-InSync x r g now k price reason s l i,
    )
    Call-kept {g} (closes_orphan now k price {s}) (l, i) = (
      force_close_orphan-IsLedger x r now k price s l,
      force_close_orphan-InSync x r now k price s l i,
    )

    Session-kept :
        {g : Config} {s t : PaperTrader}
        → Session g s t
        → IsLedger s × InSync s
        → IsLedger t × InSync t
    Session-kept begin h = h
    Session-kept (call run st) h = Call-kept st (Session-kept run h)

    -- A trader that agrees with its files is what a start makes of them.
    restart_of_kept :
        (g : Config) (index : BoundsIndex) (initial : Dict Decimal) (s : PaperTrader)
        → IsLedger s × InSync s
        → start g index initial s.snapshot s.store ≡ ok (record s { events = [] })
    restart_of_kept g index initial s (l, i) =
        let s' : PaperTrader = record s { events = [] } in
        let l' : IsLedger s' = record {
          distinct = l.distinct;
          margins = l.margins;
          balanced = l.balanced;
        } in
        let as_loaded : loaded s.balances s.store ≡ s' =
          ap {A = Dict OpenPosition × Option (Dict PaperBalance)} {B = PaperTrader}
            (λ e. record s { open_positions = e.0; snapshot = e.1; events = [] })
            (λ j. (sym i.restored j, sym i.saved j)) in
        rw i.saved (start-loaded g index initial s.balances s.store i.file)
        ∙ ap ok (
            ap (reconcile_locked g) as_loaded
            ∙ reconcile_locked-of_ledger g s' l' i.distinct_balances)

    -- A trader that is stopped after any session and started again from its balance file and its
    -- trade files is the trader that was stopped, but for the events already written: it has the
    -- same balances, the same open positions with the same margins and fees, and the same files,
    -- whatever initial amounts and performance records the second start is given. The first start
    -- is from any files whose balances are distinct and whose paper trades have ids that are
    -- distinct and in no backtest, and, while open, a stop or a target, a positive margin and the
    -- fields of a valid position; the session opens valid positions with a stop or a target, under ids
    -- that are in no file. No sum is rounded.
    pub restart_after_calls :
        (g : Config) (index index' : BoundsIndex) (initial initial' : Dict Decimal)
        (saved : Dict PaperBalance) (store : Store) (s t : PaperTrader)
        → IsStartable saved store
        → start g index initial (some saved) store ≡ ok s
        → Session g s t
        → start g index' initial' t.snapshot t.store ≡ ok (record t { events = [] })
    restart_after_calls g index index' initial initial' saved store s t q started run =
        let (s', e, l, i) = start_from_files g index initial saved store q in
        let this : s' ≡ s = ground (arith, e, started) in
        restart_of_kept g index' initial' t
          (Session-kept run (subst (λ z. IsLedger z × InSync z) this (l, i)))
