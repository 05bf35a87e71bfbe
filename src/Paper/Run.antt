-- ===== src/Paper/Run.antt =====
-- Whole runs of the trader of src/trading/paper.py: the start-up repair, then any sequence of opens
-- under fresh ids, closes, closes of orphans and repairs.
use crypto_master.Prelude.{ℕ, arith, ◌≡◌, ap, sym, ◌∙◌, Option, none, some, inl, inr, Option-cases}
use crypto_master.Text.{Text}
use crypto_master.Dict.{lookup, IsDistinct}
use crypto_master.Decimal.{Decimal, Context}
use crypto_master.Decimal.Laws.{IsRounding, IsExact}
use crypto_master.Exit.{Position}
use crypto_master.Paper.Balance.{PaperBalance}
use crypto_master.Paper.State.{Config, PaperTrader}
use crypto_master.Paper.Trading.{Fresh, open_position, close_position}
use crypto_master.Paper.Reconcile.{expected_locked, repair, reconcile_locked, force_close_orphan}
use crypto_master.Paper.Repair.{reconcile_locked-parts, lookup-repair_all, repair-locked}
use crypto_master.Paper.Margins.{AreMargins}
use crypto_master.Paper.Ledger.{IsLedger, close_position-IsLedger}
use crypto_master.Paper.Entry.{open_position-IsLedger}
use crypto_master.Paper.Orphan.{force_close_orphan-IsLedger}

some_injective : {A : Type 0} {a b : A} → some a ≡ some b → a ≡ b
some_injective e = ground (arith, e)

module _ ⦃c : Context⦄ where
  -- One call of the trader. An opened trade's id is one that no open position has.
  pub data Step (g : Config) : PaperTrader → PaperTrader → Type 0 where
    opens :
        (f : Fresh) (p : Position) (performance : Option Text) {s : PaperTrader}
        → lookup f.trade_id s.open_positions ≡ none
        → Step g s (open_position g f p performance s).1
    closes :
        (now : ℕ) (k : Text) (price : Decimal) (reason : Text) {s : PaperTrader}
        → Step g s (close_position g now k price reason s).1
    closes_orphan :
        (now : ℕ) (k : Text) (price : Decimal) {s : PaperTrader}
        → Step g s (force_close_orphan now k price s).1
    repairs_locked : {s : PaperTrader} → Step g s (reconcile_locked g s)

  pub data Reach (g : Config) (s : PaperTrader) : PaperTrader → Type 0 where
    here : Reach g s s
    next : {t u : PaperTrader} → Reach g s t → Step g t u → Reach g s u

  -- The repair makes a ledger of any state whose margins are positive.
  pub reconcile_locked-IsLedger :
      (g : Config) (s : PaperTrader)
      → IsDistinct s.open_positions
      → AreMargins s.open_positions
      → IsLedger (reconcile_locked g s)
  reconcile_locked-IsLedger g s d m =
      let parts = reconcile_locked-parts g s in
      record {
        distinct = rw parts.1 d;
        margins = rw parts.1 m;
        balanced = λ cur b there.
            reconciled_locked g s cur b there ∙ ap (expected_locked cur) (sym parts.1);
      }
    where
      reconciled_locked :
          (g : Config) (s : PaperTrader) (cur : Text) (b : PaperBalance)
          → lookup cur (reconcile_locked g s).balances ≡ some b
          → b.locked ≡ expected_locked cur s.open_positions
      reconciled_locked g s cur b there =
          let found =
            sym (lookup-repair_all cur s.open_positions s.balances)
            ∙ ap (lookup cur) (sym (reconcile_locked-parts g s).0)
            ∙ there in
          elim (Option-cases (lookup cur s.balances)) [
            | inl missing ↦ cc (rw missing at found)
            | inr (old, e) ↦
                let is_new : repair (expected_locked cur s.open_positions) old ≡ b =
                  some_injective (rw e at found) in
                ap (λ (z : PaperBalance). z.locked) (sym is_new)
                ∙ repair-locked (expected_locked cur s.open_positions) old
          ]

  module _ (x : IsExact c) (r : IsRounding c) where
    Step-IsLedger : {g : Config} {s t : PaperTrader} → Step g s t → IsLedger s → IsLedger t
    Step-IsLedger {g} (opens f p performance {s} fresh) l =
        open_position-IsLedger x r g f p performance s l fresh
    Step-IsLedger {g} (closes now k price reason {s}) l =
        close_position-IsLedger x r g now k price reason s l
    Step-IsLedger {g} (closes_orphan now k price {s}) l =
        force_close_orphan-IsLedger x r now k price s l
    Step-IsLedger {g} (repairs_locked {s}) l = reconcile_locked-IsLedger g s l.distinct l.margins

    Reach-IsLedger : {g : Config} {s t : PaperTrader} → Reach g s t → IsLedger s → IsLedger t
    Reach-IsLedger here l = l
    Reach-IsLedger (next run st) l = Step-IsLedger st (Reach-IsLedger run l)

    -- From the start-up repair of any state whose open positions have distinct ids and positive
    -- margins, every run of opens under fresh ids, closes, closes of orphans and further repairs
    -- keeps the ledger: in each currency with a balance, the locked amount is exactly the margins
    -- of the open positions in it. No sum of amounts is rounded; margins and fees may be.
    pub paper_runs_keep-IsLedger :
        (g : Config) (s t : PaperTrader)
        → IsDistinct s.open_positions
        → AreMargins s.open_positions
        → Reach g (reconcile_locked g s) t
        → IsLedger t
    paper_runs_keep-IsLedger g s t d m run = Reach-IsLedger run (reconcile_locked-IsLedger g s d m)
