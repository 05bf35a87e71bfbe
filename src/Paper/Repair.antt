-- ===== src/Paper/Repair.antt =====
-- What the start-up repair of src/trading/paper.py (`_reconcile_locked_to_open_positions`)
-- establishes.
use crypto_master.Prelude.{
  ◌≡◌, refl, ap, ◌∙◌, inl, inr, Bool, true, false, none, some, List, [], ◌∷◌, arith, if◌then◌else◌,
  Bool-cases,
}
use mathlib.Core.List.{append-nil}
use crypto_master.Prelude.Int.{◌-ℤ◌, eqb_ℤ_iff}
use crypto_master.Text.{Text, same, same_iff}
use crypto_master.Dict.{Dict, lookup}
use crypto_master.Decimal.{Decimal, Context, add, eq, IsRepr}
use crypto_master.Decimal.Laws.{IsRounding, add-IsRepr, add-sub_cancel}
use crypto_master.Paper.Balance.{PaperBalance, total}
use crypto_master.Paper.State.{OpenPosition, Event, Config, PaperTrader}
use crypto_master.Paper.Reconcile.{
  expected_locked, repair, repair_all, repairs, any_event, reconcile_locked,
}

abbrev nothing : List Event
nothing = []

silent : (b : Bool) → (if b then [] else []) ≡ nothing
silent true = refl
silent false = refl

module _ ⦃c : Context⦄ where
  pub repair-locked : (e : Decimal) (b : PaperBalance) → (repair e b).locked ≡ e
  unfolding repair
  repair-locked e b = ground (arith, eqb_ℤ_iff b.locked e)

  repair-of_repaired : (e : Decimal) (b : PaperBalance) → eq (repair e b).locked e ≡ true
  repair-of_repaired e b = rw (repair-locked e b) (ground arith)

  pub repair-of_eq : (e : Decimal) (b : PaperBalance) → eq b.locked e ≡ true → repair e b ≡ b
  unfolding repair
  repair-of_eq e b h = rw h refl

  repair-again : (e : Decimal) (b : PaperBalance) → repair e (repair e b) ≡ repair e b
  repair-again e b = repair-of_eq e (repair e b) (repair-of_repaired e b)

  repair-total :
      (r : IsRounding c) (e : Decimal) (b : PaperBalance)
      → IsRepr (total b -ℤ e)
      → total (repair e b) ≡ total b
  unfolding repair total
  repair-total r e b h = elim (Bool-cases (eq b.locked e)) [
    | inl done ↦ rw done refl
    | inr off ↦ rw off (add-sub_cancel (add b.free b.locked) e (add-IsRepr r b.free b.locked) h)
  ]

  pub lookup-repair_all :
      (k : Text) (ps : Dict OpenPosition) (bs : Dict PaperBalance)
      → lookup k (repair_all ps bs)
        ≡ elim (lookup k bs) [ none ↦ none | some b ↦ some (repair (expected_locked k ps) b) ]
  unfolding lookup repair_all
  lookup-repair_all k ps [] = refl
  lookup-repair_all k ps ((j, b) ∷ bs) = elim (Bool-cases (same k j)) [
    | inl hit ↦ rw (hit, (same_iff k j).0 hit) refl
    | inr miss ↦ rw miss (lookup-repair_all k ps bs)
  ]

  repairs-repair_all :
      (ps : Dict OpenPosition) (bs : Dict PaperBalance) → repairs ps (repair_all ps bs) ≡ []
  unfolding repairs repair_all
  repairs-repair_all ps [] = refl
  repairs-repair_all ps ((k, b) ∷ bs) =
      rw (repair-of_repaired (expected_locked k ps) b) (repairs-repair_all ps bs)

  repair_all_again :
      (ps : Dict OpenPosition) (bs : Dict PaperBalance)
      → repair_all ps (repair_all ps bs) ≡ repair_all ps bs
  unfolding repair_all
  repair_all_again ps [] = refl
  repair_all_again ps ((k, b) ∷ bs) =
      rw (repair-again (expected_locked k ps) b, repair_all_again ps bs)

  pub reconcile_locked-parts :
      (g : Config) (s : PaperTrader)
      → ((reconcile_locked g s).balances ≡ repair_all s.open_positions s.balances)
        × ((reconcile_locked g s).open_positions ≡ s.open_positions)
        × ((reconcile_locked g s).store ≡ s.store)
  unfolding reconcile_locked
  reconcile_locked-parts g s = elim (Bool-cases (any_event (repairs s.open_positions s.balances))) [
    | inl some_repair ↦ rw some_repair (refl, refl, refl)
    | inr none_needed ↦ rw none_needed (refl, refl, refl)
  ]

  pub reconcile_locked-of_none :
      (g : Config) (s : PaperTrader)
      → repairs s.open_positions s.balances ≡ []
      → repair_all s.open_positions s.balances ≡ s.balances
      → reconcile_locked g s ≡ s
  unfolding reconcile_locked
  reconcile_locked-of_none g s h k =
      rw (h, k, silent g.has_activity_log) (ap (λ l. record s { events = l }) (append-nil s.events))

  -- After the start-up repair every balance has exactly the margins of the open positions in its
  -- currency locked, and the repair moves nothing in or out: the total of each balance is what it
  -- was, where the new free amount needs no rounding.
  pub reconcile_locked-lookup :
      (r : IsRounding c) (g : Config) (s : PaperTrader) (k : Text) (b : PaperBalance)
      → lookup k s.balances ≡ some b
      → IsRepr (total b -ℤ expected_locked k s.open_positions)
      → (b' : PaperBalance) × (lookup k (reconcile_locked g s).balances ≡ some b')
        × (b'.locked ≡ expected_locked k (reconcile_locked g s).open_positions)
        × (total b' ≡ total b)
  reconcile_locked-lookup r g s k b e h =
      let parts = reconcile_locked-parts g s in
      let expected = expected_locked k s.open_positions in
      rw (parts.0, parts.1)
        (
          repair expected b,
          lookup-repair_all k s.open_positions s.balances ∙ rw e refl,
          repair-locked expected b,
          repair-total r expected b h,
        )

  -- A second repair finds nothing to do: the trader is as the first one left it, with no further
  -- event.
  reconcile_locked_again :
      (g : Config) (s : PaperTrader)
      → reconcile_locked g (reconcile_locked g s) ≡ reconcile_locked g s
  reconcile_locked_again g s =
      let parts = reconcile_locked-parts g s in
      reconcile_locked-of_none g (reconcile_locked g s)
        (rw (parts.0, parts.1) (repairs-repair_all s.open_positions s.balances))
        (rw (parts.0, parts.1) (repair_all_again s.open_positions s.balances))
