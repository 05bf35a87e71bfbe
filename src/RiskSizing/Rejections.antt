-- ===== src/RiskSizing/Rejections.antt =====
-- When `compute_risk_budget_size` of src/trading/risk_sizing.py accepts, and that it does not
-- raise.
use crypto_master.Prelude.{
  ℕ, ◌≡◌, if◌then◌else◌, true, false, ◌≢◌, ◌↔◌, inl, inr, refl, Option, none, some, arith,
  Bool-cases, Option-cases, subst, sym,
}
use crypto_master.Prelude.Int.{pos, ◌<ℤ◌}
use crypto_master.Decimal.{Decimal, Context, lt, le, eq, sub, mul, div}
use crypto_master.TradingTypes.{TradeSide}
use crypto_master.RiskPolicy.{RiskPolicy, validate, risk_budget}
use crypto_master.RiskSizing.{
  Sizing, size, rejected, division_by_zero, missing_risk_budget, missing_equity, risk_per_unit,
  above_floor, clamped, stop_checked, budgeted, with_equity, compute_risk_budget_size,
}
use crypto_master.RiskSizing.Bounds.{
  IsAtLeast, IsSizedBy, IsWideStop, IsAccepted, compute_risk_budget_size-IsAccepted,
}

over_test : (a b : Decimal) → a <ℤ b → lt a b ≡ true
over_test a b h = ground arith

module _ ⦃c : Context⦄ where
  above_floor-accepts :
      (floor : Option Decimal) (notional q : Decimal)
      → IsAtLeast floor notional
      → above_floor floor notional q ≡ size q
  unfolding above_floor
  above_floor-accepts none notional q h = refl
  above_floor-accepts (some floor) notional q h = ground arith

  clamped-accepts :
      (ceiling floor : Option Decimal) (entry raw q : Decimal)
      → pos 0 <ℤ entry
      → IsAtLeast floor (mul q entry)
      → IsSizedBy ceiling entry raw q
      → clamped ceiling floor entry raw ≡ size q
  unfolding clamped
  clamped-accepts none floor entry raw q h low (inl (e, within)) =
      rw (← e) (above_floor-accepts floor (mul q entry) q low)
  clamped-accepts none floor entry raw q h low (inr (cap, there, over, e)) = cc
  clamped-accepts (some cap) floor entry raw q h low (inl (e, within)) =
      rw (← e) (ground (arith, above_floor-accepts floor (mul q entry) q low))
  clamped-accepts (some cap) floor entry raw q h low (inr (cap', there, over, e)) =
      let same_cap : cap' ≡ cap = cc in
      let q_cap : q ≡ div cap entry = rw same_cap at e in
      let low' : IsAtLeast floor (mul (div cap entry) entry) = rw q_cap at low in
      let past : lt cap (mul raw entry) ≡ true =
        rw same_cap at (over_test cap' (mul raw entry) over) in
      let priced : eq entry (pos 0) ≡ false = ground arith in
      rw (past, priced, q_cap)
        (above_floor-accepts floor (mul (div cap entry) entry) (div cap entry) low')

  stop_checked-accepts :
      (bps : Option ℕ) (risk entry : Decimal) (rest : Sizing)
      → pos 0 <ℤ entry
      → IsWideStop bps risk entry
      → stop_checked bps risk entry rest ≡ rest
  unfolding stop_checked
  stop_checked-accepts none risk entry rest h w = refl
  stop_checked-accepts (some bps) risk entry rest h w = ground arith

  budgeted-accepts :
      (policy : RiskPolicy) (equity risk entry q : Decimal)
      → pos 0 <ℤ entry
      → IsAccepted policy equity risk entry q
      → (if le equity (pos 0)
          then rejected missing_equity
          else with_equity policy equity policy.risk_budget_pct risk entry)
        ≡ size q
  unfolding with_equity budgeted
  budgeted-accepts policy equity risk entry q h a =
      let funded : le equity (pos 0) ≡ false = ground arith in
      let right : le risk (pos 0) ≡ false = ground arith in
      rw
        (
          funded,
          a.budget,
          right,
          stop_checked-accepts policy.min_stop_distance_bps risk entry _ h a.wide,
        )
        (clamped-accepts policy.max_notional_per_trade policy.min_notional_per_trade entry _ q h
          a.low a.sized)

  -- What a unit loses where the stop is hit: a long position falls from the entry to the stop, a short
  -- one rises to it.
  abbrev pub loss_per_unit : TradeSide → Decimal → Decimal → Decimal
  loss_per_unit TradeSide.long entry stop = sub entry stop
  loss_per_unit TradeSide.short entry stop = sub stop entry

  risk_per_unit-eq-loss_per_unit :
      (side : TradeSide) (entry stop : Decimal)
      → risk_per_unit side entry stop ≡ loss_per_unit side entry stop
  unfolding risk_per_unit
  risk_per_unit-eq-loss_per_unit TradeSide.long entry stop = refl
  risk_per_unit-eq-loss_per_unit TradeSide.short entry stop = refl

  -- For a positive entry price, a size is returned exactly where it is accepted for the loss that a
  -- unit makes at the stop, from the entry down for a long and up for a short: the equity and that loss
  -- are positive, there is a risk budget, the stop is no tighter than the floor in basis points, the
  -- notional is at least its floor, and the size is the budgeted equity over the loss with a notional
  -- within the ceiling, or, where that would pass the ceiling, the ceiling over the entry price.
  pub compute_risk_budget_size-eq-size_iff :
      (equity entry stop : Decimal) (side : TradeSide) (policy : RiskPolicy) (q : Decimal)
      → pos 0 <ℤ entry
      → (compute_risk_budget_size (some equity) entry stop side policy ≡ size q)
        ↔ IsAccepted policy equity (loss_per_unit side entry stop) entry q
  unfolding compute_risk_budget_size
  compute_risk_budget_size-eq-size_iff equity entry stop side policy q h =
      let same_loss = risk_per_unit-eq-loss_per_unit side entry stop in
      (
        λ e.
            subst (λ (risk : Decimal). IsAccepted policy equity risk entry q) same_loss
              (compute_risk_budget_size-IsAccepted equity entry stop side policy e),
        λ a.
            budgeted-accepts policy equity (risk_per_unit side entry stop) entry q h
              (subst (λ (risk : Decimal). IsAccepted policy equity risk entry q) (sym same_loss) a),
      )

  above_floor_no_fault :
      (floor : Option Decimal) (n q : Decimal) → above_floor floor n q ≢ division_by_zero
  unfolding above_floor
  above_floor_no_fault none n q e = cc
  above_floor_no_fault (some low) n q e = ground arith

  clamped_no_fault :
      (ceiling floor : Option Decimal) (entry raw : Decimal)
      → pos 0 <ℤ entry
      → clamped ceiling floor entry raw ≢ division_by_zero
  unfolding clamped
  clamped_no_fault none floor entry raw h = above_floor_no_fault floor _ raw
  clamped_no_fault (some cap) floor entry raw h =
      let priced : eq entry (pos 0) ≡ false = ground arith in
      elim (Bool-cases (lt cap (mul raw entry))) [
        | inl over ↦ rw (over, priced) (above_floor_no_fault floor _ _)
        | inr fits ↦ rw fits (above_floor_no_fault floor _ raw)
      ]

  with_equity_no_fault :
      (policy : RiskPolicy) (equity : Decimal) (pct : Option Decimal) (risk entry : Decimal)
      → pos 0 <ℤ entry
      → with_equity policy equity pct risk entry ≢ division_by_zero
  unfolding with_equity budgeted stop_checked
  with_equity_no_fault policy equity none risk entry h e = cc
  with_equity_no_fault policy equity (some pct) risk entry h e = ground (
    arith,
    clamped_no_fault policy.max_notional_per_trade policy.min_notional_per_trade entry
        (div (mul equity pct) risk) h,
  )

  -- For a positive entry price no division by zero is raised, whatever the equity, the stop, the
  -- side and the policy.
  compute_risk_budget_size_no_fault :
      (equity : Option Decimal) (entry stop : Decimal) (side : TradeSide) (policy : RiskPolicy)
      → pos 0 <ℤ entry
      → compute_risk_budget_size equity entry stop side policy ≢ division_by_zero
  unfolding compute_risk_budget_size
  compute_risk_budget_size_no_fault none entry stop side policy h e = cc
  compute_risk_budget_size_no_fault (some equity) entry stop side policy h e = ground (
    arith,
    with_equity_no_fault policy equity policy.risk_budget_pct (risk_per_unit side entry stop) entry
        h,
  )

  with_equity_budgeted :
      (policy : RiskPolicy) (equity pct risk entry : Decimal) {bps : Option ℕ}
      → policy.min_stop_distance_bps ≡ bps
      → budgeted policy equity pct risk entry ≢ rejected missing_risk_budget
  unfolding budgeted stop_checked clamped above_floor
  with_equity_budgeted policy equity pct risk entry {bps} b e = ground arith

  -- A policy that the validators accept and whose mode is the risk budget is never refused for
  -- want of a budget: the second guard of the function is unreachable for such a policy.
  pub compute_risk_budget_size_has_budget :
      (equity : Option Decimal) (entry stop : Decimal) (side : TradeSide) (policy : RiskPolicy)
      → validate policy ≡ true
      → policy.sizing_mode ≡ risk_budget
      → compute_risk_budget_size equity entry stop side policy ≢ rejected missing_risk_budget
  unfolding compute_risk_budget_size with_equity validate
  compute_risk_budget_size_has_budget none entry stop side policy v m e = cc
  compute_risk_budget_size_has_budget (some equity) entry stop side policy v m e =
      elim (Option-cases policy.risk_budget_pct) [
        | inl missing ↦ ground arith
        | inr (pct, there) ↦ ground (
          arith,
          with_equity_budgeted policy equity pct (risk_per_unit side entry stop) entry refl,
        )
      ]
