-- ===== src/RiskSizing/Bounds.antt =====
-- What an accepted size satisfies: `compute_risk_budget_size` of src/trading/risk_sizing.py.
use crypto_master.Prelude.{ℕ, ◌≡◌, ◌⊎◌, Bool-cases, inl, inr, refl, Option, none, some, arith}
use crypto_master.Prelude.Int.{pos, ◌≤ℤ◌, ◌<ℤ◌}
use crypto_master.Decimal.{Decimal, Context, lt, le, eq, mul, div, literal}
use crypto_master.TradingTypes.{TradeSide}
use crypto_master.RiskPolicy.{RiskPolicy}
use crypto_master.RiskSizing.{
  Sizing, size, divided, risk_per_unit, above_floor, clamped, stop_checked, budgeted, with_equity,
  compute_risk_budget_size,
}

abbrev pub IsAtLeast : Option Decimal → Decimal → Type 0
IsAtLeast none x = Unit
IsAtLeast (some low) x = low ≤ℤ x

abbrev pub IsAtMost : Option Decimal → Decimal → Type 0
IsAtMost none x = Unit
IsAtMost (some high) x = x ≤ℤ high

module _ ⦃c : Context⦄ where
  -- Where the quantity comes from: the budget, or the ceiling that the budget goes past.
  abbrev pub IsSizedBy : Option Decimal → Decimal → Decimal → Decimal → Type 0
  IsSizedBy ceiling entry raw q =
      ((q ≡ raw) × IsAtMost ceiling (mul q entry))
      ⊎ ((cap : Decimal) × (ceiling ≡ some cap) × (cap <ℤ mul raw entry) × (q ≡ div cap entry))

  abbrev pub IsWideStop : Option ℕ → Decimal → Decimal → Type 0
  IsWideStop none risk entry = Unit
  IsWideStop (some bps) risk entry = literal bps 1 ≤ℤ mul (div risk entry) (literal 10000 1)

  above_floor-size :
      (floor : Option Decimal) (notional quantity : Decimal) {q : Decimal}
      → above_floor floor notional quantity ≡ size q
      → (q ≡ quantity) × IsAtLeast floor notional
  unfolding above_floor
  above_floor-size none notional quantity e = (cc, tt)
  above_floor-size (some floor) notional quantity e = ground arith

  capped-size :
      (cap : Decimal) (floor : Option Decimal) (entry : Decimal) {q : Decimal}
      → divided cap entry (λ q. above_floor floor (mul q entry) q) ≡ size q
      → (q ≡ div cap entry) × IsAtLeast floor (mul (div cap entry) entry)
  capped-size cap floor entry e = elim (Bool-cases (eq entry (pos 0))) [
    | inl nothing ↦ cc (rw nothing at e)
    | inr some_price ↦
        above_floor-size floor (mul (div cap entry) entry) (div cap entry) (rw some_price at e)
  ]

  clamped-size :
      (ceiling floor : Option Decimal) (entry raw : Decimal) {q : Decimal}
      → clamped ceiling floor entry raw ≡ size q
      → IsAtLeast floor (mul q entry) × IsSizedBy ceiling entry raw q
  unfolding clamped
  clamped-size none floor entry raw e =
      let (same_q, low) = above_floor-size floor (mul raw entry) raw e in
      rw same_q (low, inl (refl, tt))
  clamped-size (some cap) floor entry raw {q} e = elim (Bool-cases (lt cap (mul raw entry))) [
    | inl over ↦
        let (same_q, low) = capped-size cap floor entry (rw over at e) in
        (rw same_q low, inr (cap, refl, ground arith, same_q))
    | inr fits ↦
        let (same_q, low) = above_floor-size floor (mul raw entry) raw (rw fits at e) in
        (rw same_q low, inl (same_q, rw same_q (ground arith)))
  ]

  stop_checked-size :
      (bps : Option ℕ) (risk entry : Decimal) (rest : Sizing) {q : Decimal}
      → stop_checked bps risk entry rest ≡ size q
      → (rest ≡ size q) × IsWideStop bps risk entry
  unfolding stop_checked
  stop_checked-size none risk entry rest e = (e, tt)
  stop_checked-size (some bps) risk entry rest e = ground arith

  -- What an accepted size for an equity, a risk per unit and an entry price satisfies.
  pub record IsAccepted (policy : RiskPolicy) (equity risk entry q : Decimal) : Type 0 where
    pub funded : pos 0 <ℤ equity
    pub right_side : pos 0 <ℤ risk
    pub wide : IsWideStop policy.min_stop_distance_bps risk entry
    pub low : IsAtLeast policy.min_notional_per_trade (mul q entry)
    pub pct : Decimal
    pub budget : policy.risk_budget_pct ≡ some pct
    pub sized : IsSizedBy policy.max_notional_per_trade entry (div (mul equity pct) risk) q

  budgeted-size :
      (policy : RiskPolicy) (equity pct risk entry : Decimal) {q : Decimal}
      → pos 0 <ℤ equity
      → policy.risk_budget_pct ≡ some pct
      → budgeted policy equity pct risk entry ≡ size q
      → IsAccepted policy equity risk entry q
  unfolding budgeted
  budgeted-size policy equity pct risk entry h p e = elim (Bool-cases (le risk (pos 0))) [
    | inl wrong ↦ cc (rw wrong at e)
    | inr right ↦
        let (rest, wide) =
          stop_checked-size policy.min_stop_distance_bps risk entry _ (rw right at e) in
        let (low, sized) =
          clamped-size policy.max_notional_per_trade policy.min_notional_per_trade entry
            (div (mul equity pct) risk) rest in
        record {
          funded = h;
          right_side = ground arith;
          wide = wide;
          low = low;
          pct = pct;
          budget = p;
          sized = sized;
        }
  ]

  with_equity-size :
      (policy : RiskPolicy) (equity : Decimal) (pct : Option Decimal) (risk entry : Decimal)
      {q : Decimal}
      → pos 0 <ℤ equity
      → policy.risk_budget_pct ≡ pct
      → with_equity policy equity pct risk entry ≡ size q
      → IsAccepted policy equity risk entry q
  unfolding with_equity
  with_equity-size policy equity none risk entry h p e = cc
  with_equity-size policy equity (some pct) risk entry h p e =
      budgeted-size policy equity pct risk entry h p e

  -- Every size that is returned rests on a positive equity, a stop on the losing side of the entry
  -- that is no tighter than the floor in basis points, and a risk budget; its notional is at least
  -- the floor; and it is the budget over the risk per unit, with a notional within the ceiling, or,
  -- where that would pass the ceiling, the ceiling over the entry price.
  pub compute_risk_budget_size-IsAccepted :
      (equity entry stop : Decimal) (side : TradeSide) (policy : RiskPolicy) {q : Decimal}
      → compute_risk_budget_size (some equity) entry stop side policy ≡ size q
      → IsAccepted policy equity (risk_per_unit side entry stop) entry q
  unfolding compute_risk_budget_size
  compute_risk_budget_size-IsAccepted equity entry stop side policy e =
      elim (Bool-cases (le equity (pos 0))) [
        | inl broke ↦ cc (rw broke at e)
        | inr funded ↦
            with_equity-size policy equity policy.risk_budget_pct _ entry (ground arith) refl
              (rw funded at e)
      ]
