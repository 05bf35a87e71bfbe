-- ===== src/Correlation/Gate.antt =====
-- The duplicate-exposure gate of src/runtime/correlation_governor.py.
use crypto_master.Prelude.{
  ℕ, Bool, true, false, ◌&&◌, ◌||◌, Option, none, some, List, [], ◌∷◌, ◌++◌, keep, length, map, ltb,
  if◌then◌else◌,
}
use crypto_master.Prelude.Int.{pos}
use crypto_master.Text.{Text, same}
use crypto_master.Decimal.{Decimal, Context, sum}
use crypto_master.TradingTypes.{TradeSide}
use crypto_master.Correlation.Exposures.{CorrelationExposure}
use crypto_master.Correlation.Groups.{before, sorted, contains, distinct, group_from}

pub data WarningType : Type 0 where
  duplicate_symbol_side duplicate_strategy_symbol_side : WarningType

pub record CorrelationWarningPolicy : Type 0 where
  pub max_sub_accounts_per_symbol_side : ℕ
  pub max_sub_accounts_per_strategy_symbol_side : ℕ

pub record CorrelationWarning : Type 0 where
  pub warning_type : WarningType
  pub symbol : Text
  pub side : TradeSide
  pub strategy_id : Option Text
  pub sub_account_ids : List Text
  pub exposure_ids : List Text
  pub total_notional : Decimal

pub record CorrelationGateConfig : Type 0 where
  pub enabled : Bool
  pub warning_policy : CorrelationWarningPolicy

-- The three reasons of a decision.
pub data GateReason : Type 0 where
  no_duplicate advisory_only excessive_duplicate : GateReason

pub record CorrelationGateDecision : Type 0 where
  pub allowed : Bool
  pub reason : GateReason
  pub warnings : List CorrelationWarning

abbrev pub same_side : TradeSide → TradeSide → Bool
same_side TradeSide.long TradeSide.long = true
same_side TradeSide.short TradeSide.short = true
same_side TradeSide.long TradeSide.short = false
same_side TradeSide.short TradeSide.long = false

-- "long" comes before "short".
abbrev pub side_before : TradeSide → TradeSide → Bool
side_before TradeSide.long TradeSide.short = true
side_before TradeSide.long TradeSide.long = false
side_before TradeSide.short _ = false

-- The key of a group: the strategy, if the grouping has it, the symbol and the side.
abbrev pub SymbolSide : Type 0
SymbolSide = Text × TradeSide

abbrev pub StrategySymbolSide : Type 0
StrategySymbolSide = Text × SymbolSide

abbrev pub symbol_side : CorrelationExposure → SymbolSide
symbol_side e = (e.symbol, e.side)

abbrev pub strategy_symbol_side : CorrelationExposure → StrategySymbolSide
strategy_symbol_side e = (e.strategy_id, symbol_side e)

abbrev pub same_symbol_side : SymbolSide → SymbolSide → Bool
same_symbol_side (s, d) (t, e) = same s t && same_side d e

abbrev pub same_strategy_symbol_side : StrategySymbolSide → StrategySymbolSide → Bool
same_strategy_symbol_side (s, k) (t, j) = same s t && same_symbol_side k j

-- The order of tuples.
abbrev pub symbol_side_before : SymbolSide → SymbolSide → Bool
symbol_side_before (s, d) (t, e) = before s t || (same s t && side_before d e)

abbrev pub strategy_symbol_side_before : StrategySymbolSide → StrategySymbolSide → Bool
strategy_symbol_side_before (s, k) (t, j) = before s t || (same s t && symbol_side_before k j)

abbrev Group : Type 0 → Type 0
Group K = K × List CorrelationExposure

-- `_distinct_sub_accounts`
unfoldable pub distinct_sub_accounts : List CorrelationExposure → List Text
distinct_sub_accounts es = sorted before (distinct (map (λ e. e.sub_account_id) es))

-- `_exposure_ids`
unfoldable pub exposure_ids : List CorrelationExposure → List Text
exposure_ids es = sorted before (map (λ e. e.exposure_id) es)

-- The loop over the sorted groups, with what it appends for a group past the limit.
unfoldable pub warnings_of :
    {K : Type 0}
    → ℕ
    → (K → List CorrelationExposure → CorrelationWarning)
    → List (Group K)
    → List CorrelationWarning
warnings_of limit warn [] = []
warnings_of limit warn ((k, g) ∷ d) =
    let rest = warnings_of limit warn d in
    if ltb limit (length (distinct_sub_accounts g)) then warn k g ∷ rest else rest

-- The end of `evaluate_correlation_gate`, on the warnings of the candidate.
unfoldable pub decide : CorrelationGateConfig → List CorrelationWarning → CorrelationGateDecision
decide config [] = record { allowed = true; reason = no_duplicate; warnings = [] }
decide config (w ∷ ws) =
    if config.enabled
    then record { allowed = false; reason = excessive_duplicate; warnings = w ∷ ws }
    else record { allowed = true; reason = advisory_only; warnings = w ∷ ws }

module _ ⦃c : Context⦄ where
  -- `_total_notional`
  unfoldable pub total_notional : List CorrelationExposure → Decimal
  total_notional es = sum (pos 0) (map (λ e. e.notional) es)

  abbrev pub symbol_side_warning : SymbolSide → List CorrelationExposure → CorrelationWarning
  symbol_side_warning (symbol, side) g = record {
    warning_type = duplicate_symbol_side;
    symbol = symbol;
    side = side;
    strategy_id = none;
    sub_account_ids = distinct_sub_accounts g;
    exposure_ids = exposure_ids g;
    total_notional = total_notional g;
  }

  abbrev pub strategy_symbol_side_warning :
      StrategySymbolSide → List CorrelationExposure → CorrelationWarning
  strategy_symbol_side_warning (strategy, (symbol, side)) g = record {
    warning_type = duplicate_strategy_symbol_side;
    symbol = symbol;
    side = side;
    strategy_id = some strategy;
    sub_account_ids = distinct_sub_accounts g;
    exposure_ids = exposure_ids g;
    total_notional = total_notional g;
  }

  -- `_symbol_side_warnings`
  unfoldable pub symbol_side_warnings :
      List CorrelationExposure → CorrelationWarningPolicy → List CorrelationWarning
  unfolding warnings_of
  symbol_side_warnings es policy =
      warnings_of policy.max_sub_accounts_per_symbol_side symbol_side_warning
        (sorted (λ a b. symbol_side_before a.0 b.0) (group_from same_symbol_side symbol_side [] es))

  -- `_strategy_symbol_side_warnings`
  unfoldable pub strategy_symbol_side_warnings :
      List CorrelationExposure → CorrelationWarningPolicy → List CorrelationWarning
  unfolding warnings_of
  strategy_symbol_side_warnings es policy =
      warnings_of policy.max_sub_accounts_per_strategy_symbol_side strategy_symbol_side_warning (
        sorted (λ a b. strategy_symbol_side_before a.0 b.0)
          (group_from same_strategy_symbol_side strategy_symbol_side [] es))

  unfoldable pub compute_duplicate_exposure_warnings :
      List CorrelationExposure → CorrelationWarningPolicy → List CorrelationWarning
  unfolding symbol_side_warnings strategy_symbol_side_warnings
  compute_duplicate_exposure_warnings es policy =
      symbol_side_warnings es policy ++ strategy_symbol_side_warnings es policy

  unfoldable pub evaluate_correlation_gate :
      List CorrelationExposure
      → CorrelationExposure
      → CorrelationGateConfig
      → CorrelationGateDecision
  unfolding compute_duplicate_exposure_warnings decide
  evaluate_correlation_gate existing candidate config = decide config (
      keep (λ w. contains candidate.exposure_id w.exposure_ids)
        (compute_duplicate_exposure_warnings (existing ++ candidate ∷ []) config.warning_policy))
