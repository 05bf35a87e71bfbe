-- ===== src/Correlation/Decision.antt =====
-- What the gate of src/runtime/correlation_governor.py decides.
use crypto_master.Prelude.{
  ℕ, ◌≡◌, refl, ap, ap₂, ◌∙◌, ◌↔◌, ◌⊎◌, inl, inr, Bool, true, false, not, ◌&&◌, ◌||◌, List, [], ◌∷◌,
  ◌++◌, keep, All, arith, ltb, Bool-cases,
}
use crypto_master.Text.{same, same_iff, same_refl}
use crypto_master.Decimal.{Context}
use crypto_master.TradingTypes.{TradeSide}
use crypto_master.Correlation.Exposures.{CorrelationExposure}
use crypto_master.Correlation.Groups.{any_of, contains}
use crypto_master.Correlation.Gate.{
  CorrelationWarning, CorrelationGateConfig, SymbolSide, StrategySymbolSide, same_side, symbol_side,
  strategy_symbol_side, same_symbol_side, same_strategy_symbol_side, symbol_side_before,
  strategy_symbol_side_before, symbol_side_warning, strategy_symbol_side_warning,
  symbol_side_warnings, strategy_symbol_side_warnings, compute_duplicate_exposure_warnings, decide,
  evaluate_correlation_gate,
}
use crypto_master.Correlation.Duplicates.{account_count, any_of-append, warned_grouping}

same_side_iff : (d e : TradeSide) → (same_side d e ≡ true) ↔ (d ≡ e)
same_side_iff TradeSide.long TradeSide.long = (λ _. refl, λ _. refl)
same_side_iff TradeSide.short TradeSide.short = (λ _. refl, λ _. refl)
same_side_iff TradeSide.long TradeSide.short = (λ h. cc, λ h. cc)
same_side_iff TradeSide.short TradeSide.long = (λ h. cc, λ h. cc)

pair_iff :
    {A B : Type 0} (p : A → A → Bool) (q : B → B → Bool) (a a' : A) (b b' : B)
    → ((p a a' ≡ true) ↔ (a ≡ a'))
    → ((q b b' ≡ true) ↔ (b ≡ b'))
    → ((p a a' && q b b') ≡ true) ↔ (◌≡◌ {A = A × B} (a, b) (a', b'))
pair_iff p q a a' b b' f g = (
  λ h. ap₂ (λ u v. (u, v)) (f.0 (ground arith)) (g.0 (ground arith)),
  λ e. rw (f.1 (ap (λ z. z.0) e), g.1 (ap (λ z. z.1) e)) refl,
)

same_symbol_side_iff : (j k : SymbolSide) → (same_symbol_side j k ≡ true) ↔ (j ≡ k)
same_symbol_side_iff (s, d) (t, e) =
    pair_iff same same_side s t d e (same_iff s t) (same_side_iff d e)

same_strategy_symbol_side_iff :
    (j k : StrategySymbolSide) → (same_strategy_symbol_side j k ≡ true) ↔ (j ≡ k)
same_strategy_symbol_side_iff (s, j) (t, k) =
    pair_iff same same_symbol_side s t j k (same_iff s t) (same_symbol_side_iff j k)

-- The sub-accounts with an exposure like the candidate's, the candidate's own included.
abbrev pub symbol_side_accounts : List CorrelationExposure → CorrelationExposure → ℕ
symbol_side_accounts es e =
    account_count (keep (λ o. same_symbol_side (symbol_side e) (symbol_side o)) es ++ e ∷ [])

abbrev pub strategy_accounts : List CorrelationExposure → CorrelationExposure → ℕ
strategy_accounts es e = account_count (
    keep (λ o. same_strategy_symbol_side (strategy_symbol_side e) (strategy_symbol_side o)) es
    ++ e ∷ [])

decide-allowed :
    (config : CorrelationGateConfig) (p : CorrelationWarning → Bool) (ws : List CorrelationWarning)
    → (decide config (keep p ws)).allowed ≡ not (config.enabled && any_of p ws)
unfolding decide
decide-allowed config p [] = ground arith
decide-allowed config p (w ∷ ws) = ground (arith, decide-allowed config p ws)

decide-warnings :
    (config : CorrelationGateConfig) (ws : List CorrelationWarning)
    → (decide config ws).warnings ≡ ws
unfolding decide
decide-warnings config [] = refl
decide-warnings config (w ∷ ws) = ground arith

All-keep : {A : Type 0} (p : A → Bool) (xs : List A) → All (λ x. p x ≡ true) (keep p xs)
All-keep p [] = tt
All-keep p (x ∷ xs) = elim (Bool-cases (p x)) [
  | inl kept ↦ rw kept (kept, All-keep p xs)
  | inr dropped ↦ rw dropped (All-keep p xs)
]

module _ ⦃c : Context⦄ where
  -- The gate lets a candidate through unless it is enabled and the exposures on the candidate's
  -- symbol and side, or those of its strategy on them, the candidate's own included, belong to more
  -- different sub-accounts than the policy allows. No existing exposure has the candidate's id.
  pub evaluate_correlation_gate-allowed :
      (existing : List CorrelationExposure) (candidate : CorrelationExposure)
      (config : CorrelationGateConfig)
      → All (λ o. same o.exposure_id candidate.exposure_id ≡ false) existing
      → let policy = config.warning_policy in
        (evaluate_correlation_gate existing candidate config).allowed
        ≡ not (
            config.enabled
            && (ltb policy.max_sub_accounts_per_symbol_side
                  (symbol_side_accounts existing candidate)
                || ltb policy.max_sub_accounts_per_strategy_symbol_side
                    (strategy_accounts existing candidate)))
  unfolding evaluate_correlation_gate compute_duplicate_exposure_warnings symbol_side_warnings
      strategy_symbol_side_warnings
  evaluate_correlation_gate-allowed existing candidate config fresh =
      let policy = config.warning_policy in
      let i = candidate.exposure_id in
      let es = existing ++ candidate ∷ [] in
      decide-allowed config (λ w. contains i w.exposure_ids)
        (compute_duplicate_exposure_warnings es policy)
      ∙ ap (λ b. not (config.enabled && b))
          (any_of-append (λ w. contains i w.exposure_ids) (symbol_side_warnings es policy)
              (strategy_symbol_side_warnings es policy)
            ∙ ap₂ (λ a b. a || b)
                (warned_grouping policy.max_sub_accounts_per_symbol_side symbol_side_warning
                  (λ k g. refl) i same_symbol_side symbol_side (λ a b. symbol_side_before a.0 b.0)
                  same_symbol_side_iff existing candidate (same_refl i) fresh)
                (warned_grouping policy.max_sub_accounts_per_strategy_symbol_side
                  strategy_symbol_side_warning (λ k g. refl) i same_strategy_symbol_side
                  strategy_symbol_side (λ a b. strategy_symbol_side_before a.0 b.0)
                  same_strategy_symbol_side_iff existing candidate (same_refl i) fresh))

  -- Every warning of a decision names the candidate, and a gate that is not enabled allows every
  -- candidate.
  evaluate_correlation_gate_reports :
      (existing : List CorrelationExposure) (candidate : CorrelationExposure)
      (config : CorrelationGateConfig)
      → let decision = evaluate_correlation_gate existing candidate config in
        All (λ w. contains candidate.exposure_id w.exposure_ids ≡ true) decision.warnings
        × ((config.enabled ≡ true) ⊎ (decision.allowed ≡ true))
  unfolding evaluate_correlation_gate
  evaluate_correlation_gate_reports existing candidate config =
      let p = λ (w : CorrelationWarning). contains candidate.exposure_id w.exposure_ids in
      let ws =
        compute_duplicate_exposure_warnings (existing ++ candidate ∷ []) config.warning_policy in
      (
        rw (decide-warnings config (keep p ws)) (All-keep p ws),
        elim (Bool-cases config.enabled) [
          | inl on ↦ inl on
          | inr off ↦ inr (decide-allowed config p ws ∙ rw off refl)
        ],
      )
