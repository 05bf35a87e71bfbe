-- ===== src/Tests/Registry.antt =====
-- Tests and an instance for src/trading/sub_account_registry.py.
use crypto_master.Prelude.{Bool, not, ◌≡◌, refl, true, false, none, some, [], ◌∷◌}
use crypto_master.Text.{text, same}
use crypto_master.Dict.{lookup, insert}
use crypto_master.Registry.{
  paper, live, SubAccount, not_mapping, account, Settings, duplicate, no_mapping, no_accounts,
  no_exchange_ref, no_credentials, not_configured, exchange_fault, live_mode, trader_fault, Trader,
  returns, raises, paper_trader, live_trader, validate_boundaries, build_trader_for, Registry,
  add_entry, add_entries, load_from_yaml, load_registry, list_active, get_account, get_trader,
  filter_strategies,
}
use crypto_master.Registry.Loaded.{IsLoaded, load_registry-IsLoaded}

unfoldable accounts : Unit {0}
unfolding lookup insert same validate_boundaries build_trader_for add_entry add_entries
    load_from_yaml load_registry list_active get_account get_trader filter_strategies
accounts = tt

-- The files of one account have a position that is refused.
abbrev builds_trader : Trader → Bool
builds_trader (paper_trader id ref) = not (same id (text "gamma"))
builds_trader t = true

abbrev settings : Settings
settings = record {
  exchange_credentials = text "main" ∷ text "demo" ∷ text "broken" ∷ [];
  configured_exchanges = text "bybit" ∷ [];
  configured_refs = text "main" ∷ [];
  testnet_refs = text "demo" ∷ [];
  exchange_builds = λ ref. not (same ref (text "broken"));
  trader_builds = builds_trader;
}

abbrev alpha : SubAccount
alpha = record {
  id = text "alpha";
  mode = live;
  exchange_ref = some (text "main");
  enabled = true;
  policy_filter = none;
  legacy_filter = some (text "rsi" ∷ []);
}

abbrev beta : SubAccount
beta = record alpha { id = text "beta"; mode = paper; exchange_ref = none; enabled = false }

abbrev loaded : Registry
loaded = record {
  sub_accounts = (text "alpha", alpha) ∷ (text "beta", beta) ∷ [];
  traders =
      (text "alpha", live_trader (text "alpha") (text "main"))
      ∷ (text "beta", paper_trader (text "beta") none)
      ∷ [];
}

loads :
    (load_registry settings paper (some (account alpha ∷ account beta ∷ [])) ≡ returns loaded)
    × (load_registry settings paper (some (account alpha ∷ account alpha ∷ [])) ≡ raises duplicate)
    × (load_registry settings paper (some (account alpha ∷ not_mapping ∷ [])) ≡ raises no_mapping)
    × (load_registry settings paper (some []) ≡ raises no_accounts)
unfolding accounts
loads = (refl, refl, refl, refl)

refused :
    (validate_boundaries settings (record alpha { exchange_ref = none }) ≡ raises no_exchange_ref)
    × (validate_boundaries settings (record alpha { exchange_ref = some (text "bybit") })
        ≡ raises no_credentials)
    × (validate_boundaries settings (record beta { exchange_ref = some (text "kraken") })
        ≡ raises not_configured)
unfolding accounts
refused = (refl, refl, refl)

-- A live account on a testnet, and constructors that raise.
not_built :
    (build_trader_for settings (record alpha { exchange_ref = some (text "demo") })
      ≡ raises live_mode)
    × (build_trader_for settings (record alpha { exchange_ref = some (text "broken") })
        ≡ raises exchange_fault)
    × (build_trader_for settings (record beta { id = text "gamma" }) ≡ raises trader_fault)
    × (load_registry settings paper (some (account (record beta { id = text "gamma" }) ∷ []))
        ≡ raises trader_fault)
unfolding accounts
not_built = (refl, refl, refl, refl)

queries :
    (list_active loaded ≡ alpha ∷ [])
    × (get_trader (text "beta") loaded ≡ some (paper_trader (text "beta") none))
    × (get_trader (text "gamma") loaded ≡ none)
    × (filter_strategies (text "alpha") (text "macd" ∷ text "rsi" ∷ []) loaded
        ≡ some (text "rsi" ∷ []))
unfolding accounts
queries = (refl, refl, refl, refl)

load_registry-IsLoaded_example :
    IsLoaded settings (load_registry settings paper (some (account alpha ∷ account beta ∷ [])))
load_registry-IsLoaded_example =
    load_registry-IsLoaded settings paper (some (account alpha ∷ account beta ∷ []))
