-- ===== src/Registry.antt =====
-- src/trading/sub_account_registry.py: the sub-accounts of the configuration, and the trader of each.
-- The file comes in parsed, the settings as the references that they configure.
pub mod Built
pub mod Loaded
use crypto_master.Prelude.{
  Bool, true, false, not, Option, none, some, List, [], ◌∷◌, ◌++◌, ◌&&◌, ◌||◌, if◌then◌else◌, keep,
  map,
}
use crypto_master.Text.{Text, text, same}
use crypto_master.Dict.{Dict, lookup, insert}
use crypto_master.Correlation.Groups.{contains}

pub data AccountMode : Type 0 where
  paper live : AccountMode

-- What the registry reads of a `SubAccount`.
pub record SubAccount : Type 0 where
  pub id : Text
  pub mode : AccountMode
  pub exchange_ref : Option Text
  pub enabled : Bool
  pub policy_filter : Option (List Text)
  pub legacy_filter : Option (List Text)

-- An entry of the list in the file: not a mapping, refused by the model, or an account.
pub data Entry : Type 0 where
  not_mapping invalid : Entry
  account : SubAccount → Entry

-- The trader of an account: the one that was passed in, or a new one, for paper with the reference
-- whose credentials it connects by, if it has any.
pub data Trader : Type 0 where
  shared : Trader
  paper_trader : Text → Option Text → Trader
  live_trader : Text → Text → Trader

-- The references that have credentials, those of them that are for a testnet, and the exchanges that
-- are configured beside them. The constructors of the exchange of a reference and of a trader are
-- code of other parts: the environment's settings of an exchange, the open trades in a trader's
-- files; here is whether they return or raise.
pub record Settings : Type 0 where
  pub exchange_credentials : List Text
  pub testnet_refs : List Text
  pub configured_exchanges : List Text
  pub configured_refs : List Text
  pub exchange_builds : Text → Bool
  pub trader_builds : Trader → Bool

pub data RegistryFault : Type 0 where
  no_mapping bad_account duplicate no_accounts : RegistryFault
  no_exchange_ref no_credentials not_configured : RegistryFault
  -- raised where a trader is built
  no_live_ref key_error exchange_fault live_mode trader_fault : RegistryFault

pub data Checked (A : Type 0) : Type 0 where
  returns : A → Checked A
  raises : RegistryFault → Checked A

infixl 5 ◌>>=◌
abbrev pub ◌>>=◌ : {A B : Type 0} → Checked A → (A → Checked B) → Checked B
returns a >>= f = f a
raises e >>= f = raises e

abbrev pub default_id : Text
default_id = text "default"

-- `exchange_ref in (None, "default")`
abbrev pub is_default_ref : Option Text → Bool
is_default_ref none = true
is_default_ref (some ref) = same ref (text "default")

abbrev pub check_live : Settings → Text → Option Text → Checked (Unit {0})
check_live g id none = raises no_exchange_ref
check_live g id (some ref) =
    if same ref (text "default") && same id default_id
    then returns tt
    else if contains ref g.exchange_credentials
    then returns tt
    else raises no_credentials

abbrev pub check_paper : Settings → Option Text → Checked (Unit {0})
check_paper g none = returns tt
check_paper g (some ref) =
    if same ref (text "default")
    then returns tt
    else if contains ref g.configured_exchanges || contains ref g.configured_refs
    then returns tt
    else raises not_configured

-- `_validate_phase_19_3_boundaries`
abbrev pub validate_by_mode : Settings → AccountMode → SubAccount → Checked (Unit {0})
validate_by_mode g live a = check_live g a.id a.exchange_ref
validate_by_mode g paper a = check_paper g a.exchange_ref

unfoldable pub validate_boundaries : Settings → SubAccount → Checked (Unit {0})
validate_boundaries g a = validate_by_mode g a.mode a

abbrev pub paper_credential : Settings → Option Text → Option Text
paper_credential g none = none
paper_credential g (some ref) =
    if same ref (text "default")
    then none
    else if contains ref g.exchange_credentials
    then some ref
    else none

-- A constructor's call, which may raise.
abbrev pub made_trader : Settings → Trader → Checked Trader
made_trader g t = if g.trader_builds t then returns t else raises trader_fault

-- `_exchange_from_credential`
abbrev pub exchange_from_credential : Settings → Text → Checked (Unit {0})
exchange_from_credential g ref = if g.exchange_builds ref then returns tt else raises exchange_fault

abbrev pub paper_from : Settings → Text → Option Text → Checked Trader
paper_from g id none = made_trader g (paper_trader id none)
paper_from g id (some ref) =
    exchange_from_credential g ref >>= λ u. made_trader g (paper_trader id (some ref))

-- `LiveTrader.__init__` of src/trading/live.py, which refuses an exchange of a testnet
abbrev pub made_live : Settings → Text → Text → Checked Trader
made_live g id ref =
    if contains ref g.testnet_refs then raises live_mode else made_trader g (live_trader id ref)

abbrev pub live_from : Settings → Text → Option Text → Checked Trader
live_from g id none = raises no_live_ref
live_from g id (some ref) =
    if contains ref g.exchange_credentials
    then (exchange_from_credential g ref >>= λ u. made_live g id ref)
    else raises key_error

abbrev pub build_by_mode : Settings → AccountMode → SubAccount → Checked Trader
build_by_mode g paper a = paper_from g a.id (paper_credential g a.exchange_ref)
build_by_mode g live a = live_from g a.id a.exchange_ref

-- `_build_trader_for`
unfoldable pub build_trader_for : Settings → SubAccount → Checked Trader
build_trader_for g a =
    if same a.id default_id && is_default_ref a.exchange_ref
    then returns shared
    else build_by_mode g a.mode a

pub record Registry : Type 0 where
  pub sub_accounts : Dict SubAccount
  pub traders : Dict Trader

abbrev pub registered : SubAccount → Trader → Registry → Registry
registered a t r = record {
  sub_accounts = insert a.id a r.sub_accounts;
  traders = insert a.id t r.traders;
}

abbrev pub has_account : Option SubAccount → Bool
has_account none = false
has_account (some a) = true

-- One turn of the loop of `_load_from_yaml`; the ids seen are those of the registry.
unfoldable pub add_entry : Settings → Entry → Registry → Checked Registry
unfolding validate_boundaries build_trader_for
add_entry g not_mapping r = raises no_mapping
add_entry g invalid r = raises bad_account
add_entry g (account a) r =
    if has_account (lookup a.id r.sub_accounts)
    then raises duplicate
    else validate_boundaries g a >>= λ u. build_trader_for g a >>= λ t. returns (registered a t r)

unfoldable pub add_entries : Settings → List Entry → Registry → Checked Registry
unfolding add_entry
add_entries g [] r = returns r
add_entries g (e ∷ es) r = add_entry g e r >>= λ r'. add_entries g es r'

abbrev pub empty_registry : Registry
empty_registry = record { sub_accounts = []; traders = [] }

abbrev pub not_empty : Dict SubAccount → Registry → Checked Registry
not_empty [] r = raises no_accounts
not_empty (a ∷ d) r = returns r

-- `_load_from_yaml`, on the list of accounts
unfoldable pub load_from_yaml : Settings → List Entry → Checked Registry
unfolding add_entries
load_from_yaml g es = add_entries g es empty_registry >>= λ r. not_empty r.sub_accounts r

-- `_load`, where the configuration file may be missing, and `_materialise_default`
abbrev pub default_account : AccountMode → SubAccount
default_account mode = record {
  id = default_id;
  mode = mode;
  exchange_ref = some (text "default");
  enabled = true;
  policy_filter = none;
  legacy_filter = none;
}

unfoldable pub load_registry : Settings → AccountMode → Option (List Entry) → Checked Registry
unfolding load_from_yaml
load_registry g mode none = returns (registered (default_account mode) shared empty_registry)
load_registry g mode (some es) = load_from_yaml g es

unfoldable pub list_active : Registry → List SubAccount
list_active r = keep (λ a. a.enabled) (map (λ e. e.1) r.sub_accounts)

-- `get` and `get_trader`; `none` is `SubAccountNotFoundError`, and for the trader a `KeyError` too.
unfoldable pub get_account : Text → Registry → Option SubAccount
get_account id r = lookup id r.sub_accounts

unfoldable pub get_trader : Text → Registry → Option Trader
unfolding get_account
get_trader id r = if has_account (get_account id r) then lookup id r.traders else none

-- `effective_strategy_filter` of src/trading/sub_account.py
abbrev pub filter_from : Option (List Text) → Option (List Text) → Option (List Text)
filter_from none legacy = legacy
filter_from (some names) legacy = some names

abbrev pub named_in : Option (List Text) → List Text → List Text
named_in none available = available
named_in (some names) available = keep (λ n. contains n names) available

-- `filter_strategies`, on the names of the strategies
unfoldable pub filter_strategies : Text → List Text → Registry → Option (List Text)
unfolding get_account
filter_strategies id available r = elim (get_account id r) [
  | none ↦ none
  | some a ↦ some (named_in (filter_from a.policy_filter a.legacy_filter) available)
]
