-- ===== src/Registry/Built.antt =====
-- The trader that src/trading/sub_account_registry.py builds for an account.
use crypto_master.Prelude.{
  ◌≡◌, ◌≢◌, refl, inl, inr, true, false, Option, none, some, ◌&&◌, arith, Bool-cases,
}
use crypto_master.Text.{Text, text, same, same_iff}
use crypto_master.Correlation.Groups.{contains}
use crypto_master.Registry.{
  AccountMode, paper, live, SubAccount, Settings, no_live_ref, key_error, Checked, returns, raises,
  made_trader, exchange_from_credential, paper_from, made_live, paper_credential, ◌>>=◌, Trader,
  shared, paper_trader, live_trader, default_id, is_default_ref, validate_boundaries,
  validate_by_mode, check_live, build_trader_for, build_by_mode, live_from,
}

-- The trader that an account gets: its own, by its mode, and live by credentials that are configured
-- and are not a testnet's.
pub data Fits (g : Settings) (a : SubAccount) : Trader → Type 0 where
  fits_shared : a.id ≡ default_id → Fits g a shared
  fits_paper : {ref : Option Text} → a.mode ≡ paper → Fits g a (paper_trader a.id ref)
  fits_live :
      {ref : Text}
      → a.mode ≡ live
      → a.exchange_ref ≡ some ref
      → contains ref g.exchange_credentials ≡ true
      → contains ref g.testnet_refs ≡ false
      → Fits g a (live_trader a.id ref)

-- A trader that fits, or an error that is neither a missing reference nor missing credentials.
abbrev pub IsBuilt : Settings → SubAccount → Checked Trader → Type 0
IsBuilt g a (returns t) = Fits g a t
IsBuilt g a (raises e) = (e ≢ no_live_ref) × (e ≢ key_error)

made_trader-IsBuilt :
    (g : Settings) (a : SubAccount) (t : Trader) → Fits g a t → IsBuilt g a (made_trader g t)
made_trader-IsBuilt g a t fits = elim (Bool-cases (g.trader_builds t)) [
  | inl builds ↦ rw builds fits
  | inr fails ↦ rw fails (λ i. cc, λ i. cc)
]

exchange_from_credential-IsBuilt :
    (g : Settings) (a : SubAccount) (ref : Text) (next : Checked Trader)
    → IsBuilt g a next
    → IsBuilt g a (exchange_from_credential g ref >>= λ u. next)
exchange_from_credential-IsBuilt g a ref next h = elim (Bool-cases (g.exchange_builds ref)) [
  | inl builds ↦ rw builds h
  | inr fails ↦ rw fails (λ i. cc, λ i. cc)
]

paper_from-IsBuilt :
    (g : Settings) (a : SubAccount) (ref : Option Text)
    → a.mode ≡ paper
    → IsBuilt g a (paper_from g a.id ref)
paper_from-IsBuilt g a none m = made_trader-IsBuilt g a (paper_trader a.id none) (fits_paper m)
paper_from-IsBuilt g a (some ref) m =
    exchange_from_credential-IsBuilt g a ref _
      (made_trader-IsBuilt g a (paper_trader a.id (some ref)) (fits_paper m))

made_live-IsBuilt :
    (g : Settings) (a : SubAccount) (ref : Text)
    → a.mode ≡ live
    → a.exchange_ref ≡ some ref
    → contains ref g.exchange_credentials ≡ true
    → IsBuilt g a (made_live g a.id ref)
made_live-IsBuilt g a ref m e there = elim (Bool-cases (contains ref g.testnet_refs)) [
  | inl testnet ↦ rw testnet (λ i. cc, λ i. cc)
  | inr mainnet ↦
      rw mainnet (made_trader-IsBuilt g a (live_trader a.id ref) (fits_live m e there mainnet))
]

-- After a check that passes, a live account has a reference with credentials.
live_from-IsBuilt :
    (g : Settings) (a : SubAccount) (ref : Option Text)
    → a.exchange_ref ≡ ref
    → a.mode ≡ live
    → (same a.id default_id && is_default_ref ref) ≡ false
    → check_live g a.id ref ≡ returns tt
    → IsBuilt g a (live_from g a.id ref)
live_from-IsBuilt g a none e m own c = cc
live_from-IsBuilt g a (some ref) e m own c =
    let other : (same ref (text "default") && same a.id default_id) ≡ false = ground (arith, own) in
    elim (Bool-cases (contains ref g.exchange_credentials)) [
      | inl there ↦ rw there (
          exchange_from_credential-IsBuilt g a ref (made_live g a.id ref)
            (made_live-IsBuilt g a ref m e there))
      | inr missing ↦ let no = rw (other, missing) at c in cc
    ]

build_by_mode-IsBuilt :
    (g : Settings) (a : SubAccount) (m : AccountMode)
    → a.mode ≡ m
    → (same a.id default_id && is_default_ref a.exchange_ref) ≡ false
    → validate_by_mode g m a ≡ returns tt
    → IsBuilt g a (build_by_mode g m a)
build_by_mode-IsBuilt g a paper m own checked =
    paper_from-IsBuilt g a (paper_credential g a.exchange_ref) m
build_by_mode-IsBuilt g a live m own checked =
    live_from-IsBuilt g a a.exchange_ref refl m own checked

pub build_trader_for-IsBuilt :
    (g : Settings) (a : SubAccount)
    → validate_boundaries g a ≡ returns tt
    → IsBuilt g a (build_trader_for g a)
unfolding validate_boundaries build_trader_for
build_trader_for-IsBuilt g a checked =
    elim (Bool-cases (same a.id default_id && is_default_ref a.exchange_ref)) [
      | inl is_shared ↦
          let is : same a.id default_id ≡ true = ground (arith, is_shared) in
          rw is_shared (fits_shared ((same_iff a.id default_id).0 is))
      | inr own ↦ rw own (build_by_mode-IsBuilt g a a.mode refl own checked)
    ]
