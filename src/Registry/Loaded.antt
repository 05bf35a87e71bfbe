-- ===== src/Registry/Loaded.antt =====
-- What src/trading/sub_account_registry.py loads.
use crypto_master.Prelude.{
  ◌≡◌, ◌≢◌, refl, ap, sym, subst, ◌∙◌, inl, inr, false, Option, none, some, List, [], ◌∷◌, ◌&&◌,
  ◌||◌, arith, Bool-cases,
}
use crypto_master.Text.{Text, text, same, same_iff}
use crypto_master.Dict.{Dict, lookup, lookup-insert, IsDistinct, insert-IsDistinct}
use crypto_master.Correlation.Groups.{contains}
use crypto_master.Registry.{
  AccountMode, paper, live, SubAccount, Entry, not_mapping, invalid, account, Settings,
  RegistryFault, no_credentials, not_configured, no_live_ref, key_error, Checked, returns, raises,
  ◌>>=◌, Trader, shared, default_id, validate_boundaries, validate_by_mode, check_live, check_paper,
  build_trader_for, Registry, registered, has_account, add_entry, add_entries, empty_registry,
  not_empty, load_from_yaml, default_account, load_registry,
}
use crypto_master.Registry.Built.{Fits, fits_shared, IsBuilt, build_trader_for-IsBuilt}

pub record IsRegistry (g : Settings) (r : Registry) : Type 0 where
  pub distinct : IsDistinct r.sub_accounts
  pub own_id : (id : Text) (a : SubAccount) → lookup id r.sub_accounts ≡ some a → a.id ≡ id
  pub has_trader :
      (id : Text) (a : SubAccount)
      → lookup id r.sub_accounts ≡ some a
      → (t : Trader) × (lookup id r.traders ≡ some t) × Fits g a t

-- A registry, or an error that is neither a missing reference nor missing credentials of a live
-- account whose trader is built.
abbrev pub IsLoaded : Settings → Checked Registry → Type 0
IsLoaded g (returns r) = IsRegistry g r
IsLoaded g (raises e) = (e ≢ no_live_ref) × (e ≢ key_error)

registered-IsRegistry :
    (g : Settings) (a : SubAccount) (t : Trader) (r : Registry)
    → Fits g a t
    → IsRegistry g r
    → IsRegistry g (registered a t r)
registered-IsRegistry g a t r fits h = record {
  distinct = insert-IsDistinct a.id a r.sub_accounts h.distinct;
  own_id = λ id b found. elim (Bool-cases (same id a.id)) [
    | inl hit ↦
        let this : a ≡ b =
          ground (arith, rw (lookup-insert a.id id a r.sub_accounts, hit) at found) in
        ap (λ (c : SubAccount). c.id) (sym this) ∙ sym ((same_iff id a.id).0 hit)
    | inr miss ↦ h.own_id id b (rw (lookup-insert a.id id a r.sub_accounts, miss) at found)
  ];
  has_trader = λ id b found. elim (Bool-cases (same id a.id)) [
    | inl hit ↦
        let this : a ≡ b =
          ground (arith, rw (lookup-insert a.id id a r.sub_accounts, hit) at found) in
        (t, lookup-insert a.id id t r.traders ∙ rw hit refl, subst (λ c. Fits g c t) this fits)
    | inr miss ↦
        let (u, there, fits_u) =
          h.has_trader id b (rw (lookup-insert a.id id a r.sub_accounts, miss) at found) in
        (u, lookup-insert a.id id t r.traders ∙ rw miss there, fits_u)
  ];
}

-- What a check raises.
check_live-raises :
    (g : Settings) (id : Text) (ref : Option Text) (e : RegistryFault)
    → check_live g id ref ≡ raises e
    → (e ≢ no_live_ref) × (e ≢ key_error)
check_live-raises g id none e h = (λ i. cc, λ i. cc)
check_live-raises g id (some ref) e h =
    elim (Bool-cases (same ref (text "default") && same id default_id)) [
      | inl is_default ↦ let no = rw is_default at h in cc
      | inr other ↦ elim (Bool-cases (contains ref g.exchange_credentials)) [
        | inl there ↦ let no = rw (other, there) at h in cc
        | inr missing ↦
            let this : raises no_credentials ≡ raises e = rw (other, missing) at h in
            (λ i. cc, λ i. cc)
      ]
    ]

check_paper-raises :
    (g : Settings) (ref : Option Text) (e : RegistryFault)
    → check_paper g ref ≡ raises e
    → (e ≢ no_live_ref) × (e ≢ key_error)
check_paper-raises g none e h = cc
check_paper-raises g (some ref) e h = elim (Bool-cases (same ref (text "default"))) [
  | inl is_default ↦ let no = rw is_default at h in cc
  | inr other ↦
      elim (Bool-cases (contains ref g.configured_exchanges || contains ref g.configured_refs)) [
        | inl there ↦ let no = rw (other, there) at h in cc
        | inr missing ↦
            let this : raises not_configured ≡ raises e = rw (other, missing) at h in
            (λ i. cc, λ i. cc)
      ]
]

validate_by_mode-raises :
    (g : Settings) (m : AccountMode) (a : SubAccount) (e : RegistryFault)
    → validate_by_mode g m a ≡ raises e
    → (e ≢ no_live_ref) × (e ≢ key_error)
validate_by_mode-raises g paper a e h = check_paper-raises g a.exchange_ref e h
validate_by_mode-raises g live a e h = check_live-raises g a.id a.exchange_ref e h

add_entry-IsLoaded :
    (g : Settings) (e : Entry) (r : Registry) → IsRegistry g r → IsLoaded g (add_entry g e r)
unfolding add_entry validate_boundaries
add_entry-IsLoaded g not_mapping r h = (λ i. cc, λ i. cc)
add_entry-IsLoaded g invalid r h = (λ i. cc, λ i. cc)
add_entry-IsLoaded g (account a) r h =
    elim (Bool-cases (has_account (lookup a.id r.sub_accounts))) [
      | inl seen ↦ rw (add_entry, seen) (λ i. cc, λ i. cc)
      | inr new ↦ checked (validate_boundaries g a) refl new
    ]
  where
    built :
        (b : Checked Trader)
        → build_trader_for g a ≡ b
        → validate_boundaries g a ≡ returns tt
        → has_account (lookup a.id r.sub_accounts) ≡ false
        → IsBuilt g a b
        → IsLoaded g (add_entry g (account a) r)
    built (raises f) builds is new other = rw (add_entry, new, is, builds) other
    built (returns t) builds is new fits =
        rw (add_entry, new, is, builds) (registered-IsRegistry g a t r fits h)

    checked :
        (v : Checked (Unit {0}))
        → validate_boundaries g a ≡ v
        → has_account (lookup a.id r.sub_accounts) ≡ false
        → IsLoaded g (add_entry g (account a) r)
    checked (raises f) is new = rw (add_entry, new, is) (validate_by_mode-raises g a.mode a f is)
    checked (returns u) is new =
        built (build_trader_for g a) refl is new (build_trader_for-IsBuilt g a is)

bind-IsLoaded :
    (g : Settings) (a : Checked Registry) (f : Registry → Checked Registry)
    → IsLoaded g a
    → ((r : Registry) → IsRegistry g r → IsLoaded g (f r))
    → IsLoaded g (a >>= f)
bind-IsLoaded g (raises e) f l k = l
bind-IsLoaded g (returns r) f l k = k r l

add_entries-IsLoaded :
    (g : Settings) (es : List Entry) (r : Registry)
    → IsRegistry g r
    → IsLoaded g (add_entries g es r)
unfolding add_entries
add_entries-IsLoaded g [] r h = h
add_entries-IsLoaded g (e ∷ es) r h =
    bind-IsLoaded g (add_entry g e r) (λ r'. add_entries g es r') (add_entry-IsLoaded g e r h)
      (λ r' h'. add_entries-IsLoaded g es r' h')

not_empty-IsLoaded :
    (g : Settings) (d : Dict SubAccount) (r : Registry)
    → IsRegistry g r
    → IsLoaded g (not_empty d r)
not_empty-IsLoaded g [] r h = (λ i. cc, λ i. cc)
not_empty-IsLoaded g (a ∷ d) r h = h

empty_registry-IsRegistry : (g : Settings) → IsRegistry g empty_registry
unfolding lookup
empty_registry-IsRegistry g = record {
  distinct = tt;
  own_id = λ id a found. cc;
  has_trader = λ id a found. cc;
}

-- Loading the sub-accounts, with any configuration file or none, gives a registry of distinct ids in
-- which each account stands under its own id and has a trader: the one that was passed in for the
-- default account, or a new one of the account's mode, a live one by the account's reference, whose
-- credentials are configured and are not a testnet's. Or it raises, also where a constructor of an
-- exchange or a trader does, but never for a live account's missing reference or a missing key of
-- the credentials where its trader is built.
pub load_registry-IsLoaded :
    (g : Settings) (mode : AccountMode) (es : Option (List Entry))
    → IsLoaded g (load_registry g mode es)
unfolding load_registry load_from_yaml
load_registry-IsLoaded g mode none =
    registered-IsRegistry g (default_account mode) shared empty_registry (fits_shared refl)
      (empty_registry-IsRegistry g)
load_registry-IsLoaded g mode (some es) =
    bind-IsLoaded g (add_entries g es empty_registry) (λ r. not_empty r.sub_accounts r)
      (add_entries-IsLoaded g es empty_registry (empty_registry-IsRegistry g))
      (λ r h. not_empty-IsLoaded g r.sub_accounts r h)
