-- ===== src/Paper/Boot.antt =====
-- What the constructor of src/trading/paper.py makes of a balance file and a paper file.
use crypto_master.Prelude.{
  ◌≡◌, refl, ap, sym, ◌∙◌, inl, inr, true, false, none, some, List, [], ◌∷◌, ◌++◌, arith,
  Bool-cases, keep, All,
}
use mathlib.Core.List.{append-nil, append_assoc}
use crypto_master.Text.{Text, same}
use crypto_master.Dict.{Dict, lookup}
use crypto_master.Decimal.{Decimal, Context}
use crypto_master.Result.{Result, ok}
use crypto_master.Tracker.{Trade, Store, is_open, find, get_open_trades, load_trades}
use crypto_master.Paper.Balance.{PaperBalance}
use crypto_master.Paper.State.{OpenPosition, Config, PaperTrader}
use crypto_master.Paper.Reconcile.{reconcile_locked}
use crypto_master.Paper.Startup.{
  BoundsIndex, stored, find_bounds, any_position, valid_position, position_of, position_from,
  rehydrate, rehydrate_all, start,
}
use crypto_master.Paper.Sync.{HasDistinctIds, insert_absent, restored_from}
use crypto_master.Paper.Valid.{valid_position-of_IsValid}
use crypto_master.Paper.InSync.{HasBounds, IsPaperFile}

lookup-append_one {ℓ} :
    {V : Type ℓ} (k j : Text) (v : V) (d : Dict V)
    → lookup k d ≡ none
    → same k j ≡ false
    → lookup k (d ++ (j, v) ∷ []) ≡ none
unfolding lookup
lookup-append_one k j v [] h other = rw other refl
lookup-append_one k j v ((i, w) ∷ d) h other = elim (Bool-cases (same k i)) [
  | inl hit ↦ cc (rw hit at h)
  | inr miss ↦ rw miss (lookup-append_one k j v d (rw miss at h) other)
]

find-ne : (k : Text) (t : Trade) (ts : List Trade) → find k (t ∷ ts) ≡ none → same t.id k ≡ false
unfolding find
find-ne k t ts h = ground arith

-- Trades whose ids have no entry.
abbrev AreNew {ℓ} : {V : Type ℓ} → List Trade → Dict V → Type ℓ
AreNew ts d = All (λ t. lookup t.id d ≡ none) ts

AreNew-append_one {ℓ} :
    {V : Type ℓ} (j : Text) (v : V) (ts : List Trade) (d : Dict V)
    → AreNew ts d
    → find j ts ≡ none
    → AreNew ts (d ++ (j, v) ∷ [])
unfolding find
AreNew-append_one j v [] d a h = tt
AreNew-append_one j v (t ∷ ts) d a h = (
  lookup-append_one t.id j v d a.0 (find-ne j t ts h),
  AreNew-append_one j v ts d a.1 (ground arith),
)

module _ ⦃c : Context⦄ where
  find_bounds-of_open :
      (index : BoundsIndex) (t : Trade)
      → HasBounds t
      → is_open t.status ≡ true
      → find_bounds index t ≡ stored
  unfolding find_bounds
  find_bounds-of_open index t (inl settled) o = cc
  find_bounds-of_open index t (inr bounded) o = rw bounded.0 refl

  valid_position-of_open :
      (t : Trade)
      → HasBounds t
      → is_open t.status ≡ true
      → valid_position (position_of t t.stop_loss t.take_profit) ≡ true
  valid_position-of_open t (inl settled) o = cc
  valid_position-of_open t (inr bounded) o =
      valid_position-of_IsValid (position_of t t.stop_loss t.take_profit) bounded.1

  -- The loop over the open trades of a file, from a state without their ids.
  rehydrate_all-restored :
      (index : BoundsIndex) (ts : List Trade) (s : PaperTrader) (done : List OpenPosition)
      → HasDistinctIds ts
      → All HasBounds ts
      → AreNew ts s.open_positions
      → (os : List OpenPosition) × (rehydrate_all index (keep (λ t. is_open t.status) ts) s done
          ≡ ok (record s { open_positions = s.open_positions ++ restored_from ts }, os))
  unfolding rehydrate_all rehydrate restored_from
  rehydrate_all-restored index [] s done d b a = (
    done,
    ap {A = Dict OpenPosition} {B = Result (PaperTrader × List OpenPosition)}
        (λ ps. ok (record s { open_positions = ps }, done)) (sym (append-nil s.open_positions)),
  )
  rehydrate_all-restored index (t ∷ ts) s done d b a = elim (Bool-cases (is_open t.status)) [
    | inr settled ↦ rw settled (rehydrate_all-restored index ts s done d.1 b.1 a.1)
    | inl o ↦
        let held = position_from t t.stop_loss t.take_profit in
        let grown = insert_absent t.id held s.open_positions a.0 in
        let s' : PaperTrader = record s {
          open_positions = s.open_positions ++ (t.id, held) ∷ [];
        } in
        let (os, rest) =
          rehydrate_all-restored index ts s' (done ++ held ∷ []) d.1 b.1
            (AreNew-append_one t.id held ts s.open_positions a.1 d.0) in
        let regroup : s'.open_positions ++ restored_from ts
            ≡ s.open_positions ++ (t.id, held) ∷ restored_from ts =
          append_assoc s.open_positions ((t.id, held) ∷ []) (restored_from ts) in
        let valid = valid_position-of_open t b.0 o in
        (
          os,
          rw (o, rehydrate_all, find_bounds-of_open index t b.0 o, rehydrate, valid)
              (ap {A = Dict OpenPosition} {B = Result (PaperTrader × List OpenPosition)}
                  (λ ps.
                    rehydrate_all index (keep (λ u. is_open u.status) ts)
                      (record s { open_positions = ps }) (done ++ held ∷ []))
                  grown
                ∙ rest
                ∙ ap {A = Dict OpenPosition} {B = Result (PaperTrader × List OpenPosition)}
                    (λ ps. ok (record s { open_positions = ps }, os)) regroup),
        )
  ]

  AreNew-nil : (ts : List Trade) → AreNew {V = OpenPosition} ts []
  unfolding lookup
  AreNew-nil [] = tt
  AreNew-nil (t ∷ ts) = (refl, AreNew-nil ts)

  -- The state before the repair.
  abbrev pub loaded : Dict PaperBalance → Store → PaperTrader
  loaded saved store = record {
    balances = saved;
    open_positions = restored_from store.paper_trades;
    store = store;
    snapshot = some saved;
    events = [];
  }

  pub start-loaded :
      (g : Config) (index : BoundsIndex) (initial : Dict Decimal) (saved : Dict PaperBalance)
      (store : Store)
      → IsPaperFile store
      → start g index initial (some saved) store ≡ ok (reconcile_locked g (loaded saved store))
  unfolding start get_open_trades load_trades
  start-loaded g index initial saved store f =
      let fresh : PaperTrader = record (loaded saved store) { open_positions = [] } in
      let opened = keep (λ t. is_open t.status) store.paper_trades in
      let (os, all) =
        rehydrate_all-restored index store.paper_trades fresh [] f.distinct_ids f.bounded
          (AreNew-nil store.paper_trades) in
      elim (Bool-cases (any_position os)) [
        | inl restored ↦ rw (all, restored) refl
        | inr nothing ↦ rw (all, nothing) refl
      ]
