-- ===== src/Tracker/Files.antt =====
-- How the writes of src/strategy/trade_history.py change what `get_trade` finds.
use crypto_master.Prelude.{
  ◌≡◌, refl, ◌∙◌, sym, subst, Bool-cases, inl, inr, Option-cases, none, some, List, [], ◌∷◌, ◌++◌,
  arith, if◌then◌else◌, All,
}
use crypto_master.Text.{Text, same, same_iff}
use crypto_master.Tracker.{
  Mode, backtest, paper, live, Trade, Store, find, replace, or_else, get_trade, save_in, save_trade,
  update_in, update_trade,
}

-- Every trade lies in the file of its mode.
pub record IsFiled (s : Store) : Type 0 where
  pub in_backtest : All (λ t. t.mode ≡ backtest) s.backtest_trades
  pub in_paper : All (λ t. t.mode ≡ paper) s.paper_trades
  pub in_live : All (λ t. t.mode ≡ live) s.live_trades

-- A found trade has the id that was asked for.
pub find-id : (k : Text) (ts : List Trade) (t : Trade) → find k ts ≡ some t → t.id ≡ k
unfolding find
find-id k [] t e = cc
find-id k (u ∷ ts) t e = ground (arith, find-id k ts t, same_iff u.id k)

pub find-mode :
    (m : Mode) (k : Text) (ts : List Trade) (t : Trade)
    → All (λ u. u.mode ≡ m) ts
    → find k ts ≡ some t
    → t.mode ≡ m
unfolding find
find-mode m k [] t h e = cc
find-mode m k (u ∷ ts) t h e = ground (arith, find-mode m k ts t h.1)

pub find-replace :
    (k : Text) (t : Trade) (ts : List Trade)
    → find k (replace t ts)
      ≡ (if same t.id k then elim (find k ts) [ none ↦ none | some old ↦ some t ] else find k ts)
unfolding find replace
find-replace k t [] = ground arith
find-replace k t (u ∷ ts) =
    ground (arith, find-replace k t ts, same_iff t.id k, same_iff u.id t.id, same_iff u.id k)

pub find-append_one :
    (k : Text) (t : Trade) (ts : List Trade)
    → find k (ts ++ t ∷ []) ≡ or_else (find k ts) (if same t.id k then some t else none)
unfolding find
find-append_one k t [] = ground arith
find-append_one k t (u ∷ ts) = ground (arith, find-append_one k t ts)

-- Where `get_trade` found a trade: the first file that has it, which is the file of its mode.
abbrev pub Located : Mode → Text → Store → Trade → Type 0
Located backtest k s t = find k s.backtest_trades ≡ some t
Located paper k s t = (find k s.backtest_trades ≡ none) × (find k s.paper_trades ≡ some t)
Located live k s t =
    (find k s.backtest_trades ≡ none)
    × (find k s.paper_trades ≡ none)
    × (find k s.live_trades ≡ some t)

pub get_trade-Located :
    (k : Text) (s : Store) (t : Trade)
    → IsFiled s
    → get_trade k s ≡ some t
    → (m : Mode) × (t.mode ≡ m) × Located m k s t
unfolding get_trade
get_trade-Located k s t f e = elim (Option-cases (find k s.backtest_trades)) [
  | inr (u, there) ↦
      let found : find k s.backtest_trades ≡ some t = ground arith in
      (backtest, find-mode backtest k s.backtest_trades t f.in_backtest found, found)
  | inl not_b ↦ elim (Option-cases (find k s.paper_trades)) [
    | inr (u, there) ↦
        let found : find k s.paper_trades ≡ some t = ground arith in
        (paper, find-mode paper k s.paper_trades t f.in_paper found, (not_b, found))
    | inl not_p ↦
        let found : find k s.live_trades ≡ some t = ground arith in
        (live, find-mode live k s.live_trades t f.in_live found, (not_b, not_p, found))
  ]
]

get_trade-update_in :
    (m : Mode) (k j : Text) (s : Store) (old new : Trade)
    → new.id ≡ k
    → Located m k s old
    → get_trade j (update_in m new s) ≡ (if same k j then some new else get_trade j s)
unfolding get_trade update_in
get_trade-update_in backtest k j s old new e l =
    ground (arith, find-replace j new s.backtest_trades, same_iff k j, same_iff new.id j)
get_trade-update_in paper k j s old new e l =
    ground (arith, find-replace j new s.paper_trades, same_iff k j, same_iff new.id j)
get_trade-update_in live k j s old new e l =
    ground (arith, find-replace j new s.live_trades, same_iff k j, same_iff new.id j)

-- In files where each trade lies in the file of its mode, a trade that was found and is written
-- back with its id and mode is what its id then finds, and every other id finds what it found
-- before.
pub get_trade-update_trade :
    (k j : Text) (s : Store) (old new : Trade)
    → IsFiled s
    → get_trade k s ≡ some old
    → new.id ≡ k
    → new.mode ≡ old.mode
    → get_trade j (update_trade new s) ≡ (if same k j then some new else get_trade j s)
unfolding update_trade
get_trade-update_trade k j s old new f e i m =
    let (file, of_old, located) = get_trade-Located k s old f e in
    subst (λ g. get_trade j (update_in g new s) ≡ (if same k j then some new else get_trade j s))
      (sym (m ∙ of_old)) (get_trade-update_in file k j s old new i located)

get_trade-save_in :
    (m : Mode) (j : Text) (s : Store) (t : Trade)
    → get_trade t.id s ≡ none
    → get_trade j (save_in m t s) ≡ (if same t.id j then some t else get_trade j s)
unfolding get_trade save_in
get_trade-save_in backtest j s t fresh =
    ground (arith, find-append_one j t s.backtest_trades, same_iff t.id j)
get_trade-save_in paper j s t fresh =
    ground (arith, find-append_one j t s.paper_trades, same_iff t.id j)
get_trade-save_in live j s t fresh =
    ground (arith, find-append_one j t s.live_trades, same_iff t.id j)

-- A new trade with a fresh id is found by its id, and no other id finds anything else.
pub get_trade-save_trade :
    (j : Text) (s : Store) (t : Trade)
    → get_trade t.id s ≡ none
    → get_trade j (save_trade t s) ≡ (if same t.id j then some t else get_trade j s)
unfolding save_trade
get_trade-save_trade j s t fresh = get_trade-save_in t.mode j s t fresh

All-append_one :
    (m : Mode) (t : Trade) (ts : List Trade)
    → t.mode ≡ m
    → All (λ u. u.mode ≡ m) ts
    → All (λ u. u.mode ≡ m) (ts ++ t ∷ [])
All-append_one m t [] e h = (e, tt)
All-append_one m t (u ∷ ts) e h = (h.0, All-append_one m t ts e h.1)

All-replace :
    (m : Mode) (t : Trade) (ts : List Trade)
    → t.mode ≡ m
    → All (λ u. u.mode ≡ m) ts
    → All (λ u. u.mode ≡ m) (replace t ts)
unfolding replace
All-replace m t [] e h = tt
All-replace m t (u ∷ ts) e h = elim (Bool-cases (same u.id t.id)) [
  | inl same_id ↦ rw same_id (e, h.1)
  | inr other ↦ rw other (h.0, All-replace m t ts e h.1)
]

save_in-IsFiled :
    (m : Mode) (t : Trade) (s : Store) → t.mode ≡ m → IsFiled s → IsFiled (save_in m t s)
unfolding save_in
save_in-IsFiled backtest t s e f = record {
  in_backtest = All-append_one backtest t s.backtest_trades e f.in_backtest;
  in_paper = f.in_paper;
  in_live = f.in_live;
}
save_in-IsFiled paper t s e f = record {
  in_paper = All-append_one paper t s.paper_trades e f.in_paper;
  in_backtest = f.in_backtest;
  in_live = f.in_live;
}
save_in-IsFiled live t s e f = record {
  in_live = All-append_one live t s.live_trades e f.in_live;
  in_backtest = f.in_backtest;
  in_paper = f.in_paper;
}

update_in-IsFiled :
    (m : Mode) (t : Trade) (s : Store) → t.mode ≡ m → IsFiled s → IsFiled (update_in m t s)
unfolding update_in
update_in-IsFiled backtest t s e f = record {
  in_backtest = All-replace backtest t s.backtest_trades e f.in_backtest;
  in_paper = f.in_paper;
  in_live = f.in_live;
}
update_in-IsFiled paper t s e f = record {
  in_paper = All-replace paper t s.paper_trades e f.in_paper;
  in_backtest = f.in_backtest;
  in_live = f.in_live;
}
update_in-IsFiled live t s e f = record {
  in_live = All-replace live t s.live_trades e f.in_live;
  in_backtest = f.in_backtest;
  in_paper = f.in_paper;
}

pub save_trade-IsFiled : (t : Trade) (s : Store) → IsFiled s → IsFiled (save_trade t s)
unfolding save_trade
save_trade-IsFiled t s f = save_in-IsFiled t.mode t s refl f

pub update_trade-IsFiled : (t : Trade) (s : Store) → IsFiled s → IsFiled (update_trade t s)
unfolding update_trade
update_trade-IsFiled t s f = update_in-IsFiled t.mode t s refl f

-- A trade that an id finds has that id.
pub get_trade-id : (k : Text) (s : Store) (t : Trade) → get_trade k s ≡ some t → t.id ≡ k
unfolding get_trade
get_trade-id k s t e =
    ground
      (arith, find-id k s.backtest_trades t, find-id k s.paper_trades t, find-id k s.live_trades t)
