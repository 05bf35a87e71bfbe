-- ===== src/Paper/Sync.antt =====
-- The open paper trades of the tracker as the open positions of a trader: what the constructor of
-- src/trading/paper.py restores from src/strategy/trade_history.py.
use crypto_master.Prelude.{
  ◌≡◌, refl, ap, sym, inl, inr, true, false, none, some, List, [], ◌∷◌, ◌++◌, arith, if◌then◌else◌,
  Bool-cases,
}
use crypto_master.Text.{Text, same, same_iff, same_refl}
use crypto_master.Dict.{Dict, lookup, insert, erase, erase_absent}
use crypto_master.Decimal.{Context}
use crypto_master.Tracker.{Trade, is_open, find, replace}
use crypto_master.Tracker.Files.{find-append_one, find-replace}
use crypto_master.Paper.State.{OpenPosition}
use crypto_master.Paper.Startup.{position_from}

-- No id stands twice in a file.
abbrev pub HasDistinctIds : List Trade → Type 0
HasDistinctIds [] = Unit
HasDistinctIds (t ∷ ts) = (find t.id ts ≡ none) × HasDistinctIds ts

pub insert_absent {ℓ} :
    {V : Type ℓ} (k : Text) (v : V) (d : Dict V)
    → lookup k d ≡ none
    → insert k v d ≡ d ++ (k, v) ∷ []
unfolding insert lookup
insert_absent k v [] h = refl
insert_absent k v ((j, w) ∷ d) h = elim (Bool-cases (same k j)) [
  | inl hit ↦ cc (rw hit at h)
  | inr miss ↦ rw (miss, insert_absent k v d (rw miss at h)) refl
]

module _ ⦃c : Context⦄ where
  -- The position that a trade is restored as, where it has bounds of its own.
  abbrev pub entry_of : Trade → Text × OpenPosition
  entry_of t = (t.id, position_from t t.stop_loss t.take_profit)

  -- The positions of the open trades of a file, in its order.
  unfoldable pub restored_from : List Trade → Dict OpenPosition
  restored_from [] = []
  restored_from (t ∷ ts) =
      let rest = restored_from ts in if is_open t.status then entry_of t ∷ rest else rest

  pub restored_from-append_one :
      (ts : List Trade) (t : Trade)
      → is_open t.status ≡ true
      → restored_from (ts ++ t ∷ []) ≡ restored_from ts ++ entry_of t ∷ []
  unfolding restored_from
  restored_from-append_one [] t o = rw o refl
  restored_from-append_one (u ∷ ts) t o = elim (Bool-cases (is_open u.status)) [
    | inl is ↦ rw is (ap (λ d. entry_of u ∷ d) (restored_from-append_one ts t o))
    | inr settled ↦ rw settled (restored_from-append_one ts t o)
  ]

  -- An id that finds no trade has no position.
  pub lookup-restored_from_absent :
      (k : Text) (ts : List Trade) → find k ts ≡ none → lookup k (restored_from ts) ≡ none
  unfolding restored_from lookup find
  lookup-restored_from_absent k [] h = refl
  lookup-restored_from_absent k (t ∷ ts) h =
      ground (arith, lookup-restored_from_absent k ts, same_iff k t.id, same_iff t.id k)

  -- In a file with distinct ids, the position of an id is that of the trade it finds.
  pub lookup-restored_from :
      (k : Text) (ts : List Trade) (t : Trade)
      → HasDistinctIds ts
      → find k ts ≡ some t
      → lookup k (restored_from ts)
        ≡ (if is_open t.status then some (position_from t t.stop_loss t.take_profit) else none)
  unfolding restored_from lookup find
  lookup-restored_from k [] t d h = cc
  lookup-restored_from k (u ∷ ts) t d h = elim (Bool-cases (same u.id k)) [
    | inl hit ↦
        let is_k : u.id ≡ k = (same_iff u.id k).0 hit in
        let this : u ≡ t = ground (arith, rw hit at h) in
        let absent = lookup-restored_from_absent k ts (rw (← is_k) d.0) in
        rw (← this) (elim (Bool-cases (is_open u.status)) [
          | inl o ↦ rw (o, is_k, same_refl k) refl
          | inr settled ↦ rw settled absent
        ])
    | inr miss ↦ elim (Bool-cases (is_open u.status)) [
      | inl o ↦
          let other : same k u.id ≡ false = ground (arith, same_iff k u.id, same_iff u.id k) in
          rw (o, other) (lookup-restored_from k ts t d.1 (rw miss at h))
      | inr settled ↦ rw settled (lookup-restored_from k ts t d.1 (rw miss at h))
    ]
  ]

  -- Writing a settled trade back drops its position, and no other.
  pub restored_from-replace :
      (t : Trade) (ts : List Trade)
      → HasDistinctIds ts
      → is_open t.status ≡ false
      → restored_from (replace t ts) ≡ erase t.id (restored_from ts)
  unfolding restored_from replace erase
  restored_from-replace t [] d s = refl
  restored_from-replace t (u ∷ ts) d s = elim (Bool-cases (same u.id t.id)) [
    | inl hit ↦
        let is_t : u.id ≡ t.id = (same_iff u.id t.id).0 hit in
        let absent = lookup-restored_from_absent t.id ts (rw (← is_t) d.0) in
        let gone = sym (erase_absent t.id (restored_from ts) absent) in
        elim (Bool-cases (is_open u.status)) [
          | inl o ↦ rw (hit, s, o, is_t, same_refl t.id) gone
          | inr settled ↦ rw (hit, s, settled) gone
        ]
    | inr miss ↦
        let other : same t.id u.id ≡ false =
          ground (arith, same_iff t.id u.id, same_iff u.id t.id) in
        elim (Bool-cases (is_open u.status)) [
          | inl o ↦
              rw (miss, o, other) (ap (λ d. entry_of u ∷ d) (restored_from-replace t ts d.1 s))
          | inr settled ↦ rw (miss, settled) (restored_from-replace t ts d.1 s)
        ]
  ]

pub HasDistinctIds-append_one :
    (t : Trade) (ts : List Trade)
    → find t.id ts ≡ none
    → HasDistinctIds ts
    → HasDistinctIds (ts ++ t ∷ [])
unfolding find
HasDistinctIds-append_one t [] h d = (refl, tt)
HasDistinctIds-append_one t (u ∷ ts) h d = (
  ground (arith, find-append_one u.id t ts, same_iff u.id t.id, same_iff t.id u.id),
  HasDistinctIds-append_one t ts (ground arith) d.1,
)

pub HasDistinctIds-replace :
    (t : Trade) (ts : List Trade) → HasDistinctIds ts → HasDistinctIds (replace t ts)
unfolding find replace
HasDistinctIds-replace t [] d = tt
HasDistinctIds-replace t (u ∷ ts) d = elim (Bool-cases (same u.id t.id)) [
  | inl hit ↦ let is_t : u.id ≡ t.id = (same_iff u.id t.id).0 hit in rw hit (rw is_t at (d.0), d.1)
  | inr miss ↦ rw miss (
    ground (arith, find-replace u.id t ts, d.0, same_iff t.id u.id),
    HasDistinctIds-replace t ts d.1,
  )
]
