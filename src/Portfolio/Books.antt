-- ===== src/Portfolio/Books.antt =====
-- Sums over the trades of a file, for the realised profit of src/trading/portfolio.py.
use crypto_master.Prelude.{
  ◌≡◌, refl, ap, ◌∙◌, inl, inr, Bool, true, false, Option, none, some, List, [], ◌∷◌, ◌++◌, arith,
  if◌then◌else◌, Bool-cases,
}
use crypto_master.Prelude.Int.{ℤ, pos, ◌+ℤ◌, int_laws}
use crypto_master.Text.{same}
use crypto_master.Decimal.{Decimal, Context}
use crypto_master.Decimal.Laws.{IsExact, add_exact}
use crypto_master.Tracker.{
  Status, opened, closed, cancelled, paper, Trade, Store, is_open, find, replace, load_trades,
}
use crypto_master.Portfolio.{
  is_closed, get_decimal, plus_pnl, realized_from, calculate_realized_pnl,
}

-- The sum of a weight of the trades.
abbrev pub weigh : (Trade → ℤ) → List Trade → ℤ
weigh w [] = pos 0
weigh w (t ∷ ts) = w t +ℤ weigh w ts

pub weigh-append_one :
    (w : Trade → ℤ) (ts : List Trade) (t : Trade) → weigh w (ts ++ t ∷ []) ≡ weigh w ts +ℤ w t
weigh-append_one w [] t = omega int_laws
weigh-append_one w (u ∷ ts) t = rw (weigh-append_one w ts t) (omega int_laws)

shift : (t a b a' b' : ℤ) → a +ℤ b ≡ a' +ℤ b' → (t +ℤ a) +ℤ b ≡ (t +ℤ a') +ℤ b'
shift t a b a' b' h =
    let regroup : (t +ℤ a) +ℤ b ≡ t +ℤ (a +ℤ b) = omega int_laws in
    let back : t +ℤ (a' +ℤ b') ≡ (t +ℤ a') +ℤ b' = omega int_laws in
    regroup ∙ ap (λ n. t +ℤ n) h ∙ back

-- Writing a trade back changes its own weight only.
pub weigh-replace :
    (w : Trade → ℤ) (ts : List Trade) (old new : Trade)
    → find new.id ts ≡ some old
    → weigh w (replace new ts) +ℤ w old ≡ weigh w ts +ℤ w new
unfolding find replace
weigh-replace w [] old new e = cc
weigh-replace w (t ∷ ts) old new e = elim (Bool-cases (same t.id new.id)) [
  | inl hit ↦ let this : t ≡ old = ground (arith, rw hit at e) in rw (hit, this) (omega int_laws)
  | inr miss ↦ rw miss (shift (w t) _ _ _ _ (weigh-replace w ts old new (rw miss at e)))
]

-- What a trade adds to the realised profit, and to the fees of the open positions.
abbrev pub gain : Trade → Decimal
gain t = if is_closed t.status then get_decimal t.pnl else pos 0

abbrev pub open_fee : Trade → Decimal
open_fee t = if is_open t.status then t.fees else pos 0

pub gain-of_open : (t : Trade) → is_open t.status ≡ true → gain t ≡ pos 0
gain-of_open t o = not_closed t.status o
  where
    not_closed :
        (st : Status)
        → is_open st ≡ true
        → (if is_closed st then get_decimal t.pnl else pos 0) ≡ pos 0
    not_closed opened h = refl
    not_closed closed h = cc
    not_closed cancelled h = refl

module _ ⦃c : Context⦄ (x : IsExact c) where
  plus_pnl-exact :
      (b : Bool) (pnl : Option Decimal) (total : Decimal)
      → plus_pnl b pnl total ≡ total +ℤ (if b then get_decimal pnl else pos 0)
  plus_pnl-exact false pnl total = omega int_laws
  plus_pnl-exact true none total = omega int_laws
  plus_pnl-exact true (some pnl) total = add_exact x total pnl

  realized_from-eq-weigh :
      (total : Decimal) (ts : List Trade) → realized_from total ts ≡ total +ℤ weigh gain ts
  unfolding realized_from
  realized_from-eq-weigh total [] = omega int_laws
  realized_from-eq-weigh total (t ∷ ts) =
      realized_from-eq-weigh (plus_pnl (is_closed t.status) t.pnl total) ts
      ∙ rw (plus_pnl-exact (is_closed t.status) t.pnl total) (omega int_laws)

  pub calculate_realized_pnl-eq-weigh :
      (s : Store) → calculate_realized_pnl paper s ≡ weigh gain s.paper_trades
  unfolding calculate_realized_pnl load_trades
  calculate_realized_pnl-eq-weigh s = realized_from-eq-weigh (pos 0) s.paper_trades ∙ omega int_laws
