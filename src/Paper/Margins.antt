-- ===== src/Paper/Margins.antt =====
-- The margins that `_reconcile_locked_to_open_positions` of src/trading/paper.py adds up.
use crypto_master.Prelude.{
  ◌≡◌, subst, inl, inr, true, none, some, [], ◌∷◌, arith, if◌then◌else◌, Bool-cases, All,
}
use crypto_master.Prelude.Int.{pos, ◌≤ℤ◌, ◌<ℤ◌, int_laws}
use crypto_master.Text.{Text, same, same_refl}
use crypto_master.Dict.{Dict, lookup, insert, erase}
use crypto_master.Decimal.{Decimal, Context, add, IsRepr}
use crypto_master.Decimal.Laws.{IsRounding, le-add, add_nonneg, add-IsRepr, zero-IsRepr}
use crypto_master.Paper.State.{OpenPosition}
use crypto_master.Paper.Reconcile.{expected_from, expected_locked}

module _ ⦃c : Context⦄ where
  -- The margins are positive values of the context.
  abbrev pub AreMargins : Dict OpenPosition → Type 0
  AreMargins ps = All (λ e. (pos 0 <ℤ e.1.margin) × IsRepr e.1.margin) ps

  expected_from-insert_new :
      (k cur : Text) (o : OpenPosition) (acc : Decimal) (ps : Dict OpenPosition)
      → lookup k ps ≡ none
      → expected_from acc cur (insert k o ps) ≡ (
          if same cur o.quote_currency
          then add (expected_from acc cur ps) o.margin
          else expected_from acc cur ps)
  unfolding expected_from insert lookup
  expected_from-insert_new k cur o acc [] h = ground arith
  expected_from-insert_new k cur o acc ((j, p) ∷ ps) h = elim (Bool-cases (same k j)) [
    | inl hit ↦ cc (rw hit at h)
    | inr miss ↦ rw miss (
        expected_from-insert_new k cur o
          (if same cur p.quote_currency then add acc p.margin else acc) ps (rw miss at h))
  ]

  pub expected_locked-insert_new :
      (k cur : Text) (o : OpenPosition) (ps : Dict OpenPosition)
      → lookup k ps ≡ none
      → expected_locked cur (insert k o ps) ≡ (
          if same cur o.quote_currency
          then add (expected_locked cur ps) o.margin
          else expected_locked cur ps)
  unfolding expected_locked
  expected_locked-insert_new k cur o ps h = expected_from-insert_new k cur o (pos 0) ps h

  module _ (r : IsRounding c) where
    add-ge : (a m : Decimal) → IsRepr a → pos 0 ≤ℤ m → a ≤ℤ add a m
    add-ge a m h k = le-add r a m a h (omega int_laws)

    expected_from-ge :
        (acc : Decimal) (cur : Text) (ps : Dict OpenPosition)
        → IsRepr acc
        → AreMargins ps
        → acc ≤ℤ expected_from acc cur ps
    unfolding expected_from
    expected_from-ge acc cur [] h m = omega arith
    expected_from-ge acc cur ((k, o) ∷ ps) h m = elim (Bool-cases (same cur o.quote_currency)) [
      | inr other ↦ rw other (expected_from-ge acc cur ps h m.1)
      | inl hit ↦
          let rest = expected_from-ge (add acc o.margin) cur ps (add-IsRepr r acc o.margin) m.1 in
          let up = add-ge acc o.margin h (omega arith) in rw hit (omega arith)
    ]

    counted_nonneg :
        (acc : Decimal) (cur : Text) (p : OpenPosition)
        → pos 0 ≤ℤ acc
        → (pos 0 <ℤ p.margin) × IsRepr p.margin
        → pos 0 ≤ℤ (if same cur p.quote_currency then add acc p.margin else acc)
    counted_nonneg acc cur p h m = ground (arith, add_nonneg r acc p.margin h (omega arith))

    margin-le-expected_from :
        (acc : Decimal) (cur k : Text) (o : OpenPosition) (ps : Dict OpenPosition)
        → pos 0 ≤ℤ acc
        → AreMargins ps
        → lookup k ps ≡ some o
        → same cur o.quote_currency ≡ true
        → o.margin ≤ℤ expected_from acc cur ps
    unfolding expected_from lookup
    margin-le-expected_from acc cur k o [] h m e q = cc
    margin-le-expected_from acc cur k o ((j, p) ∷ ps) h m e q = elim (Bool-cases (same k j)) [
      | inr miss ↦
          margin-le-expected_from (if same cur p.quote_currency then add acc p.margin else acc) cur
            k o ps (counted_nonneg acc cur p h m.0) m.1 (rw miss at e) q
      | inl hit ↦
          let this : p ≡ o = ground (arith, rw hit at e) in
          let q' : same cur p.quote_currency ≡ true = rw this q in
          let first : p.margin ≤ℤ add acc p.margin =
            le-add r acc p.margin p.margin m.0.1 (omega int_laws) in
          let rest : add acc p.margin ≤ℤ expected_from (add acc p.margin) cur ps =
            expected_from-ge (add acc p.margin) cur ps (add-IsRepr r acc p.margin) m.1 in
          subst (λ (z : OpenPosition). z.margin ≤ℤ expected_from acc cur ((j, p) ∷ ps)) this
            (unfold expected_from in rw q' (omega arith))
    ]

    pub expected_locked_nonneg :
        (cur : Text) (ps : Dict OpenPosition) → AreMargins ps → pos 0 ≤ℤ expected_locked cur ps
    unfolding expected_locked
    expected_locked_nonneg cur ps m = expected_from-ge (pos 0) cur ps (zero-IsRepr r) m

    -- The margin of an open position is at most what its currency should have locked.
    pub margin-le-expected_locked :
        (k : Text) (o : OpenPosition) (ps : Dict OpenPosition)
        → AreMargins ps
        → lookup k ps ≡ some o
        → o.margin ≤ℤ expected_locked o.quote_currency ps
    unfolding expected_locked
    margin-le-expected_locked k o ps m e =
        margin-le-expected_from (pos 0) o.quote_currency k o ps (omega arith) m e
          (same_refl o.quote_currency)

  pub margin-pos :
      (k : Text) (o : OpenPosition) (ps : Dict OpenPosition)
      → AreMargins ps
      → lookup k ps ≡ some o
      → pos 0 <ℤ o.margin
  unfolding lookup
  margin-pos k o [] m e = cc
  margin-pos k o ((j, p) ∷ ps) m e = elim (Bool-cases (same k j)) [
    | inl hit ↦ let this : p ≡ o = ground (arith, rw hit at e) in rw (← this) m.0.0
    | inr miss ↦ margin-pos k o ps m.1 (rw miss at e)
  ]

  pub AreMargins-erase :
      (k : Text) (ps : Dict OpenPosition) → AreMargins ps → AreMargins (erase k ps)
  unfolding erase
  AreMargins-erase k [] m = tt
  AreMargins-erase k ((j, p) ∷ ps) m = elim (Bool-cases (same k j)) [
    | inl hit ↦ rw hit (AreMargins-erase k ps m.1)
    | inr miss ↦ rw miss (m.0, AreMargins-erase k ps m.1)
  ]

  pub AreMargins-insert :
      (k : Text) (o : OpenPosition) (ps : Dict OpenPosition)
      → (pos 0 <ℤ o.margin) × IsRepr o.margin
      → AreMargins ps
      → AreMargins (insert k o ps)
  unfolding insert
  AreMargins-insert k o [] h m = (h, tt)
  AreMargins-insert k o ((j, p) ∷ ps) h m = elim (Bool-cases (same k j)) [
    | inl hit ↦ rw hit (h, m.1)
    | inr miss ↦ rw miss (m.0, AreMargins-insert k o ps h m.1)
  ]
