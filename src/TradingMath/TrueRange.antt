-- ===== src/TradingMath/TrueRange.antt =====
-- The average true range of src/utils/trading_math.py (`compute_atr`).
use crypto_master.Prelude.{
  ℕ, zero, suc, ◌+◌, ◌≤◌, ◌≡◌, refl, List, [], ◌∷◌, arith, length, take, drop, All, ltb, Bool-cases,
  ◌⊎◌, inl, inr,
}
use crypto_master.Prelude.Int.{pos, negsuc, ◌≤ℤ◌}
use crypto_master.Decimal.{Decimal, Context, add, sub, mul, div, abs, max, sum, literal}
use crypto_master.Decimal.Laws.{
  IsRounding, abs_nonneg, add_nonneg, mul_nonneg, div_nonneg, sub_nonneg, max-ge_right,
}
use crypto_master.TradingMath.{
  Candle, bad_period, too_few, average, true_range, true_ranges, smooth, wilder, compute_atr,
}

abbrev pub IsNonneg : Decimal → Type 0
IsNonneg a = pos 0 ≤ℤ a

take-All : (n : ℕ) (xs : List Decimal) → All IsNonneg xs → All IsNonneg (take n xs)
take-All zero xs h = tt
take-All (suc n) [] h = tt
take-All (suc n) (x ∷ xs) h = (h.0, take-All n xs h.1)

drop-All : (n : ℕ) (xs : List Decimal) → All IsNonneg xs → All IsNonneg (drop n xs)
drop-All zero xs h = h
drop-All (suc n) [] h = tt
drop-All (suc n) (x ∷ xs) h = drop-All n xs h.1

module _ ⦃c : Context⦄ (r : IsRounding c) where
  true_range-IsNonneg : (p : Decimal) (k : Candle) → IsNonneg (true_range p k)
  unfolding true_range
  true_range-IsNonneg p k =
      let a : pos 0 ≤ℤ abs (sub k.low p) = abs_nonneg r _ in
      let b : abs (sub k.low p)
          ≤ℤ max (max (sub k.high k.low) (abs (sub k.high p))) (abs (sub k.low p)) =
        max-ge_right _ _ in
      omega arith

  true_ranges-IsNonneg : (p : Decimal) (ks : List Candle) → All IsNonneg (true_ranges p ks)
  unfolding true_ranges
  true_ranges-IsNonneg p [] = tt
  true_ranges-IsNonneg p (k ∷ ks) = (true_range-IsNonneg p k, true_ranges-IsNonneg k.close ks)

  sum-IsNonneg :
      (a : Decimal) (xs : List Decimal) → IsNonneg a → All IsNonneg xs → IsNonneg (sum a xs)
  unfolding sum
  sum-IsNonneg a [] h k = h
  sum-IsNonneg a (x ∷ xs) h k = sum-IsNonneg (add a x) xs (add_nonneg r a x h k.0) k.1

  smooth-IsNonneg :
      (p a : Decimal) (xs : List Decimal)
      → literal 1 1 ≤ℤ p
      → IsNonneg a
      → All IsNonneg xs
      → IsNonneg (smooth p a xs)
  unfolding smooth
  smooth-IsNonneg p a [] hp h k = h
  smooth-IsNonneg p a (x ∷ xs) hp h k =
      let weight : pos 0 ≤ℤ sub p (literal 1 1) = sub_nonneg r p (literal 1 1) hp in
      let kept : pos 0 ≤ℤ mul a (sub p (literal 1 1)) = mul_nonneg r a _ h weight in
      smooth-IsNonneg p (div (add (mul a (sub p (literal 1 1))) x) p) xs hp
        (div_nonneg r _ p (add_nonneg r _ x kept k.0) (omega arith)) k.1

  wilder_cases :
      (n : ℕ) (ks : List Candle)
      → ((length ks ≤ suc n) × (wilder (suc n) ks ≡ too_few))
        ⊎ ((a : Decimal) × (suc n + 1 ≤ length ks) × (wilder (suc n) ks ≡ average a) × IsNonneg a)
  unfolding wilder
  wilder_cases n [] = inl (omega arith, refl)
  wilder_cases n (k ∷ ks) =
      let trs = true_ranges k.close ks in
      let p : Decimal = literal (suc n) 1 in
      let nn : All IsNonneg trs = true_ranges-IsNonneg k.close ks in
      let start : IsNonneg (div (sum (pos 0) (take (suc n) trs)) p) =
        div_nonneg r _ p (sum-IsNonneg (pos 0) _ (omega arith) (take-All (suc n) trs nn))
          (omega arith) in
      elim (Bool-cases (ltb (length (k ∷ ks)) (suc n + 1))) [
        | inl few ↦ inl (ground arith, rw few)
        | inr many ↦ inr (
          _,
          ground arith,
          rw many,
          smooth-IsNonneg p _ (drop (suc n) trs) (ground arith) start (drop-All (suc n) trs nn),
        )
      ]

  -- A period of zero or less is refused. For a positive period there is no average where the
  -- candles are at most as many as the period; with one candle more the average is there, and it is
  -- never negative, whatever the candles hold (a high below its low included).
  pub compute_atr_cases :
      (ks : List Candle) (n : ℕ)
      → (compute_atr ks (pos zero) ≡ bad_period)
        × (compute_atr ks (negsuc n) ≡ bad_period)
        × (((length ks ≤ suc n) × (compute_atr ks (pos (suc n)) ≡ too_few))
            ⊎ ((a : Decimal) × (suc n + 1 ≤ length ks)
                × (compute_atr ks (pos (suc n)) ≡ average a)
                × (pos 0 ≤ℤ a)))
  unfolding compute_atr
  compute_atr_cases ks n = (refl, refl, wilder_cases n ks)
