-- ===== src/TradingMath/Floor.antt =====
-- The stop floor of src/utils/trading_math.py (`enforce_sl_floor`).
use crypto_master.Prelude.{◌≡◌, Option, none, some, arith, Bool-cases, inl, inr}
use crypto_master.Prelude.Int.{pos, ◌+ℤ◌, ◌-ℤ◌, ◌≤ℤ◌, ◌<ℤ◌, int_laws, abs_ℤ-neg, abs_ℤ-of_nonneg}
use crypto_master.Text.{Text}
use crypto_master.Dict.{lookup}
use crypto_master.Decimal.{Decimal, Context, add, sub, mul, abs, le, IsRepr, max}
use crypto_master.Decimal.Laws.{
  IsRounding, mul_nonneg, lt-of-sub-lt, sub-le, le-add, le-abs, sub-IsRepr, max-IsRepr, mul-IsRepr,
  zero-IsRepr, max-ge_left, max-ge_right, abs-sub_comm,
}
use crypto_master.TradingTypes.{TradeSide}
use crypto_master.TradingMath.{
  tf_pct, tf_floor_distance, atr_floor_distance, floor_distance, widened, enforce_sl_floor,
}

-- The stop lies on the losing side of the entry.
abbrev pub IsStopSide : TradeSide → Decimal → Decimal → Type 0
IsStopSide TradeSide.long entry stop = stop ≤ℤ entry
IsStopSide TradeSide.short entry stop = entry ≤ℤ stop

-- The first stop is at least as far out as the second.
abbrev pub IsWider : TradeSide → Decimal → Decimal → Type 0
IsWider TradeSide.long a b = a ≤ℤ b
IsWider TradeSide.short a b = b ≤ℤ a

IsWider-refl : (side : TradeSide) (a : Decimal) → IsWider side a a
IsWider-refl TradeSide.long a = omega arith
IsWider-refl TradeSide.short a = omega arith

tf_pct_nonneg : ⦃c : Context⦄ (tf : Text) → pos 0 ≤ℤ tf_pct tf
unfolding tf_pct lookup
tf_pct_nonneg tf = ground arith

module _ ⦃c : Context⦄ (r : IsRounding c) where
  floor_distance-IsRepr :
      (entry : Decimal) (tf : Text) (atr : Option Decimal) → IsRepr (floor_distance entry tf atr)
  unfolding floor_distance tf_floor_distance atr_floor_distance
  floor_distance-IsRepr entry tf none = max-IsRepr r _ _ (mul-IsRepr r _ _) (zero-IsRepr r)
  floor_distance-IsRepr entry tf (some atr) = max-IsRepr r _ _ (mul-IsRepr r _ _) (mul-IsRepr r _ _)

  widened-IsWider :
      (side : TradeSide) (entry stop floor : Decimal)
      → IsRepr stop
      → IsRepr floor
      → abs (sub entry stop) <ℤ floor
      → IsWider side (widened side entry floor) stop
  unfolding widened
  widened-IsWider TradeSide.long entry stop floor hs hf short_of =
      let near : sub entry stop ≤ℤ abs (sub entry stop) = le-abs r _ (sub-IsRepr r entry stop) in
      let gap : entry -ℤ stop <ℤ floor = lt-of-sub-lt r entry stop floor hf (omega arith) in
      sub-le r entry floor stop hs (omega int_laws)
  widened-IsWider TradeSide.short entry stop floor hs hf short_of =
      let near : sub stop entry ≤ℤ abs (sub entry stop) =
        rw (abs-sub_comm r entry stop) (le-abs r _ (sub-IsRepr r stop entry)) in
      let gap : stop -ℤ entry <ℤ floor = lt-of-sub-lt r stop entry floor hf (omega arith) in
      le-add r entry floor stop hs (omega int_laws)

  -- The floor never tightens a stop: the stop that comes back is at least as far out as the one
  -- given, for longs and for shorts, whatever the timeframe and the average true range.
  pub enforce_sl_floor_never_tightens :
      (side : TradeSide) (entry stop : Decimal) (tf : Text) (atr : Option Decimal)
      → IsRepr stop
      → IsWider side (enforce_sl_floor side entry stop tf atr) stop
  unfolding enforce_sl_floor
  enforce_sl_floor_never_tightens side entry stop tf atr hs =
      let floor = floor_distance entry tf atr in
      elim (Bool-cases (le floor (abs (sub entry stop)))) [
        | inl far ↦ rw far (IsWider-refl side stop)
        | inr near ↦ rw near (
            widened-IsWider side entry stop floor hs (floor_distance-IsRepr entry tf atr)
              (ground arith))
      ]

  distance-widened :
      (side : TradeSide) (entry floor : Decimal)
      → IsRepr floor
      → pos 0 ≤ℤ floor
      → IsRepr (entry -ℤ floor)
      → IsRepr (entry +ℤ floor)
      → abs (sub entry (widened side entry floor)) ≡ floor
  unfolding widened abs sub add
  distance-widened TradeSide.long entry floor hf h below above =
      let back : entry -ℤ (entry -ℤ floor) ≡ floor = omega int_laws in
      rw (below, sub, back, hf, abs, abs_ℤ-of_nonneg floor h) hf
  distance-widened TradeSide.short entry floor hf h below above =
      let back : entry -ℤ (entry +ℤ floor) ≡ pos 0 -ℤ floor = omega int_laws in
      rw (above, sub, back, r.round_neg floor 1, hf, abs, abs_ℤ-neg floor, abs_ℤ-of_nonneg floor h)
        hf

  floor_distance_nonneg :
      (entry : Decimal) (tf : Text) (atr : Option Decimal)
      → pos 0 ≤ℤ entry
      → pos 0 ≤ℤ floor_distance entry tf atr
  unfolding floor_distance tf_floor_distance
  floor_distance_nonneg entry tf atr h =
      let low : pos 0 ≤ℤ mul entry (tf_pct tf) =
        mul_nonneg r entry (tf_pct tf) h (tf_pct_nonneg tf) in
      let top : mul entry (tf_pct tf) ≤ℤ max (mul entry (tf_pct tf)) (atr_floor_distance atr) =
        max-ge_left _ _ in
      omega arith

  enforce_sl_floor-distance :
      (side : TradeSide) (entry stop : Decimal) (tf : Text) (atr : Option Decimal)
      → pos 0 ≤ℤ entry
      → IsRepr (entry -ℤ floor_distance entry tf atr)
      → IsRepr (entry +ℤ floor_distance entry tf atr)
      → floor_distance entry tf atr ≤ℤ abs (sub entry (enforce_sl_floor side entry stop tf atr))
  unfolding enforce_sl_floor
  enforce_sl_floor-distance side entry stop tf atr h below above =
      let floor = floor_distance entry tf atr in
      elim (Bool-cases (le floor (abs (sub entry stop)))) [
        | inl far ↦ rw far (ground arith)
        | inr near ↦
            rw
              (
                near,
                distance-widened side entry floor (floor_distance-IsRepr entry tf atr)
                    (floor_distance_nonneg entry tf atr h) below above,
              )
              (omega arith)
      ]

  enforce_sl_floor-of_far :
      (side : TradeSide) (entry stop : Decimal) (tf : Text) (atr : Option Decimal)
      → floor_distance entry tf atr ≤ℤ abs (sub entry stop)
      → enforce_sl_floor side entry stop tf atr ≡ stop
  unfolding enforce_sl_floor
  enforce_sl_floor-of_far side entry stop tf atr h = ground arith

  -- Where the widened stop needs no rounding, the stop that comes back is at least as far from a
  -- nonnegative entry as both floors ask, and enforcing the floor once more changes nothing.
  pub enforce_sl_floor_meets_floor :
      (side : TradeSide) (entry stop : Decimal) (tf : Text) (atr : Option Decimal)
      → pos 0 ≤ℤ entry
      → IsRepr (entry -ℤ floor_distance entry tf atr)
      → IsRepr (entry +ℤ floor_distance entry tf atr)
      → let result = enforce_sl_floor side entry stop tf atr in
        (tf_floor_distance entry tf ≤ℤ abs (sub entry result))
        × (atr_floor_distance atr ≤ℤ abs (sub entry result))
        × (enforce_sl_floor side entry result tf atr ≡ result)
  enforce_sl_floor_meets_floor side entry stop tf atr h below above =
      let result = enforce_sl_floor side entry stop tf atr in
      let met = enforce_sl_floor-distance side entry stop tf atr h below above in
      let left : tf_floor_distance entry tf ≤ℤ floor_distance entry tf atr =
        unfold floor_distance in max-ge_left _ _ in
      let right : atr_floor_distance atr ≤ℤ floor_distance entry tf atr =
        unfold floor_distance in max-ge_right _ _ in
      (omega arith, omega arith, enforce_sl_floor-of_far side entry result tf atr met)
