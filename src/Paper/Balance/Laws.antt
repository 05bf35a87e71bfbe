-- ===== src/Paper/Balance/Laws.antt =====
-- The methods of `PaperBalance` in src/trading/paper.py on every branch.
use crypto_master.Prelude.{◌≡◌, ◌⊎◌, arith, inl, inr}
use crypto_master.Prelude.Int.{pos, ◌+ℤ◌, ◌-ℤ◌, ◌≤ℤ◌, ◌<ℤ◌, ≤ℤ-or-lt, int_laws}
use crypto_master.Decimal.{Decimal, Context, add, sub, IsRepr}
use crypto_master.Decimal.Laws.{IsRounding, add-sub_cancel, sub-add_cancel, sub_nonneg, add_nonneg}
use crypto_master.Result.{Result, ok, err, ◌>>=◌, insufficient, lock_not_positive}
use crypto_master.Paper.Balance.{PaperBalance, lock, unlock, credit, deduct}

-- No amount is negative. The model forbids a negative `locked`; `free` is negative only after a
-- close that loses more than the account holds.
pub record IsSolvent (b : PaperBalance) : Type 0 where
  pub free_nonneg : pos 0 ≤ℤ b.free
  pub locked_nonneg : pos 0 ≤ℤ b.locked

-- What a method promises of the balance that it returns, from the one that it was given.
abbrev pub Ensures : (PaperBalance → Type 0) → Result PaperBalance → Type 0
Ensures P (ok b) = P b
Ensures P (err e) = Unit

module _ ⦃c : Context⦄ (amount : Decimal) (b : PaperBalance) where
  pub lock-of_free :
      pos 0 <ℤ amount
      → amount ≤ℤ b.free
      → lock amount b ≡ ok (record b { free = sub b.free amount; locked = add b.locked amount })
  unfolding lock
  lock-of_free h k = ground arith

  pub unlock-of_locked :
      pos 0 <ℤ amount
      → amount ≤ℤ b.locked
      → unlock amount b ≡ ok (record b { locked = sub b.locked amount; free = add b.free amount })
  unfolding unlock
  unlock-of_locked h k = ground arith

module _ ⦃c : Context⦄ (r : IsRounding c) where
  lock-IsSolvent : (a : Decimal) (b : PaperBalance) → IsSolvent b → Ensures IsSolvent (lock a b)
  unfolding lock
  lock-IsSolvent a b s =
      ground (arith, sub_nonneg r b.free a, add_nonneg r b.locked a s.locked_nonneg)

  unlock-IsSolvent : (a : Decimal) (b : PaperBalance) → IsSolvent b → Ensures IsSolvent (unlock a b)
  unfolding unlock
  unlock-IsSolvent a b s = ground (
    arith,
    sub_nonneg r b.locked a,
    add_nonneg r b.free a s.free_nonneg,
    add_nonneg r b.free b.locked s.free_nonneg s.locked_nonneg,
  )

  credit-IsSolvent : (a : Decimal) (b : PaperBalance) → IsSolvent b → Ensures IsSolvent (credit a b)
  unfolding credit
  credit-IsSolvent a b s = ground (arith, add_nonneg r b.free a s.free_nonneg)

  deduct-IsSolvent : (a : Decimal) (b : PaperBalance) → IsSolvent b → Ensures IsSolvent (deduct a b)
  unfolding deduct
  deduct-IsSolvent a b s = ground (arith, sub_nonneg r b.free a)

  -- No method takes a solvent balance below zero: what `lock`, `unlock`, `add` and `deduct` return
  -- is solvent again, under the rounding of the context.
  pub methods-IsSolvent :
      (amount : Decimal) (b : PaperBalance)
      → IsSolvent b
      → Ensures IsSolvent (lock amount b)
        × Ensures IsSolvent (unlock amount b)
        × Ensures IsSolvent (credit amount b)
        × Ensures IsSolvent (deduct amount b)
  methods-IsSolvent amount b s = (
    lock-IsSolvent amount b s,
    unlock-IsSolvent amount b s,
    credit-IsSolvent amount b s,
    deduct-IsSolvent amount b s,
  )

  -- Where a solvent balance has a positive amount free, locking it and unlocking it again gives
  -- the balance back, where its amounts and the two in between need no rounding.
  unlock-lock :
      (amount : Decimal) (b : PaperBalance)
      → IsSolvent b
      → IsRepr b.free
      → IsRepr b.locked
      → IsRepr (b.free -ℤ amount)
      → IsRepr (b.locked +ℤ amount)
      → pos 0 <ℤ amount
      → amount ≤ℤ b.free
      → (lock amount b >>= unlock amount) ≡ ok b
  unlock-lock amount b s hf hl below above h k =
      let locked_up : amount ≤ℤ add b.locked amount =
        unfold add in rw above (omega (int_laws, s.locked_nonneg)) in
      rw (
        lock-of_free amount b h k,
        unlock-of_locked amount
            (record b { free = sub b.free amount; locked = add b.locked amount }) h locked_up,
        add-sub_cancel b.free amount hf below,
        sub-add_cancel b.locked amount hl above,
      )

module _ ⦃c : Context⦄ where
  -- `lock` succeeds exactly where the amount is positive and free.
  pub lock-cases :
      (amount : Decimal) (b : PaperBalance)
      → ((pos 0 <ℤ amount)
          × (amount ≤ℤ b.free)
          × (lock amount b
              ≡ ok (record b { free = sub b.free amount; locked = add b.locked amount })))
        ⊎ ((amount ≤ℤ pos 0) × (lock amount b ≡ err lock_not_positive))
        ⊎ ((pos 0 <ℤ amount) × (b.free <ℤ amount) × (lock amount b ≡ err insufficient))
  unfolding lock
  lock-cases amount b = elim (≤ℤ-or-lt amount (pos 0)) [
    | inl low ↦ inr (inl (low, ground arith))
    | inr positive ↦ elim (≤ℤ-or-lt amount b.free) [
      | inl free ↦ inl (positive, free, ground arith)
      | inr short ↦ inr (inr (positive, short, ground arith))
    ]
  ]
