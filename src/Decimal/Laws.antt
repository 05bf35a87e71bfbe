-- ===== src/Decimal/Laws.antt =====
-- What the program relies on of a decimal context: rounding keeps order and zero, and a rounded
-- value is a value, and rounding is symmetric in the sign. Rounding half to even at a fixed number of digits has these laws.
use crypto_master.Prelude.{◌∙◌, ap, sym, ℕ, suc, ◌≤◌, ◌≡◌, arith, inl, inr}
use crypto_master.Prelude.Int.{
  ℤ, pos, negsuc, ◌+ℤ◌, ◌-ℤ◌, ◌≤ℤ◌, ◌<ℤ◌, abs_ℤ-neg, int_laws, *ℤ_mono, *ℤ_nonneg, ≤ℤ-or-lt,
}
use crypto_master.Decimal.{Decimal, Context, add, sub, mul, div, abs, IsRepr, max}

pub record IsRounding (c : Context) : Type 0 where
  pub unit_pos : 1 ≤ c.unit
  pub round_mono : (m n : ℤ) (d : ℕ) → m ≤ℤ n → c.round m d ≤ℤ c.round n d
  pub round_zero : (d : ℕ) → c.round (pos 0) d ≡ pos 0
  pub round_neg : (n : ℤ) (d : ℕ) → c.round (pos 0 -ℤ n) d ≡ pos 0 -ℤ c.round n d
  pub round_again : (n : ℤ) (d : ℕ) → c.round (c.round n d) 1 ≡ c.round n d

-- No sum or difference needs more digits than the context has, so that none is rounded.
pub record IsExact (c : Context) : Type 0 where
  pub exact : (n : ℤ) → c.round n 1 ≡ n

module _ ⦃c : Context⦄ (r : IsRounding c) where
  pub mul-IsRepr : (a b : Decimal) → IsRepr (mul a b)
  unfolding mul
  mul-IsRepr a b = r.round_again _ _

  pub round_nonneg : (n : ℤ) (d : ℕ) → pos 0 ≤ℤ n → pos 0 ≤ℤ c.round n d
  round_nonneg n d h = rw (r.round_zero d) at (r.round_mono (pos 0) n d h)

  pub mul_nonneg : (a b : Decimal) → pos 0 ≤ℤ a → pos 0 ≤ℤ b → pos 0 ≤ℤ mul a b
  unfolding mul
  mul_nonneg a b h k = round_nonneg _ _ (*ℤ_nonneg a b h k)

  pub mul_mono : (a b x : Decimal) → pos 0 ≤ℤ x → a ≤ℤ b → mul a x ≤ℤ mul b x
  unfolding mul
  mul_mono a b x h k = r.round_mono _ _ _ (*ℤ_mono a b x h k)

  pub abs_nonneg : (a : Decimal) → pos 0 ≤ℤ abs a
  unfolding abs
  abs_nonneg (pos a) = round_nonneg _ _ (omega arith)
  abs_nonneg (negsuc a) = round_nonneg _ _ (omega arith)

  pub sub_nonneg : (a b : Decimal) → b ≤ℤ a → pos 0 ≤ℤ sub a b
  unfolding sub
  sub_nonneg a b h = round_nonneg _ _ (omega int_laws)

  -- A rounded difference below a value of the context is below it before the rounding too.
  pub lt-of-sub-lt : (a b x : Decimal) → IsRepr x → sub a b <ℤ x → a -ℤ b <ℤ x
  unfolding sub
  lt-of-sub-lt a b x e h = elim (≤ℤ-or-lt x (a -ℤ b)) [
    | inl k ↦ absurd (omega (arith, rw e at (r.round_mono x (a -ℤ b) 1 k)))
    | inr k ↦ k
  ]

  -- Rounding keeps a bound by a value of the context.
  pub sub-le : (a b x : Decimal) → IsRepr x → a -ℤ b ≤ℤ x → sub a b ≤ℤ x
  unfolding sub
  sub-le a b x e h = rw e at (r.round_mono (a -ℤ b) x 1 h)

  pub le-sub : (a b x : Decimal) → IsRepr x → x ≤ℤ a -ℤ b → x ≤ℤ sub a b
  unfolding sub
  le-sub a b x e h = rw e at (r.round_mono x (a -ℤ b) 1 h)

  pub add-le : (a b x : Decimal) → IsRepr x → a +ℤ b ≤ℤ x → add a b ≤ℤ x
  unfolding add
  add-le a b x e h = rw e at (r.round_mono (a +ℤ b) x 1 h)

  pub le-add : (a b x : Decimal) → IsRepr x → x ≤ℤ a +ℤ b → x ≤ℤ add a b
  unfolding add
  le-add a b x e h = rw e at (r.round_mono x (a +ℤ b) 1 h)

  pub div_nonneg : (a b : Decimal) → pos 0 ≤ℤ a → pos 0 ≤ℤ b → pos 0 ≤ℤ div a b
  unfolding div
  div_nonneg a (pos b) h k = round_nonneg _ _ (*ℤ_nonneg a (pos c.unit) h (omega arith))
  div_nonneg a (negsuc b) h k = absurd (omega arith)

  pub add_nonneg : (a b : Decimal) → pos 0 ≤ℤ a → pos 0 ≤ℤ b → pos 0 ≤ℤ add a b
  unfolding add
  add_nonneg a b h k = round_nonneg _ _ (omega int_laws)

  pub sub-IsRepr : (a b : Decimal) → IsRepr (sub a b)
  unfolding sub
  sub-IsRepr a b = r.round_again _ _

  pub add-IsRepr : (a b : Decimal) → IsRepr (add a b)
  unfolding add
  add-IsRepr a b = r.round_again _ _

  pub div-IsRepr : (a b : Decimal) → IsRepr (div a b)
  unfolding div
  div-IsRepr a (pos b) = r.round_again _ _
  div-IsRepr a (negsuc b) = r.round_again _ _

  pub zero-IsRepr : IsRepr (pos 0)
  zero-IsRepr = r.round_zero 1

  pub max-IsRepr : (a b : Decimal) → IsRepr a → IsRepr b → IsRepr (max a b)
  unfolding max
  max-IsRepr a b h k = ground arith

  -- A value of the context is at most its absolute value.
  pub le-abs : (a : Decimal) → IsRepr a → a ≤ℤ abs a
  unfolding abs
  le-abs (pos a) h = rw h (omega arith)
  le-abs (negsuc a) h = rw h at (r.round_mono (negsuc a) (pos (suc a)) 1 (omega arith))

  -- The absolute value of a difference is the same both ways round.
  pub abs-sub_comm : (a b : Decimal) → abs (sub a b) ≡ abs (sub b a)
  unfolding abs sub
  abs-sub_comm a b =
      let flip : c.round (b -ℤ a) 1 ≡ pos 0 -ℤ c.round (a -ℤ b) 1 =
        rw (← r.round_neg (a -ℤ b) 1) (ap (λ n. c.round n 1) (omega int_laws)) in
      rw flip (ap (λ n. c.round n 1) (sym (abs_ℤ-neg (c.round (a -ℤ b) 1))))

pub max-ge_left : (a b : Decimal) → a ≤ℤ max a b
unfolding max
max-ge_left a b = ground arith

pub max-ge_right : (a b : Decimal) → b ≤ℤ max a b
unfolding max
max-ge_right a b = ground arith

module _ ⦃c : Context⦄ where
  -- A difference that needs no rounding is undone by the sum, and the other way round.
  pub add-sub_cancel : (a x : Decimal) → IsRepr a → IsRepr (a -ℤ x) → add (sub a x) x ≡ a
  unfolding add sub
  add-sub_cancel a x h below =
      ap (λ n. c.round (n +ℤ x) 1) below ∙ ap (λ n. c.round n 1) (omega int_laws) ∙ h

  pub sub-add_cancel : (a x : Decimal) → IsRepr a → IsRepr (a +ℤ x) → sub (add a x) x ≡ a
  unfolding add sub
  sub-add_cancel a x h above =
      ap (λ n. c.round (n -ℤ x) 1) above ∙ ap (λ n. c.round n 1) (omega int_laws) ∙ h

module _ ⦃c : Context⦄ (x : IsExact c) where
  pub add_exact : (a b : Decimal) → add a b ≡ a +ℤ b
  unfolding add
  add_exact a b = x.exact (a +ℤ b)

  pub sub_exact : (a b : Decimal) → sub a b ≡ a -ℤ b
  unfolding sub
  sub_exact a b = x.exact (a -ℤ b)
