-- ===== src/Text.antt =====
-- Python's `str` as the sequence of its code points.
use Prim.Native.Char.{code}
use Prim.Native.String.{String}
use crypto_master.Prelude.{
  ℕ, ◌≡◌, refl, ◌↔◌, Bool, true, false, ◌&&◌, List, [], ◌∷◌, arith, ◌==◌, ==_iff,
}

abbrev pub Text : Type 0
Text = List ℕ

-- The code points of a literal.
abbrev pub text : String → Text
text String.[] = []
text (String.◌∷◌ c s) = code c ∷ text s

-- `s == t`
unfoldable pub same : Text → Text → Bool
same [] [] = true
same [] (_ ∷ _) = false
same (_ ∷ _) [] = false
same (c ∷ s) (d ∷ t) = c == d && same s t

pub same_iff : (s t : Text) → (same s t ≡ true) ↔ (s ≡ t)
unfolding same
same_iff [] [] = (λ _. refl, λ _. refl)
same_iff [] (_ ∷ _) = (λ e. cc, λ e. cc)
same_iff (_ ∷ _) [] = (λ e. cc, λ e. cc)
same_iff (c ∷ s) (d ∷ t) = ground (arith, same_iff s t, ==_iff c d)

pub same_refl : (s : Text) → same s s ≡ true
same_refl s = (same_iff s s).1 refl
