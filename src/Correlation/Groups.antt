-- ===== src/Correlation/Groups.antt =====
-- Grouping and sorting as src/runtime/correlation_governor.py does with a dict and `sorted`.
use crypto_master.Prelude.{
  suc, ◌≡◌, refl, ap, sym, ◌∙◌, ◌↔◌, inl, inr, Bool, true, false, ◌&&◌, ◌||◌, List, [], ◌∷◌, ◌++◌,
  keep, length, arith, ltb, ◌==◌, if◌then◌else◌, Bool-cases,
}
use mathlib.Core.List.{append-nil, append_assoc}
use crypto_master.Text.{Text, same}
use crypto_master.Correlation.Exposures.{CorrelationExposure}

abbrev pub any_of {ℓ} : {A : Type ℓ} → (A → Bool) → List A → Bool
any_of p [] = false
any_of p (x ∷ xs) = p x || any_of p xs

-- Python's order on `str`: by code points, a prefix first.
unfoldable pub before : Text → Text → Bool
before s [] = false
before [] (d ∷ t) = true
before (c ∷ s) (d ∷ t) = let rest = before s t in if ltb c d then true else c == d && rest

-- `sorted`, by a strict order.
module _ {ℓ} {A : Type ℓ} (less : A → A → Bool) where
  unfoldable pub insert_sorted : A → List A → List A
  insert_sorted x [] = x ∷ []
  insert_sorted x (y ∷ ys) =
      let rest = insert_sorted x ys in if less y x then y ∷ rest else x ∷ y ∷ ys

  unfoldable pub sorted : List A → List A
  unfolding insert_sorted
  sorted [] = []
  sorted (x ∷ xs) = insert_sorted x (sorted xs)

  any_of-insert_sorted :
      (p : A → Bool) (x : A) (ys : List A) → any_of p (insert_sorted x ys) ≡ (p x || any_of p ys)
  unfolding insert_sorted
  any_of-insert_sorted p x [] = refl
  any_of-insert_sorted p x (y ∷ ys) = ground (arith, any_of-insert_sorted p x ys)

  pub any_of-sorted : (p : A → Bool) (xs : List A) → any_of p (sorted xs) ≡ any_of p xs
  unfolding sorted
  any_of-sorted p [] = refl
  any_of-sorted p (x ∷ xs) =
      any_of-insert_sorted p x (sorted xs) ∙ ap (λ b. p x || b) (any_of-sorted p xs)

  length-insert_sorted : (x : A) (ys : List A) → length (insert_sorted x ys) ≡ suc (length ys)
  unfolding insert_sorted
  length-insert_sorted x [] = refl
  length-insert_sorted x (y ∷ ys) = ground (arith, length-insert_sorted x ys)

  pub length-sorted : (xs : List A) → length (sorted xs) ≡ length xs
  unfolding sorted
  length-sorted [] = refl
  length-sorted (x ∷ xs) = length-insert_sorted x (sorted xs) ∙ ap suc (length-sorted xs)

-- `x in xs`
abbrev pub contains : Text → List Text → Bool
contains k xs = any_of (λ x. same x k) xs

-- The members of a set of texts.
unfoldable pub distinct : List Text → List Text
distinct [] = []
distinct (x ∷ xs) = let rest = distinct xs in if contains x rest then rest else x ∷ rest

module _ {K : Type 0} (same_key : K → K → Bool) where
  -- `grouped.setdefault(k, []).append(e)`
  unfoldable pub append_to :
      K
      → CorrelationExposure
      → List (K × List CorrelationExposure)
      → List (K × List CorrelationExposure)
  append_to k e [] = (k, e ∷ []) ∷ []
  append_to k e ((j, g) ∷ d) =
      let rest = append_to k e d in if same_key k j then (j, g ++ e ∷ []) ∷ d else (j, g) ∷ rest

  -- The members of a key's group.
  unfoldable pub members : K → List (K × List CorrelationExposure) → List CorrelationExposure
  members k [] = []
  members k ((j, g) ∷ d) = if same_key k j then g else members k d

module _ {K : Type 0} (same_key : K → K → Bool) (key : CorrelationExposure → K) where
  unfoldable pub group_from :
      List (K × List CorrelationExposure)
      → List CorrelationExposure
      → List (K × List CorrelationExposure)
  unfolding append_to
  group_from d [] = d
  group_from d (e ∷ es) = group_from (append_to same_key (key e) e d) es

  pub group_from-append :
      (d : List (K × List CorrelationExposure)) (es : List CorrelationExposure)
      (e : CorrelationExposure)
      → group_from d (es ++ e ∷ []) ≡ append_to same_key (key e) e (group_from d es)
  unfolding group_from
  group_from-append d [] e = refl
  group_from-append d (x ∷ es) e = group_from-append (append_to same_key (key x) x d) es e

  module _ (same_key_iff : (j k : K) → (same_key j k ≡ true) ↔ (j ≡ k)) where
    members-append_to :
        (k j : K) (e : CorrelationExposure) (d : List (K × List CorrelationExposure))
        → members same_key k (append_to same_key j e d)
          ≡ (if same_key k j then members same_key k d ++ e ∷ [] else members same_key k d)
    unfolding members append_to
    members-append_to k j e [] = ground arith
    members-append_to k j e ((i, g) ∷ d) =
        ground
          (arith, same_key_iff k j, same_key_iff k i, same_key_iff j i, members-append_to k j e d)

    -- A group holds the exposures of its key, in their order.
    pub members-group_from :
        (k : K) (d : List (K × List CorrelationExposure)) (es : List CorrelationExposure)
        → members same_key k (group_from d es)
          ≡ members same_key k d ++ keep (λ e. same_key k (key e)) es
    unfolding group_from
    members-group_from k d [] = sym (append-nil (members same_key k d))
    members-group_from k d (e ∷ es) =
        members-group_from k (append_to same_key (key e) e d) es
        ∙ elim (Bool-cases (same_key k (key e))) [
          | inl hit ↦
              rw (members-append_to k (key e) e d, hit)
                (append_assoc (members same_key k d) (e ∷ []) _)
          | inr miss ↦ rw (members-append_to k (key e) e d, miss) refl
        ]
