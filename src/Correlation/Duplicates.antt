-- ===== src/Correlation/Duplicates.antt =====
-- Which groups of src/runtime/correlation_governor.py warn of a candidate.
use crypto_master.Prelude.{
  ℕ, ◌≡◌, refl, ap, ◌∙◌, ◌↔◌, inl, inr, Bool, true, false, ◌&&◌, ◌||◌, List, [], ◌∷◌, ◌++◌, keep,
  length, map, All, arith, ltb, Bool-cases,
}
use crypto_master.Text.{Text, same}
use crypto_master.Correlation.Exposures.{CorrelationExposure}
use crypto_master.Correlation.Groups.{
  any_of, before, sorted, any_of-sorted, length-sorted, contains, distinct, append_to, group_from,
  members, group_from-append, members-group_from,
}
use crypto_master.Correlation.Gate.{
  CorrelationWarning, distinct_sub_accounts, exposure_ids, warnings_of,
}

-- The number of different sub-accounts among exposures.
abbrev pub account_count : List CorrelationExposure → ℕ
account_count es = length (distinct (map (λ e. e.sub_account_id) es))

-- One of the exposures has the id.
abbrev pub names : Text → List CorrelationExposure → Bool
names i es = any_of (λ e. same e.exposure_id i) es

any_of-map :
    {A B : Type 0} (p : B → Bool) (f : A → B) (xs : List A)
    → any_of p (map f xs) ≡ any_of (λ x. p (f x)) xs
any_of-map p f [] = refl
any_of-map p f (x ∷ xs) = ap (λ b. p (f x) || b) (any_of-map p f xs)

pub any_of-append :
    {A : Type 0} (p : A → Bool) (xs ys : List A)
    → any_of p (xs ++ ys) ≡ (any_of p xs || any_of p ys)
any_of-append p [] ys = refl
any_of-append p (x ∷ xs) ys = ground (arith, any_of-append p xs ys)

contains-exposure_ids :
    (i : Text) (es : List CorrelationExposure) → contains i (exposure_ids es) ≡ names i es
unfolding exposure_ids
contains-exposure_ids i es =
    any_of-sorted before (λ x. same x i) (map (λ e. e.exposure_id) es)
    ∙ any_of-map (λ x. same x i) (λ e. e.exposure_id) es

length-distinct_sub_accounts :
    (es : List CorrelationExposure) → length (distinct_sub_accounts es) ≡ account_count es
unfolding distinct_sub_accounts
length-distinct_sub_accounts es = length-sorted before (distinct (map (λ e. e.sub_account_id) es))

module _ {K : Type 0} (limit : ℕ) (warn : K → List CorrelationExposure → CorrelationWarning)
    (reports : (k : K) (g : List CorrelationExposure) → (warn k g).exposure_ids ≡ exposure_ids g)
    (i : Text) where
  abbrev hits : K × List CorrelationExposure → Bool
  hits (k, g) = ltb limit (account_count g) && names i g

  any_of-warnings_of :
      (d : List (K × List CorrelationExposure))
      → any_of (λ w. contains i w.exposure_ids) (warnings_of limit warn d) ≡ any_of hits d
  unfolding warnings_of
  any_of-warnings_of [] = refl
  any_of-warnings_of ((k, g) ∷ d) =
      elim (Bool-cases (ltb limit (length (distinct_sub_accounts g)))) [
        | inl over ↦
            rw
              (
                over,
                reports k g,
                contains-exposure_ids i g,
                any_of-warnings_of d,
                ← length-distinct_sub_accounts g,
                over,
              )
              refl
        | inr within ↦
            rw (within, any_of-warnings_of d, ← length-distinct_sub_accounts g, within) refl
      ]

  module _ (same_key : K → K → Bool) (key : CorrelationExposure → K) where
    names_none :
        (g : List CorrelationExposure)
        → names i g ≡ false
        → (e : CorrelationExposure) → same e.exposure_id i ≡ true
        → names i (g ++ e ∷ []) ≡ true
    names_none g none_there e has =
        any_of-append (λ x. same x.exposure_id i) g (e ∷ []) ∙ rw (none_there, has) refl

    -- Groups of which none names the id.
    abbrev Unnamed : List (K × List CorrelationExposure) → Type 0
    Unnamed d = All (λ g. names i g.1 ≡ false) d

    any_of-Unnamed : (d : List (K × List CorrelationExposure)) → Unnamed d → any_of hits d ≡ false
    any_of-Unnamed [] u = refl
    any_of-Unnamed ((k, g) ∷ d) u = ground (arith, any_of-Unnamed d)

    append_to-Unnamed :
        (k : K) (e : CorrelationExposure) (d : List (K × List CorrelationExposure))
        → same e.exposure_id i ≡ false
        → Unnamed d
        → Unnamed (append_to same_key k e d)
    unfolding append_to
    append_to-Unnamed k e [] h u = (rw h refl, tt)
    append_to-Unnamed k e ((j, g) ∷ d) h u = elim (Bool-cases (same_key k j)) [
      | inl hit ↦
          rw hit (any_of-append (λ x. same x.exposure_id i) g (e ∷ []) ∙ rw (u.0, h) refl, u.1)
      | inr miss ↦ rw miss (u.0, append_to-Unnamed k e d h u.1)
    ]

    group_from-Unnamed :
        (d : List (K × List CorrelationExposure)) (es : List CorrelationExposure)
        → All (λ e. same e.exposure_id i ≡ false) es
        → Unnamed d
        → Unnamed (group_from same_key key d es)
    unfolding group_from
    group_from-Unnamed d [] a u = u
    group_from-Unnamed d (e ∷ es) a u =
        group_from-Unnamed (append_to same_key (key e) e d) es a.1
          (append_to-Unnamed (key e) e d a.0 u)

    any_of-append_to :
        (k : K) (e : CorrelationExposure) (d : List (K × List CorrelationExposure))
        → same e.exposure_id i ≡ true
        → Unnamed d
        → any_of hits (append_to same_key k e d)
          ≡ ltb limit (account_count (members same_key k d ++ e ∷ []))
    unfolding append_to members
    any_of-append_to k e [] h u = ground (arith, h)
    any_of-append_to k e ((j, g) ∷ d) h u = elim (Bool-cases (same_key k j)) [
      | inl hit ↦ rw (hit, names_none g u.0 e h, any_of-Unnamed d u.1) (ground arith)
      | inr miss ↦ rw (miss, u.0, any_of-append_to k e d h u.1) (ground arith)
    ]

    -- The candidate is in a warning exactly where the exposures of its key span too many accounts.
    pub warned_grouping :
        (before_key : K × List CorrelationExposure → K × List CorrelationExposure → Bool)
        (same_key_iff : (j k : K) → (same_key j k ≡ true) ↔ (j ≡ k))
        (existing : List CorrelationExposure) (e : CorrelationExposure)
        → same e.exposure_id i ≡ true
        → All (λ o. same o.exposure_id i ≡ false) existing
        → any_of
            (λ w. contains i w.exposure_ids)
            (warnings_of limit warn
              (sorted before_key (group_from same_key key [] (existing ++ e ∷ []))))
          ≡ ltb limit (account_count (keep (λ o. same_key (key e) (key o)) existing ++ e ∷ []))
    unfolding members
    warned_grouping before_key same_key_iff existing e h fresh =
        let d = group_from same_key key [] existing in
        any_of-warnings_of (sorted before_key (group_from same_key key [] (existing ++ e ∷ [])))
        ∙ any_of-sorted before_key hits (group_from same_key key [] (existing ++ e ∷ []))
        ∙ ap (any_of hits) (group_from-append same_key key [] existing e)
        ∙ any_of-append_to (key e) e d h (group_from-Unnamed [] existing fresh tt)
        ∙ ap (λ g. ltb limit (account_count (g ++ e ∷ [])))
            (members-group_from same_key key same_key_iff (key e) [] existing)
