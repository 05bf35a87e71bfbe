-- ===== src/Dict.antt =====
-- A Python dict with text keys, in insertion order.
use crypto_master.Prelude.{
  ◌≡◌, refl, inl, inr, Bool-cases, Option, none, some, List, [], ◌∷◌, arith, if◌then◌else◌,
}
use crypto_master.Text.{Text, same, same_iff}

abbrev pub Dict {ℓ} : Type ℓ → Type ℓ
Dict V = List (Text × V)

module _ {ℓ} {V : Type ℓ} where
  -- `d.get(k)`
  unfoldable pub lookup : Text → Dict V → Option V
  lookup k [] = none
  lookup k ((j, v) ∷ d) = if same k j then some v else lookup k d

  -- `d[k] = v`
  unfoldable pub insert : Text → V → Dict V → Dict V
  insert k v [] = (k, v) ∷ []
  insert k v ((j, w) ∷ d) = if same k j then (j, v) ∷ d else (j, w) ∷ insert k v d

  -- `d.pop(k, None)`, where keys are distinct
  unfoldable pub erase : Text → Dict V → Dict V
  erase k [] = []
  erase k ((j, w) ∷ d) = let rest = erase k d in if same k j then rest else (j, w) ∷ rest

  pub lookup-insert :
      (k j : Text) (v : V) (d : Dict V)
      → lookup j (insert k v d) ≡ (if same j k then some v else lookup j d)
  unfolding lookup insert
  lookup-insert k j v [] = refl
  lookup-insert k j v ((i, w) ∷ d) =
      ground (arith, same_iff k j, same_iff j k, same_iff k i, same_iff j i, lookup-insert k j v d)

  pub lookup-erase :
      (k j : Text) (d : Dict V) → lookup j (erase k d) ≡ (if same j k then none else lookup j d)
  unfolding lookup erase
  lookup-erase k j [] = ground arith
  lookup-erase k j ((i, w) ∷ d) =
      ground (arith, same_iff k j, same_iff j k, same_iff k i, same_iff j i, lookup-erase k j d)

  -- No key stands twice.
  abbrev pub IsDistinct : Dict V → Type ℓ
  IsDistinct [] = Unit
  IsDistinct ((k, v) ∷ d) = (lookup k d ≡ none) × IsDistinct d

  pub erase_absent : (k : Text) (d : Dict V) → lookup k d ≡ none → erase k d ≡ d
  unfolding lookup erase
  erase_absent k [] h = refl
  erase_absent k ((j, w) ∷ d) h = elim (Bool-cases (same k j)) [
    | inl hit ↦ cc (rw hit at h)
    | inr miss ↦ rw (miss, erase_absent k d (rw miss at h)) refl
  ]

  pub insert-IsDistinct : (k : Text) (v : V) (d : Dict V) → IsDistinct d → IsDistinct (insert k v d)
  unfolding insert lookup
  insert-IsDistinct k v [] h = (refl, tt)
  insert-IsDistinct k v ((j, w) ∷ d) h = elim (Bool-cases (same k j)) [
    | inl hit ↦ rw hit (h.0, h.1)
    | inr miss ↦ rw miss (
      ground (arith, lookup-insert k j v d, same_iff k j, same_iff j k, h.0),
      insert-IsDistinct k v d h.1,
    )
  ]

  pub erase-IsDistinct : (k : Text) (d : Dict V) → IsDistinct d → IsDistinct (erase k d)
  unfolding erase lookup
  erase-IsDistinct k [] h = tt
  erase-IsDistinct k ((j, w) ∷ d) h = elim (Bool-cases (same k j)) [
    | inl hit ↦ rw hit (erase-IsDistinct k d h.1)
    | inr miss ↦ rw miss (ground (arith, lookup-erase k j d, h.0), erase-IsDistinct k d h.1)
  ]

  -- Writing back what is there changes nothing.
  pub insert_same : (k : Text) (v : V) (d : Dict V) → lookup k d ≡ some v → insert k v d ≡ d
  unfolding lookup insert
  insert_same k v [] h = cc
  insert_same k v ((j, w) ∷ d) h = elim (Bool-cases (same k j)) [
    | inl hit ↦ let e : w ≡ v = ground (arith, rw hit at h) in rw (hit, e) refl
    | inr miss ↦ rw (miss, insert_same k v d (rw miss at h)) refl
  ]
