-- ===== src/Proposals/Purge.antt =====
-- The purge of src/proposal/interaction.py.
use crypto_master.Prelude.{
  ℕ, suc, ◌+◌, ◌≡◌, refl, ap, sym, ◌∙◌, inl, inr, Bool, true, false, Option, none, some, List, [],
  ◌∷◌, ◌++◌, ◌&&◌, ◌==◌, if◌then◌else◌, arith, Bool-cases, Option-cases, is_some, keep, map, length,
  leb,
}
use crypto_master.Text.{Text, text, same, same_iff, same_refl}
use crypto_master.Dict.{lookup, erase, lookup-insert, lookup-erase}
use crypto_master.Correlation.Groups.{any_of-sorted, contains}
use crypto_master.Proposals.{
  ProposalRecord, History, parts_from, is_record, iter_record_paths, is_old, last_of, destination,
  account_of, archive_file, purge_all, purge_old,
}

slashes : Text → ℕ
slashes [] = 0
slashes (c ∷ s) = let rest = slashes s in if c == 47 then suc rest else rest

slashes-append : (s t : Text) → slashes (s ++ t) ≡ slashes s + slashes t
unfolding slashes
slashes-append [] t = omega arith
slashes-append (c ∷ s) t = ground (arith, slashes-append s t)

length-parts_from : (s part : Text) → length (parts_from part s) ≡ suc (slashes s)
unfolding parts_from slashes
length-parts_from [] part = refl
length-parts_from (c ∷ s) part = elim (Bool-cases (c == 47)) [
  | inl slash ↦ rw (slash, length-parts_from s []) refl
  | inr plain ↦ rw (plain, length-parts_from s (part ++ c ∷ [])) refl
]

-- A path of three parts or more is no record's.
is_record-of_long : (ps : List Text) (n : ℕ) → length ps ≡ suc (suc (suc n)) → is_record ps ≡ false
unfolding is_record
is_record-of_long [] n h = refl
is_record-of_long (a ∷ []) n h = cc
is_record-of_long (a ∷ b ∷ []) n h = cc
is_record-of_long (a ∷ b ∷ d ∷ ps) n h = refl

abbrev pub is_record_path : Text → Bool
is_record_path p = is_record (parts_from [] p)

module _ (month_of : ℕ → Text) (cutoff : ℕ) where
  pub is_record-destination :
      (r : ProposalRecord) (path : Text)
      → is_record_path (destination month_of cutoff r path) ≡ false
  unfolding slashes
  is_record-destination r path =
      let account = account_of r r.sub_account_id in
      let month = month_of r.proposal.created_at in
      let one : slashes (text "/") ≡ 1 = refl in
      let name = last_of [] (parts_from [] path) in
      let d = destination month_of cutoff r path in
      let n = suc ((slashes account + slashes month) + slashes name) in
      is_record-of_long (parts_from [] d) n (
        length-parts_from d []
        ∙ rw (slashes-append account, slashes-append month, slashes-append (text "/"), one)
            (omega arith))

  pub lookup-archive_file :
      (j path : Text) (h : History)
      → is_record_path j ≡ true
      → lookup j (archive_file month_of cutoff path (lookup path h) h).0
        ≡ (if same path j && is_old cutoff (lookup path h) then none else lookup j h)
  unfolding archive_file
  lookup-archive_file j path h is = elim (Option-cases (lookup path h)) [
    | inl missing ↦ rw missing (ground arith)
    | inr (none, there) ↦ rw there (ground arith)
    | inr (some r, there) ↦
        let d = destination month_of cutoff r path in
        let other : same j d ≡ false = elim (Bool-cases (same j d)) [
          | inr miss ↦ miss
          | inl hit ↦
              let no = is_record-destination r path in
              let yes : is_record_path d ≡ true =
                ap is_record_path (sym ((same_iff j d).0 hit)) ∙ is in
              cc
        ] in
        elim (Bool-cases (leb cutoff r.proposal.created_at)) [
          | inl recent ↦ rw (there, archive_file, recent) (ground arith)
          | inr old ↦
              rw
                (
                  there,
                  archive_file,
                  old,
                  lookup-insert d j (some r) (erase path h),
                  other,
                  lookup-erase path j h,
                )
                (ground (arith, same_iff path j, same_iff j path))
        ]
  ]

  lookup-purge_all :
      (j : Text) (ps : List Text) (h : History)
      → is_record_path j ≡ true
      → lookup j (purge_all month_of cutoff ps h).0
        ≡ (if contains j ps && is_old cutoff (lookup j h) then none else lookup j h)
  unfolding purge_all
  lookup-purge_all j [] h is = refl
  lookup-purge_all j (p ∷ ps) h is =
      let h' = (archive_file month_of cutoff p (lookup p h) h).0 in
      lookup-purge_all j ps h' is
      ∙ rw (lookup-archive_file j p h is) (elim (Bool-cases (same p j)) [
        | inr miss ↦ rw miss refl
        | inl hit ↦
            let is_p = (same_iff p j).0 hit in
            rw (hit, is_p)
              (elim (Bool-cases (is_old cutoff (lookup j h))) [
                | inl old ↦ rw old (ground arith)
                | inr recent ↦ rw (recent, recent) (ground arith)
              ])
      ])

contains-keep :
    (j : Text) (h : History)
    → contains j (keep is_record_path (map (λ e. e.0) h))
      ≡ (is_record_path j && is_some (lookup j h))
unfolding lookup
contains-keep j [] = ground arith
contains-keep j ((i, v) ∷ h) = elim (Bool-cases (same i j)) [
  | inl hit ↦
      let is_j = (same_iff i j).0 hit in
      rw (is_j, same_refl j)
        (elim (Bool-cases (is_record_path j)) [
          | inl is ↦ rw (is, same_refl j) refl
          | inr is_not ↦ rw is_not (contains-keep j h ∙ rw is_not refl)
        ])
  | inr miss ↦
      let miss' : same j i ≡ false = ground (arith, same_iff i j, same_iff j i, miss) in
      rw miss' (elim (Bool-cases (is_record_path i)) [
        | inl is ↦ rw (is, miss) (contains-keep j h)
        | inr is_not ↦ rw is_not (contains-keep j h)
      ])
]

pub contains-iter_record_paths :
    (j : Text) (h : History)
    → contains j (iter_record_paths h) ≡ (is_record_path j && is_some (lookup j h))
unfolding iter_record_paths
contains-iter_record_paths j h =
    any_of-sorted _ (λ x. same x j) (keep is_record_path (map (λ e. e.0) h)) ∙ contains-keep j h

module _ (month_of : ℕ → Text) (cutoff : ℕ) where
  -- A purge takes a file out of its place exactly where the file is a record's, of a readable record
  -- created before the cutoff; it leaves every other record where and as it was.
  pub lookup-purge_old :
      (path : Text) (h : History)
      → is_record (parts_from [] path) ≡ true
      → lookup path (purge_old month_of cutoff h).0
        ≡ (if is_old cutoff (lookup path h) then none else lookup path h)
  unfolding purge_old
  lookup-purge_old path h is =
      lookup-purge_all month_of cutoff path (iter_record_paths h) h is
      ∙ rw (contains-iter_record_paths path h, is)
          (elim (Option-cases (lookup path h)) [
            | inl missing ↦ rw missing refl
            | inr (v, there) ↦ rw there refl
          ])

  archive_file-of_recent :
      (p : Text) (v : Option (Option ProposalRecord)) (h : History)
      → is_old cutoff v ≡ false
      → archive_file month_of cutoff p v h ≡ (h, [])
  unfolding archive_file
  archive_file-of_recent p none h recent = refl
  archive_file-of_recent p (some none) h recent = refl
  archive_file-of_recent p (some (some r)) h recent =
      let kept : leb cutoff r.proposal.created_at ≡ true = ground arith in rw kept refl

  purge_all-of_recent :
      (ps : List Text) (h : History)
      → ((p : Text) → contains p ps ≡ true → is_old cutoff (lookup p h) ≡ false)
      → purge_all month_of cutoff ps h ≡ (h, [])
  unfolding purge_all
  purge_all-of_recent [] h recent = refl
  purge_all-of_recent (p ∷ ps) h recent =
      let first = archive_file-of_recent p (lookup p h) h (recent p (rw (same_refl p) refl)) in
      rw first (rw (purge_all-of_recent ps h (λ q there. recent q (ground (arith, there)))) refl)

  -- A second purge with the same cutoff moves nothing.
  purge_old_again :
      (h : History)
      → purge_old month_of cutoff (purge_old month_of cutoff h).0
        ≡ ((purge_old month_of cutoff h).0, [])
  unfolding purge_old
  purge_old_again h =
      let h' = (purge_old month_of cutoff h).0 in
      purge_all-of_recent (iter_record_paths h') h' (λ p there.
        let is : is_record_path p ≡ true = ground (arith, contains-iter_record_paths p h', there) in
        rw (lookup-purge_old p h is) (elim (Bool-cases (is_old cutoff (lookup p h))) [
          | inl old ↦ rw old refl
          | inr recent ↦ rw (recent, recent) refl
        ]))
