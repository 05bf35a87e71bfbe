-- ===== src/Proposals/Archive.antt =====
-- The archive of src/proposal/interaction.py, where a purge has the records that it takes away.
use crypto_master.Prelude.{
  ℕ, ◌≡◌, refl, ap, ◌∙◌, inl, inr, true, false, Option, none, some, List, [], ◌∷◌, ◌++◌, ◌&&◌, ◌==◌,
  if◌then◌else◌, arith, Bool-cases, Option-cases, leb,
}
use crypto_master.Text.{Text, text, same, same_iff, same_refl}
use crypto_master.Dict.{lookup, lookup-insert, lookup-erase}
use crypto_master.Correlation.Groups.{contains}
use crypto_master.Paper.Symbols.{has_slash}
use crypto_master.Feedback.{last_part}
use crypto_master.Feedback.Named.{last_part-plain, last_part-join}
use crypto_master.Proposals.{
  ProposalRecord, History, parts_from, is_record, iter_record_paths, is_old, last_of, destination,
  account_of, archive_file, purge_all, purge_old,
}
use crypto_master.Proposals.Purge.{
  is_record_path, is_record-destination, lookup-archive_file, contains-iter_record_paths,
  lookup-purge_old,
}

-- A path of a file of a name, in the top directory or in another.
pub data HasName (name : Text) : Text → Type 0 where
  top : HasName name name
  within : (dir : Text) → HasName name (dir ++ (text "/" ++ name))

last_of-eq-last_part : (x part s : Text) → last_of x (parts_from part s) ≡ last_part part s
unfolding last_of parts_from last_part
last_of-eq-last_part x part [] = refl
last_of-eq-last_part x part (c ∷ s) = elim (Bool-cases (c == 47)) [
  | inl slash ↦ rw (slash, last_of-eq-last_part part [] s) refl
  | inr plain ↦ rw (plain, last_of-eq-last_part x (part ++ c ∷ []) s) refl
]

last_of-HasName :
    (path name : Text)
    → has_slash name ≡ false
    → HasName name path
    → last_of [] (parts_from [] path) ≡ name
last_of-HasName path name plain top =
    last_of-eq-last_part [] [] name ∙ last_part-plain [] name plain
last_of-HasName path name plain (within dir) =
    last_of-eq-last_part [] [] path ∙ last_part-join [] dir name plain

account_of-eq :
    (r : ProposalRecord) (account : Text)
    → account_of r account ≡ (if same account [] then r.proposal.sub_account_id else account)
unfolding same
account_of-eq r [] = refl
account_of-eq r (c ∷ account) = refl

module _ (month_of : ℕ → Text) (cutoff : ℕ) where
  -- What a history has at an archive path: an old record of an earlier one, whose place it is.
  pub data IsArchived (h : History) (archive : Text) : Option (Option ProposalRecord) → Type 0 where
    archived :
        (path : Text) (r : ProposalRecord)
        → lookup path h ≡ some (some r)
        → leb cutoff r.proposal.created_at ≡ false
        → destination month_of cutoff r path ≡ archive
        → IsArchived h archive (some (some r))

  -- The records that a history has, an earlier one has too.
  IsPart : History → History → Type 0
  IsPart h' h =
      (path : Text) (r : ProposalRecord)
      → is_record_path path ≡ true
      → lookup path h' ≡ some (some r)
      → lookup path h ≡ some (some r)

  archive_file-IsPart :
      (p : Text) (h' h : History)
      → IsPart h' h
      → IsPart (archive_file month_of cutoff p (lookup p h') h').0 h
  unfolding IsPart
  archive_file-IsPart p h' h part path r is there =
      let step = lookup-archive_file month_of cutoff path p h' is in
      elim (Bool-cases (same p path && is_old cutoff (lookup p h'))) [
        | inl gone ↦ let no = rw (step, gone) at there in cc
        | inr stays ↦ part path r is (rw (step, stays) at there)
      ]

  archive_file-moves :
      (p : Text) (h' h : History) (r : ProposalRecord)
      → is_record_path p ≡ true
      → IsPart h' h
      → lookup p h' ≡ some (some r)
      → leb cutoff r.proposal.created_at ≡ false
      → let archive = destination month_of cutoff r p in
        IsArchived h archive (lookup archive (archive_file month_of cutoff p (lookup p h') h').0)
  unfolding IsPart archive_file
  archive_file-moves p h' h r is part there old =
      let archive = destination month_of cutoff r p in
      rw (there, archive_file, old, lookup-insert, same_refl archive)
        (archived p r (part p r is there) old refl)

  archive_file-IsArchived :
      (p archive : Text) (h' h : History)
      → is_record_path p ≡ true
      → is_record_path archive ≡ false
      → IsPart h' h
      → IsArchived h archive (lookup archive h')
      → IsArchived h archive (lookup archive (archive_file month_of cutoff p (lookup p h') h').0)
  unfolding archive_file
  archive_file-IsArchived p archive h' h is is_not part before = elim (Option-cases (lookup p h')) [
    | inl missing ↦ rw missing before
    | inr (none, there) ↦ rw there before
    | inr (some r, there) ↦ elim (Bool-cases (leb cutoff r.proposal.created_at)) [
      | inl recent ↦ rw (there, archive_file, recent) before
      | inr old ↦ elim (Bool-cases (same archive (destination month_of cutoff r p))) [
        | inl hit ↦
            let place = (same_iff archive (destination month_of cutoff r p)).0 hit in
            rw place (archive_file-moves p h' h r is part there old)
        | inr miss ↦
            let other : same archive p ≡ false = elim (Bool-cases (same archive p)) [
              | inr differs ↦ differs
              | inl hit ↦ let is_p = ap is_record_path ((same_iff archive p).0 hit) in cc
            ] in
            rw (there, archive_file, old, lookup-insert, miss, lookup-erase, other) before
      ]
    ]
  ]

  purge_all-IsArchived :
      (archive : Text) (ps : List Text) (h' h : History)
      → ((p : Text) → contains p ps ≡ true → is_record_path p ≡ true)
      → is_record_path archive ≡ false
      → IsPart h' h
      → IsArchived h archive (lookup archive h')
      → IsArchived h archive (lookup archive (purge_all month_of cutoff ps h').0)
  unfolding purge_all
  purge_all-IsArchived archive [] h' h are is_not part before = before
  purge_all-IsArchived archive (p ∷ ps) h' h are is_not part before =
      let is = are p (rw (same_refl p) refl) in
      purge_all-IsArchived archive ps _ h (λ q there. are q (ground (arith, there))) is_not
        (archive_file-IsPart p h' h part)
        (archive_file-IsArchived p archive h' h is is_not part before)

  purge_all-archives :
      (path : Text) (ps : List Text) (h' h : History) (r : ProposalRecord)
      → ((p : Text) → contains p ps ≡ true → is_record_path p ≡ true)
      → contains path ps ≡ true
      → IsPart h' h
      → lookup path h' ≡ some (some r)
      → leb cutoff r.proposal.created_at ≡ false
      → let archive = destination month_of cutoff r path in
        IsArchived h archive (lookup archive (purge_all month_of cutoff ps h').0)
  unfolding purge_all
  purge_all-archives path [] h' h r are named part there old = cc
  purge_all-archives path (p ∷ ps) h' h r are named part there old =
      let archive = destination month_of cutoff r path in
      let is = are p (rw (same_refl p) refl) in
      let are' : (q : Text) → contains q ps ≡ true → is_record_path q ≡ true =
        λ q found. are q (ground (arith, found)) in
      let part' = archive_file-IsPart p h' h part in
      elim (Bool-cases (same p path)) [
        | inl hit ↦
            let is_path = (same_iff p path).0 hit in
            purge_all-IsArchived archive ps _ h are' (is_record-destination month_of cutoff r path)
              part' (rw is_path (archive_file-moves path h' h r (rw is_path at is) part there old))
        | inr miss ↦
            let step = lookup-archive_file month_of cutoff path p h' (are path named) in
            purge_all-archives path ps _ h r are' (ground (arith, named, miss)) part'
              (rw (step, miss) there) old
      ]

  -- A purge takes a readable record from before the cutoff out of its place, and the archive of its
  -- account, under the month of its creation and the name of its file, then has it, or another such
  -- record of which that is the place. Any record, that one too, is gone from its own place exactly
  -- where it is readable and from before the cutoff, and is otherwise where and as it was.
  pub purge_old_archives :
      (path name other : Text) (h : History) (r : ProposalRecord)
      → is_record (parts_from [] path) ≡ true
      → has_slash name ≡ false
      → HasName name path
      → lookup path h ≡ some (some r)
      → leb cutoff r.proposal.created_at ≡ false
      → is_record (parts_from [] other) ≡ true
      → let account =
          if same r.sub_account_id [] then r.proposal.sub_account_id else r.sub_account_id in
        let archive =
          account ++ (text "/archive/" ++ (month_of r.proposal.created_at ++ (text "/" ++ name))) in
        let h' = (purge_old month_of cutoff h).0 in
        IsArchived h archive (lookup archive h')
        × (lookup other h' ≡ (if is_old cutoff (lookup other h) then none else lookup other h))
  unfolding purge_old IsPart
  purge_old_archives path name other h r is plain named there old is_other =
      let archives =
        purge_all-archives path (iter_record_paths h) h h r
          (λ p found. ground (arith, contains-iter_record_paths p h, found))
          (contains-iter_record_paths path h ∙ rw (is, there) refl) (λ p r' is' found. found) there
          old in
      (
        rw (account_of-eq r r.sub_account_id, last_of-HasName path name plain named) at archives,
        lookup-purge_old month_of cutoff other h is_other,
      )
