-- ===== src/Feedback/Promotion.antt =====
-- The files under an approval of src/feedback/loop.py.
use crypto_master.Prelude.{
  ℕ, ◌≡◌, refl, ap, sym, ◌∙◌, inl, inr, Bool, true, false, Option, none, some, [], ◌∷◌, ◌++◌,
  if◌then◌else◌, arith, Bool-cases, Option-cases,
}
use crypto_master.Text.{Text, text, same, same_iff, same_refl}
use crypto_master.Dict.{Dict, lookup, insert, erase, lookup-insert, lookup-erase}
use crypto_master.Feedback.Calls.{event_of}
use crypto_master.Feedback.{
  on_approved, on_promoted, promoted, awaiting_approval, CandidateRecord, Loop, Answer, returns,
  raises, Fault, not_removed, save_state, audit_event, load_state, is_awaiting, last_part,
  write_active, approve_at, rewritten, target_of, promote_file, approve,
}

-- A removed insertion of a new key changes no lookup.
lookup-erase-insert :
    (k j v : Text) (d : Dict Text)
    → lookup k d ≡ none
    → lookup j (erase k (insert k v d)) ≡ lookup j d
lookup-erase-insert k j v d new =
    rw (lookup-erase k j (insert k v d), lookup-insert k j v d)
      (elim (Bool-cases (same j k)) [
        | inl hit ↦ rw (hit, (same_iff j k).0 hit, new) refl
        | inr miss ↦ rw miss refl
      ])

-- What a write that raises leaves.
write_active-raises :
    (removes : Bool) (source target content : Text) (fs fs' : Dict Text) (e : Fault) (path : Text)
    → write_active removes source target content fs ≡ (raises e, fs')
    → lookup path fs' ≡ lookup path fs
unfolding write_active
write_active-raises removes source target content fs fs' e path h =
    elim (Option-cases (lookup target fs)) [
      | inr (there, found) ↦
          let this : fs ≡ fs' = ground (arith, rw (write_active, found) at h) in rw this refl
      | inl free ↦ write_free removes (rw (write_active, free) at h) free
    ]
  where
    write_free :
        (removes : Bool)
        → ◌≡◌ {A = Answer Text × Dict Text}
            (if removes
              then (returns target, erase source (insert target content fs))
              else (raises not_removed, erase target (insert target content fs)))
            (raises e, fs')
        → lookup target fs ≡ none
        → lookup path fs' ≡ lookup path fs
    write_free true h free =
        let no : returns target ≡ raises e = ap (λ (z : Answer Text × Dict Text). z.0) h in cc
    write_free false h free =
        ap (lookup path) (sym (ap (λ (z : Answer Text × Dict Text). z.1) h))
        ∙ lookup-erase-insert target path content fs free

approve_at-raises :
    (r : CandidateRecord) (approver : Text) (now : ℕ) (a : Answer Text × Dict Text) (s s' : Loop)
    (e : Fault)
    → approve_at r approver now a s ≡ (raises e, s')
    → (a ≡ (raises e, s'.files)) × (s'.states ≡ s.states) × (s'.audit ≡ s.audit)
unfolding approve_at
approve_at-raises r approver now (returns path, fs) s s' e h = cc
approve_at-raises r approver now (raises f, fs) s s' e h =
    let state : record s { files = fs } ≡ s' = ap (λ (z : Answer CandidateRecord × Loop). z.1) h in
    let same_fault : f ≡ e = ground (arith, h) in
    (
      rw same_fault (ap (λ (z : Loop). (raises e, z.files)) state),
      ap (λ (z : Loop). z.states) (sym state),
      ap (λ (z : Loop). z.audit) (sym state),
    )

module _ (rewrite_py : Text → Option Text) (rewrite_frontmatter : Text → Option Text)
    (active_dir : Text) where
  promote_file-raises :
      (removes : Bool) (source : Text) (fs fs' : Dict Text) (e : Fault) (path : Text)
      → promote_file rewrite_py rewrite_frontmatter active_dir removes source fs ≡ (raises e, fs')
      → lookup path fs' ≡ lookup path fs
  unfolding promote_file
  promote_file-raises removes source fs fs' e path h = elim (Option-cases (lookup source fs)) [
    | inl missing ↦
        let this : fs ≡ fs' = ground (arith, rw (promote_file, missing) at h) in rw this refl
    | inr (original, there) ↦
        elim (Option-cases
          (rewritten rewrite_py rewrite_frontmatter (last_part [] source) original)) [
            | inl failing ↦
                let this : fs ≡ fs' = ground (arith, rw (promote_file, there, failing) at h) in
                rw this refl
            | inr (content, e') ↦
                write_active-raises removes source (target_of active_dir source) content fs fs' e
                  path (rw (promote_file, there, e') at h)
          ]
  ]

  -- An approval that raises leaves the state files and the audit log as they were, and each path with
  -- the file that it had or with none if it had none, also where the active file was written but the
  -- candidate's file could not be removed.
  pub approve_atomic :
      (id approver : Text) (removes : Bool) (now : ℕ) (s s' : Loop) (e : Fault) (path : Text)
      → approve rewrite_py rewrite_frontmatter active_dir id approver removes now s ≡ (raises e, s')
      → (s'.states ≡ s.states) × (s'.audit ≡ s.audit) × (lookup path s'.files ≡ lookup path s.files)
  unfolding approve
  approve_atomic id approver removes now s s' e path h = raises_at (load_state id s) refl
    where
      unchanged :
          {f : Fault}
          → ◌≡◌ {A = Answer CandidateRecord × Loop} (raises f, s) (raises e, s')
          → (s'.states ≡ s.states)
            × (s'.audit ≡ s.audit)
            × (lookup path s'.files ≡ lookup path s.files)
      unchanged h =
          let this : s ≡ s' = ap (λ (z : Answer CandidateRecord × Loop). z.1) h in
          (
            ap (λ (z : Loop). z.states) (sym this),
            ap (λ (z : Loop). z.audit) (sym this),
            ap (λ (z : Loop). lookup path z.files) (sym this),
          )

      raises_at :
          (a : Answer CandidateRecord)
          → load_state id s ≡ a
          → (s'.states ≡ s.states)
            × (s'.audit ≡ s.audit)
            × (lookup path s'.files ≡ lookup path s.files)
      raises_at (raises f) loads = unchanged (rw (approve, loads) at h)
      raises_at (returns r) loads = elim (Bool-cases (is_awaiting r.status)) [
        | inr decided ↦ unchanged (rw (approve, loads, decided) at h)
        | inl awaiting ↦
            let promotion =
              promote_file rewrite_py rewrite_frontmatter active_dir removes r.source_path
                s.files in
            let (files, states, audit) =
              approve_at-raises r approver now promotion s s' e
                (rw (approve, loads, awaiting) at h) in
            (states, audit, promote_file-raises removes r.source_path s.files s'.files e path files)
      ]

  -- An approval whose every guard passes.
  pub approve-of_ready :
      (id approver : Text) (now : ℕ) (s : Loop) (r : CandidateRecord) (original content path : Text)
      → load_state id s ≡ returns r
      → r.status ≡ awaiting_approval
      → lookup r.source_path s.files ≡ some original
      → rewritten rewrite_py rewrite_frontmatter (last_part [] r.source_path) original
        ≡ some content
      → lookup (target_of active_dir r.source_path) s.files ≡ none
      → let (answer, s') =
          approve rewrite_py rewrite_frontmatter active_dir id approver true now s in
        let target = target_of active_dir r.source_path in
        let r' : CandidateRecord = record r {
          status = promoted;
          source_path = target;
          decision_reason = text "Approved by " ++ approver;
          updated_at = now;
        } in
        (answer ≡ returns r')
        × (load_state r.candidate_id s' ≡ returns r')
        × (lookup path s'.files ≡ (
            if same path r.source_path
            then none
            else if same path target
            then some content
            else lookup path s.files))
        × (s'.audit
            ≡ (s.audit ++ event_of r on_approved approver ∷ [])
              ++ event_of r on_promoted approver ∷ [])
  unfolding approve promote_file write_active approve_at load_state save_state audit_event
  approve-of_ready id approver now s r original content path loads awaiting there rewrites free =
      let target = target_of active_dir r.source_path in
      let waits : is_awaiting r.status ≡ true = rw awaiting refl in
      rw (approve, loads, waits, promote_file, there, rewrites, write_active, free)
        (
          refl,
          rw (lookup-insert, same_refl r.candidate_id) refl,
          rw (lookup-erase, lookup-insert) refl,
          refl,
        )
