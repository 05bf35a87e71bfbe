-- ===== src/Feedback/Run.antt =====
-- Runs of src/feedback/loop.py: cycles, approvals and rejections in any order, with any changes of the
-- strategies' files between them.
use crypto_master.Prelude.{
  ℕ, ◌≡◌, refl, ◌⊎◌, inl, inr, Bool, true, false, Option, none, some, [], arith, Bool-cases,
  Option-cases, is_some,
}
use crypto_master.Text.{Text}
use crypto_master.Dict.{Dict, lookup}
use crypto_master.Feedback.{
  LoopStatus, promoted, discarded, errored, CandidateRecord, Loop, GeneratedTechnique, Trial, Times,
  default_account, improvement, new_idea, user_idea, reevaluation, improve_existing, propose_new,
  from_user_idea, reevaluate, reject, approve, is_awaiting, returns, raises, load_state,
  wrong_status,
}
use crypto_master.Feedback.Lifecycle.{
  Move, generates, backtests, passes, fails, errs_early, errs_late, approves, rejects, Trail, stay,
  then_move, Trail-trans, status_of,
}
use crypto_master.Feedback.Notes.{
  moves_files, Notes, blank, then_note, IsTraced, Note-IsTraced, Note-Trail,
}
use crypto_master.Feedback.Calls.{run_cycle-Notes, reject-Notes, approve-Notes}

abbrev pub no_candidates : Dict Text → Loop
no_candidates fs = record { files = fs; states = []; audit = [] }

no_candidates-IsTraced : (fs : Dict Text) → IsTraced (no_candidates fs)
unfolding lookup
no_candidates-IsTraced fs = record {
  filed = λ id r found. cc;
  replayed = λ id. refl;
  earned = λ id r found. cc;
}

Notes-IsTraced : {s t : Loop} → Notes s t → IsTraced s → IsTraced t
Notes-IsTraced blank h = h
Notes-IsTraced (then_note ns n) h = Note-IsTraced n (Notes-IsTraced ns h)

Notes-Trail : {s t : Loop} → Notes s t → (id : Text) → Trail (status_of id s) (status_of id t)
Notes-Trail blank id = stay
Notes-Trail (then_note ns n) id = Trail-trans (Notes-Trail ns id) (Note-Trail n id)

-- Where a move ends no other begins, but from the three open states.
abbrev IsSettled : LoopStatus → Type 0
IsSettled st = (st ≡ promoted) ⊎ ((st ≡ discarded) ⊎ (st ≡ errored))

Move-from_settled :
    {a b : Option LoopStatus} (st : LoopStatus) → Move a b → a ≡ some st → IsSettled st → ⊥
Move-from_settled st generates e h = cc
Move-from_settled st backtests e h = ground arith
Move-from_settled st passes e h = ground arith
Move-from_settled st fails e h = ground arith
Move-from_settled st errs_early e h = ground arith
Move-from_settled st errs_late e h = ground arith
Move-from_settled st approves e h = ground arith
Move-from_settled st rejects e h = ground arith

Trail-of_settled :
    {a b : Option LoopStatus} (st : LoopStatus)
    → Trail a b
    → a ≡ some st
    → IsSettled st
    → b ≡ some st
Trail-of_settled st stay e h = e
Trail-of_settled st (then_move run m) e h =
    absurd (Move-from_settled st m (Trail-of_settled st run e h) h)

module _ (rewrite_py : Text → Option Text) (rewrite_frontmatter : Text → Option Text)
    (active_dir : Text) where
  -- A call of the loop, or a change of the files by others. A cycle's id is that of no state file.
  pub data Step : Loop → Loop → Type 0 where
    improves :
        (id : Text) (g : Option GeneratedTechnique) (trial : Trial) (times : Times) {s : Loop}
        → lookup id s.states ≡ none
        → Step s (improve_existing id g trial times s).1
    proposes :
        (id sub_account : Text) (g : Option GeneratedTechnique) (trial : Trial) (times : Times)
        {s : Loop}
        → lookup id s.states ≡ none
        → Step s (propose_new id sub_account g trial times s).1
    takes_idea :
        (id : Text) (g : Option GeneratedTechnique) (trial : Trial) (times : Times) {s : Loop}
        → lookup id s.states ≡ none
        → Step s (from_user_idea id g trial times s).1
    reevaluates :
        (id path : Text) (loaded : Option (Text × Text)) (parent : Option Text) (trial : Trial)
        (times : Times) {s : Loop}
        → lookup id s.states ≡ none
        → Step s (reevaluate id path loaded parent trial times s).1
    approval :
        (id approver : Text) (removes : Bool) (now : ℕ) {s : Loop}
        → Step s (approve rewrite_py rewrite_frontmatter active_dir id approver removes now s).1
    rejection :
        (id approver reason : Text) (now : ℕ) {s : Loop}
        → Step s (reject id approver reason now s).1
    edits : (fs : Dict Text) {s : Loop} → Step s (record s { files = fs })

  pub data Run (s : Loop) : Loop → Type 0 where
    idle : Run s s
    step : {t u : Loop} → Run s t → Step t u → Run s u

  reevaluate-Notes :
      (id path : Text) (loaded : Option (Text × Text)) (parent : Option Text) (trial : Trial)
      (times : Times) (s : Loop)
      → lookup id s.states ≡ none
      → is_some (lookup path s.files) ≡ true
      → Notes s (reevaluate id path loaded parent trial times s).1
  unfolding reevaluate
  reevaluate-Notes id path none parent trial times s fresh there = rw (reevaluate, there) blank
  reevaluate-Notes id path (some (name, version)) parent trial times s fresh there =
      rw (reevaluate, there)
        (run_cycle-Notes id reevaluation default_account
          (record {
            name = name;
            version = version;
            parent_technique = parent;
            saved_path = some path;
          })
          trial times s fresh)

  Step-Notes : {s t : Loop} → Step s t → IsTraced s → Notes s t
  unfolding improve_existing propose_new from_user_idea reevaluate
  Step-Notes (improves id none trial times fresh) h = blank
  Step-Notes (improves id (some g) trial times {s} fresh) h =
      run_cycle-Notes id improvement default_account g trial times s fresh
  Step-Notes (proposes id sub_account none trial times fresh) h = blank
  Step-Notes (proposes id sub_account (some g) trial times {s} fresh) h =
      run_cycle-Notes id new_idea sub_account g trial times s fresh
  Step-Notes (takes_idea id none trial times fresh) h = blank
  Step-Notes (takes_idea id (some g) trial times {s} fresh) h =
      run_cycle-Notes id user_idea default_account g trial times s fresh
  Step-Notes (reevaluates id path loaded parent trial times {s} fresh) h =
      elim (Bool-cases (is_some (lookup path s.files))) [
        | inr missing ↦ rw (reevaluate, missing) blank
        | inl there ↦ reevaluate-Notes id path loaded parent trial times s fresh there
      ]
  Step-Notes (approval id approver removes now {s}) h =
      approve-Notes rewrite_py rewrite_frontmatter active_dir id approver removes now s h
  Step-Notes (rejection id approver reason now {s}) h = reject-Notes id approver reason now s h
  Step-Notes (edits fs {s}) h = then_note blank (moves_files refl refl)

  Run-IsTraced : {s t : Loop} → Run s t → IsTraced s → IsTraced t
  Run-IsTraced idle h = h
  Run-IsTraced (step run st) h =
      let traced = Run-IsTraced run h in Notes-IsTraced (Step-Notes st traced) traced

  Run-Trail :
      {s t : Loop} → Run s t → IsTraced s → (id : Text) → Trail (status_of id s) (status_of id t)
  Run-Trail idle h id = stay
  Run-Trail (step run st) h id =
      Trail-trans (Run-Trail run h id) (Notes-Trail (Step-Notes st (Run-IsTraced run h)) id)

  -- From no candidates on, whatever the cycles report and however cycles, approvals, rejections,
  -- their errors and changes of the files follow each other: every state file is under its
  -- candidate's id; replaying the audit log gives each candidate the status in its state file; a
  -- candidate that awaits approval has passed the gate, with the event in the log; and a promoted one
  -- has been approved too.
  pub feedback_runs-IsTraced : (fs : Dict Text) (t : Loop) → Run (no_candidates fs) t → IsTraced t
  feedback_runs-IsTraced fs t run = Run-IsTraced run (no_candidates-IsTraced fs)

  -- Every such run is, for each candidate, a path in the graph of the lifecycle: generated, then
  -- backtested or errored, then awaiting approval, discarded or errored, then promoted or discarded.
  -- The same holds between any two loops of a run.
  pub feedback_refines_lifecycle :
      (fs : Dict Text) (s t : Loop) (id : Text)
      → Run (no_candidates fs) s
      → Run s t
      → Trail (status_of id s) (status_of id t)
  feedback_refines_lifecycle fs s t id before run =
      Run-Trail run (feedback_runs-IsTraced fs s before) id

  load_state-of_status :
      (id : Text) (s : Loop) (st : LoopStatus)
      → status_of id s ≡ some st
      → (r : CandidateRecord) × (load_state id s ≡ returns r) × (r.status ≡ st)
  unfolding load_state
  load_state-of_status id s st h = elim (Option-cases (lookup id s.states)) [
    | inl missing ↦ let lost = rw missing at h in cc
    | inr (none, there) ↦ let lost = rw there at h in cc
    | inr (some r, there) ↦
        let this : some r.status ≡ some st = rw there at h in
        (r, rw (load_state, there) refl, ground (arith, this))
  ]

  settled-is_awaiting : (st : LoopStatus) → IsSettled st → is_awaiting st ≡ false
  settled-is_awaiting st (inl e) = rw e refl
  settled-is_awaiting st (inr (inl e)) = rw e refl
  settled-is_awaiting st (inr (inr e)) = rw e refl

  -- A decision is final: a candidate that is promoted, discarded or errored has that status after any
  -- further run, and then neither an approval nor a rejection of it succeeds or changes anything.
  pub settled_candidate_stays :
      (fs : Dict Text) (s t : Loop) (id approver reason : Text) (removes : Bool) (now : ℕ)
      (st : LoopStatus)
      → Run (no_candidates fs) s
      → Run s t
      → status_of id s ≡ some st
      → (st ≡ promoted) ⊎ ((st ≡ discarded) ⊎ (st ≡ errored))
      → (status_of id t ≡ some st)
        × (approve rewrite_py rewrite_frontmatter active_dir id approver removes now t
            ≡ (raises wrong_status, t))
        × (reject id approver reason now t ≡ (raises wrong_status, t))
  unfolding approve reject
  settled_candidate_stays fs s t id approver reason removes now st before run here settled =
      let still =
        Trail-of_settled st (feedback_refines_lifecycle fs s t id before run) here settled in
      let (r, loads, is) = load_state-of_status id t st still in
      let decided : is_awaiting r.status ≡ false = rw is (settled-is_awaiting st settled) in
      (still, rw (approve, loads, decided) refl, rw (reject, loads, decided) refl)
