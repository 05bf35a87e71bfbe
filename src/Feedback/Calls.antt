-- ===== src/Feedback/Calls.antt =====
-- The calls of src/feedback/loop.py, as the writes that they are made of.
use crypto_master.Prelude.{
  ℕ, ◌≡◌, refl, ap, sym, subst, ◌∙◌, Bool, true, Option, none, some, List, [], ◌∷◌, ◌++◌, arith,
  inl, inr, Bool-cases, Option-cases,
}
use crypto_master.Text.{Text, same, same_refl}
use crypto_master.Dict.{Dict, lookup, lookup-insert}
use crypto_master.Feedback.{
  CandidateKind, LoopStatus, generated, backtested, awaiting_approval, promoted, discarded, errored,
  CandidateRecord, AuditEventType, on_generated, on_backtested, on_gate_passed, on_gate_failed,
  on_approved, on_rejected, on_promoted, on_discarded, on_errored, AuditEvent, Loop, same_event,
  system, audit_event, save_state, GeneratedTechnique, Trial, fails_early, fails_late, reports,
  Times, RobustnessReport, is_awaiting, Answer, returns, raises, new_candidate, after_backtest,
  after_gate, record_error, attempt, run_cycle, reject, load_state, approve_at, approve,
  promote_file,
}
use crypto_master.Feedback.Lifecycle.{
  Move, generates, backtests, passes, fails, errs_early, errs_late, approves, rejects, status_of,
  after, replay, logged, replay-append_one, logged-append_one,
}
use crypto_master.Feedback.Notes.{
  Earned, Grows, Note, moves_files, saves, Notes, blank, then_note, Notes-trans, IsTraced,
}

abbrev pub event_of : CandidateRecord → AuditEventType → Text → AuditEvent
event_of r e actor = record {
  event_type = e;
  candidate_id = r.candidate_id;
  technique_name = r.technique_name;
  technique_version = r.technique_version;
  actor = actor;
}

Grows-append_one : (log : List AuditEvent) (e : AuditEvent) → Grows log (log ++ e ∷ [])
Grows-append_one log e t id h = logged-append_one t id log e ∙ rw h refl

logged-of_last :
    (log : List AuditEvent) (r : CandidateRecord) (t : AuditEventType) (actor : Text)
    → same_event t t ≡ true
    → logged t r.candidate_id (log ++ event_of r t actor ∷ []) ≡ true
logged-of_last log r t actor h =
    logged-append_one t r.candidate_id log (event_of r t actor)
    ∙ rw (h, same_refl r.candidate_id) (ground arith)

-- A save with one event, and with two of which the first says nothing of the status.
audit_event-Note :
    (r : CandidateRecord) (e : AuditEventType) (actor : Text) (s : Loop)
    → ((st : Option LoopStatus) → after e st ≡ some r.status)
    → Move (status_of r.candidate_id s) (some r.status)
    → Earned r.status r (s.audit ++ event_of r e actor ∷ [])
    → Note s (audit_event r e actor (save_state r s))
unfolding audit_event save_state
audit_event-Note r e actor s tells move earns =
    saves r refl
      (λ id.
        replay-append_one id s.audit none (event_of r e actor)
        ∙ rw (tells (replay id none s.audit)) refl)
      (Grows-append_one s.audit (event_of r e actor)) move earns

audit_twice-Note :
    (r : CandidateRecord) (e e' : AuditEventType) (actor : Text) (s : Loop)
    → ((st : Option LoopStatus) → after e' (after e st) ≡ some r.status)
    → ((st : Option LoopStatus) → after e st ≡ st)
    → Move (status_of r.candidate_id s) (some r.status)
    → Earned r.status r ((s.audit ++ event_of r e actor ∷ []) ++ event_of r e' actor ∷ [])
    → Note s (audit_event r e' actor (audit_event r e actor (save_state r s)))
unfolding audit_event save_state
audit_twice-Note r e e' actor s tells quiet move earns =
    let first = event_of r e actor in
    let second = event_of r e' actor in
    saves r refl
      (λ id.
        replay-append_one id (s.audit ++ first ∷ []) none second
        ∙ rw (replay-append_one id s.audit none first, quiet (replay id none s.audit))
            (elim (Bool-cases (same r.candidate_id id)) [
              | inl hit ↦ rw hit (
                  ap (after e') (sym (quiet (replay id none s.audit)))
                  ∙ tells (replay id none s.audit))
              | inr miss ↦ rw miss refl
            ]))
      (λ t id h.
        Grows-append_one (s.audit ++ first ∷ []) second t id
          (Grows-append_one s.audit first t id h))
      move earns

-- The status after a save.
status_of-audit_event :
    (r : CandidateRecord) (e : AuditEventType) (actor : Text) (s : Loop)
    → status_of r.candidate_id (audit_event r e actor (save_state r s)) ≡ some r.status
unfolding audit_event save_state
status_of-audit_event r e actor s =
    rw (lookup-insert r.candidate_id r.candidate_id (some r) s.states, same_refl r.candidate_id)
      refl

after_backtest-Note :
    (run_id : Text) (now : ℕ) (r : CandidateRecord) (s : Loop)
    → status_of r.candidate_id s ≡ some generated
    → Note s (after_backtest run_id now r s).1
unfolding after_backtest
after_backtest-Note run_id now r s here =
    audit_event-Note _ on_backtested _ s (λ st. refl) (rw here backtests) tt

status_of-after_backtest :
    (run_id : Text) (now : ℕ) (r : CandidateRecord) (s : Loop)
    → status_of r.candidate_id (after_backtest run_id now r s).1 ≡ some backtested
unfolding after_backtest
status_of-after_backtest run_id now r s = status_of-audit_event _ on_backtested system s

after_gate-Note :
    (report : RobustnessReport) (now : ℕ) (r : CandidateRecord) (s : Loop)
    → status_of r.candidate_id s ≡ some backtested
    → Note s (after_gate report now r s).1
unfolding after_gate
after_gate-Note report now r s here = elim (Bool-cases report.overall_passed) [
  | inl passed ↦
      rw (after_gate, passed)
        (audit_event-Note _ on_gate_passed _ s (λ st. refl) (rw here passes)
          (refl, logged-of_last s.audit r on_gate_passed _ refl))
  | inr not_passed ↦
      rw (after_gate, not_passed)
        (audit_twice-Note _ on_gate_failed on_discarded _ s (λ st. refl) (λ st. refl)
          (rw here fails) tt)
]

record_error-Note :
    (message : Text) (now : ℕ) (r : CandidateRecord) (s : Loop)
    → Move (status_of r.candidate_id s) (some errored)
    → Note s (record_error message now r s)
unfolding record_error
record_error-Note message now r s move = audit_event-Note _ on_errored _ s (λ st. refl) move tt

attempt-Notes :
    (trial : Trial) (times : Times) (r : CandidateRecord) (s : Loop)
    → status_of r.candidate_id s ≡ some generated
    → Notes s (attempt trial times r s).1
unfolding attempt after_backtest
attempt-Notes (fails_early message) times r s here =
    then_note blank (record_error-Note message times.at_end r s (rw here errs_early))
attempt-Notes (fails_late run_id message) times r s here =
    let (r', s') = after_backtest run_id times.at_backtest r s in
    then_note (then_note blank (after_backtest-Note run_id times.at_backtest r s here)) (
      record_error-Note message times.at_end r' s'
        (rw (status_of-after_backtest run_id times.at_backtest r s) errs_late))
attempt-Notes (reports run_id report) times r s here =
    let (r', s') = after_backtest run_id times.at_backtest r s in
    then_note (then_note blank (after_backtest-Note run_id times.at_backtest r s here)) (
      after_gate-Note report times.at_end r' s'
        (status_of-after_backtest run_id times.at_backtest r s))

-- A cycle, under a new id.
pub run_cycle-Notes :
    (id : Text) (kind : CandidateKind) (sub_account : Text) (technique : GeneratedTechnique)
    (trial : Trial) (times : Times) (s : Loop)
    → lookup id s.states ≡ none
    → Notes s (run_cycle id kind sub_account technique trial times s).1
unfolding run_cycle
run_cycle-Notes id kind sub_account technique trial times s fresh =
    elim (Option-cases technique.saved_path) [
      | inl not_there ↦ rw (run_cycle, not_there) blank
      | inr (path, there) ↦
          let r = new_candidate id kind sub_account times technique path in
          rw (run_cycle, there)
            (Notes-trans
              (then_note blank
                (audit_event-Note r on_generated _ s (λ st. refl) (rw fresh generates) tt))
              (attempt-Notes trial times r _ (status_of-audit_event r on_generated system s)))
    ]

-- A state file that loads: the candidate in it, and its status.
load_state-returns :
    (id : Text) (s : Loop) (r : CandidateRecord)
    → load_state id s ≡ returns r
    → lookup id s.states ≡ some (some r)
unfolding load_state
load_state-returns id s r h = elim (Option-cases (lookup id s.states)) [
  | inl missing ↦ cc (rw (load_state, missing) at h)
  | inr (none, there) ↦ cc (rw (load_state, there) at h)
  | inr (some r', there) ↦
      let this : returns r' ≡ returns r = rw (load_state, there) at h in
      there ∙ ground (arith, this)
]

is_awaiting-status : (st : LoopStatus) → is_awaiting st ≡ true → st ≡ awaiting_approval
is_awaiting-status awaiting_approval h = refl
is_awaiting-status generated h = cc
is_awaiting-status backtested h = cc
is_awaiting-status promoted h = cc
is_awaiting-status discarded h = cc
is_awaiting-status errored h = cc

-- What a decision finds: the candidate's state file, and why it awaits approval.
pub record IsAwaiting (s : Loop) (r : CandidateRecord) : Type 0 where
  pub awaits : status_of r.candidate_id s ≡ some awaiting_approval
  pub passed : r.robustness_passed ≡ some true
  pub gated : logged on_gate_passed r.candidate_id s.audit ≡ true

found-IsAwaiting :
    (id : Text) (s : Loop) (r : CandidateRecord)
    → IsTraced s
    → load_state id s ≡ returns r
    → is_awaiting r.status ≡ true
    → IsAwaiting s r
found-IsAwaiting id s r h found awaiting =
    let there = load_state-returns id s r found in
    let is = is_awaiting-status r.status awaiting in
    let e : Earned awaiting_approval r s.audit =
      subst (λ st. Earned st r s.audit) is (h.earned id r there) in
    let at_id = h.filed id r there in
    record { awaits = rw (at_id, there, is) refl; passed = e.0; gated = e.1 }

pub reject-Notes :
    (id approver reason : Text) (now : ℕ) (s : Loop)
    → IsTraced s
    → Notes s (reject id approver reason now s).1
unfolding reject
reject-Notes id approver reason now s h = rejects_found (load_state id s) refl
  where
    rejects_found :
        (a : Answer CandidateRecord)
        → load_state id s ≡ a
        → Notes s (reject id approver reason now s).1
    rejects_found (raises f) e = rw (reject, e) blank
    rejects_found (returns r) e = elim (Bool-cases (is_awaiting r.status)) [
      | inr decided ↦ rw (reject, e, decided) blank
      | inl awaiting ↦
          let w = found-IsAwaiting id s r h e awaiting in
          rw (reject, e, awaiting)
            (then_note blank (
              audit_twice-Note _ on_rejected on_discarded approver s (λ st. refl) (λ st. refl)
                (rw w.awaits rejects) tt))
    ]

approve_at-Notes :
    (r : CandidateRecord) (approver : Text) (now : ℕ) (a : Answer Text × Dict Text) (s : Loop)
    → IsAwaiting s r
    → Notes s (approve_at r approver now a s).1
unfolding approve_at
approve_at-Notes r approver now (raises f, fs) s w = then_note blank (moves_files refl refl)
approve_at-Notes r approver now (returns path, fs) s w =
    let s' : Loop = record s { files = fs } in
    let files_moved : Note s s' = moves_files refl refl in
    let before = event_of r on_approved approver in
    let after_all = event_of r on_promoted approver in
    then_note (then_note blank files_moved) (
      audit_twice-Note _ on_approved on_promoted approver s' (λ st. refl) (λ st. refl)
        (rw w.awaits approves)
        (
          w.passed,
          Grows-append_one (s.audit ++ before ∷ []) after_all on_gate_passed r.candidate_id
              (Grows-append_one s.audit before on_gate_passed r.candidate_id w.gated),
          Grows-append_one (s.audit ++ before ∷ []) after_all on_approved r.candidate_id
              (logged-of_last s.audit r on_approved approver refl),
        ))

module _ (rewrite_py : Text → Option Text) (rewrite_frontmatter : Text → Option Text)
    (active_dir : Text) where
  pub approve-Notes :
      (id approver : Text) (removes : Bool) (now : ℕ) (s : Loop)
      → IsTraced s
      → Notes s (approve rewrite_py rewrite_frontmatter active_dir id approver removes now s).1
  unfolding approve
  approve-Notes id approver removes now s h = approves_found (load_state id s) refl
    where
      approves_found :
          (a : Answer CandidateRecord)
          → load_state id s ≡ a
          → Notes s (approve rewrite_py rewrite_frontmatter active_dir id approver removes now s).1
      approves_found (raises f) e = rw (approve, e) blank
      approves_found (returns r) e = elim (Bool-cases (is_awaiting r.status)) [
        | inr decided ↦ rw (approve, e, decided) blank
        | inl awaiting ↦
            rw (approve, e, awaiting)
              (approve_at-Notes r approver now
                (promote_file rewrite_py rewrite_frontmatter active_dir removes r.source_path
                  s.files)
                s (found-IsAwaiting id s r h e awaiting))
      ]
