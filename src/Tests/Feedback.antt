-- ===== src/Tests/Feedback.antt =====
-- Tests and instances for src/feedback/loop.py.
use crypto_master.Prelude.{◌≡◌, inr, refl, true, false, none, some, Option, [], ◌∷◌, ◌++◌, length}
use crypto_master.Text.{Text, text, same}
use crypto_master.Dict.{Dict, lookup, insert, erase}
use crypto_master.Correlation.Groups.{sorted, insert_sorted, before}
use crypto_master.Feedback.{
  awaiting_approval, promoted, errored, CandidateRecord, AuditEvent, on_promoted, Loop, returns,
  raises, wrong_status, not_removed, GeneratedTechnique, RobustnessReport, fails_late, reports,
  new_idea, Times, on_approved, audit_event, save_state, load_state, pending, list_pending,
  filter_audit, last_part, is_py_name, joined, after_backtest, after_gate, record_error, attempt,
  run_cycle, improve_existing, propose_new, from_user_idea, reevaluate, reject, write_active,
  approve_at, promote_file, approve,
}
use crypto_master.Feedback.Lifecycle.{Trail, status_of}
use crypto_master.Feedback.Notes.{IsTraced}
use crypto_master.Feedback.Run.{
  no_candidates, Run, idle, step, improves, proposes, approval, feedback_runs-IsTraced,
  feedback_refines_lifecycle, settled_candidate_stays,
}
use crypto_master.Feedback.Promotion.{approve_atomic}
use crypto_master.Feedback.Named.{python, approve_promotes}
use crypto_master.Paper.Symbols.{has_slash}

unfoldable feedback : Unit {0}
unfolding has_slash lookup insert erase same sorted insert_sorted before audit_event save_state
    load_state pending list_pending filter_audit last_part is_py_name joined after_backtest
    after_gate record_error attempt run_cycle improve_existing propose_new from_user_idea reevaluate
    reject write_active approve_at promote_file approve
feedback = tt

abbrev as_active : Text → Option Text
as_active content = some (text "active " ++ content)

abbrev as_markdown : Text → Option Text
as_markdown content = some (text "status: active " ++ content)

abbrev active : Text
active = text "strategies"

abbrev source : Text
source = text "strategies/experimental/rsi.py"

abbrev technique : GeneratedTechnique
technique = record {
  name = text "rsi";
  version = text "0.1.0";
  parent_technique = none;
  saved_path = some source;
}

abbrev good : RobustnessReport
good = record { overall_passed = true; summary = text "fine"; gates = (text "oos", false) ∷ [] }

abbrev times : Times
times = record { created = 1; updated = 1; at_backtest = 2; at_end = 3 }

abbrev fs : Dict Text
fs = (source, text "code") ∷ []

-- One candidate passes its gate, another errs after its backtest.
abbrev first_cycle : Loop
first_cycle =
    (propose_new (text "c1") (text "main") (some technique) (reports (text "r1") good) times
      (no_candidates fs)).1

abbrev waiting : Loop
waiting =
    (improve_existing (text "c2") (some technique) (fails_late (text "r2") (text "oops")) times
      first_cycle).1

abbrev approved : Loop
approved = (approve as_active as_active active (text "c1") (text "ann") true 4 waiting).1

statuses :
    (status_of (text "c1") waiting ≡ some awaiting_approval)
    × (status_of (text "c2") waiting ≡ some errored)
    × (status_of (text "c1") approved ≡ some promoted)
    × (length (list_pending waiting) ≡ 1)
    × (length (list_pending approved) ≡ 0)
    × (length (filter_audit (some (text "c1")) none approved) ≡ 5)
    × (length (filter_audit none (some on_approved) approved) ≡ 1)
unfolding feedback
statuses = (refl, refl, refl, refl, refl, refl, refl)

names :
    (last_part [] source ≡ text "rsi.py")
    × (is_py_name (text "rsi.PY") ≡ true)
    × (is_py_name (text ".py") ≡ false)
    × (is_py_name (text "rsi.md") ≡ false)
    × (joined (text "a" ∷ text "b" ∷ []) ≡ text "a, b")
unfolding feedback
names = (refl, refl, refl, refl, refl)

before_decision : Run as_active as_active active (no_candidates fs) waiting
unfolding feedback
before_decision =
    step
      (step idle
        (proposes (text "c1") (text "main") (some technique) (reports (text "r1") good) times refl))
      (improves (text "c2") (some technique) (fails_late (text "r2") (text "oops")) times refl)

decision : Run as_active as_active active waiting approved
unfolding feedback
decision = step idle (approval (text "c1") (text "ann") true 4)

feedback_runs-IsTraced_example : IsTraced waiting
feedback_runs-IsTraced_example =
    feedback_runs-IsTraced as_active as_active active fs waiting before_decision

feedback_refines_lifecycle_example :
    Trail (status_of (text "c1") waiting) (status_of (text "c1") approved)
feedback_refines_lifecycle_example =
    feedback_refines_lifecycle as_active as_active active fs waiting approved (text "c1")
      before_decision decision

settled_candidate_stays_example :
    (status_of (text "c2") approved ≡ some errored)
    × (approve as_active as_active active (text "c2") (text "ann") true 5 approved
        ≡ (raises wrong_status, approved))
    × (reject (text "c2") (text "ann") (text "no") 5 approved ≡ (raises wrong_status, approved))
unfolding feedback
settled_candidate_stays_example =
    settled_candidate_stays as_active as_active active fs waiting approved (text "c2") (text "ann")
      (text "no") true 5 errored before_decision decision refl (inr (inr refl))

-- The removal of the candidate's file fails.
abbrev not_approved : Loop
not_approved = (approve as_active as_active active (text "c1") (text "ann") false 4 waiting).1

approve_atomic_example :
    (not_approved.states ≡ waiting.states)
    × (not_approved.audit ≡ waiting.audit)
    × (lookup (text "strategies/rsi.py") not_approved.files
        ≡ lookup (text "strategies/rsi.py") waiting.files)
unfolding feedback
approve_atomic_example =
    approve_atomic as_active as_active active (text "c1") (text "ann") false 4 waiting not_approved
      not_removed (text "strategies/rsi.py") refl

abbrev candidate : CandidateRecord
candidate = record {
  candidate_id = text "c1";
  kind = new_idea;
  parent_technique = none;
  technique_name = text "rsi";
  technique_version = text "0.1.0";
  source_path = source;
  status = awaiting_approval;
  backtest_run_id = some (text "r1");
  robustness_passed = some true;
  robustness_summary = some (text "fine");
  failed_gates = [];
  decision_reason = text "Robustness gate PASSED; awaiting user approval";
  sub_account_id = text "main";
  created_at = 1;
  updated_at = 3;
}

-- The candidate's file is one of Python code, so the other rewriting does not come in.
approve_promotes_example :
    let (answer, s') =
      approve as_active as_markdown active (text "c1") (text "ann") true 4 waiting in
    let r' : CandidateRecord = record candidate {
      status = promoted;
      source_path = text "strategies/rsi.py";
      decision_reason = text "Approved by ann";
      updated_at = 4;
    } in
    let approval : AuditEvent = record {
      event_type = on_approved;
      candidate_id = text "c1";
      technique_name = text "rsi";
      technique_version = text "0.1.0";
      actor = text "ann";
    } in
    (answer ≡ returns r')
    × (load_state (text "c1") s' ≡ returns r')
    × (lookup source s'.files ≡ none)
    × (s'.audit
        ≡ (waiting.audit ++ approval ∷ []) ++ record approval { event_type = on_promoted } ∷ [])
unfolding feedback
approve_promotes_example =
    approve_promotes as_active as_markdown active (text "c1") (text "ann")
      (text "strategies/experimental") (text "rsi.py") 4 waiting candidate (text "code")
      (text "active code") source refl refl refl refl refl (python 114 (text "si") refl) refl
