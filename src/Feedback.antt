-- ===== src/Feedback.antt =====
-- src/feedback/loop.py and src/feedback/audit.py: the life of a candidate strategy. The clock, new ids
-- and what a backtest and its gate report come in as arguments, and so does whether the removal of a
-- file succeeds; the rewriting of a strategy's file, which rests on Python's and YAML's parsers, is a
-- parameter. Other files are read and written without fault.
pub mod Lifecycle
pub mod Notes
pub mod Calls
pub mod Run
pub mod Promotion
pub mod Named
use crypto_master.Prelude.{
  ℕ, Bool, true, false, Option, none, some, List, [], ◌∷◌, ◌++◌, ◌&&◌, ◌||◌, ◌==◌, if◌then◌else◌,
  is_some, keep, map,
}
use crypto_master.Text.{Text, text, same}
use crypto_master.Dict.{Dict, lookup, insert, erase}
use crypto_master.Correlation.Groups.{before, sorted}

pub data CandidateKind : Type 0 where
  improvement new_idea user_idea reevaluation : CandidateKind

pub data LoopStatus : Type 0 where
  generated backtested awaiting_approval promoted discarded errored : LoopStatus

pub record CandidateRecord : Type 0 where
  pub candidate_id : Text
  pub kind : CandidateKind
  pub parent_technique : Option Text
  pub technique_name : Text
  pub technique_version : Text
  pub source_path : Text
  pub status : LoopStatus
  pub backtest_run_id : Option Text
  pub robustness_passed : Option Bool
  pub robustness_summary : Option Text
  pub failed_gates : List Text
  pub decision_reason : Text
  pub sub_account_id : Text
  pub created_at : ℕ
  pub updated_at : ℕ

pub data AuditEventType : Type 0 where
  on_generated on_backtested on_gate_passed on_gate_failed on_approved : AuditEventType
  on_rejected on_promoted on_discarded on_errored : AuditEventType

pub record AuditEvent : Type 0 where
  pub event_type : AuditEventType
  pub candidate_id : Text
  pub technique_name : Text
  pub technique_version : Text
  pub actor : Text

-- The files of the strategies by path, the state files by candidate, where `none` is one that cannot
-- be parsed, and the audit log.
pub record Loop : Type 0 where
  pub files : Dict Text
  pub states : Dict (Option CandidateRecord)
  pub audit : List AuditEvent

-- `FeedbackLoopError`, by the place that raises it; `failed` is what a cycle raises again.
pub data Fault : Type 0 where
  not_saved no_state unreadable wrong_status no_source not_rewritten target_exists : Fault
  not_removed failed : Fault

pub data Answer (A : Type 0) : Type 0 where
  returns : A → Answer A
  raises : Fault → Answer A

-- `_audit`
unfoldable pub audit_event : CandidateRecord → AuditEventType → Text → Loop → Loop
audit_event r e actor s =
    let event : AuditEvent = record {
      event_type = e;
      candidate_id = r.candidate_id;
      technique_name = r.technique_name;
      technique_version = r.technique_version;
      actor = actor;
    } in
    record s { audit = s.audit ++ event ∷ [] }

unfoldable pub save_state : CandidateRecord → Loop → Loop
save_state r s = record s { states = insert r.candidate_id (some r) s.states }

abbrev pub parsed : Option (Option CandidateRecord) → Answer CandidateRecord
parsed none = raises no_state
parsed (some none) = raises unreadable
parsed (some (some r)) = returns r

unfoldable pub load_state : Text → Loop → Answer CandidateRecord
load_state id s = parsed (lookup id s.states)

abbrev pub is_awaiting : LoopStatus → Bool
is_awaiting awaiting_approval = true
is_awaiting _ = false

-- The loop of `list_pending` over the state files.
unfoldable pub pending : Dict (Option CandidateRecord) → List CandidateRecord
pending [] = []
pending ((_, none) ∷ d) = pending d
pending ((_, some r) ∷ d) = let rest = pending d in if is_awaiting r.status then r ∷ rest else rest

abbrev pub state_file : Text → Text
state_file id = id ++ text ".json"

unfoldable pub list_pending : Loop → List CandidateRecord
unfolding pending
list_pending s = pending (sorted (λ a b. before (state_file a.0) (state_file b.0)) s.states)

-- `AuditLog.filter`, on the events within the log's retention
abbrev pub same_event : AuditEventType → AuditEventType → Bool
same_event on_generated on_generated = true
same_event on_backtested on_backtested = true
same_event on_gate_passed on_gate_passed = true
same_event on_gate_failed on_gate_failed = true
same_event on_approved on_approved = true
same_event on_rejected on_rejected = true
same_event on_promoted on_promoted = true
same_event on_discarded on_discarded = true
same_event on_errored on_errored = true
same_event _ _ = false

abbrev pub of_candidate : Option Text → List AuditEvent → List AuditEvent
of_candidate none es = es
of_candidate (some id) es = keep (λ e. same e.candidate_id id) es

abbrev pub of_type : Option AuditEventType → List AuditEvent → List AuditEvent
of_type none es = es
of_type (some t) es = keep (λ e. same_event e.event_type t) es

unfoldable pub filter_audit : Option Text → Option AuditEventType → Loop → List AuditEvent
filter_audit id t s = of_type t (of_candidate id s.audit)

-- `source_path.name`
unfoldable pub last_part : Text → Text → Text
last_part part [] = part
last_part part (c ∷ s) = if c == 47 then last_part [] s else last_part (part ++ c ∷ []) s

-- `source_path.suffix.lower() == ".py"`, on the name
abbrev pub is_dot_py : Text → Bool
is_dot_py (d ∷ p ∷ y ∷ []) = (d == 46) && ((p == 112 || p == 80) && (y == 121 || y == 89))
is_dot_py _ = false

unfoldable pub is_py_name : Text → Bool
is_py_name [] = false
is_py_name (c ∷ s) = is_dot_py s || is_py_name s

-- What the loop reads of a generated strategy.
pub record GeneratedTechnique : Type 0 where
  pub name : Text
  pub version : Text
  pub parent_technique : Option Text
  pub saved_path : Option Text

-- What it reads of the gate's report: each gate with whether it failed.
pub record RobustnessReport : Type 0 where
  pub overall_passed : Bool
  pub summary : Text
  pub gates : List (Text × Bool)

-- How a cycle goes: an error before the backtest is recorded, one after it, or a report.
pub data Trial : Type 0 where
  fails_early : Text → Trial
  fails_late : Text → Text → Trial
  reports : Text → RobustnessReport → Trial

-- The times that a cycle reads.
pub record Times : Type 0 where
  pub created : ℕ
  pub updated : ℕ
  pub at_backtest : ℕ
  pub at_end : ℕ

abbrev pub system : Text
system = text "system"

-- `', '.join(names)`
unfoldable pub joined : List Text → Text
joined [] = []
joined (t ∷ []) = t
joined (t ∷ u ∷ ts) = t ++ (text ", " ++ joined (u ∷ ts))

-- `... or 'unknown'`
abbrev pub or_unknown : Text → Text
or_unknown [] = text "unknown"
or_unknown (c ∷ t) = c ∷ t

abbrev pub new_candidate :
    Text → CandidateKind → Text → Times → GeneratedTechnique → Text → CandidateRecord
new_candidate id kind sub_account times generated_technique path = record {
  candidate_id = id;
  kind = kind;
  parent_technique = generated_technique.parent_technique;
  technique_name = generated_technique.name;
  technique_version = generated_technique.version;
  source_path = path;
  status = generated;
  backtest_run_id = none;
  robustness_passed = none;
  robustness_summary = none;
  failed_gates = [];
  decision_reason = [];
  sub_account_id = sub_account;
  created_at = times.created;
  updated_at = times.updated;
}

-- `_after_backtest`
unfoldable pub after_backtest : Text → ℕ → CandidateRecord → Loop → CandidateRecord × Loop
unfolding save_state audit_event
after_backtest run_id now r s =
    let r' = record r { status = backtested; backtest_run_id = some run_id; updated_at = now } in
    (r', audit_event r' on_backtested system (save_state r' s))

-- `_after_gate`
unfoldable pub after_gate : RobustnessReport → ℕ → CandidateRecord → Loop → CandidateRecord × Loop
unfolding save_state audit_event joined
after_gate report now r s =
    let names = map (λ g. g.0) (keep (λ g. g.1) report.gates) in
    let passing = record r {
      status = awaiting_approval;
      robustness_passed = some true;
      robustness_summary = some report.summary;
      failed_gates = [];
      decision_reason = text "Robustness gate PASSED; awaiting user approval";
      updated_at = now;
    } in
    let failing = record r {
      status = discarded;
      robustness_passed = some false;
      robustness_summary = some report.summary;
      failed_gates = names;
      decision_reason = text "Discarded: gate FAILED on " ++ or_unknown (joined names);
      updated_at = now;
    } in
    if report.overall_passed
    then (passing, audit_event passing on_gate_passed system (save_state passing s))
    else (
      failing,
      audit_event failing on_discarded system
          (audit_event failing on_gate_failed system (save_state failing s)),
    )

-- The handler of `_run_cycle`.
unfoldable pub record_error : Text → ℕ → CandidateRecord → Loop → Loop
unfolding save_state audit_event
record_error message now r s =
    let r' = record r {
      status = errored;
      decision_reason = text "Errored: " ++ message;
      updated_at = now;
    } in
    audit_event r' on_errored system (save_state r' s)

unfoldable pub attempt : Trial → Times → CandidateRecord → Loop → Answer CandidateRecord × Loop
unfolding after_backtest after_gate record_error
attempt (fails_early message) times r s = (raises failed, record_error message times.at_end r s)
attempt (fails_late run_id message) times r s =
    let (r', s') = after_backtest run_id times.at_backtest r s in
    (raises failed, record_error message times.at_end r' s')
attempt (reports run_id report) times r s =
    let (r', s') = after_backtest run_id times.at_backtest r s in
    let (r'', s'') = after_gate report times.at_end r' s' in (returns r'', s'')

-- `_run_cycle`
unfoldable pub run_cycle :
    Text
    → CandidateKind
    → Text
    → GeneratedTechnique
    → Trial
    → Times
    → Loop
    → Answer CandidateRecord × Loop
unfolding save_state audit_event attempt
run_cycle id kind sub_account technique trial times s = elim technique.saved_path [
  | none ↦ (raises not_saved, s)
  | some path ↦
      let r = new_candidate id kind sub_account times technique path in
      attempt trial times r (audit_event r on_generated system (save_state r s))
]

abbrev pub default_account : Text
default_account = text "default"

-- The calls that start a cycle, on what the improver generates; `none` is that it raises, or that the
-- generated code cannot be loaded.
unfoldable pub improve_existing :
    Text → Option GeneratedTechnique → Trial → Times → Loop → Answer CandidateRecord × Loop
unfolding run_cycle
improve_existing id none trial times s = (raises failed, s)
improve_existing id (some g) trial times s =
    run_cycle id improvement default_account g trial times s

unfoldable pub propose_new :
    Text → Text → Option GeneratedTechnique → Trial → Times → Loop → Answer CandidateRecord × Loop
unfolding run_cycle
propose_new id sub_account none trial times s = (raises failed, s)
propose_new id sub_account (some g) trial times s =
    run_cycle id new_idea sub_account g trial times s

unfoldable pub from_user_idea :
    Text → Option GeneratedTechnique → Trial → Times → Loop → Answer CandidateRecord × Loop
unfolding run_cycle
from_user_idea id none trial times s = (raises failed, s)
from_user_idea id (some g) trial times s = run_cycle id user_idea default_account g trial times s

-- `reevaluate`, on the name and the version of the strategy that the file gives, if it can be loaded.
unfoldable pub reevaluate :
    Text
    → Text
    → Option (Text × Text)
    → Option Text
    → Trial
    → Times
    → Loop
    → Answer CandidateRecord × Loop
unfolding run_cycle
reevaluate id path loaded parent trial times s =
    if is_some (lookup path s.files)
    then elim loaded [
      | none ↦ (raises failed, s)
      | some (name, version) ↦
          run_cycle id reevaluation default_account
            (record {
              name = name;
              version = version;
              parent_technique = parent;
              saved_path = some path;
            })
            trial times s
    ]
    else (raises no_source, s)

-- `reject`
unfoldable pub reject : Text → Text → Text → ℕ → Loop → Answer CandidateRecord × Loop
unfolding save_state audit_event load_state
reject id approver reason now s = elim (load_state id s) [
  | raises e ↦ (raises e, s)
  | returns r ↦
      let r' = record r {
        status = discarded;
        decision_reason = text "Rejected by " ++ (approver ++ (text ": " ++ reason));
        updated_at = now;
      } in
      if is_awaiting r.status
      then (
        returns r',
        audit_event r' on_discarded approver
            (audit_event r' on_rejected approver (save_state r' s)),
      )
      else (raises wrong_status, s)
]

-- The end of `_promote_file`, where the file can be rewritten.
unfoldable pub write_active : Bool → Text → Text → Text → Dict Text → Answer Text × Dict Text
write_active removes source target content fs =
    if is_some (lookup target fs)
    then (raises target_exists, fs)
    else if removes
    then (returns target, erase source (insert target content fs))
    else (raises not_removed, erase target (insert target content fs))

-- The end of `approve`, after `_promote_file`.
unfoldable pub approve_at :
    CandidateRecord → Text → ℕ → Answer Text × Dict Text → Loop → Answer CandidateRecord × Loop
unfolding save_state audit_event
approve_at r approver now (raises e, fs) s = (raises e, record s { files = fs })
approve_at r approver now (returns path, fs) s =
    let r' = record r {
      status = promoted;
      source_path = path;
      decision_reason = text "Approved by " ++ approver;
      updated_at = now;
    } in
    (
      returns r',
      audit_event r' on_promoted approver
          (audit_event r' on_approved approver (save_state r' (record s { files = fs }))),
    )

-- The rewriting for a name, of the two to the status "active"; `none` is that it raises.
abbrev pub rewritten : (Text → Option Text) → (Text → Option Text) → Text → Text → Option Text
rewritten rewrite_py rewrite_frontmatter name content =
    if is_py_name name then rewrite_py content else rewrite_frontmatter content

abbrev pub target_of : Text → Text → Text
target_of active_dir source = active_dir ++ (text "/" ++ last_part [] source)

module _ (rewrite_py : Text → Option Text) (rewrite_frontmatter : Text → Option Text)
    (active_dir : Text) where
  -- `_promote_file`
  unfoldable pub promote_file : Bool → Text → Dict Text → Answer Text × Dict Text
  unfolding write_active last_part is_py_name
  promote_file removes source fs = elim (lookup source fs) [
    | none ↦ (raises no_source, fs)
    | some original ↦
        elim (rewritten rewrite_py rewrite_frontmatter (last_part [] source) original) [
          | none ↦ (raises not_rewritten, fs)
          | some content ↦ write_active removes source (target_of active_dir source) content fs
        ]
  ]

  unfoldable pub approve : Text → Text → Bool → ℕ → Loop → Answer CandidateRecord × Loop
  unfolding load_state promote_file approve_at
  approve id approver removes now s = elim (load_state id s) [
    | raises e ↦ (raises e, s)
    | returns r ↦
        if is_awaiting r.status
        then approve_at r approver now (promote_file removes r.source_path s.files) s
        else (raises wrong_status, s)
  ]
