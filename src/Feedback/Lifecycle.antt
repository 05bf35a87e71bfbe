-- ===== src/Feedback/Lifecycle.antt =====
-- The life of a candidate of src/feedback/loop.py: the moves between its states, and what the audit
-- log says of them.
use crypto_master.Prelude.{
  ◌≡◌, refl, Bool, false, Option, none, some, List, [], ◌∷◌, ◌++◌, ◌&&◌, ◌||◌, if◌then◌else◌, arith,
}
use crypto_master.Text.{Text, same}
use crypto_master.Dict.{lookup}
use crypto_master.Feedback.{
  LoopStatus, generated, backtested, awaiting_approval, promoted, discarded, errored,
  CandidateRecord, AuditEventType, on_generated, on_backtested, on_gate_passed, on_gate_failed,
  on_approved, on_rejected, on_promoted, on_discarded, on_errored, AuditEvent, Loop, same_event,
}

-- A move of a candidate, from the absent one on.
pub data Move : Option LoopStatus → Option LoopStatus → Type 0 where
  generates : Move none (some generated)
  backtests : Move (some generated) (some backtested)
  passes : Move (some backtested) (some awaiting_approval)
  fails : Move (some backtested) (some discarded)
  errs_early : Move (some generated) (some errored)
  errs_late : Move (some backtested) (some errored)
  approves : Move (some awaiting_approval) (some promoted)
  rejects : Move (some awaiting_approval) (some discarded)

pub data Trail (a : Option LoopStatus) : Option LoopStatus → Type 0 where
  stay : Trail a a
  then_move : {b d : Option LoopStatus} → Trail a b → Move b d → Trail a d

pub Trail-trans : {a b d : Option LoopStatus} → Trail a b → Trail b d → Trail a d
Trail-trans p stay = p
Trail-trans p (then_move q m) = then_move (Trail-trans p q) m

-- The status in a candidate's state file.
abbrev pub status_in : Option (Option CandidateRecord) → Option LoopStatus
status_in none = none
status_in (some none) = none
status_in (some (some r)) = some r.status

abbrev pub status_of : Text → Loop → Option LoopStatus
status_of id s = status_in (lookup id s.states)

-- The status that a candidate has after an event.
abbrev pub after : AuditEventType → Option LoopStatus → Option LoopStatus
after on_generated st = some generated
after on_backtested st = some backtested
after on_gate_passed st = some awaiting_approval
after on_gate_failed st = st
after on_approved st = st
after on_rejected st = st
after on_promoted st = some promoted
after on_discarded st = some discarded
after on_errored st = some errored

-- The status that a log gives a candidate, from the status before it.
abbrev pub replay : Text → Option LoopStatus → List AuditEvent → Option LoopStatus
replay id st [] = st
replay id st (e ∷ es) = replay id (if same e.candidate_id id then after e.event_type st else st) es

-- Whether the log has an event of a candidate.
abbrev pub logged : AuditEventType → Text → List AuditEvent → Bool
logged t id [] = false
logged t id (e ∷ es) = (same_event e.event_type t && same e.candidate_id id) || logged t id es

pub replay-append_one :
    (id : Text) (es : List AuditEvent) (st : Option LoopStatus) (e : AuditEvent)
    → replay id st (es ++ e ∷ [])
      ≡ (if same e.candidate_id id then after e.event_type (replay id st es) else replay id st es)
replay-append_one id [] st e = refl
replay-append_one id (d ∷ es) st e = replay-append_one id es _ e

pub logged-append_one :
    (t : AuditEventType) (id : Text) (es : List AuditEvent) (e : AuditEvent)
    → logged t id (es ++ e ∷ [])
      ≡ (logged t id es || (same_event e.event_type t && same e.candidate_id id))
logged-append_one t id [] e = ground arith
logged-append_one t id (d ∷ es) e = ground (arith, logged-append_one t id es e)
