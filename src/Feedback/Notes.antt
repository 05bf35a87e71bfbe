-- ===== src/Feedback/Notes.antt =====
-- What one write of src/feedback/loop.py does: a state file saved, and its audit events.
use crypto_master.Prelude.{
  ◌≡◌, refl, ap, sym, subst, ◌∙◌, true, none, some, List, if◌then◌else◌, arith, inl, inr,
  Bool-cases,
}
use crypto_master.Text.{Text, same, same_iff}
use crypto_master.Dict.{lookup, insert, lookup-insert}
use crypto_master.Feedback.{
  LoopStatus, generated, backtested, awaiting_approval, promoted, discarded, errored,
  CandidateRecord, AuditEventType, on_gate_passed, on_approved, AuditEvent, Loop,
}
use crypto_master.Feedback.Lifecycle.{
  Move, Trail, stay, then_move, status_in, status_of, replay, logged,
}

-- What the log must have for a candidate that awaits approval, and for a promoted one.
abbrev pub Earned : LoopStatus → CandidateRecord → List AuditEvent → Type 0
Earned awaiting_approval r log =
    (r.robustness_passed ≡ some true) × (logged on_gate_passed r.candidate_id log ≡ true)
Earned promoted r log =
    (r.robustness_passed ≡ some true)
    × (logged on_gate_passed r.candidate_id log ≡ true)
    × (logged on_approved r.candidate_id log ≡ true)
Earned generated r log = Unit
Earned backtested r log = Unit
Earned discarded r log = Unit
Earned errored r log = Unit

abbrev pub Grows : List AuditEvent → List AuditEvent → Type 0
Grows log log' = (t : AuditEventType) (id : Text) → logged t id log ≡ true → logged t id log' ≡ true

Earned-Grows :
    (st : LoopStatus) (r : CandidateRecord) (log log' : List AuditEvent)
    → Grows log log'
    → Earned st r log
    → Earned st r log'
Earned-Grows awaiting_approval r log log' g e = (e.0, g on_gate_passed r.candidate_id e.1)
Earned-Grows promoted r log log' g e =
    (e.0, g on_gate_passed r.candidate_id e.1, g on_approved r.candidate_id e.2)
Earned-Grows generated r log log' g e = tt
Earned-Grows backtested r log log' g e = tt
Earned-Grows discarded r log log' g e = tt
Earned-Grows errored r log log' g e = tt

-- A change of the loop: of the files alone, or of one candidate, by a move that the log tells.
pub data Note (s t : Loop) : Type 0 where
  moves_files : t.states ≡ s.states → t.audit ≡ s.audit → Note s t
  saves :
      (r : CandidateRecord)
      → t.states ≡ insert r.candidate_id (some r) s.states
      → ((id : Text)
          → replay id none t.audit
            ≡ (if same r.candidate_id id then some r.status else replay id none s.audit))
      → Grows s.audit t.audit
      → Move (status_of r.candidate_id s) (some r.status)
      → Earned r.status r t.audit
      → Note s t

pub data Notes (s : Loop) : Loop → Type 0 where
  blank : Notes s s
  then_note : {t u : Loop} → Notes s t → Note t u → Notes s u

pub Notes-trans : {s t u : Loop} → Notes s t → Notes t u → Notes s u
Notes-trans p blank = p
Notes-trans p (then_note q n) = then_note (Notes-trans p q) n

same_sym : (a b : Text) → same a b ≡ same b a
same_sym a b = elim (Bool-cases (same a b)) [
  | inl hit ↦ ground (arith, same_iff a b, same_iff b a)
  | inr miss ↦ ground (arith, same_iff a b, same_iff b a)
]

-- The state files are under their candidates' ids, the log tells the status of each, and none awaits
-- approval or is promoted that did not earn it.
pub record IsTraced (s : Loop) : Type 0 where
  pub filed :
      (id : Text) (r : CandidateRecord) → lookup id s.states ≡ some (some r) → r.candidate_id ≡ id
  pub replayed : (id : Text) → replay id none s.audit ≡ status_of id s
  pub earned :
      (id : Text) (r : CandidateRecord)
      → lookup id s.states ≡ some (some r)
      → Earned r.status r s.audit

pub Note-IsTraced : {s t : Loop} → Note s t → IsTraced s → IsTraced t
Note-IsTraced {s} {t} (moves_files states audit) h = record {
  filed = λ id r found. h.filed id r (ap (lookup id) (sym states) ∙ found);
  replayed = λ id.
      ap (replay id none) audit ∙ h.replayed id ∙ ap (λ d. status_in (lookup id d)) (sym states);
  earned = λ id r found.
      subst (Earned r.status r) (sym audit) (h.earned id r (ap (lookup id) (sym states) ∙ found));
}
Note-IsTraced {s} {t} (saves r states told grows move earns) h =
    let here =
      λ (id : Text). ap (lookup id) states ∙ lookup-insert r.candidate_id id (some r) s.states in
    record {
      filed = λ id r' found. elim (Bool-cases (same id r.candidate_id)) [
        | inl hit ↦
            let this : some (some r) ≡ some (some r') = rw hit at (sym (here id) ∙ found) in
            let is_r : r ≡ r' = ground (arith, this) in
            ap (λ (q : CandidateRecord). q.candidate_id) (sym is_r)
            ∙ sym ((same_iff id r.candidate_id).0 hit)
        | inr miss ↦ h.filed id r' (rw miss at (sym (here id) ∙ found))
      ];
      replayed = λ id.
          told id
          ∙ rw (here id, same_sym r.candidate_id id)
              (elim (Bool-cases (same id r.candidate_id)) [
                | inl hit ↦ rw hit refl
                | inr miss ↦ rw miss (h.replayed id)
              ]);
      earned = λ id r' found. elim (Bool-cases (same id r.candidate_id)) [
        | inl hit ↦
            let this : some (some r) ≡ some (some r') = rw hit at (sym (here id) ∙ found) in
            let is_r : r ≡ r' = ground (arith, this) in
            subst (λ (q : CandidateRecord). Earned q.status q t.audit) is_r earns
        | inr miss ↦
            Earned-Grows r'.status r' s.audit t.audit grows
              (h.earned id r' (rw miss at (sym (here id) ∙ found)))
      ];
    }

-- A note takes every candidate along at most one move.
pub Note-Trail : {s t : Loop} → Note s t → (id : Text) → Trail (status_of id s) (status_of id t)
Note-Trail {s} {t} (moves_files states audit) id =
    subst (λ d. Trail (status_of id s) (status_in (lookup id d))) (sym states) stay
Note-Trail {s} {t} (saves r states told grows move earns) id =
    let here = ap (lookup id) states ∙ lookup-insert r.candidate_id id (some r) s.states in
    elim (Bool-cases (same id r.candidate_id)) [
      | inl hit ↦
          rw (here, hit)
            (then_move stay (
              subst (λ k. Move (status_of k s) (some r.status))
                (sym ((same_iff id r.candidate_id).0 hit)) move))
      | inr miss ↦ rw (here, miss) stay
    ]
