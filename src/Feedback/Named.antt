-- ===== src/Feedback/Named.antt =====
-- An approval of src/feedback/loop.py, by the directory and the name of the candidate's file.
use crypto_master.Prelude.{
  ◌≡◌, refl, ap, sym, ◌∙◌, inl, inr, true, false, Option, none, some, [], ◌∷◌, ◌++◌, ◌==◌, ℕ,
  if◌then◌else◌, arith, Bool-cases,
}
use mathlib.Core.List.{append-nil, append_assoc}
use crypto_master.Text.{Text, text, same}
use crypto_master.Dict.{lookup}
use crypto_master.Paper.Symbols.{has_slash}
use crypto_master.Feedback.{
  awaiting_approval, promoted, CandidateRecord, AuditEvent, on_approved, on_promoted, Loop, returns,
  load_state, last_part, is_dot_py, is_py_name, rewritten, target_of, approve,
}
use crypto_master.Feedback.Promotion.{approve-of_ready}

pub last_part-plain :
    (part name : Text) → has_slash name ≡ false → last_part part name ≡ part ++ name
unfolding last_part has_slash
last_part-plain part [] h = sym (append-nil part)
last_part-plain part (c ∷ name) h = elim (Bool-cases (c == 47)) [
  | inl slash ↦ cc (rw slash at h)
  | inr plain ↦
      rw plain
        (last_part-plain (part ++ c ∷ []) name (rw plain at h) ∙ append_assoc part (c ∷ []) name)
]

pub last_part-join :
    (part dir name : Text)
    → has_slash name ≡ false
    → last_part part (dir ++ (text "/" ++ name)) ≡ name
unfolding last_part
last_part-join part [] name h = last_part-plain [] name h
last_part-join part (c ∷ dir) name h = elim (Bool-cases (c == 47)) [
  | inl slash ↦ rw slash (last_part-join [] dir name h)
  | inr plain ↦ rw plain (last_part-join (part ++ c ∷ []) dir name h)
]

is_py_name-py : (c : ℕ) (stem : Text) → is_py_name (c ∷ (stem ++ text ".py")) ≡ true
unfolding is_py_name
is_py_name-py c [] = refl
is_py_name-py c (d ∷ stem) = ground (arith, is_py_name-py d stem)

is_dot_py-md : (b c d : ℕ) (stem : Text) → is_dot_py (b ∷ c ∷ d ∷ (stem ++ text ".md")) ≡ false
is_dot_py-md b c d [] = refl
is_dot_py-md b c d (e ∷ stem) = refl

is_py_name-md : (stem : Text) → is_py_name (stem ++ text ".md") ≡ false
unfolding is_py_name
is_py_name-md [] = refl
is_py_name-md (a ∷ []) = refl
is_py_name-md (a ∷ b ∷ []) = refl
is_py_name-md (a ∷ b ∷ c ∷ []) = refl
is_py_name-md (a ∷ b ∷ c ∷ d ∷ stem) =
    rw (is_dot_py-md b c d stem) (is_py_name-md (b ∷ c ∷ d ∷ stem))

module _ (rewrite_py : Text → Option Text) (rewrite_frontmatter : Text → Option Text) where
  -- What the text of a file of a name is rewritten to: a Python file by its assignment, a Markdown file
  -- by its frontmatter.
  pub data IsRewritten (original content : Text) : Text → Type 0 where
    python :
        (c : ℕ) (stem : Text)
        → rewrite_py original ≡ some content
        → IsRewritten original content (c ∷ (stem ++ text ".py"))
    markdown :
        (stem : Text)
        → rewrite_frontmatter original ≡ some content
        → IsRewritten original content (stem ++ text ".md")

  rewritten-IsRewritten :
      {original content name : Text}
      → IsRewritten original content name
      → rewritten rewrite_py rewrite_frontmatter name original ≡ some content
  rewritten-IsRewritten (python c stem e) = rw (is_py_name-py c stem) e
  rewritten-IsRewritten (markdown stem e) = rw (is_py_name-md stem) e

  -- Where a candidate awaits approval, its file is there, in any directory, and the rewriting that goes
  -- with the ending of its name, of Python code for ".py" and of the frontmatter for ".md", gives a
  -- text, where nothing has its name in the active directory and the file can be removed, an approval
  -- does not raise. The active directory then has that text under that name, the candidate's file is
  -- gone, and every other file is as before; the candidate's state file has it promoted at its new
  -- path, by that approver at that time, and otherwise as it was; and the audit log has the approval
  -- and then the promotion by the approver added.
  pub approve_promotes :
      (active_dir id approver dir name : Text) (now : ℕ) (s : Loop) (r : CandidateRecord)
      (original content path : Text)
      → load_state id s ≡ returns r
      → r.status ≡ awaiting_approval
      → r.source_path ≡ dir ++ (text "/" ++ name)
      → has_slash name ≡ false
      → lookup r.source_path s.files ≡ some original
      → IsRewritten original content name
      → lookup (active_dir ++ (text "/" ++ name)) s.files ≡ none
      → let (answer, s') =
          approve rewrite_py rewrite_frontmatter active_dir id approver true now s in
        let target = active_dir ++ (text "/" ++ name) in
        let approval : AuditEvent = record {
          event_type = on_approved;
          candidate_id = r.candidate_id;
          technique_name = r.technique_name;
          technique_version = r.technique_version;
          actor = approver;
        } in
        let r' : CandidateRecord = record r {
          status = promoted;
          source_path = target;
          decision_reason = text "Approved by " ++ approver;
          updated_at = now;
        } in
        (answer ≡ returns r')
        × (load_state r.candidate_id s' ≡ returns r')
        × (lookup path s'.files ≡ (
            if same path (dir ++ (text "/" ++ name))
            then none
            else if same path target
            then some content
            else lookup path s.files))
        × (s'.audit
            ≡ (s.audit ++ approval ∷ []) ++ record approval { event_type = on_promoted } ∷ [])
  approve_promotes active_dir id approver dir name now s r original content path loads awaiting
        at_path plain there rewrites free =
      let is_name : last_part [] r.source_path ≡ name =
        ap (last_part []) at_path ∙ last_part-join [] dir name plain in
      let is_target : target_of active_dir r.source_path ≡ active_dir ++ (text "/" ++ name) =
        ap (λ n. active_dir ++ (text "/" ++ n)) is_name in
      let effect =
        approve-of_ready rewrite_py rewrite_frontmatter active_dir id approver now s r original
          content path loads awaiting there (rw is_name (rewritten-IsRewritten rewrites))
          (rw is_target free) in
      rw (is_target, at_path) at effect
