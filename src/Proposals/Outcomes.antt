-- ===== src/Proposals/Outcomes.antt =====
-- The files of src/proposal/interaction.py from a decision to its outcome.
use crypto_master.Prelude.{false, ℕ, ◌≡◌, refl, ap, sym, ◌∙◌, none, some, if◌then◌else◌}
use crypto_master.Text.{Text, text, same, same_refl}
use crypto_master.Dict.{lookup, lookup-insert}
use crypto_master.Proposals.{
  accepted, rejected, generated, outcome_linked, Proposal, ProposalRecord, ProposalDecisionInput,
  History, returns, account_path, path_for, filed, save, load, with_outcome, with_trade,
  attach_outcome, attach_trade, decide, present,
}

-- A saved record is found in its account.
lookup-save :
    (r : ProposalRecord) (h : History)
    → lookup (account_path r.proposal.sub_account_id r.proposal.proposal_id) (save r h)
      ≡ some (some (filed r))
unfolding save
lookup-save r h =
    let path = account_path r.proposal.sub_account_id r.proposal.proposal_id in
    lookup-insert path path (some (filed r)) h ∙ rw (same_refl path) refl

load-save :
    (r : ProposalRecord) (h : History)
    → load r.proposal.proposal_id (some r.proposal.sub_account_id) (save r h) ≡ returns (filed r)
unfolding load path_for
load-save r h = rw (lookup-save r h) refl

-- The record of the default account is the one that an id alone finds.
load_default-save :
    (r : ProposalRecord) (h : History)
    → r.proposal.sub_account_id ≡ text "default"
    → load r.proposal.proposal_id none (save r h) ≡ returns (filed r)
unfolding load path_for
load_default-save r h default =
    let there : lookup (account_path (text "default") r.proposal.proposal_id) (save r h)
        ≡ some (some (filed r)) =
      ap (λ a. lookup (account_path a r.proposal.proposal_id) (save r h)) (sym default)
      ∙ lookup-save r h in
    rw (load, path_for, there) (rw there refl)

-- An outcome is attached to the record that the id finds: where there is one, the call returns it with
-- the trade, the time and the final state, and so does loading it from its own account; every other
-- file is as before.
attach_outcome-load :
    (id trade_id path : Text) (now : ℕ) (h : History) (r : ProposalRecord)
    → load id none h ≡ returns r
    → let (answer, h') = attach_outcome id trade_id now h in
      let own = account_path r.proposal.sub_account_id r.proposal.proposal_id in
      (answer ≡ returns (with_outcome trade_id now r))
      × (load r.proposal.proposal_id (some r.proposal.sub_account_id) h'
          ≡ returns (filed (with_outcome trade_id now r)))
      × (lookup path h' ≡ (
          if same path own
          then some (some (filed (with_outcome trade_id now r)))
          else lookup path h))
unfolding attach_outcome save
attach_outcome-load id trade_id path now h r found =
    rw (attach_outcome, found)
      (
        refl,
        load-save (with_outcome trade_id now r) h,
        lookup-insert (account_path r.proposal.sub_account_id r.proposal.proposal_id) path _ h,
      )

-- In the default account a proposal that is presented, then linked to its trade and then to its
-- outcome, by its id alone, is found by its id with all of these, whatever files there were: it is
-- accepted, without a reason, or rejected with the reason of the user, as the user answered, by that
-- actor at that time; it has the trade, the time of the outcome and the final state of a linked
-- outcome. The two links return the record as it is then.
pub present_to_outcome :
    (p : Proposal) (input : ProposalDecisionInput) (actor trade_id : Text) (now later : ℕ)
    (h : History)
    → p.sub_account_id ≡ text "default"
    → let (r, h1) = present p input actor now h in
      let (linked, h2) = attach_trade p.proposal_id trade_id h1 in
      let (answer, h3) = attach_outcome p.proposal_id trade_id later h2 in
      let answered : ProposalRecord = record {
        proposal = p;
        sub_account_id = p.sub_account_id;
        decision = if input.is_accepted then accepted else rejected;
        decision_at = some now;
        actor = some actor;
        rejection_reason = if input.is_accepted then none else input.reason;
        trade_id = none;
        outcome_recorded_at = none;
        final_state = generated;
        shadow = false;
      } in
      let traded : ProposalRecord = record answered { trade_id = some trade_id } in
      let finished : ProposalRecord = record traded {
        outcome_recorded_at = some later;
        final_state = outcome_linked;
      } in
      (r ≡ answered)
      × (linked ≡ returns traded)
      × (answer ≡ returns finished)
      × (load p.proposal_id none h3 ≡ returns finished)
unfolding present attach_trade attach_outcome decide
present_to_outcome p input actor trade_id now later h default =
    let r = decide p input actor now in
    let first = load_default-save r h default in
    let second = load_default-save (with_trade trade_id r) (save r h) default in
    let third =
      load_default-save (with_outcome trade_id later r) (save (with_trade trade_id r) (save r h))
        default in
    rw (first, second) (refl, refl, refl, third)
