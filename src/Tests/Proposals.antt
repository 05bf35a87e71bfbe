-- ===== src/Tests/Proposals.antt =====
-- Tests and instances for src/proposal/interaction.py.
use crypto_master.Prelude.{ℕ, ◌≡◌, refl, true, false, none, some, [], ◌∷◌}
use crypto_master.Prelude.Int.{pos}
use crypto_master.Text.{Text, text, same}
use crypto_master.Dict.{lookup, insert, erase}
use crypto_master.TradingTypes.{TradeSide}
use crypto_master.Correlation.Groups.{before, sorted, insert_sorted}
use crypto_master.Paper.Symbols.{ends_with, last}
use crypto_master.Proposals.{
  generated, outcome_linked, Proposal, ProposalRecord, ProposalDecisionInput, History, returns,
  raises, ambiguous, no_record, accepted, rejected, score_rejected, shadow_recorded, reject_record,
  mark, parts_from, is_record, parts_before, iter_record_paths, path_for, save, load, with_outcome,
  attach_trade, attach_outcome, readable, list_all, decide, present, present_batch, last_of,
  archive_file, purge_all, purge_old,
}
use crypto_master.Proposals.Outcomes.{present_to_outcome}
use crypto_master.Paper.Symbols.{has_slash}
use crypto_master.Proposals.Archive.{top, IsArchived, purge_old_archives}

unfoldable proposals : Unit {0}
unfolding has_slash lookup insert erase same before sorted insert_sorted ends_with last
    reject_record mark parts_from is_record parts_before iter_record_paths path_for save load
    attach_trade attach_outcome readable list_all decide present present_batch last_of archive_file
    purge_all purge_old
proposals = tt

abbrev proposed : Text → Text → ℕ → Proposal
proposed id account now = record {
  proposal_id = id;
  created_at = now;
  symbol = text "BTC/USDT";
  timeframe = text "1h";
  technique_name = text "rsi";
  technique_version = text "0.1.0";
  profile_name = none;
  sub_account_id = account;
  signal = TradeSide.long;
  entry_price = pos 50;
  stop_loss = pos 48;
  take_profit = pos 55;
  quantity = pos 1;
  leverage = 2;
  reasoning = [];
}

abbrev default : Text
default = text "default"

abbrev yes : ProposalDecisionInput
yes = record { is_accepted = true; reason = none }

abbrev no : ProposalDecisionInput
no = record { is_accepted = false; reason = some (text "risky") }

abbrev user : Text
user = text "user"

abbrev p1 : Proposal
p1 = proposed (text "p1") default 3

abbrev p2 : Proposal
p2 = proposed (text "p2") (text "alpha") 9

abbrev r1 : ProposalRecord
r1 = decide p1 yes user 4

abbrev r2 : ProposalRecord
r2 = decide p2 no user 10

abbrev both : History
both = (present_batch ((p2, no, 10) ∷ (p1, yes, 4) ∷ []) user []).1

listed :
    (list_all none both ≡ r1 ∷ r2 ∷ [])
    × (list_all (some accepted) both ≡ r1 ∷ [])
    × (load (text "p2") none both ≡ returns r2)
    × (load (text "p3") none both ≡ raises no_record)
unfolding proposals
listed = (refl, refl, refl, refl)

-- The same id in two accounts, neither the default one.
twice :
    load (text "p2") none (save (decide (proposed (text "p2") (text "beta") 1) yes user 2) both)
    ≡ raises ambiguous
unfolding proposals
twice = refl

closed_records :
    ((reject_record score_rejected none 5 r1).decision ≡ rejected)
    × ((mark shadow_recorded r1).decision ≡ accepted)
unfolding proposals
closed_records = (refl, refl)

abbrev month_of : ℕ → Text
month_of now = text "2026-01"

purged : (purge_old month_of 5 both).1 ≡ text "default/archive/2026-01/p1.json" ∷ []
unfolding proposals
purged = refl

-- A record in the top directory, from before the accounts, and its copy in the default account with
-- the outcome: a purge moves both to one place, where the record without the outcome remains.
abbrev legacy : History
legacy = (text "p1.json", some r1) ∷ []

abbrev with_copy : History
with_copy = (attach_outcome (text "p1") (text "t1") 4 legacy).1

copy_lost :
    (load (text "p1") none with_copy ≡ returns (with_outcome (text "t1") 4 r1))
    × (purge_old month_of 5 with_copy ≡ (
      (text "default/archive/2026-01/p1.json", some r1) ∷ [],
      text "default/archive/2026-01/p1.json" ∷ text "default/archive/2026-01/p1.json" ∷ [],
    ))
unfolding proposals
copy_lost = (refl, refl)

present_to_outcome_example :
    let (r, h1) = present p1 no user 4 legacy in
    let (linked, h2) = attach_trade (text "p1") (text "t1") h1 in
    let (answer, h3) = attach_outcome (text "p1") (text "t1") 6 h2 in
    let answered : ProposalRecord = record {
      proposal = p1;
      sub_account_id = default;
      decision = rejected;
      decision_at = some 4;
      actor = some user;
      rejection_reason = some (text "risky");
      trade_id = none;
      outcome_recorded_at = none;
      final_state = generated;
      shadow = false;
    } in
    let traded : ProposalRecord = record answered { trade_id = some (text "t1") } in
    let finished : ProposalRecord = record traded {
      outcome_recorded_at = some 6;
      final_state = outcome_linked;
    } in
    (r ≡ answered)
    × (linked ≡ returns traded)
    × (answer ≡ returns finished)
    × (load (text "p1") none h3 ≡ returns finished)
present_to_outcome_example = present_to_outcome p1 no user (text "t1") 4 6 legacy refl

purge_old_archives_example :
    let h' = (purge_old month_of 5 legacy).0 in
    IsArchived month_of 5 legacy
      (text "default/archive/2026-01/p1.json")
      (lookup (text "default/archive/2026-01/p1.json") h')
    × (lookup (text "p1.json") h' ≡ none)
unfolding proposals
purge_old_archives_example =
    purge_old_archives month_of 5 (text "p1.json") (text "p1.json") (text "p1.json") legacy r1 refl
      refl top refl refl refl
