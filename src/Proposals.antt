-- ===== src/Proposals.antt =====
-- src/proposal/interaction.py: the records of proposals, their files and the decisions on them. The
-- clock, the answer of the user and the cutoff of a purge come in as arguments; a score and the other
-- floating-point fields are left out, and files are read and written without fault.
pub mod Outcomes
pub mod Purge
pub mod Archive
use crypto_master.Prelude.{
  ℕ, Bool, true, false, not, Option, none, some, List, [], ◌∷◌, ◌++◌, ◌&&◌, ◌||◌, ◌==◌,
  if◌then◌else◌, is_some, keep, map, ltb, leb,
}
use crypto_master.Text.{Text, text, same}
use crypto_master.Dict.{Dict, lookup, insert, erase}
use crypto_master.Decimal.{Decimal}
use crypto_master.TradingTypes.{TradeSide}
use crypto_master.Correlation.Groups.{before, sorted}
use crypto_master.Paper.Symbols.{ends_with}

pub data ProposalDecision : Type 0 where
  pending accepted rejected : ProposalDecision

pub data ProposalFinalState : Type 0 where
  generated scored score_accepted score_rejected : ProposalFinalState
  gate_rejected_market_regime gate_rejected_correlation gate_rejected_trend_filter :
      ProposalFinalState
  gate_rejected_sibling_family gate_rejected_runtime_safety_pause : ProposalFinalState
  gate_rejected_total_cap gate_rejected_symbol_cap gate_rejected_stale_quote : ProposalFinalState
  gate_rejected_account_aggregate_cap gate_rejected_stale_position_block : ProposalFinalState
  gate_rejected_risk_sizing gate_rejected_global_cap : ProposalFinalState
  gate_rejected_open_drawdown_kill_switch gate_rejected_open_stop_risk_kill_switch :
      ProposalFinalState
  gate_rejected_portfolio_kill_switch gate_rejected_daily_loss_kill_switch : ProposalFinalState
  gate_rejected_portfolio_daily_loss_kill_switch gate_rejected_operator_freeze : ProposalFinalState
  gate_rejected_strategy_action_pause shadow_recorded gate_rejected_unknown : ProposalFinalState
  proposal_opened trade_opened outcome_linked open_errored : ProposalFinalState

pub record Proposal : Type 0 where
  pub proposal_id : Text
  pub created_at : ℕ
  pub symbol : Text
  pub timeframe : Text
  pub technique_name : Text
  pub technique_version : Text
  pub profile_name : Option Text
  pub sub_account_id : Text
  pub signal : TradeSide
  pub entry_price : Decimal
  pub stop_loss : Decimal
  pub take_profit : Decimal
  pub quantity : Decimal
  pub leverage : ℕ
  pub reasoning : Text

pub record ProposalRecord : Type 0 where
  pub proposal : Proposal
  pub sub_account_id : Text
  pub decision : ProposalDecision
  pub decision_at : Option ℕ
  pub actor : Option Text
  pub rejection_reason : Option Text
  pub trade_id : Option Text
  pub outcome_recorded_at : Option ℕ
  pub final_state : ProposalFinalState
  pub shadow : Bool

-- `ProposalRecord.reject` and `ProposalRecord.mark`
unfoldable pub reject_record :
    ProposalFinalState → Option Text → ℕ → ProposalRecord → ProposalRecord
reject_record state reason at r = record r {
  decision = rejected;
  rejection_reason = reason;
  decision_at = some at;
  final_state = state;
}

unfoldable pub mark : ProposalFinalState → ProposalRecord → ProposalRecord
mark state r = record r { final_state = state }

-- The files by their path in the data directory; `none` is one that cannot be parsed.
abbrev pub History : Type 0
History = Dict (Option ProposalRecord)

-- `ProposalHistoryError`, and what reading an unreadable record raises.
pub data HistoryFault : Type 0 where
  no_record ambiguous unreadable : HistoryFault

pub data Found (A : Type 0) : Type 0 where
  returns : A → Found A
  raises : HistoryFault → Found A

-- A path as its parts.
unfoldable pub parts_from : Text → Text → List Text
parts_from part [] = part ∷ []
parts_from part (c ∷ s) = if c == 47 then part ∷ parts_from [] s else parts_from (part ++ c ∷ []) s

abbrev pub file_name : Text → Text
file_name id = id ++ text ".json"

abbrev pub account_path : Text → Text → Text
account_path account id = account ++ (text "/" ++ file_name id)

-- The two globs of `_iter_record_paths`, less the archive.
unfoldable pub is_record : List Text → Bool
unfolding ends_with
is_record (n ∷ []) = ends_with n (text ".json") && not (same n (text "archive"))
is_record (a ∷ n ∷ []) =
    ends_with n (text ".json") && (not (same a (text "archive")) && not (same n (text "archive")))
is_record _ = false

-- The order of paths, by their parts.
unfoldable pub parts_before : List Text → List Text → Bool
unfolding before
parts_before ps [] = false
parts_before [] (q ∷ qs) = true
parts_before (p ∷ ps) (q ∷ qs) =
    let rest = parts_before ps qs in if before p q then true else same p q && rest

-- `_iter_record_paths`
unfoldable pub iter_record_paths : History → List Text
unfolding parts_from is_record parts_before
iter_record_paths h =
    sorted (λ p q. parts_before (parts_from [] p) (parts_from [] q))
      (keep (λ p. is_record (parts_from [] p)) (map (λ e. e.0) h))

-- The glob of `_path_for` over the accounts.
abbrev pub is_named : Text → List Text → Bool
is_named name (a ∷ n ∷ []) = same n name && not (same a (text "archive"))
is_named name _ = false

abbrev pub only_match : Text → List Text → Found Text
only_match default_path [] = returns default_path
only_match default_path (p ∷ []) = returns p
only_match default_path (p ∷ q ∷ ps) = raises ambiguous

-- `_path_for`
unfoldable pub path_for : Text → Option Text → History → Found Text
unfolding parts_from
path_for id (some account) h = returns (account_path account id)
path_for id none h =
    if is_some (lookup (account_path (text "default") id) h)
    then returns (account_path (text "default") id)
    else if is_some (lookup (file_name id) h)
    then returns (file_name id)
    else only_match (account_path (text "default") id)
        (keep (λ p. is_named (file_name id) (parts_from [] p)) (map (λ e. e.0) h))

abbrev pub filed : ProposalRecord → ProposalRecord
filed r = record r { sub_account_id = r.proposal.sub_account_id }

unfoldable pub save : ProposalRecord → History → History
save r h = insert (account_path r.proposal.sub_account_id r.proposal.proposal_id) (some (filed r)) h

abbrev pub parsed : Option (Option ProposalRecord) → Found ProposalRecord
parsed none = raises no_record
parsed (some none) = raises unreadable
parsed (some (some r)) = returns r

abbrev pub load_at : Found Text → History → Found ProposalRecord
load_at (raises e) h = raises e
load_at (returns p) h = parsed (lookup p h)

unfoldable pub load : Text → Option Text → History → Found ProposalRecord
unfolding path_for
load id account h = load_at (path_for id account h) h

abbrev pub saved_update :
    (ProposalRecord → ProposalRecord)
    → Found ProposalRecord
    → History
    → Found ProposalRecord × History
saved_update f (raises e) h = (raises e, h)
saved_update f (returns r) h = (returns (f r), save (f r) h)

abbrev pub with_outcome : Text → ℕ → ProposalRecord → ProposalRecord
with_outcome trade_id now r = record r {
  trade_id = some trade_id;
  outcome_recorded_at = some now;
  final_state = outcome_linked;
}

unfoldable pub attach_outcome : Text → Text → ℕ → History → Found ProposalRecord × History
unfolding load save
attach_outcome id trade_id now h = saved_update (with_outcome trade_id now) (load id none h) h

abbrev pub with_trade : Text → ProposalRecord → ProposalRecord
with_trade trade_id r = record r { trade_id = some trade_id }

unfoldable pub attach_trade : Text → Text → History → Found ProposalRecord × History
unfolding load save
attach_trade id trade_id h = saved_update (with_trade trade_id) (load id none h) h

-- `list_all`
abbrev pub same_decision : ProposalDecision → ProposalDecision → Bool
same_decision pending pending = true
same_decision accepted accepted = true
same_decision rejected rejected = true
same_decision _ _ = false

abbrev pub of_decision : Option ProposalDecision → List ProposalRecord → List ProposalRecord
of_decision none rs = rs
of_decision (some d) rs = keep (λ r. same_decision r.decision d) rs

abbrev pub plus_readable :
    Option (Option ProposalRecord) → List ProposalRecord → List ProposalRecord
plus_readable (some (some r)) rs = r ∷ rs
plus_readable (some none) rs = rs
plus_readable none rs = rs

unfoldable pub readable : List Text → History → List ProposalRecord
readable [] h = []
readable (p ∷ ps) h = plus_readable (lookup p h) (readable ps h)

unfoldable pub list_all : Option ProposalDecision → History → List ProposalRecord
unfolding readable iter_record_paths
list_all decision h = of_decision decision (
    sorted (λ r q. ltb r.proposal.created_at q.proposal.created_at)
      (readable (iter_record_paths h) h))

-- The answer of the user.
pub record ProposalDecisionInput : Type 0 where
  pub is_accepted : Bool
  pub reason : Option Text

unfoldable pub decide : Proposal → ProposalDecisionInput → Text → ℕ → ProposalRecord
decide p input actor now = record {
  proposal = p;
  sub_account_id = p.sub_account_id;
  decision = if input.is_accepted then accepted else rejected;
  decision_at = some now;
  actor = some actor;
  rejection_reason = if input.is_accepted then none else input.reason;
  trade_id = none;
  outcome_recorded_at = none;
  final_state = generated;
  shadow = false;
}

unfoldable pub present :
    Proposal → ProposalDecisionInput → Text → ℕ → History → ProposalRecord × History
unfolding decide save
present p input actor now h = let r = decide p input actor now in (r, save r h)

-- `present_batch`, on each proposal with its answer and its time.
unfoldable pub present_batch :
    List (Proposal × ProposalDecisionInput × ℕ) → Text → History → List ProposalRecord × History
unfolding present
present_batch [] actor h = ([], h)
present_batch ((p, input, now) ∷ ps) actor h =
    let (r, h') = present p input actor now h in
    let (rs, h'') = present_batch ps actor h' in (r ∷ rs, h'')

-- `purge_old`, by the cutoff, with the month of a time as a text.
abbrev pub is_old : ℕ → Option (Option ProposalRecord) → Bool
is_old cutoff (some (some r)) = not (leb cutoff r.proposal.created_at)
is_old cutoff (some none) = false
is_old cutoff none = false

unfoldable pub last_of : Text → List Text → Text
last_of part [] = part
last_of part (p ∷ ps) = last_of p ps

-- `record.sub_account_id or record.proposal.sub_account_id`
abbrev pub account_of : ProposalRecord → Text → Text
account_of r [] = r.proposal.sub_account_id
account_of r (c ∷ account) = c ∷ account

module _ (month_of : ℕ → Text) (cutoff : ℕ) where
  abbrev pub destination : ProposalRecord → Text → Text
  destination r path =
      account_of r r.sub_account_id
      ++ (text "/archive/"
          ++ (month_of r.proposal.created_at ++ (text "/" ++ last_of [] (parts_from [] path))))

  unfoldable pub archive_file :
      Text → Option (Option ProposalRecord) → History → History × List Text
  unfolding last_of parts_from
  archive_file path none h = (h, [])
  archive_file path (some none) h = (h, [])
  archive_file path (some (some r)) h =
      if leb cutoff r.proposal.created_at
      then (h, [])
      else (insert (destination r path) (some r) (erase path h), destination r path ∷ [])

  unfoldable pub purge_all : List Text → History → History × List Text
  unfolding archive_file
  purge_all [] h = (h, [])
  purge_all (p ∷ ps) h =
      let (h', moved) = archive_file p (lookup p h) h in
      let (h'', rest) = purge_all ps h' in (h'', moved ++ rest)

  unfoldable pub purge_old : History → History × List Text
  unfolding purge_all iter_record_paths
  purge_old h = purge_all (iter_record_paths h) h
