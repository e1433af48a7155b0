-- ===== src/Approvals.antt =====
-- src/req_tracker/approvals/models.py: the approval queue's contracts. A payload is a dict with
-- text keys and values of the type `V`.
pub mod Contracts
pub mod Service
pub mod Decision
pub mod Samples
mod Witnesses
use se_1_rune_agent.Base.{ℕ, String, Option, List}
use se_1_rune_agent.Base.Dict.{Dict}

pub data ProposalType : Type 0 where
  node edge finding graph_delta : ProposalType

pub data ApprovalItemStatus : Type 0 where
  pending approved rejected modified_approved held stale : ApprovalItemStatus

pub data RiskLevel : Type 0 where
  critical high medium low : RiskLevel

pub data DecisionAction : Type 0 where
  approve reject modify hold : DecisionAction

pub data GraphOperation : Type 0 where
  create_node update_node create_edge update_edge expire_edge : GraphOperation

pub record GraphDeltaOperation (V : Type 0) : Type 0 where
  pub operation : GraphOperation
  pub target_id : String
  pub payload : Dict V

pub record GraphDelta (V : Type 0) : Type 0 where
  pub delta_id : String
  pub project_key : String
  pub operations : List (GraphDeltaOperation V)
  pub created_from_run_id : String
  pub created_from_step_id : String

pub record ApprovalItem : Type 0 where
  pub approval_id : String
  pub project_key : String
  pub proposal_type : ProposalType
  pub proposal_ref : String
  pub graph_delta_ref : Option String
  pub status : ApprovalItemStatus
  pub risk_level : RiskLevel
  pub owner_role : String
  pub created_from_run_id : String
  pub created_from_step_id : String
  pub proposal_hash : String
  pub version : ℕ
  pub created_at : ℕ
  pub updated_at : ℕ

pub record ApprovalDecision (V : Type 0) : Type 0 where
  pub approval_id : String
  pub action : DecisionAction
  pub decided_by : String
  pub expected_version : Option ℕ
  pub expected_proposal_hash : Option String
  pub decided_at : ℕ
  pub correction_payload : Option (Dict V)
  pub reason_code : Option String
