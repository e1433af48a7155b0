-- ===== src/Approvals/Contracts.antt =====
-- What the approval code takes from outside: the pydantic classes as readers and writers of dicts
-- (`model_validate`, `model_dump(mode="json")`), `json.dumps`, and the SHA-256 digests of
-- src/req_tracker/debug/hash.py.
use se_1_rune_agent.Base.{ℕ, String, true, Option, some, ◌≡◌}
use se_1_rune_agent.Base.Dict.{Dict, get}
use se_1_rune_agent.Ontology.{OntologyNode, TraceabilityEdge, ApprovalStatus, accepts_edge}
use se_1_rune_agent.Approvals.{ApprovalDecision}

pub record Contracts : Type 1 where
  pub Value : Type 0
  pub text : String → Value
  pub moment : ℕ → Value
  pub dump_edge : TraceabilityEdge → Dict Value
  -- `none` is a ValidationError.
  pub validate_edge : Dict Value → Option TraceabilityEdge
  pub validate_node : Dict Value → Option OntologyNode
  pub dump_json : Dict Value → String
  pub hash_edge : TraceabilityEdge → String
  -- `str.lower`
  pub lower : String → String
  pub hash_decision : ApprovalDecision Value → String

-- The documented behaviour that the theorems rely on: what a class accepts it read from the dict,
-- it ran its validators on it, and it accepts its own dump.
pub record IsPydantic (c : Contracts) : Type 0 where
  pub reads_status :
      (d : Dict c.Value) (e : TraceabilityEdge)
      → c.validate_edge d ≡ some e
      → get d "approval_status" ≡ some (c.text "approved")
      → e.approval_status ≡ ApprovalStatus.approved
  pub runs_validators :
      (d : Dict c.Value) (e : TraceabilityEdge) → c.validate_edge d ≡ some e → accepts_edge e ≡ true
  pub writes_status :
      (e : TraceabilityEdge)
      → e.approval_status ≡ ApprovalStatus.approved
      → get (c.dump_edge e) "approval_status" ≡ some (c.text "approved")
  pub reads_own_dump :
      (e : TraceabilityEdge) → accepts_edge e ≡ true → c.validate_edge (c.dump_edge e) ≡ some e
