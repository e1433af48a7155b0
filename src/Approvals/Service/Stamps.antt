-- ===== src/Approvals/Service/Stamps.antt =====
-- The deltas that staging and modifying build carry the approved status.
use se_1_rune_agent.Base.{
  ℕ, String, some, List, [], ◌∷◌, refl, All, OnSome, OnSome-and_then, OnSome-at,
}
use se_1_rune_agent.Base.Dict.{Dict, Holds, put-Holds, dict_laws}
use se_1_rune_agent.Ontology.{TraceabilityEdge}
use se_1_rune_agent.Approvals.{
  GraphOperation, create_edge, GraphDeltaOperation, GraphDelta, ApprovalItem, ApprovalDecision,
}
use se_1_rune_agent.Approvals.Contracts.{Contracts, IsPydantic}
use se_1_rune_agent.Approvals.Service.{
  ApprovalService, approve_by_system, staged_delta, stage_edges, corrections, update_payload,
  approved_payload, modified_payload, modified_operations, modified_delta,
}
use se_1_rune_agent.Graph.Memory.Delta.{StampedBy, Stamped}

module _ (c : Contracts) where
  abbrev pub StampedDelta : GraphDelta c.Value → Type 0
  StampedDelta d = All (Stamped c) d.operations

  -- Every delta in store carries the approved status in each edge that it creates.
  pub record IsStamped (s : ApprovalService c) : Type 0 where
    pub at_key : Holds StampedDelta s.deltas

module _ (c : Contracts) (laws : IsPydantic c) where
  staged_delta-Stamped :
      (project_key run_id step_id : String) (edge : TraceabilityEdge)
      → StampedDelta c (staged_delta c project_key run_id step_id edge)
  unfolding staged_delta
  staged_delta-Stamped p r t edge = (laws.writes_status (approve_by_system c edge) refl, tt)

  pub stage_edges-IsStamped :
      (now : ℕ) (project_key run_id step_id : String) (edges : List TraceabilityEdge)
      (s : ApprovalService c)
      → IsStamped c s
      → IsStamped c (stage_edges c now project_key run_id step_id edges s)
  unfolding stage_edges
  stage_edges-IsStamped now p r t [] s h = h
  stage_edges-IsStamped now p r t (edge ∷ edges) s h =
      let delta = staged_delta c p r t edge in
      stage_edges-IsStamped now p r t edges _ (record {
        at_key =
            put-Holds (StampedDelta c) s.deltas delta.delta_id delta
              (staged_delta-Stamped p r t edge) h.at_key;
      })

  -- The status is set after the correction, so no correction can withhold it.
  approved_payload-StampedBy :
      (decision : ApprovalDecision c.Value) (payload : Dict c.Value)
      → StampedBy c create_edge (approved_payload c decision payload)
  unfolding approved_payload
  approved_payload-StampedBy decision payload = simp dict_laws

  modified_payload-StampedBy :
      (o : GraphOperation) (decision : ApprovalDecision c.Value) (payload : Dict c.Value)
      → OnSome (StampedBy c o) (modified_payload c o decision payload)
  unfolding modified_payload
  modified_payload-StampedBy create_edge decision payload =
      let corrected = update_payload payload (corrections decision.correction_payload) in
      let filled = approved_payload c decision corrected in
      OnSome-and_then (StampedBy c create_edge) (c.validate_edge filled)
        (λ edge. some (c.dump_edge edge))
        λ edge e.
          laws.writes_status edge
            (laws.reads_status filled edge e (approved_payload-StampedBy decision corrected))
  modified_payload-StampedBy _ decision payload = tt

  modified_operations-Stamped :
      (decision : ApprovalDecision c.Value) (ops : List (GraphDeltaOperation c.Value))
      → OnSome (All (Stamped c)) (modified_operations c decision ops)
  unfolding modified_operations
  modified_operations-Stamped decision [] = tt
  modified_operations-Stamped decision (op ∷ ops) =
      OnSome-and_then (All (Stamped c)) (modified_payload c op.operation decision op.payload) _
        λ payload e.
          OnSome-and_then (All (Stamped c)) (modified_operations c decision ops) _ λ later e'. (
            OnSome-at (StampedBy c op.operation) _ payload
                (modified_payload-StampedBy op.operation decision op.payload) e,
            OnSome-at (All (Stamped c)) _ later (modified_operations-Stamped decision ops) e',
          )

  pub modified_delta-Stamped :
      (item : ApprovalItem) (decision : ApprovalDecision c.Value) (original : GraphDelta c.Value)
      → OnSome (StampedDelta c) (modified_delta c item decision original)
  unfolding modified_delta
  modified_delta-Stamped item decision original =
      OnSome-and_then (StampedDelta c) (modified_operations c decision original.operations) _
        (λ ops e.
          OnSome-at (All (Stamped c)) _ ops
            (modified_operations-Stamped decision original.operations) e)
