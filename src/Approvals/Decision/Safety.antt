-- ===== src/Approvals/Decision/Safety.antt =====
-- The edges of the graph, over any sequence of staged runs and decisions.
use se_1_rune_agent.Base.{ℕ, String, List, [], ◌∷◌, OnSome-at, truthy, or_text, ◌&&◌}
use se_1_rune_agent.Base.Dict.{get, put-Holds}
use se_1_rune_agent.Base.Text.{concat, decimal}
use se_1_rune_agent.Exec.{
  Exec, Leaves, validation_error, key_error, pure, ◌>>◌, continue_ind, require_ind, if_ind,
}
use se_1_rune_agent.Ontology.{OntologyNode, TraceabilityEdge}
use se_1_rune_agent.Approvals.{
  ApprovalItemStatus, approved, modified_approved, DecisionAction, approve, reject, hold,
  GraphDelta, ApprovalItem, ApprovalDecision,
}
use se_1_rune_agent.Approvals.Contracts.{Contracts, IsPydantic}
use se_1_rune_agent.Approvals.Service.{
  Desk, is_pending, is_stale_decision, stage_edges, modified_delta,
}
use se_1_rune_agent.Approvals.Service.Stamps.{
  IsStamped, StampedDelta, stage_edges-IsStamped, modified_delta-Stamped,
}
use se_1_rune_agent.Approvals.Decision.{
  has_entries, keep_delta, file_modified, apply_to_graph, carry_out, carry_out_modified,
  carry_out_approved, decide_item, decide, keep_item, settled,
}
use se_1_rune_agent.Approvals.Decision.Final.{file_feedback_keeps}
use se_1_rune_agent.Graph.Memory.{MemoryGraphBackend, apply_delta, stage_baseline_nodes, store_node}
use se_1_rune_agent.Graph.Memory.Delta.{OnlyApproved, apply_delta-OnlyApproved}

module _ (c : Contracts) where
  pub record IsSafe (desk : Desk c) : Type 0 where
    pub deltas : IsStamped c desk.service
    pub graph : OnlyApproved desk.graph

module _ (c : Contracts) (laws : IsPydantic c) where
  apply_to_graph-IsSafe :
      (delta : GraphDelta c.Value) (key : String) (status : ApprovalItemStatus) (desk : Desk c)
      → StampedDelta c delta
      → IsSafe c desk
      → Leaves (IsSafe c) ((apply_to_graph c delta key >> pure status) desk)
  apply_to_graph-IsSafe delta key status desk st h =
      let (r, g) = apply_delta c delta key desk.graph in
      let safe : IsSafe c (record desk { graph = g }) = record {
        deltas = h.deltas;
        graph = apply_delta-OnlyApproved c laws delta key desk.graph st h.graph;
      } in
      continue_ind (Leaves (IsSafe c)) r (λ _. pure status) (record desk { graph = g })
        (λ _ _. safe) (λ _ _. safe)

  keep_delta-IsSafe :
      (delta : GraphDelta c.Value) (desk : Desk c)
      → StampedDelta c delta
      → IsSafe c desk
      → IsSafe c (keep_delta c delta desk)
  keep_delta-IsSafe delta desk st h = record {
    deltas = record {
      at_key =
          put-Holds (StampedDelta c) desk.service.deltas delta.delta_id delta st h.deltas.at_key;
    };
    graph = h.graph;
  }

  carry_out_modified-IsSafe :
      (item : ApprovalItem) (decision : ApprovalDecision c.Value) (desk : Desk c)
      → IsSafe c desk
      → Leaves (IsSafe c) (carry_out_modified c item decision desk)
  unfolding carry_out_modified
  carry_out_modified-IsSafe item decision desk h =
      let ref = or_text item.graph_delta_ref "" in
      let key = concat (decision.approval_id ∷ ":" ∷ decimal item.version ∷ ":modify" ∷ []) in
      if_ind (λ (m : Exec (Desk c) ApprovalItemStatus). Leaves (IsSafe c) (m desk))
        (truthy item.graph_delta_ref && has_entries decision.correction_payload)
        (λ _.
          require_ind (Leaves (IsSafe c)) (key_error ref) (get desk.service.deltas ref) _ desk
            (λ original e.
              require_ind (Leaves (IsSafe c)) validation_error
                (modified_delta c item decision original) (file_modified c item decision) desk
                (λ delta e'.
                  let st =
                    OnSome-at (StampedDelta c) _ delta
                      (modified_delta-Stamped c laws item decision original) e' in
                  apply_to_graph-IsSafe delta key modified_approved (keep_delta c delta desk) st
                    (keep_delta-IsSafe delta desk st h))
                (λ _. h))
            (λ _. h))
        (λ _. h)

  carry_out_approved-IsSafe :
      (item : ApprovalItem) (decision : ApprovalDecision c.Value) (desk : Desk c)
      → IsSafe c desk
      → Leaves (IsSafe c) (carry_out_approved c item decision desk)
  unfolding carry_out_approved
  carry_out_approved-IsSafe item decision desk h =
      let ref = or_text item.graph_delta_ref "" in
      let key = concat (decision.approval_id ∷ ":" ∷ decimal item.version ∷ []) in
      require_ind (Leaves (IsSafe c)) (key_error ref) (get desk.service.deltas ref)
        (λ delta. apply_to_graph c delta key >> pure approved) desk
        (λ delta e. apply_to_graph-IsSafe delta key approved desk (h.deltas.at_key ref delta e) h)
        (λ _. h)

  carry_out-IsSafe :
      (a : DecisionAction) (item : ApprovalItem) (decision : ApprovalDecision c.Value)
      (desk : Desk c)
      → IsSafe c desk
      → Leaves (IsSafe c) (carry_out c a item decision desk)
  unfolding carry_out
  carry_out-IsSafe approve item decision desk h =
      if_ind (λ (m : Exec (Desk c) ApprovalItemStatus). Leaves (IsSafe c) (m desk))
        (truthy item.graph_delta_ref) (λ _. carry_out_approved-IsSafe item decision desk h)
        (λ _. carry_out_modified-IsSafe item decision desk h)
  carry_out-IsSafe reject item decision desk h = h
  carry_out-IsSafe hold item decision desk h = h
  carry_out-IsSafe _ item decision desk h = carry_out_modified-IsSafe item decision desk h

  decide_item-IsSafe :
      (now : ℕ) (item : ApprovalItem) (decision : ApprovalDecision c.Value) (desk : Desk c)
      → IsSafe c desk
      → Leaves (IsSafe c) (decide_item c now item decision desk)
  unfolding decide_item
  decide_item-IsSafe now item decision desk h =
      if_ind (λ (m : Exec (Desk c) ApprovalItem). Leaves (IsSafe c) (m desk))
        (is_pending item.status)
        (λ _.
          if_ind (λ (m : Exec (Desk c) ApprovalItem). Leaves (IsSafe c) (m desk))
            (is_stale_decision item decision)
            (λ _. record { deltas = record { at_key = h.deltas.at_key }; graph = h.graph })
            (λ _.
              let (r, desk') = carry_out c decision.action item decision desk in
              let h' = carry_out-IsSafe decision.action item decision desk h in
              continue_ind (Leaves (IsSafe c)) r _ desk'
                (λ status _.
                  file_feedback_keeps c (IsSafe c) now status item decision
                    (keep_item c (settled c now status item) desk')
                    (record { deltas = record { at_key = h'.deltas.at_key }; graph = h'.graph })
                    (λ event. record {
                      deltas = record { at_key = h'.deltas.at_key };
                      graph = h'.graph;
                    }))
                (λ _ _. h')))
        (λ _. h)

  pub decide-IsSafe :
      (now : ℕ) (decision : ApprovalDecision c.Value) (desk : Desk c)
      → IsSafe c desk
      → Leaves (IsSafe c) (decide c now decision desk)
  unfolding decide
  decide-IsSafe now decision desk h =
      require_ind (Leaves (IsSafe c)) (key_error decision.approval_id)
        (get desk.service.items decision.approval_id) (λ item. decide_item c now item decision) desk
        (λ item _. decide_item-IsSafe now item decision desk h) (λ _. h)

  stage_baseline_nodes-OnlyApproved :
      (nodes : List OntologyNode) (g : MemoryGraphBackend)
      → OnlyApproved g
      → OnlyApproved (stage_baseline_nodes nodes g)
  unfolding stage_baseline_nodes
  stage_baseline_nodes-OnlyApproved [] g h = h
  stage_baseline_nodes-OnlyApproved (node ∷ nodes) g h =
      stage_baseline_nodes-OnlyApproved nodes (store_node node g) (record { at_key = h.at_key })

-- What the workflow and the API do to the service and the graph; a decision that raises counts too.
pub data Step (c : Contracts) : Desk c → Desk c → Type 0 where
  stage :
      (now : ℕ) (project_key run_id step_id : String) (edges : List TraceabilityEdge)
      (desk : Desk c)
      → Step c desk (record desk {
        service = stage_edges c now project_key run_id step_id edges desk.service;
      })
  stage_nodes :
      (nodes : List OntologyNode) (desk : Desk c)
      → Step c desk (record desk { graph = stage_baseline_nodes nodes desk.graph })
  decided :
      (now : ℕ) (decision : ApprovalDecision c.Value) (desk : Desk c)
      → Step c desk (decide c now decision desk).1

pub data Reach (c : Contracts) (start : Desk c) : Desk c → Type 0 where
  here : Reach c start start
  next : {desk desk' : Desk c} → Reach c start desk → Step c desk desk' → Reach c start desk'

Step-IsSafe :
    (c : Contracts) (laws : IsPydantic c) {desk desk' : Desk c}
    → Step c desk desk'
    → IsSafe c desk
    → IsSafe c desk'
Step-IsSafe c laws (stage now p r t edges desk) h = record {
  deltas = stage_edges-IsStamped c laws now p r t edges desk.service h.deltas;
  graph = h.graph;
}
Step-IsSafe c laws (stage_nodes nodes desk) h = record {
  deltas = h.deltas;
  graph = stage_baseline_nodes-OnlyApproved c laws nodes desk.graph h.graph;
}
Step-IsSafe c laws (decided now decision desk) h = decide-IsSafe c laws now decision desk h

-- From a desk whose stored deltas carry the approved status in each edge that they create, and
-- whose graph holds only approved edges, no sequence of staged runs and decisions, stale, failing
-- or with any correction, puts an edge into the graph that is not approved or names no approver.
pub Reach-IsSafe :
    (c : Contracts) (laws : IsPydantic c) {start desk : Desk c}
    → IsSafe c start
    → Reach c start desk
    → IsSafe c desk
Reach-IsSafe c laws h here = h
Reach-IsSafe c laws h (next r st) = Step-IsSafe c laws st (Reach-IsSafe c laws h r)
