-- ===== src/Graph/Memory/Delta.antt =====
-- What applying a delta does to the graph.
use se_1_rune_agent.Base.{
  String, true, Option, none, some, List, [], ◌∷◌, ◌≡◌, refl, arith, elem, All, truthy,
}
use se_1_rune_agent.Base.Dict.{Dict, get, Holds, put-Holds}
use se_1_rune_agent.Exec.{Leaves, validation_error, modify, continue_ind, require_ind, if_ind}
use se_1_rune_agent.Ontology.{ApprovalStatus, TraceabilityEdge, accepts_edge}
use se_1_rune_agent.Approvals.{
  GraphOperation, create_node, create_edge, GraphDeltaOperation, GraphDelta,
}
use se_1_rune_agent.Approvals.Contracts.{Contracts, IsPydantic}
use se_1_rune_agent.Graph.Memory.{
  MemoryGraphBackend, store_edge, store_node, apply_by, apply_operations, apply_delta, seal,
}

-- An edge that a reviewer or the system has approved, with the approver's name.
pub record IsApproved (e : TraceabilityEdge) : Type 0 where
  pub status : e.approval_status ≡ ApprovalStatus.approved
  pub approver : truthy e.approved_by ≡ true

pub record OnlyApproved (g : MemoryGraphBackend) : Type 0 where
  pub at_key : Holds IsApproved g.edges

accepted-IsApproved :
    (e : TraceabilityEdge)
    → accepts_edge e ≡ true
    → e.approval_status ≡ ApprovalStatus.approved
    → IsApproved e
unfolding accepts_edge
accepted-IsApproved e h s = ground arith

module _ (c : Contracts) where
  -- An operation that creates an edge carries the approved status in its payload.
  abbrev pub StampedBy : GraphOperation → Dict c.Value → Type 0
  StampedBy create_edge payload = get payload "approval_status" ≡ some (c.text "approved")
  StampedBy _ payload = Unit

  abbrev pub Stamped : GraphDeltaOperation c.Value → Type 0
  Stamped op = StampedBy op.operation op.payload

store_edge-OnlyApproved :
    (e : TraceabilityEdge) (g : MemoryGraphBackend)
    → IsApproved e
    → OnlyApproved g
    → OnlyApproved (store_edge e g)
store_edge-OnlyApproved e g a h = record {
  at_key = put-Holds IsApproved g.edges e.edge_id e a h.at_key;
}

module _ (c : Contracts) (laws : IsPydantic c) where
  created-OnlyApproved :
      (payload : Dict c.Value) (o : Option TraceabilityEdge) (g : MemoryGraphBackend)
      → c.validate_edge payload ≡ o
      → StampedBy c create_edge payload
      → OnlyApproved g
      → OnlyApproved (apply_by c create_edge payload g).1
  unfolding apply_by
  created-OnlyApproved payload none g e s h = rw e h
  created-OnlyApproved payload (some x) g e s h = rw e (
      store_edge-OnlyApproved x g
        (accepted-IsApproved x (laws.runs_validators payload x e) (laws.reads_status payload x e s))
        h)

  apply_by-OnlyApproved :
      (o : GraphOperation) (payload : Dict c.Value) (g : MemoryGraphBackend)
      → StampedBy c o payload
      → OnlyApproved g
      → OnlyApproved (apply_by c o payload g).1
  unfolding apply_by
  apply_by-OnlyApproved create_edge payload g s h =
      created-OnlyApproved payload (c.validate_edge payload) g refl s h
  apply_by-OnlyApproved create_node payload g s h =
      require_ind (Leaves OnlyApproved) validation_error (c.validate_node payload)
        (λ node. modify (store_node node)) g (λ node _. record { at_key = h.at_key }) (λ _. h)
  apply_by-OnlyApproved _ payload g s h = h

  apply_operations-OnlyApproved :
      (ops : List (GraphDeltaOperation c.Value)) (g : MemoryGraphBackend)
      → All (Stamped c) ops
      → OnlyApproved g
      → OnlyApproved (apply_operations c ops g).1
  unfolding apply_operations
  apply_operations-OnlyApproved [] g s h = h
  apply_operations-OnlyApproved (op ∷ ops) g s h =
      let (r, g') = apply_by c op.operation op.payload g in
      let h' = apply_by-OnlyApproved op.operation op.payload g s.0 h in
      continue_ind (Leaves OnlyApproved) r (λ _. apply_operations c ops) g'
        (λ _ _. apply_operations-OnlyApproved ops g' s.1 h') (λ _ _. h')

  pub apply_delta-OnlyApproved :
      (delta : GraphDelta c.Value) (key : String) (g : MemoryGraphBackend)
      → All (Stamped c) delta.operations
      → OnlyApproved g
      → OnlyApproved (apply_delta c delta key g).1
  unfolding apply_delta
  apply_delta-OnlyApproved delta key g s h =
      let (r, g') = apply_operations c delta.operations g in
      let h' = apply_operations-OnlyApproved delta.operations g s h in
      if_ind (Leaves {A = Unit {0}} OnlyApproved) (elem key g.idempotency_keys) (λ _. h)
        (λ _.
          continue_ind (Leaves OnlyApproved) r (λ _. modify (seal key)) g'
            (λ _ _. record { at_key = h'.at_key }) (λ _ _. h'))
