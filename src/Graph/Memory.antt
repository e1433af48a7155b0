-- ===== src/Graph/Memory.antt =====
-- src/req_tracker/graph/memory_backend.py: the graph of approved edges, as `MemoryGraphBackend`.
pub mod Delta
pub mod Idempotence
mod Witnesses
use se_1_rune_agent.Base.{
  String, Bool, true, false, Option, none, some, List, [], ◌∷◌, ◌++◌, ◌==◌, if◌then◌else◌, elem,
  select,
}
use se_1_rune_agent.Base.Dict.{Dict, put, values}
use se_1_rune_agent.Exec.{Exec, Exception, validation_error, require, pure, modify, ◌>>=◌, ◌>>◌}
use se_1_rune_agent.Ontology.{OntologyNode, TraceabilityEdge}
use se_1_rune_agent.Approvals.{
  GraphOperation, create_node, create_edge, GraphDeltaOperation, GraphDelta,
}
use se_1_rune_agent.Approvals.Contracts.{Contracts}

pub record MemoryGraphBackend : Type 0 where
  pub nodes : Dict OntologyNode
  pub edges : Dict TraceabilityEdge
  pub idempotency_keys : List String

abbrev pub empty_graph : MemoryGraphBackend
empty_graph = record { nodes = []; edges = []; idempotency_keys = [] }

abbrev pub store_node : OntologyNode → MemoryGraphBackend → MemoryGraphBackend
store_node node g = record g { nodes = put g.nodes node.node_id node }

abbrev pub store_edge : TraceabilityEdge → MemoryGraphBackend → MemoryGraphBackend
store_edge edge g = record g { edges = put g.edges edge.edge_id edge }

-- `self._idempotency_keys.add(key)`, of a key that is not there.
abbrev pub seal : String → MemoryGraphBackend → MemoryGraphBackend
seal key g = record g { idempotency_keys = g.idempotency_keys ++ key ∷ [] }

unfoldable pub stage_baseline_nodes : List OntologyNode → MemoryGraphBackend → MemoryGraphBackend
stage_baseline_nodes [] g = g
stage_baseline_nodes (node ∷ nodes) g = stage_baseline_nodes nodes (store_node node g)

module _ (c : Contracts) where
  -- One pass of the loop of `apply_delta`: the operations of other kinds are passed over.
  apply_by : GraphOperation → Dict c.Value → Exec MemoryGraphBackend (Unit {0})
  apply_by create_node payload = do
    node ← require validation_error (c.validate_node payload)
    modify (store_node node)
  apply_by create_edge payload = do
    edge ← require validation_error (c.validate_edge payload)
    modify (store_edge edge)
  apply_by _ payload = pure tt

  apply_operations : List (GraphDeltaOperation c.Value) → Exec MemoryGraphBackend (Unit {0})
  apply_operations [] = pure tt
  apply_operations (op ∷ ops) = do apply_by op.operation op.payload; apply_operations ops

  unfoldable pub apply_delta : GraphDelta c.Value → String → Exec MemoryGraphBackend (Unit {0})
  unfolding apply_by apply_operations
  apply_delta delta idempotency_key g =
      let run = do apply_operations delta.operations; modify (seal idempotency_key)
      in if elem idempotency_key g.idempotency_keys then (pure tt) g else run g

abbrev pub approved_edges : MemoryGraphBackend → List TraceabilityEdge
approved_edges g = values g.edges

-- `subgraph`: the nodes of the project, and the edges of the whole graph.
unfoldable pub subgraph : String → MemoryGraphBackend → List OntologyNode × List TraceabilityEdge
subgraph project_key g =
    (select (λ node. node.project_key == project_key) (values g.nodes), values g.edges)
