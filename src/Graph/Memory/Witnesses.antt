-- ===== src/Graph/Memory/Witnesses.antt =====
-- The graph on concrete inputs.
use se_1_rune_agent.Base.{[], ◌∷◌, ◌≡◌, refl}
use se_1_rune_agent.Base.Dict.{get}
use se_1_rune_agent.Exec.{ok, raised, validation_error}
use se_1_rune_agent.Ontology.{accepts_edge}
use se_1_rune_agent.Approvals.{GraphDelta, create_edge, create_node}
use se_1_rune_agent.Approvals.Samples.{Cell, contracts, inferred_edge}
use se_1_rune_agent.Graph.Memory.{apply_delta, empty_graph, apply_operations, apply_by}
use se_1_rune_agent.Graph.Memory.Idempotence.{apply_delta_again}

abbrev edge_delta : GraphDelta Cell
edge_delta = record {
  delta_id = "delta_edge_1";
  project_key = "SYS";
  operations =
      record {
        operation = create_edge;
        target_id = "edge_1";
        payload = contracts.dump_edge inferred_edge;
      }
      ∷ [];
  created_from_run_id = "run_1";
  created_from_step_id = "step_1";
}

abbrev bad_delta : GraphDelta Cell
bad_delta = record edge_delta {
  operations = record { operation = create_node; target_id = "req_1"; payload = [] } ∷ [];
}

edge_delta_applies : (apply_delta contracts edge_delta "apv_1:1" empty_graph).0 ≡ ok tt
unfolding apply_delta apply_operations apply_by get accepts_edge
edge_delta_applies = refl

apply_delta_again_example :
    apply_delta contracts bad_delta "apv_1:1"
      (apply_delta contracts edge_delta "apv_1:1" empty_graph).1
    ≡ (ok tt, (apply_delta contracts edge_delta "apv_1:1" empty_graph).1)
apply_delta_again_example =
    apply_delta_again contracts edge_delta bad_delta "apv_1:1" empty_graph edge_delta_applies

bad_delta_raises :
    (apply_delta contracts bad_delta "apv_1:1" empty_graph).0 ≡ raised validation_error
unfolding apply_delta apply_operations apply_by
bad_delta_raises = refl
