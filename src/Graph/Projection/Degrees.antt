-- ===== src/Graph/Projection/Degrees.antt =====
-- The table of degrees, by the edges at a node.
use se_1_rune_agent.Base.{
  ℕ, ◌+◌, String, List, [], ◌∷◌, ◌==◌, ◌≡◌, refl, arith, select, length, eq_iff, Bool-cases, inl,
  inr, if◌then◌else◌,
}
use se_1_rune_agent.Base.Dict.{Dict, get, get-put}
use se_1_rune_agent.Ontology.{TraceabilityEdge}
use se_1_rune_agent.Graph.Projection.{
  Degree, degree_of, change_degree, approved_degrees, pending_degrees, degree_by_node,
}

abbrev pub edges_into : String → List TraceabilityEdge → ℕ
edges_into x edges = length (select (λ e. e.target_node_id == x) edges)

abbrev pub edges_from : String → List TraceabilityEdge → ℕ
edges_from x edges = length (select (λ e. e.source_node_id == x) edges)

degree-change :
    (f : Degree → Degree) (k x : String) (degree : Dict Degree)
    → degree_of (change_degree f k degree) x
      ≡ (if k == x then f (degree_of degree x) else degree_of degree x)
unfolding change_degree
degree-change f k x degree = elim (Bool-cases (k == x)) [
  | inl same ↦ rw get-put (rw same (rw ((eq_iff k x).0 same) refl))
  | inr other ↦ rw get-put (rw other refl)
]

abbrev with_approved : ℕ → ℕ → Degree → Degree
with_approved i o d = record d {
  approved_in = d.approved_in + i;
  approved_out = d.approved_out + o;
}

abbrev with_pending : ℕ → ℕ → Degree → Degree
with_pending i o d = record d { pending_in = d.pending_in + i; pending_out = d.pending_out + o }

approved_degrees-lem :
    (x : String) (edges : List TraceabilityEdge) (degree : Dict Degree)
    → degree_of (approved_degrees degree edges) x
      ≡ with_approved (edges_into x edges) (edges_from x edges) (degree_of degree x)
unfolding approved_degrees
approved_degrees-lem x [] degree = ground arith
approved_degrees-lem x (e ∷ edges) degree =
    let left =
      change_degree (λ d. record d { approved_out = d.approved_out + 1 }) e.source_node_id degree in
    let both =
      change_degree (λ d. record d { approved_in = d.approved_in + 1 }) e.target_node_id left in
    ground (
      arith,
      approved_degrees-lem x edges both,
      degree-change (λ d. record d { approved_in = d.approved_in + 1 }) e.target_node_id x left,
      degree-change (λ d. record d { approved_out = d.approved_out + 1 }) e.source_node_id x degree,
    )

pending_degrees-lem :
    (x : String) (edges : List TraceabilityEdge) (degree : Dict Degree)
    → degree_of (pending_degrees degree edges) x
      ≡ with_pending (edges_into x edges) (edges_from x edges) (degree_of degree x)
unfolding pending_degrees
pending_degrees-lem x [] degree = ground arith
pending_degrees-lem x (e ∷ edges) degree =
    let left =
      change_degree (λ d. record d { pending_out = d.pending_out + 1 }) e.source_node_id degree in
    let both =
      change_degree (λ d. record d { pending_in = d.pending_in + 1 }) e.target_node_id left in
    ground (
      arith,
      pending_degrees-lem x edges both,
      degree-change (λ d. record d { pending_in = d.pending_in + 1 }) e.target_node_id x left,
      degree-change (λ d. record d { pending_out = d.pending_out + 1 }) e.source_node_id x degree,
    )

-- The table holds, for each node, the numbers of the approved and the pending edges that lead to
-- it and from it.
pub degree_by_node-counts :
    (x : String) (approved_edges pending_edges : List TraceabilityEdge)
    → degree_of (degree_by_node approved_edges pending_edges) x ≡ record {
      approved_in = edges_into x approved_edges;
      approved_out = edges_from x approved_edges;
      pending_in = edges_into x pending_edges;
      pending_out = edges_from x pending_edges;
    }
unfolding degree_by_node get
degree_by_node-counts x approved_edges pending_edges = ground (
  arith,
  pending_degrees-lem x pending_edges (approved_degrees [] approved_edges),
  approved_degrees-lem x approved_edges [],
)
