-- ===== src/Api/Runtime.antt =====
-- src/req_tracker/api/state.py: the part of `RuntimeState` that the commands on approvals and
-- feedback change, and how they write it to the state store.
pub mod Frame
use se_1_rune_agent.Base.{
  ℕ, String, Bool, true, false, Option, none, some, List, [], ◌∷◌, ◌++◌, ◌==◌, if◌then◌else◌,
}
use se_1_rune_agent.Base.Dict.{Dict, get, put, values}
use se_1_rune_agent.Exec.{
  Exec, Result, ok, key_error, pure, modify, get_state, require, zoom, ◌>>=◌, ◌>>◌,
}
use se_1_rune_agent.Ontology.{TraceabilityEdge}
use se_1_rune_agent.Feedback.{FeedbackEvent, ImprovementCandidate}
use se_1_rune_agent.Approvals.{ApprovalItem, GraphDelta}
use se_1_rune_agent.Approvals.Contracts.{Contracts}
use se_1_rune_agent.Approvals.Service.{ApprovalService, Desk}
use se_1_rune_agent.Audit.{AuditEvent, AuditService, Entry, Fingerprint, record_event}
use se_1_rune_agent.Api.Idempotency.{IdempotencyRecord, IdempotencyContext}

-- The rows that the commands write. `R` is the type of the response dicts.
pub data Row (c : Contracts) (R : Type 0) : Type 0 where
  approval_row : ApprovalItem → Row c R
  delta_row : GraphDelta c.Value → Row c R
  feedback_row : FeedbackEvent → Row c R
  audit_row : AuditEvent → Row c R
  edge_row : TraceabilityEdge → Row c R
  idempotency_row : IdempotencyRecord R → Row c R
  decision_row : R → Row c R

pub record StoredRow (c : Contracts) (R : Type 0) : Type 0 where
  pub project_key : Option String
  pub payload : Row c R

-- `StateStore`: collections of rows by entity id, as src/req_tracker/storage/sqlite_store.py keeps
-- them, less hashes and times.
abbrev pub StateStore : (c : Contracts) (R : Type 0) → Type 0
StateStore c R = Dict (Dict (StoredRow c R))

pub record RuntimeState (c : Contracts) (R : Type 0) : Type 0 where
  pub desk : Desk c
  pub audit : AuditService
  pub idempotency_results : Dict (IdempotencyRecord R)
  pub improvement_decisions : Dict R
  pub state_store : Option (StateStore c R)

abbrev pub response_record :
    {R : Type 0}
    → IdempotencyContext R
    → String
    → Option String
    → R
    → String
    → String
    → IdempotencyRecord R
response_record context command project_key response key id = record {
  record_id = id;
  idempotency_key = key;
  command = command;
  project_key = project_key;
  request_hash = some context.request_hash;
  response = some response;
}

module _ {c : Contracts} {R : Type 0} where
  abbrev rows_of : Option (Dict (StoredRow c R)) → Dict (StoredRow c R)
  rows_of none = []
  rows_of (some rows) = rows

  unfoldable pub upsert :
      String → String → Option String → Row c R → StateStore c R → StateStore c R
  upsert collection entity_id project_key payload store = put store collection (
      put (rows_of (get store collection)) entity_id
        (record { project_key = project_key; payload = payload }))

  -- An upsert when a store is configured.
  abbrev pub store_row :
      String → String → Option String → Row c R → RuntimeState c R → RuntimeState c R
  store_row collection entity_id project_key payload s = record s {
    state_store = elim s.state_store [
      | none ↦ none
      | some store ↦ some (upsert collection entity_id project_key payload store)
    ];
  }

  store_approvals : List ApprovalItem → RuntimeState c R → RuntimeState c R
  store_approvals [] s = s
  store_approvals (a ∷ rest) s =
      store_approvals rest
        (store_row "approval_items" a.approval_id (some a.project_key) (Row.approval_row a) s)

  store_deltas : List (GraphDelta c.Value) → RuntimeState c R → RuntimeState c R
  store_deltas [] s = s
  store_deltas (d ∷ ds) s =
      store_deltas ds (store_row "graph_deltas" d.delta_id (some d.project_key) (Row.delta_row d) s)

  store_feedback : List FeedbackEvent → RuntimeState c R → RuntimeState c R
  store_feedback [] s = s
  store_feedback (f ∷ fs) s =
      store_feedback fs (store_row "feedback_events" f.feedback_id none (Row.feedback_row f) s)

  store_audit : List AuditEvent → RuntimeState c R → RuntimeState c R
  store_audit [] s = s
  store_audit (e ∷ es) s =
      store_audit es (store_row "audit_events" e.audit_id e.project_key (Row.audit_row e) s)

  -- An edge whose source node is not in the graph raises, with the rows of before written.
  store_edges : List TraceabilityEdge → Exec (RuntimeState c R) (Unit {0})
  store_edges [] = pure tt
  store_edges (e ∷ es) = do
    s ← get_state
    node ← require (key_error e.source_node_id) (get s.desk.graph.nodes e.source_node_id)
    modify (store_row "graph_edges" e.edge_id (some node.project_key) (Row.edge_row e))
    store_edges es

  persist_all : Exec (RuntimeState c R) (Unit {0})
  unfolding store_approvals store_deltas store_feedback store_audit store_edges
  persist_all = do
    s ← get_state
    modify (store_approvals (values s.desk.service.items))
    modify (store_deltas (values s.desk.service.deltas))
    modify (store_feedback s.desk.service.feedback)
    modify (store_audit (values s.audit.events))
    store_edges (values s.desk.graph.edges)

  persist_optional : Option (StateStore c R) → Exec (RuntimeState c R) (Unit {0})
  unfolding persist_all
  persist_optional none s = (ok tt, s)
  persist_optional (some store) s = persist_all s

  unfoldable pub persist_approval_state : Exec (RuntimeState c R) (Unit {0})
  unfolding persist_optional
  persist_approval_state s = persist_optional s.state_store s

  -- `record_idempotency_result`
  unfoldable pub record_idempotency_result :
      IdempotencyRecord R → RuntimeState c R → RuntimeState c R
  record_idempotency_result r s =
      store_row "idempotency_results" r.record_id r.project_key (Row.idempotency_row r)
        (record s { idempotency_results = put s.idempotency_results r.record_id r })

  -- `record_idempotency_response`
  unfoldable pub record_idempotency_response :
      IdempotencyContext R → String → Option String → R → RuntimeState c R → RuntimeState c R
  unfolding record_idempotency_result
  record_idempotency_response context command project_key response s = elim context.key [
    | none ↦ s
    | some key ↦ elim context.record_id [
      | none ↦ s
      | some id ↦
          record_idempotency_result (response_record context command project_key response key id) s
    ]
  ]

  unfoldable pub record_improvement_decision : String → R → RuntimeState c R → RuntimeState c R
  record_improvement_decision candidate_id decision s =
      store_row "improvement_decisions" candidate_id none (Row.decision_row decision)
        (record s { improvement_decisions = put s.improvement_decisions candidate_id decision })

  abbrev pub on_desk : {A : Type 0} → Exec (Desk c) A → Exec (RuntimeState c R) A
  on_desk = zoom (λ s. s.desk) (λ desk s. record s { desk = desk })

  abbrev pub audit_record : (Fingerprint → String) → ℕ → Entry → RuntimeState c R → RuntimeState c R
  audit_record stable_hash now e s = record s { audit = record_event stable_hash now e s.audit }
