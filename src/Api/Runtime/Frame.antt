-- ===== src/Api/Runtime/Frame.antt =====
-- The caches in memory while the approval state is written to the state store.
use se_1_rune_agent.Base.{String, Option, none, some, List, [], ◌∷◌, ◌≡◌, refl, ◌∙◌}
use se_1_rune_agent.Base.Dict.{get, values}
use se_1_rune_agent.Exec.{key_error, Leaves, require_ind}
use se_1_rune_agent.Ontology.{TraceabilityEdge}
use se_1_rune_agent.Feedback.{FeedbackEvent}
use se_1_rune_agent.Approvals.{ApprovalItem, GraphDelta}
use se_1_rune_agent.Approvals.Contracts.{Contracts}
use se_1_rune_agent.Audit.{AuditEvent}
use se_1_rune_agent.Api.Runtime.{
  Row, StateStore, RuntimeState, store_row, store_approvals, store_deltas, store_feedback,
  store_audit, store_edges, persist_all, persist_optional, persist_approval_state,
}

module _ {c : Contracts} {R : Type 0} where
  -- The caches are the same; the state store may differ.
  pub record SameCaches (a b : RuntimeState c R) : Type 0 where
    pub desk : a.desk ≡ b.desk
    pub audit : a.audit ≡ b.audit
    pub idempotency_results : a.idempotency_results ≡ b.idempotency_results
    pub improvement_decisions : a.improvement_decisions ≡ b.improvement_decisions

  after_row :
      (collection id : String) (key : Option String) (row : Row c R) (s : RuntimeState c R)
      {t : RuntimeState c R}
      → SameCaches t (store_row collection id key row s)
      → SameCaches t s
  after_row collection id key row s h = record {
    desk = h.desk;
    audit = h.audit;
    idempotency_results = h.idempotency_results;
    improvement_decisions = h.improvement_decisions;
  }

  pub SameCaches-refl : (s : RuntimeState c R) → SameCaches s s
  SameCaches-refl s = record {
    desk = refl;
    audit = refl;
    idempotency_results = refl;
    improvement_decisions = refl;
  }

  SameCaches-trans : {s t u : RuntimeState c R} → SameCaches s t → SameCaches t u → SameCaches s u
  SameCaches-trans h k = record {
    desk = h.desk ∙ k.desk;
    audit = h.audit ∙ k.audit;
    idempotency_results = h.idempotency_results ∙ k.idempotency_results;
    improvement_decisions = h.improvement_decisions ∙ k.improvement_decisions;
  }

  store_approvals-SameCaches :
      (items : List ApprovalItem) (s : RuntimeState c R) → SameCaches (store_approvals items s) s
  unfolding store_approvals
  store_approvals-SameCaches [] s = SameCaches-refl s
  store_approvals-SameCaches (a ∷ rest) s = after_row _ _ _ _ s (store_approvals-SameCaches rest _)

  store_deltas-SameCaches :
      (ds : List (GraphDelta c.Value)) (s : RuntimeState c R) → SameCaches (store_deltas ds s) s
  unfolding store_deltas
  store_deltas-SameCaches [] s = SameCaches-refl s
  store_deltas-SameCaches (d ∷ rest) s = after_row _ _ _ _ s (store_deltas-SameCaches rest _)

  store_feedback-SameCaches :
      (fs : List FeedbackEvent) (s : RuntimeState c R) → SameCaches (store_feedback fs s) s
  unfolding store_feedback
  store_feedback-SameCaches [] s = SameCaches-refl s
  store_feedback-SameCaches (f ∷ rest) s = after_row _ _ _ _ s (store_feedback-SameCaches rest _)

  store_audit-SameCaches :
      (es : List AuditEvent) (s : RuntimeState c R) → SameCaches (store_audit es s) s
  unfolding store_audit
  store_audit-SameCaches [] s = SameCaches-refl s
  store_audit-SameCaches (e ∷ rest) s = after_row _ _ _ _ s (store_audit-SameCaches rest _)

  store_edges-SameCaches :
      (es : List TraceabilityEdge) (s : RuntimeState c R)
      → Leaves (λ t. SameCaches t s) (store_edges es s)
  unfolding store_edges
  store_edges-SameCaches [] s = SameCaches-refl s
  store_edges-SameCaches (e ∷ rest) s =
      require_ind (Leaves (λ t. SameCaches t s)) (key_error e.source_node_id)
        (get s.desk.graph.nodes e.source_node_id) _ s
        (λ node _. after_row _ _ _ _ s (store_edges-SameCaches rest _)) (λ _. SameCaches-refl s)

  persist_all-SameCaches : (s : RuntimeState c R) → Leaves (λ t. SameCaches t s) (persist_all s)
  unfolding persist_all
  persist_all-SameCaches s =
      let s1 = store_approvals (values s.desk.service.items) s in
      let s2 = store_deltas (values s.desk.service.deltas) s1 in
      let s3 = store_feedback s.desk.service.feedback s2 in
      let s4 = store_audit (values s.audit.events) s3 in
      SameCaches-trans (store_edges-SameCaches (values s.desk.graph.edges) s4) (
        SameCaches-trans (store_audit-SameCaches (values s.audit.events) s3) (
          SameCaches-trans (store_feedback-SameCaches s.desk.service.feedback s2) (
            SameCaches-trans (store_deltas-SameCaches (values s.desk.service.deltas) s1)
              (store_approvals-SameCaches (values s.desk.service.items) s))))

  persist_optional-SameCaches :
      (o : Option (StateStore c R)) (s : RuntimeState c R)
      → Leaves (λ t. SameCaches t s) (persist_optional o s)
  unfolding persist_optional
  persist_optional-SameCaches none s = SameCaches-refl s
  persist_optional-SameCaches (some store) s = persist_all-SameCaches s

  -- Persisting the approval state, whether it ends or raises, leaves the queue, the graph, the
  -- register, the idempotency records and the improvement decisions in memory as they were.
  pub persist_approval_state-SameCaches :
      (s : RuntimeState c R) → Leaves (λ t. SameCaches t s) (persist_approval_state s)
  unfolding persist_approval_state persist_optional
  persist_approval_state-SameCaches s = persist_optional-SameCaches s.state_store s
