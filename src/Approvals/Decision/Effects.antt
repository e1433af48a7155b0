-- ===== src/Approvals/Decision/Effects.antt =====
-- What the actions do to the graph and the feedback, and what a decision answers.
use Prim.Native.String.{◌++◌ as text_append}
use text.Mathlib.Text.{starts_with}
use text.Mathlib.TextPositions.{starts_with-append}
use se_1_rune_agent.Base.{
  ℕ, String, true, false, none, some, [], ◌∷◌, ◌≡◌, ◌≢◌, ◌⊎◌, refl, ap, ◌∙◌, arith, eq_false_of_ne,
  elem, truthy, or_text,
}
use se_1_rune_agent.Base.Dict.{get, get-put_self}
use se_1_rune_agent.Base.Text.{concat, decimal}
use se_1_rune_agent.Exec.{Result, ok, raised, Exception, validation_error, continue_ind}
use se_1_rune_agent.Feedback.{read_reason_code}
use se_1_rune_agent.Ontology.{TraceabilityEdge, accepts_edge}
use se_1_rune_agent.Approvals.{
  ApprovalItemStatus, approved, rejected, held, modified_approved, approve, reject, hold, modify,
  ApprovalItem, ApprovalDecision,
}
use se_1_rune_agent.Approvals.Contracts.{Contracts, IsPydantic}
use se_1_rune_agent.Approvals.Service.{
  Desk, is_pending, is_stale_decision, approve_by_system, staged_delta, staged_item, stage_edges,
}
use se_1_rune_agent.Approvals.Decision.{
  carry_out, carry_out_approved, carry_out_modified, decide_item, decide, has_entries, settled,
  keep_item, keep_feedback, decision_event, file_feedback,
}
use se_1_rune_agent.Approvals.Decision.Final.{carry_out-SameQueue}
use se_1_rune_agent.Graph.Memory.{store_edge, seal}
use se_1_rune_agent.Graph.Memory.Idempotence.{apply_delta_creates}

prefixed_ne : (p t : String) → starts_with "" p ≡ false → text_append p t ≢ ""
prefixed_ne p t no_prefix e = cc (starts_with-append p t, ap (λ w. starts_with w p) e, no_prefix)

delta_ref-truthy : (s : String) → truthy (some (concat ("delta_" ∷ s ∷ []))) ≡ true
unfolding concat
delta_ref-truthy s = rw (eq_false_of_ne _ "" (prefixed_ne "delta_" (text_append s "") refl))

delta_ref-or_text :
    (s : String) → or_text (some (concat ("delta_" ∷ s ∷ []))) "" ≡ concat ("delta_" ∷ s ∷ [])
unfolding concat
delta_ref-or_text s = rw (eq_false_of_ne _ "" (prefixed_ne "delta_" (text_append s "") refl))

module _ (c : Contracts) where
  -- What `approve` leaves, of an item with the delta that staging gave it.
  carry_out_approve :
      (laws : IsPydantic c) (now : ℕ) (p r t : String) (edge : TraceabilityEdge)
      (item : ApprovalItem) (d : ApprovalDecision c.Value) (desk : Desk c)
      → item.graph_delta_ref ≡ some (concat ("delta_" ∷ edge.edge_id ∷ []))
      → get desk.service.deltas (concat ("delta_" ∷ edge.edge_id ∷ []))
        ≡ some (staged_delta c p r t edge)
      → accepts_edge (approve_by_system c edge) ≡ true
      → elem (concat (d.approval_id ∷ ":" ∷ decimal item.version ∷ [])) desk.graph.idempotency_keys
        ≡ false
      → carry_out c approve item d desk ≡ (
        ok approved,
        record desk {
          graph =
              seal
                (concat (d.approval_id ∷ ":" ∷ decimal item.version ∷ []))
                (store_edge (approve_by_system c edge) desk.graph);
        },
      )
  unfolding carry_out carry_out_approved staged_delta
  carry_out_approve laws now p r t edge item d desk ref there accepted fresh =
      rw (ref, delta_ref-truthy edge.edge_id, delta_ref-or_text edge.edge_id, there)
        (rw (
          apply_delta_creates c (staged_delta c p r t edge) _ (approve_by_system c edge) _
            desk.graph refl refl (laws.reads_own_dump (approve_by_system c edge) accepted) fresh))

  -- What the decision on a settled item ends in: the item, or the ValidationError of a reason that
  -- is not in the taxonomy.
  abbrev pub answered : ApprovalDecision c.Value → ApprovalItem → Result ApprovalItem
  answered d out = elim (read_reason_code c.lower d.reason_code) [
    | none ↦ raised validation_error
    | some reason ↦ ok out
  ]

  -- The feedback of a decision with a reason of the taxonomy, none otherwise.
  abbrev pub with_feedback :
      ℕ → ApprovalItemStatus → ApprovalItem → ApprovalDecision c.Value → Desk c → Desk c
  with_feedback now status item d desk = elim (decision_event c now status item d) [
    | none ↦ desk
    | some event ↦ keep_feedback c event desk
  ]

  file_feedback-answered :
      (now : ℕ) (status : ApprovalItemStatus) (item : ApprovalItem) (d : ApprovalDecision c.Value)
      (desk : Desk c)
      → file_feedback c now status item d desk
        ≡ (answered d (settled c now status item), with_feedback now status item d desk)
  unfolding decision_event
  file_feedback-answered now status item d desk = ground arith

  with_feedback-others :
      (now : ℕ) (status : ApprovalItemStatus) (item : ApprovalItem) (d : ApprovalDecision c.Value)
      (desk : Desk c)
      → let after = with_feedback now status item d desk in
        (after.graph ≡ desk.graph) × (after.service.items ≡ desk.service.items)
  with_feedback-others now status item d desk = ground arith

  decide_item_carried :
      (now : ℕ) (item : ApprovalItem) (d : ApprovalDecision c.Value) (desk after : Desk c)
      (status : ApprovalItemStatus)
      → is_pending item.status ≡ true
      → is_stale_decision item d ≡ false
      → carry_out c d.action item d desk ≡ (ok status, after)
      → decide_item c now item d desk
        ≡ file_feedback c now status item d (keep_item c (settled c now status item) after)
  unfolding decide_item
  decide_item_carried now item d desk after status p s carried = rw (p, s, carried)

  -- Once an edge is staged, an `approve` of its item that is not stale, under a key that the graph
  -- has not used, leaves the edge in the graph with the status approved and the approver "system",
  -- and the item in the queue as approved. It returns this item, unless the reason that it gives
  -- is not in the taxonomy: then it raises a ValidationError all the same.
  pub approve-stage_edges :
      (laws : IsPydantic c) (now later : ℕ) (p r t : String) (edge : TraceabilityEdge)
      (d : ApprovalDecision c.Value) (desk : Desk c)
      → d.approval_id ≡ (staged_item c now p r t edge).approval_id
      → d.action ≡ approve
      → is_stale_decision (staged_item c now p r t edge) d ≡ false
      → accepts_edge (approve_by_system c edge) ≡ true
      → elem (concat (d.approval_id ∷ ":" ∷ decimal 1 ∷ [])) desk.graph.idempotency_keys ≡ false
      → let out = settled c later approved (staged_item c now p r t edge) in
        let (result, after) =
          decide c later d
            (record desk { service = stage_edges c now p r t (edge ∷ []) desk.service }) in
        (get after.graph.edges edge.edge_id ≡ some (approve_by_system c edge))
        × (get after.service.items out.approval_id ≡ some out)
        × (result ≡ answered d out)
  unfolding decide stage_edges
  approve-stage_edges laws now later p r t edge d desk id action fresh accepted unused =
      let item = staged_item c now p r t edge in
      let staged = record desk { service = stage_edges c now p r t (edge ∷ []) desk.service } in
      let there : get staged.service.items d.approval_id ≡ some item =
        ap (get staged.service.items) id ∙ get-put_self desk.service.items item.approval_id item in
      let carried = decide_item_carried later item d staged _ approved refl fresh (
        ap (λ a. carry_out c a item d staged) action
        ∙ carry_out_approve laws now p r t edge item d staged refl
            (get-put_self desk.service.deltas _ _) accepted unused) in
      let (graph, items) = with_feedback-others later approved item d _ in
      rw (there, carried, file_feedback-answered later approved item d _)
        (
          ap (λ g. get g.edges edge.edge_id) graph ∙ get-put_self desk.graph.edges edge.edge_id _,
          ap (λ m. get m item.approval_id) items ∙ get-put_self staged.service.items _ _,
          refl,
        )

  -- The action keeps off the graph: a rejection, a hold, or a modification that corrects nothing.
  abbrev pub KeepsOff : ApprovalDecision c.Value → ApprovalItemStatus → Type 0
  KeepsOff d status =
      (d.action ≡ reject) × (status ≡ rejected)
      ⊎ (d.action ≡ hold) × (status ≡ held)
      ⊎ (d.action ≡ modify)
        × (has_entries d.correction_payload ≡ false)
        × (status ≡ modified_approved)

  carry_out-KeepsOff :
      (item : ApprovalItem) (d : ApprovalDecision c.Value) (desk : Desk c)
      (status : ApprovalItemStatus)
      → KeepsOff d status
      → carry_out c d.action item d desk ≡ (ok status, desk)
  unfolding carry_out carry_out_modified
  carry_out-KeepsOff item d desk status h = ground arith

  -- A decision on a pending item, not stale, that rejects, holds, or modifies with no correction
  -- closes the item as rejected, held or modified-approved and leaves graph and deltas as they
  -- were. With a reason of the taxonomy, or none, it returns the item and records one feedback
  -- event; with any other reason it raises a ValidationError and records none.
  pub decide-KeepsOff :
      (now : ℕ) (d : ApprovalDecision c.Value) (desk : Desk c) (item : ApprovalItem)
      (status : ApprovalItemStatus)
      → get desk.service.items d.approval_id ≡ some item
      → is_pending item.status ≡ true
      → is_stale_decision item d ≡ false
      → KeepsOff d status
      → let out = settled c now status item in
        decide c now d desk
        ≡ (answered d out, with_feedback now status item d (keep_item c out desk))
  unfolding decide
  decide-KeepsOff now d desk item status there p s off = rw there (
      decide_item_carried now item d desk desk status p s
        (carry_out-KeepsOff item d desk status off)
      ∙ file_feedback-answered now status item d (keep_item c (settled c now status item) desk))

  -- No answer, and the feedback of `before`.
  abbrev Fails : Desk c → Result ApprovalItem × Desk c → Type 0
  Fails before (result, after) =
      ((e : Exception) × (result ≡ raised e)) × (after.service.feedback ≡ before.service.feedback)

  decision_event-none :
      (now : ℕ) (status : ApprovalItemStatus) (item : ApprovalItem) (d : ApprovalDecision c.Value)
      → read_reason_code c.lower d.reason_code ≡ none
      → decision_event c now status item d ≡ none
  unfolding decision_event
  decision_event-none now status item d unknown = ground arith

  file_feedback-Fails :
      (now : ℕ) (status : ApprovalItemStatus) (item : ApprovalItem) (d : ApprovalDecision c.Value)
      (before desk : Desk c)
      → read_reason_code c.lower d.reason_code ≡ none
      → desk.service.feedback ≡ before.service.feedback
      → Fails before (file_feedback c now status item d desk)
  file_feedback-Fails now status item d before desk unknown same =
      rw (decision_event-none now status item d unknown) ((validation_error, refl), same)

  -- A decision on a pending item that is not stale and gives a reason that is not in the taxonomy
  -- always raises, whatever its action, and records no feedback.
  pub decide_unknown_reason :
      (now : ℕ) (d : ApprovalDecision c.Value) (desk : Desk c) (item : ApprovalItem)
      → get desk.service.items d.approval_id ≡ some item
      → is_pending item.status ≡ true
      → is_stale_decision item d ≡ false
      → read_reason_code c.lower d.reason_code ≡ none
      → let (result, after) = decide c now d desk in
        ((e : Exception) × (result ≡ raised e)) × (after.service.feedback ≡ desk.service.feedback)
  unfolding decide decide_item
  decide_unknown_reason now d desk item there p s unknown =
      let (r, desk') = carry_out c d.action item d desk in
      let same = (carry_out-SameQueue c d.action item d desk).1 in
      rw (there, p, s)
        (continue_ind (Fails desk) r _ desk'
          (λ status _.
            file_feedback-Fails now status item d desk
              (keep_item c (settled c now status item) desk') unknown same)
          (λ e _. ((e, refl), same)))
