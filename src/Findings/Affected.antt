-- ===== src/Findings/Affected.antt =====
-- Facts of the findings of the later rules, rule by rule and put together.
use Prim.Native.String.{String}
use se_1_rune_agent.Base.{
  ℕ, Bool, true, false, Option, none, some, List, [], ◌∷◌, select, map, All, All-append, OnSome,
}
use se_1_rune_agent.Base.Integers.{ℤ}
use se_1_rune_agent.Base.Dict.{Dict, get, dedupe}
use se_1_rune_agent.Ontology.{
  EvidenceSpan, OntologyNode, NodeType, TraceabilityEdge, Finding, SourceType,
}
use se_1_rune_agent.Adapters.{Metadata, RawSourceArtifact}
use se_1_rune_agent.Findings.{
  is_implements, when, conflict_finding, conflicts_at, conflict_findings, incoming,
  architecture_finding, architecture_gaps, architecture_findings,
}
use se_1_rune_agent.Findings.Sources.{
  stale_finding, stale_at, stale_of, stale_findings, versions_of, joined, escalation, escalates,
  issue_findings, later_findings,
}

when-All : (P : Finding → Type 0) (b : Bool) (f : Finding) → P f → All P (when b f)
when-All P true f h = (h, tt)
when-All P false f h = tt

module _ (P : Finding → Type 0) (finding_hash : String → List String → String) where
  conflicts_at-All :
      (impl_edges : List TraceabilityEdge) (targets : List String)
      → ((target : String) (es : List TraceabilityEdge)
          → P (conflict_finding finding_hash target es))
      → All P (conflicts_at finding_hash impl_edges targets)
  conflicts_at-All impl_edges [] h = tt
  conflicts_at-All impl_edges (target ∷ targets) h =
      All-append P (when _ (conflict_finding finding_hash target (incoming impl_edges target))) _
        (when-All P _ _ (h target (incoming impl_edges target)))
        (conflicts_at-All impl_edges targets h)

  conflict_findings-All :
      (edges : List TraceabilityEdge)
      → ((target : String) (es : List TraceabilityEdge)
          → P (conflict_finding finding_hash target es))
      → All P (conflict_findings finding_hash edges)
  unfolding conflict_findings
  conflict_findings-All edges h =
      let impl_edges = select (λ (e : TraceabilityEdge). is_implements e.relation) edges in
      conflicts_at-All impl_edges (dedupe (map (λ e. e.target_node_id) impl_edges)) h

  architecture_gaps-All :
      (t : NodeType) (nodes_by_id : Dict OntologyNode) (node : OntologyNode)
      (edges : List TraceabilityEdge)
      → ((es : List TraceabilityEdge) (ids : List String)
          → P (architecture_finding finding_hash node es ids))
      → All P (architecture_gaps finding_hash t nodes_by_id node edges)
  architecture_gaps-All NodeType.architecture_block d node edges h = when-All P _ _ (h _ _)
  architecture_gaps-All NodeType.requirement d node edges h = tt
  architecture_gaps-All NodeType.design_spec d node edges h = tt
  architecture_gaps-All NodeType.verification d node edges h = tt
  architecture_gaps-All NodeType.issue d node edges h = tt
  architecture_gaps-All NodeType.decision d node edges h = tt
  architecture_gaps-All NodeType.component d node edges h = tt
  architecture_gaps-All NodeType.risk d node edges h = tt

  architecture_findings-All :
      (nodes_by_id : Dict OntologyNode) (nodes : List OntologyNode) (edges : List TraceabilityEdge)
      → ((node : OntologyNode) (es : List TraceabilityEdge) (ids : List String)
          → P (architecture_finding finding_hash node es ids))
      → All P (architecture_findings finding_hash nodes_by_id nodes edges)
  unfolding architecture_findings
  architecture_findings-All d [] edges h = tt
  architecture_findings-All d (node ∷ nodes) edges h =
      All-append P (architecture_gaps finding_hash node.node_type d node edges) _
        (architecture_gaps-All node.node_type d node edges (h node))
        (architecture_findings-All d nodes edges h)

  stale_at-All :
      (artifact : RawSourceArtifact) (versions : Option ℤ × Option ℤ) (node : Option OntologyNode)
      (e : Option EvidenceSpan)
      → ((node : OntologyNode) (e : EvidenceSpan) (m n : ℤ)
          → P (stale_finding finding_hash artifact node e m n))
      → All P (stale_at finding_hash artifact versions node e)
  stale_at-All a (some m, some n) (some node) (some e) h = when-All P _ _ (h node e m n)
  stale_at-All a (none, n) o e h = tt
  stale_at-All a (some m, none) o e h = tt
  stale_at-All a (some m, some n) none e h = tt
  stale_at-All a (some m, some n) (some node) none h = tt

  joined-All :
      (o p : Option (List Finding))
      → OnSome (All P) o
      → OnSome (All P) p
      → OnSome (All P) (joined o p)
  joined-All none p h k = tt
  joined-All (some xs) none h k = tt
  joined-All (some xs) (some ys) h k = All-append P xs ys h k

  module _ (isdigit : String → Bool) (int : String → Option ℕ) where
    stale_of-All :
        (d : Dict OntologyNode) (v : Dict EvidenceSpan) (a : RawSourceArtifact) (t : SourceType)
        → ((node : OntologyNode) (e : EvidenceSpan) (m n : ℤ)
            → P (stale_finding finding_hash a node e m n))
        → OnSome (All P) (stale_of finding_hash isdigit int d v a t)
    unfolding stale_of
    stale_of-All d v a SourceType.confluence h =
        elim (versions_of isdigit int a)
          as (λ o. OnSome (All P) (elim o [
            | none ↦ none
            | some versions ↦
                some (stale_at finding_hash a versions (get d a.external_id) (get v a.external_id))
          ])) [
            | none ↦ tt
            | some versions ↦ stale_at-All a versions (get d a.external_id) (get v a.external_id) h
          ]
    stale_of-All d v a SourceType.jira h = tt
    stale_of-All d v a SourceType.email h = tt
    stale_of-All d v a SourceType.decision_archive h = tt
    stale_of-All d v a SourceType.dummy h = tt

    pub stale_findings-All :
        (by_external : Dict OntologyNode) (evidence : Dict EvidenceSpan)
        (artifacts : List RawSourceArtifact)
        → ((a : RawSourceArtifact) (node : OntologyNode) (e : EvidenceSpan) (m n : ℤ)
            → P (stale_finding finding_hash a node e m n))
        → OnSome (All P) (stale_findings finding_hash isdigit int by_external evidence artifacts)
    unfolding stale_findings
    stale_findings-All d v [] h = tt
    stale_findings-All d v (a ∷ artifacts) h =
        joined-All (stale_of finding_hash isdigit int d v a a.source_type)
          (stale_findings finding_hash isdigit int d v artifacts)
          (stale_of-All d v a a.source_type (h a)) (stale_findings-All d v artifacts h)

  module _ (str_of : Metadata → String) (lower : String → String) where
    escalates-All :
        (artifacts : Dict RawSourceArtifact) (edge : TraceabilityEdge)
        (source target : Option OntologyNode)
        → ((source target : OntologyNode) → P (escalation finding_hash edge source target))
        → All P (escalates finding_hash str_of lower artifacts edge source target)
    escalates-All artifacts edge (some source) (some target) h = when-All P _ _ (h source target)
    escalates-All artifacts edge none target h = tt
    escalates-All artifacts edge (some source) none h = tt

    issue_findings-All :
        (nodes_by_id : Dict OntologyNode) (artifacts : Dict RawSourceArtifact)
        (edges : List TraceabilityEdge)
        → ((edge : TraceabilityEdge) (source target : OntologyNode)
            → P (escalation finding_hash edge source target))
        → All P (issue_findings finding_hash str_of lower nodes_by_id artifacts edges)
    unfolding issue_findings
    issue_findings-All d artifacts [] h = tt
    issue_findings-All d artifacts (edge ∷ edges) h =
        All-append P
          (escalates finding_hash str_of lower artifacts edge (get d edge.source_node_id)
            (get d edge.target_node_id))
          _
          (escalates-All artifacts edge (get d edge.source_node_id) (get d edge.target_node_id)
            (h edge))
          (issue_findings-All d artifacts edges h)

    -- What holds of the findings of the later rules holds of what follows the gaps.
    pub later_findings-All :
        (nodes : List OntologyNode) (edges : List TraceabilityEdge)
        (artifacts : List RawSourceArtifact) (stale : List Finding)
        → ((target : String) (es : List TraceabilityEdge)
            → P (conflict_finding finding_hash target es))
        → All P stale
        → ((edge : TraceabilityEdge) (source target : OntologyNode)
            → P (escalation finding_hash edge source target))
        → ((node : OntologyNode) (es : List TraceabilityEdge) (ids : List String)
            → P (architecture_finding finding_hash node es ids))
        → All P (later_findings finding_hash str_of lower nodes edges artifacts stale)
    later_findings-All nodes edges artifacts stale conflict found escalated architecture =
        All-append P (conflict_findings finding_hash edges) _ (conflict_findings-All edges conflict)
          (All-append P stale _ found (
            All-append P (issue_findings finding_hash str_of lower _ _ edges) _
              (issue_findings-All _ _ edges escalated)
              (architecture_findings-All _ nodes edges architecture)))
