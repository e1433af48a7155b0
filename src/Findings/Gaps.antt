-- ===== src/Findings/Gaps.antt =====
-- Requirements that are reported as not implemented.
use Prim.Native.String.{String}
use se_1_rune_agent.Base.{
  ℕ, Bool, true, false, not, ◌&&◌, ◌||◌, Option, none, some, List, [], ◌∷◌, ◌++◌, ◌==◌, ◌≡◌, refl,
  ◌∙◌, arith, select, any, all, sym, elem, All, is_some, OnSome, eq_iff, Bool-cases, inl, inr,
}
use se_1_rune_agent.Base.Dict.{Dict, index}
use se_1_rune_agent.Ontology.{
  EvidenceSpan, OntologyNode, NodeType, TraceabilityEdge, Finding, FindingType, SourceType,
}
use se_1_rune_agent.Adapters.{
  Metadata, text, whole, flag, table, unhashable, plain, look_up, RawSourceArtifact,
}
use se_1_rune_agent.Reasoning.{external_id_from_node}
use se_1_rune_agent.Findings.{
  when, incoming, outgoing, is_implementation, is_verification, is_trace, rule_finding, gaps_of,
  gap_findings,
}
use se_1_rune_agent.Findings.Sources.{
  is_requirement, later_findings, analyze_findings, stale_of, stale_findings, metadata_int, both,
  joined,
}
use se_1_rune_agent.Findings.Affected.{stale_findings-All, later_findings-All}

any-append : (p : Finding → Bool) (xs ys : List Finding) → any p (xs ++ ys) ≡ (any p xs || any p ys)
any-append p [] ys = refl
any-append p (x ∷ xs) ys = ground (arith, any-append p xs ys)

none-any : (p : Finding → Bool) (xs : List Finding) → All (λ f. p f ≡ false) xs → any p xs ≡ false
none-any p [] h = refl
none-any p (x ∷ xs) h = ground (arith, none-any p xs)

any-select :
    (q p : TraceabilityEdge → Bool) (xs : List TraceabilityEdge)
    → any q (select p xs) ≡ any (λ e. p e && q e) xs
any-select q p [] = refl
any-select q p (x ∷ xs) = ground (arith, any-select q p xs)

abbrev has_rule : String → Option String → Bool
has_rule rule none = false
has_rule rule (some r) = r == rule

-- A finding of the rule names the node.
abbrev pub reports : String → String → Finding → Bool
reports rule x f = has_rule rule f.rule_id && elem x f.affected_node_ids

abbrev pub unimplemented : String
unimplemented = "REQ_WITHOUT_IMPLEMENTATION"

-- Some edge of those given satisfies or implements the node.
abbrev pub is_implemented : List TraceabilityEdge → String → Bool
is_implemented edges x = any (λ e. e.target_node_id == x && is_implementation e.relation) edges

abbrev pub has_requirement : List OntologyNode → String → Bool
has_requirement nodes x = any (λ n. n.node_id == x && is_requirement n.node_type) nodes

module _ (finding_hash : String → List String → String) (x : String)
    (edges : List TraceabilityEdge) where
  when-reports :
      (b : Bool) (rule : String) (node : OntologyNode) (t : FindingType)
      → any (reports unimplemented x) (when b (rule_finding finding_hash rule node t))
        ≡ (b && (rule == unimplemented && node.node_id == x))
  when-reports false rule node t = refl
  when-reports true rule node t = ground arith

  at_node :
      (y : String) (c : Bool)
      → ((not (is_implemented edges y) && (unimplemented == unimplemented && y == x))
          || (c && ("REQ_WITHOUT_VERIFICATION" == unimplemented && y == x)))
        ≡ ((y == x && true) && not (is_implemented edges x))
  at_node y c = elim (Bool-cases (y == x)) [
    | inl same ↦ rw same (rw ((eq_iff y x).0 same) (ground arith))
    | inr other ↦ rw other (ground arith)
  ]

  gaps_of-reports :
      (t : NodeType) (node : OntologyNode)
      → any (reports unimplemented x) (gaps_of finding_hash t node edges)
        ≡ ((node.node_id == x && is_requirement t) && not (is_implemented edges x))
  gaps_of-reports NodeType.requirement node =
      let b = not (
        any (λ (e : TraceabilityEdge). is_implementation e.relation)
          (incoming edges node.node_id)) in
      let c = not (
        any (λ (e : TraceabilityEdge). is_verification e.relation) (incoming edges node.node_id)) in
      rw
        (
          any-append (reports unimplemented x)
              (when b
                (rule_finding finding_hash unimplemented node FindingType.missing_implementation))
              (when c (
                rule_finding finding_hash "REQ_WITHOUT_VERIFICATION" node
                  FindingType.missing_verification)),
          when-reports b unimplemented node FindingType.missing_implementation,
          when-reports c "REQ_WITHOUT_VERIFICATION" node FindingType.missing_verification,
          any-select (λ e. is_implementation e.relation) (λ e. e.target_node_id == node.node_id)
              edges,
        )
        (at_node node.node_id c)
  gaps_of-reports NodeType.design_spec node =
      rw
        (when-reports
          (not (any (λ (e : TraceabilityEdge). is_trace e.relation) (outgoing edges node.node_id)))
          "DESIGN_WITHOUT_PARENT" node FindingType.orphan_node)
        (ground arith)
  gaps_of-reports NodeType.architecture_block node = ground arith
  gaps_of-reports NodeType.verification node = ground arith
  gaps_of-reports NodeType.issue node = ground arith
  gaps_of-reports NodeType.decision node = ground arith
  gaps_of-reports NodeType.component node = ground arith
  gaps_of-reports NodeType.risk node = ground arith

  gap_findings-reports :
      (nodes : List OntologyNode)
      → any (reports unimplemented x) (gap_findings finding_hash nodes edges)
        ≡ (has_requirement nodes x && not (is_implemented edges x))
  unfolding gap_findings
  gap_findings-reports [] = refl
  gap_findings-reports (node ∷ nodes) = ground (
    arith,
    any-append (reports unimplemented x) (gaps_of finding_hash node.node_type node edges)
        (gap_findings finding_hash nodes edges),
    gaps_of-reports node.node_type node,
    gap_findings-reports nodes,
  )

module _ (isdigit : String → Bool) (int : String → Option ℕ) where
  abbrev reads_version : Option Metadata → Bool
  reads_version (some (text s)) = not (isdigit s) || is_some (int s)
  reads_version _ = true

  -- Both versions of a Confluence page are read: neither is a text that `isdigit` accepts and
  -- `int` refuses.
  abbrev pub reads_versions : RawSourceArtifact → SourceType → Bool
  reads_versions artifact SourceType.confluence =
      reads_version (look_up artifact.metadata "previous_version_number")
      && reads_version (look_up artifact.metadata "version_number")
  reads_versions artifact _ = true

  metadata_int-reads :
      (m : Option Metadata) → is_some (metadata_int isdigit int m) ≡ reads_version m
  unfolding metadata_int
  metadata_int-reads none = refl
  metadata_int-reads (some (text s)) = ground arith
  metadata_int-reads (some (whole n)) = refl
  metadata_int-reads (some (flag b)) = refl
  metadata_int-reads (some (table t)) = refl
  metadata_int-reads (some unhashable) = refl
  metadata_int-reads (some plain) = refl

  both-reads : {A : Type 0} (a b : Option A) → is_some (both a b) ≡ (is_some a && is_some b)
  both-reads none b = refl
  both-reads (some a) none = refl
  both-reads (some a) (some b) = refl

  joined-reads : (a b : Option (List Finding)) → is_some (joined a b) ≡ (is_some a && is_some b)
  joined-reads none b = refl
  joined-reads (some a) none = refl
  joined-reads (some a) (some b) = refl

  module _ (finding_hash : String → List String → String) (by_external : Dict OntologyNode)
      (evidence : Dict EvidenceSpan) where
    stale_of-reads :
        (a : RawSourceArtifact) (t : SourceType)
        → is_some (stale_of finding_hash isdigit int by_external evidence a t) ≡ reads_versions a t
    unfolding stale_of
    stale_of-reads a SourceType.confluence =
        let previous = look_up a.metadata "previous_version_number" in
        let current = look_up a.metadata "version_number" in
        ground (
          arith,
          both-reads (metadata_int isdigit int previous) (metadata_int isdigit int current),
          metadata_int-reads previous,
          metadata_int-reads current,
        )
    stale_of-reads a SourceType.jira = refl
    stale_of-reads a SourceType.email = refl
    stale_of-reads a SourceType.decision_archive = refl
    stale_of-reads a SourceType.dummy = refl

    stale_findings-reads :
        (artifacts : List RawSourceArtifact)
        → is_some (stale_findings finding_hash isdigit int by_external evidence artifacts)
          ≡ all (λ a. reads_versions a a.source_type) artifacts
    unfolding stale_findings
    stale_findings-reads [] = refl
    stale_findings-reads (a ∷ artifacts) =
        rw
          (
            joined-reads (stale_of finding_hash isdigit int by_external evidence a a.source_type)
                (stale_findings finding_hash isdigit int by_external evidence artifacts),
            stale_of-reads a a.source_type,
            stale_findings-reads artifacts,
          )
          refl

-- What an analysis ends in: findings that report `x` exactly if it is an unimplemented requirement,
-- or a ValueError.
abbrev pub Analysis :
    (readable : Bool) (unimplemented_requirement : Bool) (x : String)
    → Option (List Finding)
    → Type 0
Analysis readable gap x none = readable ≡ false
Analysis readable gap x (some findings) =
    (readable ≡ true) × (any (reports unimplemented x) findings ≡ gap)

-- The analysis reports a node as a requirement without implementation exactly if the node is a
-- requirement of those given and no edge satisfies or implements it. It fails, with a ValueError,
-- exactly if a version number of a Confluence artifact is a text that `isdigit` accepts and `int`
-- refuses.
pub unimplemented-reported :
    (finding_hash : String → List String → String) (str_of : Metadata → String)
    (lower : String → String) (isdigit : String → Bool) (int : String → Option ℕ)
    (nodes : List OntologyNode) (edges : List TraceabilityEdge) (artifacts : List RawSourceArtifact)
    (evidence : Dict EvidenceSpan) (x : String)
    → Analysis
        (all (λ a. reads_versions isdigit int a a.source_type) artifacts)
        (has_requirement nodes x && not (is_implemented edges x))
        x
        (analyze_findings finding_hash str_of lower isdigit int nodes edges artifacts evidence)
unfolding analyze_findings
unimplemented-reported finding_hash str_of lower isdigit int nodes edges artifacts evidence x =
    let by_external = index external_id_from_node nodes in
    let quiet_stale =
      stale_findings-All (λ f. reports unimplemented x f ≡ false) finding_hash isdigit int
        by_external evidence artifacts (λ a node e m n. refl) in
    let reads = stale_findings-reads isdigit int finding_hash by_external evidence artifacts in
    ended (stale_findings finding_hash isdigit int by_external evidence artifacts) quiet_stale reads
  where
    ended :
        (o : Option (List Finding))
        → OnSome (All (λ f. reports unimplemented x f ≡ false)) o
        → is_some o ≡ all (λ a. reads_versions isdigit int a a.source_type) artifacts
        → Analysis
            (all (λ a. reads_versions isdigit int a a.source_type) artifacts)
            (has_requirement nodes x && not (is_implemented edges x))
            x
            (elim o [
              | none ↦ none
              | some stale ↦ some (
                  gap_findings finding_hash nodes edges
                  ++ later_findings finding_hash str_of lower nodes edges artifacts stale)
            ])
    ended none h reads = sym reads
    ended (some stale) h reads =
        let others = later_findings finding_hash str_of lower nodes edges artifacts stale in
        let quiet = none-any (reports unimplemented x) others (
          later_findings-All (λ f. reports unimplemented x f ≡ false) finding_hash str_of lower
            nodes edges artifacts stale (λ target es. refl) h (λ edge source target. refl)
            (λ node es ids. refl)) in
        (
          sym reads,
          any-append (reports unimplemented x) (gap_findings finding_hash nodes edges) others
              ∙ ground (arith, quiet, gap_findings-reports finding_hash x edges nodes),
        )
