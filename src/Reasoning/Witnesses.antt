-- ===== src/Reasoning/Witnesses.antt =====
-- Links between the sample nodes.
use se_1_rune_agent.Base.{
  Bool, false, String, true, Option, none, some, List, [], ◌∷◌, ◌≡◌, refl, inl, elem, All, map,
}
use se_1_rune_agent.Base.Dict.{index, get, put, index_into}
use se_1_rune_agent.Base.Text.{concat}
use se_1_rune_agent.Ontology.{
  EvidenceSpan, SourceArtifact, OntologyNode, NodeType, TraceabilityEdge, satisfies, SourceType,
  DataClassification,
}
use se_1_rune_agent.Adapters.{Metadata, RawSourceArtifact, end, entry, table, text}
use se_1_rune_agent.Graph.Samples.{node_of}
use se_1_rune_agent.Reasoning.{reads, default_relation, external_id_from_node}
use se_1_rune_agent.Reasoning.Extraction.{node_with, extract_node}
use se_1_rune_agent.Reasoning.Extraction.Names.{extract_node-external_id}
use se_1_rune_agent.Reasoning.Links.{edge_id, link_edges}
use se_1_rune_agent.Reasoning.Links.Covered.{relation_to, link_edges_covers}
use se_1_rune_agent.Reasoning.Links.Sound.{Sound, link_edges-Sound}

abbrev span : EvidenceSpan
span = record {
  artifact_id = "src_1";
  source_url = "jira://REQ-1";
  quote_hash = "h";
  extracted_text_preview = "The camera";
  start_offset = none;
  end_offset = none;
  section_path = none;
  table_cell_ref = none;
}

abbrev raw : RawSourceArtifact
raw = record {
  external_id = "DES-1";
  source_type = SourceType.jira;
  source_url = "jira://DES-1";
  project_key = "SYS";
  title = "Sensor";
  body_text = "The sensor";
  author_id = none;
  created_at = "2026-01-01";
  updated_at = "2026-01-01";
  labels = [];
  links = "REQ-1" ∷ "REQ-2" ∷ "GONE-1" ∷ [];
  parent_id = none;
  child_ids = [];
  metadata = entry "relations" (table (entry "REQ-2" (text "unheard") end)) end;
  access_scope = [];
  data_classification = DataClassification.public_internal;
}

abbrev requirement : OntologyNode
requirement = node_of "node_SYS_REQ_1" "SYS" NodeType.requirement

abbrev nodes : List OntologyNode
nodes =
    requirement
    ∷ node_of "node_SYS_REQ_2" "SYS" NodeType.requirement
    ∷ node_of "node_SYS_DES_1" "SYS" NodeType.design_spec
    ∷ []

abbrev names : String → String → String → String
names s r t = concat (s ∷ r ∷ t ∷ [])

abbrev ends : Option (List TraceabilityEdge) → List (String × String)
ends none = []
ends (some es) = map (λ e. (e.source_node_id, e.target_node_id)) es

sample_ends :
    ends (link_edges names (raw ∷ []) nodes (("DES-1", span) ∷ []))
    ≡ ("node_SYS_DES_1", "node_SYS_REQ_1") ∷ []
unfolding link_edges get put index_into
sample_ends = refl

link_edges-Sound_example :
    (edges : List TraceabilityEdge) × (link_edges names (raw ∷ []) nodes (("DES-1", span) ∷ [])
      ≡ some edges)
    × All (Sound names nodes) edges
link_edges-Sound_example =
    link_edges-Sound names (raw ∷ []) nodes (("DES-1", span) ∷ []) ((tt, tt), tt)

abbrev design : OntologyNode
design = node_of "node_SYS_DES_1" "SYS" NodeType.design_spec

at_design : get (index external_id_from_node nodes) "DES-1" ≡ some design
unfolding get put index_into external_id_from_node
at_design = refl

at_requirement : get (index external_id_from_node nodes) "REQ-1" ≡ some requirement
unfolding get put index_into external_id_from_node
at_requirement = refl

at_span : get (("DES-1", span) ∷ []) "DES-1" ≡ some span
unfolding get
at_span = refl

design_satisfies : relation_to raw "REQ-1" design requirement ≡ reads satisfies
unfolding default_relation
design_satisfies = refl

link_edges_covers_example :
    (edges : List TraceabilityEdge) × (link_edges names (raw ∷ []) nodes (("DES-1", span) ∷ [])
      ≡ some edges)
    × (elem
          (edge_id names "node_SYS_DES_1" "satisfies" "node_SYS_REQ_1")
          (map (λ e. e.edge_id) edges)
        ≡ true)
link_edges_covers_example =
    link_edges_covers names (raw ∷ []) nodes (("DES-1", span) ∷ []) raw design requirement "REQ-1"
      satisfies span ((tt, tt), tt) (inl refl) refl at_design at_requirement design_satisfies
      at_span

abbrev same : String → String
same s = s

abbrev nowhere : String → String → Bool
nowhere needle value = false

abbrev always : Metadata → Bool
always m = true

abbrev artifact : SourceArtifact
artifact = record {
  artifact_id = "src_1";
  source_type = SourceType.jira;
  source_url = "jira://DES-1";
  external_id = "DES-1";
  project_key = "SYS";
  title = "Sensor";
  body_text_ref = "artifact://source/DES-1/body";
  author_id = none;
  created_at = 1;
  updated_at = 1;
  ingested_at = 2;
  content_hash = "h";
  access_scope = [];
  data_classification = DataClassification.public_internal;
}

abbrev extracted : OntologyNode
extracted = node_with same nowhere always raw artifact span NodeType.design_spec

sample_extract : extract_node same nowhere always raw artifact span ≡ some extracted
unfolding extract_node
sample_extract = refl

extract_node-external_id_example : external_id_from_node extracted ≡ "DES-1"
extract_node-external_id_example =
    extract_node-external_id same nowhere always raw artifact span extracted sample_extract refl
