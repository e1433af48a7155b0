-- ===== src/Ingestion/Witnesses.antt =====
-- A text in pieces of four characters.
use Prim.Native.String.{String}
use se_1_rune_agent.Base.{ℕ, Option, none, some, List, [], ◌∷◌, ◌≡◌, refl, All, map, arith}
use se_1_rune_agent.Base.Text.{concat}
use se_1_rune_agent.Ontology.{
  EvidenceSpan, SourceArtifact, ArtifactChunk, SourceType, DataClassification,
}
use se_1_rune_agent.Ingestion.{chunk_artifact}
use se_1_rune_agent.Ingestion.Kept.{Spans, total_solid, solid, chunk_artifact-keeps}

abbrev artifact : SourceArtifact
artifact = record {
  artifact_id = "src_1";
  source_type = SourceType.jira;
  source_url = "jira://REQ-1";
  external_id = "REQ-1";
  project_key = "SYS";
  title = "Zoom";
  body_text_ref = "artifact://source/REQ-1/body";
  author_id = none;
  created_at = 1;
  updated_at = 1;
  ingested_at = 2;
  content_hash = "h";
  access_scope = [];
  data_classification = DataClassification.public_internal;
}

abbrev span : EvidenceSpan
span = record {
  artifact_id = "src_1";
  source_url = "jira://REQ-1";
  quote_hash = "h";
  extracted_text_preview = "The zoom";
  start_offset = none;
  end_offset = none;
  section_path = none;
  table_cell_ref = none;
}

abbrev joined : String → String → String
joined s t = concat (s ∷ t ∷ [])

abbrev same : String → String
same s = s

abbrev views : Option (List ArtifactChunk) → List (String × Option ℕ)
views none = []
views (some chunks) = map (λ c. (c.text, c.evidence.start_offset)) chunks

-- The text of the second piece starts at 5, and its offset is 4.
leading_space :
    views (chunk_artifact joined same artifact span 4 "zoom at 10x")
    ≡ ("zoom", some 0) ∷ ("at", some 4) ∷ ("10x", some 8) ∷ []
unfolding chunk_artifact
leading_space = refl

chunk_artifact-keeps_example :
    (chunks : List ArtifactChunk) × (chunk_artifact joined same artifact span 4 "zoom at 10x"
      ≡ some chunks)
    × All (Spans 4) chunks
    × (total_solid chunks ≡ solid "zoom at 10x")
chunk_artifact-keeps_example =
    chunk_artifact-keeps joined same artifact span 4 (omega arith) "zoom at 10x"
