-- ===== src/Findings/Witnesses.antt =====
-- Findings of the sample graph.
use se_1_rune_agent.Base.{
  ℕ, String, Bool, not, ◌&&◌, ◌||◌, ◌==◌, Option, none, some, List, [], ◌∷◌, ◌≡◌, refl, all,
  if◌then◌else◌,
}
use se_1_rune_agent.Base.Text.{concat}
use se_1_rune_agent.Ontology.{Finding, SourceType, restricted}
use se_1_rune_agent.Adapters.{Metadata, text, end, entry, RawSourceArtifact}
use se_1_rune_agent.Graph.Samples.{nodes, pending_edges}
use se_1_rune_agent.Findings.Sources.{analyze_findings, stale_findings, stale_of, metadata_int}
use se_1_rune_agent.Findings.Gaps.{
  Analysis, reads_versions, has_requirement, is_implemented, unimplemented-reported,
}

abbrev name_hash : String → List String → String
name_hash rule parts = concat (rule ∷ parts)

abbrev no_text : Metadata → String
no_text m = ""

abbrev same : String → String
same s = s

-- The digits of ASCII, one at a time.
abbrev one_digit : String → Option ℕ
one_digit s = if s == "1" then some 1 else if s == "2" then some 2 else none

abbrev is_digit : String → Bool
is_digit s = s == "1" || s == "2" || s == "²"

-- A page with its versions.
abbrev page : String → String → RawSourceArtifact
page previous current = record {
  external_id = "PAGE-1";
  source_type = SourceType.confluence;
  source_url = "https://wiki/1";
  project_key = "SYS";
  title = "Pump";
  body_text = "The pump shall stop.";
  author_id = none;
  created_at = "2026-01-01";
  updated_at = "2026-01-02";
  labels = [];
  links = [];
  parent_id = none;
  child_ids = [];
  metadata =
      entry "previous_version_number" (text previous) (entry "version_number" (text current) end);
  access_scope = [];
  data_classification = restricted;
}

abbrev analysed : List RawSourceArtifact → Option (List Finding)
analysed pages =
    analyze_findings name_hash no_text same is_digit one_digit nodes pending_edges pages []

unimplemented-reported_example :
    Analysis
      (all (λ a. reads_versions is_digit one_digit a a.source_type) (page "1" "2" ∷ []))
      (has_requirement nodes "req_1" && not (is_implemented pending_edges "req_1"))
      "req_1"
      (analysed (page "1" "2" ∷ []))
unimplemented-reported_example =
    unimplemented-reported name_hash no_text same is_digit one_digit nodes pending_edges
      (page "1" "2" ∷ []) [] "req_1"

-- A superscript digit as a version ends the analysis.
superscript_raises : analysed (page "1" "²" ∷ []) ≡ none
unfolding analyze_findings stale_findings stale_of metadata_int
superscript_raises = refl
