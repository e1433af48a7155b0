-- ===== src/Ingestion.antt =====
-- src/req_tracker/ingestion/chunking.py: an artifact's text in pieces. The hashes are parameters.
pub mod Kept
mod Witnesses
use Prim.Native.String
use Prim.Native.String.{String}
use se_1_rune_agent.Base.{
  ℕ, zero, suc, ◌+◌, Option, none, some, List, [], ◌∷◌, ◌==◌, eqb, if◌then◌else◌,
}
use se_1_rune_agent.Base.Text.{concat, decimal, strip, text_length}
use se_1_rune_agent.Ontology.{EvidenceSpan, SourceArtifact, ArtifactChunk}

-- `s[:n]` and `s[n:]`
unfoldable pub take_text : ℕ → String → String
take_text zero s = ""
take_text (suc n) String.[] = ""
take_text (suc n) (String.◌∷◌ c s) = String.◌∷◌ c (take_text n s)

unfoldable pub drop_text : ℕ → String → String
drop_text zero s = s
drop_text (suc n) String.[] = ""
drop_text (suc n) (String.◌∷◌ c s) = drop_text n s

module _ (hash_quote : String → String → String) (hash_text : String → String)
    (artifact : SourceArtifact) (evidence : EvidenceSpan) (max_chars : ℕ) where
  abbrev pub chunk_at : ℕ → ℕ → String → ArtifactChunk
  chunk_at index start chunk_text = record {
    chunk_id = concat ("chk_" ∷ artifact.artifact_id ∷ "_" ∷ decimal index ∷ []);
    artifact_id = artifact.artifact_id;
    project_key = artifact.project_key;
    text = chunk_text;
    index = index;
    evidence = record evidence {
      extracted_text_preview = take_text 500 chunk_text;
      start_offset = some start;
      end_offset = some (start + text_length chunk_text);
      quote_hash = hash_quote artifact.artifact_id chunk_text;
    };
    content_hash = hash_text chunk_text;
  }

  -- The loop, over what is left of the text from `start`.
  unfoldable pub chunks_from : ℕ → ℕ → ℕ → String → List ArtifactChunk
  unfolding take_text drop_text strip concat
  chunks_from fuel index start String.[] = []
  chunks_from zero index start (String.◌∷◌ c s) = []
  chunks_from (suc fuel) index start (String.◌∷◌ c s) =
      let rest = String.◌∷◌ c s in
      let chunk_text = strip (take_text max_chars rest) in
      let later = chunks_from fuel (index + 1) (start + max_chars) (drop_text max_chars rest) in
      if chunk_text == "" then later else chunk_at index start chunk_text ∷ later

  -- `none` is the ValueError of a range with step 0; a round takes a character at least.
  unfoldable pub chunk_artifact : String → Option (List ArtifactChunk)
  unfolding chunks_from
  chunk_artifact text =
      if eqb max_chars 0 then none else some (chunks_from (text_length text) 0 0 text)
