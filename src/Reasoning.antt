-- ===== src/Reasoning.antt =====
-- src/req_tracker/ontology/id_factory.py and src/req_tracker/reasoning/linking.py: the ids of nodes
-- and edges, and the edges that the links of the sources give. The hash of an edge's ends and
-- relation is a parameter.
pub mod Ids
pub mod Extraction
pub mod Links
mod Witnesses
use Prim.Native.Char.{Char, code}
use Prim.Native.String
use Prim.Native.String.{String}
use se_1_rune_agent.Base.{
  ℕ, Bool, true, false, ◌&&◌, ◌||◌, Option, none, some, List, [], ◌∷◌, ◌==◌, eqb, map,
  if◌then◌else◌,
}
use se_1_rune_agent.Base.Dict.{Dict, get, put, index, index_into, values}
use se_1_rune_agent.Base.Text.{concat, head_of, replace, underscore}
use se_1_rune_agent.Ontology.{
  EvidenceSpan, OntologyNode, NodeType, TraceabilityEdge, EdgeRelation, satisfies, verifies,
  derives, implements, affects, blocks, conflicts_with, supersedes, decides, relation_name,
  ApprovalStatus,
}
use se_1_rune_agent.Adapters.{
  Metadata, text, whole, flag, table, unhashable, plain, Entries, end, look_up, RawSourceArtifact,
}

-- `s.removeprefix(p)`, and `none` if the text does not start with it.
unfoldable pub after_prefix : String → String → Option String
after_prefix String.[] s = some s
after_prefix (String.◌∷◌ c p) String.[] = none
after_prefix (String.◌∷◌ c p) (String.◌∷◌ d s) =
    let rest = after_prefix p s in if eqb (code c) (code d) then rest else none

abbrev pub dash : Char
dash = "-"

abbrev pub id_prefix : String → String
id_prefix project_key = concat ("node_" ∷ project_key ∷ "_" ∷ [])

-- `node_id`
unfoldable pub node_id : String → String → String
unfolding concat replace
node_id project_key external_id =
    concat (id_prefix project_key ∷ replace b'-' underscore external_id ∷ [])

-- `_external_id_from_node`
unfoldable pub external_id_from_node : OntologyNode → String
unfolding concat after_prefix replace
external_id_from_node node = elim (after_prefix (id_prefix node.project_key) node.node_id) [
  | none ↦ node.node_id
  | some rest ↦ replace b'_' dash rest
]

-- `_default_relation`
unfoldable pub default_relation : NodeType → NodeType → EdgeRelation
default_relation NodeType.verification target = verifies
default_relation NodeType.design_spec NodeType.requirement = satisfies
default_relation NodeType.design_spec target = implements
default_relation NodeType.architecture_block NodeType.requirement = satisfies
default_relation NodeType.architecture_block target = implements
default_relation NodeType.issue target = affects
default_relation NodeType.risk target = affects
default_relation source target = derives

abbrev relations_of_text : List EdgeRelation → String → Option EdgeRelation
relations_of_text [] s = none
relations_of_text (r ∷ rs) s = if relation_name r == s then some r else relations_of_text rs s

abbrev pub relation_of_text : String → Option EdgeRelation
relation_of_text = relations_of_text (
    satisfies ∷ verifies ∷ derives ∷ implements ∷ affects ∷ blocks ∷ conflicts_with ∷ supersedes
    ∷ decides ∷ [])

-- What a value of the relations stands for: a relation, none of them, or a TypeError.
pub data Reading : Type 0 where
  reads : EdgeRelation → Reading
  unknown type_error : Reading

abbrev pub read_text : Option EdgeRelation → Reading
read_text none = unknown
read_text (some r) = reads r

-- `relation_value not in _VALID_RELATIONS`: a list or a dict has no hash.
abbrev pub read_relation : Metadata → Reading
read_relation (text s) = read_text (relation_of_text s)
read_relation unhashable = type_error
read_relation (table d) = type_error
read_relation _ = unknown

-- `raw.metadata.get("relations", {})`, where what is not a dict counts as empty.
abbrev pub relations_of : Option Metadata → Entries
relations_of (some (table d)) = d
relations_of _ = end

abbrev pub relation_between : Option Metadata → OntologyNode → OntologyNode → Reading
relation_between none source target = reads (default_relation source.node_type target.node_type)
relation_between (some m) source target = read_relation m

abbrev pub is_inferred_relation : EdgeRelation → Bool
is_inferred_relation affects = true
is_inferred_relation conflicts_with = true
is_inferred_relation _ = false
