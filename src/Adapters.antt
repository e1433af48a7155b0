-- ===== src/Adapters.antt =====
-- src/req_tracker/adapters: what the adapters of the sources share. This file has the artifact of
-- src/req_tracker/adapters/base.py as a source gives it.
pub mod Retry
use se_1_rune_agent.Base.{ℕ, String, Bool, Option, none, some, List, ◌==◌, if◌then◌else◌}
use se_1_rune_agent.Base.Integers.{ℤ}
use se_1_rune_agent.Ontology.{SourceType, DataClassification}

-- A value of the free metadata. `unhashable` is a list, and `plain` any other value that is not
-- listed here, such as None or a float.
mutual
  pub data Metadata : Type 0 where
    text : String → Metadata
    whole : ℤ → Metadata
    flag : Bool → Metadata
    table : Entries → Metadata
    unhashable : Metadata
    plain : Metadata

  pub data Entries : Type 0 where
    end : Entries
    entry : String → Metadata → Entries → Entries

-- d.get(k)
abbrev pub look_up : Entries → String → Option Metadata
look_up end k = none
look_up (entry j v d) k = if j == k then some v else look_up d k

pub record RawSourceArtifact : Type 0 where
  pub external_id : String
  pub source_type : SourceType
  pub source_url : String
  pub project_key : String
  pub title : String
  pub body_text : String
  pub author_id : Option String
  pub created_at : String
  pub updated_at : String
  pub labels : List String
  pub links : List String
  pub parent_id : Option String
  pub child_ids : List String
  pub metadata : Entries
  pub access_scope : List String
  pub data_classification : DataClassification
