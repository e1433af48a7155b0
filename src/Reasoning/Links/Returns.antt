-- ===== src/Reasoning/Links/Returns.antt =====
-- Linking and the values that a set cannot look up.
use Prim.Native.String.{String}
use se_1_rune_agent.Base.{
  true, ◌==◌, Option, none, some, List, [], ◌∷◌, ◌≡◌, refl, All, and_then, Option-cases, Bool-cases,
  is_some, inl, inr,
}
use se_1_rune_agent.Base.Dict.{Dict, get}
use se_1_rune_agent.Ontology.{EvidenceSpan, OntologyNode, TraceabilityEdge, EdgeRelation}
use se_1_rune_agent.Adapters.{
  Metadata, text, whole, flag, table, unhashable, plain, Entries, end, entry, look_up,
  RawSourceArtifact,
}
use se_1_rune_agent.Reasoning.{
  Reading, reads, unknown, type_error, relations_of, relation_between, read_relation, read_text,
  relation_of_text,
}
use se_1_rune_agent.Reasoning.Links.{add_linked, link_one, link_targets, link_raws}

-- The value may be looked up in the set of relations.
abbrev IsHashable : Metadata → Type 0
IsHashable unhashable = ⊥
IsHashable (table d) = ⊥
IsHashable _ = Unit

abbrev pub Readable : Entries → Type 0
Readable end = Unit
Readable (entry k m d) = IsHashable m × Readable d

abbrev Reads : Reading → Type 0
Reads type_error = ⊥
Reads _ = Unit

relation_between-Reads :
    (d : Entries) (id : String) (source target : OntologyNode)
    → Readable d
    → Reads (relation_between (look_up d id) source target)
relation_between-Reads end id source target h = tt
relation_between-Reads (entry k m d) id source target h = elim (Bool-cases (k == id)) [
  | inl same ↦ rw same (value-Reads m h.0)
  | inr other ↦ rw other (relation_between-Reads d id source target h.1)
]
  where
    text-Reads : (o : Option EdgeRelation) → Reads (read_text o)
    text-Reads none = tt
    text-Reads (some r) = tt

    value-Reads : (m : Metadata) → IsHashable m → Reads (read_relation m)
    value-Reads (text s) h = text-Reads (relation_of_text s)
    value-Reads (whole n) h = tt
    value-Reads (flag b) h = tt
    value-Reads plain h = tt
    value-Reads unhashable h = h
    value-Reads (table d) h = h

-- The relations of every artifact that is linked may be looked up.
abbrev pub AllReadable : List RawSourceArtifact → Type 0
AllReadable = All (λ raw. Readable (relations_of (look_up raw.metadata "relations")))

module _ (edge_hash : String → String → String → String) (node_by_external : Dict OntologyNode)
    (evidence : Dict EvidenceSpan) where
  add_linked-returns :
      (raw : RawSourceArtifact) (id : String) (source target : OntologyNode) (r : Reading)
      (e : Option EvidenceSpan) (edges : Dict TraceabilityEdge)
      → Reads r
      → is_some (add_linked edge_hash raw id source target r e edges) ≡ true
  add_linked-returns raw id source target type_error e edges h = absurd h
  add_linked-returns raw id source target unknown e edges h = refl
  add_linked-returns raw id source target (reads r) none edges h = refl
  add_linked-returns raw id source target (reads r) (some e) edges h = refl

  link_one-returns :
      (raw : RawSourceArtifact) (source : OntologyNode) (id : String)
      (edges : Dict TraceabilityEdge)
      → Readable (relations_of (look_up raw.metadata "relations"))
      → is_some (link_one edge_hash node_by_external evidence raw source id edges) ≡ true
  unfolding link_one
  link_one-returns raw source id edges h = elim (Option-cases (get node_by_external id)) [
    | inl lost ↦ rw (lost, link_one) refl
    | inr (target, e) ↦
        rw (e, link_one)
          (add_linked-returns raw id source target
            (relation_between (look_up (relations_of (look_up raw.metadata "relations")) id) source
              target)
            (get evidence raw.external_id) edges (relation_between-Reads _ id source target h))
  ]

  and_then-returns :
      (o : Option (Dict TraceabilityEdge))
      (f : Dict TraceabilityEdge → Option (Dict TraceabilityEdge))
      → is_some o ≡ true
      → ((d : Dict TraceabilityEdge) → is_some (f d) ≡ true)
      → is_some (and_then o f) ≡ true
  and_then-returns none f h k = cc
  and_then-returns (some d) f h k = k d

  link_targets-returns :
      (raw : RawSourceArtifact) (source : OntologyNode) (ids : List String)
      (edges : Dict TraceabilityEdge)
      → Readable (relations_of (look_up raw.metadata "relations"))
      → is_some (link_targets edge_hash node_by_external evidence raw source ids edges) ≡ true
  unfolding link_targets
  link_targets-returns raw source [] edges h = refl
  link_targets-returns raw source (id ∷ ids) edges h =
      and_then-returns (link_one edge_hash node_by_external evidence raw source id edges) _
        (link_one-returns raw source id edges h) (λ d. link_targets-returns raw source ids d h)

  pub link_raws-returns :
      (raws : List RawSourceArtifact) (edges : Dict TraceabilityEdge)
      → AllReadable raws
      → is_some (link_raws edge_hash node_by_external evidence raws edges) ≡ true
  unfolding link_raws
  link_raws-returns [] edges h = refl
  link_raws-returns (raw ∷ raws) edges h =
      elim (Option-cases (get node_by_external raw.external_id)) [
        | inl lost ↦ rw (lost, link_raws) (link_raws-returns raws edges h.1)
        | inr (source, e) ↦
            rw (e, link_raws)
              (and_then-returns
                (link_targets edge_hash node_by_external evidence raw source raw.links edges) _
                (link_targets-returns raw source raw.links edges h.0)
                (λ d. link_raws-returns raws d h.1))
      ]
