-- ===== src/Graph/Chain/Links.antt =====
-- The neighbors that the walk is given, by the links.
use se_1_rune_agent.Base.{
  String, Bool, ◌||◌, ◌&&◌, List, [], ◌∷◌, ◌++◌, ◌==◌, ◌≡◌, arith, ◌∙◌, any, elem, eq_iff,
  Bool-cases, inl, inr,
}
use se_1_rune_agent.Base.Dict.{Dict, get, get-put}
use se_1_rune_agent.Base.Sort.{any-sort_by}
use se_1_rune_agent.Base.Text.{text_leb}
use se_1_rune_agent.Ontology.{TraceabilityEdge}
use se_1_rune_agent.Graph.Chain.{
  GraphChainDirection, EdgeRecord, goes_down, goes_up, members, add_member, add_neighbor, add_edge,
  adjacency_from, neighbors_in,
}

-- The edge leads from `u` to `v`, read in the direction.
abbrev pub joins : GraphChainDirection → TraceabilityEdge → String → String → Bool
joins direction edge u v =
    (goes_down direction && (edge.source_node_id == u && edge.target_node_id == v))
    || (goes_up direction && (edge.target_node_id == u && edge.source_node_id == v))

abbrev pub linked : GraphChainDirection → List EdgeRecord → String → String → Bool
linked direction records u v = any (λ r. joins direction r.0 u v) records

any-append_one :
    (p : String → Bool) (xs : List String) (x : String) → any p (xs ++ x ∷ []) ≡ (any p xs || p x)
any-append_one p [] x = ground arith
any-append_one p (y ∷ ys) x = ground (arith, any-append_one p ys x)

elem-add_member :
    (x v : String) (xs : List String) → elem x (add_member v xs) ≡ (elem x xs || v == x)
elem-add_member x v xs = elim (Bool-cases (elem v xs)) [
  | inl old ↦ rw old (ground (arith, eq_iff v x))
  | inr new ↦ rw new (any-append_one (λ y. y == x) xs v)
]

pub elem-add_neighbor :
    (u v x y : String) (adjacency : Dict (List String))
    → elem y (members (get (add_neighbor u v adjacency) x))
      ≡ (elem y (members (get adjacency x)) || (u == x && v == y))
unfolding add_neighbor
elem-add_neighbor u v x y adjacency = elim (Bool-cases (u == x)) [
  | inl same ↦
      rw get-put
        (rw same (rw ((eq_iff u x).0 same) (elem-add_member y v (members (get adjacency x)))))
  | inr other ↦ rw get-put (rw other (ground arith))
]

elem-add_edge :
    (direction : GraphChainDirection) (edge : TraceabilityEdge) (x y : String)
    (adjacency : Dict (List String))
    → elem y (members (get (add_edge direction edge adjacency) x))
      ≡ (elem y (members (get adjacency x)) || joins direction edge x y)
elem-add_edge direction edge x y adjacency =
    let s = edge.source_node_id in
    let t = edge.target_node_id in
    ground (
      arith,
      elem-add_neighbor s t x y adjacency,
      elem-add_neighbor t s x y adjacency,
      elem-add_neighbor t s x y (add_neighbor s t adjacency),
    )

elem-adjacency_from :
    (direction : GraphChainDirection) (records : List EdgeRecord) (x y : String)
    (adjacency : Dict (List String))
    → elem y (members (get (adjacency_from adjacency records direction) x))
      ≡ (elem y (members (get adjacency x)) || linked direction records x y)
unfolding adjacency_from
elem-adjacency_from direction [] x y adjacency = ground arith
elem-adjacency_from direction ((edge, status) ∷ records) x y adjacency = ground (
  arith,
  elem-adjacency_from direction records x y (add_edge direction edge adjacency),
  elem-add_edge direction edge x y adjacency,
)

pub elem-neighbors_in :
    (direction : GraphChainDirection) (records : List EdgeRecord) (x y : String)
    → elem y (neighbors_in (adjacency_from [] records direction) x) ≡ linked direction records x y
unfolding neighbors_in get
elem-neighbors_in direction records x y =
    any-sort_by text_leb (λ z. z == y) (members (get (adjacency_from [] records direction) x))
    ∙ elem-adjacency_from direction records x y []
