-- ===== src/Graph/Projection/Select/Neighborhood.antt =====
-- The search for a neighborhood, by the walk of the chains under a limit out of its reach.
use mathlib.Core.Option
use mathlib.Core.Option.{some-injective}
use se_1_rune_agent.Base.{
  ℕ, zero, suc, ◌+◌, ◌≤◌, ◌<◌, String, Bool, true, false, not, ◌||◌, Option, some, List, [], ◌∷◌,
  ◌++◌, ◌==◌, ◌≡◌, refl, sym, ap, ◌∙◌, arith, length, length-select-le, select, elem, OnSome,
  OnSome-at, Option-cases, any, leb, eq_iff, eq_refl, Bool-cases, inl, inr,
}
use se_1_rune_agent.Base.Dict.{Dict, get, put, keys, has_key, length-put}
use se_1_rune_agent.Ontology.{TraceabilityEdge}
use se_1_rune_agent.Graph.Chain.{
  Walk, is_full, found, scan, expand, walk, walk_chain, members, add_neighbor, both,
}
use se_1_rune_agent.Graph.Chain.Ending.{scan_old, scan_next}
use se_1_rune_agent.Graph.Chain.Distance.Layers.{Hops, Hops-map, near}
use se_1_rune_agent.Graph.Chain.Distance.Reached.{walk_chain-Finds}
use se_1_rune_agent.Graph.Chain.Links.{joins, elem-add_neighbor}
use se_1_rune_agent.Graph.Projection.Select.{
  Search, visit, search_from, leave_or_visit, undirected, ends, neighborhood_ids,
}

elem-keys : (d : Dict ℕ) (v : String) → elem v (keys d) ≡ has_key d v
unfolding get
elem-keys [] v = refl
elem-keys ((u, n) ∷ d) v = ground (arith, elem-keys d v)

value-of_key : (d : Dict ℕ) (v : String) → elem v (keys d) ≡ true → (n : ℕ) × (get d v ≡ some n)
value-of_key d v h = elim (Option-cases (get d v)) [
  | inl lost ↦ absurd (ground (arith, elem-keys d v))
  | inr found ↦ found
]

keys-put :
    (d : Dict ℕ) (v : String) (n : ℕ) → has_key d v ≡ false → keys (put d v n) ≡ keys d ++ v ∷ []
unfolding get put
keys-put [] v n h = refl
keys-put ((u, m) ∷ d) v n h = ground (arith, keys-put d v n)

-- How many of `xs` were not seen.
abbrev unseen : List String → List String → ℕ
unseen seen xs = length (select (λ x. not (elem x seen)) xs)

elem-append_one :
    (x v : String) (seen : List String) → elem x (seen ++ v ∷ []) ≡ (elem x seen || v == x)
elem-append_one x v [] = ground arith
elem-append_one x v (y ∷ ys) = ground (arith, elem-append_one x v ys)

unseen-le :
    (seen : List String) (v : String) (xs : List String)
    → unseen (seen ++ v ∷ []) xs ≤ unseen seen xs
unseen-le seen v [] = omega arith
unseen-le seen v (x ∷ xs) = ground (arith, unseen-le seen v xs, elem-append_one x v seen)

unseen-lt :
    (seen : List String) (v : String) (xs : List String)
    → elem v seen ≡ false
    → elem v xs ≡ true
    → unseen (seen ++ v ∷ []) xs < unseen seen xs
unseen-lt seen v [] new h = absurd (ground arith)
unseen-lt seen v (x ∷ xs) new h = ground (
  arith,
  unseen-lt seen v xs new,
  unseen-le seen v xs,
  elem-append_one x v seen,
  eq_iff x v,
  eq_iff v x,
)

-- What the inner loop does on the nodes alone.
abbrev seen_by : Walk → Search
seen_by w = record { seen = keys w.selected; queue = w.queue }

visit_old :
    (d : ℕ) (v : String) (vs : List String) (s : Search)
    → elem v s.seen ≡ true
    → visit d (v ∷ vs) s ≡ visit d vs s
unfolding visit
visit_old d v vs s old = rw old refl

visit_new :
    (d : ℕ) (v : String) (vs : List String) (s : Search)
    → elem v s.seen ≡ false
    → visit d (v ∷ vs) s
      ≡ visit d vs (record { seen = s.seen ++ v ∷ []; queue = s.queue ++ (v, d) ∷ [] })
unfolding visit
visit_new d v vs s new = rw new refl

module _ (neighbors : String → List String) (hops : ℕ) (xs : List String) where
  abbrev limit : ℕ
  limit = suc (suc (length xs))

  abbrev Room : Walk → Type 0
  Room w = length w.selected + unseen (keys w.selected) xs ≤ suc (length xs)

  Room-found :
      (v : String) (d : ℕ) (w : Walk)
      → has_key w.selected v ≡ false
      → elem v xs ≡ true
      → Room w
      → Room (found v d w)
  Room-found v d w new inside room = rw (keys-put w.selected v d new) (
      ground (
        arith,
        length-put w.selected v d,
        elem-keys w.selected v,
        unseen-lt (keys w.selected) v xs,
      ))

  visit-scan :
      (d : ℕ) (vs : List String) (w : Walk)
      → ((v : String) → elem v vs ≡ true → elem v xs ≡ true)
      → Room w
      → (visit d vs (seen_by w) ≡ seen_by (scan neighbors hops limit d vs w))
        × Room (scan neighbors hops limit d vs w)
  visit-scan d [] w inside room = unfold visit in unfold scan in (refl, room)
  visit-scan d (v ∷ vs) w inside room = elim (Bool-cases (has_key w.selected v)) [
    | inl old ↦
        let later = λ (x : String) (e : elem x vs ≡ true). inside x (ground (arith, eq_iff v x)) in
        rw
          (
            scan_old neighbors hops limit d v vs w old,
            visit_old d v vs (seen_by w) (elem-keys w.selected v ∙ old),
          )
          (visit-scan d vs w later room)
    | inr new ↦
        let later = λ (x : String) (e : elem x vs ≡ true). inside x (ground (arith, eq_iff v x)) in
        let room' = Room-found v d w new (inside v (simp eq_refl)) room in
        rw
          (
            scan_next neighbors hops limit d v vs w new (ground arith),
            visit_new d v vs (seen_by w) (elem-keys w.selected v ∙ new),
            sym (keys-put w.selected v d new),
          )
          (visit-scan d vs (found v d w) later room')
  ]

module _ (adjacency : Dict (List String)) (hops : ℕ) (xs : List String)
    (inside : (u v : String) → elem v (members (get adjacency u)) ≡ true → elem v xs ≡ true) where
  abbrev neighbors : String → List String
  neighbors u = members (get adjacency u)

  round :
      (u : String) (d : ℕ) (w : Walk)
      → Room neighbors hops xs w
      → (leave_or_visit adjacency hops u d (seen_by w)
          ≡ seen_by (expand neighbors hops (limit neighbors hops xs) u d w))
        × Room neighbors hops xs (expand neighbors hops (limit neighbors hops xs) u d w)
  unfolding expand
  round u d w room = elim (Bool-cases (leb hops d)) [
    | inl deep ↦ rw deep (refl, room)
    | inr on ↦ rw on (visit-scan neighbors hops xs (d + 1) (neighbors u) w (inside u) room)
  ]

  abbrev outcome : ℕ → Dict ℕ → List (String × ℕ) → Option (Dict ℕ)
  outcome = walk neighbors hops (limit neighbors hops xs)

  search-walk :
      (fuel : ℕ) (selected : Dict ℕ) (queue : List (String × ℕ))
      → Room neighbors hops xs (record { selected = selected; queue = queue })
      → (search_from adjacency hops fuel (keys selected) queue
          ≡ Option.map keys (outcome fuel selected queue))
        × OnSome (λ r. length r ≤ suc (length xs)) (outcome fuel selected queue)
  unfolding search_from walk
  search-walk zero selected [] room = (refl, ground arith)
  search-walk zero selected (p ∷ queue) room =
      let more : is_full (limit neighbors hops xs) selected ≡ false = ground arith in
      rw more (refl, tt)
  search-walk (suc fuel) selected [] room = (refl, ground arith)
  search-walk (suc fuel) selected ((u, d) ∷ queue) room =
      let more : is_full (limit neighbors hops xs) selected ≡ false = ground arith in
      let w : Walk = record { selected = selected; queue = queue } in
      let w' = expand neighbors hops (limit neighbors hops xs) u d w in
      let (same, room') = round u d w room in
      let (rest, size) = search-walk fuel w'.selected w'.queue room' in
      rw (more, walk)
        (ap (λ (s : Search). search_from adjacency hops fuel s.seen s.queue) same ∙ rest, size)

undirected-elem :
    (x y : String) (edges : List TraceabilityEdge) (adjacency : Dict (List String))
    → elem y (members (get (undirected adjacency edges) x))
      ≡ (elem y (members (get adjacency x)) || any (λ e. joins both e x y) edges)
unfolding undirected
undirected-elem x y [] adjacency = ground arith
undirected-elem x y (e ∷ edges) adjacency =
    let s = e.source_node_id in
    let t = e.target_node_id in
    let once = add_neighbor s t adjacency in
    ground (
      arith,
      undirected-elem x y edges (add_neighbor t s once),
      elem-add_neighbor s t x y adjacency,
      elem-add_neighbor t s x y once,
    )

-- A neighbor is an end of an edge.
joined-end :
    (x y : String) (edges : List TraceabilityEdge)
    → any (λ e. joins both e x y) edges ≡ true
    → elem y (ends edges) ≡ true
joined-end x y [] h = h
joined-end x y (e ∷ edges) h = ground (arith, joined-end x y edges)

-- The edges read both ways.
abbrev pub touching : List TraceabilityEdge → String → String → Bool
touching edges u v = any (λ e. joins both e u v) edges

module _ (center : String) (edges : List TraceabilityEdge) (hops : ℕ) where
  abbrev nearby : String → List String
  nearby u = members (get (undirected [] edges) u)

  nearby-touching : (u v : String) → near nearby u v ≡ touching edges u v
  unfolding get
  nearby-touching u v = undirected-elem u v edges []

  -- The search returns, and it finds exactly the nodes that a walk of at most `hops` edges, each
  -- read in either direction, leads to from the center.
  pub neighborhood_ids-Hops :
      (ids : List String) × (neighborhood_ids center edges hops ≡ some ids)
      × ((v : String) → elem v ids ≡ true → (n : ℕ) × Hops (touching edges) center v n × (n ≤ hops))
      × ((v : String) (n : ℕ) → Hops (touching edges) center v n → n ≤ hops → elem v ids ≡ true)
  unfolding neighborhood_ids walk_chain
  neighborhood_ids-Hops =
      let xs = ends edges in
      let (result, e, size, finds) =
        walk_chain-Finds nearby center hops (suc (suc (length xs))) (omega arith) in
      let (same, below) =
        search-walk (undirected [] edges) hops xs
          (λ u v h. joined-end u v edges (sym (nearby-touching u v) ∙ h)) (suc (suc (length xs)))
          ((center, 0) ∷ []) ((center, 0) ∷ [])
          (ground (arith, length-select-le (λ x. not (elem x (center ∷ []))) xs)) in
      (
        keys result,
        same ∙ ap (Option.map keys) (unfold walk_chain in e),
        (λ v h.
            let (n, at) = value-of_key result v h in
            let (walked, le) = finds.sound v n at in
            (n, Hops-map _ _ center nearby-touching walked, le)),
        (λ v n walked le.
            let (d, at, least) =
              finds.complete
                (omega (
                  arith,
                  OnSome-at (λ r. length r ≤ suc (length xs)) _ result below
                      (unfold walk_chain in e),
                ))
                v n (Hops-map _ _ center (λ u w. sym (nearby-touching u w)) walked) le in
            elem-keys result v ∙ rw at refl),
      )
