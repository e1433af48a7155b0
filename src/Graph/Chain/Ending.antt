-- ===== src/Graph/Chain/Ending.antt =====
-- The rounds of the walk and the nodes that it selects, counted.
use se_1_rune_agent.Base.{
  ℕ, zero, suc, ◌+◌, ◌≤◌, ◌<◌, String, true, false, some, List, [], ◌∷◌, ◌≡◌, refl, arith, leb,
  length, length-append, Bool-cases, inl, inr,
}
use se_1_rune_agent.Base.Dict.{Dict, has_key, length-put}
use se_1_rune_agent.Graph.Chain.{Walk, is_full, found, scan, expand, walk, walk_chain}

module _ (neighbors : String → List String) (depth limit : ℕ) where
  -- What a round may cost: room left under the limit, and entries to be popped.
  pub record Fits (w : Walk) (work : ℕ) : Type 0 where
    pub size : length w.selected ≤ limit
    pub rounds : length w.queue + limit ≤ work + length w.selected

  found-Fits :
      (v : String) (d : ℕ) (w : Walk) (work : ℕ)
      → has_key w.selected v ≡ false
      → length w.selected < limit
      → Fits w work
      → Fits (found v d w) work
  found-Fits v d w work new room h = record {
    size = ground (arith, length-put w.selected v d);
    rounds = ground (arith, length-put w.selected v d, length-append w.queue ((v, d) ∷ []));
  }

  -- The three ways of the inner loop.
  pub scan_old :
      (d : ℕ) (v : String) (vs : List String) (w : Walk)
      → has_key w.selected v ≡ true
      → scan neighbors depth limit d (v ∷ vs) w ≡ scan neighbors depth limit d vs w
  unfolding scan
  scan_old d v vs w old = rw (old, scan) refl

  pub scan_last :
      (d : ℕ) (v : String) (vs : List String) (w : Walk)
      → has_key w.selected v ≡ false
      → is_full limit (found v d w).selected ≡ true
      → scan neighbors depth limit d (v ∷ vs) w ≡ found v d w
  unfolding scan
  scan_last d v vs w new full = rw (new, scan) (rw (full, scan) refl)

  pub scan_next :
      (d : ℕ) (v : String) (vs : List String) (w : Walk)
      → has_key w.selected v ≡ false
      → is_full limit (found v d w).selected ≡ false
      → scan neighbors depth limit d (v ∷ vs) w ≡ scan neighbors depth limit d vs (found v d w)
  unfolding scan
  scan_next d v vs w new room = rw (new, scan) (rw (room, scan) refl)

  scan-Fits :
      (d : ℕ) (vs : List String) (w : Walk) (work : ℕ)
      → length w.selected < limit
      → Fits w work
      → Fits (scan neighbors depth limit d vs w) work
  scan-Fits d [] w work room h = unfold scan in h
  scan-Fits d (v ∷ vs) w work room h = elim (Bool-cases (has_key w.selected v)) [
    | inl old ↦ rw (scan_old d v vs w old) (scan-Fits d vs w work room h)
    | inr new ↦
        let w' = found v d w in
        let h' = found-Fits v d w work new room h in
        elim (Bool-cases (is_full limit w'.selected)) [
          | inl full ↦ rw (scan_last d v vs w new full) h'
          | inr more ↦ rw (scan_next d v vs w new more) (scan-Fits d vs w' work (ground arith) h')
        ]
  ]

  expand-Fits :
      (u : String) (d : ℕ) (w : Walk) (work : ℕ)
      → length w.selected < limit
      → Fits w work
      → Fits (expand neighbors depth limit u d w) work
  unfolding expand
  expand-Fits u d w work room h = elim (Bool-cases (leb depth d)) [
    | inl deep ↦ rw deep h
    | inr near ↦ rw near (scan-Fits (d + 1) (neighbors u) w work room h)
  ]

  walk_ends :
      (fuel : ℕ) (selected : Dict ℕ) (queue : List (String × ℕ))
      → Fits (record { selected = selected; queue = queue }) fuel
      → (result : Dict ℕ) × (walk neighbors depth limit fuel selected queue ≡ some result)
        × (length result ≤ limit)
  unfolding walk
  walk_ends zero selected [] h = (selected, refl, h.size)
  walk_ends zero selected (p ∷ queue) h = (selected, ground arith, h.size)
  walk_ends (suc fuel) selected [] h = (selected, refl, h.size)
  walk_ends (suc fuel) selected ((u, d) ∷ queue) h = elim (Bool-cases (is_full limit selected)) [
    | inl full ↦ (selected, rw (full, walk) refl, h.size)
    | inr more ↦
        let w = expand neighbors depth limit u d (record { selected = selected; queue = queue }) in
        rw (more, walk)
          (walk_ends fuel w.selected w.queue (
            expand-Fits u d (record { selected = selected; queue = queue }) fuel (ground arith)
              (record { size = h.size; rounds = ground arith })))
  ]

  -- The walk ends within as many rounds as nodes may be selected, and selects no more.
  pub walk_chain_returns :
      (center : String)
      → 0 < limit
      → (result : Dict ℕ) × (walk_chain neighbors depth limit center ≡ some result)
        × (length result ≤ limit)
  unfolding walk_chain
  walk_chain_returns center h =
      walk_ends limit ((center, 0) ∷ []) ((center, 0) ∷ [])
        (record { size = ground arith; rounds = ground arith })
