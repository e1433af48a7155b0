-- ===== src/Graph/Chain/Distance/Reached.antt =====
-- The nodes that the walk finds, and their depths.
use se_1_rune_agent.Base.{
  ℕ, zero, suc, ◌≤◌, ◌<◌, String, true, false, some, List, [], ◌∷◌, ◌≡◌, refl, sym, arith, inl, inr,
  length, All, Bool-cases, subst, eq_iff, eq_refl,
}
use mathlib.Core.Option.{some-injective}
use se_1_rune_agent.Base.Dict.{Dict, get}
use se_1_rune_agent.Graph.Chain.{is_full, expand, walk, walk_chain}
use se_1_rune_agent.Graph.Chain.Ending.{walk_chain_returns}
use se_1_rune_agent.Graph.Chain.Distance.Layers.{Hops, near, here, hop, Within, Inv, expand-Inv}

module _ (neighbors : String → List String) (center : String) (depth limit : ℕ) where
  -- Nodes are found at the length of some walk, and below the limit at the least one.
  pub record Finds (selected : Dict ℕ) : Type 0 where
    pub sound :
        (v : String) (d : ℕ)
        → get selected v ≡ some d
        → Hops (near neighbors) center v d × (d ≤ depth)
    pub complete :
        length selected < limit
        → (v : String) (n : ℕ) → Hops (near neighbors) center v n
        → n ≤ depth
        → Within selected v n
    pub entries : All (λ p. Hops (near neighbors) center p.0 p.1 × (p.1 ≤ depth)) selected

  reached :
      (k : ℕ) (selected : Dict ℕ)
      → Inv neighbors center depth limit k (record { selected = selected; queue = [] })
      → is_full limit selected ≡ false
      → {v : String} {n : ℕ} → Hops (near neighbors) center v n
      → n ≤ depth
      → Within selected v n
  reached k selected inv room {v} {n} (here at zero_hops) le =
      (0, subst (λ x. get selected x ≡ some 0) at inv.source, omega arith)
  reached k selected inv room {v} {n} (hop {u = u} {m = m} walked link count) le =
      let (d, found, least) = reached k selected inv room walked (omega arith) in
      elim (inv.closed room u d found (omega arith)) [
        | inl waits ↦ absurd waits
        | inr all ↦ let (e, at, bound) = all v link in (e, at, omega arith)
      ]

  Finds-of_ended :
      (k : ℕ) (selected : Dict ℕ)
      → Inv neighbors center depth limit k (record { selected = selected; queue = [] })
      → Finds selected
  Finds-of_ended k selected inv = record {
    sound = λ v d h. let s = inv.sound v d h in (s.0, s.1);
    complete = λ less v n walked le. reached k selected inv (ground arith) walked le;
    entries = inv.entries;
  }

  Finds-of_full :
      (k : ℕ) (selected : Dict ℕ) (queue : List (String × ℕ))
      → Inv neighbors center depth limit k (record { selected = selected; queue = queue })
      → is_full limit selected ≡ true
      → Finds selected
  Finds-of_full k selected queue inv full = record {
    sound = λ v d h. let s = inv.sound v d h in (s.0, s.1);
    complete = λ less v n walked le. absurd (ground arith);
    entries = inv.entries;
  }

  walk-Finds :
      (fuel k : ℕ) (selected : Dict ℕ) (queue : List (String × ℕ)) (result : Dict ℕ)
      → Inv neighbors center depth limit k (record { selected = selected; queue = queue })
      → walk neighbors depth limit fuel selected queue ≡ some result
      → Finds result
  unfolding walk
  walk-Finds zero k selected [] result inv e =
      subst Finds (some-injective selected result e) (Finds-of_ended k selected inv)
  walk-Finds zero k selected (p ∷ queue) result inv e = elim (Bool-cases (is_full limit selected)) [
    | inl full ↦ subst Finds (ground arith) (Finds-of_full k selected (p ∷ queue) inv full)
    | inr more ↦ absurd (ground arith)
  ]
  walk-Finds (suc fuel) k selected [] result inv e =
      subst Finds (some-injective selected result e) (Finds-of_ended k selected inv)
  walk-Finds (suc fuel) k selected ((u, d) ∷ queue) result inv e =
      elim (Bool-cases (is_full limit selected)) [
        | inl full ↦
            subst Finds (some-injective selected result (rw (full, walk) at e))
              (Finds-of_full k selected ((u, d) ∷ queue) inv full)
        | inr more ↦
            let w =
              expand neighbors depth limit u d (record { selected = selected; queue = queue }) in
            walk-Finds fuel d w.selected w.queue result
              (expand-Inv neighbors center depth limit k d u selected queue more inv)
              (rw (more, walk) at e)
      ]

  only_center : (v : String) (d : ℕ) → get ((center, 0) ∷ []) v ≡ some d → (center ≡ v) × (0 ≡ d)
  unfolding get
  only_center v d h = ground (arith, eq_iff center v)

  Inv-start :
      Inv neighbors center depth limit 0
        (record { selected = (center, 0) ∷ []; queue = (center, 0) ∷ [] })
  unfolding get
  Inv-start = record {
    source = simp eq_refl;
    sound = λ v d h.
        let at = only_center v d h in
        (here at.0 (sym at.1), omega (arith, at.1), omega (arith, at.1));
    entries = ((here refl refl, omega arith), tt);
    queued = ((here refl refl, omega arith), tt);
    ordered = (omega arith, tt);
    closed = λ room u d h le. inl (inl (only_center u d h));
  }

  pub walk_chain-Finds :
      0 < limit
      → (result : Dict ℕ) × (walk_chain neighbors depth limit center ≡ some result)
        × (length result ≤ limit)
        × Finds result
  unfolding walk_chain
  walk_chain-Finds h =
      let (result, e, size) = walk_chain_returns neighbors depth limit center h in
      (
        result,
        e,
        size,
        walk-Finds limit 0 ((center, 0) ∷ []) ((center, 0) ∷ []) result Inv-start
            (unfold walk_chain in e),
      )
