-- ===== src/Graph/Memory/Idempotence.antt =====
-- A key under which a delta was applied is spent.
use se_1_rune_agent.Base.{
  String, true, false, some, List, [], ◌∷◌, ◌++◌, ◌≡◌, refl, arith, eq_refl, elem,
}
use se_1_rune_agent.Base.Dict.{Dict}
use se_1_rune_agent.Exec.{ok, raised, Exception}
use se_1_rune_agent.Ontology.{TraceabilityEdge}
use se_1_rune_agent.Approvals.{
  GraphOperation, create_node, create_edge, GraphDeltaOperation, GraphDelta,
}
use se_1_rune_agent.Approvals.Contracts.{Contracts}
use se_1_rune_agent.Graph.Memory.{
  MemoryGraphBackend, store_edge, apply_by, apply_operations, apply_delta, seal,
}

elem-append : (s : String) (xs : List String) → elem s (xs ++ s ∷ []) ≡ true
elem-append s [] = rw eq_refl
elem-append s (x ∷ xs) = ground (arith, elem-append s xs)

module _ (c : Contracts) where
  apply_delta_spent :
      (delta : GraphDelta c.Value) (key : String) (g : MemoryGraphBackend)
      → elem key g.idempotency_keys ≡ true
      → apply_delta c delta key g ≡ (ok tt, g)
  unfolding apply_delta
  apply_delta_spent delta key g h = rw h

  apply_delta_spends :
      (delta : GraphDelta c.Value) (key : String) (g : MemoryGraphBackend)
      → (apply_delta c delta key g).0 ≡ ok tt
      → elem key (apply_delta c delta key g).1.idempotency_keys ≡ true
  unfolding apply_delta
  apply_delta_spends delta key g h =
      ground (arith, elem-append key (apply_operations c delta.operations g).1.idempotency_keys)

  -- Applying any delta under the key of a delta that was applied returns, and changes nothing.
  pub apply_delta_again :
      (delta next : GraphDelta c.Value) (key : String) (g : MemoryGraphBackend)
      → (apply_delta c delta key g).0 ≡ ok tt
      → apply_delta c next key (apply_delta c delta key g).1
        ≡ (ok tt, (apply_delta c delta key g).1)
  apply_delta_again delta next key g h =
      apply_delta_spent next key (apply_delta c delta key g).1 (apply_delta_spends delta key g h)

  keys-apply_by :
      (o : GraphOperation) (payload : Dict c.Value) (g : MemoryGraphBackend)
      → (apply_by c o payload g).1.idempotency_keys ≡ g.idempotency_keys
  unfolding apply_by
  keys-apply_by create_node payload g = ground arith
  keys-apply_by create_edge payload g = ground arith
  keys-apply_by _ payload g = refl

  keys-apply_operations :
      (ops : List (GraphDeltaOperation c.Value)) (g : MemoryGraphBackend)
      → (apply_operations c ops g).1.idempotency_keys ≡ g.idempotency_keys
  unfolding apply_operations
  keys-apply_operations [] g = refl
  keys-apply_operations (op ∷ ops) g = ground (
    arith,
    keys-apply_by op.operation op.payload g,
    keys-apply_operations ops (apply_by c op.operation op.payload g).1,
  )

  -- A delta that raises leaves the keys as they were: a repaired delta can be applied under its key.
  pub keys-apply_delta_raises :
      (delta : GraphDelta c.Value) (key : String) (g : MemoryGraphBackend) (e : Exception)
      → (apply_delta c delta key g).0 ≡ raised e
      → (apply_delta c delta key g).1.idempotency_keys ≡ g.idempotency_keys
  unfolding apply_delta
  keys-apply_delta_raises delta key g e h = ground (arith, keys-apply_operations delta.operations g)

  -- A delta with one new edge that the class accepts, under an unspent key, puts it into the graph.
  pub apply_delta_creates :
      (delta : GraphDelta c.Value) (op : GraphDeltaOperation c.Value) (edge : TraceabilityEdge)
      (key : String) (g : MemoryGraphBackend)
      → delta.operations ≡ op ∷ []
      → op.operation ≡ create_edge
      → c.validate_edge op.payload ≡ some edge
      → elem key g.idempotency_keys ≡ false
      → apply_delta c delta key g ≡ (ok tt, seal key (store_edge edge g))
  unfolding apply_delta
  apply_delta_creates delta op edge key g one kind reads fresh =
      rw (fresh, one, apply_operations) (rw (kind, apply_by) (rw reads))
