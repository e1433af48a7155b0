-- ===== src/Graph/Projection/Risks.antt =====
-- The table of risks, by the findings that name a node.
use se_1_rune_agent.Base.{
  ℕ, zero, suc, max, String, false, List, [], ◌∷◌, ◌==◌, ◌≡◌, refl, sym, ap, ◌∙◌, arith, elem,
  eq_iff, Bool-cases, inl, inr, ltb, if◌then◌else◌,
}
use se_1_rune_agent.Base.Dict.{get, get-put_self, get-put_ne}
use se_1_rune_agent.Ontology.{Finding, Severity, critical, high, medium, low}
use se_1_rune_agent.Graph.Projection.{
  RiskTable, risk_of, rank_of, severity_rank, severity_name, raise_risk, raise_risks, risk_by_node,
}

-- The highest rank among the findings that name the node; 0 if there is none.
abbrev pub highest_rank : String → List Finding → ℕ
highest_rank x [] = 0
highest_rank x (f ∷ findings) =
    max (if elem x f.affected_node_ids then severity_rank f.severity else 0)
      (highest_rank x findings)

abbrev pub rank_name : ℕ → String
rank_name zero = "none"
rank_name (suc zero) = "low"
rank_name (suc (suc zero)) = "medium"
rank_name (suc (suc (suc zero))) = "high"
rank_name _ = "critical"

name-rank : (s : Severity) → rank_name (severity_rank s) ≡ severity_name s
name-rank critical = refl
name-rank high = refl
name-rank medium = refl
name-rank low = refl

-- The two tables agree on the node.
abbrev Agree : String → RiskTable → Type 0
Agree x t = risk_of t x ≡ rank_name (rank_of t x)

raise_risk-same :
    (x : String) (s : Severity) (t : RiskTable)
    → Agree x t
    → Agree x (raise_risk s x t)
      × (rank_of (raise_risk s x t) x ≡ max (rank_of t x) (severity_rank s))
unfolding raise_risk
raise_risk-same x s t h = elim (Bool-cases (ltb (rank_of t x) (severity_rank s))) [
  | inl more ↦
      rw
        (
          more,
          get-put_self t.risk x (severity_name s),
          get-put_self t.rank_by_node x (severity_rank s),
        )
        (sym (name-rank s), ground arith)
  | inr less ↦ rw less (h, ground arith)
]

raise_risk-other :
    (x : String) (s : Severity) (id : String) (t : RiskTable)
    → (id == x) ≡ false
    → Agree x t
    → Agree x (raise_risk s id t) × (rank_of (raise_risk s id t) x ≡ rank_of t x)
unfolding raise_risk
raise_risk-other x s id t other h = elim (Bool-cases (ltb (rank_of t id) (severity_rank s))) [
  | inl more ↦
      rw
        (
          more,
          get-put_ne t.risk id x (severity_name s) other,
          get-put_ne t.rank_by_node id x (severity_rank s) other,
        )
        (h, refl)
  | inr less ↦ rw less (h, refl)
]

raise_risk-lem :
    (x : String) (s : Severity) (id : String) (t : RiskTable)
    → Agree x t
    → Agree x (raise_risk s id t)
      × (rank_of (raise_risk s id t) x ≡ max (rank_of t x) (if id == x then severity_rank s else 0))
raise_risk-lem x s id t h = elim (Bool-cases (id == x)) [
  | inl same ↦ rw same (rw ((eq_iff id x).0 same) (raise_risk-same x s t h))
  | inr other ↦
      let (agree, rank) = raise_risk-other x s id t other h in
      (agree, rw other (omega (arith, rank)))
]

raise_risks-lem :
    (x : String) (s : Severity) (ids : List String) (t : RiskTable)
    → Agree x t
    → Agree x (raise_risks s ids t)
      × (rank_of (raise_risks s ids t) x
          ≡ max (rank_of t x) (if elem x ids then severity_rank s else 0))
unfolding raise_risks
raise_risks-lem x s [] t h = (h, omega arith)
raise_risks-lem x s (id ∷ ids) t h =
    let (agree, rank) = raise_risk-lem x s id t h in
    let (agrees, ranks) = raise_risks-lem x s ids (raise_risk s id t) agree in
    (agrees, ground arith)

risk_by_node-lem :
    (x : String) (findings : List Finding) (t : RiskTable)
    → Agree x t
    → Agree x (risk_by_node t findings)
      × (rank_of (risk_by_node t findings) x ≡ max (rank_of t x) (highest_rank x findings))
unfolding risk_by_node
risk_by_node-lem x [] t h = (h, omega arith)
risk_by_node-lem x (f ∷ findings) t h =
    let (agree, rank) = raise_risks-lem x f.severity f.affected_node_ids t h in
    let (agrees, ranks) =
      risk_by_node-lem x findings (raise_risks f.severity f.affected_node_ids t) agree in
    (agrees, omega arith)

max_zero : (n : ℕ) → max 0 n ≡ n
max_zero n = omega arith

-- In the table that is built from the findings, the risk of a node is named after the highest
-- severity among the findings that name the node, and is "none" if there is none.
pub risk_by_node-highest :
    (x : String) (findings : List Finding)
    → risk_of (risk_by_node (record { risk = []; rank_by_node = [] }) findings) x
      ≡ rank_name (highest_rank x findings)
unfolding get
risk_by_node-highest x findings =
    let (agree, rank) =
      risk_by_node-lem x findings (record { risk = []; rank_by_node = [] }) refl in
    agree ∙ ap rank_name (rank ∙ max_zero (highest_rank x findings))
