-- ===== src/Approvals/Service/Risk.antt =====
-- How a proposal is routed.
use se_1_rune_agent.Base.{◌≤◌, ◌<◌, ◌≡◌, ◌≢◌, ◌↔◌, ◌⊎◌, false, arith}
use se_1_rune_agent.Ontology.{conflicts_with, supersedes, TraceabilityEdge}
use se_1_rune_agent.Approvals.{low, high}
use se_1_rune_agent.Approvals.Service.{approval_risk_for_edge}

-- An edge is low risk exactly when its score is at least 0.85, it is not inferred, and its
-- relation neither contradicts nor replaces another.
pub approval_risk-low :
    (e : TraceabilityEdge)
    → (approval_risk_for_edge e ≡ low) ↔ (
        (85 ≤ e.confidence_score)
        × (e.is_inferred ≡ false)
        × (e.relation ≢ conflicts_with)
        × (e.relation ≢ supersedes))
unfolding approval_risk_for_edge
approval_risk-low e = (λ h. ground arith, λ h. ground arith)

-- An edge is high risk exactly when its score is below 0.5 or its relation contradicts or
-- replaces another.
pub approval_risk-high :
    (e : TraceabilityEdge)
    → (approval_risk_for_edge e ≡ high)
      ↔ ((e.confidence_score < 50) ⊎ (e.relation ≡ conflicts_with) ⊎ (e.relation ≡ supersedes))
unfolding approval_risk_for_edge
approval_risk-high e = (λ h. ground arith, λ h. ground arith)
