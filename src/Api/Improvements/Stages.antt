-- ===== src/Api/Improvements/Stages.antt =====
-- Improvements that are closed, and requests without a key.
use se_1_rune_agent.Base.Dict.{Dict}
use se_1_rune_agent.Approvals.Contracts.{Contracts}
