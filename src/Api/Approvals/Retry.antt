-- ===== src/Api/Approvals/Retry.antt =====
-- A command that is sent again with its idempotency key.
use se_1_rune_agent.Base.{ℕ, String, some, ◌≡◌, ◌≢◌, refl, eq_refl, eq_false_of_ne}
use se_1_rune_agent.Base.Dict.{Dict, get}
use se_1_rune_agent.Exec.{ok, raised, http_exception}
use se_1_rune_agent.Approvals.{ApprovalItem, ApprovalDecision}
use se_1_rune_agent.Approvals.Contracts.{Contracts}
use se_1_rune_agent.Audit.{Fingerprint}
use se_1_rune_agent.Api.Security.{Settings, UserContext, require_project}
use se_1_rune_agent.Api.Idempotency.{
  IdempotencyRecord, idempotency_key, idempotency_record_id, prepare_idempotency, replay,
}
use se_1_rune_agent.Api.Runtime.{RuntimeState}
use se_1_rune_agent.Api.Approvals.{Request, decide_approval}

abbrev pub command : String
command = "approvals.decision"

module _ {R : Type 0} where
  pub prepare_idempotency_record :
      (request : Request) (results : Dict (IdempotencyRecord R)) (key : String)
      (r : IdempotencyRecord R)
      → idempotency_key request.keys ≡ some key
      → get results (idempotency_record_id command key) ≡ some r
      → prepare_idempotency request.keys results command request.payload_hash
        ≡ replay key (idempotency_record_id command key) request.payload_hash r
  unfolding prepare_idempotency
  prepare_idempotency_record request results key r keyed found =
      rw (keyed, prepare_idempotency) (rw (found, prepare_idempotency) refl)

module _ (c : Contracts) {R : Type 0} (dump_item : ApprovalItem → R)
    (stable_hash : Fingerprint → String) where
  -- An operator of the item's project sends a decision under a key whose record belongs to a
  -- request of another hash: the answer is 409, and nothing changes.
  pub decide_approval_conflicts :
      (now : ℕ) (settings : Settings) (request : Request) (d : ApprovalDecision c.Value)
      (s : RuntimeState c R) (item : ApprovalItem) (user : UserContext) (key : String)
      (r : IdempotencyRecord R) (hash : String)
      → get s.desk.service.items d.approval_id ≡ some item
      → require_project settings request.headers (some item.project_key) "operator" ≡ ok user
      → idempotency_key request.keys ≡ some key
      → get s.idempotency_results (idempotency_record_id command key) ≡ some r
      → r.request_hash ≡ some hash
      → hash ≢ request.payload_hash
      → decide_approval c dump_item stable_hash now settings request d.approval_id d s
        ≡ (raised (http_exception 409 "idempotency key reused with different request"), s)
  unfolding decide_approval
  decide_approval_conflicts now settings request d s item user key r hash there may keyed found old
        ne =
      rw (eq_refl d.approval_id) (
        rw there (
          rw may (
            rw (prepare_idempotency_record request s.idempotency_results key r keyed found)
              (rw old (rw (eq_false_of_ne hash request.payload_hash ne) refl)))))
