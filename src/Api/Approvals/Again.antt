-- ===== src/Api/Approvals/Again.antt =====
-- A decision that is sent again after it was answered.
use se_1_rune_agent.Base.{
  ℕ, String, Option, none, some, ◌≡◌, ◌⊎◌, inl, inr, refl, sym, ap, subst, ◌∙◌, eq_refl, Bool-cases,
  Option-cases,
}
use se_1_rune_agent.Base.Dict.{Dict, get, get-put_self}
use se_1_rune_agent.Exec.{Result, ok, raised, Exception, http_exception, bind-eq-ok}
use se_1_rune_agent.Approvals.{ApprovalItem, ApprovalDecision}
use se_1_rune_agent.Approvals.Contracts.{Contracts}
use se_1_rune_agent.Approvals.Service.{Desk}
use se_1_rune_agent.Approvals.Decision.{decide}
use se_1_rune_agent.Approvals.Decision.Final.{IsKeyed}
use se_1_rune_agent.Approvals.Decision.Outcome.{Returned, decide_item-Returned}
use se_1_rune_agent.Audit.{Fingerprint}
use se_1_rune_agent.Api.Security.{Settings, UserContext, require_project}
use se_1_rune_agent.Api.Idempotency.{
  IdempotencyRecord, IdempotencyContext, idempotency_key, idempotency_record_id, same_hash,
  prepare_idempotency, replay,
}
use se_1_rune_agent.Api.Runtime.{
  RuntimeState, persist_approval_state, record_idempotency_response, record_idempotency_result,
  on_desk, audit_record, response_record,
}
use se_1_rune_agent.Api.Runtime.Frame.{SameCaches, persist_approval_state-SameCaches}
use se_1_rune_agent.Api.Approvals.{
  Request, decision_entry, keep_answer, file_decision, run_decision, answer, decide_approval,
}
use se_1_rune_agent.Api.Approvals.Retry.{command, prepare_idempotency_record}

abbrev context_of : {R : Type 0} → String → String → String → Option R → IdempotencyContext R
context_of key id hash cached = record {
  key = some key;
  record_id = some id;
  request_hash = hash;
  cached_response = cached;
}

replay-cases :
    {R : Type 0} (key id hash : String) (r : IdempotencyRecord R)
    → ((e : Exception) × (replay key id hash r ≡ raised e))
      ⊎ ((response : R) × (replay key id hash r ≡ ok (context_of key id hash (some response))))
replay-cases {R} key id hash r = elim (Bool-cases (same_hash r.request_hash hash)) [
  | inl same ↦ elim (Option-cases r.response) [
    | inl missing ↦ inl (http_exception 500 "invalid idempotency record", rw same (rw missing refl))
    | inr (response, held) ↦ inr (response, rw same (rw held refl))
  ]
  | inr other ↦
      inl (http_exception 409 "idempotency key reused with different request", rw other refl)
]

prepare_idempotency-first :
    {R : Type 0} (request : Request) (results : Dict (IdempotencyRecord R)) (key : String)
    → idempotency_key request.keys ≡ some key
    → get results (idempotency_record_id command key) ≡ none
    → prepare_idempotency request.keys results command request.payload_hash
      ≡ ok (context_of key (idempotency_record_id command key) request.payload_hash none)
unfolding prepare_idempotency
prepare_idempotency-first request results key keyed missing =
    rw (keyed, prepare_idempotency) (rw (missing, prepare_idempotency) refl)

returned :
    (c : Contracts) {R : Type 0} (item : ApprovalItem) (p : Result ApprovalItem × Desk c)
    (s : RuntimeState c R) (out : ApprovalItem) (u : RuntimeState c R)
    → ◌≡◌ {A = Result ApprovalItem × RuntimeState c R} (p.0, record s { desk = p.1 }) (ok out, u)
    → Returned c item p
    → (get u.desk.service.items item.approval_id ≡ some out) × (out.project_key ≡ item.project_key)
returned c item p s out u e kept = subst (λ q. Returned c item (q.0, q.1.desk)) e kept

module _ (c : Contracts) {R : Type 0} (dump_item : ApprovalItem → R)
    (stable_hash : Fingerprint → String) where
  -- The state keeps the decided item and the response under the record's id.
  abbrev Remembers : String → String → String → String → RuntimeState c R → R → Type 0
  Remembers approval_id project_key id hash t response =
      ((out : ApprovalItem) × (get t.desk.service.items approval_id ≡ some out)
        × (out.project_key ≡ project_key))
      × ((r : IdempotencyRecord R) × (get t.idempotency_results id ≡ some r)
          × (r.request_hash ≡ some hash)
          × (r.response ≡ some response))

  file_decision-Remembers :
      (now : ℕ) (d : ApprovalDecision c.Value) (key id hash approval_id project_key : String)
      (out : ApprovalItem) (u t : RuntimeState c R) (response : R)
      → get u.desk.service.items approval_id ≡ some out
      → out.project_key ≡ project_key
      → file_decision c dump_item stable_hash now d (context_of key id hash none) out u
        ≡ (ok response, t)
      → Remembers approval_id project_key id hash t response
  unfolding file_decision keep_answer record_idempotency_response record_idempotency_result
  file_decision-Remembers now d key id hash approval_id project_key out u t response there same h =
      let audited = audit_record stable_hash now (decision_entry c dump_item stable_hash d out) u in
      let (_, v, persisted, rest) =
        bind-eq-ok persist_approval_state
          (λ _. keep_answer c dump_item stable_hash out (context_of key id hash none)) audited t
          response h in
      let caches : SameCaches v audited =
        subst (λ p. SameCaches p.1 audited) persisted (persist_approval_state-SameCaches audited) in
      let kept =
        response_record (context_of key id hash none) "approvals.decision" (some out.project_key)
          (dump_item out) key id in
      subst (λ p. Remembers approval_id project_key id hash p.1 response) rest
        (
          (out, ap (λ desk. get desk.service.items approval_id) caches.desk ∙ there, same),
          (kept, get-put_self v.idempotency_results id kept, refl, answered rest),
        )
    where
      answered :
          {S : Type 0} {a b : R} {v w : S}
          → ◌≡◌ {A = Result R × S} (ok a, v) (ok b, w)
          → some a ≡ some b
      answered e = cc

  module _ (settings : Settings) (request : Request) (d : ApprovalDecision c.Value) (key : String)
      (keyed : idempotency_key request.keys ≡ some key) where
    abbrev pub run : ℕ → RuntimeState c R → Result R × RuntimeState c R
    run now = decide_approval c dump_item stable_hash now settings request d.approval_id d

    abbrev id : String
    id = idempotency_record_id command key

    -- The caller may decide on the item of the decision.
    abbrev May : RuntimeState c R → ApprovalItem → Type 0
    May s item =
        (get s.desk.service.items d.approval_id ≡ some item)
        × ((user : UserContext) × (require_project settings request.headers (some item.project_key)
                "operator"
              ≡ ok user))

    run_replays :
        (now : ℕ) (s : RuntimeState c R) (item : ApprovalItem) (r : IdempotencyRecord R)
        (response : R)
        → May s item
        → get s.idempotency_results id ≡ some r
        → replay key id request.payload_hash r
          ≡ ok (context_of key id request.payload_hash (some response))
        → run now s ≡ (ok response, s)
    unfolding decide_approval answer
    run_replays now s item r response (there, (user, may)) found same = rw (eq_refl d.approval_id) (
        rw there (
          rw may (
            rw (prepare_idempotency_record request s.idempotency_results key r keyed found)
              (rw same refl))))

    run_refuses :
        (now : ℕ) (s : RuntimeState c R) (item : ApprovalItem) (r : IdempotencyRecord R)
        (e : Exception)
        → May s item
        → get s.idempotency_results id ≡ some r
        → replay key id request.payload_hash r ≡ raised e
        → run now s ≡ (raised e, s)
    unfolding decide_approval answer
    run_refuses now s item r e (there, (user, may)) found bad = rw (eq_refl d.approval_id) (
        rw there (
          rw may (
            rw (prepare_idempotency_record request s.idempotency_results key r keyed found)
              (rw bad refl))))

    run_first :
        (now : ℕ) (s : RuntimeState c R) (item : ApprovalItem)
        → May s item
        → get s.idempotency_results id ≡ none
        → run now s
          ≡ run_decision c dump_item stable_hash now d
              (context_of key id request.payload_hash none)
              s
    unfolding decide_approval answer
    run_first now s item (there, (user, may)) missing = rw (eq_refl d.approval_id) (
        rw there (
          rw may
            (rw (prepare_idempotency-first request s.idempotency_results key keyed missing) refl)))

    replays_kept :
        (now : ℕ) (t : RuntimeState c R) (item : ApprovalItem) (user : UserContext) (response : R)
        → require_project settings request.headers (some item.project_key) "operator" ≡ ok user
        → Remembers d.approval_id item.project_key id request.payload_hash t response
        → run now t ≡ (ok response, t)
    replays_kept now t item user response may ((out, there, same), (r, found, hash, held)) =
        run_replays now t out r response (there, (user, rw same may)) found
          (rw hash (rw (eq_refl request.payload_hash) (rw held refl)))

    -- The first time, the decision is made and its answer kept.
    first-Remembers :
        (now : ℕ) (s t : RuntimeState c R) (item : ApprovalItem) (response : R)
        → IsKeyed c s.desk
        → get s.desk.service.items d.approval_id ≡ some item
        → run_decision c dump_item stable_hash now d (context_of key id request.payload_hash none) s
          ≡ (ok response, t)
        → Remembers d.approval_id item.project_key id request.payload_hash t response
    unfolding run_decision decide
    first-Remembers now s t item response keyed_desk there h =
        let context = context_of key id request.payload_hash none in
        let (out, u, decided, rest) =
          bind-eq-ok (on_desk (decide c now d))
            (file_decision c dump_item stable_hash now d context) s t response h in
        let same_id : item.approval_id ≡ d.approval_id =
          keyed_desk.at_key d.approval_id item there in
        let kept : Returned c item (decide c now d s.desk) = rw there (
          decide_item-Returned c now d s.desk item
            (ap (get s.desk.service.items) same_id ∙ there)) in
        let (held, same) = returned c item (decide c now d s.desk) s out u decided kept in
        file_decision-Remembers now d key id request.payload_hash d.approval_id item.project_key out
          u t response (ap (get u.desk.service.items) (sym same_id) ∙ held) same rest

    -- In a queue keyed by the items' ids, an operator of the item's project sends a decision with a
    -- key and is answered. Sent again at any later time, the decision is answered by the same
    -- response, and nothing changes any more.
    pub decide_approval_again :
        (now later : ℕ) (s t : RuntimeState c R) (item : ApprovalItem) (user : UserContext)
        (response : R)
        → IsKeyed c s.desk
        → get s.desk.service.items d.approval_id ≡ some item
        → require_project settings request.headers (some item.project_key) "operator" ≡ ok user
        → run now s ≡ (ok response, t)
        → run later t ≡ (ok response, t)
    decide_approval_again now later s t item user response keyed_desk there may h =
        elim (Option-cases (get s.idempotency_results id)) [
          | inl missing ↦ replays_kept later t item user response may (
              first-Remembers now s t item response keyed_desk there
                (sym (run_first now s item (there, (user, may)) missing) ∙ h))
          | inr (r, found) ↦ elim (replay-cases key id request.payload_hash r) [
            | inl (e, bad) ↦ cc (run_refuses now s item r e (there, (user, may)) found bad, h)
            | inr (kept, good) ↦
                let again =
                  λ (n : ℕ). run_replays n s item r kept (there, (user, may)) found good in
                let same : ◌≡◌ {A = Result R × RuntimeState c R} (ok kept, s) (ok response, t) =
                  sym (again now) ∙ h in
                subst (λ w. run later w ≡ (ok response, t)) (ap (λ p. p.1) same)
                  (again later ∙ same)
          ]
        ]
