-- ===== src/Audit/Witnesses.antt =====
-- A register that is recorded to, pruned, and recorded to again.
use se_1_rune_agent.Base.{
  ℕ, true, false, String, none, some, [], ◌∷◌, ◌≡◌, ◌⊎◌, refl, length, arith, eq_iff, elem,
  if◌then◌else◌,
}
use se_1_rune_agent.Base.Dict.{get, Keyed}
use se_1_rune_agent.Base.Text.{concat, decimal, head_of}
use se_1_rune_agent.Audit.{
  archive_and_prune, is_expired, ids, approval_decided, succeeded, Entry, Fingerprint, AuditEvent,
  AuditService, audit_event, record_event,
}
use se_1_rune_agent.Audit.Collisions.{record_event_overwrites}
use se_1_rune_agent.Audit.Retention.{cutoff, archive_and_prune_expired}

abbrev sequence_hash : Fingerprint → String
sequence_hash f = decimal f.sequence

abbrev entry : Entry
entry = record {
  action = approval_decided;
  actor_id = "reviewer";
  actor_role = none;
  project_key = some "SYS";
  target_type = "approval";
  target_id = "apv_1";
  outcome = succeeded;
  reason_code = none;
  metadata = [];
}

abbrev first_event : AuditEvent
first_event = audit_event sequence_hash 10 entry 1

abbrev old_event : AuditEvent
old_event = audit_event sequence_hash 1 entry 0

abbrev before : AuditService
before = record {
  events = (old_event.audit_id, old_event) ∷ [];
  policy = record { retention_days = 30; max_events = 100 };
}

-- The old event is gone, the new one is kept.
abbrev pruned : AuditService
pruned = record before { events = (first_event.audit_id, first_event) ∷ [] }

first_event_kept : get pruned.events first_event.audit_id ≡ some first_event
unfolding get audit_event concat head_of decimal
first_event_kept = refl

record_event_overwrites_example :
    let after = record_event sequence_hash 20 entry pruned in
    (length after.events ≡ 1)
    × (get after.events first_event.audit_id ≡ some (audit_event sequence_hash 20 entry 1))
record_event_overwrites_example =
    record_event_overwrites sequence_hash 10 20 entry before pruned refl first_event_kept

key_of_old : get before.events "aud_0" ≡ some old_event
unfolding get audit_event concat head_of decimal
key_of_old = refl

before-Keyed : Keyed (λ e. e.audit_id) before.events
unfolding get audit_event concat head_of decimal
before-Keyed k v e = ground (arith, eq_iff "aud_0" k)

abbrev far_later : ℕ
far_later = 9000000000000

archive_and_prune_expired_example :
    let (archived, after) = archive_and_prune far_later before in
    (get after.events "aud_0" ≡ (if elem "aud_0" (ids archived) then none else some old_event))
    × ((elem "aud_0" (ids archived) ≡ true)
        ⊎ (is_expired (cutoff far_later before) old_event ≡ false))
archive_and_prune_expired_example =
    archive_and_prune_expired far_later before "aud_0" old_event before-Keyed key_of_old
