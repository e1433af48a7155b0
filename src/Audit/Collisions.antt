-- ===== src/Audit/Collisions.antt =====
-- Ids of audit events come from the number of events in the register, which pruning lowers.
use se_1_rune_agent.Base.{
  ℕ, ◌+◌, String, Option, some, ◌≡◌, ◌≢◌, ◌∙◌, eq_false_of_ne, if◌then◌else◌, length, is_some,
}
use se_1_rune_agent.Base.Dict.{get, get-put_self, get-put_ne, length-put}
use se_1_rune_agent.Audit.{Entry, Fingerprint, AuditService, audit_event, record_event}

put_size :
    {V : Type 0} {o : Option V} {v : V} {n : ℕ} → o ≡ some v → (if is_some o then n else n + 1) ≡ n
put_size e = rw e

module _ (stable_hash : Fingerprint → String) where
  -- Let an entry be recorded, and the register then shrink to the size that it had before, with
  -- the new event still in it. Recording the same entry again adds no event: the register keeps
  -- its size, and the event of the first time is overwritten.
  pub record_event_overwrites :
      (now later : ℕ) (e : Entry) (s pruned : AuditService)
      → length pruned.events ≡ length s.events
      → get pruned.events (audit_event stable_hash now e (length s.events)).audit_id
        ≡ some (audit_event stable_hash now e (length s.events))
      → let after = record_event stable_hash later e pruned in
        (length after.events ≡ length pruned.events)
        × (get after.events (audit_event stable_hash now e (length s.events)).audit_id
            ≡ some (audit_event stable_hash later e (length s.events)))
  unfolding record_event
  record_event_overwrites now later e s pruned same kept =
      let event = audit_event stable_hash later e (length s.events) in
      rw same (
        length-put pruned.events event.audit_id event ∙ put_size kept ∙ same,
        get-put_self pruned.events event.audit_id event,
      )

  -- A register that nothing was pruned from between keeps both: with hashes that differ for the
  -- two sequence numbers, the event of before stays where it was.
  pub record_event_keeps :
      (now : ℕ) (e : Entry) (s : AuditService) (k : String)
      → (audit_event stable_hash now e (length s.events)).audit_id ≢ k
      → get (record_event stable_hash now e s).events k ≡ get s.events k
  unfolding record_event
  record_event_keeps now e s k ne = get-put_ne s.events _ k _ (eq_false_of_ne _ k ne)
