-- ===== src/Audit/Retention.antt =====
-- What pruning removes.
use se_1_rune_agent.Base.{
  ℕ, ◌-◌, String, Bool, true, false, ◌&&◌, ◌||◌, Option, none, some, List, [], ◌∷◌, ◌++◌, ◌==◌, ◌≡◌,
  refl, ap, ◌∙◌, arith, eq_refl, any, elem, select, ◌⊎◌, Bool-cases, is_some, if◌then◌else◌, inl,
  inr,
}
use se_1_rune_agent.Base.Dict.{
  Dict, get, put, remove, values, index, index_into, get-put, get-remove, Keyed, index_into-Keyed,
  empty-Keyed,
}
use se_1_rune_agent.Base.Sort.{sort_by, any-sort_by}
use se_1_rune_agent.Audit.{
  AuditEvent, AuditService, is_expired, days, ids, older, expired_events, overflow_events,
  events_to_archive, pop_all, archive_and_prune,
}

get-pop_all :
    (ks : List String) (d : Dict AuditEvent) (k : String)
    → get (pop_all ks d) k ≡ (if elem k ks then none else get d k)
unfolding pop_all
get-pop_all [] d k = refl
get-pop_all (x ∷ xs) d k = ground (arith, get-pop_all xs (remove d x) k, get-remove d x k)

module _ {A : Type 0} where
  any-select :
      (f p : A → Bool) (xs : List A) → any (λ x. f x && p x) xs ≡ true → any f (select p xs) ≡ true
  any-select f p [] h = h
  any-select f p (x ∷ xs) h = ground (arith, any-select f p xs)

  any-append : (f : A → Bool) (xs ys : List A) → any f xs ≡ true → any f (xs ++ ys) ≡ true
  any-append f [] ys h = cc
  any-append f (x ∷ xs) ys h = ground (arith, any-append f xs ys)

  any-values :
      (f : A → Bool) (d : Dict A) (k : String) (v : A)
      → get d k ≡ some v
      → f v ≡ true
      → any f (values d) ≡ true
  unfolding get
  any-values f [] k v there h = cc
  any-values f ((j, w) ∷ d) k v there h = ground (arith, any-values f d k v)

  is_some-index_into :
      (key : A → String) (d : Dict A) (xs : List A) (k : String)
      → is_some (get (index_into key d xs) k) ≡ (is_some (get d k) || any (λ x. key x == k) xs)
  unfolding index_into
  is_some-index_into key d [] k = ground arith
  is_some-index_into key d (x ∷ xs) k =
      ground (arith, is_some-index_into key (put d (key x) x) xs k, get-put d (key x) k x)

elem-ids : (k : String) (es : List AuditEvent) → elem k (ids es) ≡ any (λ e. e.audit_id == k) es
elem-ids k [] = refl
elem-ids k (e ∷ es) = ap (λ b. (e.audit_id == k) || b) (elem-ids k es)

some-of-is_some : {A : Type 0} (o : Option A) → is_some o ≡ true → (a : A) × (o ≡ some a)
some-of-is_some none h = cc
some-of-is_some (some a) h = (a, refl)

-- The dict of events by id holds an event for every id of the list.
listed-index :
    (es : List AuditEvent) (k : String)
    → any (λ e. e.audit_id == k) es ≡ true
    → any (λ e. e.audit_id == k) (values (index (λ e. e.audit_id) es)) ≡ true
unfolding get
listed-index es k h =
    let (e, there) =
      some-of-is_some (get (index (λ e. e.audit_id) es) k)
        (is_some-index_into (λ e. e.audit_id) [] es k ∙ h) in
    let own = index_into-Keyed (λ e. e.audit_id) [] es (empty-Keyed (λ e. e.audit_id)) k e there in
    any-values (λ e. e.audit_id == k) (index (λ e. e.audit_id) es) k e there
      (ap (λ j. j == k) own ∙ eq_refl k)

abbrev pub cutoff : ℕ → AuditService → ℕ
cutoff now s = now - days s.policy.retention_days

both : (a b : Bool) → a ≡ true → b ≡ true → (a && b) ≡ true
both a b h k = ground arith

expired-listed :
    (now : ℕ) (s : AuditService) (k : String) (e : AuditEvent)
    → get s.events k ≡ some e
    → e.audit_id ≡ k
    → is_expired (cutoff now s) e ≡ true
    → any (λ e. e.audit_id == k) (expired_events now s) ≡ true
unfolding expired_events
expired-listed now s k e there own expired =
    any-select (λ e. e.audit_id == k) (is_expired (cutoff now s)) (sort_by older (values s.events))
      (any-sort_by older (λ e. (e.audit_id == k) && is_expired (cutoff now s) e) (values s.events)
        ∙ any-values (λ e. (e.audit_id == k) && is_expired (cutoff now s) e) s.events k e there
            (both _ _ (ap (λ j. j == k) own ∙ eq_refl k) expired))

expired-archived :
    (now : ℕ) (s : AuditService) (k : String)
    → any (λ e. e.audit_id == k) (expired_events now s) ≡ true
    → any (λ e. e.audit_id == k) (events_to_archive now s) ≡ true
unfolding events_to_archive
expired-archived now s k h =
    any-sort_by older (λ e. e.audit_id == k) _
    ∙ listed-index (expired_events now s ++ overflow_events now s) k
        (any-append (λ e. e.audit_id == k) (expired_events now s) (overflow_events now s) h)

-- In a register keyed by the events' own ids, pruning removes an event exactly if it archives its
-- id, and every other event stays as it was; and it archives the id of every event that is older
-- than the policy retains.
pub archive_and_prune_expired :
    (now : ℕ) (s : AuditService) (k : String) (e : AuditEvent)
    → Keyed (λ e. e.audit_id) s.events
    → get s.events k ≡ some e
    → let (archived, after) = archive_and_prune now s in
      (get after.events k ≡ (if elem k (ids archived) then none else some e))
      × ((elem k (ids archived) ≡ true) ⊎ (is_expired (cutoff now s) e ≡ false))
unfolding archive_and_prune
archive_and_prune_expired now s k e keyed there =
    let archived = events_to_archive now s in
    (
      get-pop_all (ids archived) s.events k
          ∙ ap (λ o. if elem k (ids archived) then none else o) there,
      elim (Bool-cases (is_expired (cutoff now s) e)) [
        | inl expired ↦ inl (
            elem-ids k archived
            ∙ expired-archived now s k (expired-listed now s k e there (keyed k e there) expired))
        | inr current ↦ inr current
      ],
    )
