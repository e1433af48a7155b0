-- ===== src/Graph/Chain/Distance/Layers.antt =====
-- The invariant of the outer loop, on the depths in the queue and among the nodes found.
use se_1_rune_agent.Base.{
  ℕ, ◌+◌, ◌≤◌, ◌<◌, String, Bool, true, false, some, List, [], ◌∷◌, ◌++◌, ◌≡◌, refl, sym, subst,
  arith, ◌∙◌, ◌⊎◌, inl, inr, elem, leb, leb→le, All, All-append, Bool-cases, Option-cases,
}
use se_1_rune_agent.Base.Dict.{All-put, Dict, get}
use se_1_rune_agent.Graph.Chain.{Walk, is_full, scan, expand}
use se_1_rune_agent.Graph.Chain.Distance.{Waits, Grown, scan-Grown, scan_rule}

-- A walk of `n` steps from the center, each along a link.
pub data Hops (link : String → String → Bool) (center : String) : String → ℕ → Type 0 where
  here : {v : String} {n : ℕ} → center ≡ v → n ≡ 0 → Hops link center v n
  hop :
      {u v : String} {m n : ℕ}
      → Hops link center u m
      → link u v ≡ true
      → n ≡ m + 1
      → Hops link center v n

pub Hops-map :
    (f g : String → String → Bool) (center : String)
    → ((u v : String) → f u v ≡ g u v)
    → {v : String} {n : ℕ} → Hops f center v n
    → Hops g center v n
Hops-map f g center same (here at none_left) = here at none_left
Hops-map f g center same (hop {u = u} {v = v} walked along count) =
    hop (Hops-map f g center same walked) (sym (same u v) ∙ along) count

abbrev pub near : (String → List String) → String → String → Bool
near neighbors u v = elem v (neighbors u)

-- The node was found at a depth of `n` at most.
abbrev pub Within : Dict ℕ → String → ℕ → Type 0
Within selected v n = (d : ℕ) × (get selected v ≡ some d) × (d ≤ n)

abbrev pub Ordered : ℕ → List (String × ℕ) → Type 0
Ordered k [] = Unit
Ordered k ((u, d) ∷ queue) = (k ≤ d) × Ordered d queue

module _ (neighbors : String → List String) (center : String) where
  abbrev pub Queued : ℕ → List (String × ℕ) → Type 0
  Queued k = All (λ p. Hops (near neighbors) center p.0 p.1 × (p.1 ≤ k + 1))

  Queued-mono : (j k : ℕ) (q : List (String × ℕ)) → j ≤ k → Queued j q → Queued k q
  Queued-mono j k [] le h = tt
  Queued-mono j k ((u, d) ∷ q) le h = ((h.0.0, omega arith), Queued-mono j k q le h.1)

  Ordered-append :
      (k m : ℕ) (v : String) (q : List (String × ℕ))
      → Ordered m q
      → Queued k q
      → m ≤ k + 1
      → Ordered m (q ++ (v, k + 1) ∷ [])
  Ordered-append k m v [] o h le = (le, tt)
  Ordered-append k m v ((u, d) ∷ q) o h le = (o.0, Ordered-append k d v q o.1 h.1 h.0.1)

module _ (neighbors : String → List String) (center : String) (depth limit : ℕ) where
  -- `k` is the depth that the loop has come to.
  pub record Inv (k : ℕ) (w : Walk) : Type 0 where
    pub source : get w.selected center ≡ some 0
    pub sound :
        (v : String) (d : ℕ)
        → get w.selected v ≡ some d
        → Hops (near neighbors) center v d × (d ≤ depth) × (d ≤ k + 1)
    pub entries : All (λ p. Hops (near neighbors) center p.0 p.1 × (p.1 ≤ depth)) w.selected
    pub queued : Queued neighbors center k w.queue
    pub ordered : Ordered k w.queue
    pub closed :
        is_full limit w.selected ≡ false
        → (u : String) (d : ℕ) → get w.selected u ≡ some d
        → d < depth
        → Waits u d w.queue
          ⊎ ((v : String) → elem v (neighbors u) ≡ true → Within w.selected v (d + 1))

  module _ (k d : ℕ) (u : String) (selected : Dict ℕ) (queue : List (String × ℕ))
      (room : is_full limit selected ≡ false)
      (inv : Inv k (record { selected = selected; queue = (u, d) ∷ queue })) where
    -- A node at the last depth is left.
    Inv-leave : depth ≤ d → Inv d (record { selected = selected; queue = queue })
    Inv-leave deep = record {
      source = inv.source;
      entries = inv.entries;
      sound = λ v e h. let s = inv.sound v e h in (s.0, s.1, omega (arith, inv.ordered.0));
      queued = Queued-mono neighbors center k d queue inv.ordered.0 inv.queued.1;
      ordered = inv.ordered.1;
      closed = λ more x e h le. elim (inv.closed room x e h le) [
        | inl (inl head) ↦ absurd (omega (arith, head.1))
        | inl (inr tail) ↦ inl tail
        | inr done ↦ inr done
      ];
    }

    abbrev before : Walk
    before = record { selected = selected; queue = queue }

    abbrev after : Walk
    after = scan neighbors depth limit (d + 1) (neighbors u) before

    grown : Grown limit (d + 1) (neighbors u) before after
    grown = scan-Grown neighbors depth limit (d + 1) (neighbors u) before

    queue-after : Queued neighbors center d after.queue × Ordered d after.queue
    queue-after =
        scan_rule neighbors depth limit (d + 1)
          (λ w. Queued neighbors center d w.queue × Ordered d w.queue) (neighbors u)
          (λ v w e h. (
            All-append (λ p. Hops (near neighbors) center p.0 p.1 × (p.1 ≤ d + 1)) w.queue
                ((v, d + 1) ∷ []) h.0 ((hop inv.queued.0.0 e refl, omega arith), tt),
            Ordered-append neighbors center d d v w.queue h.1 h.0 (omega arith),
          ))
          before (Queued-mono neighbors center k d queue inv.ordered.0 inv.queued.1, inv.ordered.1)

    entries-after :
        d < depth → All (λ p. Hops (near neighbors) center p.0 p.1 × (p.1 ≤ depth)) after.selected
    entries-after above =
        scan_rule neighbors depth limit (d + 1)
          (λ w. All (λ p. Hops (near neighbors) center p.0 p.1 × (p.1 ≤ depth)) w.selected)
          (neighbors u)
          (λ v w e h.
            All-put (λ p. Hops (near neighbors) center p.0 p.1 × (p.1 ≤ depth)) w.selected v (d + 1)
              (hop inv.queued.0.0 e refl, omega arith) h)
          before inv.entries

    sound-after :
        d < depth
        → (v : String) (e : ℕ) → get after.selected v ≡ some e
        → Hops (near neighbors) center v e × (e ≤ depth) × (e ≤ d + 1)
    sound-after above v e h = elim (grown.fresh v e h) [
      | inl old ↦ let s = inv.sound v e old in (s.0, s.1, omega (arith, inv.ordered.0))
      | inr (at, read, waits) ↦ (hop inv.queued.0.0 read at, omega arith, omega arith)
    ]

    Within-after : (v : String) (n : ℕ) → Within selected v n → Within after.selected v n
    Within-after v n (e, h, le) = (e, grown.kept v e h, le)

    -- Every neighbor of the node that was read is found.
    covered :
        d < depth
        → is_full limit after.selected ≡ false
        → (v : String) → elem v (neighbors u) ≡ true
        → Within after.selected v (d + 1)
    covered above more v read = elim (Option-cases (get after.selected v)) [
      | inl e ↦ cc (grown.covers v more read)
      | inr (e, h) ↦ (e, h, (sound-after above v e h).2)
    ]

    Inv-read : d < depth → Inv d after
    Inv-read above = record {
      source = grown.kept center 0 inv.source;
      entries = entries-after above;
      sound = sound-after above;
      queued = queue-after.0;
      ordered = queue-after.1;
      closed = λ more x e h le. elim (grown.fresh x e h) [
        | inr (at, read, waits) ↦ inl waits
        | inl old ↦ elim (inv.closed room x e old le) [
          | inl (inl head) ↦ inr (λ v read.
              subst (λ t. Within after.selected v (t + 1)) head.1
                (covered above more v (subst (λ t. elem v (neighbors t) ≡ true) (sym head.0) read)))
          | inl (inr tail) ↦ inl (grown.waits x e tail)
          | inr done ↦ inr (λ v read. Within-after v (e + 1) (done v read))
        ]
      ];
    }

    -- One round of the outer loop.
    pub expand-Inv : Inv d (expand neighbors depth limit u d before)
    unfolding expand
    expand-Inv = elim (Bool-cases (leb depth d)) [
      | inl deep ↦ rw deep (Inv-leave (leb→le depth d deep))
      | inr above ↦ rw above (Inv-read (ground arith))
    ]
