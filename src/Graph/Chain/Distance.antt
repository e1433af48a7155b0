-- ===== src/Graph/Chain/Distance.antt =====
-- What the inner loop adds to the nodes found and to the queue.
pub mod Layers
pub mod Reached
use se_1_rune_agent.Base.{
  ℕ, ◌+◌, String, Bool, true, false, ◌||◌, Option, none, some, List, [], ◌∷◌, ◌++◌, ◌≡◌, refl,
  arith, ◌⊎◌, inl, inr, elem, Bool-cases, Option-cases, is_some, ◌==◌, eq_iff, eq_refl,
  if◌then◌else◌,
}
use se_1_rune_agent.Base.Dict.{Dict, get, put, has_key, get-put, get-put_self}
use se_1_rune_agent.Graph.Chain.{Walk, is_full, found, scan}
use se_1_rune_agent.Graph.Chain.Ending.{scan_old, scan_last, scan_next}

-- The entry stands in the queue.
abbrev pub Waits : String → ℕ → List (String × ℕ) → Type 0
Waits v d [] = ⊥
Waits v d ((u, e) ∷ queue) = ((u ≡ v) × (e ≡ d)) ⊎ Waits v d queue

Waits-append_left :
    (v : String) (d : ℕ) (q r : List (String × ℕ)) → Waits v d q → Waits v d (q ++ r)
Waits-append_left v d [] r h = elim h [ ]
Waits-append_left v d ((u, e) ∷ q) r (inl h) = inl h
Waits-append_left v d ((u, e) ∷ q) r (inr h) = inr (Waits-append_left v d q r h)

Waits-append_last : (v : String) (d : ℕ) (q : List (String × ℕ)) → Waits v d (q ++ (v, d) ∷ [])
Waits-append_last v d [] = inl (refl, refl)
Waits-append_last v d ((u, e) ∷ q) = inr (Waits-append_last v d q)

-- From `w` to `w'` the nodes of `vs` are added at depth `d`, those known before left as they were.
pub record Grown (limit d : ℕ) (vs : List String) (w w' : Walk) : Type 0 where
  pub kept : (x : String) (e : ℕ) → get w.selected x ≡ some e → get w'.selected x ≡ some e
  pub waits : (x : String) (e : ℕ) → Waits x e w.queue → Waits x e w'.queue
  pub fresh :
      (x : String) (e : ℕ)
      → get w'.selected x ≡ some e
      → (get w.selected x ≡ some e) ⊎ ((e ≡ d) × (elem x vs ≡ true) × Waits x e w'.queue)
  pub covers :
      (x : String)
      → is_full limit w'.selected ≡ false
      → elem x vs ≡ true
      → has_key w'.selected x ≡ true

has_key-kept :
    (v : String) (w w' : Walk)
    → ((e : ℕ) → get w.selected v ≡ some e → get w'.selected v ≡ some e)
    → has_key w.selected v ≡ true
    → has_key w'.selected v ≡ true
has_key-kept v w w' keep old = elim (Option-cases (get w.selected v)) [
  | inl e ↦ cc
  | inr (d, e) ↦ rw (keep d e) refl
]

module _ (limit d : ℕ) where
  Grown-none : (w : Walk) → Grown limit d [] w w
  Grown-none w = record {
    kept = λ x e h. h;
    waits = λ x e h. h;
    fresh = λ x e h. inl h;
    covers = λ x room h. cc;
  }

  -- A node that was known is passed over.
  Grown-old :
      (v : String) (vs : List String) (w w' : Walk)
      → has_key w.selected v ≡ true
      → Grown limit d vs w w'
      → Grown limit d (v ∷ vs) w w'
  Grown-old v vs w w' old h = record {
    kept = h.kept;
    waits = h.waits;
    fresh = λ x e g. ground (arith, h.fresh x e g);
    covers =
        λ x room g. ground (arith, eq_iff v x, h.covers x room, has_key-kept v w w' (h.kept v) old);
  }

  kept-found :
      (v : String) (w : Walk)
      → has_key w.selected v ≡ false
      → (x : String) (e : ℕ) → get w.selected x ≡ some e
      → get (found v d w).selected x ≡ some e
  kept-found v w new x e h = ground (arith, get-put w.selected v x d, eq_iff v x)

  at-found : (v : String) (w : Walk) → get (found v d w).selected v ≡ some d
  at-found v w = get-put_self w.selected v d

  fresh-found :
      (v : String) (w : Walk) (x : String) (e : ℕ)
      → get (found v d w).selected x ≡ some e
      → (get w.selected x ≡ some e) ⊎ ((e ≡ d) × (v ≡ x))
  fresh-found v w x e h = ground (arith, get-put w.selected v x d, eq_iff v x)

  -- A new node is followed by the rest of the loop.
  Grown-found :
      (v : String) (vs : List String) (w w' : Walk)
      → has_key w.selected v ≡ false
      → Grown limit d vs (found v d w) w'
      → Grown limit d (v ∷ vs) w w'
  Grown-found v vs w w' new h = record {
    kept = λ x e g. h.kept x e (kept-found v w new x e g);
    waits = λ x e g. h.waits x e (Waits-append_left x e w.queue ((v, d) ∷ []) g);
    fresh = λ x e g. ground (
      arith,
      eq_iff v x,
      h.fresh x e g,
      fresh-found v w x e,
      h.waits v d (Waits-append_last v d w.queue),
    );
    covers = λ x room g. ground (arith, eq_iff v x, h.covers x room, h.kept v d (at-found v w));
  }

  Grown-last :
      (v : String) (vs : List String) (w : Walk)
      → has_key w.selected v ≡ false
      → is_full limit (found v d w).selected ≡ true
      → Grown limit d (v ∷ vs) w (found v d w)
  Grown-last v vs w new full = record {
    kept = kept-found v w new;
    waits = λ x e g. Waits-append_left x e w.queue ((v, d) ∷ []) g;
    fresh =
        λ x e g. ground (arith, eq_iff v x, fresh-found v w x e g, Waits-append_last v d w.queue);
    covers = λ x room g. cc;
  }

module _ (neighbors : String → List String) (depth limit d : ℕ) where
  -- The inner loop adds what it reads, unless the limit is reached.
  pub scan-Grown :
      (vs : List String) (w : Walk) → Grown limit d vs w (scan neighbors depth limit d vs w)
  scan-Grown [] w = unfold scan in Grown-none limit d w
  scan-Grown (v ∷ vs) w = elim (Bool-cases (has_key w.selected v)) [
    | inl old ↦
        rw (scan_old neighbors depth limit d v vs w old)
          (Grown-old limit d v vs w (scan neighbors depth limit d vs w) old (scan-Grown vs w))
    | inr new ↦
        let w' = found v d w in
        elim (Bool-cases (is_full limit w'.selected)) [
          | inl full ↦
              rw (scan_last neighbors depth limit d v vs w new full)
                (Grown-last limit d v vs w new full)
          | inr more ↦ rw (scan_next neighbors depth limit d v vs w new more) (
              Grown-found limit d v vs w (scan neighbors depth limit d vs w') new
                (scan-Grown vs w'))
        ]
  ]

  -- What each node found keeps, the inner loop keeps.
  pub scan_rule :
      (P : Walk → Type 0) (vs : List String)
      → ((v : String) (w : Walk) → elem v vs ≡ true → P w → P (found v d w))
      → (w : Walk) → P w
      → P (scan neighbors depth limit d vs w)
  scan_rule P [] each w h = unfold scan in h
  scan_rule P (v ∷ vs) each w h =
      let later =
        λ (x : String) (w : Walk) (e : elem x vs ≡ true). each x w (ground (arith, eq_iff v x)) in
      let w' = found v d w in
      let h' = each v w (simp eq_refl) h in
      elim (Bool-cases (has_key w.selected v)) [
        | inl old ↦ rw (scan_old neighbors depth limit d v vs w old) (scan_rule P vs later w h)
        | inr new ↦ elim (Bool-cases (is_full limit w'.selected)) [
          | inl full ↦ rw (scan_last neighbors depth limit d v vs w new full) h'
          | inr more ↦
              rw (scan_next neighbors depth limit d v vs w new more) (scan_rule P vs later w' h')
        ]
      ]
