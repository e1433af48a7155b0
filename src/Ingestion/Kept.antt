-- ===== src/Ingestion/Kept.antt =====
-- The text of the chunks beside the text that is cut.
use Prim.Native.Char.{Char, code}
use Prim.Native.String.{String}
use se_1_rune_agent.Base.{
  ℕ, zero, suc, ◌+◌, ◌*◌, ◌≤◌, ◌<◌, false, ◌&&◌, some, List, [], ◌∷◌, ◌==◌, ◌≡◌, refl, ap, ◌∙◌,
  arith, eqb, All, eq_iff, Bool-cases, inl, inr, if◌then◌else◌,
}
use se_1_rune_agent.Base.Text.{is_space, lstrip, rstrip, strip, text_length}
use se_1_rune_agent.Ontology.{EvidenceSpan, SourceArtifact, ArtifactChunk}
use se_1_rune_agent.Ingestion.{take_text, drop_text, chunks_from, chunk_artifact}

-- How many characters are no spaces.
abbrev pub solid : String → ℕ
solid String.[] = 0
solid (String.◌∷◌ c s) = (if is_space (code c) then 0 else 1) + solid s

solid-take-drop : (n : ℕ) (s : String) → solid (take_text n s) + solid (drop_text n s) ≡ solid s
unfolding take_text drop_text
solid-take-drop zero s = omega arith
solid-take-drop (suc n) String.[] = omega arith
solid-take-drop (suc n) (String.◌∷◌ c s) = omega (arith, solid-take-drop n s)

length-drop_text : (n : ℕ) (s : String) → text_length (drop_text n s) ≤ text_length s
unfolding drop_text
length-drop_text zero s = omega arith
length-drop_text (suc n) String.[] = omega arith
length-drop_text (suc n) (String.◌∷◌ c s) = omega (arith, length-drop_text n s)

length-take_text : (n : ℕ) (s : String) → text_length (take_text n s) ≤ n
unfolding take_text
length-take_text zero s = omega arith
length-take_text (suc n) String.[] = omega arith
length-take_text (suc n) (String.◌∷◌ c s) = omega (arith, length-take_text n s)

solid-lstrip : (s : String) → solid (lstrip s) ≡ solid s
unfolding lstrip
solid-lstrip String.[] = refl
solid-lstrip (String.◌∷◌ c s) = ground (arith, solid-lstrip s)

solid-rstrip : (s : String) → solid (rstrip s) ≡ solid s
unfolding rstrip
solid-rstrip String.[] = refl
solid-rstrip (String.◌∷◌ c s) = ground (arith, solid-rstrip s, eq_iff (rstrip s) "")

length-lstrip : (s : String) → text_length (lstrip s) ≤ text_length s
unfolding lstrip
length-lstrip String.[] = omega arith
length-lstrip (String.◌∷◌ c s) = ground (arith, length-lstrip s)

length-rstrip : (s : String) → text_length (rstrip s) ≤ text_length s
unfolding rstrip
length-rstrip String.[] = omega arith
length-rstrip (String.◌∷◌ c s) = elim (Bool-cases (is_space (code c) && rstrip s == "")) [
  | inl blank ↦ rw blank (omega arith)
  | inr kept ↦ rw kept (omega (arith, length-rstrip s))
]

solid-strip : (s : String) → solid (strip s) ≡ solid s
unfolding strip
solid-strip s = solid-rstrip (lstrip s) ∙ solid-lstrip s

length-strip : (s : String) → text_length (strip s) ≤ text_length s
unfolding strip
length-strip s = omega (arith, length-rstrip (lstrip s), length-lstrip s)

abbrev pub total_solid : List ArtifactChunk → ℕ
total_solid [] = 0
total_solid (chunk ∷ chunks) = solid chunk.text + total_solid chunks

-- A chunk has some text, of `max_chars` at most, and its offsets start at its piece of the text and
-- are as far apart as its text is long.
abbrev pub Spans : ℕ → ArtifactChunk → Type 0
Spans max_chars chunk =
    ((chunk.text == "") ≡ false)
    × (text_length chunk.text ≤ max_chars)
    × (chunk.evidence.start_offset ≡ some (chunk.index * max_chars))
    × (chunk.evidence.end_offset ≡ some (chunk.index * max_chars + text_length chunk.text))

module _ (hash_quote : String → String → String) (hash_text : String → String)
    (artifact : SourceArtifact) (evidence : EvidenceSpan) (max_chars : ℕ)
    (some_chars : 0 < max_chars) where
  abbrev loop : ℕ → ℕ → ℕ → String → List ArtifactChunk
  loop = chunks_from hash_quote hash_text artifact evidence max_chars

  drop-lt :
      (c : Char) (s : String)
      → text_length (drop_text max_chars (String.◌∷◌ c s)) < suc (text_length s)
  drop-lt c s = below max_chars some_chars
    where
      below : (n : ℕ) → 0 < n → text_length (drop_text n (String.◌∷◌ c s)) < suc (text_length s)
      below zero h = absurd (omega arith)
      below (suc n) h = unfold drop_text in omega (arith, length-drop_text n s)

  chunks_from-keeps :
      (fuel index start : ℕ) (rest : String)
      → text_length rest ≤ fuel
      → start ≡ index * max_chars
      → All (Spans max_chars) (loop fuel index start rest)
        × (total_solid (loop fuel index start rest) ≡ solid rest)
  unfolding chunks_from
  chunks_from-keeps fuel index start String.[] enough at = (tt, refl)
  chunks_from-keeps zero index start (String.◌∷◌ c s) enough at = absurd (omega arith)
  chunks_from-keeps (suc fuel) index start (String.◌∷◌ c s) enough at =
      let rest = String.◌∷◌ c s in
      let piece = take_text max_chars rest in
      let (spans, total) =
        chunks_from-keeps fuel (index + 1) (start + max_chars) (drop_text max_chars rest)
          (omega (arith, drop-lt c s)) (grind arith) in
      let sum = solid-take-drop max_chars rest in
      elim (Bool-cases (strip piece == "")) [
        | inl blank ↦
            let none_solid : solid (strip piece) ≡ 0 =
              rw ((eq_iff (strip piece) "").0 blank) refl in
            rw blank (spans, omega (arith, solid-strip piece))
        | inr kept ↦ rw kept (
          (
            (
              kept,
              omega (arith, length-strip piece, length-take_text max_chars rest),
              ap some at,
              ap (λ (n : ℕ). some (n + text_length (strip piece))) at,
            ),
            spans,
          ),
          omega (arith, solid-strip piece),
        )
      ]

  -- With `max_chars` at least 1 the artifact is cut. Each chunk has some text, of `max_chars`
  -- characters at most; its offsets start at its index times `max_chars` and are as far apart as its
  -- text is long; and together the chunks hold as many characters that are no spaces as the text.
  pub chunk_artifact-keeps :
      (text : String)
      → (chunks : List ArtifactChunk) × (chunk_artifact hash_quote hash_text artifact evidence
            max_chars text
          ≡ some chunks)
        × All (Spans max_chars) chunks
        × (total_solid chunks ≡ solid text)
  unfolding chunk_artifact
  chunk_artifact-keeps text =
      let (spans, total) =
        chunks_from-keeps (text_length text) 0 0 text (omega arith) (omega arith) in
      let positive : eqb max_chars 0 ≡ false = ground arith in
      (loop (text_length text) 0 0 text, rw positive refl, spans, total)
