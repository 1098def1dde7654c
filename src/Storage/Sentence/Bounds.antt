-- ===== src/Storage/Sentence/Bounds.antt =====
-- The bounds of sentences lie in the text, and two sentences never overlap.
use distributed_documentatio.Base.{
  ℕ, CText, ◌≤◌, Bool, length, ◌≡◌, ◌<◌, ◌+◌, some, arith, ◌∷◌, ◌-◌, true, false, [], refl,
}
use distributed_documentatio.Text.{skip_spaces}
use distributed_documentatio.Storage.Sentence.{scan_bounds, first_sentence, ss_get_sentence_bounds}

-- From byte `start` on, up to `limit`, at an index that is at least `current`.
record Within (index current start limit : ℕ) (b : ℕ × ℕ) : Type 0 where
  reached : current ≤ index
  after : start ≤ b.0
  ordered : b.0 ≤ b.1
  inside : b.1 ≤ limit

scan_bounds-Within :
    (index : ℕ) (skipping : Bool) (current start offset limit : ℕ) (s : CText) (b : ℕ × ℕ)
    → start ≤ offset
    → offset + length s ≡ limit
    → scan_bounds index skipping current start offset s ≡ some b
    → Within index current start limit b
unfolding scan_bounds
scan_bounds-Within index skipping current start offset limit [] b h l e = ground arith
scan_bounds-Within index skipping current start offset limit (c ∷ s) b h l e = ground (
  arith,
  scan_bounds-Within index true current (offset + 1) (offset + 1) limit s b,
  scan_bounds-Within index true (current + 1) (offset + 1) (offset + 1) limit s b,
  scan_bounds-Within index false current start (offset + 1) limit s b,
)

scan_bounds-apart :
    (i j : ℕ) (skipping : Bool) (current start offset : ℕ) (s : CText) (b d : ℕ × ℕ)
    → i < j
    → start ≤ offset
    → scan_bounds i skipping current start offset s ≡ some b
    → scan_bounds j skipping current start offset s ≡ some d
    → b.1 ≤ d.0
unfolding scan_bounds
scan_bounds-apart i j skipping current start offset [] b d lt h e f = ground arith
scan_bounds-apart i j skipping current start offset (c ∷ s) b d lt h e f = ground (
  arith,
  scan_bounds-Within i true (current + 1) (offset + 1) (offset + 1) (offset + 1 + length s) s b,
  scan_bounds-Within j true (current + 1) (offset + 1) (offset + 1) (offset + 1 + length s) s d,
  scan_bounds-apart i j true current (offset + 1) (offset + 1) s b d,
  scan_bounds-apart i j true (current + 1) (offset + 1) (offset + 1) s b d,
  scan_bounds-apart i j false current start (offset + 1) s b d,
)

length-skip_spaces-le : (s : CText) → length (skip_spaces s) ≤ length s
unfolding skip_spaces
length-skip_spaces-le [] = omega arith
length-skip_spaces-le (c ∷ s) = ground (arith, length-skip_spaces-le s)

first_sentence-Within :
    (index lead : ℕ) (s : CText) (b : ℕ × ℕ)
    → first_sentence index lead s ≡ some b
    → Within index 0 lead (lead + length s) b
unfolding first_sentence
first_sentence-Within index lead [] b e = ground arith
first_sentence-Within index lead (c ∷ s) b e =
    scan_bounds-Within index false 0 lead lead _ (c ∷ s) b (omega arith) refl e

first_sentence-apart :
    (i j lead : ℕ) (s : CText) (b d : ℕ × ℕ)
    → i < j
    → first_sentence i lead s ≡ some b
    → first_sentence j lead s ≡ some d
    → b.1 ≤ d.0
unfolding first_sentence
first_sentence-apart i j lead [] b d lt e f = ground arith
first_sentence-apart i j lead (c ∷ s) b d lt e f =
    scan_bounds-apart i j false 0 lead lead (c ∷ s) b d lt (omega arith) e f

-- The bounds of a sentence are in order and lie within the text.
pub bounds_inside :
    (text : CText) (index : ℕ) (b : ℕ × ℕ)
    → ss_get_sentence_bounds text index ≡ some b
    → (b.0 ≤ b.1) × (b.1 ≤ length text)
unfolding ss_get_sentence_bounds
bounds_inside text index b e =
    let w =
      first_sentence-Within index (length text - length (skip_spaces text)) (skip_spaces text) b
        e in
    (w.ordered, omega (arith, w.inside, length-skip_spaces-le text))

-- A sentence ends before any later one of the same text begins, so locks on two sentences cover
-- disjoint spans.
pub bounds_disjoint :
    (text : CText) (i j : ℕ) (b d : ℕ × ℕ)
    → i < j
    → ss_get_sentence_bounds text i ≡ some b
    → ss_get_sentence_bounds text j ≡ some d
    → b.1 ≤ d.0
unfolding ss_get_sentence_bounds
bounds_disjoint text i j b d lt e f =
    first_sentence-apart i j (length text - length (skip_spaces text)) (skip_spaces text) b d lt e f
