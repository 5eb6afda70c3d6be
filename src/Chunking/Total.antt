-- ===== src/Chunking/Total.antt =====
-- The loop ends, and what it cuts.
use Prim.Native.Nat.{max}
use in_work_marketing_os_bac.Base.{
  ℕ, zero, suc, ◌+◌, ◌-◌, ◌≤◌, ◌<◌, Bool, true, false, some, List, [], ◌∷◌, ◌≡◌, ◌≢◌, inl, inr,
  refl, arith, ltb, leb, length, min, Bool-cases, Option-cases,
}
use in_work_marketing_os_bac.Base.Lists.{length-take_le}
use in_work_marketing_os_bac.Model.Tables.{Text}
use in_work_marketing_os_bac.Uploads.{lstrip, rstrip, strip, is_empty}
use in_work_marketing_os_bac.Chunking.{
  Chunk, drop, slice, starts_with, rfind, first_break, separators, soft_break, window_end, numbered,
  next_ordinal, chunk_loop, chunk_stripped, chunk,
}

length-lstrip : (p : ℕ → Bool) (t : Text) → length (lstrip p t) ≤ length t
unfolding lstrip
length-lstrip p [] = omega arith
length-lstrip p (c ∷ cs) = ground (arith, length-lstrip p cs)

length-rstrip : (p : ℕ → Bool) (t : Text) → length (rstrip p t) ≤ length t
unfolding rstrip
length-rstrip p [] = omega arith
length-rstrip p (c ∷ cs) = ground (arith, length-rstrip p cs)

length-strip : (p : ℕ → Bool) (t : Text) → length (strip p t) ≤ length t
unfolding strip
length-strip p t = omega (arith, length-rstrip p (lstrip p t), length-lstrip p t)

length-slice : (t : Text) (a b : ℕ) → length (slice t a b) ≤ b - a
unfolding slice
length-slice t a b = length-take_le (b - a) (drop a t)

starts_with-length : (s t : Text) → starts_with s t ≡ true → length s ≤ length t
starts_with-length [] t h = omega arith
starts_with-length (a ∷ s) [] h = cc
starts_with-length (a ∷ s) (c ∷ t) h = ground (arith, starts_with-length s t)

-- A match lies in the window.
rfind_in_window : (sep w : Text) (i : ℕ) → rfind sep w ≡ some i → i + length sep ≤ length w
unfolding rfind
rfind_in_window sep [] i h = cc
rfind_in_window sep (c ∷ cs) i h = elim (Option-cases (rfind sep cs)) [
  | inr (j, e) ↦ ground (arith, rfind_in_window sep cs j e)
  | inl e ↦ ground (arith, starts_with-length sep (c ∷ cs))
]

first_break_in_window :
    (size : ℕ) (w : Text) (seps : List Text) (i : ℕ)
    → first_break size w seps ≡ some i
    → i ≤ length w
unfolding first_break
first_break_in_window size w [] i h = cc
first_break_in_window size w (sep ∷ seps) i h = elim (Option-cases (rfind sep w)) [
  | inl e ↦ ground (arith, first_break_in_window size w seps i)
  | inr (j, e) ↦ ground (arith, rfind_in_window sep w j e, first_break_in_window size w seps i)
]

soft_break_bound :
    (size : ℕ) (t : Text) (start end : ℕ) → start ≤ end → soft_break size t start end ≤ end
unfolding soft_break
soft_break_bound size t start end h =
    elim (Option-cases (first_break size (slice t start end) separators)) [
      | inl e ↦ rw (e, soft_break) (omega arith)
      | inr (i, e) ↦
          rw (e, soft_break)
            (omega (
              arith,
              h,
              first_break_in_window size (slice t start end) separators i e,
              length-slice t start end,
            ))
    ]

window_end_bound :
    (size : ℕ) (t : Text) (start : ℕ) → start < length t → window_end size t start ≤ start + size
unfolding window_end
window_end_bound size t start h =
    let ordered : start ≤ min (start + size) (length t) = omega arith in
    ground (arith, soft_break_bound size t start (min (start + size) (length t)) ordered)

-- Pieces that are not empty, within the size, and numbered from `ordinal` on.
abbrev pub AreChunks : ℕ → ℕ → List Chunk → Type 0
AreChunks size ordinal [] = Unit {0}
AreChunks size ordinal (c ∷ cs) =
    (c.ordinal ≡ ordinal)
    × (c.piece ≢ [])
    × (length c.piece ≤ size)
    × AreChunks size (ordinal + 1) cs

numbered-AreChunks :
    (size ordinal : ℕ) (piece : Text) (later : List Chunk)
    → length piece ≤ size
    → AreChunks size (next_ordinal ordinal piece) later
    → AreChunks size ordinal (numbered ordinal piece later)
numbered-AreChunks size ordinal [] later h a = a
numbered-AreChunks size ordinal (c ∷ cs) later h a = (refl, cc, h, a)

module _ (is_space : ℕ → Bool) (size overlap : ℕ) (t : Text) where
  piece_bound :
      (start : ℕ)
      → start < length t
      → length (strip is_space (slice t start (window_end size t start))) ≤ size
  piece_bound start h = omega (
    arith,
    length-strip is_space (slice t start (window_end size t start)),
    length-slice t start (window_end size t start),
    window_end_bound size t start h,
  )

  -- The text of one round, and the start of the next.
  abbrev piece_at : ℕ → Text
  piece_at start = strip is_space (slice t start (window_end size t start))

  abbrev next_start : ℕ → ℕ
  next_start start = max (window_end size t start - overlap) (start + 1)

  chunk_loop_total :
      (fuel start ordinal : ℕ)
      → start ≤ length t
      → length t < start + fuel
      → (cs : List Chunk) × (chunk_loop is_space fuel size overlap t start ordinal ≡ some cs)
        × AreChunks size ordinal cs
  unfolding chunk_loop
  chunk_loop_total zero start ordinal b h = absurd (omega arith)
  chunk_loop_total (suc fuel) start ordinal b h = elim (Bool-cases (ltb start (length t))) [
    | inr over ↦ ([], rw over refl, tt)
    | inl inside ↦ elim (Bool-cases (leb (length t) (window_end size t start))) [
      | inl last ↦ (
        numbered ordinal (piece_at start) [],
        rw (inside, last) refl,
        numbered-AreChunks size ordinal (piece_at start) [] (piece_bound start (ground arith)) tt,
      )
      | inr more ↦
          let (cs, done, good) =
            chunk_loop_total fuel (next_start start) (next_ordinal ordinal (piece_at start))
              (ground arith) (omega arith) in
          (
            numbered ordinal (piece_at start) cs,
            rw (inside, more, done) refl,
            numbered-AreChunks size ordinal (piece_at start) cs (piece_bound start (ground arith))
                good,
          )
    ]
  ]

named : (t : Text) → is_empty t ≡ false → t ≢ []
named [] h = cc
named (c ∷ cs) h = cc

-- For every size, overlap and text, also an overlap above the size: the loop of `chunk` ends within one round
-- for each character and one more, and its chunks are numbered from 0, not empty and no longer than the size.
pub chunk_total :
    (is_space : ℕ → Bool) (size overlap : ℕ) (text : Text)
    → (cs : List Chunk) × (chunk is_space size overlap text ≡ some cs) × AreChunks size 0 cs
unfolding chunk chunk_stripped
chunk_total is_space size overlap text =
    let t : Text = strip is_space text in
    elim (Bool-cases (is_empty t)) [
      | inl e ↦ ([], rw e refl, tt)
      | inr e ↦ elim (Bool-cases (leb (length t) size)) [
        | inl small ↦ (
          record { ordinal = 0; piece = t } ∷ [],
          rw (e, small) refl,
          (refl, named t e, ground arith, tt),
        )
        | inr large ↦
            let (cs, done, good) =
              chunk_loop_total is_space size overlap t (suc (length t)) 0 0 (omega arith)
                (omega arith) in
            (cs, rw (e, large, done) refl, good)
      ]
    ]
