-- ===== src/Chunking.antt =====
-- app/services/intelligence/chunking_service.py: text cut into overlapping pieces.
-- A text is its code points; `is_space` is `str.isspace` of a character, by which `strip` cuts.
use mathlib.Core.Option
use in_work_marketing_os_bac.Base.{
  ℕ, zero, suc, ◌+◌, ◌-◌, Bool, true, false, Option, none, some, List, [], ◌∷◌, ◌==◌, ◌&&◌, ltb,
  leb, codes, length, take, min, if◌then◌else◌,
}
use Prim.Native.Nat.{max, ◌/◌}
use in_work_marketing_os_bac.Model.Tables.{Text}
use in_work_marketing_os_bac.Uploads.{strip, is_empty}
pub mod Total

pub record Chunk : Type 0 where
  pub ordinal : ℕ
  pub piece : Text

-- `text[start:end]`
unfoldable pub drop : ℕ → Text → Text
drop zero t = t
drop (suc n) [] = []
drop (suc n) (c ∷ cs) = drop n cs

unfoldable pub slice : Text → ℕ → ℕ → Text
unfolding drop
slice t start end = take (end - start) (drop start t)

abbrev pub starts_with : Text → Text → Bool
starts_with [] t = true
starts_with (s ∷ ss) [] = false
starts_with (s ∷ ss) (c ∷ cs) = s == c && starts_with ss cs

-- `window.rfind(sep)`, where `none` is -1
abbrev last_or : Option ℕ → Bool → Option ℕ
last_or (some i) here = some (suc i)
last_or none true = some 0
last_or none false = none

unfoldable pub rfind : Text → Text → Option ℕ
rfind sep [] = last_or none false
rfind sep (c ∷ cs) = last_or (rfind sep cs) (starts_with sep (c ∷ cs))

-- the first separator that is found past the middle of the window
abbrev past_middle : ℕ → Option ℕ → Bool
past_middle size none = false
past_middle size (some idx) = ltb (size / 2) idx

abbrev index : Option ℕ → ℕ
index none = 0
index (some idx) = idx

unfoldable pub first_break : ℕ → Text → List Text → Option ℕ
first_break size window [] = none
first_break size window (sep ∷ seps) =
    if past_middle size (rfind sep window)
    then some (index (rfind sep window) + length sep)
    else first_break size window seps

abbrev pub separators : List Text
separators = (10 ∷ 10 ∷ []) ∷ (10 ∷ []) ∷ codes ". " ∷ codes " " ∷ []

abbrev break_or : ℕ → ℕ → Option ℕ → ℕ
break_or start end none = end
break_or start end (some offset) = start + offset

-- `_soft_break`
unfoldable pub soft_break : ℕ → Text → ℕ → ℕ → ℕ
soft_break size t start end = break_or start end (first_break size (slice t start end) separators)

-- where the window that starts at `start` ends
unfoldable pub window_end : ℕ → Text → ℕ → ℕ
window_end size t start =
    let end = min (start + size) (length t) in
    if ltb end (length t) then soft_break size t start end else end

abbrev pub numbered : ℕ → Text → List Chunk → List Chunk
numbered ordinal piece later =
    if is_empty piece then later else record { ordinal = ordinal; piece = piece } ∷ later

abbrev pub next_ordinal : ℕ → Text → ℕ
next_ordinal ordinal piece = if is_empty piece then ordinal else ordinal + 1

-- The loop of `chunk`, with fuel; `none` means that it ran out.
unfoldable pub chunk_loop : (ℕ → Bool) → ℕ → ℕ → ℕ → Text → ℕ → ℕ → Option (List Chunk)
chunk_loop is_space zero size overlap t start ordinal = none
chunk_loop is_space (suc fuel) size overlap t start ordinal =
    let end = window_end size t start in
    let piece = strip is_space (slice t start end) in
    let later =
      chunk_loop is_space fuel size overlap t (max (end - overlap) (start + 1))
        (next_ordinal ordinal piece) in
    if ltb start (length t)
    then (if leb (length t) end
        then some (numbered ordinal piece [])
        else Option.map (numbered ordinal piece) later)
    else some []

-- `chunk` of a text that is stripped
unfoldable pub chunk_stripped : (ℕ → Bool) → ℕ → ℕ → Text → Option (List Chunk)
chunk_stripped is_space size overlap t =
    if is_empty t
    then some []
    else if leb (length t) size
    then some (record { ordinal = 0; piece = t } ∷ [])
    else chunk_loop is_space (suc (length t)) size overlap t 0 0

-- `chunk`
unfoldable pub chunk : (ℕ → Bool) → ℕ → ℕ → Text → Option (List Chunk)
chunk is_space size overlap t = chunk_stripped is_space size overlap (strip is_space t)
